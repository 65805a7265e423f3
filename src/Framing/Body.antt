-- ===== src/Framing/Body.antt =====
-- The loop's body, by the state that the client is in.
use emulator_networkaccess.Prelude.{
  ℕ, [], ◌∷◌, Bytes, ◌==◌, if◌then◌else◌, ◌≡◌, refl, arith, ap, ◌∙◌,
}
use emulator_networkaccess.World.{Outcome, done, fault, out_of_fuel}
use emulator_networkaccess.Client.{
  waiting_for_command, getting_command, expecting_binary_data, getting_binary_data,
}
use emulator_networkaccess.Dispatch.{Emulator}
use emulator_networkaccess.Framing.Parts.{
  Cursor, Flow, next, continue_at, return_false, ◌then_part◌, expect_block, get_header, get_block,
  start_command, get_command, copy_block, refuse, bad_block,
}
use emulator_networkaccess.Framing.Loop.{iteration}

-- What holds of the variables where a part hands on to the next.
abbrev pub Falls : {E : Type 0} → (Cursor E → Type 0) → Outcome (Flow E) → Type 0
Falls P (done (next s)) = P s
Falls P (done (continue_at s)) = Unit
Falls P (done (return_false c w)) = Unit
Falls P (fault f) = Unit
Falls P out_of_fuel = Unit

then_part_congr :
    {E : Type 0} (P : Cursor E → Type 0) (m : Outcome (Flow E)) (f g : Cursor E → Outcome (Flow E))
    → Falls P m
    → ((s : Cursor E) → P s → f s ≡ g s)
    → (m then_part f) ≡ (m then_part g)
then_part_congr P (done (next s)) f g p h = h s p
then_part_congr P (done (continue_at s)) f g p h = refl
then_part_congr P (done (return_false c w)) f g p h = refl
then_part_congr P (fault x) f g p h = refl
then_part_congr P out_of_fuel f g p h = refl

abbrev pub IsGetting : {E : Type 0} → Cursor E → Type 0
IsGetting s = s.client.state ≡ getting_binary_data

get_header-IsGetting :
    {E : Type 0} (s : Cursor E) → IsGetting s → Falls IsGetting (get_header getting_binary_data s)
unfolding get_header
get_header-IsGetting s e = ground arith

-- The variables behind the first `if`.
unfoldable pub begin_block : {E : Type 0} → Cursor E → Cursor E
begin_block s = record s {
  client = record s.client { state = getting_binary_data; binary_header = [] };
}

module _ {E : Type 0} (emu : Emulator E) where
  pub iteration-waiting :
      (s : Cursor E)
      → s.client.state ≡ waiting_for_command
      → iteration emu s
        ≡ (start_command waiting_for_command s then_part (λ s'. get_command emu s'.client.state s'))
  unfolding iteration expect_block get_header get_block
  iteration-waiting s e = rw e

  pub iteration-command :
      (s : Cursor E)
      → s.client.state ≡ getting_command
      → iteration emu s ≡ get_command emu getting_command s
  unfolding iteration expect_block get_header get_block start_command
  iteration-command s e = rw e

  pub iteration-expecting :
      (s : Cursor E) (b : ℕ) (bs : Bytes)
      → s.client.state ≡ expecting_binary_data
      → s.unread ≡ b ∷ bs
      → iteration emu s ≡ (
          if b == 0
          then iteration emu (begin_block s)
          else refuse bad_block (begin_block s).client s.world)
  unfolding iteration expect_block begin_block
  iteration-expecting s b bs e u = ground arith

  get_block-IsGetting :
      (s : Cursor E) → IsGetting s → Falls IsGetting (get_block emu getting_binary_data s)
  unfolding get_block copy_block
  get_block-IsGetting s e = ground arith

  rest_skipped :
      (m : Outcome (Flow E))
      → Falls IsGetting m
      → (m
          then_part (λ s. start_command s.client.state s)
          then_part (λ s. get_command emu s.client.state s))
        ≡ m
  unfolding start_command get_command
  rest_skipped (done (next s)) p = rw p
  rest_skipped (done (continue_at s)) p = refl
  rest_skipped (done (return_false c w)) p = refl
  rest_skipped (fault f) p = refl
  rest_skipped out_of_fuel p = refl

  -- Behind the data of a block the other parts do nothing.
  after_block :
      (s : Cursor E)
      → IsGetting s
      → (get_block emu s.client.state s
          then_part (λ s. start_command s.client.state s)
          then_part (λ s. get_command emu s.client.state s))
        ≡ get_block emu getting_binary_data s
  after_block s e =
      ap
        (λ state.
          get_block emu state s
          then_part (λ s'. start_command s'.client.state s')
          then_part (λ s'. get_command emu s'.client.state s'))
        e
      ∙ rest_skipped (get_block emu getting_binary_data s) (get_block-IsGetting s e)

  then_part_assoc :
      (m : Outcome (Flow E)) (f g h : Cursor E → Outcome (Flow E))
      → (m then_part f then_part g then_part h) ≡ (m then_part (λ s. f s then_part g then_part h))
  then_part_assoc (done (next s)) f g h = refl
  then_part_assoc (done (continue_at s)) f g h = refl
  then_part_assoc (done (return_false c w)) f g h = refl
  then_part_assoc (fault x) f g h = refl
  then_part_assoc out_of_fuel f g h = refl

  by_parts :
      (s : Cursor E)
      → IsGetting s
      → iteration emu s ≡ (
          get_header getting_binary_data s
          then_part (λ s. get_block emu s.client.state s)
          then_part (λ s. start_command s.client.state s)
          then_part (λ s. get_command emu s.client.state s))
  unfolding iteration expect_block
  by_parts s e = rw e

  pub iteration-getting :
      (s : Cursor E)
      → s.client.state ≡ getting_binary_data
      → iteration emu s
        ≡ (get_header getting_binary_data s then_part (get_block emu getting_binary_data))
  iteration-getting s e =
      by_parts s e
      ∙ then_part_assoc (get_header getting_binary_data s) (λ s. get_block emu s.client.state s)
          (λ s. start_command s.client.state s) (λ s. get_command emu s.client.state s)
      ∙ then_part_congr IsGetting (get_header getting_binary_data s) _ _ (get_header-IsGetting s e)
          after_block
