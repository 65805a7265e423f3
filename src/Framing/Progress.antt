-- ===== src/Framing/Progress.antt =====
-- The parts of the loop's body: how far each reads, and the room in the client's block.
use emulator_networkaccess.Prelude.{
  ℕ, ◌+◌, ◌<◌, ◌≤◌, Option, none, some, [], ◌∷◌, ◌++◌, Bytes, length, length-append, ◌≡◌, ◌≢◌, ◌⊎◌,
  arith,
}
use emulator_networkaccess.World.{Outcome, done, fault, out_of_fuel}
use emulator_networkaccess.Client.{waiting_for_command, getting_binary_data, Client}
use emulator_networkaccess.Framing.Parts.{
  Cursor, Flow, next, continue_at, return_false, fill_header, define_block, get_header, ◌then_part◌,
}
use emulator_networkaccess.Framing.Stuck.{IsStuck}

abbrev pub BlockFits : Option Bytes → ℕ → ℕ → Type 0
BlockFits none size n = Unit
BlockFits (some block) size n = 0 < length block → length block < size → length block + n ≤ size

-- The next `n` bytes do not go past the end of a block that is partly read.
abbrev pub Fits : Client → ℕ → Type 0
Fits c n =
    c.state ≡ getting_binary_data
    → length c.binary_header ≡ 5
    → BlockFits c.binary_block c.binary_block_defined_size n

abbrev pub total : {E : Type 0} → Cursor E → ℕ
total s = s.read_pos + length s.unread

-- What holds after the part for the header.
pub record Headed {E : Type 0} (s t : Cursor E) : Type 0 where
  pub getting : t.client.state ≡ getting_binary_data
  pub same_total : total t ≡ total s
  pub fewer : length t.unread ≤ length s.unread
  pub fits : Fits t.client (length t.unread)
  pub short : length t.client.binary_header ≤ 5
  pub progress :
      ((s.client.state ≡ getting_binary_data)
        × (length t.client.binary_header ≡ 5)
        × (length t.unread ≡ length s.unread))
      ⊎ (length t.unread < length s.unread)

-- What holds after the whole body: bytes were read, or a block of size 0 was closed or is stuck.
pub record Advanced {E : Type 0} (s t : Cursor E) : Type 0 where
  pub same_total : total t ≡ total s
  pub fits : Fits t.client (length t.unread)
  pub short : length t.client.binary_header ≤ 5
  pub progress :
      (length t.unread < length s.unread)
      ⊎ ((length t.unread ≡ length s.unread)
          × (t.client.state ≡ waiting_for_command)
          × (s.client.state ≢ waiting_for_command))
      ⊎ (IsStuck t.client)

abbrev pub Hands : {E : Type 0} → (Cursor E → Type 0) → Outcome (Flow E) → Type 0
Hands P (done (next s)) = P s
Hands P (done (continue_at s)) = ⊥
Hands P (done (return_false c w)) = Unit
Hands P (fault f) = Unit
Hands P out_of_fuel = Unit

abbrev pub Leaves : {E : Type 0} → (Cursor E → Type 0) → Outcome (Flow E) → Type 0
Leaves P (done (next s)) = P s
Leaves P (done (continue_at s)) = P s
Leaves P (done (return_false c w)) = Unit
Leaves P (fault f) = Unit
Leaves P out_of_fuel = Unit

pub Leaves-map :
    {E : Type 0} (P Q : Cursor E → Type 0) (m : Outcome (Flow E))
    → ((s : Cursor E) → P s → Q s)
    → Leaves P m
    → Leaves Q m
Leaves-map P Q (done (next s)) h p = h s p
Leaves-map P Q (done (continue_at s)) h p = h s p
Leaves-map P Q (done (return_false c w)) h p = tt
Leaves-map P Q (fault x) h p = tt
Leaves-map P Q out_of_fuel h p = tt

-- The progress of a part counts from where the part for the header began.
pub Headed-Advanced :
    {E : Type 0} (s t : Cursor E)
    → 0 < length s.unread
    → Headed s t
    → (t' : Cursor E) → Advanced t t'
    → Advanced s t'
Headed-Advanced s t n k t' a = ground arith

pub then_part-Leaves :
    {E : Type 0} (P Q : Cursor E → Type 0) (m : Outcome (Flow E)) (f : Cursor E → Outcome (Flow E))
    → Hands P m
    → ((s : Cursor E) → P s → Leaves Q (f s))
    → Leaves Q (m then_part f)
then_part-Leaves P Q (done (next s)) f p h = h s p
then_part-Leaves P Q (done (continue_at s)) f p h = absurd p
then_part-Leaves P Q (done (return_false c w)) f p h = tt
then_part-Leaves P Q (fault x) f p h = tt
then_part-Leaves P Q out_of_fuel f p h = tt

abbrev HeaderRead : Bytes → ℕ → Bytes → Bytes × ℕ × Bytes → Type 0
HeaderRead header i bs r =
    (r.1 + length r.2 ≡ i + length bs)
    × (length r.2 ≤ length bs)
    × (length header < 5 → 0 < length bs → length r.2 < length bs)
    × (length header ≤ 5 → length r.0 ≤ 5)
    × (length r.0 < 5 → length r.2 ≡ 0)

fill_header-HeaderRead :
    (header : Bytes) (i : ℕ) (bs : Bytes) → HeaderRead header i bs (fill_header header i bs)
unfolding fill_header
fill_header-HeaderRead header i [] = ground arith
fill_header-HeaderRead header i (b ∷ bs) =
    ground
      (arith, length-append header (b ∷ []), fill_header-HeaderRead (header ++ (b ∷ [])) (i + 1) bs)

pub get_header-Headed :
    {E : Type 0} (s : Cursor E) (u : ℕ) (us : Bytes)
    → s.client.state ≡ getting_binary_data
    → s.unread ≡ u ∷ us
    → length s.client.binary_header ≤ 5
    → Fits s.client (length s.unread)
    → Hands (Headed s) (get_header getting_binary_data s)
unfolding get_header define_block
get_header-Headed s u us e n l f =
    ground (arith, fill_header-HeaderRead s.client.binary_header s.read_pos s.unread)
