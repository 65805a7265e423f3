-- ===== src/Framing/Advance.antt =====
-- The rounds of the loop of `preprocess_data`, and how far each reads.
use native.Mathlib.Decide.{ℕ_discrete}
use emulator_networkaccess.Prelude.{
  ℕ, ◌+◌, ◌<◌, ◌≤◌, some, [], ◌∷◌, ◌++◌, Bytes, length, length-append, length-take, length-drop,
  take, ◌≡◌, ◌≢◌, inl, inr, refl, ap, List-cases, Option-cases, arith, min,
}
use emulator_networkaccess.World.{World, Holds}
use emulator_networkaccess.Client.{
  ClientState, waiting_for_command, getting_command, expecting_binary_data, getting_binary_data,
  Client,
}
use emulator_networkaccess.Dispatch.{Emulator}
use emulator_networkaccess.Process.Keeps.{end_command-Commanded}
use emulator_networkaccess.Framing.Parts.{
  Cursor, get_header, get_block, copy_block, collect_command, start_command, get_command,
}
use emulator_networkaccess.Framing.Body.{
  iteration-waiting, iteration-command, iteration-expecting, iteration-getting, begin_block,
}
use emulator_networkaccess.Framing.Loop.{iteration}
use emulator_networkaccess.Framing.Stuck.{end_block-Ended}
use emulator_networkaccess.Framing.Progress.{
  Fits, Headed, Advanced, Headed-Advanced, Leaves, Leaves-map, then_part-Leaves, get_header-Headed,
}

module _ {E : Type 0} (emu : Emulator E) where
  -- A byte of the block's data was read, or the block was empty.
  copy_block-Advanced :
      (s : Cursor E) (block : Bytes) (u : ℕ) (us : Bytes)
      → s.client.state ≡ getting_binary_data
      → s.unread ≡ u ∷ us
      → length s.client.binary_header ≡ 5
      → s.client.binary_block ≡ some block
      → Leaves (Advanced s) (copy_block emu s block)
  unfolding copy_block
  copy_block-Advanced s block u us e n h k =
      let size = s.client.binary_block_defined_size in
      let copy_size = min (length s.unread) size in
      let block' = block ++ take copy_size s.unread in
      ground (
        arith,
        end_block-Ended emu (record s.client { binary_block = some block' }) s.world,
        length-append block (take copy_size s.unread),
        length-take copy_size s.unread,
        length-drop copy_size s.unread,
      )

  get_block-Advanced :
      (s : Cursor E) (u : ℕ) (us : Bytes)
      → s.unread ≡ u ∷ us
      → (t : Cursor E) → Headed s t
      → Leaves (Advanced s) (get_block emu getting_binary_data t)
  unfolding get_block
  get_block-Advanced s u us n t k = elim (ℕ_discrete (length t.client.binary_header) 5) [
    | no short ↦ ground arith
    | yes full ↦ elim (List-cases t.unread) [
      | inl empty ↦ ground arith
      | inr (v, vs, more) ↦ elim (Option-cases t.client.binary_block) [
        | inl null ↦ ground arith
        | inr (block, there) ↦
            rw (full, more, there)
              (Leaves-map (Advanced t) (Advanced s) _
                (Headed-Advanced s t (omega (arith, ap length n)) k)
                (copy_block-Advanced t block v vs k.getting more full there))
      ]
    ]
  ]

  abbrev pub Collected : ℕ → Bytes → Cursor E → Type 0
  Collected i bs s =
      (s.read_pos + length s.unread ≡ i + length bs)
      × (s.client.state ≢ getting_binary_data)
      × (length s.unread ≤ length bs)
      × (0 < length bs → length s.unread < length bs)
      × (length s.client.binary_header ≤ 5)

  collect_command-Collected :
      (c : Client) (w : World E) (i : ℕ) (bs : Bytes)
      → c.state ≡ getting_command
      → length c.binary_header ≤ 5
      → Holds (Collected i bs) (collect_command emu c w i bs)
  unfolding collect_command
  collect_command-Collected c w i [] e h = ground arith
  collect_command-Collected c w i (b ∷ bs) e h =
      let c' = record c { command_data = c.command_data ++ (b ∷ []) } in
      ground
        (arith, collect_command-Collected c' w (i + 1) bs e h, end_command-Commanded emu c' w e)

  iteration-Advanced_getting :
      (s : Cursor E) (u : ℕ) (us : Bytes)
      → s.client.state ≡ getting_binary_data
      → s.unread ≡ u ∷ us
      → length s.client.binary_header ≤ 5
      → Fits s.client (length s.unread)
      → Leaves (Advanced s) (iteration emu s)
  iteration-Advanced_getting s u us e n l f = rw (iteration-getting emu s e) (
      then_part-Leaves (Headed s) (Advanced s) (get_header getting_binary_data s) _
        (get_header-Headed s u us e n l f) (get_block-Advanced s u us n))

  begun :
      (s : Cursor E)
      → s.client.state ≡ expecting_binary_data
      → (t : Cursor E) → Advanced (begin_block s) t
      → Advanced s t
  unfolding begin_block
  begun s e t a = ground arith

  -- One round of the loop.
  pub iteration-Advanced :
      (s : Cursor E) (u : ℕ) (us : Bytes)
      → s.unread ≡ u ∷ us
      → length s.client.binary_header ≤ 5
      → Fits s.client (length s.unread)
      → (state : ClientState) → s.client.state ≡ state
      → Leaves (Advanced s) (iteration emu s)
  unfolding start_command get_command begin_block
  iteration-Advanced s u us n l f waiting_for_command e = rw (iteration-waiting emu s e) (
      ground (
        arith,
        collect_command-Collected (record s.client { state = getting_command }) s.world s.read_pos
            s.unread refl l,
      ))
  iteration-Advanced s u us n l f getting_command e =
      rw (iteration-command emu s e)
        (ground (arith, collect_command-Collected s.client s.world s.read_pos s.unread e l))
  iteration-Advanced s u us n l f expecting_binary_data e =
      rw (iteration-expecting emu s u us e n) (
        ground (
          arith,
          Leaves-map (Advanced (begin_block s)) (Advanced s) (iteration emu (begin_block s))
              (begun s e),
          iteration-Advanced_getting (begin_block s) u us refl n,
        ))
  iteration-Advanced s u us n l f getting_binary_data e = iteration-Advanced_getting s u us e n l f
