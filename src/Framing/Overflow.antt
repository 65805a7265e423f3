-- ===== src/Framing/Overflow.antt =====
-- The bytes that follow a block which began in an earlier read: the copy is as long as the whole
-- block, and not as what is missing of it.
use emulator_networkaccess.Prelude.{
  ℕ, suc, ◌+◌, ◌*◌, ◌<◌, some, ◌∷◌, Bytes, length, ◌≡◌, refl, ap, ◌∙◌, arith,
}
use emulator_networkaccess.World.{fault, heap_overflow, World}
use emulator_networkaccess.Client.{getting_binary_data, Client}
use emulator_networkaccess.Dispatch.{Emulator}
use emulator_networkaccess.Framing.Parts.{Cursor, get_header, get_block, copy_block}
use emulator_networkaccess.Framing.Loop.{iteration, preprocess_loop, preprocess_data}
use emulator_networkaccess.Framing.Body.{iteration-getting}

module _ {E : Type 0} (emu : Emulator E) where
  iteration_overflow :
      (s : Cursor E) (block : Bytes) (b : ℕ) (bs : Bytes)
      → s.client.state ≡ getting_binary_data
      → length s.client.binary_header ≡ 5
      → s.client.binary_block ≡ some block
      → s.unread ≡ b ∷ bs
      → 0 < length block
      → length block < s.client.binary_block_defined_size
      → s.client.binary_block_defined_size < length block + length (b ∷ bs)
      → iteration emu s ≡ fault heap_overflow
  unfolding get_header get_block copy_block
  iteration_overflow s block b bs e h k n begun partial over =
      iteration-getting emu s e ∙ ground arith

  loop_overflow :
      (fuel : ℕ) (s : Cursor E) (b : ℕ) (bs : Bytes)
      → s.unread ≡ b ∷ bs
      → iteration emu s ≡ fault heap_overflow
      → preprocess_loop emu (suc fuel) s ≡ fault heap_overflow
  unfolding preprocess_loop
  loop_overflow fuel s b bs n e = ground arith

  -- A read that holds more bytes than are missing of a block that an earlier read began is copied
  -- past the end of the block's memory.
  pub preprocess_data_overflow :
      (c : Client) (w : World E) (block : Bytes) (b : ℕ) (bs : Bytes)
      → c.state ≡ getting_binary_data
      → length c.binary_header ≡ 5
      → c.binary_block ≡ some block
      → 0 < length block
      → length block < c.binary_block_defined_size
      → c.binary_block_defined_size < length block + length (b ∷ bs)
      → preprocess_data emu c w (b ∷ bs) ≡ fault heap_overflow
  unfolding preprocess_data
  preprocess_data_overflow c w block b bs e h k begun partial over =
      let s : Cursor E = record { client = c; world = w; read_pos = 0; unread = b ∷ bs } in
      let fuel : 2 * length (b ∷ bs) + 2 ≡ suc (2 * length (b ∷ bs) + 1) = omega arith in
      ap (λ n. preprocess_loop emu n s) fuel
      ∙ loop_overflow (2 * length (b ∷ bs) + 1) s b bs refl
          (iteration_overflow s block b bs e h k refl begun partial over)
