-- ===== src/Framing/Stuck.antt =====
-- The end of a block, and the client that never leaves its block: its command is not `bCORE_WRITE` and
-- did not fail, so that nothing closes the block.
use emulator_networkaccess.Prelude.{
  ℕ, zero, suc, ◌≤◌, false, some, [], ◌∷◌, Bytes, ◌==◌, length, ◌≡◌, ◌⊎◌, refl, ◌∙◌, arith,
}
use emulator_networkaccess.Protocol.{number, core_write}
use emulator_networkaccess.World.{done, out_of_fuel, World, Holds}
use emulator_networkaccess.Client.{waiting_for_command, getting_binary_data, Client}
use emulator_networkaccess.Dispatch.{Emulator}
use emulator_networkaccess.Process.{end_block, process_binary_block}
use emulator_networkaccess.Framing.Parts.{Cursor, continue_at, get_header, get_block, copy_block}
use emulator_networkaccess.Framing.Loop.{iteration, preprocess_loop}
use emulator_networkaccess.Framing.Feed.{feed, feed_in, data_byte, behind_empty}
use emulator_networkaccess.Framing.Body.{iteration-getting}

-- An empty block is complete, and nothing takes it.
pub record IsStuck (c : Client) : Type 0 where
  pub state_is : c.state ≡ getting_binary_data
  pub header_full : length c.binary_header ≡ 5
  pub block_is : c.binary_block ≡ some []
  pub size_is : c.binary_block_defined_size ≡ 0
  pub not_shallow : c.shallow_binary_block ≡ false
  pub not_write : (c.current_command == number core_write) ≡ false

-- What `end_block` leaves: a client that waits for a command, or the client that it was given.
abbrev pub Ended : {E : Type 0} → Client → World E → Client × World E → Type 0
Ended c w r =
    ((r.0.state ≡ waiting_for_command) × (length r.0.binary_header ≤ length c.binary_header))
    ⊎ ((r.0 ≡ c)
        × (r.1 ≡ w)
        × (c.shallow_binary_block ≡ false)
        × ((c.current_command == number core_write) ≡ false))

module _ {E : Type 0} (emu : Emulator E) where
  pub end_block-Ended : (c : Client) (w : World E) → Holds (Ended c w) (end_block emu c w)
  unfolding end_block process_binary_block
  end_block-Ended c w = ground arith

  end_block_stuck : (c : Client) (w : World E) → IsStuck c → end_block emu c w ≡ done (c, w)
  unfolding end_block process_binary_block
  end_block_stuck c w k = ground arith

  iteration_stuck :
      (s : Cursor E) (u : ℕ) (us : Bytes)
      → s.unread ≡ u ∷ us
      → IsStuck s.client
      → iteration emu s ≡ done (continue_at s)
  unfolding get_header get_block copy_block
  iteration_stuck s u us e k =
      iteration-getting emu s k.state_is ∙ ground (arith, end_block_stuck s.client s.world k)

  pub feed_stuck :
      (c : Client) (w : World E) (u : ℕ) (us : Bytes)
      → IsStuck c
      → feed emu c w (u ∷ us) ≡ out_of_fuel
  unfolding feed feed_in data_byte behind_empty
  feed_stuck c w u us k = ground (arith, end_block_stuck c w k)

  -- With fuel at any amount the loop does not come to its end.
  pub preprocess_loop_stuck :
      (fuel : ℕ) (s : Cursor E) (u : ℕ) (us : Bytes)
      → s.unread ≡ u ∷ us
      → IsStuck s.client
      → preprocess_loop emu fuel s ≡ out_of_fuel
  unfolding preprocess_loop
  preprocess_loop_stuck zero s u us e k = refl
  preprocess_loop_stuck (suc fuel) s u us e k =
      ground (arith, iteration_stuck s u us e k, preprocess_loop_stuck fuel s u us e k)
