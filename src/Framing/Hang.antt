-- ===== src/Framing/Hang.antt =====
-- A command that no map knows, whose name begins with `b`: its block is awaited all the same.
use emulator_networkaccess.Prelude.{
  ℕ, pos, false, List, [], ◌∷◌, ◌++◌, Bytes, codes, ◌≡◌, ◌≢◌, inl, refl, ◌∙◌, arith, ==_of_ne,
}
use emulator_networkaccess.Protocol.{number, core_write, invalid_command}
use emulator_networkaccess.World.{done, out_of_fuel, World}
use emulator_networkaccess.Client.{waiting_for_command, Client}
use emulator_networkaccess.Command.Format.{format_command}
use emulator_networkaccess.Dispatch.{Emulator, unknown, resolve, execute_command}
use emulator_networkaccess.Reply.{network_order, send_error}
use emulator_networkaccess.Process.{block_length, magnitude}
use emulator_networkaccess.Framing.Parts.{kept}
use emulator_networkaccess.Framing.Loop.{preprocess_data, preprocess_loop}
use emulator_networkaccess.Framing.Feed.{feed}
use emulator_networkaccess.Framing.Valid.{IsValid}
use emulator_networkaccess.Framing.Stuck.{IsStuck, preprocess_loop_stuck}
use emulator_networkaccess.Framing.Blocks.{opened, feed_header}
use emulator_networkaccess.Framing.Exchange.{
  IsLine, calling, called, preprocess_data_waiting, feed_binary_command,
}

-- The header of a block of size 0.
abbrev pub empty_block : Bytes
empty_block = 0 ∷ 0 ∷ 0 ∷ 0 ∷ 0 ∷ []

-- The client that is left.
abbrev pub stuck_client : Client → Client
stuck_client c = opened (called c (pos 0) c.current_command) empty_block []

module _ {E : Type 0} (emu : Emulator E) where
  execute_unknown :
      (c : Client) (cmd : Bytes) (args : List Bytes) (w : World E)
      → resolve emu.custom cmd ≡ unknown
      → execute_command emu c cmd args w
        ≡ done (pos 0, c, send_error c.socket_fd invalid_command (codes "Invalid command") w)
  unfolding execute_command
  execute_unknown c cmd args w u = ground arith

  stuck_client-IsStuck :
      (c : Client)
      → c.shallow_binary_block ≡ false
      → c.current_command ≢ number core_write
      → IsStuck (stuck_client c)
  unfolding block_length
  stuck_client-IsStuck c s n = record {
    state_is = refl;
    header_full = refl;
    block_is = refl;
    size_is = refl;
    not_shallow = s;
    not_write = ==_of_ne c.current_command (number core_write) n;
  }

  feed-empty_block :
      (c : Client) (w : World E)
      → feed emu (called c (pos 0) c.current_command) w empty_block ≡ done (kept (stuck_client c) w)
  unfolding network_order feed
  feed-empty_block c w =
      feed_header emu 0 [] (called c (pos 0) c.current_command) w refl (omega arith)
        (inl (unfold magnitude in refl))

  -- A valid client that waits for a command, throws no block away, and whose last command was not
  -- `bCORE_WRITE` sends, in a line that fits, a command whose name begins with `b` and which neither
  -- table knows, and a block of size 0. `preprocess_data` returns, with an error sent; but on the next
  -- read, whatever its bytes are, the loop of `preprocess_data` comes to no end, whatever its fuel.
  pub unknown_command-hangs :
      (t : Bytes) (args : List Bytes) (c : Client) (w : World E)
      → IsValid c
      → c.state ≡ waiting_for_command
      → c.shallow_binary_block ≡ false
      → c.current_command ≢ number core_write
      → IsLine (b'b' ∷ t) args
      → resolve emu.custom (b'b' ∷ t) ≡ unknown
      → let w' = send_error c.socket_fd invalid_command (codes "Invalid command") w in
        (preprocess_data emu c w (format_command (b'b' ∷ t) args ++ empty_block)
          ≡ done (kept (stuck_client c) w'))
        × ((fuel b : ℕ) (bs : Bytes)
            → preprocess_loop emu fuel
                (record { client = stuck_client c; world = w'; read_pos = 0; unread = b ∷ bs })
              ≡ out_of_fuel)
  unknown_command-hangs t args c w v e s n l u = (
    preprocess_data_waiting emu t args empty_block c w e v.header_short
        ∙ feed_binary_command emu t args empty_block c w (pos 0) c.current_command w' e
            (v.command_idle (λ p. cc)) l
            (execute_unknown (calling c (format_command (b'b' ∷ t) args)) (b'b' ∷ t) args w u)
        ∙ feed-empty_block c w',
    λ fuel b bs.
        preprocess_loop_stuck emu fuel
          (record { client = stuck_client c; world = w'; read_pos = 0; unread = b ∷ bs }) b bs refl
          (stuck_client-IsStuck c s n),
  )
    where
      w' : World E
      w' = send_error c.socket_fd invalid_command (codes "Invalid command") w
