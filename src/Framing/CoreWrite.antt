-- ===== src/Framing/CoreWrite.antt =====
-- `bCORE_WRITE` with its block.
use emulator_networkaccess.Prelude.{
  ℕ, ℤ, pos, ◌^◌, ◌<◌, false, none, some, List, [], ◌∷◌, ◌++◌, Bytes, codes, length, ◌≡◌, ◌⊎◌, refl,
  ap, append-nil, sym, ◌∙◌, arith,
}
use emulator_networkaccess.Protocol.{number, core_write}
use emulator_networkaccess.World.{done, World, ◌>>=◌, >>=_congr, >>=_assoc}
use emulator_networkaccess.Client.{waiting_for_command, Client}
use emulator_networkaccess.Command.Format.{format_command}
use emulator_networkaccess.Dispatch.{
  Emulator, Handler, standard, resolve, find_handler, find_custom, find_command, execute_command,
}
use emulator_networkaccess.Reply.{network_order}
use emulator_networkaccess.Process.{end_block, block_length, process_binary_block, magnitude}
use emulator_networkaccess.Framing.Parts.{kept}
use emulator_networkaccess.Framing.Loop.{preprocess_data}
use emulator_networkaccess.Framing.Feed.{feed}
use emulator_networkaccess.Framing.Valid.{IsValid}
use emulator_networkaccess.Framing.Blocks.{
  block_message, block_length-network_order, opened, feed_block,
}
use emulator_networkaccess.Framing.Exchange.{
  IsLine, calling, called, preprocess_data_waiting, feed_binary_command,
}

abbrev pub core_write_name : Bytes
core_write_name = codes "bCORE_WRITE"

-- The client after the block was written.
abbrev pub written : Client → ℕ → Client
written c size = record c {
  state = waiting_for_command;
  command_data = [];
  current_command = number core_write;
  shallow_binary_block = false;
  expected_block_size = 0;
  binary_block = none;
  binary_block_defined_size = size;
  binary_header = [];
}

module _ {E : Type 0} (emu : Emulator E) where
  resolve_core_write :
      find_custom 0 emu.custom core_write_name ≡ none
      → resolve emu.custom core_write_name ≡ standard (number core_write)
  unfolding resolve find_command
  resolve_core_write n = ground arith

  -- `bCORE_WRITE` reaches the function that the map names for it, if no custom command catches it.
  execute_core_write :
      (c : Client) (args : List Bytes) (w : World E) (f : Handler E) (k : ℤ) (w' : World E)
      → find_custom 0 emu.custom core_write_name ≡ none
      → find_handler emu.commands (number core_write) ≡ some f
      → f c.socket_fd args w ≡ done (k, w')
      → execute_command emu c core_write_name args w
        ≡ done (k, record c { current_command = number core_write }, w')
  unfolding execute_command
  execute_core_write c args w f k w' n h x = ground (arith, resolve_core_write n)

  end_core_write :
      (c : Client) (n : ℕ) (header block : Bytes) (w : World E)
      → c.shallow_binary_block ≡ false
      → end_block emu (opened (called c (pos n) (number core_write)) header block) w ≡ (
          emu.write_function c.socket_fd block w >>= λ r.
          done (written c (block_length header), r.1))
  unfolding end_block process_binary_block
  end_core_write c n header block w s = ground arith

  feed_nil : (c : Client) (w : World E) → feed emu c w [] ≡ done (kept c w)
  unfolding feed
  feed_nil c w = refl

  feed_core_write :
      (args : List Bytes) (d : ℕ) (ds : Bytes) (c : Client) (w : World E) (f : Handler E) (n : ℕ)
      (w' : World E)
      → c.state ≡ waiting_for_command
      → c.command_data ≡ []
      → c.shallow_binary_block ≡ false
      → IsLine core_write_name args
      → find_custom 0 emu.custom core_write_name ≡ none
      → find_handler emu.commands (number core_write) ≡ some f
      → f c.socket_fd args w ≡ done (pos n, w')
      → length (d ∷ ds) < 2 ^ 32
      → (length (d ∷ ds) ≡ magnitude (pos n)) ⊎ (magnitude (pos n) ≡ 0)
      → feed emu c w (format_command core_write_name args ++ (block_message (d ∷ ds) ++ [])) ≡ (
          emu.write_function c.socket_fd (d ∷ ds) w' >>= λ r.
          done (kept (written c (length (d ∷ ds))) r.1))
  feed_core_write args d ds c w f n w' e q s l m h x size fits =
      let c1 = called c (pos n) (number core_write) in
      let header = 0 ∷ network_order (length (d ∷ ds)) in
      feed_binary_command emu (codes "CORE_WRITE") args (block_message (d ∷ ds) ++ []) c w (pos n)
        (number core_write) w' e q l
        (execute_core_write (calling c (format_command core_write_name args)) args w f (pos n) w' m
          h x)
      ∙ feed_block emu d ds [] c1 w' refl size fits
      ∙ >>=_congr (end_block emu (opened c1 header (d ∷ ds)) w') _ (λ r. done (kept r.0 r.1))
          (λ r. feed_nil r.0 r.1)
      ∙ ap (λ m. m >>= λ r. done (kept r.0 r.1)) (end_core_write c n header (d ∷ ds) w' s)
      ∙ >>=_assoc (emu.write_function c.socket_fd (d ∷ ds) w')
          (λ r. done (written c (block_length header), r.1)) (λ r. done (kept r.0 r.1))
      ∙ ap (λ k. emu.write_function c.socket_fd (d ∷ ds) w' >>= λ r. done (kept (written c k) r.1))
          (block_length-network_order (length (d ∷ ds)) size)

  -- A valid client that waits for a command and throws no block away sends `bCORE_WRITE` with its
  -- arguments, in a line that fits, and a block of 1 to 2^32 - 1 bytes, in one read. If the map has a
  -- function for the command, no custom entry's name is a prefix of it, and the function returns 0 or
  -- the size of the block, then that function is called with the arguments, the write function is
  -- called once with exactly the bytes of the block, and the client waits for a command again with its
  -- block closed.
  pub preprocess_data-core_write :
      (args : List Bytes) (d : ℕ) (ds : Bytes) (c : Client) (w : World E) (f : Handler E) (n : ℕ)
      (w' : World E)
      → IsValid c
      → c.state ≡ waiting_for_command
      → c.shallow_binary_block ≡ false
      → IsLine core_write_name args
      → find_custom 0 emu.custom core_write_name ≡ none
      → find_handler emu.commands (number core_write) ≡ some f
      → f c.socket_fd args w ≡ done (pos n, w')
      → length (d ∷ ds) < 2 ^ 32
      → (n ≡ length (d ∷ ds)) ⊎ (n ≡ 0)
      → preprocess_data emu c w (format_command core_write_name args ++ block_message (d ∷ ds)) ≡ (
          emu.write_function c.socket_fd (d ∷ ds) w' >>= λ r.
          done (kept (written c (length (d ∷ ds))) r.1))
  preprocess_data-core_write args d ds c w f n w' v e s l m h x size fits =
      preprocess_data_waiting emu (codes "CORE_WRITE") args (block_message (d ∷ ds)) c w e
        v.header_short
      ∙ ap (λ t. feed emu c w (format_command core_write_name args ++ t))
          (sym (append-nil (block_message (d ∷ ds))))
      ∙ feed_core_write args d ds c w f n w' e (v.command_idle (λ p. cc)) s l m h x size
          (unfold magnitude in ground arith)
