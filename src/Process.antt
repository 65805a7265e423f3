-- ===== src/Process.antt =====
-- generic poll server/generic_poll_server.c, `process_binary_block`, `process_command`, and what
-- `preprocess_data` does at the end of a block and of a command.
pub mod Keeps
use emulator_networkaccess.Prelude.{
  ℕ, suc, ℤ, pos, negsuc, ◌+◌, ◌*◌, ◌%◌, ◌^◌, Bool, true, false, ◌&&◌, ◌||◌, none, some, [], ◌∷◌,
  Bytes, ◌==◌, leb, if◌then◌else◌,
}
use emulator_networkaccess.Protocol.{core_write, number}
use emulator_networkaccess.World.{Outcome, done, fault, null_pointer, World, ◌>>=◌}
use emulator_networkaccess.Client.{ClientState, waiting_for_command, expecting_binary_data, Client}
use emulator_networkaccess.Command.{split_command}
use emulator_networkaccess.Dispatch.{Emulator, execute_command}

-- `isalnum` in the C locale.
unfoldable pub is_alnum : ℕ → Bool
is_alnum c = leb b'0' c && leb c b'9' || leb b'A' c && leb c b'Z' || leb b'a' c && leb c b'z'

abbrev pub starts_command : ℕ → Bool
starts_command c = c == b'!' || is_alnum c

-- `ntohl(*((uint32_t*)(binary_header + 1)))` of a full header.
unfoldable pub block_length : Bytes → ℕ
block_length (t ∷ a ∷ b ∷ c ∷ d ∷ rest) = ((a * 256 + b) * 256 + c) * 256 + d
block_length _ = 0

-- A negative `expected_size` is negated; the field is an `unsigned int`.
unfoldable pub magnitude : ℤ → ℕ
magnitude (pos n) = n % 2 ^ 32
magnitude (negsuc n) = suc n % 2 ^ 32

abbrev pub is_negative : ℤ → Bool
is_negative (pos n) = false
is_negative (negsuc n) = true

-- `command_data[0] == 'b'`
abbrev pub is_binary_command : Bytes → Bool
is_binary_command [] = false
is_binary_command (c ∷ _) = c == b'b'

-- What `process_command` does behind the call of `execute_command`.
unfoldable pub after_command : ClientState → ℤ → Client → Client
unfolding magnitude
after_command expecting_binary_data expected c = record c {
  shallow_binary_block = if is_negative expected then true else c.shallow_binary_block;
  expected_block_size = magnitude expected;
  binary_block = none;
  binary_header = [];
}
after_command _ expected c = record c { state = waiting_for_command }

module _ {E : Type 0} (emu : Emulator E) where
  -- The block is passed to the write function and freed, for `bCORE_WRITE` alone.
  unfoldable pub process_binary_block : Client → World E → Outcome (Client × World E)
  process_binary_block c w =
      if c.current_command == number core_write
      then elim c.binary_block [
        | none ↦ fault null_pointer
        | some block ↦ emu.write_function c.socket_fd block w >>= λ r. done (
          record c {
            binary_block = none;
            binary_header = [];
            expected_block_size = 0;
            state = waiting_for_command;
          },
          r.1,
        )
      ]
      else done (c, w)

  unfoldable pub process_command : Client → World E → Outcome (Client × World E)
  unfolding after_command
  process_command c w = split_command c.command_data >>= λ line.
      execute_command emu c line.0 line.1 w >>= λ r. done (after_command r.1.state r.0 r.1, r.2)

  -- A complete block is processed, or thrown away if its command failed.
  unfoldable pub end_block : Client → World E → Outcome (Client × World E)
  unfolding process_binary_block
  end_block c w =
      (if c.shallow_binary_block
        then done (
          record c {
            binary_block = none;
            binary_block_defined_size = 0;
            state = waiting_for_command;
          },
          w,
        )
        else process_binary_block c w)
      >>= λ r. done (record r.0 { shallow_binary_block = false }, r.1)

  -- A newline ends the command, which is then executed.
  unfoldable pub end_command : Client → World E → Outcome (Client × World E)
  unfolding process_command
  end_command c w =
      process_command
        (record c {
          state = if is_binary_command c.command_data then expecting_binary_data else c.state;
        })
        w
      >>= λ r. done (record r.0 { command_data = [] }, r.1)
