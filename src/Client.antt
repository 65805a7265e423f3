-- ===== src/Client.antt =====
-- generic poll server/generic_poll_server.h: a connected client.
use emulator_networkaccess.Prelude.{ℕ, Bool, Option, Bytes}

-- `generic_poll_server_client_state`
pub data ClientState : Type 0 where
  waiting_for_command getting_command expecting_binary_data getting_binary_data : ClientState

-- `generic_poll_server_client`. An array is the list of the bytes in use, and its counter is the
-- length of that list:
-- * `command_data` with `command_data_pos` (`command_data_size` is a copy of it for a call);
-- * `binary_header` with `binary_header_size`;
-- * `binary_block`, `none` for NULL, with `binary_block_size`.
-- `readed_data` and `readed_size` only carry the bytes of one `read` into `preprocess_data`: they are
-- an argument there.
pub record Client : Type 0 where
  pub socket_fd : ℕ
  pub command_data : Bytes
  pub shallow_binary_block : Bool
  pub state : ClientState
  pub current_command : ℕ
  pub binary_header : Bytes
  pub binary_block : Option Bytes
  pub binary_block_defined_size : ℕ
  pub expected_block_size : ℕ

-- `sizeof(command_data)` and `sizeof(readed_data)`
abbrev pub buffer_size : ℕ
buffer_size = 2048

abbrev pub header_size : ℕ
header_size = 5
