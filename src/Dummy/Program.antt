-- ===== src/Dummy/Program.antt =====
-- dummy/Dummy Emulator/dummy.c, `main`: the whole program, with the server that it includes.
use emulator_networkaccess.Prelude.{ℕ, false, Option, none, some, List, [], ◌∷◌, Bytes}
use emulator_networkaccess.World.{Outcome, done, World, server_started, emit, ◌>>=◌}
use emulator_networkaccess.Client.{Client, waiting_for_command}
use emulator_networkaccess.Dispatch.{Handler}
use emulator_networkaccess.Clients.{Callbacks}
use emulator_networkaccess.Poll.{Server}
use emulator_networkaccess.Serve.{
  server_started_kind, add_callback, Host, Turn, Next, generic_poll_server_start,
}
use emulator_networkaccess.Dummy.Memory.{running, Dummy}
use emulator_networkaccess.Dummy.Machine.{dummy_emulator}
use emulator_networkaccess.Dummy.Savestate.{Files, prep_memory}

-- A slot of the static table, which C fills with zeros.
abbrev pub static_client : Client
static_client = record {
  socket_fd = 0;
  command_data = [];
  shallow_binary_block = false;
  state = waiting_for_command;
  current_command = 0;
  binary_header = [];
  binary_block = none;
  binary_block_defined_size = 0;
  expected_block_size = 0;
}

-- The static variables of the program, by the name of the ROM.
abbrev pub static_dummy : Bytes → Dummy
static_dummy rom_path = record {
  dummy_state = running;
  sram_memory = none;
  wram_memory = none;
  rom_memory = none;
  rom_path = rom_path;
  memory_to_write = none;
  offset_to_write = 0;
  size_written = 0;
  size_to_write = 0;
  size_header_get = false;
}

abbrev pub static_callbacks : Callbacks Dummy
static_callbacks = record {
  add_client = none;
  remove_client = none;
  server_started = none;
  after_poll = none;
}

-- `server_started`, whose line of output is recorded.
abbrev pub tell_started : ℕ → World Dummy → World Dummy
tell_started port w = emit (server_started port) w

unfoldable pub main_callbacks : Callbacks Dummy
unfolding add_callback
main_callbacks = add_callback server_started_kind (some tell_started) static_callbacks

-- The server before its start.
abbrev pub static_server : Dummy → Server Dummy
static_server d = record {
  clients = static_client ∷ static_client ∷ static_client ∷ static_client ∷ static_client ∷ [];
  world = record { emulator = d; trace = [] };
}

-- `main`, from its arguments, the program's name the first; `done none` is `exit(1)`.
unfoldable pub main :
    List (Bytes × Handler Dummy)
    → (ℕ → Option Bytes)
    → (Bytes → Bytes → Files)
    → Host
    → List Turn
    → List Bytes
    → Outcome (Option (Next Dummy))
unfolding prep_memory generic_poll_server_start main_callbacks
main custom malloc files host ts (program ∷ rom_path ∷ state_path ∷ []) =
    prep_memory malloc (files rom_path state_path) (static_dummy rom_path) >>= λ o. elim o [
      | none ↦ done none
      | some d ↦
          generic_poll_server_start (dummy_emulator custom) main_callbacks host ts (static_server d)
          >>= λ next. done (some next)
    ]
main custom malloc files host ts argv = done none
