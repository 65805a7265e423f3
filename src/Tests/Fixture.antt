-- ===== src/Tests/Fixture.antt =====
-- An emulator that keeps the last block written to it, and clients of it.
use emulator_networkaccess.Prelude.{[], ◌∷◌, Bytes, pos, false, true, none, some}
use emulator_networkaccess.World.{done, World}
use emulator_networkaccess.Client.{Client, waiting_for_command, getting_binary_data}
use emulator_networkaccess.Dispatch.{Emulator, Handler}

-- `bCORE_WRITE`, with a block of any size.
abbrev pub any_write : Handler Bytes
any_write fd args w = done (pos 0, w)

abbrev pub keeper : Emulator Bytes
keeper = record {
  commands = (17, any_write) ∷ [];
  custom = [];
  write_function = λ fd block w. done (true, record w { emulator = block });
}

abbrev pub idle_world : World Bytes
idle_world = record { emulator = []; trace = [] }

-- A client that has just been accepted.
abbrev pub fresh : Client
fresh = record {
  socket_fd = 7;
  command_data = [];
  shallow_binary_block = false;
  state = waiting_for_command;
  current_command = 0;
  binary_header = [];
  binary_block = none;
  binary_block_defined_size = 0;
  expected_block_size = 0;
}

-- One byte of a block of four was read.
abbrev pub in_block : Client
in_block = record fresh {
  state = getting_binary_data;
  current_command = 17;
  binary_header = 0 ∷ 0 ∷ 0 ∷ 0 ∷ 4 ∷ [];
  binary_block = some (9 ∷ []);
  binary_block_defined_size = 4;
}
