-- ===== src/Dummy/Machine.antt =====
-- dummy/Dummy Emulator/dummy.c: the tables that the server finds in the program.
use emulator_networkaccess.Prelude.{ℕ, List, [], ◌∷◌, Bytes}
use emulator_networkaccess.Protocol.{
  emulator_info, emulation_status, emulation_pause, emulation_stop, emulation_reset,
  emulation_resume, emulation_reload, load_game, game_info, cores_list, core_info,
  core_current_info, load_core, core_memories, core_read, core_write, debug_break, debug_continue,
  load_state, save_state, number,
}
use emulator_networkaccess.Dispatch.{Handler, Emulator}
use emulator_networkaccess.Dummy.Memory.{Dummy}
use emulator_networkaccess.Dummy.Commands.{
  dummy_emu_info, dummy_emu_status, dummy_emu_pause, dummy_emu_stop, dummy_emu_reset,
  dummy_emu_resume, dummy_emu_reload, dummy_load_game, dummy_game_info, dummy_cores_list,
  dummy_core_info, dummy_core_current_info, dummy_core_load, dummy_core_memories,
  dummy_core_memory_read, dummy_core_memory_write, dummy_np, dummy_load_state, dummy_save_state,
}
use emulator_networkaccess.Dummy.WriteBlock.{write_to_memory}

-- `generic_emu_mwa_map`
abbrev pub generic_emu_mwa_map : List (ℕ × Handler Dummy)
generic_emu_mwa_map =
    (number emulator_info, dummy_emu_info)
    ∷ (number emulation_status, dummy_emu_status)
    ∷ (number emulation_pause, dummy_emu_pause)
    ∷ (number emulation_stop, dummy_emu_stop)
    ∷ (number emulation_reset, dummy_emu_reset)
    ∷ (number emulation_resume, dummy_emu_resume)
    ∷ (number emulation_reload, dummy_emu_reload)
    ∷ (number load_game, dummy_load_game)
    ∷ (number game_info, dummy_game_info)
    ∷ (number cores_list, dummy_cores_list)
    ∷ (number core_info, dummy_core_info)
    ∷ (number core_current_info, dummy_core_current_info)
    ∷ (number load_core, dummy_core_load)
    ∷ (number core_memories, dummy_core_memories)
    ∷ (number core_read, dummy_core_memory_read)
    ∷ (number core_write, dummy_core_memory_write)
    ∷ (number debug_break, dummy_np)
    ∷ (number debug_continue, dummy_np)
    ∷ (number load_state, dummy_load_state)
    ∷ (number save_state, dummy_save_state)
    ∷ []

-- The program as the server sees it. `custom_emu_nwa_map` is not defined in it, so it is a parameter.
abbrev pub dummy_emulator : List (Bytes × Handler Dummy) → Emulator Dummy
dummy_emulator custom = record {
  commands = generic_emu_mwa_map;
  custom = custom;
  write_function = write_to_memory;
}
