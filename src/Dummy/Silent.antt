-- ===== src/Dummy/Silent.antt =====
-- The commands that succeed without a reply, where the protocol has an empty one.
use emulator_networkaccess.Prelude.{ℕ, pos, some, List, Bytes, ◌≡◌, refl, ◌∙◌}
use emulator_networkaccess.Protocol.{
  Command, emulation_pause, emulation_stop, emulation_reset, emulation_resume, emulation_reload,
  load_game, load_core, debug_break, debug_continue, load_state, save_state, number,
}
use emulator_networkaccess.World.{done, World}
use emulator_networkaccess.Client.{Client}
use emulator_networkaccess.Dispatch.{Handler, find_handler, execute_command}
use emulator_networkaccess.Dispatch.Names.{NoPrefix, spelling, execute_command-spelling}
use emulator_networkaccess.Dummy.Memory.{Dummy}
use emulator_networkaccess.Dummy.Commands.{
  dummy_emu_pause, dummy_emu_stop, dummy_emu_reset, dummy_emu_resume, dummy_emu_reload,
  dummy_load_game, dummy_core_load, dummy_np, dummy_load_state, dummy_save_state,
}
use emulator_networkaccess.Dummy.Machine.{dummy_emulator, generic_emu_mwa_map}

-- The commands that change the emulation, and those of a debugger.
abbrev pub IsSilent : Command → Type 0
IsSilent emulation_pause = Unit
IsSilent emulation_stop = Unit
IsSilent emulation_reset = Unit
IsSilent emulation_resume = Unit
IsSilent emulation_reload = Unit
IsSilent load_game = Unit
IsSilent load_core = Unit
IsSilent debug_break = Unit
IsSilent debug_continue = Unit
IsSilent load_state = Unit
IsSilent save_state = Unit
IsSilent _ = ⊥

-- A function that returns 0 and leaves the trace as it is.
abbrev SendsNothing : Handler Dummy → Type 0
SendsNothing f =
    (fd : ℕ) (args : List Bytes) (w : World Dummy)
    → (w' : World Dummy) × (f fd args w ≡ done (pos 0, w')) × (w'.trace ≡ w.trace)

silent_function :
    (k : Command)
    → IsSilent k
    → (f : Handler Dummy) × (find_handler generic_emu_mwa_map (number k) ≡ some f) × SendsNothing f
unfolding find_handler dummy_emu_pause dummy_emu_stop dummy_emu_reset dummy_emu_resume
    dummy_emu_reload dummy_load_game dummy_core_load dummy_np dummy_load_state dummy_save_state
silent_function emulation_pause i = (dummy_emu_pause, refl, λ fd args w. (_, refl, refl))
silent_function emulation_stop i = (dummy_emu_stop, refl, λ fd args w. (_, refl, refl))
silent_function emulation_reset i = (dummy_emu_reset, refl, λ fd args w. (_, refl, refl))
silent_function emulation_resume i = (dummy_emu_resume, refl, λ fd args w. (_, refl, refl))
silent_function emulation_reload i = (dummy_emu_reload, refl, λ fd args w. (_, refl, refl))
silent_function load_game i = (dummy_load_game, refl, λ fd args w. (_, refl, refl))
silent_function load_core i = (dummy_core_load, refl, λ fd args w. (_, refl, refl))
silent_function debug_break i = (dummy_np, refl, λ fd args w. (_, refl, refl))
silent_function debug_continue i = (dummy_np, refl, λ fd args w. (_, refl, refl))
silent_function load_state i = (dummy_load_state, refl, λ fd args w. (_, refl, refl))
silent_function save_state i = (dummy_save_state, refl, λ fd args w. (_, refl, refl))
silent_function _ i = absurd i

-- A command that changes the emulation of the dummy emulator, or one of a debugger, returns 0, and
-- nothing is sent, if no custom entry's name is a prefix of it.
pub execute_command_silent :
    (custom : List (Bytes × Handler Dummy)) (k : Command) (c : Client) (args : List Bytes)
    (w : World Dummy)
    → IsSilent k
    → NoPrefix (spelling k) custom
    → (w' : World Dummy) × (execute_command (dummy_emulator custom) c (spelling k) args w
        ≡ done (pos 0, record c { current_command = number k }, w'))
      × (w'.trace ≡ w.trace)
execute_command_silent custom k c args w i p =
    let called = execute_command-spelling (dummy_emulator custom) c args w k p in
    let (f, found, silent) = silent_function k i in
    let (w', returned, same) = silent c.socket_fd args w in
    (w', called ∙ rw (found, returned) refl, same)
