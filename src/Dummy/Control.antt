-- ===== src/Dummy/Control.antt =====
-- The commands as a client sees them: a machine with three states.
use emulator_networkaccess.Prelude.{
  map, true, arith, ℕ, ℤ, negsuc, ◌⊎◌, none, some, List, [], ◌∷◌, Bytes, codes, All, ◌≡◌, ◌≢◌, inl,
  inr, refl, ap, sym, ◌∙◌,
}
use emulator_networkaccess.Protocol.{
  Command, emulator_info, emulation_status, emulation_pause, emulation_stop, emulation_reset,
  emulation_resume, emulation_reload, my_name_is, load_game, game_info, cores_list, core_info,
  core_current_info, load_core, core_memories, core_read, core_write, debug_break, debug_continue,
  load_state, save_state, number, invalid_command,
}
use emulator_networkaccess.World.{done, World}
use emulator_networkaccess.Client.{Client, waiting_for_command}
use emulator_networkaccess.Reply.{send_error}
use emulator_networkaccess.Dispatch.Keeps.{send_error-emulator}
use emulator_networkaccess.Dispatch.{Handler, find_handler, execute_command}
use emulator_networkaccess.Dispatch.Names.{NoPrefix, spelling, execute_command-spelling}
use emulator_networkaccess.Command.Format.{format_command}
use emulator_networkaccess.Process.{starts_command, is_alnum}
use emulator_networkaccess.Framing.Parts.{kept}
use emulator_networkaccess.Framing.Loop.{preprocess_data}
use emulator_networkaccess.Framing.Valid.{IsValid}
use emulator_networkaccess.Framing.Reads.{read_all}
use emulator_networkaccess.Framing.Exchange.{IsLine}
use emulator_networkaccess.Framing.Plain.{asking, answered, answered-IsValid, preprocess_data-name}
use emulator_networkaccess.Dummy.Memory.{Status, running, paused, stopped, Dummy}
use emulator_networkaccess.Dummy.Commands.{
  dummy_emu_info, dummy_emu_status, dummy_emu_pause, dummy_emu_stop, dummy_emu_reset,
  dummy_emu_resume, dummy_emu_reload, dummy_load_game, dummy_game_info, dummy_cores_list,
  dummy_core_info, dummy_core_current_info, dummy_core_load, dummy_core_memories, dummy_np,
  dummy_load_state, dummy_save_state,
}
use emulator_networkaccess.Dummy.Machine.{dummy_emulator, generic_emu_mwa_map}

-- The machine that the commands describe.
unfoldable pub transition : Command → Status → Status
transition emulation_pause s = paused
transition emulation_stop s = stopped
transition emulation_resume s = running
transition _ s = s

unfoldable pub transitions : List (Command × List Bytes) → Status → Status
transitions [] s = s
transitions (k ∷ ks) s = transitions ks (transition k.0 s)

-- The commands that neither read nor write a memory.
abbrev pub IsControl : Command → Type 0
IsControl k = (k ≢ core_read) × (k ≢ core_write)

-- What a client sends for a command.
abbrev pub request : Command × List Bytes → Bytes
request k = format_command (spelling k.0) k.1

-- A command that neither reads nor writes a memory, with arguments that fit a line.
abbrev pub IsRequest : Command × List Bytes → Type 0
IsRequest k = IsControl k.0 × IsLine (spelling k.0) k.1

-- A function that returns, and moves the state as its command does.
abbrev Moves : Command → Handler Dummy → Type 0
Moves k f =
    (fd : ℕ) (args : List Bytes) (w : World Dummy)
    → (n : ℤ) × (w' : World Dummy) × (f fd args w ≡ done (n, w'))
      × (w'.emulator.dummy_state ≡ transition k w.emulator.dummy_state)

control_function :
    (k : Command)
    → IsControl k
    → ((find_handler generic_emu_mwa_map (number k) ≡ none) × ((s : Status) → transition k s ≡ s))
      ⊎ ((f : Handler Dummy) × (find_handler generic_emu_mwa_map (number k) ≡ some f) × Moves k f)
unfolding transition find_handler dummy_emu_info dummy_emu_status dummy_emu_pause dummy_emu_stop
    dummy_emu_reset dummy_emu_resume dummy_emu_reload dummy_load_game dummy_game_info
    dummy_cores_list dummy_core_info dummy_core_current_info dummy_core_load dummy_core_memories
    dummy_np dummy_load_state dummy_save_state
control_function emulator_info i = inr (dummy_emu_info, refl, λ fd args w. (_, _, refl, refl))
control_function emulation_status i = inr (dummy_emu_status, refl, λ fd args w. (_, _, refl, refl))
control_function emulation_pause i = inr (dummy_emu_pause, refl, λ fd args w. (_, _, refl, refl))
control_function emulation_stop i = inr (dummy_emu_stop, refl, λ fd args w. (_, _, refl, refl))
control_function emulation_reset i = inr (dummy_emu_reset, refl, λ fd args w. (_, _, refl, refl))
control_function emulation_resume i = inr (dummy_emu_resume, refl, λ fd args w. (_, _, refl, refl))
control_function emulation_reload i = inr (dummy_emu_reload, refl, λ fd args w. (_, _, refl, refl))
control_function load_game i = inr (dummy_load_game, refl, λ fd args w. (_, _, refl, refl))
control_function game_info i = inr (dummy_game_info, refl, λ fd args w. (_, _, refl, refl))
control_function cores_list i = inr (dummy_cores_list, refl, λ fd args w. (_, _, refl, refl))
control_function core_info i = inr (dummy_core_info, refl, λ fd args w. (_, _, refl, refl))
control_function core_current_info i =
    inr (dummy_core_current_info, refl, λ fd args w. (_, _, refl, refl))
control_function load_core i = inr (dummy_core_load, refl, λ fd args w. (_, _, refl, refl))
control_function core_memories i = inr (dummy_core_memories, refl, λ fd args w. (_, _, refl, refl))
control_function debug_break i = inr (dummy_np, refl, λ fd args w. (_, _, refl, refl))
control_function debug_continue i = inr (dummy_np, refl, λ fd args w. (_, _, refl, refl))
control_function load_state i = inr (dummy_load_state, refl, λ fd args w. (_, _, refl, refl))
control_function save_state i = inr (dummy_save_state, refl, λ fd args w. (_, _, refl, refl))
control_function my_name_is i = inl (refl, λ s. refl)
control_function core_read i = absurd (i.0 refl)
control_function core_write i = absurd (i.1 refl)

plain_name :
    (k : Command)
    → IsControl k
    → (b : ℕ) × (t : Bytes) × (spelling k ≡ b ∷ t) × (starts_command b ≡ true) × (b ≢ b'b')
unfolding is_alnum
plain_name core_write i = absurd (i.1 refl)
plain_name _ i = (_, _, refl, refl, omega arith)

module _ (custom : List (Bytes × Handler Dummy))
    (no_custom : (k : Command) → NoPrefix (spelling k) custom) where
  execute_command-transition :
      (k : Command) (args : List Bytes) (c : Client) (w : World Dummy)
      → IsControl k
      → (n : ℤ) × (w' : World Dummy) × (execute_command
            (dummy_emulator custom)
            c
            (spelling k)
            args
            w
          ≡ done (n, record c { current_command = number k }, w'))
        × (w'.emulator.dummy_state ≡ transition k w.emulator.dummy_state)
  execute_command-transition k args c w i =
      let called = execute_command-spelling (dummy_emulator custom) c args w k (no_custom k) in
      elim (control_function k i) [
        | inl (missing, same) ↦ (
          negsuc 0,
          send_error c.socket_fd invalid_command (codes "Invalid command or not implemented") w,
          called ∙ rw (missing) refl,
          ap (λ e. e.dummy_state)
                (send_error-emulator c.socket_fd invalid_command
                  (codes "Invalid command or not implemented") w)
              ∙ sym (same w.emulator.dummy_state),
        )
        | inr (f, found, moves) ↦
            let (n, w', returned, moved) = moves c.socket_fd args w in
            (n, w', called ∙ rw (found, returned) refl, moved)
      ]

  -- A request of a client that waits for a command is read, and the client waits again.
  request-transition :
      (k : Command × List Bytes) (c : Client) (w : World Dummy)
      → IsRequest k
      → IsValid c
      → c.state ≡ waiting_for_command
      → (w' : World Dummy) × (preprocess_data (dummy_emulator custom) c w (request k)
          ≡ done (kept (answered c (number k.0)) w'))
        × (w'.emulator.dummy_state ≡ transition k.0 w.emulator.dummy_state)
  request-transition (k, args) c w h v e =
      let (b, t, is, a, n) = plain_name k h.0 in
      let line = format_command (spelling k) args in
      let (m, w', returned, moved) = execute_command-transition k args (asking c line) w h.0 in
      (
        w',
        preprocess_data-name (dummy_emulator custom) (spelling k) b t args c w m (number k) w' is v
            e a n h.1 returned,
        moved,
      )

  pub read_all-transitions :
      (ks : List (Command × List Bytes)) (c : Client) (w : World Dummy)
      → All IsRequest ks
      → IsValid c
      → c.state ≡ waiting_for_command
      → (c' : Client) × (w' : World Dummy) × (read_all (dummy_emulator custom) c w (map request ks)
          ≡ done (kept c' w'))
        × IsValid c'
        × (c'.state ≡ waiting_for_command)
        × (c'.socket_fd ≡ c.socket_fd)
        × (w'.emulator.dummy_state ≡ transitions ks w.emulator.dummy_state)
  unfolding transitions read_all
  read_all-transitions [] c w h v e = (c, w, refl, v, e, refl, refl)
  read_all-transitions (k ∷ ks) c w h v e =
      let (w1, returned, moved) = request-transition k c w h.0 v e in
      let (c', w', all_returned, valid, waits, same, all_moved) =
        read_all-transitions ks (answered c (number k.0)) w1 h.1
          (answered-IsValid c (number k.0) e v) refl in
      (
        c',
        w',
        rw (returned) all_returned,
        valid,
        waits,
        same,
        all_moved ∙ ap (transitions ks) moved,
      )
