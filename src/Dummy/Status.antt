-- ===== src/Dummy/Status.antt =====
-- The reply to `EMULATION_STATUS`.
use emulator_networkaccess.Prelude.{
  map, true, arith, ℕ, pos, some, List, [], ◌∷◌, ◌++◌, Bytes, codes, All, ◌≡◌, refl, ap, subst, ◌∙◌,
  append_assoc,
}
use emulator_networkaccess.Protocol.{Command, emulation_status, number}
use emulator_networkaccess.World.{done, World, write, ◌>>=◌}
use emulator_networkaccess.Client.{Client, waiting_for_command}
use emulator_networkaccess.Reply.Sent.{delivered, delivered-write}
use emulator_networkaccess.Reply.Parse.{parse_reply}
use emulator_networkaccess.Dispatch.{Handler, find_handler}
use emulator_networkaccess.Dispatch.Names.{NoPrefix, spelling, execute_command-spelling}
use emulator_networkaccess.Dummy.Memory.{Status, running, paused, stopped, Dummy}
use emulator_networkaccess.Dummy.Commands.{dummy_emu_status, state_line}
use emulator_networkaccess.Dummy.Machine.{dummy_emulator}
use emulator_networkaccess.Process.{starts_command, is_alnum}
use emulator_networkaccess.Framing.Parts.{kept}
use emulator_networkaccess.Framing.Loop.{preprocess_data}
use emulator_networkaccess.Framing.Valid.{IsValid}
use emulator_networkaccess.Framing.Reads.{read_all}
use emulator_networkaccess.Framing.Exchange.{IsLine}
use emulator_networkaccess.Framing.Plain.{asking, answered, preprocess_data-command}
use emulator_networkaccess.Dummy.Control.{transitions, request, IsRequest, read_all-transitions}

starts_status : starts_command b'E' ≡ true
unfolding is_alnum
starts_status = refl

-- The protocol's name of a state.
abbrev pub state_name : Status → Bytes
state_name running = codes "running"
state_name paused = codes "paused"
state_name stopped = codes "stopped"

-- What `EMULATION_STATUS` sends.
abbrev status_reply : Status → Bytes
status_reply s = codes "\n" ++ (state_line s ++ codes "\ngame:Dummy game\n\n")

parse_reply-status_reply :
    (s : Status)
    → parse_reply (status_reply s)
      ≡ some ((codes "state", state_name s) ∷ (codes "game", codes "Dummy game") ∷ [])
unfolding parse_reply
parse_reply-status_reply running = refl
parse_reply-status_reply paused = refl
parse_reply-status_reply stopped = refl

status_sent :
    (fd : ℕ) (args : List Bytes) (w : World Dummy)
    → (w' : World Dummy) × (dummy_emu_status fd args w ≡ done (pos 0, w'))
      × (delivered fd w'.trace ≡ delivered fd w.trace ++ status_reply w.emulator.dummy_state)
unfolding dummy_emu_status
status_sent fd args w =
    let w1 = write fd (codes "\n") w in
    let w2 = write fd (state_line w.emulator.dummy_state) w1 in
    (
      _,
      refl,
      delivered-write fd (codes "\ngame:Dummy game\n\n") w2
          ∙ ap (λ t. t ++ codes "\ngame:Dummy game\n\n")
              (delivered-write fd (state_line w.emulator.dummy_state) w1
                ∙ ap (λ t. t ++ state_line w.emulator.dummy_state)
                    (delivered-write fd (codes "\n") w))
          ∙ simp append_assoc,
    )

module _ (custom : List (Bytes × Handler Dummy))
    (no_custom : (k : Command) → NoPrefix (spelling k) custom) where
  status_answered :
      (args : List Bytes) (c : Client) (w : World Dummy)
      → IsLine (spelling emulation_status) args
      → IsValid c
      → c.state ≡ waiting_for_command
      → (w' : World Dummy) × (preprocess_data
            (dummy_emulator custom)
            c
            w
            (request (emulation_status, args))
          ≡ done (kept (answered c (number emulation_status)) w'))
        × (delivered c.socket_fd w'.trace
            ≡ delivered c.socket_fd w.trace ++ status_reply w.emulator.dummy_state)
  unfolding find_handler
  status_answered args c w l v e =
      let line = request (emulation_status, args) in
      let (w', returned, told) = status_sent c.socket_fd args w in
      (
        w',
        preprocess_data-command (dummy_emulator custom) b'E' (codes "MULATION_STATUS") args c w
            (pos 0) (number emulation_status) w' v e starts_status (omega arith) l
            (execute_command-spelling (dummy_emulator custom) (asking c line) args w
                emulation_status (no_custom emulation_status)
              ∙ ap
                  (λ m. m >>= λ r. done (
                    r.0,
                    record (asking c line) { current_command = number emulation_status },
                    r.1,
                  ))
                  returned),
        told,
      )

  -- After requests for any commands but reads and writes of a memory, each in one read by a valid
  -- client that waits for a command, and each of which is carried out, the reply to a request for
  -- EMULATION_STATUS is one ASCII reply of the protocol that names the state which pause, stop and
  -- resume have led to, if no custom entry's name is a prefix of a command.
  pub read_all-status :
      (ks : List (Command × List Bytes)) (args : List Bytes) (c : Client) (w : World Dummy)
      → All IsRequest ks
      → IsLine (spelling emulation_status) args
      → IsValid c
      → c.state ≡ waiting_for_command
      → (c1 : Client) × (w1 : World Dummy) × (w2 : World Dummy) × (reply : Bytes) × (read_all
            (dummy_emulator custom)
            c
            w
            (map request ks)
          ≡ done (kept c1 w1))
        × (preprocess_data (dummy_emulator custom) c1 w1 (request (emulation_status, args))
            ≡ done (kept (answered c1 (number emulation_status)) w2))
        × (delivered c.socket_fd w2.trace ≡ delivered c.socket_fd w1.trace ++ reply)
        × (parse_reply reply
            ≡ some (
                (codes "state", state_name (transitions ks w.emulator.dummy_state))
                ∷ (codes "game", codes "Dummy game")
                ∷ []))
  read_all-status ks args c w h l v e =
      let (c1, w1, returned, valid, waits, same, moved) =
        read_all-transitions custom no_custom ks c w h v e in
      let (w2, replied, told) = status_answered args c1 w1 l valid waits in
      (
        c1,
        w1,
        w2,
        status_reply w1.emulator.dummy_state,
        returned,
        replied,
        subst
            (λ fd.
              delivered fd w2.trace ≡ delivered fd w1.trace ++ status_reply w1.emulator.dummy_state)
            same told,
        parse_reply-status_reply w1.emulator.dummy_state
            ∙ ap
                (λ s.
                  some ((codes "state", state_name s) ∷ (codes "game", codes "Dummy game") ∷ []))
                moved,
      )
