-- ===== src/Framing/Plain.antt =====
-- A command without a block, from the first byte of its name to its newline.
use emulator_networkaccess.Prelude.{
  ℕ, ℤ, ◌<◌, true, List, [], ◌∷◌, ◌++◌, Bytes, length, length-append, ◌≡◌, ◌≢◌, refl, ap, subst,
  sym, ◌∙◌, arith,
}
use emulator_networkaccess.World.{done, World, ◌>>=◌}
use emulator_networkaccess.Client.{waiting_for_command, getting_command, Client, buffer_size}
use emulator_networkaccess.Command.{split_command}
use emulator_networkaccess.Command.Format.{format_command, join, split_command-format}
use emulator_networkaccess.Dispatch.{Emulator, execute_command}
use emulator_networkaccess.Process.{end_command, process_command, after_command, starts_command}
use emulator_networkaccess.Framing.Parts.{kept}
use emulator_networkaccess.Framing.Loop.{preprocess_data}
use emulator_networkaccess.Framing.Feed.{feed}
use emulator_networkaccess.Framing.Bytewise.{preprocess_data-feed}
use emulator_networkaccess.Framing.Valid.{IsValid, BlockValid}
use emulator_networkaccess.Framing.Lines.{NoNewline, feed_line}
use emulator_networkaccess.Framing.Exchange.{body, format_command-body, body-NoNewline, IsLine}

-- The client when the function of a command is called, and when the command is done.
abbrev pub asking : Client → Bytes → Client
asking c line = record c { state = getting_command; command_data = line }

abbrev pub answered : Client → ℕ → Client
answered c command = record c {
  state = waiting_for_command;
  command_data = [];
  current_command = command;
}

body_first : (b : ℕ) (t : Bytes) (args : List Bytes) → (r : Bytes) × (body (b ∷ t) args ≡ b ∷ r)
body_first b t [] = (t, refl)
body_first b t (a ∷ more) = (t ++ (b' ' ∷ join (a ∷ more)), refl)

module _ {E : Type 0} (emu : Emulator E) where
  end_plain_command :
      (b : ℕ) (r name : Bytes) (args : List Bytes) (c : Client) (w : World E) (k : ℤ) (command : ℕ)
      (w' : World E)
      → b ≢ b'b'
      → split_command (b ∷ r) ≡ done (name, args)
      → execute_command emu (asking c (b ∷ r)) name args w
        ≡ done (k, record (asking c (b ∷ r)) { current_command = command }, w')
      → end_command emu (asking c (b ∷ r)) w ≡ done (answered c command, w')
  unfolding end_command process_command after_command
  end_plain_command b r name args c w k command w' n s x = ground arith

  feed_plain :
      (b : ℕ) (r name : Bytes) (args : List Bytes) (c : Client) (w : World E) (k : ℤ) (command : ℕ)
      (w' : World E)
      → c.state ≡ waiting_for_command
      → c.command_data ≡ []
      → starts_command b ≡ true
      → b ≢ b'b'
      → NoNewline (b ∷ r)
      → length (b ∷ r) < buffer_size
      → split_command (b ∷ (r ++ (b'\n' ∷ []))) ≡ done (name, args)
      → execute_command emu (asking c (b ∷ (r ++ (b'\n' ∷ [])))) name args w
        ≡ done (k, record (asking c (b ∷ (r ++ (b'\n' ∷ [])))) { current_command = command }, w')
      → feed emu c w ((b ∷ r) ++ (b'\n' ∷ [])) ≡ done (kept (answered c command) w')
  unfolding feed
  feed_plain b r name args c w k command w' e d a n nl l s x =
      feed_line emu b r [] c w e d a nl l
      ∙ ap (λ m. m >>= λ r. feed emu r.0 r.1 [])
          (end_plain_command b (r ++ (b'\n' ∷ [])) name args c w k command w' n s x)

  -- A valid client that waits for a command sends a line of the protocol in one read, with a name that
  -- does not begin with b. The name and the arguments are those of the one call of execute_command, and
  -- where this returns, the client waits for a command again.
  pub preprocess_data-command :
      (b : ℕ) (t : Bytes) (args : List Bytes) (c : Client) (w : World E) (k : ℤ) (command : ℕ)
      (w' : World E)
      → IsValid c
      → c.state ≡ waiting_for_command
      → starts_command b ≡ true
      → b ≢ b'b'
      → IsLine (b ∷ t) args
      → execute_command emu (asking c (format_command (b ∷ t) args)) (b ∷ t) args w
        ≡ done
            (k, record (asking c (format_command (b ∷ t) args)) { current_command = command }, w')
      → preprocess_data emu c w (format_command (b ∷ t) args) ≡ done (kept (answered c command) w')
  preprocess_data-command b t args c w k command w' v e a n l x =
      let (r, is_b) = body_first b t args in
      let line = format_command (b ∷ t) args in
      let layout : line ≡ b ∷ (r ++ (b'\n' ∷ [])) =
        format_command-body (b ∷ t) args ∙ ap (λ u. u ++ (b'\n' ∷ [])) is_b in
      ap (preprocess_data emu c w) layout
      ∙ preprocess_data-feed emu c w b (r ++ (b'\n' ∷ [])) v.header_short (λ g. cc)
      ∙ feed_plain b r (b ∷ t) args c w k command w' e (v.command_idle (λ p. cc)) a n
          (subst NoNewline is_b (body-NoNewline (b ∷ t) args l))
          (omega (arith, l.short, ap length layout, length-append (b ∷ r) (b'\n' ∷ [])))
          (ap split_command (sym layout)
            ∙ split_command-format (b ∷ t) args l.name_bytes l.arg_bytes l.no_space l.few_args)
          (subst
            (λ u.
              execute_command emu (asking c u) (b ∷ t) args w
              ≡ done (k, record (asking c u) { current_command = command }, w'))
            layout x)

  -- The same for a name that is only known to be such a one.
  pub preprocess_data-name :
      (name : Bytes) (b : ℕ) (t : Bytes) (args : List Bytes) (c : Client) (w : World E) (k : ℤ)
      (command : ℕ) (w' : World E)
      → name ≡ b ∷ t
      → IsValid c
      → c.state ≡ waiting_for_command
      → starts_command b ≡ true
      → b ≢ b'b'
      → IsLine name args
      → execute_command emu (asking c (format_command name args)) name args w
        ≡ done (k, record (asking c (format_command name args)) { current_command = command }, w')
      → preprocess_data emu c w (format_command name args) ≡ done (kept (answered c command) w')
  preprocess_data-name name b t args c w k command w' is v e a n =
      subst
        (λ u.
          IsLine u args
          → execute_command emu (asking c (format_command u args)) u args w
            ≡ done (k, record (asking c (format_command u args)) { current_command = command }, w')
          → preprocess_data emu c w (format_command u args) ≡ done (kept (answered c command) w'))
        (sym is) (λ l x. preprocess_data-command b t args c w k command w' v e a n l x)

pub answered-IsValid :
    (c : Client) (command : ℕ)
    → c.state ≡ waiting_for_command
    → IsValid c
    → IsValid (answered c command)
answered-IsValid c command e v = record {
  header_short = v.header_short;
  command_room = omega arith;
  command_idle = λ _. refl;
  block_valid = subst (λ s. BlockValid s c) e v.block_valid;
}
