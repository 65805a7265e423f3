-- ===== src/Framing/Exchange.antt =====
-- A command that is followed by a binary block, from the first byte of its name to the last of the
-- block.
use emulator_networkaccess.Prelude.{
  ℕ, ℤ, ◌<◌, ◌≤◌, true, none, List, [], ◌∷◌, ◌++◌, Bytes, length, length-append, All, ◌≡◌, refl, ap,
  subst, append_assoc, sym, ◌∙◌, arith, if◌then◌else◌,
}
use emulator_networkaccess.World.{done, World, ◌>>=◌}
use emulator_networkaccess.Client.{
  waiting_for_command, getting_command, expecting_binary_data, Client, buffer_size,
}
use emulator_networkaccess.Command.{split_command, max_args}
use emulator_networkaccess.Command.Format.{
  format_command, join, IsNameByte, IsArg, IsArgByte, NoLeadingSpace, split_command-format,
}
use emulator_networkaccess.Dispatch.{Emulator, execute_command}
use emulator_networkaccess.Process.{
  end_command, process_command, after_command, magnitude, is_negative, is_alnum,
}
use emulator_networkaccess.Framing.Loop.{preprocess_data}
use emulator_networkaccess.Framing.Feed.{feed}
use emulator_networkaccess.Framing.Bytewise.{preprocess_data-feed}
use emulator_networkaccess.Framing.Lines.{NoNewline, feed_line}

-- A command line without its newline.
abbrev pub body : Bytes → List Bytes → Bytes
body name [] = name
body name (a ∷ more) = name ++ (b' ' ∷ join (a ∷ more))

pub format_command-body :
    (name : Bytes) (args : List Bytes) → format_command name args ≡ body name args ++ (b'\n' ∷ [])
format_command-body name [] = refl
format_command-body name (a ∷ more) = sym (append_assoc name (b' ' ∷ join (a ∷ more)) (b'\n' ∷ []))

-- What a line of the protocol is made of, and that it fits the client's buffer.
pub record IsLine (name : Bytes) (args : List Bytes) : Type 0 where
  pub name_bytes : All IsNameByte name
  pub arg_bytes : All IsArg args
  pub no_space : NoLeadingSpace args
  pub few_args : length args ≤ max_args
  pub short : length (format_command name args) ≤ buffer_size

NoNewline-append : (xs ys : Bytes) → NoNewline xs → NoNewline ys → NoNewline (xs ++ ys)
NoNewline-append [] ys p q = q
NoNewline-append (x ∷ xs) ys p q = (p.0, NoNewline-append xs ys p.1 q)

name-NoNewline : (name : Bytes) → All IsNameByte name → NoNewline name
name-NoNewline [] p = tt
name-NoNewline (c ∷ cs) p = (p.0.1, name-NoNewline cs p.1)

arg-NoNewline : (a : Bytes) → All IsArgByte a → NoNewline a
arg-NoNewline [] p = tt
arg-NoNewline (c ∷ cs) p = (p.0.1, arg-NoNewline cs p.1)

join-NoNewline : (args : List Bytes) → All IsArg args → NoNewline (join args)
join-NoNewline [] p = tt
join-NoNewline (a ∷ []) p = arg-NoNewline a p.0.0
join-NoNewline (a ∷ b ∷ more) p =
    NoNewline-append a (b';' ∷ join (b ∷ more)) (arg-NoNewline a p.0.0)
      (omega arith, join-NoNewline (b ∷ more) p.1)

pub body-NoNewline :
    (name : Bytes) (args : List Bytes) → IsLine name args → NoNewline (body name args)
body-NoNewline name [] l = name-NoNewline name l.name_bytes
body-NoNewline name (a ∷ more) l =
    NoNewline-append name (b' ' ∷ join (a ∷ more)) (name-NoNewline name l.name_bytes)
      (omega arith, join-NoNewline (a ∷ more) l.arg_bytes)

-- The client when the function of a command is called, and when the command is done.
abbrev pub calling : Client → Bytes → Client
calling c line = record c { state = expecting_binary_data; command_data = line }

abbrev pub called : Client → ℤ → ℕ → Client
called c k command = record c {
  state = expecting_binary_data;
  command_data = [];
  current_command = command;
  shallow_binary_block = if is_negative k then true else c.shallow_binary_block;
  expected_block_size = magnitude k;
  binary_block = none;
  binary_header = [];
}

body_b : (t : Bytes) (args : List Bytes) → (r : Bytes) × (body (b'b' ∷ t) args ≡ b'b' ∷ r)
body_b t [] = (t, refl)
body_b t (a ∷ more) = (t ++ (b' ' ∷ join (a ∷ more)), refl)

module _ {E : Type 0} (emu : Emulator E) where
  end_binary_command :
      (r : Bytes) (name : Bytes) (args : List Bytes) (c : Client) (w : World E) (k : ℤ)
      (command : ℕ) (w' : World E)
      → split_command (b'b' ∷ r) ≡ done (name, args)
      → execute_command emu (calling c (b'b' ∷ r)) name args w
        ≡ done (k, record (calling c (b'b' ∷ r)) { current_command = command }, w')
      → end_command emu (record c { state = getting_command; command_data = b'b' ∷ r }) w
        ≡ done (called c k command, w')
  unfolding end_command process_command after_command
  end_binary_command r name args c w k command w' s x = ground arith

  feed_b_line :
      (r : Bytes) (name : Bytes) (args : List Bytes) (rest : Bytes) (c : Client) (w : World E)
      (k : ℤ) (command : ℕ) (w' : World E)
      → c.state ≡ waiting_for_command
      → c.command_data ≡ []
      → NoNewline (b'b' ∷ r)
      → length (b'b' ∷ r) < buffer_size
      → (line : Bytes) → line ≡ (b'b' ∷ r) ++ (b'\n' ∷ [])
      → split_command line ≡ done (name, args)
      → execute_command emu (calling c line) name args w
        ≡ done (k, record (calling c line) { current_command = command }, w')
      → feed emu c w (line ++ rest) ≡ feed emu (called c k command) w' rest
  feed_b_line r name args rest c w k command w' e d n l line is s x =
      ap (λ t. feed emu c w (t ++ rest)) is
      ∙ ap (feed emu c w) (append_assoc (b'b' ∷ r) (b'\n' ∷ []) rest)
      ∙ feed_line emu b'b' r rest c w e d (unfold is_alnum in refl) n l
      ∙ ap (λ m. m >>= λ r. feed emu r.0 r.1 rest)
          (end_binary_command (r ++ (b'\n' ∷ [])) name args c w k command w' (rw (← is) s) (
            subst
              (λ t.
                execute_command emu (calling c t) name args w
                ≡ done (k, record (calling c t) { current_command = command }, w'))
              is x))

  -- A command whose name begins with `b` is executed, and its block is awaited.
  pub feed_binary_command :
      (t : Bytes) (args : List Bytes) (rest : Bytes) (c : Client) (w : World E) (k : ℤ)
      (command : ℕ) (w' : World E)
      → c.state ≡ waiting_for_command
      → c.command_data ≡ []
      → IsLine (b'b' ∷ t) args
      → execute_command emu (calling c (format_command (b'b' ∷ t) args)) (b'b' ∷ t) args w
        ≡ done (
          k,
          record (calling c (format_command (b'b' ∷ t) args)) { current_command = command },
          w',
        )
      → feed emu c w (format_command (b'b' ∷ t) args ++ rest)
        ≡ feed emu (called c k command) w' rest
  feed_binary_command t args rest c w k command w' e d l x =
      let (r, is_b) = body_b t args in
      let layout = format_command-body (b'b' ∷ t) args ∙ ap (λ u. u ++ (b'\n' ∷ [])) is_b in
      feed_b_line r (b'b' ∷ t) args rest c w k command w' e d
        (subst NoNewline is_b (body-NoNewline (b'b' ∷ t) args l))
        (omega (arith, l.short, ap length layout, length-append (b'b' ∷ r) (b'\n' ∷ [])))
        (format_command (b'b' ∷ t) args) layout
        (split_command-format (b'b' ∷ t) args l.name_bytes l.arg_bytes l.no_space l.few_args) x

  format_command_b :
      (t : Bytes) (args : List Bytes) (rest : Bytes)
      → (r : Bytes) × (format_command (b'b' ∷ t) args ++ rest ≡ b'b' ∷ r)
  format_command_b t [] rest = ((t ++ (b'\n' ∷ [])) ++ rest, refl)
  format_command_b t (a ∷ more) rest =
      ((t ++ (b' ' ∷ (join (a ∷ more) ++ (b'\n' ∷ [])))) ++ rest, refl)

  -- A read that begins where the client waits for a command.
  pub preprocess_data_waiting :
      (t : Bytes) (args : List Bytes) (rest : Bytes) (c : Client) (w : World E)
      → c.state ≡ waiting_for_command
      → length c.binary_header ≤ 5
      → preprocess_data emu c w (format_command (b'b' ∷ t) args ++ rest)
        ≡ feed emu c w (format_command (b'b' ∷ t) args ++ rest)
  preprocess_data_waiting t args rest c w e h =
      let (r, is_b) = format_command_b t args rest in
      ap (preprocess_data emu c w) is_b
      ∙ preprocess_data-feed emu c w b'b' r h (λ g. cc)
      ∙ ap (feed emu c w) (sym is_b)
