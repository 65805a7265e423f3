-- ===== src/Dispatch/Keeps.antt =====
-- A property of the emulator's state that its functions keep.
use emulator_networkaccess.Prelude.{
  ℕ, ℤ, ◌+◌, Option, none, some, List, [], ◌∷◌, Bytes, codes, All, subst, sym, Bool-cases,
  Option-cases, ◌==◌, ◌≡◌, inl, inr, refl, arith,
}
use emulator_networkaccess.Protocol.{command_strings, ErrorType, invalid_command}
use emulator_networkaccess.World.{done, World, ◌>>=◌, Holds, >>=-Holds, Holds-any}
use emulator_networkaccess.Reply.{send_error}
use emulator_networkaccess.Client.{Client}
use emulator_networkaccess.Dispatch.{
  Handler, Emulator, Target, unknown, standard, custom_entry, has_prefix, find_command, find_custom,
  find_handler, resolve, call_standard, call_target, execute_command,
}

-- A function of a command map keeps `P`.
abbrev pub Keeping : {E : Type 0} → (E → Type 0) → Handler E → Type 0
Keeping P f =
    (fd : ℕ) (args : List Bytes) (w : World _)
    → P w.emulator
    → Holds (λ r. P r.1.emulator) (f fd args w)

-- All that the server calls of the program keeps `P`.
pub record Keeps {E : Type 0} (P : E → Type 0) (emu : Emulator E) : Type 0 where
  pub commands_keep : All (λ e. Keeping P e.1) emu.commands
  pub custom_keep : All (λ e. Keeping P e.1) emu.custom
  pub write_keeps :
      (fd : ℕ) (block : Bytes) (w : World E)
      → P w.emulator
      → Holds (λ r. P r.1.emulator) (emu.write_function fd block w)

pub send_error-emulator :
    {E : Type 0} (fd : ℕ) (kind : ErrorType) (reason : Bytes) (w : World E)
    → (send_error fd kind reason w).emulator ≡ w.emulator
unfolding send_error
send_error-emulator fd kind reason w = refl

module _ {E : Type 0} (P : E → Type 0) where
  find_handler-Keeping :
      (es : List (ℕ × Handler E)) (k : ℕ) {f : Handler E}
      → All (λ e. Keeping P e.1) es
      → find_handler es k ≡ some f
      → Keeping P f
  unfolding find_handler
  find_handler-Keeping [] k h e = absurd (cc)
  find_handler-Keeping ((j, g) ∷ es) k {f = f} h e = elim (Bool-cases (j == k)) [
    | inl here ↦ let same : g ≡ f = ground arith in subst (Keeping P) same h.0
    | inr there ↦ find_handler-Keeping es k h.1 (ground arith)
  ]

  find_custom-Keeping :
      (i : ℕ) (es : List (Bytes × Handler E)) (cmd : Bytes) {r : ℕ × Handler E}
      → All (λ e. Keeping P e.1) es
      → find_custom i es cmd ≡ some r
      → Keeping P r.1
  unfolding find_custom
  find_custom-Keeping i [] cmd h e = absurd (cc)
  find_custom-Keeping i ((name, g) ∷ es) cmd {r = r} h e = elim (Bool-cases (has_prefix cmd name)) [
    | inl here ↦ let same : (i, g) ≡ r = ground arith in subst (λ r. Keeping P r.1) same h.0
    | inr there ↦ find_custom-Keeping (i + 1) es cmd {r = r} h.1 (ground arith)
  ]

abbrev not_implemented : Bytes
not_implemented = codes "Invalid command or not implemented"

-- Where a name leads: to a function that keeps `P`, if it leads to a custom one.
abbrev TargetKeeping : {E : Type 0} → (E → Type 0) → Target (Handler E) → Type 0
TargetKeeping P unknown = Unit
TargetKeeping P (standard k) = Unit
TargetKeeping P (custom_entry k f) = Keeping P f

module _ {E : Type 0} (P : E → Type 0) (emu : Emulator E) (keeps : Keeps P emu) where
  resolve-TargetKeeping : (cmd : Bytes) → TargetKeeping P (resolve emu.custom cmd)
  unfolding resolve
  resolve-TargetKeeping cmd = elim (Option-cases (find_custom 0 emu.custom cmd)) [
    | inr (r, there) ↦
        rw (there, TargetKeeping) (find_custom-Keeping P 0 emu.custom cmd keeps.custom_keep there)
    | inl missing ↦ elim (Option-cases (find_command command_strings cmd)) [
      | inl none_there ↦ rw (missing, none_there, TargetKeeping) tt
      | inr (k, found) ↦ rw (missing, found, TargetKeeping) tt
    ]
  ]

  abbrev pub Called : Client → ℤ × Client × World E → Type 0
  Called c r = (r.1.socket_fd ≡ c.socket_fd) × P r.2.emulator

  call-Called :
      (f : Handler E) (fd : ℕ) (c c' : Client) (args : List Bytes) (w : World E)
      → Keeping P f
      → c'.socket_fd ≡ c.socket_fd
      → P w.emulator
      → Holds (Called c) (f fd args w >>= λ r. done (r.0, c', r.1))
  call-Called f fd c c' args w h e p =
      >>=-Holds (λ r. P r.1.emulator) (Called c) (f fd args w) _ (h fd args w p) (λ r q. (e, q))

  call_standard-Called :
      (o : Option (Handler E)) (k : ℕ) (c : Client) (args : List Bytes) (w : World E)
      → find_handler emu.commands k ≡ o
      → P w.emulator
      → Holds (Called c) (call_standard o (record c { current_command = k }) args w)
  unfolding call_standard
  call_standard-Called (some f) k c args w e p =
      call-Called f c.socket_fd c (record c { current_command = k }) args w
        (find_handler-Keeping P emu.commands k keeps.commands_keep e) refl p
  call_standard-Called none k c args w e p =
      (refl, subst P (sym (send_error-emulator c.socket_fd invalid_command not_implemented w)) p)

  call_target-Called :
      (t : Target (Handler E)) (c : Client) (args : List Bytes) (w : World E)
      → TargetKeeping P t
      → P w.emulator
      → Holds (Called c) (call_target emu t c args w)
  unfolding call_target
  call_target-Called unknown c args w h p = (
    refl,
    subst P (sym (send_error-emulator c.socket_fd invalid_command (codes "Invalid command") w)) p,
  )
  call_target-Called (standard k) c args w h p =
      call_standard-Called (find_handler emu.commands k) k c args w refl p
  call_target-Called (custom_entry k f) c args w h p =
      call-Called f c.socket_fd c (record c { current_command = k }) args w h refl p

  -- `execute_command` keeps `P` and the client's socket.
  pub execute_command-Called :
      (c : Client) (cmd : Bytes) (args : List Bytes) (w : World E)
      → P w.emulator
      → Holds (Called c) (execute_command emu c cmd args w)
  unfolding execute_command
  execute_command-Called c cmd args w p =
      call_target-Called (resolve emu.custom cmd) c args w (resolve-TargetKeeping cmd) p

abbrev pub Anything : {E : Type 0} → E → Type 0
Anything e = Unit

All-Anything {ℓ} :
    {E : Type 0} {A : Type ℓ} (es : List (A × Handler E)) → All (λ e. Keeping Anything e.1) es
All-Anything [] = tt
All-Anything (e ∷ es) = (λ fd args w p. Holds-any (e.1 fd args w), All-Anything es)

pub Anything-Keeps : {E : Type 0} (emu : Emulator E) → Keeps Anything emu
Anything-Keeps emu = record {
  commands_keep = All-Anything emu.commands;
  custom_keep = All-Anything emu.custom;
  write_keeps = λ fd block w p. Holds-any (emu.write_function fd block w);
}
