-- ===== src/Dispatch.antt =====
-- generic poll server/generic_poll_server.c, `execute_command`.
pub mod Names
pub mod Keeps
use emulator_networkaccess.Prelude.{
  ℕ, ℤ, pos, negsuc, ◌+◌, Bool, true, false, Option, none, some, List, [], ◌∷◌, Bytes, codes,
  strcmp_zero, ◌==◌, if◌then◌else◌,
}
use emulator_networkaccess.Protocol.{invalid_command, CommandString, command_strings, custom_base}
use emulator_networkaccess.World.{Outcome, done, World, ◌>>=◌}
use emulator_networkaccess.Reply.{send_error}
use emulator_networkaccess.Client.{Client}

-- A function of the command maps: it gets the socket and the arguments, and returns an `int64_t`.
abbrev pub Handler : Type 0 → Type 0
Handler E = ℕ → List Bytes → World E → Outcome (ℤ × World E)

-- What the program that includes the server defines: `generic_emu_mwa_map`, `custom_emu_nwa_map`
-- and `generic_poll_server_write_function`.
pub record Emulator (E : Type 0) : Type 0 where
  pub commands : List (ℕ × Handler E)
  pub custom : List (Bytes × Handler E)
  pub write_function : ℕ → Bytes → World E → Outcome (Bool × World E)

-- The search of `emulator_network_access_command_strings`, by `strcmp`.
unfoldable pub find_command : List CommandString → Bytes → Option ℕ
unfolding strcmp_zero
find_command [] cmd = none
find_command (e ∷ es) cmd = if strcmp_zero cmd e.string then some e.command else find_command es cmd

-- `strncmp(cmd, prefix, strlen(prefix)) == 0`
unfoldable pub has_prefix : Bytes → Bytes → Bool
has_prefix cmd [] = true
has_prefix [] (p ∷ ps) = false
has_prefix (c ∷ cs) (p ∷ ps) = let rest = has_prefix cs ps in if c == p then rest else false

-- The search of `custom_emu_nwa_map` from entry `i` on: the index, and the function there.
unfoldable pub find_custom {ℓ} : {A : Type ℓ} → ℕ → List (Bytes × A) → Bytes → Option (ℕ × A)
unfolding has_prefix
find_custom i [] cmd = none
find_custom i ((name, f) ∷ es) cmd =
    if has_prefix cmd name then some (i, f) else find_custom (i + 1) es cmd

-- The search of `generic_emu_mwa_map`.
unfoldable pub find_handler {ℓ} : {A : Type ℓ} → List (ℕ × A) → ℕ → Option A
find_handler [] command = none
find_handler ((k, f) ∷ es) command = if k == command then some f else find_handler es command

-- What the two searches by name decide: the number of the command, with the function of the custom
-- entry where one was found. A custom entry replaces what the first search found.
pub data Target {ℓ} (A : Type ℓ) : Type ℓ where
  unknown : Target A
  standard : ℕ → Target A
  custom_entry : ℕ → A → Target A

unfoldable pub resolve {ℓ} : {A : Type ℓ} → List (Bytes × A) → Bytes → Target A
unfolding find_command find_custom
resolve customs cmd = elim (find_custom 0 customs cmd) [
  | some r ↦ custom_entry (custom_base + r.0) r.1
  | none ↦ elim (find_command command_strings cmd) [ some k ↦ standard k | none ↦ unknown ]
]

-- The search of `generic_emu_mwa_map` has found a function, or none.
unfoldable pub call_standard :
    {E : Type 0}
    → Option (Handler E)
    → Client
    → List Bytes
    → World E
    → Outcome (ℤ × Client × World E)
unfolding send_error
call_standard (some f) c args w = f c.socket_fd args w >>= λ r. done (r.0, c, r.1)
call_standard none c args w =
    let text = codes "Invalid command or not implemented" in
    done (negsuc 0, c, send_error c.socket_fd invalid_command text w)

-- `execute_command` behind the two searches by name.
unfoldable pub call_target :
    {E : Type 0}
    → Emulator E
    → Target (Handler E)
    → Client
    → List Bytes
    → World E
    → Outcome (ℤ × Client × World E)
unfolding find_handler call_standard send_error
call_target emu unknown c args w =
    done (pos 0, c, send_error c.socket_fd invalid_command (codes "Invalid command") w)
call_target emu (custom_entry k f) c args w =
    f c.socket_fd args w >>= λ r. done (r.0, record c { current_command = k }, r.1)
call_target emu (standard k) c args w =
    call_standard (find_handler emu.commands k) (record c { current_command = k }) args w

-- `execute_command`: the value for `expected_size`, and the client with its `current_command`.
unfoldable pub execute_command :
    {E : Type 0}
    → Emulator E
    → Client
    → Bytes
    → List Bytes
    → World E
    → Outcome (ℤ × Client × World E)
unfolding resolve call_target
execute_command emu c cmd args w = call_target emu (resolve emu.custom cmd) c args w
