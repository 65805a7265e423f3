-- ===== src/Dispatch/Names.antt =====
-- Which function a command's name calls.
use emulator_networkaccess.Prelude.{
  ℕ, pos, negsuc, ◌+◌, true, false, none, some, List, [], ◌∷◌, ◌++◌, Bytes, codes, length, map,
  strcmp_zero, eq_of_strcmp_zero, Bool-cases, Option-cases, ◌≡◌, ◌≢◌, inl, inr, refl, ap, ◌∙◌,
  arith,
}
use emulator_networkaccess.Protocol.{
  Command, emulator_info, emulation_status, emulation_pause, emulation_stop, emulation_reset,
  emulation_resume, emulation_reload, my_name_is, load_game, game_info, cores_list, core_info,
  core_current_info, load_core, core_memories, core_read, core_write, debug_break, debug_continue,
  load_state, save_state, number, invalid_command, custom_base, CommandString, command_strings,
}
use emulator_networkaccess.World.{done, World, ◌>>=◌}
use emulator_networkaccess.Client.{Client}
use emulator_networkaccess.Reply.{send_error}
use emulator_networkaccess.Dispatch.{
  Handler, Emulator, find_command, has_prefix, find_custom, find_handler, resolve, execute_command,
}

-- The commands' names in the protocol's text.
abbrev pub spelling : Command → Bytes
spelling emulator_info = codes "EMULATOR_INFO"
spelling emulation_status = codes "EMULATION_STATUS"
spelling emulation_pause = codes "EMULATION_PAUSE"
spelling emulation_stop = codes "EMULATION_STOP"
spelling emulation_reset = codes "EMULATION_RESET"
spelling emulation_resume = codes "EMULATION_RESUME"
spelling emulation_reload = codes "EMULATION_RELOAD"
spelling my_name_is = codes "MY_NAME_IS"
spelling load_game = codes "LOAD_GAME"
spelling game_info = codes "GAME_INFO"
spelling cores_list = codes "CORES_LIST"
spelling core_info = codes "CORE_INFO"
spelling core_current_info = codes "CORE_CURRENT_INFO"
spelling load_core = codes "LOAD_CORE"
spelling core_memories = codes "CORE_MEMORIES"
spelling core_read = codes "CORE_READ"
spelling core_write = codes "bCORE_WRITE"
spelling debug_break = codes "DEBUG_BREAK"
spelling debug_continue = codes "DEBUG_CONTINUE"
spelling load_state = codes "LOAD_STATE"
spelling save_state = codes "SAVE_STATE"

abbrev all_commands : List Command
all_commands =
    emulator_info ∷ emulation_status ∷ emulation_pause ∷ emulation_stop ∷ emulation_reset
    ∷ emulation_resume ∷ emulation_reload ∷ my_name_is ∷ load_game ∷ game_info ∷ cores_list
    ∷ core_info ∷ core_current_info ∷ load_core ∷ core_memories ∷ core_read ∷ core_write
    ∷ debug_break ∷ debug_continue ∷ load_state ∷ save_state ∷ []

abbrev spelled : Command → CommandString
spelled c = record { command = number c; string = spelling c }

found_in :
    (cs : List Command) (s : Bytes) {n : ℕ}
    → find_command (map spelled cs) s ≡ some n
    → (c : Command) × (n ≡ number c) × (s ≡ spelling c)
unfolding find_command
found_in [] s h = cc
found_in (c ∷ cs) s h = elim (Bool-cases (strcmp_zero s (spelling c))) [
  | inl same ↦ (c, ground arith, eq_of_strcmp_zero s (spelling c) same)
  | inr other ↦ found_in cs s (ground arith)
]

find_command-spelling : (c : Command) → find_command command_strings (spelling c) ≡ some (number c)
unfolding find_command
find_command-spelling emulator_info = refl
find_command-spelling _ = refl

find_command_sound :
    (s : Bytes) {n : ℕ}
    → find_command command_strings s ≡ some n
    → (c : Command) × (n ≡ number c) × (s ≡ spelling c)
find_command_sound s h = found_in all_commands s h

-- `strncmp(cmd, prefix, strlen(prefix)) == 0` means that the one begins with the other.
has_prefix-append : (name rest : Bytes) → has_prefix (name ++ rest) name ≡ true
unfolding has_prefix
has_prefix-append [] [] = refl
has_prefix-append [] (r ∷ rest) = refl
has_prefix-append (c ∷ name) rest = ground (arith, has_prefix-append name rest)

module _ {E : Type 0} where
  -- No custom entry's name is a prefix of the command.
  abbrev pub NoPrefix : Bytes → List (Bytes × Handler E) → Type 0
  NoPrefix cmd [] = Unit
  NoPrefix cmd (e ∷ es) = (has_prefix cmd e.0 ≡ false) × NoPrefix cmd es

  find_custom-none :
      (i : ℕ) (es : List (Bytes × Handler E)) (cmd : Bytes)
      → NoPrefix cmd es
      → find_custom i es cmd ≡ none
  unfolding find_custom
  find_custom-none i [] cmd p = refl
  find_custom-none i (e ∷ es) cmd p = ground (arith, find_custom-none (i + 1) es cmd p.1)

  find_custom-first :
      (i : ℕ) (before : List (Bytes × Handler E)) (name rest : Bytes) (f : Handler E)
      (after : List (Bytes × Handler E))
      → NoPrefix (name ++ rest) before
      → find_custom i (before ++ ((name, f) ∷ after)) (name ++ rest) ≡ some (i + length before, f)
  unfolding find_custom
  find_custom-first i [] name rest f after p = ground (arith, has_prefix-append name rest)
  find_custom-first i (e ∷ before) name rest f after p =
      ground (arith, find_custom-first (i + 1) before name rest f after p.1)

module _ {E : Type 0} (emu : Emulator E) (c : Client) (args : List Bytes) (w : World E) where
  -- A command of the protocol calls the function that the map has for it, or is refused with -1 if
  -- the map has none. No custom entry's name may be a prefix of it.
  pub execute_command-spelling :
      (k : Command)
      → NoPrefix (spelling k) emu.custom
      → let c' = record c { current_command = number k } in
        execute_command emu c (spelling k) args w ≡ (elim (find_handler emu.commands (number k)) [
          | some f ↦ f c.socket_fd args w >>= λ r. done (r.0, c', r.1)
          | none ↦ done (
            negsuc 0,
            c',
            send_error c.socket_fd invalid_command (codes "Invalid command or not implemented") w,
          )
        ])
  unfolding execute_command resolve
  execute_command-spelling k p =
      ground (arith, find_custom-none 0 emu.custom (spelling k) p, find_command-spelling k)

  -- A name that is no command of the protocol, and that no custom entry's name is a prefix of, is
  -- answered by an error; no function is called, and the client does not change.
  pub execute_command_unknown :
      (cmd : Bytes)
      → NoPrefix cmd emu.custom
      → ((k : Command) → cmd ≢ spelling k)
      → execute_command emu c cmd args w
        ≡ done (pos 0, c, send_error c.socket_fd invalid_command (codes "Invalid command") w)
  unfolding execute_command resolve
  execute_command_unknown cmd p n = elim (Option-cases (find_command command_strings cmd)) [
    | inl missing ↦ ground (arith, find_custom-none 0 emu.custom cmd p)
    | inr (m, there) ↦ let (k, is_k, is_cmd) = find_command_sound cmd there in absurd (n k is_cmd)
  ]

  -- The first custom entry whose name is a prefix of the command is called, also where the command is
  -- one of the protocol, and the client's command is 128 more than the index of the entry.
  pub execute_command_custom :
      (before : List (Bytes × Handler E)) (name rest : Bytes) (f : Handler E)
      (after : List (Bytes × Handler E))
      → emu.custom ≡ before ++ ((name, f) ∷ after)
      → NoPrefix (name ++ rest) before
      → execute_command emu c (name ++ rest) args w ≡ (
          f c.socket_fd args w >>= λ r.
          done (r.0, record c { current_command = custom_base + length before }, r.1))
  unfolding execute_command resolve
  execute_command_custom before name rest f after e p = ground (
    arith,
    ap (λ es. find_custom 0 es (name ++ rest)) e ∙ find_custom-first 0 before name rest f after p,
  )
