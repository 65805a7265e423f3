-- ===== src/Command/Format.antt =====
-- The command lines that the protocol defines, and what `process_command` reads of them.
use native.Mathlib.Decide.{dec_lt}
use emulator_networkaccess.Prelude.{
  ℕ, ◌+◌, ◌<◌, ◌≤◌, true, false, ◌||◌, List, [], ◌∷◌, ◌++◌, Bytes, length, All, ◌==◌, if◌then◌else◌,
  drop-append_self, append-nil, append_assoc, ◌≡◌, ◌≢◌, refl, ap, ◌∙◌, arith, length-append,
}
use emulator_networkaccess.World.{done, fault, heap_overflow, ◌>>=◌}
use emulator_networkaccess.Command.{
  c_string, command_name, skip_spaces, parse_args, split_command, max_args, arg_size,
}

-- `KEYWORD [ <arguments separated by ';'>]\n`
abbrev pub join : List Bytes → Bytes
join [] = []
join (a ∷ []) = a
join (a ∷ b ∷ more) = a ++ (b';' ∷ join (b ∷ more))

abbrev pub format_command : Bytes → List Bytes → Bytes
format_command name [] = name ++ (b'\n' ∷ [])
format_command name (a ∷ more) = name ++ (b' ' ∷ (join (a ∷ more) ++ (b'\n' ∷ [])))

abbrev pub IsNameByte : ℕ → Type 0
IsNameByte c = (c ≢ b' ') × (c ≢ b'\n') × (c ≢ 0)

abbrev pub IsArgByte : ℕ → Type 0
IsArgByte c = (c ≢ b';') × (c ≢ b'\n')

-- An argument that fits its buffer.
abbrev pub IsArg : Bytes → Type 0
IsArg a = All IsArgByte a × (length a < arg_size)

-- Spaces in front of the first argument are not part of it.
abbrev pub NoLeadingSpace : List Bytes → Type 0
NoLeadingSpace ((c ∷ cs) ∷ more) = c ≢ b' '
NoLeadingSpace _ = Unit

command_name_lem :
    (name : Bytes) (d : ℕ) (rest : Bytes)
    → All IsNameByte name
    → (d == b' ' || d == b'\n') ≡ true
    → command_name (name ++ (d ∷ rest)) ≡ done (name, if d == b'\n' then false else true)
unfolding command_name
command_name_lem [] d rest n e = ground arith
command_name_lem (c ∷ cs) d rest n e = ground (arith, command_name_lem cs d rest n.1 e)

c_string_lem : (name : Bytes) → All IsNameByte name → c_string name ≡ name
unfolding c_string
c_string_lem [] n = refl
c_string_lem (c ∷ cs) n = ground (arith, c_string_lem cs n.1)

skip_spaces_lem :
    (a : Bytes) (more : List Bytes)
    → NoLeadingSpace (a ∷ more)
    → skip_spaces (join (a ∷ more) ++ (b'\n' ∷ [])) ≡ join (a ∷ more) ++ (b'\n' ∷ [])
unfolding skip_spaces
skip_spaces_lem [] [] n = refl
skip_spaces_lem [] (b ∷ more) n = refl
skip_spaces_lem (c ∷ cs) [] n = ground arith
skip_spaces_lem (c ∷ cs) (b ∷ more) n = ground arith

-- The bytes of one argument are collected.
parse_args_arg :
    (a rest : Bytes) (i : ℕ) (args : List Bytes) (arg : Bytes)
    → All IsArgByte a
    → length arg + length a < arg_size
    → parse_args (a ++ rest) i args arg ≡ parse_args rest i args (arg ++ a)
unfolding parse_args
parse_args_arg [] rest i args arg p l = rw append-nil
parse_args_arg (c ∷ cs) rest i args arg p l = ground (
  arith,
  parse_args_arg cs rest i args (arg ++ (c ∷ [])) p.1,
  length-append arg (c ∷ []),
  append_assoc arg (c ∷ []) cs,
)

parse_args_end :
    (i : ℕ) (args : List Bytes) (arg : Bytes)
    → length arg < arg_size
    → parse_args (b'\n' ∷ []) i args arg ≡ done (args ++ (arg ∷ []))
unfolding parse_args
parse_args_end i args arg l = ground arith

parse_args_next :
    (rest : Bytes) (i : ℕ) (args : List Bytes) (arg : Bytes)
    → length arg < arg_size
    → i + 1 < max_args
    → parse_args (b';' ∷ rest) i args arg ≡ parse_args rest (i + 1) (args ++ (arg ∷ [])) []
unfolding parse_args
parse_args_next rest i args arg l m = ground arith

parse_args_full :
    (rest : Bytes) (i : ℕ) (args : List Bytes) (arg : Bytes)
    → length arg < arg_size
    → max_args ≤ i + 1
    → parse_args (b';' ∷ rest) i args arg ≡ fault heap_overflow
unfolding parse_args
parse_args_full rest i args arg l m = ground arith

parse_args-join :
    (a : Bytes) (more : List Bytes) (i : ℕ) (args : List Bytes)
    → All IsArg (a ∷ more)
    → i + length (a ∷ more) ≤ max_args
    → parse_args (join (a ∷ more) ++ (b'\n' ∷ [])) i args [] ≡ done (args ++ (a ∷ more))
parse_args-join a [] i args p m =
    parse_args_arg a (b'\n' ∷ []) i args [] p.0.0 (omega (arith, p.0.1))
    ∙ parse_args_end i args a p.0.1
parse_args-join a (b ∷ more) i args p m =
    ap (λ t. parse_args t i args []) (append_assoc a (b';' ∷ join (b ∷ more)) (b'\n' ∷ []))
    ∙ parse_args_arg a (b';' ∷ (join (b ∷ more) ++ (b'\n' ∷ []))) i args [] p.0.0
        (omega (arith, p.0.1))
    ∙ parse_args_next (join (b ∷ more) ++ (b'\n' ∷ [])) i args a p.0.1 (omega arith)
    ∙ parse_args-join b more (i + 1) (args ++ (a ∷ [])) p.1 (omega arith)
    ∙ ap done (append_assoc args (a ∷ []) (b ∷ more))

parse_args-join_full :
    (a : Bytes) (more : List Bytes) (i : ℕ) (args : List Bytes)
    → All IsArg (a ∷ more)
    → i < max_args
    → max_args < i + length (a ∷ more)
    → parse_args (join (a ∷ more) ++ (b'\n' ∷ [])) i args [] ≡ fault heap_overflow
parse_args-join_full a [] i args p r m = absurd (omega arith)
parse_args-join_full a (b ∷ more) i args p r m =
    ap (λ t. parse_args t i args []) (append_assoc a (b';' ∷ join (b ∷ more)) (b'\n' ∷ []))
    ∙ parse_args_arg a (b';' ∷ (join (b ∷ more) ++ (b'\n' ∷ []))) i args [] p.0.0
        (omega (arith, p.0.1))
    ∙ elim (dec_lt (i + 1) max_args) [
      | yes room ↦
          parse_args_next (join (b ∷ more) ++ (b'\n' ∷ [])) i args a p.0.1 room
          ∙ parse_args-join_full b more (i + 1) (args ++ (a ∷ [])) p.1 room (omega arith)
      | no none_left ↦
          parse_args_full (join (b ∷ more) ++ (b'\n' ∷ [])) i args a p.0.1 (omega arith)
    ]

-- The arguments of a line with arguments are what `parse_args` makes of their text.
split_command_args :
    (name a : Bytes) (more : List Bytes)
    → All IsNameByte name
    → NoLeadingSpace (a ∷ more)
    → split_command (format_command name (a ∷ more))
      ≡ (parse_args (join (a ∷ more) ++ (b'\n' ∷ [])) 0 [] [] >>= λ args. done (name, args))
unfolding split_command
split_command_args name a more n s = ground (
  arith,
  command_name_lem name b' ' (join (a ∷ more) ++ (b'\n' ∷ [])) n refl,
  c_string_lem name n,
  drop-append_self name (b' ' ∷ (join (a ∷ more) ++ (b'\n' ∷ []))),
  skip_spaces_lem a more s,
)

-- A command line of the protocol is read back: the name, and the arguments in their order. The name
-- has no space, newline or NUL, an argument no `;` or newline, and there are at most 20 arguments.
pub split_command-format :
    (name : Bytes) (args : List Bytes)
    → All IsNameByte name
    → All IsArg args
    → NoLeadingSpace args
    → length args ≤ max_args
    → split_command (format_command name args) ≡ done (name, args)
split_command-format name [] n p s m =
    unfold split_command in
    ground (arith, command_name_lem name b'\n' [] n refl, c_string_lem name n)
split_command-format name (a ∷ more) n p s m =
    split_command_args name a more n s
    ∙ ap (λ r. r >>= λ args. done (name, args)) (parse_args-join a more 0 [] p (omega (arith, m)))

-- A line with more than 20 arguments is written past the end of the array `args`.
pub split_command_overflow :
    (name : Bytes) (args : List Bytes)
    → All IsNameByte name
    → All IsArg args
    → NoLeadingSpace args
    → max_args < length args
    → split_command (format_command name args) ≡ fault heap_overflow
split_command_overflow name [] n p s m = absurd (omega arith)
split_command_overflow name (a ∷ more) n p s m =
    split_command_args name a more n s
    ∙ ap (λ r. r >>= λ args. done (name, args))
        (parse_args-join_full a more 0 [] p (omega arith) (omega (arith, m)))
