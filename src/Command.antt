-- ===== src/Command.antt =====
-- generic poll server/generic_poll_server.c, `process_command`: a command line is cut into the name
-- of the command and its arguments.
pub mod Format
use emulator_networkaccess.Prelude.{
  ℕ, ◌+◌, Bool, true, false, ◌||◌, List, [], ◌∷◌, ◌++◌, Bytes, ◌==◌, leb, if◌then◌else◌, length,
  drop,
}
use emulator_networkaccess.World.{
  Outcome, done, fault, heap_overflow, uninitialized_read, out_of_bounds_read, ◌>>=◌,
}

-- The string that a `char *` to these bytes stands for: up to the first NUL.
unfoldable pub c_string : Bytes → Bytes
c_string [] = []
c_string (c ∷ cs) = if c == 0 then [] else c ∷ c_string cs

-- The slots of `args`, and the bytes of one argument.
abbrev pub max_args : ℕ
max_args = 20

abbrev pub arg_size : ℕ
arg_size = 2056

-- The first `for` loop: the bytes before the first space or newline, and `cmd_has_arg`. If there is
-- neither, `cmd` is never written and its `strlen` reads what `malloc` left.
unfoldable pub command_name : Bytes → Outcome (Bytes × Bool)
command_name [] = fault uninitialized_read
command_name (c ∷ cs) =
    let rest = command_name cs in
    if c == b' ' || c == b'\n'
    then done ([], if c == b'\n' then false else true)
    else (rest >>= λ r. done (c ∷ r.0, r.1))

-- `while (cmd_block[i] == ' ') i++;`
unfoldable pub skip_spaces : Bytes → Bytes
skip_spaces [] = []
skip_spaces (c ∷ cs) = let rest = skip_spaces cs in if c == b' ' then rest else c ∷ cs

-- The loop over the arguments, up to the newline. `arg_idx` arguments are complete and stand in
-- `args`; `arg` is `args[arg_idx][0 .. arg_i)`.
unfoldable pub parse_args : Bytes → ℕ → List Bytes → Bytes → Outcome (List Bytes)
parse_args [] arg_idx args arg = fault out_of_bounds_read
parse_args (c ∷ cs) arg_idx args arg =
    let next_arg = parse_args cs (arg_idx + 1) (args ++ (arg ∷ [])) [] in
    let next_byte = parse_args cs arg_idx args (arg ++ (c ∷ [])) in
    if leb arg_size (length arg)
    then fault heap_overflow
    else if c == b'\n'
    then done (args ++ (arg ∷ []))
    else if c == b';'
    then (if leb max_args (arg_idx + 1) then fault heap_overflow else next_arg)
    else next_byte

-- The name of the command, and the arguments with their terminators cut: `cmd` and `args`.
unfoldable pub split_command : Bytes → Outcome (Bytes × List Bytes)
unfolding c_string command_name skip_spaces parse_args
split_command line = command_name line >>= λ r.
    let cmd = c_string r.0 in
    if r.1
    then (parse_args (skip_spaces (drop (length cmd) line)) 0 [] [] >>= λ args. done (cmd, args))
    else done (cmd, [])
