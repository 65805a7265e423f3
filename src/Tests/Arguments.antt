-- ===== src/Tests/Arguments.antt =====
-- Offsets and memory arguments.
use emulator_networkaccess.Prelude.{[], ◌∷◌, ◌++◌, codes, map, ◌≡◌, refl, arith}
use emulator_networkaccess.Offset.{get_offset}
use emulator_networkaccess.Offset.Print.{
  decimal, hexadecimal, print_digits, print_digits, get_offset-decimal, get_offset-hexadecimal,
}
use emulator_networkaccess.MemoryArgument.{parse_step, parse_memory_argument, free_memory_argument}
use emulator_networkaccess.MemoryArgument.Free.{free_memory_argument-leaks}
use emulator_networkaccess.MemoryArgument.Pairs.{
  request, node, arguments, parse_memory_argument-request, parse_memory_argument-arguments,
}

spaces_and_a_sign : get_offset (codes " +12a") ≡ 12
unfolding get_offset
spaces_and_a_sign = refl

lower_case_prefix : get_offset (codes "$0xff") ≡ 255
unfolding get_offset
lower_case_prefix = refl

minus_one : get_offset (codes "-1") ≡ 18446744073709551615
unfolding get_offset
minus_one = refl

printed : hexadecimal 8253824 ≡ codes "7DF180"
unfolding print_digits
printed = refl

get_offset-decimal_example : get_offset (decimal 1024) ≡ 1024
get_offset-decimal_example = get_offset-decimal 1024 (omega arith)

get_offset-hexadecimal_example : get_offset (b'$' ∷ hexadecimal 8253824) ≡ 8253824
get_offset-hexadecimal_example = get_offset-hexadecimal 8253824 (omega arith)

three_arguments :
    parse_memory_argument (codes "$10" ∷ codes "2" ∷ codes "4294967299" ∷ [])
    ≡ record { offset = 16; size = 2 } ∷ record { offset = 3; size = 0 } ∷ []
unfolding parse_memory_argument parse_step get_offset
three_arguments = refl

parse_memory_argument-arguments_example :
    parse_memory_argument (codes "1" ∷ codes "2" ∷ codes "3" ∷ [])
    ≡ arguments (codes "1" ∷ codes "2" ∷ codes "3" ∷ [])
parse_memory_argument-arguments_example =
    parse_memory_argument-arguments (codes "1" ∷ codes "2" ∷ codes "3" ∷ [])

parse_memory_argument-request_example :
    parse_memory_argument (request ((16, 2) ∷ (256, 8) ∷ [])) ≡ map node ((16, 2) ∷ (256, 8) ∷ [])
parse_memory_argument-request_example =
    parse_memory_argument-request (16, 2) ((256, 8) ∷ []) (omega arith, omega arith)
      ((omega arith, omega arith), tt)

free_memory_argument-leaks_example :
    free_memory_argument (node (0, 1) ∷ ((node (2, 3) ∷ []) ++ (node (4, 5) ∷ [])))
    ≡ (node (2, 3) ∷ []) ++ (node (0, 1) ∷ [])
free_memory_argument-leaks_example =
    free_memory_argument-leaks (node (0, 1)) (node (2, 3) ∷ []) (node (4, 5))
