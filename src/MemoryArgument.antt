-- ===== src/MemoryArgument.antt =====
-- generic poll server/generic_poll_server.c, `generic_poll_server_parse_memory_argument` and
-- `generic_poll_server_free_memory_argument`. A linked list is the list of its nodes from the first to the
-- last, `NULL` the empty one; an `unsigned int` has 32 bits; `malloc` never fails.
pub mod Pairs
pub mod Free
use emulator_networkaccess.Prelude.{
  ℕ, zero, ◌+◌, ◌%◌, ◌^◌, List, [], ◌∷◌, ◌++◌, Bytes, length, ◌==◌, if◌then◌else◌,
}
use emulator_networkaccess.Offset.{get_offset}

-- `generic_poll_server_memory_argument`, without its `next`
pub record MemoryArgument : Type 0 where
  pub offset : ℕ
  pub size : ℕ

-- A new node.
abbrev pub blank : MemoryArgument
blank = record { offset = 0; size = 0 }

-- `unsigned int` from `size_t`
abbrev pub to_uint : ℕ → ℕ
to_uint n = n % 2 ^ 32

-- A turn of the loop: the nodes before `cur`, and `cur`.
unfoldable pub parse_step :
    ℕ → ℕ → List MemoryArgument → MemoryArgument → Bytes → List MemoryArgument × MemoryArgument
parse_step ac i front cur arg =
    if i % 2 == 0
    then (front, record cur { offset = to_uint (get_offset arg) })
    else let sized = record cur { size = to_uint (get_offset arg) } in
      if i + 1 == ac then (front, sized) else (front ++ (sized ∷ []), blank)

unfoldable pub parse_loop :
    ℕ → ℕ → List MemoryArgument → MemoryArgument → List Bytes → List MemoryArgument
parse_loop ac i front cur [] = front ++ (cur ∷ [])
parse_loop ac i front cur (arg ∷ ag) =
    let next = parse_step ac i front cur arg in parse_loop ac (i + 1) next.0 next.1 ag

unfoldable pub parse_memory_argument : List Bytes → List MemoryArgument
unfolding parse_loop
parse_memory_argument ag = parse_loop (length ag) 0 [] blank ag

-- The loop of `generic_poll_server_free_memory_argument` from `cur`: the nodes that it frees.
unfoldable pub free_loop {ℓ} : {A : Type ℓ} → List A → List A
free_loop [] = []
free_loop (cur ∷ []) = []
free_loop (cur ∷ next ∷ rest) = cur ∷ free_loop (next ∷ rest)

-- The nodes that are freed, in their order.
unfoldable pub free_memory_argument {ℓ} : {A : Type ℓ} → List A → List A
unfolding free_loop
free_memory_argument [] = []
free_memory_argument (tofree ∷ rest) = free_loop rest ++ (tofree ∷ [])
