-- ===== src/MemoryArgument/Pairs.antt =====
-- The arguments of `CORE_READ` and `bCORE_WRITE` as pairs of an offset and a size.
use emulator_networkaccess.Prelude.{
  ℕ, true, false, ◌+◌, ◌%◌, ◌^◌, ◌<◌, List, [], ◌∷◌, ◌++◌, Bytes, length, map, append_assoc, ◌==◌,
  All, ◌≡◌, refl, ap, ◌∙◌, arith,
}
use emulator_networkaccess.Offset.{get_offset}
use emulator_networkaccess.Offset.Print.{hexadecimal, get_offset-hexadecimal}
use emulator_networkaccess.MemoryArgument.{
  MemoryArgument, blank, to_uint, parse_step, parse_loop, parse_memory_argument,
}

-- Two arguments for each node, in their order. The last may lack its size, which is then 0, and there is
-- a node where there is no argument.
unfoldable pub arguments : List Bytes → List MemoryArgument
arguments [] = blank ∷ []
arguments (o ∷ []) = record { offset = to_uint (get_offset o); size = 0 } ∷ []
arguments (o ∷ s ∷ []) =
    record { offset = to_uint (get_offset o); size = to_uint (get_offset s) } ∷ []
arguments (o ∷ s ∷ t ∷ ag) =
    record { offset = to_uint (get_offset o); size = to_uint (get_offset s) } ∷ arguments (t ∷ ag)

parse_step-offset :
    (ac k : ℕ) (front : List MemoryArgument) (cur : MemoryArgument) (o : Bytes)
    → parse_step ac (k + k) front cur o ≡ (front, record cur { offset = to_uint (get_offset o) })
unfolding parse_step
parse_step-offset ac k front cur o =
    let even : ((k + k) % 2 == 0) ≡ true = ground arith in ground arith

parse_step-size_last :
    (ac k : ℕ) (front : List MemoryArgument) (cur : MemoryArgument) (s : Bytes)
    → ac ≡ k + k + 2
    → parse_step ac (k + k + 1) front cur s ≡ (front, record cur { size = to_uint (get_offset s) })
unfolding parse_step
parse_step-size_last ac k front cur s e =
    let odd : ((k + k + 1) % 2 == 0) ≡ false = ground arith in ground arith

parse_step-size :
    (ac k : ℕ) (front : List MemoryArgument) (cur : MemoryArgument) (s : Bytes)
    → k + k + 2 < ac
    → parse_step ac (k + k + 1) front cur s
      ≡ (front ++ (record cur { size = to_uint (get_offset s) } ∷ []), blank)
unfolding parse_step
parse_step-size ac k front cur s e =
    let odd : ((k + k + 1) % 2 == 0) ≡ false = ground arith in ground arith

parse_loop-arguments :
    (ac k : ℕ) (front : List MemoryArgument) (ag : List Bytes)
    → ac ≡ k + k + length ag
    → parse_loop ac (k + k) front blank ag ≡ front ++ arguments ag
unfolding parse_loop arguments
parse_loop-arguments ac k front [] e = refl
parse_loop-arguments ac k front (o ∷ []) e =
    ap (λ p. p.0 ++ (p.1 ∷ [])) (parse_step-offset ac k front blank o)
parse_loop-arguments ac k front (o ∷ s ∷ []) e =
    rw
      (
        parse_step-offset ac k front blank o,
        parse_step-size_last ac k front (record blank { offset = to_uint (get_offset o) }) s e,
      )
      refl
parse_loop-arguments ac k front (o ∷ s ∷ t ∷ ag) e =
    rw
      (
        parse_step-offset ac k front blank o,
        parse_step-size ac k front (record blank { offset = to_uint (get_offset o) }) s
            (omega arith),
      )
      (let pair : MemoryArgument = record {
        offset = to_uint (get_offset o);
        size = to_uint (get_offset s);
      } in
        let turn : k + k + 1 + 1 ≡ (k + 1) + (k + 1) = omega arith in
        ap (λ i. parse_loop ac i (front ++ (pair ∷ [])) blank (t ∷ ag)) turn
        ∙ parse_loop-arguments ac (k + 1) (front ++ (pair ∷ [])) (t ∷ ag) (omega arith)
        ∙ append_assoc front (pair ∷ []) (arguments (t ∷ ag)))

-- The arguments are read two by two, each pair an offset and a size modulo 2^32.
pub parse_memory_argument-arguments : (ag : List Bytes) → parse_memory_argument ag ≡ arguments ag
unfolding parse_memory_argument
parse_memory_argument-arguments ag = parse_loop-arguments (length ag) 0 [] ag (omega arith)

-- A client's list of ranges, as the arguments that it sends.
unfoldable pub request : List (ℕ × ℕ) → List Bytes
request [] = []
request (p ∷ ps) = (b'$' ∷ hexadecimal p.0) ∷ (b'$' ∷ hexadecimal p.1) ∷ request ps

abbrev pub IsUintPair : ℕ × ℕ → Type 0
IsUintPair p = (p.0 < 2 ^ 32) × (p.1 < 2 ^ 32)

abbrev pub node : ℕ × ℕ → MemoryArgument
node p = record { offset = p.0; size = p.1 }

to_uint-hexadecimal : (n : ℕ) → n < 2 ^ 32 → to_uint (get_offset (b'$' ∷ hexadecimal n)) ≡ n
to_uint-hexadecimal n h = ground (arith, get_offset-hexadecimal n (omega arith))

arguments-request :
    (p : ℕ × ℕ) (ps : List (ℕ × ℕ))
    → IsUintPair p
    → All IsUintPair ps
    → arguments (request (p ∷ ps)) ≡ map node (p ∷ ps)
unfolding arguments request
arguments-request p [] h hs = rw (to_uint-hexadecimal p.0 h.0, to_uint-hexadecimal p.1 h.1) refl
arguments-request p (q ∷ ps) h hs =
    rw (to_uint-hexadecimal p.0 h.0, to_uint-hexadecimal p.1 h.1)
      (ap (◌∷◌ (node p)) (arguments-request q ps hs.0 hs.1))

-- Ranges whose offsets and sizes are below 2^32, sent as hexadecimal numbers, are read back in their
-- order, if there is one at least.
pub parse_memory_argument-request :
    (p : ℕ × ℕ) (ps : List (ℕ × ℕ))
    → IsUintPair p
    → All IsUintPair ps
    → parse_memory_argument (request (p ∷ ps)) ≡ map node (p ∷ ps)
parse_memory_argument-request p ps h hs =
    parse_memory_argument-arguments (request (p ∷ ps)) ∙ arguments-request p ps h hs
