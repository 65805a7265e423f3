-- ===== src/Offset.antt =====
-- generic poll server/generic_poll_server.c, `generic_poll_server_get_offset`, with the two functions of
-- the C library that read its number. A `size_t` and a `long long` have 64 bits; where the number does
-- not fit, the value is that of the GNU library.
pub mod Print
use emulator_networkaccess.Prelude.{
  ℕ, ◌+◌, ◌-◌, ◌*◌, ◌%◌, ◌^◌, min, Bool, true, false, ◌&&◌, ◌||◌, Option, none, some, [], ◌∷◌,
  Bytes, ◌==◌, leb, ltb, if◌then◌else◌,
}

-- `isspace` in the C locale.
abbrev pub is_space : ℕ → Bool
is_space c = c == b' ' || leb 9 c && leb c 13

unfoldable pub skip_space : Bytes → Bytes
skip_space [] = []
skip_space (c ∷ cs) = let rest = skip_space cs in if is_space c then rest else c ∷ cs

-- The value of a digit, by its character.
unfoldable pub digit_value : ℕ → Option ℕ
digit_value c =
    if leb b'0' c && leb c b'9'
    then some (c - b'0')
    else if leb b'A' c && leb c b'F'
    then some (c - b'A' + 10)
    else if leb b'a' c && leb c b'f'
    then some (c - b'a' + 10)
    else none

-- The digits of a number, up to the first byte that is none.
unfoldable pub scan_digits : ℕ → ℕ → Bytes → ℕ
unfolding digit_value
scan_digits base acc [] = acc
scan_digits base acc (c ∷ cs) = elim (digit_value c) [
  | none ↦ acc
  | some d ↦ if ltb d base then scan_digits base (acc * base + d) cs else acc
]

-- A sign: whether it is a minus, and what follows.
unfoldable pub scan_sign : Bytes → Bool × Bytes
scan_sign [] = (false, [])
scan_sign (c ∷ cs) =
    if c == b'-' then (true, cs) else if c == b'+' then (false, cs) else (false, c ∷ cs)

-- `0x`
unfoldable pub skip_prefix : Bytes → Bytes
skip_prefix (c ∷ d ∷ cs) = if c == b'0' && (d == b'x' || d == b'X') then cs else c ∷ d ∷ cs
skip_prefix cs = cs

-- `sscanf(s, "%zX", &offset)`, with `offset` 0 before: a number that does not fit is the largest.
unfoldable pub scan_hex : Bytes → ℕ
unfolding skip_space scan_sign skip_prefix scan_digits
scan_hex s =
    let signed = scan_sign (skip_space s) in
    let value = scan_digits 16 0 (skip_prefix signed.1) in
    if leb (2 ^ 64) value then 2 ^ 64 - 1 else if signed.0 then (2 ^ 64 - value) % 2 ^ 64 else value

-- `atoll(s)`, converted to `size_t`: a number that does not fit is the nearest one that does.
unfoldable pub atoll : Bytes → ℕ
unfolding skip_space scan_sign scan_digits
atoll s =
    let signed = scan_sign (skip_space s) in
    let value = scan_digits 10 0 signed.1 in
    if signed.0 then (2 ^ 64 - min value (2 ^ 63)) % 2 ^ 64 else min value (2 ^ 63 - 1)

unfoldable pub get_offset : Bytes → ℕ
unfolding scan_hex atoll
get_offset [] = atoll []
get_offset (c ∷ cs) = if c == b'$' then scan_hex cs else atoll (c ∷ cs)
