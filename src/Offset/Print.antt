-- ===== src/Offset/Print.antt =====
-- Numbers as the protocol prints them, and what `generic_poll_server_get_offset` reads of them.
use emulator_networkaccess.Prelude.{
  ℕ, zero, suc, ◌+◌, ◌-◌, ◌*◌, ◌/◌, ◌%◌, ◌^◌, ◌≤◌, ◌<◌, Bool, true, false, some, [], ◌∷◌, ◌++◌,
  Bytes, All, ltb, if◌then◌else◌, append_assoc, append-nil, ◌≡◌, ◌⊎◌, refl, ap, sym, ◌∙◌, arith,
}
use native.Mathlib.Decide.{dec_lt}
use native.Mathlib.Nat.{div-add-mod', mod-lt, div-lt_self}
use emulator_networkaccess.Offset.{
  skip_space, digit_value, scan_digits, scan_sign, skip_prefix, scan_hex, atoll, get_offset,
}

-- The upper-case digit of a value below 16.
abbrev digit_char : ℕ → ℕ
digit_char d = if ltb d 10 then d + b'0' else d - 10 + b'A'

-- The digits of `n`, the highest first; the fuel is more than their number.
unfoldable pub print_digits : ℕ → ℕ → ℕ → Bytes
print_digits base zero n = []
print_digits base (suc fuel) n =
    let higher = print_digits base fuel (n / base) in
    if ltb n base then digit_char n ∷ [] else higher ++ (digit_char (n % base) ∷ [])

abbrev pub decimal : ℕ → Bytes
decimal n = print_digits 10 (suc n) n

abbrev pub hexadecimal : ℕ → Bytes
hexadecimal n = print_digits 16 (suc n) n

digit_value-digit_char : (d : ℕ) → d < 16 → digit_value (digit_char d) ≡ some d
unfolding digit_value
digit_value-digit_char d h = ground arith

scan_digits-digit :
    (base acc d : ℕ) (rest : Bytes)
    → d < base
    → base ≤ 16
    → scan_digits base acc (digit_char d ∷ rest) ≡ scan_digits base (acc * base + d) rest
unfolding scan_digits
scan_digits-digit base acc d rest h b = ground (arith, digit_value-digit_char d (omega arith))

div-lt_fuel : (base fuel n : ℕ) → 2 ≤ base → n < suc fuel → base ≤ n → n / base < fuel
div-lt_fuel base fuel n lo h large =
    let smaller = div-lt_self {n = n} {k = base} (omega arith) lo in omega arith

scan_digits-print_digits :
    (base fuel n : ℕ) (rest : Bytes)
    → 2 ≤ base
    → base ≤ 16
    → n < fuel
    → scan_digits base 0 (print_digits base fuel n ++ rest) ≡ scan_digits base n rest
unfolding print_digits
scan_digits-print_digits base zero n rest lo hi h = absurd (omega arith)
scan_digits-print_digits base (suc fuel) n rest lo hi h = elim (dec_lt n base) [
  | yes small ↦ ground (arith, scan_digits-digit base 0 n rest small hi)
  | no large ↦ ground (
    arith,
    append_assoc (print_digits base fuel (n / base)) (digit_char (n % base) ∷ []) rest,
    scan_digits-print_digits base fuel (n / base) (digit_char (n % base) ∷ rest) lo hi
        (div-lt_fuel base fuel n lo h (omega arith)),
    scan_digits-digit base (n / base) (n % base) rest (mod-lt n (omega arith)) hi,
    div-add-mod' n base,
  )
]

-- A digit of the protocol, which is neither a space, a sign nor the `x` of a prefix.
abbrev IsDigit : ℕ → Type 0
IsDigit c = ((48 ≤ c) × (c ≤ 57)) ⊎ ((65 ≤ c) × (c ≤ 70))

digit_char-IsDigit : (d : ℕ) → d < 16 → IsDigit (digit_char d)
digit_char-IsDigit d h = ground arith

All-append : (s t : Bytes) → All IsDigit s → All IsDigit t → All IsDigit (s ++ t)
All-append [] t h g = g
All-append (c ∷ s) t h g = (h.0, All-append s t h.1 g)

if-IsDigit :
    (b : Bool) (s t : Bytes)
    → (b ≡ true → All IsDigit s)
    → (b ≡ false → All IsDigit t)
    → All IsDigit (if b then s else t)
if-IsDigit true s t f g = f refl
if-IsDigit false s t f g = g refl

mod-lt_trans : (n base : ℕ) → 2 ≤ base → base ≤ 16 → n % base < 16
mod-lt_trans n base lo hi = let small = mod-lt n {m = base} (omega arith) in omega arith

print_digits-IsDigit :
    (base fuel n : ℕ) → 2 ≤ base → base ≤ 16 → All IsDigit (print_digits base fuel n)
unfolding print_digits
print_digits-IsDigit base zero n lo hi = tt
print_digits-IsDigit base (suc fuel) n lo hi =
    if-IsDigit (ltb n base) (digit_char n ∷ []) _
      (λ small. (digit_char-IsDigit n (ground arith), tt))
      (λ large.
        All-append (print_digits base fuel (n / base)) _
          (print_digits-IsDigit base fuel (n / base) lo hi)
          (digit_char-IsDigit (n % base) (mod-lt_trans n base lo hi), tt))

skip_space-IsDigit : (s : Bytes) → All IsDigit s → skip_space s ≡ s
unfolding skip_space
skip_space-IsDigit [] h = refl
skip_space-IsDigit (c ∷ cs) h = ground arith

scan_sign-IsDigit : (s : Bytes) → All IsDigit s → scan_sign s ≡ (false, s)
unfolding scan_sign
scan_sign-IsDigit [] h = refl
scan_sign-IsDigit (c ∷ cs) h = ground arith

skip_prefix-IsDigit : (s : Bytes) → All IsDigit s → skip_prefix s ≡ s
unfolding skip_prefix
skip_prefix-IsDigit [] h = refl
skip_prefix-IsDigit (c ∷ []) h = refl
skip_prefix-IsDigit (c ∷ d ∷ cs) h = ground arith

scan_digits-printed :
    (base n : ℕ) → 2 ≤ base → base ≤ 16 → scan_digits base 0 (print_digits base (suc n) n) ≡ n
unfolding scan_digits
scan_digits-printed base n lo hi =
    ap (scan_digits base 0) (sym (append-nil (print_digits base (suc n) n)))
    ∙ scan_digits-print_digits base (suc n) n [] lo hi (omega arith)

get_offset-IsDigit : (s : Bytes) → All IsDigit s → get_offset s ≡ atoll s
unfolding get_offset
get_offset-IsDigit [] h = refl
get_offset-IsDigit (c ∷ cs) h = ground arith

-- A number is read back from its decimal digits, if it is below 2^63.
pub get_offset-decimal : (n : ℕ) → n < 2 ^ 63 → get_offset (decimal n) ≡ n
unfolding atoll
get_offset-decimal n h =
    let digits = print_digits-IsDigit 10 (suc n) n (omega arith) (omega arith) in
    ground (
      arith,
      get_offset-IsDigit (decimal n) digits,
      skip_space-IsDigit (decimal n) digits,
      scan_sign-IsDigit (decimal n) digits,
      scan_digits-printed 10 n (omega arith) (omega arith),
    )

-- A number is read back from `$` and its upper-case hexadecimal digits, if it is below 2^64.
pub get_offset-hexadecimal : (n : ℕ) → n < 2 ^ 64 → get_offset (b'$' ∷ hexadecimal n) ≡ n
unfolding get_offset scan_hex
get_offset-hexadecimal n h =
    let digits = print_digits-IsDigit 16 (suc n) n (omega arith) (omega arith) in
    ground (
      arith,
      skip_space-IsDigit (hexadecimal n) digits,
      scan_sign-IsDigit (hexadecimal n) digits,
      skip_prefix-IsDigit (hexadecimal n) digits,
      scan_digits-printed 16 n (omega arith) (omega arith),
    )

pub atoll-decimal : (n : ℕ) → n < 2 ^ 63 → atoll (decimal n) ≡ n
atoll-decimal n h =
    sym (
      get_offset-IsDigit (decimal n)
        (print_digits-IsDigit 10 (suc n) n (omega arith) (omega arith)))
    ∙ get_offset-decimal n h
