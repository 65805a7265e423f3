-- ===== src/Dummy/Layout.antt =====
-- A savestate as its sections are laid out, and what the program reads of it.
use emulator_networkaccess.Prelude.{
  ℕ, zero, suc, ◌+◌, ◌*◌, ◌/◌, ◌%◌, ◌^◌, ◌≤◌, ◌<◌, false, Option, some, List, [], ◌∷◌, ◌++◌, Bytes,
  All, codes, length, drop, ==_refl, Bool-cases, if◌then◌else◌, strcmp_zero, length-append,
  drop-append_self, append_assoc, ◌≡◌, inl, inr, refl, ap, ap₂, sym, ◌∙◌, arith,
}
use native.Mathlib.Nat.{div-add-mod', div-lt_iff_lt-mul, mod-lt, pow-suc}
use mathlib.Core.Option
use emulator_networkaccess.World.{done}
use emulator_networkaccess.Offset.{skip_space, scan_sign}
use emulator_networkaccess.Dummy.Memory.{Dummy, set_memory}
use emulator_networkaccess.Dummy.Savestate.{
  scan_width, scan_number, scan_int, skip_colon, scan_section, load_section, load_sections,
  snes9x_152_savestate_get_ram_wram,
}
use emulator_networkaccess.Dummy.Loading.{Mallocs, read_block-whole}

-- The last `width` decimal digits of a number.
unfoldable pub padded : ℕ → ℕ → Bytes
padded zero n = []
padded (suc width) n = padded width (n / 10) ++ ((n % 10 + b'0') ∷ [])

length-padded : (width n : ℕ) → length (padded width n) ≡ width
unfolding padded
length-padded zero n = refl
length-padded (suc width) n = omega (
  arith,
  length-append (padded width (n / 10)) ((n % 10 + b'0') ∷ []),
  length-padded width (n / 10),
)

scan_width-digit :
    (width acc d : ℕ) (rest : Bytes)
    → d < 10
    → scan_width (suc width) acc ((d + b'0') ∷ rest) ≡ scan_width width (acc * 10 + d) rest
unfolding scan_width
scan_width-digit width acc d rest h = ground arith

scan_width-padded :
    (width more n : ℕ) (rest : Bytes)
    → n < 10 ^ width
    → scan_width (width + more) 0 (padded width n ++ rest) ≡ scan_width more n rest
unfolding padded
scan_width-padded zero more n rest h =
    let same : 0 + more ≡ more = omega arith in
    let none_left : 0 ≡ n = omega arith in ap₂ (λ w k. scan_width w k rest) same none_left
scan_width-padded (suc width) more n rest h =
    let same : suc width + more ≡ width + suc more = omega arith in
    ap (scan_width (suc width + more) 0)
      (append_assoc (padded width (n / 10)) ((n % 10 + b'0') ∷ []) rest)
    ∙ ap (λ w. scan_width w 0 (padded width (n / 10) ++ ((n % 10 + b'0') ∷ rest))) same
    ∙ scan_width-padded width (suc more) (n / 10) ((n % 10 + b'0') ∷ rest)
        ((div-lt_iff_lt-mul (omega arith)).1 (omega (arith, pow-suc 10 width)))
    ∙ scan_width-digit more (n / 10) (n % 10) rest (mod-lt n (omega arith))
    ∙ ap (λ k. scan_width more k rest) (div-add-mod' n 10)

padded-first :
    (width n : ℕ) (rest : Bytes)
    → (c : ℕ) × (s : Bytes) × (48 ≤ c) × (c ≤ 57) × (padded (suc width) n ++ rest ≡ c ∷ s)
unfolding padded
padded-first zero n rest =
    let small = mod-lt n {m = 10} (omega arith) in
    (n % 10 + b'0', rest, omega arith, omega arith, refl)
padded-first (suc width) n rest =
    let (c, s, lo, hi, e) = padded-first width (n / 10) ((n % 10 + b'0') ∷ rest) in
    (c, s, lo, hi, append_assoc (padded (suc width) (n / 10)) ((n % 10 + b'0') ∷ []) rest ∙ e)

-- A section: the three characters of its name, and its bytes.
pub record Section : Type 0 where
  pub first : ℕ
  pub second : ℕ
  pub third : ℕ
  pub bytes : Bytes

abbrev pub name : Section → Bytes
name s = s.first ∷ s.second ∷ s.third ∷ []

-- The name, the size with six digits, and the bytes.
abbrev pub lay_out : Section → Bytes
lay_out s = name s ++ (b':' ∷ (padded 6 (length s.bytes) ++ (b':' ∷ s.bytes)))

unfoldable pub lay_out_all : List Section → Bytes
lay_out_all [] = []
lay_out_all (s ∷ ss) = lay_out s ++ lay_out_all ss

-- The bytes of the last section with a name, or what there was before.
unfoldable pub last_named : Bytes → List Section → Option Bytes → Option Bytes
last_named wanted [] before = before
last_named wanted (s ∷ ss) before =
    last_named wanted ss (if strcmp_zero (name s) wanted then some s.bytes else before)

skip_space-digit : (c : ℕ) (s : Bytes) → 48 ≤ c → c ≤ 57 → skip_space (c ∷ s) ≡ c ∷ s
unfolding skip_space
skip_space-digit c s lo hi = ground arith

scan_sign-digit : (c : ℕ) (s : Bytes) → 48 ≤ c → c ≤ 57 → scan_sign (c ∷ s) ≡ (false, c ∷ s)
unfolding scan_sign
scan_sign-digit c s lo hi = ground arith

scan_int-digit :
    (c : ℕ) (s : Bytes) → 48 ≤ c → c ≤ 57 → scan_int (c ∷ s) ≡ scan_number false 6 (c ∷ s)
unfolding scan_int scan_number
scan_int-digit c s lo hi =
    rw (skip_space-digit c s lo hi, scan_sign-digit c s lo hi, ==_refl (length (c ∷ s))) refl

scan_int-padded :
    (n : ℕ) (rest : Bytes)
    → n < 10 ^ 6
    → scan_int (padded 6 n ++ (b':' ∷ rest)) ≡ some (n, b':' ∷ rest)
unfolding scan_number
scan_int-padded n rest h =
    let text = padded 6 n ++ (b':' ∷ rest) in
    let (c, s, lo, hi, e) = padded-first 5 n (b':' ∷ rest) in
    ap scan_int e
    ∙ scan_int-digit c s lo hi
    ∙ ap (scan_number false 6) (sym e)
    ∙ ground (
      arith,
      scan_width-padded 6 0 n (b':' ∷ rest) h,
      length-append (padded 6 n) (b':' ∷ rest),
      length-padded 6 n,
    )

scan_section-lay_out :
    (s : Section) (rest : Bytes)
    → length s.bytes < 10 ^ 6
    → scan_section (lay_out s ++ rest) ≡ some (name s, length s.bytes, s.bytes ++ rest)
unfolding scan_section skip_colon
scan_section-lay_out s rest h =
    ap (λ t. Option.map (λ r. (name s, r.0, skip_colon r.1)) (scan_int t))
      (append_assoc (padded 6 (length s.bytes)) (b':' ∷ s.bytes) rest)
    ∙ ap (Option.map (λ r. (name s, r.0, skip_colon r.1)))
        (scan_int-padded (length s.bytes) (s.bytes ++ rest) h)

-- The state with other bytes for the two memories of a savestate.
abbrev pub with_memories : Option Bytes → Option Bytes → Dummy → Dummy
with_memories w s d = record d { wram_memory = w; sram_memory = s }

-- The state after the sections are read.
abbrev pub loaded : List Section → Dummy → Dummy
loaded ss d =
    with_memories (last_named (codes "RAM") ss d.wram_memory)
      (last_named (codes "SRA") ss d.sram_memory) d

module _ (malloc : ℕ → Option Bytes) (mallocs : Mallocs malloc) where
  load_section-whole :
      (s : Section) (rest : Bytes) (d : Dummy)
      → load_section malloc (name s) (length s.bytes) (s.bytes ++ rest) d ≡ done (loaded (s ∷ []) d)
  unfolding load_section last_named set_memory
  load_section-whole s rest d = elim (Bool-cases (strcmp_zero (name s) (codes "RAM"))) [
    | inl ram ↦ ground (arith, read_block-whole malloc mallocs s.bytes rest)
    | inr other ↦ ground (arith, read_block-whole malloc mallocs s.bytes rest)
  ]

  load_sections-lay_out_all :
      (fuel : ℕ) (ss : List Section) (d : Dummy)
      → All (λ s. length s.bytes < 10 ^ 6) ss
      → length (lay_out_all ss) < fuel
      → load_sections malloc fuel (lay_out_all ss) d ≡ done (loaded ss d)
  unfolding load_sections lay_out_all last_named
  load_sections-lay_out_all zero ss d h l = absurd (omega arith)
  load_sections-lay_out_all (suc fuel) [] d h l = refl
  load_sections-lay_out_all (suc fuel) (s ∷ ss) d h l =
      rw
        (
          load_sections,
          scan_section-lay_out s (lay_out_all ss) h.0,
          load_section-whole s (lay_out_all ss) d,
          drop-append_self s.bytes (lay_out_all ss),
        )
        (load_sections-lay_out_all fuel ss (loaded (s ∷ []) d) h.1
          (omega (arith, length-append (lay_out s) (lay_out_all ss))))

  -- Of a savestate laid out as 14 bytes and sections of less than 10^6 bytes, the program reads the last
  -- section RAM into the memory of WRAM and the last section SRA into that of SRAM, and changes nothing
  -- else, if malloc finds memory.
  pub snes9x_152_savestate_get_ram_wram-lay_out_all :
      (head : Bytes) (ss : List Section) (d : Dummy)
      → length head ≡ 14
      → All (λ s. length s.bytes < 10 ^ 6) ss
      → snes9x_152_savestate_get_ram_wram malloc (some (head ++ lay_out_all ss)) d
        ≡ done (some (loaded ss d))
  unfolding snes9x_152_savestate_get_ram_wram
  snes9x_152_savestate_get_ram_wram-lay_out_all head ss d n h =
      let file = head ++ lay_out_all ss in
      let behind : drop 14 file ≡ lay_out_all ss =
        ap (λ k. drop k file) (sym n) ∙ drop-append_self head (lay_out_all ss) in
      rw
        (
          behind,
          load_sections-lay_out_all (suc (length file)) ss d h
              (omega (arith, length-append head (lay_out_all ss))),
        )
        refl
