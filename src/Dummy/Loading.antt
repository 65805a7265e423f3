-- ===== src/Dummy/Loading.antt =====
-- The loop of dummy.c that reads a savestate, over any file.
use emulator_networkaccess.Prelude.{
  ℕ, zero, suc, ◌+◌, ◌-◌, ◌*◌, ◌≤◌, ◌<◌, Bool, Option, some, [], ◌∷◌, ◌++◌, Bytes, codes, length,
  take, drop, ◌==◌, Bool-cases, Option-cases, strcmp_zero, length-drop, drop-append_self,
  take-append_self, append-nil, ◌≡◌, inl, inr, refl, ap, sym, ◌∙◌, arith,
}
use emulator_networkaccess.World.{done}
use emulator_networkaccess.Offset.{skip_space, scan_sign}
use emulator_networkaccess.Dummy.Memory.{Dummy, wram, sram, set_memory}
use emulator_networkaccess.Dummy.Savestate.{
  scan_width, scan_number, scan_int, skip_colon, scan_section, read_block, load_section,
  load_sections, snes9x_152_savestate_get_ram_wram,
}

scan_width-length : (width acc : ℕ) (s : Bytes) → length (scan_width width acc s).1 ≤ length s
unfolding scan_width
scan_width-length zero acc s = omega arith
scan_width-length (suc width) acc [] = omega arith
scan_width-length (suc width) acc (c ∷ s) =
    ground (arith, scan_width-length width (acc * 10 + (c - b'0')) s)

skip_space-length : (s : Bytes) → length (skip_space s) ≤ length s
unfolding skip_space
skip_space-length [] = omega arith
skip_space-length (c ∷ s) = ground (arith, skip_space-length s)

scan_sign-length : (s : Bytes) → length (scan_sign s).1 ≤ length s
unfolding scan_sign
scan_sign-length [] = omega arith
scan_sign-length (c ∷ s) = ground arith

scan_number-length :
    (negative : Bool) (width : ℕ) (s : Bytes) {r : ℕ × Bytes}
    → scan_number negative width s ≡ some r
    → length r.1 ≤ length s
unfolding scan_number
scan_number-length negative width s {r = r} h =
    elim (Bool-cases (length (scan_width width 0 s).1 == length s)) [
      | inl no_digit ↦ absurd (ground arith)
      | inr digits ↦ ground (arith, scan_width-length width 0 s)
    ]

scan_int-length : (s : Bytes) {r : ℕ × Bytes} → scan_int s ≡ some r → length r.1 ≤ length s
unfolding scan_int
scan_int-length s {r = r} h =
    let signed = scan_sign (skip_space s) in
    let shorter = scan_number-length signed.0 _ signed.1 h in
    omega (arith, scan_sign-length (skip_space s), skip_space-length s)

skip_colon-length : (s : Bytes) → length (skip_colon s) ≤ length s
unfolding skip_colon
skip_colon-length [] = omega arith
skip_colon-length (c ∷ s) = ground arith

scan_section-length :
    (file : Bytes) {r : Bytes × ℕ × Bytes} → scan_section file ≡ some r → length r.2 < length file
unfolding scan_section
scan_section-length [] h = absurd (cc)
scan_section-length (a ∷ []) h = absurd (cc)
scan_section-length (a ∷ b ∷ []) h = absurd (cc)
scan_section-length (a ∷ b ∷ c ∷ []) h = absurd (cc)
scan_section-length (a ∷ b ∷ c ∷ colon ∷ s) {r = r} h = elim (Option-cases (scan_int s)) [
  | inl missing ↦ absurd (ground arith)
  | inr (n, found) ↦ ground (arith, scan_int-length s found, skip_colon-length n.1)
]

-- `malloc` finds a memory of each size.
abbrev pub Mallocs : (ℕ → Option Bytes) → Type 0
Mallocs malloc = (size : ℕ) → (bytes : Bytes) × (malloc size ≡ some bytes) × (length bytes ≡ size)

drop_all : (n : ℕ) (s : Bytes) → length s ≡ n → drop n s ≡ []
drop_all n s h =
    ap (λ m. drop m s) (sym h) ∙ ap (drop (length s)) (sym (append-nil s)) ∙ drop-append_self s []

module _ (malloc : ℕ → Option Bytes) (mallocs : Mallocs malloc) where
  read_block-done :
      (size : ℕ) (file : Bytes) → (bytes : Bytes) × (read_block malloc size file ≡ done bytes)
  unfolding read_block
  read_block-done size file =
      let (bytes, found, n) = mallocs size in
      (take size file ++ drop (length (take size file)) bytes, rw (found, read_block) refl)

  pub read_block-whole :
      (bytes rest : Bytes) → read_block malloc (length bytes) (bytes ++ rest) ≡ done bytes
  unfolding read_block
  read_block-whole bytes rest =
      let (memory, found, n) = mallocs (length bytes) in
      rw (found, read_block, take-append_self bytes rest)
        (ap (λ t. done (bytes ++ t)) (drop_all (length bytes) memory n)
          ∙ ap done (append-nil bytes))

  load_section-done :
      (name : Bytes) (size : ℕ) (file : Bytes) (d : Dummy)
      → (d' : Dummy) × (load_section malloc name size file d ≡ done d')
  unfolding load_section
  load_section-done name size file d =
      let (bytes, read) = read_block-done size file in
      elim (Bool-cases (strcmp_zero name (codes "RAM"))) [
        | inl ram ↦ (set_memory wram bytes d, rw (ram, read) refl)
        | inr other ↦ elim (Bool-cases (strcmp_zero name (codes "SRA"))) [
          | inl sra ↦ (set_memory sram bytes d, rw (other, sra, read) refl)
          | inr neither ↦ (d, rw (other, neither) refl)
        ]
      ]

  load_sections_end :
      (fuel : ℕ) (file : Bytes) (d : Dummy)
      → length file < fuel
      → (d' : Dummy) × (load_sections malloc fuel file d ≡ done d')
  unfolding load_sections
  load_sections_end zero file d l = absurd (omega arith)
  load_sections_end (suc fuel) file d l = elim (Option-cases (scan_section file)) [
    | inl over ↦ (d, rw (over, load_sections) refl)
    | inr ((name, size, rest), found) ↦
        let (d1, loaded) = load_section-done name size rest d in
        let (d2, ended) =
          load_sections_end fuel (drop size rest) d1
            (omega (arith, scan_section-length file found, length-drop size rest)) in
        (d2, rw (found, load_sections, loaded, ended) refl)
  ]

  -- The reading of a savestate that can be opened comes to its end, whatever the file holds, if malloc
  -- finds memory.
  pub snes9x_152_savestate_get_ram_wram_ends :
      (file : Bytes) (d : Dummy)
      → (d' : Dummy) × (snes9x_152_savestate_get_ram_wram malloc (some file) d ≡ done (some d'))
  unfolding snes9x_152_savestate_get_ram_wram
  snes9x_152_savestate_get_ram_wram_ends file d =
      let (d', ended) =
        load_sections_end (suc (length file)) (drop 14 file) d
          (omega (arith, length-drop 14 file)) in
      (d', rw (ended) refl)
