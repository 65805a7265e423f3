-- ===== src/Dummy/Savestate.antt =====
-- dummy/Dummy Emulator/dummy.c, `snes9x_152_savestate_get_ram_wram` and `prep_memory`. A file is its bytes,
-- `none` where it cannot be opened; `malloc` is what it finds in a memory of a size, `none` for NULL. The
-- result `done none` is `exit(1)`.
use emulator_networkaccess.Prelude.{
  ℕ, zero, suc, ◌+◌, ◌-◌, ◌*◌, ◌%◌, ◌^◌, Bool, ◌&&◌, Option, none, some, [], ◌∷◌, ◌++◌, Bytes,
  codes, length, take, drop, leb, ◌==◌, if◌then◌else◌, strcmp_zero,
}
use mathlib.Core.Option
use emulator_networkaccess.World.{Outcome, done, fault, out_of_fuel, null_pointer, ◌>>=◌}
use emulator_networkaccess.Offset.{skip_space, scan_sign}
use emulator_networkaccess.Dummy.Memory.{Dummy, wram, sram, cartrom, set_memory}

-- Up to `width` decimal digits: their value, after those of `acc`, and what follows.
unfoldable pub scan_width : ℕ → ℕ → Bytes → ℕ × Bytes
scan_width zero acc s = (acc, s)
scan_width (suc width) acc [] = (acc, [])
scan_width (suc width) acc (c ∷ s) =
    let further = scan_width width (acc * 10 + (c - b'0')) s in
    if leb b'0' c && leb c b'9' then further else (acc, c ∷ s)

-- The digits of a number of at most `width` characters, `none` without a digit.
unfoldable pub scan_number : Bool → ℕ → Bytes → Option (ℕ × Bytes)
unfolding scan_width
scan_number negative width s =
    let number = scan_width width 0 s in
    if length number.1 == length s
    then none
    else some (if negative then (2 ^ 32 - number.0) % 2 ^ 32 else number.0, number.1)

-- `%06d`: spaces, and then at most six characters, a sign and digits.
unfoldable pub scan_int : Bytes → Option (ℕ × Bytes)
unfolding skip_space scan_sign scan_number
scan_int s =
    let text = skip_space s in
    let signed = scan_sign text in
    scan_number signed.0 (if length signed.1 == length text then 6 else 5) signed.1

-- The last character of the format, which need not match for the result 2.
unfoldable pub skip_colon : Bytes → Bytes
skip_colon [] = []
skip_colon (c ∷ s) = if c == b':' then s else c ∷ s

-- `fscanf(fd, "%3c:%06d:", section_name, &size) == 2`: the name, the size, and the rest of the file.
unfoldable pub scan_section : Bytes → Option (Bytes × ℕ × Bytes)
unfolding scan_int skip_colon
scan_section (a ∷ b ∷ c ∷ colon ∷ s) =
    let section = Option.map (λ r. (a ∷ b ∷ c ∷ [], r.0, skip_colon r.1)) (scan_int s) in
    if colon == b':' then section else none
scan_section _ = none

-- `malloc`, and `fread` into that memory: what the file does not fill keeps what it held.
unfoldable pub read_block : (ℕ → Option Bytes) → ℕ → Bytes → Outcome Bytes
read_block malloc size file = elim (malloc size) [
  | none ↦ fault null_pointer
  | some bytes ↦ done (take size file ++ drop (length (take size file)) bytes)
]

-- The body of the loop: what a section does to the memories.
unfoldable pub load_section : (ℕ → Option Bytes) → Bytes → ℕ → Bytes → Dummy → Outcome Dummy
unfolding strcmp_zero read_block set_memory
load_section malloc name size file d =
    if strcmp_zero name (codes "RAM")
    then (read_block malloc size file >>= λ bytes. done (set_memory wram bytes d))
    else if strcmp_zero name (codes "SRA")
    then (read_block malloc size file >>= λ bytes. done (set_memory sram bytes d))
    else done d

-- The loop, from the place that the file is read at.
unfoldable pub load_sections : (ℕ → Option Bytes) → ℕ → Bytes → Dummy → Outcome Dummy
unfolding scan_section load_section
load_sections malloc zero file d = out_of_fuel
load_sections malloc (suc fuel) file d = elim (scan_section file) [
  | none ↦ done d
  | some section ↦ load_section malloc section.0 section.1 section.2 d >>= λ d'.
      load_sections malloc fuel (drop section.1 section.2) d'
]

-- A round of the loop reads a byte at least.
unfoldable pub snes9x_152_savestate_get_ram_wram :
    (ℕ → Option Bytes) → Option Bytes → Dummy → Outcome (Option Dummy)
unfolding load_sections
snes9x_152_savestate_get_ram_wram malloc none d = done none
snes9x_152_savestate_get_ram_wram malloc (some file) d =
    load_sections malloc (suc (length file)) (drop 14 file) d >>= λ d'. done (some d')

-- The program's files: the size that `stat` gives for the ROM, the ROM, and the savestate.
pub record Files : Type 0 where
  pub st_size : Option ℕ
  pub romfile : Option Bytes
  pub savestate : Option Bytes

-- `malloc` for the ROM has no effect but its result, so its place before `fopen` does not matter.
unfoldable pub read_rom : (ℕ → Option Bytes) → ℕ → Option Bytes → Dummy → Outcome (Option Dummy)
unfolding read_block set_memory
read_rom malloc size none d = done none
read_rom malloc size (some file) d =
    read_block malloc size file >>= λ bytes. done (some (set_memory cartrom bytes d))

unfoldable pub prep_memory : (ℕ → Option Bytes) → Files → Dummy → Outcome (Option Dummy)
unfolding read_rom snes9x_152_savestate_get_ram_wram
prep_memory malloc files d = elim files.st_size [
  | none ↦ done none
  | some size ↦ read_rom malloc size files.romfile d >>= λ o. elim o [
    | none ↦ done none
    | some d' ↦ snes9x_152_savestate_get_ram_wram malloc files.savestate d'
  ]
]
