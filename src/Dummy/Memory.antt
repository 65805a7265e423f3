-- ===== src/Dummy/Memory.antt =====
-- dummy/Dummy Emulator/dummy.c: the variables of the program, its memories, and `hexString`.
use emulator_networkaccess.Prelude.{
  ℕ, zero, suc, ◌+◌, ◌-◌, ◌*◌, ◌/◌, ◌%◌, ◌^◌, Bool, Option, none, some, [], ◌∷◌, Bytes, codes, leb,
  ltb, if◌then◌else◌, drop, strcmp_zero,
}
use emulator_networkaccess.Command.{c_string}
use emulator_networkaccess.World.{
  Outcome, done, fault, heap_overflow, null_pointer, out_of_bounds_read, ◌>>=◌,
}

-- `enum status`
pub data Status : Type 0 where
  running paused stopped : Status

-- What a pointer into a memory points to.
pub data Area : Type 0 where
  wram sram cartrom : Area

-- The static variables. A memory is `none` for NULL, and else the bytes that were allocated.
pub record Dummy : Type 0 where
  pub dummy_state : Status
  pub sram_memory : Option Bytes
  pub wram_memory : Option Bytes
  pub rom_memory : Option Bytes
  pub rom_path : Bytes
  pub memory_to_write : Option Area
  pub offset_to_write : ℕ
  pub size_written : ℕ
  pub size_to_write : ℕ
  pub size_header_get : Bool

unfoldable pub memory_of : Area → Dummy → Option Bytes
memory_of wram d = d.wram_memory
memory_of sram d = d.sram_memory
memory_of cartrom d = d.rom_memory

unfoldable pub set_memory : Area → Bytes → Dummy → Dummy
set_memory wram bytes d = record d { wram_memory = some bytes }
set_memory sram bytes d = record d { sram_memory = some bytes }
set_memory cartrom bytes d = record d { rom_memory = some bytes }

-- The three tests of a name, in their order; the variable keeps its value where none holds. `strcmp`
-- reads the name up to its first NUL.
unfoldable pub find_area : Option Area → Bytes → Option Area
unfolding strcmp_zero c_string
find_area before name =
    let string = c_string name in
    if strcmp_zero string (codes "CARTROM")
    then some cartrom
    else if strcmp_zero string (codes "SRAM")
    then some sram
    else if strcmp_zero string (codes "WRAM")
    then some wram
    else before

-- The bytes from `ptr + offset` to the end of what was allocated, `none` for a NULL `ptr`.
unfoldable pub bytes_at : Option Area → ℕ → Dummy → Option Bytes
unfolding memory_of
bytes_at none offset d = none
bytes_at (some area) offset d = elim (memory_of area d) [
  | none ↦ none
  | some bytes ↦ some (drop offset bytes)
]

-- `%02X`, of a byte
abbrev pub hex_digit : ℕ → ℕ
hex_digit n = if ltb n 10 then n + b'0' else n - 10 + b'A'

-- The loop of `hexString` from `i` on, for `rounds` more rounds: `sprintf` writes three bytes and a NUL.
unfoldable pub hex_loop : ℕ → ℕ → ℕ → Bytes → Outcome Bytes
hex_loop capacity i zero str = done []
hex_loop capacity i (suc rounds) [] = fault out_of_bounds_read
hex_loop capacity i (suc rounds) (c ∷ str) =
    let rest = hex_loop capacity (i + 1) rounds str in
    if ltb capacity (i * 3 % 2 ^ 32 + 4)
    then fault heap_overflow
    else (rest >>= λ text. done (hex_digit (c / 16 % 16) ∷ hex_digit (c % 16) ∷ b' ' ∷ text))

-- `hexString`: the text, without its final NUL. The size of the buffer is an `unsigned int`.
unfoldable pub hex_string : Option Bytes → ℕ → Outcome Bytes
unfolding hex_loop
hex_string none zero = done []
hex_string none (suc size) = fault null_pointer
hex_string (some str) size =
    let capacity = (size * 3 + 1) % 2 ^ 32 in
    hex_loop capacity 0 size str >>= λ text.
    if leb capacity (size * 3 % 2 ^ 32) then fault heap_overflow else done text
