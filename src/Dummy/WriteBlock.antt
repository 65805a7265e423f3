-- ===== src/Dummy/WriteBlock.antt =====
-- dummy/Dummy Emulator/dummy.c, `write_to_memory`: what the program does with the block of `bCORE_WRITE`.
use emulator_networkaccess.Prelude.{
  ℕ, ◌+◌, ◌*◌, ◌-◌, ◌%◌, ◌^◌, Bool, true, false, none, some, ◌∷◌, ◌++◌, Bytes, codes, length, take,
  drop, ◌==◌, ltb, if◌then◌else◌,
}
use emulator_networkaccess.World.{
  Outcome, done, fault, heap_overflow, null_pointer, out_of_bounds_read, World, write, ◌>>=◌,
}
use emulator_networkaccess.Dummy.Memory.{Dummy, memory_of, set_memory, hex_string}

-- `ntohl(*((uint32_t*) data))`
unfoldable pub size_header : Bytes → Outcome ℕ
size_header (a ∷ b ∷ c ∷ d ∷ rest) = done (((a * 256 + b) * 256 + c) * 256 + d)
size_header _ = fault out_of_bounds_read

-- The first `if`: where no header is pending, the first four bytes are taken for one.
unfoldable pub take_header : Bytes → ℕ → Dummy → Outcome (Bytes × ℕ × Dummy)
unfolding size_header
take_header block size d =
    if d.size_header_get
    then done (block, size, d)
    else (size_header block >>= λ header_size. done (
      drop 4 block,
      (size + 2 ^ 32 - 4) % 2 ^ 32,
      record d { size_to_write = header_size; size_header_get = true },
    ))

-- A memory with `bytes` copied to `offset`.
unfoldable pub splice : Bytes → ℕ → Bytes → Bytes
splice memory offset bytes = take offset memory ++ (bytes ++ drop (offset + length bytes) memory)

-- `memcpy(memory_to_write + offset_to_write, data, size)`
unfoldable pub copy_bytes : Bytes → ℕ → Dummy → Outcome Dummy
unfolding memory_of set_memory splice
copy_bytes block size d = elim d.memory_to_write [
  | none ↦ fault null_pointer
  | some area ↦ elim (memory_of area d) [
    | none ↦ fault null_pointer
    | some memory ↦
        if ltb (length block) size
        then fault out_of_bounds_read
        else if ltb (length memory) (d.offset_to_write + size)
        then fault heap_overflow
        else done (set_memory area (splice memory d.offset_to_write (take size block)) d)
  ]
]

-- The end of a write: all that was announced has been written.
unfoldable pub end_write : ℕ → ℕ → World Dummy → World Dummy
end_write socket size w =
    let total = (w.emulator.size_written + size) % 2 ^ 32 in
    if total == w.emulator.size_to_write
    then write socket (codes "\n\n") (record w {
      emulator = record w.emulator {
        size_to_write = 0;
        size_written = 0;
        offset_to_write = 0;
        memory_to_write = none;
        size_header_get = false;
      };
    })
    else record w { emulator = record w.emulator { size_written = total } }

-- `write_to_memory`, with all of its `return 0` as `false`.
unfoldable pub write_to_memory : ℕ → Bytes → World Dummy → Outcome (Bool × World Dummy)
unfolding hex_string take_header copy_bytes end_write
write_to_memory socket block w = do
  _ ← hex_string (some block) (length block % 2 ^ 32)
  (bytes, size, d) ← take_header block (length block % 2 ^ 32) w.emulator
  if size == 0
      then done (false, record w { emulator = d })
      else (copy_bytes bytes size d >>= λ d'.
          done (false, end_write socket size (record w { emulator = d' })))
