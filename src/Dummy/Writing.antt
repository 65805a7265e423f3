-- ===== src/Dummy/Writing.antt =====
-- What `write_to_memory` does with the block of one `bCORE_WRITE`.
use emulator_networkaccess.Prelude.{
  ℕ, ◌+◌, ◌*◌, ◌%◌, ◌^◌, ◌≤◌, ◌<◌, true, false, none, some, ◌∷◌, ◌++◌, Bytes, codes, length, take,
  drop, length-take, length-drop, length-append, take-length, ==_of_ne, ◌≡◌, ◌≢◌, refl, ◌∙◌, arith,
}
use emulator_networkaccess.World.{done, World, write}
use emulator_networkaccess.Dummy.Memory.{Area, wram, sram, cartrom, Dummy, memory_of, set_memory}
use emulator_networkaccess.Dummy.Reading.{hex_string-done}
use emulator_networkaccess.Dummy.WriteBlock.{
  take_header, splice, copy_bytes, end_write, write_to_memory,
}

pub length-splice :
    (memory bytes : Bytes) (offset : ℕ)
    → offset + length bytes ≤ length memory
    → length (splice memory offset bytes) ≡ length memory
unfolding splice
length-splice memory bytes offset h = omega (
  arith,
  length-append (take offset memory) (bytes ++ drop (offset + length bytes) memory),
  length-append bytes (drop (offset + length bytes) memory),
  length-take offset memory (omega arith),
  length-drop (offset + length bytes) memory,
)

-- The state after a write has put `bytes` into a memory, with a header pending or not.
abbrev pub spliced : Area → Bytes → Bytes → Dummy → Dummy
spliced area memory bytes d = set_memory area (splice memory d.offset_to_write bytes) d

-- What is left of a write that has come to its end.
abbrev pub forget_write : Dummy → Dummy
forget_write d = record d {
  size_to_write = 0;
  size_written = 0;
  offset_to_write = 0;
  memory_to_write = none;
  size_header_get = false;
}

copy_bytes-spliced :
    (area : Area) (memory bytes : Bytes) (d : Dummy)
    → d.memory_to_write ≡ some area
    → memory_of area d ≡ some memory
    → d.offset_to_write + length bytes ≤ length memory
    → copy_bytes bytes (length bytes) d ≡ done (spliced area memory bytes d)
unfolding copy_bytes
copy_bytes-spliced area memory bytes d a m l = ground (arith, take-length bytes)

set_memory-size_to_write :
    (area : Area) (bytes : Bytes) (d : Dummy)
    → ((set_memory area bytes d).size_to_write ≡ d.size_to_write)
      × ((set_memory area bytes d).size_written ≡ d.size_written)
unfolding set_memory
set_memory-size_to_write wram bytes d = (refl, refl)
set_memory-size_to_write sram bytes d = (refl, refl)
set_memory-size_to_write cartrom bytes d = (refl, refl)

-- A header changes no memory, and a memory no header.
abbrev announce : ℕ → Dummy → Dummy
announce n d = record d { size_to_write = n; size_header_get = true }

memory_of-announce :
    (area : Area) (n : ℕ) (d : Dummy) → memory_of area (announce n d) ≡ memory_of area d
unfolding memory_of
memory_of-announce wram n d = refl
memory_of-announce sram n d = refl
memory_of-announce cartrom n d = refl

set_memory-announce :
    (area : Area) (bytes : Bytes) (n : ℕ) (d : Dummy)
    → set_memory area bytes (announce n d) ≡ announce n (set_memory area bytes d)
unfolding set_memory
set_memory-announce wram bytes n d = refl
set_memory-announce sram bytes n d = refl
set_memory-announce cartrom bytes n d = refl

-- The number that four bytes spell, in network order.
abbrev pub spelled : ℕ → ℕ → ℕ → ℕ → ℕ
spelled h1 h2 h3 h4 = ((h1 * 256 + h2) * 256 + h3) * 256 + h4

take_header-pending :
    (block : Bytes) (size : ℕ) (d : Dummy)
    → d.size_header_get ≡ true
    → take_header block size d ≡ done (block, size, d)
unfolding take_header
take_header-pending block size d p = ground arith

take_header-taken :
    (a b c e : ℕ) (rest : Bytes) (d : Dummy)
    → d.size_header_get ≡ false
    → length rest + 4 < 2 ^ 32
    → let block = a ∷ b ∷ c ∷ e ∷ rest in
      take_header block (length block) d
      ≡ done (rest, length rest, announce (((a * 256 + b) * 256 + c) * 256 + e) d)
unfolding take_header
take_header-taken a b c e rest d p s = ground arith

-- One call, step by step.
write_to_memory-steps :
    (socket : ℕ) (block bytes : Bytes) (area : Area) (memory : Bytes) (d : Dummy) (w : World Dummy)
    → length block * 3 + 1 < 2 ^ 32
    → take_header block (length block) w.emulator ≡ done (bytes, length bytes, d)
    → 0 < length bytes
    → d.memory_to_write ≡ some area
    → memory_of area d ≡ some memory
    → d.offset_to_write + length bytes ≤ length memory
    → write_to_memory socket block w
      ≡ done (
        false,
        end_write socket (length bytes) (record w { emulator = spliced area memory bytes d }),
      )
unfolding write_to_memory
write_to_memory-steps socket block bytes area memory d w s h n a m l =
    let small : length block % 2 ^ 32 ≡ length block = omega arith in
    let (text, printed) = hex_string-done block (length block) (omega arith) s in
    rw
      (
        small,
        printed,
        h,
        ==_of_ne (length bytes) 0 (omega arith),
        copy_bytes-spliced area memory bytes d a m l,
      )
      refl

module _ (socket : ℕ) (area : Area) (memory : Bytes) (w : World Dummy) where
  -- With a header pending, a block of the announced size is put into the memory at the offset, and
  -- answered by an empty reply; the write is over.
  pub write_to_memory-pending :
      (block : Bytes)
      → w.emulator.size_header_get ≡ true
      → w.emulator.memory_to_write ≡ some area
      → memory_of area w.emulator ≡ some memory
      → w.emulator.offset_to_write + length block ≤ length memory
      → 0 < length block
      → length block * 3 + 1 < 2 ^ 32
      → w.emulator.size_written ≡ 0
      → w.emulator.size_to_write ≡ length block
      → write_to_memory socket block w
        ≡ done (
          false,
          write socket
              (codes "\n\n")
              (record w { emulator = forget_write (spliced area memory block w.emulator) }),
        )
  unfolding end_write
  write_to_memory-pending block p a m l n s z e =
      let (same_size, same_written) =
        set_memory-size_to_write area (splice memory w.emulator.offset_to_write block) w.emulator in
      write_to_memory-steps socket block block area memory w.emulator w s
        (take_header-pending block (length block) w.emulator p) n a m l
      ∙ ground arith

  -- Without a header pending, the first four bytes of the block are taken for its size, which the
  -- server has cut off already: only the bytes behind them are put into the memory. Where they do not
  -- spell the number of the others, nothing is answered, and the header stays pending.
  pub write_to_memory_loses :
      (h1 h2 h3 h4 : ℕ) (rest : Bytes)
      → w.emulator.size_header_get ≡ false
      → w.emulator.memory_to_write ≡ some area
      → memory_of area w.emulator ≡ some memory
      → w.emulator.offset_to_write + length rest ≤ length memory
      → 0 < length rest
      → (length rest + 4) * 3 + 1 < 2 ^ 32
      → w.emulator.size_written ≡ 0
      → spelled h1 h2 h3 h4 ≢ length rest
      → write_to_memory socket (h1 ∷ h2 ∷ h3 ∷ h4 ∷ rest) w
        ≡ done (
          false,
          record w {
            emulator = record (spliced area memory rest w.emulator) {
              size_to_write = spelled h1 h2 h3 h4;
              size_header_get = true;
              size_written = length rest;
            };
          },
        )
  unfolding end_write
  write_to_memory_loses h1 h2 h3 h4 rest p a m l z s e ne =
      let n = spelled h1 h2 h3 h4 in
      let d = announce n w.emulator in
      let bytes = splice memory w.emulator.offset_to_write rest in
      let (same_size, same_written) = set_memory-size_to_write area bytes d in
      write_to_memory-steps socket (h1 ∷ h2 ∷ h3 ∷ h4 ∷ rest) rest area memory d w (omega arith)
        (take_header-taken h1 h2 h3 h4 rest w.emulator p (omega arith)) z a
        (memory_of-announce area n w.emulator ∙ m) l
      ∙ ground (arith, set_memory-announce area bytes n w.emulator)
