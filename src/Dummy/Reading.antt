-- ===== src/Dummy/Reading.antt =====
-- What `CORE_READ` sends.
use emulator_networkaccess.Prelude.{
  ℕ, zero, suc, ◌+◌, ◌-◌, ◌*◌, ◌/◌, ◌%◌, ◌^◌, ◌≤◌, ◌<◌, pos, none, some, List, [], ◌∷◌, Bytes,
  length, take, drop, length-take, length-drop, ltb_of_le, ◌≡◌, refl, arith,
}
use emulator_networkaccess.World.{
  done, fault, null_pointer, out_of_bounds_read, uninitialized_read, World,
}
use emulator_networkaccess.Offset.{get_offset}
use emulator_networkaccess.Reply.{send_binary_block}
use emulator_networkaccess.Dummy.Memory.{
  Area, Dummy, memory_of, find_area, bytes_at, hex_digit, hex_loop, hex_string,
}
use emulator_networkaccess.Dummy.Commands.{arg_at, atoi, dummy_core_memory_read}

hex_loop-done :
    (capacity i rounds : ℕ) (str : Bytes)
    → capacity < 2 ^ 32
    → (i + rounds) * 3 + 1 ≤ capacity
    → rounds ≤ length str
    → (text : Bytes) × (hex_loop capacity i rounds str ≡ done text)
unfolding hex_loop
hex_loop-done capacity i zero str w h l = ([], refl)
hex_loop-done capacity i (suc rounds) [] w h l = absurd (omega arith)
hex_loop-done capacity i (suc rounds) (c ∷ str) w h l =
    let (text, there) = hex_loop-done capacity (i + 1) rounds str w (omega arith) (omega arith) in
    (
      hex_digit (c / 16 % 16) ∷ hex_digit (c % 16) ∷ b' ' ∷ text,
      rw (there, ltb_of_le capacity (i * 3 % 2 ^ 32 + 4) (omega arith)) refl,
    )

-- `hexString` of bytes that are there returns.
pub hex_string-done :
    (str : Bytes) (size : ℕ)
    → size ≤ length str
    → size * 3 + 1 < 2 ^ 32
    → (text : Bytes) × (hex_string (some str) size ≡ done text)
unfolding hex_string
hex_string-done str size l w =
    let (text, there) =
      hex_loop-done ((size * 3 + 1) % 2 ^ 32) 0 size str (omega arith) (omega arith) l in
    (text, rw there (ground arith))

hex_loop_short :
    (capacity i rounds : ℕ) (str : Bytes)
    → capacity < 2 ^ 32
    → (i + rounds) * 3 + 1 ≤ capacity
    → length str < rounds
    → hex_loop capacity i rounds str ≡ fault out_of_bounds_read
unfolding hex_loop
hex_loop_short capacity i zero str w h l = absurd (omega arith)
hex_loop_short capacity i (suc rounds) [] w h l = refl
hex_loop_short capacity i (suc rounds) (c ∷ str) w h l =
    rw
      (
        hex_loop_short capacity (i + 1) rounds str w (omega arith) (omega arith),
        ltb_of_le capacity (i * 3 % 2 ^ 32 + 4) (omega arith),
      )
      refl

hex_string_short :
    (str : Bytes) (size : ℕ)
    → length str < size
    → size * 3 + 1 < 2 ^ 32
    → hex_string (some str) size ≡ fault out_of_bounds_read
unfolding hex_string
hex_string_short str size l w =
    rw (hex_loop_short ((size * 3 + 1) % 2 ^ 32) 0 size str (omega arith) (omega arith) l) refl

bytes_at-drop :
    (area : Area) (offset : ℕ) (d : Dummy) (memory : Bytes)
    → memory_of area d ≡ some memory
    → bytes_at (some area) offset d ≡ some (drop offset memory)
unfolding bytes_at
bytes_at-drop area offset d memory m = rw (m, bytes_at) refl

module _ (socket : ℕ) (name offset size : Bytes) (more : List Bytes) (w : World Dummy) where
  -- A read of a range of a memory of the dummy emulator is answered by one binary block, with the
  -- bytes of the range, if three times its size fits 32 bits with a NUL.
  pub dummy_core_memory_read-range :
      (area : Area) (memory : Bytes)
      → find_area none name ≡ some area
      → memory_of area w.emulator ≡ some memory
      → get_offset offset + atoi size ≤ length memory
      → atoi size * 3 + 1 < 2 ^ 32
      → dummy_core_memory_read socket (name ∷ offset ∷ size ∷ more) w
        ≡ done
            (pos 0, send_binary_block socket (take (atoi size) (drop (get_offset offset) memory)) w)
  unfolding dummy_core_memory_read bytes_at send_binary_block
  dummy_core_memory_read-range area memory a m l s =
      let fits : atoi size ≤ length (drop (get_offset offset) memory) =
        omega (arith, length-drop (get_offset offset) memory) in
      let (text, printed) = hex_string-done (drop (get_offset offset) memory) (atoi size) fits s in
      rw
        (
          a,
          bytes_at-drop area (get_offset offset) w.emulator memory m,
          printed,
          length-take (atoi size) (drop (get_offset offset) memory) fits,
        )
        refl

  -- A read of at least one byte that goes past the end of a memory of the dummy emulator reads past
  -- the end of what was allocated, if three times its size fits 32 bits with a NUL.
  pub dummy_core_memory_read_past_end :
      (area : Area) (memory : Bytes)
      → find_area none name ≡ some area
      → memory_of area w.emulator ≡ some memory
      → length memory < get_offset offset + atoi size
      → 0 < atoi size
      → atoi size * 3 + 1 < 2 ^ 32
      → dummy_core_memory_read socket (name ∷ offset ∷ size ∷ more) w ≡ fault out_of_bounds_read
  unfolding dummy_core_memory_read
  dummy_core_memory_read_past_end area memory a m l p s =
      let short : length (drop (get_offset offset) memory) < atoi size =
        omega (arith, length-drop (get_offset offset) memory) in
      rw
        (
          a,
          bytes_at-drop area (get_offset offset) w.emulator memory m,
          hex_string_short (drop (get_offset offset) memory) (atoi size) short s,
        )
        refl

  -- A read of at least one byte of a memory that there is not is a read through NULL.
  dummy_core_memory_read_unknown :
      find_area none name ≡ none
      → 0 < atoi size
      → dummy_core_memory_read socket (name ∷ offset ∷ size ∷ more) w ≡ fault null_pointer
  unfolding dummy_core_memory_read bytes_at hex_string
  dummy_core_memory_read_unknown a p =
      let e : atoi size ≡ suc (atoi size - 1) = omega arith in rw (a, e) refl

-- A read with fewer than three arguments, which the protocol allows, reads an argument that is not there.
dummy_core_memory_read_few :
    (socket : ℕ) (args : List Bytes) (w : World Dummy)
    → length args < 3
    → dummy_core_memory_read socket args w ≡ fault uninitialized_read
unfolding dummy_core_memory_read arg_at
dummy_core_memory_read_few socket [] w l = refl
dummy_core_memory_read_few socket (a ∷ []) w l = refl
dummy_core_memory_read_few socket (a ∷ b ∷ []) w l = refl
dummy_core_memory_read_few socket (a ∷ b ∷ c ∷ r) w l = absurd (omega arith)
