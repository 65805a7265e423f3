-- ===== src/Dummy/CoreRead.antt =====
-- `CORE_READ` to the dummy emulator through the server.
use emulator_networkaccess.Prelude.{
  ℕ, sym, arith, ◌%◌, ◌⊎◌, inl, inr, ap, ap₂, pos, true, ◌+◌, ◌*◌, ◌^◌, ◌≤◌, ◌<◌, none, some, List,
  [], ◌∷◌, Bytes, codes, length, take, drop, ◌≡◌, refl, ◌∙◌,
}
use emulator_networkaccess.Protocol.{number, core_read}
use emulator_networkaccess.World.{done, World}
use emulator_networkaccess.Client.{Client, waiting_for_command}
use emulator_networkaccess.Command.Format.{format_command}
use emulator_networkaccess.Dispatch.{Handler, find_handler}
use emulator_networkaccess.Dispatch.Names.{NoPrefix, spelling, execute_command-spelling}
use emulator_networkaccess.Offset.{get_offset, atoll}
use emulator_networkaccess.Offset.Print.{
  decimal, hexadecimal, get_offset-decimal, get_offset-hexadecimal, atoll-decimal,
}
use emulator_networkaccess.Process.{starts_command, is_alnum}
use emulator_networkaccess.Reply.{send_binary_block}
use emulator_networkaccess.Framing.Parts.{kept}
use emulator_networkaccess.Framing.Loop.{preprocess_data}
use emulator_networkaccess.Framing.Valid.{IsValid}
use emulator_networkaccess.Framing.Exchange.{IsLine}
use emulator_networkaccess.Framing.Plain.{asking, answered, preprocess_data-command}
use emulator_networkaccess.Dummy.Memory.{Area, Dummy, memory_of, find_area}
use emulator_networkaccess.Dummy.Commands.{atoi, dummy_core_memory_read}
use emulator_networkaccess.Dummy.Machine.{dummy_emulator, generic_emu_mwa_map}
use emulator_networkaccess.Dummy.Reading.{dummy_core_memory_read-range}

find_core_read : find_handler generic_emu_mwa_map (number core_read) ≡ some dummy_core_memory_read
unfolding find_handler
find_core_read = refl

starts_core_read : starts_command b'C' ≡ true
unfolding is_alnum
starts_core_read = refl

-- `atoi` reads no digit behind `$`.
zero_of_dollar : (digits : Bytes) → atoi (b'$' ∷ digits) ≡ 0
unfolding atoll
zero_of_dollar digits = refl

module _ (custom : List (Bytes × Handler Dummy)) (c : Client) (w : World Dummy) (area : Area)
    (memory name : Bytes) (valid : IsValid c) (waiting : c.state ≡ waiting_for_command)
    (no_custom : NoPrefix (spelling core_read) custom) (named : find_area none name ≡ some area)
    (there : memory_of area w.emulator ≡ some memory) where
  -- The arguments as the function of the command reads them.
  core_read-read :
      (offset size : Bytes)
      → IsLine (spelling core_read) (name ∷ offset ∷ size ∷ [])
      → get_offset offset + atoi size ≤ length memory
      → atoi size * 3 + 1 < 2 ^ 32
      → preprocess_data
          (dummy_emulator custom)
          c
          w
          (format_command (spelling core_read) (name ∷ offset ∷ size ∷ []))
        ≡ done (
            kept (answered c (number core_read)) (
              send_binary_block c.socket_fd (take (atoi size) (drop (get_offset offset) memory)) w))
  core_read-read offset size l fits small =
      let args = name ∷ offset ∷ size ∷ [] in
      let line = format_command (spelling core_read) args in
      preprocess_data-command (dummy_emulator custom) b'C' (codes "ORE_READ") args c w (pos 0)
        (number core_read)
        (send_binary_block c.socket_fd (take (atoi size) (drop (get_offset offset) memory)) w) valid
        waiting starts_core_read (λ q. cc) l
        (execute_command-spelling (dummy_emulator custom) (asking c line) args w core_read no_custom
          ∙ rw
              (
                find_core_read,
                dummy_core_memory_read-range c.socket_fd name offset size [] w area memory named
                    there fits small,
              )
              refl)

  -- A valid client that waits for a command and names an area with memory, an offset below 2 ^ 63 (in
  -- decimal, or in hexadecimal behind `$`) and a size is answered by one block with the bytes of the
  -- range: as many as a size in decimal says, and none for any size behind `$`, which the code does not
  -- read as hexadecimal; if the range lies inside the memory, three times its size and 1 are below
  -- 2 ^ 32, the line fits, and no custom function's name is a prefix of `CORE_READ`.
  pub core_read-range :
      (n k : ℕ) (offset size : Bytes)
      → (offset ≡ decimal n) ⊎ (offset ≡ b'$' ∷ hexadecimal n)
      → (size ≡ decimal k) ⊎ ((digits : Bytes) × (size ≡ b'$' ∷ digits) × (k ≡ 0))
      → IsLine (spelling core_read) (name ∷ offset ∷ size ∷ [])
      → n < 2 ^ 63
      → n + k ≤ length memory
      → k * 3 + 1 < 2 ^ 32
      → preprocess_data
          (dummy_emulator custom)
          c
          w
          (format_command (spelling core_read) (name ∷ offset ∷ size ∷ []))
        ≡ done (
            kept
              (answered c (number core_read))
              (send_binary_block c.socket_fd (take k (drop n memory)) w))
  core_read-range n k offset size printed counted l n_fits fits small =
      let count : atoi size ≡ k = elim counted [
        | inl dec ↦
            ap atoi dec ∙ ap (λ m. m % 2 ^ 32) (atoll-decimal k (omega arith)) ∙ (omega arith)
        | inr (digits, hex, none_read) ↦ ap atoi hex ∙ zero_of_dollar digits ∙ sym none_read
      ] in
      let at : get_offset offset ≡ n = elim printed [
        | inl dec ↦ ap get_offset dec ∙ get_offset-decimal n n_fits
        | inr hex ↦ ap get_offset hex ∙ get_offset-hexadecimal n (omega arith)
      ] in
      core_read-read offset size l (omega (arith, count, at)) (omega (arith, count))
      ∙ ap₂
          (λ i j. done (
            kept (answered c (number core_read))
              (send_binary_block c.socket_fd (take i (drop j memory)) w)))
          count at
