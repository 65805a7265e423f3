-- ===== src/Dummy/Exchange.antt =====
-- `bCORE_WRITE` to the dummy emulator through the server: the command, its arguments and the block.
use emulator_networkaccess.Prelude.{
  ℕ, pos, ◌+◌, ◌*◌, ◌^◌, ◌≤◌, ◌<◌, true, false, none, some, List, [], ◌∷◌, ◌++◌, Bytes, codes,
  length, ◌≡◌, ◌≢◌, inl, refl, ap, ◌∙◌, arith,
}
use emulator_networkaccess.Protocol.{number, core_write}
use emulator_networkaccess.World.{done, World, write, ◌>>=◌}
use emulator_networkaccess.Client.{Client, waiting_for_command}
use emulator_networkaccess.Command.Format.{format_command}
use emulator_networkaccess.Dispatch.{Handler, find_custom, find_handler}
use emulator_networkaccess.Offset.{get_offset}
use emulator_networkaccess.Framing.Parts.{kept}
use emulator_networkaccess.Framing.Loop.{preprocess_data}
use emulator_networkaccess.Framing.Valid.{IsValid}
use emulator_networkaccess.Framing.Blocks.{block_message}
use emulator_networkaccess.Framing.Exchange.{IsLine}
use emulator_networkaccess.Framing.CoreWrite.{core_write_name, written, preprocess_data-core_write}
use emulator_networkaccess.Dummy.Memory.{Area, Dummy, memory_of, find_area}
use emulator_networkaccess.Dummy.Commands.{atoi, dummy_core_memory_write}
use emulator_networkaccess.Dummy.Machine.{dummy_emulator, generic_emu_mwa_map}
use emulator_networkaccess.Dummy.Writing.{
  spelled, spliced, forget_write, write_to_memory-pending, write_to_memory_loses,
}

-- The state between the command and its block.
abbrev pub aimed : Area → Bytes → Bytes → Dummy → Dummy
aimed area offset size d = record d {
  memory_to_write = some area;
  offset_to_write = get_offset offset;
  size_to_write = atoi size;
  size_written = 0;
}

dummy_core_memory_write-aimed :
    (socket : ℕ) (area : Area) (name offset size : Bytes) (w : World Dummy)
    → find_area w.emulator.memory_to_write name ≡ some area
    → dummy_core_memory_write socket (name ∷ offset ∷ size ∷ []) w
      ≡ done (pos (atoi size), record w { emulator = aimed area offset size w.emulator })
unfolding dummy_core_memory_write
dummy_core_memory_write-aimed socket area name offset size w a = ground arith

find_core_write :
    find_handler generic_emu_mwa_map (number core_write) ≡ some dummy_core_memory_write
unfolding find_handler
find_core_write = refl

memory_of-aimed :
    (area k : Area) (offset size : Bytes) (d : Dummy)
    → memory_of k (aimed area offset size d) ≡ memory_of k d
unfolding memory_of
memory_of-aimed area Area.wram offset size d = refl
memory_of-aimed area Area.sram offset size d = refl
memory_of-aimed area Area.cartrom offset size d = refl

module _ (custom : List (Bytes × Handler Dummy)) (c : Client) (w : World Dummy) (area : Area)
    (memory name offset size : Bytes) (valid : IsValid c) (waiting : c.state ≡ waiting_for_command)
    (not_shallow : c.shallow_binary_block ≡ false)
    (line : IsLine core_write_name (name ∷ offset ∷ size ∷ []))
    (no_custom : find_custom 0 custom core_write_name ≡ none)
    (named : find_area w.emulator.memory_to_write name ≡ some area)
    (there : memory_of area w.emulator ≡ some memory) where
  abbrev command : Bytes
  command = format_command core_write_name (name ∷ offset ∷ size ∷ [])

  -- The server calls the function of the command and then `write_to_memory` with the block.
  exchange :
      (b : ℕ) (bs : Bytes)
      → atoi size ≡ length (b ∷ bs)
      → length (b ∷ bs) < 2 ^ 32
      → preprocess_data (dummy_emulator custom) c w (command ++ block_message (b ∷ bs)) ≡ (
          (dummy_emulator custom).write_function c.socket_fd
            (b ∷ bs)
            (record w { emulator = aimed area offset size w.emulator })
          >>= λ r. done (kept (written c (length (b ∷ bs))) r.1))
  exchange b bs e s =
      preprocess_data-core_write (dummy_emulator custom) (name ∷ offset ∷ size ∷ []) b bs c w
        dummy_core_memory_write (atoi size)
        (record w { emulator = aimed area offset size w.emulator }) valid waiting not_shallow line
        no_custom find_core_write
        (dummy_core_memory_write-aimed c.socket_fd area name offset size w named) s (inl e)

  -- bCORE_WRITE of a block to a range of a memory of the dummy emulator, sent in one read by a valid
  -- client that waits for a command and throws no block away, with a header pending from an earlier
  -- write and no custom entry for the command: the memory gets the block at the offset, an empty
  -- reply is sent, and no header is pending any more. The size is that of the block, the range is
  -- within the memory, and three times the size fits 32 bits with a NUL.
  pub core_write-pending :
      (b : ℕ) (bs : Bytes)
      → w.emulator.size_header_get ≡ true
      → atoi size ≡ length (b ∷ bs)
      → get_offset offset + length (b ∷ bs) ≤ length memory
      → length (b ∷ bs) * 3 + 1 < 2 ^ 32
      → preprocess_data (dummy_emulator custom) c w (command ++ block_message (b ∷ bs))
        ≡ done (
            kept (written c (length (b ∷ bs))) (
              write c.socket_fd (codes "\n\n") (record w {
                emulator =
                    forget_write (spliced area memory (b ∷ bs) (aimed area offset size w.emulator));
              })))
  core_write-pending b bs p e l s =
      exchange b bs e (omega arith)
      ∙ ap (λ m. m >>= λ r. done (kept (written c (length (b ∷ bs))) r.1))
          (write_to_memory-pending c.socket_fd area memory
            (record w { emulator = aimed area offset size w.emulator }) (b ∷ bs) p refl
            (memory_of-aimed area area offset size w.emulator ∙ there) l (omega arith) s refl e)

  -- bCORE_WRITE of a block to a range of a memory of the dummy emulator, sent in one read by a valid
  -- client that waits for a command and throws no block away, with no header pending and no custom
  -- entry for the command: the first four bytes of the block are lost, and the others stand at the
  -- offset, four bytes too early. Where those four do not spell the number of the others, of which
  -- there is one at least, no reply is sent, and a header is pending for the next write. The size is
  -- that of the block, the others fit in the memory, and three times the size of the block fits 32
  -- bits with a NUL.
  pub core_write_loses :
      (h1 h2 h3 h4 : ℕ) (rest : Bytes)
      → w.emulator.size_header_get ≡ false
      → atoi size ≡ length (h1 ∷ h2 ∷ h3 ∷ h4 ∷ rest)
      → get_offset offset + length rest ≤ length memory
      → 0 < length rest
      → (length rest + 4) * 3 + 1 < 2 ^ 32
      → spelled h1 h2 h3 h4 ≢ length rest
      → preprocess_data
          (dummy_emulator custom)
          c
          w
          (command ++ block_message (h1 ∷ h2 ∷ h3 ∷ h4 ∷ rest))
        ≡ done (
            kept (written c (length (h1 ∷ h2 ∷ h3 ∷ h4 ∷ rest))) (record w {
              emulator = record (spliced area memory rest (aimed area offset size w.emulator)) {
                size_to_write = spelled h1 h2 h3 h4;
                size_header_get = true;
                size_written = length rest;
              };
            }))
  core_write_loses h1 h2 h3 h4 rest p e l z s ne =
      exchange h1 (h2 ∷ h3 ∷ h4 ∷ rest) e (omega arith)
      ∙ ap (λ m. m >>= λ r. done (kept (written c (length (h1 ∷ h2 ∷ h3 ∷ h4 ∷ rest))) r.1))
          (write_to_memory_loses c.socket_fd area memory
            (record w { emulator = aimed area offset size w.emulator }) h1 h2 h3 h4 rest p refl
            (memory_of-aimed area area offset size w.emulator ∙ there) l z s refl ne)
