-- ===== src/Framing/Feed.antt =====
-- A description of the protocol's framing that knows nothing of reads: one byte at a time.
use emulator_networkaccess.Prelude.{
  ℕ, ◌+◌, not, ◌||◌, none, some, [], ◌∷◌, ◌++◌, Bytes, ◌==◌, leb, ltb, if◌then◌else◌, length, ◌≡◌,
  refl, sym, ◌∙◌,
}
use emulator_networkaccess.Protocol.{protocol_error}
use emulator_networkaccess.World.{
  Outcome, done, fault, out_of_fuel, heap_overflow, static_overflow, null_pointer, World, ◌>>=◌,
  >>=_assoc, >>=_congr,
}
use emulator_networkaccess.Client.{
  ClientState, waiting_for_command, getting_command, expecting_binary_data, getting_binary_data,
  Client, buffer_size, header_size,
}
use emulator_networkaccess.Dispatch.{Emulator}
use emulator_networkaccess.Reply.{send_error}
use emulator_networkaccess.Process.{starts_command, block_length, end_block, end_command}
use emulator_networkaccess.Framing.Parts.{Verdict, kept, dropped, bad_block, bad_size, bad_start}

abbrev refused : {E : Type 0} → Bytes → Client → World E → Outcome (Verdict E)
refused reason c w = done (dropped c (send_error c.socket_fd protocol_error reason w))

-- A byte of a block's header. The fifth opens the block, if its size is the expected one.
unfoldable pub header_byte : {E : Type 0} → Client → World E → ℕ → Outcome (Verdict E)
unfolding block_length
header_byte c w b =
    let header = c.binary_header ++ (b ∷ []) in
    let size = block_length header in
    let opened = record c {
      binary_header = header;
      binary_block_defined_size = size;
      binary_block = some [];
    } in
    if length header == header_size
    then (if not (size == c.expected_block_size || c.expected_block_size == 0)
        then refused bad_size opened w
        else done (kept opened w))
    else done (kept (record c { binary_header = header }) w)

module _ {E : Type 0} (emu : Emulator E) where
  -- A byte of a command.
  unfoldable pub command_byte : Client → World E → ℕ → Outcome (Verdict E)
  command_byte c w b =
      let c' = record c { command_data = c.command_data ++ (b ∷ []) } in
      if leb buffer_size (length c.command_data)
      then fault static_overflow
      else if b == b'\n'
      then (end_command emu c' w >>= λ r. done (kept r.0 r.1))
      else done (kept c' w)

  unfoldable pub first_byte : Client → World E → ℕ → Outcome (Verdict E)
  unfolding command_byte
  first_byte c w b =
      if starts_command b
      then command_byte (record c { state = getting_command }) w b
      else refused bad_start c w

  -- The byte behind a block of size 0 ends the block. A block that is not taken stays open for ever.
  unfoldable pub behind_empty : ClientState → Client → World E → ℕ → Outcome (Verdict E)
  unfolding first_byte
  behind_empty waiting_for_command c w b = first_byte c w b
  behind_empty _ c w b = out_of_fuel

  -- A byte of a block's data.
  unfoldable pub data_byte : Client → World E → Bytes → ℕ → Outcome (Verdict E)
  unfolding behind_empty
  data_byte c w block b =
      let size = c.binary_block_defined_size in
      let block' = block ++ (b ∷ []) in
      let c' = record c { binary_block = some block' } in
      if size == 0
      then (if ltb 0 (length block)
          then fault heap_overflow
          else end_block emu (record c { binary_block = some [] }) w >>= λ r.
              behind_empty r.0.state r.0 r.1 b)
      else if ltb size (length block + 1)
      then fault heap_overflow
      else if length block + 1 == size
      then (end_block emu c' w >>= λ r. done (kept r.0 r.1))
      else done (kept c' w)

  unfoldable pub feed_in : ClientState → Client → World E → ℕ → Outcome (Verdict E)
  unfolding first_byte command_byte header_byte data_byte
  feed_in waiting_for_command c w b = first_byte c w b
  feed_in getting_command c w b = command_byte c w b
  feed_in expecting_binary_data c w b =
      let c' = record c { state = getting_binary_data; binary_header = [] } in
      if b == 0 then header_byte c' w b else refused bad_block c' w
  feed_in getting_binary_data c w b =
      if ltb (length c.binary_header) header_size
      then header_byte c w b
      else elim c.binary_block [ none ↦ fault null_pointer | some block ↦ data_byte c w block b ]

  -- The bytes of a stream, up to the one at which the client is dropped.
  unfoldable pub feed : Client → World E → Bytes → Outcome (Verdict E)
  unfolding feed_in
  feed c w [] = done (kept c w)
  feed c w (b ∷ bs) = feed_in c.state c w b >>= λ v. elim v [
    | kept c' w' ↦ feed c' w' bs
    | dropped c' w' ↦ done (dropped c' w')
  ]

  -- Goes on with a stream where the client was kept.
  abbrev pub feed_on : Bytes → Verdict E → Outcome (Verdict E)
  feed_on bs (kept c w) = feed c w bs
  feed_on bs (dropped c w) = done (dropped c w)

  feed_on-append :
      (xs ys : Bytes)
      → ((c : Client) (w : World E) → feed c w (xs ++ ys) ≡ (feed c w xs >>= feed_on ys))
      → (v : Verdict E) → feed_on (xs ++ ys) v ≡ (feed_on xs v >>= feed_on ys)
  feed_on-append xs ys h (kept c w) = h c w
  feed_on-append xs ys h (dropped c w) = refl

  pub feed-append :
      (xs ys : Bytes) (c : Client) (w : World E)
      → feed c w (xs ++ ys) ≡ (feed c w xs >>= feed_on ys)
  unfolding feed
  feed-append [] ys c w = refl
  feed-append (x ∷ xs) ys c w =
      >>=_congr (feed_in c.state c w x) (feed_on (xs ++ ys)) (λ v. feed_on xs v >>= feed_on ys)
        (λ v. feed_on-append xs ys (feed-append xs ys) v)
      ∙ sym (>>=_assoc (feed_in c.state c w x) (feed_on xs) (feed_on ys))
