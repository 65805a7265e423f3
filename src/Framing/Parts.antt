-- ===== src/Framing/Parts.antt =====
-- generic poll server/generic_poll_server.c, the parts of the loop's body in `preprocess_data`.
use emulator_networkaccess.Prelude.{
  ℕ, ◌+◌, min, Bool, true, false, not, ◌&&◌, ◌||◌, none, some, [], ◌∷◌, ◌++◌, Bytes, codes, ◌==◌,
  leb, ltb, if◌then◌else◌, length, take, drop,
}
use emulator_networkaccess.Protocol.{protocol_error}
use emulator_networkaccess.World.{
  Outcome, done, fault, heap_overflow, static_overflow, null_pointer, out_of_bounds_read, World,
  ◌>>=◌,
}
use emulator_networkaccess.Client.{
  ClientState, waiting_for_command, getting_command, expecting_binary_data, getting_binary_data,
  Client, buffer_size, header_size,
}
use emulator_networkaccess.Dispatch.{Emulator}
use emulator_networkaccess.Reply.{send_error}
use emulator_networkaccess.Process.{is_alnum, starts_command, block_length, end_block, end_command}

-- What `preprocess_data` returns, with the client that it leaves: `true`, or `false`.
pub data Verdict (E : Type 0) : Type 0 where
  kept : Client → World E → Verdict E
  dropped : Client → World E → Verdict E

-- The variables of the loop; `unread` is `readed_data[read_pos .. readed_size)`.
pub record Cursor (E : Type 0) : Type 0 where
  pub client : Client
  pub world : World E
  pub read_pos : ℕ
  pub unread : Bytes

-- How a part of the loop's body ends: the next part runs, or `continue`, or `return false`.
pub data Flow (E : Type 0) : Type 0 where
  next : Cursor E → Flow E
  continue_at : Cursor E → Flow E
  return_false : Client → World E → Flow E

infixl 5 ◌then_part◌
abbrev pub ◌then_part◌ :
    {E : Type 0} → Outcome (Flow E) → (Cursor E → Outcome (Flow E)) → Outcome (Flow E)
m then_part f = m >>= λ flow. elim flow [
  | next s ↦ f s
  | continue_at s ↦ done (continue_at s)
  | return_false c w ↦ done (return_false c w)
]

abbrev pub refuse : {E : Type 0} → Bytes → Client → World E → Outcome (Flow E)
refuse reason c w = done (return_false c (send_error c.socket_fd protocol_error reason w))

abbrev pub bad_block : Bytes
bad_block = codes "Sending invalid binary data block"

abbrev pub bad_size : Bytes
bad_size = codes "Binary block size does not match expected size"

abbrev pub bad_start : Bytes
bad_start = codes "Expecting a command or a signal registration"

-- The first `if`: a block is announced, and its first byte is 0.
unfoldable pub expect_block : {E : Type 0} → ClientState → Cursor E → Outcome (Flow E)
unfolding send_error
expect_block expecting_binary_data s =
    let c = record s.client { state = getting_binary_data; binary_header = [] } in
    elim s.unread [
      | [] ↦ fault out_of_bounds_read
      | b ∷ _ ↦ if b == 0 then done (next (record s { client = c })) else refuse bad_block c s.world
    ]
expect_block _ s = done (next s)

-- `while (read_pos < readed_size && binary_header_size < 5)`
unfoldable pub fill_header : Bytes → ℕ → Bytes → Bytes × ℕ × Bytes
fill_header header i [] = (header, i, [])
fill_header header i (b ∷ bs) =
    let rest = fill_header (header ++ (b ∷ [])) (i + 1) bs in
    if ltb (length header) header_size then rest else (header, i, b ∷ bs)

-- A full header: the block gets its size and its memory, and the size must be the expected one.
unfoldable pub define_block : {E : Type 0} → Cursor E → Outcome (Flow E)
unfolding block_length send_error
define_block s =
    let size = block_length s.client.binary_header in
    let c = record s.client { binary_block_defined_size = size; binary_block = some [] } in
    if not (size == c.expected_block_size || c.expected_block_size == 0)
    then refuse bad_size c s.world
    else done (next (record s { client = c }))

-- The header of a block.
unfoldable pub get_header : {E : Type 0} → ClientState → Cursor E → Outcome (Flow E)
unfolding fill_header define_block
get_header getting_binary_data s =
    if ltb (length s.client.binary_header) header_size
    then (let (header, i, rest) = fill_header s.client.binary_header s.read_pos s.unread in
        let s' = record s {
          client = record s.client { binary_header = header };
          read_pos = i;
          unread = rest;
        } in
        if length header == header_size then define_block s' else done (next s'))
    else done (next s)
get_header _ s = done (next s)

abbrev pub is_nil : Bytes → Bool
is_nil [] = true
is_nil (_ ∷ _) = false

module _ {E : Type 0} (emu : Emulator E) where
  -- The data of a block. The copy is as long as what is left of the read, or as the whole block.
  unfoldable pub copy_block : Cursor E → Bytes → Outcome (Flow E)
  unfolding end_block
  copy_block s block =
      let size = s.client.binary_block_defined_size in
      let copy_size = min (length s.unread) size in
      let block' = block ++ take copy_size s.unread in
      let c = record s.client { binary_block = some block' } in
      let i = s.read_pos + copy_size in
      let rest = drop copy_size s.unread in
      if ltb size (length block + copy_size)
      then fault heap_overflow
      else if length block' == size
      then (end_block emu c s.world >>= λ r.
          done (continue_at (record { client = r.0; world = r.1; read_pos = i; unread = rest })))
      else done (next (record s { client = c; read_pos = i; unread = rest }))

  unfoldable pub get_block : ClientState → Cursor E → Outcome (Flow E)
  unfolding copy_block
  get_block getting_binary_data s =
      if length s.client.binary_header == header_size && not (is_nil s.unread)
      then elim s.client.binary_block [
        | none ↦ fault null_pointer
        | some block ↦ copy_block s block
      ]
      else done (next s)
  get_block _ s = done (next s)

-- The first byte of a command.
unfoldable pub start_command : {E : Type 0} → ClientState → Cursor E → Outcome (Flow E)
unfolding is_alnum send_error
start_command waiting_for_command s = elim s.unread [
  | [] ↦ fault out_of_bounds_read
  | b ∷ _ ↦
      if starts_command b
      then done (next (record s { client = record s.client { state = getting_command } }))
      else refuse bad_start s.client s.world
]
start_command _ s = done (next s)

module _ {E : Type 0} (emu : Emulator E) where
  -- The `for` loop that collects a command; the array has room for 2048 bytes.
  unfoldable pub collect_command : Client → World E → ℕ → Bytes → Outcome (Cursor E)
  unfolding end_command
  collect_command c w i [] = done (record { client = c; world = w; read_pos = i; unread = [] })
  collect_command c w i (b ∷ bs) =
      let c' = record c { command_data = c.command_data ++ (b ∷ []) } in
      let rest = collect_command c' w (i + 1) bs in
      if leb buffer_size (length c.command_data)
      then fault static_overflow
      else if b == b'\n'
      then (end_command emu c' w >>= λ r.
          done (record { client = r.0; world = r.1; read_pos = i + 1; unread = bs }))
      else rest

  unfoldable pub get_command : ClientState → Cursor E → Outcome (Flow E)
  unfolding collect_command
  get_command getting_command s =
      collect_command s.client s.world s.read_pos s.unread >>= λ s'. done (next s')
  get_command _ s = done (next s)
