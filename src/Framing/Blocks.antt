-- ===== src/Framing/Blocks.antt =====
-- A whole binary block, whatever reads it comes in.
use emulator_networkaccess.Prelude.{
  ℕ, ◌^◌, ◌<◌, some, [], ◌∷◌, ◌++◌, Bytes, length, length-append, ◌≡◌, ◌≢◌, ◌⊎◌, refl, ap,
  append_assoc, ◌/◌, ◌%◌, subst, sym, ◌∙◌, arith,
}
use emulator_networkaccess.Protocol.{protocol_error}
use emulator_networkaccess.World.{done, World, ◌>>=◌, >>=_assoc}
use emulator_networkaccess.Client.{expecting_binary_data, getting_binary_data, Client}
use emulator_networkaccess.Dispatch.{Emulator}
use emulator_networkaccess.Reply.{network_order, send_error}
use emulator_networkaccess.Process.{end_block, block_length}
use emulator_networkaccess.Framing.Parts.{kept, dropped, bad_size, bad_block}
use emulator_networkaccess.Framing.Feed.{feed, feed_in, header_byte, feed_on, feed-append}
use emulator_networkaccess.Framing.Phases.{feed-rest_of_block}

-- `ntohl` of the header undoes the `htonl` of the sender.
pub block_length-network_order : (n : ℕ) → n < 2 ^ 32 → block_length (0 ∷ network_order n) ≡ n
unfolding block_length network_order
block_length-network_order n h = omega arith

length_header : (n : ℕ) → length (0 ∷ network_order n) ≡ 5
unfolding network_order
length_header n = refl

-- The block as the protocol lays it out: `<0><4 bytes size><data bytes>`.
abbrev pub block_message : Bytes → Bytes
block_message block = (0 ∷ network_order (length block)) ++ block

-- The client in the middle of a block's header.
abbrev in_header : Client → Bytes → Client
in_header c header = record c { state = getting_binary_data; binary_header = header }

-- The client behind the header.
abbrev pub opened : Client → Bytes → Bytes → Client
opened c header block = record c {
  state = getting_binary_data;
  binary_header = header;
  binary_block_defined_size = block_length header;
  binary_block = some block;
}

module _ {E : Type 0} (emu : Emulator E) where
  feed_zero :
      (rest : Bytes) (c : Client) (w : World E)
      → c.state ≡ expecting_binary_data
      → feed emu c w (0 ∷ rest) ≡ feed emu (in_header c (0 ∷ [])) w rest
  unfolding feed feed_in header_byte
  feed_zero rest c w e = ground arith

  feed_nonzero :
      (b : ℕ) (rest : Bytes) (c : Client) (w : World E)
      → c.state ≡ expecting_binary_data
      → b ≢ 0
      → feed emu c w (b ∷ rest)
        ≡ done (dropped (in_header c []) (send_error c.socket_fd protocol_error bad_block w))
  unfolding feed feed_in
  feed_nonzero b rest c w e n = ground arith

  feed_header_byte :
      (b : ℕ) (rest header : Bytes) (c : Client) (w : World E)
      → length header < 4
      → feed emu (in_header c header) w (b ∷ rest)
        ≡ feed emu (in_header c (header ++ (b ∷ []))) w rest
  unfolding feed feed_in header_byte
  feed_header_byte b rest header c w l = ground (arith, length-append header (b ∷ []))

  feed_last_byte :
      (b : ℕ) (rest header : Bytes) (c : Client) (w : World E)
      → length header ≡ 4
      → let size = block_length (header ++ (b ∷ [])) in
        (size ≡ c.expected_block_size) ⊎ (c.expected_block_size ≡ 0)
        → feed emu (in_header c header) w (b ∷ rest)
          ≡ feed emu (opened c (header ++ (b ∷ [])) []) w rest
  unfolding feed feed_in header_byte
  feed_last_byte b rest header c w l m = ground (arith, length-append header (b ∷ []))

  feed-wrong_last_byte :
      (b : ℕ) (rest header : Bytes) (c : Client) (w : World E)
      → length header ≡ 4
      → let size = block_length (header ++ (b ∷ [])) in
        size ≢ c.expected_block_size
        → c.expected_block_size ≢ 0
        → feed emu (in_header c header) w (b ∷ rest)
          ≡ done (
              dropped
                (opened c (header ++ (b ∷ [])) [])
                (send_error c.socket_fd protocol_error bad_size w))
  unfolding feed feed_in header_byte
  feed-wrong_last_byte b rest header c w l m z = ground (arith, length-append header (b ∷ []))

  feed_four :
      (i j k : ℕ) (rest : Bytes) (c : Client) (w : World E)
      → c.state ≡ expecting_binary_data
      → feed emu c w (0 ∷ i ∷ j ∷ k ∷ rest) ≡ feed emu (in_header c (0 ∷ i ∷ j ∷ k ∷ [])) w rest
  feed_four i j k rest c w e =
      feed_zero (i ∷ j ∷ k ∷ rest) c w e
      ∙ feed_header_byte i (j ∷ k ∷ rest) (0 ∷ []) c w (omega arith)
      ∙ feed_header_byte j (k ∷ rest) (0 ∷ i ∷ []) c w (omega arith)
      ∙ feed_header_byte k rest (0 ∷ i ∷ j ∷ []) c w (omega arith)

  -- A header of the expected size, or of any size if none was given, opens the block.
  pub feed_header :
      (n : ℕ) (rest : Bytes) (c : Client) (w : World E)
      → c.state ≡ expecting_binary_data
      → n < 2 ^ 32
      → (n ≡ c.expected_block_size) ⊎ (c.expected_block_size ≡ 0)
      → feed emu c w ((0 ∷ network_order n) ++ rest)
        ≡ feed emu (opened c (0 ∷ network_order n) []) w rest
  unfolding network_order
  feed_header n rest c w e h m =
      let i = n / 2 ^ 24 % 256 in
      let j = n / 2 ^ 16 % 256 in
      let k = n / 2 ^ 8 % 256 in
      feed_four i j k (n % 256 ∷ rest) c w e
      ∙ feed_last_byte (n % 256) rest (0 ∷ i ∷ j ∷ k ∷ []) c w refl (
          subst (λ size. (size ≡ c.expected_block_size) ⊎ (c.expected_block_size ≡ 0))
            (sym (block_length-network_order n h)) m)

  -- A header of another size than the expected one is a protocol error.
  feed_wrong_header :
      (n : ℕ) (rest : Bytes) (c : Client) (w : World E)
      → c.state ≡ expecting_binary_data
      → n < 2 ^ 32
      → n ≢ c.expected_block_size
      → c.expected_block_size ≢ 0
      → feed emu c w ((0 ∷ network_order n) ++ rest)
        ≡ done (
            dropped
              (opened c (0 ∷ network_order n) [])
              (send_error c.socket_fd protocol_error bad_size w))
  unfolding network_order
  feed_wrong_header n rest c w e h m z =
      let i = n / 2 ^ 24 % 256 in
      let j = n / 2 ^ 16 % 256 in
      let k = n / 2 ^ 8 % 256 in
      feed_four i j k (n % 256 ∷ rest) c w e
      ∙ feed-wrong_last_byte (n % 256) rest (0 ∷ i ∷ j ∷ k ∷ []) c w refl
          (subst (λ size. size ≢ c.expected_block_size) (sym (block_length-network_order n h)) m) z

  -- A block of the expected size is collected byte for byte, and ended once.
  pub feed_block :
      (d : ℕ) (ds rest : Bytes) (c : Client) (w : World E)
      → c.state ≡ expecting_binary_data
      → length (d ∷ ds) < 2 ^ 32
      → (length (d ∷ ds) ≡ c.expected_block_size) ⊎ (c.expected_block_size ≡ 0)
      → feed emu c w (block_message (d ∷ ds) ++ rest) ≡ (
          end_block emu (opened c (0 ∷ network_order (length (d ∷ ds))) (d ∷ ds)) w >>= λ r.
          feed emu r.0 r.1 rest)
  feed_block d ds rest c w e h m =
      let n = length (d ∷ ds) in
      let c1 = opened c (0 ∷ network_order n) [] in
      ap (feed emu c w) (append_assoc (0 ∷ network_order n) (d ∷ ds) rest)
      ∙ feed_header n ((d ∷ ds) ++ rest) c w e h m
      ∙ feed-append emu (d ∷ ds) rest c1 w
      ∙ ap (λ v. v >>= feed_on emu rest)
          (feed-rest_of_block emu c1 w [] d ds refl (length_header n)
            (omega (arith, block_length-network_order n h)))
      ∙ >>=_assoc (end_block emu (opened c (0 ∷ network_order n) (d ∷ ds)) w)
          (λ r. done (kept r.0 r.1)) (feed_on emu rest)
