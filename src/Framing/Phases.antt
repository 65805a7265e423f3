-- ===== src/Framing/Phases.antt =====
-- The parts of the loop's body, one by one, against the byte-wise description.
use emulator_networkaccess.Prelude.{
  ℕ, ◌+◌, ◌≤◌, some, [], ◌∷◌, ◌++◌, Bytes, ◌==◌, if◌then◌else◌, length, length-take,
  take-append-drop, suc, ◌-◌, ◌≤◌, length-append, ◌<◌, ◌≡◌, refl, arith, min, take, drop, ap,
  append_assoc, append-nil,
}
use emulator_networkaccess.World.{Outcome, done, World, ◌>>=◌}
use emulator_networkaccess.Client.{getting_command, getting_binary_data, Client, header_size}
use emulator_networkaccess.Dispatch.{Emulator}
use emulator_networkaccess.Process.{end_block}
use emulator_networkaccess.Framing.Parts.{
  Verdict, kept, dropped, Cursor, Flow, next, continue_at, return_false, collect_command,
  fill_header, get_header, copy_block, define_block,
}
use emulator_networkaccess.Framing.Feed.{
  feed, feed_in, command_byte, header_byte, data_byte, feed-append,
}

module _ {E : Type 0} (emu : Emulator E) where
  abbrev pub feed_cursor : Cursor E → Outcome (Verdict E)
  feed_cursor s = feed emu s.client s.world s.unread

  pub collect_command-feed :
      (c : Client) (w : World E) (i : ℕ) (bs : Bytes)
      → c.state ≡ getting_command
      → (collect_command emu c w i bs >>= feed_cursor) ≡ feed emu c w bs
  unfolding collect_command feed command_byte feed_in
  collect_command-feed c w i [] e = refl
  collect_command-feed c w i (b ∷ bs) e = ground (
    arith,
    collect_command-feed (record c { command_data = c.command_data ++ (b ∷ []) }) w (i + 1) bs e,
  )

  abbrev pub resume : Flow E → Outcome (Verdict E)
  resume (next s) = feed_cursor s
  resume (continue_at s) = feed_cursor s
  resume (return_false c w) = done (dropped c w)

  fill_header_full :
      (header : Bytes) (i : ℕ) (bs : Bytes)
      → length header ≡ 5
      → fill_header header i bs ≡ (header, i, bs)
  unfolding fill_header
  fill_header_full header i [] e = refl
  fill_header_full header i (b ∷ bs) e = ground arith

  abbrev filled : Client → World E → Bytes × ℕ × Bytes → Cursor E
  filled c w r = record {
    client = record c { binary_header = r.0 };
    world = w;
    read_pos = r.1;
    unread = r.2;
  }

  abbrev checked : Cursor E → Outcome (Flow E)
  checked s = if length s.client.binary_header == header_size then define_block s else done (next s)

  fill_header-feed :
      (c : Client) (w : World E) (header : Bytes) (i : ℕ) (bs : Bytes)
      → c.state ≡ getting_binary_data
      → length header < 5
      → (checked (filled c w (fill_header header i bs)) >>= resume)
        ≡ feed emu (record c { binary_header = header }) w bs
  unfolding fill_header define_block feed feed_in header_byte
  fill_header-feed c w header i [] e h = ground arith
  fill_header-feed c w header i (b ∷ bs) e h = ground (
    arith,
    length-append header (b ∷ []),
    fill_header_full (header ++ (b ∷ [])) (i + 1) bs,
    fill_header-feed c w (header ++ (b ∷ [])) (i + 1) bs e,
  )

  -- The data of a block, as long as the block is not full.
  feed-part_of_block :
      (c : Client) (w : World E) (block bs : Bytes)
      → c.state ≡ getting_binary_data
      → length c.binary_header ≡ 5
      → length block + length bs < c.binary_block_defined_size
      → feed emu (record c { binary_block = some block }) w bs
        ≡ done (kept (record c { binary_block = some (block ++ bs) }) w)
  unfolding feed feed_in data_byte
  feed-part_of_block c w block [] e h lt = rw append-nil
  feed-part_of_block c w block (b ∷ bs) e h lt = ground (
    arith,
    feed-part_of_block c w (block ++ (b ∷ [])) bs e h,
    length-append block (b ∷ []),
    append_assoc block (b ∷ []) bs,
  )

  pub feed-rest_of_block :
      (c : Client) (w : World E) (block : Bytes) (b : ℕ) (bs : Bytes)
      → c.state ≡ getting_binary_data
      → length c.binary_header ≡ 5
      → length block + length (b ∷ bs) ≡ c.binary_block_defined_size
      → feed emu (record c { binary_block = some block }) w (b ∷ bs) ≡ (
          end_block emu (record c { binary_block = some (block ++ (b ∷ bs)) }) w >>= λ r.
          done (kept r.0 r.1))
  unfolding feed feed_in data_byte
  feed-rest_of_block c w block b [] e h lt = ground arith
  feed-rest_of_block c w block b (d ∷ bs) e h lt = ground (
    arith,
    feed-rest_of_block c w (block ++ (b ∷ [])) d bs e h,
    length-append block (b ∷ []),
    append_assoc block (b ∷ []) (d ∷ bs),
  )

  pub get_header-feed :
      (s : Cursor E)
      → s.client.state ≡ getting_binary_data
      → (get_header getting_binary_data s >>= resume) ≡ feed_cursor s
  unfolding get_header
  get_header-feed s e =
      ground (arith, fill_header-feed s.client s.world s.client.binary_header s.read_pos s.unread e)

  copy_block-parts :
      (c : Client) (w : World E) (i : ℕ) (block : Bytes) (b : ℕ) (bs ys unread : Bytes)
      → c.state ≡ getting_binary_data
      → length c.binary_header ≡ 5
      → length block + length (b ∷ bs) ≤ c.binary_block_defined_size
      → (b ∷ bs) ++ ys ≡ unread
      → take (min (length unread) c.binary_block_defined_size) unread ≡ b ∷ bs
      → drop (min (length unread) c.binary_block_defined_size) unread ≡ ys
      → min (length unread) c.binary_block_defined_size ≡ length (b ∷ bs)
      → let s : Cursor E = record {
        client = record c { binary_block = some block };
        world = w;
        read_pos = i;
        unread = unread;
      } in
        (copy_block emu s block >>= resume) ≡ feed_cursor s
  unfolding copy_block
  copy_block-parts c w i block b bs ys unread e h le split t d n =
      rw (t, d, n, ← split, feed-append emu (b ∷ bs) ys)
        (ground (
          arith,
          feed-rest_of_block c w block b bs e h,
          feed-part_of_block c w block (b ∷ bs) e h,
          length-append block (b ∷ bs),
        ))

  pub copy_block-feed :
      (c : Client) (w : World E) (i : ℕ) (block : Bytes) (u : ℕ) (us : Bytes)
      → c.state ≡ getting_binary_data
      → length c.binary_header ≡ 5
      → 0 < c.binary_block_defined_size
      → length block + min (length (u ∷ us)) c.binary_block_defined_size
        ≤ c.binary_block_defined_size
      → let s : Cursor E = record {
        client = record c { binary_block = some block };
        world = w;
        read_pos = i;
        unread = u ∷ us;
      } in
        (copy_block emu s block >>= resume) ≡ feed_cursor s
  copy_block-feed c w i block u us e h size fits =
      let rest = min (length us) (c.binary_block_defined_size - 1) in
      let n : min (length (u ∷ us)) c.binary_block_defined_size ≡ suc rest = omega arith in
      let len = length-take rest us (omega arith) in
      copy_block-parts c w i block u (take rest us) (drop rest us) (u ∷ us) e h (omega arith)
        (ap (◌∷◌ u) (take-append-drop rest us)) (rw n) (rw n) (omega arith)
