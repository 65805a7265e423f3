-- ===== src/Framing/BlockFeed.antt =====
-- The parts for a block against the byte-wise description, whatever the block's size.
use emulator_networkaccess.Prelude.{
  ℕ, ◌+◌, ◌<◌, ◌≤◌, some, [], ◌∷◌, Bytes, length, ◌≡◌, inl, inr, refl, sym, List-cases,
  Option-cases, ◌∙◌, arith, min,
}
use native.Mathlib.Decide.{ℕ_discrete, dec_lt}
use emulator_networkaccess.World.{Outcome, done, fault, out_of_fuel, World, ◌>>=◌, Holds}
use emulator_networkaccess.Client.{getting_binary_data, Client}
use emulator_networkaccess.Dispatch.{Emulator}
use emulator_networkaccess.Process.{end_block}
use emulator_networkaccess.Framing.Parts.{
  Verdict, Cursor, Flow, next, continue_at, return_false, get_block, copy_block, ◌then_part◌,
}
use emulator_networkaccess.Framing.Feed.{feed, feed_in, data_byte, behind_empty, feed_on}
use emulator_networkaccess.Framing.Phases.{feed_cursor, resume, copy_block-feed}
use emulator_networkaccess.Framing.Stuck.{Ended, end_block-Ended, feed_stuck}
use emulator_networkaccess.Framing.Progress.{Fits, Hands}

module _ {E : Type 0} (emu : Emulator E) where
  pub then_part-resume :
      (P : Cursor E → Type 0) (m : Outcome (Flow E)) (f : Cursor E → Outcome (Flow E))
      → Hands P m
      → ((s : Cursor E) → P s → (f s >>= resume emu) ≡ feed_cursor emu s)
      → ((m then_part f) >>= resume emu) ≡ (m >>= resume emu)
  then_part-resume P (done (next s)) f p h = h s p
  then_part-resume P (done (continue_at s)) f p h = absurd p
  then_part-resume P (done (return_false c w)) f p h = refl
  then_part-resume P (fault x) f p h = refl
  then_part-resume P out_of_fuel f p h = refl

  -- Behind a block of size 0 the stream goes on, unless the block stays open.
  behind_empty-feed :
      (c : Client) (w : World E) (u : ℕ) (us : Bytes) (r : Client × World E)
      → c.state ≡ getting_binary_data
      → length c.binary_header ≡ 5
      → c.binary_block_defined_size ≡ 0
      → c.binary_block ≡ some []
      → Ended c w r
      → feed emu r.0 r.1 (u ∷ us) ≡ (behind_empty emu r.0.state r.0 r.1 u >>= feed_on emu us)
  unfolding behind_empty feed feed_in
  behind_empty-feed c w u us r e h z b (inl ended) = rw ended.0
  behind_empty-feed c w u us r e h z b (inr same) = ground (
    arith,
    feed_stuck emu c w u us (record {
      state_is = e;
      header_full = h;
      block_is = b;
      size_is = z;
      not_shallow = same.2;
      not_write = same.3;
    }),
  )

  -- An outcome with a continuation that agrees on what the outcome can be.
  bind_agree {ℓ} :
      {A : Type ℓ} (P : A → Type 0) (m : Outcome A) (f g : A → Outcome (Verdict E))
      → Holds P m
      → ((a : A) → P a → f a ≡ g a)
      → (m >>= f) ≡ (m >>= g)
  bind_agree P (done a) f g p h = h a p
  bind_agree P (fault x) f g p h = refl
  bind_agree P out_of_fuel f g p h = refl

  copy_empty :
      (c : Client) (w : World E) (i u : ℕ) (us : Bytes)
      → c.binary_block_defined_size ≡ 0
      → c.binary_block ≡ some []
      → (copy_block emu (record { client = c; world = w; read_pos = i; unread = u ∷ us }) []
          >>= resume emu)
        ≡ (end_block emu c w >>= λ r. feed emu r.0 r.1 (u ∷ us))
  unfolding copy_block
  copy_empty c w i u us z b = ground arith

  feed_empty :
      (c : Client) (w : World E) (u : ℕ) (us : Bytes)
      → c.state ≡ getting_binary_data
      → length c.binary_header ≡ 5
      → c.binary_block_defined_size ≡ 0
      → c.binary_block ≡ some []
      → feed emu c w (u ∷ us)
        ≡ (end_block emu c w >>= λ r. behind_empty emu r.0.state r.0 r.1 u >>= feed_on emu us)
  unfolding feed feed_in data_byte
  feed_empty c w u us e h z b = ground arith

  empty_block-feed :
      (c : Client) (w : World E) (i u : ℕ) (us : Bytes)
      → c.state ≡ getting_binary_data
      → length c.binary_header ≡ 5
      → c.binary_block_defined_size ≡ 0
      → c.binary_block ≡ some []
      → let s : Cursor E = record { client = c; world = w; read_pos = i; unread = u ∷ us } in
        (copy_block emu s [] >>= resume emu) ≡ feed_cursor emu s
  empty_block-feed c w i u us e h z b =
      copy_empty c w i u us z b
      ∙ bind_agree (Ended c w) (end_block emu c w) _ _ (end_block-Ended emu c w)
          (λ r p. behind_empty-feed c w u us r e h z b p)
      ∙ sym (feed_empty c w u us e h z b)

  -- A block that is full and still open: both run out of its memory.
  full_block-feed :
      (s : Cursor E) (block : Bytes) (u : ℕ) (us : Bytes)
      → s.client.state ≡ getting_binary_data
      → length s.client.binary_header ≡ 5
      → s.client.binary_block ≡ some block
      → s.unread ≡ u ∷ us
      → 0 < length block
      → s.client.binary_block_defined_size ≤ length block
      → (copy_block emu s block >>= resume emu) ≡ feed_cursor emu s
  unfolding copy_block feed feed_in data_byte
  full_block-feed s block u us e h b n some_data full = ground arith

  open_block-feed :
      (s : Cursor E) (block : Bytes) (u : ℕ) (us : Bytes)
      → s.client.state ≡ getting_binary_data
      → length s.client.binary_header ≡ 5
      → s.client.binary_block ≡ some block
      → s.unread ≡ u ∷ us
      → Fits s.client (length s.unread)
      → length block < s.client.binary_block_defined_size
      → (copy_block emu s block >>= resume emu) ≡ feed_cursor emu s
  open_block-feed s block u us e h b n f room =
      let fits : length block + min (length (u ∷ us)) s.client.binary_block_defined_size
          ≤ s.client.binary_block_defined_size =
        ground (arith, f e h) in
      ground
        (arith, copy_block-feed emu s.client s.world s.read_pos block u us e h (omega arith) fits)

  block-feed :
      (s : Cursor E) (block : Bytes) (u : ℕ) (us : Bytes)
      → s.client.state ≡ getting_binary_data
      → length s.client.binary_header ≡ 5
      → s.client.binary_block ≡ some block
      → s.unread ≡ u ∷ us
      → Fits s.client (length s.unread)
      → (copy_block emu s block >>= resume emu) ≡ feed_cursor emu s
  block-feed s [] u us e h b n f = elim (ℕ_discrete s.client.binary_block_defined_size 0) [
    | yes zero_size ↦
        ground (arith, empty_block-feed s.client s.world s.read_pos u us e h zero_size b)
    | no sized ↦ open_block-feed s [] u us e h b n f (omega arith)
  ]
  block-feed s (d ∷ ds) u us e h b n f =
      elim (dec_lt (length (d ∷ ds)) s.client.binary_block_defined_size) [
        | yes room ↦ open_block-feed s (d ∷ ds) u us e h b n f room
        | no full ↦ full_block-feed s (d ∷ ds) u us e h b n (omega arith) (omega arith)
      ]

  pub get_block-feed :
      (s : Cursor E)
      → s.client.state ≡ getting_binary_data
      → length s.client.binary_header ≤ 5
      → Fits s.client (length s.unread)
      → (get_block emu getting_binary_data s >>= resume emu) ≡ feed_cursor emu s
  unfolding get_block
  get_block-feed s e l f = elim (ℕ_discrete (length s.client.binary_header) 5) [
    | no short ↦ ground arith
    | yes full ↦ elim (List-cases s.unread) [
      | inl empty ↦ ground arith
      | inr (u, us, more) ↦ elim (Option-cases s.client.binary_block) [
        | inl null ↦ rw (full, more, null) (unfold feed feed_in in ground arith)
        | inr (block, there) ↦ ground (arith, block-feed s block u us e full there more f)
      ]
    ]
  ]
