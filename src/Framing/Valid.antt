-- ===== src/Framing/Valid.antt =====
-- The invariant of a client between two reads.
use emulator_networkaccess.Prelude.{
  ℕ, ◌<◌, ◌≤◌, Option, none, some, Option-cases, inl, inr, [], ◌∷◌, ◌++◌, Bytes, length,
  length-append, ◌≡◌, ◌≢◌, refl, arith,
}
use emulator_networkaccess.World.{World, Holds, >>=-Holds}
use emulator_networkaccess.Client.{
  ClientState, waiting_for_command, getting_command, expecting_binary_data, getting_binary_data,
  Client, buffer_size,
}
use emulator_networkaccess.Dispatch.{Emulator}
use emulator_networkaccess.Process.{end_block, end_command, process_binary_block}
use emulator_networkaccess.Process.Keeps.{end_command-Commanded}
use emulator_networkaccess.Framing.Parts.{Verdict, kept, dropped}
use emulator_networkaccess.Framing.Loop.{preprocess_data}
use native.Mathlib.Decide.{ℕ_discrete, dec_lt}
use emulator_networkaccess.Framing.Progress.{Fits}
use emulator_networkaccess.Framing.Bytewise.{preprocess_data-feed}
use emulator_networkaccess.Framing.Feed.{
  feed, feed_in, first_byte, command_byte, header_byte, data_byte, behind_empty, feed_on,
}

abbrev pub Opened : Option Bytes → ℕ → Type 0
Opened none size = ⊥
Opened (some block) size = length block ≤ size

-- The memory of a block: it is there from the end of the header to the end of the block, and holds
-- what was read.
abbrev pub BlockValid : ClientState → Client → Type 0
BlockValid getting_binary_data c =
    (length c.binary_header < 5 → c.binary_block ≡ none)
    × (length c.binary_header ≡ 5 → Opened c.binary_block c.binary_block_defined_size)
BlockValid _ c = c.binary_block ≡ none

-- Counters stay within their arrays, a command is collected only in its state, and no block is lost.
pub record IsValid (c : Client) : Type 0 where
  pub header_short : length c.binary_header ≤ 5
  pub command_room : length c.command_data ≤ buffer_size
  pub command_idle : c.state ≢ getting_command → c.command_data ≡ []
  pub block_valid : BlockValid c.state c

abbrev pub VerdictValid : {E : Type 0} → Verdict E → Type 0
VerdictValid (kept c w) = IsValid c
VerdictValid (dropped c w) = IsValid c

module _ {E : Type 0} (emu : Emulator E) where
  end_command-IsValid :
      (c : Client) (w : World E)
      → c.state ≡ getting_command
      → length c.binary_header ≤ 5
      → c.binary_block ≡ none
      → Holds (λ r. IsValid r.0) (end_command emu c w)
  end_command-IsValid c w e h b = ground (arith, end_command-Commanded emu c w e)

  command_byte-IsValid :
      (c : Client) (w : World E) (b : ℕ)
      → c.state ≡ getting_command
      → IsValid c
      → Holds VerdictValid (command_byte emu c w b)
  unfolding command_byte
  command_byte-IsValid c w b e v =
      let c' = record c { command_data = c.command_data ++ (b ∷ []) } in
      ground (arith, end_command-IsValid c' w, length-append c.command_data (b ∷ []))

  first_byte-IsValid :
      (c : Client) (w : World E) (b : ℕ)
      → c.state ≡ waiting_for_command
      → IsValid c
      → Holds VerdictValid (first_byte emu c w b)
  unfolding first_byte
  first_byte-IsValid c w b e v =
      ground (arith, command_byte-IsValid (record c { state = getting_command }) w b)

  header_byte-IsValid :
      (c : Client) (w : World E) (b : ℕ)
      → c.state ≡ getting_binary_data
      → length c.binary_header < 5
      → IsValid c
      → Holds VerdictValid (header_byte c w b)
  unfolding header_byte
  header_byte-IsValid c w b e h v = ground (arith, length-append c.binary_header (b ∷ []))

  end_block-IsValid :
      (c : Client) (w : World E)
      → c.state ≡ getting_binary_data
      → length c.binary_header ≡ 5
      → Opened c.binary_block c.binary_block_defined_size
      → c.command_data ≡ []
      → Holds (λ r. IsValid r.0) (end_block emu c w)
  unfolding end_block process_binary_block
  end_block-IsValid c w e h o d = ground arith

  behind_empty-IsValid :
      (c : Client) (w : World E) (b : ℕ) (state : ClientState)
      → c.state ≡ state
      → IsValid c
      → Holds VerdictValid (behind_empty emu state c w b)
  unfolding behind_empty
  behind_empty-IsValid c w b waiting_for_command e v = first_byte-IsValid c w b e v
  behind_empty-IsValid c w b _ e v = tt

  data_byte-IsValid :
      (c : Client) (w : World E) (block : Bytes) (b : ℕ)
      → c.state ≡ getting_binary_data
      → length c.binary_header ≡ 5
      → c.binary_block ≡ some block
      → IsValid c
      → Holds VerdictValid (data_byte emu c w block b)
  unfolding data_byte
  data_byte-IsValid c w block b e h k v = elim (ℕ_discrete c.binary_block_defined_size 0) [
    | yes zero_size ↦
        let ended =
          >>=-Holds (λ (r : Client × World E). IsValid r.0) VerdictValid
            (end_block emu (record c { binary_block = some [] }) w)
            (λ r. behind_empty emu r.0.state r.0 r.1 b)
            (end_block-IsValid (record c { binary_block = some [] }) w e h (omega arith) idle)
            (λ r p. behind_empty-IsValid r.0 r.1 b r.0.state refl p) in
        ground (arith, ended)
    | no sized ↦ ground (
      arith,
      end_block-IsValid (record c { binary_block = some (block ++ (b ∷ [])) }) w e h,
      length-append block (b ∷ []),
    )
  ]
    where
      idle : c.command_data ≡ []
      idle = v.command_idle (λ p. cc)

  feed_in-IsValid :
      (c : Client) (w : World E) (b : ℕ) (state : ClientState)
      → c.state ≡ state
      → IsValid c
      → Holds VerdictValid (feed_in emu state c w b)
  unfolding feed_in
  feed_in-IsValid c w b waiting_for_command e v = first_byte-IsValid c w b e v
  feed_in-IsValid c w b getting_command e v = command_byte-IsValid c w b e v
  feed_in-IsValid c w b expecting_binary_data e v = ground (
    arith,
    header_byte-IsValid (record c { state = getting_binary_data; binary_header = [] }) w b,
  )
  feed_in-IsValid c w b getting_binary_data e v = elim (dec_lt (length c.binary_header) 5) [
    | yes short ↦ ground (arith, header_byte-IsValid c w b e short v)
    | no full ↦ elim (Option-cases c.binary_block) [
      | inl null ↦ ground arith
      | inr (block, there) ↦
          ground (arith, data_byte-IsValid c w block b e (omega (arith, v.header_short)) there v)
    ]
  ]

  feed-IsValid :
      (bs : Bytes) (c : Client) (w : World E) → IsValid c → Holds VerdictValid (feed emu c w bs)
  unfolding feed
  feed-IsValid [] c w v = v
  feed-IsValid (b ∷ bs) c w v =
      >>=-Holds VerdictValid VerdictValid (feed_in emu c.state c w b) (feed_on emu bs)
        (feed_in-IsValid c w b c.state refl v) (go (feed-IsValid bs))
    where
      go :
          ((c : Client) (w : World E) → IsValid c → Holds VerdictValid (feed emu c w bs))
          → (r : Verdict E) → VerdictValid r
          → Holds VerdictValid (feed_on emu bs r)
      go ih (kept c' w') p = ih c' w' p
      go ih (dropped c' w') p = p

  -- One call of `preprocess_data` keeps the invariant, whether the client is kept or dropped, if the
  -- bytes do not run past the end of a block that an earlier read began.
  pub preprocess_data-IsValid :
      (c : Client) (w : World E) (b : ℕ) (bs : Bytes)
      → IsValid c
      → Fits c (length (b ∷ bs))
      → Holds VerdictValid (preprocess_data emu c w (b ∷ bs))
  preprocess_data-IsValid c w b bs v f =
      rw (preprocess_data-feed emu c w b bs v.header_short f) (feed-IsValid (b ∷ bs) c w v)
