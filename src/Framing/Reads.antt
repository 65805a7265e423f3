-- ===== src/Framing/Reads.antt =====
-- The stream of a client in several reads, as `read_client_data` hands them to `preprocess_data`.
use emulator_networkaccess.Prelude.{
  ℕ, List, [], ◌∷◌, ◌++◌, Bytes, length, ◌≡◌, ◌≢◌, refl, sym, ap, ◌∙◌, arith, some, none, Option,
}
use emulator_networkaccess.World.{Outcome, done, fault, out_of_fuel, World, ◌>>=◌, Holds}
use emulator_networkaccess.Client.{Client}
use emulator_networkaccess.Dispatch.{Emulator}
use emulator_networkaccess.Framing.Parts.{Verdict, kept, dropped}
use emulator_networkaccess.Framing.Loop.{preprocess_data}
use emulator_networkaccess.Framing.Feed.{feed, feed_on, feed-append}
use emulator_networkaccess.Framing.Progress.{Fits, BlockFits}
use emulator_networkaccess.Framing.Bytewise.{preprocess_data-feed}
use emulator_networkaccess.Framing.Valid.{IsValid, VerdictValid, preprocess_data-IsValid}

abbrev pub flatten : List Bytes → Bytes
flatten [] = []
flatten (r ∷ rs) = r ++ flatten rs

-- One read for each byte.
abbrev pub single_bytes : Bytes → List Bytes
single_bytes [] = []
single_bytes (b ∷ bs) = (b ∷ []) ∷ single_bytes bs

flatten-single_bytes : (bs : Bytes) → flatten (single_bytes bs) ≡ bs
flatten-single_bytes [] = refl
flatten-single_bytes (b ∷ bs) = ap (◌∷◌ b) (flatten-single_bytes bs)

BlockFits-one : (o : Option Bytes) (size : ℕ) → BlockFits o size 1
BlockFits-one none size = tt
BlockFits-one (some block) size = λ p q. omega arith

Fits-one : (c : Client) → Fits c 1
Fits-one c e h = BlockFits-one c.binary_block c.binary_block_defined_size

module _ {E : Type 0} (emu : Emulator E) where
  -- The calls of `preprocess_data`, until one returns `false`.
  unfoldable pub read_all : Client → World E → List Bytes → Outcome (Verdict E)
  read_all c w [] = done (kept c w)
  read_all c w (r ∷ rs) = preprocess_data emu c w r >>= λ v. elim v [
    | kept c' w' ↦ read_all c' w' rs
    | dropped c' w' ↦ done (dropped c' w')
  ]

  -- No read is empty, and none runs past the end of a block that an earlier one began.
  abbrev pub AllFit : Client → World E → List Bytes → Type 0
  AllFit c w [] = Unit
  AllFit c w (r ∷ rs) =
      (r ≢ [])
      × Fits c (length r)
      × ((c' : Client) (w' : World E)
          → preprocess_data emu c w r ≡ done (kept c' w')
          → AllFit c' w' rs)

  abbrev read_on : List Bytes → Verdict E → Outcome (Verdict E)
  read_on rs (kept c w) = read_all c w rs
  read_on rs (dropped c w) = done (dropped c w)

  bind_same :
      (P : Verdict E → Type 0) (m : Outcome (Verdict E)) (f g : Verdict E → Outcome (Verdict E))
      → Holds P m
      → ((v : Verdict E) → m ≡ done v → P v → f v ≡ g v)
      → (m >>= f) ≡ (m >>= g)
  bind_same P (done v) f g p h = h v refl p
  bind_same P (fault x) f g p h = refl
  bind_same P out_of_fuel f g p h = refl

  read_on-feed :
      (rs : List Bytes)
      → ((c : Client) (w : World E)
          → IsValid c
          → AllFit c w rs
          → read_all c w rs ≡ feed emu c w (flatten rs))
      → (m : Outcome (Verdict E))
      → ((c : Client) (w : World E) → m ≡ done (kept c w) → AllFit c w rs)
      → (v : Verdict E) → m ≡ done v
      → VerdictValid v
      → read_on rs v ≡ feed_on emu (flatten rs) v
  read_on-feed rs ih m f (kept c w) e v = ih c w v (f c w e)
  read_on-feed rs ih m f (dropped c w) e v = refl

  -- The reads, one after the other, do what the bytes of the whole stream do one by one.
  read_all-feed :
      (rs : List Bytes) (c : Client) (w : World E)
      → IsValid c
      → AllFit c w rs
      → read_all c w rs ≡ feed emu c w (flatten rs)
  unfolding read_all
  read_all-feed [] c w v f = unfold feed in refl
  read_all-feed ([] ∷ rs) c w v f = absurd (f.0 refl)
  read_all-feed ((b ∷ bs) ∷ rs) c w v f =
      bind_same VerdictValid (preprocess_data emu c w (b ∷ bs)) (read_on rs)
        (feed_on emu (flatten rs)) (preprocess_data-IsValid emu c w b bs v f.1)
        (read_on-feed rs (read_all-feed rs) (preprocess_data emu c w (b ∷ bs)) f.2)
      ∙ ap (λ m. m >>= feed_on emu (flatten rs))
          (preprocess_data-feed emu c w b bs v.header_short f.1)
      ∙ sym (feed-append emu (b ∷ bs) (flatten rs) c w)

  single_bytes-AllFit : (bs : Bytes) (c : Client) (w : World E) → AllFit c w (single_bytes bs)
  single_bytes-AllFit [] c w = tt
  single_bytes-AllFit (b ∷ bs) c w = (λ e. cc, Fits-one c, λ c' w' e. single_bytes-AllFit bs c' w')

  -- However a stream is cut into reads, the result is that of reading it byte by byte: the same
  -- client, the same calls of the command functions and the same replies. No read may be empty, and
  -- none may run past the end of a block that an earlier read began.
  pub read_all-single_bytes :
      (rs : List Bytes) (c : Client) (w : World E)
      → IsValid c
      → AllFit c w rs
      → read_all c w rs ≡ read_all c w (single_bytes (flatten rs))
  read_all-single_bytes rs c w v f =
      read_all-feed rs c w v f
      ∙ sym (
          read_all-feed (single_bytes (flatten rs)) c w v (single_bytes-AllFit (flatten rs) c w)
          ∙ ap (feed emu c w) (flatten-single_bytes (flatten rs)))
