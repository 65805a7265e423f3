-- ===== src/Framing/Bytewise.antt =====
-- The loop of `preprocess_data` against the byte-wise description.
use emulator_networkaccess.Prelude.{
  ℕ, zero, suc, ◌+◌, ◌*◌, ◌<◌, ◌≤◌, [], ◌∷◌, Bytes, length, ◌≡◌, ◌≢◌, inl, inr, refl, sym, ap,
  List-cases, ◌∙◌, arith,
}
use emulator_networkaccess.World.{Outcome, done, fault, out_of_fuel, World, ◌>>=◌}
use emulator_networkaccess.Client.{ClientState, waiting_for_command, Client}
use emulator_networkaccess.Dispatch.{Emulator}
use emulator_networkaccess.Framing.Parts.{
  Verdict, dropped, Cursor, Flow, next, continue_at, return_false,
}
use emulator_networkaccess.Framing.Loop.{iteration, preprocess_loop, preprocess_data}
use emulator_networkaccess.Framing.Feed.{feed}
use emulator_networkaccess.Framing.Phases.{feed_cursor, resume}
use emulator_networkaccess.Framing.Stuck.{feed_stuck, preprocess_loop_stuck}
use emulator_networkaccess.Framing.Advance.{iteration-Advanced}
use emulator_networkaccess.Framing.Progress.{Fits, Advanced, Leaves}
use emulator_networkaccess.Framing.Rounds.{iteration-feed}

weight : ClientState → ℕ
weight waiting_for_command = 0
weight _ = 1

weight_waiting : weight waiting_for_command ≡ 0
unfolding weight
weight_waiting = refl

weight-le : (state : ClientState) → weight state ≤ 1
unfolding weight
weight-le waiting_for_command = omega arith
weight-le _ = omega arith

weight_pos : (state : ClientState) → state ≢ waiting_for_command → weight state ≡ 1
unfolding weight
weight_pos waiting_for_command ne = absurd (ne refl)
weight_pos _ ne = refl

module _ {E : Type 0} (emu : Emulator E) where
  abbrev loop_on : ℕ → Flow E → Outcome (Verdict E)
  loop_on fuel (next s) = preprocess_loop emu fuel s
  loop_on fuel (continue_at s) = preprocess_loop emu fuel s
  loop_on fuel (return_false c w) = done (dropped c w)

  loop_on-resume :
      (fuel : ℕ) (P : Cursor E → Type 0) (m : Outcome (Flow E))
      → Leaves P m
      → ((t : Cursor E) → P t → preprocess_loop emu fuel t ≡ feed_cursor emu t)
      → (m >>= loop_on fuel) ≡ (m >>= resume emu)
  loop_on-resume fuel P (done (next t)) p h = h t p
  loop_on-resume fuel P (done (continue_at t)) p h = h t p
  loop_on-resume fuel P (done (return_false c w)) p h = refl
  loop_on-resume fuel P (fault x) p h = refl
  loop_on-resume fuel P out_of_fuel p h = refl

  loop_step :
      (fuel : ℕ) (s : Cursor E) (u : ℕ) (us : Bytes)
      → s.unread ≡ u ∷ us
      → preprocess_loop emu (suc fuel) s ≡ (iteration emu s >>= loop_on fuel)
  unfolding preprocess_loop
  loop_step fuel s u us n = ground arith

  loop_end :
      (fuel : ℕ) (s : Cursor E)
      → s.unread ≡ []
      → 0 < s.read_pos
      → preprocess_loop emu (suc fuel) s ≡ feed_cursor emu s
  unfolding preprocess_loop feed
  loop_end fuel s n p = ground arith

  abbrev Agrees : ℕ → Type 0
  Agrees fuel =
      (s : Cursor E)
      → 2 * length s.unread + weight s.client.state < fuel
      → 0 < s.read_pos + length s.unread
      → length s.client.binary_header ≤ 5
      → Fits s.client (length s.unread)
      → preprocess_loop emu fuel s ≡ feed_cursor emu s

  loop_again :
      (fuel : ℕ) (s : Cursor E)
      → 0 < length s.unread
      → 2 * length s.unread + weight s.client.state < suc fuel
      → 0 < s.read_pos + length s.unread
      → Agrees fuel
      → (r : Cursor E) → Advanced s r
      → preprocess_loop emu fuel r ≡ feed_cursor emu r
  loop_again fuel s n m t ih r a = elim a.progress [
    | inl fewer ↦ ih r (omega (arith, weight-le r.client.state)) (omega arith) a.short a.fits
    | inr (inl (same, wait, busy)) ↦
        ih r (omega (arith, ap weight wait, weight_waiting, weight_pos s.client.state busy))
          (omega arith) a.short a.fits
    | inr (inr stuck) ↦ elim (List-cases r.unread) [
      | inl empty ↦
          ih r (omega (arith, ap length empty, weight-le r.client.state)) (omega arith) a.short
            a.fits
      | inr (u, us, more) ↦
          preprocess_loop_stuck emu fuel r u us more stuck
          ∙ sym (ap (feed emu r.client r.world) more ∙ feed_stuck emu r.client r.world u us stuck)
    ]
  ]

  -- The loop, from any place in a read, with enough fuel.
  preprocess_loop-feed : (fuel : ℕ) → Agrees fuel
  preprocess_loop-feed zero s m t l f = absurd (omega arith)
  preprocess_loop-feed (suc fuel) s m t l f = elim (List-cases s.unread) [
    | inl empty ↦ loop_end fuel s empty (omega (arith, ap length empty))
    | inr (u, us, n) ↦
        loop_step fuel s u us n
        ∙ loop_on-resume fuel (Advanced s) (iteration emu s)
            (iteration-Advanced emu s u us n l f s.client.state refl)
            (loop_again fuel s (omega (arith, ap length n)) m t (preprocess_loop-feed fuel))
        ∙ iteration-feed emu s u us n l f s.client.state refl
  ]

  -- One call of `preprocess_data` does what its bytes do one by one, if they do not run past the end
  -- of a block that an earlier read began. Its fuel is enough.
  pub preprocess_data-feed :
      (c : Client) (w : World E) (b : ℕ) (bs : Bytes)
      → length c.binary_header ≤ 5
      → Fits c (length (b ∷ bs))
      → preprocess_data emu c w (b ∷ bs) ≡ feed emu c w (b ∷ bs)
  unfolding preprocess_data
  preprocess_data-feed c w b bs l f =
      preprocess_loop-feed (2 * length (b ∷ bs) + 2)
        (record { client = c; world = w; read_pos = 0; unread = b ∷ bs })
        (omega (arith, weight-le c.state)) (omega arith) l f
