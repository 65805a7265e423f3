-- ===== src/Poll/Reading.antt =====
-- What the reading of a client's data does to the table of clients.
use emulator_networkaccess.Prelude.{
  ℕ, some, List, [], ◌∷◌, Bytes, set, All, Option-cases, ◌≡◌, ◌≢◌, sym, ◌∙◌, length, inl, inr, refl,
  arith,
}
use native.Mathlib.Decide.{ℕ_discrete}
use emulator_networkaccess.World.{Holds-both, Holds, >>=-Holds}
use emulator_networkaccess.Client.{Client}
use emulator_networkaccess.Dispatch.{Emulator}
use emulator_networkaccess.Framing.Parts.{Verdict, kept, dropped}
use emulator_networkaccess.Framing.Loop.{preprocess_data}
use emulator_networkaccess.Framing.Progress.{Fits}
use emulator_networkaccess.Framing.Valid.{IsValid, VerdictValid, preprocess_data-IsValid}
use emulator_networkaccess.Framing.Owned.{VerdictOwned, preprocess_data-Owned}
use emulator_networkaccess.Dispatch.Keeps.{Anything, Anything-Keeps}
use emulator_networkaccess.Clients.{get_client}
use emulator_networkaccess.Clients.Sockets.{open_sockets, get_client-there}
use emulator_networkaccess.Clients.Valid.{IsSlot}
use emulator_networkaccess.Poll.{Server, after_data, read_client_data}

-- The client that `get_client` points to stands in the table, and has the socket.
pub get_client_lem :
    (fd : ℕ) (cs : List Client) {r : ℕ × Client}
    → get_client fd cs ≡ some r
    → (r.1.socket_fd ≡ fd)
      × (All IsSlot cs → IsSlot r.1)
      × ((c : Client) → IsSlot c → All IsSlot cs → All IsSlot (set cs r.0 c))
      × ((c : Client) → c.socket_fd ≡ fd → open_sockets (set cs r.0 c) ≡ open_sockets cs)
unfolding get_client open_sockets
get_client_lem fd [] h = absurd cc
get_client_lem fd (c ∷ cs) {r = r} h = elim (ℕ_discrete c.socket_fd fd) [
  | yes here ↦
      let is_r : r ≡ (0, c) = ground arith in
      rw is_r (here, λ v. v.0, λ c' v vs. (v, vs.1), λ c' e. ground arith)
  | no there ↦
      let (j, found, is_r) = get_client-there fd c cs there h in
      let (of_fd, valid, keeps, same) = get_client_lem fd cs found in
      rw is_r (
        of_fd,
        λ v. valid v.1,
        λ c' v vs. (vs.0, keeps c' v vs.1),
        λ c' e. ground (arith, same c' e),
      )
]

module _ {E : Type 0} (emu : Emulator E) where
  -- The data of a client moves no socket: the sockets of the table stay, and in their order.
  pub read_client_data-open_sockets :
      (fd : ℕ) (bytes : Bytes) (s : Server E)
      → Holds
          (λ r. open_sockets r.1.clients ≡ open_sockets s.clients)
          (read_client_data emu fd bytes s)
  unfolding read_client_data after_data
  read_client_data-open_sockets fd [] s = refl
  read_client_data-open_sockets fd (b ∷ bs) s = elim (Option-cases (get_client fd s.clients)) [
    | inl missing ↦ rw (missing, Holds) tt
    | inr (client, there) ↦
        let (of_fd, _, _, same) = get_client_lem fd s.clients there in
        rw (there, Holds)
          (>>=-Holds (VerdictOwned Anything fd) _ (preprocess_data emu client.1 s.world (b ∷ bs)) _
            (preprocess_data-Owned Anything emu (Anything-Keeps emu) fd client.1 s.world (b ∷ bs)
              (of_fd, tt))
            (go client.0 same))
  ]
    where
      go :
          (i : ℕ)
          → ((c : Client)
              → c.socket_fd ≡ fd
              → open_sockets (set s.clients i c) ≡ open_sockets s.clients)
          → (v : Verdict E) → VerdictOwned Anything fd v
          → open_sockets (after_data fd i s.clients v).1.clients ≡ open_sockets s.clients
      go i same (kept c w) p = same c p.0
      go i same (dropped c w) p = same c p.0

module _ {E : Type 0} (emu : Emulator E) where
  -- A table in which a free slot has no block and a client is valid stays so when the data of a client
  -- is read, if the data does not run past the end of a block that an earlier read began.
  pub read_client_data-IsSlot :
      (fd : ℕ) (b : ℕ) (bs : Bytes) (s : Server E)
      → fd ≢ 0
      → All IsSlot s.clients
      → ((r : ℕ × Client) → get_client fd s.clients ≡ some r → Fits r.1 (length (b ∷ bs)))
      → Holds (λ r. All IsSlot r.1.clients) (read_client_data emu fd (b ∷ bs) s)
  unfolding read_client_data after_data
  read_client_data-IsSlot fd b bs s n slots fits = elim (Option-cases (get_client fd s.clients)) [
    | inl missing ↦ rw (missing, Holds) tt
    | inr (client, there) ↦
        let (of_fd, valid, keeps, _) = get_client_lem fd s.clients there in
        let is_valid = (valid slots).1 (λ z. n (sym of_fd ∙ z)) in
        rw (there, Holds)
          (>>=-Holds (λ v. VerdictOwned Anything fd v × VerdictValid v)
            (λ r. All IsSlot r.1.clients) (preprocess_data emu client.1 s.world (b ∷ bs)) _
            (Holds-both (VerdictOwned Anything fd) VerdictValid _
              (preprocess_data-Owned Anything emu (Anything-Keeps emu) fd client.1 s.world (b ∷ bs)
                (of_fd, tt))
              (preprocess_data-IsValid emu client.1 s.world b bs is_valid (fits client there)))
            (go client.0 (λ c e v. keeps c (λ z. absurd (n (sym e ∙ z)), λ _. v) slots)))
  ]
    where
      go :
          (i : ℕ)
          → ((c : Client) → c.socket_fd ≡ fd → IsValid c → All IsSlot (set s.clients i c))
          → (v : Verdict E) → VerdictOwned Anything fd v × VerdictValid v
          → All IsSlot (after_data fd i s.clients v).1.clients
      go i keeps (kept c w) p = keeps c p.0.0 p.1
      go i keeps (dropped c w) p = keeps c p.0.0 p.1
