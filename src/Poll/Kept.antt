-- ===== src/Poll/Kept.antt =====
-- What a round keeps: the number of the slots, and what the functions of the embedding program keep.
use emulator_networkaccess.Prelude.{
  ltb, ◌+◌, ℕ, zero, suc, Bool, true, false, ◌||◌, Option, none, some, List, [], ◌∷◌, ◌++◌, Bytes,
  length, set, Bool-cases, Option-cases, if◌then◌else◌, ◌≡◌, inl, inr, refl, ap, ◌∙◌, arith,
}
use mathlib.Core.Option
use native.Mathlib.Decide.{ℕ_discrete}
use emulator_networkaccess.World.{World, Holds, >>=-Holds}
use emulator_networkaccess.Client.{Client}
use emulator_networkaccess.Dispatch.{Emulator}
use emulator_networkaccess.Dispatch.Keeps.{Keeps}
use emulator_networkaccess.Clients.{Callbacks, call, get_client, remove_client, add_to_clients}
use emulator_networkaccess.Clients.Sockets.{add_to_clients-used, add_to_clients-free}
use emulator_networkaccess.Framing.Parts.{Verdict, kept, dropped}
use emulator_networkaccess.Framing.Loop.{preprocess_data}
use emulator_networkaccess.Framing.Owned.{VerdictOwned, preprocess_data-Owned}
use emulator_networkaccess.Poll.{
  PollFd, Server, removing, after_data, read_client_data, visit, last_first, scan, new_client,
}
use emulator_networkaccess.Poll.Reading.{get_client_lem}

-- A callback for a socket keeps `P`, if it is not NULL.
abbrev pub CallKeeps : {E : Type 0} → (E → Type 0) → Option (ℕ → World E → World E) → Type 0
CallKeeps P none = Unit
CallKeeps P (some f) = (fd : ℕ) (w : World _) → P w.emulator → P (f fd w).emulator

pub record CallbacksKeep {E : Type 0} (P : E → Type 0) (callbacks : Callbacks E) : Type 0 where
  pub add_client_keeps : CallKeeps P callbacks.add_client
  pub server_started_keeps : CallKeeps P callbacks.server_started
  pub remove_client_keeps : CallKeeps P callbacks.remove_client
  pub after_poll_keeps : CallKeeps P (Option.map (λ f fd w. f w) callbacks.after_poll)

-- A table of `n` slots, and an emulator with `P`.
abbrev pub Kept : {E : Type 0} → ℕ → (E → Type 0) → Server E → Type 0
Kept n P s = (length s.clients ≡ n) × P s.world.emulator

pub call-CallKeeps :
    {E : Type 0} (P : E → Type 0) (o : Option (ℕ → World E → World E)) (fd : ℕ) (w : World E)
    → CallKeeps P o
    → P w.emulator
    → P (call o fd w).emulator
unfolding call
call-CallKeeps P none fd w h p = p
call-CallKeeps P (some f) fd w h p = h fd w p

length-set : (cs : List Client) (i : ℕ) (c : Client) → length (set cs i c) ≡ length cs
length-set [] i c = refl
length-set (d ∷ cs) zero c = refl
length-set (d ∷ cs) (suc i) c = ap suc (length-set cs i c)

length-add_to_clients :
    (fd : ℕ) (cs cs' : List Client) → add_to_clients fd cs ≡ some cs' → length cs' ≡ length cs
unfolding add_to_clients
length-add_to_clients fd [] cs' h = absurd (cc)
length-add_to_clients fd (c ∷ cs) cs' h = elim (ℕ_discrete c.socket_fd 0) [
  | yes free ↦ ap length (add_to_clients-free fd c cs cs' free h)
  | no used ↦
      let (ds, more, is_cs') = add_to_clients-used fd c cs cs' used h in
      ap length is_cs' ∙ ap suc (length-add_to_clients fd cs ds more)
]

module _ {E : Type 0} (P : E → Type 0) (callbacks : Callbacks E)
    (keep : CallbacksKeep P callbacks) where
  remove_client-Kept :
      (fd : ℕ) (cs : List Client) (w : World E)
      → P w.emulator
      → (length (remove_client callbacks fd cs w).0 ≡ length cs)
        × P (remove_client callbacks fd cs w).1.emulator
  unfolding remove_client
  remove_client-Kept fd [] w p = (refl, p)
  remove_client-Kept fd (c ∷ cs) w p = ground (
    arith,
    remove_client-Kept fd cs w p,
    call-CallKeeps P callbacks.remove_client fd w keep.remove_client_keeps p,
  )

  removing-Kept : (n fd : ℕ) (s : Server E) → Kept n P s → Kept n P (removing callbacks fd s)
  removing-Kept n fd s v = let r = remove_client-Kept fd s.clients s.world v.1 in (r.0 ∙ v.0, r.1)

  -- A new connection keeps both.
  pub new_client-Kept :
      (n fd : ℕ) (ps : List PollFd) (s : Server E)
      → Kept n P s
      → Holds (λ r. Kept n P r.1) (new_client callbacks fd ps s)
  unfolding new_client
  new_client-Kept n fd ps s v = elim (Option-cases (add_to_clients fd s.clients)) [
    | inl full ↦ rw (full, new_client, Holds) v
    | inr (cs, room) ↦ elim (Bool-cases (ltb (1 + length ps) 6)) [
      | inl fits ↦
          rw (room, new_client, fits, Holds)
            (
              length-add_to_clients fd s.clients cs room ∙ v.0,
              call-CallKeeps P callbacks.add_client fd s.world keep.add_client_keeps v.1,
            )
      | inr past ↦ rw (room, new_client, past, Holds) tt
    ]
  ]

module _ {E : Type 0} (P : E → Type 0) (emu : Emulator E) (keeps : Keeps P emu)
    (callbacks : Callbacks E) (keep : CallbacksKeep P callbacks) (read : ℕ → Bytes) (n : ℕ) where
  read_client_data-Kept :
      (fd : ℕ) (bytes : Bytes) (s : Server E)
      → Kept n P s
      → Holds (λ r. Kept n P r.1) (read_client_data emu fd bytes s)
  unfolding read_client_data after_data
  read_client_data-Kept fd [] s v = v
  read_client_data-Kept fd (b ∷ bs) s v = elim (Option-cases (get_client fd s.clients)) [
    | inl missing ↦ rw (missing, Holds) tt
    | inr (client, there) ↦
        let (of_fd, _, _, _) = get_client_lem fd s.clients there in
        rw (there, Holds)
          (>>=-Holds (VerdictOwned P fd) (λ r. Kept n P r.1)
            (preprocess_data emu client.1 s.world (b ∷ bs)) _
            (preprocess_data-Owned P emu keeps fd client.1 s.world (b ∷ bs) (of_fd, v.1))
            (go client.0))
  ]
    where
      go : (i : ℕ) (x : Verdict E) → VerdictOwned P fd x → Kept n P (after_data fd i s.clients x).1
      go i (kept c w) p = (length-set s.clients i c ∙ v.0, p.1)
      go i (dropped c w) p = (length-set s.clients i c ∙ v.0, p.1)

  visit-Kept :
      (p : PollFd) (s : Server E)
      → Kept n P s
      → Holds (λ r. Kept n P r.1) (visit emu callbacks read p s)
  unfolding visit
  visit-Kept p s v = elim (Bool-cases (p.pollerr || p.pollhup)) [
    | inl gone ↦ rw (gone, Holds) (removing-Kept P callbacks keep n p.fd s v)
    | inr well ↦ elim (Bool-cases p.pollin) [
      | inl ready ↦
          rw (well, ready, Holds)
            (>>=-Holds (λ r. Kept n P r.1) (λ r. Kept n P r.1)
              (read_client_data emu p.fd (read p.fd) s) _
              (read_client_data-Kept p.fd (read p.fd) s v) go)
      | inr idle ↦ rw (well, idle, Holds) v
    ]
  ]
    where
      go :
          (r : Bool × Server E)
          → Kept n P r.1
          → Kept n P (if r.0 then r else (false, removing callbacks p.fd r.1)).1
      go (true, s') k = k
      go (false, s') k = removing-Kept P callbacks keep n p.fd s' k

  -- The loop over `poll_fds` keeps both.
  pub scan-Kept :
      (fuel : ℕ) (before ps : List PollFd) (s : Server E)
      → Kept n P s
      → Holds (λ r. Kept n P r.1) (scan emu callbacks read fuel before ps s)
  unfolding scan
  scan-Kept fuel before [] s v = v
  scan-Kept zero before (p ∷ ps) s v = tt
  scan-Kept (suc fuel) before (p ∷ ps) s v =
      >>=-Holds (λ r. Kept n P r.1) (λ r. Kept n P r.1) (visit emu callbacks read p s) _
        (visit-Kept p s v) (go (scan-Kept fuel))
    where
      go :
          ((before ps : List PollFd) (s : Server E)
            → Kept n P s
            → Holds (λ r. Kept n P r.1) (scan emu callbacks read fuel before ps s))
          → (r : Bool × Server E) → Kept n P r.1
          → let next : List PollFd × List PollFd =
              if r.0 then (before ++ (p ∷ []), ps) else (before, last_first ps) in
            Holds (λ r. Kept n P r.1) (scan emu callbacks read fuel next.0 next.1 r.1)
      go ih (true, s') k = ih (before ++ (p ∷ [])) ps s' k
      go ih (false, s') k = ih before (last_first ps) s' k
