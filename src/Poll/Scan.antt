-- ===== src/Poll/Scan.antt =====
-- The loop over `poll_fds` and new connections: the entries and the table of clients.
use emulator_networkaccess.Prelude.{
  ltb, ◌+◌, ℕ, zero, suc, ◌≤◌, Bool, true, false, ◌||◌, some, List, [], ◌∷◌, ◌++◌, Bytes, map,
  length, Bool-cases, Option-cases, if◌then◌else◌, append_assoc, append-nil, ◌≡◌, ◌≢◌, inl, inr,
  refl, ap, sym, ◌∙◌, subst, arith,
}
use mathlib.Core.List.{Perm, Permᴰ, Memᴰ, perm_middle, Perm-prop}
use mathlib.Core.List.Perm
use mathlib.Core.List.Memᴰ
use mathlib.Core.Logic.{∥∥₁_elim}
use native.Mathlib.Decide.{ℕ_discrete}
use native.Mathlib.Nat.{ℕ_set}
use emulator_networkaccess.World.{World, done, closed, emit, Holds, >>=-Holds}
use emulator_networkaccess.Client.{Client}
use emulator_networkaccess.Dispatch.{Emulator}
use emulator_networkaccess.Clients.{Callbacks, call, get_client, remove_client, add_to_clients}
use emulator_networkaccess.Clients.Sockets.{
  open_sockets, open_sockets-used, open_sockets-free, remove_client-open_sockets,
  add_to_clients-open_sockets, add_to_clients_full, open_sockets-length,
}
use emulator_networkaccess.Poll.{
  PollFd, Server, read_client_data, removing, visit, split_last, last_first, scan, new_client,
}
use emulator_networkaccess.Poll.Reading.{read_client_data-open_sockets}

-- A socket of the table is not 0, and `get_client` finds its client.
get_client-open_sockets :
    (fd : ℕ) (cs : List Client)
    → Memᴰ fd (open_sockets cs)
    → (fd ≢ 0) × (r : ℕ × Client) × (get_client fd cs ≡ some r)
unfolding get_client open_sockets
get_client-open_sockets fd [] m = absurd (Memᴰ.not-nil m)
get_client-open_sockets fd (c ∷ cs) m = elim (ℕ_discrete c.socket_fd 0) [
  | yes free ↦
      let (n, r, found) =
        get_client-open_sockets fd cs (subst (Memᴰ fd) (open_sockets-free c cs free) m) in
      (n, (suc r.0, r.1), ground arith)
  | no used ↦ elim (Memᴰ.cases_cons (subst (Memᴰ fd) (open_sockets-used c cs used) m)) [
    | inl e ↦ (λ z. used (sym e ∙ z), (0, c), ground arith)
    | inr there ↦
        let (n, r, found) = get_client-open_sockets fd cs there in
        elim (ℕ_discrete c.socket_fd fd) [
          | yes here ↦ (n, (0, c), ground arith)
          | no apart ↦ (n, (suc r.0, r.1), ground arith)
        ]
  ]
]

module _ {E : Type 0} (callbacks : Callbacks E) where
  remove_client-Perm :
      (fd : ℕ) (cs : List Client) (w : World E) (others : List ℕ)
      → Perm (open_sockets cs) (fd ∷ others)
      → Perm (open_sockets (remove_client callbacks fd cs w).0) others
  remove_client-Perm fd cs w others p =
      ∥∥₁_elim (Perm.subset (Perm.symm p) fd ∣ Memᴰ.head refl ∣₁) Perm-prop λ m.
        let (n, r, found) = get_client-open_sockets fd cs m in
        Perm.cons_inv
          (Perm.trans (Perm.symm (remove_client-open_sockets callbacks fd cs w n found)) p)

split_last-Perm :
    (p : PollFd) (ps : List PollFd) → Perm ((split_last p ps).0 ∷ (split_last p ps).1) (p ∷ ps)
unfolding split_last
split_last-Perm p [] = Perm.refl _
split_last-Perm p (q ∷ ps) = Perm.trans (Perm.swap _ _ _) (Perm.cons p (split_last-Perm q ps))

pub last_first-Perm : (ps : List PollFd) → Perm (last_first ps) ps
unfolding last_first
last_first-Perm [] = Perm.refl _
last_first-Perm (p ∷ ps) = split_last-Perm p ps

abbrev pub sockets : List PollFd → List ℕ
sockets ps = map (λ p. p.fd) ps

-- What a visit of an entry leaves open: all of the sockets if the entry stays, and else the others.
abbrev Visited : {E : Type 0} → Server E → List ℕ → Bool × Server E → Type 0
Visited s others r = elim r.0 [
  | true ↦ open_sockets r.1.clients ≡ open_sockets s.clients
  | false ↦ Perm (open_sockets r.1.clients) others
]

split_last-length : (p : PollFd) (ps : List PollFd) → length (split_last p ps).1 ≡ length ps
unfolding split_last
split_last-length p [] = refl
split_last-length p (q ∷ ps) = ap suc (split_last-length q ps)

pub last_first-length : (ps : List PollFd) → length (last_first ps) ≡ length ps
unfolding last_first
last_first-length [] = refl
last_first-length (p ∷ ps) = ap suc (split_last-length p ps)

module _ {E : Type 0} (emu : Emulator E) (callbacks : Callbacks E) (read : ℕ → Bytes) where
  visit-Visited :
      (p : PollFd) (s : Server E) (others : List ℕ)
      → Perm (open_sockets s.clients) (p.fd ∷ others)
      → Holds (Visited s others) (visit emu callbacks read p s)
  unfolding visit
  visit-Visited p s others h = elim (Bool-cases (p.pollerr || p.pollhup)) [
    | inl gone ↦ rw (gone, Holds) (remove_client-Perm callbacks p.fd s.clients s.world others h)
    | inr well ↦ elim (Bool-cases p.pollin) [
      | inl ready ↦
          rw (well, ready, Holds)
            (>>=-Holds (λ r. open_sockets r.1.clients ≡ open_sockets s.clients) (Visited s others)
              (read_client_data emu p.fd (read p.fd) s) _
              (read_client_data-open_sockets emu p.fd (read p.fd) s) go)
      | inr idle ↦ rw (well, idle, Holds) refl
    ]
  ]
    where
      go :
          (r : Bool × Server E)
          → open_sockets r.1.clients ≡ open_sockets s.clients
          → Visited s others (if r.0 then r else (false, removing callbacks p.fd r.1))
      go (true, s') e = e
      go (false, s') e =
          remove_client-Perm callbacks p.fd s'.clients s'.world others
            (subst (λ l. Perm l (p.fd ∷ others)) (sym e) h)

  -- If the entries are the sockets of the table before the loop over `poll_fds`, they are after it,
  -- where the fuel is at least their number and the loop ends.
  pub scan-sockets :
      (fuel : ℕ) (before ps : List PollFd) (s : Server E)
      → length ps ≤ fuel
      → Perm (sockets (before ++ ps)) (open_sockets s.clients)
      → Holds
          (λ r. Perm (sockets r.0) (open_sockets r.1.clients))
          (scan emu callbacks read fuel before ps s)
  unfolding scan
  scan-sockets fuel before [] s n h =
      subst (λ l. Perm (sockets l) (open_sockets s.clients)) (append-nil before) h
  scan-sockets zero before (p ∷ ps) s n h = absurd (omega arith)
  scan-sockets (suc fuel) before (p ∷ ps) s n h =
      >>=-Holds (Visited s (sockets (before ++ ps)))
        (λ r. Perm (sockets r.0) (open_sockets r.1.clients)) (visit emu callbacks read p s) _
        (visit-Visited p s (sockets (before ++ ps))
          (Perm.trans (Perm.symm h) (Perm.map (λ q. q.fd) (perm_middle {a = p} before ps))))
        (go (scan-sockets fuel))
    where
      go :
          ((before ps : List PollFd) (s : Server E)
            → length ps ≤ fuel
            → Perm (sockets (before ++ ps)) (open_sockets s.clients)
            → Holds
                (λ r. Perm (sockets r.0) (open_sockets r.1.clients))
                (scan emu callbacks read fuel before ps s))
          → (r : Bool × Server E) → Visited s (sockets (before ++ ps)) r
          → let next : List PollFd × List PollFd =
              if r.0 then (before ++ (p ∷ []), ps) else (before, last_first ps) in
            Holds
              (λ r. Perm (sockets r.0) (open_sockets r.1.clients))
              (scan emu callbacks read fuel next.0 next.1 r.1)
      go ih (true, s') e = ih (before ++ (p ∷ [])) ps s' (omega arith) (
          subst (λ l. Perm (sockets l) (open_sockets s'.clients))
            (sym (append_assoc before (p ∷ []) ps))
            (subst (Perm (sockets (before ++ (p ∷ ps)))) (sym e) h))
      go ih (false, s') q = ih before (last_first ps) s' (omega (arith, last_first-length ps)) (
          Perm.trans (Perm.map (λ q. q.fd) (Perm.append (Perm.refl before) (last_first-Perm ps)))
            (Perm.symm q))

length-Permᴰ {ℓ} : {A : Type ℓ} {xs ys : List A} → Permᴰ xs ys → length xs ≡ length ys
length-Permᴰ Permᴰ.nil = refl
length-Permᴰ (Permᴰ.cons e p) = ap suc (length-Permᴰ p)
length-Permᴰ (Permᴰ.swap e f) = refl
length-Permᴰ (Permᴰ.trans p q) = length-Permᴰ p ∙ length-Permᴰ q

length-Perm {ℓ} : {A : Type ℓ} {xs ys : List A} → Perm xs ys → length xs ≡ length ys
length-Perm p = ∥∥₁_elim p (ℕ_set _ _) length-Permᴰ

length-sockets : (ps : List PollFd) → length (sockets ps) ≡ length ps
length-sockets [] = refl
length-sockets (p ∷ ps) = ap suc (length-sockets ps)

module _ {E : Type 0} (callbacks : Callbacks E) where
  room_for_entry :
      (new_socket : ℕ) (ps : List PollFd) (cs cs' : List Client)
      → Perm (sockets ps) (open_sockets cs)
      → length cs ≤ 5
      → add_to_clients new_socket cs ≡ some cs'
      → ltb (1 + length ps) 6 ≡ true
  room_for_entry new_socket ps cs cs' h n added =
      let not_full : length (open_sockets cs) ≢ length cs =
        λ e. let refused = (add_to_clients_full new_socket cs).1 e in absurd (cc) in
      ground (arith, length-Perm h, length-sockets ps, open_sockets-length cs)

  -- If the entries are the sockets of a table of at most five slots, they still are after a new
  -- connection whose socket is not 0, whether the table has room for it or not, and the new entry is
  -- within `poll_fds`.
  pub new_client-sockets :
      (new_socket : ℕ) (ps : List PollFd) (s : Server E)
      → new_socket ≢ 0
      → length s.clients ≤ 5
      → Perm (sockets ps) (open_sockets s.clients)
      → (r : List PollFd × Server E) × (new_client callbacks new_socket ps s ≡ done r)
        × Perm (sockets r.0) (open_sockets r.1.clients)
  unfolding new_client
  new_client-sockets new_socket ps s n five h =
      elim (Option-cases (add_to_clients new_socket s.clients)) [
        | inl full ↦ (
          (ps, record s { world = emit (closed new_socket) s.world }),
          rw (full, new_client) refl,
          h,
        )
        | inr (cs, room) ↦ (
          (
            ps ++ (fresh_entry ∷ []),
            record { clients = cs; world = call callbacks.add_client new_socket s.world },
          ),
          rw (room, new_client, room_for_entry new_socket ps s.clients cs h five room) refl,
          Perm.trans (Perm.map (λ q. q.fd) (perm_middle {a = fresh_entry} ps [])) (
              Perm.trans
                (Perm.cons new_socket
                  (subst (λ l. Perm (sockets l) (open_sockets s.clients)) (sym (append-nil ps)) h))
                (Perm.symm (add_to_clients-open_sockets new_socket s.clients cs n room))),
        )
      ]
    where
      fresh_entry : PollFd
      fresh_entry = record { fd = new_socket; pollin = false; pollerr = false; pollhup = false }
