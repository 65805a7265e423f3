-- ===== src/Poll/Entries.antt =====
-- `read_client_data`, for the sockets that `poll_fds` has entries of.
use emulator_networkaccess.Prelude.{
  ℕ, ==_refl, none, some, List, [], ◌∷◌, All, Bytes, get_elem?, Option-cases, inl, inr, subst, ◌≡◌,
  ◌≢◌, refl, arith,
}
use mathlib.Core.List.{Perm, Mem, not-mem-nil, mem-cons_self, mem-cons_of_mem, forall_mem-cons}
use mathlib.Core.List.Perm
use native.Mathlib.Decide.{ℕ_discrete}
use emulator_networkaccess.World.{done, ◌>>=◌}
use emulator_networkaccess.Client.{Client}
use emulator_networkaccess.Dispatch.{Emulator}
use emulator_networkaccess.Clients.{get_client}
use emulator_networkaccess.Clients.Sockets.{
  open_sockets, open_sockets-free, open_sockets-used, get_client-there,
}
use emulator_networkaccess.Framing.Loop.{preprocess_data}
use emulator_networkaccess.Poll.{PollFd, Server, after_data, read_client_data}
use emulator_networkaccess.Poll.Scan.{sockets}

-- The table has a client of a socket.
abbrev HasClient : List Client → ℕ → Type 0
HasClient cs fd = get_client fd cs ≢ none

HasClient-IsProp : (cs : List Client) (fd : ℕ) → IsProp (HasClient cs fd)
HasClient-IsProp cs fd = hlevel

HasClient-cons : (c : Client) (cs : List Client) (fd : ℕ) → HasClient cs fd → HasClient (c ∷ cs) fd
unfolding get_client
HasClient-cons c cs fd h e = elim (ℕ_discrete c.socket_fd fd) [
  | yes here ↦ absurd (ground arith)
  | no there ↦ elim (Option-cases (get_client fd cs)) [
    | inl missing ↦ h missing
    | inr (r, found) ↦ absurd (ground arith)
  ]
]

HasClient-self : (c : Client) (cs : List Client) → HasClient (c ∷ cs) c.socket_fd
unfolding get_client
HasClient-self c cs e = absurd (ground (arith, ==_refl c.socket_fd))

open_sockets-HasClient : (cs : List Client) (fd : ℕ) → Mem fd (open_sockets cs) → HasClient cs fd
unfolding open_sockets
open_sockets-HasClient [] fd m = absurd (not-mem-nil m)
open_sockets-HasClient (c ∷ cs) fd m = elim (ℕ_discrete c.socket_fd 0) [
  | yes free ↦
      HasClient-cons c cs fd
        (open_sockets-HasClient cs fd (subst (Mem fd) (open_sockets-free c cs free) m))
  | no used ↦
      (forall_mem-cons (HasClient-IsProp (c ∷ cs))).1
        (HasClient-self c cs, λ k n. HasClient-cons c cs k (open_sockets-HasClient cs k n)) fd
        (subst (Mem fd) (open_sockets-used c cs used) m)
]

All-sockets :
    (P : ℕ → Type 0) (ps : List PollFd)
    → ((fd : ℕ) → Mem fd (sockets ps) → P fd)
    → All (λ p. P p.fd) ps
All-sockets P [] h = tt
All-sockets P (p ∷ ps) h =
    (h p.fd mem-cons_self, All-sockets P ps (λ fd m. h fd (mem-cons_of_mem p.fd m)))

get_client-get_elem? :
    (fd : ℕ) (cs : List Client) {r : ℕ × Client}
    → get_client fd cs ≡ some r
    → (get_elem? cs r.0 ≡ some r.1) × (r.1.socket_fd ≡ fd)
unfolding get_client
get_client-get_elem? fd [] h = absurd cc
get_client-get_elem? fd (c ∷ cs) {r = r} h = elim (ℕ_discrete c.socket_fd fd) [
  | yes here ↦ let is_r : r ≡ (0, c) = ground arith in rw is_r (refl, here)
  | no there ↦
      let (j, found, is_r) = get_client-there fd c cs there h in
      rw is_r (get_client-get_elem? fd cs found)
]

-- What is read of a socket is handed to `preprocess_data` with the client of that socket, and what
-- becomes of it is put back into the slot where this client stands.
abbrev pub Served : {E : Type 0} → Emulator E → Server E → ℕ → Bytes → ℕ → Type 0
Served emu s b bs fd =
    (i : ℕ) × (c : Client) × (get_elem? s.clients i ≡ some c)
    × (c.socket_fd ≡ fd)
    × (read_client_data emu fd (b ∷ bs) s
        ≡ (preprocess_data emu c s.world (b ∷ bs) >>= λ v. done (after_data fd i s.clients v)))

module _ {E : Type 0} (emu : Emulator E) (s : Server E) (b : ℕ) (bs : Bytes) where
  HasClient-Served : (fd : ℕ) → HasClient s.clients fd → Served emu s b bs fd
  unfolding read_client_data
  HasClient-Served fd h = elim (Option-cases (get_client fd s.clients)) [
    | inl missing ↦ absurd (h missing)
    | inr ((i, c), found) ↦
        let (stands, of_fd) = get_client-get_elem? fd s.clients found in
        (i, c, stands, of_fd, rw (found, read_client_data) refl)
  ]

  All-Served :
      (ps : List PollFd)
      → All (λ p. HasClient s.clients p.fd) ps
      → All (λ p. Served emu s b bs p.fd) ps
  All-Served [] h = tt
  All-Served (p ∷ ps) h = (HasClient-Served p.fd h.0, All-Served ps h.1)

  -- Where the entries are the sockets of the table, the bytes that are read of an entry's socket are
  -- handed to preprocess_data with the client of that socket, which get_client finds, and what becomes
  -- of the client is put back into its slot.
  pub read_client_data-entries :
      (ps : List PollFd)
      → Perm (sockets ps) (open_sockets s.clients)
      → All (λ p. Served emu s b bs p.fd) ps
  read_client_data-entries ps p = All-Served ps (
      All-sockets (HasClient s.clients) ps
        (λ fd m. open_sockets-HasClient s.clients fd ((Perm.mem_iff p).0 m)))
