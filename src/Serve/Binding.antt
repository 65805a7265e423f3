-- ===== src/Serve/Binding.antt =====
-- The port that the server listens on.
use emulator_networkaccess.Prelude.{
  ℕ, [], map, zero, suc, ◌+◌, ◌%◌, ◌^◌, ◌≤◌, ◌<◌, Bool, true, false, Option, none, some, Bool-cases,
  ◌≡◌, inl, inr, refl, sym, subst, arith,
}
use native.Mathlib.Decide.{ℕ_discrete}
use emulator_networkaccess.Clients.{Callbacks, call}
use emulator_networkaccess.Poll.{Server}
use emulator_networkaccess.Serve.{
  Host, Loop, serving, free_slot, port_range_start, bind_loop, listen_on, open_socket, start_server,
}

-- The answer to the attempt with `cpt` set to `i`.
abbrev pub free_port : (ℕ → Bool) → ℕ → ℕ → Bool
free_port bind start i = bind ((start + i) % 2 ^ 16)

-- The first of the attempts from `cpt` on, `rounds` after the next one, that succeeds, or none.
abbrev pub IsFirstFree : (ℕ → Bool) → ℕ → ℕ → ℕ → Option ℕ → Type 0
IsFirstFree bind start rounds cpt none =
    (i : ℕ) → cpt ≤ i → i ≤ cpt + rounds → free_port bind start i ≡ false
IsFirstFree bind start rounds cpt (some k) =
    (cpt ≤ k)
    × (k ≤ cpt + rounds)
    × (free_port bind start k ≡ true)
    × ((i : ℕ) → cpt ≤ i → i < k → free_port bind start i ≡ false)

module _ (bind : ℕ → Bool) (start : ℕ) where
  taken_later :
      (i cpt : ℕ)
      → free_port bind start cpt ≡ false
      → (cpt + 1 ≤ i → free_port bind start i ≡ false)
      → cpt ≤ i
      → free_port bind start i ≡ false
  taken_later i cpt taken later l = elim (ℕ_discrete i cpt) [
    | yes same ↦ subst (λ i. free_port bind start i ≡ false) (sym same) taken
    | no other ↦ later (omega arith)
  ]

  first_free :
      (rounds cpt : ℕ)
      → free_port bind start cpt ≡ true
      → IsFirstFree bind start rounds cpt (some cpt)
  first_free rounds cpt free = (omega arith, omega arith, free, λ i l u. absurd (omega arith))

  one_before :
      (rounds cpt : ℕ) (o : Option ℕ)
      → free_port bind start cpt ≡ false
      → IsFirstFree bind start rounds (cpt + 1) o
      → IsFirstFree bind start (suc rounds) cpt o
  one_before rounds cpt none taken h = λ i l u. taken_later i cpt taken (λ k. h i k (omega arith)) l
  one_before rounds cpt (some k) taken (lo, hi, free, before) =
      (omega arith, omega arith, free, λ i l u. taken_later i cpt taken (λ j. before i j u) l)

  only_one : (cpt : ℕ) → free_port bind start cpt ≡ false → IsFirstFree bind start 0 cpt none
  only_one cpt taken = λ i l u. taken_later i cpt taken (λ j. absurd (omega arith)) l

  bind_loop-IsFirstFree :
      (rounds cpt : ℕ) → IsFirstFree bind start rounds cpt (bind_loop bind start rounds cpt)
  unfolding bind_loop
  bind_loop-IsFirstFree zero cpt = elim (Bool-cases (free_port bind start cpt)) [
    | inl free ↦ rw (free, IsFirstFree) (first_free 0 cpt free)
    | inr taken ↦ rw (taken, IsFirstFree) (only_one cpt taken)
  ]
  bind_loop-IsFirstFree (suc rounds) cpt = elim (Bool-cases (free_port bind start cpt)) [
    | inl free ↦ rw (free, IsFirstFree) (first_free (suc rounds) cpt free)
    | inr taken ↦
        rw (taken, IsFirstFree)
          (one_before rounds cpt (bind_loop bind start rounds (cpt + 1)) taken
            (bind_loop-IsFirstFree rounds (cpt + 1)))
  ]

-- What the operating system has answered where the server goes on to its main loop, and what it then has.
pub record IsListening {E : Type 0} (callbacks : Callbacks E) (host : Host) (s : Server E)
    (l : Loop E) : Type 0 where
  pub cpt : ℕ
  pub has_socket : host.socket ≡ some l.server_socket
  pub for_both : host.setsockopt ≡ true
  pub first : IsFirstFree host.bind (port_range_start host.port_range) 4 0 (some cpt)
  pub listens : host.listen ≡ true
  pub no_clients : l.poll_fds ≡ []
  pub free_slots : l.server.clients ≡ map free_slot s.clients
  pub announced :
      l.server.world
      ≡ call callbacks.server_started (port_range_start host.port_range + cpt) s.world

module _ {E : Type 0} (callbacks : Callbacks E) (host : Host) (s : Server E) (l : Loop E) where
  listen_on-IsListening :
      (server_socket : ℕ) (o : Option ℕ)
      → host.socket ≡ some server_socket
      → host.setsockopt ≡ true
      → IsFirstFree host.bind (port_range_start host.port_range) 4 0 o
      → listen_on callbacks host
          (port_range_start host.port_range)
          server_socket
          o
          (record s { clients = map free_slot s.clients })
        ≡ serving l
      → IsListening callbacks host s l
  unfolding listen_on
  listen_on-IsListening server_socket none k b f h = absurd (cc)
  listen_on-IsListening server_socket (some cpt) k b f h = elim (Bool-cases host.listen) [
    | inl listens ↦ record {
      cpt = cpt;
      has_socket = ground arith;
      for_both = b;
      first = f;
      listens = listens;
      no_clients = ground arith;
      free_slots = ground arith;
      announced = ground arith;
    }
    | inr refused ↦ absurd (ground arith)
  ]

  open_socket-IsListening :
      (o : Option ℕ)
      → host.socket ≡ o
      → open_socket callbacks host o (record s { clients = map free_slot s.clients }) ≡ serving l
      → IsListening callbacks host s l
  unfolding open_socket
  open_socket-IsListening none k h = absurd (cc)
  open_socket-IsListening (some server_socket) k h = elim (Bool-cases host.setsockopt) [
    | inl both ↦
        let start = port_range_start host.port_range in
        listen_on-IsListening server_socket (bind_loop host.bind start 4 0) k both
          (bind_loop-IsFirstFree host.bind start 4 0) (ground arith)
    | inr refused ↦ absurd (ground arith)
  ]

  -- Where the server comes to its main loop, it is bound to the first free one of five ports from the
  -- start of the range on, modulo 2^16, it has no client, and the callback was told the number of the port
  -- as a sum that is not taken modulo 2^16.
  pub start_server-IsListening :
      start_server callbacks host s ≡ serving l → IsListening callbacks host s l
  unfolding start_server
  start_server-IsListening h = open_socket-IsListening host.socket refl h
