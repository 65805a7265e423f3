-- ===== src/Poll.antt =====
-- generic poll server/generic_poll_server.c, `read_client_data` and the handling of the clients after
-- a `poll` in `generic_poll_server_start`. `poll_fds[0]` is the server's socket; the others are the list of
-- the entries from 1 on.
pub mod Reading
pub mod Scan
pub mod Visits
pub mod Entries
pub mod Kept
use emulator_networkaccess.Prelude.{
  ltb, ℕ, zero, suc, ◌+◌, Bool, true, false, ◌||◌, Option, none, some, List, [], ◌∷◌, ◌++◌, Bytes,
  set, length, if◌then◌else◌,
}
use emulator_networkaccess.World.{
  Outcome, done, fault, out_of_fuel, null_pointer, stack_overflow, World, closed, emit, ◌>>=◌,
}
use emulator_networkaccess.Client.{Client, waiting_for_command}
use emulator_networkaccess.Dispatch.{Emulator}
use emulator_networkaccess.Clients.{
  Callbacks, call, get_client, remove_client, added, add_to_clients,
}
use emulator_networkaccess.Framing.Parts.{Verdict, kept, dropped}
use emulator_networkaccess.Framing.Loop.{preprocess_data}

-- An entry of `poll_fds` after `poll`: its socket, and the tests of its `revents`.
pub record PollFd : Type 0 where
  pub fd : ℕ
  pub pollin : Bool
  pub pollerr : Bool
  pub pollhup : Bool

pub record Server (E : Type 0) : Type 0 where
  pub clients : List Client
  pub world : World E

abbrev pub removing : {E : Type 0} → Callbacks E → ℕ → Server E → Server E
removing callbacks fd s =
    let r = remove_client callbacks fd s.clients s.world in record { clients = r.0; world = r.1 }

-- The client is changed in its slot; a client that is dropped is closed.
unfoldable pub after_data : {E : Type 0} → ℕ → ℕ → List Client → Verdict E → Bool × Server E
after_data fd i cs (kept c w) = (true, record { clients = set cs i c; world = w })
after_data fd i cs (dropped c w) =
    (false, record { clients = set cs i c; world = emit (closed fd) w })

module _ {E : Type 0} (emu : Emulator E) where
  -- The bytes are what `read` delivers, at most 2048; none where its result is 0 or an error.
  unfoldable pub read_client_data : ℕ → Bytes → Server E → Outcome (Bool × Server E)
  unfolding get_client preprocess_data after_data
  read_client_data fd [] s = done (false, s)
  read_client_data fd (b ∷ bs) s = elim (get_client fd s.clients) [
    | none ↦ fault null_pointer
    | some client ↦ preprocess_data emu client.1 s.world (b ∷ bs) >>= λ v.
        done (after_data fd client.0 s.clients v)
  ]

-- The last of `p` and the entries behind it, and the others.
unfoldable pub split_last : PollFd → List PollFd → PollFd × List PollFd
split_last p [] = (p, [])
split_last p (q ∷ ps) = let rest = split_last q ps in (rest.0, p ∷ rest.1)

-- `poll_fds[i] = poll_fds[poll_fds_count - 1]`, and one entry less, where `ps` are those behind `i`.
unfoldable pub last_first : List PollFd → List PollFd
unfolding split_last
last_first [] = []
last_first (p ∷ ps) = let rest = split_last p ps in rest.0 ∷ rest.1

module _ {E : Type 0} (emu : Emulator E) (callbacks : Callbacks E) (read : ℕ → Bytes) where
  -- The body of the loop over `poll_fds` for an entry: `false` where the entry goes.
  unfoldable pub visit : PollFd → Server E → Outcome (Bool × Server E)
  unfolding remove_client read_client_data
  visit p s =
      if p.pollerr || p.pollhup
      then done (false, removing callbacks p.fd s)
      else if p.pollin
      then (read_client_data emu p.fd (read p.fd) s >>= λ r.
          done (if r.0 then r else (false, removing callbacks p.fd r.1)))
      else done (true, s)

  -- The loop over `poll_fds`: the entries before `i`, and those from `i` on. The fuel is their number.
  unfoldable pub scan : ℕ → List PollFd → List PollFd → Server E → Outcome (List PollFd × Server E)
  unfolding visit last_first
  scan fuel before [] s = done (before, s)
  scan zero before (p ∷ ps) s = out_of_fuel
  scan (suc fuel) before (p ∷ ps) s = visit p s >>= λ r.
      let next : List PollFd × List PollFd =
        if r.0 then (before ++ (p ∷ []), ps) else (before, last_first ps) in
      scan fuel next.0 next.1 r.1

-- A new connection, with the socket from `accept`. The entry behind the server's and the others is
-- one of the six of `poll_fds`.
unfoldable pub new_client :
    {E : Type 0} → Callbacks E → ℕ → List PollFd → Server E → Outcome (List PollFd × Server E)
unfolding add_to_clients call
new_client callbacks new_socket poll_fds s = elim (add_to_clients new_socket s.clients) [
  | some cs ↦
      if ltb (1 + length poll_fds) 6
      then done (
        poll_fds
            ++ (record { fd = new_socket; pollin = false; pollerr = false; pollhup = false } ∷ []),
        record { clients = cs; world = call callbacks.add_client new_socket s.world },
      )
      else fault stack_overflow
  | none ↦ done (poll_fds, record s { world = emit (closed new_socket) s.world })
]
