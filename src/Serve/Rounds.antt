-- ===== src/Serve/Rounds.antt =====
-- What holds at the head of the main loop, in each round.
use emulator_networkaccess.Prelude.{
  ℕ, ◌+◌, suc, Bool, true, false, Option, none, some, List, [], ◌∷◌, All, length, map,
  if◌then◌else◌, ◌≡◌, ◌≢◌, refl, ap, sym, subst, ◌∙◌, arith,
}
use mathlib.Core.List.{Perm}
use mathlib.Core.List.Perm
use mathlib.Core.Option
use emulator_networkaccess.World.{World, Outcome, done, Holds, >>=-Holds, Holds-both}
use emulator_networkaccess.Client.{Client}
use emulator_networkaccess.Dispatch.{Emulator}
use emulator_networkaccess.Dispatch.Keeps.{Keeps}
use emulator_networkaccess.Clients.{Callbacks}
use emulator_networkaccess.Clients.Sockets.{open_sockets}
use emulator_networkaccess.Poll.{PollFd, Server, scan, new_client}
use emulator_networkaccess.Poll.Scan.{sockets, scan-sockets, new_client-sockets}
use emulator_networkaccess.Poll.Kept.{
  Kept, CallbacksKeep, CallKeeps, call-CallKeeps, scan-Kept, new_client-Kept,
}
use emulator_networkaccess.Serve.Stopping.{close_clients-world}
use emulator_networkaccess.Serve.{
  free_slot, listen_on, open_socket, port_range_start, bind_loop, stop_server, Host, Loop, Next,
  serving, returned, Polled, failed, ready, Revents, Turn, mark, start_server, call_after_poll,
  serve_clients, after_ready, after_polled, round, serve, generic_poll_server_start,
}

-- The entries of `poll_fds` are the sockets of the table, the table has its five slots, and the
-- emulator has `P`.
abbrev pub Matched : {E : Type 0} → (E → Type 0) → List PollFd → Server E → Type 0
Matched P ps s = Perm (sockets ps) (open_sockets s.clients) × Kept 5 P s

-- So it is where the loop goes on; where the function returns, only `P` matters.
abbrev pub NextMatched : {E : Type 0} → (E → Type 0) → Next E → Type 0
NextMatched P (serving l) = Matched P l.poll_fds l.server
NextMatched P (returned result s) = P s.world.emulator

-- `accept` does not answer 0, the number of the standard input.
abbrev pub NotZero : Polled → Type 0
NotZero (ready (some (some new_socket)) revents) = new_socket ≢ 0
NotZero _ = Unit

open_sockets-free_slots : (cs : List Client) → open_sockets (map free_slot cs) ≡ []
unfolding open_sockets
open_sockets-free_slots [] = refl
open_sockets-free_slots (c ∷ cs) = open_sockets-free_slots cs

length-free_slots : (cs : List Client) → length (map free_slot cs) ≡ length cs
length-free_slots [] = refl
length-free_slots (c ∷ cs) = ap suc (length-free_slots cs)

sockets-mark :
    (revents : ℕ → Revents) (ps : List PollFd) → sockets (map (mark revents) ps) ≡ sockets ps
sockets-mark revents [] = refl
sockets-mark revents (p ∷ ps) = ap (◌∷◌ p.fd) (sockets-mark revents ps)

module _ {E : Type 0} (P : E → Type 0) (emu : Emulator E) (keeps : Keeps P emu)
    (callbacks : Callbacks E) (keep : CallbacksKeep P callbacks) where
  serve_clients-Matched :
      (t : Turn) (server_socket : ℕ) (ps : List PollFd) (s : Server E)
      → Matched P ps s
      → Holds (NextMatched P) (serve_clients emu callbacks t server_socket ps s)
  unfolding serve_clients
  serve_clients-Matched t server_socket ps s v =
      >>=-Holds (λ r. Matched P r.0 r.1) (NextMatched P)
        (scan emu callbacks t.read (length ps) [] ps s) _
        (Holds-both _ _ _ (scan-sockets emu callbacks t.read (length ps) [] ps s (omega arith) v.0)
          (scan-Kept P emu keeps callbacks keep t.read 5 (length ps) [] ps s v.1))
        (λ r q. q)

  after_ready-Matched :
      (connection : Option (Option ℕ)) (t : Turn) (server_socket : ℕ) (ps : List PollFd)
      (s : Server E)
      → ((k : ℕ) → connection ≡ some (some k) → k ≢ 0)
      → Matched P ps s
      → Holds (NextMatched P) (after_ready emu callbacks connection t server_socket ps s)
  unfolding after_ready
  after_ready-Matched none t server_socket ps s nz v = serve_clients-Matched t server_socket ps s v
  after_ready-Matched (some none) t server_socket ps s nz v = v.1.1
  after_ready-Matched (some (some k)) t server_socket ps s nz v =
      let (r, added, same) =
        new_client-sockets callbacks k ps s (nz k refl) (omega (arith, v.1.0)) v.0 in
      >>=-Holds (λ r. Matched P r.0 r.1) (NextMatched P) (new_client callbacks k ps s) _
        (Holds-both (λ r. Perm (sockets r.0) (open_sockets r.1.clients)) (λ r. Kept 5 P r.1)
          (new_client callbacks k ps s) (rw (added, Holds) same)
          (new_client-Kept P callbacks keep 5 k ps s v.1))
        (λ r q. serve_clients-Matched t server_socket r.0 r.1 q)

  after_polled-Matched :
      (polled : Polled) (t : Turn) (l : Loop E) (s : Server E)
      → NotZero polled
      → Matched P l.poll_fds s
      → Holds (NextMatched P) (after_polled emu callbacks polled t l s)
  unfolding after_polled
  after_polled-Matched (failed interrupted) t l s nz v = v.1.1
  after_polled-Matched (ready connection revents) t l s nz v =
      after_ready-Matched connection t l.server_socket (map (mark revents) l.poll_fds) s
        (λ k e. subst (λ o. NotZero (ready o revents)) e nz)
        (
          subst (λ ps. Perm ps (open_sockets s.clients)) (sym (sockets-mark revents l.poll_fds))
              v.0,
          v.1,
        )

  called_after_poll :
      (o : Option (World E → World E)) (w : World E)
      → CallKeeps P (Option.map (λ f fd w. f w) o)
      → P w.emulator
      → P (call_after_poll o w).emulator
  unfolding call_after_poll
  called_after_poll none w h p = p
  called_after_poll (some f) w h p = h 0 w p

  if-Holds :
      {A : Type 0} (Q : A → Type 0) (b : Bool) (x y : Outcome A)
      → Holds Q x
      → Holds Q y
      → Holds Q (if b then x else y)
  if-Holds Q true x y h k = h
  if-Holds Q false x y h k = k

  -- A round keeps what holds at the head of the main loop.
  round-Matched :
      (t : Turn) (l : Loop E)
      → NotZero t.polled
      → Matched P l.poll_fds l.server
      → Holds (NextMatched P) (round emu callbacks t l)
  unfolding round stop_server
  round-Matched t l nz v =
      if-Holds (NextMatched P) t.stop _ _
        (subst (λ w. P w.emulator) (sym (close_clients-world l.server.clients l.server.world))
          v.1.1)
        (after_polled-Matched t.polled t l
          (record l.server { world = call_after_poll callbacks.after_poll l.server.world }) nz
          (
            v.0,
            (
              v.1.0,
              called_after_poll callbacks.after_poll l.server.world keep.after_poll_keeps v.1.1,
            ),
          ))

  serve-Matched :
      (ts : List Turn) (l : Loop E)
      → All (λ t. NotZero t.polled) ts
      → Matched P l.poll_fds l.server
      → Holds (NextMatched P) (serve emu callbacks ts l)
  unfolding serve
  serve-Matched [] l nz v = v
  serve-Matched (t ∷ ts) l nz v =
      >>=-Holds (NextMatched P) (NextMatched P) (round emu callbacks t l) _
        (round-Matched t l nz.0 v) (go (λ l v. serve-Matched ts l nz.1 v))
    where
      go :
          ((l : Loop E)
            → Matched P l.poll_fds l.server
            → Holds (NextMatched P) (serve emu callbacks ts l))
          → (x : Next E) → NextMatched P x
          → Holds (NextMatched P) (elim x [
            | serving l' ↦ serve emu callbacks ts l'
            | returned result s ↦ done (returned result s)
          ])
      go ih (serving l') p = ih l' p
      go ih (returned result s) p = p

  if-NextMatched :
      (b : Bool) (x y : Next E)
      → NextMatched P x
      → NextMatched P y
      → NextMatched P (if b then x else y)
  if-NextMatched true x y h k = h
  if-NextMatched false x y h k = k

  listen_on-Matched :
      (host : Host) (start server_socket : ℕ) (o : Option ℕ) (s : Server E)
      → Matched P [] s
      → NextMatched P (listen_on callbacks host start server_socket o s)
  unfolding listen_on
  listen_on-Matched host start server_socket none s v = v.1.1
  listen_on-Matched host start server_socket (some cpt) s v =
      if-NextMatched host.listen _ _
        (
          v.0,
          (
            v.1.0,
            call-CallKeeps P callbacks.server_started (start + cpt) s.world
                keep.server_started_keeps v.1.1,
          ),
        )
        v.1.1

  open_socket-Matched :
      (host : Host) (o : Option ℕ) (s : Server E)
      → Matched P [] s
      → NextMatched P (open_socket callbacks host o s)
  unfolding open_socket
  open_socket-Matched host none s v = v.1.1
  open_socket-Matched host (some server_socket) s v =
      let start = port_range_start host.port_range in
      if-NextMatched host.setsockopt _ _
        (listen_on-Matched host start server_socket (bind_loop host.bind start 4 0) s v) v.1.1

  start_server-Matched :
      (host : Host) (s : Server E) → Kept 5 P s → NextMatched P (start_server callbacks host s)
  unfolding start_server
  start_server-Matched host s v =
      open_socket-Matched host host.socket (record s { clients = map free_slot s.clients })
        (
          subst (Perm []) (sym (open_sockets-free_slots s.clients)) (Perm.refl []),
          (length-free_slots s.clients ∙ v.0, v.1),
        )

  -- However the operating system answers, the rounds of generic_poll_server_start keep the entries
  -- of poll_fds the sockets of the table of clients, the table at its five slots, and what all that
  -- the server calls keeps, if accept does not answer 0 and no round is a fault or an endless loop.
  pub generic_poll_server_start-Matched :
      (host : Host) (ts : List Turn) (s : Server E)
      → All (λ t. NotZero t.polled) ts
      → Kept 5 P s
      → Holds (NextMatched P) (generic_poll_server_start emu callbacks host ts s)
  unfolding generic_poll_server_start
  generic_poll_server_start-Matched host ts s nz v =
      go (start_server callbacks host s) (start_server-Matched host s v)
    where
      go :
          (x : Next E)
          → NextMatched P x
          → Holds (NextMatched P) (elim x [
            | serving l' ↦ serve emu callbacks ts l'
            | returned result s ↦ done (returned result s)
          ])
      go (serving l') p = serve-Matched ts l' nz p
      go (returned result s) p = p
