-- ===== src/Serve.antt =====
-- generic poll server/generic_poll_server.c, `generic_poll_server_start` and
-- `generic_poll_server_add_callback`. What the operating system answers is an argument: a `Host` for the
-- calls before the loop, and a `Turn` for those of each round.
pub mod Binding
pub mod Rounds
pub mod Stopping
use emulator_networkaccess.Prelude.{
  ℕ, zero, suc, ◌+◌, ◌%◌, ◌^◌, Bool, true, false, Option, none, some, List, [], ◌∷◌, Bytes, map,
  length, ◌==◌, if◌then◌else◌,
}
use emulator_networkaccess.Protocol.{starting_port}
use emulator_networkaccess.World.{Outcome, done, World, closed, emit, ◌>>=◌}
use emulator_networkaccess.Client.{Client}
use emulator_networkaccess.Dispatch.{Emulator}
use emulator_networkaccess.Offset.{atoll}
use emulator_networkaccess.Clients.{Callbacks, call}
use emulator_networkaccess.Poll.{PollFd, Server, scan, new_client}

-- `generic_poll_server_callback`
pub data CallbackKind : Type 0 where
  new_client_kind removed_client_kind server_started_kind after_poll_kind : CallbackKind

-- The type that `fntptr` is cast to.
abbrev pub Function : Type 0 → CallbackKind → Type 0
Function E after_poll_kind = Option (World E → World E)
Function E _ = Option (ℕ → World E → World E)

unfoldable pub add_callback :
    {E : Type 0} (kind : CallbackKind) → Function E kind → Callbacks E → Callbacks E
add_callback server_started_kind f callbacks = record callbacks { server_started = f }
add_callback new_client_kind f callbacks = record callbacks { add_client = f }
add_callback removed_client_kind f callbacks = record callbacks { remove_client = f }
add_callback after_poll_kind f callbacks = record callbacks { after_poll = f }

-- The answers to `socket`, `setsockopt`, `getenv("NWA_PORT_RANGE")`, `bind` by the port, and `listen`.
pub record Host : Type 0 where
  pub socket : Option ℕ
  pub setsockopt : Bool
  pub port_range : Option Bytes
  pub bind : ℕ → Bool
  pub listen : Bool

-- `port_range_start`; `atoi` is converted to an `unsigned short`.
unfoldable pub port_range_start : Option Bytes → ℕ
unfolding atoll
port_range_start none = starting_port
port_range_start (some buffer) =
    let env_port = atoll buffer % 2 ^ 16 in if env_port == 0 then starting_port else env_port

-- The calls of `bind`, `rounds` more after the next one: the value of `cpt` where one succeeds.
unfoldable pub bind_loop : (ℕ → Bool) → ℕ → ℕ → ℕ → Option ℕ
bind_loop bind start zero cpt = if bind ((start + cpt) % 2 ^ 16) then some cpt else none
bind_loop bind start (suc rounds) cpt =
    let rest = bind_loop bind start rounds (cpt + 1) in
    if bind ((start + cpt) % 2 ^ 16) then some cpt else rest

-- The variables of the main loop; `poll_fds` without the server's socket.
pub record Loop (E : Type 0) : Type 0 where
  pub server_socket : ℕ
  pub poll_fds : List PollFd
  pub server : Server E

-- What the function returns, with the server that it leaves, or that it goes on.
pub data Next (E : Type 0) : Type 0 where
  serving : Loop E → Next E
  returned : Bool → Server E → Next E

abbrev pub free_slot : Client → Client
free_slot c = record c { socket_fd = 0 }

-- `listen`, and the callback, where the calls of `bind` have ended.
unfoldable pub listen_on : {E : Type 0} → Callbacks E → Host → ℕ → ℕ → Option ℕ → Server E → Next E
unfolding call
listen_on callbacks host start server_socket none s = returned false s
listen_on callbacks host start server_socket (some cpt) s =
    if host.listen
    then serving (record {
      server_socket = server_socket;
      poll_fds = [];
      server = record s { world = call callbacks.server_started (start + cpt) s.world };
    })
    else returned false s

-- The calls for the socket that `socket` has made.
unfoldable pub open_socket : {E : Type 0} → Callbacks E → Host → Option ℕ → Server E → Next E
unfolding port_range_start bind_loop listen_on
open_socket callbacks host none s = returned false s
open_socket callbacks host (some server_socket) s =
    let start = port_range_start host.port_range in
    if host.setsockopt
    then listen_on callbacks host start server_socket (bind_loop host.bind start 4 0) s
    else returned false s

-- The part of `generic_poll_server_start` before the loop.
unfoldable pub start_server : {E : Type 0} → Callbacks E → Host → Server E → Next E
unfolding open_socket
start_server callbacks host s =
    open_socket callbacks host host.socket (record s { clients = map free_slot s.clients })

-- What `poll` reports for a socket.
pub record Revents : Type 0 where
  pub pollin : Bool
  pub pollerr : Bool
  pub pollhup : Bool

-- The result of `poll`: an error, by an interrupt (EINTR) or another; or the events of the sockets, and
-- where the server's socket has one, what `accept` answers.
pub data Polled : Type 0 where
  failed : Bool → Polled
  ready : Option (Option ℕ) → (ℕ → Revents) → Polled

-- A round: whether `generic_poll_server_stop` is set, the result of `poll`, and what `read` delivers.
pub record Turn : Type 0 where
  pub stop : Bool
  pub polled : Polled
  pub read : ℕ → Bytes

-- Every client's socket is closed, and its slot freed.
unfoldable pub close_clients : {E : Type 0} → List Client → World E → List Client × World E
close_clients [] w = ([], w)
close_clients (c ∷ cs) w =
    let rest = close_clients cs (if c.socket_fd == 0 then w else emit (closed c.socket_fd) w) in
    ((if c.socket_fd == 0 then c else free_slot c) ∷ rest.0, rest.1)

unfoldable pub stop_server : {E : Type 0} → Loop E → Server E
unfolding close_clients
stop_server l =
    let r = close_clients l.server.clients l.server.world in
    record { clients = r.0; world = emit (closed l.server_socket) r.1 }

-- The events that `poll` has put into an entry.
abbrev pub mark : (ℕ → Revents) → PollFd → PollFd
mark revents p = record {
  fd = p.fd;
  pollin = (revents p.fd).pollin;
  pollerr = (revents p.fd).pollerr;
  pollhup = (revents p.fd).pollhup;
}

unfoldable pub call_after_poll : {E : Type 0} → Option (World E → World E) → World E → World E
call_after_poll none w = w
call_after_poll (some f) w = f w

module _ {E : Type 0} (emu : Emulator E) (callbacks : Callbacks E) where
  -- The loop over the clients' entries, and the way back to the head of the main loop.
  unfoldable pub serve_clients : Turn → ℕ → List PollFd → Server E → Outcome (Next E)
  unfolding scan
  serve_clients t server_socket poll_fds s =
      scan emu callbacks t.read (length poll_fds) [] poll_fds s >>= λ r.
      done (serving (record { server_socket = server_socket; poll_fds = r.0; server = r.1 }))

  unfoldable pub after_ready :
      Option (Option ℕ) → Turn → ℕ → List PollFd → Server E → Outcome (Next E)
  unfolding serve_clients new_client
  after_ready none t server_socket poll_fds s = serve_clients t server_socket poll_fds s
  after_ready (some none) t server_socket poll_fds s = done (returned false s)
  after_ready (some (some new_socket)) t server_socket poll_fds s =
      new_client callbacks new_socket poll_fds s >>= λ r. serve_clients t server_socket r.0 r.1

  unfoldable pub after_polled : Polled → Turn → Loop E → Server E → Outcome (Next E)
  unfolding after_ready
  after_polled (failed interrupted) t l s = done (returned interrupted s)
  after_polled (ready connection revents) t l s =
      after_ready connection t l.server_socket (map (mark revents) l.poll_fds) s

  -- The body of the main loop.
  unfoldable pub round : Turn → Loop E → Outcome (Next E)
  unfolding stop_server call_after_poll after_polled
  round t l =
      let s = record l.server { world = call_after_poll callbacks.after_poll l.server.world } in
      if t.stop then done (returned true (stop_server l)) else after_polled t.polled t l s

  -- The main loop.
  unfoldable pub serve : List Turn → Loop E → Outcome (Next E)
  unfolding round
  serve [] l = done (serving l)
  serve (t ∷ ts) l = round t l >>= λ next. elim next [
    | serving l' ↦ serve ts l'
    | returned result s ↦ done (returned result s)
  ]

  -- `generic_poll_server_start`, over the rounds that `ts` gives.
  unfoldable pub generic_poll_server_start : Host → List Turn → Server E → Outcome (Next E)
  unfolding start_server serve
  generic_poll_server_start host ts s = elim (start_server callbacks host s) [
    | serving l ↦ serve ts l
    | returned result s' ↦ done (returned result s')
  ]
