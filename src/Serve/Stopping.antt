-- ===== src/Serve/Stopping.antt =====
-- What the server does when it is stopped.
use emulator_networkaccess.Prelude.{
  ℕ, true, List, [], ◌∷◌, ◌++◌, map, ◌==◌, if◌then◌else◌, append_assoc, append-nil, ◌≡◌, refl, ap,
  sym, ◌∙◌, arith,
}
use mathlib.Core.List.{map-append}
use native.Mathlib.Decide.{ℕ_discrete}
use emulator_networkaccess.World.{World, closed, emit, done}
use emulator_networkaccess.Client.{Client}
use emulator_networkaccess.Dispatch.{Emulator}
use emulator_networkaccess.Clients.{Callbacks}
use emulator_networkaccess.Clients.Sockets.{open_sockets}
use emulator_networkaccess.Poll.{Server}
use emulator_networkaccess.Serve.{Loop, returned, Turn, close_clients, stop_server, round}

-- The world after sockets were closed.
abbrev pub after_closing : {E : Type 0} → List ℕ → World E → World E
after_closing fds w = record w { trace = w.trace ++ map closed fds }

pub close_clients-world :
    {E : Type 0} (cs : List Client) (w : World E)
    → (close_clients cs w).1 ≡ after_closing (open_sockets cs) w
unfolding close_clients open_sockets
close_clients-world [] w = ap (λ t. record w { trace = t }) (sym (append-nil w.trace))
close_clients-world (c ∷ cs) w = elim (ℕ_discrete c.socket_fd 0) [
  | yes free ↦ ground (arith, close_clients-world cs w)
  | no used ↦ ground (
    arith,
    close_clients-world cs (emit (closed c.socket_fd) w),
    append_assoc w.trace (closed c.socket_fd ∷ []) (map closed (open_sockets cs)),
  )
]

close_clients-open_sockets :
    {E : Type 0} (cs : List Client) (w : World E) → open_sockets (close_clients cs w).0 ≡ []
unfolding close_clients open_sockets
close_clients-open_sockets [] w = refl
close_clients-open_sockets (c ∷ cs) w = ground (
  arith,
  close_clients-open_sockets cs (if c.socket_fd == 0 then w else emit (closed c.socket_fd) w),
)

close_clients-blocks :
    {E : Type 0} (cs : List Client) (w : World E)
    → map (λ c. c.binary_block) (close_clients cs w).0 ≡ map (λ c. c.binary_block) cs
unfolding close_clients
close_clients-blocks [] w = refl
close_clients-blocks (c ∷ cs) w =
    ground
      (arith, close_clients-blocks cs (if c.socket_fd == 0 then w else emit (closed c.socket_fd) w))

-- Where the server is told to stop, the function returns true with no client left; the sockets of
-- the clients are closed in the order of the table, each once, and then the server's; nothing else
-- is called, and a client's block is not freed.
pub round-stop :
    {E : Type 0} (emu : Emulator E) (callbacks : Callbacks E) (t : Turn) (l : Loop E)
    → t.stop ≡ true
    → (s : Server E) × (round emu callbacks t l ≡ done (returned true s))
      × (open_sockets s.clients ≡ [])
      × (s.world
          ≡ after_closing (open_sockets l.server.clients ++ (l.server_socket ∷ [])) l.server.world)
      × (map (λ c. c.binary_block) s.clients ≡ map (λ c. c.binary_block) l.server.clients)
unfolding round stop_server
round-stop emu callbacks t l e = (
  stop_server l,
  ground arith,
  close_clients-open_sockets l.server.clients l.server.world,
  ap (emit (closed l.server_socket)) (close_clients-world l.server.clients l.server.world)
      ∙ ap (λ u. record l.server.world { trace = u })
          (append_assoc l.server.world.trace (map closed (open_sockets l.server.clients))
              (closed l.server_socket ∷ [])
            ∙ ap (λ u. l.server.world.trace ++ u)
                (sym (map-append closed (open_sockets l.server.clients) (l.server_socket ∷ [])))),
  close_clients-blocks l.server.clients l.server.world,
)
