-- ===== src/Tests/Listening.antt =====
-- Rounds of the server, from its start to its stop.
use emulator_networkaccess.Prelude.{
  ℕ, true, false, none, some, List, [], ◌∷◌, Bytes, codes, map, ◌==◌, not, ◌||◌, ◌≡◌, refl,
}
use emulator_networkaccess.World.{done, closed, server_started, emit, Holds}
use emulator_networkaccess.Dispatch.Keeps.{Anything, Anything-Keeps}
use emulator_networkaccess.Clients.Sockets.{open_sockets}
use emulator_networkaccess.Poll.{Server}
use emulator_networkaccess.Poll.Kept.{CallbacksKeep}
use emulator_networkaccess.Serve.{
  Host, Loop, Turn, Revents, failed, ready, returned, serving, start_server, round,
  generic_poll_server_start,
}
use emulator_networkaccess.Serve.Binding.{IsListening, start_server-IsListening}
use emulator_networkaccess.Serve.Rounds.{NextMatched, generic_poll_server_start-Matched}
use emulator_networkaccess.Serve.Stopping.{round-stop}
use emulator_networkaccess.Tests.Fixture.{keeper, idle_world, in_block}
use emulator_networkaccess.Tests.Table.{telling, empty_slot, two_clients, server, entries}

-- The first two ports are taken.
abbrev host : Host
host = record {
  socket = some 3;
  setsockopt = true;
  port_range = some (codes "65535");
  bind = λ port. not (port == 65535 || port == 0);
  listen = true;
}

abbrev listening : Loop Bytes
listening = record {
  server_socket = 3;
  poll_fds = [];
  server = record {
    clients = empty_slot ∷ empty_slot ∷ [];
    world = emit (server_started 65537) idle_world;
  };
}

host_listens : start_server telling host server ≡ serving listening
unfolding start_server
host_listens = refl

start_server-IsListening_example : IsListening telling host server listening
start_server-IsListening_example =
    start_server-IsListening telling host server listening host_listens

abbrev events : ℕ → Revents
events fd = record { pollin = true; pollerr = false; pollhup = false }

-- A stop while a block is read.
abbrev stopping : Turn
stopping = record { stop = true; polled = failed false; read = λ fd. [] }

abbrev busy : Loop Bytes
busy = record {
  server_socket = 3;
  poll_fds = entries;
  server = record { clients = record in_block { socket_fd = 7 } ∷ two_clients; world = idle_world };
}

round-stop_example :
    (s : Server Bytes) × (round keeper telling stopping busy ≡ done (returned true s))
    × (open_sockets s.clients ≡ [])
    × (s.world ≡ record idle_world { trace = closed 7 ∷ closed 7 ∷ closed 8 ∷ closed 3 ∷ [] })
    × (map (λ c. c.binary_block) s.clients ≡ some (9 ∷ []) ∷ none ∷ none ∷ [])
unfolding open_sockets
round-stop_example = round-stop keeper telling stopping busy refl

abbrev five_slots : Server Bytes
five_slots = record {
  clients = empty_slot ∷ empty_slot ∷ empty_slot ∷ empty_slot ∷ empty_slot ∷ [];
  world = idle_world;
}

telling-CallbacksKeep : CallbacksKeep Anything telling
telling-CallbacksKeep = record {
  add_client_keeps = λ fd w p. tt;
  server_started_keeps = λ port w p. tt;
  remove_client_keeps = λ fd w p. tt;
  after_poll_keeps = λ fd w p. tt;
}

-- Two clients connect, one sends nothing and is removed, and the server is stopped.
abbrev turns : List Turn
turns =
    record { stop = false; polled = ready (some (some 7)) events; read = λ fd. codes "A\n" }
    ∷ record { stop = false; polled = ready (some (some 8)) events; read = λ fd. [] }
    ∷ stopping
    ∷ []

generic_poll_server_start-Matched_example :
    Holds (NextMatched Anything) (generic_poll_server_start keeper telling host turns five_slots)
generic_poll_server_start-Matched_example =
    generic_poll_server_start-Matched Anything keeper (Anything-Keeps keeper) telling
      telling-CallbacksKeep host turns five_slots (λ e. cc, (λ e. cc, (tt, tt))) (refl, tt)
