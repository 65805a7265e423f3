-- ===== src/Tests/Table.antt =====
-- The table of clients, and a round of the server.
use emulator_networkaccess.Prelude.{
  ℕ, subst, ap, codes, true, false, none, some, List, [], ◌∷◌, Bytes, length, All, ◌≡◌, ◌++◌, ◌↔◌,
  refl, arith,
}
use mathlib.Core.List.{Perm}
use mathlib.Core.List.Perm
use emulator_networkaccess.World.{
  ◌>>=◌, done, Holds, client_added, client_removed, server_started, after_poll, emit,
}
use emulator_networkaccess.Client.{Client}
use emulator_networkaccess.Clients.{Callbacks, get_client, remove_client, add_to_clients}
use emulator_networkaccess.Clients.Sockets.{
  open_sockets, add_to_clients-open_sockets, add_to_clients_full, remove_client-open_sockets,
}
use emulator_networkaccess.Clients.Valid.{IsSlot, add_to_clients-IsSlot, remove_client-IsSlot}
use emulator_networkaccess.Framing.Valid.{IsValid}
use emulator_networkaccess.Framing.Progress.{Fits}
use emulator_networkaccess.Poll.Reading.{read_client_data-IsSlot}
use emulator_networkaccess.Poll.{read_client_data, PollFd, Server, scan, new_client}
use emulator_networkaccess.Poll.Scan.{sockets, scan-sockets, new_client-sockets}
use emulator_networkaccess.Poll.Visits.{visits, scan-visits}
use emulator_networkaccess.Poll.Entries.{Served, read_client_data-entries}
use emulator_networkaccess.Tests.Fixture.{keeper, idle_world, fresh}

abbrev pub telling : Callbacks Bytes
telling = record {
  add_client = some (λ fd w. emit (client_added fd) w);
  remove_client = some (λ fd w. emit (client_removed fd) w);
  server_started = some (λ port w. emit (server_started port) w);
  after_poll = some (λ w. emit after_poll w);
}

abbrev pub empty_slot : Client
empty_slot = record fresh { socket_fd = 0 }

abbrev one_client : List Client
one_client = fresh ∷ empty_slot ∷ []

abbrev pub two_clients : List Client
two_clients = fresh ∷ record fresh { socket_fd = 8 } ∷ []

abbrev pub entry : ℕ → PollFd
entry fd = record { fd = fd; pollin = true; pollerr = false; pollhup = false }

abbrev pub entries : List PollFd
entries = entry 8 ∷ entry 7 ∷ []

abbrev pub server : Server Bytes
server = record { clients = two_clients; world = idle_world }

abbrev read_nothing : ℕ → Bytes
read_nothing fd = []

one_added : add_to_clients 8 one_client ≡ some two_clients
unfolding add_to_clients
one_added = refl

sevens_slot : get_client 7 two_clients ≡ some (0, fresh)
unfolding get_client
sevens_slot = refl

of_table : Perm (sockets entries) (open_sockets two_clients)
unfolding open_sockets
of_table = Perm.swap 7 8 []

of_slot : Perm (sockets (entry 7 ∷ [])) (open_sockets one_client)
unfolding open_sockets
of_slot = Perm.refl _

scan-sockets_example :
    Holds
      (λ r. Perm (sockets r.0) (open_sockets r.1.clients))
      (scan keeper telling read_nothing 2 [] entries server)
scan-sockets_example =
    scan-sockets keeper telling read_nothing 2 [] entries server (omega arith) of_table

scan-visits_example :
    (qs : List PollFd) × Perm qs entries
    × (scan keeper telling read_nothing 2 (entry 5 ∷ []) entries server
        ≡ (visits keeper telling read_nothing qs server >>= λ k. done (entry 5 ∷ [] ++ k.0, k.1)))
scan-visits_example =
    scan-visits keeper telling read_nothing 2 (entry 5 ∷ []) entries server (omega arith)

read_client_data-entries_example : All (λ p. Served keeper server b'A' (codes "\n") p.fd) entries
read_client_data-entries_example =
    read_client_data-entries keeper server b'A' (codes "\n") entries of_table

new_client-sockets_example :
    (r : List PollFd × Server Bytes) × (new_client telling 9
        (entry 7 ∷ [])
        (record server { clients = one_client })
      ≡ done r)
    × Perm (sockets r.0) (open_sockets r.1.clients)
new_client-sockets_example =
    new_client-sockets telling 9 (entry 7 ∷ []) (record server { clients = one_client })
      (omega arith) (omega arith) of_slot

add_to_clients-open_sockets_example : Perm (open_sockets two_clients) (8 ∷ open_sockets one_client)
add_to_clients-open_sockets_example =
    add_to_clients-open_sockets 8 one_client two_clients (omega arith) one_added

add_to_clients_full_example :
    (add_to_clients 9 two_clients ≡ none) ↔ (length (open_sockets two_clients) ≡ 2)
add_to_clients_full_example = add_to_clients_full 9 two_clients

remove_client-open_sockets_example :
    Perm
      (open_sockets two_clients)
      (7 ∷ open_sockets (remove_client telling 7 two_clients idle_world).0)
remove_client-open_sockets_example =
    remove_client-open_sockets telling 7 two_clients idle_world (omega arith) sevens_slot

unused-IsValid : IsValid fresh
unused-IsValid = record {
  header_short = omega arith;
  command_room = omega arith;
  command_idle = λ _. refl;
  block_valid = refl;
}

one_client-IsSlot : All IsSlot one_client
one_client-IsSlot = ((λ e. refl, λ n. unused-IsValid), ((λ e. refl, λ n. absurd (n refl)), tt))

add_to_clients-IsSlot_example : All IsSlot two_clients
add_to_clients-IsSlot_example =
    add_to_clients-IsSlot 8 one_client two_clients (omega arith) one_client-IsSlot one_added

remove_client-IsSlot_example : All IsSlot (remove_client telling 7 one_client idle_world).0
remove_client-IsSlot_example =
    remove_client-IsSlot telling 7 one_client idle_world one_client-IsSlot

sevens_read-Fits :
    (r : ℕ × Client) → get_client 7 one_client ≡ some r → Fits r.1 (length (codes "GAME_INFO\n"))
unfolding get_client
sevens_read-Fits r h = subst (λ c. Fits c 10) (ap (λ p. p.1) is_r) (λ e. absurd cc)
  where
    is_r : (0, fresh) ≡ r
    is_r = ground arith

read_client_data-IsSlot_example :
    Holds
      (λ r. All IsSlot r.1.clients)
      (read_client_data keeper 7 (codes "GAME_INFO\n") (record server { clients = one_client }))
read_client_data-IsSlot_example =
    read_client_data-IsSlot keeper 7 b'G' (codes "AME_INFO\n")
      (record server { clients = one_client }) (omega arith) one_client-IsSlot sevens_read-Fits
