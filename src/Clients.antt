-- ===== src/Clients.antt =====
-- generic poll server/generic_poll_server.c, the static table `clients` and `callbacks`: which sockets
-- have a client, and what is told to the embedding program. The table is the list of its slots; a slot is
-- free if its `socket_fd` is 0.
pub mod Sockets
pub mod Valid
use emulator_networkaccess.Prelude.{
  ℕ, suc, Bool, true, false, Option, none, some, List, [], ◌∷◌, Bytes, map, ◌==◌, if◌then◌else◌,
}
use mathlib.Core.Option
use emulator_networkaccess.World.{World}
use emulator_networkaccess.Client.{Client, waiting_for_command}

-- `generic_poll_server_callbacks`; `none` is NULL, and what a callback returns is not looked at.
pub record Callbacks (E : Type 0) : Type 0 where
  pub add_client : Option (ℕ → World E → World E)
  pub remove_client : Option (ℕ → World E → World E)
  pub server_started : Option (ℕ → World E → World E)
  pub after_poll : Option (World E → World E)

-- A callback for a socket, if it is not NULL.
unfoldable pub call : {E : Type 0} → Option (ℕ → World E → World E) → ℕ → World E → World E
call none fd w = w
call (some f) fd w = f fd w

-- A pointer to the slot of a socket: its index, and the client there.
unfoldable pub get_client : ℕ → List Client → Option (ℕ × Client)
get_client client_fd [] = none
get_client client_fd (c ∷ cs) =
    let rest = Option.map (λ r. (suc r.0, r.1)) (get_client client_fd cs) in
    if c.socket_fd == client_fd then some (0, c) else rest

abbrev pub removed : Client → Client
removed c = record c { binary_block = none; socket_fd = 0 }

unfoldable pub remove_client :
    {E : Type 0} → Callbacks E → ℕ → List Client → World E → List Client × World E
unfolding call
remove_client callbacks client_fd [] w = ([], w)
remove_client callbacks client_fd (c ∷ cs) w =
    let rest = remove_client callbacks client_fd cs w in
    if c.socket_fd == client_fd
    then (removed c ∷ cs, call callbacks.remove_client client_fd w)
    else (c ∷ rest.0, rest.1)

abbrev pub added : ℕ → Client → Client
added client_fd c = record c {
  socket_fd = client_fd;
  command_data = [];
  state = waiting_for_command;
  binary_block = none;
  binary_header = [];
  shallow_binary_block = false;
}

-- `none` is `false`: no slot is free.
unfoldable pub add_to_clients : ℕ → List Client → Option (List Client)
add_to_clients client_fd [] = none
add_to_clients client_fd (c ∷ cs) =
    let rest = Option.map (◌∷◌ c) (add_to_clients client_fd cs) in
    if c.socket_fd == 0 then some (added client_fd c ∷ cs) else rest
