-- ===== src/Clients/Valid.antt =====
-- The invariant of the table of clients: a free slot has no block, and the client of a socket is valid.
use emulator_networkaccess.Prelude.{ℕ, none, some, List, [], ◌∷◌, All, ◌≡◌, ◌≢◌, refl, arith}
use native.Mathlib.Decide.{ℕ_discrete}
use emulator_networkaccess.World.{World}
use emulator_networkaccess.Client.{Client}
use emulator_networkaccess.Framing.Valid.{IsValid}
use emulator_networkaccess.Clients.{Callbacks, remove_client, added, add_to_clients}
use emulator_networkaccess.Clients.Sockets.{
  add_to_clients-used, add_to_clients-free, remove_client-here, remove_client-there,
}

abbrev pub IsSlot : Client → Type 0
IsSlot c = (c.socket_fd ≡ 0 → c.binary_block ≡ none) × (c.socket_fd ≢ 0 → IsValid c)

added-IsSlot : (fd : ℕ) (c : Client) → fd ≢ 0 → IsSlot (added fd c)
added-IsSlot fd c n = (
  λ e. absurd (n e),
  λ _. record {
    header_short = omega arith;
    command_room = omega arith;
    command_idle = λ _. refl;
    block_valid = refl;
  },
)

-- A table in which a free slot has no block and a client is valid stays so when a socket is added.
pub add_to_clients-IsSlot :
    (fd : ℕ) (cs cs' : List Client)
    → fd ≢ 0
    → All IsSlot cs
    → add_to_clients fd cs ≡ some cs'
    → All IsSlot cs'
unfolding add_to_clients
add_to_clients-IsSlot fd [] cs' n v h = absurd cc
add_to_clients-IsSlot fd (c ∷ cs) cs' n v h = elim (ℕ_discrete c.socket_fd 0) [
  | yes free ↦ rw (add_to_clients-free fd c cs cs' free h) (added-IsSlot fd c n, v.1)
  | no used ↦
      let (ds, more, is_cs') = add_to_clients-used fd c cs cs' used h in
      rw is_cs' (v.0, add_to_clients-IsSlot fd cs ds n v.1 more)
]

module _ {E : Type 0} (callbacks : Callbacks E) where
  -- A table in which a free slot has no block and a client is valid stays so when a socket is removed.
  pub remove_client-IsSlot :
      (fd : ℕ) (cs : List Client) (w : World E)
      → All IsSlot cs
      → All IsSlot (remove_client callbacks fd cs w).0
  unfolding remove_client
  remove_client-IsSlot fd [] w v = tt
  remove_client-IsSlot fd (c ∷ cs) w v = elim (ℕ_discrete c.socket_fd fd) [
    | yes here ↦
        rw (remove_client-here callbacks fd c cs w here) ((λ _. refl, λ n. absurd (n refl)), v.1)
    | no there ↦
        rw (remove_client-there callbacks fd c cs w there) (v.0, remove_client-IsSlot fd cs w v.1)
  ]
