-- ===== src/Clients/Sockets.antt =====
-- The table of clients as a set of open sockets.
use emulator_networkaccess.Prelude.{
  ℕ, none, some, List, [], ◌∷◌, length, ◌==◌, if◌then◌else◌, Option-cases, ◌≡◌, ◌≢◌, ◌≤◌, suc, ◌↔◌,
  inl, inr, refl, sym, ◌∙◌, arith,
}
use mathlib.Core.List.{Perm}
use mathlib.Core.List.Perm
use native.Mathlib.Decide.{ℕ_discrete}
use emulator_networkaccess.World.{World}
use emulator_networkaccess.Client.{Client}
use emulator_networkaccess.Clients.{
  Callbacks, get_client, removed, remove_client, added, add_to_clients,
}

-- The sockets of the table, in the order of the slots.
unfoldable pub open_sockets : List Client → List ℕ
open_sockets [] = []
open_sockets (c ∷ cs) =
    let rest = open_sockets cs in if c.socket_fd == 0 then rest else c.socket_fd ∷ rest

pub open_sockets-free :
    (c : Client) (cs : List Client) → c.socket_fd ≡ 0 → open_sockets (c ∷ cs) ≡ open_sockets cs
unfolding open_sockets
open_sockets-free c cs e = ground arith

pub open_sockets-used :
    (c : Client) (cs : List Client)
    → c.socket_fd ≢ 0
    → open_sockets (c ∷ cs) ≡ c.socket_fd ∷ open_sockets cs
unfolding open_sockets
open_sockets-used c cs e = ground arith

pub add_to_clients-used :
    (fd : ℕ) (c : Client) (cs cs' : List Client)
    → c.socket_fd ≢ 0
    → add_to_clients fd (c ∷ cs) ≡ some cs'
    → (ds : List Client) × (add_to_clients fd cs ≡ some ds) × (cs' ≡ c ∷ ds)
unfolding add_to_clients
add_to_clients-used fd c cs cs' u h = elim (Option-cases (add_to_clients fd cs)) [
  | inl full ↦ absurd (ground arith)
  | inr (ds, there) ↦ (ds, there, ground arith)
]

pub add_to_clients-free :
    (fd : ℕ) (c : Client) (cs cs' : List Client)
    → c.socket_fd ≡ 0
    → add_to_clients fd (c ∷ cs) ≡ some cs'
    → cs' ≡ added fd c ∷ cs
unfolding add_to_clients
add_to_clients-free fd c cs cs' f h = ground arith

-- A socket that is added joins the open sockets, and none leaves them.
pub add_to_clients-open_sockets :
    (fd : ℕ) (cs cs' : List Client)
    → fd ≢ 0
    → add_to_clients fd cs ≡ some cs'
    → Perm (open_sockets cs') (fd ∷ open_sockets cs)
unfolding add_to_clients
add_to_clients-open_sockets fd [] cs' n h = absurd cc
add_to_clients-open_sockets fd (c ∷ cs) cs' n h = elim (ℕ_discrete c.socket_fd 0) [
  | yes free ↦
      rw
        (
          add_to_clients-free fd c cs cs' free h,
          open_sockets-used (added fd c) cs n,
          open_sockets-free c cs free,
        )
        (Perm.refl _)
  | no used ↦
      let (ds, more, is_cs') = add_to_clients-used fd c cs cs' used h in
      rw (is_cs', open_sockets-used c ds used, open_sockets-used c cs used)
        (Perm.trans (Perm.cons c.socket_fd (add_to_clients-open_sockets fd cs ds n more))
          (Perm.swap _ _ _))
]

pub open_sockets-length : (cs : List Client) → length (open_sockets cs) ≤ length cs
unfolding open_sockets
open_sockets-length [] = omega arith
open_sockets-length (c ∷ cs) = ground (arith, open_sockets-length cs)

-- A socket is refused exactly where each slot has one.
pub add_to_clients_full :
    (fd : ℕ) (cs : List Client)
    → (add_to_clients fd cs ≡ none) ↔ (length (open_sockets cs) ≡ length cs)
unfolding add_to_clients open_sockets
add_to_clients_full fd [] = (λ h. refl, λ h. refl)
add_to_clients_full fd (c ∷ cs) = elim (ℕ_discrete c.socket_fd 0) [
  | yes free ↦ ground (arith, open_sockets-length cs)
  | no used ↦ ground (arith, add_to_clients_full fd cs)
]

pub get_client-there :
    (fd : ℕ) (c : Client) (cs : List Client) {i : ℕ × Client}
    → c.socket_fd ≢ fd
    → get_client fd (c ∷ cs) ≡ some i
    → (j : ℕ × Client) × (get_client fd cs ≡ some j) × (i ≡ (suc j.0, j.1))
unfolding get_client
get_client-there fd c cs n h = elim (Option-cases (get_client fd cs)) [
  | inl missing ↦ absurd (ground arith)
  | inr (j, found) ↦ (j, found, ground arith)
]

module _ {E : Type 0} (callbacks : Callbacks E) where
  pub remove_client-here :
      (fd : ℕ) (c : Client) (cs : List Client) (w : World E)
      → c.socket_fd ≡ fd
      → (remove_client callbacks fd (c ∷ cs) w).0 ≡ removed c ∷ cs
  unfolding remove_client
  remove_client-here fd c cs w e = ground arith

  pub remove_client-there :
      (fd : ℕ) (c : Client) (cs : List Client) (w : World E)
      → c.socket_fd ≢ fd
      → (remove_client callbacks fd (c ∷ cs) w).0 ≡ c ∷ (remove_client callbacks fd cs w).0
  unfolding remove_client
  remove_client-there fd c cs w n = ground arith

  -- A socket that has a client and is removed leaves the open sockets, and no other does.
  pub remove_client-open_sockets :
      (fd : ℕ) (cs : List Client) (w : World E) {i : ℕ × Client}
      → fd ≢ 0
      → get_client fd cs ≡ some i
      → Perm (open_sockets cs) (fd ∷ open_sockets (remove_client callbacks fd cs w).0)
  unfolding get_client
  remove_client-open_sockets fd [] w n h = absurd cc
  remove_client-open_sockets fd (c ∷ cs) w n h = elim (ℕ_discrete c.socket_fd fd) [
    | yes here ↦
        rw
          (
            remove_client-here fd c cs w here,
            open_sockets-used c cs (λ z. n (sym here ∙ z)),
            open_sockets-free (removed c) cs refl,
            here,
          )
          (Perm.refl _)
    | no there ↦
        let (j, found, _) = get_client-there fd c cs there h in
        let rest = remove_client-open_sockets fd cs w n found in
        rw (remove_client-there fd c cs w there) (elim (ℕ_discrete c.socket_fd 0) [
          | yes free ↦
              rw
                (
                  open_sockets-free c cs free,
                  open_sockets-free c (remove_client callbacks fd cs w).0 free,
                )
                rest
          | no used ↦
              rw
                (
                  open_sockets-used c cs used,
                  open_sockets-used c (remove_client callbacks fd cs w).0 used,
                )
                (Perm.trans (Perm.cons c.socket_fd rest) (Perm.swap _ _ _))
        ])
  ]
