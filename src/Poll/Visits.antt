-- ===== src/Poll/Visits.antt =====
-- generic poll server/generic_poll_server.c, the loop over `poll_fds`, as visits of single entries.
use emulator_networkaccess.Prelude.{
  ℕ, zero, suc, ◌≤◌, true, false, List, [], ◌∷◌, ◌++◌, Bytes, length, if◌then◌else◌, append_assoc,
  append-nil, ◌≡◌, ◌⊎◌, inl, inr, refl, ap, sym, ◌∙◌, arith,
}
use mathlib.Core.List.{Perm}
use mathlib.Core.List.Perm
use emulator_networkaccess.World.{
  Outcome, Fault, done, fault, out_of_fuel, ◌>>=◌, >>=_congr, >>=_assoc,
}
use emulator_networkaccess.Dispatch.{Emulator}
use emulator_networkaccess.Clients.{Callbacks}
use emulator_networkaccess.Poll.{PollFd, Server, visit, last_first, scan}
use emulator_networkaccess.Poll.Scan.{last_first-Perm, last_first-length}

-- Visits of the entries one by one, and of those that stay.
abbrev pub visits :
    {E : Type 0}
    → Emulator E
    → Callbacks E
    → (ℕ → Bytes)
    → List PollFd
    → Server E
    → Outcome (List PollFd × Server E)
visits emu callbacks read [] s = done ([], s)
visits emu callbacks read (p ∷ ps) s = visit emu callbacks read p s >>= λ r.
    visits emu callbacks read ps r.1 >>= λ k. done (if r.0 then p ∷ k.0 else k.0, k.1)

Outcome-cases {ℓ} :
    {A : Type ℓ} (m : Outcome A)
    → ((a : A) × (m ≡ done a)) ⊎ ((e : Fault) × (m ≡ fault e)) ⊎ (m ≡ out_of_fuel)
Outcome-cases (done a) = inl (a, refl)
Outcome-cases (fault e) = inr (inl (e, refl))
Outcome-cases out_of_fuel = inr (inr refl)

-- The entries, with others before them.
abbrev after_entries :
    {E : Type 0} → List PollFd → List PollFd × Server E → Outcome (List PollFd × Server E)
after_entries before k = done (before ++ k.0, k.1)

kept_first :
    {E : Type 0} (before : List PollFd) (p : PollFd) (m : Outcome (List PollFd × Server E))
    → (m >>= after_entries (before ++ (p ∷ [])))
      ≡ (m >>= after_entries (p ∷ []) >>= after_entries before)
kept_first before p m =
    >>=_congr m (after_entries (before ++ (p ∷ []))) (λ k. after_entries before (p ∷ k.0, k.1))
      (λ k. ap (λ l. done (l, k.1)) (append_assoc before (p ∷ []) k.0))
    ∙ sym (>>=_assoc m (after_entries (p ∷ [])) (after_entries before))

module _ {E : Type 0} (emu : Emulator E) (callbacks : Callbacks E) (read : ℕ → Bytes) where
  -- With as much fuel as there are entries, the loop over `poll_fds` visits each entry from `i` on once,
  -- in some order, and comes to what these visits come to: the entries before `i` and those that stay.
  pub scan-visits :
      (fuel : ℕ) (before ps : List PollFd) (s : Server E)
      → length ps ≤ fuel
      → (qs : List PollFd) × Perm qs ps
        × (scan emu callbacks read fuel before ps s
            ≡ (visits emu callbacks read qs s >>= λ k. done (before ++ k.0, k.1)))
  unfolding scan
  scan-visits fuel before [] s n =
      ([], Perm.refl [], ap (λ l. done (l, s)) (sym (append-nil before)))
  scan-visits zero before (p ∷ ps) s n = absurd (omega arith)
  scan-visits (suc fuel) before (p ∷ ps) s n = elim (Outcome-cases (visit emu callbacks read p s)) [
    | inl ((true, t), visited) ↦
        let (qs, perm, same) = scan-visits fuel (before ++ (p ∷ [])) ps t (omega arith) in
        (
          p ∷ qs,
          Perm.cons p perm,
          rw (visited) (same ∙ kept_first before p (visits emu callbacks read qs t)),
        )
    | inl ((false, t), visited) ↦
        let (qs, perm, same) =
          scan-visits fuel before (last_first ps) t (omega (arith, last_first-length ps)) in
        (
          p ∷ qs,
          Perm.cons p (Perm.trans perm (last_first-Perm ps)),
          rw (visited) (
              same
              ∙ sym (
                  >>=_assoc (visits emu callbacks read qs t) (after_entries [])
                    (after_entries before))),
        )
    | inr (inl (e, wrong)) ↦ (p ∷ ps, Perm.refl _, rw (wrong) refl)
    | inr (inr stuck) ↦ (p ∷ ps, Perm.refl _, rw (stuck) refl)
  ]
