-- ===== src/MemoryArgument/Free.antt =====
-- Which nodes of a list of arguments are freed.
use emulator_networkaccess.Prelude.{List, [], ◌∷◌, ◌++◌, ◌≡◌, refl, ap}
use emulator_networkaccess.MemoryArgument.{free_loop, free_memory_argument}

free_loop-append {ℓ} : {A : Type ℓ} (mid : List A) (last : A) → free_loop (mid ++ (last ∷ [])) ≡ mid
unfolding free_loop
free_loop-append [] last = refl
free_loop-append (x ∷ []) last = refl
free_loop-append (x ∷ y ∷ mid) last = ap (◌∷◌ x) (free_loop-append (y ∷ mid) last)

-- A list of two nodes or more: the nodes between the first and the last are freed, then the first; the
-- last is not freed.
pub free_memory_argument-leaks :
    {A : Type 0} (first : A) (mid : List A) (last : A)
    → free_memory_argument (first ∷ (mid ++ (last ∷ []))) ≡ mid ++ (first ∷ [])
unfolding free_memory_argument
free_memory_argument-leaks first mid last = ap (λ l. l ++ (first ∷ [])) (free_loop-append mid last)
