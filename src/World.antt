-- ===== src/World.antt =====
-- What the C code acts on: the sockets, as a trace of what is written and closed, the state of the
-- emulator behind the command functions, and the ways in which a run can go wrong.
use emulator_networkaccess.Prelude.{ℕ, ◌≡◌, refl, List, [], ◌∷◌, ◌++◌, Bytes}

-- An operation that C leaves undefined, by its kind.
pub data Fault : Type 0 where
  heap_overflow stack_overflow static_overflow : Fault
  null_pointer uninitialized_read out_of_bounds_read : Fault

-- `out_of_fuel` is the result of a loop that used up the rounds that it was given.
pub data Outcome {ℓ} (A : Type ℓ) : Type ℓ where
  done : A → Outcome A
  fault : Fault → Outcome A
  out_of_fuel : Outcome A

infixl 5 ◌>>=◌
abbrev pub ◌>>=◌ {ℓ κ} : {A : Type ℓ} {B : Type κ} → Outcome A → (A → Outcome B) → Outcome B
done a >>= f = f a
fault e >>= f = fault e
out_of_fuel >>= f = out_of_fuel

pub >>=_congr {ℓ κ} :
    {A : Type ℓ} {B : Type κ} (m : Outcome A) (f g : A → Outcome B)
    → ((a : A) → f a ≡ g a)
    → (m >>= f) ≡ (m >>= g)
>>=_congr (done a) f g h = h a
>>=_congr (fault e) f g h = refl
>>=_congr out_of_fuel f g h = refl

pub >>=_assoc {ℓ κ μ} :
    {A : Type ℓ} {B : Type κ} {C : Type μ} (m : Outcome A) (f : A → Outcome B) (g : B → Outcome C)
    → (m >>= f >>= g) ≡ (m >>= λ a. f a >>= g)
>>=_assoc (done a) f g = refl
>>=_assoc (fault e) f g = refl
>>=_assoc out_of_fuel f g = refl

-- What holds of a result, if there is one.
abbrev pub Holds {ℓ κ} : {A : Type ℓ} → (A → Type κ) → Outcome A → Type κ
Holds P (done a) = P a
Holds P (fault e) = Unit
Holds P out_of_fuel = Unit

pub >>=-Holds {ℓ κ μ ν} :
    {A : Type ℓ} {B : Type κ} (P : A → Type μ) (Q : B → Type ν) (m : Outcome A) (f : A → Outcome B)
    → Holds P m
    → ((a : A) → P a → Holds Q (f a))
    → Holds Q (m >>= f)
>>=-Holds P Q (done a) f p h = h a p
>>=-Holds P Q (fault e) f p h = tt
>>=-Holds P Q out_of_fuel f p h = tt

pub Holds-both {ℓ κ μ} :
    {A : Type ℓ} (P : A → Type κ) (Q : A → Type μ) (m : Outcome A)
    → Holds P m
    → Holds Q m
    → Holds (λ a. P a × Q a) m
Holds-both P Q (done a) p q = (p, q)
Holds-both P Q (fault e) p q = tt
Holds-both P Q out_of_fuel p q = tt

pub Holds-any {ℓ} : {A : Type ℓ} (m : Outcome A) → Holds (λ _. Unit {0}) m
Holds-any (done a) = tt
Holds-any (fault e) = tt
Holds-any out_of_fuel = tt

pub >>=-Holds_any {ℓ κ μ} :
    {A : Type ℓ} {B : Type κ} (Q : B → Type μ) (m : Outcome A) (f : A → Outcome B)
    → ((a : A) → Holds Q (f a))
    → Holds Q (m >>= f)
>>=-Holds_any Q (done a) f h = h a
>>=-Holds_any Q (fault e) f h = tt
>>=-Holds_any Q out_of_fuel f h = tt

-- A call of `write`, with all of its bytes, or of `close`, or what a callback of the embedding program
-- records of its call.
pub data Event : Type 0 where
  sent : ℕ → Bytes → Event
  closed : ℕ → Event
  client_added client_removed : ℕ → Event
  server_started : ℕ → Event
  after_poll : Event

pub record World (E : Type 0) : Type 0 where
  pub emulator : E
  pub trace : List Event

abbrev pub emit : {E : Type 0} → Event → World E → World E
emit e w = record w { trace = w.trace ++ (e ∷ []) }

-- `write(fd, bytes, n)`: the code does not look at its result, so the bytes are recorded whole.
abbrev pub write : {E : Type 0} → ℕ → Bytes → World E → World E
write fd bytes w = emit (sent fd bytes) w
