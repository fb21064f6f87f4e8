-- ===== src/Base/Fallible.antt =====
-- What running a piece of the C++ code comes to: a value, or a fault that ends the process.
use mathlib.Core.Bool.{Bool, true, false}
use mathlib.Core.Option.{Option, none, some}
use lazy_team.Base.Tests.{if◌then◌else◌}

-- `out_of_range`: a `std::string` method throws, and nothing catches it. `null_pointer`: a null
-- pointer is followed, or the end of an empty container is read. `failed_assert`: an `assert` does
-- not hold. `out_of_fuel`: the model's loop ran out of rounds.
pub data Fault : Type 0 where
  out_of_range null_pointer failed_assert out_of_fuel : Fault

pub data Outcome {ℓ} (A : Type ℓ) : Type ℓ where
  ok : A → Outcome A
  fault : Fault → Outcome A

-- What comes behind a fault is not run.
infixl 5 ◌>>=◌
abbrev pub ◌>>=◌ {ℓ ℓ'} : {X : Type ℓ} {Y : Type ℓ'} → Outcome X → (X → Outcome Y) → Outcome Y
fault reason >>= next = fault reason
ok value >>= next = next value

-- A statement with no value, and what follows it.
infixl 5 ◌>>◌
abbrev pub ◌>>◌ {ℓ} : {Y : Type ℓ} → Outcome (Unit {0}) → Outcome Y → Outcome Y
first >> behind = first >>= λ done. behind

abbrev pub assert : Bool → Outcome (Unit {0})
assert false = fault failed_assert
assert true = ok tt

-- `*p` and `p->…`
abbrev pub deref {ℓ} : {A : Type ℓ} → Option A → Outcome A
deref none = fault null_pointer
deref (some a) = ok a

-- A fault, if there is one, is not that the rounds ran out.
abbrev pub IsReal : Fault → Type 0
IsReal out_of_fuel = ⊥
IsReal _ = Unit

abbrev pub Ends {ℓ} : {A : Type ℓ} → Outcome A → Type 0
Ends (ok a) = Unit
Ends (fault e) = IsReal e

-- An outcome is a value with the property, or such a fault.
abbrev pub Ensures {ℓ} : {A : Type ℓ} → (A → Type 0) → Outcome A → Type 0
Ensures P (ok a) = P a
Ensures P (fault e) = IsReal e

pub deref-Ends : {A : Type 0} (o : Option A) → Ends (deref o)
deref-Ends none = tt
deref-Ends (some a) = tt

pub assert-Ensures :
    {A : Type 0} (P : A → Type 0) (b : Bool) (m : Outcome A)
    → Ensures P m
    → Ensures P (assert b >> m)
assert-Ensures P true m h = h
assert-Ensures P false m h = tt

pub if-Ensures :
    {A : Type 0} (P : A → Type 0) (b : Bool) (m n : Outcome A)
    → Ensures P m
    → Ensures P n
    → Ensures P (if b then m else n)
if-Ensures P true m n h k = h
if-Ensures P false m n h k = k

pub Ends-bind :
    {A B : Type 0} (m : Outcome A) (f : A → Outcome B)
    → Ends m
    → ((a : A) → Ends (f a))
    → Ends (m >>= f)
Ends-bind (ok a) f h k = k a
Ends-bind (fault e) f h k = h

pub Ensures-bind :
    {A B : Type 0} (P : A → Type 0) (Q : B → Type 0) (m : Outcome A) (f : A → Outcome B)
    → Ensures P m
    → ((a : A) → P a → Ensures Q (f a))
    → Ensures Q (m >>= f)
Ensures-bind P Q (ok a) f h k = k a h
Ensures-bind P Q (fault e) f h k = h

pub Ends-Ensures-bind :
    {A B : Type 0} (Q : B → Type 0) (m : Outcome A) (f : A → Outcome B)
    → Ends m
    → ((a : A) → Ensures Q (f a))
    → Ensures Q (m >>= f)
Ends-Ensures-bind Q (ok a) f h k = k a
Ends-Ensures-bind Q (fault e) f h k = h
