-- ===== src/Common/Faults.antt =====
-- The outcome of a C function: its value, or the fault that ends the run.
use mathlib.Core.Path.{◌≡◌, refl, ap}
use mathlib.Core.Option.{Option, none, some}
use mathlib.Core.Bool.{Bool, true, false}

-- `assert_failed` is a failed `assert`. The others are undefined behaviour: an access outside
-- the object, a read of memory that was never written, a pointer cast to a
-- type that the object does not have, signed overflow (where the model tests for it). The last
-- one, a loop that does not end, is told by a proof that no fuel is enough.
pub data Fault : Type 0 where
  assert_failed out_of_bounds uninitialised bad_cast int_overflow out_of_fuel : Fault

pub data Outcome {ℓ} (A : Type ℓ) : Type ℓ where
  ok : A → Outcome A
  fault : Fault → Outcome A

infixl 5 ◌>>=◌ ◌>>◌
abbrev pub ◌>>=◌ {ℓ κ} : {A : Type ℓ} {B : Type κ} → Outcome A → (A → Outcome B) → Outcome B
ok a >>= f = f a
fault e >>= f = fault e

abbrev pub ◌>>◌ {ℓ} : {B : Type ℓ} → Outcome (Unit {0}) → Outcome B → Outcome B
m >> k = m >>= λ _. k

abbrev pub assert : Bool → Outcome (Unit {0})
assert true = ok tt
assert false = fault assert_failed

abbrev pub or_fault {ℓ} : {A : Type ℓ} → Option A → Fault → Outcome A
or_fault none e = fault e
or_fault (some a) e = ok a

pub ok-injective {ℓ} : {A : Type ℓ} {a b : A} → ok a ≡ ok b → a ≡ b
ok-injective h = cc

fault≢ok {ℓ} : {A : Type ℓ} {a : A} {e : Fault} → fault e ≡ ok a → ⊥
fault≢ok d = cc

-- A chain that succeeds has a first part that does.
pub bind-ok {ℓ κ} :
    {A : Type ℓ} {B : Type κ} {b : B} (m : Outcome A) (k : A → Outcome B)
    → (m >>= k) ≡ ok b
    → (a : A) × (m ≡ ok a) × (k a ≡ ok b)
bind-ok (ok a) k h = (a, refl, h)
bind-ok (fault e) k h = absurd (fault≢ok h)

pub or_fault-ok {ℓ} :
    {A : Type ℓ} {a : A} (o : Option A) (e : Fault) → or_fault o e ≡ ok a → o ≡ some a
or_fault-ok none e h = absurd (fault≢ok h)
or_fault-ok (some a) e h = ap some (ok-injective h)
