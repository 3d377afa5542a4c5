-- ===== src/Common/Outcomes.antt =====
-- The result of a C function that works on memory: a value, an error that the function reports (a
-- null pointer or a negative code), or an access outside an allocated object.
use mathlib.Core.Path.{◌≡◌, refl}
use mathlib.Core.Logic.{◌≢◌}
use mathlib.Core.Bool.{Bool, true, false}
use mathlib.Core.Option.{Option, none, some}

pub data Outcome {ℓ} (A : Type ℓ) : Type ℓ where
  returned : A → Outcome A
  failed fault : Outcome A

module _ {ℓ κ} {A : Type ℓ} {B : Type κ} where
  abbrev pub map_outcome : (A → B) → Outcome A → Outcome B
  map_outcome f (returned a) = returned (f a)
  map_outcome f failed = failed
  map_outcome f fault = fault

  pub map_outcome-ne-fault : (f : A → B) (o : Outcome A) → o ≢ fault → map_outcome f o ≢ fault
  map_outcome-ne-fault f (returned a) h = cc
  map_outcome-ne-fault f failed h = cc
  map_outcome-ne-fault f fault h = absurd (h refl)

  infixl 5 ◌>>=◌
  abbrev pub ◌>>=◌ : Outcome A → (A → Outcome B) → Outcome B
  returned a >>= f = f a
  failed >>= f = failed
  fault >>= f = fault

  -- Where a chain of two steps returns, so do both.
  pub >>=-eq-returned :
      (m : Outcome A) (f : A → Outcome B) {b : B}
      → (m >>= f) ≡ returned b
      → (a : A) × (m ≡ returned a) × (f a ≡ returned b)
  >>=-eq-returned (returned a) f h = (a, refl, h)
  >>=-eq-returned failed f h = cc
  >>=-eq-returned fault f h = cc

infixl 5 ◌>>◌
abbrev pub ◌>>◌ {ℓ} : {B : Type ℓ} → Outcome (Unit {0}) → Outcome B → Outcome B
m >> k = m >>= λ _. k

abbrev pub guard : Bool → Outcome (Unit {0})
guard true = returned tt
guard false = failed

abbrev pub require {ℓ} : {A : Type ℓ} → Option A → Outcome A
require none = failed
require (some a) = returned a

-- assert
abbrev pub asserted : Bool → Outcome (Unit {0})
asserted true = returned tt
asserted false = fault

-- `next` runs on the value of a call; without one the state is returned with the error.
unfoldable pub on : {A B S : Type 0} → S → Outcome A → (A → S × Outcome B) → S × Outcome B
on s (returned a) next = next a
on s failed next = (s, failed)
on s fault next = (s, fault)

module _ {A : Type 0} where
  pub returned_inj : (a b : A) → returned a ≡ returned b → a ≡ b
  returned_inj a b h = cc h

  pub require-some : (o : Option A) (a : A) → require o ≡ returned a → o ≡ some a
  require-some none a h = cc h
  require-some (some b) a h = cc h

  pub require-ne-fault : (o : Option A) → require o ≢ fault
  require-ne-fault none = λ e. cc e
  require-ne-fault (some a) = λ e. cc e

  pub >>=-ne-fault :
      {B : Type 0} (m : Outcome A) (f : A → Outcome B)
      → m ≢ fault
      → ((a : A) → m ≡ returned a → f a ≢ fault)
      → (m >>= f) ≢ fault
  >>=-ne-fault (returned a) f h k = k a refl
  >>=-ne-fault failed f h k = λ e. cc e
  >>=-ne-fault fault f h k = λ e. h refl

pub guard-ne-fault : (b : Bool) → guard b ≢ fault
guard-ne-fault true = λ e. cc e
guard-ne-fault false = λ e. cc e

pub guard-true : (b : Bool) (u : Unit {0}) → guard b ≡ returned u → b ≡ true
guard-true true u h = refl
guard-true false u h = cc h
