-- ===== src/Prelude/Calls.antt =====
-- How a call of the library ends: it returns, it calls abort(), it has not returned yet, or it uses
-- memory that is not there (what C leaves undefined).
use mathlib.Core.Path.{◌≡◌, refl, sym, ap, ◌∙◌}
use mathlib.Core.Option.{Option, none, some}

pub data Outcome {ℓ} (A : Type ℓ) : Type ℓ where
  ret : A → Outcome A
  aborts : Outcome A
  waits : Outcome A
  faults : Outcome A

infixl 5 ◌>>=◌
abbrev pub ◌>>=◌ {ℓ κ} : {A : Type ℓ} {B : Type κ} → Outcome A → (A → Outcome B) → Outcome B
ret a >>= f = f a
aborts >>= f = aborts
waits >>= f = waits
faults >>= f = faults

-- Inversion of a bind that returned.
pub >>=-eq-ret {ℓ κ} :
    {A : Type ℓ} {B : Type κ} (m : Outcome A) (f : A → Outcome B) {b : B}
    → (m >>= f) ≡ ret b
    → (a : A) × (m ≡ ret a) × (f a ≡ ret b)
>>=-eq-ret (ret a) f h = (a, refl, h)
>>=-eq-ret aborts f h = cc
>>=-eq-ret waits f h = cc
>>=-eq-ret faults f h = cc

-- Reading through a pointer or an index that may lead nowhere.
abbrev pub or_fault {ℓ} : {A : Type ℓ} → Option A → Outcome A
or_fault none = faults
or_fault (some a) = ret a

-- The result of a call that returned, or the one given.
abbrev pub result_of {ℓ} : {A : Type ℓ} → Outcome A → A → A
result_of (ret r) d = r
result_of _ d = d

pub same_result {ℓ} : {A : Type ℓ} {r : Outcome A} {x y : A} → r ≡ ret x → r ≡ ret y → x ≡ y
same_result {x = x} e e' = ap (λ r. result_of r x) (sym e ∙ e')
