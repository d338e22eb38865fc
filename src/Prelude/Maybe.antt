-- ===== src/Prelude/Maybe.antt =====
-- `do` for optional values.
use media_center.Prelude.{Option, none, some, Bool, ◌≡◌, refl, ap, if◌then◌else◌}

infixl 5 ◌>>=◌ ◌>>◌
abbrev pub ◌>>=◌ : {A B : Type 0} → Option A → (A → Option B) → Option B
none >>= f = none
some a >>= f = f a

abbrev pub ◌>>◌ : {B : Type 0} → Option (Unit {0}) → Option B → Option B
m >> n = m >>= λ _. n

abbrev pub require : Bool → Option (Unit {0})
require test = if test then some tt else none

-- Inversion of a chain that gave a value.
pub >>=-eq-some :
    {A B : Type 0} (m : Option A) (f : A → Option B) {b : B}
    → (m >>= f) ≡ some b
    → (a : A) × (m ≡ some a) × (f a ≡ some b)
>>=-eq-some none f h = cc
>>=-eq-some (some a) f h = (a, refl, h)

pub from_some {ℓ} : {A : Type ℓ} {a b : A} → some a ≡ some b → a ≡ b
from_some {A} {a} h = ap (or_default a) h
  where
    or_default : A → Option A → A
    or_default d none = d
    or_default d (some x) = x
