-- ===== src/Exec/Rules.antt =====
-- Reasoning about one step of a block, for any state.
use media_center.Prelude.{◌≡◌, refl, ap, sym, Option, none, some, ◌⊎◌, inl, inr}
use media_center.Exec.{Error, Result, ok, err, Exec, continue, ◌>>=◌, or_raise, from_ok}

module _ {S A B : Type 0} where
  -- A block ends as its first step raises, or as the rest ends on what the first step returned.
  pub bind-cases :
      (P : Result B × S → Type 0) (m : Exec S A) (f : A → Exec S B) (s : S)
      → ((e : Error) (s' : S) → m s ≡ (err e, s') → P (err e, s'))
      → ((a : A) (s' : S) → m s ≡ (ok a, s') → P (f a s'))
      → P ((m >>= f) s)
  unfolding ◌>>=◌
  bind-cases P m f s raised returned = by_result (m s) refl
    where
      by_result : (r : Result A × S) → m s ≡ r → P (continue r.0 f r.1)
      by_result (ok a, s') e = returned a s' e
      by_result (err x, s') e = raised x s' e

module _ {S A : Type 0} {x y : Result A × S} where
  pub state_of : x ≡ y → x.1 ≡ y.1
  state_of h = ap (λ (r : Result A × S). r.1) h

  pub result_of : x ≡ y → x.0 ≡ y.0
  result_of h = ap (λ (r : Result A × S). r.0) h

-- or_raise leaves the state, and returns what there is.
module _ {S A : Type 0} where
  pub or_raise-same :
      (e : Error) (o : Option A) (s s' : S) (r : Result A) → or_raise e o s ≡ (r, s') → s' ≡ s
  unfolding or_raise
  or_raise-same e none s s' r h = sym (ap (λ (x : Result A × S). x.1) h)
  or_raise-same e (some a) s s' r h = sym (ap (λ (x : Result A × S). x.1) h)

  pub or_raise-some :
      (e : Error) (o : Option A) (s s' : S) (a : A) → or_raise e o s ≡ (ok a, s') → o ≡ some a
  unfolding or_raise
  or_raise-some e none s s' a h = let no : err e ≡ ok a = result_of h in cc
  or_raise-some e (some b) s s' a h = ap some (from_ok (result_of h))

pub Result-cases :
    {A : Type 0} (r : Result A) → ((a : A) × (r ≡ ok a)) ⊎ ((e : Error) × (r ≡ err e))
Result-cases (ok a) = inl (a, refl)
Result-cases (err e) = inr (e, refl)
