-- ===== src/Prelude/Lists.antt =====
-- Lists measured by native numbers, and predicates over lists by recursion.
use Prim.Native.Nat.{ℕ, suc, ◌+◌}
use mathlib.Core.Path.{◌≡◌, refl, ap}
use mathlib.Core.Bool.{Bool, true, false}
use mathlib.Core.Logic.{◌⊎◌, inl, inr}
use mathlib.Core.List.{List, [], ◌∷◌, ◌++◌}
use native.Mathlib.Omega.{arith}
use media_center.Prelude.Tests.{if◌then◌else◌}

module _ {ℓ} {A : Type ℓ} where
  abbrev pub length : List A → ℕ
  length [] = 0
  length (x ∷ xs) = suc (length xs)

  pub length-append : (xs ys : List A) → length (xs ++ ys) ≡ length xs + length ys
  length-append [] ys = omega arith
  length-append (x ∷ xs) ys = omega (arith, length-append xs ys)

  -- The elements that pass a Boolean test, in order.
  unfoldable pub select : (A → Bool) → List A → List A
  select p [] = []
  select p (x ∷ xs) = let rest = select p xs in if p x then x ∷ rest else rest

-- `x` stands in the list.
pub data Member {ℓ} {A : Type ℓ} (x : A) : List A → Type ℓ where
  here : {y : A} {ys : List A} → x ≡ y → Member x (y ∷ ys)
  there : {y : A} {ys : List A} → Member x ys → Member x (y ∷ ys)

module _ {ℓ} {A : Type ℓ} where
  cons_test :
      (b : Bool) (p : A → Bool) (y : A) (rest : List A) {x : A}
      → p y ≡ b
      → Member x (if b then y ∷ rest else rest)
      → (x ≡ y) × (p x ≡ true) ⊎ Member x rest
  cons_test true p y rest e (here q) = inl (q, rw q e)
  cons_test true p y rest e (there m) = inr m
  cons_test false p y rest e m = inr m

  keep_test :
      (b : Bool) (p : A → Bool) (y : A) (rest : List A) {x : A}
      → p y ≡ b
      → (x ≡ y) × (p x ≡ true) ⊎ Member x rest
      → Member x (if b then y ∷ rest else rest)
  keep_test true p y rest e (inl (q, _)) = here q
  keep_test true p y rest e (inr m) = there m
  keep_test false p y rest e (inl (q, t)) = cc (e, t, ap p q)
  keep_test false p y rest e (inr m) = m

  -- What is selected stands in the list and passes the test.
  pub Member-select :
      (p : A → Bool) (xs : List A) {x : A} → Member x (select p xs) → Member x xs × (p x ≡ true)
  unfolding select
  Member-select p [] m = elim m [ ]
  Member-select p (y ∷ ys) m = elim (cons_test (p y) p y (select p ys) refl m) [
    | inl (q, t) ↦ (here q, t)
    | inr m' ↦ let (old, t) = Member-select p ys m' in (there old, t)
  ]

  -- What stands in the list and passes the test is selected.
  pub select-Member :
      (p : A → Bool) (xs : List A) {x : A} → Member x xs → p x ≡ true → Member x (select p xs)
  unfolding select
  select-Member p [] m t = elim m [ ]
  select-Member p (y ∷ ys) (here q) t = keep_test (p y) p y (select p ys) refl (inl (q, t))
  select-Member p (y ∷ ys) (there m) t =
      keep_test (p y) p y (select p ys) refl (inr (select-Member p ys m t))
