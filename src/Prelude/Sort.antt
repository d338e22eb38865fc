-- ===== src/Prelude/Sort.antt =====
-- Python's `sorted(xs, key=...)` on a numeric key: stable, by insertion from the right.
use media_center.Prelude.{
  ℕ, ◌≤◌, List, [], ◌∷◌, arith, leb, leb→le, if◌then◌else◌, Member, here, there, Bool-cases, inl,
  inr,
}

module _ {ℓ} {A : Type ℓ} (key : A → ℕ) where
  -- `x` goes in front of the first element whose key is not smaller.
  pub insert_by : A → List A → List A
  insert_by x [] = x ∷ []
  insert_by x (y ∷ ys) = if leb (key x) (key y) then x ∷ y ∷ ys else y ∷ insert_by x ys

  pub sorted_by : List A → List A
  unfolding insert_by
  sorted_by [] = []
  sorted_by (x ∷ xs) = insert_by x (sorted_by xs)

  -- Each element's key is at most the next one's.
  abbrev pub IsSortedBy : List A → Type 0
  IsSortedBy [] = Unit
  IsSortedBy (x ∷ []) = Unit
  IsSortedBy (x ∷ y ∷ ys) = (key x ≤ key y) × IsSortedBy (y ∷ ys)

  abbrev pub HeadAtLeast : ℕ → List A → Type 0
  HeadAtLeast n [] = Unit
  HeadAtLeast n (y ∷ ys) = n ≤ key y

  cons-IsSortedBy :
      (x : A) (ys : List A) → HeadAtLeast (key x) ys → IsSortedBy ys → IsSortedBy (x ∷ ys)
  cons-IsSortedBy x [] h s = tt
  cons-IsSortedBy x (y ∷ ys) h s = (h, s)

  tail-HeadAtLeast : (y : A) (ys : List A) → IsSortedBy (y ∷ ys) → HeadAtLeast (key y) ys
  tail-HeadAtLeast y [] s = tt
  tail-HeadAtLeast y (z ∷ zs) s = s.0

  tail-IsSortedBy : (y : A) (ys : List A) → IsSortedBy (y ∷ ys) → IsSortedBy ys
  tail-IsSortedBy y [] s = tt
  tail-IsSortedBy y (z ∷ zs) s = s.1

  insert_by-HeadAtLeast :
      (n : ℕ) (x : A) (ys : List A) → n ≤ key x → HeadAtLeast n ys → HeadAtLeast n (insert_by x ys)
  unfolding insert_by
  insert_by-HeadAtLeast n x [] h k = h
  insert_by-HeadAtLeast n x (y ∷ ys) h k = elim (Bool-cases (leb (key x) (key y))) [
    | inl e ↦ rw e h
    | inr e ↦ rw e k
  ]

  insert_by-IsSortedBy : (x : A) (ys : List A) → IsSortedBy ys → IsSortedBy (insert_by x ys)
  unfolding insert_by
  insert_by-IsSortedBy x [] s = tt
  insert_by-IsSortedBy x (y ∷ ys) s = elim (Bool-cases (leb (key x) (key y))) [
    | inl e ↦ rw e (leb→le _ _ e, s)
    | inr e ↦ rw e (
        cons-IsSortedBy y (insert_by x ys)
          (insert_by-HeadAtLeast (key y) x ys (ground arith) (tail-HeadAtLeast y ys s))
          (insert_by-IsSortedBy x ys (tail-IsSortedBy y ys s)))
  ]

  pub sorted_by-IsSortedBy : (xs : List A) → IsSortedBy (sorted_by xs)
  unfolding sorted_by
  sorted_by-IsSortedBy [] = tt
  sorted_by-IsSortedBy (x ∷ xs) = insert_by-IsSortedBy x (sorted_by xs) (sorted_by-IsSortedBy xs)

  insert_by-here : (x : A) (ys : List A) {z : A} → Member z (x ∷ ys) → Member z (insert_by x ys)
  unfolding insert_by
  insert_by-here x [] m = m
  insert_by-here x (y ∷ ys) m = elim (Bool-cases (leb (key x) (key y))) [
    | inl e ↦ rw e m
    | inr e ↦ rw e (swap m (λ k. insert_by-here x ys k))
  ]
    where
      swap :
          {z : A}
          → Member z (x ∷ y ∷ ys)
          → (Member z (x ∷ ys) → Member z (insert_by x ys))
          → Member z (y ∷ insert_by x ys)
      swap (here p) f = there (f (here p))
      swap (there (here p)) f = here p
      swap (there (there k)) f = there (f (there k))

  insert_by-back : (x : A) (ys : List A) {z : A} → Member z (insert_by x ys) → Member z (x ∷ ys)
  unfolding insert_by
  insert_by-back x [] m = m
  insert_by-back x (y ∷ ys) m = elim (Bool-cases (leb (key x) (key y))) [
    | inl e ↦ rw e at m
    | inr e ↦ swap (rw e at m) (λ k. insert_by-back x ys k)
  ]
    where
      under : {z : A} → Member z (x ∷ ys) → Member z (x ∷ y ∷ ys)
      under (here p) = here p
      under (there k) = there (there k)

      swap :
          {z : A}
          → Member z (y ∷ insert_by x ys)
          → (Member z (insert_by x ys) → Member z (x ∷ ys))
          → Member z (x ∷ y ∷ ys)
      swap (here p) f = there (here p)
      swap (there k) f = under (f k)

  -- Sorting loses no element and adds none.
  pub Member-sorted_by : (xs : List A) {z : A} → Member z (sorted_by xs) → Member z xs
  unfolding sorted_by
  Member-sorted_by [] m = elim m [ ]
  Member-sorted_by (x ∷ xs) m =
      cons_case (insert_by-back x (sorted_by xs) m) (λ k. Member-sorted_by xs k)
    where
      cons_case :
          {z : A}
          → Member z (x ∷ sorted_by xs)
          → (Member z (sorted_by xs) → Member z xs)
          → Member z (x ∷ xs)
      cons_case (here p) f = here p
      cons_case (there k) f = there (f k)

  pub sorted_by-Member : (xs : List A) {z : A} → Member z xs → Member z (sorted_by xs)
  unfolding sorted_by
  sorted_by-Member [] m = elim m [ ]
  sorted_by-Member (x ∷ xs) (here p) = insert_by-here x (sorted_by xs) (here p)
  sorted_by-Member (x ∷ xs) (there m) =
      insert_by-here x (sorted_by xs) (there (sorted_by-Member xs m))
