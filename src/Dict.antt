-- ===== src/Dict.antt =====
-- The dictionaries of the in-memory repositories, keyed by (tenant_id, id) pairs, in insertion
-- order as Python keeps them.
use media_center.Prelude.{
  Member, here, there, Bool-cases, inl, inr, ap, String, ◌≡◌, refl, ◌↔◌, Bool, true, ◌&&◌, is_some,
  Option, none, some, List, [], ◌∷◌, arith, str_eq, eq_iff, if◌then◌else◌,
}

abbrev pub Key : Type 0
Key = String × String

-- Tuples are equal when their parts are.
unfoldable pub key_eq : Key → Key → Bool
key_eq (t, i) (u, j) = str_eq t u && str_eq i j

pub key_eq_iff : (a b : Key) → (key_eq a b ≡ true) ↔ (a ≡ b)
unfolding key_eq
key_eq_iff (t, i) (u, j) = ground (arith, eq_iff t u, eq_iff i j)

abbrev pub Dict {ℓ} : Type ℓ → Type ℓ
Dict V = List (Key × V)

module _ {ℓ} {V : Type ℓ} where
  -- d.get(k)
  unfoldable pub lookup : Key → Dict V → Option V
  lookup k [] = none
  lookup k ((j, v) ∷ d) = if key_eq j k then some v else lookup k d

  -- k in d
  abbrev pub contains : Key → Dict V → Bool
  contains k d = is_some (lookup k d)

  -- d[k] = v: a key that is there keeps its place.
  unfoldable pub insert : Key → V → Dict V → Dict V
  insert k v [] = (k, v) ∷ []
  insert k v ((j, w) ∷ d) = if key_eq j k then (j, v) ∷ d else (j, w) ∷ insert k v d

  pub lookup-insert :
      (k j : Key) (v : V) (d : Dict V)
      → lookup j (insert k v d) ≡ (if key_eq k j then some v else lookup j d)
  unfolding lookup insert
  lookup-insert k j v [] = refl
  lookup-insert k j v ((i, w) ∷ d) =
      ground (arith, key_eq_iff k j, key_eq_iff i k, key_eq_iff i j, lookup-insert k j v d)

  pub lookup-insert_self : (k : Key) (v : V) (d : Dict V) → lookup k (insert k v d) ≡ some v
  lookup-insert_self k v d = ground (arith, lookup-insert k k v d, key_eq_iff k k)

  -- No key is listed twice.
  abbrev pub HasUniqueKeys : Dict V → Type ℓ
  HasUniqueKeys [] = Unit
  HasUniqueKeys ((k, v) ∷ d) = (lookup k d ≡ none) × HasUniqueKeys d

  pub insert-HasUniqueKeys :
      (k : Key) (v : V) (d : Dict V) → HasUniqueKeys d → HasUniqueKeys (insert k v d)
  unfolding insert
  insert-HasUniqueKeys k v [] h = (unfold lookup in refl, tt)
  insert-HasUniqueKeys k v ((i, w) ∷ d) h =
      ground (
        arith,
        lookup-insert k i v d,
        key_eq_iff k i,
        key_eq_iff i k,
        insert-HasUniqueKeys k v d h.1,
      )

module _ {ℓ} {V : Type ℓ} where
  -- What is found stands in the dictionary.
  pub lookup-Member : (k : Key) (d : Dict V) {v : V} → lookup k d ≡ some v → Member (k, v) d
  unfolding lookup
  lookup-Member k [] h = cc
  lookup-Member k ((j, w) ∷ d) h = elim (Bool-cases (key_eq j k)) [
    | inl e ↦ here (cc (h, e, (key_eq_iff j k).0 e))
    | inr e ↦ there (lookup-Member k d (rw e at h))
  ]

  -- What stands in the dictionary is found, since no key stands there twice.
  pub Member-lookup :
      (k : Key) (d : Dict V) {v : V} → HasUniqueKeys d → Member (k, v) d → lookup k d ≡ some v
  unfolding lookup
  Member-lookup k [] u m = elim m [ ]
  Member-lookup k ((j, w) ∷ d) {v} u (here e) =
      ground (arith, key_eq_iff j k, ap (λ (q : Key × V). q.0) e, ap (λ (q : Key × V). q.1) e)
  Member-lookup k ((j, w) ∷ d) {v} u (there m) = elim (Bool-cases (key_eq j k)) [
    | inl e ↦
        let same : lookup j d ≡ lookup k d = ap (λ (i : Key). lookup i d) ((key_eq_iff j k).0 e) in
        cc (same, u.0, Member-lookup k d u.1 m)
    | inr e ↦ rw e (Member-lookup k d u.1 m)
  ]
