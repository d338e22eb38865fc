-- ===== src/Policy/Versions.antt =====
-- The versions of a policy, over any sequence of updates.
use media_center.Prelude.{
  ℕ, ◌+◌, String, Option, none, some, List, [], ◌∷◌, ◌++◌, ◌≡◌, refl, sym, ap, ◌∙◌, inl, inr, arith,
  Bool-cases, length,
}
use mathlib.Core.Path.{subst}
use media_center.Dict.{Key, lookup, lookup-insert, key_eq, key_eq_iff}
use media_center.Value.{Fields}
use media_center.Platform.{Platform}
use media_center.Exec.{Result, ok, err, from_ok}
use media_center.Policy.{
  PolicyRecord, PolicyUpdate, Policies, new_policies, normalize_policy_key, default_value,
  default_policy_record, policy_record_model,
}
use media_center.Policy.Manager.{
  last_of, all_of, find_policy, get_policy, for_key, get_history, with_default, in_front, saved,
  none_if_missing, next_version, update_policy, latest_or_default, or_default,
}
use media_center.Policy.Updates.{
  Saves, normalize_policy_key-again, UpdateEnds, refused, stored, unannounced, update_policy-Ends,
}

-- The versions are n, n + 1, and so on.
abbrev pub IsNumbered : ℕ → List PolicyRecord → Type 0
IsNumbered n [] = Unit
IsNumbered n (policy ∷ rest) = (policy.version ≡ n) × IsNumbered (n + 1) rest

IsNumbered-append :
    (n : ℕ) (xs : List PolicyRecord) (policy : PolicyRecord)
    → IsNumbered n xs
    → policy.version ≡ n + length xs
    → IsNumbered n (xs ++ (policy ∷ []))
IsNumbered-append n [] policy h e = (omega arith, tt)
IsNumbered-append n (x ∷ xs) policy (v, h) e =
    (v, IsNumbered-append (n + 1) xs policy h (omega arith))

-- The version after the last one.
last_version :
    (n : ℕ) (x : PolicyRecord) (xs : List PolicyRecord)
    → IsNumbered n (x ∷ xs)
    → (last : PolicyRecord) × (last_of (x ∷ xs) ≡ some last)
      × (last.version + 1 ≡ n + length (x ∷ xs))
unfolding last_of
last_version n x [] (v, h) = (x, refl, omega arith)
last_version n x (y ∷ ys) (v, h) =
    let (last, e, k) = last_version (n + 1) y ys h in (last, e, omega arith)

-- The saved versions of a policy with a default start at 2, since the default is version 1.
abbrev pub first_of : Option Fields → ℕ
first_of none = 1
first_of (some value) = 2

abbrev pub first_saved : String → ℕ
first_saved key = first_of (default_value key)

pub IsVersioned : Policies → Type 0
IsVersioned s = (t k : String) → IsNumbered (first_saved k) (all_of (lookup (t, k) s.history))

-- A default record has version 1, and cannot be missing.
default-next :
    (t k : String) (v : Fields) (existing : Option PolicyRecord)
    → none_if_missing (default_policy_record t k v) ≡ ok existing
    → next_version existing ≡ 2
unfolding default_policy_record policy_record_model
default-next t k v none h = ground arith
default-next t k v (some d) h = ground arith

or_default-next :
    (o : Option Fields) (t k : String) (existing : Option PolicyRecord)
    → none_if_missing (or_default o t k) ≡ ok existing
    → next_version existing ≡ first_of o
or_default-next none t k existing h = rw (sym (from_ok h)) refl
or_default-next (some v) t k existing h = default-next t k v existing h

default-version :
    (t k : String) (v : Fields) (d : PolicyRecord)
    → default_policy_record t k v ≡ ok d
    → d.version ≡ 1
unfolding default_policy_record policy_record_model
default-version t k v d h = ground arith

-- The version of an update continues the numbering.
history-next :
    (xs : List PolicyRecord) (t k : String) (existing : Option PolicyRecord)
    → IsNumbered (first_saved k) xs
    → none_if_missing (latest_or_default (last_of xs) t k) ≡ ok existing
    → next_version existing ≡ first_saved k + length xs
unfolding last_of
history-next [] t k existing h f = or_default-next (default_value k) t k existing f ∙ omega arith
history-next (x ∷ xs) t k existing h f =
    let (last, e, v) = last_version (first_saved k) x xs h in
    let f' : ok (some last) ≡ ok existing = rw e at f in rw (sym (from_ok f')) v

get_policy-normalized :
    (t key k : String) (s : Policies)
    → normalize_policy_key key ≡ ok k
    → get_policy t key s ≡ find_policy t k s
unfolding get_policy
get_policy-normalized t key k s h =
    ap (λ (r : Result String). for_key r (λ k'. find_policy t k' s)) h

-- The version that an update saves continues the numbering under its key.
saved-next :
    (s : Policies) (q : PolicyUpdate) (policy : PolicyRecord)
    → IsVersioned s
    → Saves s q policy
    → policy.version
      ≡ first_saved policy.key + length (all_of (lookup (policy.tenant_id, policy.key) s.history))
unfolding IsVersioned find_policy
saved-next s q policy h w =
    let again = normalize_policy_key-again q.key policy.key w.normalized in
    w.version
    ∙ history-next (all_of (lookup (policy.tenant_id, policy.key) s.history)) policy.tenant_id
        policy.key w.existing (h policy.tenant_id policy.key)
        (rw w.tenant (
          ap none_if_missing (sym (get_policy-normalized q.tenant_id policy.key policy.key s again))
          ∙ w.found))

-- Every list of saved versions stays numbered from its start.
saved-IsVersioned :
    (s after : Policies) (q : PolicyUpdate) (policy : PolicyRecord)
    → IsVersioned s
    → Saves s q policy
    → after.history ≡ saved policy s.history
    → IsVersioned after
unfolding IsVersioned saved
saved-IsVersioned s after q policy h w same t k = rw same (
    rw (lookup-insert at (t, k) new s.history) (elim (Bool-cases (key_eq at (t, k))) [
      | inl e ↦ rw e (
          subst (λ (j : Key). IsNumbered (first_saved j.1) new) ((key_eq_iff at (t, k)).0 e)
            (IsNumbered-append _ old policy (h policy.tenant_id policy.key)
              (saved-next s q policy h w)))
      | inr e ↦ rw e (h t k)
    ]))
  where
    at : Key
    at = (policy.tenant_id, policy.key)

    old : List PolicyRecord
    old = all_of (lookup at s.history)

    new : List PolicyRecord
    new = old ++ (policy ∷ [])

update-IsVersioned :
    (s : Policies) (q : PolicyUpdate) (r : Result PolicyRecord × Policies)
    → UpdateEnds s q r
    → IsVersioned s
    → IsVersioned r.1
unfolding IsVersioned
update-IsVersioned s q _ (refused same) h t k = rw same (h t k)
update-IsVersioned s q _ (stored {policy} {after} w same) h t k =
    saved-IsVersioned s after q policy h w same t k
update-IsVersioned s q _ (unannounced {e} {policy} {after} w same) h t k =
    saved-IsVersioned s after q policy h w same t k

module _ (p : Platform) where
  -- One update after the other; an exception of one does not end the others.
  unfoldable pub update_all : List PolicyUpdate → Policies → Policies
  update_all [] s = s
  update_all (q ∷ qs) s = update_all qs (update_policy p q s).1

  update_all-IsVersioned :
      (qs : List PolicyUpdate) (s : Policies) → IsVersioned s → IsVersioned (update_all qs s)
  unfolding update_all
  update_all-IsVersioned [] s h = h
  update_all-IsVersioned (q ∷ qs) s h =
      update_all-IsVersioned qs (update_policy p q s).1
        (update-IsVersioned s q (update_policy p q s) (update_policy-Ends p q s) h)

  new-IsVersioned : IsVersioned new_policies
  unfolding IsVersioned lookup
  new-IsVersioned t k = tt

  -- What `with_default` gives is numbered from 1.
  with_default-IsNumbered :
      (o : Option Fields) (t k : String) (xs items : List PolicyRecord)
      → IsNumbered (first_of o) xs
      → with_default o t k xs ≡ ok items
      → IsNumbered 1 items
  with_default-IsNumbered none t k [] items h e = cc
  with_default-IsNumbered none t k (x ∷ xs) items h e = rw (sym (from_ok e)) h
  with_default-IsNumbered (some v) t k xs items h e =
      by_default (default_policy_record t k v) refl e
    where
      by_default :
          (r : Result PolicyRecord)
          → default_policy_record t k v ≡ r
          → in_front r xs ≡ ok items
          → IsNumbered 1 items
      by_default (err x) q e = cc
      by_default (ok d) q e = rw (sym (from_ok e)) (default-version t k v d q, h)

  -- After any sequence of updates on a new manager, the history of a policy that get_history
  -- returns has the versions 1, 2, 3 and so on, the default among them.
  pub get_history-IsNumbered :
      (qs : List PolicyUpdate) (t key : String) (items : List PolicyRecord)
      → get_history t key (update_all qs new_policies) ≡ ok items
      → IsNumbered 1 items
  unfolding get_history IsVersioned
  get_history-IsNumbered qs t key items h = by_key (normalize_policy_key key) h
    where
      by_key :
          (r : Result String)
          → for_key r (λ k.
            with_default
              (default_value k)
              t
              k
              (all_of (lookup (t, k) (update_all qs new_policies).history)))
            ≡ ok items
          → IsNumbered 1 items
      by_key (err e) h = cc
      by_key (ok k) h =
          with_default-IsNumbered (default_value k) t k _ items
            (update_all-IsVersioned qs new_policies new-IsVersioned t k) h
