-- ===== src/Policy/Appends.antt =====
-- Updates only append to histories, and only to those of their tenant.
use media_center.Prelude.{
  String, List, [], ◌∷◌, ◌++◌, ◌≡◌, ◌⊎◌, refl, sym, ap, ◌∙◌, inl, inr, Bool-cases,
}
use mathlib.Core.List.{append_assoc, append-nil}
use media_center.Dict.{Key, lookup, lookup-insert, key_eq, key_eq_iff}
use media_center.Platform.{Platform}
use media_center.Exec.{Result}
use media_center.Policy.{PolicyRecord, PolicyUpdate, Policies}
use media_center.Policy.Manager.{all_of, saved, update_policy}
use media_center.Policy.Updates.{
  Saves, UpdateEnds, refused, stored, unannounced, update_policy-Ends,
}
use media_center.Policy.Versions.{update_all}

abbrev pub versions_of : Key → Policies → List PolicyRecord
versions_of key s = all_of (lookup key s.history)

-- At this key, the history has grown at its end, or for another tenant not at all.
abbrev pub Appends : String → Key → Policies → Policies → Type 0
Appends tenant_id key s after =
    (more : List PolicyRecord) × (versions_of key after ≡ versions_of key s ++ more)
    × ((more ≡ []) ⊎ (key.0 ≡ tenant_id))

saved-Appends :
    (s after : Policies) (q : PolicyUpdate) (policy : PolicyRecord) (key : Key)
    → Saves s q policy
    → after.history ≡ saved policy s.history
    → Appends q.tenant_id key s after
unfolding saved
saved-Appends s after q policy key w same = rw same (
    rw (lookup-insert at key new s.history) (elim (Bool-cases (key_eq at key)) [
      | inl e ↦
          let here : at ≡ key = (key_eq_iff at key).0 e in
          rw e (
            policy ∷ [],
            ap (λ (k : Key). versions_of k s ++ (policy ∷ [])) here,
            inr (sym (ap (λ (k : Key). k.0) here) ∙ w.tenant),
          )
      | inr e ↦ rw e ([], sym (append-nil _), inl refl)
    ]))
  where
    at : Key
    at = (policy.tenant_id, policy.key)

    new : List PolicyRecord
    new = versions_of at s ++ (policy ∷ [])

update-Appends :
    (s : Policies) (q : PolicyUpdate) (r : Result PolicyRecord × Policies) (key : Key)
    → UpdateEnds s q r
    → Appends q.tenant_id key s r.1
update-Appends s q _ key (refused same) = ([], rw same (sym (append-nil _)), inl refl)
update-Appends s q _ key (stored {policy} {after} w same) =
    saved-Appends s after q policy key w same
update-Appends s q _ key (unannounced {e} {policy} {after} w same) =
    saved-Appends s after q policy key w same

-- One of the updates is for this tenant.
abbrev pub HasUpdateFor : String → List PolicyUpdate → Type 0
HasUpdateFor tenant_id [] = ⊥
HasUpdateFor tenant_id (q ∷ qs) = (tenant_id ≡ q.tenant_id) ⊎ HasUpdateFor tenant_id qs

later :
    (t : String) (q : PolicyUpdate) (qs : List PolicyUpdate) (one more : List PolicyRecord)
    → (one ≡ []) ⊎ (t ≡ q.tenant_id)
    → (more ≡ []) ⊎ HasUpdateFor t qs
    → (one ++ more ≡ []) ⊎ HasUpdateFor t (q ∷ qs)
later t q qs one more (inr e) _ = inr (inl e)
later t q qs one more (inl e) (inr h) = inr (inr h)
later t q qs one more (inl e) (inl e') = inl (rw (e, e') refl)

module _ (p : Platform) where
  -- After any sequence of updates on any state, the history under a key has kept its versions in
  -- order and has grown at its end, and not at all if no update was for its tenant.
  pub update_all-Appends :
      (qs : List PolicyUpdate) (s : Policies) (key : Key)
      → (more : List PolicyRecord) × (versions_of key (update_all p qs s)
          ≡ versions_of key s ++ more)
        × ((more ≡ []) ⊎ HasUpdateFor key.0 qs)
  unfolding update_all
  update_all-Appends [] s key = ([], sym (append-nil _), inl refl)
  update_all-Appends (q ∷ qs) s key =
      let (one, e, who) = update-Appends s q (update_policy p q s) key (update_policy-Ends p q s) in
      let (more, e', who') = update_all-Appends qs (update_policy p q s).1 key in
      (
        one ++ more,
        e' ∙ ap (λ (xs : List PolicyRecord). xs ++ more) e ∙ append_assoc _ one more,
        later key.0 q qs one more who who',
      )
