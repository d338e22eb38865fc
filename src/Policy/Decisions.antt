-- ===== src/Policy/Decisions.antt =====
-- What `apply_policies` decides.
use media_center.Prelude.{
  ℕ, String, true, false, not, ◌&&◌, Option, none, some, List, [], ◌∷◌, ◌++◌, ◌≡◌, ◌⊎◌, refl, sym,
  ap, ◌∙◌, inl, inr, arith, Bool-cases, eq_iff,
}
use mathlib.Core.List.{append_assoc, append-nil}
use mathlib.Core.Path.{subst}
use media_center.Text.{tenant_id_field}
use media_center.Value.{Fields, end}
use media_center.Events.Inbox.{has}
use media_center.Exec.{Result, ok, err, from_ok}
use media_center.Policy.{allow, escalate, PolicyRecord, PolicyApplicationResult, Policies}
use media_center.Policy.Rules.{policy_reasons}
use media_center.Policy.Manager.{
  get_policy, Findings, add_findings, apply_one, continued, apply_loop, unique_from, decision_for,
  application_result, apply_policies,
}

-- What each key contributes, in order.
pub data Applied (tenant_id : String) (facts : Fields) (s : Policies)
    : List String → List String → Type 0 where
  none_left : Applied tenant_id facts s [] []
  applied :
      {key : String} {keys reasons rest : List String} {policy : PolicyRecord}
      → get_policy tenant_id key s ≡ ok policy
      → policy_reasons policy facts ≡ ok reasons
      → Applied tenant_id facts s keys rest
      → Applied tenant_id facts s (key ∷ keys) (reasons ++ rest)

module _ (t : String) (facts : Fields) (s : Policies) where
  -- The findings so far, and what the keys that are left add to them.
  apply_loop-Applied :
      (keys : List String) (versions versions' : Fields) (found found' : List String)
      → apply_loop t facts s keys (versions, found) ≡ ok (versions', found')
      → (reasons : List String) × Applied t facts s keys reasons × (found' ≡ found ++ reasons)
  unfolding apply_loop
  apply_loop-Applied [] v v' found found' h =
      ([], none_left, sym (ap (λ (x : Findings). x.1) (from_ok h)) ∙ sym (append-nil found))
  apply_loop-Applied (key ∷ keys) v v' found found' h =
      by_policy (get_policy t key s) refl (λ v1 f1 h'. apply_loop-Applied keys v1 v' f1 found' h') h
    where
      Rest : Type 0
      Rest =
          (v1 : Fields) (f1 : List String)
          → apply_loop t facts s keys (v1, f1) ≡ ok (v', found')
          → (reasons : List String) × Applied t facts s keys reasons × (found' ≡ f1 ++ reasons)

      by_reasons :
          (policy : PolicyRecord) (r : Result (List String))
          → get_policy t key s ≡ ok policy
          → policy_reasons policy facts ≡ r
          → Rest
          → continued (add_findings policy r (v, found)) (apply_loop t facts s keys)
            ≡ ok (v', found')
          → (reasons : List String) × Applied t facts s (key ∷ keys) reasons
            × (found' ≡ found ++ reasons)
      by_reasons policy (err e) g q rest h = cc
      by_reasons policy (ok reasons) g q rest h =
          let (more, a, e) = rest _ (found ++ reasons) h in
          (reasons ++ more, applied g q a, e ∙ append_assoc found reasons more)

      by_policy :
          (r : Result PolicyRecord)
          → get_policy t key s ≡ r
          → Rest
          → continued (apply_one r facts (v, found)) (apply_loop t facts s keys) ≡ ok (v', found')
          → (reasons : List String) × Applied t facts s (key ∷ keys) reasons
            × (found' ≡ found ++ reasons)
      by_policy (err e) g rest h = cc
      by_policy (ok policy) g rest h = by_reasons policy (policy_reasons policy facts) g refl rest h

-- What `unique_from` keeps.
has-unique_from :
    (reason : String) (seen xs : List String)
    → has reason (unique_from seen xs) ≡ (has reason xs && not (has reason seen))
unfolding unique_from has
has-unique_from reason seen [] = refl
has-unique_from reason seen (x ∷ xs) =
    ground
      (arith, has-unique_from reason seen xs, has-unique_from reason (x ∷ seen) xs, eq_iff x reason)

abbrev pub IsUnique : List String → Type 0
IsUnique [] = Unit
IsUnique (x ∷ xs) = (has x xs ≡ false) × IsUnique xs

unique_from-IsUnique : (seen xs : List String) → IsUnique (unique_from seen xs)
unfolding unique_from has
unique_from-IsUnique seen [] = tt
unique_from-IsUnique seen (x ∷ xs) = elim (Bool-cases (has x seen)) [
  | inl e ↦ rw e (unique_from-IsUnique seen xs)
  | inr e ↦ rw e (
    ground (arith, has-unique_from x (x ∷ seen) xs, eq_iff x x),
    unique_from-IsUnique (x ∷ seen) xs,
  )
]

-- The result is the decision on these reasons: ESCALATE exactly if there is one, and each of them
-- once.
pub record Decides (result : PolicyApplicationResult) (reasons : List String) : Type 0 where
  pub decision :
      ((reasons ≡ []) × (result.decision ≡ allow))
      ⊎ ((reason : String) × (has reason reasons ≡ true) × (result.decision ≡ escalate))
  pub same : (reason : String) → has reason result.reasons ≡ has reason reasons
  pub unique : IsUnique result.reasons

decision_for-Decides :
    (reasons : List String)
    → ((reasons ≡ []) × (decision_for (unique_from [] reasons) ≡ allow))
      ⊎ ((reason : String) × (has reason reasons ≡ true)
          × (decision_for (unique_from [] reasons) ≡ escalate))
unfolding unique_from has
decision_for-Decides [] = inl (refl, refl)
decision_for-Decides (x ∷ xs) = inr (x, ground (arith, eq_iff x x), refl)

application-Decides :
    (tenant : Option String) (at : ℕ) (found : Findings) (result : PolicyApplicationResult)
    → application_result tenant at found ≡ ok result
    → Decides result found.1
unfolding has
application-Decides none at found result h = cc
application-Decides (some t) at (v, found) result h = rw (sym (from_ok h)) (record {
  decision = decision_for-Decides found;
  same = λ reason. has-unique_from reason [] found ∙ ground arith;
  unique = unique_from-IsUnique [] found;
})

-- If `apply_policies` returns, then each key named a policy that could be read and judged, and the
-- result decides on the reasons of all of them: ESCALATE exactly if one of them has a reason, and
-- the reasons are those of the policies, each once.
pub apply_policies-Decides :
    (t : String) (facts : Fields) (at : ℕ) (keys : List String) (s : Policies)
    (result : PolicyApplicationResult)
    → apply_policies t facts at keys s ≡ ok result
    → (reasons : List String) × Applied t facts s keys reasons × Decides result reasons
unfolding apply_policies
apply_policies-Decides t facts at [] s result h = cc
apply_policies-Decides t facts at (key ∷ keys) s result h =
    by_loop (apply_loop t facts s (key ∷ keys) (end, [])) refl h
  where
    by_loop :
        (r : Result Findings)
        → apply_loop t facts s (key ∷ keys) (end, []) ≡ r
        → continued r (application_result (tenant_id_field t) at) ≡ ok result
        → (reasons : List String) × Applied t facts s (key ∷ keys) reasons × Decides result reasons
    by_loop (err e) l h = cc
    by_loop (ok (v, found)) l h =
        let (reasons, a, e) = apply_loop-Applied t facts s (key ∷ keys) end v [] found l in
        (
          reasons,
          a,
          subst (Decides result) e (application-Decides (tenant_id_field t) at (v, found) result h),
        )
