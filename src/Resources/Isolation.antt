-- ===== src/Resources/Isolation.antt =====
-- What the calls of other tenants leave alone.
use media_center.Prelude.{
  String, false, Option, ◌≡◌, refl, sym, ap, ◌∙◌, inl, inr, Bool-cases, List, [], ◌∷◌, str_eq,
  eq_iff,
}
use media_center.Exec.{ok}
use media_center.Resources.{TenantResourcePlan, TenantResourceState, validated_tenant_id}
use media_center.Resources.Manager.{ResourceManager, plan_of, put_state, set_plan}
use media_center.Resources.Effects.{
  Operation, perform, perform_all, tenant_in, Effect, refused, counted, replanned, perform-Effect,
}

-- The call is not one of this tenant.
abbrev pub IsOther : String → Operation → Type 0
IsOther tenant o = ¬ (validated_tenant_id (tenant_in o) ≡ ok tenant)

abbrev pub AllOther : String → List Operation → Type 0
AllOther tenant [] = Unit
AllOther tenant (o ∷ os) = IsOther tenant o × AllOther tenant os

module _ (tenant : String) where
  pub different : (u : String) → ¬ (ok u ≡ ok tenant) → str_eq tenant u ≡ false
  different u no_match = elim (Bool-cases (str_eq tenant u)) [
    | inl e ↦ absurd (no_match (ap ok (sym ((eq_iff tenant u).0 e))))
    | inr e ↦ e
  ]

  -- What the manager knows of the tenant
  abbrev pub known : ResourceManager → TenantResourcePlan × Option TenantResourceState
  known m = (plan_of tenant m, m.states tenant)

  known_after :
      (o : Operation) (m m' : ResourceManager)
      → IsOther tenant o
      → Effect o m m'
      → known m' ≡ known m
  unfolding put_state set_plan
  known_after o m _ other refused = refl
  known_after o m _ other (counted {named} v c) =
      let d = different named (λ e. other (v ∙ e)) in rw d refl
  known_after o m _ other (replanned {named} e v) =
      let d =
        different named
          (λ same. other (ap (λ x. validated_tenant_id (tenant_in x)) e ∙ v ∙ same)) in
      rw d refl

  -- Calls of other tenants leave the plan of a tenant and what it has used as they are.
  pub perform_all-known :
      (os : List Operation) (m : ResourceManager)
      → AllOther tenant os
      → known (perform_all os m) ≡ known m
  unfolding perform_all
  perform_all-known [] m other = refl
  perform_all-known (o ∷ os) m (other, others) =
      perform_all-known os (perform o m) others
      ∙ known_after o m (perform o m) other (perform-Effect o m)
