-- ===== src/Resources/Admits.antt =====
-- A request that `admit_request` admits.
use mathlib.Core.Path.{subst}
use media_center.Prelude.{
  ℕ, ◌+◌, ◌<◌, String, Bool, true, false, ◌≡◌, refl, ap, ◌∙◌, inl, inr, str_eq, eq_iff, arith,
}
use media_center.Access.{TenantContext}
use media_center.Exec.{Result, ok, err, lift, gets, modify, pure, ◌>>=◌}
use media_center.Exec.Rules.{Result-cases}
use media_center.Resources.{
  TenantResourceDecision, TenantResourceState, validated_tenant_id, normalized_token,
}
use media_center.Resources.Manager.{
  ResourceManager, put_state, state_of, on_state, Asked, decide, decision,
}
use media_center.Resources.Calls.{admit_request}

abbrev pub is_allowed : Result TenantResourceDecision → Bool
is_allowed (ok decided) = decided.allowed
is_allowed (err e) = false

abbrev pub names : String → Result String → Bool
names tenant (ok named) = str_eq named tenant
names tenant (err e) = false

module _ (tenant : String) where
  decide-allowed :
      (c : TenantContext) (asked : Asked) (over : Bool) (reason : String) (wait : ℕ)
      (s s' : TenantResourceState)
      → (decide c asked over reason wait s s').0.allowed ≡ true
      → (over ≡ false) × ((decide c asked over reason wait s s').1 ≡ s')
  unfolding decision
  decide-allowed c asked true reason wait s s' h = cc
  decide-allowed c asked false reason wait s s' h = (refl, refl)

  on_state-allowed :
      (c : TenantContext) (now : ℕ) (m : ResourceManager)
      (change : TenantResourceState → TenantResourceDecision × TenantResourceState)
      → names tenant (validated_tenant_id c.tenant_id) ≡ true
      → is_allowed (on_state c now change m).0 ≡ true
      → ((on_state c now change m).1 ≡ put_state tenant (change (state_of tenant now m)).1 m)
        × ((change (state_of tenant now m)).0.allowed ≡ true)
        × (validated_tenant_id c.tenant_id ≡ ok tenant)
  unfolding on_state lift gets modify pure ◌>>=◌
  on_state-allowed c now m change n a = elim (Result-cases (validated_tenant_id c.tenant_id)) [
    | inr (e, v) ↦ let impossible : false ≡ true = rw v at n in cc
    | inl (named, v) ↦
        let same : named ≡ tenant = (eq_iff named tenant).0 (rw v at n) in
        (
          rw (v, same) refl,
          subst (λ t. (change (state_of t now m)).0.allowed ≡ true) same (rw v at a),
          v ∙ ap ok same,
        )
  ]

  -- An admitted request is counted, within the limit.
  pub admit-counts :
      (c : TenantContext) (service operation : String) (now later : ℕ) (m : ResourceManager)
      → names tenant (validated_tenant_id c.tenant_id) ≡ true
      → is_allowed (admit_request c service operation now later m).0 ≡ true
      → let s = state_of tenant now m in
        ((admit_request c service operation now later m).1
          ≡ put_state tenant (record s { requests_used = s.requests_used + 1 }) m)
        × (s.requests_used < s.plan.request_limit)
        × (validated_tenant_id c.tenant_id ≡ ok tenant)
  unfolding admit_request lift ◌>>=◌
  admit-counts c service operation now later m n a =
      elim (Result-cases (normalized_token service)) [
        | inr (e, x) ↦ let impossible : false ≡ true = rw x at a in cc
        | inl (t, x) ↦ elim (Result-cases (normalized_token operation)) [
          | inr (e, y) ↦ let impossible : false ≡ true = rw (x, y) at a in cc
          | inl (u, y) ↦
              let (after, allowed, v) = on_state-allowed c now m _ n (rw (x, y) at a) in
              let (room, state) = decide-allowed c _ _ _ _ (state_of tenant now m) _ allowed in
              (
                rw (x, y) (after ∙ ap (λ (z : TenantResourceState). put_state tenant z m) state),
                ground arith,
                v,
              )
        ]
      ]
