-- ===== src/Resources/Windows.antt =====
-- How many requests of a tenant are admitted in one window.
use mathlib.Core.Path.{subst}
use media_center.Prelude.{
  ℕ, ◌+◌, ◌-◌, ◌≤◌, ◌<◌, ◌==◌, String, true, ◌&&◌, Option, none, some, ◌≡◌, refl, sym, ap, ◌∙◌, ◌⊎◌,
  inl, inr, Bool-cases, List, [], ◌∷◌, str_eq, eq_iff, arith, if◌then◌else◌,
}
use media_center.Access.{TenantContext}
use media_center.Exec.{ok}
use media_center.Resources.{
  TenantResourcePlan, TenantResourceState, validated_tenant_id, roll_window_if_needed,
  window_started_at, new_state,
}
use media_center.Resources.Manager.{
  ResourceManager, plan_of, rolled_or_new, put_state, state_of, set_plan,
}
use media_center.Resources.Calls.{admit_request}
use media_center.Resources.Limits.{rolled_or_new-plan}
use media_center.Resources.Effects.{
  Operation, admit, acquire, release, reserve_queue, release_queue, reserve_storage,
  release_storage, configure, look, perform, tenant_in, time_of, Counts, Effect, refused, counted,
  replanned, perform-Effect,
}
use media_center.Resources.Admits.{is_allowed, names, admit-counts}
use media_center.Resources.Isolation.{different}

-- One, if the call admits a request of this tenant
unfoldable pub admitted : String → Operation → ResourceManager → ℕ
admitted tenant (admit c service operation now later) m =
    if names tenant (validated_tenant_id c.tenant_id)
      && is_allowed (admit_request c service operation now later m).0
    then 1
    else 0
admitted tenant _ m = 0

unfoldable pub admitted_all : String → List Operation → ResourceManager → ℕ
admitted_all tenant [] m = 0
admitted_all tenant (o ∷ os) m = admitted tenant o m + admitted_all tenant os (perform o m)

-- A call of this tenant comes in the window that starts at this time, and gives it no plan.
abbrev pub IsInWindow : String → TenantResourcePlan → ℕ → Operation → Type 0
IsInWindow tenant plan start (configure name new_plan now) =
    ¬ (validated_tenant_id name ≡ ok tenant)
IsInWindow tenant plan start o =
    validated_tenant_id (tenant_in o) ≡ ok tenant → window_started_at plan (time_of o) ≡ start

abbrev pub AllInWindow : String → TenantResourcePlan → ℕ → List Operation → Type 0
AllInWindow tenant plan start [] = Unit
AllInWindow tenant plan start (o ∷ os) =
    IsInWindow tenant plan start o × AllInWindow tenant plan start os

-- The requests that the state counts for the window
abbrev pub used_in : ℕ → Option TenantResourceState → ℕ
used_in start none = 0
used_in start (some s) = if s.window_started_at == start then s.requests_used else 0

same_number : (n : ℕ) → (n == n) ≡ true
same_number n = ground arith

module _ (plan : TenantResourcePlan) (now start : ℕ) (w : window_started_at plan now ≡ start) where
  rolled-used :
      (o : Option TenantResourceState) → (rolled_or_new plan now o).requests_used ≡ used_in start o
  unfolding roll_window_if_needed new_state
  rolled-used none = refl
  rolled-used (some s) =
      rw w
        (elim (Bool-cases (s.window_started_at == start)) [ inl e ↦ rw e refl | inr e ↦ rw e refl ])

  rolled-window :
      (o : Option TenantResourceState) → (rolled_or_new plan now o).window_started_at ≡ start
  unfolding roll_window_if_needed new_state
  rolled-window none = w
  rolled-window (some s) = rw w (elim (Bool-cases (s.window_started_at == start)) [
    | inl e ↦ rw e (ground arith)
    | inr e ↦ rw e refl
  ])

module _ (tenant : String) (plan : TenantResourcePlan) (start : ℕ) where
  abbrev used : ResourceManager → ℕ
  used m = used_in start (m.states tenant)

  -- The state after a call of this tenant in this window
  used-put :
      (now : ℕ) (s : TenantResourceState) (m : ResourceManager)
      → plan_of tenant m ≡ plan
      → window_started_at plan now ≡ start
      → s.window_started_at ≡ (state_of tenant now m).window_started_at
      → used (put_state tenant s m) ≡ s.requests_used
  unfolding put_state
  used-put now s m p w e =
      let self : str_eq tenant tenant ≡ true = (eq_iff tenant tenant).1 refl in
      let at : s.window_started_at ≡ start =
        e
        ∙ ap (λ x. (rolled_or_new x now (m.states tenant)).window_started_at) p
        ∙ rolled-window plan now start w (m.states tenant) in
      rw (self, at, same_number start) refl

  in_window :
      (o : Operation)
      → IsInWindow tenant plan start o
      → validated_tenant_id (tenant_in o) ≡ ok tenant
      → window_started_at plan (time_of o) ≡ start
  in_window (admit c service operation now later) w v = w v
  in_window (acquire c operation now) w v = w v
  in_window (release c operation now) w v = w v
  in_window (reserve_queue c name amount now) w v = w v
  in_window (release_queue c name amount now) w v = w v
  in_window (reserve_storage c amount kind now) w v = w v
  in_window (release_storage c amount kind now) w v = w v
  in_window (look c now) w v = w v
  in_window (configure name new_plan now) w v = absurd (w v)

  -- A call leaves the plan, and the count of the window does not shrink.
  kept_after :
      (o : Operation) (m m' : ResourceManager)
      → plan_of tenant m ≡ plan
      → IsInWindow tenant plan start o
      → Effect o m m'
      → (plan_of tenant m' ≡ plan) × (used m ≤ used m')
  unfolding put_state set_plan
  kept_after o m _ p w refused = (p, omega arith)
  kept_after o m _ p w (counted {named} {s} v c) = elim (Bool-cases (str_eq tenant named)) [
    | inr d ↦ rw d (p, omega arith)
    | inl e ↦
        let same : named ≡ tenant = sym ((eq_iff tenant named).0 e) in
        let own : Counts (state_of tenant (time_of o) m) s =
          subst (λ t. Counts (state_of t (time_of o) m) s) same c in
        let at = in_window o w (v ∙ ap ok same) in
        let after : used (put_state named s m) ≡ s.requests_used =
          ap (λ t. used (put_state t s m)) same ∙ used-put (time_of o) s m p at own.same_window in
        let before : (state_of tenant (time_of o) m).requests_used ≡ used m =
          ap (λ x. (rolled_or_new x (time_of o) (m.states tenant)).requests_used) p
          ∙ rolled-used plan (time_of o) start at (m.states tenant) in
        let grown = own.requests_kept in (p, omega arith)
  ]
  kept_after o m _ p w (replanned {named} {name} {new_plan} {now} e v) =
      let elsewhere : IsInWindow tenant plan start (configure name new_plan now) =
        subst (IsInWindow tenant plan start) e w in
      let d = different tenant named (λ same. elsewhere (v ∙ same)) in rw d (p, omega arith)

  -- What a call admits
  admitted-cases :
      (o : Operation) (m : ResourceManager)
      → (admitted tenant o m ≡ 0)
        ⊎ ((c : TenantContext) × (service : String) × (operation : String) × (now : ℕ) × (later : ℕ)
            × (o ≡ admit c service operation now later)
            × (admitted tenant o m ≡ 1)
            × (names tenant (validated_tenant_id c.tenant_id) ≡ true)
            × (is_allowed (admit_request c service operation now later m).0 ≡ true))
  unfolding admitted
  admitted-cases (admit c service operation now later) m =
      elim (Bool-cases (names tenant (validated_tenant_id c.tenant_id))) [
        | inr n ↦ inl (rw n refl)
        | inl n ↦ elim (Bool-cases (is_allowed (admit_request c service operation now later m).0)) [
          | inr a ↦ inl (rw (n, a) refl)
          | inl a ↦ inr (c, service, operation, now, later, refl, rw (n, a) refl, n, a)
        ]
      ]
  admitted-cases (acquire c operation now) m = inl refl
  admitted-cases (release c operation now) m = inl refl
  admitted-cases (reserve_queue c name amount now) m = inl refl
  admitted-cases (release_queue c name amount now) m = inl refl
  admitted-cases (reserve_storage c amount kind now) m = inl refl
  admitted-cases (release_storage c amount kind now) m = inl refl
  admitted-cases (configure name new_plan now) m = inl refl
  admitted-cases (look c now) m = inl refl

  admit-used :
      (c : TenantContext) (service operation : String) (now later : ℕ) (m : ResourceManager)
      → plan_of tenant m ≡ plan
      → IsInWindow tenant plan start (admit c service operation now later)
      → names tenant (validated_tenant_id c.tenant_id) ≡ true
      → is_allowed (admit_request c service operation now later m).0 ≡ true
      → (used (perform (admit c service operation now later) m) ≡ used m + 1)
        × (used m < plan.request_limit)
  unfolding perform
  admit-used c service operation now later m p w n a =
      let (after, room, v) = admit-counts tenant c service operation now later m n a in
      let s = state_of tenant now m in
      let at = w v in
      let counts : s.requests_used ≡ used m =
        ap (λ x. (rolled_or_new x now (m.states tenant)).requests_used) p
        ∙ rolled-used plan now start at (m.states tenant) in
      let limits : s.plan.request_limit ≡ plan.request_limit =
        ap (λ x. x.request_limit)
          (rolled_or_new-plan (plan_of tenant m) now (m.states tenant) ∙ p) in
      let new : used (put_state tenant (record s { requests_used = s.requests_used + 1 }) m)
          ≡ s.requests_used + 1 =
        used-put now (record s { requests_used = s.requests_used + 1 }) m p at refl in
      (ap used after ∙ new ∙ ap (λ x. x + 1) counts, omega arith)

  -- What is left of the limit pays for what a call admits.
  step :
      (o : Operation) (m : ResourceManager)
      → plan_of tenant m ≡ plan
      → IsInWindow tenant plan start o
      → (plan_of tenant (perform o m) ≡ plan)
        × (admitted tenant o m + (plan.request_limit - used (perform o m))
            ≤ plan.request_limit - used m)
  step o m p w =
      let (q, kept) = kept_after o m (perform o m) p w (perform-Effect o m) in
      elim (admitted-cases o m) [
        | inl none_admitted ↦ (q, omega arith)
        | inr (c, service, operation, now, later, e, one, n, a) ↦
            let (more, room) =
              admit-used c service operation now later m p
                (subst (IsInWindow tenant plan start) e w) n a in
            let counted_one : used (perform o m) ≡ used m + 1 =
              ap (λ x. used (perform x m)) e ∙ more in
            (q, omega arith)
      ]

  -- In one window of a plan, the requests of a tenant that are admitted are within what the tenant
  -- has left of the limit.
  pub admitted_all-bounded :
      (os : List Operation) (m : ResourceManager)
      → plan_of tenant m ≡ plan
      → AllInWindow tenant plan start os
      → admitted_all tenant os m ≤ plan.request_limit - used m
  unfolding admitted_all
  admitted_all-bounded [] m p w = omega arith
  admitted_all-bounded (o ∷ os) m p (w, ws) =
      let (q, paid) = step o m p w in
      let rest = admitted_all-bounded os (perform o m) q ws in omega arith
