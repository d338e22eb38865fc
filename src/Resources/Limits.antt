-- ===== src/Resources/Limits.antt =====
-- What a tenant has used stays within its limits, and does not depend on other tenants.
use media_center.Prelude.{
  ℕ, ◌≤◌, ◌==◌, String, Option, none, some, ◌≡◌, refl, sym, ap, ◌∙◌, inl, inr, Bool-cases, List, [],
  ◌∷◌, str_eq, eq_iff, arith,
}
use mathlib.Core.Path.{subst}
use media_center.Exec.{ok}
use media_center.Resources.{
  TenantResourcePlan, TenantResourceState, validated_tenant_id, roll_window_if_needed,
  window_started_at, new_state,
}
use media_center.Resources.Manager.{
  ResourceManager, plan_of, rolled_or_new, put_state, state_of, set_plan, replan,
}
use media_center.Resources.Effects.{
  Operation, configure, perform, perform_all, Stays, Counts, Effect, refused, counted, replanned,
  perform-Effect,
}

-- The limits of the plan are within those of another.
pub record Fits (plan bound : TenantResourcePlan) : Type 0 where
  pub requests : plan.request_limit ≤ bound.request_limit
  pub operations : plan.concurrent_operations ≤ bound.concurrent_operations
  pub storage : plan.storage_bytes ≤ bound.storage_bytes
  pub queue : plan.queue_depth ≤ bound.queue_depth

-- The counters of the state are within the limits of the plan.
pub record Uses (s : TenantResourceState) (bound : TenantResourcePlan) : Type 0 where
  pub requests : s.requests_used ≤ bound.request_limit
  pub operations : s.concurrent_operations ≤ bound.concurrent_operations
  pub storage : s.storage_bytes_used ≤ bound.storage_bytes
  pub queue : s.queue_items ≤ bound.queue_depth

-- The plan of the tenant, and what it has used, are within the limits.
pub record IsWithin (tenant : String) (bound : TenantResourcePlan) (m : ResourceManager)
    : Type 0 where
  pub plan_fits : Fits (plan_of tenant m) bound
  pub state_fits : (s : TenantResourceState) → m.states tenant ≡ some s → Uses s bound

-- If the call gives this tenant a plan, then one within the limits.
abbrev pub Allows : String → TenantResourcePlan → Operation → Type 0
Allows tenant bound (configure name plan now) =
    validated_tenant_id name ≡ ok tenant → Fits plan bound
Allows tenant bound _ = Unit

abbrev pub AllAllow : String → TenantResourcePlan → List Operation → Type 0
AllAllow tenant bound [] = Unit
AllAllow tenant bound (o ∷ os) = Allows tenant bound o × AllAllow tenant bound os

within_bound :
    {limit before after bound : ℕ}
    → Stays limit before after
    → limit ≤ bound
    → before ≤ bound
    → after ≤ bound
within_bound (inl a) l b = omega arith
within_bound (inr a) l b = omega arith

Counts-Uses :
    (s s' : TenantResourceState) (bound : TenantResourcePlan)
    → Counts s s'
    → Fits s.plan bound
    → Uses s bound
    → Uses s' bound
Counts-Uses s s' bound c f u = record {
  requests = within_bound c.requests f.requests u.requests;
  operations = within_bound c.operations f.operations u.operations;
  storage = within_bound c.storage f.storage u.storage;
  queue = within_bound c.queue f.queue u.queue;
}

roll-Uses :
    (plan bound : TenantResourcePlan) (now : ℕ) (s : TenantResourceState)
    → Uses s bound
    → Uses (roll_window_if_needed plan now s) bound
unfolding roll_window_if_needed
roll-Uses plan bound now s u =
    elim (Bool-cases (s.window_started_at == window_started_at plan now)) [
      | inl e ↦ rw e (record {
        requests = u.requests;
        operations = u.operations;
        storage = u.storage;
        queue = u.queue;
      })
      | inr e ↦ rw e (record {
        requests = omega arith;
        operations = u.operations;
        storage = u.storage;
        queue = u.queue;
      })
    ]

rolled_or_new-Uses :
    (plan bound : TenantResourcePlan) (now : ℕ) (o : Option TenantResourceState)
    → ((s : TenantResourceState) → o ≡ some s → Uses s bound)
    → Uses (rolled_or_new plan now o) bound
unfolding new_state
rolled_or_new-Uses plan bound now none u = record {
  requests = omega arith;
  operations = omega arith;
  storage = omega arith;
  queue = omega arith;
}
rolled_or_new-Uses plan bound now (some s) u = roll-Uses plan bound now s (u s refl)

pub roll-plan :
    (plan : TenantResourcePlan) (now : ℕ) (s : TenantResourceState)
    → (roll_window_if_needed plan now s).plan ≡ plan
unfolding roll_window_if_needed
roll-plan plan now s = elim (Bool-cases (s.window_started_at == window_started_at plan now)) [
  | inl e ↦ rw e refl
  | inr e ↦ rw e refl
]

pub rolled_or_new-plan :
    (plan : TenantResourcePlan) (now : ℕ) (o : Option TenantResourceState)
    → (rolled_or_new plan now o).plan ≡ plan
unfolding new_state
rolled_or_new-plan plan now none = refl
rolled_or_new-plan plan now (some s) = roll-plan plan now s

some_same : {A : Type 0} {a b : A} → some a ≡ some b → a ≡ b
some_same e = cc

module _ (tenant : String) (bound : TenantResourcePlan) where
  put-IsWithin :
      (u : String) (now : ℕ) (s : TenantResourceState) (m : ResourceManager)
      → Counts (state_of u now m) s
      → IsWithin tenant bound m
      → IsWithin tenant bound (put_state u s m)
  unfolding put_state
  put-IsWithin u now s m c w = elim (Bool-cases (str_eq tenant u)) [
    | inr other ↦ record { plan_fits = w.plan_fits; state_fits = rw other w.state_fits }
    | inl e ↦
        let same : tenant ≡ u = (eq_iff tenant u).0 e in
        let plan = plan_of tenant m in
        let old : Counts (state_of tenant now m) s = rw same c in
        let f : Fits (state_of tenant now m).plan bound =
          rw (rolled_or_new-plan plan now (m.states tenant)) w.plan_fits in
        let used = rolled_or_new-Uses plan bound now (m.states tenant) w.state_fits in
        let new = Counts-Uses (state_of tenant now m) s bound old f used in
        record {
          plan_fits = w.plan_fits;
          state_fits = rw e (λ t h. subst (λ x. Uses x bound) (some_same h) new);
        }
  ]

  replan-Uses :
      (plan : TenantResourcePlan) (now : ℕ) (o : Option TenantResourceState)
      → ((s : TenantResourceState) → o ≡ some s → Uses s bound)
      → (s : TenantResourceState) → replan plan now o ≡ some s
      → Uses s bound
  replan-Uses plan now none u s h = u s h
  replan-Uses plan now (some old) u s h =
      subst (λ x. Uses x bound) (some_same h) (roll-Uses plan bound now old (u old refl))

  set-IsWithin :
      (u : String) (plan : TenantResourcePlan) (now : ℕ) (m : ResourceManager)
      → (u ≡ tenant → Fits plan bound)
      → IsWithin tenant bound m
      → IsWithin tenant bound (set_plan u plan now m)
  unfolding set_plan
  set-IsWithin u plan now m f w = elim (Bool-cases (str_eq tenant u)) [
    | inr other ↦ record { plan_fits = rw other w.plan_fits; state_fits = rw other w.state_fits }
    | inl e ↦ record {
      plan_fits = rw e (f (sym ((eq_iff tenant u).0 e)));
      state_fits = rw e (replan-Uses plan now (m.states tenant) w.state_fits);
    }
  ]

  after-IsWithin :
      (o : Operation) (m m' : ResourceManager)
      → Allows tenant bound o
      → IsWithin tenant bound m
      → Effect o m m'
      → IsWithin tenant bound m'
  after-IsWithin o m _ a w refused = w
  after-IsWithin o m _ a w (counted v c) = put-IsWithin _ _ _ m c w
  after-IsWithin o m _ a w (replanned {named} {name} {new_plan} {now} e v) =
      let fits : Allows tenant bound (configure name new_plan now) =
        subst (Allows tenant bound) e a in
      set-IsWithin named new_plan now m (λ same. fits (v ∙ ap ok same)) w

  -- If what a tenant has used and its plan are within some limits, and no call gives it a plan beyond
  -- them, then after any calls what it has used and its plan are within them.
  pub perform_all-IsWithin :
      (os : List Operation) (m : ResourceManager)
      → AllAllow tenant bound os
      → IsWithin tenant bound m
      → IsWithin tenant bound (perform_all os m)
  unfolding perform_all
  perform_all-IsWithin [] m a w = w
  perform_all-IsWithin (o ∷ os) m (a, all) w =
      perform_all-IsWithin os (perform o m) all
        (after-IsWithin o m (perform o m) a w (perform-Effect o m))
