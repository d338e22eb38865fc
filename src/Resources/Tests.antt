-- ===== src/Resources/Tests.antt =====
-- Runs of the resource manager.
use media_center.Text.{
  head_and_tail, all_chars, is_white_space, is_tenant_char, is_space, is_alnum, between, strip,
  is_tenant_id,
}
use media_center.Resources.{
  snapshot_of, roll_window_if_needed, new_state, normalized_token, TenantResourcePlan,
  validated_tenant_id, window_started_at,
}
use media_center.Resources.Manager.{
  set_plan, configure_tenant, put_state, decision, on_state, plans_by_tenant, ResourceManager,
  new_manager,
}
use media_center.Resources.Calls.{
  retry_after, reserve_queue_items, release_storage_bytes, release_queue_items,
  release_operation_slot, reserve_storage_bytes, acquire_operation_slot, admit_request, snapshot,
}
use media_center.Prelude.{
  sym, ◌∙◌, eq_iff, ◌-◌, ◌≤◌, String, true, false, none, List, [], ◌∷◌, ◌≡◌, refl, arith,
}
use media_center.Exec.{from_ok, pure, lift, gets, modify, ◌>>=◌, ok}
use media_center.Resources.Windows.{
  admitted, AllInWindow, admitted_all, used_in, admitted_all-bounded,
}
use media_center.Value.{pos}
use media_center.Access.{TenantContext}
use media_center.Resources.Effects.{
  Operation, admit, acquire, reserve_storage, look, perform, perform_all,
}
use media_center.Resources.Limits.{IsWithin, perform_all-IsWithin}
use media_center.Resources.Isolation.{AllOther, known, perform_all-known}

abbrev basic : TenantResourcePlan
basic = record {
  name = "basic";
  request_limit = 2;
  window_seconds = 60;
  concurrent_operations = 1;
  storage_bytes = 100;
  queue_depth = 3;
}

abbrev manager : ResourceManager
manager = record { default_plan = basic; tenant_plans = λ t. none; states = λ t. none }

manager_made : new_manager basic [] ≡ ok manager
unfolding new_manager plans_by_tenant
manager_made = refl

abbrev of_tenant : String → TenantContext
of_tenant tenant_id = record {
  tenant_id = tenant_id;
  subject = none;
  roles = [];
  correlation_id = none;
}

-- Three requests in one window, of which two are admitted, and some reservations
abbrev calls : List Operation
calls =
    admit (of_tenant "acme") "api" "read" 605 605
    ∷ admit (of_tenant "acme") "api" "read" 610 610
    ∷ reserve_storage (of_tenant "acme") (pos 80) "files" 611
    ∷ reserve_storage (of_tenant "acme") (pos 30) "files" 612
    ∷ acquire (of_tenant "acme") "export" 613
    ∷ look (of_tenant "acme") 614
    ∷ admit (of_tenant "acme") "api" "read" 655 656
    ∷ []

two_admitted : admitted_all "acme" calls manager ≡ 2
unfolding admitted_all admitted validated_tenant_id is_tenant_id strip admit_request ◌>>=◌
    normalized_token on_state modify new_state decision perform put_state roll_window_if_needed
    window_started_at acquire_operation_slot reserve_storage_bytes gets lift pure configure_tenant
    release_operation_slot release_queue_items release_storage_bytes reserve_queue_items retry_after
    set_plan snapshot_of between is_alnum is_space is_tenant_char is_white_space all_chars
    head_and_tail snapshot
two_admitted = refl

acme_named : validated_tenant_id "acme" ≡ ok "acme"
unfolding validated_tenant_id is_tenant_id strip
acme_named = refl

manager-IsWithin : IsWithin "acme" basic manager
manager-IsWithin = record {
  plan_fits = record {
    requests = omega arith;
    operations = omega arith;
    storage = omega arith;
    queue = omega arith;
  };
  state_fits = λ s h. cc;
}

perform_all-IsWithin_example : IsWithin "acme" basic (perform_all calls manager)
perform_all-IsWithin_example =
    perform_all-IsWithin "acme" basic calls manager (tt, (tt, (tt, (tt, (tt, (tt, (tt, tt)))))))
      manager-IsWithin

other_tenant : ¬ (validated_tenant_id "acme" ≡ ok "other")
other_tenant e =
    let same : "acme" ≡ "other" = from_ok (sym acme_named ∙ e) in
    let impossible : false ≡ true = (eq_iff "acme" "other").1 same in cc

acme_only : AllOther "other" calls
acme_only = (
  other_tenant,
  (
    other_tenant,
    (other_tenant, (other_tenant, (other_tenant, (other_tenant, (other_tenant, tt))))),
  ),
)

perform_all-known_example : known "other" (perform_all calls manager) ≡ known "other" manager
perform_all-known_example = perform_all-known "other" calls manager acme_only

in_one_window : AllInWindow "acme" basic 600 calls
unfolding window_started_at
in_one_window =
    (λ v. refl, (λ v. refl, (λ v. refl, (λ v. refl, (λ v. refl, (λ v. refl, (λ v. refl, tt)))))))

admitted_all-bounded_example :
    admitted_all "acme" calls manager ≤ basic.request_limit - used_in 600 (manager.states "acme")
admitted_all-bounded_example =
    admitted_all-bounded "acme" basic 600 calls manager refl in_one_window
