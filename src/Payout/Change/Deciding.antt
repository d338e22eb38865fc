-- ===== src/Payout/Change/Deciding.antt =====
-- The operations that queue a payout, veto it and confirm it make only the changes of the
-- specification, whether they return or raise.
use media_center.Prelude.{ℕ, String, List, [], ◌∷◌, eq_iff, ◌≡◌, refl, true, none, some, arith, ap}
use media_center.Dict.{lookup, insert}
use media_center.Platform.{Platform}
use media_center.Exec.{Result, ok, err, ◌>>=◌, raise_if, modify}
use media_center.Payout.Types.{PayoutQueueItem, with_status, with_confirmation, PayoutConfirmation}
use media_center.Payout.State.{Gateway, payout_key, update_payout, add_payout}
use media_center.Payout.Effects.{
  Ends, Ends-bind, Ends-step, Ends-Quiet, Quiet-pure, Quiet-lift, Quiet-or_raise, Quiet-raise_if,
  Quiet-audit, Quiet-envelope, Quiet-publish,
}
use media_center.Payout.Queue.{QueueRequest, queue_payout, queued_audit, queued_item}
use media_center.Payout.Validation.{queue_item_model, confirmation_model}
use media_center.Access.{includes}
use media_center.Text.{token_field, tenant_id_field, field_of, is_tenant_id}
use media_center.Text.Trim.{trim-is_tenant_id}
use media_center.Payout.Veto.{VetoRequest, veto_payout}
use media_center.Payout.Confirmation.{
  ConfirmRequest, confirm_payout, confirmation_of, confirmed_by_role,
}
use media_center.Payout.Change.{
  Payouts, payouts_of, Change, same, added, vetoed, confirmed, IsFresh,
}
use media_center.Payout.Change.Steps.{
  payouts-HidesTrail, get_payout-Quiet, Written, update_payout-Written, add_decision-Quiet,
  add_confirmation-Quiet, queued_of_test, true_of_test,
}

-- A new payout goes in, or the call raises.
abbrev pub Added : Payouts → PayoutQueueItem → Result PayoutQueueItem → Payouts → Type 0
Added d v (ok a) d' = (lookup (payout_key v) d ≡ none) × (d' ≡ insert (payout_key v) v d)
Added d v (err e) d' = d' ≡ d

pub add_payout-Added :
    (v : PayoutQueueItem) (d : Payouts) (g : Gateway)
    → payouts_of g ≡ d
    → Added d v (add_payout v g).0 (payouts_of (add_payout v g).1)
unfolding add_payout ◌>>=◌ raise_if modify
add_payout-Added v d g e = ground arith

IsFresh-of_model :
    (p : Platform) (r : QueueRequest) (until : ℕ) (hash : String) (v : PayoutQueueItem)
    → r.requires_2fa ≡ true
    → queue_item_model p (queued_item p r until hash) ≡ some v
    → IsFresh v
unfolding queue_item_model queued_item
IsFresh-of_model p r until hash v two h = ground arith

-- A payout is queued for the tenant that the audit log has accepted.
tenant_of_model :
    (p : Platform) (r : QueueRequest) (until : ℕ) (hash : String) (v : PayoutQueueItem)
    → is_tenant_id r.tenant_id ≡ true
    → queue_item_model p (queued_item p r until hash) ≡ some v
    → v.tenant_id ≡ r.tenant_id
unfolding queue_item_model queued_item tenant_id_field field_of
tenant_of_model p r until hash v known h = ground (arith, trim-is_tenant_id r.tenant_id known)

council_token : token_field "council" ≡ some "council"
unfolding token_field
council_token = refl

-- The role that confirms is the Council's.
council_of_role :
    (roles : List String) (role : String) → confirmed_by_role roles ≡ ok role → role ≡ "council"
unfolding confirmed_by_role includes
council_of_role [] role h = cc
council_of_role (r ∷ rs) role h = ground (arith, eq_iff r "council", council_of_role rs role)

council_of_model :
    (p : Platform) (r : ConfirmRequest) (subject role : String) (at : ℕ) (corr hash : String)
    (c : PayoutConfirmation)
    → role ≡ "council"
    → confirmation_model (confirmation_of p r subject role at corr hash) ≡ some c
    → c.actor_role ≡ "council"
unfolding confirmation_model confirmation_of
council_of_model p r subject role at corr hash c e h =
    ground (arith, council_token, ap token_field e)

module _ (p : Platform) where
  veto-Ends :
      (r : VetoRequest) (d : Payouts) → Ends payouts_of (Change r.tenant_id d) d (veto_payout p r)
  unfolding veto_payout with_status
  veto-Ends r d = Ends-bind (get_payout-Quiet r.tenant_id r.payout_id) (same refl) λ v found.
      Ends-bind (Quiet-raise_if payouts_of _ _) (same refl) λ _ waiting.
        Ends-bind (Quiet-raise_if payouts_of _ _) (same refl) λ _ early.
          Ends-bind (Quiet-audit payouts_of payouts-HidesTrail p _) (same refl) λ a _.
            Ends-bind (Quiet-or_raise payouts_of _ _) (same refl) λ decision _.
              Ends-bind (add_decision-Quiet decision) (same refl) λ _ _.
                Ends-step (update_payout _) (Written d _) (update_payout-Written _ d)
                  (λ e y w. same w)
                  λ b y w.
                    let change : Change r.tenant_id d y =
                      vetoed r.payout_id v r.now decision.audit_hash decision.decision_id found
                        (queued_of_test v.status waiting) (ground arith) w in
                    Ends-bind (Quiet-envelope payouts_of payouts-HidesTrail p _) change λ event _.
                      Ends-bind (Quiet-publish payouts-HidesTrail event) change
                        λ _ _. Ends-Quiet (Quiet-pure payouts_of _) change

  -- A veto changes the queue by one cancellation of a queued payout inside its window, or not at
  -- all.
  pub veto_payout-Change :
      (r : VetoRequest) (g : Gateway) → Change r.tenant_id g.payouts (veto_payout p r g).1.payouts
  veto_payout-Change r g = (veto-Ends r g.payouts).at g refl

  queue-Ends :
      (hours : ℕ) (r : QueueRequest) (d : Payouts)
      → Ends payouts_of (Change r.tenant_id d) d (queue_payout p hours r)
  unfolding queue_payout queued_audit
  queue-Ends hours r d = Ends-bind (Quiet-raise_if payouts_of _ _) (same refl) λ _ two.
      Ends-bind (Quiet-lift payouts_of _) (same refl) λ until _.
        Ends-bind (Quiet-audit payouts_of payouts-HidesTrail p _) (same refl) λ a known.
          Ends-bind (Quiet-or_raise payouts_of _ _) (same refl) λ v built.
            Ends-step (add_payout v) (Added d v) (add_payout-Added v d) (λ e y w. same w)
              λ b y w.
                let change : Change r.tenant_id d y =
                  added v
                    (IsFresh-of_model p r until a.audit_hash v (true_of_test r.requires_2fa two)
                      built)
                    (tenant_of_model p r until a.audit_hash v known built) w.0 w.1 in
                Ends-bind (Quiet-envelope payouts_of payouts-HidesTrail p _) change λ event _.
                  Ends-bind (Quiet-publish payouts-HidesTrail event) change
                    λ _ _. Ends-Quiet (Quiet-pure payouts_of _) change

  -- A call of `queue_payout` adds one fresh payout under a new key, or nothing.
  pub queue_payout-Change :
      (hours : ℕ) (r : QueueRequest) (g : Gateway)
      → Change r.tenant_id g.payouts (queue_payout p hours r g).1.payouts
  queue_payout-Change hours r g = (queue-Ends hours r g.payouts).at g refl

  confirm-Ends :
      (r : ConfirmRequest) (d : Payouts)
      → Ends payouts_of (Change r.tenant_id d) d (confirm_payout p r)
  unfolding confirm_payout with_confirmation
  confirm-Ends r d = Ends-bind (Quiet-lift payouts_of _) (same refl) λ _ _.
      Ends-bind (Quiet-lift payouts_of _) (same refl) λ context _.
        Ends-bind (Quiet-lift payouts_of _) (same refl) λ subject _.
          Ends-bind (get_payout-Quiet r.tenant_id r.payout_id) (same refl) λ v found.
            Ends-bind (Quiet-raise_if payouts_of _ _) (same refl) λ _ waiting.
              Ends-bind (Quiet-raise_if payouts_of _ _) (same refl) λ _ open_yet.
                Ends-bind (Quiet-lift payouts_of _) (same refl) λ _ _.
                  Ends-bind (Quiet-lift payouts_of _) (same refl) λ role by_role.
                    Ends-bind (Quiet-lift payouts_of _) (same refl) λ at _.
                      Ends-bind (Quiet-lift payouts_of _) (same refl) λ correlation_id _.
                        Ends-bind (Quiet-audit payouts_of payouts-HidesTrail p _) (same refl) λ a _.
                          Ends-bind (Quiet-or_raise payouts_of _ _) (same refl) λ c built.
                            Ends-bind (add_confirmation-Quiet c) (same refl) λ _ _.
                              Ends-step (update_payout _) (Written d _) (update_payout-Written _ d)
                                (λ e y w. same w)
                                λ b y w.
                                  let change : Change r.tenant_id d y =
                                    confirmed r.payout_id v c found
                                      (queued_of_test v.status waiting) (ground arith)
                                      (council_of_model p r subject role at correlation_id
                                        a.audit_hash c (council_of_role context.roles role by_role)
                                        built)
                                      w in
                                  Ends-bind (Quiet-envelope payouts_of payouts-HidesTrail p _)
                                    change
                                    λ event _.
                                      Ends-bind (Quiet-publish payouts-HidesTrail event) change
                                        λ _ _. Ends-Quiet (Quiet-pure payouts_of _) change

  -- A call of `confirm_payout` confirms one queued payout that had no confirmation, as the Council,
  -- or changes nothing.
  pub confirm_payout-Change :
      (r : ConfirmRequest) (g : Gateway)
      → Change r.tenant_id g.payouts (confirm_payout p r g).1.payouts
  confirm_payout-Change r g = (confirm-Ends r g.payouts).at g refl
