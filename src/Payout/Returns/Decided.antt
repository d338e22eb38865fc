-- ===== src/Payout/Returns/Decided.antt =====
-- A payout that was queued, vetoed or confirmed.
use media_center.Prelude.{
  ℕ, ◌+◌, ◌*◌, ◌≤◌, String, ◌≡◌, eq_iff, refl, true, false, none, some, arith, ◌<◌, ap,
}
use media_center.Dict.{lookup, insert}
use media_center.Platform.{Platform, max_instant}
use media_center.Exec.{Result, ok, err}
use media_center.Payout.Types.{
  PayoutQueueItem, queued, canceled, with_status, with_confirmation, VetoDecision,
  PayoutConfirmation,
}
use media_center.Payout.State.{Gateway, payout_key, update_payout, add_payout}
use media_center.Payout.Effects.{
  Quiet-value, Quiet-lift, Quiet-or_raise, Quiet-raise_if, Quiet-audit, Quiet-envelope,
  Quiet-publish,
}
use media_center.Payout.Queue.{
  QueueRequest, PayoutQueueResult, queue_payout, queued_item, veto_until_of,
}
use media_center.Payout.Validation.{queue_item_model}
use media_center.Payout.Veto.{VetoRequest, veto_payout}
use media_center.Payout.Confirmation.{
  ConfirmRequest, TwoFactorConfirmation, confirm_payout, require_matching_two_factor_confirmation,
  optional_eq, given_and_different,
}
use media_center.Access.{TenantContext, AccessPolicy, assert_requested_tenant, require_access}
use mathlib.Core.Path.{subst}
use media_center.Payout.Change.{Payouts, payouts_of}
use media_center.Payout.Change.Steps.{
  payouts-HidesTrail, get_payout-Quiet, Written, update_payout-Written, add_decision-Quiet,
  add_confirmation-Quiet, queued_of_test, true_of_test,
}
use media_center.Payout.Change.Deciding.{Added, add_payout-Added}
use media_center.Payout.Returns.Rules.{Returns, Returns-step, Returns-bind, Returns-last}

pub update_payout-Returns :
    (v : PayoutQueueItem) (d : Payouts)
    → Returns payouts_of (λ a y. y ≡ insert (payout_key v) v d) d (update_payout v)
update_payout-Returns v d = record {
  at = λ g a e h. by_result (update_payout v g).0 _ a (update_payout-Written v d g e) h;
}
  where
    by_result :
        (r : Result PayoutQueueItem) (y : Payouts) (a : PayoutQueueItem)
        → Written d v r y
        → r ≡ ok a
        → y ≡ insert (payout_key v) v d
    by_result (ok _) y a w h = w
    by_result (err e) y a w h = cc

tenant_of_assert :
    (t : String) (c : TenantContext) (u : Unit {0})
    → assert_requested_tenant (some t) c ≡ ok u
    → c.tenant_id ≡ t
unfolding assert_requested_tenant
tenant_of_assert t c u h = ground (arith, eq_iff t c.tenant_id)

context_of_access :
    (policy : AccessPolicy) (c c' : TenantContext) → require_access policy c ≡ ok c' → c' ≡ c
unfolding require_access
context_of_access policy c c' h = ground arith

-- The second factor is for this tenant, this subject, this operation and this payout.
pub record IsMatching (f : TwoFactorConfirmation) (t i : String) (c : TenantContext) : Type 0 where
  pub tenant : f.tenant_id ≡ t
  pub subject : optional_eq f.subject c.subject ≡ true
  pub operation : f.operation ≡ "payout.confirm"
  pub resource : f.resource_id ≡ i
  pub correlation : given_and_different f.correlation_id c.correlation_id ≡ false

pub IsMatching-of_check :
    (f : TwoFactorConfirmation) (t i : String) (c : TenantContext) (u : Unit {0})
    → require_matching_two_factor_confirmation f t i c ≡ ok u
    → IsMatching f t i c
unfolding require_matching_two_factor_confirmation
IsMatching-of_check f t i c u h = record {
  tenant = ground (arith, eq_iff f.tenant_id t);
  subject = ground arith;
  operation = ground (arith, eq_iff f.operation "payout.confirm");
  resource = ground (arith, eq_iff f.resource_id i);
  correlation = ground arith;
}

module _ (p : Platform) where
  -- What a returned veto has done.
  abbrev pub Vetoed : VetoRequest → Payouts → VetoDecision → Payouts → Type 0
  Vetoed r d decision d' =
      (v : PayoutQueueItem) × (lookup (r.tenant_id, r.payout_id) d ≡ some v)
      × (v.status ≡ queued)
      × (r.now < v.veto_until)
      × (d'
          ≡ insert (payout_key v)
              (record v {
                status = canceled;
                updated_at = r.now;
                audit_hash = decision.audit_hash;
                veto_decision_id = some decision.decision_id;
              })
              d)

  veto-Returns :
      (r : VetoRequest) (d : Payouts) → Returns payouts_of (Vetoed r d) d (veto_payout p r)
  unfolding veto_payout with_status
  veto-Returns r d = Returns-bind (get_payout-Quiet r.tenant_id r.payout_id) λ v found.
      Returns-bind (Quiet-raise_if payouts_of _ _) λ _ waiting.
        Returns-bind (Quiet-raise_if payouts_of _ _) λ _ early.
          Returns-bind (Quiet-audit payouts_of payouts-HidesTrail p _) λ a _.
            Returns-bind (Quiet-or_raise payouts_of _ _) λ decision _.
              Returns-bind (add_decision-Quiet decision) λ _ _.
                Returns-step (update_payout _) _ (update_payout-Returns _ d) λ b y w.
                  Returns-bind (Quiet-envelope payouts_of payouts-HidesTrail p _) λ event _.
                    Returns-bind (Quiet-publish payouts-HidesTrail event) λ _ _.
                      Returns-last (Quiet-value payouts_of _)
                        λ x is. (v, found, queued_of_test v.status waiting, ground arith, rw is w)

  -- If `veto_payout` returns a decision, the payout was queued and its veto window had not ended,
  -- and in the queue it alone has changed: its status is canceled, its audit hash and its veto
  -- decision are those of the decision, it is updated at the time of the call, and its other fields
  -- are as before.
  pub veto_payout-Vetoed :
      (r : VetoRequest) (g : Gateway) (decision : VetoDecision)
      → (veto_payout p r g).0 ≡ ok decision
      → Vetoed r g.payouts decision (veto_payout p r g).1.payouts
  veto_payout-Vetoed r g decision h = (veto-Returns r g.payouts).at g decision refl h

  -- What a returned confirmation has done.
  abbrev pub Confirmed : ConfirmRequest → Payouts → PayoutConfirmation → Payouts → Type 0
  Confirmed r d c d' =
      (v : PayoutQueueItem) × (lookup (r.tenant_id, r.payout_id) d ≡ some v)
      × (v.status ≡ queued)
      × (v.confirmation_id ≡ none)
      × (r.context.tenant_id ≡ r.tenant_id)
      × IsMatching r.two_factor_confirmation r.tenant_id r.payout_id r.context
      × (d'
          ≡ insert (payout_key v)
              (record v {
                confirmation_id = some c.confirmation_id;
                confirmed_by = some c.actor_id;
                confirmed_by_hash = some c.actor_hash;
                confirmed_by_role = some c.actor_role;
                confirmed_at = some c.confirmed_at;
                audit_hash = c.audit_hash;
                updated_at = c.confirmed_at;
              })
              d)

  confirm-Returns :
      (r : ConfirmRequest) (d : Payouts) → Returns payouts_of (Confirmed r d) d (confirm_payout p r)
  unfolding confirm_payout with_confirmation
  confirm-Returns r d = Returns-bind (Quiet-lift payouts_of _) λ u asserted.
      Returns-bind (Quiet-lift payouts_of _) λ context allowed.
        Returns-bind (Quiet-lift payouts_of _) λ subject _.
          Returns-bind (get_payout-Quiet r.tenant_id r.payout_id) λ v found.
            Returns-bind (Quiet-raise_if payouts_of _ _) λ _ waiting.
              Returns-bind (Quiet-raise_if payouts_of _ _) λ _ unconfirmed.
                Returns-bind (Quiet-lift payouts_of _) λ u' matched.
                  Returns-bind (Quiet-lift payouts_of _) λ role _.
                    Returns-bind (Quiet-lift payouts_of _) λ at _.
                      Returns-bind (Quiet-lift payouts_of _) λ correlation_id _.
                        Returns-bind (Quiet-audit payouts_of payouts-HidesTrail p _) λ a _.
                          Returns-bind (Quiet-or_raise payouts_of _ _) λ c _.
                            Returns-bind (add_confirmation-Quiet c) λ _ _.
                              Returns-step (update_payout _) _ (update_payout-Returns _ d) λ b y w.
                                Returns-bind (Quiet-envelope payouts_of payouts-HidesTrail p _)
                                  λ event _.
                                    Returns-bind (Quiet-publish payouts-HidesTrail event) λ _ _.
                                      Returns-last (Quiet-value payouts_of _) λ x is. (
                                        v,
                                        found,
                                        queued_of_test v.status waiting,
                                        ground arith,
                                        tenant_of_assert r.tenant_id r.context u asserted,
                                        subst
                                            (IsMatching r.two_factor_confirmation r.tenant_id
                                              r.payout_id)
                                            (context_of_access _ r.context context allowed)
                                            (IsMatching-of_check _ _ _ context u' matched),
                                        rw is w,
                                      )

  -- If `confirm_payout` returns a confirmation, the caller's tenant is the payout's, the second
  -- factor was for this tenant, subject, operation and payout, and the payout was queued and
  -- unconfirmed; and in the queue it alone has changed: its confirmation fields are the identifier,
  -- actor, actor hash, role and time of the confirmation, its audit hash is the confirmation's, it is
  -- updated at the time of the confirmation, and its other fields are as before.
  pub confirm_payout-Confirmed :
      (r : ConfirmRequest) (g : Gateway) (c : PayoutConfirmation)
      → (confirm_payout p r g).0 ≡ ok c
      → Confirmed r g.payouts c (confirm_payout p r g).1.payouts
  confirm_payout-Confirmed r g c h = (confirm-Returns r g.payouts).at g c refl h

  -- What a returned call of `queue_payout` has done.
  abbrev pub Queued : ℕ → QueueRequest → Payouts → PayoutQueueResult → Payouts → Type 0
  Queued hours r d result d' =
      (r.requires_2fa ≡ true)
      × (result.payout.veto_until ≡ r.now + hours * 3600000000)
      × (result.payout.veto_until ≤ max_instant)
      × (result.payout.created_at ≡ r.now)
      × (result.payout.status ≡ queued)
      × (lookup (payout_key result.payout) d ≡ none)
      × (d' ≡ insert (payout_key result.payout) result.payout d)

  window_of_model :
      (r : QueueRequest) (until : ℕ) (hash : String) (v : PayoutQueueItem)
      → queue_item_model p (queued_item p r until hash) ≡ some v
      → (v.veto_until ≡ until) × (v.status ≡ queued) × (v.created_at ≡ r.now)
  unfolding queue_item_model queued_item
  window_of_model r until hash v h = ground arith

  until_of_window :
      (now hours until : ℕ)
      → veto_until_of p now hours ≡ ok until
      → (until ≡ now + hours * 3600000000) × (until ≤ max_instant)
  unfolding veto_until_of
  until_of_window now hours until h = ground arith

  add_payout-Returns :
      (v : PayoutQueueItem) (d : Payouts)
      → Returns payouts_of (λ a y. Added d v (ok a) y) d (add_payout v)
  add_payout-Returns v d = record {
    at = λ g a e h. by_result (add_payout v g).0 _ a (add_payout-Added v d g e) h;
  }
    where
      by_result :
          (r : Result PayoutQueueItem) (y : Payouts) (a : PayoutQueueItem)
          → Added d v r y
          → r ≡ ok a
          → Added d v (ok a) y
      by_result (ok _) y a w h = w
      by_result (err e) y a w h = cc

  queue-Returns :
      (hours : ℕ) (r : QueueRequest) (d : Payouts)
      → Returns payouts_of (Queued hours r d) d (queue_payout p hours r)
  unfolding queue_payout
  queue-Returns hours r d = Returns-bind (Quiet-raise_if payouts_of _ _) λ _ two.
      Returns-bind (Quiet-lift payouts_of _) λ until in_time.
        Returns-bind (Quiet-audit payouts_of payouts-HidesTrail p _) λ a _.
          Returns-bind (Quiet-or_raise payouts_of _ _) λ v built.
            Returns-step (add_payout v) _ (add_payout-Returns v d) λ b y w.
              Returns-bind (Quiet-envelope payouts_of payouts-HidesTrail p _) λ event _.
                Returns-bind (Quiet-publish payouts-HidesTrail event) λ _ _.
                  Returns-last (Quiet-value payouts_of _) λ x is.
                    let (window, status, created) = window_of_model r until a.audit_hash v built in
                    let (ends, possible) = until_of_window r.now hours until in_time in
                    let same_item : x.payout ≡ v = ap (λ (q : PayoutQueueResult). q.payout) is in
                    (
                      true_of_test r.requires_2fa two,
                      rw (same_item, window) ends,
                      rw (same_item, window) possible,
                      rw same_item created,
                      rw same_item status,
                      rw same_item w.0,
                      rw same_item w.1,
                    )

  -- If `queue_payout` returns, two factors were asked for, the payout is queued under a key that was
  -- free, it is created at the time of the call, its veto window ends the given number of hours, in
  -- microseconds, after the call and no later than the last instant, and the queue has changed by
  -- this payout alone.
  pub queue_payout-Queued :
      (hours : ℕ) (r : QueueRequest) (g : Gateway) (result : PayoutQueueResult)
      → (queue_payout p hours r g).0 ≡ ok result
      → Queued hours r g.payouts result (queue_payout p hours r g).1.payouts
  queue_payout-Queued hours r g result h = (queue-Returns hours r g.payouts).at g result refl h
