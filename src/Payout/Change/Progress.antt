-- ===== src/Payout/Change/Progress.antt =====
-- How one payout may develop: its status only moves forward, and what was agreed stays.
use media_center.Prelude.{
  ℕ, String, ◌≡◌, refl, ◌∙◌, Bool, true, false, none, some, arith, is_some, Bool-cases, inl, inr,
}
use mathlib.Core.Path.{subst}
use media_center.Dict.{Key, key_eq, key_eq_iff, lookup, insert, lookup-insert}
use media_center.Payout.Types.{
  PayoutQueueItem, PayoutStatus, queued, ready_to_execute, canceled, executed, with_status,
  with_confirmation, with_execution, with_payment_status, PayoutConfirmation, ExecutionUpdate,
  PaymentStatusUpdate,
}
use media_center.Payout.State.{payout_key}
use media_center.Payout.Queue.{is_executable}
use media_center.Payout.Change.{
  Payouts, Change, same, added, vetoed, confirmed, readied, executed_at, synced,
}
use media_center.Payout.Change.Item.{IsSound, AllSound}

-- The order of the statuses: a canceled or executed payout keeps its status.
abbrev pub may_become : PayoutStatus → PayoutStatus → Bool
may_become queued _ = true
may_become ready_to_execute ready_to_execute = true
may_become ready_to_execute executed = true
may_become canceled canceled = true
may_become executed executed = true
may_become _ _ = false

-- `w` is a later state of the payout `v`.
pub record Later (v w : PayoutQueueItem) : Type 0 where
  pub forward : may_become v.status w.status ≡ true
  pub same_key : payout_key w ≡ payout_key v
  pub same_member : w.member_id ≡ v.member_id
  pub same_share : w.payout_share ≡ v.payout_share
  pub same_distribution : w.distribution_id ≡ v.distribution_id
  pub same_window : w.veto_until ≡ v.veto_until
  pub confirmed_once : is_some v.confirmation_id ≡ true → w.confirmation_id ≡ v.confirmation_id
  pub decided_once : is_some v.veto_decision_id ≡ true → w.veto_decision_id ≡ v.veto_decision_id
  pub executed_once : is_some v.execution_id ≡ true → w.execution_id ≡ v.execution_id

may_become_refl : (s : PayoutStatus) → may_become s s ≡ true
may_become_refl queued = refl
may_become_refl ready_to_execute = refl
may_become_refl canceled = refl
may_become_refl executed = refl

may_become_trans :
    (s t u : PayoutStatus) → may_become s t ≡ true → may_become t u ≡ true → may_become s u ≡ true
may_become_trans s t u h k = ground arith

pub Later-refl : (v : PayoutQueueItem) → Later v v
Later-refl v = record {
  forward = may_become_refl v.status;
  same_key = refl;
  same_member = refl;
  same_share = refl;
  same_distribution = refl;
  same_window = refl;
  confirmed_once = λ h. refl;
  decided_once = λ h. refl;
  executed_once = λ h. refl;
}

pub Later-trans : {u v w : PayoutQueueItem} → Later u v → Later v w → Later u w
Later-trans {u} {v} {w} a b = record {
  forward = may_become_trans u.status v.status w.status a.forward b.forward;
  same_key = b.same_key ∙ a.same_key;
  same_member = b.same_member ∙ a.same_member;
  same_share = b.same_share ∙ a.same_share;
  same_distribution = b.same_distribution ∙ a.same_distribution;
  same_window = b.same_window ∙ a.same_window;
  confirmed_once = λ h. b.confirmed_once (rw (a.confirmed_once h) h) ∙ a.confirmed_once h;
  decided_once = λ h. b.decided_once (rw (a.decided_once h) h) ∙ a.decided_once h;
  executed_once = λ h. b.executed_once (rw (a.executed_once h) h) ∙ a.executed_once h;
}

module _ (k : Key) (v : PayoutQueueItem) (s : IsSound k v) where
  vetoed-Later :
      (at : ℕ) (hash id : String)
      → v.status ≡ queued
      → Later v (with_status v canceled at (some hash) (some id))
  unfolding with_status
  vetoed-Later at hash id q = record {
    forward = rw q;
    same_key = refl;
    same_member = refl;
    same_share = refl;
    same_distribution = refl;
    same_window = refl;
    confirmed_once = λ h. refl;
    decided_once = λ h. ground (arith, s.decided);
    executed_once = λ h. refl;
  }

  confirmed-Later :
      (c : PayoutConfirmation) → v.confirmation_id ≡ none → Later v (with_confirmation v c)
  unfolding with_confirmation
  confirmed-Later c n = record {
    forward = may_become_refl v.status;
    same_key = refl;
    same_member = refl;
    same_share = refl;
    same_distribution = refl;
    same_window = refl;
    confirmed_once = λ h. ground arith;
    decided_once = λ h. refl;
    executed_once = λ h. refl;
  }

  readied-Later :
      (at : ℕ) → v.status ≡ queued → Later v (with_status v ready_to_execute at none none)
  unfolding with_status
  readied-Later at q = record {
    forward = rw q;
    same_key = refl;
    same_member = refl;
    same_share = refl;
    same_distribution = refl;
    same_window = refl;
    confirmed_once = λ h. refl;
    decided_once = λ h. refl;
    executed_once = λ h. refl;
  }

  executed-Later :
      (at : ℕ) (u : ExecutionUpdate) → is_executable v at ≡ true → Later v (with_execution v u)
  unfolding with_execution is_executable
  executed-Later at u x = record {
    forward = ground arith;
    same_key = refl;
    same_member = refl;
    same_share = refl;
    same_distribution = refl;
    same_window = refl;
    confirmed_once = λ h. refl;
    decided_once = λ h. refl;
    executed_once = λ h. ground (arith, s.carried_out);
  }

  synced-Later : (u : PaymentStatusUpdate) → Later v (with_payment_status v u)
  unfolding with_payment_status
  synced-Later u = record {
    forward = may_become_refl v.status;
    same_key = refl;
    same_member = refl;
    same_share = refl;
    same_distribution = refl;
    same_window = refl;
    confirmed_once = λ h. refl;
    decided_once = λ h. refl;
    executed_once = λ h. refl;
  }

-- The payout at a key is still there, in a later state.
abbrev pub Persists : Key → PayoutQueueItem → Payouts → Type 0
Persists j x d' = (w : PayoutQueueItem) × (lookup j d' ≡ some w) × Later x w

kept :
    (j : Key) (x : PayoutQueueItem) (d d' : Payouts)
    → lookup j d ≡ some x
    → d' ≡ d
    → Persists j x d'
kept j x d d' h e = (x, rw e h, Later-refl x)

-- A write of a later state of the payout at `k` lets every payout persist.
written :
    (k : Key) (v w : PayoutQueueItem) (d d' : Payouts)
    → AllSound d
    → lookup k d ≡ some v
    → payout_key v ≡ payout_key w
    → Later v w
    → d' ≡ insert (payout_key w) w d
    → (j : Key) (x : PayoutQueueItem) → lookup j d ≡ some x
    → Persists j x d'
written k v w d d' all found same_key later e j x h = elim (Bool-cases (key_eq (payout_key w) j)) [
  | inl t ↦ (w, now_new t, subst (λ (y : PayoutQueueItem). Later y w) (old_is t) later)
  | inr f ↦ (x, still_old f, Later-refl x)
]
  where
    now_new : key_eq (payout_key w) j ≡ true → lookup j d' ≡ some w
    now_new t = rw e (ground (arith, lookup-insert (payout_key w) j w d))

    still_old : key_eq (payout_key w) j ≡ false → lookup j d' ≡ some x
    still_old f = rw e (ground (arith, lookup-insert (payout_key w) j w d))

    old_is : key_eq (payout_key w) j ≡ true → v ≡ x
    old_is t = cc ((all k v found).keyed, (key_eq_iff (payout_key w) j).0 t)

-- A new payout leaves the others as they are.
written_new :
    (v : PayoutQueueItem) (d d' : Payouts)
    → lookup (payout_key v) d ≡ none
    → d' ≡ insert (payout_key v) v d
    → (j : Key) (x : PayoutQueueItem) → lookup j d ≡ some x
    → Persists j x d'
written_new v d d' new e j x h = (
  x,
  rw e (ground (arith, lookup-insert (payout_key v) j v d, key_eq_iff (payout_key v) j)),
  Later-refl x,
)

-- Every change of the specification keeps each payout, and lets it only move forward.
pub Change-Persists :
    {t : String} {d d' : Payouts}
    → Change t d d'
    → AllSound d
    → (j : Key) (x : PayoutQueueItem) → lookup j d ≡ some x
    → Persists j x d'
unfolding with_status with_confirmation with_execution with_payment_status
Change-Persists {t} {d} {d'} (same e) all j x h = kept j x d d' h e
Change-Persists {t} {d} {d'} (added v f own new e) all j x h = written_new v d d' new e j x h
Change-Persists {t} {d} {d'} (vetoed i v at hash id found q early e) all j x h =
    written (t, i) v (with_status v canceled at (some hash) (some id)) d d' all found refl
      (vetoed-Later (t, i) v (all (t, i) v found) at hash id q) e j x h
Change-Persists {t} {d} {d'} (confirmed i v c found q n r e) all j x h =
    written (t, i) v (with_confirmation v c) d d' all found refl
      (confirmed-Later (t, i) v (all (t, i) v found) c n) e j x h
Change-Persists {t} {d} {d'} (readied i v at found q y e) all j x h =
    written (t, i) v (with_status v ready_to_execute at none none) d d' all found refl
      (readied-Later (t, i) v (all (t, i) v found) at q) e j x h
Change-Persists {t} {d} {d'} (executed_at i v at u found y e) all j x h =
    written (t, i) v (with_execution v u) d d' all found refl
      (executed-Later (t, i) v (all (t, i) v found) at u y) e j x h
Change-Persists {t} {d} {d'} (synced i v u found y e) all j x h =
    written (t, i) v (with_payment_status v u) d d' all found refl
      (synced-Later (t, i) v (all (t, i) v found) u) e j x h
