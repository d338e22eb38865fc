-- ===== src/Payout/Change/Item.antt =====
-- What every payout in the queue satisfies, and how it may develop, for one change of the
-- specification.
use media_center.Prelude.{
  ℕ, String, ◌≡◌, refl, sym, Bool, true, false, none, some, arith, is_some, Bool-cases, inl, inr,
}
use mathlib.Core.Path.{subst}
use media_center.Dict.{Key, key_eq, key_eq_iff, lookup, insert, lookup-insert}
use media_center.Payout.Types.{
  PayoutQueueItem, PayoutStatus, queued, ready_to_execute, canceled, executed, with_status,
  PayoutConfirmation, with_confirmation, ExecutionUpdate, with_execution, PaymentStatusUpdate,
  with_payment_status,
}
use media_center.Payout.State.{payout_key}
use media_center.Payout.Queue.{is_executable}
use media_center.Payout.Change.{
  Payouts, IsFresh, Change, same, added, vetoed, confirmed, readied, executed_at, synced,
}

abbrev pub is_settled : PayoutStatus → Bool
is_settled ready_to_execute = true
is_settled executed = true
is_settled _ = false

abbrev pub is_canceled : PayoutStatus → Bool
is_canceled canceled = true
is_canceled _ = false

abbrev pub is_executed : PayoutStatus → Bool
is_executed executed = true
is_executed _ = false

-- A payout is stored under its own key and asks for two factors; one that is ready or executed is
-- confirmed, a confirmation is the Council's, the canceled payouts are those with a veto decision,
-- and the executed ones those with an execution.
pub record IsSound (k : Key) (v : PayoutQueueItem) : Type 0 where
  pub keyed : payout_key v ≡ k
  pub two_factor : v.requires_2fa ≡ true
  pub settled_confirmed : is_settled v.status ≡ true → is_some v.confirmation_id ≡ true
  pub by_council : is_some v.confirmation_id ≡ true → v.confirmed_by_role ≡ some "council"
  pub decided : is_some v.veto_decision_id ≡ is_canceled v.status
  pub carried_out : is_some v.execution_id ≡ is_executed v.status

abbrev pub AllSound : Payouts → Type 0
AllSound d = (k : Key) (v : PayoutQueueItem) → lookup k d ≡ some v → IsSound k v

insert-AllSound :
    (v : PayoutQueueItem) (d : Payouts)
    → AllSound d
    → IsSound (payout_key v) v
    → AllSound (insert (payout_key v) v d)
insert-AllSound v d all sound j w h = elim (Bool-cases (key_eq (payout_key v) j)) [
  | inl e ↦
      subst (λ (k : Key). IsSound k w) ((key_eq_iff (payout_key v) j).0 e)
        (subst (λ (x : PayoutQueueItem). IsSound (payout_key v) x) (found_new e) sound)
  | inr e ↦ all j w (found_old e)
]
  where
    found_new : key_eq (payout_key v) j ≡ true → v ≡ w
    found_new e = cc (lookup-insert (payout_key v) j v d, e, h)

    found_old : key_eq (payout_key v) j ≡ false → lookup j d ≡ some w
    found_old e = ground (arith, lookup-insert (payout_key v) j v d)

module _ (v : PayoutQueueItem) where
  fresh-IsSound : IsFresh v → IsSound (payout_key v) v
  fresh-IsSound f = record {
    keyed = refl;
    two_factor = f.two_factor;
    settled_confirmed = ground arith;
    by_council = ground arith;
    decided = ground arith;
    carried_out = ground arith;
  }

  module _ (k : Key) (s : IsSound k v) where
    vetoed-IsSound :
        (at : ℕ) (hash id : String)
        → v.status ≡ queued
        → IsSound (payout_key v) (with_status v canceled at (some hash) (some id))
    unfolding with_status
    vetoed-IsSound at hash id q = record {
      keyed = refl;
      two_factor = s.two_factor;
      settled_confirmed = λ h. cc;
      by_council = s.by_council;
      decided = refl;
      carried_out = ground (arith, s.carried_out);
    }

    confirmed-IsSound :
        (c : PayoutConfirmation)
        → v.status ≡ queued
        → c.actor_role ≡ "council"
        → IsSound (payout_key v) (with_confirmation v c)
    unfolding with_confirmation
    confirmed-IsSound c q r = record {
      keyed = refl;
      two_factor = s.two_factor;
      settled_confirmed = λ h. refl;
      by_council = λ h. rw r;
      decided = s.decided;
      carried_out = s.carried_out;
    }

    readied-IsSound :
        (at : ℕ)
        → v.status ≡ queued
        → is_executable v at ≡ true
        → IsSound (payout_key v) (with_status v ready_to_execute at none none)
    unfolding with_status is_executable
    readied-IsSound at q x = record {
      keyed = refl;
      two_factor = s.two_factor;
      settled_confirmed = λ h. ground arith;
      by_council = s.by_council;
      decided = ground (arith, s.decided);
      carried_out = ground (arith, s.carried_out);
    }

    executed-IsSound :
        (at : ℕ) (u : ExecutionUpdate)
        → is_executable v at ≡ true
        → IsSound (payout_key v) (with_execution v u)
    unfolding with_execution is_executable
    executed-IsSound at u x = record {
      keyed = refl;
      two_factor = s.two_factor;
      settled_confirmed = λ h. ground arith;
      by_council = s.by_council;
      decided = ground (arith, s.decided);
      carried_out = refl;
    }

    synced-IsSound : (u : PaymentStatusUpdate) → IsSound (payout_key v) (with_payment_status v u)
    unfolding with_payment_status
    synced-IsSound u = record {
      keyed = refl;
      two_factor = s.two_factor;
      settled_confirmed = s.settled_confirmed;
      by_council = s.by_council;
      decided = s.decided;
      carried_out = s.carried_out;
    }

-- Every change of the specification keeps all payouts sound.
pub Change-AllSound : {t : String} {d d' : Payouts} → Change t d d' → AllSound d → AllSound d'
unfolding with_status with_confirmation with_execution with_payment_status
Change-AllSound {t} {d} (same e) all = subst AllSound (sym e) all
Change-AllSound {t} {d} (added v f own new e) all =
    subst AllSound (sym e) (insert-AllSound v d all (fresh-IsSound v f))
Change-AllSound {t} {d} (vetoed i v at hash id found q early e) all = subst AllSound (sym e) (
    insert-AllSound (with_status v canceled at (some hash) (some id)) d all
      (vetoed-IsSound v (t, i) (all (t, i) v found) at hash id q))
Change-AllSound {t} {d} (confirmed i v c found q n r e) all = subst AllSound (sym e) (
    insert-AllSound (with_confirmation v c) d all
      (confirmed-IsSound v (t, i) (all (t, i) v found) c q r))
Change-AllSound {t} {d} (readied i v at found q x e) all = subst AllSound (sym e) (
    insert-AllSound (with_status v ready_to_execute at none none) d all
      (readied-IsSound v (t, i) (all (t, i) v found) at q x))
Change-AllSound {t} {d} (executed_at i v at u found x e) all = subst AllSound (sym e) (
    insert-AllSound (with_execution v u) d all
      (executed-IsSound v (t, i) (all (t, i) v found) at u x))
Change-AllSound {t} {d} (synced i v u found x e) all = subst AllSound (sym e) (
    insert-AllSound (with_payment_status v u) d all
      (synced-IsSound v (t, i) (all (t, i) v found) u))
