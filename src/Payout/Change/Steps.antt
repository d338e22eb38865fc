-- ===== src/Payout/Change/Steps.antt =====
-- What the steps that the managers share do to the queue of payouts.
use media_center.Prelude.{String, ◌≡◌, refl, Bool, true, false, some, arith, if◌then◌else◌}
use media_center.Dict.{lookup, insert}
use media_center.Exec.{Result, ok, err, ◌>>=◌, or_raise, raise_if, modify}
use media_center.Payout.Types.{
  PayoutQueueItem, PayoutStatus, queued, VetoDecision, PayoutConfirmation,
}
use media_center.Payout.State.{
  Gateway, payout_key, get_payout, update_payout, add_decision, add_confirmation,
}
use media_center.Payout.Effects.{Any, HidesTrail, Quiet}
use media_center.Payout.Veto.{is_queued}
use media_center.Payout.Change.{Payouts, payouts_of}

pub payouts-HidesTrail : HidesTrail payouts_of
payouts-HidesTrail = record { log = λ g l. refl; bus = λ g b. refl }

pub get_payout-Quiet :
    (t i : String) → Quiet payouts_of (λ d v. lookup (t, i) d ≡ some v) (get_payout t i)
unfolding get_payout ◌>>=◌ or_raise
get_payout-Quiet t i = record { same = λ g. ground arith; gives = λ g a h. ground arith }

-- How a write of `v` at its own key ends.
abbrev pub Written : Payouts → PayoutQueueItem → Result PayoutQueueItem → Payouts → Type 0
Written d v (ok a) d' = d' ≡ insert (payout_key v) v d
Written d v (err e) d' = d' ≡ d

pub update_payout-Written :
    (v : PayoutQueueItem) (d : Payouts) (g : Gateway)
    → payouts_of g ≡ d
    → Written d v (update_payout v g).0 (payouts_of (update_payout v g).1)
unfolding update_payout ◌>>=◌ raise_if modify
update_payout-Written v d g e = ground arith

pub add_decision-Quiet : (v : VetoDecision) → Quiet payouts_of Any (add_decision v)
unfolding add_decision ◌>>=◌ raise_if modify
add_decision-Quiet v = record { same = λ g. ground arith; gives = λ g a h. tt }

pub add_confirmation-Quiet : (c : PayoutConfirmation) → Quiet payouts_of Any (add_confirmation c)
unfolding add_confirmation ◌>>=◌ raise_if modify
add_confirmation-Quiet c = record { same = λ g. ground arith; gives = λ g a h. tt }

pub queued_of_test : (s : PayoutStatus) → (if is_queued s then false else true) ≡ false → s ≡ queued
queued_of_test queued h = refl
queued_of_test _ h = cc

pub true_of_test : (b : Bool) → (if b then false else true) ≡ false → b ≡ true
true_of_test b h = ground arith
