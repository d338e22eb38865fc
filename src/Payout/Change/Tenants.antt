-- ===== src/Payout/Change/Tenants.antt =====
-- One tenant's calls do not reach another tenant's payouts.
use media_center.Prelude.{
  String, ◌≡◌, refl, ◌∙◌, ap, false, none, some, List, [], ◌∷◌, arith, str_eq, eq_iff,
}
use mathlib.Core.Path.{subst}
use media_center.Dict.{Key, key_eq_iff, lookup, insert, lookup-insert}
use media_center.Platform.{Platform}
use media_center.Payout.Types.{
  PayoutQueueItem, with_status, with_confirmation, with_execution, with_payment_status, canceled,
  ready_to_execute,
}
use media_center.Payout.State.{Gateway, payout_key}
use media_center.Payout.Change.{
  Payouts, Change, same, added, vetoed, confirmed, readied, executed_at, synced,
}
use media_center.Payout.Change.Item.{AllSound, Change-AllSound}
use media_center.Payout.Change.History.{Operation, tenant_of, perform, perform_all, perform-Change}

-- The payouts of every tenant but `t` are the same.
abbrev pub SameForOthers : String → Payouts → Payouts → Type 0
SameForOthers t d d' = (j : Key) → str_eq j.0 t ≡ false → lookup j d' ≡ lookup j d

written_own :
    (t : String) (w : PayoutQueueItem) (d d' : Payouts)
    → w.tenant_id ≡ t
    → d' ≡ insert (payout_key w) w d
    → SameForOthers t d d'
written_own t w d d' own e (u, i) other = rw e (
    ground (
      arith,
      lookup-insert (payout_key w) (u, i) w d,
      key_eq_iff (payout_key w) (u, i),
      eq_iff u t,
      other,
      own,
    ))

own_tenant :
    (t i : String) (v : PayoutQueueItem) (d : Payouts)
    → AllSound d
    → lookup (t, i) d ≡ some v
    → v.tenant_id ≡ t
own_tenant t i v d all found = ap (λ (k : Key). k.0) (all (t, i) v found).keyed

-- A change for one tenant leaves the payouts of all others as they are.
Change-SameForOthers :
    {t : String} {d d' : Payouts} → Change t d d' → AllSound d → SameForOthers t d d'
unfolding with_status with_confirmation with_execution with_payment_status
Change-SameForOthers {t} {d} {d'} (same e) all j other = ap (λ (x : Payouts). lookup j x) e
Change-SameForOthers {t} {d} {d'} (added v f own new e) all j other =
    written_own t v d d' own e j other
Change-SameForOthers {t} {d} {d'} (vetoed i v at hash id found q early e) all j other =
    written_own t (with_status v canceled at (some hash) (some id)) d d'
      (own_tenant t i v d all found) e j other
Change-SameForOthers {t} {d} {d'} (confirmed i v c found q n r e) all j other =
    written_own t (with_confirmation v c) d d' (own_tenant t i v d all found) e j other
Change-SameForOthers {t} {d} {d'} (readied i v at found q y e) all j other =
    written_own t (with_status v ready_to_execute at none none) d d' (own_tenant t i v d all found)
      e j other
Change-SameForOthers {t} {d} {d'} (executed_at i v at u found y e) all j other =
    written_own t (with_execution v u) d d' (own_tenant t i v d all found) e j other
Change-SameForOthers {t} {d} {d'} (synced i v u found y e) all j other =
    written_own t (with_payment_status v u) d d' (own_tenant t i v d all found) e j other

-- Every call is of the tenant `t`.
abbrev pub AreOf : String → List Operation → Type 0
AreOf t [] = Unit
AreOf t (op ∷ ops) = (tenant_of op ≡ t) × AreOf t ops

-- From a gateway whose payouts are sound, a sequence of calls for one tenant leaves every payout of
-- every other tenant as it was, and gives the others no new payout.
pub perform_all-SameForOthers :
    (p : Platform) (t : String) (ops : List Operation) (g : Gateway)
    → AllSound g.payouts
    → AreOf t ops
    → SameForOthers t g.payouts (perform_all p ops g).payouts
unfolding perform_all
perform_all-SameForOthers p t [] g all calls j other = refl
perform_all-SameForOthers p t (op ∷ ops) g all calls j other =
    let change = perform-Change p op g in
    let first : SameForOthers t g.payouts (perform p op g).payouts =
      subst (λ (u : String). SameForOthers u g.payouts (perform p op g).payouts) calls.0
        (Change-SameForOthers change all) in
    perform_all-SameForOthers p t ops (perform p op g) (Change-AllSound change all) calls.1 j other
    ∙ first j other
