-- ===== src/Payout/Change/History.antt =====
-- Any sequence of calls of the gateway, with any arguments and any answers of the connectors.
use media_center.Prelude.{ℕ, String, ◌≡◌, List, [], ◌∷◌, some}
use media_center.Dict.{Key, lookup}
use media_center.Platform.{Platform}
use media_center.Payout.Types.{PayoutQueueItem}
use media_center.Payout.Commands.{Connectors}
use media_center.Payout.State.{Gateway}
use media_center.Payout.Queue.{QueueRequest, queue_payout, mark_ready_for_execution}
use media_center.Payout.Veto.{VetoRequest, veto_payout}
use media_center.Payout.Confirmation.{ConfirmRequest, confirm_payout}
use media_center.Payout.Execution.{ExecuteRequest, execute_payout, SyncRequest, sync_payment_status}
use media_center.Payout.Change.{Change}
use media_center.Payout.Change.Deciding.{
  queue_payout-Change, veto_payout-Change, confirm_payout-Change,
}
use media_center.Payout.Change.Executing.{
  mark_ready_for_execution-Change, execute_payout-Change, sync_payment_status-Change,
}
use media_center.Payout.Change.Item.{AllSound, Change-AllSound}
use media_center.Payout.Change.Progress.{Later-refl, Later-trans, Persists, Change-Persists}

-- The calls that change the state; the connectors' answers come with the calls that need them.
pub data Operation : Type 0 where
  queue : ℕ → QueueRequest → Operation
  veto : VetoRequest → Operation
  confirm : ConfirmRequest → Operation
  mark_ready : String → String → ℕ → Operation
  execute : Connectors → ExecuteRequest → Operation
  sync : Connectors → SyncRequest → Operation

-- The tenant of a call.
abbrev pub tenant_of : Operation → String
tenant_of (queue hours r) = r.tenant_id
tenant_of (veto r) = r.tenant_id
tenant_of (confirm r) = r.tenant_id
tenant_of (mark_ready t i now) = t
tenant_of (execute k r) = r.tenant_id
tenant_of (sync k r) = r.tenant_id

-- The state after a call, whether it returned or raised.
pub perform : Platform → Operation → Gateway → Gateway
perform p (queue hours r) g = (queue_payout p hours r g).1
perform p (veto r) g = (veto_payout p r g).1
perform p (confirm r) g = (confirm_payout p r g).1
perform p (mark_ready t i now) g = (mark_ready_for_execution t i now g).1
perform p (execute k r) g = (execute_payout p k r g).1
perform p (sync k r) g = (sync_payment_status p k r g).1

unfoldable pub perform_all : Platform → List Operation → Gateway → Gateway
perform_all p [] g = g
perform_all p (op ∷ ops) g = perform_all p ops (perform p op g)

abbrev pub empty_gateway : Gateway
empty_gateway = record {
  payouts = [];
  confirmations = [];
  payout_index = [];
  decisions = [];
  audit_log = [];
  bus = [];
  payments = [];
  status_queries = [];
  chain_records = [];
  notifications = [];
}

-- Each operation of the managers makes at most one change to the queue, on every path.
pub perform-Change :
    (p : Platform) (op : Operation) (g : Gateway)
    → Change (tenant_of op) g.payouts (perform p op g).payouts
unfolding perform
perform-Change p (queue hours r) g = queue_payout-Change p hours r g
perform-Change p (veto r) g = veto_payout-Change p r g
perform-Change p (confirm r) g = confirm_payout-Change p r g
perform-Change p (mark_ready t i now) g = mark_ready_for_execution-Change t i now g
perform-Change p (execute k r) g = execute_payout-Change p k r g
perform-Change p (sync k r) g = sync_payment_status-Change p k r g

from_sound :
    (p : Platform) (ops : List Operation) (g : Gateway)
    → AllSound g.payouts
    → AllSound (perform_all p ops g).payouts
unfolding perform_all
from_sound p [] g h = h
from_sound p (op ∷ ops) g h =
    from_sound p ops (perform p op g) (Change-AllSound (perform-Change p op g) h)

pub empty-AllSound : AllSound empty_gateway.payouts
unfolding lookup
empty-AllSound k v h = cc

-- After any sequence of calls on a new gateway, whatever their arguments and the connectors'
-- answers, every payout is sound: it stands under its own key and requires two factors, it is
-- confirmed by the Council if it is ready or executed, and it has a veto decision exactly if it is
-- canceled and an execution exactly if it is executed.
pub perform_all-AllSound :
    (p : Platform) (ops : List Operation) → AllSound (perform_all p ops empty_gateway).payouts
perform_all-AllSound p ops = from_sound p ops empty_gateway empty-AllSound

-- From a gateway whose payouts are sound, no sequence of calls loses a payout or changes its
-- member, share, distribution or veto window; its status only moves forward, so that a canceled
-- payout stays canceled and an executed one executed; and a confirmation, a veto decision or an
-- execution, once there, is never replaced.
pub perform_all-Persists :
    (p : Platform) (ops : List Operation) (g : Gateway)
    → AllSound g.payouts
    → (k : Key) (v : PayoutQueueItem) → lookup k g.payouts ≡ some v
    → Persists k v (perform_all p ops g).payouts
unfolding perform_all
perform_all-Persists p [] g all k v h = (v, h, Later-refl v)
perform_all-Persists p (op ∷ ops) g all k v h =
    let (w, found, later) = Change-Persists (perform-Change p op g) all k v h in
    let (x, found', later') =
      perform_all-Persists p ops (perform p op g) (Change-AllSound (perform-Change p op g) all) k w
        found in
    (x, found', Later-trans later later')
