-- ===== src/Payout/Memory.antt =====
-- The in-memory connectors of execution_manager.py, which stand for the external gateways in local
-- runs.
use media_center.Prelude.{
  ℕ, String, ◌≡◌, refl, ◌∙◌, ap, Option, none, some, List, [], ◌∷◌, ◌++◌, arith,
}
use media_center.Prelude.Maybe.{◌>>=◌}
use media_center.Text.{concat, text_field, token_field}
use media_center.AuditLog.{optional_field}
use media_center.Exec.{from_ok, ConnectorError, Error, Result, ok, err, connector, validation_error}
use media_center.Dict.{Key, Dict, key_eq_iff, lookup, insert, lookup-insert, lookup-insert_self}
use media_center.Payout.Types.{succeeded}
use media_center.Payout.Commands.{
  PayoutPaymentCommand, PayoutPaymentResult, BlockchainAuditRecordCommand,
  BlockchainAuditRecordResult, PayoutNotificationCommand, PayoutNotificationResult,
}
use media_center.Payout.Fields.{connector_name_field}

-- The models of the connectors' answers.
unfoldable pub payment_result_model : PayoutPaymentResult → Option PayoutPaymentResult
payment_result_model d = do
  execution_ref ← text_field 256 d.execution_ref
  connector_name ← connector_name_field d.connector_name
  gateway_payment_id ← optional_field (text_field 256) d.gateway_payment_id
  some (record d {
    execution_ref = execution_ref;
    connector_name = connector_name;
    gateway_payment_id = gateway_payment_id;
  })

unfoldable pub chain_result_model : BlockchainAuditRecordResult → Option BlockchainAuditRecordResult
chain_result_model d = do
  audit_chain_ref ← text_field 256 d.audit_chain_ref
  connector_name ← connector_name_field d.connector_name
  some (record d { audit_chain_ref = audit_chain_ref; connector_name = connector_name })

unfoldable pub notification_result_model :
    PayoutNotificationResult → Option PayoutNotificationResult
notification_result_model d = do
  notification_id ← token_field d.notification_id
  connector_name ← connector_name_field d.connector_name
  some (record d { notification_id = notification_id; connector_name = connector_name })

-- A model is built, or ValidationError is raised.
abbrev from_option : {A : Type 0} → Error → Option A → Result A
from_option e none = err e
from_option e (some a) = ok a

pub record InMemoryPaymentConnector : Type 0 where
  pub connector_name : String
  pub fail_with : Option ConnectorError
  pub commands : List PayoutPaymentCommand
  pub results : Dict PayoutPaymentResult

abbrev pub result_key : PayoutPaymentCommand → Key
result_key c = (c.tenant_id, c.execution_id)

unfoldable pub new_payment_result : PayoutPaymentCommand → String → PayoutPaymentResult
new_payment_result c name = record {
  execution_ref = concat ("payment-" ∷ c.execution_id ∷ []);
  connector_name = name;
  executed_at = c.requested_at;
  gateway_payment_id = none;
  gateway_status = succeeded;
}

-- A new result is kept, if it is one.
abbrev pub keep_result :
    PayoutPaymentCommand
    → InMemoryPaymentConnector
    → Option PayoutPaymentResult
    → Result PayoutPaymentResult × InMemoryPaymentConnector
keep_result c m none = (err validation_error, m)
keep_result c m (some r) = (ok r, record m { results = insert (result_key c) r m.results })

-- The existing result, or a new one.
abbrev pub find_result :
    PayoutPaymentCommand
    → InMemoryPaymentConnector
    → Option PayoutPaymentResult
    → Result PayoutPaymentResult × InMemoryPaymentConnector
find_result c m (some r) = (ok r, m)
find_result c m none =
    keep_result c m (payment_result_model (new_payment_result c m.connector_name))

abbrev pub unless_failing :
    PayoutPaymentCommand
    → InMemoryPaymentConnector
    → Option ConnectorError
    → Result PayoutPaymentResult × InMemoryPaymentConnector
unless_failing c m (some e) = (err (connector e), m)
unless_failing c m none =
    find_result c (record m { commands = m.commands ++ (c ∷ []) }) (lookup (result_key c) m.results)

-- InMemoryPaymentConnector.execute_payout
unfoldable pub pay_in_memory :
    PayoutPaymentCommand
    → InMemoryPaymentConnector
    → Result PayoutPaymentResult × InMemoryPaymentConnector
pay_in_memory c m = unless_failing c m m.fail_with

pub pay_all_in_memory :
    List PayoutPaymentCommand → InMemoryPaymentConnector → InMemoryPaymentConnector
pay_all_in_memory [] m = m
pay_all_in_memory (c ∷ cs) m = pay_all_in_memory cs (pay_in_memory c m).1

pub record InMemoryBlockchainAuditConnector : Type 0 where
  pub connector_name : String
  pub fail_with : Option ConnectorError
  pub records : List BlockchainAuditRecordCommand

-- InMemoryBlockchainAuditConnector.record_audit_hash
unfoldable pub record_in_memory :
    BlockchainAuditRecordCommand
    → InMemoryBlockchainAuditConnector
    → Result BlockchainAuditRecordResult × InMemoryBlockchainAuditConnector
record_in_memory c m = elim m.fail_with [
  | some e ↦ (err (connector e), m)
  | none ↦ (
    from_option validation_error (
        chain_result_model (record {
          audit_chain_ref = concat ("audit-chain-" ∷ c.event_id ∷ []);
          connector_name = m.connector_name;
          recorded_at = c.occurred_at;
        })),
    record m { records = m.records ++ (c ∷ []) },
  )
]

pub record InMemoryNotificationConnector : Type 0 where
  pub connector_name : String
  pub fail_with : Option ConnectorError
  pub notifications : List PayoutNotificationCommand

-- InMemoryNotificationConnector.notify_payout_executed, at the time `now` of the clock
unfoldable pub notify_in_memory :
    ℕ
    → PayoutNotificationCommand
    → InMemoryNotificationConnector
    → Result PayoutNotificationResult × InMemoryNotificationConnector
notify_in_memory now c m = elim m.fail_with [
  | some e ↦ (err (connector e), m)
  | none ↦ (
    from_option validation_error (
        notification_result_model (record {
          notification_id = c.notification_id;
          connector_name = m.connector_name;
          accepted_at = now;
        })),
    record m { notifications = m.notifications ++ (c ∷ []) },
  )
]

-- A connector that works and has a result at a key.
abbrev Has : Key → PayoutPaymentResult → InMemoryPaymentConnector → Type 0
Has k r m = (m.fail_with ≡ none) × (lookup k m.results ≡ some r)

kept_Has :
    (c : PayoutPaymentCommand) (m : InMemoryPaymentConnector) (o : Option PayoutPaymentResult)
    (k : Key) (r : PayoutPaymentResult)
    → lookup (result_key c) m.results ≡ none
    → Has k r m
    → Has k r (keep_result c m o).1
kept_Has c m none k r free h = h
kept_Has c m (some s) k r free h = (
  h.0,
  ground
      (arith, lookup-insert (result_key c) k s m.results, key_eq_iff (result_key c) k, free, h.1),
)

found_Has :
    (c : PayoutPaymentCommand) (m : InMemoryPaymentConnector) (o : Option PayoutPaymentResult)
    (k : Key) (r : PayoutPaymentResult)
    → lookup (result_key c) m.results ≡ o
    → Has k r m
    → Has k r (find_result c m o).1
found_Has c m none k r e h = kept_Has c m _ k r e h
found_Has c m (some s) k r e h = h

unless_Has :
    (c : PayoutPaymentCommand) (m : InMemoryPaymentConnector) (o : Option ConnectorError) (k : Key)
    (r : PayoutPaymentResult)
    → Has k r m
    → Has k r (unless_failing c m o).1
unless_Has c m none k r h =
    found_Has c (record m { commands = m.commands ++ (c ∷ []) }) (lookup (result_key c) m.results) k
      r refl h
unless_Has c m (some e) k r h = h

pay_all_Has :
    (cs : List PayoutPaymentCommand) (m : InMemoryPaymentConnector) (k : Key)
    (r : PayoutPaymentResult)
    → Has k r m
    → Has k r (pay_all_in_memory cs m)
unfolding pay_all_in_memory pay_in_memory
pay_all_Has [] m k r h = h
pay_all_Has (c ∷ cs) m k r h =
    pay_all_Has cs (pay_in_memory c m).1 k r (unless_Has c m m.fail_with k r h)

-- What a payment that returned leaves.
kept_returned :
    (c : PayoutPaymentCommand) (m : InMemoryPaymentConnector) (o : Option PayoutPaymentResult)
    (r : PayoutPaymentResult)
    → m.fail_with ≡ none
    → (keep_result c m o).0 ≡ ok r
    → Has (result_key c) r (keep_result c m o).1
kept_returned c m none r works h = cc
kept_returned c m (some s) r works h =
    (works, lookup-insert_self (result_key c) s m.results ∙ ap some (from_ok h))

found_returned :
    (c : PayoutPaymentCommand) (m : InMemoryPaymentConnector) (o : Option PayoutPaymentResult)
    (r : PayoutPaymentResult)
    → m.fail_with ≡ none
    → lookup (result_key c) m.results ≡ o
    → (find_result c m o).0 ≡ ok r
    → Has (result_key c) r (find_result c m o).1
found_returned c m none r works e h = kept_returned c m _ r works h
found_returned c m (some s) r works e h = (works, e ∙ ap some (from_ok h))

returned :
    (c : PayoutPaymentCommand) (m : InMemoryPaymentConnector) (o : Option ConnectorError)
    (r : PayoutPaymentResult)
    → m.fail_with ≡ o
    → (unless_failing c m o).0 ≡ ok r
    → Has (result_key c) r (unless_failing c m o).1
returned c m none r works h =
    found_returned c (record m { commands = m.commands ++ (c ∷ []) }) _ r works refl h
returned c m (some e) r works h = cc

again :
    (c : PayoutPaymentCommand) (m : InMemoryPaymentConnector) (o : Option ConnectorError)
    (r : PayoutPaymentResult)
    → o ≡ none
    → lookup (result_key c) m.results ≡ some r
    → (unless_failing c m o).0 ≡ ok r
again c m none r e found =
    ap
      (λ (x : Option PayoutPaymentResult).
        (find_result c (record m { commands = m.commands ++ (c ∷ []) }) x).0)
      found
again c m (some x) r e found = cc

-- If the in-memory payment connector has answered a command, it gives the same answer to every later
-- command of the same tenant with the same execution identifier, whatever came between.
pub pay_in_memory-same :
    (c c' : PayoutPaymentCommand) (cs : List PayoutPaymentCommand) (m : InMemoryPaymentConnector)
    (r : PayoutPaymentResult)
    → c'.tenant_id ≡ c.tenant_id
    → c'.execution_id ≡ c.execution_id
    → (pay_in_memory c m).0 ≡ ok r
    → (pay_in_memory c' (pay_all_in_memory cs (pay_in_memory c m).1)).0 ≡ ok r
unfolding pay_in_memory
pay_in_memory-same c c' cs m r same_tenant same_execution h =
    let later : InMemoryPaymentConnector = pay_all_in_memory cs (pay_in_memory c m).1 in
    let kept : Has (result_key c) r later =
      pay_all_Has cs (pay_in_memory c m).1 (result_key c) r (returned c m m.fail_with r refl h) in
    again c' later later.fail_with r kept.0 (rw (same_tenant, same_execution) kept.1)
