-- ===== src/Lib.antt =====
-- Media Center, a platform of Python services: a verification library for its payout gateway, for
-- its policy manager, and for what the services take from libs/shared: events, audit records,
-- authentication, checks of tenants and roles, quotas of tenants, and the guard of outside
-- dependencies.
--
-- A payout of a member's share is queued by a clerk, may be vetoed by the Council while its veto
-- window is open, must be confirmed by the Council with a second factor, and is then executed: a
-- payment gateway is handed a command, an audit chain the hash of the audit record, and a
-- notification gateway a message. Each step writes one hash-only audit record and publishes one
-- event. The second factor is a confirmation that the one-time codes of libs/shared/auth.py give.
-- The policy manager keeps the versions of a tenant's policies and decides from facts whether an
-- operation is allowed or goes to people; its updates too write audit records and publish events.
--
-- Files and code:
--   Payout and its children: services/hitl-payout-gateway/hitl_payout_gateway. Payout/Types holds
--     PayoutQueueItem with `with_status`, `with_confirmation`, `with_execution` and
--     `with_payment_status` (queue_manager.py); Payout/Commands what goes to the connectors and
--     comes back (execution_manager.py); Payout/Fields and Payout/Validation the pydantic fields and
--     models as checks; Payout/State the repositories and the rest of the state; Payout/Queue,
--     Payout/Veto, Payout/Confirmation and Payout/Execution the managers of queue_manager.py,
--     veto_manager.py, confirmation_manager.py and execution_manager.py. Payout/Change holds
--     the changes that the managers write, and Payout/Change/Own the abstract specification of the
--     queue, with the fields of each change; Payout/Effects, Payout/Returns, Payout/Payments and
--     Payout/Listing reason about the operations; Payout/Memory holds the in-memory connectors, and
--     Payout/Tests runs everything on examples.
--   Redaction: audit_redaction.py of the same package.
--   Policy and its children: services/policy-manager/policy_manager/manager.py. Policy holds the
--     records, keys and default policies; Policy/Rules the findings of one policy; Policy/Manager the
--     repository, `update_policy` and `apply_policies`; the others reason about them.
--   AuditLog: libs/shared/audit_logger.py.
--   Events and its children: libs/shared/events.py.
--   Access and its children: libs/shared/rbac.py, and the tenant check of libs/shared/tenant.py, on a
--     given context. Access/Endpoints has the endpoint policies and the guard in front of a service.
--   Resources and its children: libs/shared/tenant_resources.py. Resources/Manager is the in-memory
--     manager, Resources/Calls its calls; Resources/Effects says what each of them, the snapshot
--     included, does to the state, and the others reason from that.
--   Tenant and its children: the trusted headers of libs/shared/tenant.py and, in Tenant/Records, its
--     TenantScopedRepository.
--   Auth and its children: Auth and Auth/Jwt are the claims and tokens of libs/shared/tenant.py;
--     Auth/Sessions is AuthTokenService and its store, Auth/Totp is TOTPService, both of
--     libs/shared/auth.py; the others reason about them.
--   Resilience and its children: libs/shared/resilience.py. Resilience/Steps has the operations of
--     the circuit breaker, Resilience/Execute the loop of `execute`; the others reason about them.
--   Text: the text methods that the services use, and the patterns of libs/shared/models.py;
--     Text/Strip and Text/Split have their laws.
--   Value: JSON values, integers and doubles as they are carried. Numbers: comparisons and equality
--     of Python's numbers and of JSON values.
--   Exec: a call that changes state and may raise; what was written before an exception stays.
--     Exec/Rules has its laws.
--   Dict: Python's dictionaries, in insertion order.
--   Platform: what comes from outside: SHA-256, json.dumps, isoformat, case folding, Unicode's
--     decimal digits, generated identifiers; and the `_format_datetime` that the services share.
--
-- Conventions. An instant is a number of microseconds since 0001-01-01T00:00:00Z, always in UTC; the
-- caller of an operation passes `now`, which the source takes from the clock if it is not given, and
-- `fresh`, which numbers the identifiers that the call may generate. Times past datetime.max raise,
-- as in the source. Texts are lists of code points. A dictionary lookup of a missing key is `none`,
-- and the error that the source makes of it is written out. Where a function reads a clock twice, it
-- is given two times. The clocks of authentication and of quotas give whole seconds,
-- except to the check of a token, which compares doubles. The seconds of the guard are any type
-- with the operations that the source uses on floats, and its clock is a function of the number of readings; a power of its
-- backoff is taken not to overflow. A generator of random texts is a function of how many it has
-- given. All functions are total by structural recursion, so there is no fuel: the loops of the guard
-- and of the one-time codes count down the attempts and the drifts that are left.
--
-- A connector is a function from a command to an answer or an exception, given with each call: the
-- theorems hold for every answer. The commands handed over are kept in the state, in order. In the
-- same way the outcomes of a guarded operation are given, one for each attempt.
--
-- Not modelled: logging; error messages beyond their reason; parsing of `now` from a text; the
-- trimming that pydantic applies to the texts inside metadata (inside the value of a policy it is
-- modelled); the OSError of a time stamp far beyond the years of datetime; concurrent interleavings
-- within one operation of the payout gateway (the managers hold no lock, and each `await` here ends before the
-- next call starts; those of a guard are modelled as steps); negative settings, which the constructors
-- refuse; the text of an envelope as JSON; NaN inside a list or an object, which Python compares by
-- identity; the sorted list of policies; the making of one-time secrets and their addresses; the
-- RabbitMQ adapter; the HTTP handlers; and the other services.
pub mod Prelude
pub mod Dict
pub mod Text
pub mod Value
pub mod Redaction
pub mod Numbers
pub mod Policy
pub mod Resilience
pub mod Tenant
pub mod Resources
pub mod Exec
pub mod Platform
pub mod AuditLog
pub mod Events
pub mod Access
pub mod Auth
pub mod Payout
