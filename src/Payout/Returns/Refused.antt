-- ===== src/Payout/Returns/Refused.antt =====
-- The calls that are refused before they change anything.
use media_center.Prelude.{
  ℕ, ◌≡◌, refl, ◌∙◌, ap, Bool, true, false, Option, none, some, arith, ltb, leb, is_some,
  if◌then◌else◌, Bool-cases, Option-cases, inl, inr,
}
use media_center.Prelude.Maybe.{from_some}
use media_center.Dict.{lookup}
use media_center.Platform.{Platform}
use media_center.Exec.{
  Error, err, ◌>>=◌, raise_if, lift, payout_not_found, payout_not_executable, not_queued,
  veto_window_closed, already_canceled, already_executed, window_open, not_confirmed,
}
use media_center.Payout.Types.{PayoutQueueItem, PayoutStatus, canceled, executed}
use media_center.Payout.Commands.{Connectors}
use media_center.Payout.State.{Gateway, Call, get_payout}
use media_center.Payout.Veto.{VetoRequest, veto_payout, is_queued}
use media_center.Payout.Execution.Failure.{require_executable}
use media_center.Payout.Execution.{ExecuteRequest, execute_payout}
use media_center.Payout.Payments.Sent.{bind-ok, bind-err, get_payout-found, get_payout-missing}

-- Why a veto is refused, if it is.
unfoldable pub veto_refusal : Option PayoutQueueItem → ℕ → Option Error
veto_refusal none at = some payout_not_found
veto_refusal (some v) at =
    if is_queued v.status
    then (if ltb at v.veto_until then none else some veto_window_closed)
    else some (payout_not_executable not_queued)

abbrev settled_error : PayoutStatus → Option Error
settled_error canceled = some (payout_not_executable already_canceled)
settled_error executed = some (payout_not_executable already_executed)
settled_error _ = none

abbrev first_error : Option Error → Option Error → Option Error
first_error (some e) _ = some e
first_error none e = e

-- Why an execution is refused, if it is.
unfoldable pub execution_refusal : Option PayoutQueueItem → ℕ → Option Error
execution_refusal none at = some payout_not_found
execution_refusal (some v) at = first_error (settled_error v.status) (
    if ltb at v.veto_until
    then some (payout_not_executable window_open)
    else if is_some v.confirmation_id
    then none
    else some (payout_not_executable not_confirmed))

refused_check :
    (v : PayoutQueueItem) (at : ℕ) (g : Gateway) (e : Error)
    → execution_refusal (some v) at ≡ some e
    → require_executable v at g ≡ (err e, g)
unfolding execution_refusal require_executable ◌>>=◌ raise_if lift
refused_check v at g e h = ground arith

raise_if-true :
    {B : Type 0} (b : Bool) (e : Error) (f : Unit {0} → Call B) (g : Gateway)
    → b ≡ true
    → (raise_if b e >>= f) g ≡ (err e, g)
unfolding raise_if
raise_if-true b e f g h = bind-err (raise_if b e) f g (rw h refl)

raise_if-false :
    {B : Type 0} (b : Bool) (e : Error) (f : Unit {0} → Call B) (g : Gateway)
    → b ≡ false
    → (raise_if b e >>= f) g ≡ f tt g
unfolding raise_if
raise_if-false b e f g h = bind-ok (raise_if b e) f g (rw h refl)

module _ (p : Platform) where
  veto_checks :
      (r : VetoRequest) (g : Gateway) (v : PayoutQueueItem) (e : Error)
      → lookup (r.tenant_id, r.payout_id) g.payouts ≡ some v
      → veto_refusal (some v) r.now ≡ some e
      → veto_payout p r g ≡ (err e, g)
  unfolding veto_payout veto_refusal
  veto_checks r g v e found h =
      bind-ok (get_payout r.tenant_id r.payout_id) _ g (get_payout-found _ _ g found)
      ∙ elim (Bool-cases (is_queued v.status)) [
        | inl waiting ↦
            let late : leb v.veto_until r.now ≡ true = ground (arith, h, waiting) in
            let same : veto_window_closed ≡ e = ground (arith, h, waiting) in
            raise_if-false _ _ _ g (rw waiting refl)
            ∙ raise_if-true _ _ _ g late
            ∙ ap (λ (x : Error). (err x, g)) same
        | inr settled ↦
            raise_if-true _ _ _ g (rw settled refl)
            ∙ ap (λ (x : Error). (err x, g)) (from_some (rw settled at h))
      ]

  -- A veto of an unknown payout, of one that is not queued, and of one whose window has ended is
  -- refused with the exception for it, and the state is what it was.
  pub veto_payout-refused :
      (r : VetoRequest) (g : Gateway) (e : Error)
      → veto_refusal (lookup (r.tenant_id, r.payout_id) g.payouts) r.now ≡ some e
      → veto_payout p r g ≡ (err e, g)
  unfolding veto_payout veto_refusal
  veto_payout-refused r g e h = elim (Option-cases (lookup (r.tenant_id, r.payout_id) g.payouts)) [
    | inl missing ↦
        bind-err (get_payout r.tenant_id r.payout_id) _ g (get_payout-missing _ _ g missing)
        ∙ ap (λ (x : Error). (err x, g)) (from_some (rw missing at h))
    | inr (v, found) ↦ veto_checks r g v e found (rw found at h)
  ]

  -- An execution of an unknown payout, of a canceled or executed one, of one inside its veto window
  -- and of one without a confirmation is refused with the exception for it, before any connector is
  -- called: the state is what it was.
  pub execute_payout-refused :
      (k : Connectors) (r : ExecuteRequest) (g : Gateway) (e : Error)
      → execution_refusal (lookup (r.tenant_id, r.payout_id) g.payouts) r.now ≡ some e
      → execute_payout p k r g ≡ (err e, g)
  unfolding execute_payout execution_refusal
  execute_payout-refused k r g e h =
      elim (Option-cases (lookup (r.tenant_id, r.payout_id) g.payouts)) [
        | inl missing ↦
            bind-err (get_payout r.tenant_id r.payout_id) _ g (get_payout-missing _ _ g missing)
            ∙ ap (λ (x : Error). (err x, g)) (from_some (rw missing at h))
        | inr (v, found) ↦
            bind-ok (get_payout r.tenant_id r.payout_id) _ g (get_payout-found _ _ g found)
            ∙ bind-err (require_executable v r.now) _ g (refused_check v r.now g e (rw found at h))
      ]
