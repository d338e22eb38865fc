-- ===== src/Exec.antt =====
-- Calls that change state and may raise. What was written before an exception stays written, so
-- the state comes back beside the exception too; `catch` is `try`/`except Exception`.
pub mod Rules
use media_center.Prelude.{◌≡◌, ap, String, Bool, Option, none, some, if◌then◌else◌}

-- PayoutConnectorError's fields
pub record ConnectorError : Type 0 where
  pub connector_name : String
  pub error_code : String
  pub retryable : Bool

-- What the messages of the domain errors tell apart.
pub data Reason : Type 0 where
  duplicate_id already_canceled already_executed not_queued window_open not_confirmed : Reason
  already_confirmed no_subject two_factor_mismatch correlation_mismatch no_role : Reason
  no_correlation_id not_found_in_tenant not_sent : Reason

-- The exceptions, by class.
pub data Error : Type 0 where
  value_error validation_error overflow_error : Error
  forbidden tenant_isolation unauthorized type_error : Error
  payout_queue : Reason → Error
  payout_not_found : Error
  payout_not_executable : Reason → Error
  veto_window_closed : Error
  policy_manager policy_not_found : Error
  connector : ConnectorError → Error

pub data Result {ℓ} (A : Type ℓ) : Type ℓ where
  ok : A → Result A
  err : Error → Result A

abbrev pub Exec {ℓ} : Type ℓ → Type ℓ → Type ℓ
Exec State A = State → Result A × State

module _ {ℓ} {S A : Type ℓ} where
  unfoldable pub pure : A → Exec S A
  pure value state = (ok value, state)

  unfoldable pub raise : Error → Exec S A
  raise error state = (err error, state)

  unfoldable pub lift : Result A → Exec S A
  lift result state = (result, state)

  unfoldable pub gets : (S → A) → Exec S A
  gets view state = (ok (view state), state)

  -- What a handler does with the result of the body.
  abbrev pub handle : Result A → (Error → Exec S A) → Exec S A
  handle (ok value) handler state = (ok value, state)
  handle (err error) handler state = handler error state

  unfoldable pub catch : Exec S A → (Error → Exec S A) → Exec S A
  catch m h s = let (r, s') = m s in handle r h s'

module _ {ℓ} {S A B : Type ℓ} where
  -- What follows a call, on the state that it left: the rest of the block, or its exception.
  abbrev pub continue : Result A → (A → Exec S B) → Exec S B
  continue (ok value) next after = next value after
  continue (err error) next after = (err error, after)

  infixl 5 ◌>>=◌
  unfoldable pub ◌>>=◌ : Exec S A → (A → Exec S B) → Exec S B
  unfolding gets lift raise pure
  ◌>>=◌ call next before = let (result, after) = call before in continue result next after

-- if test: raise e
unfoldable pub raise_if : {S : Type 0} → Bool → Error → Exec S (Unit {0})
raise_if test e s = (if test then err e else ok tt, s)

-- A write.
unfoldable pub modify : {S : Type 0} → (S → S) → Exec S (Unit {0})
modify f s = (ok tt, f s)

-- A pydantic model is built, or ValidationError is raised.
unfoldable pub or_raise : {S A : Type 0} → Error → Option A → Exec S A
or_raise e none s = (err e, s)
or_raise e (some a) s = (ok a, s)

infixl 5 ◌>>◌
abbrev pub ◌>>◌ {ℓ} : {S A B : Type ℓ} → Exec S A → Exec S B → Exec S B
first >> second = first >>= λ _. second

pub from_ok : {A : Type 0} {a b : A} → ok a ≡ ok b → a ≡ b
from_ok {A} {a} h = ap (or_default a) h
  where
    or_default : A → Result A → A
    or_default d (ok x) = x
    or_default d (err e) = d
