-- ===== src/Policy/Rules.antt =====
-- What one policy makes of the facts: `_policy_reasons` and its helpers.
use media_center.Prelude.{
  String, Bool, true, false, not, Option, none, some, List, [], ◌∷◌, str_eq, if◌then◌else◌,
}
use media_center.Text.{strip, concat}
use media_center.Value.{Float, Json, null, int, float, str, Fields, get_field}
use media_center.Numbers.{at_most, less, float_of_int, json_eq}
use media_center.Exec.{Result, ok, err, policy_manager, overflow_error}
use media_center.Policy.{PolicyDecision, allow, escalate, PolicyRecord}

-- The rest of a function after a call that may raise.
infixl 5 ◌>>=◌
abbrev pub ◌>>=◌ : {A B : Type 0} → Result A → (A → Result B) → Result B
ok value >>= next = next value
err error >>= next = err error

unfoldable pub nonempty_text : String → Result String
nonempty_text raw =
    let stripped = strip raw in if str_eq stripped "" then err policy_manager else ok stripped

abbrev pub default_or_raise : Option String → Result String
default_or_raise none = err policy_manager
default_or_raise (some default) = ok default

abbrev pub as_text : Option Json → Option String → Result String
as_text none default = default_or_raise default
as_text (some null) default = default_or_raise default
as_text (some (str raw)) default = nonempty_text raw
as_text (some _) default = err policy_manager

-- _string_field
unfoldable pub string_field : Fields → String → Option String → Result String
string_field value key default = as_text (get_field key value) default

abbrev pub or_overflow : Option Float → Result Float
or_overflow none = err overflow_error
or_overflow (some x) = ok x

abbrev pub as_float : Option Json → Result Float
as_float (some (int n)) = or_overflow (float_of_int n)
as_float (some (float x)) = ok x
as_float _ = err policy_manager

-- _number_field
unfoldable pub number_field : Fields → String → Result Float
number_field value key = as_float (get_field key value)

-- _decision_on_violation
unfoldable pub decision_on_violation : Fields → Result PolicyDecision
decision_on_violation value = do
  decision ← string_field value "decision_on_violation" (some "escalate")
  if str_eq decision "allow"
      then ok allow
      else if str_eq decision "escalate"
      then ok escalate
      else err policy_manager

-- _threshold_violation
unfoldable pub threshold_violation : Fields → String → Float → Result Bool
threshold_violation value operator observed =
    if str_eq operator "lte"
    then compared (λ t. less t observed)
    else if str_eq operator "lt"
    then compared (λ t. at_most t observed)
    else if str_eq operator "gte"
    then compared (λ t. less observed t)
    else if str_eq operator "gt"
    then compared (λ t. at_most observed t)
    else if str_eq operator "between"
    then outside
    else err policy_manager
  where
    compared : (Float → Bool) → Result Bool
    compared test = do threshold ← number_field value "threshold"; ok (test threshold)

    -- min <= observed <= max reads `max` only if the first comparison holds.
    below : Float → Result Bool
    below low =
        if at_most low observed
        then (do high ← number_field value "max"; ok (not (at_most observed high)))
        else ok true

    outside : Result Bool
    outside = do low ← number_field value "min"; below low

abbrev pub violation_reason : String → String
violation_reason target = concat (target ∷ "_policy_violation" ∷ [])

abbrev pub reason_for : PolicyDecision → Fields → String → Result (List String)
reason_for allow value target = ok []
reason_for escalate value target = do
  reason ← string_field value "reason" (some (violation_reason target))
  ok (reason ∷ [])

-- What follows the test for a violation, for both kinds of policy.
abbrev pub if_violated : Bool → Fields → String → Result (List String)
if_violated false value target = ok []
if_violated true value target = do
  decision ← decision_on_violation value
  reason_for decision value target

-- _threshold_policy_reasons
unfoldable pub threshold_policy_reasons : Fields → Fields → Result (List String)
threshold_policy_reasons value facts = do
  target ← string_field value "target" none
  operator ← string_field value "operator" none
  observed ← number_field facts target
  violation ← threshold_violation value operator observed
  if_violated violation value target

abbrev pub expected_value : Option Json → Result Json
expected_value none = err policy_manager
expected_value (some null) = err policy_manager
expected_value (some v) = ok v

-- facts.get(target) == expected
unfoldable pub fact_equals : Option Json → Json → Bool
fact_equals none expected = json_eq null expected
fact_equals (some fact) expected = json_eq fact expected

-- _flag_policy_reasons
unfoldable pub flag_policy_reasons : Fields → Fields → Result (List String)
flag_policy_reasons value facts = do
  target ← string_field value "target" none
  expected ← expected_value (get_field "expected" value)
  if_violated (not (fact_equals (get_field target facts) expected)) value target

-- _policy_reasons
unfoldable pub policy_reasons : PolicyRecord → Fields → Result (List String)
policy_reasons policy facts = do
  kind ← string_field policy.value "kind" (some "metadata")
  if str_eq kind "threshold"
      then threshold_policy_reasons policy.value facts
      else if str_eq kind "flag"
      then flag_policy_reasons policy.value facts
      else ok []
