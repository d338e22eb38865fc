-- ===== src/Events/RoundTrip.antt =====
-- An envelope comes back from its JSON object.
use Prim.Native.String
use media_center.Prelude.{
  ℕ, String, Bool, true, false, ◌||◌, Option, none, some, ◌≡◌, refl, sym, ap, ◌∙◌, inl, inr,
  Bool-cases, str_eq, Option-cases, ◌==◌, if◌then◌else◌,
}
use mathlib.Core.Path.{subst}
use media_center.Prelude.Maybe.{>>=-eq-some, from_some}
use media_center.Text.{strip, any_char, is_space, matches_event_type, split_on}
use media_center.Text.Strip.{strip_again}
use media_center.Value.{get_field}
use media_center.Platform.{Platform}
use media_center.Exec.{Result, ok, err, value_error, from_ok}
use media_center.Events.Envelope.{
  EventEnvelope, normalize_token, normalize_routing_segment, normalize_event_type,
  normalize_schema_version, normalize_causation, normalize_envelope, make_envelope, is_major_minor,
}
use media_center.Events.Serial.{causation_field, optional_string, to_dict, from_dict}
use media_center.Events.Times.{marks_zone, parse_datetime-format_datetime}

-- A test on the stripped text, which gives it
stripped_again :
    (v n : String) (b : String → Bool)
    → (if b (strip v) then some (strip v) else none) ≡ some n
    → (if b (strip n) then some (strip n) else none) ≡ some n
stripped_again v n b h = elim (Bool-cases (b (strip v))) [
  | inr e ↦ let impossible : none ≡ some n = rw e at h in cc
  | inl e ↦
      let same : strip v ≡ n = from_some (rw e at h) in
      let again : strip n ≡ n = ap strip (sym same) ∙ strip_again v ∙ same in
      let passes : b n ≡ true = rw (sym same) e in rw (again, passes) refl
]

normalize_token-again : (v n : String) → normalize_token v ≡ some n → normalize_token n ≡ some n
unfolding normalize_token
normalize_token-again v n h =
    elim (Bool-cases (str_eq (strip v) "" || any_char is_space (strip v))) [
      | inl e ↦ let impossible : none ≡ some n = rw e at h in cc
      | inr e ↦
          let same : strip v ≡ n = from_some (rw e at h) in
          let again : strip n ≡ n = ap strip (sym same) ∙ strip_again v ∙ same in
          let passes : (str_eq n "" || any_char is_space n) ≡ false = rw (sym same) e in
          rw (again, passes) refl
    ]

normalize_event_type-again :
    (v n : String) → normalize_event_type v ≡ some n → normalize_event_type n ≡ some n
unfolding normalize_event_type
normalize_event_type-again v n h = stripped_again v n matches_event_type h

normalize_schema_version-again :
    (p : Platform) (v n : String)
    → normalize_schema_version p v ≡ some n
    → normalize_schema_version p n ≡ some n
unfolding normalize_schema_version
normalize_schema_version-again p v n h =
    stripped_again v n (λ s. is_major_minor p.is_decimal (split_on b'.' s)) h

normalize_causation-again :
    (v n : Option String) → normalize_causation v ≡ some n → normalize_causation n ≡ some n
unfolding normalize_causation
normalize_causation-again none n h = rw (sym (from_some h)) refl
normalize_causation-again (some v) n h =
    let (t, found, e) = >>=-eq-some (normalize_token v) _ h in
    let again = normalize_token-again v t found in rw (sym (from_some e), again) refl

normalize_routing_segment-again :
    (v n : String) → normalize_routing_segment v ≡ some n → normalize_routing_segment n ≡ some n
unfolding normalize_routing_segment
normalize_routing_segment-again v n h = elim (Option-cases (normalize_token v)) [
  | inl e ↦ let impossible : none ≡ some n = rw (e, normalize_routing_segment) at h in cc
  | inr (t, e) ↦ elim (Bool-cases (any_char (λ c. c == b'.') t)) [
    | inl d ↦ let impossible : none ≡ some n = rw (e, d, normalize_routing_segment) at h in cc
    | inr d ↦
        let same : t ≡ n = from_some (rw (e, d, normalize_routing_segment) at h) in
        rw (sym same, normalize_token-again v t e, d, normalize_routing_segment) refl
  ]
]

normalize_envelope-again :
    (p : Platform) (v e : EventEnvelope)
    → normalize_envelope p v ≡ some e
    → normalize_envelope p e ≡ some e
unfolding normalize_envelope
normalize_envelope-again p v e h =
    let (event_id, a, h1) = >>=-eq-some (normalize_token v.event_id) _ h in
    let (type, b, h2) = >>=-eq-some (normalize_event_type v.type) _ h1 in
    let (schema_version, c, h3) = >>=-eq-some (normalize_schema_version p v.schema_version) _ h2 in
    let (tenant_id, d, h4) = >>=-eq-some (normalize_routing_segment v.tenant_id) _ h3 in
    let (source, f, h5) = >>=-eq-some (normalize_token v.source) _ h4 in
    let (correlation_id, g, h6) = >>=-eq-some (normalize_token v.correlation_id) _ h5 in
    let (causation_id, i, h7) = >>=-eq-some (normalize_causation v.causation_id) _ h6 in
    subst (λ x. normalize_envelope p x ≡ some x) (from_some h7)
      (rw
        (
          normalize_token-again v.event_id event_id a,
          normalize_event_type-again v.type type b,
          normalize_schema_version-again p v.schema_version schema_version c,
          normalize_routing_segment-again v.tenant_id tenant_id d,
          normalize_token-again v.source source f,
          normalize_token-again v.correlation_id correlation_id g,
          normalize_causation-again v.causation_id causation_id i,
        )
        refl)

make_envelope-again :
    (p : Platform) (v e : EventEnvelope) → make_envelope p v ≡ ok e → make_envelope p e ≡ ok e
unfolding make_envelope
make_envelope-again p v e h = elim (Option-cases (normalize_envelope p v)) [
  | inl n ↦ let impossible : err value_error ≡ ok e = rw (n, make_envelope) at h in cc
  | inr (x, n) ↦
      let same : x ≡ e = from_ok (rw (n, make_envelope) at h) in
      let again = normalize_envelope-again p v e (n ∙ ap some same) in
      rw (again, make_envelope) refl
]

causation_found :
    (o : Option String) → optional_string (get_field "causation_id" (causation_field o)) ≡ ok o
unfolding get_field
causation_found none = refl
causation_found (some s) = refl

-- If the constructor gives an envelope, and the outside formatter writes its time as a text with
-- the offset +00:00 behind a part that has neither a plus sign nor the letter Z, and the outside
-- parser reads that text as the time, then from_dict gives back the envelope from its to_dict, in
-- which the time is written with the letter Z.
pub from_dict-to_dict :
    (p : Platform) (fromisoformat : String → Result (Bool × ℕ)) (v e : EventEnvelope)
    (body : String)
    → make_envelope p v ≡ ok e
    → p.isoformat e.occurred_at ≡ String.◌++◌ body "+00:00"
    → any_char marks_zone body ≡ false
    → fromisoformat (p.isoformat e.occurred_at) ≡ ok (true, e.occurred_at)
    → from_dict p fromisoformat (to_dict p e) ≡ ok e
unfolding from_dict to_dict get_field
from_dict-to_dict p fromisoformat v e body h written plain read =
    rw
      (
        parse_datetime-format_datetime p fromisoformat e.occurred_at body written plain read,
        causation_found e.causation_id,
      )
      (make_envelope-again p v e h)
