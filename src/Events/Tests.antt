-- ===== src/Events/Tests.antt =====
-- The event bus and the inbox on concrete messages, and the theorems about them there.
use media_center.Events.Envelope.{normalize_causation}
use media_center.Events.Envelope.{normalize_routing_segment}
use media_center.Events.Envelope.{normalize_schema_version}
use media_center.Text.{matches_event_type}
use media_center.Events.Envelope.{normalize_event_type}
use media_center.Events.Envelope.{normalize_envelope}
use media_center.Prelude.{
  ℕ, ◌≡◌, refl, true, false, ◌↔◌, none, some, List, [], ◌∷◌, String, Bool, str_eq, if◌then◌else◌,
}
use media_center.Text.{strip, any_char, split_on, between}
use media_center.Value.{pos, end}
use media_center.Exec.{ok, err, Exec, value_error, Result}
use media_center.Events.Envelope.{EventEnvelope, PublishedEvent, normalize_token, make_envelope}
use media_center.Platform.{Platform}
use media_center.Events.Serial.{to_dict, from_dict}
use media_center.Events.Times.{marks_zone}
use media_center.Events.RoundTrip.{from_dict-to_dict}
use media_center.Events.Topic.{topic_parts_match, Matches, topic_parts_match-Matches}
use media_center.Events.Bus.{
  consume, consume_loop, topic_matches, normalize_binding_key, is_bad_limit, Split, consume-Split,
}
use media_center.Events.Inbox.{Inbox, handle, deliver, begin, has, handle-once}

abbrev queued_event : EventEnvelope
queued_event = record {
  event_id = "e1";
  type = "payout.queued";
  schema_version = "1.0";
  tenant_id = "studio";
  source = "gateway";
  correlation_id = "c1";
  occurred_at = 0;
  payload = end;
  causation_id = none;
}

abbrev vetoed_event : EventEnvelope
vetoed_event = record queued_event { event_id = "e2"; type = "payout.vetoed" }

abbrev messages : List PublishedEvent
messages =
    record { envelope = queued_event; routing_key = "tenant.studio.payout.queued" }
    ∷ record { envelope = vetoed_event; routing_key = "tenant.studio.payout.vetoed" }
    ∷ record { envelope = queued_event; routing_key = "tenant.other.payout.queued" }
    ∷ []

topic_parts_match-Matches_example :
    (topic_parts_match ("tenant" ∷ "*" ∷ "#" ∷ []) ("tenant" ∷ "studio" ∷ "payout" ∷ "queued" ∷ [])
      ≡ true)
    ↔ Matches ("tenant" ∷ "*" ∷ "#" ∷ []) ("tenant" ∷ "studio" ∷ "payout" ∷ "queued" ∷ [])
topic_parts_match-Matches_example =
    topic_parts_match-Matches ("tenant" ∷ "*" ∷ "#" ∷ [])
      ("tenant" ∷ "studio" ∷ "payout" ∷ "queued" ∷ [])

limited_returned :
    (consume "tenant.*.payout.queued" (some (pos 1)) messages).0 ≡ ok (queued_event ∷ [])
unfolding consume consume_loop topic_matches normalize_binding_key topic_parts_match strip any_char
    split_on
limited_returned = refl

unlimited_returned :
    (consume "tenant.studio.#" none messages).0 ≡ ok (queued_event ∷ vetoed_event ∷ [])
unfolding consume consume_loop topic_matches normalize_binding_key topic_parts_match strip any_char
    split_on
unlimited_returned = refl

consume-Split_example :
    (is_bad_limit (some (pos 1)) ≡ false)
    × Split "tenant.*.payout.queued"
        (some (pos 1))
        0
        messages
        (queued_event ∷ [])
        (consume "tenant.*.payout.queued" (some (pos 1)) messages).1
consume-Split_example =
    consume-Split "tenant.*.payout.queued" (some (pos 1)) messages (queued_event ∷ [])
      limited_returned

-- A handler that counts the events, and one that raises.
abbrev count_event : EventEnvelope → Exec ℕ (Unit {0})
count_event e n = (ok tt, 1)

abbrev reject_event : EventEnvelope → Exec ℕ (Unit {0})
reject_event e n = (err value_error, n)

abbrev empty_inbox : Inbox
empty_inbox = record { in_progress = []; completed = [] }

first_handled : (handle queued_event count_event (empty_inbox, 0)).0 ≡ ok true
unfolding handle begin has normalize_token strip any_char
first_handled = refl

first_rejected : (handle queued_event reject_event (empty_inbox, 0)).0 ≡ err value_error
unfolding handle begin has normalize_token strip any_char
first_rejected = refl

handle-once_example :
    let later =
      deliver
        ((vetoed_event, reject_event) ∷ [])
        (handle queued_event count_event (empty_inbox, 0)).1 in
    handle queued_event reject_event later ≡ (ok false, later)
handle-once_example =
    handle-once queued_event queued_event count_event reject_event
      ((vetoed_event, reject_event) ∷ []) (empty_inbox, 0) refl first_handled

abbrev first_second : String
first_second = "0001-01-01T00:00:00+00:00"

abbrev platform : Platform
platform = record {
  sha256_hex = λ text. text;
  dumps_sorted = λ fields. "{}";
  isoformat = λ instant. first_second;
  lower = λ text. text;
  is_decimal = between 48 57;
  uuid = λ n. "id";
}

abbrev read_time : String → Result (Bool × ℕ)
read_time text = if str_eq text first_second then ok (true, 0) else err value_error

spaced_made :
    make_envelope platform (record queued_event { source = " gateway " }) ≡ ok queued_event
unfolding make_envelope normalize_envelope normalize_token strip any_char normalize_event_type
    matches_event_type normalize_schema_version normalize_routing_segment normalize_causation
spaced_made = refl

first_plain : any_char marks_zone "0001-01-01T00:00:00" ≡ false
unfolding any_char
first_plain = refl

from_dict-to_dict_example :
    from_dict platform read_time (to_dict platform queued_event) ≡ ok queued_event
from_dict-to_dict_example =
    from_dict-to_dict platform read_time (record queued_event { source = " gateway " }) queued_event
      "0001-01-01T00:00:00" spaced_made refl first_plain refl
