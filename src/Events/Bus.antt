-- ===== src/Events/Bus.antt =====
-- InMemoryEventBus.consume and the topic filter.
use media_center.Prelude.{
  ℕ, zero, suc, ◌+◌, ◌≤◌, String, ◌≡◌, refl, ap, Bool, true, false, Option, none, some, List, [],
  ◌∷◌, arith, str_eq, ltb, if◌then◌else◌, length, Bool-cases, inl, inr,
}
use media_center.Prelude.Maybe.{from_some, ◌>>=◌, >>=-eq-some}
use mathlib.Core.Path.{subst}
use media_center.Text.{strip, any_char, is_space, split_on}
use media_center.Value.{ℤ, pos, negsuc}
use media_center.Exec.{from_ok, Result, ok, err, value_error}
use media_center.Events.Envelope.{EventEnvelope, PublishedEvent}
use media_center.Events.Topic.{topic_parts_match}

-- _normalize_binding_key
unfoldable pub normalize_binding_key : String → Option String
normalize_binding_key binding_key =
    let normalized = strip binding_key in
    if str_eq normalized ""
    then none
    else if any_char is_space normalized
    then none
    else some normalized

-- topic_matches; `none` is ValueError
unfoldable pub topic_matches : String → String → Option Bool
topic_matches binding_key routing_key = do
  binding ← normalize_binding_key binding_key
  routing ← normalize_binding_key routing_key
  some (topic_parts_match (split_on b'.' binding) (split_on b'.' routing))

-- limit is not None and limit <= 0
abbrev pub is_bad_limit : Option ℤ → Bool
is_bad_limit none = false
is_bad_limit (some (pos zero)) = true
is_bad_limit (some (pos (suc n))) = false
is_bad_limit (some (negsuc n)) = true

-- limit is None or len(consumed) < limit
abbrev pub can_consume : Option ℤ → ℕ → Bool
can_consume none n = true
can_consume (some (pos limit)) n = ltb n limit
can_consume (some (negsuc limit)) n = false

-- can_consume_more and topic_matches(binding_key, message.routing_key)
abbrev pub is_taken : String → Option ℤ → ℕ → PublishedEvent → Option Bool
is_taken binding_key limit n message =
    if can_consume limit n then topic_matches binding_key message.routing_key else some false

-- consumed.append(message.envelope) or remaining.append(message)
abbrev pub sort_message :
    Bool
    → PublishedEvent
    → List EventEnvelope × List PublishedEvent
    → List EventEnvelope × List PublishedEvent
sort_message true message (consumed, remaining) = (message.envelope ∷ consumed, remaining)
sort_message false message (consumed, remaining) = (consumed, message ∷ remaining)

-- The loop, with the number of envelopes consumed: what it consumes and what remains.
unfoldable pub consume_loop :
    String → Option ℤ → ℕ → List PublishedEvent → Option (List EventEnvelope × List PublishedEvent)
consume_loop binding_key limit n [] = some ([], [])
consume_loop binding_key limit n (message ∷ messages) = do
  taken ← is_taken binding_key limit n message
  rest ← consume_loop binding_key limit (if taken then suc n else n) messages
  some (sort_message taken message rest)

-- What the call answers, and the messages it leaves: an exception leaves them as they were.
abbrev answer :
    List PublishedEvent
    → Option (List EventEnvelope × List PublishedEvent)
    → Result (List EventEnvelope) × List PublishedEvent
answer messages none = (err value_error, messages)
answer messages (some (consumed, remaining)) = (ok consumed, remaining)

-- InMemoryEventBus.consume
unfoldable pub consume :
    String → Option ℤ → List PublishedEvent → Result (List EventEnvelope) × List PublishedEvent
consume binding_key limit messages =
    if is_bad_limit limit
    then (err value_error, messages)
    else answer messages (consume_loop binding_key limit 0 messages)

-- The messages are the envelopes taken and the messages left, each in order; what is taken matches
-- the binding key, and what is left does not, unless the limit was reached before it. The number
-- is that of the envelopes taken before.
pub data Split (binding_key : String) (limit : Option ℤ)
    : ℕ → List PublishedEvent → List EventEnvelope → List PublishedEvent → Type 0 where
  done : {n : ℕ} → Split binding_key limit n [] [] []
  taken :
      {n : ℕ} {m : PublishedEvent} {ms ls : List PublishedEvent} {es : List EventEnvelope}
      → can_consume limit n ≡ true
      → topic_matches binding_key m.routing_key ≡ some true
      → Split binding_key limit (suc n) ms es ls
      → Split binding_key limit n (m ∷ ms) (m.envelope ∷ es) ls
  left :
      {n : ℕ} {m : PublishedEvent} {ms ls : List PublishedEvent} {es : List EventEnvelope}
      → topic_matches binding_key m.routing_key ≡ some false
      → Split binding_key limit n ms es ls
      → Split binding_key limit n (m ∷ ms) es (m ∷ ls)
  full :
      {n : ℕ} {m : PublishedEvent} {ms ls : List PublishedEvent} {es : List EventEnvelope}
      → can_consume limit n ≡ false
      → Split binding_key limit n ms es ls
      → Split binding_key limit n (m ∷ ms) es (m ∷ ls)

-- The loop's result splits the messages.
abbrev Splits :
    String → Option ℤ → ℕ → List PublishedEvent → List EventEnvelope × List PublishedEvent → Type 0
Splits b limit n ms r = Split b limit n ms r.0 r.1

open_step :
    (b : String) (limit : Option ℤ) (n : ℕ) (m : PublishedEvent) (ms : List PublishedEvent)
    (rest : List EventEnvelope × List PublishedEvent) (t : Bool)
    → can_consume limit n ≡ true
    → topic_matches b m.routing_key ≡ some t
    → Splits b limit (if t then suc n else n) ms rest
    → Splits b limit n (m ∷ ms) (sort_message t m rest)
open_step b limit n m ms rest true more e s = taken more e s
open_step b limit n m ms rest false more e s = left e s

full_step :
    (b : String) (limit : Option ℤ) (n : ℕ) (m : PublishedEvent) (ms : List PublishedEvent)
    (rest : List EventEnvelope × List PublishedEvent) (t : Bool)
    → can_consume limit n ≡ false
    → some false ≡ some t
    → Splits b limit (if t then suc n else n) ms rest
    → Splits b limit n (m ∷ ms) (sort_message t m rest)
full_step b limit n m ms rest true no_more e s = cc
full_step b limit n m ms rest false no_more e s = full no_more s

loop-Splits :
    (b : String) (limit : Option ℤ) (n : ℕ) (ms : List PublishedEvent)
    {r : List EventEnvelope × List PublishedEvent}
    → consume_loop b limit n ms ≡ some r
    → Splits b limit n ms r
unfolding consume_loop
loop-Splits b limit n [] {r} h = subst (Splits b limit n []) (from_some h) done
loop-Splits b limit n (m ∷ ms) {r} h =
    let (t, e, h') = >>=-eq-some (is_taken b limit n m) _ h in
    let (rest, e', h'') = >>=-eq-some (consume_loop b limit (if t then suc n else n) ms) _ h' in
    let below = loop-Splits b limit (if t then suc n else n) ms e' in
    subst (Splits b limit n (m ∷ ms)) (from_some h'') (elim (Bool-cases (can_consume limit n)) [
      | inl more ↦ open_step b limit n m ms rest t more (rw more at e) below
      | inr no_more ↦ full_step b limit n m ms rest t no_more (rw no_more at e) below
    ])

consumed_Split :
    (b : String) (limit : Option ℤ) (ms : List PublishedEvent) (es : List EventEnvelope)
    (r : Option (List EventEnvelope × List PublishedEvent))
    → consume_loop b limit 0 ms ≡ r
    → (answer ms r).0 ≡ ok es
    → Split b limit 0 ms es (answer ms r).1
consumed_Split b limit ms es none e h = cc
consumed_Split b limit ms es (some (cs, ls)) e h =
    subst (λ (xs : List EventEnvelope). Split b limit 0 ms xs ls) (from_ok h)
      (loop-Splits b limit 0 ms e)

-- If `consume` returns, the limit was none or positive, and the messages are split between the
-- envelopes returned and the messages that stay, each in the order of publication: what is
-- returned matches the binding key, and what stays does not match it unless the limit was reached
-- before it.
pub consume-Split :
    (b : String) (limit : Option ℤ) (ms : List PublishedEvent) (es : List EventEnvelope)
    → (consume b limit ms).0 ≡ ok es
    → (is_bad_limit limit ≡ false) × Split b limit 0 ms es (consume b limit ms).1
unfolding consume
consume-Split b limit ms es h = elim (Bool-cases (is_bad_limit limit)) [
  | inl bad ↦ cc (rw bad at h)
  | inr good ↦ (good, rw good (consumed_Split b limit ms es _ refl (rw good at h)))
]

within_limit :
    {b : String} {limit n : ℕ} {ms ls : List PublishedEvent} {es : List EventEnvelope}
    → Split b (some (pos limit)) n ms es ls
    → n ≤ limit
    → n + length es ≤ limit
within_limit done h = omega arith
within_limit (taken more e s) h = omega (arith, within_limit s (ground (arith, more)))
within_limit (left e s) h = within_limit s h
within_limit (full c s) h = within_limit s h

-- With a limit, `consume` returns at most so many envelopes.
pub consume-length :
    (b : String) (limit : ℕ) (ms : List PublishedEvent) (es : List EventEnvelope)
    → (consume b (some (pos limit)) ms).0 ≡ ok es
    → length es ≤ limit
consume-length b limit ms es h =
    omega (arith, within_limit (consume-Split b (some (pos limit)) ms es h).1 (omega arith))

nothing_left :
    {b : String} {n : ℕ} (k : ℕ) {ms ls : List PublishedEvent} {es : List EventEnvelope}
    → Split b none n ms es ls
    → consume_loop b none k ls ≡ some ([], ls)
unfolding consume_loop
nothing_left k done = refl
nothing_left k (taken more e s) = nothing_left k s
nothing_left k (left e s) = rw (e, nothing_left k s)
nothing_left k (full c s) = cc

-- If `consume` without a limit returns, calling it again with the same binding key returns nothing
-- and leaves the bus as it is.
pub consume-drained :
    (b : String) (ms : List PublishedEvent) (es : List EventEnvelope)
    → (consume b none ms).0 ≡ ok es
    → let rest = (consume b none ms).1 in consume b none rest ≡ (ok [], rest)
unfolding consume
consume-drained b ms es h =
    ap (answer (consume b none ms).1) (nothing_left 0 (consume-Split b none ms es h).1)
