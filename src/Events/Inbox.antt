-- ===== src/Events/Inbox.antt =====
-- IdempotentEventProcessor with InMemoryEventIdempotencyStore.
use media_center.Prelude.{
  String, ◌≡◌, refl, ◌∙◌, ap, Bool, true, false, not, ◌&&◌, ◌||◌, Option, none, some, List, [], ◌∷◌,
  arith, str_eq, eq_iff, if◌then◌else◌, Bool-cases, inl, inr,
}
use media_center.Exec.{Error, Result, ok, err, Exec, value_error}
use media_center.Events.Envelope.{EventEnvelope, normalize_token}

-- The two sets, each as a list without a text twice.
pub record Inbox : Type 0 where
  pub in_progress : List String
  pub completed : List String

-- event_id in a set
unfoldable pub has : String → List String → Bool
has id [] = false
has id (x ∷ xs) = str_eq x id || has id xs

-- set.add
pub add : String → List String → List String
add id xs = if has id xs then xs else id ∷ xs

-- set.discard
pub discard : String → List String → List String
discard id [] = []
discard id (x ∷ xs) = let rest = discard id xs in if str_eq x id then rest else x ∷ rest

-- The event is known, or it is marked as in progress.
abbrev pub begin_unless : Bool → String → Inbox → Bool × Inbox
begin_unless true id s = (false, s)
begin_unless false id s = (true, record s { in_progress = add id s.in_progress })

-- InMemoryEventIdempotencyStore.begin, for a normalised identifier
unfoldable pub begin : String → Inbox → Bool × Inbox
begin id s = begin_unless (has id s.completed || has id s.in_progress) id s

-- InMemoryEventIdempotencyStore.complete
unfoldable pub complete : String → Inbox → Inbox
complete id s = record { in_progress = discard id s.in_progress; completed = add id s.completed }

-- InMemoryEventIdempotencyStore.fail
pub fail : String → Inbox → Inbox
fail id s = record s { in_progress = discard id s.in_progress }

-- What an event handler shares with the rest of the program besides the inbox is a state `S`.
module _ {S : Type 0} where
  -- What follows the handler: complete, or fail and raise.
  abbrev pub settle : String → Inbox → Result (Unit {0}) × S → Result Bool × (Inbox × S)
  settle id s (ok _, x) = (ok true, (complete id s, x))
  settle id s (err e, x) = (err e, (fail id s, x))

  abbrev pub when_started :
      String → Bool × Inbox → Exec S (Unit {0}) → S → Result Bool × (Inbox × S)
  when_started id (false, s) handler x = (ok false, (s, x))
  when_started id (true, s) handler x = settle id s (handler x)

  abbrev pub with_id : Option String → Exec S (Unit {0}) → Inbox × S → Result Bool × (Inbox × S)
  with_id none handler (s, x) = (err value_error, (s, x))
  with_id (some id) handler (s, x) = when_started id (begin id s) handler x

  -- IdempotentEventProcessor.handle; the store normalises the identifier, and ValueError ends the
  -- call where it cannot.
  unfoldable pub handle :
      EventEnvelope → (EventEnvelope → Exec S (Unit {0})) → Inbox × S → Result Bool × (Inbox × S)
  handle envelope handler = with_id (normalize_token envelope.event_id) (handler envelope)

  -- A sequence of deliveries, each with its handler; an exception of one does not end the others.
  pub deliver : List (EventEnvelope × (EventEnvelope → Exec S (Unit {0}))) → Inbox × S → Inbox × S
  deliver [] s = s
  deliver ((envelope, handler) ∷ rest) s = deliver rest (handle envelope handler s).1

-- What holds of the two sets.
has-add : (id j : String) (xs : List String) → has j (add id xs) ≡ (str_eq id j || has j xs)
unfolding has add
has-add id j xs = elim (Bool-cases (str_eq id j)) [
  | inl e ↦
      let same : has id xs ≡ has j xs = ap (λ (k : String). has k xs) ((eq_iff id j).0 e) in
      ground (arith, same, e)
  | inr e ↦ ground (arith, e)
]

has-discard :
    (id j : String) (xs : List String) → has j (discard id xs) ≡ (not (str_eq id j) && has j xs)
unfolding has discard
has-discard id j [] = ground arith
has-discard id j (x ∷ xs) =
    ground (arith, has-discard id j xs, eq_iff x id, eq_iff id j, eq_iff x j)

discard-absent : (id : String) (xs : List String) → has id xs ≡ false → discard id xs ≡ xs
unfolding has discard
discard-absent id [] h = refl
discard-absent id (x ∷ xs) h = ground (arith, discard-absent id xs)

added_then_discarded :
    (id : String) (xs : List String) → has id xs ≡ false → discard id (add id xs) ≡ xs
unfolding add has discard
added_then_discarded id xs h = rw h (ground (arith, eq_iff id id, discard-absent id xs h))

module _ {S : Type 0} where
  -- A completed event stays completed.
  settled_keeps :
      (id j : String) (s : Inbox) (r : Result (Unit {0}) × S)
      → has j s.completed ≡ true
      → has j (settle id s r).1.0.completed ≡ true
  unfolding complete fail
  settled_keeps id j s (ok _, x) h = ground (arith, has-add id j s.completed, h)
  settled_keeps id j s (err e, x) h = h

  started_keeps :
      (id j : String) (s : Inbox) (known : Bool) (f : Exec S (Unit {0})) (x : S)
      → has j s.completed ≡ true
      → has j (when_started id (begin_unless known id s) f x).1.0.completed ≡ true
  started_keeps id j s true f x h = h
  started_keeps id j s false f x h =
      settled_keeps id j (record s { in_progress = add id s.in_progress }) (f x) h

  known_keeps :
      (o : Option String) (f : Exec S (Unit {0})) (j : String) (s : Inbox × S)
      → has j s.0.completed ≡ true
      → has j (with_id o f s).1.0.completed ≡ true
  unfolding begin
  known_keeps none f j (s, x) h = h
  known_keeps (some id) f j (s, x) h = started_keeps id j s _ f x h

  deliver_keeps :
      (ds : List (EventEnvelope × (EventEnvelope → Exec S (Unit {0})))) (j : String) (s : Inbox × S)
      → has j s.0.completed ≡ true
      → has j (deliver ds s).0.completed ≡ true
  unfolding deliver handle
  deliver_keeps [] j s h = h
  deliver_keeps ((e, f) ∷ ds) j s h =
      deliver_keeps ds j (handle e f s).1 (known_keeps _ (f e) j s h)

  settled_true :
      (id : String) (s : Inbox) (r : Result (Unit {0}) × S)
      → (settle id s r).0 ≡ ok true
      → has id (settle id s r).1.0.completed ≡ true
  unfolding complete
  settled_true id s (ok _, x) h = ground (arith, has-add id id s.completed, eq_iff id id)
  settled_true id s (err e, x) h = cc

  started_true :
      (id : String) (s : Inbox) (known : Bool) (f : Exec S (Unit {0})) (x : S)
      → (when_started id (begin_unless known id s) f x).0 ≡ ok true
      → has id (when_started id (begin_unless known id s) f x).1.0.completed ≡ true
  started_true id s true f x h = cc
  started_true id s false f x h =
      settled_true id (record s { in_progress = add id s.in_progress }) (f x) h

  handled_id :
      (o : Option String) (f : Exec S (Unit {0})) (s : Inbox × S)
      → (with_id o f s).0 ≡ ok true
      → (id : String) × (o ≡ some id) × (has id (with_id o f s).1.0.completed ≡ true)
  unfolding begin
  handled_id none f (s, x) h = cc
  handled_id (some id) f (s, x) h = (id, refl, started_true id s _ f x h)

  skipped :
      (id : String) (f : Exec S (Unit {0})) (s : Inbox × S)
      → has id s.0.completed ≡ true
      → with_id (some id) f s ≡ (ok false, s)
  unfolding begin
  skipped id f (s, x) h = rw h refl

  -- Once `handle` has returned true for an event, its handler or another is never called again for
  -- an event with the same normalised identifier: after any further deliveries, of any events with
  -- any handlers, `handle` returns false for it and changes nothing.
  pub handle-once :
      (e e' : EventEnvelope) (f f' : EventEnvelope → Exec S (Unit {0}))
      (ds : List (EventEnvelope × (EventEnvelope → Exec S (Unit {0})))) (s : Inbox × S)
      → normalize_token e'.event_id ≡ normalize_token e.event_id
      → (handle e f s).0 ≡ ok true
      → let later = deliver ds (handle e f s).1 in handle e' f' later ≡ (ok false, later)
  unfolding handle
  handle-once e e' f f' ds s same h =
      let (id, known, completed) = handled_id (normalize_token e.event_id) (f e) s h in
      let later = deliver ds (handle e f s).1 in
      rw (same ∙ known) (skipped id (f' e') later (deliver_keeps ds id (handle e f s).1 completed))

  settled_raised :
      (id : String) (s : Inbox) (r : Result (Unit {0}) × S) {error : Error}
      → has id s.in_progress ≡ false
      → (settle id (record s { in_progress = add id s.in_progress }) r).0 ≡ err error
      → (settle id (record s { in_progress = add id s.in_progress }) r).1.0 ≡ s
  unfolding fail
  settled_raised id s (ok _, x) free h = cc
  settled_raised id s (err e, x) free h =
      ap (λ (xs : List String). record s { in_progress = xs })
        (added_then_discarded id s.in_progress free)

  -- If `handle` raises, because the handler raised or the identifier is no token, the inbox is what
  -- it was, so the event may be delivered again.
  pub handle-raised :
      (e : EventEnvelope) (f : EventEnvelope → Exec S (Unit {0})) (s : Inbox) (x : S)
      (error : Error)
      → (handle e f (s, x)).0 ≡ err error
      → (handle e f (s, x)).1.0 ≡ s
  unfolding handle begin
  handle-raised e f s x error h = by_id (normalize_token e.event_id) (f e) h
    where
      by_begin :
          (id : String) (known : Bool) (g : Exec S (Unit {0}))
          → (has id s.completed || has id s.in_progress) ≡ known
          → (when_started id (begin_unless known id s) g x).0 ≡ err error
          → (when_started id (begin_unless known id s) g x).1.0 ≡ s
      by_begin id true g k h = refl
      by_begin id false g k h = settled_raised id s (g x) (ground (arith, k)) h

      by_id :
          (o : Option String) (g : Exec S (Unit {0}))
          → (with_id o g (s, x)).0 ≡ err error
          → (with_id o g (s, x)).1.0 ≡ s
      by_id none g h = refl
      by_id (some id) g h = by_begin id (has id s.completed || has id s.in_progress) g refl h
