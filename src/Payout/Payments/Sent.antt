-- ===== src/Payout/Payments/Sent.antt =====
-- One call of `execute_payout` hands over at most one payment, and only for a payout that may be
-- executed.
use media_center.Prelude.{
  ℕ, String, ◌≡◌, refl, ◌∙◌, ap, ◌⊎◌, inl, inr, true, false, Option, none, some, List, [], ◌∷◌,
  ◌++◌, arith, Option-cases, Bool-cases,
}
use media_center.Dict.{lookup}
use media_center.Platform.{Platform}
use media_center.Exec.{
  Error, Result, ok, err, ◌>>=◌, catch, handle, or_raise, modify, lift, raise, raise_if, connector,
  payout_not_found,
}
use media_center.Payout.Types.{PayoutQueueItem}
use media_center.Payout.Commands.{Connectors, PayoutPaymentCommand, PayoutPaymentResult}
use media_center.Payout.Validation.{payment_command_model}
use media_center.Payout.State.{Gateway, Call, get_payout, update_payout}
use media_center.Payout.Queue.{is_executable}
use media_center.Payout.Execution.Failure.{
  send, guarded, require_executable, record_connector_failure, FailureContext,
}
use media_center.Payout.Execution.{
  ExecuteRequest, execute_payout, pay, record_on_chain, notify, complete, payment_command,
  sent_payment, sent_chain_record, sent_notification,
}
use media_center.Payout.Effects.{
  Any, Quiet, Ends-bind, Ends-step, Ends-Quiet, Quiet-bind, Quiet-lift, Quiet-or_raise, Quiet-audit,
  Quiet-envelope, Quiet-publish, Quiet-guarded, Quiet-modify, Quiet-raise,
  Quiet-record_connector_failure,
}
use media_center.Payout.Payments.{payments_of, payments-HidesTrail}

-- What a call that returns leaves to the rest of the block.
pub bind-ok :
    {A B : Type 0} (m : Call A) (f : A → Call B) (g : Gateway) {a : A} {s : Gateway}
    → m g ≡ (ok a, s)
    → (m >>= f) g ≡ f a s
unfolding ◌>>=◌
bind-ok m f g e = rw e

pub get_payout-found :
    (t i : String) (g : Gateway) {v : PayoutQueueItem}
    → lookup (t, i) g.payouts ≡ some v
    → get_payout t i g ≡ (ok v, g)
unfolding get_payout ◌>>=◌ or_raise
get_payout-found t i g e = rw e

pub require_executable-passes :
    (v : PayoutQueueItem) (at : ℕ) (g : Gateway)
    → is_executable v at ≡ true
    → require_executable v at g ≡ (ok tt, g)
unfolding require_executable is_executable ◌>>=◌ raise_if
require_executable-passes v at g h = ground arith

pub bind-err :
    {A B : Type 0} (m : Call A) (f : A → Call B) (g : Gateway) {e : Error} {s : Gateway}
    → m g ≡ (err e, s)
    → (m >>= f) g ≡ (err e, s)
unfolding ◌>>=◌
bind-err m f g e = rw e

pub get_payout-missing :
    (t i : String) (g : Gateway)
    → lookup (t, i) g.payouts ≡ none
    → get_payout t i g ≡ (err payout_not_found, g)
unfolding get_payout ◌>>=◌ or_raise
get_payout-missing t i g e = rw e

refused-Quiet :
    (v : PayoutQueueItem) (at : ℕ)
    → Quiet payments_of (λ x u. is_executable v at ≡ true) (require_executable v at)
unfolding require_executable is_executable ◌>>=◌ raise_if
refused-Quiet v at = record { same = λ g. ground arith; gives = λ g a h. ground arith }

module _ (p : Platform) (k : Connectors) where
  send-Quiet :
      {C R : Type 0} (c : Option C) (sent : C → Gateway → Gateway) (answer : C → Result R)
      → ((x : C) (g : Gateway) → payments_of (sent x g) ≡ payments_of g)
      → Quiet payments_of Any (send c sent answer)
  unfolding send
  send-Quiet c sent answer hidden = Quiet-bind (Quiet-or_raise payments_of _ c) λ x.
      Quiet-bind (Quiet-modify (sent x) (hidden x))
        λ _. record { same = λ g. (Quiet-lift payments_of (answer x)).same g; gives = λ g a h. tt }

  update-Quiet : (v : PayoutQueueItem) → Quiet payments_of Any (update_payout v)
  unfolding update_payout ◌>>=◌ raise_if modify
  update-Quiet v = record { same = λ g. ground arith; gives = λ g a h. tt }

  complete-Quiet :
      (r : ExecuteRequest) (v : PayoutQueueItem) (payment : PayoutPaymentResult)
      → Quiet payments_of Any (complete p k r v payment)
  unfolding complete record_on_chain notify sent_chain_record sent_notification
  complete-Quiet r v payment = Quiet-bind (Quiet-audit payments_of payments-HidesTrail p _) λ a.
      Quiet-bind
        (Quiet-guarded payments-HidesTrail p _ _ _ (send-Quiet _ sent_chain_record _ (λ x g. refl)))
        λ chain.
          Quiet-bind
            (Quiet-guarded payments-HidesTrail p _ _ _
              (send-Quiet _ sent_notification _ (λ x g. refl)))
            λ notification. Quiet-bind (update-Quiet _) λ updated.
              Quiet-bind (Quiet-envelope payments_of payments-HidesTrail p _) λ event.
                Quiet-bind (Quiet-publish payments-HidesTrail event)
                  λ _. record { same = (Quiet-or_raise payments_of _ _).same; gives = λ g a h. tt }

  -- A failure's record is quiet, so a guarded call shows what its body showed.
  guarded_payments :
      {R : Type 0} (c : FailureContext) (name : String) (at : ℕ) (body : Call R) (g : Gateway)
      → payments_of (guarded p c name at body g).1 ≡ payments_of (body g).1
  unfolding guarded catch
  guarded_payments {R} c name at body g = by_result (body g).0 (body g).1
    where
      by_result :
          (r : Result R) (s : Gateway)
          → payments_of
              (handle r
                (λ error. record_connector_failure p c name at error >>= λ e. raise (connector e))
                s).1
            ≡ payments_of s
      by_result (ok a) s = refl
      by_result (err e) s =
          (Quiet-bind (Quiet-record_connector_failure payments-HidesTrail p c name at e)
              (λ x. Quiet-raise {Q = Any} (connector x))).same
            s

  pay_sends :
      (r : ExecuteRequest) (v : PayoutQueueItem) (g : Gateway) {c : PayoutPaymentCommand}
      → payment_command_model (payment_command p r v) ≡ some c
      → payments_of (pay p k r v g).1 ≡ payments_of g ++ (c ∷ [])
  unfolding pay send sent_payment ◌>>=◌ or_raise modify lift
  pay_sends r v g e = guarded_payments _ _ _ _ g ∙ rw e

  unsent :
      (r : ExecuteRequest) (v : PayoutQueueItem)
      → payment_command_model (payment_command p r v) ≡ none
      → Quiet payments_of Any (pay p k r v)
  unfolding pay send
  unsent r v e =
      Quiet-guarded payments-HidesTrail p _ _ _
        (record { same = λ g. rw e (unfold ◌>>=◌ or_raise in refl); gives = λ g a h. tt })

  -- A payment that the call may have handed over: a valid command for a payout that may be executed.
  abbrev pub Sends : ExecuteRequest → Gateway → List PayoutPaymentCommand → Type 0
  Sends r g sent =
      (v : PayoutQueueItem) × (c : PayoutPaymentCommand) × (lookup (r.tenant_id, r.payout_id)
          g.payouts
        ≡ some v)
      × (is_executable v r.now ≡ true)
      × (payment_command_model (payment_command p r v) ≡ some c)
      × (sent ≡ g.payments ++ (c ∷ []))

  after_checks :
      (r : ExecuteRequest) (g : Gateway) (v : PayoutQueueItem)
      → lookup (r.tenant_id, r.payout_id) g.payouts ≡ some v
      → is_executable v r.now ≡ true
      → execute_payout p k r g ≡ (pay p k r v >>= complete p k r v) g
  unfolding execute_payout
  after_checks r g v found ready =
      bind-ok (get_payout r.tenant_id r.payout_id) _ g (get_payout-found _ _ g found)
      ∙ bind-ok (require_executable v r.now) _ g (require_executable-passes v r.now g ready)

  -- If a payout may be executed and its command is valid, `execute_payout` hands that command to the
  -- payment gateway exactly once, whatever the gateway and the other connectors answer.
  pub execute_payout-sends :
      (r : ExecuteRequest) (g : Gateway) (v : PayoutQueueItem) {c : PayoutPaymentCommand}
      → lookup (r.tenant_id, r.payout_id) g.payouts ≡ some v
      → is_executable v r.now ≡ true
      → payment_command_model (payment_command p r v) ≡ some c
      → (execute_payout p k r g).1.payments ≡ g.payments ++ (c ∷ [])
  execute_payout-sends r g v {c} found ready valid = rw (after_checks r g v found ready) (
      (Ends-step {view = payments_of} {R = λ y. y ≡ g.payments ++ (c ∷ [])} (pay p k r v)
          (λ x y. y ≡ g.payments ++ (c ∷ []))
          (λ s e. pay_sends r v s valid ∙ ap (λ (l : List PayoutPaymentCommand). l ++ (c ∷ [])) e)
          (λ e y w. w) (λ a y w. Ends-Quiet (complete-Quiet r v a) w)).at
        g refl)

  checked :
      (r : ExecuteRequest) (g : Gateway) (v : PayoutQueueItem)
      → lookup (r.tenant_id, r.payout_id) g.payouts ≡ some v
      → is_executable v r.now ≡ true
      → ((execute_payout p k r g).1.payments ≡ g.payments)
        ⊎ Sends r g (execute_payout p k r g).1.payments
  checked r g v found ready = elim (Option-cases (payment_command_model (payment_command p r v))) [
    | inr (c, valid) ↦ inr (v, c, found, ready, valid, execute_payout-sends r g v found ready valid)
    | inl invalid ↦ inl (
        rw (after_checks r g v found ready) (
          (Ends-bind {view = payments_of} {R = λ y. y ≡ g.payments} (unsent r v invalid) refl
              (λ a _. Ends-Quiet (complete-Quiet r v a) refl)).at
            g refl))
  ]

  refused :
      (r : ExecuteRequest) (g : Gateway) (v : PayoutQueueItem)
      → lookup (r.tenant_id, r.payout_id) g.payouts ≡ some v
      → is_executable v r.now ≡ false
      → (execute_payout p k r g).1.payments ≡ g.payments
  unfolding execute_payout
  refused r g v found unready =
      rw (bind-ok (get_payout r.tenant_id r.payout_id) _ g (get_payout-found _ _ g found)) (
        (Ends-bind {view = payments_of} {R = λ y. y ≡ g.payments} (refused-Quiet v r.now) refl
            (λ a ready. cc (ready, unready))).at
          g refl)

  unknown :
      (r : ExecuteRequest) (g : Gateway)
      → lookup (r.tenant_id, r.payout_id) g.payouts ≡ none
      → (execute_payout p k r g).1.payments ≡ g.payments
  unfolding execute_payout
  unknown r g e =
      rw (bind-err (get_payout r.tenant_id r.payout_id) _ g (get_payout-missing _ _ g e))

  -- One call of `execute_payout` hands the payment gateway either nothing, or one command, which is
  -- the valid command of the named payout; and then the payout was pending and confirmed, and its
  -- veto window had ended at the time of the call.
  pub execute_payout-Sends :
      (r : ExecuteRequest) (g : Gateway)
      → ((execute_payout p k r g).1.payments ≡ g.payments)
        ⊎ Sends r g (execute_payout p k r g).1.payments
  execute_payout-Sends r g = elim (Option-cases (lookup (r.tenant_id, r.payout_id) g.payouts)) [
    | inl missing ↦ inl (unknown r g missing)
    | inr (v, found) ↦ elim (Bool-cases (is_executable v r.now)) [
      | inl ready ↦ checked r g v found ready
      | inr unready ↦ inl (refused r g v found unready)
    ]
  ]
