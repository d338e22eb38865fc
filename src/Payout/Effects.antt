-- ===== src/Payout/Effects.antt =====
-- What a call does to a part of the gateway's state, seen through `view`: rules that follow the
-- `do` blocks of the managers, so that a property of a whole operation is put together from its
-- steps.
use media_center.Prelude.{
  ℕ, String, ◌≡◌, refl, sym, ◌∙◌, Bool, true, false, Option, none, some, List, arith,
}
use mathlib.Core.Path.{subst}
use media_center.Platform.{Platform}
use media_center.AuditLog.{
  AuditLogRecord, AuditEntry, record_audit, build_record, build_audit_payload,
}
use media_center.Text.{is_tenant_id}
use media_center.Events.{EventEnvelope, PublishedEvent}
use media_center.Exec.{
  Error, Result, ok, err, pure, raise, lift, catch, handle, continue, ◌>>=◌, raise_if, modify,
  or_raise,
}
use media_center.Payout.State.{Gateway, Call, audit, publish, envelope}
use media_center.Payout.Execution.Failure.{FailureContext, record_connector_failure, guarded}

-- A value that satisfies nothing in particular.
abbrev pub Any {ℓ} : {X A : Type ℓ} → X → A → Type 0
Any x a = Unit

-- The view does not show the audit log and the event bus.
pub record HidesTrail {X : Type 0} (view : Gateway → X) : Type 0 where
  pub log : (g : Gateway) (l : List AuditLogRecord) → view (record g { audit_log = l }) ≡ view g
  pub bus : (g : Gateway) (b : List PublishedEvent) → view (record g { bus = b }) ≡ view g

module _ {X : Type 0} (view : Gateway → X) where
  -- `m` leaves the view as it is, and a value that it returns satisfies `Q`.
  pub record Quiet {A : Type 0} (Q : X → A → Type 0) (m : Call A) : Type 0 where
    pub same : (g : Gateway) → view (m g).1 ≡ view g
    pub gives : (g : Gateway) (a : A) → (m g).0 ≡ ok a → Q (view g) a

  -- From the view `x`, whether `m` returns or raises, it ends in a view that satisfies `R`.
  pub record Ends {A : Type 0} (R : X → Type 0) (x : X) (m : Call A) : Type 0 where
    pub at : (g : Gateway) → view g ≡ x → R (view (m g).1)

module _ {X A B : Type 0} {view : Gateway → X} {R : X → Type 0} {x : X} where
  continue-Ends :
      (r : Result A) (f : A → Call B) (g : Gateway)
      → view g ≡ x
      → R x
      → ((a : A) → r ≡ ok a → Ends view R x (f a))
      → R (view (continue r f g).1)
  continue-Ends (ok a) f g e rx k = (k a refl).at g e
  continue-Ends (err _) f g e rx k = subst R (sym e) rx

  -- A quiet step: what follows starts from the same view.
  pub Ends-bind :
      {Q : X → A → Type 0} {m : Call A} {f : A → Call B}
      → Quiet view Q m
      → R x
      → ((a : A) → Q x a → Ends view R x (f a))
      → Ends view R x (m >>= f)
  unfolding ◌>>=◌
  Ends-bind {Q} {m} {f} q rx k = record {
    at = λ g e.
        continue-Ends (m g).0 f (m g).1 (q.same g ∙ e) rx
          (λ a h. k a (subst (λ y. Q y a) e (q.gives g a h)));
  }

  -- A step that may change the view, by cases on how it ends.
  pub Ends-step :
      (m : Call A) {f : A → Call B} (Q : Result A → X → Type 0)
      → ((g : Gateway) → view g ≡ x → Q (m g).0 (view (m g).1))
      → ((e : Error) (y : X) → Q (err e) y → R y)
      → ((a : A) (y : X) → Q (ok a) y → Ends view R y (f a))
      → Ends view R x (m >>= f)
  unfolding ◌>>=◌
  Ends-step m {f} Q does raised returned = record {
    at = λ g e. by_result (m g).0 (m g).1 (does g e);
  }
    where
      by_result : (r : Result A) (s : Gateway) → Q r (view s) → R (view (continue r f s).1)
      by_result (ok a) s q = (returned a (view s) q).at s refl
      by_result (err e) s q = raised e (view s) q

module _ {X A : Type 0} {view : Gateway → X} {R : X → Type 0} {x : X} where
  pub Ends-Quiet : {Q : X → A → Type 0} {m : Call A} → Quiet view Q m → R x → Ends view R x m
  Ends-Quiet q rx = record { at = λ g e. subst R (sym (q.same g ∙ e)) rx }

module _ {X A : Type 0} (view : Gateway → X) where
  pub Quiet-pure : (a : A) → Quiet view Any (pure a)
  unfolding pure
  Quiet-pure a = record { same = λ g. refl; gives = λ g b h. tt }

  pub Quiet-value : (a : A) → Quiet view (λ x b. b ≡ a) (pure a)
  unfolding pure
  Quiet-value a = record { same = λ g. refl; gives = λ g b h. cc }

  pub Quiet-lift : (r : Result A) → Quiet view (λ x a. r ≡ ok a) (lift r)
  unfolding lift
  Quiet-lift r = record { same = λ g. refl; gives = λ g a h. h }

  pub Quiet-or_raise : (e : Error) (o : Option A) → Quiet view (λ x a. o ≡ some a) (or_raise e o)
  unfolding or_raise
  Quiet-or_raise e none = record { same = λ g. refl; gives = λ g a h. cc }
  Quiet-or_raise e (some b) = record { same = λ g. refl; gives = λ g a h. cc }

module _ {X : Type 0} (view : Gateway → X) where
  pub Quiet-raise_if : (b : Bool) (e : Error) → Quiet view (λ x a. b ≡ false) (raise_if b e)
  unfolding raise_if
  Quiet-raise_if true e = record { same = λ g. refl; gives = λ g a h. cc }
  Quiet-raise_if false e = record { same = λ g. refl; gives = λ g a h. refl }

  module _ (hides : HidesTrail view) (p : Platform) where
    pub Quiet-audit :
        (e : AuditEntry) → Quiet view (λ x a. is_tenant_id e.tenant_id ≡ true) (audit p e)
    unfolding audit record_audit build_record build_audit_payload
    Quiet-audit e = record { same = λ g. hides.log g _; gives = λ g a h. ground arith }

    pub Quiet-envelope : (e : EventEnvelope) → Quiet view Any (envelope p e)
    unfolding envelope lift
    Quiet-envelope e = record { same = λ g. refl; gives = λ g a h. tt }

module _ {X A B : Type 0} {view : Gateway → X} where
  by_value :
      {Q : X → B → Type 0} (r : Result A) (f : A → Call B) (g : Gateway) (x : X)
      → view g ≡ x
      → ((a : A) → Quiet view Q (f a))
      → (view (continue r f g).1 ≡ x) × ((b : B) → (continue r f g).0 ≡ ok b → Q x b)
  by_value {Q} (ok a) f g x e k =
      ((k a).same g ∙ e, λ b h. subst (λ y. Q y b) e ((k a).gives g b h))
  by_value (err e') f g x e k = (e, λ b h. cc)

  pub Quiet-bind :
      {P : X → A → Type 0} {Q : X → B → Type 0} {m : Call A} {f : A → Call B}
      → Quiet view P m
      → ((a : A) → Quiet view Q (f a))
      → Quiet view Q (m >>= f)
  unfolding ◌>>=◌
  Quiet-bind {m} {f} q k = record {
    same = λ g. (by_value (m g).0 f (m g).1 (view g) (q.same g) k).0;
    gives = λ g. (by_value (m g).0 f (m g).1 (view g) (q.same g) k).1;
  }

module _ {X A : Type 0} {view : Gateway → X} where
  pub Quiet-raise : {Q : X → A → Type 0} (e : Error) → Quiet view Q (raise e)
  unfolding raise
  Quiet-raise e = record { same = λ g. refl; gives = λ g a h. cc }

  handled :
      {Q : X → A → Type 0} (r : Result A) (h : Error → Call A) (g : Gateway) (x : X)
      → view g ≡ x
      → ((a : A) → r ≡ ok a → Q x a)
      → ((e : Error) → Quiet view Q (h e))
      → (view (handle r h g).1 ≡ x) × ((a : A) → (handle r h g).0 ≡ ok a → Q x a)
  handled (ok b) h g x e q k = (e, q)
  handled {Q} (err e') h g x e q k =
      ((k e').same g ∙ e, λ a p. subst (λ y. Q y a) e ((k e').gives g a p))

  pub Quiet-catch :
      {Q : X → A → Type 0} {m : Call A} {h : Error → Call A}
      → Quiet view Q m
      → ((e : Error) → Quiet view Q (h e))
      → Quiet view Q (catch m h)
  unfolding catch
  Quiet-catch {m} {h} q k = record {
    same = λ g. (handled (m g).0 h (m g).1 (view g) (q.same g) (q.gives g) k).0;
    gives = λ g. (handled (m g).0 h (m g).1 (view g) (q.same g) (q.gives g) k).1;
  }

module _ {X : Type 0} {view : Gateway → X} where
  pub Quiet-modify :
      (f : Gateway → Gateway) → ((g : Gateway) → view (f g) ≡ view g) → Quiet view Any (modify f)
  unfolding modify
  Quiet-modify f e = record { same = e; gives = λ g a h. tt }

  pub Quiet-publish : HidesTrail view → (e : EventEnvelope) → Quiet view Any (publish e)
  unfolding publish
  Quiet-publish hides e =
      Quiet-bind (Quiet-or_raise view _ _) (λ key. Quiet-modify _ (λ g. hides.bus g _))

  module _ (hides : HidesTrail view) (p : Platform) where
    pub Quiet-record_connector_failure :
        (c : FailureContext) (name : String) (at : ℕ) (e : Error)
        → Quiet view Any (record_connector_failure p c name at e)
    unfolding record_connector_failure
    Quiet-record_connector_failure c name at e = Quiet-bind (Quiet-audit view hides p _) λ a.
        Quiet-bind (Quiet-envelope view hides p _)
          λ event. Quiet-bind (Quiet-publish hides event) (λ u. Quiet-pure view _)

    -- A guarded call of a connector is quiet if the call is: a failure leaves a trail only.
    pub Quiet-guarded :
        {A : Type 0} {Q : X → A → Type 0} (c : FailureContext) (name : String) (at : ℕ)
        {body : Call A}
        → Quiet view Q body
        → Quiet view Q (guarded p c name at body)
    unfolding guarded
    Quiet-guarded c name at q =
        Quiet-catch q
          λ e. Quiet-bind (Quiet-record_connector_failure c name at e) (λ x. Quiet-raise _)
