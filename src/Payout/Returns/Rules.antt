-- ===== src/Payout/Returns/Rules.antt =====
-- Rules for the calls that return. Steps that raise drop out.
use media_center.Prelude.{◌≡◌, refl, sym, ◌∙◌}
use mathlib.Core.Path.{subst}
use media_center.Exec.{Result, ok, err, continue, ◌>>=◌}
use media_center.Payout.State.{Gateway, Call}
use media_center.Payout.Effects.{Quiet}

-- If `m` returns from the view `x`, its value and the final view satisfy `R`.
pub record Returns {X A : Type 0} (view : Gateway → X) (R : A → X → Type 0) (x : X) (m : Call A)
    : Type 0 where
  pub at : (g : Gateway) (a : A) → view g ≡ x → (m g).0 ≡ ok a → R a (view (m g).1)

module _ {X A B : Type 0} {view : Gateway → X} {R : B → X → Type 0} where
  continue-Returns :
      (r : Result A) (f : A → Call B) (s : Gateway) (Q : A → X → Type 0)
      → ((a : A) → r ≡ ok a → Q a (view s))
      → ((a : A) (y : X) → Q a y → Returns view R y (f a))
      → (b : B) → (continue r f s).0 ≡ ok b
      → R b (view (continue r f s).1)
  continue-Returns (ok a) f s Q q k b h = (k a (view s) (q a refl)).at s b refl h
  continue-Returns (err e) f s Q q k b h = cc

module _ {X A B : Type 0} {view : Gateway → X} {R : B → X → Type 0} {x : X} where
  pub Returns-step :
      (m : Call A) {f : A → Call B} (Q : A → X → Type 0)
      → Returns view Q x m
      → ((a : A) (y : X) → Q a y → Returns view R y (f a))
      → Returns view R x (m >>= f)
  unfolding ◌>>=◌
  Returns-step m {f} Q q k = record {
    at = λ g b e h. continue-Returns (m g).0 f (m g).1 Q (λ a p. q.at g a e p) k b h;
  }

  pub Returns-bind :
      {Q : X → A → Type 0} {m : Call A} {f : A → Call B}
      → Quiet view Q m
      → ((a : A) → Q x a → Returns view R x (f a))
      → Returns view R x (m >>= f)
  Returns-bind {Q} {m} {f} q k =
      Returns-step m (λ a y. (y ≡ x) × Q x a)
        (record { at = λ g a e h. (q.same g ∙ e, subst (λ y. Q y a) e (q.gives g a h)) })
        (λ a y w. subst (λ y'. Returns view R y' (f a)) (sym w.0) (k a w.1))

module _ {X A : Type 0} {view : Gateway → X} {R : A → X → Type 0} {x : X} where
  -- A last step that leaves the view alone.
  pub Returns-last :
      {Q : X → A → Type 0} {m : Call A}
      → Quiet view Q m
      → ((a : A) → Q x a → R a x)
      → Returns view R x m
  Returns-last {Q} {m} q k = record {
    at = λ g a e h.
        subst (λ y. R a y) (sym (q.same g ∙ e)) (k a (subst (λ y. Q y a) e (q.gives g a h)));
  }
