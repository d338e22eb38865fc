-- ===== src/Policy/Thresholds.antt =====
-- Which numbers a threshold policy lets through.
use media_center.Prelude.{String, Bool, true, false, not, none, ◌||◌, [], ◌≡◌, ◌≢◌, refl, arith}
use media_center.Value.{Float, nan, infinite, finite, Fields}
use media_center.Numbers.{at_most, less}
use media_center.Exec.{ok}
use media_center.Policy.Rules.{
  string_field, number_field, threshold_violation, threshold_policy_reasons,
}

-- The four operators that compare with one threshold.
pub data Comparison : Type 0 where
  lte lt gte gt : Comparison

unfoldable pub operator_name : Comparison → String
operator_name lte = "lte"
operator_name lt = "lt"
operator_name gte = "gte"
operator_name gt = "gt"

-- What the operator's name says of the observed number and the threshold.
pub meets : Comparison → Float → Float → Bool
meets lte observed threshold = at_most observed threshold
meets lt observed threshold = less observed threshold
meets gte observed threshold = at_most threshold observed
meets gt observed threshold = less threshold observed

-- Two numbers that are no nan are comparable.
at_most_total : (x y : Float) → x ≢ nan → y ≢ nan → (at_most x y || at_most y x) ≡ true
unfolding at_most
at_most_total nan y a b = absurd (a refl)
at_most_total x nan a b = absurd (b refl)
at_most_total (infinite s) (infinite t) a b = by_signs s t
  where
    by_signs :
        (s t : Bool)
        → (at_most (infinite s) (infinite t) || at_most (infinite t) (infinite s)) ≡ true
    by_signs true true = refl
    by_signs true false = refl
    by_signs false true = refl
    by_signs false false = refl
at_most_total (infinite true) (finite t n l) a b = refl
at_most_total (infinite false) (finite t n l) a b = refl
at_most_total (finite s m k) (infinite true) a b = refl
at_most_total (finite s m k) (infinite false) a b = refl
at_most_total (finite s m k) (finite t n l) a b = by_signs s t
  where
    by_signs :
        (s t : Bool)
        → (at_most (finite s m k) (finite t n l) || at_most (finite t n l) (finite s m k)) ≡ true
    by_signs true true = ground arith
    by_signs true false = ground arith
    by_signs false true = ground arith
    by_signs false false = ground arith

-- If neither the observed number nor the threshold is nan, then there is a violation exactly if
-- the number does not meet the threshold as the operator says.
pub threshold_violation-meets :
    (c : Comparison) (value : Fields) (observed threshold : Float)
    → number_field value "threshold" ≡ ok threshold
    → observed ≢ nan
    → threshold ≢ nan
    → threshold_violation value (operator_name c) observed ≡ ok (not (meets c observed threshold))
unfolding threshold_violation operator_name meets less
threshold_violation-meets lte value o t h a b = rw h (ground (arith, at_most_total o t a b))
threshold_violation-meets lt value o t h a b = rw h (ground (arith, at_most_total o t a b))
threshold_violation-meets gte value o t h a b = rw h (ground (arith, at_most_total o t a b))
threshold_violation-meets gt value o t h a b = rw h (ground (arith, at_most_total o t a b))

at_most-nan : (x : Float) → at_most x nan ≡ false
unfolding at_most
at_most-nan nan = refl
at_most-nan (infinite s) = refl
at_most-nan (finite s m k) = refl

nan_violates_nothing :
    (c : Comparison) (value : Fields) (threshold : Float)
    → number_field value "threshold" ≡ ok threshold
    → threshold_violation value (operator_name c) nan ≡ ok false
unfolding threshold_violation operator_name less at_most
nan_violates_nothing lte value t h = rw (h, at_most-nan t) refl
nan_violates_nothing lt value t h = rw (h, at_most-nan t) refl
nan_violates_nothing gte value t h = rw h refl
nan_violates_nothing gt value t h = rw h refl

-- A policy that compares with a threshold has no reason against a fact that is nan.
pub threshold_policy_reasons-nan :
    (c : Comparison) (value facts : Fields) (target : String) (threshold : Float)
    → string_field value "target" none ≡ ok target
    → string_field value "operator" none ≡ ok (operator_name c)
    → number_field facts target ≡ ok nan
    → number_field value "threshold" ≡ ok threshold
    → threshold_policy_reasons value facts ≡ ok []
unfolding threshold_policy_reasons
threshold_policy_reasons-nan c value facts target threshold ht ho hf hh =
    rw (ht, ho, hf, nan_violates_nothing c value threshold hh) refl
