-- ===== src/Numbers.antt =====
-- Python's comparisons of numbers and of JSON values, and float() of an integer. A comparison of an
-- integer with a float is exact, and every comparison with nan is false.
use Prim.Native.Nat.{◌/◌, ◌%◌}
use media_center.Prelude.{
  ℕ, zero, suc, ◌+◌, ◌*◌, ◌^◌, Bool, true, false, not, ◌&&◌, ◌||◌, Option, none, some, str_eq, ltb,
  leb, ◌==◌, if◌then◌else◌,
}
use media_center.Value.{
  ℤ, pos, negsuc, Float, nan, infinite, finite, Json, null, bool, int, float, str, arr, obj, Items,
  nil, cons, Fields, end, field, get_field,
}

-- a <= b and a == b on signed magnitudes
abbrev pub signed_at_most : Bool → ℕ → Bool → ℕ → Bool
signed_at_most false a false b = leb a b
signed_at_most false a true b = a == 0 && b == 0
signed_at_most true a false b = true
signed_at_most true a true b = leb b a

-- x <= y
unfoldable pub at_most : Float → Float → Bool
at_most nan y = false
at_most x nan = false
at_most (infinite true) y = true
at_most (infinite false) (infinite t) = not t
at_most (infinite false) (finite t n l) = false
at_most (finite s m k) (infinite t) = not t
at_most (finite s m k) (finite t n l) = signed_at_most s (m * 2 ^ l) t (n * 2 ^ k)

-- x == y
unfoldable pub same_number : Float → Float → Bool
same_number x y = at_most x y && at_most y x

-- x < y
unfoldable pub less : Float → Float → Bool
less x y = at_most x y && not (at_most y x)

-- The number of binary digits of `n` beyond 53, at most `fuel`; 1024 is enough below 2 ^ 1024.
unfoldable pub excess_bits : ℕ → ℕ → ℕ
excess_bits zero n = 0
excess_bits (suc fuel) n =
    let rest = suc (excess_bits fuel (n / 2)) in if ltb n (2 ^ 53) then 0 else rest

-- The nearest double, the even one of two; `none` is OverflowError.
unfoldable pub round_magnitude : ℕ → Option ℕ
round_magnitude n =
    let unit = 2 ^ excess_bits 1024 n in
    let below = n / unit in
    let rest = 2 * (n % unit) in
    let up = ltb unit rest || (rest == unit && below % 2 == 1) in
    let rounded = (if up then below + 1 else below) * unit in
    if ltb n (2 ^ 1024) && ltb rounded (2 ^ 1024) then some rounded else none

abbrev pub with_sign : Bool → Option ℕ → Option Float
with_sign s none = none
with_sign s (some m) = some (finite s m 0)

-- float(n)
unfoldable pub float_of_int : ℤ → Option Float
float_of_int (pos n) = with_sign false (round_magnitude n)
float_of_int (negsuc n) = with_sign true (round_magnitude (n + 1))

-- The number that a value is in a comparison: True is 1 and False is 0.
unfoldable pub as_number : Json → Option Float
as_number (bool true) = some (finite false 1 0)
as_number (bool false) = some (finite false 0 0)
as_number (int (pos n)) = some (finite false n 0)
as_number (int (negsuc n)) = some (finite true (n + 1) 0)
as_number (float x) = some x
as_number _ = none

abbrev pub same_numbers : Option Float → Option Float → Bool
same_numbers (some x) (some y) = same_number x y
same_numbers _ _ = false

unfoldable pub count_fields : Fields → ℕ
count_fields end = 0
count_fields (field k v d) = count_fields d + 1

abbrev pub holds_of : (Json → Bool) → Option Json → Bool
holds_of test none = false
holds_of test (some v) = test v

unfoldable mutual
  unfolding as_number same_number at_most count_fields get_field

  -- a == b; nan differs from itself also inside a list or an object.
  pub json_eq : Json → Json → Bool
  json_eq null null = true
  json_eq (str s) (str t) = str_eq s t
  json_eq (arr xs) (arr ys) = items_eq xs ys
  json_eq (obj d) (obj e) = count_fields d == count_fields e && fields_in d e
  json_eq a b = same_numbers (as_number a) (as_number b)

  pub items_eq : Items → Items → Bool
  items_eq nil nil = true
  items_eq (cons x xs) (cons y ys) = json_eq x y && items_eq xs ys
  items_eq _ _ = false

  -- Each item of the first object is one of the second.
  pub fields_in : Fields → Fields → Bool
  fields_in end e = true
  fields_in (field k v d) e = holds_of (json_eq v) (get_field k e) && fields_in d e
