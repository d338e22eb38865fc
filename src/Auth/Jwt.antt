-- ===== src/Auth/Jwt.antt =====
-- The JWT of libs/shared/tenant.py: encoding, decoding and the registered claims.
use Prim.Native.String
use Prim.Native.Nat.{◌%◌}
use media_center.Prelude.{
  ℕ, zero, suc, ◌-◌, String, Bool, true, false, not, ◌||◌, Option, none, some, List, [], ◌∷◌,
  str_eq, ◌==◌, if◌then◌else◌,
}
use media_center.Text.{split_on, strip_right, concat}
use media_center.Value.{
  Float, Json, null, int, float, str, arr, obj, Items, nil, cons, Fields, field, end, get_field,
}
use media_center.Numbers.{at_most, less, float_of_int}
use media_center.Exec.{Result, ok, err, unauthorized, overflow_error, value_error}
use media_center.Auth.{is_ascii, Crypto, ◌>>=◌, ◌>>◌}

-- "=" * n
unfoldable pub equals_signs : ℕ → String
equals_signs zero = ""
equals_signs (suc n) = String.◌++◌ "=" (equals_signs n)

-- -length % 4
unfoldable pub padding : String → ℕ
padding segment = (4 - String.count segment % 4) % 4

unfoldable pub check : Bool → Result (Unit {0})
check test = if test then ok tt else err unauthorized

abbrev pub as_object : Json → Result Fields
as_object (obj fields) = ok fields
as_object _ = err unauthorized

abbrev pub or_unauthorized : {A : Type 0} → Option A → Result A
or_unauthorized none = err unauthorized
or_unauthorized (some a) = ok a

abbrev pub or_overflow : Option Float → Result Float
or_overflow none = err overflow_error
or_overflow (some x) = ok x

-- A numeric claim as a float; `none` is a claim that is not there.
abbrev pub numeric_claim : Option Json → Result (Option Float)
numeric_claim none = ok none
numeric_claim (some null) = ok none
numeric_claim (some (int n)) = do x ← or_overflow (float_of_int n); ok (some x)
numeric_claim (some (float x)) = ok (some x)
numeric_claim (some _) = err unauthorized

-- timestamp < expires_at and timestamp >= not_before, as the two refusals have it
abbrev pub is_before : Float → Option Float → Bool
is_before timestamp none = true
is_before timestamp (some expires_at) = not (at_most expires_at timestamp)

abbrev pub is_after : Float → Option Float → Bool
is_after timestamp none = true
is_after timestamp (some not_before) = not (less timestamp not_before)

abbrev pub is_text : String → Option Json → Bool
is_text expected (some (str value)) = str_eq value expected
is_text expected _ = false

abbrev pub is_string : Json → String → Bool
is_string (str value) expected = str_eq value expected
is_string _ expected = false

unfoldable pub contains_text : String → Items → Bool
contains_text expected nil = false
contains_text expected (cons item items) = is_string item expected || contains_text expected items

-- _audience_matches
abbrev pub audience_matches : Option Json → String → Bool
audience_matches (some (str value)) expected = str_eq value expected
audience_matches (some (arr items)) expected = contains_text expected items
audience_matches _ expected = false

abbrev pub expected_or_any : Option String → (String → Bool) → Bool
expected_or_any none test = true
expected_or_any (some expected) test = test expected

-- _validate_registered_claims
unfoldable pub validate_registered_claims :
    Fields → Option String → Option String → Float → Result (Unit {0})
validate_registered_claims claims expected_issuer expected_audience timestamp = do
  expires_at ← numeric_claim (get_field "exp" claims)
  check (is_before timestamp expires_at)
  not_before ← numeric_claim (get_field "nbf" claims)
  check (is_after timestamp not_before)
  check (expected_or_any expected_issuer (λ issuer. is_text issuer (get_field "iss" claims)))
  check (expected_or_any expected_audience (audience_matches (get_field "aud" claims)))

module _ {Bytes : Type 0} (crypto : Crypto Bytes) where
  -- _base64url_encode
  unfoldable pub base64url_encode : Bytes → String
  base64url_encode bytes = strip_right (λ c. c == b'=') (crypto.urlsafe_b64encode bytes)

  -- _base64url_decode, with the UnauthorizedError that its callers make of binascii.Error. For
  -- characters beyond ASCII it raises ValueError, which they do not catch.
  unfoldable pub base64url_decode : String → Result Bytes
  base64url_decode segment =
      if is_ascii segment
      then or_unauthorized
          (crypto.urlsafe_b64decode (String.◌++◌ segment (equals_signs (padding segment))))
      else err value_error

  -- _decode_json_segment
  unfoldable pub decode_json_segment : String → Result Fields
  decode_json_segment segment = do
    bytes ← base64url_decode segment
    value ← or_unauthorized (crypto.loads bytes)
    as_object value

  unfoldable pub signing_input_of : String → String → String
  signing_input_of header payload = concat (header ∷ "." ∷ payload ∷ [])

  abbrev pub jwt_header : Fields
  jwt_header = field "alg" (str "HS256") (field "typ" (str "JWT") end)

  -- encode_hs256_jwt without further headers
  unfoldable pub encode_hs256_jwt : Fields → Bytes → String
  encode_hs256_jwt claims secret =
      let encoded_header = base64url_encode (crypto.dumps jwt_header) in
      let encoded_claims = base64url_encode (crypto.dumps claims) in
      let signing_input = signing_input_of encoded_header encoded_claims in
      concat (signing_input ∷ "." ∷ base64url_encode (crypto.hmac_sha256 secret signing_input) ∷ [])

  unfoldable pub decode_parts :
      String → String → String → Bytes → Option String → Option String → Float → Result Fields
  decode_parts header_segment payload_segment signature_segment secret expected_issuer
        expected_audience now =
      do
        header ← decode_json_segment header_segment
        claims ← decode_json_segment payload_segment
        check (is_text "HS256" (get_field "alg" header))
        let expected = crypto.hmac_sha256 secret (signing_input_of header_segment payload_segment)
        actual ← base64url_decode signature_segment
        check (crypto.compare_digest expected actual)
        validate_registered_claims claims expected_issuer expected_audience now
        ok claims

  abbrev pub decode_split :
      List String → Bytes → Option String → Option String → Float → Result Fields
  decode_split (header ∷ payload ∷ signature ∷ []) secret expected_issuer expected_audience now =
      decode_parts header payload signature secret expected_issuer expected_audience now
  decode_split _ secret expected_issuer expected_audience now = err unauthorized

  -- decode_hs256_jwt
  unfoldable pub decode_hs256_jwt :
      String → Bytes → Option String → Option String → Float → Result Fields
  decode_hs256_jwt token = decode_split (split_on b'.' token)
