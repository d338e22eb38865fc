-- ===== src/Auth/Tests.antt =====
-- Runs of the token service and of the one-time codes. Bytes are texts here, and cryptography is
-- some function of the right type.
use media_center.Text.{
  head_and_tail, is_tenant_char, is_alnum, is_tenant_id, is_white_space, strip, all_chars, is_space,
  concat, split_on, between,
}
use media_center.Exec.{
  raise, pure, lift, gets, modify, raise_if, ◌>>=◌, ok, err, unauthorized, value_error, type_error,
}
use media_center.Auth.Sessions.{
  token_pair, revoke_refresh_token, revoke, new_record, access_claims, save, new_refresh_token,
  new_id, issue_access_token, roles_json, checked_claims, has_blank, issue_token_pair, TokenPair,
  new_sessions, AuthTokenService, TokenRequest, refresh_token_pair, verify_access_token,
  is_string_claim,
}
use media_center.Auth.Jwt.{
  encode_hs256_jwt, base64url_encode, contains_text, validate_registered_claims, signing_input_of,
  check, padding, base64url_decode, decode_json_segment, decode_parts, equals_signs, is_text,
  decode_hs256_jwt,
}
use media_center.Auth.Totp.{
  last_byte, drop_bytes, from_bytes, truncated, pick, zero_filled, compare_digest,
  candidate_matches, verify_loop, without_spaces, normalize_base32_secret, Otp, TotpService,
  decode_totp_secret, hotp, counter_at, normalized_code, has_shape, verify_totp,
  confirm_sensitive_operation,
}
use media_center.Auth.{is_ascii, roles_of_items, split_words, Crypto, tenant_context_from_claims}
use media_center.Numbers.{less, at_most, excess_bits, round_magnitude, float_of_int}
use Prim.Native.String
use Prim.Native.Nat.{◌%◌}
use text.Mathlib.TextLemmas.{length-append}
use media_center.Prelude.{
  ℕ, zero, suc, ◌≡◌, ◌↔◌, refl, sym, ap, ◌∙◌, String, Bool, true, false, ◌&&◌, ◌||◌, Option, none,
  some, List, [], ◌∷◌, str_eq, if◌then◌else◌, arith,
}
use media_center.Value.{finite, Json, str, int, pos, obj, Fields, field, end, get_field}
use media_center.Access.{TenantContext}
use media_center.Auth.Replay.{
  Operation, issue, refresh, revocation, perform_all, refresh_token_pair-once,
}
use media_center.Auth.Signed.{IsSigned, IsInForce, verify_access_token-IsSigned}
use media_center.Auth.Confirmed.{confirm_sensitive_operation-IsMatching}
use media_center.Auth.BeyondAscii.{verify_access_token-beyond_ascii, verify_totp-beyond_ascii}
use media_center.Auth.Window.{InWindow, verify_totp-InWindow}
use media_center.Payout.Confirmation.{
  TwoFactorConfirmation, require_matching_two_factor_confirmation,
}

abbrev head_fields : Fields
head_fields = field "alg" (str "HS256") end

abbrev body_fields : Fields
body_fields = field "aud" (str "media-center-api") (
    field "exp" (int (pos 1900)) (
      field "iss" (str "media-center-auth") (
        field "jti" (str "id-1") (
          field "nbf" (int (pos 1000)) (
            field "sub" (str "user-1")
              (field "tenant_id" (str "acme") (field "typ" (str "access") end)))))))

abbrev parsed : String → Option Json
parsed text =
    if str_eq text "head"
    then some (obj head_fields)
    else (if str_eq text "body" then some (obj body_fields) else none)

abbrev sample_crypto : Crypto String
sample_crypto = record {
  urlsafe_b64encode = λ bytes. bytes;
  urlsafe_b64decode = λ text. some text;
  dumps = λ fields. "json";
  loads = parsed;
  hmac_sha256 =
      λ key message. if str_eq key "secret" && str_eq message "head.body" then "sign" else "none";
  compare_digest = str_eq;
}

abbrev token_service : AuthTokenService String
token_service = record {
  jwt_secret = "secret";
  issuer = "media-center-auth";
  audience = "media-center-api";
  access_ttl_seconds = 900;
  refresh_ttl_seconds = 86400;
  id_factory = equals_signs;
  refresh_token_factory = λ n. equals_signs (suc n);
}

abbrev sample_hash : String → String
sample_hash text = text

count-equals_signs : (n : ℕ) → String.count (equals_signs n) ≡ n
unfolding equals_signs
count-equals_signs zero = refl
count-equals_signs (suc n) =
    let first : String.count "=" ≡ 1 = refl in
    let rest = count-equals_signs n in let sum = length-append "=" (equals_signs n) in omega arith

tokens-Distinct : (i j : ℕ) → equals_signs (suc i) ≡ equals_signs (suc j) → i ≡ j
tokens-Distinct i j e =
    let same : suc i ≡ suc j =
      sym (count-equals_signs (suc i)) ∙ ap String.count e ∙ count-equals_signs (suc j) in
    omega arith

abbrev request : TokenRequest
request = record {
  subject = "user-1";
  tenant_id = "acme";
  roles = "payout_operator" ∷ [];
  correlation_id = none;
  issued_at = 1000;
}

abbrev before : List Operation
before = issue request ∷ []

abbrev later : List Operation
later = issue request ∷ refresh "==" none 2000 2000 ∷ revocation "=" 2100 ∷ []

abbrev second_pair : TokenPair
second_pair = record {
  access_token = "json.json.none";
  refresh_token = "==";
  token_type = "Bearer";
  expires_in = 900;
  refresh_expires_in = 86400;
}

refreshed_once :
    (refresh_token_pair sample_crypto sample_hash token_service "=" none 1500 1500
      (perform_all sample_crypto sample_hash token_service before new_sessions)).0
    ≡ ok second_pair
unfolding refresh_token_pair ◌>>=◌ perform_all issue_token_pair raise_if has_blank strip
    tenant_context_from_claims get_field checked_claims is_tenant_id roles_of_items roles_json
    issue_access_token new_id new_refresh_token modify save base64url_encode encode_hs256_jwt
    signing_input_of access_claims new_record revoke revoke_refresh_token token_pair split_words
    gets lift pure raise between is_alnum is_space is_tenant_char is_white_space all_chars concat
    head_and_tail equals_signs
refreshed_once = refl

refresh_token_pair-once_example :
    let s =
      perform_all sample_crypto sample_hash token_service later
        (refresh_token_pair sample_crypto sample_hash token_service "=" none 1500 1500
          (perform_all sample_crypto sample_hash token_service before new_sessions)).1 in
    refresh_token_pair sample_crypto sample_hash token_service "=" none 3000 3000 s
    ≡ (err unauthorized, s)
refresh_token_pair-once_example =
    refresh_token_pair-once sample_crypto sample_hash token_service before later "=" none none 1500
      1500 3000 3000 second_pair tokens-Distinct refreshed_once

abbrev user_context : TenantContext
user_context = record {
  tenant_id = "acme";
  subject = some "user-1";
  roles = [];
  correlation_id = none;
}

verified_token :
    verify_access_token sample_crypto sample_hash token_service "head.body.sign" none
      (finite false 1500 0)
    ≡ ok user_context
unfolding verify_access_token decode_hs256_jwt split_on decode_parts decode_json_segment
    base64url_decode equals_signs padding check get_field signing_input_of concat
    validate_registered_claims float_of_int round_magnitude excess_bits at_most less contains_text
    roles_of_items split_words tenant_context_from_claims between is_space is_white_space
    is_tenant_id is_ascii
verified_token = refl

verify_access_token-IsSigned_example :
    (claims : Fields) × IsSigned sample_crypto "head.body.sign" "secret" claims
    × IsInForce claims "media-center-auth" "media-center-api" (finite false 1500 0)
    × (is_text "access" (get_field "typ" claims) ≡ true)
    × (is_string_claim sample_crypto sample_hash token_service (get_field "jti" claims) ≡ true)
    × (tenant_context_from_claims claims none ≡ ok user_context)
verify_access_token-IsSigned_example =
    verify_access_token-IsSigned sample_crypto sample_hash token_service "head.body.sign" none
      (finite false 1500 0) user_context verified_token

-- A token that has been changed is refused.
forged_token :
    verify_access_token sample_crypto sample_hash token_service "head.head.sign" none
      (finite false 1500 0)
    ≡ err unauthorized
unfolding verify_access_token decode_hs256_jwt split_on decode_parts decode_json_segment
    base64url_decode equals_signs padding check get_field signing_input_of concat is_ascii all_chars
forged_token = refl

three_segments : split_on b'.' "hé.body.sign" ≡ "hé" ∷ "body" ∷ "sign" ∷ []
unfolding split_on
three_segments = refl

not_ascii : is_ascii "hé" ≡ false
unfolding is_ascii all_chars
not_ascii = refl

verify_access_token-beyond_ascii_example :
    verify_access_token sample_crypto sample_hash token_service "hé.body.sign" none
      (finite false 1500 0)
    ≡ err value_error
verify_access_token-beyond_ascii_example =
    verify_access_token-beyond_ascii sample_crypto sample_hash token_service "hé.body.sign" "hé"
      "body" "sign" none (finite false 1500 0) three_segments not_ascii

-- So is one that has expired.
old_token :
    verify_access_token sample_crypto sample_hash token_service "head.body.sign" none
      (finite false 1900 0)
    ≡ err unauthorized
unfolding verify_access_token decode_hs256_jwt split_on decode_parts decode_json_segment
    base64url_decode equals_signs padding check get_field signing_input_of concat
    validate_registered_claims float_of_int round_magnitude excess_bits at_most is_ascii all_chars
old_token = refl

abbrev sample_otp : Otp String
sample_otp = record {
  b32decode = λ text. some text;
  hmac_sha1 = λ key counter. 1 ∷ 2 ∷ 3 ∷ counter % 256 ∷ 5 ∷ 0 ∷ [];
  upper = λ text. text;
  is_digit = between 48 57;
}

abbrev totp_service : TotpService
totp_service = record { step_seconds = 30; digits = 6; allowed_drift_steps = 1 }

key_decoded : decode_totp_secret sample_otp totp_service "ABCD EFGH" ≡ ok "ABCDEFGH"
unfolding decode_totp_secret normalize_base32_secret concat split_words equals_signs is_space
key_decoded = refl

-- The code of the counter before the present one, with a space
abbrev typed_code : String
typed_code = "909 155"

typed_code-is_ascii : is_ascii (normalized_code sample_otp totp_service typed_code) ≡ true
unfolding is_ascii all_chars normalized_code without_spaces strip
typed_code-is_ascii = refl

typed_code-has_shape :
    has_shape sample_otp totp_service (normalized_code sample_otp totp_service typed_code) ≡ true
unfolding has_shape normalized_code without_spaces strip all_chars
typed_code-has_shape = refl

verify_totp-InWindow_example :
    (b : Bool) × (verify_totp sample_otp totp_service "ABCD EFGH" typed_code 3000 ≡ ok b)
    × ((b ≡ true)
        ↔ InWindow sample_otp totp_service "ABCD EFGH"
            (normalized_code sample_otp totp_service typed_code)
            (counter_at sample_otp totp_service 3000))
unfolding counter_at
verify_totp-InWindow_example =
    verify_totp-InWindow sample_otp totp_service "ABCD EFGH" typed_code 3000 "ABCDEFGH" key_decoded
      typed_code-is_ascii typed_code-has_shape (omega arith)

-- Digits of another script: str.isdigit accepts them.
abbrev devanagari_code : String
devanagari_code = "९०९१५५"

abbrev unicode_otp : Otp String
unicode_otp = record sample_otp { is_digit = λ c. between 48 57 c || between 2406 2415 c }

devanagari_code_decoded : decode_totp_secret unicode_otp totp_service "ABCD EFGH" ≡ ok "ABCDEFGH"
unfolding decode_totp_secret normalize_base32_secret concat split_words equals_signs is_space
devanagari_code_decoded = refl

devanagari_code-not_ascii :
    is_ascii (normalized_code unicode_otp totp_service devanagari_code) ≡ false
unfolding is_ascii all_chars normalized_code without_spaces strip
devanagari_code-not_ascii = refl

devanagari_code-has_shape :
    has_shape unicode_otp totp_service (normalized_code unicode_otp totp_service devanagari_code)
    ≡ true
unfolding has_shape normalized_code without_spaces strip all_chars
devanagari_code-has_shape = refl

verify_totp-beyond_ascii_example :
    verify_totp unicode_otp totp_service "ABCD EFGH" devanagari_code 3000 ≡ err type_error
unfolding counter_at
verify_totp-beyond_ascii_example =
    verify_totp-beyond_ascii unicode_otp totp_service "ABCD EFGH" devanagari_code 3000 "ABCDEFGH"
      devanagari_code_decoded devanagari_code-not_ascii devanagari_code-has_shape (omega arith)

abbrev confirmation : TwoFactorConfirmation
confirmation = record {
  tenant_id = "acme";
  subject = some "user-1";
  operation = "payout.confirm";
  resource_id = "payout-7";
  method = "totp";
  confirmed_at = pos 3000;
  correlation_id = none;
}

code_confirmed :
    confirm_sensitive_operation sample_otp totp_service user_context "ABCD EFGH" typed_code
      "payout.confirm" "payout-7" 3000
    ≡ ok confirmation
unfolding confirm_sensitive_operation verify_totp has_shape normalized_code without_spaces strip
    all_chars verify_loop counter_at candidate_matches hotp decode_totp_secret compare_digest
    is_ascii zero_filled pick truncated from_bytes equals_signs drop_bytes last_byte
    normalize_base32_secret split_words between is_space is_white_space concat
code_confirmed = refl

confirm_sensitive_operation-IsMatching_example :
    (verify_totp sample_otp totp_service "ABCD EFGH" typed_code 3000 ≡ ok true)
    × (require_matching_two_factor_confirmation confirmation "acme" "payout-7" user_context ≡ ok tt)
confirm_sensitive_operation-IsMatching_example =
    confirm_sensitive_operation-IsMatching sample_otp totp_service user_context "ABCD EFGH"
      typed_code "payout-7" 3000 confirmation code_confirmed
