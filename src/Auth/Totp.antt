-- ===== src/Auth/Totp.antt =====
-- TOTPService: one-time codes by time, at whole seconds.
use Prim.Native.String
use Prim.Native.Char.{code}
use Prim.Native.Nat.{◌/◌, ◌%◌}
use media_center.Prelude.{
  ℕ, zero, suc, ◌+◌, ◌-◌, ◌*◌, ◌^◌, String, Bool, true, false, not, ◌&&◌, Option, none, some, List,
  [], ◌∷◌, ltb, leb, ◌==◌, str_eq, if◌then◌else◌,
}
use media_center.Text.{strip, all_chars, concat}
use media_center.Value.{pos}
use media_center.Access.{TenantContext}
use media_center.Exec.{Result, ok, err, unauthorized, overflow_error, type_error}
use media_center.Auth.{is_ascii, ◌>>=◌, ◌>>◌, split_words}
use media_center.Auth.Jwt.{equals_signs}
use media_center.Payout.Confirmation.{TwoFactorConfirmation}

-- What comes from base64, hmac and the tables of Unicode.
pub record Otp (Bytes : Type 0) : Type 0 where
  -- base64.b32decode(text, casefold=True), `none` where it raises
  pub b32decode : String → Option Bytes
  -- hmac.new(key, counter.to_bytes(8, "big"), hashlib.sha1).digest(), byte by byte
  pub hmac_sha1 : Bytes → ℕ → List ℕ
  -- str.upper
  pub upper : String → String
  -- str.isdigit on a character
  pub is_digit : ℕ → Bool

-- The fields of TOTPService.
pub record TotpService : Type 0 where
  pub step_seconds : ℕ
  pub digits : ℕ
  pub allowed_drift_steps : ℕ

-- The tests of __init__, negative numbers aside
unfoldable pub is_totp_service : TotpService → Bool
is_totp_service service =
    not (service.step_seconds == 0) && leb 6 service.digits && leb service.digits 8

-- code.replace(" ", "")
unfoldable pub without_spaces : String → String
without_spaces String.[] = String.[]
without_spaces (String.◌∷◌ c s) =
    let rest = without_spaces s in if code c == b' ' then rest else String.◌∷◌ c rest

unfoldable pub last_byte : List ℕ → ℕ
last_byte [] = 0
last_byte (b ∷ []) = b
last_byte (b ∷ c ∷ bs) = last_byte (c ∷ bs)

unfoldable pub drop_bytes : ℕ → List ℕ → List ℕ
drop_bytes zero bs = bs
drop_bytes (suc n) [] = []
drop_bytes (suc n) (b ∷ bs) = drop_bytes n bs

-- int.from_bytes(bytes[:n], "big"), after the bytes that make `high`
unfoldable pub from_bytes : ℕ → ℕ → List ℕ → ℕ
from_bytes zero high bs = high
from_bytes (suc n) high [] = high
from_bytes (suc n) high (b ∷ bs) = from_bytes n (high * 256 + b) bs

-- The number of the digest: four bytes from an offset that its last byte gives, without the sign.
unfoldable pub truncated : List ℕ → ℕ
truncated digest = from_bytes 4 0 (drop_bytes (last_byte digest % 16) digest) % 2 ^ 31

abbrev pub decimal_digits : List String
decimal_digits = "0" ∷ "1" ∷ "2" ∷ "3" ∷ "4" ∷ "5" ∷ "6" ∷ "7" ∷ "8" ∷ "9" ∷ []

unfoldable pub pick : ℕ → List String → String
pick n [] = ""
pick zero (s ∷ ss) = s
pick (suc n) (s ∷ ss) = pick n ss

-- str(n).zfill(digits) for a number below 10 ** digits: its last digits
unfoldable pub zero_filled : ℕ → ℕ → String
zero_filled zero n = ""
zero_filled (suc digits) n =
    String.◌++◌ (zero_filled digits (n / 10)) (pick (n % 10) decimal_digits)

-- Characters beyond ASCII make hmac.compare_digest raise.
unfoldable pub compare_digest : String → String → Result Bool
compare_digest a b = if is_ascii a && is_ascii b then ok (str_eq a b) else err type_error

module _ {Bytes : Type 0} (otp : Otp Bytes) (service : TotpService) where
  -- _normalize_base32_secret
  unfoldable pub normalize_base32_secret : String → String
  normalize_base32_secret secret = concat (split_words (otp.upper secret))

  abbrev pub or_unauthorized : Option Bytes → Result Bytes
  or_unauthorized none = err unauthorized
  or_unauthorized (some key) = ok key

  -- _decode_totp_secret
  unfoldable pub decode_totp_secret : String → Result Bytes
  decode_totp_secret secret =
      let normalized = normalize_base32_secret secret in
      let missing = (8 - String.count normalized % 8) % 8 in
      or_unauthorized (otp.b32decode (String.◌++◌ normalized (equals_signs missing)))

  -- _hotp
  unfoldable pub hotp : String → ℕ → Result String
  hotp secret counter = do
    key ← decode_totp_secret secret
    if leb (2 ^ 64) counter
        then err overflow_error
        else ok (
            zero_filled service.digits
              (truncated (otp.hmac_sha1 key counter) % 10 ^ service.digits))

  -- _counter
  unfoldable pub counter_at : ℕ → ℕ
  counter_at at = at / service.step_seconds

  -- generate_totp
  unfoldable pub generate_totp : String → ℕ → Result String
  generate_totp secret at = hotp secret (counter_at at)

  abbrev pub or_else_search : Result Bool → Result Bool → Result Bool
  or_else_search (err e) rest = err e
  or_else_search (ok true) rest = ok true
  or_else_search (ok false) rest = rest

  -- One candidate of the loop: whether its code is the normalised one.
  unfoldable pub candidate_matches : String → String → ℕ → Result Bool
  candidate_matches secret text candidate = do
    expected ← hotp secret candidate
    compare_digest expected text

  -- The loop over so many drifts, of which this one is `index - allowed_drift_steps`.
  unfoldable pub verify_loop : String → String → ℕ → ℕ → ℕ → Result Bool
  verify_loop secret text counter zero index = ok false
  verify_loop secret text counter (suc left) index =
      let rest = verify_loop secret text counter left (index + 1) in
      if ltb (counter + index) service.allowed_drift_steps
      then rest
      else or_else_search
          (candidate_matches secret text (counter + index - service.allowed_drift_steps)) rest

  unfoldable pub normalized_code : String → String
  normalized_code text = without_spaces (strip text)

  unfoldable pub has_shape : String → Bool
  has_shape text =
      String.count text == service.digits && not (str_eq text "") && all_chars otp.is_digit text

  -- verify_totp
  unfoldable pub verify_totp : String → String → ℕ → Result Bool
  verify_totp secret text at =
      if has_shape (normalized_code text)
      then verify_loop secret (normalized_code text) (counter_at at)
          (2 * service.allowed_drift_steps + 1) 0
      else ok false

  abbrev pub require_verified : Result Bool → Result (Unit {0})
  require_verified (err e) = err e
  require_verified (ok true) = ok tt
  require_verified (ok false) = err unauthorized

  -- confirm_sensitive_operation
  unfoldable pub confirm_sensitive_operation :
      TenantContext → String → String → String → String → ℕ → Result TwoFactorConfirmation
  confirm_sensitive_operation context secret text operation resource_id at = do
    require_verified (verify_totp secret text at)
    ok (record {
      tenant_id = context.tenant_id;
      subject = context.subject;
      operation = operation;
      resource_id = resource_id;
      method = "totp";
      confirmed_at = pos at;
      correlation_id = context.correlation_id;
    })
