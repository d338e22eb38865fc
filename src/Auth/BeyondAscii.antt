-- ===== src/Auth/BeyondAscii.antt =====
-- Characters beyond ASCII, in a token and in a one-time code.
use media_center.Prelude.{
  ℕ, zero, suc, ◌+◌, ◌-◌, ◌*◌, ◌^◌, ◌≤◌, ◌<◌, ◌≡◌, refl, String, true, false, Option, ltb,
  Bool-cases, inl, inr, arith, [], ◌∷◌,
}
use media_center.Text.{split_on}
use media_center.Exec.{ok, err, value_error, type_error}
use media_center.Auth.{is_ascii, Crypto}
use media_center.Auth.Totp.{
  Otp, TotpService, compare_digest, decode_totp_secret, counter_at, candidate_matches, verify_loop,
  normalized_code, has_shape, verify_totp,
}
use media_center.Value.{Float}
use media_center.Auth.Digits.{hotp-ok}
use media_center.Auth.Jwt.{decode_hs256_jwt, decode_parts, decode_json_segment, base64url_decode}
use media_center.Auth.Sessions.{AuthTokenService, verify_access_token}

module _ {Bytes : Type 0} (crypto : Crypto Bytes) (sha256_hex : String → String)
    (service : AuthTokenService Bytes) where
  -- For a token of three segments of which the first has a character beyond ASCII,
  -- `verify_access_token` raises ValueError instead of refusing the token.
  pub verify_access_token-beyond_ascii :
      (token header payload signature : String) (c : Option String) (now : Float)
      → split_on b'.' token ≡ header ∷ payload ∷ signature ∷ []
      → is_ascii header ≡ false
      → verify_access_token crypto sha256_hex service token c now ≡ err value_error
  unfolding verify_access_token decode_hs256_jwt decode_parts decode_json_segment base64url_decode
  verify_access_token-beyond_ascii token header payload signature c now p a = rw (p, a) refl

module _ {Bytes : Type 0} (otp : Otp Bytes) (service : TotpService) (secret text : String) where
  candidate-raises :
      (key : Bytes) (c : ℕ)
      → decode_totp_secret otp service secret ≡ ok key
      → is_ascii text ≡ false
      → c < 2 ^ 64
      → candidate_matches otp service secret text c ≡ err type_error
  unfolding candidate_matches compare_digest
  candidate-raises key c k a small =
      let (expected, h, e) = hotp-ok otp service secret key c k small in rw (h, e, a) refl

  loop-raises :
      (key : Bytes) (counter left index : ℕ)
      → decode_totp_secret otp service secret ≡ ok key
      → is_ascii text ≡ false
      → counter + index + left ≤ 2 ^ 64
      → 0 < left
      → service.allowed_drift_steps < counter + index + left
      → verify_loop otp service secret text counter left index ≡ err type_error
  unfolding verify_loop
  loop-raises key counter zero index k a small some_left reached = absurd (omega arith)
  loop-raises key counter (suc left) index k a small some_left reached =
      elim (Bool-cases (ltb (counter + index) service.allowed_drift_steps)) [
        | inl t ↦
            let low : counter + index < service.allowed_drift_steps = ground arith in
            rw t (
              loop-raises key counter left (index + 1) k a (omega arith) (omega arith)
                (omega arith))
        | inr t ↦
            rw
              (
                t,
                candidate-raises key (counter + index - service.allowed_drift_steps) k a
                    (omega arith),
              )
              refl
      ]

module _ {Bytes : Type 0} (otp : Otp Bytes) (service : TotpService) where
  -- If the secret can be decoded and the counters of the window have eight bytes, then `verify_totp`
  -- raises TypeError for a code of the right shape with a digit beyond ASCII.
  pub verify_totp-beyond_ascii :
      (secret code : String) (at : ℕ) (key : Bytes)
      → decode_totp_secret otp service secret ≡ ok key
      → is_ascii (normalized_code otp service code) ≡ false
      → has_shape otp service (normalized_code otp service code) ≡ true
      → counter_at otp service at + 2 * service.allowed_drift_steps < 2 ^ 64
      → verify_totp otp service secret code at ≡ err type_error
  unfolding verify_totp
  verify_totp-beyond_ascii secret code at key k a shape small = rw shape (
      loop-raises otp service secret (normalized_code otp service code) key
        (counter_at otp service at) (2 * service.allowed_drift_steps + 1) 0 k a (omega arith)
        (omega arith) (omega arith))
