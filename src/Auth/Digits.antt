-- ===== src/Auth/Digits.antt =====
-- The codes that `_hotp` makes: they are ASCII.
use Prim.Native.Nat.{◌/◌, ◌%◌}
use media_center.Prelude.{ℕ, zero, suc, ◌^◌, ◌<◌, ◌≡◌, refl, String, true, false, leb, arith}
use media_center.Text.{all_chars}
use media_center.Text.Classes.{all_chars-append}
use media_center.Exec.{ok}
use media_center.Auth.{is_ascii}
use media_center.Auth.Totp.{
  truncated, Otp, TotpService, pick, decimal_digits, zero_filled, decode_totp_secret, hotp,
}

pick-is_ascii : (n : ℕ) → is_ascii (pick n decimal_digits) ≡ true
unfolding is_ascii all_chars pick
pick-is_ascii zero = refl
pick-is_ascii (suc zero) = refl
pick-is_ascii (suc (suc zero)) = refl
pick-is_ascii (suc (suc (suc zero))) = refl
pick-is_ascii (suc (suc (suc (suc zero)))) = refl
pick-is_ascii (suc (suc (suc (suc (suc zero))))) = refl
pick-is_ascii (suc (suc (suc (suc (suc (suc zero)))))) = refl
pick-is_ascii (suc (suc (suc (suc (suc (suc (suc zero))))))) = refl
pick-is_ascii (suc (suc (suc (suc (suc (suc (suc (suc zero)))))))) = refl
pick-is_ascii (suc (suc (suc (suc (suc (suc (suc (suc (suc zero))))))))) = refl
pick-is_ascii (suc (suc (suc (suc (suc (suc (suc (suc (suc (suc n)))))))))) = refl

zero_filled-is_ascii : (digits n : ℕ) → is_ascii (zero_filled digits n) ≡ true
unfolding is_ascii zero_filled
zero_filled-is_ascii zero n = unfold all_chars in refl
zero_filled-is_ascii (suc digits) n =
    all_chars-append _ (zero_filled digits (n / 10)) _ (zero_filled-is_ascii digits (n / 10))
      (pick-is_ascii (n % 10))

module _ {Bytes : Type 0} (otp : Otp Bytes) (service : TotpService) (secret : String) where
  pub hotp-ok :
      (key : Bytes) (c : ℕ)
      → decode_totp_secret otp service secret ≡ ok key
      → c < 2 ^ 64
      → (expected : String) × (hotp otp service secret c ≡ ok expected) × (is_ascii expected ≡ true)
  unfolding hotp
  hotp-ok key c k small =
      let in_range : leb (2 ^ 64) c ≡ false = ground arith in
      (
        zero_filled service.digits (truncated (otp.hmac_sha1 key c) % 10 ^ service.digits),
        rw (k, in_range) refl,
        zero_filled-is_ascii service.digits (truncated (otp.hmac_sha1 key c) % 10 ^ service.digits),
      )
