-- ===== src/Auth/Confirmed.antt =====
-- What the confirmation of a sensitive operation is good for.
use media_center.Prelude.{
  ℕ, ◌≡◌, refl, sym, String, true, false, Option, none, some, str_eq, eq_iff, inl, inr,
}
use media_center.Access.{TenantContext}
use media_center.Exec.{unauthorized, ok, err, from_ok}
use media_center.Exec.Rules.{Result-cases}
use media_center.Auth.Totp.{Otp, TotpService, verify_totp, confirm_sensitive_operation}
use media_center.Payout.Confirmation.{
  TwoFactorConfirmation, require_matching_two_factor_confirmation, optional_eq, given_and_different,
}

same_text : (s : String) → str_eq s s ≡ true
same_text s = (eq_iff s s).1 refl

optional_eq-same : (o : Option String) → optional_eq o o ≡ true
unfolding optional_eq
optional_eq-same none = refl
optional_eq-same (some s) = same_text s

given_and_different-same : (o : Option String) → given_and_different o o ≡ false
unfolding given_and_different
given_and_different-same none = refl
given_and_different-same (some s) = rw (same_text s) refl

module _ {Bytes : Type 0} (otp : Otp Bytes) (service : TotpService) where
  -- If `confirm_sensitive_operation` returns a confirmation of a payout in a context, then its code
  -- was verified, and `confirm_payout` finds that it matches this payout, tenant and context.
  pub confirm_sensitive_operation-IsMatching :
      (context : TenantContext) (secret code payout_id : String) (at : ℕ)
      (f : TwoFactorConfirmation)
      → confirm_sensitive_operation otp service context secret code "payout.confirm" payout_id at
        ≡ ok f
      → (verify_totp otp service secret code at ≡ ok true)
        × (require_matching_two_factor_confirmation f context.tenant_id payout_id context ≡ ok tt)
  unfolding confirm_sensitive_operation require_matching_two_factor_confirmation
  confirm_sensitive_operation-IsMatching context secret code payout_id at f h =
      elim (Result-cases (verify_totp otp service secret code at)) [
        | inr (e, v) ↦ let no_result : err e ≡ ok f = rw v at h in cc
        | inl (true, v) ↦ (
          v,
          rw
              (
                sym (from_ok (rw v at h)),
                same_text context.tenant_id,
                optional_eq-same context.subject,
                same_text payout_id,
                given_and_different-same context.correlation_id,
              )
              refl,
        )
        | inl (false, v) ↦ let no_result : err unauthorized ≡ ok f = rw v at h in cc
      ]
