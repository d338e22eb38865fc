-- ===== src/Auth/Signed.antt =====
-- A token that `verify_access_token` accepts is signed, in time and for this audience.
use media_center.Prelude.{
  String, true, Option, some, List, [], ◌∷◌, ◌≡◌, refl, sym, ap, ◌∙◌, inl, inr, arith,
}
use media_center.Text.{split_on}
use media_center.Value.{Float, Fields, get_field}
use media_center.Access.{TenantContext}
use media_center.Exec.{ok, err}
use media_center.Exec.Rules.{Result-cases}
use media_center.Auth.{Crypto, tenant_context_from_claims}
use media_center.Auth.Jwt.{
  base64url_decode, decode_json_segment, signing_input_of, decode_parts, decode_split,
  decode_hs256_jwt, validate_registered_claims, is_text, check, numeric_claim, is_before, is_after,
  audience_matches,
}
use media_center.Auth.Sessions.{AuthTokenService, verify_access_token, is_string_claim}

-- The registered claims are there in time and for this issuer and audience.
pub record IsInForce (claims : Fields) (issuer audience : String) (now : Float) : Type 0 where
  pub expires_at : Option Float
  pub expires : numeric_claim (get_field "exp" claims) ≡ ok expires_at
  pub not_expired : is_before now expires_at ≡ true
  pub not_before : Option Float
  pub starts : numeric_claim (get_field "nbf" claims) ≡ ok not_before
  pub started : is_after now not_before ≡ true
  pub issued : is_text issuer (get_field "iss" claims) ≡ true
  pub meant : audience_matches (get_field "aud" claims) audience ≡ true

validate-IsInForce :
    (claims : Fields) (issuer audience : String) (now : Float) (u : Unit {0})
    → validate_registered_claims claims (some issuer) (some audience) now ≡ ok u
    → IsInForce claims issuer audience now
unfolding validate_registered_claims check
validate-IsInForce claims issuer audience now u h =
    elim (Result-cases (numeric_claim (get_field "exp" claims))) [
      | inr (e, x) ↦ let no_result : err e ≡ ok u = rw x at h in cc
      | inl (expires_at, x) ↦ elim (Result-cases (numeric_claim (get_field "nbf" claims))) [
        | inr (e, n) ↦ let impossible : ⊥ = ground arith in absurd impossible
        | inl (not_before, n) ↦ record {
          expires_at = expires_at;
          expires = x;
          not_expired = ground arith;
          not_before = not_before;
          starts = n;
          started = ground arith;
          issued = ground arith;
          meant = ground arith;
        }
      ]
    ]

module _ {Bytes : Type 0} (crypto : Crypto Bytes) where
  -- The token is three segments, of which the last is the signature of the others, and the second
  -- gives these claims.
  pub record IsSigned (token : String) (secret : Bytes) (claims : Fields) : Type 0 where
    pub header : String
    pub payload : String
    pub signature : String
    pub parts : split_on b'.' token ≡ header ∷ payload ∷ signature ∷ []
    pub actual : Bytes
    pub decoded : base64url_decode crypto signature ≡ ok actual
    pub genuine :
        crypto.compare_digest
          (crypto.hmac_sha256 secret (signing_input_of crypto header payload))
          actual
        ≡ true
    pub given : decode_json_segment crypto payload ≡ ok claims

  decode_parts-IsSigned :
      (token header payload signature : String) (secret : Bytes) (issuer audience : String)
      (now : Float) (claims : Fields)
      → split_on b'.' token ≡ header ∷ payload ∷ signature ∷ []
      → decode_parts crypto header payload signature secret (some issuer) (some audience) now
        ≡ ok claims
      → IsSigned token secret claims × IsInForce claims issuer audience now
  unfolding decode_parts check
  decode_parts-IsSigned token header payload signature secret issuer audience now claims p h =
      elim (Result-cases (decode_json_segment crypto header)) [
        | inr (e, x) ↦ let impossible : ⊥ = ground arith in absurd impossible
        | inl (head, x) ↦ elim (Result-cases (decode_json_segment crypto payload)) [
          | inr (e, y) ↦ let impossible : ⊥ = ground arith in absurd impossible
          | inl (found, y) ↦ elim (Result-cases (base64url_decode crypto signature)) [
            | inr (e, z) ↦ let impossible : ⊥ = ground arith in absurd impossible
            | inl (actual, z) ↦
                elim (Result-cases
                  (validate_registered_claims found (some issuer) (some audience) now)) [
                    | inr (e, w) ↦ let impossible : ⊥ = ground arith in absurd impossible
                    | inl (u, w) ↦
                        let same : found ≡ claims = ground arith in
                        (
                          record {
                            header = header;
                            payload = payload;
                            signature = signature;
                            parts = p;
                            actual = actual;
                            decoded = z;
                            genuine = ground arith;
                            given = y ∙ ap ok same;
                          },
                          rw (sym same) (validate-IsInForce found issuer audience now u w),
                        )
                  ]
          ]
        ]
      ]

  decode-IsSigned :
      (token : String) (secret : Bytes) (issuer audience : String) (now : Float) (claims : Fields)
      → decode_hs256_jwt crypto token secret (some issuer) (some audience) now ≡ ok claims
      → IsSigned token secret claims × IsInForce claims issuer audience now
  unfolding decode_hs256_jwt
  decode-IsSigned token secret issuer audience now claims h = by_parts (split_on b'.' token) refl h
    where
      by_parts :
          (parts : List String)
          → split_on b'.' token ≡ parts
          → decode_split crypto parts secret (some issuer) (some audience) now ≡ ok claims
          → IsSigned token secret claims × IsInForce claims issuer audience now
      by_parts [] p h = cc
      by_parts (a ∷ []) p h = cc
      by_parts (a ∷ b ∷ []) p h = cc
      by_parts (a ∷ b ∷ c ∷ d ∷ more) p h = cc
      by_parts (a ∷ b ∷ c ∷ []) p h =
          decode_parts-IsSigned token a b c secret issuer audience now claims p h

  module _ (sha256_hex : String → String) (service : AuthTokenService Bytes) where
    -- If `verify_access_token` returns a context, then the token is signed with the secret, and its
    -- claims are in force for this issuer and audience, say that it is an access token with an
    -- identifier, and give this context.
    pub verify_access_token-IsSigned :
        (token : String) (c : Option String) (now : Float) (context : TenantContext)
        → verify_access_token crypto sha256_hex service token c now ≡ ok context
        → (claims : Fields) × IsSigned token service.jwt_secret claims
          × IsInForce claims service.issuer service.audience now
          × (is_text "access" (get_field "typ" claims) ≡ true)
          × (is_string_claim crypto sha256_hex service (get_field "jti" claims) ≡ true)
          × (tenant_context_from_claims claims c ≡ ok context)
    unfolding verify_access_token
    verify_access_token-IsSigned token c now context h =
        elim (Result-cases (
          decode_hs256_jwt crypto token service.jwt_secret (some service.issuer)
            (some service.audience) now)) [
              | inr (e, d) ↦ let no_result : err e ≡ ok context = rw d at h in cc
              | inl (claims, d) ↦
                  let (signed, in_force) =
                    decode-IsSigned token service.jwt_secret service.issuer service.audience now
                      claims d in
                  (claims, signed, in_force, ground arith, ground arith, ground arith)
            ]
