-- ===== src/Auth/Sessions.antt =====
-- AuthTokenService with InMemoryRefreshTokenStore. A generator of random texts is a function of
-- the number of texts that it has given.
use media_center.Prelude.{
  ℕ, ◌+◌, String, Bool, true, false, not, ◌&&◌, ◌||◌, ◌==◌, Option, none, some, List, [], ◌∷◌,
  str_eq, leb, if◌then◌else◌,
}
use media_center.Text.{strip}
use media_center.Value.{
  pos, Float, Json, int, str, arr, Items, nil, cons, Fields, field, end, get_field,
}
use media_center.Access.{TenantContext}
use media_center.Exec.{
  Exec, Result, ok, err, pure, raise, lift, modify, gets, raise_if, ◌>>=◌, ◌>>◌, value_error,
  unauthorized,
}
use media_center.Auth.{Crypto, tenant_context_from_claims}
use media_center.Auth.Jwt.{encode_hs256_jwt, decode_hs256_jwt, is_text}

pub record TokenPair : Type 0 where
  pub access_token : String
  pub refresh_token : String
  pub token_type : String
  pub expires_in : ℕ
  pub refresh_expires_in : ℕ

pub record RefreshTokenRecord : Type 0 where
  pub token_hash : String
  pub tenant_id : String
  pub subject : String
  pub roles : List String
  pub refresh_jti : String
  pub issued_at : ℕ
  pub expires_at : ℕ
  pub revoked_at : Option ℕ
  pub replaced_by_jti : Option String

-- The store, and how many identifiers and refresh tokens have been generated.
pub record Sessions : Type 0 where
  pub records : String → Option RefreshTokenRecord
  pub ids : ℕ
  pub refresh_tokens : ℕ

abbrev pub new_sessions : Sessions
new_sessions = record { records = λ token_hash. none; ids = 0; refresh_tokens = 0 }

abbrev pub Authenticating : Type 0 → Type 0
Authenticating = Exec Sessions

-- What an AuthTokenService is made of.
pub record AuthTokenService (Bytes : Type 0) : Type 0 where
  pub jwt_secret : Bytes
  pub issuer : String
  pub audience : String
  pub access_ttl_seconds : ℕ
  pub refresh_ttl_seconds : ℕ
  pub id_factory : ℕ → String
  pub refresh_token_factory : ℕ → String

-- The tests of __init__, negative numbers aside
unfoldable pub is_auth_token_service : {Bytes : Type 0} → AuthTokenService Bytes → Bool
is_auth_token_service service =
    not (service.access_ttl_seconds == 0) && not (service.refresh_ttl_seconds == 0)

-- The arguments of `issue_token_pair`, and `int(self._clock())`.
pub record TokenRequest : Type 0 where
  pub subject : String
  pub tenant_id : String
  pub roles : List String
  pub correlation_id : Option String
  pub issued_at : ℕ

unfoldable pub has_blank : List String → Bool
has_blank [] = false
has_blank (role ∷ roles) = str_eq (strip role) "" || has_blank roles

unfoldable pub roles_json : List String → Items
roles_json [] = nil
roles_json (role ∷ roles) = cons (str role) (roles_json roles)

-- InMemoryRefreshTokenStore.save
unfoldable pub save : RefreshTokenRecord → Sessions → Sessions
save r s = record s { records = λ h. if str_eq h r.token_hash then some r else s.records h }

abbrev pub revoked_record :
    ℕ → Option String → Option RefreshTokenRecord → Option RefreshTokenRecord
revoked_record revoked_at replaced_by_jti none = none
revoked_record revoked_at replaced_by_jti (some r) =
    some (record r { revoked_at = some revoked_at; replaced_by_jti = replaced_by_jti })

-- InMemoryRefreshTokenStore.revoke
unfoldable pub revoke : String → ℕ → Option String → Sessions → Sessions
revoke token_hash revoked_at replaced_by_jti s = record s {
  records = λ h.
      if str_eq h token_hash
      then revoked_record revoked_at replaced_by_jti (s.records h)
      else s.records h;
}

module _ {Bytes : Type 0} (crypto : Crypto Bytes) (sha256_hex : String → String)
    (service : AuthTokenService Bytes) where
  -- hash_refresh_token
  abbrev pub hash_refresh_token : String → String
  hash_refresh_token refresh_token = sha256_hex refresh_token

  unfoldable pub new_id : Authenticating String
  new_id s = (ok (service.id_factory s.ids), record s { ids = s.ids + 1 })

  unfoldable pub new_refresh_token : Authenticating String
  new_refresh_token s = (
    ok (service.refresh_token_factory s.refresh_tokens),
    record s { refresh_tokens = s.refresh_tokens + 1 },
  )

  unfoldable pub access_claims : TokenRequest → String → Fields
  access_claims q jti = field "aud" (str service.audience) (
      field "exp" (int (pos (q.issued_at + service.access_ttl_seconds))) (
        field "iat" (int (pos q.issued_at)) (
          field "iss" (str service.issuer) (
            field "jti" (str jti) (
              field "nbf" (int (pos q.issued_at)) (
                field "roles" (arr (roles_json q.roles)) (
                  field "sub" (str q.subject)
                    (field "tenant_id" (str q.tenant_id) (field "typ" (str "access") end)))))))))

  -- _issue_access_token
  unfoldable pub issue_access_token : TokenRequest → Authenticating String
  issue_access_token q = do
    jti ← new_id
    pure (encode_hs256_jwt crypto (access_claims q jti) service.jwt_secret)

  unfoldable pub checked_claims : TokenRequest → Fields
  checked_claims q =
      field "tenant_id" (str q.tenant_id)
        (field "sub" (str q.subject) (field "roles" (arr (roles_json q.roles)) end))

  unfoldable pub new_record : TokenRequest → String → String → RefreshTokenRecord
  new_record q refresh_token refresh_jti = record {
    token_hash = hash_refresh_token refresh_token;
    tenant_id = q.tenant_id;
    subject = q.subject;
    roles = q.roles;
    refresh_jti = refresh_jti;
    issued_at = q.issued_at;
    expires_at = q.issued_at + service.refresh_ttl_seconds;
    revoked_at = none;
    replaced_by_jti = none;
  }

  unfoldable pub token_pair : String → String → TokenPair
  token_pair access_token refresh_token = record {
    access_token = access_token;
    refresh_token = refresh_token;
    token_type = "Bearer";
    expires_in = service.access_ttl_seconds;
    refresh_expires_in = service.refresh_ttl_seconds;
  }

  -- issue_token_pair
  unfoldable pub issue_token_pair : TokenRequest → Authenticating TokenPair
  issue_token_pair q = do
    raise_if (has_blank q.roles) value_error
    raise_if (str_eq (strip q.subject) "") value_error
    lift (tenant_context_from_claims (checked_claims q) q.correlation_id)
    access_token ← issue_access_token q
    refresh_token ← new_refresh_token
    refresh_jti ← new_id
    modify (save (new_record q refresh_token refresh_jti))
    pure (token_pair access_token refresh_token)

  -- The record may be used: it is there, and neither revoked nor used.
  abbrev pub usable : Option RefreshTokenRecord → Result RefreshTokenRecord
  usable none = err unauthorized
  usable (some r) = elim r.revoked_at [ none ↦ ok r | some at ↦ err unauthorized ]

  abbrev pub expire : Bool → String → ℕ → Authenticating (Unit {0})
  expire true token_hash now = modify (revoke token_hash now none) >> raise unauthorized
  expire false token_hash now = pure tt

  abbrev pub jti_of : Option RefreshTokenRecord → Option String
  jti_of none = none
  jti_of (some r) = some r.refresh_jti

  abbrev pub request_of : RefreshTokenRecord → Option String → ℕ → TokenRequest
  request_of r correlation_id issued_at = record {
    subject = r.subject;
    tenant_id = r.tenant_id;
    roles = r.roles;
    correlation_id = correlation_id;
    issued_at = issued_at;
  }

  -- refresh_token_pair; the clock is read again for the new pair
  unfoldable pub refresh_token_pair : String → Option String → ℕ → ℕ → Authenticating TokenPair
  refresh_token_pair refresh_token correlation_id now issued_at = do
    let token_hash = hash_refresh_token refresh_token
    r ← lift (usable (← gets (λ s. s.records token_hash)))
    expire (leb r.expires_at now) token_hash now
    pair ← issue_token_pair (request_of r correlation_id issued_at)
    replacement ← gets (λ s. s.records (hash_refresh_token pair.refresh_token))
    modify (revoke token_hash now (jti_of replacement))
    pure pair

  -- revoke_refresh_token
  unfoldable pub revoke_refresh_token : String → ℕ → Authenticating (Unit {0})
  revoke_refresh_token refresh_token now =
      modify (revoke (hash_refresh_token refresh_token) now none)

  abbrev pub is_string_claim : Option Json → Bool
  is_string_claim (some (str value)) = true
  is_string_claim _ = false

  -- The checks of `verify_access_token` on the claims of the token.
  abbrev pub context_of_claims : Result Fields → Option String → Result TenantContext
  context_of_claims (err e) correlation_id = err e
  context_of_claims (ok claims) correlation_id =
      if is_text "access" (get_field "typ" claims)
      then (if is_string_claim (get_field "jti" claims)
          then tenant_context_from_claims claims correlation_id
          else err unauthorized)
      else err unauthorized

  -- verify_access_token
  unfoldable pub verify_access_token : String → Option String → Float → Result TenantContext
  verify_access_token token correlation_id now =
      context_of_claims
        (decode_hs256_jwt crypto token service.jwt_secret (some service.issuer)
          (some service.audience) now)
        correlation_id
