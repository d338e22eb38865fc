-- ===== src/Auth/Ends.antt =====
-- How `issue_token_pair` and `refresh_token_pair` end.
use media_center.Prelude.{
  ℕ, ◌+◌, String, false, Option, none, some, ◌≡◌, sym, ap, inl, inr, leb, str_eq, Bool-cases,
  Option-cases,
}
use media_center.Text.{strip}
use media_center.Access.{TenantContext}
use media_center.Exec.{
  Error, Result, ok, err, pure, raise, lift, modify, gets, raise_if, ◌>>=◌, ◌>>◌, unauthorized,
  from_ok, continue,
}
use media_center.Exec.Rules.{Result-cases}
use media_center.Auth.{Crypto, tenant_context_from_claims}
use media_center.Auth.Jwt.{encode_hs256_jwt}
use media_center.Auth.Sessions.{
  TokenPair, RefreshTokenRecord, Sessions, Authenticating, AuthTokenService, TokenRequest,
  has_blank, save, revoke, hash_refresh_token, new_id, new_refresh_token, access_claims,
  issue_access_token, checked_claims, new_record, token_pair, issue_token_pair, usable, jti_of,
  request_of, refresh_token_pair,
}

module _ {Bytes : Type 0} (crypto : Crypto Bytes) (sha256_hex : String → String)
    (service : AuthTokenService Bytes) where
  -- The state that a successful `issue_token_pair` leaves, and its pair.
  abbrev pub issued_state : TokenRequest → Sessions → Sessions
  issued_state q s =
      save
        (new_record crypto sha256_hex service q (service.refresh_token_factory s.refresh_tokens)
          (service.id_factory (s.ids + 1)))
        (record s { ids = s.ids + 1 + 1; refresh_tokens = s.refresh_tokens + 1 })

  abbrev pub issued_pair : TokenRequest → Sessions → TokenPair
  issued_pair q s =
      token_pair crypto sha256_hex service
        (encode_hs256_jwt crypto
          (access_claims crypto sha256_hex service q (service.id_factory s.ids)) service.jwt_secret)
        (service.refresh_token_factory s.refresh_tokens)

  pub data IssueEnds (q : TokenRequest) (s : Sessions) : Result TokenPair × Sessions → Type 0 where
    refused : {e : Error} → IssueEnds q s (err e, s)
    issued :
        {context : TenantContext}
        → tenant_context_from_claims (checked_claims crypto sha256_hex service q) q.correlation_id
          ≡ ok context
        → IssueEnds q s (ok (issued_pair q s), issued_state q s)

  pub issue_token_pair-Ends :
      (q : TokenRequest) (s : Sessions)
      → IssueEnds q s (issue_token_pair crypto sha256_hex service q s)
  unfolding issue_token_pair issue_access_token new_id new_refresh_token modify pure raise_if lift
      ◌>>=◌
  issue_token_pair-Ends q s = elim (Bool-cases (has_blank q.roles)) [
    | inl b ↦ rw b refused
    | inr b ↦ elim (Bool-cases (str_eq (strip q.subject) "")) [
      | inl e ↦ rw (b, e) refused
      | inr e ↦
          elim (Result-cases (
            tenant_context_from_claims (checked_claims crypto sha256_hex service q)
              q.correlation_id)) [
                | inl (context, r) ↦ rw (b, e, r) (issued r)
                | inr (x, r) ↦ rw (b, e, r) refused
              ]
    ]
  ]

  abbrev pub hash : String → String
  hash token = hash_refresh_token crypto sha256_hex service token

  abbrev pub again : RefreshTokenRecord → Option String → ℕ → TokenRequest
  again r correlation_id issued_at = request_of crypto sha256_hex service r correlation_id issued_at

  pub data RefreshEnds (token : String) (correlation_id : Option String) (now issued_at : ℕ)
      (s : Sessions) : Result TokenPair × Sessions → Type 0 where
    unusable : RefreshEnds token correlation_id now issued_at s (err unauthorized, s)
    expired :
        RefreshEnds token correlation_id now issued_at s
          (err unauthorized, revoke (hash token) now none s)
    not_issued : {e : Error} → RefreshEnds token correlation_id now issued_at s (err e, s)
    rotated :
        {r : RefreshTokenRecord} {context : TenantContext} (replaced_by : Option String)
        → s.records (hash token) ≡ some r
        → r.revoked_at ≡ none
        → leb r.expires_at now ≡ false
        → tenant_context_from_claims
            (checked_claims crypto sha256_hex service (again r correlation_id issued_at))
            correlation_id
          ≡ ok context
        → RefreshEnds token correlation_id now issued_at s (
          ok (issued_pair (again r correlation_id issued_at) s),
          revoke (hash token) now replaced_by (issued_state (again r correlation_id issued_at) s),
        )

  usable-ok :
      (o : Option RefreshTokenRecord) (r : RefreshTokenRecord)
      → usable crypto sha256_hex service o ≡ ok r
      → (o ≡ some r) × (r.revoked_at ≡ none)
  usable-ok none r h = cc
  usable-ok (some r') r h = elim (Option-cases r'.revoked_at) [
    | inl e ↦ let same : r' ≡ r = from_ok (rw e at h) in (ap some same, rw (sym same) e)
    | inr (at, e) ↦ let no : err unauthorized ≡ ok r = rw e at h in cc
  ]

  usable-err :
      (o : Option RefreshTokenRecord) (e : Error)
      → usable crypto sha256_hex service o ≡ err e
      → e ≡ unauthorized
  usable-err none e h = cc
  usable-err (some r') e h = elim (Option-cases r'.revoked_at) [
    | inl k ↦ let no : ok r' ≡ err e = rw k at h in cc
    | inr (at, k) ↦ let no : err unauthorized ≡ err e = rw k at h in cc
  ]

  pub refresh_token_pair-Ends :
      (token : String) (correlation_id : Option String) (now issued_at : ℕ) (s : Sessions)
      → RefreshEnds token correlation_id now issued_at s
          (refresh_token_pair crypto sha256_hex service token correlation_id now issued_at s)
  unfolding refresh_token_pair modify pure raise lift gets ◌>>=◌
  refresh_token_pair-Ends token correlation_id now issued_at s =
      elim (Result-cases (usable crypto sha256_hex service (s.records (hash token)))) [
        | inr (e, u) ↦ rw u (rw (usable-err _ e u) unusable)
        | inl (r, u) ↦ elim (Bool-cases (leb r.expires_at now)) [
          | inl x ↦ rw (u, x) expired
          | inr x ↦
              rw (u, x)
                (by_issue r u x _ (issue_token_pair-Ends (again r correlation_id issued_at) s))
        ]
      ]
    where
      rest : TokenPair → Authenticating TokenPair
      rest pair = gets (λ s'. s'.records (hash pair.refresh_token)) >>= λ replacement.
          modify (revoke (hash token) now (jti_of crypto sha256_hex service replacement))
          >> pure pair

      by_issue :
          (r : RefreshTokenRecord)
          → usable crypto sha256_hex service (s.records (hash token)) ≡ ok r
          → leb r.expires_at now ≡ false
          → (i : Result TokenPair × Sessions) → IssueEnds (again r correlation_id issued_at) s i
          → RefreshEnds token correlation_id now issued_at s (continue i.0 rest i.1)
      by_issue r u x _ refused = not_issued
      by_issue r u x _ (issued c) =
          let (found, fresh) = usable-ok (s.records (hash token)) r u in rotated _ found fresh x c
