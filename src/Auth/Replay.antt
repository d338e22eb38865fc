-- ===== src/Auth/Replay.antt =====
-- A refresh token is good for one refresh.
use media_center.Prelude.{
  ℕ, ◌<◌, String, true, false, Option, none, some, List, [], ◌∷◌, ◌≡◌, refl, sym, ap, ◌∙◌, inl, inr,
  str_eq, eq_iff, Bool-cases, Option-cases, is_some, arith,
}
use media_center.Exec.{Result, ok, err, modify, gets, lift, ◌>>=◌, unauthorized}
use media_center.Auth.{Crypto}
use media_center.Auth.Sessions.{
  TokenPair, RefreshTokenRecord, Sessions, new_sessions, AuthTokenService, TokenRequest, save,
  revoke, revoked_record, new_record, issue_token_pair, refresh_token_pair, revoke_refresh_token,
  usable,
}
use media_center.Auth.Ends.{
  issued_state, IssueEnds, refused, issued, issue_token_pair-Ends, RefreshEnds, unusable, expired,
  not_issued, rotated, refresh_token_pair-Ends, again,
}
use media_center.Auth.Revoked.{
  IsRevoked, IsRevoked-revoke, IsRevoked-save, IsRevoked-now, save-some,
}

-- The calls of an AuthTokenService that change the store.
pub data Operation : Type 0 where
  issue : TokenRequest → Operation
  refresh : String → Option String → ℕ → ℕ → Operation
  revocation : String → ℕ → Operation

module _ {Bytes : Type 0} (crypto : Crypto Bytes) (sha256_hex : String → String)
    (service : AuthTokenService Bytes) where
  abbrev pub perform : Operation → Sessions → Sessions
  perform (issue q) s = (issue_token_pair crypto sha256_hex service q s).1
  perform (refresh token correlation_id now issued_at) s =
      (refresh_token_pair crypto sha256_hex service token correlation_id now issued_at s).1
  perform (revocation token now) s = (revoke_refresh_token crypto sha256_hex service token now s).1

  unfoldable pub perform_all : List Operation → Sessions → Sessions
  perform_all [] s = s
  perform_all (operation ∷ rest) s = perform_all rest (perform operation s)

  abbrev pub hash_of : ℕ → String
  hash_of n = sha256_hex (service.refresh_token_factory n)

  -- No two generated refresh tokens have one hash.
  abbrev pub Distinct : Type 0
  Distinct = (i j : ℕ) → hash_of i ≡ hash_of j → i ≡ j

  -- Every record is that of a refresh token that was generated.
  abbrev pub AllGenerated : Sessions → Type 0
  AllGenerated s =
      (h : String)
      → is_some (s.records h) ≡ true
      → (i : ℕ) × (i < s.refresh_tokens) × (h ≡ hash_of i)

  revoke-AllGenerated :
      (k : String) (at : ℕ) (by : Option String) (s : Sessions)
      → AllGenerated s
      → AllGenerated (revoke k at by s)
  unfolding revoke
  revoke-AllGenerated k at by s g h known = elim (Bool-cases (str_eq h k)) [
    | inl x ↦ g h (was_there (s.records h) (rw x at known))
    | inr x ↦ g h (rw x at known)
  ]
    where
      was_there :
          (o : Option RefreshTokenRecord)
          → is_some (revoked_record at by o) ≡ true
          → is_some o ≡ true
      was_there none e = e
      was_there (some r) e = refl

  issued-AllGenerated :
      (q : TokenRequest) (s : Sessions)
      → AllGenerated s
      → AllGenerated (issued_state crypto sha256_hex service q s)
  unfolding save new_record
  issued-AllGenerated q s g h known = elim (Bool-cases (str_eq h (hash_of s.refresh_tokens))) [
    | inl x ↦ (s.refresh_tokens, omega arith, (eq_iff h (hash_of s.refresh_tokens)).0 x)
    | inr x ↦ let (i, low, e) = g h (rw x at known) in (i, omega arith, e)
  ]

  issued-IsRevoked :
      (h : String) (q : TokenRequest) (s : Sessions)
      → Distinct
      → AllGenerated s
      → IsRevoked h s
      → IsRevoked h (issued_state crypto sha256_hex service q s)
  unfolding new_record
  issued-IsRevoked h q s d g v = IsRevoked-save h _ _ other v
    where
      other : str_eq h (hash_of s.refresh_tokens) ≡ false
      other = elim (Bool-cases (str_eq h (hash_of s.refresh_tokens))) [
        | inr x ↦ x
        | inl x ↦
            let (i, low, e) = g h (ap is_some v.1 ∙ refl) in
            let same : i ≡ s.refresh_tokens =
              d i s.refresh_tokens (sym e ∙ (eq_iff h (hash_of s.refresh_tokens)).0 x) in
            absurd (omega (arith, same))
      ]

  issue-AllGenerated :
      (q : TokenRequest) (s : Sessions) (r : Result TokenPair × Sessions)
      → IssueEnds crypto sha256_hex service q s r
      → AllGenerated s
      → AllGenerated r.1
  issue-AllGenerated q s _ refused g h = g h
  issue-AllGenerated q s _ (issued c) g h = issued-AllGenerated q s g h

  refresh-AllGenerated :
      (token : String) (c : Option String) (now at : ℕ) (s : Sessions)
      (r : Result TokenPair × Sessions)
      → RefreshEnds crypto sha256_hex service token c now at s r
      → AllGenerated s
      → AllGenerated r.1
  refresh-AllGenerated token c now at s _ unusable g h = g h
  refresh-AllGenerated token c now at s _ expired g h =
      revoke-AllGenerated (sha256_hex token) now none s g h
  refresh-AllGenerated token c now at s _ not_issued g h = g h
  refresh-AllGenerated token c now at s _ (rotated {r} by e v x t) g h =
      revoke-AllGenerated (sha256_hex token) now by _
        (issued-AllGenerated (again crypto sha256_hex service r c at) s g) h

  perform-AllGenerated :
      (o : Operation) (s : Sessions) → AllGenerated s → AllGenerated (perform o s)
  unfolding revoke_refresh_token modify
  perform-AllGenerated (issue q) s g h =
      issue-AllGenerated q s _ (issue_token_pair-Ends crypto sha256_hex service q s) g h
  perform-AllGenerated (refresh token c now at) s g h =
      refresh-AllGenerated token c now at s _
        (refresh_token_pair-Ends crypto sha256_hex service token c now at s) g h
  perform-AllGenerated (revocation token now) s g h =
      revoke-AllGenerated (sha256_hex token) now none s g h

  perform_all-AllGenerated :
      (os : List Operation) (s : Sessions) → AllGenerated s → AllGenerated (perform_all os s)
  unfolding perform_all
  perform_all-AllGenerated [] s g h = g h
  perform_all-AllGenerated (o ∷ os) s g h =
      perform_all-AllGenerated os (perform o s) (perform-AllGenerated o s g) h

  issue-IsRevoked :
      (k : String) (q : TokenRequest) (s : Sessions) (r : Result TokenPair × Sessions)
      → IssueEnds crypto sha256_hex service q s r
      → Distinct
      → AllGenerated s
      → IsRevoked k s
      → IsRevoked k r.1
  issue-IsRevoked k q s _ refused d g v = v
  issue-IsRevoked k q s _ (issued c) d g v = issued-IsRevoked k q s d g v

  refresh-IsRevoked :
      (k : String) (token : String) (c : Option String) (now at : ℕ) (s : Sessions)
      (r : Result TokenPair × Sessions)
      → RefreshEnds crypto sha256_hex service token c now at s r
      → Distinct
      → AllGenerated s
      → IsRevoked k s
      → IsRevoked k r.1
  refresh-IsRevoked k token c now at s _ unusable d g v = v
  refresh-IsRevoked k token c now at s _ expired d g v =
      IsRevoked-revoke k (sha256_hex token) now none s v
  refresh-IsRevoked k token c now at s _ not_issued d g v = v
  refresh-IsRevoked k token c now at s _ (rotated {r} by e u x t) d g v =
      IsRevoked-revoke k (sha256_hex token) now by _
        (issued-IsRevoked k (again crypto sha256_hex service r c at) s d g v)

  perform-IsRevoked :
      (k : String) (o : Operation) (s : Sessions)
      → Distinct
      → AllGenerated s
      → IsRevoked k s
      → IsRevoked k (perform o s)
  unfolding revoke_refresh_token modify
  perform-IsRevoked k (issue q) s d g v =
      issue-IsRevoked k q s _ (issue_token_pair-Ends crypto sha256_hex service q s) d g v
  perform-IsRevoked k (refresh token c now at) s d g v =
      refresh-IsRevoked k token c now at s _
        (refresh_token_pair-Ends crypto sha256_hex service token c now at s) d g v
  perform-IsRevoked k (revocation token now) s d g v =
      IsRevoked-revoke k (sha256_hex token) now none s v

  perform_all-IsRevoked :
      (k : String) (os : List Operation) (s : Sessions)
      → Distinct
      → AllGenerated s
      → IsRevoked k s
      → IsRevoked k (perform_all os s)
  unfolding perform_all
  perform_all-IsRevoked k [] s d g v = v
  perform_all-IsRevoked k (o ∷ os) s d g v =
      perform_all-IsRevoked k os (perform o s) d (perform-AllGenerated o s g)
        (perform-IsRevoked k o s d g v)

  usable-revoked :
      (r : RefreshTokenRecord)
      → is_some r.revoked_at ≡ true
      → usable crypto sha256_hex service (some r) ≡ err unauthorized
  usable-revoked r v = elim (Option-cases r.revoked_at) [
    | inl e ↦ let no_time : false ≡ true = rw e at v in cc
    | inr (at, e) ↦ rw e refl
  ]

  refresh-revoked :
      (token : String) (c : Option String) (now at : ℕ) (s : Sessions)
      → IsRevoked (sha256_hex token) s
      → refresh_token_pair crypto sha256_hex service token c now at s ≡ (err unauthorized, s)
  unfolding refresh_token_pair gets lift ◌>>=◌
  refresh-revoked token c now at s (r, e, v) = rw (e, usable-revoked r v) refl

  refreshed-IsRevoked :
      (token : String) (c : Option String) (now at : ℕ) (s : Sessions)
      (r : Result TokenPair × Sessions) (pair : TokenPair)
      → RefreshEnds crypto sha256_hex service token c now at s r
      → r.0 ≡ ok pair
      → IsRevoked (sha256_hex token) r.1
  refreshed-IsRevoked token c now at s _ pair unusable h = cc
  refreshed-IsRevoked token c now at s _ pair expired h = cc
  refreshed-IsRevoked token c now at s _ pair not_issued h = cc
  refreshed-IsRevoked token c now at s _ pair (rotated {r} by e u x t) h =
      IsRevoked-now (sha256_hex token) now by
        (issued_state crypto sha256_hex service (again crypto sha256_hex service r c at) s)
        (save-some (sha256_hex token) _ _ (ap is_some e))

  -- From a new store, whatever calls came before: once `refresh_token_pair` has returned for a
  -- refresh token, then after any further calls it refuses that token and changes nothing, if no
  -- two generated refresh tokens have one hash.
  pub refresh_token_pair-once :
      (before later : List Operation) (token : String) (c c' : Option String) (now at now' at' : ℕ)
      (pair : TokenPair)
      → Distinct
      → (refresh_token_pair crypto sha256_hex service token c now at
          (perform_all before new_sessions)).0
        ≡ ok pair
      → let s =
          perform_all later
            (refresh_token_pair crypto sha256_hex service token c now at
              (perform_all before new_sessions)).1 in
        refresh_token_pair crypto sha256_hex service token c' now' at' s ≡ (err unauthorized, s)
  refresh_token_pair-once before later token c c' now at now' at' pair d h =
      let s = perform_all before new_sessions in
      let ends = refresh_token_pair-Ends crypto sha256_hex service token c now at s in
      let g : AllGenerated s =
        perform_all-AllGenerated before new_sessions (λ k known. absurd (none_there known)) in
      refresh-revoked token c' now' at' _ (
        perform_all-IsRevoked (sha256_hex token) later _ d
          (refresh-AllGenerated token c now at s _ ends g)
          (refreshed-IsRevoked token c now at s _ pair ends h))
    where
      none_there : false ≡ true → ⊥
      none_there e = cc
