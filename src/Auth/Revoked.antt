-- ===== src/Auth/Revoked.antt =====
-- Refresh tokens that have been revoked or used stay so when the store is written.
use media_center.Prelude.{
  ℕ, String, true, false, Option, some, ◌≡◌, refl, inl, inr, str_eq, eq_iff, Bool-cases,
  Option-cases, is_some,
}
use media_center.Auth.Sessions.{RefreshTokenRecord, Sessions, save, revoke}

-- The token of this hash has been revoked or used.
abbrev pub IsRevoked : String → Sessions → Type 0
IsRevoked h s = (r : RefreshTokenRecord) × (s.records h ≡ some r) × (is_some r.revoked_at ≡ true)

pub IsRevoked-revoke :
    (h k : String) (at : ℕ) (by : Option String) (s : Sessions)
    → IsRevoked h s
    → IsRevoked h (revoke k at by s)
unfolding revoke
IsRevoked-revoke h k at by s (r, e, v) = elim (Bool-cases (str_eq h k)) [
  | inl x ↦ (record r { revoked_at = some at; replaced_by_jti = by }, rw (x, e) refl, refl)
  | inr x ↦ (r, rw x e, v)
]

pub IsRevoked-save :
    (h : String) (r : RefreshTokenRecord) (s : Sessions)
    → str_eq h r.token_hash ≡ false
    → IsRevoked h s
    → IsRevoked h (save r s)
unfolding save
IsRevoked-save h r s other (old, e, v) = (old, rw other e, v)

pub IsRevoked-now :
    (h : String) (at : ℕ) (by : Option String) (s : Sessions)
    → is_some (s.records h) ≡ true
    → IsRevoked h (revoke h at by s)
unfolding revoke
IsRevoked-now h at by s known = elim (Option-cases (s.records h)) [
  | inl e ↦ let nothing : false ≡ true = rw e at known in cc
  | inr (r, e) ↦
      let same : str_eq h h ≡ true = (eq_iff h h).1 refl in
      (record r { revoked_at = some at; replaced_by_jti = by }, rw (same, e) refl, refl)
]

pub save-some :
    (h : String) (r : RefreshTokenRecord) (s : Sessions)
    → is_some (s.records h) ≡ true
    → is_some ((save r s).records h) ≡ true
unfolding save
save-some h r s known = elim (Bool-cases (str_eq h r.token_hash)) [
  | inl x ↦ rw x refl
  | inr x ↦ rw x known
]
