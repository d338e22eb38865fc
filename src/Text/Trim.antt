-- ===== src/Text/Trim.antt =====
-- Trimming leaves an identifier as it is.
use Prim.Native.Char.{Char, code}
use media_center.Prelude.{ℕ, String, ◌≡◌, refl, ap, ◌∙◌, true, false, arith}
use media_center.Text.{
  is_tenant_id, is_tenant_char, is_alnum, is_white_space, between, trim, strip_by, strip_left,
  strip_right, all_chars, head_and_tail,
}

tenant_char_is_black : (c : ℕ) → is_tenant_char c ≡ true → is_white_space c ≡ false
unfolding is_tenant_char is_alnum is_white_space between
tenant_char_is_black c h = ground arith

alnum_is_tenant_char : (c : ℕ) → is_alnum c ≡ true → is_tenant_char c ≡ true
unfolding is_tenant_char
alnum_is_tenant_char c h = ground arith

strip_right-same :
    (s : String) → all_chars is_tenant_char s ≡ true → strip_right is_white_space s ≡ s
unfolding strip_right all_chars
strip_right-same String.[] h = refl
strip_right-same (String.◌∷◌ c s) h =
    ground (arith, tenant_char_is_black (code c), strip_right-same s)

strip_left-same :
    (c : Char) (s : String)
    → is_tenant_char (code c) ≡ true
    → strip_left is_white_space (String.◌∷◌ c s) ≡ String.◌∷◌ c s
unfolding strip_left
strip_left-same c s h = rw (tenant_char_is_black (code c) h) refl

identifier_chars : (s : String) → is_tenant_id s ≡ true → all_chars is_tenant_char s ≡ true
unfolding is_tenant_id head_and_tail all_chars
identifier_chars String.[] h = refl
identifier_chars (String.◌∷◌ c s) h = ground (arith, alnum_is_tenant_char (code c))

first_char :
    (c : Char) (s : String) → is_tenant_id (String.◌∷◌ c s) ≡ true → is_tenant_char (code c) ≡ true
unfolding is_tenant_id head_and_tail
first_char c s h = ground (arith, alnum_is_tenant_char (code c))

-- A text that is a tenant's identifier has no white space at its ends.
pub trim-is_tenant_id : (s : String) → is_tenant_id s ≡ true → trim s ≡ s
unfolding trim strip_by
trim-is_tenant_id String.[] h = refl
trim-is_tenant_id (String.◌∷◌ c s) h =
    ap (strip_right is_white_space) (strip_left-same c s (first_char c s h))
    ∙ strip_right-same (String.◌∷◌ c s) (identifier_chars (String.◌∷◌ c s) h)
