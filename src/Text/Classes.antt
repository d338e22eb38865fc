-- ===== src/Text/Classes.antt =====
-- Texts whose characters are all of one class, and the identifiers among them.
use Prim.Native.Char.{code}
use Prim.Native.String
use text.Mathlib.TextLemmas.{nil-append, cons-append, append-nil}
use media_center.Prelude.{
  ℕ, String, Bool, true, false, not, ◌&&◌, ◌≡◌, refl, ◌==◌, str_eq, eq_iff, Bool-cases, inl, inr,
  arith,
}
use media_center.Text.{
  all_chars, head_and_tail, is_alnum, is_token_char, is_tenant_char, is_token, is_tenant_id,
  is_space, is_white_space, between, strip, strip_by, strip_left, strip_right,
}
use media_center.Text.Split.{strip_right-suffix}

pub all_chars-append :
    (p : ℕ → Bool) (s t : String)
    → all_chars p s ≡ true
    → all_chars p t ≡ true
    → all_chars p (String.◌++◌ s t) ≡ true
unfolding all_chars
all_chars-append p String.[] t h k = rw (nil-append t) k
all_chars-append p (String.◌∷◌ c s) t h k =
    rw (cons-append c s t) (ground (arith, all_chars-append p s t))

all_chars-weaken :
    (p q : ℕ → Bool) (s : String)
    → ((c : ℕ) → p c ≡ true → q c ≡ true)
    → all_chars p s ≡ true
    → all_chars q s ≡ true
unfolding all_chars
all_chars-weaken p q String.[] w h = refl
all_chars-weaken p q (String.◌∷◌ c s) w h =
    let first : q (code c) ≡ true = w (code c) (ground arith) in
    ground (arith, all_chars-weaken p q s w)

head_and_tail-all :
    (first next : ℕ → Bool) (n : ℕ) (s : String)
    → ((c : ℕ) → first c ≡ true → next c ≡ true)
    → head_and_tail first next n s ≡ true
    → all_chars next s ≡ true
unfolding head_and_tail all_chars
head_and_tail-all first next n String.[] w h = refl
head_and_tail-all first next n (String.◌∷◌ c s) w h =
    let head : next (code c) ≡ true = w (code c) (ground arith) in ground arith

head_and_tail-nonempty :
    (first next : ℕ → Bool) (n : ℕ) (s : String)
    → head_and_tail first next n s ≡ true
    → str_eq s "" ≡ false
unfolding head_and_tail
head_and_tail-nonempty first next n s h = elim (Bool-cases (str_eq s "")) [
  | inl e ↦
      let same : s ≡ "" = (eq_iff s "").0 e in let impossible : false ≡ true = rw same at h in cc
  | inr e ↦ e
]

-- Neither white space nor a comma
pub is_plain : ℕ → Bool
is_plain c = not (is_space c) && not (c == b',')

token_char-plain : (c : ℕ) → is_token_char c ≡ true → is_plain c ≡ true
unfolding is_plain is_token_char is_tenant_char is_alnum is_space is_white_space between
token_char-plain c h = ground arith

tenant_char-plain : (c : ℕ) → is_tenant_char c ≡ true → is_plain c ≡ true
unfolding is_plain is_tenant_char is_alnum is_space is_white_space between
tenant_char-plain c h = ground arith

pub token-plain : (s : String) → is_token s ≡ true → all_chars is_plain s ≡ true
unfolding is_token is_token_char is_tenant_char
token-plain s h =
    all_chars-weaken is_token_char is_plain s token_char-plain
      (head_and_tail-all is_alnum is_token_char 127 s (λ c a. ground arith) h)

pub token-nonempty : (s : String) → is_token s ≡ true → str_eq s "" ≡ false
unfolding is_token
token-nonempty s h = head_and_tail-nonempty is_alnum is_token_char 127 s h

pub tenant_id-plain : (s : String) → is_tenant_id s ≡ true → all_chars is_plain s ≡ true
unfolding is_tenant_id is_tenant_char
tenant_id-plain s h =
    all_chars-weaken is_tenant_char is_plain s tenant_char-plain
      (head_and_tail-all is_alnum is_tenant_char 63 s (λ c a. ground arith) h)

pub no_commas :
    (s : String) → all_chars is_plain s ≡ true → all_chars (λ c. not (c == b',')) s ≡ true
unfolding is_plain
no_commas s = all_chars-weaken is_plain _ s (λ c h. ground arith)

pub no_spaces :
    (s : String) → all_chars is_plain s ≡ true → all_chars (λ c. not (is_space c)) s ≡ true
unfolding is_plain
no_spaces s = all_chars-weaken is_plain _ s (λ c h. ground arith)

strip_left-no_spaces :
    (s : String) → all_chars (λ c. not (is_space c)) s ≡ true → strip_left is_space s ≡ s
unfolding strip_left all_chars
strip_left-no_spaces String.[] h = refl
strip_left-no_spaces (String.◌∷◌ c s) h =
    let other : is_space (code c) ≡ false = ground arith in rw other refl

-- A text without white space is left as it is.
pub strip-no_spaces : (s : String) → all_chars (λ c. not (is_space c)) s ≡ true → strip s ≡ s
unfolding strip strip_by
strip-no_spaces s h =
    let right : strip_right is_space (String.◌++◌ s "") ≡ s =
      strip_right-suffix is_space s "" h (unfold strip_right in refl) in
    rw (strip_left-no_spaces s h) (rw (append-nil s) at right)
