-- ===== src/Text/Split.antt =====
-- Splitting a text that was joined, and stripping a suffix of one character.
use Prim.Native.Char.{Char, code}
use Prim.Native.String
use text.Mathlib.TextLemmas.{nil-append, cons-append}
use media_center.Prelude.{ℕ, String, Bool, true, false, not, ◌≡◌, refl, [], ◌∷◌, ◌==◌, arith}
use media_center.Text.{split_on, all_chars, strip_right}

-- Without the separator, a text is one part.
pub split_on-single :
    (sep : ℕ) (s : String) → all_chars (λ c. not (c == sep)) s ≡ true → split_on sep s ≡ s ∷ []
unfolding split_on all_chars
split_on-single sep String.[] h = refl
split_on-single sep (String.◌∷◌ c s) h =
    let other : (code c == sep) ≡ false = ground arith in
    rw (other, split_on-single sep s (ground arith)) refl

-- A part without the separator, the separator, and the rest.
pub split_on-joined :
    (sep : ℕ) (s : String) (d : Char) (rest : String)
    → all_chars (λ c. not (c == sep)) s ≡ true
    → (code d == sep) ≡ true
    → split_on sep (String.◌++◌ s (String.◌∷◌ d rest)) ≡ s ∷ split_on sep rest
unfolding split_on all_chars
split_on-joined sep String.[] d rest h e = rw (nil-append (String.◌∷◌ d rest), e) refl
split_on-joined sep (String.◌∷◌ c s) d rest h e =
    let other : (code c == sep) ≡ false = ground arith in
    rw (cons-append c s (String.◌∷◌ d rest), other, split_on-joined sep s d rest (ground arith) e)
      refl

-- What does not end in such a character is left.
pub strip_right-suffix :
    (p : ℕ → Bool) (s t : String)
    → all_chars (λ c. not (p c)) s ≡ true
    → strip_right p t ≡ ""
    → strip_right p (String.◌++◌ s t) ≡ s
unfolding strip_right all_chars
strip_right-suffix p String.[] t h e = rw (nil-append t) e
strip_right-suffix p (String.◌∷◌ c s) t h e =
    let other : p (code c) ≡ false = ground arith in
    rw (cons-append c s t, other, strip_right-suffix p s t (ground arith) e) refl
