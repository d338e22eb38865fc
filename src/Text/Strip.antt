-- ===== src/Text/Strip.antt =====
-- A text that is stripped stays as it is when it is stripped again, or trimmed.
use Prim.Native.Char.{Char, code}
use media_center.Prelude.{
  ℕ, String, Bool, ◌≡◌, inl, inr, refl, ap, ◌∙◌, true, false, ◌&&◌, str_eq, arith, Bool-cases,
}
use media_center.Text.{is_space, is_white_space, trim, strip, strip_by, strip_left, strip_right}

-- Every white space of `trim` is one of `strip`.
white_space_is_space : (c : ℕ) → is_white_space c ≡ true → is_space c ≡ true
unfolding is_space
white_space_is_space c h = rw h refl

module _ (space white : ℕ → Bool) (more : (c : ℕ) → white c ≡ true → space c ≡ true) where
  -- A character that is kept is kept again.
  kept :
      (c : Char) (rest : String)
      → (space (code c) && str_eq rest "") ≡ false
      → strip_right white rest ≡ rest
      → strip_right white (String.◌∷◌ c rest) ≡ String.◌∷◌ c rest
  unfolding strip_right
  kept c rest e again = elim (Bool-cases (white (code c) && str_eq rest "")) [
    | inl k ↦ let t : space (code c) ≡ true = more (code c) (ground arith) in ground arith
    | inr k ↦ rw (again, k) refl
  ]

  strip_right-again : (s : String) → strip_right white (strip_right space s) ≡ strip_right space s
  unfolding strip_right
  strip_right-again String.[] = refl
  strip_right-again (String.◌∷◌ c s) =
      elim (Bool-cases (space (code c) && str_eq (strip_right space s) "")) [
        | inl e ↦ rw e refl
        | inr e ↦ rw e (kept c (strip_right space s) e (strip_right-again s))
      ]

  -- A text without a space at its start.
  data Starts : String → Type 0 where
    empty : Starts String.[]
    starts : (c : Char) (s : String) → space (code c) ≡ false → Starts (String.◌∷◌ c s)

  strip_left-Starts : (s : String) → Starts (strip_left space s)
  unfolding strip_left
  strip_left-Starts String.[] = empty
  strip_left-Starts (String.◌∷◌ c s) = elim (Bool-cases (space (code c))) [
    | inl e ↦ rw e (strip_left-Starts s)
    | inr e ↦ rw e (starts c s e)
  ]

  strip_right-Starts : (s : String) → Starts s → Starts (strip_right space s)
  unfolding strip_right
  strip_right-Starts String.[] empty = empty
  strip_right-Starts (String.◌∷◌ c s) (starts _ _ e) = rw e (starts c (strip_right space s) e)

  strip_left-kept : (s : String) → Starts s → strip_left white s ≡ s
  unfolding strip_left
  strip_left-kept String.[] empty = refl
  strip_left-kept (String.◌∷◌ c s) (starts _ _ e) = elim (Bool-cases (white (code c))) [
    | inl k ↦ let t : space (code c) ≡ true = more (code c) k in cc
    | inr k ↦ rw k refl
  ]

  strip_by-again : (s : String) → strip_by white (strip_by space s) ≡ strip_by space s
  unfolding strip_by
  strip_by-again s =
      ap (strip_right white) (strip_left-kept _ (strip_right-Starts _ (strip_left-Starts s)))
      ∙ strip_right-again (strip_left space s)

pub trim-strip : (s : String) → trim (strip s) ≡ strip s
unfolding trim strip
trim-strip = strip_by-again is_space is_white_space white_space_is_space

pub strip_again : (s : String) → strip (strip s) ≡ strip s
unfolding strip
strip_again = strip_by-again is_space is_space (λ c h. h)
