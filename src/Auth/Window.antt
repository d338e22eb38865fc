-- ===== src/Auth/Window.antt =====
-- Which codes `verify_totp` accepts.
use media_center.Prelude.{
  ℕ, zero, suc, ◌+◌, ◌-◌, ◌*◌, ◌^◌, ◌≤◌, ◌<◌, ◌≡◌, ◌↔◌, refl, sym, ap, ◌∙◌, String, Bool, true,
  false, ◌||◌, ltb, leb, str_eq, eq_iff, Bool-cases, inl, inr, arith,
}
use media_center.Exec.{ok, from_ok}
use media_center.Auth.{is_ascii}
use media_center.Auth.Totp.{
  Otp, TotpService, compare_digest, decode_totp_secret, hotp, counter_at, or_else_search,
  candidate_matches, verify_loop, normalized_code, has_shape, verify_totp,
}
use media_center.Auth.Digits.{hotp-ok}

module _ {Bytes : Type 0} (otp : Otp Bytes) (service : TotpService) (secret text : String) where
  -- Whether the code of this counter, one of eight bytes, is the text.
  candidate :
      (key : Bytes) (c : ℕ)
      → decode_totp_secret otp service secret ≡ ok key
      → is_ascii text ≡ true
      → c < 2 ^ 64
      → (b : Bool) × (candidate_matches otp service secret text c ≡ ok b)
        × ((b ≡ true) ↔ (hotp otp service secret c ≡ ok text))
  unfolding candidate_matches compare_digest
  candidate key c k a small =
      let (expected, h, e) = hotp-ok otp service secret key c k small in
      (
        str_eq expected text,
        rw (h, e, a) refl,
        (
          (λ b. h ∙ ap ok ((eq_iff expected text).0 b)),
          (λ same. (eq_iff expected text).1 (from_ok (sym h ∙ same))),
        ),
      )

  -- A drift from this index on has a counter whose code is the text.
  InLoop : ℕ → ℕ → ℕ → Type 0
  InLoop counter left index =
      (j : ℕ) × (index ≤ j)
      × (j < index + left)
      × (service.allowed_drift_steps ≤ counter + j)
      × (hotp otp service secret (counter + j - service.allowed_drift_steps) ≡ ok text)

  step :
      (counter left index : ℕ) (b rest : Bool)
      → ((b ≡ true)
          ↔ (hotp otp service secret (counter + index - service.allowed_drift_steps) ≡ ok text))
      → service.allowed_drift_steps ≤ counter + index
      → ((rest ≡ true) ↔ InLoop counter left (index + 1))
      → ((b || rest) ≡ true) ↔ InLoop counter (suc left) index
  unfolding InLoop
  step counter left index true rest hb low hr =
      ((λ _. (index, omega arith, omega arith, low, hb.0 refl)), (λ _. refl))
  step counter left index false rest hb low hr = (to, from)
    where
      to : rest ≡ true → InLoop counter (suc left) index
      to e = let (j, a, b, c, d) = hr.0 e in (j, omega arith, omega arith, c, d)

      from : InLoop counter (suc left) index → rest ≡ true
      from (j, a, b, c, d) = elim (Bool-cases (leb j index)) [
        | inl e ↦
            let same : j ≡ index = ground arith in
            let no_match : false ≡ true = hb.1 (
              ap (λ (x : ℕ). hotp otp service secret (counter + x - service.allowed_drift_steps))
                (sym same)
              ∙ d) in
            cc
        | inr e ↦ hr.1 (j, ground arith, omega arith, c, d)
      ]

  skip :
      (counter left index : ℕ) (rest : Bool)
      → counter + index < service.allowed_drift_steps
      → ((rest ≡ true) ↔ InLoop counter left (index + 1))
      → (rest ≡ true) ↔ InLoop counter (suc left) index
  unfolding InLoop
  skip counter left index rest low hr = (to, from)
    where
      to : rest ≡ true → InLoop counter (suc left) index
      to e = let (j, a, b, c, d) = hr.0 e in (j, omega arith, omega arith, c, d)

      from : InLoop counter (suc left) index → rest ≡ true
      from (j, a, b, c, d) = hr.1 (j, omega arith, omega arith, c, d)

  or_else_search-ok : (b rest : Bool) → or_else_search otp service (ok b) (ok rest) ≡ ok (b || rest)
  or_else_search-ok true rest = refl
  or_else_search-ok false rest = refl

  nothing_left : (counter index : ℕ) → (false ≡ true) ↔ InLoop counter 0 index
  unfolding InLoop
  nothing_left counter index = (to, from)
    where
      to : false ≡ true → InLoop counter 0 index
      to e = cc

      from : InLoop counter 0 index → false ≡ true
      from (j, a, b, c, d) = absurd (omega arith)

  loop :
      (key : Bytes) (counter left index : ℕ)
      → decode_totp_secret otp service secret ≡ ok key
      → is_ascii text ≡ true
      → counter + index + left ≤ 2 ^ 64
      → (b : Bool) × (verify_loop otp service secret text counter left index ≡ ok b)
        × ((b ≡ true) ↔ InLoop counter left index)
  unfolding verify_loop
  loop key counter zero index k a small = (false, refl, nothing_left counter index)
  loop key counter (suc left) index k a small =
      let (rest, e, hr) = loop key counter left (index + 1) k a (omega arith) in
      elim (Bool-cases (ltb (counter + index) service.allowed_drift_steps)) [
        | inl t ↦ (rest, rw t e, skip counter left index rest (ground arith) hr)
        | inr t ↦
            let (b, m, hb) =
              candidate key (counter + index - service.allowed_drift_steps) k a (omega arith) in
            (
              b || rest,
              rw (t, m, e) (or_else_search-ok b rest),
              step counter left index b rest hb (ground arith) hr,
            )
      ]

  -- A counter of the window around this one has this code.
  abbrev pub InWindow : ℕ → Type 0
  InWindow counter =
      (c : ℕ) × (counter ≤ c + service.allowed_drift_steps)
      × (c ≤ counter + service.allowed_drift_steps)
      × (hotp otp service secret c ≡ ok text)

  whole_window :
      (counter : ℕ) → InLoop counter (2 * service.allowed_drift_steps + 1) 0 ↔ InWindow counter
  unfolding InLoop
  whole_window counter = (to, from)
    where
      to : InLoop counter (2 * service.allowed_drift_steps + 1) 0 → InWindow counter
      to (j, a, b, c, d) = (counter + j - service.allowed_drift_steps, omega arith, omega arith, d)

      from : InWindow counter → InLoop counter (2 * service.allowed_drift_steps + 1) 0
      from (c, low, high, h) =
          let back : counter
                + (c + service.allowed_drift_steps - counter)
                - service.allowed_drift_steps
              ≡ c =
            omega arith in
          (
            c + service.allowed_drift_steps - counter,
            omega arith,
            omega arith,
            omega arith,
            rw back h,
          )

module _ {Bytes : Type 0} (otp : Otp Bytes) (service : TotpService) where
  -- If the secret can be decoded, the code is ASCII and of the right shape, and the counters of the
  -- window have eight bytes, then `verify_totp` returns, and it returns true exactly if the code is
  -- that of a counter at most `allowed_drift_steps` away from the present one.
  pub verify_totp-InWindow :
      (secret code : String) (at : ℕ) (key : Bytes)
      → decode_totp_secret otp service secret ≡ ok key
      → is_ascii (normalized_code otp service code) ≡ true
      → has_shape otp service (normalized_code otp service code) ≡ true
      → counter_at otp service at + 2 * service.allowed_drift_steps < 2 ^ 64
      → (b : Bool) × (verify_totp otp service secret code at ≡ ok b)
        × ((b ≡ true)
            ↔ InWindow otp service secret
                (normalized_code otp service code)
                (counter_at otp service at))
  unfolding verify_totp
  verify_totp-InWindow secret code at key k a shape small =
      let text = normalized_code otp service code in
      let counter = counter_at otp service at in
      let (b, e, h) =
        loop otp service secret text key counter (2 * service.allowed_drift_steps + 1) 0 k a
          (omega arith) in
      let w = whole_window otp service secret text counter in
      (b, rw shape e, ((λ x. w.0 (h.0 x)), (λ x. h.1 (w.1 x))))
