-- ===== src/Redaction/Clean.antt =====
-- No entry with a sensitive key passes `audit_safe_metadata`, at any depth.
use media_center.Prelude.{
  ℕ, String, ◌≡◌, refl, ◌∙◌, ap, eq_iff, str_eq, Bool, true, false, Option, none, some, ltb,
  Bool-cases, inl, inr,
}
use mathlib.Core.Path.{subst}
use media_center.Prelude.Maybe.{from_some}
use media_center.Text.{all_chars, is_snake, strip}
use media_center.Value.{
  Json, null, bool, int, float, str, arr, obj, Items, nil, cons, Fields, end, field, set_field, pos,
}
use media_center.Redaction.{
  is_sensitive_metadata_key, set_if_some, payment_metadata_summary, payment_entry, Entry, keep,
  drop, entry_for, entry_of, store_entry, finish, normalize_key, audit_safe_value, audit_safe_items,
  audit_safe_loop, audit_safe_metadata, mem_text, ends_with,
}

-- `str.lower` leaves a text of lower-case letters, digits and underscores as it is.
abbrev pub KeepsSnake : (String → String) → Type 0
KeepsSnake lower = (s : String) → all_chars is_snake s ≡ true → lower s ≡ s

module _ (lower : String → String) where
  mutual
    -- Every key of every object, at any depth, is harmless.
    pub IsClean : Json → Type 0
    IsClean null = Unit
    IsClean (bool b) = Unit
    IsClean (int n) = Unit
    IsClean (float x) = Unit
    IsClean (str s) = Unit
    IsClean (arr items) = AreClean items
    IsClean (obj d) = IsCleanObject d

    pub AreClean : Items → Type 0
    AreClean nil = Unit
    AreClean (cons v items) = IsClean v × AreClean items

    pub IsCleanObject : Fields → Type 0
    IsCleanObject end = Unit
    IsCleanObject (field k v d) =
        (is_sensitive_metadata_key (normalize_key lower k) ≡ false) × IsClean v × IsCleanObject d

  set_field-IsCleanObject :
      (k : String) (v : Json) (d : Fields)
      → is_sensitive_metadata_key (normalize_key lower k) ≡ false
      → IsClean v
      → IsCleanObject d
      → IsCleanObject (set_field k v d)
  unfolding set_field IsCleanObject
  set_field-IsCleanObject k v end s c h = (s, c, tt)
  set_field-IsCleanObject k v (field j w d) s c (a, b, rest) = elim (Bool-cases (str_eq j k)) [
    | inl e ↦ rw e (a, c, rest)
    | inr e ↦ rw e (a, b, set_field-IsCleanObject k v d s c rest)
  ]

  module _ (keeps : KeepsSnake lower) where
    harmless :
        (k : String)
        → strip k ≡ k
        → all_chars is_snake k ≡ true
        → is_sensitive_metadata_key k ≡ false
        → is_sensitive_metadata_key (normalize_key lower k) ≡ false
    unfolding normalize_key
    harmless k stripped snake e =
        ap (λ (s : String). is_sensitive_metadata_key s) (ap lower stripped ∙ keeps k snake) ∙ e

    present_harmless : is_sensitive_metadata_key (normalize_key lower "present") ≡ false
    unfolding is_sensitive_metadata_key strip all_chars is_snake mem_text ends_with
    present_harmless = harmless "present" refl refl refl

    currency_harmless : is_sensitive_metadata_key (normalize_key lower "currency") ≡ false
    unfolding is_sensitive_metadata_key strip all_chars is_snake mem_text ends_with
    currency_harmless = harmless "currency" refl refl refl

    rails_harmless : is_sensitive_metadata_key (normalize_key lower "rails") ≡ false
    unfolding is_sensitive_metadata_key strip all_chars is_snake mem_text ends_with
    rails_harmless = harmless "rails" refl refl refl

    count_harmless :
        is_sensitive_metadata_key (normalize_key lower "redacted_metadata_fields") ≡ false
    unfolding is_sensitive_metadata_key strip all_chars is_snake mem_text ends_with
    count_harmless = harmless "redacted_metadata_fields" refl refl refl

    set_if_some-IsCleanObject :
        (k : String) (o : Option String) (d : Fields)
        → is_sensitive_metadata_key (normalize_key lower k) ≡ false
        → IsCleanObject d
        → IsCleanObject (set_if_some k o d)
    unfolding set_if_some
    set_if_some-IsCleanObject k none d e h = h
    set_if_some-IsCleanObject k (some s) d e h =
        set_field-IsCleanObject k (str s) d e (unfold IsClean in tt) h

    summary-IsCleanObject : (payment : Fields) → IsCleanObject (payment_metadata_summary payment)
    unfolding payment_metadata_summary
    summary-IsCleanObject payment = set_if_some-IsCleanObject "rails" _ _ rails_harmless (
        set_if_some-IsCleanObject "currency" _ (field "present" (bool true) end) currency_harmless
          (unfold IsCleanObject in (present_harmless, tt, tt)))

    finish-IsCleanObject : (d : Fields) (n : ℕ) → IsCleanObject d → IsCleanObject (finish d n)
    unfolding finish
    finish-IsCleanObject d n h = elim (Bool-cases (ltb 0 n)) [
      | inl e ↦ rw e (
          set_field-IsCleanObject "redacted_metadata_fields" (int (pos n)) d count_harmless
            (unfold IsClean in tt) h)
      | inr e ↦ rw e h
    ]

    -- What one entry stores.
    IsHarmlessEntry : String → Entry → Type 0
    IsHarmlessEntry k (keep v) =
        (is_sensitive_metadata_key (normalize_key lower k) ≡ false) × IsClean v
    IsHarmlessEntry k drop = Unit

    store-IsCleanObject :
        (k : String) (e : Entry) (d : Fields)
        → IsHarmlessEntry k e
        → IsCleanObject d
        → IsCleanObject (store_entry k e d)
    unfolding store_entry IsHarmlessEntry
    store-IsCleanObject k (keep v) d h c = set_field-IsCleanObject k v d h.0 h.1 c
    store-IsCleanObject k drop d h c = c

    payment_is_harmless : is_sensitive_metadata_key "payment" ≡ false
    unfolding is_sensitive_metadata_key mem_text ends_with
    payment_is_harmless = refl

    payment_harmless :
        (key : String) (v : Json) (summary : Fields)
        → payment_entry key v ≡ some summary
        → (is_sensitive_metadata_key key ≡ false) × IsCleanObject summary
    unfolding payment_entry
    payment_harmless key null summary e = cc
    payment_harmless key (bool b) summary e = cc
    payment_harmless key (int n) summary e = cc
    payment_harmless key (float x) summary e = cc
    payment_harmless key (str s) summary e = cc
    payment_harmless key (arr items) summary e = cc
    payment_harmless key (obj payment) summary e = elim (Bool-cases (str_eq key "payment")) [
      | inl t ↦ (
        ap (λ (s : String). is_sensitive_metadata_key s) ((eq_iff key "payment").0 t)
            ∙ payment_is_harmless,
        subst IsCleanObject (from_some (rw t at e)) (summary-IsCleanObject payment),
      )
      | inr f ↦ cc (rw f at e)
    ]

    entry_for-IsHarmlessEntry :
        (k : String) (o : Option Fields) (sensitive : Bool) (redacted : Json)
        → ((summary : Fields)
            → o ≡ some summary
            → (is_sensitive_metadata_key (normalize_key lower k) ≡ false) × IsCleanObject summary)
        → is_sensitive_metadata_key (normalize_key lower k) ≡ sensitive
        → IsClean redacted
        → IsHarmlessEntry k (entry_for o sensitive redacted)
    unfolding IsHarmlessEntry
    entry_for-IsHarmlessEntry k (some summary) sensitive redacted f e c =
        let (harmless_key, clean) = f summary refl in
        (harmless_key, unfold IsClean IsCleanObject in clean)
    entry_for-IsHarmlessEntry k none true redacted f e c = tt
    entry_for-IsHarmlessEntry k none false redacted f e c = (e, c)

    mutual
      unfolding audit_safe_loop audit_safe_value audit_safe_items entry_of IsClean AreClean
          IsCleanObject

      value-IsClean : (v : Json) → IsClean (audit_safe_value lower v)
      value-IsClean (obj metadata) = loop-IsCleanObject metadata end 0 tt
      value-IsClean (arr items) = items-AreClean items
      value-IsClean null = tt
      value-IsClean (bool b) = tt
      value-IsClean (int n) = tt
      value-IsClean (float x) = tt
      value-IsClean (str s) = tt

      items-AreClean : (items : Items) → AreClean (audit_safe_items lower items)
      items-AreClean nil = tt
      items-AreClean (cons v items) = (value-IsClean v, items-AreClean items)

      loop-IsCleanObject :
          (d safe : Fields) (n : ℕ)
          → IsCleanObject safe
          → IsCleanObject (audit_safe_loop lower d safe n)
      loop-IsCleanObject end safe n c = finish-IsCleanObject safe n c
      loop-IsCleanObject (field k v rest) safe n c = loop-IsCleanObject rest _ _ (
          store-IsCleanObject k _ safe
            (entry_for-IsHarmlessEntry k _ _ _ (payment_harmless (normalize_key lower k) v) refl
              (value-IsClean v))
            c)

    -- If `str.lower` leaves texts of lower-case letters, digits and underscores as they are, then
    -- no object in the result of `audit_safe_metadata`, at any depth, has a key that its
    -- normalisation makes sensitive.
    pub audit_safe_metadata-IsCleanObject :
        (metadata : Fields) → IsCleanObject (audit_safe_metadata lower metadata)
    unfolding audit_safe_metadata IsCleanObject
    audit_safe_metadata-IsCleanObject metadata = loop-IsCleanObject metadata end 0 tt
