-- ===== src/Redaction.antt =====
-- services/hitl-payout-gateway/hitl_payout_gateway/audit_redaction.py: what of a caller's metadata
-- may enter the audit trail. `lower` is Python's `str.lower`, a parameter, since it folds the case
-- of all of Unicode.
pub mod Clean
mod Tests
use media_center.Prelude.{
  ℕ, ◌+◌, String, Bool, true, false, ◌||◌, Option, none, some, str_eq, ltb, List, [], ◌∷◌,
  if◌then◌else◌,
}
use media_center.Text.{strip}
use media_center.Value.{
  pos, Json, null, bool, int, float, str, arr, obj, Items, nil, cons, Fields, end, field, set_field,
  get_field,
}

abbrev sensitive_metadata_keys : List String
sensitive_metadata_keys =
    "access_token" ∷ "amount" ∷ "amount_mcv" ∷ "amount_minor" ∷ "amount_rub" ∷ "api_key"
    ∷ "bank_account" ∷ "card" ∷ "card_number" ∷ "email" ∷ "pan" ∷ "password" ∷ "payout_amount"
    ∷ "phone" ∷ "raw_content" ∷ "recipient" ∷ "recipient_id" ∷ "recipient_token" ∷ "refresh_token"
    ∷ "secret" ∷ "source_content" ∷ "token" ∷ "transcript" ∷ "voice" ∷ []

mem_text : String → List String → Bool
mem_text s [] = false
mem_text s (t ∷ ts) = str_eq s t || mem_text s ts

ends_with : String → String → Bool
ends_with String.[] t = str_eq String.[] t
ends_with (String.◌∷◌ c s) t = str_eq (String.◌∷◌ c s) t || ends_with s t

pub is_sensitive_metadata_key : String → Bool
unfolding mem_text ends_with
is_sensitive_metadata_key normalized_key =
    mem_text normalized_key sensitive_metadata_keys
    || ends_with normalized_key "_token"
    || ends_with normalized_key "_secret"
    || ends_with normalized_key "_password"
    || ends_with normalized_key "_email"

-- _string_value, for a field that may be missing
string_value : Option Json → Option String
string_value (some (str value)) =
    let normalized = strip value in if str_eq normalized "" then none else some normalized
string_value _ = none

set_if_some : String → Option String → Fields → Fields
set_if_some k none d = d
set_if_some k (some s) d = set_field k (str s) d

payment_metadata_summary : Fields → Fields
unfolding set_if_some
payment_metadata_summary payment = set_if_some "rails" (string_value (get_field "rails" payment)) (
    set_if_some "currency" (string_value (get_field "currency" payment))
      (field "present" (bool true) end))

-- The summary that stands for a `payment` object; any other entry has none.
payment_entry : String → Json → Option Fields
payment_entry normalized_key (obj payment) =
    if str_eq normalized_key "payment" then some (payment_metadata_summary payment) else none
payment_entry normalized_key _ = none

-- What the loop does with one entry: the value to store under its key, if any, and whether the
-- entry counts as redacted. `redacted` is the value after the recursive call.
data Entry : Type 0 where
  keep : Json → Entry
  drop : Entry

abbrev entry_for : Option Fields → Bool → Json → Entry
entry_for (some summary) sensitive redacted = keep (obj summary)
entry_for none true redacted = drop
entry_for none false redacted = keep redacted

entry_of : String → Json → Json → Entry
entry_of normalized_key value redacted =
    entry_for (payment_entry normalized_key value) (is_sensitive_metadata_key normalized_key)
      redacted

store_entry : String → Entry → Fields → Fields
store_entry k (keep v) safe = set_field k v safe
store_entry k drop safe = safe

count_entry : Entry → ℕ → ℕ
count_entry (keep v) n = n
count_entry drop n = n + 1

finish : Fields → ℕ → Fields
finish safe n = if ltb 0 n then set_field "redacted_metadata_fields" (int (pos n)) safe else safe

module _ (lower : String → String) where
  -- key.strip().lower()
  pub normalize_key : String → String
  normalize_key key = lower (strip key)

  mutual
    unfolding entry_of store_entry count_entry finish normalize_key

    -- _audit_safe_metadata_value
    pub audit_safe_value : Json → Json
    audit_safe_value (obj metadata) = obj (audit_safe_loop metadata end 0)
    audit_safe_value (arr items) = arr (audit_safe_items items)
    audit_safe_value null = null
    audit_safe_value (bool b) = bool b
    audit_safe_value (int n) = int n
    audit_safe_value (float x) = float x
    audit_safe_value (str s) = str s

    pub audit_safe_items : Items → Items
    audit_safe_items nil = nil
    audit_safe_items (cons item items) = cons (audit_safe_value item) (audit_safe_items items)

    -- The loop of `audit_safe_metadata` over the items, with `safe` and `redacted_count`.
    pub audit_safe_loop : Fields → Fields → ℕ → Fields
    audit_safe_loop end safe redacted_count = finish safe redacted_count
    audit_safe_loop (field key value rest) safe redacted_count =
        let entry = entry_of (normalize_key key) value (audit_safe_value value) in
        audit_safe_loop rest (store_entry key entry safe) (count_entry entry redacted_count)

  pub audit_safe_metadata : Fields → Fields
  unfolding audit_safe_loop
  audit_safe_metadata metadata = audit_safe_loop metadata end 0
