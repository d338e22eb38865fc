-- ===== src/Redaction/Tests.antt =====
-- The redaction of a caller's metadata on a nested example.
use media_center.Prelude.{String, ◌≡◌, refl, true}
use media_center.Text.{strip}
use media_center.Value.{
  bool, Fields, field, end, str, obj, arr, cons, nil, int, pos, set_field, get_field,
}
use media_center.Redaction.{
  audit_safe_metadata, is_sensitive_metadata_key, payment_entry, payment_metadata_summary,
  string_value,
}
use media_center.Redaction.Clean.{IsCleanObject, audit_safe_metadata-IsCleanObject}

-- Case folding on texts that have no capital letters.
abbrev same_text : String → String
same_text s = s

abbrev metadata : Fields
metadata = field "note" (str "march") (
    field "card" (str "4000") (
      field "payment" (obj (field "currency" (str "RUB") (field "pan" (str "4000") end)))
        (field "steps" (arr (cons (obj (field "api_key" (str "k") end)) nil)) end)))

test_redaction :
    audit_safe_metadata same_text metadata
    ≡ field "note" (str "march") (
        field "payment" (obj (field "present" (bool true) (field "currency" (str "RUB") end))) (
          field "steps"
            (arr (cons (obj (field "redacted_metadata_fields" (int (pos 1)) end)) nil))
            (field "redacted_metadata_fields" (int (pos 1)) end)))
unfolding audit_safe_metadata payment_entry is_sensitive_metadata_key strip set_field
    payment_metadata_summary string_value get_field
test_redaction = refl

audit_safe_metadata-IsCleanObject_example :
    IsCleanObject same_text (audit_safe_metadata same_text metadata)
audit_safe_metadata-IsCleanObject_example =
    audit_safe_metadata-IsCleanObject same_text (λ s snake. refl) metadata
