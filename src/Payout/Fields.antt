-- ===== src/Payout/Fields.antt =====
-- The patterns of the gateway's pydantic fields.
use Prim.Native.String
use media_center.Prelude.{
  ℕ, String, Bool, true, false, ◌&&◌, ◌||◌, Option, List, [], ◌∷◌, leb, ◌==◌,
}
use media_center.Text.{
  field_of, head_and_tail, is_lower, is_snake, is_lower_hex, codes, is_event_type,
}
use media_center.Platform.{Platform}

-- (0[1-9]|1[0-2])
is_month : ℕ → ℕ → Bool
is_month a b = (a == b'0' && leb b'1' b && leb b b'9') || (a == b'1' && leb b'0' b && leb b b'2')

-- _PERIOD_PATTERN, on the characters' code points
is_period_codes : (ℕ → Bool) → List ℕ → Bool
is_period_codes digit (a ∷ b ∷ c ∷ d ∷ dash ∷ m ∷ n ∷ []) =
    digit a && digit b && digit c && digit d && dash == b'-' && is_month m n
is_period_codes digit _ = false

unfoldable pub period_field : Platform → String → Option String
unfolding is_period_codes is_month
period_field p = field_of (λ s. is_period_codes p.is_decimal (codes s))

-- _REF_HASH_PATTERN
is_ref_hash : String → Bool
is_ref_hash s = is_ref_hash_codes (codes s)
  where
    all_hex : List ℕ → Bool
    all_hex [] = true
    all_hex (c ∷ cs) = is_lower_hex c && all_hex cs

    is_ref_hash_codes : List ℕ → Bool
    is_ref_hash_codes (a ∷ b ∷ c ∷ d ∷ e ∷ f ∷ g ∷ rest) =
        a == b's'
        && b == b'h'
        && c == b'a'
        && d == b'2'
        && e == b'5'
        && f == b'6'
        && g == b':'
        && all_hex rest
        && String.count s == 71
    is_ref_hash_codes _ = false

unfoldable pub ref_hash_field : String → Option String
unfolding is_ref_hash
ref_hash_field = field_of is_ref_hash

-- [a-z0-9_-]
is_connector_char : ℕ → Bool
is_connector_char c = is_snake c || c == b'-'

-- _CONNECTOR_NAME_PATTERN
unfoldable pub connector_name_field : String → Option String
unfolding is_connector_char head_and_tail field_of is_lower is_snake
connector_name_field = field_of (head_and_tail is_lower is_connector_char 63)

-- _REASON_CODE_PATTERN
unfoldable pub reason_code_field : String → Option String
reason_code_field = field_of (head_and_tail is_lower is_snake 63)

-- _TEMPLATE_KEY_PATTERN
unfoldable pub template_key_field : String → Option String
template_key_field = field_of (head_and_tail is_lower is_snake 127)

unfoldable pub event_type_field : String → Option String
event_type_field = field_of is_event_type
