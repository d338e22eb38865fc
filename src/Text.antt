-- ===== src/Text.antt =====
-- Python's text methods as the services use them, and the identifier patterns of
-- libs/shared/models.py. A pydantic field strips the Unicode white space that Rust's `trim` knows;
-- `str.strip` and `str.isspace` know four separators more.
mod Chars
pub mod Trim
pub mod Strip
pub mod Split
pub mod Classes
unfoldable pub use Chars.*
use Prim.Native.Char.{Char, code}
use Prim.Native.String
use media_center.Prelude.{
  ℕ, String, List, [], ◌∷◌, Bool, true, false, not, ◌&&◌, ◌||◌, Option, none, some, str_eq, ltb,
  leb, ◌==◌, if◌then◌else◌,
}

module _ (space : ℕ → Bool) where
  -- lstrip
  pub strip_left : String → String
  strip_left String.[] = String.[]
  strip_left (String.◌∷◌ c s) =
      let rest = strip_left s in if space (code c) then rest else String.◌∷◌ c s

  -- rstrip
  pub strip_right : String → String
  strip_right String.[] = String.[]
  strip_right (String.◌∷◌ c s) =
      let rest = strip_right s in
      if space (code c) && str_eq rest "" then String.[] else String.◌∷◌ c rest

  pub strip_by : String → String
  unfolding strip_left strip_right
  strip_by s = strip_right (strip_left s)

-- any(p(c) for c in s)
unfoldable pub any_char : (ℕ → Bool) → String → Bool
any_char p String.[] = false
any_char p (String.◌∷◌ c s) = p (code c) || any_char p s

-- all(p(c) for c in s)
unfoldable pub all_chars : (ℕ → Bool) → String → Bool
all_chars p String.[] = true
all_chars p (String.◌∷◌ c s) = p (code c) && all_chars p s

-- The code points of a text.
unfoldable pub codes : String → List ℕ
codes String.[] = []
codes (String.◌∷◌ c s) = code c ∷ codes s

-- value.strip()
unfoldable pub strip : String → String
unfolding strip_by is_space
strip = strip_by is_space

-- What `str_strip_whitespace=True` does to a field before its constraints are checked.
pub trim : String → String
unfolding strip_by is_white_space
trim = strip_by is_white_space

-- A first character of one class, and at most `n` more of another: ^[..][..]{0,n}$
unfoldable pub head_and_tail : (ℕ → Bool) → (ℕ → Bool) → ℕ → String → Bool
unfolding all_chars
head_and_tail first next n String.[] = false
head_and_tail first next n (String.◌∷◌ c s) =
    first (code c) && all_chars next s && leb (String.count s) n

-- A field constraint: the trimmed text if it matches.
unfoldable pub field_of : (String → Bool) → String → Option String
unfolding trim
field_of ok value = let trimmed = trim value in if ok trimmed then some trimmed else none

-- TENANT_ID_PATTERN_TEXT
unfoldable pub is_tenant_id : String → Bool
unfolding head_and_tail is_alnum is_tenant_char
is_tenant_id = head_and_tail is_alnum is_tenant_char 63

-- TOKEN_PATTERN_TEXT
unfoldable pub is_token : String → Bool
unfolding head_and_tail is_alnum is_token_char
is_token = head_and_tail is_alnum is_token_char 127

-- AUDIT_HASH_PATTERN_TEXT
pub is_audit_hash : String → Bool
unfolding all_chars is_lower_hex
is_audit_hash s = (String.count s == 64) && all_chars is_lower_hex s

unfoldable pub tenant_id_field : String → Option String
unfolding field_of is_tenant_id
tenant_id_field = field_of is_tenant_id

-- CorrelationId, SubjectId, RoleName and IdempotencyKey have one constraint.
unfoldable pub token_field : String → Option String
unfolding field_of is_token
token_field = field_of is_token

unfoldable pub audit_hash_field : String → Option String
unfolding field_of is_audit_hash
audit_hash_field = field_of is_audit_hash

-- Field(min_length=1, max_length=n)
unfoldable pub text_field : ℕ → String → Option String
unfolding field_of
text_field n = field_of (λ s. leb 1 (String.count s) && leb (String.count s) n)

-- An f-string of texts.
unfoldable pub concat : List String → String
concat [] = ""
concat (s ∷ ss) = String.◌++◌ s (concat ss)

-- `value or default` on an optional text: None and "" are false.
unfoldable pub or_else : Option String → String → String
or_else none default = default
or_else (some value) default = if str_eq value "" then default else value

-- value.split(sep): the parts between the separators, at least one.
unfoldable pub split_on : ℕ → String → List String
split_on sep String.[] = "" ∷ []
split_on sep (String.◌∷◌ c s) =
    if code c == sep then "" ∷ split_on sep s else prepend c (split_on sep s)
  where
    prepend : Char → List String → List String
    prepend c [] = String.◌∷◌ c "" ∷ []
    prepend c (part ∷ parts) = String.◌∷◌ c part ∷ parts

-- [a-z][a-z0-9_]*
unfoldable pub is_snake_segment : String → Bool
is_snake_segment String.[] = false
is_snake_segment (String.◌∷◌ c s) = is_lower (code c) && all_chars is_snake s

unfoldable pub all_segments : List String → Bool
all_segments [] = true
all_segments (s ∷ ss) = is_snake_segment s && all_segments ss

-- ^[a-z][a-z0-9_]*(\.[a-z][a-z0-9_]*)+$
pub dotted_snake : List String → Bool
dotted_snake (s ∷ t ∷ ss) = all_segments (s ∷ t ∷ ss)
dotted_snake _ = false

-- EVENT_TYPE_PATTERN_TEXT and events.py's _EVENT_TYPE_PATTERN, without the length bounds of the
-- first
unfoldable pub matches_event_type : String → Bool
unfolding split_on dotted_snake all_segments is_snake_segment all_chars is_lower is_snake
matches_event_type s = dotted_snake (split_on b'.' s)

-- EventType: Field(min_length=3, max_length=128, pattern=...)
unfoldable pub is_event_type : String → Bool
unfolding matches_event_type
is_event_type s = leb 3 (String.count s) && leb (String.count s) 128 && matches_event_type s
