-- ===== src/Text/Chars.antt =====
-- Character classes, by code point.
use media_center.Prelude.{ℕ, Bool, ◌&&◌, ◌||◌, leb, ◌==◌}

unfoldable pub between : ℕ → ℕ → ℕ → Bool
between lo hi c = leb lo c && leb c hi

-- The characters that Rust's `trim` removes: Unicode's White_Space.
unfoldable pub is_white_space : ℕ → Bool
unfolding between
is_white_space c =
    between 9 13 c
    || c == 32
    || c == 133
    || c == 160
    || c == 5760
    || between 8192 8202 c
    || between 8232 8233 c
    || c == 8239
    || c == 8287
    || c == 12288

-- str.isspace: White_Space and the four ASCII separators.
unfoldable pub is_space : ℕ → Bool
unfolding is_white_space between
is_space c = is_white_space c || between 28 31 c

unfoldable pub is_lower : ℕ → Bool
unfolding between
is_lower = between b'a' b'z'

pub is_digit : ℕ → Bool
unfolding between
is_digit = between b'0' b'9'

-- [A-Za-z0-9]
unfoldable pub is_alnum : ℕ → Bool
unfolding between
is_alnum c = between b'a' b'z' c || between b'A' b'Z' c || between b'0' b'9' c

-- [A-Za-z0-9._:-]
unfoldable pub is_tenant_char : ℕ → Bool
unfolding is_alnum
is_tenant_char c = is_alnum c || c == b'.' || c == b'_' || c == b':' || c == b'-'

-- [A-Za-z0-9._:/-]
unfoldable pub is_token_char : ℕ → Bool
unfolding is_tenant_char
is_token_char c = is_tenant_char c || c == b'/'

-- [0-9a-f]
unfoldable pub is_lower_hex : ℕ → Bool
unfolding is_digit between
is_lower_hex c = is_digit c || between b'a' b'f' c

-- [a-z0-9_]
unfoldable pub is_snake : ℕ → Bool
unfolding is_lower is_digit
is_snake c = is_lower c || is_digit c || c == b'_'
