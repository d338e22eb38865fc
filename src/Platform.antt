-- ===== src/Platform.antt =====
-- What the services take from Python's library and pydantic, and the model does not define: a
-- parameter of every definition that uses it.
use Prim.Native.Char.{code}
use Prim.Native.String
use media_center.Prelude.{ℕ, zero, suc, String, Bool, true, false, ◌&&◌, ◌==◌, if◌then◌else◌}
use media_center.Value.{Fields}

-- An instant is the number of microseconds since 0001-01-01T00:00:00Z.
pub record Platform : Type 0 where
  -- hashlib.sha256(text.encode()).hexdigest()
  pub sha256_hex : String → String
  -- json.dumps(value, sort_keys=True)
  pub dumps_sorted : Fields → String
  -- value.astimezone(UTC).isoformat()
  pub isoformat : ℕ → String
  -- str.lower
  pub lower : String → String
  -- \d in a pydantic pattern: a decimal digit of any script
  pub is_decimal : ℕ → Bool
  -- str(uuid4()), as the caller of a generator sees it, by a number that no two calls share
  pub uuid : ℕ → String

-- datetime.max, in microseconds after datetime.min
abbrev pub max_instant : ℕ
max_instant = 315537897599999999

abbrev pub hour : ℕ
hour = 3600000000

-- datetime.fromtimestamp(0, tz=UTC)
abbrev pub unix_epoch : ℕ
unix_epoch = 62135596800000000

abbrev pub second : ℕ
second = 1000000

-- text.startswith(prefix)
unfoldable pub has_prefix : String → String → Bool
has_prefix String.[] s = true
has_prefix (String.◌∷◌ c prefix) String.[] = false
has_prefix (String.◌∷◌ c prefix) (String.◌∷◌ d s) = code c == code d && has_prefix prefix s

-- text.replace("+00:00", "Z"), behind the number of characters that a match still covers
unfoldable pub replace_utc : ℕ → String → String
replace_utc skip String.[] = String.[]
replace_utc (suc skip) (String.◌∷◌ c s) = replace_utc skip s
replace_utc zero (String.◌∷◌ c s) =
    let kept = replace_utc 0 s in
    let matched = replace_utc 5 s in
    if has_prefix "+00:00" (String.◌∷◌ c s) then String.◌++◌ "Z" matched else String.◌∷◌ c kept

-- _format_datetime of events.py, audit_logger.py and queue_manager.py
unfoldable pub format_datetime : Platform → ℕ → String
unfolding replace_utc
format_datetime p value = replace_utc 0 (p.isoformat value)
