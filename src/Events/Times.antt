-- ===== src/Events/Times.antt =====
-- A time comes back from the text that _format_datetime makes of it.
use Prim.Native.Char.{code}
use Prim.Native.String
use media_center.Prelude.{ℕ, String, Bool, true, false, ◌||◌, ◌≡◌, refl, ◌==◌, arith}
use Prim.Native.String.append.{cons as append_cons}
use media_center.Text.{any_char}
use media_center.Platform.{Platform, has_prefix, replace_utc, format_datetime}
use media_center.Exec.{Result, ok}
use media_center.Events.Serial.{without_z, parse_datetime}

-- A sign before the minutes of the offset, or the letter of UTC
abbrev pub marks_zone : ℕ → Bool
marks_zone c = c == b'+' || c == b'Z'

-- The end of the text is replaced, and nothing before it.
replace_utc-zone :
    (body : String)
    → any_char marks_zone body ≡ false
    → replace_utc 0 (String.◌++◌ body "+00:00") ≡ String.◌++◌ body "Z"
unfolding replace_utc has_prefix any_char
replace_utc-zone String.[] h = refl
replace_utc-zone (String.◌∷◌ c s) h =
    let no_plus : (b'+' == code c) ≡ false = ground arith in
    let rest : any_char marks_zone s ≡ false = ground arith in
    rw (append_cons c s "+00:00", append_cons c s "Z", no_plus, replace_utc-zone s rest) refl

-- Reading replaces the letter again.
without_z-zone :
    (body : String)
    → any_char marks_zone body ≡ false
    → without_z (String.◌++◌ body "Z") ≡ String.◌++◌ body "+00:00"
unfolding without_z any_char
without_z-zone String.[] h = refl
without_z-zone (String.◌∷◌ c s) h =
    let no_letter : (code c == b'Z') ≡ false = ground arith in
    let rest : any_char marks_zone s ≡ false = ground arith in
    rw (append_cons c s "+00:00", append_cons c s "Z", no_letter, without_z-zone s rest) refl

-- A time is read as it was written, if the library writes it in UTC and reads what it wrote.
pub parse_datetime-format_datetime :
    (p : Platform) (fromisoformat : String → Result (Bool × ℕ)) (value : ℕ) (body : String)
    → p.isoformat value ≡ String.◌++◌ body "+00:00"
    → any_char marks_zone body ≡ false
    → fromisoformat (p.isoformat value) ≡ ok (true, value)
    → parse_datetime p fromisoformat (format_datetime p value) ≡ ok value
unfolding parse_datetime format_datetime
parse_datetime-format_datetime p fromisoformat value body written plain read =
    rw (written, replace_utc-zone body plain, without_z-zone body plain, rw written at read) refl
