-- ===== src/Base/Text.antt =====
-- Rust's `char::is_whitespace` and `str::trim`, over the native texts.
use Prim.Native.Nat.{ℕ, zero, suc}
use Prim.Native.Char.{Char, code}
use Prim.Native.String
use Prim.Native.String.{String, compare}
use mathlib.Core.Bool.{Bool, ◌&&◌, ◌||◌}
use text.Mathlib.Text.{◌==◌, is_lt, is_le}
use mathlib.Core.Path.{◌≡◌}
use native.Mathlib.Omega.{arith}
use text.Mathlib.TextEquality.{eq_iff}
use tenex_edge.Base.Tests.{leb, ◌=?◌, if◌then◌else◌}

-- The code points of Unicode's White_Space property.
unfoldable pub is_whitespace : Char → Bool
is_whitespace c =
    let n = code c in
    (leb 9 n && leb n 13)
    || n =? 32
    || n =? 0x85
    || n =? 0xa0
    || n =? 0x1680
    || (leb 0x2000 n && leb n 0x200a)
    || n =? 0x2028
    || n =? 0x2029
    || n =? 0x202f
    || n =? 0x205f
    || n =? 0x3000

unfoldable pub trim_start : String → String
unfolding is_whitespace
trim_start String.[] = String.[]
trim_start (String.◌∷◌ c s) =
    let rest = trim_start s in if is_whitespace c then rest else String.◌∷◌ c s

-- A trailing blank is one with only blanks behind it.
unfoldable pub trim_end : String → String
unfolding is_whitespace
trim_end String.[] = String.[]
trim_end (String.◌∷◌ c s) =
    let rest = trim_end s in if is_whitespace c && rest == "" then String.[] else String.◌∷◌ c rest

unfoldable pub trim : String → String
unfolding trim_start trim_end
trim s = trim_end (trim_start s)

-- SQLite's default order of texts, which is that of their bytes.
abbrev pub text_lt : String → String → Bool
text_lt s t = is_lt (compare s t)

abbrev pub text_le : String → String → Bool
text_le s t = is_le (compare s t)

-- `format!("{s}{t}")`
abbrev pub concat : String → String → String
concat s t = String.◌++◌ s t

pub eq_comm : (s t : String) → (s == t) ≡ (t == s)
eq_comm s t = ground (arith, eq_iff s t, eq_iff t s)

-- `str::starts_with`
unfoldable pub starts_with : String → String → Bool
starts_with String.[] s = Bool.true
starts_with (String.◌∷◌ c p) String.[] = Bool.false
starts_with (String.◌∷◌ c p) (String.◌∷◌ d s) =
    let rest = starts_with p s in code c =? code d && rest

-- `.chars().take(n).collect()`
unfoldable pub take_chars : ℕ → String → String
take_chars zero s = String.[]
take_chars (suc n) String.[] = String.[]
take_chars (suc n) (String.◌∷◌ c s) = String.◌∷◌ c (take_chars n s)

-- `.chars().count()`
unfoldable pub count_chars : String → ℕ
count_chars String.[] = 0
count_chars (String.◌∷◌ c s) = suc (count_chars s)

-- `str::ends_with`
unfoldable pub ends_with : String → String → Bool
ends_with suffix String.[] = String.[] == suffix
ends_with suffix (String.◌∷◌ c s) =
    let rest = ends_with suffix s in String.◌∷◌ c s == suffix || rest

-- `.chars().all(test)`
unfoldable pub all_chars : (Char → Bool) → String → Bool
all_chars test String.[] = Bool.true
all_chars test (String.◌∷◌ c s) = let rest = all_chars test s in test c && rest

-- `char::is_ascii_alphanumeric`, by the character's code
unfoldable pub is_ascii_alphanumeric : Char → Bool
is_ascii_alphanumeric c =
    (leb 48 (code c) && leb (code c) 57)
    || (leb 65 (code c) && leb (code c) 90)
    || (leb 97 (code c) && leb (code c) 122)

-- `.trim_start_matches('@')`
unfoldable pub trim_at_signs : String → String
trim_at_signs String.[] = String.[]
trim_at_signs (String.◌∷◌ c s) =
    let rest = trim_at_signs s in if code c =? 64 then rest else String.◌∷◌ c s
