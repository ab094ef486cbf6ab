-- ===== src/Common/Text.antt =====
-- Text: Python's `str` and SQLite's TEXT. Both compare by code point; the lengths count code points.
use Prim.Native.Nat.{ℕ, suc}
use Prim.Native.Char.{Char, code}
use Prim.Native.String.{String, compare}
use text.Mathlib.Text.{is_le, ◌==◌ as text_equal}
use mathlib.Core.Bool.{Bool, true, ◌&&◌, ◌||◌}
use src_visual.Common.Tests.{if◌then◌else◌, leb}

-- `s == t`
abbrev pub str_eq : String → String → Bool
str_eq s t = text_equal s t

-- `s <= t`: lexicographic, by code point.
abbrev pub str_leb : String → String → Bool
str_leb s t = is_le (compare s t)

-- `len(s)`
abbrev pub str_length : String → ℕ
str_length String.[] = 0
str_length (String.◌∷◌ c s) = suc (str_length s)

-- `all(p(character) for character in s)`
abbrev pub all_chars : (Char → Bool) → String → Bool
all_chars p String.[] = true
all_chars p (String.◌∷◌ c s) = p c && all_chars p s

-- `character in "0123456789abcdef"`
abbrev pub is_hex_digit : Char → Bool
is_hex_digit c = leb 48 (code c) && leb (code c) 57 || leb 97 (code c) && leb (code c) 102

-- Python's Unicode predicates on one character. They belong to the language's run time, so what
-- uses them takes them as an argument.
pub record Unicode : Type 0 where
  pub is_lower : Char → Bool
  pub is_digit : Char → Bool
  pub is_space : Char → Bool

-- The ASCII part of these predicates, for tests.
abbrev pub ascii : Unicode
ascii = record {
  is_lower = λ c. leb 97 (code c) && leb (code c) 122;
  is_digit = λ c. leb 48 (code c) && leb (code c) 57;
  is_space = λ c. leb 9 (code c) && leb (code c) 13 || leb (code c) 32 && leb 28 (code c);
}

abbrev pub strip_left : (Char → Bool) → String → String
strip_left p String.[] = String.[]
strip_left p (String.◌∷◌ c s) = if p c then strip_left p s else String.◌∷◌ c s

abbrev pub strip_right : (Char → Bool) → String → String
strip_right p String.[] = String.[]
strip_right p (String.◌∷◌ c s) =
    let rest = strip_right p s in
    if p c && text_equal rest String.[] then String.[] else String.◌∷◌ c rest

-- `s.strip()`
abbrev pub strip : Unicode → String → String
strip u s = strip_right u.is_space (strip_left u.is_space s)
