-- ===== src/Srcdiff/PathLists.antt =====
-- srcdiffvisual/srcmove/_path_lists.py: lists of paths that "|" separates outside quotes.
use Prim.Native.Char.{Char, code}
use Prim.Native.String.{◌++◌}
use text.Mathlib.TextLemmas.{append-nil, append_assoc, cons-append, nil-append}
use src_visual.Common.{
  map, ◌≡◌, refl, ap, sym, ◌∙◌, String, Bool, true, false, not, ◌&&◌, ◌||◌, Option, none, some,
  List, [], ◌∷◌, All, ◌==◌, str_eq, all_chars, if◌then◌else◌, Unicode, strip, arith,
}

abbrev pub is_quote : Char → Bool
is_quote c = code c == 39 || code c == 34

abbrev pub is_bar : Char → Bool
is_bar c = code c == 124

-- The open quote after one more character.
abbrev pub next_quote : Option Char → Char → Option Char
next_quote (some q) c = if code c == code q then none else some q
next_quote none c = if is_quote c then some c else none

-- Whether the character ends a part.
abbrev pub cuts : Option Char → Char → Bool
cuts (some q) c = false
cuts none c = is_bar c

-- `part = part.strip()`, kept if it is not empty.
abbrev pub keep_part : String → List String → List String
keep_part part parts = if str_eq part "" then parts else part ∷ parts

-- The loop over the characters, with the open quote and the current part.
unfoldable pub split_from : Unicode → Option Char → String → String → List String
split_from u quote current String.[] = keep_part (strip u current) []
split_from u quote current (String.◌∷◌ c s) =
    let rest =
      split_from u (next_quote quote c) (if cuts quote c then "" else current ++ String.◌∷◌ c "")
        s in
    if cuts quote c then keep_part (strip u current) rest else rest

unfoldable pub split_srcmove_path_list : Unicode → Option String → List String
unfolding split_from
split_srcmove_path_list u none = []
split_srcmove_path_list u (some value) = split_from u none "" value

-- `"|".join(parts)`
unfoldable pub bar_joined : List String → String
bar_joined [] = ""
bar_joined (part ∷ []) = part
bar_joined (part ∷ next ∷ parts) = part ++ ("|" ++ bar_joined (next ∷ parts))

abbrev pub is_plain : Char → Bool
is_plain c = not (is_quote c) && not (is_bar c)

-- A piece of a path: text without bars and quotes, or a text between two quotes of one kind, which
-- may hold bars and quotes of the other kind.
pub data Piece : Type 0 where
  plain : String → Piece
  quoted : Char → String → Piece

abbrev pub text_of : Piece → String
text_of (plain s) = s
text_of (quoted q s) = String.◌∷◌ q (s ++ String.◌∷◌ q "")

unfoldable pub path_of : List Piece → String
path_of [] = ""
path_of (piece ∷ pieces) = text_of piece ++ path_of pieces

abbrev pub is_other : Char → Char → Bool
is_other q c = not (code c == code q)

abbrev pub IsPiece : Piece → Type 0
IsPiece (plain s) = all_chars is_plain s ≡ true
IsPiece (quoted q s) = (is_quote q ≡ true) × (all_chars (is_other q) s ≡ true)

-- A path that a list can hold as it is: no bar outside quotes, no quote left open, no space around
-- it, not empty.
abbrev pub IsPart : Unicode → List Piece → Type 0
IsPart u part =
    All IsPiece part × (strip u (path_of part) ≡ path_of part) × (str_eq (path_of part) "" ≡ false)

-- The text read so far and one more character.
grown :
    (current : String) (c : Char) (s : String)
    → ((current ++ String.◌∷◌ c "") ++ s) ≡ (current ++ String.◌∷◌ c s)
grown current c s =
    append_assoc current (String.◌∷◌ c "") s
    ∙ ap (λ t. current ++ t) (cons-append c "" s ∙ ap (String.◌∷◌ c) (nil-append s))

split_from-plain :
    (u : Unicode) (current part rest : String)
    → all_chars is_plain part ≡ true
    → split_from u none current (part ++ rest) ≡ split_from u none (current ++ part) rest
unfolding split_from
split_from-plain u current String.[] rest h =
    ap (split_from u none current) (nil-append rest)
    ∙ ap (λ t. split_from u none t rest) (sym (append-nil current))
split_from-plain u current (String.◌∷◌ c part) rest h =
    ap (split_from u none current) (cons-append c part rest)
    ∙ rw (no_bar, no_quote)
        (split_from-plain u (current ++ String.◌∷◌ c "") part rest later
          ∙ ap (λ t. split_from u none t rest) (grown current c part))
  where
    no_bar : is_bar c ≡ false
    no_bar = ground (arith, h)

    no_quote : is_quote c ≡ false
    no_quote = ground (arith, h)

    later : all_chars is_plain part ≡ true
    later = ground (arith, h)

-- Between the quotes nothing is cut, up to the second one.
split_from-open :
    (u : Unicode) (q : Char) (current body rest : String)
    → all_chars (is_other q) body ≡ true
    → split_from u (some q) current (body ++ String.◌∷◌ q rest)
      ≡ split_from u none (current ++ (body ++ String.◌∷◌ q "")) rest
unfolding split_from
split_from-open u q current String.[] rest h =
    ap (split_from u (some q) current) (nil-append (String.◌∷◌ q rest))
    ∙ rw closes
        (ap (λ t. split_from u none (current ++ t) rest) (sym (nil-append (String.◌∷◌ q ""))))
  where
    closes : (code q == code q) ≡ true
    closes = ground arith
split_from-open u q current (String.◌∷◌ c body) rest h =
    ap (split_from u (some q) current) (cons-append c body (String.◌∷◌ q rest))
    ∙ rw other (
        split_from-open u q (current ++ String.◌∷◌ c "") body rest later
        ∙ ap (λ t. split_from u none t rest)
            (grown current c (body ++ String.◌∷◌ q "")
              ∙ ap (λ t. current ++ t) (sym (cons-append c body (String.◌∷◌ q "")))))
  where
    other : (code c == code q) ≡ false
    other = ground (arith, h)

    later : all_chars (is_other q) body ≡ true
    later = ground (arith, h)

split_from-piece :
    (u : Unicode) (current : String) (piece : Piece) (rest : String)
    → IsPiece piece
    → split_from u none current (text_of piece ++ rest)
      ≡ split_from u none (current ++ text_of piece) rest
unfolding split_from
split_from-piece u current (plain s) rest h = split_from-plain u current s rest h
split_from-piece u current (quoted q s) rest (opens, inside) =
    ap (split_from u none current) (
      cons-append q (s ++ String.◌∷◌ q "") rest
      ∙ ap (String.◌∷◌ q) (
          append_assoc s (String.◌∷◌ q "") rest
          ∙ ap (λ t. s ++ t) (cons-append q "" rest ∙ ap (String.◌∷◌ q) (nil-append rest))))
    ∙ rw (no_bar, opens)
        (split_from-open u q (current ++ String.◌∷◌ q "") s rest inside
          ∙ ap (λ t. split_from u none t rest) (grown current q (s ++ String.◌∷◌ q "")))
  where
    no_bar : is_bar q ≡ false
    no_bar = ground (arith, opens)

split_from-path :
    (u : Unicode) (current : String) (part : List Piece) (rest : String)
    → All IsPiece part
    → split_from u none current (path_of part ++ rest)
      ≡ split_from u none (current ++ path_of part) rest
unfolding path_of
split_from-path u current [] rest h =
    ap (split_from u none current) (nil-append rest)
    ∙ ap (λ t. split_from u none t rest) (sym (append-nil current))
split_from-path u current (piece ∷ part) rest (h, hs) =
    ap (split_from u none current) (append_assoc (text_of piece) (path_of part) rest)
    ∙ split_from-piece u current piece (path_of part ++ rest) h
    ∙ split_from-path u (current ++ text_of piece) part rest hs
    ∙ ap (λ t. split_from u none t rest) (append_assoc current (text_of piece) (path_of part))

keep_part-IsPart :
    (u : Unicode) (part : List Piece) (parts : List String)
    → IsPart u part
    → keep_part (strip u ("" ++ path_of part)) parts ≡ path_of part ∷ parts
keep_part-IsPart u part parts (pieces, stripped, filled) =
    ap (λ t. keep_part t parts) (ap (strip u) (nil-append (path_of part)) ∙ stripped)
    ∙ rw filled refl

-- Splitting is the inverse of joining by bars, for paths whose bars are all between quotes, whose
-- quotes are all closed, which are not empty and have no space around them.
pub split_srcmove_path_list-bar_joined :
    (u : Unicode) (parts : List (List Piece))
    → All (IsPart u) parts
    → split_srcmove_path_list u (some (bar_joined (map path_of parts))) ≡ map path_of parts
unfolding split_srcmove_path_list bar_joined
split_srcmove_path_list-bar_joined u [] h = refl
split_srcmove_path_list-bar_joined u (part ∷ []) h =
    ap (split_from u none "") (sym (append-nil (path_of part)))
    ∙ (split_from-path u "" part "" h.0.0 ∙ keep_part-IsPart u part [] h.0)
split_srcmove_path_list-bar_joined u (part ∷ next ∷ parts) h =
    let later = bar_joined (map path_of (next ∷ parts)) in
    split_from-path u "" part ("|" ++ later) h.0.0
    ∙ (ap (split_from u none ("" ++ path_of part))
          (cons-append "|" "" later ∙ ap (String.◌∷◌ "|") (nil-append later))
        ∙ (keep_part-IsPart u part (split_from u none "" later) h.0
            ∙ ap (λ ps. path_of part ∷ ps)
                (split_srcmove_path_list-bar_joined u (next ∷ parts) h.1)))
