-- ===== src/Srcdiff/Tree.antt =====
-- The kinds and the spans of one element: part of srcdiffvisual/annotated_srcdiff/node_helpers.py, and
-- srcdiffvisual/srcdiff/position_spans.py. `none` is an AssertionError. What `int` makes of a text is
-- an argument; it is `none` where `int` raises ValueError.
use Prim.Native.Char.{Char, code}
use src_visual.Common.{
  ℕ, ℤ, pos, negsuc, String, Bool, true, false, ◌&&◌, Option, none, some, List, [], ◌∷◌, leb, ◌==◌,
  str_eq, length, if◌then◌else◌,
}
use src_visual.Common.Dict.{get}
use src_visual.Srcdiff.Elements.{Element, attributes_of, is_filled}
use src_visual.Srcdiff.Attributes.{and_then, pos_start, pos_end}

-- `SourceSpan`, with numbers that `int` has read.
pub record PositionSpan : Type 0 where
  pub start_line : ℤ
  pub start_col : ℤ
  pub end_line : ℤ
  pub end_col : ℤ

abbrev pub int_leb : ℤ → ℤ → Bool
int_leb (pos m) (pos n) = leb m n
int_leb (pos m) (negsuc n) = false
int_leb (negsuc m) (pos n) = true
int_leb (negsuc m) (negsuc n) = leb n m

abbrev pub int_eq : ℤ → ℤ → Bool
int_eq (pos m) (pos n) = m == n
int_eq (negsuc m) (negsuc n) = m == n
int_eq _ _ = false

-- `(a, b) <= (c, d)`
abbrev pub pair_leb : ℤ → ℤ → ℤ → ℤ → Bool
pair_leb a b c d = if int_eq a c then int_leb b d else int_leb a c

-- `value.split(separator)`
abbrev pub onto_first : Char → List String → List String
onto_first c [] = String.◌∷◌ c "" ∷ []
onto_first c (part ∷ parts) = String.◌∷◌ c part ∷ parts

unfoldable pub split_at : ℕ → String → List String
split_at separator String.[] = "" ∷ []
split_at separator (String.◌∷◌ c s) =
    let parts = split_at separator s in
    if code c == separator then "" ∷ parts else onto_first c parts

-- `value.split(":", 1)`, unpacked into two texts.
abbrev pub onto_left : Char → Option (String × String) → Option (String × String)
onto_left c none = none
onto_left c (some (a, b)) = some (String.◌∷◌ c a, b)

unfoldable pub split_once : ℕ → String → Option (String × String)
split_once separator String.[] = none
split_once separator (String.◌∷◌ c s) =
    let rest = split_once separator s in
    if code c == separator then some ("", s) else onto_left c rest

module _ (parse_int : String → Option ℤ) where
  abbrev pub parse_pair : Option (String × String) → Option (ℤ × ℤ)
  parse_pair none = none
  parse_pair (some (line, col)) =
      and_then (parse_int line) (λ l. and_then (parse_int col) (λ c. some (l, c)))

  -- `_parse_position_point`; 58 is ":".
  abbrev pub parse_position_point : String → Option (ℤ × ℤ)
  parse_position_point value = parse_pair (split_once 58 value)

  unfoldable pub parse_points : List String → Option (List (ℤ × ℤ))
  parse_points [] = some []
  parse_points (part ∷ parts) =
      let rest = parse_points parts in
      and_then (parse_position_point part) (λ p. and_then rest (λ ps. some (p ∷ ps)))

  -- `_parse_position_points`; 124 is "|".
  abbrev pub parse_position_points : String → Option (List (ℤ × ℤ))
  parse_position_points value = parse_points (split_at 124 value)

  unfoldable pub spans_between : List (ℤ × ℤ) → List (ℤ × ℤ) → List PositionSpan
  spans_between [] ends = []
  spans_between (s ∷ starts) [] = []
  spans_between (s ∷ starts) (e ∷ ends) =
      record { start_line = s.0; start_col = s.1; end_line = e.0; end_col = e.1 }
      ∷ spans_between starts ends

  abbrev pub position_spans : Option String → Option String → Option (List PositionSpan)
  position_spans (some start) (some end) = and_then (parse_position_points start) (λ starts.
      and_then (parse_position_points end)
        (λ ends. if length starts == length ends then some (spans_between starts ends) else none))
  position_spans _ _ = none

  -- `parse_position_spans`; here `none` is None.
  unfoldable pub parse_position_spans : Element → Option (List PositionSpan)
  unfolding parse_points spans_between
  parse_position_spans e =
      let start = get pos_start (attributes_of e) in
      let end = get pos_end (attributes_of e) in
      if is_filled start && is_filled end then position_spans start end else none

pub data DiffKind : Type 0 where
  no_diff common delete insert : DiffKind

pub data TreeNodeKind : Type 0 where
  plain_kind common_kind insert_kind delete_kind move_kind : TreeNodeKind

abbrev pub get_current_diff_kind : String → DiffKind
get_current_diff_kind tag =
    if str_eq tag "diff:common"
    then common
    else if str_eq tag "diff:delete"
    then delete
    else if str_eq tag "diff:insert"
    then insert
    else no_diff

abbrev pub kind_of : DiffKind → TreeNodeKind
kind_of no_diff = plain_kind
kind_of common = common_kind
kind_of delete = delete_kind
kind_of insert = insert_kind

abbrev pub get_current_kind : DiffKind → Option String → TreeNodeKind
get_current_kind diff_kind move_id = if is_filled move_id then move_kind else kind_of diff_kind

abbrev pub Spans : Type 0
Spans = Option PositionSpan × Option PositionSpan

-- `spans_for_element`
abbrev pub spans_for : DiffKind → Option (List PositionSpan) → Option Spans
spans_for kind none = some (none, none)
spans_for kind (some []) = none
spans_for delete (some (s ∷ spans)) = some (some s, none)
spans_for insert (some (s ∷ spans)) = some (none, some s)
spans_for kind (some (s ∷ [])) = some (some s, some s)
spans_for kind (some (s ∷ t ∷ [])) = some (some s, some t)
spans_for kind (some (s ∷ t ∷ r ∷ spans)) = none

abbrev pub merges_0 : DiffKind → Bool
merges_0 insert = false
merges_0 _ = true

abbrev pub merges_1 : DiffKind → Bool
merges_1 delete = false
merges_1 _ = true
