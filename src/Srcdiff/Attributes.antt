-- ===== src/Srcdiff/Attributes.antt =====
-- srcdiffvisual/annotated_srcdiff/attributes.py and srcdiffvisual/srcmove/attributes.py. `none` is an
-- AssertionError; an attribute that is not there is `none` in its place.
use Prim.Native.Char.{code}
use src_visual.Common.{
  String, Bool, true, false, not, ◌&&◌, ◌||◌, Option, none, some, List, [], ◌∷◌, ◌++◌, all, any,
  is_some, ◌==◌, str_eq, if◌then◌else◌, Unicode,
}
use src_visual.Common.Dict.{get}
use src_visual.Srcdiff.Elements.{
  Tag, Element, tag_of, attributes_of, is_in, is_src_unit, is_filled, src_ns, diff_ns,
}
use src_visual.Srcdiff.PathLists.{split_srcmove_path_list}

-- `assert`, and what follows it.
abbrev pub asserting {ℓ} : {A : Type ℓ} → Bool → Option A → Option A
asserting true k = k
asserting false k = none

abbrev pub and_then {ℓ κ} : {A : Type ℓ} {B : Type κ} → Option A → (A → Option B) → Option B
and_then none f = none
and_then (some a) f = f a

abbrev pub mv_id : String
mv_id = "{http://www.srcML.org/srcMove}id"

abbrev pub mv_from : String
mv_from = "{http://www.srcML.org/srcMove}from"

abbrev pub mv_to : String
mv_to = "{http://www.srcML.org/srcMove}to"

abbrev pub pos_start : String
pos_start = "{http://www.srcML.org/srcML/position}start"

abbrev pub pos_end : String
pos_end = "{http://www.srcML.org/srcML/position}end"

abbrev pub pos_tabs : String
pos_tabs = "{http://www.srcML.org/srcML/position}tabs"

pub record MoveAttributes : Type 0 where
  pub id : String
  pub from_paths : List String
  pub to_paths : List String

unfoldable pub starts_with : String → String → Bool
starts_with String.[] s = true
starts_with (String.◌∷◌ c p) String.[] = false
starts_with (String.◌∷◌ c p) (String.◌∷◌ d s) = code c == code d && starts_with p s

abbrev pub is_filled_list : List String → Bool
is_filled_list [] = false
is_filled_list (x ∷ xs) = true

-- `_parse_move_path_list`
abbrev pub parse_move_path_list : Unicode → Option String → Option (List String)
parse_move_path_list u none = some []
parse_move_path_list u (some value) =
    let paths = split_srcmove_path_list u (some value) in
    asserting (is_filled_list paths && all (starts_with "/src:unit[") paths) (some paths)

-- `a or b` on texts that may not be there.
abbrev pub or_text : Option String → Option String → Option String
or_text a b = if is_filled a then a else b

abbrev pub move_attributes :
    Unicode → Option String → Option String → Option String → Option (Option MoveAttributes)
move_attributes u none from_value to_value = none
move_attributes u (some id) from_value to_value = asserting (not (str_eq id "")) (
    and_then (parse_move_path_list u from_value) (λ from_paths.
      and_then (parse_move_path_list u to_value) (λ to_paths.
        some (some (record { id = id; from_paths = from_paths; to_paths = to_paths })))))

unfoldable pub parse_move_attributes : Unicode → Element → Option (Option MoveAttributes)
parse_move_attributes u e =
    let namespaced = get mv_id (attributes_of e) in
    let plain = get "move" (attributes_of e) in
    let from_value = get mv_from (attributes_of e) in
    let to_value = get mv_to (attributes_of e) in
    if not (is_some namespaced || is_some plain || is_some from_value || is_some to_value)
    then some none
    else move_attributes u (or_text namespaced plain) from_value to_value

pub record PositionAttributes : Type 0 where
  pub start : String
  pub end : String

pub record UnitAttributes : Type 0 where
  pub filename : Option String
  pub language : Option String
  pub revision : Option String
  pub url : Option String
  pub hash : Option String
  pub timestamp : Option String

pub record DiffAttributes : Type 0 where
  pub revision : Option String
  pub type : Option String

pub record AllAttributes : Type 0 where
  pub position : Option PositionAttributes
  pub move : Option MoveAttributes
  pub unit : Option UnitAttributes
  pub diff : Option DiffAttributes

abbrev pub position_attributes : Option String → Option String → Option (Option PositionAttributes)
position_attributes none none = some none
position_attributes (some start) (some end) = some (some (record { start = start; end = end }))
position_attributes _ _ = none

abbrev pub parse_unit_attributes : Element → Option UnitAttributes
parse_unit_attributes e =
    let attributes = attributes_of e in
    if is_src_unit (tag_of e)
    then some (record {
      filename = get "filename" attributes;
      language = get "language" attributes;
      revision = get "revision" attributes;
      url = get "url" attributes;
      hash = get "hash" attributes;
      timestamp = get "timestamp" attributes;
    })
    else none

abbrev pub parse_diff_attributes : Element → Option DiffAttributes
parse_diff_attributes e =
    if is_in diff_ns (tag_of e).namespace
    then some (record {
      revision = get "revision" (attributes_of e);
      type = get "type" (attributes_of e);
    })
    else none

abbrev pub known_common_attributes : List String
known_common_attributes =
    pos_start ∷ pos_end ∷ pos_tabs ∷ mv_id ∷ mv_from ∷ mv_to ∷ "move" ∷ "type" ∷ "format" ∷ []

abbrev pub allowed_attributes : Tag → List String
allowed_attributes tag =
    known_common_attributes
    ++ ((if is_src_unit tag
          then "filename" ∷ "language" ∷ "revision" ∷ "url" ∷ "hash" ∷ "timestamp" ∷ []
          else [])
        ++ ((if is_in diff_ns tag.namespace then "revision" ∷ "type" ∷ [] else [])
            ++ (if is_in src_ns tag.namespace && str_eq tag.local_name "type"
                then "ref" ∷ []
                else [])))

-- `_assert_known_attributes`
abbrev pub knows_attributes : Element → Bool
knows_attributes e = all (λ a. any (str_eq a.0) (allowed_attributes (tag_of e))) (attributes_of e)

unfoldable pub parse_all_attributes : Unicode → Element → Option AllAttributes
unfolding parse_move_attributes
parse_all_attributes u e = asserting (knows_attributes e) (
    and_then (position_attributes (get pos_start (attributes_of e)) (get pos_end (attributes_of e)))
      (λ position. and_then (parse_move_attributes u e) (λ move. some (record {
        position = position;
        move = move;
        unit = parse_unit_attributes e;
        diff = parse_diff_attributes e;
      }))))
