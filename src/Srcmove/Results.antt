-- ===== src/Srcmove/Results.antt =====
-- The results of srcMove as srcdiffvisual/srcmove/srcmove_results.py reads and checks them.
pub mod Parsed
use src_visual.Common.{
  ℕ, zero, suc, ◌+◌, ℤ, pos, negsuc, String, Bool, true, false, not, ◌&&◌, ◌||◌, Option, none, some,
  List, [], ◌∷◌, any, all, is_some, length, ◌==◌, str_eq, if◌then◌else◌,
}
use src_visual.Common.Dict.{Dict, get, contains, put}
use src_visual.Common.Json.{
  Json, null, boolean, integer, real, text, array, object, list_of, dict_of, text_of, fields,
}
use src_visual.Srcmove.Checked.{
  Checked, fine, faulty, assertion_error, value_error, ◌>>=◌, ◌>>◌, asserted, required, present,
}
use src_visual.Srcmove.Classification.{
  is_one_of, content_relationships, validate_classification_fields,
}
use src_visual.Srcmove.Paths.{normalize_srcmove_xpath_tuple}

pub record SrcMoveResultMove : Type 0 where
  pub move_id : String
  pub content_relationship : Option String
  pub from_xpaths : List String
  pub to_xpaths : List String
  pub from_raw_texts : List String
  pub to_raw_texts : List String

-- `value.get(key)` and the values that it may have.
abbrev pub list_in : Option Json → Option (List Json)
list_in none = none
list_in (some j) = list_of j

abbrev pub text_in : Option Json → Option String
text_in none = none
text_in (some j) = text_of j

abbrev pub dict_in : Option Json → Option (Dict Json)
dict_in none = none
dict_in (some j) = dict_of j

-- `value == 2`, which 2.0 is.
abbrev pub is_two : Option ℤ → Bool
is_two (some (pos n)) = n == 2
is_two _ = false

abbrev pub is_version_2 : Option Json → Bool
is_version_2 (some (integer n)) = is_two (some n)
is_version_2 (some (real n s)) = is_two n
is_version_2 _ = false

unfoldable pub expect_texts : List Json → Checked (List String)
expect_texts [] = fine []
expect_texts (j ∷ js) =
    present assertion_error (text_of j) >>= λ s. expect_texts js >>= λ texts. fine (s ∷ texts)

-- `expect_string_tuple`
unfoldable pub expect_string_tuple : Dict Json → String → Checked (List String)
unfolding expect_texts
expect_string_tuple value key =
    present assertion_error (list_in (get key value)) >>= λ js. expect_texts js

abbrev pub is_filled_list {ℓ} : {A : Type ℓ} → List A → Bool
is_filled_list [] = false
is_filled_list (x ∷ xs) = true

-- `"content_relationship" in value and value["content_relationship"] not in CONTENT_RELATIONSHIPS`
abbrev pub is_reportable : Option Json → Bool
is_reportable none = true
is_reportable (some (text s)) = is_one_of content_relationships s
is_reportable (some _) = false

abbrev pub move_id_of_value : Dict Json → Checked String
move_id_of_value value = present assertion_error (text_in (get "move_id" value)) >>= λ i.
    asserted (not (str_eq i "")) >> fine i

abbrev pub same_length : List String → List String → Bool
same_length xs ys = length xs == length ys

-- The part of the loop after the identity.
unfoldable pub parse_sides : Dict ℕ → Dict Json → String → Checked SrcMoveResultMove
unfolding expect_string_tuple
parse_sides index value move_id = do
  from_values ← expect_string_tuple value "from_xpaths"
  from_xpaths ← normalize_srcmove_xpath_tuple index from_values
  to_values ← expect_string_tuple value "to_xpaths"
  to_xpaths ← normalize_srcmove_xpath_tuple index to_values
  from_raw_texts ← expect_string_tuple value "from_raw_texts"
  to_raw_texts ← expect_string_tuple value "to_raw_texts"
  asserted (is_filled_list from_xpaths)
  asserted (is_filled_list to_xpaths)
  asserted (same_length from_xpaths from_raw_texts)
  asserted (same_length to_xpaths to_raw_texts)
  fine (record {
    move_id = move_id;
    content_relationship = text_in (get "content_relationship" value);
    from_xpaths = from_xpaths;
    to_xpaths = to_xpaths;
    from_raw_texts = from_raw_texts;
    to_raw_texts = to_raw_texts;
  })

-- One pass of the loop, with the ids that are seen.
unfoldable pub parse_move : Dict ℕ → List String → Json → Checked SrcMoveResultMove
unfolding parse_sides
parse_move index seen j = do
  value ← present assertion_error (dict_of j)
  required (is_reportable (get "content_relationship" value))
  move_id ← move_id_of_value value
  asserted (not (any (str_eq move_id) seen))
  parse_sides index value move_id

unfoldable pub parse_moves : Dict ℕ → List String → List Json → Checked (List SrcMoveResultMove)
unfolding parse_move
parse_moves index seen [] = fine []
parse_moves index seen (j ∷ js) = parse_move index seen j >>= λ move.
    parse_moves index (move.move_id ∷ seen) js >>= λ moves. fine (move ∷ moves)

-- `parse_srcmove_result_moves`
unfoldable pub parse_srcmove_result_moves : Json → Dict ℕ → Checked (List SrcMoveResultMove)
unfolding parse_moves
parse_srcmove_result_moves move_results index = do
  results ← present assertion_error (dict_of move_results)
  validate_classification_fields move_results
  moves ← present assertion_error (list_in (get "moves" results))
  parse_moves index [] moves

-- `_counts[relationship] += 1` for each move, whose relationship is one of the three.
unfoldable pub relationship_of : Json → Checked String
relationship_of j = do
  value ← present value_error (dict_of j)
  s ← present value_error (text_in (get "content_relationship" value))
  required (is_one_of content_relationships s)
  fine s

unfoldable pub relationships_of : List Json → Checked (List String)
unfolding relationship_of
relationships_of [] = fine []
relationships_of (j ∷ js) =
    relationship_of j >>= λ s. relationships_of js >>= λ rest. fine (s ∷ rest)

unfoldable pub count : String → List String → ℕ
count s [] = 0
count s (t ∷ ts) = let rest = count s ts in if str_eq s t then suc rest else rest

-- `type(j) is int and j == n`
abbrev pub is_count : ℕ → Option Json → Bool
is_count n (some (integer (pos m))) = m == n
is_count n _ = false

-- The table counts each relationship, and nothing else.
abbrev pub counts_all : List String → Dict Json → Bool
counts_all found table =
    all (λ (key, value). is_one_of content_relationships key) table
    && all (λ s. is_count (count s found) (get s table)) content_relationships

unfoldable pub validate_producer_results : Json → Checked (Unit {0})
unfolding relationships_of count
validate_producer_results move_results = do
  results ← present value_error (dict_of move_results)
  validate_classification_fields move_results
  required (is_version_2 (get "results_schema_version" results))
  moves ← present value_error (list_in (get "moves" results))
  found ← relationships_of moves
  table ← present value_error (dict_in (get "content_relationships" results))
  required (counts_all found table)
