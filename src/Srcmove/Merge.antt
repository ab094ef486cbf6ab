-- ===== src/Srcmove/Merge.antt =====
-- `merge_producer_move_results` of srcdiffvisual/srcmove/move_result_enrichment.py.
pub mod Producers
pub mod Fields
pub mod Once
use src_visual.Common.{
  String, Bool, true, false, not, Option, none, some, List, [], ◌∷◌, map, str_eq, if◌then◌else◌,
}
use src_visual.Common.Dict.{Dict, get, contains, put}
use src_visual.Common.Dict.Update.{update, remove}
use src_visual.Common.Json.{Json, text, array, object, to_items, to_fields, dict_of}
use src_visual.Srcmove.Checked.{
  Checked, fine, faulty, assertion_error, ◌>>=◌, ◌>>◌, asserted, present,
}
use src_visual.Srcmove.Results.{is_filled_list, list_in, text_in, validate_producer_results}

-- `isinstance(_move, dict) and isinstance(_move.get("move_id"), str)`, with the id.
unfoldable pub identified : Json → Checked (String × Dict Json)
identified j = do
  value ← present assertion_error (dict_of j)
  i ← present assertion_error (text_in (get "move_id" value))
  fine (i, value)

-- `_producer_by_id`
unfoldable pub index_producers : List Json → Dict (Dict Json) → Checked (Dict (Dict Json))
unfolding identified
index_producers [] by_id = fine by_id
index_producers (j ∷ js) by_id = identified j >>= λ (i, value).
    asserted (not (contains i by_id)) >> index_producers js (put i value by_id)

abbrev pub provenance : Option (Dict Json) → String
provenance none = "xml-annotation"
provenance (some []) = "xml-annotation"
provenance (some (entry ∷ value)) = "producer-results"

abbrev pub or_empty : Option (Dict Json) → Dict Json
or_empty none = []
or_empty (some value) = value

-- `{**_move, **(_producer_move or {}), "result_provenance": …}`
unfoldable pub merged_move : Dict Json → Option (Dict Json) → Dict Json
merged_move value producer =
    put "result_provenance" (text (provenance producer)) (update value (or_empty producer))

-- The loop over the reconstructed moves, and what is left of the producer's.
unfoldable pub merge_moves :
    List Json → Dict (Dict Json) → Checked (List (Dict Json) × Dict (Dict Json))
unfolding merged_move
merge_moves [] by_id = fine ([], by_id)
merge_moves (j ∷ js) by_id = identified j >>= λ (i, value).
    merge_moves js (remove i by_id) >>= λ (moves, left).
    fine (merged_move value (get i by_id) ∷ moves, left)

abbrev pub moves_json : List (Dict Json) → Json
moves_json moves = array (to_items (map (λ (value : Dict Json). object (to_fields value)) moves))

unfoldable pub merge_producer_move_results : Dict Json → Json → Checked (Dict Json)
unfolding index_producers merge_moves
merge_producer_move_results reconstructed_results producer_results = do
  validate_producer_results producer_results
  producer ← present assertion_error (dict_of producer_results)
  reconstructed_moves ← present assertion_error (list_in (get "moves" reconstructed_results))
  producer_moves ← present assertion_error (list_in (get "moves" producer))
  by_id ← index_producers producer_moves []
  merged ← merge_moves reconstructed_moves by_id
  asserted (not (is_filled_list merged.1))
  fine (
      put "producer_metadata" (object (to_fields (remove "moves" producer)))
        (put "moves" (moves_json merged.0) reconstructed_results))
