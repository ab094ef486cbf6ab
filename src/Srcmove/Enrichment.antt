-- ===== src/Srcmove/Enrichment.antt =====
-- srcdiffvisual/srcmove/move_result_enrichment.py, but for the merge: the paths of the regions of each
-- move, which become the node ids of its record.
pub mod Sides
use src_visual.Common.{
  ℕ, String, Bool, true, false, Option, none, some, List, [], ◌∷◌, ◌++◌, map, length, ◌==◌, sort_by,
  str_leb, get_or, Unicode,
}
use src_visual.Common.Dict.{Dict, get, put}
use src_visual.Common.Json.{Json, text, array, object, to_items, to_fields, dict_of}
use src_visual.Srcdiff.Elements.{Element}
use src_visual.Srcmove.Checked.{
  Checked, fine, faulty, assertion_error, ◌>>=◌, ◌>>◌, asserted, present,
}
use src_visual.Srcmove.Units.{build_filename_to_unit_index}
use src_visual.Srcmove.Results.{SrcMoveResultMove, parse_srcmove_result_moves, list_in}
use src_visual.Srcmove.Merge.{moves_json}
use src_visual.Srcmove.Regions.{
  XmlMoveRegion, Side, from_side, to_side, classify_xml_move_region_side, collect_xml_move_regions,
}

-- The two lists of one move.
pub record RegionPaths : Type 0 where
  pub from_node_ids : List String
  pub to_node_ids : List String

abbrev pub no_paths : RegionPaths
no_paths = record { from_node_ids = []; to_node_ids = [] }

abbrev pub add_path : Side → String → RegionPaths → RegionPaths
add_path from_side path paths = record paths { from_node_ids = paths.from_node_ids ++ path ∷ [] }
add_path to_side path paths = record paths { to_node_ids = paths.to_node_ids ++ path ∷ [] }

-- The loop over the sorted regions; `setdefault` makes the lists of a move at its first region.
unfoldable pub group_regions : Dict XmlMoveRegion → Dict RegionPaths → Checked (Dict RegionPaths)
group_regions [] grouped = fine grouped
group_regions ((path, region) ∷ regions) grouped = classify_xml_move_region_side region >>= λ side.
    group_regions regions (
      put region.move_id (add_path side path (get_or (get region.move_id grouped) no_paths))
        grouped)

-- `sorted(xml_regions.items())`: no path stands twice, so the paths decide.
abbrev pub sorted_regions : Dict XmlMoveRegion → Dict XmlMoveRegion
sorted_regions regions = sort_by (λ a b. str_leb a.0 b.0) regions

unfoldable pub build_move_region_paths_by_id : Dict XmlMoveRegion → Checked (Dict RegionPaths)
unfolding group_regions
build_move_region_paths_by_id regions = group_regions (sorted_regions regions) []

abbrev pub texts : List String → Json
texts paths = array (to_items (map text paths))

-- The loop over the moves and their parsed forms, which are equally many.
unfoldable pub add_node_ids :
    Dict RegionPaths → List Json → List SrcMoveResultMove → Checked (List (Dict Json))
add_node_ids paths (j ∷ js) (move ∷ moves) = do
  value ← present assertion_error (dict_of j)
  region_paths ← present assertion_error (get move.move_id paths)
  rest ← add_node_ids paths js moves
  fine (
      put "to_node_ids" (texts region_paths.to_node_ids)
        (put "from_node_ids" (texts region_paths.from_node_ids) value)
      ∷ rest)
add_node_ids paths _ _ = fine []

-- `augment_move_results_with_node_ids`, given the document's root.
unfoldable pub augment_move_results_with_node_ids : Unicode → Element → Json → Checked (Dict Json)
unfolding build_move_region_paths_by_id add_node_ids
augment_move_results_with_node_ids u root move_results = do
  let filename_to_unit_index = build_filename_to_unit_index root
  parsed_moves ← parse_srcmove_result_moves move_results filename_to_unit_index
  xml_regions ← collect_xml_move_regions u false filename_to_unit_index root
  move_region_paths ← build_move_region_paths_by_id xml_regions
  results ← present assertion_error (dict_of move_results)
  moves_value ← present assertion_error (list_in (get "moves" results))
  asserted (length moves_value == length parsed_moves)
  normalized_moves ← add_node_ids move_region_paths moves_value parsed_moves
  fine (put "moves" (moves_json normalized_moves) results)
