-- ===== src/Srcmove/Tests.antt =====
-- Runs of the readers of srcMove's results, and the theorems applied to them.
use src_visual.Common.{
  map, ℤ, false, Option, pos, String, ◌≡◌, refl, ◌↔◌, true, none, some, List, [], ◌∷◌, ◌++◌, All,
  length, ascii,
}
use src_visual.Common.Dict.{Dict, get, contains, put}
use src_visual.Common.Json.{
  fields, items, Json, null, integer, text, array, object, no_item, item, no_field, field, dict_of,
}
use src_visual.Srcdiff.Elements.{
  Tag, src_ns, decimal, Element, element, no_element, child, get_srcdiff_file_unit_elements,
}
use src_visual.Srcdiff.Attributes.{
  mv_id, mv_to, parse_all_attributes, parse_move_attributes, starts_with,
}
use src_visual.Srcdiff.PathLists.{split_srcmove_path_list}
use src_visual.Srcdiff.Tree.{plain_kind, parse_position_spans}
use src_visual.Srcdiff.Builder.{TreeNode, tree_node, no_node, build_tree_node, finish_node}
use src_visual.Srcmove.Regions.{
  from_side, to_side, classify_xml_move_region_side, add_region, XmlMoveRegion,
  collect_xml_move_regions_from_element,
}
use src_visual.Srcmove.Endpoints.{validate_single_srcmove_result_move, check_endpoint}
use src_visual.Srcmove.Endpoints.Matching.{IsMatched, validate_single_srcmove_result_move_lem}
use src_visual.Srcmove.Groups.{
  group_move_paths_by_move_id, is_grouped, takes_part, group_move_paths_by_move_id_lem,
}
use src_visual.Srcmove.Regions.Nodes.{ids_of, moves_of, regions-moves_of}
use src_visual.Srcmove.Checked.{Checked, fine, faulty, value_error, assertion_error}
use src_visual.Srcmove.Classification.{is_current, validate_classification_fields, Nested}
use src_visual.Srcmove.Classification.Nesting.{validate_classification_fields_lem}
use src_visual.Srcmove.Paths.{normalize_srcmove_xpath_tuple, normalize_srcmove_xpath}
use src_visual.Srcmove.Units.{build_filename_to_unit_index, numbers_of}
use src_visual.Srcmove.Units.Unique.{build_filename_to_unit_index_lem}
use src_visual.Srcmove.Results.{
  SrcMoveResultMove, parse_srcmove_result_moves, validate_producer_results, list_in, text_in,
}
use src_visual.Srcmove.Merge.{merge_producer_move_results, moves_json}
use src_visual.Srcmove.Merge.Producers.{id_of, with_id}
use src_visual.Srcmove.Merge.Fields.{AreMerged}
use src_visual.Srcmove.Merge.Once.{taken, merge_producer_move_results_lem}
use src_visual.Common.Dict.Update.{update, remove}
use src_visual.Srcmove.Enrichment.{RegionPaths, build_move_region_paths_by_id, sorted_regions}
use src_visual.Srcmove.Enrichment.Sides.{paths_on, paths_at, build_move_region_paths_by_id_lem}
use src_visual.Srcmove.Results.Parsed.{IsMove, Distinct, parse_srcmove_result_moves_lem}

filename_path :
    normalize_srcmove_xpath
      (("a].c", 2) ∷ [])
      "/src:unit[@filename='a].c']/src:block[1]/src:if[src:x]"
    ≡ fine "/src:unit[2]/block[1]/if[x]"
unfolding normalize_srcmove_xpath get decimal
filename_path = refl

unknown_filename :
    normalize_srcmove_xpath (("a.c", 2) ∷ []) "/src:unit[@filename=\"b.c\"]"
    ≡ faulty assertion_error
unfolding normalize_srcmove_xpath get
unknown_filename = refl

abbrev one_move : Json
one_move = object (
    field "move_id" (text "m1") (
      field "content_relationship" (text "type1") (
        field "from_xpaths" (array (item (text "/src:unit[1]/src:a[1]") no_item)) (
          field "to_xpaths" (array (item (text "/src:unit[1]/src:b[1]") no_item)) (
            field "from_raw_texts" (array (item (text "x") no_item))
              (field "to_raw_texts" (array (item (text "x") no_item)) no_field))))))

abbrev results : Json
results = object (
    field "results_schema_version" (integer (pos 2)) (
      field "moves" (array (item one_move no_item)) (
        field "content_relationships"
          (object (
            field "type1" (integer (pos 1))
              (field "type2c" (integer (pos 0)) (field "type3" (integer (pos 0)) no_field))))
          no_field)))

abbrev parsed_moves : List SrcMoveResultMove
parsed_moves =
    record {
      move_id = "m1";
      content_relationship = some "type1";
      from_xpaths = "/src:unit[1]/a[1]" ∷ [];
      to_xpaths = "/src:unit[1]/b[1]" ∷ [];
      from_raw_texts = "x" ∷ [];
      to_raw_texts = "x" ∷ [];
    }
    ∷ []

results_parse : parse_srcmove_result_moves results [] ≡ fine parsed_moves
unfolding parse_srcmove_result_moves validate_classification_fields is_current fields get items
    normalize_srcmove_xpath_tuple
results_parse = refl

results_valid : validate_producer_results results ≡ fine tt
unfolding validate_producer_results validate_classification_fields is_current fields get items
results_valid = refl

legacy_refused :
    validate_classification_fields
      (array (item (object (field "match_kind" null no_field)) no_item))
    ≡ faulty value_error
unfolding validate_classification_fields is_current
legacy_refused = refl

validate_classification_fields_example :
    (validate_classification_fields results ≡ fine tt)
    ↔ ((key : String) (value : Json) → Nested key value results → is_current key value ≡ true)
validate_classification_fields_example = validate_classification_fields_lem results

abbrev src_tag : String → Tag
src_tag name = record { namespace = some src_ns; local_name = name }

abbrev unit_named : String → Element
unit_named filename = element (src_tag "unit") (("filename", filename) ∷ []) none no_element

abbrev document : Element
document = element (src_tag "unit") [] none (
    child (unit_named "a.c") none
      (child (unit_named "b.c") none (child (unit_named "a.c") none no_element)))

build_filename_to_unit_index_example :
    (get "b.c" (build_filename_to_unit_index document) ≡ some 2)
    ↔ (numbers_of "b.c" 1 (get_srcdiff_file_unit_elements document) ≡ 2 ∷ [])
build_filename_to_unit_index_example = build_filename_to_unit_index_lem document "b.c" 2

index_of_b : get "b.c" (build_filename_to_unit_index document) ≡ some 2
unfolding build_filename_to_unit_index get get_srcdiff_file_unit_elements contains put
index_of_b = refl

index_of_a : get "a.c" (build_filename_to_unit_index document) ≡ none
unfolding build_filename_to_unit_index get get_srcdiff_file_unit_elements contains put
index_of_a = refl

parse_srcmove_result_moves_example :
    All IsMove parsed_moves
    × Distinct [] parsed_moves
    × ((value : Dict Json) × (js : List Json) × (dict_of results ≡ some value)
        × (list_in (get "moves" value) ≡ some js)
        × (length parsed_moves ≡ length js))
parse_srcmove_result_moves_example =
    parse_srcmove_result_moves_lem results [] parsed_moves results_parse

abbrev region_element : Element
region_element = element (src_tag "block") [] none (
    child
      (element (src_tag "if") ((mv_id, "m1") ∷ (mv_to, "/src:unit[1]/src:b[1]") ∷ []) none
        no_element)
      none no_element)

abbrev no_int : String → Option ℤ
no_int s = none

abbrev region_tree : Option TreeNode
region_tree = build_tree_node ascii no_int [] false region_element "/src:unit[1]"

abbrev some_tree : Option TreeNode → TreeNode
some_tree (some t) = t
some_tree none =
    tree_node
      (record {
        path = "";
        tag = "";
        label = "";
        kind = plain_kind;
        move_id = none;
        srcdiff_attributes = record { position = none; move = none; unit = none; diff = none };
        xml_span = none;
        revision_0_span = none;
        revision_1_span = none;
      })
      no_node

region_tree_built : region_tree ≡ some (some_tree region_tree)
unfolding build_tree_node parse_all_attributes get parse_position_spans split_srcmove_path_list
    starts_with finish_node
region_tree_built = refl

abbrev regions : Checked (Dict XmlMoveRegion)
regions = collect_xml_move_regions_from_element ascii false [] region_element "/src:unit[1]" []

abbrev some_regions : Checked (Dict XmlMoveRegion) → Dict XmlMoveRegion
some_regions (fine rs) = rs
some_regions (faulty e) = []

regions_collected : regions ≡ fine (some_regions regions)
unfolding collect_xml_move_regions_from_element parse_move_attributes get add_region
    split_srcmove_path_list starts_with contains normalize_srcmove_xpath_tuple
regions_collected = refl

regions-moves_of_example :
    ids_of (some_regions regions) ≡ ids_of [] ++ moves_of (some_tree region_tree)
regions-moves_of_example =
    regions-moves_of ascii no_int [] false [] region_element "/src:unit[1]" []
      (some_regions regions) (some_tree region_tree) regions_collected region_tree_built

abbrev reconstructed : Dict Json
reconstructed =
    (
      "moves",
      array (
          item (object (field "move_id" (text "m0") no_field))
            (item (object (field "move_id" (text "m1") no_field)) no_item)),
    )
    ∷ []

abbrev merged : Checked (Dict Json)
merged = merge_producer_move_results reconstructed results

abbrev some_merged : Checked (Dict Json) → Dict Json
some_merged (fine d) = d
some_merged (faulty e) = []

merged_fine : merged ≡ fine (some_merged merged)
unfolding merge_producer_move_results validate_producer_results validate_classification_fields
    is_current fields get items contains put update remove
merged_fine = refl

merge_producer_move_results_example :
    (producer : Dict Json) × (rs js : List Json) × (moves : List (Dict Json)) × (dict_of results
      ≡ some producer)
    × (list_in (get "moves" reconstructed) ≡ some rs)
    × (list_in (get "moves" producer) ≡ some js)
    × (get "moves" (some_merged merged) ≡ some (moves_json moves))
    × (map (λ (value : Dict Json). text_in (get "move_id" value)) moves ≡ map id_of rs)
    × ((s : String) → taken s moves ≡ with_id s js)
    × AreMerged js rs moves
merge_producer_move_results_example =
    merge_producer_move_results_lem reconstructed results (some_merged merged) merged_fine

abbrev grouped : Checked (Dict RegionPaths)
grouped = build_move_region_paths_by_id (some_regions regions)

abbrev some_grouped : Checked (Dict RegionPaths) → Dict RegionPaths
some_grouped (fine d) = d
some_grouped (faulty e) = []

grouped_fine : grouped ≡ fine (some_grouped grouped)
unfolding build_move_region_paths_by_id collect_xml_move_regions_from_element parse_move_attributes
    get add_region split_srcmove_path_list starts_with contains normalize_srcmove_xpath_tuple put
    classify_xml_move_region_side
grouped_fine = refl

build_move_region_paths_by_id_example : paths_at "m1" (some_grouped grouped) ≡ record {
  from_node_ids = paths_on from_side "m1" (sorted_regions (some_regions regions));
  to_node_ids = paths_on to_side "m1" (sorted_regions (some_regions regions));
}
build_move_region_paths_by_id_example =
    build_move_region_paths_by_id_lem (some_regions regions) (some_grouped grouped) "m1"
      grouped_fine

abbrev grouped_regions : Dict XmlMoveRegion
grouped_regions = some_regions regions

abbrev id_of_region : XmlMoveRegion → String
id_of_region region = region.move_id

group_move_paths_by_move_id_example :
    is_grouped id_of_region "/src:unit[1]/if[1]" "m1"
      (group_move_paths_by_move_id id_of_region grouped_regions)
    ≡ takes_part id_of_region "/src:unit[1]/if[1]" "m1" grouped_regions
group_move_paths_by_move_id_example =
    group_move_paths_by_move_id_lem id_of_region "/src:unit[1]/if[1]" "m1" grouped_regions

abbrev region_at : String → String → List String → List String → XmlMoveRegion
region_at path tag from_paths to_paths = record {
  path = path;
  tag = tag;
  move_id = "m1";
  raw_text = "f();";
  from_paths = from_paths;
  to_paths = to_paths;
  position_start = none;
  position_end = none;
}

abbrev two_regions : Dict XmlMoveRegion
two_regions =
    (
      "/src:unit[1]/diff:delete[1]",
      region_at "/src:unit[1]/diff:delete[1]" "diff:delete" [] ("/src:unit[1]/diff:insert[1]" ∷ []),
    )
    ∷ (
      "/src:unit[1]/diff:insert[1]",
      region_at "/src:unit[1]/diff:insert[1]" "diff:insert" ("/src:unit[1]/diff:delete[1]" ∷ []) [],
    )
    ∷ []

abbrev moved_call : List String → SrcMoveResultMove
moved_call texts = record {
  move_id = "m1";
  content_relationship = none;
  from_xpaths = "/src:unit[1]/diff:delete[1]" ∷ [];
  to_xpaths = "/src:unit[1]/diff:insert[1]" ∷ [];
  from_raw_texts = "f();" ∷ [];
  to_raw_texts = texts;
}

moved_call_passes :
    validate_single_srcmove_result_move two_regions (moved_call ("f();" ∷ [])) ≡ fine tt
unfolding validate_single_srcmove_result_move check_endpoint get classify_xml_move_region_side
moved_call_passes = refl

changed_call_fails :
    validate_single_srcmove_result_move two_regions (moved_call ("g();" ∷ []))
    ≡ faulty assertion_error
unfolding validate_single_srcmove_result_move check_endpoint get classify_xml_move_region_side
changed_call_fails = refl

validate_single_srcmove_result_move_example :
    (validate_single_srcmove_result_move two_regions (moved_call ("f();" ∷ [])) ≡ fine tt)
    ↔ IsMatched two_regions (moved_call ("f();" ∷ []))
validate_single_srcmove_result_move_example =
    validate_single_srcmove_result_move_lem two_regions (moved_call ("f();" ∷ []))
