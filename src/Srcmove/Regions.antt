-- ===== src/Srcmove/Regions.antt =====
-- srcdiffvisual/srcmove/move_regions.py: the regions of the annotated XML that take part in moves.
pub mod Nodes
use Prim.Native.String.{◌++◌}
use src_visual.Common.{
  ℕ, suc, String, Bool, true, false, not, ◌&&◌, ◌||◌, Option, none, some, List, [], ◌∷◌, get_or,
  str_eq, if◌then◌else◌, Unicode,
}
use src_visual.Common.Dict.{Dict, get, contains, put}
use src_visual.Srcdiff.Elements.{
  Element, element, Elements, no_element, child, tag_of, attributes_of, prefixed_name, is_skipped,
  count_of, child_path, unit_path, get_srcdiff_file_unit_elements,
}
use src_visual.Srcdiff.Attributes.{MoveAttributes, parse_move_attributes, pos_start, pos_end}
use src_visual.Srcmove.Checked.{
  Checked, fine, faulty, assertion_error, ◌>>=◌, ◌>>◌, asserted, present,
}
use src_visual.Srcmove.Results.{is_filled_list}
use src_visual.Srcmove.Paths.{normalize_srcmove_xpath_tuple}

pub record XmlMoveRegion : Type 0 where
  pub path : String
  pub tag : String
  pub move_id : String
  pub raw_text : String
  pub from_paths : List String
  pub to_paths : List String
  pub position_start : Option String
  pub position_end : Option String

pub data Side : Type 0 where
  from_side to_side : Side

-- A region that points to targets is a source, and one that points to sources is a target.
unfoldable pub classify_xml_move_region_side : XmlMoveRegion → Checked Side
classify_xml_move_region_side region =
    if is_filled_list region.from_paths && is_filled_list region.to_paths
    then faulty assertion_error
    else if is_filled_list region.to_paths
    then fine from_side
    else if is_filled_list region.from_paths
    then fine to_side
    else if str_eq region.tag "diff:delete"
    then fine from_side
    else if str_eq region.tag "diff:insert"
    then fine to_side
    else faulty assertion_error

-- `"".join(element.itertext())`
unfoldable mutual
  pub extract_raw_text : Element → String
  extract_raw_text (element tag attributes text children) = get_or text "" ++ children_text children

  pub children_text : Elements → String
  children_text no_element = ""
  children_text (child e tail rest) = extract_raw_text e ++ (get_or tail "" ++ children_text rest)

module _ (u : Unicode) (include_skipped_tags : Bool) (filename_to_unit_index : Dict ℕ) where
  -- The region of an element that has attributes of a move.
  unfoldable pub add_region :
      Element → String → Option MoveAttributes → Dict XmlMoveRegion → Checked (Dict XmlMoveRegion)
  add_region e path none regions = fine regions
  add_region e path (some move) regions = do
    asserted (not (contains path regions))
    from_paths ← normalize_srcmove_xpath_tuple filename_to_unit_index move.from_paths
    to_paths ← normalize_srcmove_xpath_tuple filename_to_unit_index move.to_paths
    fine (
        put path
          (record {
            path = path;
            tag = prefixed_name (tag_of e);
            move_id = move.id;
            raw_text = extract_raw_text e;
            from_paths = from_paths;
            to_paths = to_paths;
            position_start = get pos_start (attributes_of e);
            position_end = get pos_end (attributes_of e);
          })
          regions)

  unfoldable mutual
    pub collect_xml_move_regions_from_element :
        Element → String → Dict XmlMoveRegion → Checked (Dict XmlMoveRegion)
    collect_xml_move_regions_from_element (element tag attributes text children) path regions =
        let e = element tag attributes text children in
        present assertion_error (parse_move_attributes u e) >>= λ move.
        add_region e path move regions >>= λ regions'.
        collect_from_children children path [] regions'

    -- The loop over the children, with the count of each name.
    pub collect_from_children :
        Elements → String → Dict ℕ → Dict XmlMoveRegion → Checked (Dict XmlMoveRegion)
    collect_from_children no_element path counts regions = fine regions
    collect_from_children (child e tail rest) path counts regions =
        let skips = not include_skipped_tags && is_skipped (tag_of e) in
        let name = prefixed_name (tag_of e) in
        let n = count_of name counts in
        let collected = collect_xml_move_regions_from_element e (child_path path name n) regions in
        (if skips then fine regions else collected) >>= λ regions'.
        collect_from_children rest path (if skips then counts else put name n counts) regions'

  unfoldable pub collect_from_units :
      ℕ → List Element → Dict XmlMoveRegion → Checked (Dict XmlMoveRegion)
  unfolding collect_xml_move_regions_from_element
  collect_from_units n [] regions = fine regions
  collect_from_units n (unit ∷ units) regions =
      collect_xml_move_regions_from_element unit (unit_path n) regions >>= λ regions'.
      collect_from_units (suc n) units regions'

  unfoldable pub collect_xml_move_regions : Element → Checked (Dict XmlMoveRegion)
  unfolding collect_from_units
  collect_xml_move_regions root = collect_from_units 1 (get_srcdiff_file_unit_elements root) []
