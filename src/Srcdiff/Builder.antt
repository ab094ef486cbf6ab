-- ===== src/Srcdiff/Builder.antt =====
-- srcdiffvisual/annotated_srcdiff/tree_builder.py, with the rest of node_helpers.py and tree_node.py.
-- `none` is an AssertionError. The spans of the XML text itself are an argument.
pub mod Hulls
pub mod Kinds
use Prim.Native.String.{◌++◌}
use src_visual.Common.{
  ℕ, zero, suc, ℤ, String, Bool, true, false, not, ◌&&◌, ◌||◌, Option, none, some, List, [], ◌∷◌,
  is_some, least, ltb, str_eq, str_length, if◌then◌else◌, Unicode, get_or,
}
use src_visual.Common.Dict.{Dict, get, put}
use src_visual.Srcdiff.Elements.{
  Element, element, Elements, no_element, child, tag_of, attributes_of, prefixed_name, is_skipped,
  is_filled, count_of, child_path,
}
use src_visual.Srcdiff.Positions.{SourceSpan}
use src_visual.Srcdiff.Attributes.{
  AllAttributes, MoveAttributes, parse_all_attributes, asserting, and_then,
}
use src_visual.Srcdiff.Tree.{
  PositionSpan, pair_leb, parse_position_spans, DiffKind, delete, insert, TreeNodeKind,
  get_current_diff_kind, get_current_kind, Spans, spans_for, merges_0, merges_1,
}

-- A node without its children, and the tree.
pub record NodeData : Type 0 where
  pub path : String
  pub tag : String
  pub label : String
  pub kind : TreeNodeKind
  pub move_id : Option String
  pub srcdiff_attributes : AllAttributes
  pub xml_span : Option SourceSpan
  pub revision_0_span : Option PositionSpan
  pub revision_1_span : Option PositionSpan

mutual
  pub data TreeNode : Type 0 where
    tree_node : NodeData → TreeNodes → TreeNode

  pub data TreeNodes : Type 0 where
    no_node : TreeNodes
    node : TreeNode → TreeNodes → TreeNodes

abbrev pub data_of : TreeNode → NodeData
data_of (tree_node d children) = d

-- The spans of one revision that the children have.
abbrev pub with_span : Option PositionSpan → List PositionSpan → List PositionSpan
with_span none spans = spans
with_span (some s) spans = s ∷ spans

unfoldable pub child_spans : (NodeData → Option PositionSpan) → TreeNodes → List PositionSpan
child_spans key no_node = []
child_spans key (node n nodes) = with_span (key (data_of n)) (child_spans key nodes)

abbrev pub starts_before : PositionSpan → PositionSpan → Bool
starts_before s t = pair_leb s.start_line s.start_col t.start_line t.start_col

abbrev pub ends_after : PositionSpan → PositionSpan → Bool
ends_after s t = pair_leb t.end_line t.end_col s.end_line s.end_col

abbrev pub merged : Option PositionSpan → Option PositionSpan → Option PositionSpan
merged (some start) (some end) = some (record {
  start_line = start.start_line;
  start_col = start.start_col;
  end_line = end.end_line;
  end_col = end.end_col;
})
merged _ _ = none

unfoldable pub merge_spans : List PositionSpan → Option PositionSpan
merge_spans spans = merged (least starts_before spans) (least ends_after spans)

-- `merge_child_spans`
unfoldable pub merge_child_spans :
    (NodeData → Option PositionSpan) → TreeNodes → Option PositionSpan
unfolding child_spans merge_spans
merge_child_spans key nodes = merge_spans (child_spans key nodes)

abbrev pub is_filled_spans : List PositionSpan → Bool
is_filled_spans [] = false
is_filled_spans (s ∷ spans) = true

-- The assertions of `assert_expected_spans`, when a span is there at all.
abbrev pub expected : DiffKind → Bool → Bool → Bool → Bool → Bool
expected delete has_0 has_1 child_0 child_1 = has_0 && not has_1
expected insert has_0 has_1 child_0 child_1 = not has_0 && has_1
expected _ has_0 has_1 child_0 child_1 = (not child_0 || has_0) && (not child_1 || has_1)

unfoldable pub has_expected_spans : DiffKind → Spans → TreeNodes → Bool
unfolding child_spans
has_expected_spans kind (span_0, span_1) nodes =
    let child_0 = is_filled_spans (child_spans (λ d. d.revision_0_span) nodes) in
    let child_1 = is_filled_spans (child_spans (λ d. d.revision_1_span) nodes) in
    not (is_some span_0 || is_some span_1 || child_0 || child_1)
    || expected kind (is_some span_0) (is_some span_1) child_0 child_1

abbrev pub or_merged : Bool → Option PositionSpan → Option PositionSpan → Option PositionSpan
or_merged merges (some s) m = some s
or_merged merges none m = if merges then m else none

-- `" ".join(text.split())`: the words, from the one that is being read.
abbrev pub add_word : String → String → String
add_word word text =
    if str_eq word "" then text else if str_eq text "" then word else word ++ (" " ++ text)

unfoldable pub words_from : Unicode → String → String → String
words_from u word String.[] = add_word word ""
words_from u word (String.◌∷◌ c s) =
    let rest = words_from u (if u.is_space c then "" else word ++ String.◌∷◌ c "") s in
    if u.is_space c then add_word word rest else rest

unfoldable pub prefix_of : ℕ → String → String
prefix_of zero s = ""
prefix_of (suc n) String.[] = ""
prefix_of (suc n) (String.◌∷◌ c s) = String.◌∷◌ c (prefix_of n s)

abbrev pub preview_of : String → Option String
preview_of text =
    if str_eq text ""
    then none
    else if ltb 48 (str_length text)
    then some (prefix_of 45 text ++ "...")
    else some text

-- `build_text_preview`: nothing for an element with children.
abbrev pub build_text_preview : Unicode → Element → Option String
build_text_preview u (element tag attributes text no_element) =
    preview_of (words_from u "" (get_or text ""))
build_text_preview u (element tag attributes text (child e tail rest)) = none

abbrev pub label_of : String → Option String → String
label_of tag none = tag
label_of tag (some preview) = tag ++ (": " ++ preview)

abbrev pub build_node_label : Unicode → String → Element → String
build_node_label u tag e =
    if str_eq tag "unit" && is_filled (get "filename" (attributes_of e))
    then "unit: " ++ get_or (get "filename" (attributes_of e)) ""
    else label_of tag (build_text_preview u e)

abbrev pub move_id_of : Option MoveAttributes → Option String
move_id_of none = none
move_id_of (some m) = some m.id

module _ (u : Unicode) (parse_int : String → Option ℤ) (xml_span_by_path : Dict SourceSpan)
    (include_skipped_tags : Bool) where
  -- What `build_tree_node` does once the children are built.
  unfoldable pub finish_node :
      Element → String → AllAttributes → Spans → TreeNodes → Option TreeNode
  unfolding merge_child_spans has_expected_spans
  finish_node e path attributes (own_0, own_1) nodes =
      let tag = prefixed_name (tag_of e) in
      let kind = get_current_diff_kind tag in
      let span_0 =
        or_merged (merges_0 kind) own_0 (merge_child_spans (λ d. d.revision_0_span) nodes) in
      let span_1 =
        or_merged (merges_1 kind) own_1 (merge_child_spans (λ d. d.revision_1_span) nodes) in
      asserting (has_expected_spans kind (span_0, span_1) nodes) (
        some (
          tree_node
            (record {
              path = path;
              tag = tag;
              label = build_node_label u tag e;
              kind = get_current_kind kind (move_id_of attributes.move);
              move_id = move_id_of attributes.move;
              srcdiff_attributes = attributes;
              xml_span = get path xml_span_by_path;
              revision_0_span = span_0;
              revision_1_span = span_1;
            })
            nodes))

  abbrev pub own_spans : Element → Option Spans
  own_spans e =
      spans_for (get_current_diff_kind (prefixed_name (tag_of e)))
        (parse_position_spans parse_int e)

  unfoldable mutual
    pub build_tree_node : Element → String → Option TreeNode
    build_tree_node (element tag attributes text children) path =
        let nodes = build_children children path [] in
        let e = element tag attributes text children in
        and_then (parse_all_attributes u e) (λ parsed.
          and_then (own_spans e) (λ own. and_then nodes (λ ns. finish_node e path parsed own ns)))

    pub build_children : Elements → String → Dict ℕ → Option TreeNodes
    build_children no_element path counts = some no_node
    build_children (child e tail rest) path counts =
        let skips = not include_skipped_tags && is_skipped (tag_of e) in
        let name = prefixed_name (tag_of e) in
        let n = count_of name counts in
        let built = build_tree_node e (child_path path name n) in
        let later = build_children rest path (if skips then counts else put name n counts) in
        if skips then later else and_then built (λ b. and_then later (λ ns. some (node b ns)))
