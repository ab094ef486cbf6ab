-- ===== src/Srcdiff/Tests.antt =====
-- A small annotated unit, its sources, and the theorems applied to it.
use src_visual.Common.{
  map, ℕ, List, All, ℤ, pos, Option, str_length, ◌∷◌, ascii, String, ◌≡◌, refl, true, false, none,
  some, [],
}
use src_visual.Common.Dict.{get, put}
use src_visual.Srcdiff.Attributes.{pos_start, pos_end, parse_all_attributes}
use src_visual.Srcdiff.Tree.{
  PositionSpan, plain_kind, parse_position_spans, split_at, split_once, parse_points, spans_between,
}
use src_visual.Srcdiff.Builder.{
  TreeNode, tree_node, no_node, data_of, build_tree_node, finish_node, merge_child_spans,
  merge_spans, child_spans, has_expected_spans, words_from, prefix_of,
}
use src_visual.Srcdiff.Builder.Kinds.{IsSpanned, build_tree_node-IsSpanned}
use Prim.Native.Char.{code}
use src_visual.Srcdiff.XmlSpans.{build_xml_span_index, prefixed_name_from_expat}
use src_visual.Srcdiff.XmlSpans.Stack.{Markup, markup, no_markup, next_markup, events_of}
use src_visual.Srcdiff.XmlSpans.Nested.{spans_of, build_xml_span_index_lem}
use src_visual.Srcdiff.PathLists.{
  split_srcmove_path_list, bar_joined, split_srcmove_path_list-bar_joined, Piece, plain, quoted,
  path_of,
}
use src_visual.Srcdiff.Elements.{
  Tag, Element, element, no_element, child, src_ns, diff_ns, decimal, digits,
}
use src_visual.Srcdiff.Positions.{
  compute_line_starts, offset_to_line_col, offset_to_line_col_lem, advance,
}
use src_visual.Srcdiff.Renderer.{
  render_element, render, all_revisions, empty_rendering, render_unit_sources, append, joined,
}
use src_visual.Srcdiff.Renderer.Ranges.{IsRange, render_element-IsRange}
use src_visual.Srcdiff.Renderer.Texts.{side, text_in, render_unit_sources_text}

abbrev name_of : String → String → Tag
name_of namespace name = record { namespace = some namespace; local_name = name }

abbrev leaf : Tag → String → Element
leaf tag text = element tag [] (some text) no_element

abbrev unit : Element
unit = element (name_of src_ns "unit") [] (some "a") (
    child (leaf (name_of diff_ns "delete") "b") (some "\n")
      (child (leaf (name_of diff_ns "insert") "cc") none no_element))

old_text : text_in false false unit true ≡ "ab\n"
unfolding text_in get
old_text = refl

new_text : text_in false true unit true ≡ "a\ncc"
unfolding text_in get
new_text = refl

new_source : (render_unit_sources unit "/src:unit[1]" false).revision_1_source_code ≡ "a\ncc"
unfolding render_unit_sources joined append decimal digits get
new_source = refl

render_unit_sources_text_example :
    ((render_unit_sources unit "/src:unit[1]" false).revision_0_source_code
      ≡ text_in false false unit true)
    × ((render_unit_sources unit "/src:unit[1]" false).revision_1_source_code
        ≡ text_in false true unit true)
render_unit_sources_text_example = render_unit_sources_text unit "/src:unit[1]" false

offset_to_line_col_lem_example :
    offset_to_line_col 3 (compute_line_starts "a\ncc") ≡ advance 1 1 "a\ncc" 3
offset_to_line_col_lem_example = offset_to_line_col_lem "a\ncc" 3

abbrev named_path : List Piece
named_path = plain "/src:unit[@filename=" ∷ quoted "'" "a|b\".cpp" ∷ plain "]/src:if[1]" ∷ []

split_srcmove_path_list-bar_joined_example :
    split_srcmove_path_list ascii
      (some (bar_joined (map path_of ((plain "/src:unit[1]" ∷ []) ∷ named_path ∷ []))))
    ≡ "/src:unit[1]" ∷ "/src:unit[@filename='a|b\".cpp']/src:if[1]" ∷ []
unfolding path_of
split_srcmove_path_list-bar_joined_example =
    split_srcmove_path_list-bar_joined ascii ((plain "/src:unit[1]" ∷ []) ∷ named_path ∷ [])
      (((refl, tt), refl, refl), (((refl, ((refl, refl), (refl, tt))), refl, refl), tt))

abbrev parse_int : String → Option ℤ
parse_int s = some (pos (str_length s))

abbrev placed : Element
placed = element (name_of src_ns "unit") [] none (
    child
      (element (name_of diff_ns "delete") ((pos_start, "1:1") ∷ (pos_end, "1:22") ∷ []) (some "b")
        no_element)
      none no_element)

abbrev deleted_span : Option PositionSpan
deleted_span =
    some (record { start_line = pos 1; start_col = pos 1; end_line = pos 1; end_col = pos 2 })

abbrev placed_tree : Option TreeNode
placed_tree = build_tree_node ascii parse_int [] false placed "/src:unit[1]"

abbrev first_data : Option TreeNode → Option PositionSpan × Option PositionSpan
first_data none = (none, none)
first_data (some t) = ((data_of t).revision_0_span, (data_of t).revision_1_span)

placed_spans : first_data placed_tree ≡ (deleted_span, none)
unfolding build_tree_node get parse_all_attributes parse_position_spans split_at split_once
    merge_child_spans child_spans merge_spans finish_node has_expected_spans decimal digits
    words_from prefix_of parse_points spans_between
placed_spans = refl

abbrev some_tree : Option TreeNode → TreeNode
some_tree (some t) = t
some_tree none =
    tree_node
      (record {
        path = "";
        tag = "";
        label = "";
        kind = plain_kind;
        move_id = none;
        srcdiff_attributes = record { position = none; move = none; unit = none; diff = none };
        xml_span = none;
        revision_0_span = none;
        revision_1_span = none;
      })
      no_node

placed_built : placed_tree ≡ some (some_tree placed_tree)
unfolding build_tree_node get parse_all_attributes parse_position_spans split_at split_once
    merge_child_spans child_spans merge_spans finish_node has_expected_spans decimal digits
    words_from prefix_of parse_points spans_between
placed_built = refl

build_tree_node-IsSpanned_example : IsSpanned ascii parse_int (some_tree placed_tree)
build_tree_node-IsSpanned_example =
    build_tree_node-IsSpanned ascii parse_int [] false placed "/src:unit[1]" (some_tree placed_tree)
      placed_built

render_element-IsRange_example :
    All
      (IsRange (
        str_length (
          render
            (side true
              (render_element false unit "/src:unit[1]" all_revisions empty_rendering)).buffer)))
      (side true (render_element false unit "/src:unit[1]" all_revisions empty_rendering)).ranges
render_element-IsRange_example = render_element-IsRange unit "/src:unit[1]" false true

abbrev codes : String → List ℕ
codes String.[] = []
codes (String.◌∷◌ c s) = code c ∷ codes s

abbrev small_markup : Markup
small_markup =
    markup "http://www.srcML.org/srcML/src|unit" 0
      (next_markup (markup "http://www.srcML.org/srcML/src|if" 3 no_markup 6)
        (next_markup (markup "http://www.srcML.org/srcML/src|if" 11 no_markup 14) no_markup))
      18

abbrev small_bytes : List ℕ
small_bytes = codes "<u><i></i>\n<i></i><u>"

small_index :
    build_xml_span_index true [] small_bytes (events_of small_markup [])
    ≡ ("/src:unit[1]/if[1]", record { start_line = 1; start_col = 4; end_line = 1; end_col = 11 })
      ∷ ("/src:unit[1]/if[2]", record { start_line = 2; start_col = 1; end_line = 2; end_col = 8 })
      ∷ ("/src:unit[1]", record { start_line = 1; start_col = 1; end_line = 2; end_col = 11 })
      ∷ []
unfolding build_xml_span_index prefixed_name_from_expat put decimal offset_to_line_col
small_index = refl

-- Two files, with an element beside their units.
abbrev two_units : Markup
two_units =
    markup "http://www.srcML.org/srcML/src|unit" 0
      (next_markup
        (markup "http://www.srcML.org/srcML/src|unit" 3
          (next_markup (markup "http://www.srcML.org/srcML/src|if" 6 no_markup 9) no_markup) 13)
        (next_markup (markup "http://www.srcML.org/srcML/src|if" 17 no_markup 20)
          (next_markup (markup "http://www.srcML.org/srcML/src|unit" 24 no_markup 27) no_markup)))
      31

abbrev two_bytes : List ℕ
two_bytes = codes "<u><u><i></i></u><i></i><u></u></u>"

two_index :
    build_xml_span_index false [] two_bytes (events_of two_units [])
    ≡ ("/src:unit[1]/if[1]", record { start_line = 1; start_col = 7; end_line = 1; end_col = 14 })
      ∷ ("/src:unit[1]", record { start_line = 1; start_col = 4; end_line = 1; end_col = 18 })
      ∷ ("/src:unit[2]", record { start_line = 1; start_col = 25; end_line = 1; end_col = 32 })
      ∷ []
unfolding build_xml_span_index prefixed_name_from_expat put decimal offset_to_line_col
two_index = refl

build_xml_span_index_example :
    build_xml_span_index false [] two_bytes (events_of two_units [])
    ≡ spans_of false [] two_bytes two_units
build_xml_span_index_example = build_xml_span_index_lem false [] two_bytes two_units
