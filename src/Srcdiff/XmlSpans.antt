-- ===== src/Srcdiff/XmlSpans.antt =====
-- srcdiffvisual/srcdiff/xml_spans.py: the positions of the elements in the text of the annotated XML,
-- kept by the handlers of expat's events. The parser itself is expat's: its events are given, each with
-- the byte index that the parser shows. The bytes are a list of numbers.
pub mod Stack
pub mod Siblings
pub mod Nested
use Prim.Native.Char.{code}
use Prim.Native.String.{◌++◌}
use src_visual.Common.{
  ℕ, zero, suc, ◌+◌, String, Bool, true, false, not, ◌&&◌, Option, none, some, List, [], ◌∷◌, any,
  ◌==◌, str_eq, is_some, if◌then◌else◌,
}
use src_visual.Common.Dict.{Dict, get, put}
use src_visual.Srcdiff.Elements.{namespace_prefix, count_of, child_path, unit_path}
use src_visual.Srcdiff.Positions.{SourceSpan, offset_to_line_col}

-- `name.split("|", 1)`, if the separator is there.
unfoldable pub split_at_bar : String → Option (String × String)
split_at_bar String.[] = none
split_at_bar (String.◌∷◌ c s) = if code c == 124 then some ("", s) else elim (split_at_bar s) [
  | none ↦ none
  | some (namespace, local_name) ↦ some (String.◌∷◌ c namespace, local_name)
]

abbrev pub prefixed : Option String → String → String
prefixed none local_name = local_name
prefixed (some prefix) local_name =
    if str_eq prefix "src" then local_name else prefix ++ (":" ++ local_name)

unfoldable pub prefixed_name_from_expat : String → String
unfolding split_at_bar get
prefixed_name_from_expat name = elim (split_at_bar name) [
  | none ↦ name
  | some (namespace, local_name) ↦ prefixed (get namespace namespace_prefix) local_name
]

unfoldable pub line_starts_from : ℕ → List ℕ → List ℕ
line_starts_from index [] = []
line_starts_from index (byte ∷ bytes) =
    let rest = line_starts_from (suc index) bytes in if byte == 10 then (index + 1) ∷ rest else rest

unfoldable pub compute_line_start_offsets : List ℕ → List ℕ
unfolding line_starts_from
compute_line_start_offsets xml_bytes = 0 ∷ line_starts_from 0 xml_bytes

-- `xml_bytes.find(b">", start)`; the first number is the index of the first byte.
unfoldable pub find_close : ℕ → ℕ → List ℕ → Option ℕ
find_close index start [] = none
find_close index zero (byte ∷ bytes) =
    let later = find_close (suc index) zero bytes in if byte == 62 then some index else later
find_close index (suc start) (byte ∷ bytes) = find_close (suc index) start bytes

pub record Frame : Type 0 where
  pub tag : String
  pub path : Option String
  pub start_byte : ℕ
  pub child_counts : Dict ℕ

-- The variables that the handlers share; the top of the stack stands first.
pub record Handlers : Type 0 where
  pub nested_unit_count : ℕ
  pub stack : List Frame
  pub spans : Dict SourceSpan

pub data Event : Type 0 where
  starts : String → ℕ → Event
  ends : ℕ → Event

abbrev pub is_alone : List Frame → Bool
is_alone [] = true
is_alone (frame ∷ frames) = false

abbrev pub frame_for : String → Option String → ℕ → Frame
frame_for tag path start_byte = record {
  tag = tag;
  path = path;
  start_byte = start_byte;
  child_counts = [];
}

module _ (root_is_file_unit : Bool) (skipped_names : List String) (xml_bytes : List ℕ) where
  -- The nested unit of a document that holds several.
  abbrev pub is_nested_unit : Frame → List Frame → String → Bool
  is_nested_unit parent frames tag =
      not root_is_file_unit && (is_alone frames && (str_eq parent.tag "unit" && str_eq tag "unit"))

  abbrev pub is_counted : Frame → String → Bool
  is_counted parent tag = is_some parent.path && not (any (str_eq tag) skipped_names)

  abbrev pub counted_frame : Frame → String → Frame
  counted_frame parent tag = record parent {
    child_counts = put tag (count_of tag parent.child_counts) parent.child_counts;
  }

  abbrev pub path_below : Frame → String → Option String
  path_below parent tag = elim parent.path [
    | none ↦ none
    | some path ↦ some (child_path path tag (count_of tag parent.child_counts))
  ]

  -- `start_element` in an element; and at the root.
  unfoldable pub start_below : String → ℕ → Frame → List Frame → Handlers → Handlers
  start_below tag start_byte parent frames h =
      if is_nested_unit parent frames tag
      then record {
        nested_unit_count = h.nested_unit_count + 1;
        stack =
            frame_for tag (some (unit_path (h.nested_unit_count + 1))) start_byte ∷ parent ∷ frames;
        spans = h.spans;
      }
      else if is_counted parent tag
      then record h {
        stack =
            frame_for tag (path_below parent tag) start_byte ∷ counted_frame parent tag ∷ frames;
      }
      else record h { stack = frame_for tag none start_byte ∷ parent ∷ frames }

  abbrev pub root_path : String → Option String
  root_path tag = if root_is_file_unit && str_eq tag "unit" then some "/src:unit[1]" else none

  abbrev pub start_in : List Frame → String → ℕ → Handlers → Handlers
  start_in [] tag start_byte h = record h { stack = frame_for tag (root_path tag) start_byte ∷ [] }
  start_in (parent ∷ frames) tag start_byte h = start_below tag start_byte parent frames h

  unfoldable pub start_element : String → ℕ → Handlers → Handlers
  unfolding start_below
  start_element name start_byte h = start_in h.stack (prefixed_name_from_expat name) start_byte h

  -- The span of an element from its start to the `>` of its end tag.
  unfoldable pub span_between : ℕ → ℕ → SourceSpan
  unfolding compute_line_start_offsets
  span_between start_byte close_byte =
      let offsets = compute_line_start_offsets xml_bytes in
      let (start_line, start_col) = offset_to_line_col start_byte offsets in
      let (end_line, end_col) = offset_to_line_col close_byte offsets in
      record {
        start_line = start_line;
        start_col = start_col;
        end_line = end_line;
        end_col = end_col + 1;
      }

  unfoldable pub record_span : Option String → ℕ → ℕ → Dict SourceSpan → Dict SourceSpan
  unfolding span_between find_close
  record_span none start_byte end_tag_start spans = spans
  record_span (some path) start_byte end_tag_start spans =
      elim (find_close 0 end_tag_start xml_bytes) [
        | none ↦ spans
        | some close_byte ↦ put path (span_between start_byte close_byte) spans
      ]

  -- `end_element`; expat ends only elements that it has started.
  abbrev pub end_in : List Frame → ℕ → Handlers → Handlers
  end_in [] end_tag_start h = h
  end_in (frame ∷ frames) end_tag_start h = record {
    nested_unit_count = h.nested_unit_count;
    stack = frames;
    spans = record_span frame.path frame.start_byte end_tag_start h.spans;
  }

  unfoldable pub end_element : ℕ → Handlers → Handlers
  unfolding record_span
  end_element end_tag_start h = end_in h.stack end_tag_start h

  unfoldable pub handle_events : List Event → Handlers → Handlers
  unfolding start_element end_element
  handle_events [] h = h
  handle_events (starts name start_byte ∷ events) h =
      handle_events events (start_element name start_byte h)
  handle_events (ends end_tag_start ∷ events) h = handle_events events (end_element end_tag_start h)

  unfoldable pub build_xml_span_index : List Event → Dict SourceSpan
  unfolding handle_events
  build_xml_span_index events =
      (handle_events events (record { nested_unit_count = 0; stack = []; spans = [] })).spans
