-- ===== src/Srcdiff/Renderer.antt =====
-- srcdiffvisual/workflow/_source_renderer.py: the source text of both revisions from one annotated
-- unit, with the range of every element. A set of revisions is two Booleans; each revision has its
-- buffer and its ranges.
pub mod Texts
pub mod Ranges
use Prim.Native.String.{◌++◌}
use src_visual.Common.{
  ℕ, suc, ◌+◌, String, Bool, true, false, not, ◌&&◌, Option, none, some, List, [], ◌∷◌, length, ltb,
  ◌==◌, str_eq, str_length, if◌then◌else◌,
}
use src_visual.Common.Dict.{Dict, put}
use src_visual.Srcdiff.Elements.{
  Tag, Element, element, Elements, no_element, child, tag_of, prefixed_name, is_skipped, count_of,
  child_path, unit_path, get_srcdiff_file_unit_elements,
}
use src_visual.Srcdiff.Positions.{SourceSpan, ranges_to_spans}

pub record Revisions : Type 0 where
  pub revision_0 : Bool
  pub revision_1 : Bool

abbrev pub all_revisions : Revisions
all_revisions = record { revision_0 = true; revision_1 = true }

-- `_TextBuffer`; the chunks stand latest first.
pub record TextBuffer : Type 0 where
  pub chunks : List String
  pub size : ℕ

unfoldable pub append : String → TextBuffer → TextBuffer
append text b = record { chunks = text ∷ b.chunks; size = b.size + str_length text }

-- `"".join(chunks)`
unfoldable pub joined : List String → String
joined [] = ""
joined (text ∷ chunks) = joined chunks ++ text

abbrev pub render : TextBuffer → String
render b = joined b.chunks

-- One revision's entries of `buffers` and `ranges`.
pub record Side : Type 0 where
  pub buffer : TextBuffer
  pub ranges : Dict (ℕ × ℕ)

pub record Rendering : Type 0 where
  pub side_0 : Side
  pub side_1 : Side

abbrev pub named_revisions : String → Revisions → Revisions
named_revisions tag parent =
    if str_eq tag "diff:delete"
    then record { revision_0 = true; revision_1 = false }
    else if str_eq tag "diff:insert"
    then record { revision_0 = false; revision_1 = true }
    else if str_eq tag "diff:common"
    then all_revisions
    else parent

-- `_active_revisions_for_element`
abbrev pub active_revisions : Tag → Revisions → Revisions
active_revisions tag = named_revisions (prefixed_name tag)

-- `_emit_text`
abbrev pub emit_on : Option String → Bool → Side → Side
emit_on none active s = s
emit_on (some text) active s =
    if str_eq text "" then s else if active then record s { buffer = append text s.buffer } else s

abbrev pub emit_text : Option String → Revisions → Rendering → Rendering
emit_text text revisions r = record {
  side_0 = emit_on text revisions.revision_0 r.side_0;
  side_1 = emit_on text revisions.revision_1 r.side_1;
}

-- The last loop of `_render_element`, for one revision that was at `start` before the element.
abbrev pub record_range : String → Bool → ℕ → Side → Side
record_range path active start s =
    if active && ltb start s.buffer.size
    then record s { ranges = put path (start, s.buffer.size) s.ranges }
    else s

abbrev pub record_ranges : String → Revisions → Rendering → Rendering → Rendering
record_ranges path revisions before r = record {
  side_0 = record_range path revisions.revision_0 before.side_0.buffer.size r.side_0;
  side_1 = record_range path revisions.revision_1 before.side_1.buffer.size r.side_1;
}

-- `_render_element`, and its loop over the children with the counts of their names; a skipped child
-- leaves both as they are.
unfoldable mutual
  pub render_element : Bool → Element → String → Revisions → Rendering → Rendering
  render_element include_skipped_tags (element tag attributes text children) path parent r =
      let revisions = active_revisions tag parent in
      record_ranges path revisions r (
        render_children include_skipped_tags children path [] revisions
          (emit_text text revisions r))

  pub render_children : Bool → Elements → String → Dict ℕ → Revisions → Rendering → Rendering
  render_children include_skipped_tags no_element path counts revisions r = r
  render_children include_skipped_tags (child e tail rest) path counts revisions r =
      let skips = not include_skipped_tags && is_skipped (tag_of e) in
      let name = prefixed_name (tag_of e) in
      let n = count_of name counts in
      let rendered = render_element include_skipped_tags e (child_path path name n) revisions r in
      render_children include_skipped_tags rest path (if skips then counts else put name n counts)
        revisions (if skips then r else emit_text tail revisions rendered)

pub record RenderedUnitSources : Type 0 where
  pub revision_0_source_code : String
  pub revision_1_source_code : String
  pub revision_0_spans_by_path : Dict SourceSpan
  pub revision_1_spans_by_path : Dict SourceSpan

abbrev pub empty_side : Side
empty_side = record { buffer = record { chunks = []; size = 0 }; ranges = [] }

abbrev pub empty_rendering : Rendering
empty_rendering = record { side_0 = empty_side; side_1 = empty_side }

abbrev pub rendered_unit : Rendering → RenderedUnitSources
rendered_unit r = record {
  revision_0_source_code = render r.side_0.buffer;
  revision_1_source_code = render r.side_1.buffer;
  revision_0_spans_by_path = ranges_to_spans r.side_0.ranges (render r.side_0.buffer);
  revision_1_spans_by_path = ranges_to_spans r.side_1.ranges (render r.side_1.buffer);
}

unfoldable pub render_unit_sources : Element → String → Bool → RenderedUnitSources
unfolding render_element
render_unit_sources unit path include_skipped_tags =
    rendered_unit (render_element include_skipped_tags unit path all_revisions empty_rendering)

-- `RevisionFile`
pub record RevisionFile : Type 0 where
  pub unit_id : ℕ
  pub filename : String
  pub revision_0_filename : String
  pub revision_1_filename : String
  pub language : Option String
  pub revision_0_source_code : String
  pub revision_1_source_code : String

pub record RenderedSourceFile : Type 0 where
  pub revision_file : RevisionFile
  pub revision_0_spans_by_path : Dict SourceSpan
  pub revision_1_spans_by_path : Dict SourceSpan

abbrev pub rendered_file : ℕ → RevisionFile → RenderedUnitSources → RenderedSourceFile
rendered_file index file u = record {
  revision_file = record file {
    unit_id = index;
    revision_0_source_code = u.revision_0_source_code;
    revision_1_source_code = u.revision_1_source_code;
  };
  revision_0_spans_by_path = u.revision_0_spans_by_path;
  revision_1_spans_by_path = u.revision_1_spans_by_path;
}

-- The loop over the units and their files, from the unit number `index`.
unfoldable pub render_files : Bool → ℕ → List Element → List RevisionFile → List RenderedSourceFile
render_files include_skipped_tags index [] files = []
render_files include_skipped_tags index (u ∷ units) [] = []
render_files include_skipped_tags index (u ∷ units) (f ∷ files) =
    rendered_file index f (render_unit_sources u (unit_path index) include_skipped_tags)
    ∷ render_files include_skipped_tags (suc index) units files

-- `none` is the AssertionError on lists of two lengths.
unfoldable pub render_revision_files :
    Element → List RevisionFile → Bool → Option (List RenderedSourceFile)
unfolding render_files
render_revision_files root files include_skipped_tags =
    let units = get_srcdiff_file_unit_elements root in
    if length units == length files
    then some (render_files include_skipped_tags 1 units files)
    else none
