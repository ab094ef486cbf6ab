-- ===== src/Srcdiff/Renderer/Texts.antt =====
-- The text of one revision of an annotated unit, read off the elements, and the one that
-- srcdiffvisual/workflow/_source_renderer.py builds.
use Prim.Native.String.{◌++◌}
use text.Mathlib.TextLemmas.{append-nil, nil-append, append_assoc}
use src_visual.Common.{
  ℕ, ◌≡◌, refl, ap, sym, ◌∙◌, String, Bool, true, false, not, ◌&&◌, Option, none, some, [], ltb,
  str_eq, if◌then◌else◌, arith, eq_iff, inl, inr, Bool-cases,
}
use src_visual.Common.Dict.{Dict, put}
use src_visual.Srcdiff.Elements.{
  Element, element, Elements, no_element, child, tag_of, prefixed_name, is_skipped, count_of,
  child_path,
}
use src_visual.Srcdiff.Renderer.{
  Revisions, all_revisions, append, joined, render, Side, Rendering, named_revisions,
  active_revisions, emit_on, emit_text, record_range, record_ranges, render_element,
  render_children, render_unit_sources, empty_rendering,
}

-- The revisions: the old one is `false`, the new one `true`.
abbrev pub side : Bool → Rendering → Side
side false r = r.side_0
side true r = r.side_1

abbrev pub is_active_in : Bool → Revisions → Bool
is_active_in false revisions = revisions.revision_0
is_active_in true revisions = revisions.revision_1

-- Whether the text of an element belongs to a revision: a deleted element to the old one, an
-- inserted one to the new one, a common one to both, and any other where its parent does.
abbrev pub belongs : Bool → String → Bool → Bool
belongs new tag parent =
    if str_eq tag "diff:delete"
    then not new
    else if str_eq tag "diff:insert"
    then new
    else if str_eq tag "diff:common"
    then true
    else parent

abbrev pub shown : Bool → Option String → String
shown true (some text) = text
shown _ _ = ""

-- The text of one revision, in document order, without the skipped elements and their tails.
unfoldable mutual
  pub text_in : Bool → Bool → Element → Bool → String
  text_in include_skipped_tags new (element tag attributes text children) parent =
      let here = belongs new (prefixed_name tag) parent in
      shown here text ++ texts_in include_skipped_tags new children here

  pub texts_in : Bool → Bool → Elements → Bool → String
  texts_in include_skipped_tags new no_element here = ""
  texts_in include_skipped_tags new (child e tail rest) here =
      let own = text_in include_skipped_tags new e here in
      (if not include_skipped_tags && is_skipped (tag_of e) then "" else own ++ shown here tail)
      ++ texts_in include_skipped_tags new rest here

is_active_in-named_revisions :
    (new : Bool) (tag : String) (parent : Revisions)
    → is_active_in new (named_revisions tag parent) ≡ belongs new tag (is_active_in new parent)
is_active_in-named_revisions false tag parent = ground arith
is_active_in-named_revisions true tag parent = ground arith

emit_on-render :
    (text : Option String) (active : Bool) (s : Side)
    → render (emit_on text active s).buffer ≡ render s.buffer ++ shown active text
unfolding append joined
emit_on-render none true s = sym (append-nil (render s.buffer))
emit_on-render none false s = sym (append-nil (render s.buffer))
emit_on-render (some text) false s = elim (Bool-cases (str_eq text "")) [
  | inl empty ↦ rw empty (sym (append-nil (render s.buffer)))
  | inr filled ↦ rw filled (sym (append-nil (render s.buffer)))
]
emit_on-render (some text) true s = elim (Bool-cases (str_eq text "")) [
  | inl empty ↦ rw empty (
      sym
        (ap (λ t. render s.buffer ++ t) ((eq_iff text "").0 empty) ∙ append-nil (render s.buffer)))
  | inr filled ↦ rw filled refl
]

side-emit_text :
    (new : Bool) (text : Option String) (revisions : Revisions) (r : Rendering)
    → side new (emit_text text revisions r) ≡ emit_on text (is_active_in new revisions) (side new r)
side-emit_text false text revisions r = refl
side-emit_text true text revisions r = refl

record_range-buffer :
    (path : String) (active : Bool) (start : ℕ) (s : Side)
    → (record_range path active start s).buffer ≡ s.buffer
record_range-buffer path active start s = elim (Bool-cases (active && ltb start s.buffer.size)) [
  | inl some_text ↦ rw some_text refl
  | inr no_text ↦ rw no_text refl
]

record_ranges-buffer :
    (new : Bool) (path : String) (revisions : Revisions) (before r : Rendering)
    → (side new (record_ranges path revisions before r)).buffer ≡ (side new r).buffer
record_ranges-buffer false path revisions before r =
    record_range-buffer path revisions.revision_0 before.side_0.buffer.size r.side_0
record_ranges-buffer true path revisions before r =
    record_range-buffer path revisions.revision_1 before.side_1.buffer.size r.side_1

emit_text-render :
    (new : Bool) (text : Option String) (revisions : Revisions) (r : Rendering)
    → render (side new (emit_text text revisions r)).buffer
      ≡ render (side new r).buffer ++ shown (is_active_in new revisions) text
emit_text-render new text revisions r =
    ap (λ (s : Side). render s.buffer) (side-emit_text new text revisions r)
    ∙ emit_on-render text (is_active_in new revisions) (side new r)

-- The text after a child and its tail, or without a skipped one.
after_child :
    (new skips : Bool) (tail : Option String) (revisions : Revisions) (r r' : Rendering)
    (own : String)
    → render (side new r').buffer ≡ render (side new r).buffer ++ own
    → render (side new (if skips then r else emit_text tail revisions r')).buffer
      ≡ render (side new r).buffer
        ++ (if skips then "" else own ++ shown (is_active_in new revisions) tail)
after_child new true tail revisions r r' own h = sym (append-nil (render (side new r).buffer))
after_child new false tail revisions r r' own h =
    let here = is_active_in new revisions in
    emit_text-render new tail revisions r'
    ∙ (ap (λ t. t ++ shown here tail) h
        ∙ append_assoc (render (side new r).buffer) own (shown here tail))

module _ (include_skipped_tags new : Bool) where
  mutual
    unfolding render_element text_in

    render_element-text :
        (e : Element) (path : String) (parent : Revisions) (r : Rendering)
        → render (side new (render_element include_skipped_tags e path parent r)).buffer
          ≡ render (side new r).buffer
            ++ text_in include_skipped_tags new e (is_active_in new parent)
    render_element-text (element tag attributes text children) path parent r =
        let revisions = active_revisions tag parent in
        ap render (
          record_ranges-buffer new path revisions r (
            render_children include_skipped_tags children path [] revisions
              (emit_text text revisions r)))
        ∙ (render_children-text children path [] revisions (emit_text text revisions r)
            ∙ (ap
                  (λ t.
                    t ++ texts_in include_skipped_tags new children (is_active_in new revisions))
                  (emit_text-render new text revisions r)
                ∙ (append_assoc (render (side new r).buffer)
                      (shown (is_active_in new revisions) text)
                      (texts_in include_skipped_tags new children (is_active_in new revisions))
                    ∙ ap
                        (λ b.
                          render (side new r).buffer
                          ++ (shown b text ++ texts_in include_skipped_tags new children b))
                        (is_active_in-named_revisions new (prefixed_name tag) parent))))

    render_children-text :
        (es : Elements) (path : String) (counts : Dict ℕ) (revisions : Revisions) (r : Rendering)
        → render (side new (render_children include_skipped_tags es path counts revisions r)).buffer
          ≡ render (side new r).buffer
            ++ texts_in include_skipped_tags new es (is_active_in new revisions)
    render_children-text no_element path counts revisions r =
        sym (append-nil (render (side new r).buffer))
    render_children-text (child e tail rest) path counts revisions r =
        let skips = not include_skipped_tags && is_skipped (tag_of e) in
        let here = is_active_in new revisions in
        let name = prefixed_name (tag_of e) in
        let n = count_of name counts in
        let r' = render_element include_skipped_tags e (child_path path name n) revisions r in
        let own = text_in include_skipped_tags new e here in
        let later = texts_in include_skipped_tags new rest here in
        render_children-text rest path (if skips then counts else put name n counts) revisions
          (if skips then r else emit_text tail revisions r')
        ∙ (ap (λ t. t ++ later)
              (after_child new skips tail revisions r r' own
                (render_element-text e (child_path path name n) revisions r))
            ∙ append_assoc (render (side new r).buffer)
                (if skips then "" else own ++ shown here tail) later)

-- The source text that `_render_unit_sources` gives for a revision is the text of the elements that
-- belong to it, in document order, without the skipped elements and their tails.
pub render_unit_sources_text :
    (unit : Element) (path : String) (include_skipped_tags : Bool)
    → ((render_unit_sources unit path include_skipped_tags).revision_0_source_code
        ≡ text_in include_skipped_tags false unit true)
      × ((render_unit_sources unit path include_skipped_tags).revision_1_source_code
          ≡ text_in include_skipped_tags true unit true)
unfolding render_unit_sources joined
render_unit_sources_text unit path include_skipped_tags = (
  render_element-text include_skipped_tags false unit path all_revisions empty_rendering
      ∙ nil-append (text_in include_skipped_tags false unit true),
  render_element-text include_skipped_tags true unit path all_revisions empty_rendering
      ∙ nil-append (text_in include_skipped_tags true unit true),
)
