-- ===== src/Srcdiff/Renderer/Ranges.antt =====
-- The ranges that srcdiffvisual/workflow/_source_renderer.py records for the elements of a unit.
use Prim.Native.String.{◌++◌}
use text.Mathlib.TextLemmas.{nil-append, cons-append}
use src_visual.Common.{
  subst, ℕ, ◌+◌, ◌≡◌, ◌<◌, ◌≤◌, refl, ap, sym, ◌∙◌, String, Bool, true, false, not, ◌&&◌, Option,
  none, some, [], ◌∷◌, All, ltb, str_eq, str_length, if◌then◌else◌, arith, inl, inr, Bool-cases,
}
use src_visual.Common.Dict.{Dict, put}
use src_visual.Srcdiff.Elements.{
  Element, element, Elements, no_element, child, tag_of, prefixed_name, is_skipped, count_of,
  child_path,
}
use src_visual.Srcdiff.Renderer.{
  Revisions, all_revisions, append, joined, render, Side, Rendering, active_revisions, emit_on,
  emit_text, record_range, record_ranges, render_element, render_children, empty_rendering,
}
use src_visual.Srcdiff.Renderer.Texts.{side}

-- A range of a text of the given length that is not empty.
abbrev pub IsRange : ℕ → String × (ℕ × ℕ) → Type 0
IsRange size (path, (start, end)) = (start < end) × (end ≤ size)

-- The buffer knows its length, and every range lies in it.
pub record IsMeasured (s : Side) : Type 0 where
  pub sized : s.buffer.size ≡ str_length (render s.buffer)
  pub bounded : All (IsRange s.buffer.size) s.ranges

str_length-append : (s t : String) → str_length (s ++ t) ≡ str_length s + str_length t
str_length-append String.[] t = ap str_length (nil-append t) ∙ omega arith
str_length-append (String.◌∷◌ c s) t =
    ap str_length (cons-append c s t) ∙ omega (arith, str_length-append s t)

All-IsRange_longer :
    (m n : ℕ) (ranges : Dict (ℕ × ℕ)) → m ≤ n → All (IsRange m) ranges → All (IsRange n) ranges
All-IsRange_longer m n [] h a = tt
All-IsRange_longer m n (r ∷ ranges) h (k, a) =
    ((k.0, omega arith), All-IsRange_longer m n ranges h a)

put-All :
    (n : ℕ) (path : String) (range : ℕ × ℕ) (ranges : Dict (ℕ × ℕ))
    → IsRange n (path, range)
    → All (IsRange n) ranges
    → All (IsRange n) (put path range ranges)
unfolding put
put-All n path range [] h a = (h, tt)
put-All n path range ((p, r) ∷ ranges) h (k, a) = elim (Bool-cases (str_eq path p)) [
  | inl same ↦ rw same (h, a)
  | inr other ↦ rw other (k, put-All n path range ranges h a)
]

append-IsMeasured :
    (text : String) (s : Side)
    → IsMeasured s
    → IsMeasured (record s { buffer = append text s.buffer })
unfolding append joined
append-IsMeasured text s m = record {
  sized = sym (
      str_length-append (render s.buffer) text ∙ ap (λ (n : ℕ). n + str_length text) (sym m.sized));
  bounded =
      All-IsRange_longer s.buffer.size (s.buffer.size + str_length text) s.ranges (omega arith)
        m.bounded;
}

emit_on-IsMeasured :
    (text : Option String) (active : Bool) (s : Side)
    → IsMeasured s
    → IsMeasured (emit_on text active s)
emit_on-IsMeasured none active s m = m
emit_on-IsMeasured (some text) active s m = elim (Bool-cases (str_eq text "")) [
  | inl empty ↦ rw empty m
  | inr filled ↦ elim (Bool-cases active) [
    | inl on ↦ rw (filled, on) (append-IsMeasured text s m)
    | inr off ↦ rw (filled, off) m
  ]
]

record_range-IsMeasured :
    (path : String) (active : Bool) (start : ℕ) (s : Side)
    → IsMeasured s
    → IsMeasured (record_range path active start s)
record_range-IsMeasured path active start s m =
    elim (Bool-cases (active && ltb start s.buffer.size)) [
      | inr no_text ↦ rw no_text m
      | inl some_text ↦ rw some_text (record {
        sized = m.sized;
        bounded =
            put-All s.buffer.size path (start, s.buffer.size) s.ranges
              (ground (arith, some_text), omega arith) m.bounded;
      })
    ]

emit_text-IsMeasured :
    (new : Bool) (text : Option String) (revisions : Revisions) (r : Rendering)
    → IsMeasured (side new r)
    → IsMeasured (side new (emit_text text revisions r))
emit_text-IsMeasured false text revisions r = emit_on-IsMeasured text revisions.revision_0 r.side_0
emit_text-IsMeasured true text revisions r = emit_on-IsMeasured text revisions.revision_1 r.side_1

record_ranges-IsMeasured :
    (new : Bool) (path : String) (revisions : Revisions) (before r : Rendering)
    → IsMeasured (side new r)
    → IsMeasured (side new (record_ranges path revisions before r))
record_ranges-IsMeasured false path revisions before r =
    record_range-IsMeasured path revisions.revision_0 before.side_0.buffer.size r.side_0
record_ranges-IsMeasured true path revisions before r =
    record_range-IsMeasured path revisions.revision_1 before.side_1.buffer.size r.side_1

empty-IsMeasured : (new : Bool) → IsMeasured (side new empty_rendering)
unfolding joined
empty-IsMeasured false = record { sized = refl; bounded = tt }
empty-IsMeasured true = record { sized = refl; bounded = tt }

module _ (new : Bool) where
  unless_skipped :
      (skips : Bool) (r r' : Rendering)
      → IsMeasured (side new r)
      → IsMeasured (side new r')
      → IsMeasured (side new (if skips then r else r'))
  unless_skipped true r r' m m' = m
  unless_skipped false r r' m m' = m'

  module _ (include_skipped_tags : Bool) where
    mutual
      unfolding render_element

      render_element-IsMeasured :
          (e : Element) (path : String) (parent : Revisions) (r : Rendering)
          → IsMeasured (side new r)
          → IsMeasured (side new (render_element include_skipped_tags e path parent r))
      render_element-IsMeasured (element tag attributes text children) path parent r m =
          let revisions = active_revisions tag parent in
          record_ranges-IsMeasured new path revisions r _ (
            render_children-IsMeasured children path [] revisions (emit_text text revisions r)
              (emit_text-IsMeasured new text revisions r m))

      render_children-IsMeasured :
          (es : Elements) (path : String) (counts : Dict ℕ) (revisions : Revisions) (r : Rendering)
          → IsMeasured (side new r)
          → IsMeasured (side new (render_children include_skipped_tags es path counts revisions r))
      render_children-IsMeasured no_element path counts revisions r m = m
      render_children-IsMeasured (child e tail rest) path counts revisions r m =
          let skips = not include_skipped_tags && is_skipped (tag_of e) in
          let name = prefixed_name (tag_of e) in
          let n = count_of name counts in
          let r' = render_element include_skipped_tags e (child_path path name n) revisions r in
          render_children-IsMeasured rest path (if skips then counts else put name n counts)
            revisions (if skips then r else emit_text tail revisions r')
            (unless_skipped skips r (emit_text tail revisions r') m (
              emit_text-IsMeasured new tail revisions r'
                (render_element-IsMeasured e (child_path path name n) revisions r m)))

-- In the rendering of a unit, every recorded range of an element is not empty and lies within the
-- source text of its revision, whose length the buffer has counted.
pub render_element-IsRange :
    (unit : Element) (path : String) (include_skipped_tags new : Bool)
    → All
        (IsRange (
          str_length (
            render
              (side new (
                render_element include_skipped_tags unit path all_revisions
                  empty_rendering)).buffer)))
        (side new
          (render_element include_skipped_tags unit path all_revisions empty_rendering)).ranges
render_element-IsRange unit path include_skipped_tags new =
    let m =
      render_element-IsMeasured new include_skipped_tags unit path all_revisions empty_rendering
        (empty-IsMeasured new) in
    subst
      (λ (n : ℕ).
        All (IsRange n)
          (side new
            (render_element include_skipped_tags unit path all_revisions empty_rendering)).ranges)
      m.sized m.bounded
