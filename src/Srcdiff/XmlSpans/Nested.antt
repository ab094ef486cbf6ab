-- ===== src/Srcdiff/XmlSpans/Nested.antt =====
-- The handlers' stack gives the spans that a recursion over the elements gives.
use src_visual.Common.{
  ℕ, ◌+◌, String, ◌≡◌, refl, ap, ◌∙◌, Bool, true, false, ◌&&◌, Option, none, some, List, [], ◌∷◌,
  str_eq, if◌then◌else◌, Bool-cases, inl, inr, arith,
}
use src_visual.Common.Dict.{Dict}
use src_visual.Srcdiff.Elements.{unit_path}
use src_visual.Srcdiff.Positions.{SourceSpan}
use src_visual.Srcdiff.XmlSpans.{
  root_path, prefixed_name_from_expat, Frame, Handlers, Event, ends, frame_for, start_below,
  start_element, record_span, end_element, handle_events, build_xml_span_index,
}
use src_visual.Srcdiff.XmlSpans.Stack.{
  Markup, markup, Markups, no_markup, next_markup, events_of, events_in, place_all, place_all-keeps,
  handlers, handle_all,
}
use src_visual.Srcdiff.XmlSpans.Siblings.{
  listed, listed_all, listed_units, place_all_lem, frame_for-IsCounting, listed_all-none,
}

-- The spans of a document. If its root is the unit of its one file, the root has the path of the first
-- unit; else the units below the root unit are numbered, and nothing else below the root has a path.
unfoldable pub spans_of : Bool → List String → List ℕ → Markup → Dict SourceSpan
unfolding listed listed_units
spans_of true skipped_names xml_bytes (markup name start children end) =
    let path =
      if str_eq (prefixed_name_from_expat name) "unit" then some "/src:unit[1]" else none in
    record_span true skipped_names xml_bytes path start end
      (listed_all true skipped_names xml_bytes children path [] [])
spans_of false skipped_names xml_bytes (markup name start children end) =
    if str_eq (prefixed_name_from_expat name) "unit"
    then listed_units false skipped_names xml_bytes children 0 []
    else []

-- The root of a document of one file: the handlers' stack, from its frame on.
single_lem :
    (skipped_names : List String) (xml_bytes : List ℕ) (root : Markup)
    → build_xml_span_index true skipped_names xml_bytes (events_of root [])
      ≡ spans_of true skipped_names xml_bytes root
unfolding build_xml_span_index handle_events start_element end_element spans_of
single_lem skipped_names xml_bytes (markup name start children end) =
    let tag = prefixed_name_from_expat name in
    let path = root_path true skipped_names xml_bytes tag in
    let frame = frame_for tag path start in
    let keeps = place_all-keeps true skipped_names xml_bytes children frame [] in
    ap (λ (h : Handlers). h.spans)
      (handle_all true skipped_names xml_bytes children (ends end ∷ []) 0 frame [] [] refl)
    ∙ ap
        (λ (p : Option String).
          record_span true skipped_names xml_bytes p
            (place_all true skipped_names xml_bytes children frame []).0.start_byte end
            (place_all true skipped_names xml_bytes children frame []).1)
        keeps.0
    ∙ ap
        (λ (b : ℕ).
          record_span true skipped_names xml_bytes path b end
            (place_all true skipped_names xml_bytes children frame []).1)
        keeps.1
    ∙ ap (λ (d : Dict SourceSpan). record_span true skipped_names xml_bytes path start end d)
        (place_all_lem true skipped_names xml_bytes children frame [] []
          (frame_for-IsCounting true skipped_names xml_bytes tag path start))

-- The elements below the root of a document of several files.
module _ (skipped_names : List String) (xml_bytes : List ℕ) (root : Frame)
    (pathless : root.path ≡ none) where
  abbrev unit_spans : Bool → Markups → ℕ → Dict SourceSpan → Dict SourceSpan
  unit_spans true ms n spans = listed_units false skipped_names xml_bytes ms n spans
  unit_spans false ms n spans = spans

  abbrev at_root : ℕ → Dict SourceSpan → Handlers
  at_root n spans = handlers false skipped_names xml_bytes n (root ∷ []) spans

  start_nested :
      (name : String) (start n : ℕ) (spans : Dict SourceSpan)
      → str_eq root.tag "unit" ≡ true
      → str_eq (prefixed_name_from_expat name) "unit" ≡ true
      → start_element false skipped_names xml_bytes name start (at_root n spans)
        ≡ handlers false skipped_names xml_bytes
            (n + 1)
            (frame_for (prefixed_name_from_expat name) (some (unit_path (n + 1))) start ∷ root ∷ [])
            spans
  unfolding start_element start_below
  start_nested name start n spans h i = rw (h, i) refl

  start_other :
      (name : String) (start n : ℕ) (spans : Dict SourceSpan)
      → (str_eq root.tag "unit" && str_eq (prefixed_name_from_expat name) "unit") ≡ false
      → start_element false skipped_names xml_bytes name start (at_root n spans)
        ≡ handlers false skipped_names xml_bytes n
            (frame_for (prefixed_name_from_expat name) none start ∷ root ∷ [])
            spans
  unfolding start_element start_below
  start_other name start n spans h = rw (h, pathless) refl

  element_lem :
      (tag : String) (p : Option String) (start : ℕ) (children : Markups) (end : ℕ)
      (rest : List Event) (n : ℕ) (spans : Dict SourceSpan)
      → handle_events false skipped_names xml_bytes
          (events_in children (ends end ∷ rest))
          (handlers false skipped_names xml_bytes n (frame_for tag p start ∷ root ∷ []) spans)
        ≡ handle_events false skipped_names xml_bytes rest (
            at_root n (
              record_span false skipped_names xml_bytes p start end
                (listed_all false skipped_names xml_bytes children p [] spans)))
  unfolding handle_events end_element
  element_lem tag p start children end rest n spans =
      let frame = frame_for tag p start in
      let keeps = place_all-keeps false skipped_names xml_bytes children frame spans in
      let placed = (place_all false skipped_names xml_bytes children frame spans).1 in
      handle_all false skipped_names xml_bytes children (ends end ∷ rest) n frame (root ∷ []) spans
        refl
      ∙ ap
          (λ (q : Option String). handle_events false skipped_names xml_bytes rest (
            at_root n (
              record_span false skipped_names xml_bytes q
                (place_all false skipped_names xml_bytes children frame spans).0.start_byte end
                placed)))
          keeps.0
      ∙ ap
          (λ (b : ℕ).
            handle_events false skipped_names xml_bytes rest
              (at_root n (record_span false skipped_names xml_bytes p b end placed)))
          keeps.1
      ∙ ap
          (λ (d : Dict SourceSpan).
            handle_events false skipped_names xml_bytes rest
              (at_root n (record_span false skipped_names xml_bytes p start end d)))
          (place_all_lem false skipped_names xml_bytes children frame [] spans
            (frame_for-IsCounting false skipped_names xml_bytes tag p start))

  -- An element below the root that is not a nested unit adds no span.
  other_lem :
      (name : String) (start : ℕ) (children : Markups) (end : ℕ) (rest : List Event) (n : ℕ)
      (spans : Dict SourceSpan)
      → (str_eq root.tag "unit" && str_eq (prefixed_name_from_expat name) "unit") ≡ false
      → handle_events false skipped_names xml_bytes
          (events_of (markup name start children end) rest)
          (at_root n spans)
        ≡ handle_events false skipped_names xml_bytes rest (at_root n spans)
  unfolding handle_events record_span
  other_lem name start children end rest n spans h =
      ap
        (λ (s : Handlers).
          handle_events false skipped_names xml_bytes (events_in children (ends end ∷ rest)) s)
        (start_other name start n spans h)
      ∙ element_lem (prefixed_name_from_expat name) none start children end rest n spans
      ∙ ap (λ (d : Dict SourceSpan). handle_events false skipped_names xml_bytes rest (at_root n d))
          (listed_all-none false skipped_names xml_bytes children [] spans)

  unit_lem :
      (name : String) (start : ℕ) (children : Markups) (end : ℕ) (rest : List Event) (n : ℕ)
      (spans : Dict SourceSpan)
      → str_eq root.tag "unit" ≡ true
      → str_eq (prefixed_name_from_expat name) "unit" ≡ true
      → handle_events false skipped_names xml_bytes
          (events_of (markup name start children end) rest)
          (at_root n spans)
        ≡ handle_events false skipped_names xml_bytes rest (
            at_root (n + 1) (
              record_span false skipped_names xml_bytes (some (unit_path (n + 1))) start end (
                listed_all false skipped_names xml_bytes children
                  (some (unit_path (n + 1)))
                  []
                  spans)))
  unfolding handle_events
  unit_lem name start children end rest n spans h i =
      ap
        (λ (s : Handlers).
          handle_events false skipped_names xml_bytes (events_in children (ends end ∷ rest)) s)
        (start_nested name start n spans h i)
      ∙ element_lem (prefixed_name_from_expat name) (some (unit_path (n + 1))) start children end
          rest (n + 1) spans

  and-false : (a b : Bool) → a ≡ false → (a && b) ≡ false
  and-false a b h = ground arith

  and-true : (a b : Bool) → b ≡ false → (a && b) ≡ false
  and-true a b h = ground arith

  below_root :
      (b : Bool) (ms : Markups) (rest : List Event) (n : ℕ) (spans : Dict SourceSpan)
      → str_eq root.tag "unit" ≡ b
      → (k : ℕ) × (handle_events false skipped_names xml_bytes (events_in ms rest) (at_root n spans)
          ≡ handle_events false skipped_names xml_bytes rest (at_root k (unit_spans b ms n spans)))
  unfolding listed_units
  below_root true no_markup rest n spans h = (n, refl)
  below_root false no_markup rest n spans h = (n, refl)
  below_root false (next_markup (markup name start children end) ms) rest n spans h =
      let (k, e) = below_root false ms rest n spans h in
      (k, other_lem name start children end (events_in ms rest) n spans (and-false _ _ h) ∙ e)
  below_root true (next_markup (markup name start children end) ms) rest n spans h =
      elim (Bool-cases (str_eq (prefixed_name_from_expat name) "unit")) [
        | inl nested ↦
            let (k, e) = below_root true ms rest (n + 1) _ h in
            (
              k,
              unit_lem name start children end (events_in ms rest) n spans h nested
                  ∙ e
                  ∙ rw nested refl,
            )
        | inr other ↦
            let (k, e) = below_root true ms rest n spans h in
            (
              k,
              other_lem name start children end (events_in ms rest) n spans (and-true _ _ other)
                  ∙ e
                  ∙ rw other refl,
            )
      ]

-- The root of a document of several files.
several_lem :
    (skipped_names : List String) (xml_bytes : List ℕ) (root : Markup)
    → build_xml_span_index false skipped_names xml_bytes (events_of root [])
      ≡ spans_of false skipped_names xml_bytes root
unfolding build_xml_span_index handle_events start_element end_element spans_of record_span
several_lem skipped_names xml_bytes (markup name start children end) =
    let tag = prefixed_name_from_expat name in
    let (k, e) =
      below_root skipped_names xml_bytes (frame_for tag none start) refl (str_eq tag "unit")
        children (ends end ∷ []) 0 [] refl in
    ap (λ (h : Handlers). h.spans) e ∙ decided (str_eq tag "unit")
  where
    decided :
        (b : Bool)
        → unit_spans skipped_names xml_bytes
            (frame_for (prefixed_name_from_expat name) none start)
            refl
            b
            children
            0
            []
          ≡ (if b then listed_units false skipped_names xml_bytes children 0 [] else [])
    decided true = refl
    decided false = refl

-- On the events of a document of nested elements, of one file or of several, the handlers give the
-- spans that a recursion over the elements gives, which counts each element's path from the siblings
-- of its name before it and the nested units from 1, and gives nothing to a skipped element, or to
-- what is below it. The span of one element is what the handler itself records.
pub build_xml_span_index_lem :
    (root_is_file_unit : Bool) (skipped_names : List String) (xml_bytes : List ℕ) (root : Markup)
    → build_xml_span_index root_is_file_unit skipped_names xml_bytes (events_of root [])
      ≡ spans_of root_is_file_unit skipped_names xml_bytes root
build_xml_span_index_lem true skipped_names xml_bytes root = single_lem skipped_names xml_bytes root
build_xml_span_index_lem false skipped_names xml_bytes root =
    several_lem skipped_names xml_bytes root
