-- ===== src/Srcdiff/XmlSpans/Stack.antt =====
-- The handlers' stack does what a recursion over the elements does that carries each parent's frame.
use src_visual.Common.{
  ℕ, String, ◌≡◌, refl, ap, ◌∙◌, Bool, true, false, not, ◌&&◌, Option, none, List, ◌∷◌,
  if◌then◌else◌, Bool-cases, inl, inr, arith, str_eq,
}
use src_visual.Common.Dict.{Dict}
use src_visual.Srcdiff.Positions.{SourceSpan}
use src_visual.Srcdiff.XmlSpans.{
  prefixed_name_from_expat, Frame, Handlers, Event, starts, ends, frame_for, is_alone, is_counted,
  counted_frame, path_below, start_below, start_element, record_span, end_element, handle_events,
}

-- The elements of a document: the name that expat gives, the byte of the start tag, the elements
-- inside, and the byte of the end tag.
mutual
  pub data Markup : Type 0 where
    markup : String → ℕ → Markups → ℕ → Markup

  pub data Markups : Type 0 where
    no_markup : Markups
    next_markup : Markup → Markups → Markups

-- The events of an element, before others.
abbrev mutual
  pub events_of : Markup → List Event → List Event
  events_of (markup name start children end) rest =
      starts name start ∷ events_in children (ends end ∷ rest)

  pub events_in : Markups → List Event → List Event
  events_in no_markup rest = rest
  events_in (next_markup m ms) rest = events_of m (events_in ms rest)

module _ (root_is_file_unit : Bool) (skipped_names : List String) (xml_bytes : List ℕ) where
  abbrev pub child_path_of : Frame → String → Option String
  child_path_of parent tag =
      if is_counted root_is_file_unit skipped_names xml_bytes parent tag
      then path_below root_is_file_unit skipped_names xml_bytes parent tag
      else none

  abbrev pub next_parent : Frame → String → Frame
  next_parent parent tag =
      if is_counted root_is_file_unit skipped_names xml_bytes parent tag
      then counted_frame root_is_file_unit skipped_names xml_bytes parent tag
      else parent

  -- An element inside its parent, by recursion: the parent with its count, and the spans with those of
  -- the element's descendants and then its own.
  unfoldable mutual
    pub place : Markup → Frame → Dict SourceSpan → Frame × Dict SourceSpan
    place (markup name start children end) parent spans =
        let tag = prefixed_name_from_expat name in
        let path = child_path_of parent tag in
        (
          next_parent parent tag,
          record_span root_is_file_unit skipped_names xml_bytes path start end
              (place_all children (frame_for tag path start) spans).1,
        )

    pub place_all : Markups → Frame → Dict SourceSpan → Frame × Dict SourceSpan
    place_all no_markup parent spans = (parent, spans)
    place_all (next_markup m ms) parent spans =
        place_all ms (place m parent spans).0 (place m parent spans).1

  pub next_parent-keeps :
      (parent : Frame) (tag : String)
      → ((next_parent parent tag).path ≡ parent.path)
        × ((next_parent parent tag).start_byte ≡ parent.start_byte)
  next_parent-keeps parent tag =
      elim (Bool-cases (is_counted root_is_file_unit skipped_names xml_bytes parent tag)) [
        | inl counts ↦ rw counts (refl, refl)
        | inr passes ↦ rw passes (refl, refl)
      ]

  pub place_all-keeps :
      (ms : Markups) (parent : Frame) (spans : Dict SourceSpan)
      → ((place_all ms parent spans).0.path ≡ parent.path)
        × ((place_all ms parent spans).0.start_byte ≡ parent.start_byte)
  unfolding place_all
  place_all-keeps no_markup parent spans = (refl, refl)
  place_all-keeps (next_markup (markup name start children end) ms) parent spans =
      let tag = prefixed_name_from_expat name in
      let (p, b) = place_all-keeps ms (next_parent parent tag) _ in
      let (q, c) = next_parent-keeps parent tag in (p ∙ q, b ∙ c)

  abbrev pub handlers : ℕ → List Frame → Dict SourceSpan → Handlers
  handlers n stack spans = record { nested_unit_count = n; stack = stack; spans = spans }

  not_nested : (a b c : Bool) → (a && b) ≡ false → (a && (b && c)) ≡ false
  not_nested a b c h = ground arith

  pub start_lem :
      (name : String) (start n : ℕ) (parent : Frame) (frames : List Frame) (spans : Dict SourceSpan)
      → (not root_is_file_unit && is_alone frames) ≡ false
      → start_element root_is_file_unit skipped_names xml_bytes name start
          (handlers n (parent ∷ frames) spans)
        ≡ handlers n
            (frame_for
                (prefixed_name_from_expat name)
                (child_path_of parent (prefixed_name_from_expat name))
                start
              ∷ next_parent parent (prefixed_name_from_expat name)
              ∷ frames)
            spans
  unfolding start_element start_below
  start_lem name start n parent frames spans inner =
      let tag = prefixed_name_from_expat name in
      rw
        (not_nested (not root_is_file_unit) (is_alone frames)
          (str_eq parent.tag "unit" && str_eq tag "unit") inner)
        (split (is_counted root_is_file_unit skipped_names xml_bytes parent tag) tag)
    where
      split :
          (b : Bool) (tag : String)
          → (if b
              then handlers n
                  (frame_for tag
                      (path_below root_is_file_unit skipped_names xml_bytes parent tag)
                      start
                    ∷ counted_frame root_is_file_unit skipped_names xml_bytes parent tag
                    ∷ frames)
                  spans
              else handlers n (frame_for tag none start ∷ parent ∷ frames) spans)
            ≡ handlers n
                (frame_for tag
                    (if b
                      then path_below root_is_file_unit skipped_names xml_bytes parent tag
                      else none)
                    start
                  ∷ (if b
                      then counted_frame root_is_file_unit skipped_names xml_bytes parent tag
                      else parent)
                  ∷ frames)
                spans
      split true tag = refl
      split false tag = refl

  and-false : (a : Bool) → (a && false) ≡ false
  and-false true = refl
  and-false false = refl

  mutual
    unfolding handle_events place end_element

    pub handle_one :
        (m : Markup) (rest : List Event) (n : ℕ) (parent : Frame) (frames : List Frame)
        (spans : Dict SourceSpan)
        → (not root_is_file_unit && is_alone frames) ≡ false
        → handle_events root_is_file_unit skipped_names xml_bytes
            (events_of m rest)
            (handlers n (parent ∷ frames) spans)
          ≡ handle_events root_is_file_unit skipped_names xml_bytes rest
              (handlers n ((place m parent spans).0 ∷ frames) (place m parent spans).1)
    handle_one (markup name start children end) rest n parent frames spans inner =
        let tag = prefixed_name_from_expat name in
        let frame = frame_for tag (child_path_of parent tag) start in
        ap
          (λ (h : Handlers).
            handle_events root_is_file_unit skipped_names xml_bytes
              (events_in children (ends end ∷ rest)) h)
          (start_lem name start n parent frames spans inner)
        ∙ handle_all children (ends end ∷ rest) n frame (next_parent parent tag ∷ frames) spans
            (and-false (not root_is_file_unit))
        ∙ ap
            (λ (p : Option String). handle_events root_is_file_unit skipped_names xml_bytes rest (
              handlers n (next_parent parent tag ∷ frames) (
                record_span root_is_file_unit skipped_names xml_bytes p
                  (place_all children frame spans).0.start_byte end
                  (place_all children frame spans).1)))
            (place_all-keeps children frame spans).0
        ∙ ap
            (λ (b : ℕ). handle_events root_is_file_unit skipped_names xml_bytes rest (
              handlers n (next_parent parent tag ∷ frames) (
                record_span root_is_file_unit skipped_names xml_bytes (child_path_of parent tag) b
                  end (place_all children frame spans).1)))
            (place_all-keeps children frame spans).1

    pub handle_all :
        (ms : Markups) (rest : List Event) (n : ℕ) (parent : Frame) (frames : List Frame)
        (spans : Dict SourceSpan)
        → (not root_is_file_unit && is_alone frames) ≡ false
        → handle_events root_is_file_unit skipped_names xml_bytes
            (events_in ms rest)
            (handlers n (parent ∷ frames) spans)
          ≡ handle_events root_is_file_unit skipped_names xml_bytes rest
              (handlers n ((place_all ms parent spans).0 ∷ frames) (place_all ms parent spans).1)
    handle_all no_markup rest n parent frames spans inner = refl
    handle_all (next_markup m ms) rest n parent frames spans inner =
        handle_one m (events_in ms rest) n parent frames spans inner
        ∙ handle_all ms rest n (place m parent spans).0 frames (place m parent spans).1 inner
