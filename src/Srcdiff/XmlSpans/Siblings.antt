-- ===== src/Srcdiff/XmlSpans/Siblings.antt =====
-- The spans inside one unit by recursion over its elements, each path being counted from the siblings
-- before the element; the frames of the handlers hold the same counts.
use src_visual.Common.{
  ℕ, suc, ◌+◌, String, ◌≡◌, refl, sym, ap, ◌∙◌, Bool, true, false, not, ◌&&◌, Option, none, some,
  List, [], ◌∷◌, any, length, select, str_eq, is_some, if◌then◌else◌, Bool-cases, inl, inr, arith,
  eq_iff,
}
use src_visual.Common.Dict.{Dict, get, put, get-put}
use src_visual.Srcdiff.Elements.{count_of, child_path, unit_path}
use src_visual.Srcdiff.Positions.{SourceSpan}
use src_visual.Srcdiff.XmlSpans.{
  prefixed_name_from_expat, Frame, frame_for, is_counted, record_span,
}
use src_visual.Srcdiff.XmlSpans.Stack.{
  Markup, markup, Markups, no_markup, next_markup, next_parent, child_path_of, place, place_all,
  next_parent-keeps,
}

abbrev pub name_of : Markup → String
name_of (markup name start children end) = prefixed_name_from_expat name

-- How many of the names are this one.
abbrev pub occurrences : String → List String → ℕ
occurrences tag names = length (select (str_eq tag) names)

-- A name's count, and its occurrences, after one more sibling.
count_of-put :
    (t tag : String) (n : ℕ) (counts : Dict ℕ)
    → count_of t (put tag n counts) ≡ (if str_eq t tag then suc n else count_of t counts)
count_of-put t tag n counts = elim (Bool-cases (str_eq t tag)) [
  | inl same ↦ rw (get-put t tag n counts, same) refl
  | inr other ↦ rw (get-put t tag n counts, other) refl
]

occurrences-cons :
    (t tag : String) (before : List String)
    → occurrences t (tag ∷ before)
      ≡ (if str_eq t tag then suc (occurrences t before) else occurrences t before)
occurrences-cons t tag before = elim (Bool-cases (str_eq t tag)) [
  | inl same ↦ rw same refl
  | inr other ↦ rw other refl
]

module _ (root_is_file_unit : Bool) (skipped_names : List String) (xml_bytes : List ℕ) where
  -- The path of an element from its parent's, and from the names of the siblings before it: none
  -- below an element without one, and none for a skipped name.
  abbrev pub path_in : Option String → List String → String → Option String
  path_in none before tag = none
  path_in (some path) before tag =
      if any (str_eq tag) skipped_names
      then none
      else some (child_path path tag (suc (occurrences tag before)))

  unfoldable mutual
    pub listed : Markup → Option String → List String → Dict SourceSpan → Dict SourceSpan
    listed (markup name start children end) path before spans =
        let own = path_in path before (prefixed_name_from_expat name) in
        record_span root_is_file_unit skipped_names xml_bytes own start end
          (listed_all children own [] spans)

    pub listed_all : Markups → Option String → List String → Dict SourceSpan → Dict SourceSpan
    listed_all no_markup path before spans = spans
    listed_all (next_markup m ms) path before spans =
        listed_all ms path (name_of m ∷ before) (listed m path before spans)

  -- The units below the root of a document of several files, `n` of them before.
  unfoldable pub listed_units : Markups → ℕ → Dict SourceSpan → Dict SourceSpan
  unfolding listed
  listed_units no_markup n spans = spans
  listed_units (next_markup (markup name start children end) ms) n spans =
      let path = some (unit_path (n + 1)) in
      let rest = listed_units ms (n + 1) (
        record_span root_is_file_unit skipped_names xml_bytes path start end
          (listed_all children path [] spans)) in
      let others = listed_units ms n spans in
      if str_eq (prefixed_name_from_expat name) "unit" then rest else others

  -- A frame whose counts are those of the siblings so far.
  abbrev pub IsCounting : Frame → List String → Type 0
  IsCounting parent before =
      (tag : String)
      → is_some parent.path ≡ true
      → any (str_eq tag) skipped_names ≡ false
      → count_of tag parent.child_counts ≡ suc (occurrences tag before)

  next_parent-IsCounting :
      (parent : Frame) (tag : String) (before : List String)
      → IsCounting parent before
      → IsCounting (next_parent root_is_file_unit skipped_names xml_bytes parent tag) (tag ∷ before)
  next_parent-IsCounting parent tag before counting =
      elim (Bool-cases (is_counted root_is_file_unit skipped_names xml_bytes parent tag)) [
        | inl counts ↦ rw counts (λ t placed kept. elim (Bool-cases (str_eq t tag)) [
          | inl same ↦
              count_of-put t tag (count_of tag parent.child_counts) parent.child_counts
              ∙ rw same (
                  ap suc (
                    ap (λ (k : String). count_of k parent.child_counts)
                      (sym ((eq_iff t tag).0 same))
                    ∙ counting t placed kept))
          | inr other ↦
              count_of-put t tag (count_of tag parent.child_counts) parent.child_counts
              ∙ rw other (counting t placed kept)
        ])
        | inr passes ↦ rw passes (λ t placed kept. elim (Bool-cases (str_eq t tag)) [
          | inl same ↦ absurd (
              both (is_some parent.path) (any (str_eq tag) skipped_names) placed
                (ap (λ (k : String). any (str_eq k) skipped_names) (sym ((eq_iff t tag).0 same))
                  ∙ kept)
                passes)
          | inr other ↦
              counting t placed kept ∙ ap suc (sym (occurrences-cons t tag before ∙ rw other refl))
        ])
      ]
    where
      both : (a b : Bool) → a ≡ true → b ≡ false → (a && not b) ≡ false → ⊥
      both a b h i j = ground arith

  pub frame_for-IsCounting :
      (tag : String) (path : Option String) (start : ℕ) → IsCounting (frame_for tag path start) []
  unfolding get
  frame_for-IsCounting tag path start t placed kept = refl

  path_cases :
      (own : String) (path : Option String) (start : ℕ) (counts : Dict ℕ) (before : List String)
      (tag : String)
      → IsCounting
          (record { tag = own; path = path; start_byte = start; child_counts = counts })
          before
      → child_path_of root_is_file_unit skipped_names xml_bytes
          (record { tag = own; path = path; start_byte = start; child_counts = counts })
          tag
        ≡ path_in path before tag
  path_cases own none start counts before tag counting = refl
  path_cases own (some path) start counts before tag counting =
      elim (Bool-cases (any (str_eq tag) skipped_names)) [
        | inl skips ↦ rw skips refl
        | inr kept ↦ rw kept (ap (λ (n : ℕ). some (child_path path tag n)) (counting tag refl kept))
      ]

  path_in_lem :
      (parent : Frame) (before : List String) (tag : String)
      → IsCounting parent before
      → child_path_of root_is_file_unit skipped_names xml_bytes parent tag
        ≡ path_in parent.path before tag
  path_in_lem parent before tag counting =
      path_cases parent.tag parent.path parent.start_byte parent.child_counts before tag counting

  place_next :
      (m : Markup) (parent : Frame) (spans : Dict SourceSpan)
      → (place root_is_file_unit skipped_names xml_bytes m parent spans).0
        ≡ next_parent root_is_file_unit skipped_names xml_bytes parent (name_of m)
  unfolding place
  place_next (markup name start children end) parent spans = refl

  mutual
    unfolding place listed

    place_lem :
        (m : Markup) (parent : Frame) (before : List String) (spans : Dict SourceSpan)
        → IsCounting parent before
        → (place root_is_file_unit skipped_names xml_bytes m parent spans).1
          ≡ listed m parent.path before spans
    place_lem (markup name start children end) parent before spans counting =
        let tag = prefixed_name_from_expat name in
        ap
          (λ (p : Option String).
            record_span root_is_file_unit skipped_names xml_bytes p start end
              (place_all root_is_file_unit skipped_names xml_bytes children (frame_for tag p start)
                spans).1)
          (path_in_lem parent before tag counting)
        ∙ ap
            (λ (d : Dict SourceSpan).
              record_span root_is_file_unit skipped_names xml_bytes (path_in parent.path before tag)
                start end d)
            (place_all_lem children (frame_for tag (path_in parent.path before tag) start) [] spans
              (frame_for-IsCounting tag (path_in parent.path before tag) start))

    pub place_all_lem :
        (ms : Markups) (parent : Frame) (before : List String) (spans : Dict SourceSpan)
        → IsCounting parent before
        → (place_all root_is_file_unit skipped_names xml_bytes ms parent spans).1
          ≡ listed_all ms parent.path before spans
    place_all_lem no_markup parent before spans counting = refl
    place_all_lem (next_markup m ms) parent before spans counting =
        let tag = name_of m in
        let placed = (place root_is_file_unit skipped_names xml_bytes m parent spans).1 in
        ap (λ (p : Frame). (place_all root_is_file_unit skipped_names xml_bytes ms p placed).1)
          (place_next m parent spans)
        ∙ place_all_lem ms (next_parent root_is_file_unit skipped_names xml_bytes parent tag)
            (tag ∷ before) placed (next_parent-IsCounting parent tag before counting)
        ∙ ap (λ (p : Option String). listed_all ms p (tag ∷ before) placed)
            (next_parent-keeps root_is_file_unit skipped_names xml_bytes parent tag).0
        ∙ ap (λ (d : Dict SourceSpan). listed_all ms parent.path (tag ∷ before) d)
            (place_lem m parent before spans counting)

  -- Below an element without a path nothing has one.
  mutual
    unfolding listed record_span

    listed-none :
        (m : Markup) (before : List String) (spans : Dict SourceSpan)
        → listed m none before spans ≡ spans
    listed-none (markup name start children end) before spans = listed_all-none children [] spans

    pub listed_all-none :
        (ms : Markups) (before : List String) (spans : Dict SourceSpan)
        → listed_all ms none before spans ≡ spans
    listed_all-none no_markup before spans = refl
    listed_all-none (next_markup m ms) before spans =
        listed_all-none ms (name_of m ∷ before) (listed m none before spans)
        ∙ listed-none m before spans
