-- ===== src/Srcdiff/Builder/Kinds.antt =====
-- The spans of the tree that build_tree_node (srcdiffvisual/annotated_srcdiff/tree_builder.py) gives.
use src_visual.Common.{
  ◌∷◌, List, eq_iff, get_or, ℕ, ℤ, ◌≡◌, refl, ap, sym, subst, String, Bool, true, false, not, ◌&&◌,
  ◌||◌, Option, none, some, [], is_some, str_eq, if◌then◌else◌, Unicode, arith, inl, inr,
  Bool-cases,
}
use src_visual.Common.Dict.{Dict, put}
use src_visual.Srcdiff.Elements.{
  Element, element, Elements, no_element, child, tag_of, prefixed_name, is_skipped, count_of,
  child_path,
}
use src_visual.Srcdiff.Positions.{SourceSpan}
use src_visual.Srcdiff.Attributes.{AllAttributes, parse_all_attributes, asserting, and_then}
use src_visual.Srcdiff.Tree.{PositionSpan, get_current_diff_kind, Spans}
use src_visual.Srcdiff.Builder.Hulls.{IsHull, merge_spans-IsHull}
use src_visual.Srcdiff.Builder.{
  merges_1, or_merged, parse_position_spans, merge_child_spans, merges_0, merge_spans, spans_for,
  NodeData, TreeNode, tree_node, TreeNodes, no_node, node, child_spans, is_filled_spans,
  has_expected_spans, finish_node, own_spans, build_tree_node, build_children,
}

-- Some child has a span in the revision.
abbrev pub has_child_span : (NodeData → Option PositionSpan) → TreeNodes → Bool
has_child_span key nodes = is_filled_spans (child_spans key nodes)

-- A deleted node has no span in the new revision and an inserted one none in the old; any other node
-- has a span in each revision in which a child has one.
abbrev pub fits_kind : String → Bool → Bool → Bool → Bool → Bool
fits_kind tag has_0 has_1 child_0 child_1 =
    if str_eq tag "diff:delete"
    then not has_1
    else if str_eq tag "diff:insert"
    then not has_0
    else (not child_0 || has_0) && (not child_1 || has_1)

-- A node's span in a revision: its own if it has one, else the hull of its children's if it takes
-- theirs and there are any, else none.
abbrev pub IsSpanFor : Bool → Option PositionSpan → List PositionSpan → Option PositionSpan → Type 0
IsSpanFor takes (some own) spans result = result ≡ some own
IsSpanFor false none spans result = result ≡ none
IsSpanFor true none [] result = result ≡ none
IsSpanFor true none (s ∷ spans) result =
    (t : PositionSpan) × (result ≡ some t) × IsHull (s ∷ spans) t

and_then-some :
    {A B : Type 0} (o : Option A) (f : A → Option B) (b : B)
    → and_then o f ≡ some b
    → (a : A) × (o ≡ some a) × (f a ≡ some b)
and_then-some none f b h = absurd (ground (arith, h))
and_then-some (some a) f b h = (a, refl, h)

three_steps :
    {A B C D : Type 0} (a : Option A) (b : Option B) (c : Option C) (f : A → B → C → Option D)
    (d : D)
    → and_then a (λ x. and_then b (λ y. and_then c (λ z. f x y z))) ≡ some d
    → (x : A) × (y : B) × (z : C) × (a ≡ some x) × (b ≡ some y) × (c ≡ some z) × (f x y z ≡ some d)
three_steps none b c f d h = absurd (ground (arith, h))
three_steps (some x) none c f d h = absurd (ground (arith, h))
three_steps (some x) (some y) none f d h = absurd (ground (arith, h))
three_steps (some x) (some y) (some z) f d h = (x, y, z, refl, refl, refl, h)

asserting-some :
    {A : Type 0} (c : Bool) (a b : A) → asserting c (some a) ≡ some b → (c ≡ true) × (a ≡ b)
asserting-some true a b h = (refl, ap (λ o. get_or o a) h)
asserting-some false a b h = absurd (ground (arith, h))

-- Every node of the tree fits its kind, and has the spans of the element that it was built from, or
-- those of its children; a deletion takes none of the new revision, an insertion none of the old.
module _ (u : Unicode) (parse_int : String → Option ℤ) where
  mutual
    pub data IsSpanned : TreeNode → Type 0 where
      is_spanned :
          {d : NodeData} {children : TreeNodes} (e : Element) (own : Spans)
          → prefixed_name (tag_of e) ≡ d.tag
          → parse_all_attributes u e ≡ some d.srcdiff_attributes
          → spans_for (get_current_diff_kind d.tag) (parse_position_spans parse_int e) ≡ some own
          → IsSpanFor
              (not (str_eq d.tag "diff:insert"))
              own.0
              (child_spans (λ c. c.revision_0_span) children)
              d.revision_0_span
          → IsSpanFor
              (not (str_eq d.tag "diff:delete"))
              own.1
              (child_spans (λ c. c.revision_1_span) children)
              d.revision_1_span
          → fits_kind d.tag
              (is_some d.revision_0_span)
              (is_some d.revision_1_span)
              (has_child_span (λ c. c.revision_0_span) children)
              (has_child_span (λ c. c.revision_1_span) children)
            ≡ true
          → AreSpanned children
          → IsSpanned (tree_node d children)

    pub data AreSpanned : TreeNodes → Type 0 where
      none_spanned : AreSpanned no_node
      one_spanned :
          {n : TreeNode} {nodes : TreeNodes}
          → IsSpanned n
          → AreSpanned nodes
          → AreSpanned (node n nodes)

  joined-AreSpanned :
      (skips : Bool) (built : Option TreeNode) (later : Option TreeNodes) (nodes : TreeNodes)
      → ((t : TreeNode) → built ≡ some t → IsSpanned t)
      → ((ns : TreeNodes) → later ≡ some ns → AreSpanned ns)
      → (if skips then later else and_then built (λ b. and_then later (λ ns. some (node b ns))))
        ≡ some nodes
      → AreSpanned nodes
  joined-AreSpanned true built later nodes f g h = g nodes h
  joined-AreSpanned false built later nodes f g h =
      let (b, at_b, h₁) = and_then-some built _ nodes h in
      let (ns, at_ns, h₂) = and_then-some later _ nodes h₁ in
      subst AreSpanned (ap (λ o. get_or o no_node) h₂) (one_spanned (f b at_b) (g ns at_ns))

expected-fits_kind :
    (tag : String) (span_0 span_1 : Option PositionSpan) (nodes : TreeNodes)
    → has_expected_spans (get_current_diff_kind tag) (span_0, span_1) nodes ≡ true
    → fits_kind tag
        (is_some span_0)
        (is_some span_1)
        (has_child_span (λ c. c.revision_0_span) nodes)
        (has_child_span (λ c. c.revision_1_span) nodes)
      ≡ true
unfolding has_expected_spans
expected-fits_kind tag span_0 span_1 nodes = elim (Bool-cases (str_eq tag "diff:common")) [
  | inl is_common ↦
      subst
        (λ (t : String).
          has_expected_spans (get_current_diff_kind t) (span_0, span_1) nodes ≡ true
          → fits_kind t (is_some span_0) (is_some span_1)
              (has_child_span (λ c. c.revision_0_span) nodes)
              (has_child_span (λ c. c.revision_1_span) nodes)
            ≡ true)
        (sym ((eq_iff tag "diff:common").0 is_common)) (λ h. ground (arith, h))
  | inr other ↦ elim (Bool-cases (str_eq tag "diff:delete")) [
    | inl is_delete ↦ rw (other, is_delete) (λ h. ground (arith, h))
    | inr other_still ↦ elim (Bool-cases (str_eq tag "diff:insert")) [
      | inl is_insert ↦ rw (other, other_still, is_insert) (λ h. ground (arith, h))
      | inr plain ↦ rw (other, other_still, plain) (λ h. ground (arith, h))
    ]
  ]
]

span_for :
    (takes : Bool) (own : Option PositionSpan) (spans : List PositionSpan)
    → IsSpanFor takes own spans (or_merged takes own (merge_spans spans))
unfolding merge_spans
span_for takes (some s) spans = refl
span_for false none spans = refl
span_for true none [] = refl
span_for true none (s ∷ spans) = merge_spans-IsHull s spans

-- Which spans a node takes from its children depends on its tag alone.
abbrev Takes : String → Type 0
Takes tag =
    (merges_0 (get_current_diff_kind tag) ≡ not (str_eq tag "diff:insert"))
    × (merges_1 (get_current_diff_kind tag) ≡ not (str_eq tag "diff:delete"))

takes_lem : (tag : String) → Takes tag
takes_lem tag = elim (Bool-cases (str_eq tag "diff:common")) [
  | inl is_common ↦ at (sym ((eq_iff tag "diff:common").0 is_common)) (refl, refl)
  | inr other ↦ elim (Bool-cases (str_eq tag "diff:delete")) [
    | inl is_delete ↦ at (sym ((eq_iff tag "diff:delete").0 is_delete)) (refl, refl)
    | inr other_still ↦ elim (Bool-cases (str_eq tag "diff:insert")) [
      | inl is_insert ↦ at (sym ((eq_iff tag "diff:insert").0 is_insert)) (refl, refl)
      | inr plain ↦ rw (other, other_still, plain) (refl, refl)
    ]
  ]
]
  where
    at : {s t : String} → s ≡ t → Takes s → Takes t
    at e h = subst Takes e h

module _ (u : Unicode) (parse_int : String → Option ℤ) (xml_span_by_path : Dict SourceSpan)
    (include_skipped_tags : Bool) where
  finish_node-IsSpanned :
      (e : Element) (path : String) (attributes : AllAttributes) (own : Spans) (nodes : TreeNodes)
      (t : TreeNode)
      → parse_all_attributes u e ≡ some attributes
      → own_spans u parse_int xml_span_by_path include_skipped_tags e ≡ some own
      → AreSpanned u parse_int nodes
      → finish_node u parse_int xml_span_by_path include_skipped_tags e path attributes own nodes
        ≡ some t
      → IsSpanned u parse_int t
  unfolding finish_node merge_child_spans
  finish_node-IsSpanned e path attributes (own_0, own_1) nodes t parsed owned spanned h =
      let (fits, same) = asserting-some _ _ t h in
      let tag = prefixed_name (tag_of e) in
      let (takes_0, takes_1) = takes_lem tag in
      let spans_0 = child_spans (λ c. c.revision_0_span) nodes in
      let spans_1 = child_spans (λ c. c.revision_1_span) nodes in
      subst (IsSpanned u parse_int) same (
        is_spanned e (own_0, own_1) refl parsed owned
          (subst
            (λ (b : Bool).
              IsSpanFor b own_0 spans_0
                (or_merged (merges_0 (get_current_diff_kind tag)) own_0 (merge_spans spans_0)))
            takes_0 (span_for (merges_0 (get_current_diff_kind tag)) own_0 spans_0))
          (subst
            (λ (b : Bool).
              IsSpanFor b own_1 spans_1
                (or_merged (merges_1 (get_current_diff_kind tag)) own_1 (merge_spans spans_1)))
            takes_1 (span_for (merges_1 (get_current_diff_kind tag)) own_1 spans_1))
          (expected-fits_kind tag _ _ nodes fits) spanned)

  mutual
    unfolding build_tree_node

    build_tree_node-spans :
        (e : Element) (path : String) (t : TreeNode)
        → build_tree_node u parse_int xml_span_by_path include_skipped_tags e path ≡ some t
        → IsSpanned u parse_int t
    build_tree_node-spans (element tag attributes text children) path t h =
        let e = element tag attributes text children in
        let (attrs, own, nodes, parsed, owned, built, made) =
          three_steps (parse_all_attributes u e)
            (own_spans u parse_int xml_span_by_path include_skipped_tags e)
            (build_children u parse_int xml_span_by_path include_skipped_tags children path [])
            (finish_node u parse_int xml_span_by_path include_skipped_tags e path) t h in
        finish_node-IsSpanned e path attrs own nodes t parsed owned
          (build_children-spans children path [] nodes built) made

    build_children-spans :
        (es : Elements) (path : String) (counts : Dict ℕ) (nodes : TreeNodes)
        → build_children u parse_int xml_span_by_path include_skipped_tags es path counts
          ≡ some nodes
        → AreSpanned u parse_int nodes
    build_children-spans no_element path counts nodes h =
        subst (AreSpanned u parse_int) (ap (λ o. get_or o no_node) h) none_spanned
    build_children-spans (child e tail rest) path counts nodes h =
        let skips = not include_skipped_tags && is_skipped (tag_of e) in
        let name = prefixed_name (tag_of e) in
        let n = count_of name counts in
        joined-AreSpanned u parse_int skips _ _ nodes
          (λ t. build_tree_node-spans e (child_path path name n) t)
          (λ ns. build_children-spans rest path (if skips then counts else put name n counts) ns) h

-- The tree that `build_tree_node` gives, where no assertion fails. At every node the span of each
-- revision is the one of the element that the node was built from, if the element has one; else it is
-- the least span that encloses those of the node's children in that revision, if there are any, unless
-- the node is a deletion and the revision the new one, or an insertion and the old one; else there is
-- none. A deletion has no span in the new revision, an insertion none in the old one, and any other
-- node has a span in each revision in which one of its children has one.
pub build_tree_node-IsSpanned :
    (u : Unicode) (parse_int : String → Option ℤ) (xml_span_by_path : Dict SourceSpan)
    (include_skipped_tags : Bool) (e : Element) (path : String) (t : TreeNode)
    → build_tree_node u parse_int xml_span_by_path include_skipped_tags e path ≡ some t
    → IsSpanned u parse_int t
build_tree_node-IsSpanned u parse_int xml_span_by_path include_skipped_tags e path t =
    build_tree_node-spans u parse_int xml_span_by_path include_skipped_tags e path t
