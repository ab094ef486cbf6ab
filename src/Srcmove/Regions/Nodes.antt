-- ===== src/Srcmove/Regions/Nodes.antt =====
-- The regions of srcdiffvisual/srcmove/move_regions.py are the nodes with a move id of the tree that
-- srcdiffvisual/annotated_srcdiff/tree_builder.py builds.
use mathlib.Core.List.{append-nil, append_assoc}
use src_visual.Common.{
  ℕ, ℤ, String, ◌≡◌, refl, sym, ap, ◌∙◌, Bool, true, false, not, ◌&&◌, Option, none, some, [], ◌∷◌,
  ◌++◌, if◌then◌else◌, Unicode, arith,
}
use src_visual.Common.Dict.{Dict, get, contains, put}
use src_visual.Srcdiff.Elements.{
  Element, attributes_of, element, Elements, no_element, child, tag_of, prefixed_name, is_skipped,
  count_of, child_path,
}
use src_visual.Srcdiff.Positions.{SourceSpan}
use src_visual.Srcdiff.Attributes.{
  MoveAttributes, AllAttributes, parse_all_attributes, parse_move_attributes, asserting, and_then,
  PositionAttributes, UnitAttributes, DiffAttributes, knows_attributes, position_attributes,
  pos_start, pos_end, parse_unit_attributes, parse_diff_attributes,
}
use src_visual.Srcdiff.Tree.{Spans}
use src_visual.Srcdiff.Builder.{
  TreeNode, tree_node, TreeNodes, no_node, node, move_id_of, finish_node, own_spans,
  build_tree_node, build_children,
}
use src_visual.Srcmove.Checked.{
  Checked, fine, ◌>>=◌, present, >>=-fine, asserted-fine, fine-injective, present-fine,
}
use src_visual.Srcmove.Paths.{normalize_srcmove_xpath_tuple}
use src_visual.Srcmove.Regions.{
  XmlMoveRegion, add_region, collect_xml_move_regions_from_element, collect_from_children,
}

abbrev pub here : String → Option String → Dict String
here path none = []
here path (some i) = (path, i) ∷ []

-- The paths and the move ids of the nodes that have one, in the order of the document.
abbrev mutual
  pub moves_of : TreeNode → Dict String
  moves_of (tree_node d nodes) = here d.path d.move_id ++ moves_in nodes

  pub moves_in : TreeNodes → Dict String
  moves_in no_node = []
  moves_in (node t nodes) = moves_of t ++ moves_in nodes

-- The paths and the move ids of the regions, in the order in which they were collected.
abbrev pub ids_of : Dict XmlMoveRegion → Dict String
ids_of [] = []
ids_of ((path, region) ∷ regions) = (path, region.move_id) ∷ ids_of regions

ids_of-put :
    (path : String) (r : XmlMoveRegion) (regions : Dict XmlMoveRegion)
    → contains path regions ≡ false
    → ids_of (put path r regions) ≡ ids_of regions ++ (path, r.move_id) ∷ []
unfolding put contains
ids_of-put path r [] h = refl
ids_of-put path r ((j, q) ∷ regions) h = ground (arith, ids_of-put path r regions)

and_then-some :
    {A B : Type 0} (o : Option A) (f : A → Option B) {b : B}
    → and_then o f ≡ some b
    → (a : A) × (o ≡ some a) × (f a ≡ some b)
and_then-some none f h = cc
and_then-some (some a) f h = (a, refl, h)

asserting-some :
    {A : Type 0} (c : Bool) (o : Option A) {b : A} → asserting c o ≡ some b → o ≡ some b
asserting-some true o h = h
asserting-some false o h = cc

some-injective : {A : Type 0} {a b : A} → some a ≡ some b → a ≡ b
some-injective h = cc

not-true : (b : Bool) → not b ≡ true → b ≡ false
not-true b h = ground arith

move_parsed :
    (c : Bool) (position : Option (Option PositionAttributes))
    (move : Option (Option MoveAttributes)) (unit : Option UnitAttributes)
    (diff : Option DiffAttributes) {parsed : AllAttributes}
    → asserting c (
        and_then position (λ p.
          and_then move (λ m. some (record { position = p; move = m; unit = unit; diff = diff }))))
      ≡ some parsed
    → move ≡ some parsed.move
move_parsed false position move unit diff h = cc
move_parsed true none move unit diff h = cc
move_parsed true (some p) none unit diff h = cc
move_parsed true (some p) (some m) unit diff h =
    ap (λ (a : AllAttributes). some a.move) (some-injective h)

parse_all_attributes-move :
    (u : Unicode) (e : Element) (parsed : AllAttributes)
    → parse_all_attributes u e ≡ some parsed
    → parse_move_attributes u e ≡ some parsed.move
unfolding parse_all_attributes
parse_all_attributes-move u e parsed h =
    move_parsed (knows_attributes e)
      (position_attributes (get pos_start (attributes_of e)) (get pos_end (attributes_of e)))
      (parse_move_attributes u e) (parse_unit_attributes e) (parse_diff_attributes e) h

-- One child, skipped or not, and the children after it.
child_ids :
    (skips : Bool) (built : Option TreeNode) (later : Option TreeNodes)
    (collected : Checked (Dict XmlMoveRegion))
    (next : Dict XmlMoveRegion → Checked (Dict XmlMoveRegion))
    (regions regions' : Dict XmlMoveRegion) (nodes : TreeNodes)
    → ((mid : Dict XmlMoveRegion) (t : TreeNode)
        → collected ≡ fine mid
        → built ≡ some t
        → ids_of mid ≡ ids_of regions ++ moves_of t)
    → ((mid : Dict XmlMoveRegion) (ns : TreeNodes)
        → next mid ≡ fine regions'
        → later ≡ some ns
        → ids_of regions' ≡ ids_of mid ++ moves_in ns)
    → ((if skips then fine regions else collected) >>= next) ≡ fine regions'
    → (if skips then later else and_then built (λ b. and_then later (λ ns. some (node b ns))))
      ≡ some nodes
    → ids_of regions' ≡ ids_of regions ++ moves_in nodes
child_ids true built later collected next regions regions' nodes f g h k = g regions nodes h k
child_ids false built later collected next regions regions' nodes f g h k =
    let (mid, at_mid, h1) = >>=-fine collected next h in
    let (t, at_t, k1) = and_then-some built (λ b. and_then later (λ ns. some (node b ns))) k in
    let (ns, at_ns, k2) = and_then-some later (λ ns. some (node t ns)) k1 in
    g mid ns h1 at_ns
    ∙ ap (λ (ids : Dict String). ids ++ moves_in ns) (f mid t at_mid at_t)
    ∙ append_assoc (ids_of regions) (moves_of t) (moves_in ns)
    ∙ ap (λ (ms : TreeNodes). ids_of regions ++ moves_in ms) (some-injective k2)

module _ (u : Unicode) (parse_int : String → Option ℤ) (xml_span_by_path : Dict SourceSpan)
    (include_skipped_tags : Bool) (index : Dict ℕ) where
  add_region-ids :
      (e : Element) (path : String) (move : Option MoveAttributes)
      (regions regions' : Dict XmlMoveRegion)
      → add_region u include_skipped_tags index e path move regions ≡ fine regions'
      → ids_of regions' ≡ ids_of regions ++ here path (move_id_of move)
  unfolding add_region
  add_region-ids e path none regions regions' h =
      ap ids_of (sym (fine-injective h)) ∙ sym (append-nil (ids_of regions))
  add_region-ids e path (some move) regions regions' h =
      let (fresh, h1) = asserted-fine (not (contains path regions)) _ h in
      let (from_paths, _, h2) =
        >>=-fine (normalize_srcmove_xpath_tuple index move.from_paths) _ h1 in
      let (to_paths, _, h3) = >>=-fine (normalize_srcmove_xpath_tuple index move.to_paths) _ h2 in
      ap ids_of (sym (fine-injective h3)) ∙ ids_of-put path _ regions (not-true _ fresh)

  finish_node-data :
      (e : Element) (path : String) (parsed : AllAttributes) (own : Spans) (nodes : TreeNodes)
      (t : TreeNode)
      → finish_node u parse_int xml_span_by_path include_skipped_tags e path parsed own nodes
        ≡ some t
      → moves_of t ≡ here path (move_id_of parsed.move) ++ moves_in nodes
  unfolding finish_node
  finish_node-data e path parsed own nodes t h =
      ap moves_of (sym (some-injective (asserting-some _ _ h)))

  mutual
    unfolding build_tree_node collect_xml_move_regions_from_element

    region_ids :
        (e : Element) (path : String) (regions regions' : Dict XmlMoveRegion) (t : TreeNode)
        → collect_xml_move_regions_from_element u include_skipped_tags index e path regions
          ≡ fine regions'
        → build_tree_node u parse_int xml_span_by_path include_skipped_tags e path ≡ some t
        → ids_of regions' ≡ ids_of regions ++ moves_of t
    region_ids (element tag attributes text children) path regions regions' t h k =
        let e = element tag attributes text children in
        let (parsed, at_parsed, k1) = and_then-some (parse_all_attributes u e) _ k in
        let (own, _, k2) =
          and_then-some (own_spans u parse_int xml_span_by_path include_skipped_tags e) _ k1 in
        let (nodes, at_nodes, k3) =
          and_then-some
            (build_children u parse_int xml_span_by_path include_skipped_tags children path []) _
            k2 in
        let (move, at_move, h1) = >>=-fine (present _ (parse_move_attributes u e)) _ h in
        let (added, at_added, h2) =
          >>=-fine (add_region u include_skipped_tags index e path move regions) _ h1 in
        let same_move = some-injective (
          sym (present-fine _ (parse_move_attributes u e) at_move)
          ∙ parse_all_attributes-move u e parsed at_parsed) in
        children_ids children path [] added regions' nodes h2 at_nodes
        ∙ ap (λ (ids : Dict String). ids ++ moves_in nodes)
            (add_region-ids e path move regions added at_added)
        ∙ append_assoc (ids_of regions) (here path (move_id_of move)) (moves_in nodes)
        ∙ ap
            (λ (m : Option MoveAttributes).
              ids_of regions ++ (here path (move_id_of m) ++ moves_in nodes))
            same_move
        ∙ ap (λ (ids : Dict String). ids_of regions ++ ids)
            (sym (finish_node-data e path parsed own nodes t k3))

    children_ids :
        (es : Elements) (path : String) (counts : Dict ℕ) (regions regions' : Dict XmlMoveRegion)
        (nodes : TreeNodes)
        → collect_from_children u include_skipped_tags index es path counts regions ≡ fine regions'
        → build_children u parse_int xml_span_by_path include_skipped_tags es path counts
          ≡ some nodes
        → ids_of regions' ≡ ids_of regions ++ moves_in nodes
    children_ids no_element path counts regions regions' nodes h k =
        ap ids_of (sym (fine-injective h))
        ∙ sym (append-nil (ids_of regions))
        ∙ ap (λ (ns : TreeNodes). ids_of regions ++ moves_in ns) (some-injective k)
    children_ids (child e tail rest) path counts regions regions' nodes h k =
        let skips = not include_skipped_tags && is_skipped (tag_of e) in
        let name = prefixed_name (tag_of e) in
        let n = count_of name counts in
        let counts' = if skips then counts else put name n counts in
        child_ids skips
          (build_tree_node u parse_int xml_span_by_path include_skipped_tags e
            (child_path path name n))
          (build_children u parse_int xml_span_by_path include_skipped_tags rest path counts')
          (collect_xml_move_regions_from_element u include_skipped_tags index e
            (child_path path name n) regions)
          (collect_from_children u include_skipped_tags index rest path counts') regions regions'
          nodes
          (λ mid t at_mid at_t. region_ids e (child_path path name n) regions mid t at_mid at_t)
          (λ mid ns at_rest at_ns. children_ids rest path counts' mid regions' ns at_rest at_ns) h k

-- Where neither function's assertions fail on an element, the regions that are collected from it are,
-- in the order of the document, exactly the nodes of its tree that have a move id, with the paths and
-- the ids that the tree gives them, after the regions that there were.
pub regions-moves_of :
    (u : Unicode) (parse_int : String → Option ℤ) (xml_span_by_path : Dict SourceSpan)
    (include_skipped_tags : Bool) (index : Dict ℕ) (e : Element) (path : String)
    (regions regions' : Dict XmlMoveRegion) (t : TreeNode)
    → collect_xml_move_regions_from_element u include_skipped_tags index e path regions
      ≡ fine regions'
    → build_tree_node u parse_int xml_span_by_path include_skipped_tags e path ≡ some t
    → ids_of regions' ≡ ids_of regions ++ moves_of t
regions-moves_of u parse_int xml_span_by_path include_skipped_tags index e path regions regions' t =
    region_ids u parse_int xml_span_by_path include_skipped_tags index e path regions regions' t
