-- ===== src/Srcmove/Enrichment/Sides.antt =====
-- The paths of each move are those of its regions, side by side.
use mathlib.Core.List.{append-nil, append_assoc}
use src_visual.Common.{
  String, ◌≡◌, refl, sym, ap, ◌∙◌, Bool, true, false, ◌&&◌, Option, some, List, [], ◌∷◌, ◌++◌,
  str_eq, get_or, if◌then◌else◌, eq_iff,
}
use src_visual.Common.Dict.{Dict, get, put, get-put}
use src_visual.Srcmove.Checked.{Checked, fine, >>=-fine, fine-injective}
use src_visual.Srcmove.Regions.{
  XmlMoveRegion, Side, from_side, to_side, classify_xml_move_region_side,
}
use src_visual.Srcmove.Enrichment.{
  RegionPaths, no_paths, add_path, group_regions, sorted_regions, build_move_region_paths_by_id,
}

abbrev pub is_on : Side → Checked Side → Bool
is_on from_side (fine from_side) = true
is_on to_side (fine to_side) = true
is_on _ _ = false

-- The paths of the regions of the move `i` that are on the side.
abbrev pub paths_on : Side → String → Dict XmlMoveRegion → List String
paths_on side i [] = []
paths_on side i ((path, region) ∷ regions) =
    if str_eq i region.move_id && is_on side (classify_xml_move_region_side region)
    then path ∷ paths_on side i regions
    else paths_on side i regions

abbrev pub paths_at : String → Dict RegionPaths → RegionPaths
paths_at i grouped = get_or (get i grouped) no_paths

abbrev joined : RegionPaths → List String → List String → RegionPaths
joined p from_paths to_paths = record {
  from_node_ids = p.from_node_ids ++ from_paths;
  to_node_ids = p.to_node_ids ++ to_paths;
}

by_value :
    (same : Bool) (side : Side) (p q : RegionPaths) (path : String) (fs ts : List String)
    → (same ≡ true → q ≡ p)
    → joined (if same then add_path side path q else p) fs ts
      ≡ joined p
          (if same && is_on from_side (fine side) then path ∷ fs else fs)
          (if same && is_on to_side (fine side) then path ∷ ts else ts)
by_value true from_side p q path fs ts h =
    ap (λ (r : RegionPaths). joined (add_path from_side path r) fs ts) (h refl)
    ∙ ap (λ (l : List String). record { from_node_ids = l; to_node_ids = p.to_node_ids ++ ts })
        (append_assoc p.from_node_ids (path ∷ []) fs)
by_value true to_side p q path fs ts h =
    ap (λ (r : RegionPaths). joined (add_path to_side path r) fs ts) (h refl)
    ∙ ap (λ (l : List String). record { from_node_ids = p.from_node_ids ++ fs; to_node_ids = l })
        (append_assoc p.to_node_ids (path ∷ []) ts)
by_value false side p q path fs ts h = refl

paths_at-put :
    (i k : String) (p : RegionPaths) (grouped : Dict RegionPaths)
    → paths_at i (put k p grouped) ≡ (if str_eq i k then p else paths_at i grouped)
paths_at-put i k p grouped =
    ap (λ (o : Option RegionPaths). get_or o no_paths) (get-put i k p grouped) ∙ split (str_eq i k)
  where
    split :
        (b : Bool)
        → get_or (if b then some p else get i grouped) no_paths
          ≡ (if b then p else paths_at i grouped)
    split true = refl
    split false = refl

-- One region, seen from the move `i`.
step :
    (i : String) (path : String) (region : XmlMoveRegion) (side : Side) (grouped : Dict RegionPaths)
    (regions : Dict XmlMoveRegion)
    → classify_xml_move_region_side region ≡ fine side
    → joined
        (paths_at i
          (put region.move_id (add_path side path (paths_at region.move_id grouped)) grouped))
        (paths_on from_side i regions)
        (paths_on to_side i regions)
      ≡ joined
          (paths_at i grouped)
          (paths_on from_side i ((path, region) ∷ regions))
          (paths_on to_side i ((path, region) ∷ regions))
step i path region side grouped regions at =
    ap (λ (p : RegionPaths). joined p (paths_on from_side i regions) (paths_on to_side i regions))
      (paths_at-put i region.move_id _ grouped)
    ∙ by_value (str_eq i region.move_id) side (paths_at i grouped) (paths_at region.move_id grouped)
        path (paths_on from_side i regions) (paths_on to_side i regions)
        (λ same. ap (λ (k : String). paths_at k grouped) (sym ((eq_iff i region.move_id).0 same)))
    ∙ ap
        (λ (c : Checked Side).
          joined (paths_at i grouped)
            (if str_eq i region.move_id && is_on from_side c
              then path ∷ paths_on from_side i regions
              else paths_on from_side i regions)
            (if str_eq i region.move_id && is_on to_side c
              then path ∷ paths_on to_side i regions
              else paths_on to_side i regions))
        (sym at)

group_regions_lem :
    (i : String) (regions : Dict XmlMoveRegion) (grouped result : Dict RegionPaths)
    → group_regions regions grouped ≡ fine result
    → paths_at i result
      ≡ joined (paths_at i grouped) (paths_on from_side i regions) (paths_on to_side i regions)
unfolding group_regions
group_regions_lem i [] grouped result h =
    ap (paths_at i) (sym (fine-injective h)) ∙ sym (nothing_joined (paths_at i grouped))
  where
    nothing_joined : (p : RegionPaths) → joined p [] [] ≡ p
    nothing_joined p =
        ap (λ (l : List String). record { from_node_ids = l; to_node_ids = p.to_node_ids ++ [] })
          (append-nil p.from_node_ids)
        ∙ ap (λ (l : List String). record { from_node_ids = p.from_node_ids; to_node_ids = l })
            (append-nil p.to_node_ids)
group_regions_lem i ((path, region) ∷ regions) grouped result h =
    let (side, at, h1) = >>=-fine (classify_xml_move_region_side region) _ h in
    group_regions_lem i regions _ result h1 ∙ step i path region side grouped regions at

-- If every region has a side, the lists of any move id are the paths of the regions with that id that
-- are sources, and of those that are targets, each in the order of the sorted regions; a move without
-- regions has empty lists.
pub build_move_region_paths_by_id_lem :
    (regions : Dict XmlMoveRegion) (result : Dict RegionPaths) (i : String)
    → build_move_region_paths_by_id regions ≡ fine result
    → paths_at i result ≡ record {
      from_node_ids = paths_on from_side i (sorted_regions regions);
      to_node_ids = paths_on to_side i (sorted_regions regions);
    }
unfolding build_move_region_paths_by_id get
build_move_region_paths_by_id_lem regions result i h =
    group_regions_lem i (sorted_regions regions) [] result h
