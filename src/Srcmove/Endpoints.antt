-- ===== src/Srcmove/Endpoints.antt =====
-- srcdiffvisual/srcmove/validate_results.py: the check of one move of the results against the
-- regions of the annotated XML.
pub mod Matching
use src_visual.Common.{
  String, Bool, true, false, ◌&&◌, List, [], ◌∷◌, all, any, str_eq, if◌then◌else◌,
}
use src_visual.Common.Dict.{Dict, get}
use src_visual.Srcmove.Checked.{
  Checked, fine, faulty, assertion_error, key_error, ◌>>=◌, ◌>>◌, asserted, present,
}
use src_visual.Srcmove.Regions.{
  XmlMoveRegion, Side, from_side, to_side, classify_xml_move_region_side,
}
use src_visual.Srcmove.Results.{SrcMoveResultMove}

-- `set(xs) == set(ys)`
abbrev pub same_set : List String → List String → Bool
same_set xs ys = all (λ x. any (str_eq x) ys) xs && all (λ y. any (str_eq y) xs) ys

abbrev pub is_side : Side → Side → Bool
is_side from_side from_side = true
is_side from_side to_side = false
is_side to_side from_side = false
is_side to_side to_side = true

-- The paths of a region on the other side of its move.
abbrev pub partners : Side → XmlMoveRegion → List String
partners from_side region = region.to_paths
partners to_side region = region.from_paths

module _ (regions : Dict XmlMoveRegion) where
  -- The bodies of the first two loops, the side being `side`, the other endpoints `others`.
  unfoldable pub check_endpoint : Side → String → List String → String → Checked (Unit {0})
  check_endpoint side id others xpath = do
    region ← present assertion_error (get xpath regions)
    asserted (str_eq region.move_id id)
    found ← classify_xml_move_region_side region
    asserted (is_side found side)
    asserted (same_set (partners side region) others)

  unfoldable pub check_endpoints : Side → String → List String → List String → Checked (Unit {0})
  unfolding check_endpoint
  check_endpoints side id others [] = fine tt
  check_endpoints side id others (xpath ∷ xpaths) =
      check_endpoint side id others xpath >> check_endpoints side id others xpaths

  -- The last two loops, over `zip(xpaths, raw_texts)`.
  unfoldable pub check_texts : List String → List String → Checked (Unit {0})
  check_texts [] texts = fine tt
  check_texts (xpath ∷ xpaths) [] = fine tt
  check_texts (xpath ∷ xpaths) (text ∷ texts) = present key_error (get xpath regions) >>= λ region.
      asserted (str_eq region.raw_text text) >> check_texts xpaths texts

  unfoldable pub validate_single_srcmove_result_move : SrcMoveResultMove → Checked (Unit {0})
  unfolding check_endpoints check_texts
  validate_single_srcmove_result_move move =
      check_endpoints from_side move.move_id move.to_xpaths move.from_xpaths
      >> check_endpoints to_side move.move_id move.from_xpaths move.to_xpaths
      >> check_texts move.from_xpaths move.from_raw_texts
      >> check_texts move.to_xpaths move.to_raw_texts
