-- ===== src/Srcmove/Endpoints/Matching.antt =====
-- A move that passes matches the XML: each endpoint is a region of the move on its side, with the
-- text that the results give.
use src_visual.Common.{
  ◌↔◌, ap, ◌∙◌, refl, String, ◌≡◌, true, some, List, [], ◌∷◌, All, str_eq, eq_iff,
}
use src_visual.Common.Dict.{Dict, get}
use src_visual.Srcmove.Checked.{
  asserted-true, fine, assertion_error, key_error, present, >>=-fine, asserted-fine, present-fine,
}
use src_visual.Srcmove.Regions.{
  XmlMoveRegion, Side, from_side, to_side, classify_xml_move_region_side,
}
use src_visual.Srcmove.Results.{SrcMoveResultMove}
use src_visual.Srcmove.Endpoints.{
  same_set, is_side, partners, check_endpoint, check_endpoints, check_texts,
  validate_single_srcmove_result_move,
}

module _ (regions : Dict XmlMoveRegion) where
  -- `xpath` is a region of the move `id` on the side `side`, with the paths `others`.
  pub record IsEndpoint (side : Side) (id : String) (others : List String) (xpath : String)
      : Type 0 where
    pub region : XmlMoveRegion
    pub found : get xpath regions ≡ some region
    pub same_id : region.move_id ≡ id
    pub side_found : classify_xml_move_region_side region ≡ fine side
    pub same_partners : same_set (partners side region) others ≡ true

  -- The regions have the texts, path by path.
  abbrev pub HaveTexts : List String → List String → Type 0
  HaveTexts (xpath ∷ xpaths) (text ∷ texts) =
      ((region : XmlMoveRegion) × (get xpath regions ≡ some region) × (region.raw_text ≡ text))
      × HaveTexts xpaths texts
  HaveTexts [] texts = Unit
  HaveTexts (xpath ∷ xpaths) [] = Unit

  is_side-same : (s t : Side) → is_side s t ≡ true → s ≡ t
  is_side-same from_side from_side h = refl
  is_side-same from_side to_side h = cc
  is_side-same to_side from_side h = cc
  is_side-same to_side to_side h = refl

  check_endpoint_lem :
      (side : Side) (id : String) (others : List String) (xpath : String)
      → check_endpoint regions side id others xpath ≡ fine tt
      → IsEndpoint side id others xpath
  unfolding check_endpoint
  check_endpoint_lem side id others xpath h =
      let (region, at, h1) = >>=-fine (present assertion_error (get xpath regions)) _ h in
      let (same, h2) = asserted-fine (str_eq region.move_id id) _ h1 in
      let (found, classified, h3) = >>=-fine (classify_xml_move_region_side region) _ h2 in
      let (sided, h4) = asserted-fine (is_side found side) _ h3 in
      record {
        region = region;
        found = present-fine assertion_error (get xpath regions) at;
        same_id = (eq_iff region.move_id id).0 same;
        side_found = classified ∙ ap fine (is_side-same found side sided);
        same_partners = asserted-true (same_set (partners side region) others) h4;
      }

  check_endpoints_lem :
      (side : Side) (id : String) (others xpaths : List String)
      → check_endpoints regions side id others xpaths ≡ fine tt
      → All (IsEndpoint side id others) xpaths
  unfolding check_endpoints
  check_endpoints_lem side id others [] h = tt
  check_endpoints_lem side id others (xpath ∷ xpaths) h =
      let (unit, one, rest) = >>=-fine (check_endpoint regions side id others xpath) _ h in
      (check_endpoint_lem side id others xpath one, check_endpoints_lem side id others xpaths rest)

  check_texts_lem :
      (xpaths texts : List String)
      → check_texts regions xpaths texts ≡ fine tt
      → HaveTexts xpaths texts
  unfolding check_texts
  check_texts_lem [] texts h = tt
  check_texts_lem (xpath ∷ xpaths) [] h = tt
  check_texts_lem (xpath ∷ xpaths) (text ∷ texts) h =
      let (region, at, h1) = >>=-fine (present key_error (get xpath regions)) _ h in
      let (same, h2) = asserted-fine (str_eq region.raw_text text) _ h1 in
      (
        (
          region,
          present-fine key_error (get xpath regions) at,
          (eq_iff region.raw_text text).0 same,
        ),
        check_texts_lem xpaths texts h2,
      )

  -- The results and the XML agree on a move.
  pub record IsMatched (move : SrcMoveResultMove) : Type 0 where
    pub sources : All (IsEndpoint from_side move.move_id move.to_xpaths) move.from_xpaths
    pub targets : All (IsEndpoint to_side move.move_id move.from_xpaths) move.to_xpaths
    pub source_texts : HaveTexts move.from_xpaths move.from_raw_texts
    pub target_texts : HaveTexts move.to_xpaths move.to_raw_texts

  is_side_refl : (s : Side) → is_side s s ≡ true
  is_side_refl from_side = refl
  is_side_refl to_side = refl

  endpoint_passes :
      {side : Side} {id : String} {others : List String} {xpath : String}
      → IsEndpoint side id others xpath
      → check_endpoint regions side id others xpath ≡ fine tt
  unfolding check_endpoint
  endpoint_passes {side} {id} {others} e =
      rw
        (
          e.found,
          (eq_iff e.region.move_id id).1 e.same_id,
          e.side_found,
          is_side_refl side,
          e.same_partners,
        )
        refl

  check_endpoints_pass :
      (side : Side) (id : String) (others xpaths : List String)
      → All (IsEndpoint side id others) xpaths
      → check_endpoints regions side id others xpaths ≡ fine tt
  unfolding check_endpoints
  check_endpoints_pass side id others [] h = refl
  check_endpoints_pass side id others (xpath ∷ xpaths) (e, es) =
      rw (endpoint_passes e, check_endpoints_pass side id others xpaths es) refl

  check_texts_pass :
      (xpaths texts : List String)
      → HaveTexts xpaths texts
      → check_texts regions xpaths texts ≡ fine tt
  unfolding check_texts
  check_texts_pass [] texts h = refl
  check_texts_pass (xpath ∷ xpaths) [] h = refl
  check_texts_pass (xpath ∷ xpaths) (text ∷ texts) ((region, found, same), h) =
      rw (found, (eq_iff region.raw_text text).1 same, check_texts_pass xpaths texts h) refl

  passed-IsMatched :
      (move : SrcMoveResultMove)
      → validate_single_srcmove_result_move regions move ≡ fine tt
      → IsMatched move
  unfolding validate_single_srcmove_result_move
  passed-IsMatched move h =
      let (_, h3, h4) = >>=-fine _ (λ _. check_texts regions move.to_xpaths move.to_raw_texts) h in
      let (_, h2, h5) =
        >>=-fine _ (λ _. check_texts regions move.from_xpaths move.from_raw_texts) h3 in
      let (_, h1, h6) =
        >>=-fine _
          (λ _. check_endpoints regions to_side move.move_id move.from_xpaths move.to_xpaths) h2 in
      record {
        sources = check_endpoints_lem from_side move.move_id move.to_xpaths move.from_xpaths h1;
        targets = check_endpoints_lem to_side move.move_id move.from_xpaths move.to_xpaths h6;
        source_texts = check_texts_lem move.from_xpaths move.from_raw_texts h5;
        target_texts = check_texts_lem move.to_xpaths move.to_raw_texts h4;
      }

  IsMatched-passes :
      (move : SrcMoveResultMove)
      → IsMatched move
      → validate_single_srcmove_result_move regions move ≡ fine tt
  unfolding validate_single_srcmove_result_move
  IsMatched-passes move h =
      rw
        (
          check_endpoints_pass from_side move.move_id move.to_xpaths move.from_xpaths h.sources,
          check_endpoints_pass to_side move.move_id move.from_xpaths move.to_xpaths h.targets,
          check_texts_pass move.from_xpaths move.from_raw_texts h.source_texts,
          check_texts_pass move.to_xpaths move.to_raw_texts h.target_texts,
        )
        refl

  -- The check of a move returns exactly if each of its sources is a source region of the XML with
  -- its id and its targets as paths, each of its targets is such a target region, and the regions
  -- have the texts of the move, as far as there are texts.
  pub validate_single_srcmove_result_move_lem :
      (move : SrcMoveResultMove)
      → (validate_single_srcmove_result_move regions move ≡ fine tt) ↔ IsMatched move
  validate_single_srcmove_result_move_lem move = (passed-IsMatched move, IsMatched-passes move)
