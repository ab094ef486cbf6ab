-- ===== src/Srcmove/Results/Parsed.antt =====
-- What `parse_srcmove_result_moves` returns.
use src_visual.Common.{
  suc, ℕ, String, ◌≡◌, refl, sym, ap, subst, Bool, true, false, not, some, List, [], ◌∷◌, any,
  length, str_eq, ◌==◌, All, arith,
}
use src_visual.Common.Dict.{Dict, get}
use src_visual.Common.Json.{Json, dict_of}
use src_visual.Srcmove.Checked.{
  present-fine, fine, present, >>=-fine, asserted-fine, required-fine, fine-injective,
}
use src_visual.Srcmove.Results.{
  SrcMoveResultMove, is_filled_list, same_length, move_id_of_value, text_in, parse_sides,
  parse_move, parse_moves, parse_srcmove_result_moves, is_reportable, expect_string_tuple, list_in,
}
use src_visual.Srcmove.Classification.{validate_classification_fields}
use src_visual.Srcmove.Paths.{normalize_srcmove_xpath_tuple}

-- A parsed move has an id, endpoints on both sides, and a text for each endpoint.
pub record IsMove (m : SrcMoveResultMove) : Type 0 where
  pub named : str_eq m.move_id "" ≡ false
  pub from_filled : is_filled_list m.from_xpaths ≡ true
  pub to_filled : is_filled_list m.to_xpaths ≡ true
  pub from_texts : length m.from_xpaths ≡ length m.from_raw_texts
  pub to_texts : length m.to_xpaths ≡ length m.to_raw_texts

-- No id stands twice, and none is in `seen`.
abbrev pub Distinct : List String → List SrcMoveResultMove → Type 0
Distinct seen [] = Unit
Distinct seen (m ∷ ms) = (any (str_eq m.move_id) seen ≡ false) × Distinct (m.move_id ∷ seen) ms

==-eq : (m n : ℕ) → (m == n) ≡ true → m ≡ n
==-eq m n h = ground arith

not-true : (b : Bool) → not b ≡ true → b ≡ false
not-true b h = ground arith

parse_sides_lem :
    (index : Dict ℕ) (value : Dict Json) (i : String) {m : SrcMoveResultMove}
    → parse_sides index value i ≡ fine m
    → str_eq i "" ≡ false
    → IsMove m × (m.move_id ≡ i)
unfolding parse_sides
parse_sides_lem index value i h named =
    let (from_values, _, h1) = >>=-fine (expect_string_tuple value "from_xpaths") _ h in
    let (from_xpaths, _, h2) = >>=-fine (normalize_srcmove_xpath_tuple index from_values) _ h1 in
    let (to_values, _, h3) = >>=-fine (expect_string_tuple value "to_xpaths") _ h2 in
    let (to_xpaths, _, h4) = >>=-fine (normalize_srcmove_xpath_tuple index to_values) _ h3 in
    let (from_raw_texts, _, h5) = >>=-fine (expect_string_tuple value "from_raw_texts") _ h4 in
    let (to_raw_texts, _, h6) = >>=-fine (expect_string_tuple value "to_raw_texts") _ h5 in
    let (a, h7) = asserted-fine (is_filled_list from_xpaths) _ h6 in
    let (b, h8) = asserted-fine (is_filled_list to_xpaths) _ h7 in
    let (c, h9) = asserted-fine (same_length from_xpaths from_raw_texts) _ h8 in
    let (d, h10) = asserted-fine (same_length to_xpaths to_raw_texts) _ h9 in
    let e = fine-injective h10 in
    subst (λ (m : SrcMoveResultMove). IsMove m × (m.move_id ≡ i)) e
      (
        record {
          named = named;
          from_filled = a;
          to_filled = b;
          from_texts = ==-eq _ _ c;
          to_texts = ==-eq _ _ d;
        },
        refl,
      )

parse_move_lem :
    (index : Dict ℕ) (seen : List String) (j : Json) {m : SrcMoveResultMove}
    → parse_move index seen j ≡ fine m
    → IsMove m × (any (str_eq m.move_id) seen ≡ false)
unfolding parse_move
parse_move_lem index seen j h =
    let (value, _, h1) = >>=-fine (present _ (dict_of j)) _ h in
    let (_, h2) = required-fine (is_reportable (get "content_relationship" value)) _ h1 in
    let (i, named, h3) = >>=-fine (move_id_of_value value) _ h2 in
    let (fresh, h4) = asserted-fine (not (any (str_eq i) seen)) _ h3 in
    let (_, _, n1) = >>=-fine (present _ (text_in (get "move_id" value))) _ named in
    let (filled, n2) = asserted-fine (not (str_eq _ "")) _ n1 in
    let same = fine-injective n2 in
    let (move, is_i) =
      parse_sides_lem index value i h4
        (subst (λ (s : String). str_eq s "" ≡ false) same (not-true _ filled)) in
    (move, subst (λ (s : String). any (str_eq s) seen ≡ false) (sym is_i) (not-true _ fresh))

parse_moves_lem :
    (index : Dict ℕ) (seen : List String) (js : List Json) (ms : List SrcMoveResultMove)
    → parse_moves index seen js ≡ fine ms
    → All IsMove ms × Distinct seen ms × (length ms ≡ length js)
unfolding parse_moves
parse_moves_lem index seen [] ms h =
    subst (λ (ms : List SrcMoveResultMove). All IsMove ms × Distinct seen ms × (length ms ≡ 0))
      (fine-injective h) (tt, tt, refl)
parse_moves_lem index seen (j ∷ js) ms h =
    let (m, parsed, h1) = >>=-fine (parse_move index seen j) _ h in
    let (rest, parsed_rest, h2) = >>=-fine (parse_moves index (m.move_id ∷ seen) js) _ h1 in
    let (move, fresh) = parse_move_lem index seen j parsed in
    let (moves, distinct, same) = parse_moves_lem index (m.move_id ∷ seen) js rest parsed_rest in
    subst
      (λ (ms : List SrcMoveResultMove).
        All IsMove ms × Distinct seen ms × (length ms ≡ suc (length js)))
      (fine-injective h2) ((move, moves), (fresh, distinct), ap suc same)

-- If the results of srcMove parse, then each item of their list `moves` has given one move, no two
-- of them have the same id, and each has an id that is not empty, at least one endpoint on either
-- side, and one text for each endpoint.
pub parse_srcmove_result_moves_lem :
    (results : Json) (index : Dict ℕ) (ms : List SrcMoveResultMove)
    → parse_srcmove_result_moves results index ≡ fine ms
    → All IsMove ms
      × Distinct [] ms
      × ((value : Dict Json) × (js : List Json) × (dict_of results ≡ some value)
          × (list_in (get "moves" value) ≡ some js)
          × (length ms ≡ length js))
unfolding parse_srcmove_result_moves
parse_srcmove_result_moves_lem results index ms h =
    let (value, v, h1) = >>=-fine (present _ (dict_of results)) _ h in
    let (_, _, h2) = >>=-fine (validate_classification_fields results) _ h1 in
    let (js, l, h3) = >>=-fine (present _ (list_in (get "moves" value))) _ h2 in
    let (moves, distinct, same) = parse_moves_lem index [] js ms h3 in
    (moves, distinct, (value, js, present-fine _ _ v, present-fine _ _ l, same))
