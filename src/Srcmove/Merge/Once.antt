-- ===== src/Srcmove/Merge/Once.antt =====
-- The merge of srcMove's results takes over each producer move once.
use src_visual.Common.{
  ℕ, ◌+◌, String, ◌≡◌, refl, sym, ap, ◌∙◌, subst, Bool, true, false, not, ◌&&◌, Option, none, some,
  List, [], ◌∷◌, map, length, select, str_eq, is_some, if◌then◌else◌, arith, eq_iff, Bool-cases,
  inl, inr,
}
use src_visual.Common.Dict.{Dict, get, contains, put, get-put}
use src_visual.Common.Dict.Update.{update, remove, or_else, get-update, get-remove, get-contains}
use src_visual.Common.Json.{Json, text, dict_of}
use src_visual.Srcmove.Checked.{
  fine, present, >>=-fine, asserted-fine, fine-injective, present-fine,
}
use src_visual.Srcmove.Results.{is_filled_list, list_in, text_in, validate_producer_results}
use src_visual.Srcmove.Merge.Producers.{
  is_text, is_from_producer, id_of, one, IsKeyed, identified_lem, remove-IsKeyed, with_id,
  length-select, index_producers_lem,
}
use src_visual.Srcmove.Merge.Fields.{AreMerged, merge_moves-AreMerged, index_producers-IsFrom}
use src_visual.Srcmove.Merge.{
  identified, index_producers, provenance, or_empty, merged_move, merge_moves, moves_json,
  merge_producer_move_results,
}

get-nil : (k : String) → get {V = Json} k [] ≡ none
unfolding get
get-nil k = refl

-- The merged move of a reconstructed one has its id, and is the producer's exactly if there is one.
merged_move_lem :
    (i : String) (value : Dict Json) (producer : Option (Dict Json))
    → text_in (get "move_id" value) ≡ some i
    → ((v : Dict Json) → producer ≡ some v → text_in (get "move_id" v) ≡ some i)
    → (text_in (get "move_id" (merged_move value producer)) ≡ some i)
      × (text_in (get "result_provenance" (merged_move value producer))
          ≡ some (provenance producer))
unfolding merged_move
merged_move_lem i value producer named by_producer = (
  ap text_in (
        get-put "move_id" "result_provenance" (text (provenance producer))
          (update value (or_empty producer))
        ∙ get-update "move_id" value (or_empty producer))
      ∙ id producer by_producer,
  ap text_in (
      get-put "result_provenance" "result_provenance" (text (provenance producer))
        (update value (or_empty producer))),
)
  where
    chosen :
        (o : Option Json) → text_in o ≡ some i → text_in (or_else o (get "move_id" value)) ≡ some i
    chosen none h = cc
    chosen (some j) h = h

    id :
        (p : Option (Dict Json))
        → ((v : Dict Json) → p ≡ some v → text_in (get "move_id" v) ≡ some i)
        → text_in (or_else (get "move_id" (or_empty p)) (get "move_id" value)) ≡ some i
    id none h = rw (get-nil "move_id") named
    id (some v) h = chosen (get "move_id" v) (h v refl)

provenance_lem :
    (i : String) (p : Option (Dict Json))
    → ((v : Dict Json) → p ≡ some v → text_in (get "move_id" v) ≡ some i)
    → is_text "producer-results" (some (provenance p)) ≡ is_some p
unfolding get
provenance_lem i none h = refl
provenance_lem i (some []) h = absurd (nothing (h [] refl))
  where
    nothing : {A : Type 0} {a : A} → none ≡ some a → ⊥
    nothing e = cc
provenance_lem i (some (entry ∷ v)) h = refl

-- How many merged moves with the id are the producer's.
abbrev pub taken : String → List (Dict Json) → ℕ
taken s moves = length (select (is_from_producer s) moves)

one-and : (a b : Bool) → one (a && b) + (if a then 0 else one b) ≡ one b
one-and true b = omega arith
one-and false b = omega arith

contains-remove :
    (s i : String) (by_id : Dict (Dict Json))
    → one (contains s (remove i by_id)) ≡ (if str_eq s i then 0 else one (contains s by_id))
contains-remove s i by_id =
    ap one (get-contains s (remove i by_id) ∙ ap is_some (get-remove s i by_id))
    ∙ split (str_eq s i) (get s by_id) (contains s by_id) (get-contains s by_id)
  where
    split :
        (a : Bool) (o : Option (Dict Json)) (c : Bool)
        → c ≡ is_some o
        → one (is_some (if a then none else o)) ≡ (if a then 0 else one c)
    split true o c h = refl
    split false o c h = ap one (sym h)

merge_moves_lem :
    (js : List Json) (by_id left : Dict (Dict Json)) (moves : List (Dict Json))
    → merge_moves js by_id ≡ fine (moves, left)
    → IsKeyed by_id
    → (map (λ (value : Dict Json). text_in (get "move_id" value)) moves ≡ map id_of js)
      × ((s : String) → taken s moves + one (contains s left) ≡ one (contains s by_id))
unfolding merge_moves
merge_moves_lem [] by_id left moves h keyed =
    subst
      (λ (p : List (Dict Json) × Dict (Dict Json)).
        (map (λ (value : Dict Json). text_in (get "move_id" value)) p.0 ≡ [])
        × ((s : String) → taken s p.0 + one (contains s p.1) ≡ one (contains s by_id)))
      (fine-injective h) (refl, λ s. omega arith)
merge_moves_lem (j ∷ js) by_id left moves h keyed =
    let ((i, value), at_j, h1) = >>=-fine (identified j) _ h in
    let ((rest, left'), at_rest, h2) = >>=-fine (merge_moves js (remove i by_id)) _ h1 in
    let (named, id) = identified_lem j i value at_j in
    let (ids, counted) =
      merge_moves_lem js (remove i by_id) left' rest at_rest (remove-IsKeyed i by_id keyed) in
    let by_producer = λ (v : Dict Json) (e : get i by_id ≡ some v). keyed i v e in
    let (same_id, same_provenance) = merged_move_lem i value (get i by_id) named by_producer in
    subst
      (λ (p : List (Dict Json) × Dict (Dict Json)).
        (map (λ (value : Dict Json). text_in (get "move_id" value)) p.0 ≡ map id_of (j ∷ js))
        × ((s : String) → taken s p.0 + one (contains s p.1) ≡ one (contains s by_id)))
      (fine-injective h2)
      (
        ap
              (λ (o : Option String).
                o ∷ map (λ (value : Dict Json). text_in (get "move_id" value)) rest)
              (same_id ∙ sym id)
            ∙ ap (λ (os : List (Option String)). id_of j ∷ os) ids,
        λ s. omega (
          arith,
          counted s,
          contains-remove s i by_id,
          one-and (str_eq s i) (contains s by_id),
          length-select (is_from_producer s) (merged_move value (get i by_id)) rest
              (str_eq s i && contains s by_id)
              (ap
                  (λ (o : Option String).
                    is_text s o
                    && is_text "producer-results"
                        (text_in (get "result_provenance" (merged_move value (get i by_id)))))
                  same_id
                ∙ ap (λ (o : Option String). str_eq s i && is_text "producer-results" o)
                    same_provenance
                ∙ ap (λ b. str_eq s i && b)
                    (provenance_lem i (get i by_id) by_producer ∙ sym (get-contains i by_id))
                ∙ same_key s i by_id),
        ),
      )
  where
    same_key :
        (s i : String) (by_id : Dict (Dict Json))
        → (str_eq s i && contains i by_id) ≡ (str_eq s i && contains s by_id)
    same_key s i by_id = elim (Bool-cases (str_eq s i)) [
      | inl same ↦ ap (λ (k : String). str_eq s i && contains k by_id) (sym ((eq_iff s i).0 same))
      | inr other ↦ rw other refl
    ]

-- If the merge succeeds, the result's moves are the reconstructed ones, one for each in their order
-- and with their ids. Each is marked as the producer's, and then has every field of a producer move
-- with its id and its own other fields, or it is marked as an annotation of the XML and keeps its
-- fields; the mark itself replaces a field result_provenance. For every id, as many of them are
-- marked as the producer's as the producer has moves with that id, so that each producer move is
-- taken over exactly once.
pub merge_producer_move_results_lem :
    (reconstructed : Dict Json) (producer_results : Json) (result : Dict Json)
    → merge_producer_move_results reconstructed producer_results ≡ fine result
    → (producer : Dict Json) × (rs js : List Json) × (moves : List (Dict Json)) × (dict_of
          producer_results
        ≡ some producer)
      × (list_in (get "moves" reconstructed) ≡ some rs)
      × (list_in (get "moves" producer) ≡ some js)
      × (get "moves" result ≡ some (moves_json moves))
      × (map (λ (value : Dict Json). text_in (get "move_id" value)) moves ≡ map id_of rs)
      × ((s : String) → taken s moves ≡ with_id s js)
      × AreMerged js rs moves
unfolding merge_producer_move_results get contains
merge_producer_move_results_lem reconstructed producer_results result h =
    let (_, _, h1) = >>=-fine (validate_producer_results producer_results) _ h in
    let (producer, at_producer, h2) = >>=-fine (present _ (dict_of producer_results)) _ h1 in
    let (rs, at_rs, h3) = >>=-fine (present _ (list_in (get "moves" reconstructed))) _ h2 in
    let (js, at_js, h4) = >>=-fine (present _ (list_in (get "moves" producer))) _ h3 in
    let (by_id, at_by_id, h5) = >>=-fine (index_producers js []) _ h4 in
    let ((moves, left), at_moves, h6) = >>=-fine (merge_moves rs by_id) _ h5 in
    let (emptied, h7) = asserted-fine (not (is_filled_list left)) _ h6 in
    let (keyed, producers) = index_producers_lem js [] by_id at_by_id (λ i value. cc) in
    let (ids, counted) = merge_moves_lem rs by_id left moves at_moves keyed in
    (
      producer,
      rs,
      js,
      moves,
      present-fine _ (dict_of producer_results) at_producer,
      present-fine _ (list_in (get "moves" reconstructed)) at_rs,
      present-fine _ (list_in (get "moves" producer)) at_js,
      ap (get "moves") (sym (fine-injective h7))
          ∙ get-put "moves" "producer_metadata" _ (put "moves" (moves_json moves) reconstructed)
          ∙ get-put "moves" "moves" (moves_json moves) reconstructed,
      ids,
      λ s. omega (arith, counted s, producers s, none_left s left emptied),
      merge_moves-AreMerged js rs by_id left moves at_moves keyed
          (index_producers-IsFrom js js [] by_id at_by_id (λ v among. among) (λ i v. cc)),
    )
  where
    none_left :
        (s : String) (left : Dict (Dict Json))
        → not (is_filled_list left) ≡ true
        → one (contains s left) ≡ 0
    none_left s [] e = refl
    none_left s (entry ∷ left) e = cc
