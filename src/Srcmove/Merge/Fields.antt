-- ===== src/Srcmove/Merge/Fields.antt =====
-- The fields of the merged moves: those of the producer's move over those of the reconstructed one.
use src_visual.Common.{
  String, ◌≡◌, refl, sym, ap, ◌∙◌, subst, false, not, Option, none, some, List, [], ◌∷◌, str_eq,
  Bool-cases, inl, inr, ◌⊎◌, Option-cases,
}
use src_visual.Common.Dict.{Dict, get, contains, put, get-put}
use src_visual.Common.Dict.Update.{update, remove, or_else, get-update, get-remove}
use src_visual.Common.Json.{Json, text, dict_of}
use src_visual.Srcmove.Checked.{
  fine, present, >>=-fine, asserted-fine, fine-injective, present-fine,
}
use src_visual.Srcmove.Results.{text_in}
use src_visual.Srcmove.Merge.Producers.{
  id_of, IsKeyed, identified_lem, remove-IsKeyed, some-injective,
}
use src_visual.Srcmove.Merge.{
  identified, index_producers, provenance, or_empty, merged_move, merge_moves,
}

-- The object is one of the items.
abbrev pub IsAmong : Dict Json → List Json → Type 0
IsAmong v [] = ⊥
IsAmong v (j ∷ js) = (dict_of j ≡ some v) ⊎ IsAmong v js

-- Every field but the provenance is the producer's where it has the field, and else the one there was.
abbrev pub Overrides : Dict Json → Dict Json → Dict Json → Type 0
Overrides producer value merged =
    (f : String)
    → str_eq f "result_provenance" ≡ false
    → get f merged ≡ or_else (get f producer) (get f value)

abbrev pub provenance_of : Dict Json → Option String
provenance_of merged = text_in (get "result_provenance" merged)

-- The merged move is the reconstructed one with the fields of a producer move that has its id, or it
-- has the fields of the reconstructed one alone; its provenance says which.
abbrev pub Merges : List Json → Json → Dict Json → Type 0
Merges js j merged =
    (value : Dict Json) × (dict_of j ≡ some value)
    × (((producer : Dict Json) × IsAmong producer js
          × (text_in (get "move_id" producer) ≡ id_of j)
          × (provenance_of merged ≡ some "producer-results")
          × Overrides producer value merged)
        ⊎ ((provenance_of merged ≡ some "xml-annotation") × Overrides [] value merged))

abbrev pub AreMerged : List Json → List Json → List (Dict Json) → Type 0
AreMerged js [] [] = Unit
AreMerged js (r ∷ rs) (m ∷ ms) = Merges js r m × AreMerged js rs ms
AreMerged js _ _ = ⊥

-- What the index holds are items of the list.
abbrev pub IsFrom : List Json → Dict (Dict Json) → Type 0
IsFrom js by_id = (i : String) (v : Dict Json) → get i by_id ≡ some v → IsAmong v js

none-some : {A : Type 0} {a : A} → none ≡ some a → ⊥
none-some e = cc

remove-IsFrom :
    (js : List Json) (i : String) (by_id : Dict (Dict Json))
    → IsFrom js by_id
    → IsFrom js (remove i by_id)
remove-IsFrom js i by_id from k v h = elim (Bool-cases (str_eq k i)) [
  | inl same ↦ absurd (none-some (sym (get-remove k i by_id ∙ rw same refl) ∙ h))
  | inr other ↦ from k v (sym (get-remove k i by_id ∙ rw other refl) ∙ h)
]

put-IsFrom :
    (js : List Json) (i : String) (value : Dict Json) (by_id : Dict (Dict Json))
    → IsAmong value js
    → IsFrom js by_id
    → IsFrom js (put i value by_id)
put-IsFrom js i value by_id among from k v h = elim (Bool-cases (str_eq k i)) [
  | inl same ↦
      subst (λ (w : Dict Json). IsAmong w js)
        (some-injective (sym (get-put k i value by_id ∙ rw same refl) ∙ h)) among
  | inr other ↦ from k v (sym (get-put k i value by_id ∙ rw other refl) ∙ h)
]

dict_of-identified :
    (j : Json) (i : String) (value : Dict Json)
    → identified j ≡ fine (i, value)
    → dict_of j ≡ some value
unfolding identified
dict_of-identified j i value h =
    let (v, at_v, h1) = >>=-fine (present _ (dict_of j)) _ h in
    let (k, at_k, h2) = >>=-fine (present _ (text_in (get "move_id" v))) _ h1 in
    present-fine _ (dict_of j) at_v ∙ ap (λ (p : String × Dict Json). some p.1) (fine-injective h2)

pub index_producers-IsFrom :
    (js all : List Json) (by_id by_id' : Dict (Dict Json))
    → index_producers js by_id ≡ fine by_id'
    → ((v : Dict Json) → IsAmong v js → IsAmong v all)
    → IsFrom all by_id
    → IsFrom all by_id'
unfolding index_producers
index_producers-IsFrom [] all by_id by_id' h within from =
    subst (λ (d : Dict (Dict Json)). IsFrom all d) (fine-injective h) from
index_producers-IsFrom (j ∷ js) all by_id by_id' h within from =
    let ((i, value), at_j, h1) = >>=-fine (identified j) _ h in
    let (fresh, h2) = asserted-fine (not (contains i by_id)) _ h1 in
    index_producers-IsFrom js all (put i value by_id) by_id' h2 (λ v among. within v (inr among))
      (put-IsFrom all i value by_id (within value (inl (dict_of-identified j i value at_j))) from)

get-merged_move :
    (value : Dict Json) (producer : Option (Dict Json))
    → Overrides (or_empty producer) value (merged_move value producer)
unfolding merged_move
get-merged_move value producer f other =
    get-put f "result_provenance" (text (provenance producer)) (update value (or_empty producer))
    ∙ rw other (get-update f value (or_empty producer))

provenance-merged_move :
    (value : Dict Json) (producer : Option (Dict Json))
    → provenance_of (merged_move value producer) ≡ some (provenance producer)
unfolding merged_move
provenance-merged_move value producer = ap text_in (
    get-put "result_provenance" "result_provenance" (text (provenance producer))
      (update value (or_empty producer)))

provenance-named :
    (i : String) (p : Dict Json)
    → text_in (get "move_id" p) ≡ some i
    → provenance (some p) ≡ "producer-results"
unfolding get
provenance-named i [] h = absurd (none-some h)
provenance-named i (entry ∷ p) h = refl

merged_move-Merges :
    (js : List Json) (j : Json) (i : String) (value : Dict Json) (by_id : Dict (Dict Json))
    → IsKeyed by_id
    → IsFrom js by_id
    → dict_of j ≡ some value
    → id_of j ≡ some i
    → Merges js j (merged_move value (get i by_id))
merged_move-Merges js j i value by_id keyed from at_j named = elim (Option-cases (get i by_id)) [
  | inl absent ↦
      rw absent (value, at_j, inr (provenance-merged_move value none, get-merged_move value none))
  | inr (p, there) ↦ rw there (
    value,
    at_j,
    inl (
      p,
      from i p there,
      keyed i p there ∙ sym named,
      provenance-merged_move value (some p) ∙ ap some (provenance-named i p (keyed i p there)),
      get-merged_move value (some p),
    ),
  )
]

pub merge_moves-AreMerged :
    (js rs : List Json) (by_id left : Dict (Dict Json)) (moves : List (Dict Json))
    → merge_moves rs by_id ≡ fine (moves, left)
    → IsKeyed by_id
    → IsFrom js by_id
    → AreMerged js rs moves
unfolding merge_moves
merge_moves-AreMerged js [] by_id left moves h keyed from =
    subst (λ (p : List (Dict Json) × Dict (Dict Json)). AreMerged js [] p.0) (fine-injective h) tt
merge_moves-AreMerged js (r ∷ rs) by_id left moves h keyed from =
    let ((i, value), at_r, h1) = >>=-fine (identified r) _ h in
    let ((rest, left'), at_rest, h2) = >>=-fine (merge_moves rs (remove i by_id)) _ h1 in
    let (named, id) = identified_lem r i value at_r in
    subst (λ (p : List (Dict Json) × Dict (Dict Json)). AreMerged js (r ∷ rs) p.0)
      (fine-injective h2)
      (
        merged_move-Merges js r i value by_id keyed from (dict_of-identified r i value at_r) id,
        merge_moves-AreMerged js rs (remove i by_id) left' rest at_rest
            (remove-IsKeyed i by_id keyed) (remove-IsFrom js i by_id from),
      )
