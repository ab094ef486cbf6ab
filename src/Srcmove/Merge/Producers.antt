-- ===== src/Srcmove/Merge/Producers.antt =====
-- The index of the producer's moves, in the merge of srcMove's results.
use src_visual.Common.{
  ℕ, ◌+◌, String, ◌≡◌, refl, sym, ap, ◌∙◌, subst, Bool, true, false, not, ◌&&◌, ◌||◌, Option, none,
  some, List, [], ◌∷◌, length, select, str_eq, arith, eq_iff, Bool-cases, inl, inr,
}
use src_visual.Common.Dict.{Dict, get, contains, put, get-put, contains-put}
use src_visual.Common.Dict.Update.{remove, get-remove}
use src_visual.Common.Json.{Json, dict_of}
use src_visual.Srcmove.Checked.{
  fine, present, >>=-fine, asserted-fine, fine-injective, present-fine,
}
use src_visual.Srcmove.Results.{text_in}
use src_visual.Srcmove.Merge.{identified, index_producers}

abbrev pub is_text : String → Option String → Bool
is_text s none = false
is_text s (some t) = str_eq s t

-- The move has the id and the provenance of the producer's moves.
abbrev pub is_from_producer : String → Dict Json → Bool
is_from_producer s value =
    is_text s (text_in (get "move_id" value))
    && is_text "producer-results" (text_in (get "result_provenance" value))

abbrev pub id_at : Option (Dict Json) → Option String
id_at none = none
id_at (some value) = text_in (get "move_id" value)

abbrev pub id_of : Json → Option String
id_of j = id_at (dict_of j)

abbrev pub one : Bool → ℕ
one true = 1
one false = 0

-- Each value stands under its id.
abbrev pub IsKeyed : Dict (Dict Json) → Type 0
IsKeyed by_id =
    (i : String) (value : Dict Json)
    → get i by_id ≡ some value
    → text_in (get "move_id" value) ≡ some i

pub some-injective : {A : Type 0} {a b : A} → some a ≡ some b → a ≡ b
some-injective h = cc

pub not-true : (b : Bool) → not b ≡ true → b ≡ false
not-true b h = ground arith

pub identified_lem :
    (j : Json) (i : String) (value : Dict Json)
    → identified j ≡ fine (i, value)
    → (text_in (get "move_id" value) ≡ some i) × (id_of j ≡ some i)
unfolding identified
identified_lem j i value h =
    let (v, at_v, h1) = >>=-fine (present _ (dict_of j)) _ h in
    let (k, at_k, h2) = >>=-fine (present _ (text_in (get "move_id" v))) _ h1 in
    let same = fine-injective h2 in
    let id = present-fine _ (text_in (get "move_id" v)) at_k in
    (
      subst (λ (p : String × Dict Json). text_in (get "move_id" p.1) ≡ some p.0) same id,
      ap id_at (present-fine _ (dict_of j) at_v)
          ∙ id
          ∙ ap (λ (p : String × Dict Json). some p.0) same,
    )

pub put-IsKeyed :
    (i : String) (value : Dict Json) (by_id : Dict (Dict Json))
    → text_in (get "move_id" value) ≡ some i
    → IsKeyed by_id
    → IsKeyed (put i value by_id)
put-IsKeyed i value by_id named keyed k v h = elim (Bool-cases (str_eq k i)) [
  | inl same ↦
      let e = some-injective (sym (get-put k i value by_id ∙ rw same refl) ∙ h) in
      subst (λ (w : Dict Json). text_in (get "move_id" w) ≡ some k) e
        (named ∙ ap some (sym ((eq_iff k i).0 same)))
  | inr other ↦ keyed k v (sym (get-put k i value by_id ∙ rw other refl) ∙ h)
]

pub remove-IsKeyed :
    (i : String) (by_id : Dict (Dict Json)) → IsKeyed by_id → IsKeyed (remove i by_id)
remove-IsKeyed i by_id keyed k v h = elim (Bool-cases (str_eq k i)) [
  | inl same ↦ absurd (nothing (sym (get-remove k i by_id ∙ rw same refl) ∙ h))
  | inr other ↦ keyed k v (sym (get-remove k i by_id ∙ rw other refl) ∙ h)
]
  where
    nothing : {A : Type 0} {a : A} → none ≡ some a → ⊥
    nothing e = cc

-- How many items have the id.
abbrev pub with_id : String → List Json → ℕ
with_id s js = length (select (λ j. is_text s (id_of j)) js)

pub length-select {ℓ} :
    {A : Type ℓ} (p : A → Bool) (x : A) (xs : List A) (b : Bool)
    → p x ≡ b
    → length (select p (x ∷ xs)) ≡ one b + length (select p xs)
length-select p x xs true h = rw h (omega arith)
length-select p x xs false h = rw h (omega arith)

pub with_id-cons :
    (s i : String) (j : Json) (js : List Json)
    → id_of j ≡ some i
    → with_id s (j ∷ js) ≡ one (str_eq s i) + with_id s js
with_id-cons s i j js id =
    length-select (λ j. is_text s (id_of j)) j js (str_eq s i) (ap (is_text s) id)

pub one-or : (a b d : Bool) → d ≡ (a || b) → (a ≡ true → b ≡ false) → one d ≡ one a + one b
one-or true b d h k = rw (h, k refl) (omega arith)
one-or false b d h k = rw h (omega arith)

pub index_producers_lem :
    (js : List Json) (by_id by_id' : Dict (Dict Json))
    → index_producers js by_id ≡ fine by_id'
    → IsKeyed by_id
    → IsKeyed by_id'
      × ((s : String) → one (contains s by_id') ≡ one (contains s by_id) + with_id s js)
unfolding index_producers
index_producers_lem [] by_id by_id' h keyed =
    subst
      (λ (d : Dict (Dict Json)).
        IsKeyed d × ((s : String) → one (contains s d) ≡ one (contains s by_id) + 0))
      (fine-injective h) (keyed, λ s. omega arith)
index_producers_lem (j ∷ js) by_id by_id' h keyed =
    let ((i, value), at_j, h1) = >>=-fine (identified j) _ h in
    let (fresh, h2) = asserted-fine (not (contains i by_id)) _ h1 in
    let (named, id) = identified_lem j i value at_j in
    let (keyed', counted) =
      index_producers_lem js (put i value by_id) by_id' h2
        (put-IsKeyed i value by_id named keyed) in
    (
      keyed',
      λ s. omega (
        arith,
        counted s,
        with_id-cons s i j js id,
        one-or (str_eq s i) (contains s by_id) (contains s (put i value by_id))
            (contains-put s i value by_id)
            (λ same.
              ap (λ (k : String). contains k by_id) ((eq_iff s i).0 same) ∙ not-true _ fresh),
      ),
    )
