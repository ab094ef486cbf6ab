-- ===== src/Artifacts/Retention/Choice.antt =====
-- The items that a dictionary of reasons selects from an inventory (srcdiffvisual/artifacts/lifecycle.py,
-- plan_artifact_collection).
use src_visual.Common.{
  ℕ, ◌+◌, ◌≡◌, refl, ap, ◌∙◌, Bool, true, false, ◌||◌, List, [], ◌∷◌, select, any, length, str_eq,
  sort_by, insert_by, arith, eq_iff, inl, inr, Bool-cases, sym, subst,
}
use src_visual.Common.Dict.{put, contains-put, length-put}
use src_visual.Common.Sums.{Has, sum, any-insert_by, any-sort_by, length-sum, select-same}
use src_visual.Artifacts.Inventory.{ArtifactInventoryItem}
use src_visual.Artifacts.Retention.{Reason, Reasons, is_eligible, is_selected}

abbrev pub Item : Type 0
Item = ArtifactInventoryItem

abbrev pub same_id : Item → Item → Bool
same_id x y = str_eq x.artifact_id y.artifact_id

-- No two items have one id: they are the entries of one directory.
abbrev pub IsDistinct : List Item → Type 0
IsDistinct [] = Unit
IsDistinct (x ∷ xs) = (any (same_id x) xs ≡ false) × IsDistinct xs

insert_by-IsDistinct :
    (le : Item → Item → Bool) (x : Item) (xs : List Item)
    → any (same_id x) xs ≡ false
    → IsDistinct xs
    → IsDistinct (insert_by le x xs)
insert_by-IsDistinct le x [] h d = (refl, tt)
insert_by-IsDistinct le x (y ∷ ys) h d = elim (Bool-cases (le x y)) [
  | inl before ↦ rw before (h, d)
  | inr after ↦ rw after (
    any-insert_by (same_id y) le x ys
        ∙ ground
            (arith, d.0, h, eq_iff x.artifact_id y.artifact_id, eq_iff y.artifact_id x.artifact_id),
    insert_by-IsDistinct le x ys (ground arith) d.1,
  )
]

pub sort_by-IsDistinct :
    (le : Item → Item → Bool) (xs : List Item) → IsDistinct xs → IsDistinct (sort_by le xs)
sort_by-IsDistinct le [] d = tt
sort_by-IsDistinct le (x ∷ xs) d =
    insert_by-IsDistinct le x (sort_by le xs) (any-sort_by (same_id x) le xs ∙ d.0)
      (sort_by-IsDistinct le xs d.1)

other_id :
    (x y : Item) (ys : List Item) → any (same_id y) ys ≡ false → Has x ys → same_id x y ≡ false
other_id x y [] h k = absurd k
other_id x y (z ∷ ys) h (inl e) =
    rw e (ground (arith, h, eq_iff z.artifact_id y.artifact_id, eq_iff y.artifact_id z.artifact_id))
other_id x y (z ∷ ys) h (inr k) = other_id x y ys (ground arith) k

-- Two items of one inventory with one id are the same.
pub same_item :
    (x z : Item) (items : List Item)
    → IsDistinct items
    → Has x items
    → Has z items
    → same_id z x ≡ true
    → z ≡ x
same_item x z [] d h k s = absurd h
same_item x z (y ∷ ys) d (inl e) (inl f) s = f ∙ sym e
same_item x z (y ∷ ys) d (inl e) (inr k) s =
    absurd
      (ground (arith, s, subst (λ (w : Item). same_id z w ≡ false) (sym e) (other_id z y ys d.0 k)))
same_item x z (y ∷ ys) d (inr h) (inl f) s = absurd (
    ground (
      arith,
      s,
      eq_iff x.artifact_id z.artifact_id,
      eq_iff z.artifact_id x.artifact_id,
      subst (λ (w : Item). same_id x w ≡ false) (sym f) (other_id x y ys d.0 h),
    ))
same_item x z (y ∷ ys) d (inr h) (inr k) s = same_item x z ys d.1 h k s

-- The selected items.
abbrev pub chosen : Reasons → List Item → List Item
chosen d xs = select (is_selected d) xs

module _ (f : Item → ℕ) (x : Item) (r : List Reason) (d : Reasons) where
  chosen-put_other :
      (ys : List Item)
      → any (same_id x) ys ≡ false
      → chosen (put x.artifact_id r d) ys ≡ chosen d ys
  chosen-put_other [] h = refl
  chosen-put_other (y ∷ ys) h = ground (
    arith,
    contains-put y.artifact_id x.artifact_id r d,
    eq_iff x.artifact_id y.artifact_id,
    eq_iff y.artifact_id x.artifact_id,
    chosen-put_other ys (ground arith),
  )

-- A new selection adds its item to every sum over the selected ones.
sum-chosen-put_head :
    (f : Item → ℕ) (x : Item) (r : List Reason) (d : Reasons) (ys : List Item)
    → any (same_id x) ys ≡ false
    → is_selected d x ≡ false
    → sum f (chosen (put x.artifact_id r d) (x ∷ ys)) ≡ f x + sum f (chosen d (x ∷ ys))
sum-chosen-put_head f x r d ys h n =
    rw
      (n, contains-put x.artifact_id x.artifact_id r d, (eq_iff x.artifact_id x.artifact_id).1 refl)
      (ap (λ (zs : List Item). f x + sum f zs) (chosen-put_other f x r d ys h))

pub sum-chosen-put :
    (f : Item → ℕ) (x : Item) (r : List Reason) (d : Reasons) (items : List Item)
    → IsDistinct items
    → Has x items
    → is_selected d x ≡ false
    → sum f (chosen (put x.artifact_id r d) items) ≡ f x + sum f (chosen d items)
sum-chosen-put f x r d [] u h = absurd h
sum-chosen-put f x r d (y ∷ ys) u (inl e) =
    subst
      (λ (z : Item).
        is_selected d z ≡ false
        → sum f (chosen (put z.artifact_id r d) (y ∷ ys)) ≡ f z + sum f (chosen d (y ∷ ys)))
      (sym e) (sum-chosen-put_head f y r d ys u.0)
sum-chosen-put f x r d (y ∷ ys) u (inr k) = λ n. ground (
  arith,
  contains-put y.artifact_id x.artifact_id r d,
  other_id x y ys u.0 k,
  eq_iff x.artifact_id y.artifact_id,
  eq_iff y.artifact_id x.artifact_id,
  sum-chosen-put f x r d ys u.1 k n,
)

-- A selection of eligible items, each once.
pub record IsChoice (items : List Item) (d : Reasons) : Type 0 where
  pub eligible : (x : Item) → Has x items → is_selected d x ≡ true → is_eligible x ≡ true
  pub counted : length d ≡ length (chosen d items)

module _ (items : List Item) (u : IsDistinct items) (x : Item) (at : Has x items) where
  selected-put :
      (r : List Reason) (d : Reasons) (z : Item)
      → is_selected (put x.artifact_id r d) z ≡ (same_id z x || is_selected d z)
  selected-put r d z = contains-put z.artifact_id x.artifact_id r d

  selected-put_again :
      (r : List Reason) (d : Reasons)
      → is_selected d x ≡ true
      → (z : Item) → Has z items
      → is_selected (put x.artifact_id r d) z ≡ is_selected d z
  selected-put_again r d h z k = elim (Bool-cases (same_id z x)) [
    | inr other ↦ selected-put r d z ∙ rw other refl
    | inl same ↦
        selected-put r d z
        ∙ rw same (sym (ap (is_selected d) (same_item x z items u at k same) ∙ h))
  ]

  put-eligible :
      (r : List Reason) (d : Reasons)
      → is_eligible x ≡ true
      → IsChoice items d
      → (z : Item) → Has z items
      → is_selected (put x.artifact_id r d) z ≡ true
      → is_eligible z ≡ true
  put-eligible r d e c z k s = elim (Bool-cases (same_id z x)) [
    | inl same ↦ ap is_eligible (same_item x z items u at k same) ∙ e
    | inr other ↦ c.eligible z k (ground (arith, s, other, selected-put r d z))
  ]

  -- A selection stays one when an eligible item is added.
  pub put-IsChoice :
      (r : List Reason) (d : Reasons)
      → is_eligible x ≡ true
      → IsChoice items d
      → IsChoice items (put x.artifact_id r d)
  put-IsChoice r d e c = record {
    eligible = put-eligible r d e c;
    counted = elim (Bool-cases (is_selected d x)) [
      | inr fresh ↦
          length-put x.artifact_id r d
          ∙ rw fresh (
              omega (
                arith,
                c.counted,
                sum-chosen-put (λ y. 1) x r d items u at fresh,
                length-sum (chosen d items),
                length-sum (chosen (put x.artifact_id r d) items),
              ))
      | inl again ↦
          length-put x.artifact_id r d
          ∙ rw again (
              c.counted
              ∙ ap length (
                  sym (
                    select-same (is_selected (put x.artifact_id r d)) (is_selected d) items
                      (selected-put_again r d again))))
    ];
  }
