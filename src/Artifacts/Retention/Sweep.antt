-- ===== src/Artifacts/Retention/Sweep.antt =====
-- The two loops of plan_artifact_collection (srcdiffvisual/artifacts/lifecycle.py).
use src_visual.Common.{
  subst, ℕ, ◌+◌, ◌≡◌, refl, ap, ◌∙◌, Bool, true, false, ◌&&◌, Option, none, some, List, [], ◌∷◌,
  ◌++◌, length, leb, arith, eq_iff, inl, inr, ◌⊎◌, Bool-cases, Option-cases, sym,
}
use src_visual.Common.Dict.{put, contains-put, length-put}
use src_visual.Common.Sums.{Has, length-sum, sum-select-le}
use src_visual.Artifacts.Inventory.{total_bytes}
use src_visual.Artifacts.Retention.{
  ArtifactRetentionPolicy, Reason, Reasons, age, count, bytes, is_eligible, is_selected, Outcome,
  returned, raised, assertion_error, age_reasons, Selection, over, within, select_for, sweep_item,
  sweep,
}
use src_visual.Artifacts.Retention.Choice.{
  Item, IsDistinct, chosen, sum-chosen-put, IsChoice, put-IsChoice,
}

-- One selection extends another.
abbrev pub Extends : Reasons → Reasons → Type 0
Extends d d' = (x : Item) → is_selected d x ≡ true → is_selected d' x ≡ true

pub put-Extends : (x : Item) (r : List Reason) (d : Reasons) → Extends d (put x.artifact_id r d)
put-Extends x r d z h = ground (arith, h, contains-put z.artifact_id x.artifact_id r d)

selected_put :
    (x : Item) (r : List Reason) (d : Reasons) → is_selected (put x.artifact_id r d) x ≡ true
selected_put x r d =
    ground (arith, contains-put x.artifact_id x.artifact_id r d, eq_iff x.artifact_id x.artifact_id)

-- What the first loop yields: an assertion that fails only on an item without a creation time, or a
-- choice with every item that has reached the limit.
abbrev pub IsAged : List Item → ℕ → List Item → Reasons → Outcome Reasons → Type 0
IsAged items cutoff xs d (raised e) =
    (e ≡ assertion_error) × (x : Item) × Has x xs × (x.created_at ≡ none)
IsAged items cutoff xs d (returned d') =
    IsChoice items d'
    × Extends d d'
    × ((x : Item) (t : ℕ)
        → Has x xs
        → x.created_at ≡ some t
        → leb t cutoff ≡ true
        → is_selected d' x ≡ true)

IsAged-cons :
    (items : List Item) (cutoff : ℕ) (x : Item) (t : ℕ) (xs : List Item) (d d₁ : Reasons)
    (o : Outcome Reasons)
    → x.created_at ≡ some t
    → Extends d d₁
    → (leb t cutoff ≡ true → is_selected d₁ x ≡ true)
    → IsAged items cutoff xs d₁ o
    → IsAged items cutoff (x ∷ xs) d o
IsAged-cons items cutoff x t xs d d₁ (raised e) at ext old (is, y, h, n) = (is, y, inr h, n)
IsAged-cons items cutoff x t xs d d₁ (returned d') at ext old (c, ext', all_old) =
    (c, λ y h. ext' y (ext y h), aged_selected)
  where
    aged_selected :
        (y : Item) (s : ℕ)
        → Has y (x ∷ xs)
        → y.created_at ≡ some s
        → leb s cutoff ≡ true
        → is_selected d' y ≡ true
    aged_selected y s (inr k) when le = all_old y s k when le
    aged_selected y s (inl e) when le =
        subst (λ (z : Item). is_selected d' z ≡ true) (sym e)
          (ext' x (old (ground (arith, le, sym when ∙ ap (λ (z : Item). z.created_at) e ∙ at))))

module _ (items : List Item) (u : IsDistinct items) (cutoff : ℕ) where
  pub age_reasons-IsAged :
      (xs : List Item) (d : Reasons)
      → ((x : Item) → Has x xs → Has x items × (is_eligible x ≡ true))
      → IsChoice items d
      → IsAged items cutoff xs d (age_reasons cutoff xs d)
  unfolding age_reasons
  age_reasons-IsAged [] d of c = (c, λ y h. h, λ x t h. absurd h)
  age_reasons-IsAged (x ∷ xs) d of c = elim (Option-cases x.created_at) [
    | inl missing ↦ simp (missing, age_reasons) (refl, x, inl refl, missing)
    | inr (t, at) ↦ elim (Bool-cases (leb t cutoff)) [
      | inl old ↦
          simp (at, age_reasons, old)
            (IsAged-cons items cutoff x t xs d (put x.artifact_id (age ∷ []) d) _ at
              (put-Extends x (age ∷ []) d) (λ h. selected_put x (age ∷ []) d)
              (age_reasons-IsAged xs (put x.artifact_id (age ∷ []) d) (λ y k. of y (inr k))
                (put-IsChoice items u x (of x (inl refl)).0 (age ∷ []) d (of x (inl refl)).1 c)))
      | inr young ↦
          simp (at, age_reasons, young)
            (IsAged-cons items cutoff x t xs d d _ at (λ y h. h)
              (λ h. absurd (ground (arith, h, young)))
              (age_reasons-IsAged xs d (λ y k. of y (inr k)) c))
    ]
  ]

-- The totals that the second loop keeps: the selected and the remaining items are all of them.
pub record IsCounted (items : List Item) (s : Selection) : Type 0 where
  pub choice : IsChoice items s.reasons
  pub counted : s.remaining_count + length s.reasons ≡ length items
  pub weighed : s.remaining_bytes + total_bytes (chosen s.reasons items) ≡ total_bytes items

select_for-IsCounted :
    (items : List Item) (x : Item) (rs : List Reason) (s : Selection)
    → IsDistinct items
    → Has x items
    → is_eligible x ≡ true
    → is_selected s.reasons x ≡ false
    → IsCounted items s
    → IsCounted items (select_for rs x s)
select_for-IsCounted items x [] s u at e n c = c
select_for-IsCounted items x (r ∷ rs) s u at e n c =
    let c' = put-IsChoice items u x at (r ∷ rs) s.reasons e c.choice in
    let added = sum-chosen-put (λ y. y.size_bytes) x (r ∷ rs) s.reasons items u at n in
    record {
      choice = c';
      counted = ground (
        arith,
        c.counted,
        c'.counted,
        length-put x.artifact_id (r ∷ rs) s.reasons,
        n,
        length-sum items,
        length-sum (chosen (put x.artifact_id (r ∷ rs) s.reasons) items),
        sum-select-le (λ y. 1) (is_selected (put x.artifact_id (r ∷ rs) s.reasons)) items,
      );
      weighed = omega (
        arith,
        c.weighed,
        added,
        sum-select-le (λ y. y.size_bytes) (is_selected (put x.artifact_id (r ∷ rs) s.reasons))
            items,
      );
    }

module _ (p : ArtifactRetentionPolicy) where
  -- Both limits hold.
  abbrev pub holds : Selection → Bool
  holds s = within p.max_artifacts s.remaining_count && within p.max_bytes s.remaining_bytes

  pub sweep-IsCounted :
      (items : List Item) (u : IsDistinct items) (xs : List Item) (s : Selection)
      → ((x : Item) → Has x xs → Has x items × (is_eligible x ≡ true))
      → IsCounted items s
      → IsCounted items (sweep p xs s)
  unfolding sweep sweep_item
  sweep-IsCounted items u [] s of c = c
  sweep-IsCounted items u (x ∷ xs) s of c = elim (Bool-cases (is_selected s.reasons x)) [
    | inl again ↦ rw again (sweep-IsCounted items u xs s (λ y k. of y (inr k)) c)
    | inr fresh ↦ rw fresh (
        sweep-IsCounted items u xs _ (λ y k. of y (inr k))
          (select_for-IsCounted items x
            (over p.max_artifacts s.remaining_count count
              ++ over p.max_bytes s.remaining_bytes bytes)
            s u (of x (inl refl)).0 (of x (inl refl)).1 fresh c))
  ]

  over_none : (o : Option ℕ) (n : ℕ) (r : Reason) → within o n ≡ true → over o n r ≡ []
  over_none none n r h = refl
  over_none (some limit) n r h = ground (arith, h)

  over_some :
      (o : Option ℕ) (n : ℕ) (r : Reason)
      → within o n ≡ false
      → (r' : Reason) × (rs : List Reason) × (over o n r ≡ r' ∷ rs)
  over_some none n r h = absurd (ground arith)
  over_some (some limit) n r h = (r, [], ground (arith, h))

  select_for-Extends :
      (rs : List Reason) (x : Item) (s : Selection) → Extends s.reasons (select_for rs x s).reasons
  select_for-Extends [] x s y h = h
  select_for-Extends (r ∷ rs) x s y h = put-Extends x (r ∷ rs) s.reasons y h

  sweep_item-Extends : (x : Item) (s : Selection) → Extends s.reasons (sweep_item p x s).reasons
  unfolding sweep_item
  sweep_item-Extends x s = elim (Bool-cases (is_selected s.reasons x)) [
    | inl again ↦ rw again (λ y h. h)
    | inr fresh ↦ rw fresh (
        select_for-Extends
          (over p.max_artifacts s.remaining_count count ++ over p.max_bytes s.remaining_bytes bytes)
          x s)
  ]

  pub sweep-Extends : (xs : List Item) (s : Selection) → Extends s.reasons (sweep p xs s).reasons
  unfolding sweep
  sweep-Extends [] s y h = h
  sweep-Extends (x ∷ xs) s y h = sweep-Extends xs (sweep_item p x s) y (sweep_item-Extends x s y h)

  sweep_item_held : (x : Item) (s : Selection) → holds s ≡ true → sweep_item p x s ≡ s
  unfolding sweep_item
  sweep_item_held x s h = elim (Bool-cases (is_selected s.reasons x)) [
    | inl again ↦ rw again refl
    | inr fresh ↦
        rw
          (
            fresh,
            over_none p.max_artifacts s.remaining_count count (ground (arith, h)),
            over_none p.max_bytes s.remaining_bytes bytes (ground (arith, h)),
          )
          refl
  ]

  sweep_held : (xs : List Item) (s : Selection) → holds s ≡ true → sweep p xs s ≡ s
  unfolding sweep
  sweep_held [] s h = refl
  sweep_held (x ∷ xs) s h = ap (sweep p xs) (sweep_item_held x s h) ∙ sweep_held xs s h

  -- While a limit is exceeded, there is a reason.
  exceeded :
      (s : Selection)
      → holds s ≡ false
      → (r : Reason) × (rs : List Reason) × (over p.max_artifacts s.remaining_count count
            ++ over p.max_bytes s.remaining_bytes bytes
          ≡ r ∷ rs)
  exceeded s h = elim (Bool-cases (within p.max_artifacts s.remaining_count)) [
    | inl few ↦
        let (r, rs, e) = over_some p.max_bytes s.remaining_bytes bytes (ground (arith, h, few)) in
        (r, rs, rw (over_none p.max_artifacts s.remaining_count count few) e)
    | inr many ↦
        let (r, rs, e) = over_some p.max_artifacts s.remaining_count count many in
        (r, rs ++ over p.max_bytes s.remaining_bytes bytes, rw e refl)
  ]

  sweep_item_takes :
      (x : Item) (s : Selection) → holds s ≡ false → is_selected (sweep_item p x s).reasons x ≡ true
  unfolding sweep_item
  sweep_item_takes x s h = elim (Bool-cases (is_selected s.reasons x)) [
    | inl again ↦ rw again again
    | inr fresh ↦ let (r, rs, e) = exceeded s h in rw (fresh, e) (selected_put x (r ∷ rs) s.reasons)
  ]

  -- The sweep leaves a limit exceeded only if it has taken every item.
  pub sweep_effort :
      (xs : List Item) (s : Selection)
      → (holds (sweep p xs s) ≡ true)
        ⊎ ((x : Item) → Has x xs → is_selected (sweep p xs s).reasons x ≡ true)
  unfolding sweep
  sweep_effort [] s = inr (λ x h. absurd h)
  sweep_effort (x ∷ xs) s = elim (Bool-cases (holds s)) [
    | inl h ↦ inl (ap holds (sweep_held (x ∷ xs) s h) ∙ h)
    | inr h ↦ elim (sweep_effort xs (sweep_item p x s)) [
      | inl k ↦ inl k
      | inr f ↦ inr (λ y at. elim at [
        | inl e ↦
            subst (λ (z : Item). is_selected (sweep p xs (sweep_item p x s)).reasons z ≡ true)
              (sym e) (sweep-Extends xs (sweep_item p x s) x (sweep_item_takes x s h))
        | inr k ↦ f y k
      ])
    ]
  ]
