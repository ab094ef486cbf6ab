-- ===== src/Artifacts/Retention/Plans.antt =====
-- What plan_artifact_collection (srcdiffvisual/artifacts/lifecycle.py) promises of its plan.
use src_visual.Common.{
  subst, ℕ, ◌-◌, ◌*◌, ◌≡◌, refl, ap, true, false, Option, none, some, List, [], ◌∷◌, select, leb,
  sort_by, arith, inl, inr, ◌⊎◌, Bool-cases, Option-cases,
}
use src_visual.Common.Dict.{contains}
use src_visual.Common.Sums.{
  select-select, Has, sum, length-sum, sum-select-le, sum-sort_by, length-sort_by, Has-select,
}
use src_visual.Artifacts.Inventory.{sorts_before}
use src_visual.Artifacts.Retention.{
  is_young, contains, RetentionError, ArtifactRetentionPolicy, ArtifactCollectionPlan, Reasons,
  is_eligible, is_selected, Outcome, returned, raised, aware, aged, Selection, sweep,
  first_selection, plan_of, plan_artifact_collection,
}
use src_visual.Artifacts.Retention.Choice.{Item, IsDistinct, chosen, IsChoice, sort_by-IsDistinct}
use src_visual.Artifacts.Retention.Sweep.{
  sweep-Extends, IsAged, age_reasons-IsAged, IsCounted, holds, sweep-IsCounted, sweep_effort,
}

-- The items in the order of the loops, and those that may be collected.
abbrev pub ordered : List Item → List Item
ordered = sort_by sorts_before

abbrev pub eligible : List Item → List Item
eligible items = select is_eligible (ordered items)

returned-injective : {A : Type 0} {a b : A} → returned a ≡ returned b → a ≡ b
returned-injective {A} {a} h = ap value h
  where
    value : Outcome A → A
    value (returned x) = x
    value (raised e) = a

pub Outcome-cases :
    {A : Type 0} (o : Outcome A)
    → ((a : A) × (o ≡ returned a)) ⊎ ((e : RetentionError) × (o ≡ raised e))
Outcome-cases (returned a) = inl (a, refl)
Outcome-cases (raised e) = inr (e, refl)

module _ (items : List Item) (p : ArtifactRetentionPolicy) (now : ℕ) (u : IsDistinct items) where
  eligible-Has :
      (x : Item) → Has x (eligible items) → Has x (ordered items) × (is_eligible x ≡ true)
  eligible-Has x h = let (e, k) = Has-select is_eligible x (ordered items) h in (k, e)

  empty-IsChoice : (xs : List Item) → IsChoice xs []
  unfolding contains
  empty-IsChoice xs = record {
    eligible = λ x h k. absurd (ground arith);
    counted = omega (arith, length-sum (chosen [] xs), none_chosen xs);
  }
    where
      none_chosen : (ys : List Item) → sum (λ y. 1) (chosen [] ys) ≡ 0
      none_chosen [] = refl
      none_chosen (y ∷ ys) = none_chosen ys

  -- What the first loop selects holds every eligible item that has reached the age limit.
  abbrev pub TakesOld : Option ℕ → Reasons → Type 0
  TakesOld o d =
      (x : Item)
      → Has x (eligible items)
      → is_young o now x.created_at ≡ false
      → is_selected d x ≡ true

  old_item :
      (seconds : ℕ) (d : Reasons) (x : Item)
      → ((t : ℕ)
          → x.created_at ≡ some t
          → leb t (now - seconds * 1000000) ≡ true
          → is_selected d x ≡ true)
      → is_young (some seconds) now x.created_at ≡ false
      → is_selected d x ≡ true
  old_item seconds d x f = elim (Option-cases x.created_at) [
    | inl missing ↦ rw missing (λ h. absurd (ground arith))
    | inr (t, at) ↦ λ h. f t at (ground (arith, h, at))
  ]

  aged-lem :
      (o : Option ℕ) (d : Reasons)
      → aged o now (eligible items) ≡ returned d
      → IsChoice (ordered items) d × TakesOld o d
  unfolding aged
  aged-lem none d = λ h. (
    subst (IsChoice (ordered items)) (returned-injective h) (empty-IsChoice (ordered items)),
    λ x k y. absurd (ground arith),
  )
  aged-lem (some seconds) d = elim (Bool-cases (leb (seconds * 1000000) now)) [
    | inr far ↦ rw far (λ h. absurd (ground (arith, h)))
    | inl near ↦ rw near (λ h.
        let (c, ext, old) =
          subst (IsAged (ordered items) (now - seconds * 1000000) (eligible items) []) h (
            age_reasons-IsAged (ordered items) (sort_by-IsDistinct sorts_before items u)
              (now - seconds * 1000000) (eligible items) [] eligible-Has
              (empty-IsChoice (ordered items))) in
        (c, λ x k. old_item seconds d x (λ t. old x t k)))
  ]

  first-IsCounted :
      (d : Reasons)
      → IsChoice (ordered items) d
      → IsCounted (ordered items) (first_selection items (eligible items) d)
  first-IsCounted d c = record {
    choice = c;
    counted = omega (
      arith,
      c.counted,
      length-sum (chosen d (ordered items)),
      length-sum (ordered items),
      sum-select-le (λ y. 1) (is_selected d) (ordered items),
      length-sort_by sorts_before items,
    );
    weighed = rw (select-select (is_selected d) is_eligible (ordered items) c.eligible) (
        omega (
          arith,
          sum-select-le (λ y. y.size_bytes) (is_selected d) (ordered items),
          sum-sort_by (λ y. y.size_bytes) sorts_before items,
        ));
  }

  -- The selection that a plan is made of.
  pub record IsPlanned (plan : ArtifactCollectionPlan) (s : Selection) : Type 0 where
    pub counts : IsCounted (ordered items) s
    pub effort :
        (holds p s ≡ true) ⊎ ((x : Item) → Has x (eligible items) → is_selected s.reasons x ≡ true)
    pub takes_old : TakesOld p.max_age_seconds s.reasons
    pub planned : plan_of p now (ordered items) s ≡ plan

  pub IsPlanned_lem :
      (plan : ArtifactCollectionPlan)
      → plan_artifact_collection items p (aware now) ≡ returned plan
      → (s : Selection) × IsPlanned plan s
  unfolding plan_artifact_collection
  IsPlanned_lem plan = elim (Outcome-cases (aged p.max_age_seconds now (eligible items))) [
    | inr (e, bad) ↦ rw bad (λ h. absurd (ground (arith, h)))
    | inl (d, good) ↦ rw good (λ h.
        let (c, old) = aged-lem p.max_age_seconds d good in
        (
          sweep p (eligible items) (first_selection items (eligible items) d),
          record {
            counts =
                sweep-IsCounted p (ordered items) (sort_by-IsDistinct sorts_before items u)
                  (eligible items) (first_selection items (eligible items) d) eligible-Has
                  (first-IsCounted d c);
            effort = sweep_effort p (eligible items) (first_selection items (eligible items) d);
            takes_old = λ x k y.
                sweep-Extends p (eligible items) (first_selection items (eligible items) d) x
                  (old x k y);
            planned = returned-injective h;
          },
        ))
  ]
