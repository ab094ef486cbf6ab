-- ===== src/Artifacts/Retention/Promises.antt =====
-- The plan of plan_artifact_collection (srcdiffvisual/artifacts/lifecycle.py): which artifacts it
-- names, what it accounts for, and how far it goes.
use src_visual.Common.{
  ◌≡◌, refl, ap, sym, subst, ◌⊎◌, inl, inr, Bool-cases, arith, [], ◌∷◌, ◌+◌, ◌&&◌, true, false,
}
use src_visual.Common.Sums.{
  sum-sort_by, length-sort_by, Has, Has-map, Has-select, Has-sort_by, select-Has, sort_by-Has,
  all-Has, sum-map,
}
use src_visual.Artifacts.Inventory.{sorts_before, is_valid, total_bytes}
use src_visual.Artifacts.Retention.{
  is_young, is_settled, Selection, false, true, ◌∷◌, ℕ, map, length, List, ArtifactRetentionPolicy,
  ArtifactCollectionPlan, ArtifactCollectionCandidate, is_eligible, is_selected, candidate,
  returned, aware, within, reclaimable_bytes, plan_of, plan_artifact_collection,
}
use src_visual.Artifacts.Retention.Choice.{Item, IsDistinct, chosen}
use src_visual.Artifacts.Retention.Plans.{IsPlanned_lem, ordered, TakesOld}

length-map : {A B : Type 0} (f : A → B) (xs : List A) → length (map f xs) ≡ length xs
length-map f [] = refl
length-map f (x ∷ xs) = omega (arith, length-map f xs)

Has-map_back : {A B : Type 0} (f : A → B) (x : A) (xs : List A) → Has x xs → Has (f x) (map f xs)
Has-map_back f x [] h = absurd h
Has-map_back f x (y ∷ ys) (inl e) = inl (ap f e)
Has-map_back f x (y ∷ ys) (inr k) = inr (Has-map_back f x ys k)

module _ (items : List Item) (p : ArtifactRetentionPolicy) (now : ℕ) (plan : ArtifactCollectionPlan)
    (distinct : IsDistinct items)
    (is_plan : plan_artifact_collection items p (aware now) ≡ returned plan) where
  -- A collection plan for an inventory without double ids accounts for every artifact and every
  -- byte: what it leaves and what it reclaims are together the whole inventory.
  pub plan_accounts :
      (plan.remaining_artifacts + length plan.candidates ≡ length items)
      × (plan.remaining_bytes + reclaimable_bytes plan.candidates ≡ total_bytes items)
  unfolding plan_of
  plan_accounts =
      let (s, q) = IsPlanned_lem items p now distinct plan is_plan in
      subst
        (λ (z : ArtifactCollectionPlan).
          (z.remaining_artifacts + length z.candidates ≡ length items)
          × (z.remaining_bytes + reclaimable_bytes z.candidates ≡ total_bytes items))
        q.planned
        (
          omega (
            arith,
            q.counts.counted,
            q.counts.choice.counted,
            length-map (candidate s.reasons) (chosen s.reasons (ordered items)),
            length-sort_by sorts_before items,
          ),
          omega (
            arith,
            q.counts.weighed,
            sum-map (λ c. c.size_bytes) (candidate s.reasons) (chosen s.reasons (ordered items)),
            sum-sort_by (λ y. y.size_bytes) sorts_before items,
          ),
        )

  -- A collection plan for an inventory without double ids names only artifacts of the inventory that
  -- are valid and that no run refers to, with their sizes.
  pub plan_spares :
      (c : ArtifactCollectionCandidate)
      → Has c plan.candidates
      → (x : Item) × Has x items
        × (c.artifact_id ≡ x.artifact_id)
        × (c.size_bytes ≡ x.size_bytes)
        × (is_valid x.integrity ≡ true)
        × (x.protected ≡ false)
  unfolding plan_of
  plan_spares c h =
      let (s, q) = IsPlanned_lem items p now distinct plan is_plan in
      let (x, k, e) =
        Has-map (candidate s.reasons) c (chosen s.reasons (ordered items))
          (subst (λ (z : ArtifactCollectionPlan). Has c z.candidates) (sym q.planned) h) in
      let (picked, at) = Has-select (is_selected s.reasons) x (ordered items) k in
      let free = q.counts.choice.eligible x at picked in
      (
        x,
        Has-sort_by x sorts_before items at,
        ap (λ (z : ArtifactCollectionCandidate). z.artifact_id) e,
        ap (λ (z : ArtifactCollectionCandidate). z.size_bytes) e,
        ground (arith, free),
        ground (arith, free),
      )

  -- A collection plan for an inventory without double ids keeps within the limits on the number and
  -- the size of the artifacts, unless it names every artifact that is valid and not referred to.
  pub plan_exhausts :
      ((within p.max_artifacts plan.remaining_artifacts && within p.max_bytes plan.remaining_bytes)
        ≡ true)
      ⊎ ((x : Item)
          → Has x items
          → is_eligible x ≡ true
          → (c : ArtifactCollectionCandidate) × Has c plan.candidates
            × (c.artifact_id ≡ x.artifact_id))
  unfolding plan_of
  plan_exhausts =
      let (s, q) = IsPlanned_lem items p now distinct plan is_plan in
      elim q.effort [
        | inl h ↦ inl (
            subst
              (λ (z : ArtifactCollectionPlan).
                (within p.max_artifacts z.remaining_artifacts
                  && within p.max_bytes z.remaining_bytes)
                ≡ true)
              q.planned h)
        | inr f ↦ inr (λ x at e. (
          candidate s.reasons x,
          subst (λ (z : ArtifactCollectionPlan). Has (candidate s.reasons x) z.candidates) q.planned
              (Has-map_back (candidate s.reasons) x (chosen s.reasons (ordered items)) (
                select-Has (is_selected s.reasons) x (ordered items)
                  (sort_by-Has x sorts_before items at)
                  (f x (
                    select-Has is_eligible x (ordered items) (sort_by-Has x sorts_before items at)
                      e)))),
          refl,
        ))
      ]

  -- A collection plan for an inventory without double ids satisfies the policy exactly if it keeps within the limits on the number and the size of the
  -- artifacts: the age limit is then met by every artifact that may be collected.
  pub plan_satisfies :
      plan.satisfies_policy
      ≡ (within p.max_artifacts plan.remaining_artifacts && within p.max_bytes plan.remaining_bytes)
  unfolding plan_of
  plan_satisfies =
      let (s, q) = IsPlanned_lem items p now distinct plan is_plan in
      subst
        (λ (z : ArtifactCollectionPlan).
          z.satisfies_policy
          ≡ (within p.max_artifacts z.remaining_artifacts && within p.max_bytes z.remaining_bytes))
        q.planned
        (ground
          (arith, all-Has (is_settled p now s.reasons) (ordered items) (settled s q.takes_old)))
    where
      settled :
          (s : Selection)
          → TakesOld items p now distinct p.max_age_seconds s.reasons
          → (x : Item) → Has x (ordered items)
          → is_settled p now s.reasons x ≡ true
      settled s old x at = elim (Bool-cases (is_young p.max_age_seconds now x.created_at)) [
        | inl young ↦ ground (arith, young)
        | inr aged ↦ elim (Bool-cases (is_eligible x)) [
          | inl e ↦ ground (arith, old x (select-Has is_eligible x (ordered items) at e) aged)
          | inr other ↦ ground (arith, other)
        ]
      ]
