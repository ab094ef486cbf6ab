-- ===== src/Artifacts/Retention/Existence.antt =====
-- When plan_artifact_collection (srcdiffvisual/artifacts/lifecycle.py) gives a plan.
use src_visual.Common.{
  inr, inl, ℕ, ◌*◌, ◌-◌, ◌≡◌, refl, ap, sym, subst, ◌∙◌, Bool, true, Option, none, some, List, [],
  ◌∷◌, String, select, any, str_eq, leb, arith, if◌then◌else◌, map,
}
use src_visual.Common.Dict.{put}
use src_visual.Common.Sums.{Has, Has-map, Has-select, Has-sort_by}
use src_visual.Artifacts.Inventory.{
  Entry, Check, passes, is_incompatible, is_corrupt, checked_item, inventory_item,
  inventory_artifacts, is_artifact_directory, is_valid, sorts_before,
}
use src_visual.Artifacts.Retention.{
  ArtifactRetentionPolicy, ArtifactCollectionPlan, Reasons, returned, aware, age, age_reasons, aged,
  is_eligible, plan_artifact_collection,
}
use src_visual.Artifacts.Retention.Choice.{Item}
use src_visual.Artifacts.Retention.Plans.{eligible, ordered}

abbrev pub IsDated : Item → Type 0
IsDated x = (t : ℕ) × (x.created_at ≡ some t)

age_reasons_returns :
    (cutoff : ℕ) (xs : List Item) (d : Reasons)
    → ((x : Item) → Has x xs → IsDated x)
    → (d' : Reasons) × (age_reasons cutoff xs d ≡ returned d')
unfolding age_reasons
age_reasons_returns cutoff [] d dated = (d, refl)
age_reasons_returns cutoff (x ∷ xs) d dated =
    let (t, at) = dated x (inl refl) in
    simp (at, age_reasons)
      (age_reasons_returns cutoff xs (if leb t cutoff then put x.artifact_id (age ∷ []) d else d)
        (λ y k. dated y (inr k)))

checked_item-IsDated :
    (e : Entry) (protected : Bool) (c : Check)
    → is_valid (checked_item e protected c).integrity ≡ true
    → IsDated (checked_item e protected c)
checked_item-IsDated e protected (passes t) h = (t, refl)
checked_item-IsDated e protected (is_incompatible m) h = absurd (ground (arith, h))
checked_item-IsDated e protected (is_corrupt m) h = absurd (ground (arith, h))

-- The age limit reaches back to an instant that `datetime` has.
abbrev pub reaches_back : Option ℕ → ℕ → Bool
reaches_back none now = true
reaches_back (some seconds) now = leb (seconds * 1000000) now

module _ (entries : List Entry) (ids : List String) where
  eligible-IsDated : (x : Item) → Has x (eligible (inventory_artifacts entries ids)) → IsDated x
  unfolding inventory_artifacts
  eligible-IsDated x h =
      let (free, k) = Has-select is_eligible x (ordered (inventory_artifacts entries ids)) h in
      let found = select is_artifact_directory entries in
      let (e, at, same) = Has-map (inventory_item ids) x found (
        Has-sort_by x sorts_before (map (inventory_item ids) found)
          (Has-sort_by x sorts_before (inventory_artifacts entries ids) k)) in
      subst IsDated (sym same) (
        checked_item-IsDated e (any (str_eq e.name) ids) e.check
          (sym (ap (λ (y : Item). is_valid y.integrity) same) ∙ ground (arith, free)))

  aged_returns :
      (o : Option ℕ) (now : ℕ)
      → reaches_back o now ≡ true
      → (d : Reasons) × (aged o now (eligible (inventory_artifacts entries ids)) ≡ returned d)
  unfolding aged
  aged_returns none now h = ([], refl)
  aged_returns (some seconds) now h = rw h (
      age_reasons_returns (now - seconds * 1000000) (eligible (inventory_artifacts entries ids)) []
        eligible-IsDated)

  -- There is a plan for every inventory that `inventory_artifacts` makes, unless the age limit lies
  -- before the least instant that `datetime` has.
  pub plan_returns :
      (p : ArtifactRetentionPolicy) (now : ℕ)
      → reaches_back p.max_age_seconds now ≡ true
      → (plan : ArtifactCollectionPlan) × (plan_artifact_collection
            (inventory_artifacts entries ids)
            p
            (aware now)
          ≡ returned plan)
  unfolding plan_artifact_collection
  plan_returns p now h = let (d, good) = aged_returns p.max_age_seconds now h in rw good (_, refl)
