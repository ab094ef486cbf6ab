-- ===== src/Artifacts/Tests.antt =====
-- A collection from a small artifact root, and the theorems applied to it.
use src_visual.Common.{
  ◌⊎◌, ◌&&◌, ◌+◌, ℕ, String, ◌≡◌, refl, true, false, none, some, List, [], ◌∷◌, inl,
}
use src_visual.Common.Sums.{Has}
use src_visual.Common.Dict.{contains, get, put}
use src_visual.Runs.Validate.{is_hex}
use src_visual.Artifacts.Inventory.{Entry, passes, total_bytes, is_valid, inventory_artifacts}
use src_visual.Artifacts.Retention.{
  ArtifactRetentionPolicy, ArtifactCollectionPlan, ArtifactCollectionCandidate, returned, aware,
  reclaimable_bytes, is_eligible, within, plan_artifact_collection, age, bytes,
}
use src_visual.Artifacts.Retention.Choice.{Item, IsDistinct}
use src_visual.Artifacts.Retention.Promises.{
  plan_accounts, plan_spares, plan_exhausts, plan_satisfies,
}
use src_visual.Artifacts.Retention.Existence.{plan_returns}
use src_visual.Artifacts.Retention.Collection.{apply_artifact_collection, apply_deletes, IsRemoved}

abbrev id_a : String
id_a = "aaaaaaaaaaaaaaaaaaaaaaaaaaaaaaaa"

abbrev id_b : String
id_b = "bbbbbbbbbbbbbbbbbbbbbbbbbbbbbbbb"

abbrev id_c : String
id_c = "cccccccccccccccccccccccccccccccc"

abbrev entry : String → ℕ → Entry
entry name t = record {
  name = name;
  is_dir = true;
  is_symlink = false;
  size = 10;
  check = passes t;
}

abbrev entries : List Entry
entries = entry id_a 100 ∷ entry id_b 5000000 ∷ entry id_c 3 ∷ []

abbrev policy : ArtifactRetentionPolicy
policy = record { max_artifacts = none; max_bytes = some 10; max_age_seconds = some 4 }

abbrev references : ℕ → List String
references k = id_c ∷ []

abbrev items : List Item
items = inventory_artifacts entries (references 0)

abbrev plan : ArtifactCollectionPlan
plan = record {
  policy = policy;
  candidates =
      record { artifact_id = id_a; size_bytes = 10; reasons = age ∷ [] }
      ∷ record { artifact_id = id_b; size_bytes = 10; reasons = bytes ∷ [] }
      ∷ [];
  remaining_artifacts = 1;
  remaining_bytes = 10;
  satisfies_policy = true;
}

abbrev digest : ArtifactCollectionPlan → String
digest p = "0123456789abcdef0123456789abcdef0123456789abcdef0123456789abcdef"

plan-items : plan_artifact_collection items policy (aware 5000000) ≡ returned plan
unfolding plan_artifact_collection inventory_artifacts is_hex contains get put
plan-items = refl

items-IsDistinct : IsDistinct items
unfolding inventory_artifacts is_hex
items-IsDistinct = (refl, (refl, (refl, tt)))

plan_accounts_example : (1 + 2 ≡ 3) × (10 + reclaimable_bytes plan.candidates ≡ total_bytes items)
unfolding inventory_artifacts is_hex
plan_accounts_example = plan_accounts items policy 5000000 plan items-IsDistinct plan-items

plan_spares_example :
    (x : Item) × Has x items
    × (id_a ≡ x.artifact_id)
    × (10 ≡ x.size_bytes)
    × (is_valid x.integrity ≡ true)
    × (x.protected ≡ false)
plan_spares_example =
    plan_spares items policy 5000000 plan items-IsDistinct plan-items
      (record { artifact_id = id_a; size_bytes = 10; reasons = age ∷ [] }) (inl refl)

plan_exhausts_example :
    ((within policy.max_artifacts 1 && within policy.max_bytes 10) ≡ true)
    ⊎ ((x : Item)
        → Has x items
        → is_eligible x ≡ true
        → (c : ArtifactCollectionCandidate) × Has c plan.candidates
          × (c.artifact_id ≡ x.artifact_id))
plan_exhausts_example = plan_exhausts items policy 5000000 plan items-IsDistinct plan-items

plan_satisfies_example : true ≡ (within policy.max_artifacts 1 && within policy.max_bytes 10)
plan_satisfies_example = plan_satisfies items policy 5000000 plan items-IsDistinct plan-items

deleted_a :
    Has id_a
      (apply_artifact_collection digest references
        (λ k i. true)
        entries
        policy
        (digest plan)
        (aware 5000000)).1
unfolding apply_artifact_collection plan_artifact_collection inventory_artifacts is_hex contains get
    put
deleted_a = inl refl

apply_deletes_example :
    (p : ArtifactCollectionPlan) × (plan_artifact_collection items policy (aware 5000000)
      ≡ returned p)
    × (digest p ≡ digest plan)
    × IsRemoved digest references (λ k i. true) 1 p.candidates id_a
    × (x : Item) × Has x items
    × (id_a ≡ x.artifact_id)
    × (is_valid x.integrity ≡ true)
    × (x.protected ≡ false)
apply_deletes_example =
    apply_deletes digest references (λ k i. true) entries policy (digest plan) 5000000 id_a
      items-IsDistinct deleted_a

plan_returns_example :
    (p : ArtifactCollectionPlan) × (plan_artifact_collection items policy (aware 5000000)
      ≡ returned p)
plan_returns_example = plan_returns entries (references 0) policy 5000000 refl
