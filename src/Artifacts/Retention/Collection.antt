-- ===== src/Artifacts/Retention/Collection.antt =====
-- srcdiffvisual/artifacts/lifecycle.py: apply_artifact_collection. The run references and the
-- directories may change while it runs: the k-th call of `protected_artifact_ids` and the directory
-- test that follows it are arguments, and so are the digest of a plan (SHA-256 of its JSON text) and
-- the listing of the artifact root. What is deleted stands beside the result, since it stays deleted
-- when a later candidate raises. An error of the file system is not modelled.
use src_visual.Common.{
  ◌⊎◌, ℕ, suc, ◌+◌, ◌≡◌, refl, subst, ◌∙◌, Bool, true, false, not, inl, inr, Bool-cases, List, [],
  ◌∷◌, any, String, str_eq, if◌then◌else◌, eq_iff,
}
use src_visual.Common.Sums.{Has}
use src_visual.Runs.Validate.{is_hex}
use src_visual.Artifacts.Inventory.{Entry, is_valid, inventory_artifacts}
use src_visual.Artifacts.Retention.{
  ArtifactRetentionPolicy, ArtifactCollectionPlan, ArtifactCollectionCandidate, Instant, aware,
  Outcome, returned, raised, value_error, stale_plan, plan_artifact_collection,
}
use src_visual.Artifacts.Retention.Choice.{Item, IsDistinct}
use src_visual.Artifacts.Retention.Plans.{Outcome-cases}
use src_visual.Artifacts.Retention.Promises.{plan_spares}

pub record ArtifactCollectionResult : Type 0 where
  pub plan_id : String
  pub deleted_artifact_ids : List String
  pub reclaimed_bytes : ℕ

abbrev pub delete_first :
    ArtifactCollectionCandidate → Outcome ℕ × List String → Outcome ℕ × List String
delete_first c (returned n, ids) = (returned (c.size_bytes + n), c.artifact_id ∷ ids)
delete_first c (raised e, ids) = (raised e, c.artifact_id ∷ ids)

-- The loop over the candidates: the reclaimed bytes, and the ids of the removed directories.
unfoldable pub delete_loop :
    (ℕ → List String)
    → (ℕ → String → Bool)
    → ℕ
    → List ArtifactCollectionCandidate
    → Outcome ℕ × List String
delete_loop references is_directory k [] = (returned 0, [])
delete_loop references is_directory k (c ∷ cs) =
    let rest = delete_loop references is_directory (suc k) cs in
    if any (str_eq c.artifact_id) (references k)
    then (raised stale_plan, [])
    else if not (is_directory k c.artifact_id)
    then (raised stale_plan, [])
    else delete_first c rest

abbrev pub result_of :
    String → Outcome ℕ × List String → Outcome ArtifactCollectionResult × List String
result_of id (raised e, ids) = (raised e, ids)
result_of id (returned n, ids) =
    (returned (record { plan_id = id; deleted_artifact_ids = ids; reclaimed_bytes = n }), ids)

module _ (digest : ArtifactCollectionPlan → String) (references : ℕ → List String)
    (is_directory : ℕ → String → Bool) where
  unfoldable pub then_delete :
      String → Outcome ArtifactCollectionPlan → Outcome ArtifactCollectionResult × List String
  unfolding delete_loop
  then_delete expected (raised e) = (raised e, [])
  then_delete expected (returned plan) =
      if str_eq (digest plan) expected
      then result_of (digest plan) (delete_loop references is_directory 1 plan.candidates)
      else (raised stale_plan, [])

  unfoldable pub apply_artifact_collection :
      List Entry
      → ArtifactRetentionPolicy
      → String
      → Instant
      → Outcome ArtifactCollectionResult × List String
  unfolding then_delete
  apply_artifact_collection entries p expected now =
      if not (is_hex 64 expected)
      then (raised value_error, [])
      else then_delete expected
          (plan_artifact_collection (inventory_artifacts entries (references 0)) p now)

  -- The id is that of a candidate whose own turn, by the numbers from k on, found no reference to it
  -- and found its directory.
  abbrev pub IsRemoved : ℕ → List ArtifactCollectionCandidate → String → Type 0
  IsRemoved k [] id = ⊥
  IsRemoved k (c ∷ cs) id =
      ((id ≡ c.artifact_id) × (any (str_eq id) (references k) ≡ false) × (is_directory k id ≡ true))
      ⊎ IsRemoved (suc k) cs id

  IsRemoved-candidate :
      (k : ℕ) (cs : List ArtifactCollectionCandidate) (id : String)
      → IsRemoved k cs id
      → (c : ArtifactCollectionCandidate) × Has c cs × (id ≡ c.artifact_id)
  IsRemoved-candidate k [] id h = absurd h
  IsRemoved-candidate k (c ∷ cs) id (inl now) = (c, inl refl, now.0)
  IsRemoved-candidate k (c ∷ cs) id (inr later) =
      let (d, at, same) = IsRemoved-candidate (suc k) cs id later in (d, inr at, same)

  IsRemoved-first :
      (k : ℕ) (c : ArtifactCollectionCandidate) (cs : List ArtifactCollectionCandidate)
      (rest : Outcome ℕ × List String) (id : String)
      → any (str_eq c.artifact_id) (references k) ≡ false
      → is_directory k c.artifact_id ≡ true
      → (Has id rest.1 → IsRemoved (suc k) cs id)
      → Has id (delete_first c rest).1
      → IsRemoved k (c ∷ cs) id
  IsRemoved-first k c cs (returned n, ids) id free there f h = elim h [
    | inl e ↦ inl (e, rw e free, rw e there)
    | inr j ↦ inr (f j)
  ]
  IsRemoved-first k c cs (raised _, ids) id free there f h = elim h [
    | inl e ↦ inl (e, rw e free, rw e there)
    | inr j ↦ inr (f j)
  ]

  delete_loop-IsRemoved :
      (k : ℕ) (cs : List ArtifactCollectionCandidate) (id : String)
      → Has id (delete_loop references is_directory k cs).1
      → IsRemoved k cs id
  unfolding delete_loop
  delete_loop-IsRemoved k [] id = λ h. absurd h
  delete_loop-IsRemoved k (c ∷ cs) id =
      elim (Bool-cases (any (str_eq c.artifact_id) (references k))) [
        | inl held ↦ rw held (λ h. absurd h)
        | inr free ↦ elim (Bool-cases (is_directory k c.artifact_id)) [
          | inr gone ↦ rw (free, gone) (λ h. absurd h)
          | inl there ↦
              rw (free, there)
                (IsRemoved-first k c cs (delete_loop references is_directory (suc k) cs) id free
                  there (delete_loop-IsRemoved (suc k) cs id))
        ]
      ]

  result_of_ids : (i : String) (o : Outcome ℕ × List String) → (result_of i o).1 ≡ o.1
  result_of_ids i (raised e, ids) = refl
  result_of_ids i (returned n, ids) = refl

  -- With a listing without double names, an artifact that apply_artifact_collection deletes, whether
  -- it returns or raises, was valid and not referred to in the inventory that it took, and was a
  -- candidate of a plan whose id is the reviewed one; and in the turn of that candidate, no run
  -- referred to it by the call of protected_artifact_ids made in that turn, and its directory was
  -- there. The first call is the inventory's, the candidates' turns have the later ones in order.
  pub apply_deletes :
      (entries : List Entry) (p : ArtifactRetentionPolicy) (expected : String) (now : ℕ)
      (id : String)
      → IsDistinct (inventory_artifacts entries (references 0))
      → Has id (apply_artifact_collection entries p expected (aware now)).1
      → (plan : ArtifactCollectionPlan) × (plan_artifact_collection
            (inventory_artifacts entries (references 0))
            p
            (aware now)
          ≡ returned plan)
        × (digest plan ≡ expected)
        × IsRemoved 1 plan.candidates id
        × (x : Item) × Has x (inventory_artifacts entries (references 0))
        × (id ≡ x.artifact_id)
        × (is_valid x.integrity ≡ true)
        × (x.protected ≡ false)
  unfolding apply_artifact_collection
  apply_deletes entries p expected now id distinct = elim (Bool-cases (is_hex 64 expected)) [
    | inr bad ↦ rw bad (λ h. absurd h)
    | inl hex ↦
        elim (Outcome-cases
          (plan_artifact_collection (inventory_artifacts entries (references 0)) p (aware now))) [
            | inr (e, fails) ↦ rw (hex, fails) (λ h. absurd h)
            | inl (plan, planned) ↦ elim (Bool-cases (str_eq (digest plan) expected)) [
              | inr stale ↦ rw (hex, planned, then_delete, stale) (λ h. absurd h)
              | inl same ↦
                  rw (hex, planned, then_delete, same)
                    (λ h.
                      let removed = delete_loop-IsRemoved 1 plan.candidates id (
                        subst (Has id)
                          (result_of_ids (digest plan)
                            (delete_loop references is_directory 1 plan.candidates))
                          h) in
                      let (c, among, same_id) = IsRemoved-candidate 1 plan.candidates id removed in
                      let (x, at, id_x, size, good, free) =
                        plan_spares (inventory_artifacts entries (references 0)) p now plan distinct
                          planned c among in
                      (
                        plan,
                        refl,
                        (eq_iff (digest plan) expected).0 same,
                        removed,
                        x,
                        at,
                        same_id ∙ id_x,
                        good,
                        free,
                      ))
            ]
          ]
  ]
