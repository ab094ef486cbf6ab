-- ===== src/Artifacts/Retention.antt =====
-- srcdiffvisual/artifacts/lifecycle.py: the policy and plan_artifact_collection.
pub mod Choice
pub mod Sweep
pub mod Plans
pub mod Promises
pub mod Collection
pub mod Existence
use src_visual.Common.{
  ℕ, ℤ, pos, negsuc, zero, suc, ◌+◌, ◌-◌, ◌*◌, String, Bool, true, false, not, ◌&&◌, ◌||◌, Option,
  none, some, List, [], ◌∷◌, ◌++◌, map, select, all, any, sort_by, length, leb, ltb, ◌==◌, str_eq,
  str_leb, if◌then◌else◌, get_or,
}
use src_visual.Common.Dict.{Dict, contains, get, put}
use src_visual.Common.Sums.{sum}
use src_visual.Artifacts.Inventory.{ArtifactInventoryItem, sorts_before, total_bytes, is_valid}

pub record ArtifactRetentionPolicy : Type 0 where
  pub max_artifacts : Option ℕ
  pub max_bytes : Option ℕ
  pub max_age_seconds : Option ℕ

pub data Reason : Type 0 where
  age count bytes : Reason

pub record ArtifactCollectionCandidate : Type 0 where
  pub artifact_id : String
  pub size_bytes : ℕ
  pub reasons : List Reason

pub record ArtifactCollectionPlan : Type 0 where
  pub policy : ArtifactRetentionPolicy
  pub candidates : List ArtifactCollectionCandidate
  pub remaining_artifacts : ℕ
  pub remaining_bytes : ℕ
  pub satisfies_policy : Bool

-- ValueError, OverflowError of an instant before the least one, AssertionError, and
-- StaleCollectionPlanError.
pub data RetentionError : Type 0 where
  value_error overflow_error assertion_error stale_plan : RetentionError

pub data Outcome {ℓ} (A : Type ℓ) : Type ℓ where
  returned : A → Outcome A
  raised : RetentionError → Outcome A

abbrev pub and_then {ℓ κ} : {A : Type ℓ} {B : Type κ} → Outcome A → (A → Outcome B) → Outcome B
and_then (returned a) f = f a
and_then (raised e) f = raised e

-- One pass of the loop of `__post_init__`.
abbrev pub nonnegative : Option ℤ → Outcome (Option ℕ)
nonnegative none = returned none
nonnegative (some (pos n)) = returned (some n)
nonnegative (some (negsuc n)) = raised value_error

unfoldable pub retention_policy : Option ℤ → Option ℤ → Option ℤ → Outcome ArtifactRetentionPolicy
retention_policy max_artifacts max_bytes max_age_seconds =
    and_then (nonnegative max_artifacts) (λ a. and_then (nonnegative max_bytes) (λ b.
      and_then (nonnegative max_age_seconds)
        (λ c. returned (record { max_artifacts = a; max_bytes = b; max_age_seconds = c }))))

-- A `datetime`, with or without a timezone.
pub data Instant : Type 0 where
  naive aware : ℕ → Instant

abbrev pub is_eligible : ArtifactInventoryItem → Bool
is_eligible x = is_valid x.integrity && not x.protected

abbrev pub Reasons : Type 0
Reasons = Dict (List Reason)

-- The first loop: what has reached the age limit.
unfoldable pub age_reasons : ℕ → List ArtifactInventoryItem → Reasons → Outcome Reasons
age_reasons cutoff [] d = returned d
age_reasons cutoff (x ∷ xs) d = elim x.created_at [
  | none ↦ raised assertion_error
  | some t ↦ age_reasons cutoff xs (if leb t cutoff then put x.artifact_id (age ∷ []) d else d)
]

-- `_now - timedelta(seconds=seconds)`, or the error.
abbrev pub before_cutoff {ℓ} : {A : Type ℓ} → ℕ → ℕ → (ℕ → Outcome A) → Outcome A
before_cutoff now seconds f =
    if leb (seconds * 1000000) now then f (now - seconds * 1000000) else raised overflow_error

unfoldable pub aged : Option ℕ → ℕ → List ArtifactInventoryItem → Outcome Reasons
unfolding age_reasons
aged none now eligible = returned []
aged (some seconds) now eligible =
    before_cutoff now seconds (λ cutoff. age_reasons cutoff eligible [])

-- `_selected_reasons`, whose keys are `_selected_ids`, with `_remaining_count` and
-- `_remaining_bytes`. No subtraction goes below zero: each selected item is taken off once.
pub record Selection : Type 0 where
  pub reasons : Reasons
  pub remaining_count : ℕ
  pub remaining_bytes : ℕ

abbrev pub over : Option ℕ → ℕ → Reason → List Reason
over none n r = []
over (some limit) n r = if ltb limit n then r ∷ [] else []

abbrev pub is_selected : Reasons → ArtifactInventoryItem → Bool
is_selected d x = contains x.artifact_id d

abbrev pub select_for : List Reason → ArtifactInventoryItem → Selection → Selection
select_for [] x s = s
select_for (r ∷ rs) x s = record {
  reasons = put x.artifact_id (r ∷ rs) s.reasons;
  remaining_count = s.remaining_count - 1;
  remaining_bytes = s.remaining_bytes - x.size_bytes;
}

-- The second loop: the oldest go first, while a limit is exceeded.
unfoldable pub sweep_item : ArtifactRetentionPolicy → ArtifactInventoryItem → Selection → Selection
sweep_item p x s =
    if is_selected s.reasons x
    then s
    else select_for
        (over p.max_artifacts s.remaining_count count ++ over p.max_bytes s.remaining_bytes bytes) x
        s

unfoldable pub sweep : ArtifactRetentionPolicy → List ArtifactInventoryItem → Selection → Selection
unfolding sweep_item
sweep p [] s = s
sweep p (x ∷ xs) s = sweep p xs (sweep_item p x s)

-- `reclaimable_bytes`
abbrev pub reclaimable_bytes : List ArtifactCollectionCandidate → ℕ
reclaimable_bytes = sum (λ c. c.size_bytes)

abbrev pub candidate : Reasons → ArtifactInventoryItem → ArtifactCollectionCandidate
candidate d x = record {
  artifact_id = x.artifact_id;
  size_bytes = x.size_bytes;
  reasons = get_or (get x.artifact_id d) [];
}

abbrev pub within : Option ℕ → ℕ → Bool
within none n = true
within (some limit) n = leb n limit

-- `max_age_seconds is None or created_at is None or created_at > cutoff`
abbrev pub is_young : Option ℕ → ℕ → Option ℕ → Bool
is_young none now created = true
is_young (some seconds) now none = true
is_young (some seconds) now (some t) = ltb (now - seconds * 1000000) t

abbrev pub is_settled : ArtifactRetentionPolicy → ℕ → Reasons → ArtifactInventoryItem → Bool
is_settled p now d x =
    x.protected
    || (not (is_valid x.integrity)
        || (is_young p.max_age_seconds now x.created_at || is_selected d x))

-- The selection between the two loops.
abbrev pub first_selection :
    List ArtifactInventoryItem → List ArtifactInventoryItem → Reasons → Selection
first_selection items eligible d = record {
  reasons = d;
  remaining_count = length items - length d;
  remaining_bytes = total_bytes items - total_bytes (select (is_selected d) eligible);
}

unfoldable pub plan_of :
    ArtifactRetentionPolicy → ℕ → List ArtifactInventoryItem → Selection → ArtifactCollectionPlan
plan_of p now ordered s = record {
  policy = p;
  candidates = map (candidate s.reasons) (select (is_selected s.reasons) ordered);
  remaining_artifacts = s.remaining_count;
  remaining_bytes = s.remaining_bytes;
  satisfies_policy =
      within p.max_artifacts s.remaining_count
      && (within p.max_bytes s.remaining_bytes && all (is_settled p now s.reasons) ordered);
}

abbrev pub then_plan :
    ArtifactRetentionPolicy
    → ℕ
    → List ArtifactInventoryItem
    → List ArtifactInventoryItem
    → Outcome Reasons
    → Outcome ArtifactCollectionPlan
then_plan p now items ordered (raised e) = raised e
then_plan p now items ordered (returned d) =
    let eligible = select is_eligible ordered in
    returned (plan_of p now ordered (sweep p eligible (first_selection items eligible d)))

unfoldable pub plan_artifact_collection :
    List ArtifactInventoryItem → ArtifactRetentionPolicy → Instant → Outcome ArtifactCollectionPlan
unfolding aged plan_of sweep
plan_artifact_collection items p (naive now) = raised value_error
plan_artifact_collection items p (aware now) =
    let ordered = sort_by sorts_before items in
    then_plan p now items ordered (aged p.max_age_seconds now (select is_eligible ordered))
