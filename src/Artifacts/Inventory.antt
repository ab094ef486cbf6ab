-- ===== src/Artifacts/Inventory.antt =====
-- srcdiffvisual/artifacts/lifecycle.py: inventory_artifacts. An instant is the number of microseconds
-- since the least one that `datetime` has, in UTC.
use src_visual.Common.{
  ℕ, String, Bool, true, false, not, ◌&&◌, Option, none, some, List, map, select, any, sort_by, leb,
  ◌==◌, str_eq, str_leb, if◌then◌else◌, get_or,
}
use src_visual.Common.Sums.{sum}
use src_visual.Runs.Validate.{is_artifact_id}

-- `ArtifactIntegrityStatus`
pub data Integrity : Type 0 where
  valid corrupt incompatible : Integrity

pub record ArtifactInventoryItem : Type 0 where
  pub artifact_id : String
  pub size_bytes : ℕ
  pub created_at : Option ℕ
  pub integrity : Integrity
  pub diagnostic : Option String
  pub protected : Bool

-- What the file system and `check_artifact_integrity`, followed by `_read_created_at`, tell of one
-- entry of the artifact root.
pub data Check : Type 0 where
  passes : ℕ → Check
  is_incompatible is_corrupt : String → Check

pub record Entry : Type 0 where
  pub name : String
  pub is_dir : Bool
  pub is_symlink : Bool
  pub size : ℕ
  pub check : Check

-- `_is_artifact_directory`
abbrev pub is_artifact_directory : Entry → Bool
is_artifact_directory e = e.is_dir && (not e.is_symlink && is_artifact_id e.name)

-- `_inventory_item`
abbrev pub checked_item : Entry → Bool → Check → ArtifactInventoryItem
checked_item e protected (passes t) = record {
  artifact_id = e.name;
  size_bytes = e.size;
  created_at = some t;
  integrity = valid;
  diagnostic = none;
  protected = protected;
}
checked_item e protected (is_incompatible message) = record {
  artifact_id = e.name;
  size_bytes = e.size;
  created_at = none;
  integrity = incompatible;
  diagnostic = some message;
  protected = protected;
}
checked_item e protected (is_corrupt message) = record {
  artifact_id = e.name;
  size_bytes = e.size;
  created_at = none;
  integrity = corrupt;
  diagnostic = some message;
  protected = protected;
}

abbrev pub inventory_item : List String → Entry → ArtifactInventoryItem
inventory_item ids e = checked_item e (any (str_eq e.name) ids) e.check

-- `datetime.max`
abbrev pub max_instant : ℕ
max_instant = 315537897599999999

-- `_inventory_sort_key(x) <= _inventory_sort_key(y)`
abbrev pub sorts_before : ArtifactInventoryItem → ArtifactInventoryItem → Bool
sorts_before x y =
    let s = get_or x.created_at max_instant in
    let t = get_or y.created_at max_instant in
    if s == t then str_leb x.artifact_id y.artifact_id else leb s t

unfoldable pub inventory_artifacts : List Entry → List String → List ArtifactInventoryItem
inventory_artifacts entries ids =
    sort_by sorts_before (map (inventory_item ids) (select is_artifact_directory entries))

-- `inventory.total_bytes`
abbrev pub total_bytes : List ArtifactInventoryItem → ℕ
total_bytes = sum (λ x. x.size_bytes)

abbrev pub is_valid : Integrity → Bool
is_valid valid = true
is_valid _ = false
