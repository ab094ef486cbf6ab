-- ===== src/Runs/Invariant.antt =====
-- What every database that the methods of `RunStore` have written satisfies.
pub mod Rows
pub mod Log
pub mod Writes
pub mod Inserts
pub mod Steps
use src_visual.Common.{
  ℕ, zero, suc, String, ◌≡◌, Bool, true, false, Option, none, some, List, [], ◌∷◌, length, str_eq,
  if◌then◌else◌,
}
use src_visual.Runs.Types.{Status, RunRow, RunEvent, Db, is_completed}
use src_visual.Runs.Validate.{is_run_id}
use src_visual.Runs.Schema.{check_row, conflicts, find_run, sequences}

-- The PRIMARY KEY: no id stands twice.
abbrev pub IsKeyed : List RunRow → Type 0
IsKeyed [] = Unit
IsKeyed (r ∷ rows) = (find_run r.run_id rows ≡ none) × IsKeyed rows

-- The status of the run's latest event.
unfoldable pub last_status : String → List RunEvent → Option Status
last_status run_id [] = none
last_status run_id (e ∷ events) = elim (last_status run_id events) [
  | some s ↦ some s
  | none ↦ if str_eq e.run_id run_id then some e.status else none
]

-- k, k + 1, …: n numbers.
unfoldable pub counting : ℕ → ℕ → List ℕ
counting k zero = []
counting k (suc n) = k ∷ counting (suc k) n

-- The events of each run are numbered 1, 2, 3, … in the order in which they were written.
abbrev pub IsNumbered : List RunEvent → Type 0
IsNumbered events =
    (run_id : String) → sequences run_id events ≡ counting 1 (length (sequences run_id events))

pub record IsValid (db : Db) : Type 0 where
  pub keyed : IsKeyed db.runs
  pub named : (i : String) (r : RunRow) → find_run i db.runs ≡ some r → is_run_id i ≡ true
  pub checked : (i : String) (r : RunRow) → find_run i db.runs ≡ some r → check_row r ≡ true
  pub exclusive :
      (i j : String) (r q : RunRow)
      → find_run i db.runs ≡ some r
      → find_run j db.runs ≡ some q
      → conflicts r q ≡ false
  pub logged :
      (i : String) (r : RunRow)
      → find_run i db.runs ≡ some r
      → last_status i db.run_events ≡ some r.status
  pub uncancelled :
      (i : String) (r : RunRow)
      → find_run i db.runs ≡ some r
      → is_completed r.status ≡ true
      → r.cancellation_requested ≡ false
  pub owned : (i : String) → find_run i db.runs ≡ none → sequences i db.run_events ≡ []
  pub numbered : IsNumbered db.run_events
