-- ===== src/Runs/Sound.antt =====
-- Every method of `RunStore` makes legal writes only, and raises no error of a constraint.
pub mod Transitions
pub mod Queue
pub mod Progress
pub mod Abandoned
pub mod Claims
use src_visual.Common.{
  refl, ap, String, ◌≢◌, ◌≡◌, ◌⊎◌, inl, inr, some, Bool-cases, Option-cases, arith,
}
use src_visual.Runs.Types.{
  RunRow, Db, Result, ok, err, integrity_error, settle, run_not_found, invalid_transition,
  value_error,
}
use src_visual.Runs.Schema.{latest_sequence, run_from_row, read_run, find_run, require_run}
use src_visual.Runs.Validate.{is_run_id}
use src_visual.Runs.Store.{then_read}
use src_visual.Runs.Invariant.{IsValid}
use src_visual.Runs.Invariant.Steps.{Writes-trans, Writes, unchanged}

-- The outcome of a method called at `db`: legal writes, whether it returns or raises, and no
-- constraint error.
abbrev pub IsSound {ℓ} : {A : Type ℓ} → Db → Result A × Db → Type 0
IsSound db (ok a, db') = Writes db db'
IsSound db (err e, db') = Writes db db' × (e ≢ integrity_error)

-- The outcome of a transaction, before the rollback.
abbrev pub IsSafe {ℓ} : {A : Type ℓ} → Db → Result (A × Db) → Type 0
IsSafe db (ok (a, db')) = Writes db db'
IsSafe db (err e) = e ≢ integrity_error

pub IsSafe-trans {ℓ} :
    {A : Type ℓ} {db db' : Db} (r : Result (A × Db)) → Writes db db' → IsSafe db' r → IsSafe db r
IsSafe-trans (ok (a, db'')) ws safe = Writes-trans ws safe
IsSafe-trans (err e) ws safe = safe

pub settle-IsSound {ℓ} :
    {A : Type ℓ} (r : Result (A × Db)) (db : Db) → IsSafe db r → IsSound db (settle r db)
settle-IsSound (ok (a, db')) db safe = safe
settle-IsSound (err e) db safe = (unchanged, safe)

pub read_run-ne-integrity_error : (i : String) (db : Db) → read_run i db ≢ err integrity_error
unfolding read_run
read_run-ne-integrity_error i db h = ground arith

-- A read leaves the database as it is.
pub read-IsSound {ℓ} :
    {A : Type ℓ} (r : Result A) (db db' : Db)
    → Writes db db'
    → r ≢ err integrity_error
    → IsSound db (r, db')
read-IsSound (ok a) db db' ws ne = ws
read-IsSound (err e) db db' ws ne = (ws, λ h. ne (ap err h))

-- A method that writes in one transaction, and then reads the run.
pub then_read-settle-IsSound {ℓ} :
    {A : Type ℓ} (i : String) (r : Result (A × Db)) (db : Db)
    → IsSafe db r
    → IsSound db (then_read i (settle r db))
then_read-settle-IsSound i (ok (a, db')) db safe =
    read-IsSound (read_run i db') db db' safe (read_run-ne-integrity_error i db')
then_read-settle-IsSound i (err e) db safe = (unchanged, safe)

pub run_not_found-ne : run_not_found ≢ integrity_error
run_not_found-ne h = cc

pub invalid_transition-ne : invalid_transition ≢ integrity_error
invalid_transition-ne h = cc

pub value_error-ne : value_error ≢ integrity_error
value_error-ne h = cc

-- `_require_run` finds the row, or raises `RunNotFoundError`.
pub require_run-cases :
    (i : String) (db : Db)
    → (require_run i db ≡ err run_not_found)
      ⊎ ((r : RunRow) × (find_run i db.runs ≡ some r) × (require_run i db ≡ ok (r, db)))
unfolding require_run
require_run-cases i db = elim (Bool-cases (is_run_id i)) [
  | inr bad ↦ inl (rw bad)
  | inl id ↦ elim (Option-cases (find_run i db.runs)) [
    | inl missing ↦ inl (rw (id, missing))
    | inr (r, found) ↦ inr (r, found, rw (id, found))
  ]
]

-- A run that is there can be read.
pub read_run_lem :
    (i : String) (r : RunRow) (db : Db)
    → IsValid db
    → find_run i db.runs ≡ some r
    → read_run i db ≡ ok (run_from_row r (latest_sequence i db))
unfolding read_run
read_run_lem i r db valid at = rw (valid.named i r at, at) refl
