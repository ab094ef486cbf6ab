-- ===== src/Runs/Types.antt =====
-- srcdiffvisual/runs/models.py and the two tables of srcdiffvisual/runs/store.py: statuses, rows,
-- records, and the errors that the store raises. The table's `kind` has one legal value, and is
-- left out. Instants are the ISO texts that `_timestamp` writes.
use src_visual.Common.{ℕ, ℤ, String, Bool, true, false, Option, List}

pub data Status : Type 0 where
  queued running completed failed cancelled : Status

-- `RunEventType`
pub data EventType : Type 0 where
  status_event progress_event cancellation_event : EventType

-- `RunCreationDisposition`
pub data Disposition : Type 0 where
  new active_run artifact : Disposition

-- `status IN ('queued', 'running')`
abbrev pub is_active : Status → Bool
is_active queued = true
is_active running = true
is_active _ = false

abbrev pub is_queued : Status → Bool
is_queued queued = true
is_queued _ = false

abbrev pub is_running : Status → Bool
is_running running = true
is_running _ = false

abbrev pub is_completed : Status → Bool
is_completed completed = true
is_completed _ = false

abbrev pub is_failed : Status → Bool
is_failed failed = true
is_failed _ = false

-- `TERMINAL_STATUSES`
abbrev pub is_terminal : Status → Bool
is_terminal completed = true
is_terminal failed = true
is_terminal cancelled = true
is_terminal _ = false

pub record RunDiagnostic : Type 0 where
  pub code : String
  pub message : String

-- A row of the table `runs`.
pub record RunRow : Type 0 where
  pub run_id : String
  pub repository_id : String
  pub history_pair : ℤ
  pub fingerprint : Option String
  pub status : Status
  pub artifact_id : Option String
  pub cancellation_requested : Bool
  pub diagnostic_code : Option String
  pub diagnostic_message : Option String
  pub created_at : String
  pub started_at : Option String
  pub finished_at : Option String

-- A row of the table `run_events`, and `RunEvent`.
pub record RunEvent : Type 0 where
  pub run_id : String
  pub sequence : ℕ
  pub type : EventType
  pub status : Status
  pub message : String
  pub created_at : String

-- The database: both tables, in the order of insertion.
pub record Db : Type 0 where
  pub runs : List RunRow
  pub run_events : List RunEvent

pub record RunRecord : Type 0 where
  pub run_id : String
  pub repository_id : String
  pub history_pair : ℤ
  pub status : Status
  pub artifact_id : Option String
  pub cancellation_requested : Bool
  pub diagnostic : Option RunDiagnostic
  pub created_at : String
  pub started_at : Option String
  pub finished_at : Option String
  pub latest_event_sequence : ℕ

pub record RunAcquisition : Type 0 where
  pub run : RunRecord
  pub disposition : Disposition

-- RunNotFoundError, InvalidRunTransitionError, ValueError, SQLite's IntegrityError, and the
-- OverflowError of an integer that does not fit in a column.
pub data Error : Type 0 where
  run_not_found invalid_transition value_error integrity_error overflow_error : Error

pub data Result {ℓ} (A : Type ℓ) : Type ℓ where
  ok : A → Result A
  err : Error → Result A

-- The statements of one transaction, up to the first that raises.
abbrev pub Tx {ℓ} : Type ℓ → Type ℓ
Tx A = Db → Result (A × Db)

abbrev pub continue {ℓ κ} :
    {A : Type ℓ} {B : Type κ} → Result (A × Db) → (A → Tx B) → Result (B × Db)
continue (ok (a, db)) f = f a db
continue (err e) f = err e

infixl 5 ◌>>=◌ ◌>>◌
abbrev pub ◌>>=◌ {ℓ κ} : {A : Type ℓ} {B : Type κ} → Tx A → (A → Tx B) → Tx B
◌>>=◌ m f db = continue (m db) f

abbrev pub ◌>>◌ {ℓ κ} : {A : Type ℓ} {B : Type κ} → Tx A → Tx B → Tx B
m >> k = m >>= λ _. k

abbrev pub pure {ℓ} : {A : Type ℓ} → A → Tx A
pure a db = ok (a, db)

abbrev pub raise_if : Bool → Error → Tx (Unit {0})
raise_if true e db = err e
raise_if false e db = ok (tt, db)

-- `commit`, or `rollback` and the exception.
abbrev pub settle {ℓ} : {A : Type ℓ} → Result (A × Db) → Db → Result A × Db
settle (ok (a, db')) db = (ok a, db')
settle (err e) db = (err e, db)

-- `BEGIN IMMEDIATE`, and the end of the transaction.
abbrev pub transact {ℓ} : {A : Type ℓ} → Tx A → Db → Result A × Db
transact m db = settle (m db) db

abbrev pub is_cancelled : Status → Bool
is_cancelled cancelled = true
is_cancelled _ = false
