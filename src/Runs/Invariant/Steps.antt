-- ===== src/Runs/Invariant/Steps.antt =====
-- The writes as a step relation: whatever a method does to the database is a sequence of these.
use src_visual.Common.{String, ◌≡◌, refl, true, false, none, some, any}
use src_visual.Runs.Types.{Db, RunRow, EventType, status_event, is_completed}
use src_visual.Runs.Validate.{is_run_id}
use src_visual.Runs.Schema.{check_row, conflicts, find_run, next_event, latest_sequence}
use src_visual.Runs.Invariant.{IsValid}
use src_visual.Runs.Invariant.Writes.{Follows, after_write, written-IsValid, inserted}
use src_visual.Runs.Invariant.Inserts.{inserted-IsValid}

-- The first event of a row, and the database with both.
abbrev pub after_insert : Db → RunRow → String → Db
after_insert db r message =
    inserted r (next_event r.run_id status_event r.status message r.created_at db) db

-- One UPDATE of an unfinished run with its event, or one INSERT of a new run with its first event.
pub data Write (db : Db) : Db → Type 0 where
  changes :
      (i : String) (r r' : RunRow) (type : EventType) (message now : String)
      → find_run i db.runs ≡ some r
      → Follows r r'
      → Write db (after_write db i r' type r'.status message now)
  adds :
      (r : RunRow) (message : String)
      → find_run r.run_id db.runs ≡ none
      → any (conflicts r) db.runs ≡ false
      → check_row r ≡ true
      → is_completed r.status ≡ false
      → is_run_id r.run_id ≡ true
      → Write db (after_insert db r message)

pub data Writes (db : Db) : Db → Type 0 where
  unchanged : Writes db db
  then_write : {db' db'' : Db} → Writes db db' → Write db' db'' → Writes db db''

pub Write-IsValid : {db db' : Db} → Write db db' → IsValid db → IsValid db'
unfolding latest_sequence
Write-IsValid {db} (changes i r r' type message now found follows) valid =
    written-IsValid db i r r' valid found follows (next_event i type r'.status message now db) refl
      refl refl
Write-IsValid {db} (adds r message fresh alone checks unfinished named) valid =
    inserted-IsValid db r valid fresh alone checks
      (next_event r.run_id status_event r.status message r.created_at db) refl refl refl unfinished
      named

pub Writes-IsValid : {db db' : Db} → Writes db db' → IsValid db → IsValid db'
Writes-IsValid unchanged valid = valid
Writes-IsValid (then_write ws w) valid = Write-IsValid w (Writes-IsValid ws valid)

pub one-Write : {db db' : Db} → Write db db' → Writes db db'
one-Write w = then_write unchanged w

pub Writes-trans : {a b c : Db} → Writes a b → Writes b c → Writes a c
Writes-trans ws unchanged = ws
Writes-trans ws (then_write vs v) = then_write (Writes-trans ws vs) v
