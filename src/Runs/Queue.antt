-- ===== src/Runs/Queue.antt =====
-- The methods of `class RunStore` (srcdiffvisual/runs/store.py) that queue runs and claim them:
-- create_history_run, acquire_history_run and claim_next.
use src_visual.Common.{
  ℕ, zero, suc, ℤ, String, Bool, true, false, not, ◌&&◌, Option, none, some, List, any, all, select,
  least, length, str_eq, str_leb, if◌then◌else◌, Unicode,
}
use src_visual.Runs.Types.{
  queued, running, cancelled, status_event, Disposition, new, active_run, artifact, RunRow,
  RunEvent, RunRecord, RunAcquisition, Db, Result, ok, err, run_not_found, value_error, is_active,
  is_queued, is_completed, Tx, ◌>>◌, pure, transact,
}
use src_visual.Runs.Validate.{is_run_id, is_fingerprint, is_history_pair, is_repository_id}
use src_visual.Runs.Schema.{same_text, insert_run, update_run, insert_event, read_run}
use src_visual.Runs.Store.{then_read}

-- The row that both INSERT statements write.
abbrev pub queued_row : String → String → ℤ → Option String → String → RunRow
queued_row run_id repository_id history_pair fingerprint created_at = record {
  run_id = run_id;
  repository_id = repository_id;
  history_pair = history_pair;
  fingerprint = fingerprint;
  status = queued;
  artifact_id = none;
  cancellation_requested = false;
  diagnostic_code = none;
  diagnostic_message = none;
  created_at = created_at;
  started_at = none;
  finished_at = none;
}

-- INSERT INTO runs, and the run's first event.
unfoldable pub queue_run : String → String → ℤ → Option String → String → Tx RunEvent
queue_run run_id repository_id history_pair fingerprint created_at = do
  insert_run (queued_row run_id repository_id history_pair fingerprint created_at)
  insert_event run_id status_event queued "History visualization queued." created_at

unfoldable pub create_history_run :
    Unicode → ℤ → String → String → String → Db → Result RunRecord × Db
create_history_run u history_pair repository_id run_id created_at db =
    if is_history_pair history_pair && is_repository_id u repository_id
    then then_read run_id
        (transact (queue_run run_id repository_id history_pair none created_at) db)
    else (err value_error, db)

-- `ORDER BY created_at, run_id`
abbrev pub older : RunRow → RunRow → Bool
older r q =
    if str_eq r.created_at q.created_at
    then str_leb r.run_id q.run_id
    else str_leb r.created_at q.created_at

-- NULL sorts before every text.
abbrev pub null_leb : Option String → Option String → Bool
null_leb none b = true
null_leb (some a) none = false
null_leb (some a) (some b) = str_leb a b

abbrev pub null_eq : Option String → Option String → Bool
null_eq none none = true
null_eq (some a) (some b) = str_eq a b
null_eq _ _ = false

-- `ORDER BY finished_at DESC, run_id`
abbrev pub newer : RunRow → RunRow → Bool
newer r q =
    if null_eq r.finished_at q.finished_at
    then str_leb r.run_id q.run_id
    else null_leb q.finished_at r.finished_at

-- `WHERE fingerprint = ? AND status IN ('queued', 'running')`
abbrev pub active_with : String → RunRow → Bool
active_with fingerprint r = same_text r.fingerprint (some fingerprint) && is_active r.status

-- `WHERE fingerprint = ? AND status = 'completed' AND run_id NOT IN (…)`
abbrev pub completed_with : String → List String → RunRow → Bool
completed_with fingerprint excluded r =
    same_text r.fingerprint (some fingerprint)
    && is_completed r.status
    && not (any (str_eq r.run_id) excluded)

-- The transaction of `acquire_history_run`: the run's id, and how it was found.
unfoldable pub acquire_tx :
    ℤ → String → String → List String → String → String → Tx (String × Disposition)
unfolding queue_run
acquire_tx history_pair fingerprint repository_id excluded new_id now db =
    elim (least older (select (active_with fingerprint) db.runs)) [
      | some r ↦ ok ((r.run_id, active_run), db)
      | none ↦ elim (least newer (select (completed_with fingerprint excluded) db.runs)) [
        | some r ↦ ok ((r.run_id, artifact), db)
        | none ↦
            (queue_run new_id repository_id history_pair (some fingerprint) now
                >> pure (new_id, new))
              db
      ]
    ]

abbrev pub acquisition : Disposition → Result RunRecord → Result RunAcquisition
acquisition d (ok r) = ok (record { run = r; disposition = d })
acquisition d (err e) = err e

abbrev pub then_acquire : Result (String × Disposition) × Db → Result RunAcquisition × Db
then_acquire (ok (run_id, d), db) = (acquisition d (read_run run_id db), db)
then_acquire (err e, db) = (err e, db)

unfoldable pub acquire_history_run :
    Unicode → ℤ → String → String → List String → String → String → Db → Result RunAcquisition × Db
unfolding acquire_tx
acquire_history_run u history_pair fingerprint repository_id excluded new_id now db =
    if not (
      is_history_pair history_pair
      && is_repository_id u repository_id
      && is_fingerprint fingerprint)
    then (err value_error, db)
    else if not (all is_run_id excluded)
    then (err run_not_found, db)
    else then_acquire
        (transact (acquire_tx history_pair fingerprint repository_id excluded new_id now) db)

-- The two UPDATE statements of `claim_next`.
abbrev pub cancelled_row : String → RunRow → RunRow
cancelled_row now r = record r { status = cancelled; finished_at = some now }

abbrev pub running_row : String → RunRow → RunRow
running_row now r = record r { status = running; started_at = some now }

-- A pass of the loop that meets a run with a requested cancellation.
unfoldable pub drop_cancelled : String → String → Tx RunEvent
drop_cancelled run_id now = do
  update_run run_id (cancelled_row now)
  insert_event run_id status_event cancelled "History visualization cancelled." now

unfoldable pub start_run : String → String → Tx RunEvent
start_run run_id now = do
  update_run run_id (running_row now)
  insert_event run_id status_event running "History visualization started." now

-- The loop of `claim_next`, on fuel: an outer `none` means that the fuel ran out. Each pass reads
-- the clock anew; `clock` gives the instant by the fuel that is left.
unfoldable pub claim_loop : ℕ → (ℕ → String) → Tx (Option (Option String))
claim_loop zero clock db = ok (none, db)
claim_loop (suc fuel) clock db = elim (least older (select (λ r. is_queued r.status) db.runs)) [
  | none ↦ ok (some none, db)
  | some r ↦ elim r.cancellation_requested [
    | true ↦ (drop_cancelled r.run_id (clock fuel) >> claim_loop fuel clock) db
    | false ↦ (start_run r.run_id (clock fuel) >> pure (some (some r.run_id))) db
  ]
]

abbrev pub claimed : Result RunRecord → Result (Option RunRecord)
claimed (ok r) = ok (some r)
claimed (err e) = err e

-- What `claim_next` returns: no record, or the record of the claimed run.
abbrev pub then_claim :
    Result (Option (Option String)) × Db → Option (Result (Option RunRecord)) × Db
then_claim (err e, db) = (some (err e), db)
then_claim (ok none, db) = (none, db)
then_claim (ok (some none), db) = (some (ok none), db)
then_claim (ok (some (some run_id)), db) = (some (claimed (read_run run_id db)), db)

-- `claim_next`. Every pass but the last takes a run off the queue, so one pass for each row and one
-- more are enough.
unfoldable pub claim_next : (ℕ → String) → Db → Option (Result (Option RunRecord)) × Db
unfolding claim_loop
claim_next clock db = then_claim (transact (claim_loop (suc (length db.runs)) clock) db)
