-- ===== src/Runs/Progress.antt =====
-- The methods of `class RunStore` (srcdiffvisual/runs/store.py) that write to runs in progress or
-- read: fail_abandoned_runs, append_progress, request_cancellation, referenced_artifact_ids and
-- read_events.
use src_visual.Common.{
  ℕ, ℤ, pos, negsuc, String, Bool, true, false, not, ◌&&◌, none, some, List, [], ◌∷◌, take, select,
  sort_by, length, ltb, leb, if◌then◌else◌, Unicode,
}
use src_visual.Runs.Types.{
  overflow_error, failed, status_event, progress_event, cancellation_event, running, RunRow,
  RunEvent, RunRecord, Db, Result, ok, err, run_not_found, invalid_transition, value_error,
  is_running, is_cancelled, is_terminal, Tx, ◌>>=◌, ◌>>◌, pure, raise_if, transact,
}
use src_visual.Runs.Validate.{is_run_id, validated_message}
use src_visual.Runs.Schema.{fits_integer, update_run, require_run, is_event_of, insert_event}
use src_visual.Runs.Store.{then_read}

-- The UPDATE statement of `fail_abandoned_runs`.
abbrev pub abandoned_row : String → RunRow → RunRow
abandoned_row now r = record r {
  status = failed;
  diagnostic_code = some "worker-restarted";
  diagnostic_message = some "The history worker stopped before this run completed.";
  finished_at = some now;
}

unfoldable pub fail_abandoned : String → String → Tx RunEvent
fail_abandoned run_id now = do
  update_run run_id (abandoned_row now)
  insert_event run_id status_event failed "The history worker stopped before this run completed."
      now

-- The loop of `fail_abandoned_runs` over the ids that it has fetched.
unfoldable pub fail_each : List String → String → Tx (Unit {0})
fail_each [] now db = ok (tt, db)
fail_each (run_id ∷ ids) now db = (fail_abandoned run_id now >> fail_each ids now) db

-- `SELECT run_id FROM runs WHERE status = 'running'`
unfoldable pub running_ids : List RunRow → List String
running_ids [] = []
running_ids (r ∷ rows) =
    if is_running r.status then r.run_id ∷ running_ids rows else running_ids rows

abbrev pub counted : ℕ → Result (Unit {0}) × Db → Result ℕ × Db
counted n (ok _, db) = (ok n, db)
counted n (err e, db) = (err e, db)

unfoldable pub fail_abandoned_runs : String → Db → Result ℕ × Db
fail_abandoned_runs now db =
    let ids = running_ids db.runs in counted (length ids) (transact (fail_each ids now) db)

unfoldable pub progress_tx : String → String → String → Tx RunEvent
progress_tx run_id message now = do
  row ← require_run run_id
  raise_if (not (is_running row.status)) invalid_transition
  insert_event run_id progress_event running message now

unfoldable pub append_progress : Unicode → String → String → String → Db → Result RunEvent × Db
unfolding progress_tx
append_progress u run_id message now db = elim (validated_message u message) [
  | err e ↦ (err e, db)
  | ok m ↦ transact (progress_tx run_id m now) db
]

abbrev pub requested_row : RunRow → RunRow
requested_row r = record r { cancellation_requested = true }

-- The part of `request_cancellation` after its guards; a request that stands is kept as it is.
unfoldable pub note_request : RunRow → String → String → Tx (Unit {0})
note_request row run_id now db = elim row.cancellation_requested [
  | true ↦ ok (tt, db)
  | false ↦
      (update_run run_id requested_row
          >> (insert_event run_id cancellation_event row.status "Cancellation requested." now
              >> pure tt))
        db
]

-- A cancelled run is left as it is, and any other finished run raises.
unfoldable pub request_tx : String → String → Tx (Unit {0})
unfolding note_request
request_tx run_id now = do
  row ← require_run run_id
  if is_cancelled row.status
      then pure tt
      else (raise_if (is_terminal row.status) invalid_transition >> note_request row run_id now)

unfoldable pub request_cancellation : String → String → Db → Result RunRecord × Db
unfolding request_tx
request_cancellation run_id now db = then_read run_id (transact (request_tx run_id now) db)

-- `SELECT artifact_id FROM runs WHERE artifact_id IS NOT NULL`, as a collection without order.
unfoldable pub artifact_ids : List RunRow → List String
artifact_ids [] = []
artifact_ids (r ∷ rows) = elim r.artifact_id [
  | none ↦ artifact_ids rows
  | some a ↦ a ∷ artifact_ids rows
]

unfoldable pub referenced_artifact_ids : Db → List String
unfolding artifact_ids
referenced_artifact_ids db = artifact_ids db.runs

abbrev pub by_sequence : RunEvent → RunEvent → Bool
by_sequence e f = leb e.sequence f.sequence

-- `WHERE run_id = ? AND sequence > ? ORDER BY sequence LIMIT ?`
unfoldable pub page : String → ℕ → ℕ → List RunEvent → List RunEvent
page run_id after limit events =
    take limit
      (sort_by by_sequence (select (λ e. is_event_of run_id e && ltb after e.sequence) events))

-- The query, with the cursor as it is bound.
unfoldable pub read_page : String → ℕ → ℕ → Db → Result (List RunEvent)
unfolding page
read_page run_id after limit db = elim (require_run run_id db) [
  | err e ↦ err e
  | ok _ ↦
      if fits_integer (pos after)
      then ok (page run_id after limit db.run_events)
      else err overflow_error
]

abbrev pub is_limit : ℤ → Bool
is_limit (pos n) = leb 1 n && leb n 500
is_limit (negsuc n) = false

abbrev pub to_natural : ℤ → ℕ
to_natural (pos n) = n
to_natural (negsuc n) = 0

abbrev pub is_cursor : ℤ → Bool
is_cursor (pos n) = true
is_cursor (negsuc n) = false

unfoldable pub read_events : String → ℤ → ℤ → Db → Result (List RunEvent)
unfolding read_page
read_events run_id after limit db =
    if is_run_id run_id
    then if is_cursor after && is_limit limit
      then read_page run_id (to_natural after) (to_natural limit) db
      else err value_error
    else err run_not_found
