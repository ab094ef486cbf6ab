-- ===== src/Runs/Store.antt =====
-- `class RunStore` of srcdiffvisual/runs/store.py. Each method is a function of the database; what
-- it reads from outside, the new id of `uuid4` and the instant of `_timestamp`, is an argument. A
-- transaction that raises is rolled back. A process sees the other processes' transactions before
-- or after its own, so a method that opens two runs them one after the other.
use src_visual.Common.{
  String, Bool, true, false, not, ◌&&◌, Option, none, some, if◌then◌else◌, Unicode,
}
use src_visual.Runs.Types.{
  Status, running, completed, failed, cancelled, status_event, RunRow, RunEvent, RunDiagnostic,
  RunRecord, Db, Result, ok, err, run_not_found, invalid_transition, value_error, is_active,
  is_queued, is_running, Tx, ◌>>=◌, ◌>>◌, raise_if, transact,
}
use src_visual.Runs.Validate.{
  is_run_id, is_artifact_id, validated_message, validated_diagnostic_code,
}
use src_visual.Runs.Schema.{update_run, require_run, insert_event, read_run}

-- The keyword arguments of `_transition`.
pub record Transition : Type 0 where
  pub expected_statuses : Status → Bool
  pub status : Status
  pub message : String
  pub artifact_id : Option String
  pub diagnostic : Option RunDiagnostic
  pub set_started : Bool
  pub set_finished : Bool
  pub reject_cancellation : Bool

abbrev pub diagnostic_code : Option RunDiagnostic → Option String
diagnostic_code none = none
diagnostic_code (some d) = some d.code

abbrev pub diagnostic_message : Option RunDiagnostic → Option String
diagnostic_message none = none
diagnostic_message (some d) = some d.message

-- The SET clause of `_transition`.
abbrev pub transition_row : Transition → String → RunRow → RunRow
transition_row t now r = record r {
  status = t.status;
  artifact_id = t.artifact_id;
  diagnostic_code = diagnostic_code t.diagnostic;
  diagnostic_message = diagnostic_message t.diagnostic;
  started_at = if t.set_started then some now else r.started_at;
  finished_at = if t.set_finished then some now else r.finished_at;
}

-- The transaction of `_transition`.
unfoldable pub transition_tx : String → Transition → String → Tx RunEvent
transition_tx run_id t now = do
  row ← require_run run_id
  raise_if (not (t.expected_statuses row.status)) invalid_transition
  raise_if (t.reject_cancellation && row.cancellation_requested) invalid_transition
  update_run run_id (transition_row t now)
  insert_event run_id status_event t.status t.message now

-- `return self.read_run(run_id)`, in a transaction of its own.
abbrev pub then_read {ℓ} : {A : Type ℓ} → String → Result A × Db → Result RunRecord × Db
then_read run_id (ok _, db) = (read_run run_id db, db)
then_read run_id (err e, db) = (err e, db)

unfoldable pub transition : String → Transition → String → Db → Result RunRecord × Db
unfolding transition_tx
transition run_id t now db =
    if is_run_id run_id
    then then_read run_id (transact (transition_tx run_id t now) db)
    else (err run_not_found, db)

abbrev pub to_running : Transition
to_running = record {
  expected_statuses = is_queued;
  status = running;
  message = "History visualization started.";
  artifact_id = none;
  diagnostic = none;
  set_started = true;
  set_finished = false;
  reject_cancellation = false;
}

abbrev pub to_completed : String → Transition
to_completed artifact_id = record {
  expected_statuses = is_running;
  status = completed;
  message = "Visualization artifact published.";
  artifact_id = some artifact_id;
  diagnostic = none;
  set_started = false;
  set_finished = true;
  reject_cancellation = true;
}

abbrev pub to_failed : String → String → Transition
to_failed code message = record {
  expected_statuses = is_active;
  status = failed;
  message = message;
  artifact_id = none;
  diagnostic = some (record { code = code; message = message });
  set_started = false;
  set_finished = true;
  reject_cancellation = false;
}

abbrev pub to_cancelled : Transition
to_cancelled = record {
  expected_statuses = is_active;
  status = cancelled;
  message = "History visualization cancelled.";
  artifact_id = none;
  diagnostic = none;
  set_started = false;
  set_finished = true;
  reject_cancellation = false;
}

unfoldable pub mark_running : String → String → Db → Result RunRecord × Db
mark_running run_id = transition run_id to_running

unfoldable pub complete : String → String → String → Db → Result RunRecord × Db
complete run_id artifact_id now db =
    if is_artifact_id artifact_id
    then transition run_id (to_completed artifact_id) now db
    else (err value_error, db)

unfoldable pub cancel : String → String → Db → Result RunRecord × Db
cancel run_id = transition run_id to_cancelled

-- The diagnostic code is validated first, then the message.
unfoldable pub fail : Unicode → String → String → String → String → Db → Result RunRecord × Db
fail u run_id code message now db = elim (validated_diagnostic_code u code) [
  | err e ↦ (err e, db)
  | ok c ↦ elim (validated_message u message) [
    | err e ↦ (err e, db)
    | ok m ↦ transition run_id (to_failed c m) now db
  ]
]
