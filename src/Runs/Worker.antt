-- ===== src/Runs/Worker.antt =====
-- The queue worker of srcdiffvisual/runs/worker.py: it starts a process for the run that it claims,
-- watches it, and brings the run to an end. The process is the operating system's: what it answers
-- is given, as are the databases that the worker's reads and writes meet.
pub mod Ending
pub mod Turn
use src_visual.Common.{
  ℕ, String, Bool, true, false, not, ◌&&◌, ◌||◌, Unicode, Option, none, some, List, [], ◌∷◌, ◌++◌,
  if◌then◌else◌, any, str_eq,
}
use src_visual.Runs.Types.{RunRecord, Db, Error, Result, ok, err, is_terminal}
use src_visual.Runs.Schema.{read_run}
use src_visual.Runs.Store.{cancel, fail}
use src_visual.Runs.Queue.{claim_next}

-- Signals, waits, and the directories that are removed: of an artifact, and of a run.
pub data Effect : Type 0 where
  tries_term tries_kill waits : Effect
  removes_staging removes_tmp : String → Effect

-- Whether `poll` finds that the process has exited, whether its group is found, and whether it exits
-- within the timeout.
pub record Process : Type 0 where
  pub has_exited : Bool
  pub group_found : Bool
  pub exits_in_time : Bool

-- `_terminate_process_group`
pub terminate_process_group : Process → List Effect
terminate_process_group p =
    if p.has_exited
    then waits ∷ []
    else if not p.group_found || p.exits_in_time
    then tries_term ∷ waits ∷ []
    else tries_term ∷ tries_kill ∷ waits ∷ []

-- `_remove_unpublished_run_data`
abbrev pub remove_unpublished_run_data : String → String → List Effect
remove_unpublished_run_data artifact_id run_id =
    removes_staging artifact_id ∷ removes_tmp run_id ∷ []

-- `_keep_tmp_files`; the argument is the variable's value in lower case, or "".
pub keep_tmp_files : String → Bool
keep_tmp_files value = any (str_eq value) ("1" ∷ "true" ∷ "yes" ∷ "on" ∷ [])

-- A round of the loop: the process runs, the run is read, and a stop may be asked for.
pub record Poll : Type 0 where
  pub poll_db : Db
  pub is_stopping : Bool

-- What the end of the loop meets: the process as it is terminated, the database when the run is
-- read again, and when it is written.
pub record Settling : Type 0 where
  pub process : Process
  pub reread_db : Db
  pub settle_db : Db
  pub now : String

pub record Report : Type 0 where
  pub result : Result (Unit {0})
  pub effects : List Effect
  pub db : Db

abbrev pub done {ℓ} : {A : Type ℓ} → Result A → Result (Unit {0})
done (ok _) = ok tt
done (err e) = err e

-- A call of `cancel` or `fail`.
abbrev pub report : List Effect → Result RunRecord × Db → Report
report effects (r, db) = record { result = done r; effects = effects; db = db }

abbrev pub stopped : Unicode → String → String → Db → Result RunRecord × Db
stopped u run_id =
    fail u run_id "worker-stopped" "The history worker stopped before this run completed."

abbrev pub lost : Unicode → String → String → Db → Result RunRecord × Db
lost u run_id =
    fail u run_id "worker-process-failed" "The history execution process stopped unexpectedly."

-- `_monitor` from the request to stop on: the process is terminated, its data is removed, and the
-- run is ended unless it has ended.
unfoldable pub stop_run :
    (String → Db → Result RunRecord × Db) → String → String → Settling → Report
unfolding terminate_process_group
stop_run end run_id artifact_id s =
    let effects =
      terminate_process_group s.process ++ remove_unpublished_run_data artifact_id run_id in
    elim (read_run run_id s.reread_db) [
      | err e ↦ record { result = err e; effects = effects; db = s.reread_db }
      | ok run ↦
          if is_terminal run.status
          then record { result = ok tt; effects = effects; db = s.reread_db }
          else report effects (end s.now s.settle_db)
    ]

-- `_monitor` once the process has exited by itself.
unfoldable pub after_exit : Unicode → Bool → String → String → Settling → Report
after_exit u keep run_id artifact_id s = elim (read_run run_id s.reread_db) [
  | err e ↦ record { result = err e; effects = []; db = s.reread_db }
  | ok run ↦
      if run.cancellation_requested && not (is_terminal run.status)
      then report (remove_unpublished_run_data artifact_id run_id) (cancel run_id s.now s.settle_db)
      else if not (is_terminal run.status)
      then report (remove_unpublished_run_data artifact_id run_id) (lost u run_id s.now s.settle_db)
      else record {
        result = ok tt;
        effects = if keep then [] else removes_tmp run_id ∷ [];
        db = s.reread_db;
      }
]

-- `_monitor`: the rounds while the process runs, until it exits or is terminated.
unfoldable pub monitor : Unicode → Bool → String → String → List Poll → Settling → Report
unfolding stop_run after_exit
monitor u keep run_id artifact_id [] s = after_exit u keep run_id artifact_id s
monitor u keep run_id artifact_id (poll ∷ polls) s =
    let rest = monitor u keep run_id artifact_id polls s in
    elim (read_run run_id poll.poll_db) [
      | err e ↦ record { result = err e; effects = []; db = poll.poll_db }
      | ok run ↦
          if run.cancellation_requested
          then stop_run (cancel run_id) run_id artifact_id s
          else if poll.is_stopping
          then stop_run (stopped u run_id) run_id artifact_id s
          else rest
    ]

-- What `process_next` comes to: no run was queued, one has been processed, or `claim_next` has
-- raised; the last constructor stands for a claim without end.
pub data WorkerTurn : Type 0 where
  nothing_queued : Db → WorkerTurn
  processed : String → Report → WorkerTurn
  claim_raised : Error → Db → WorkerTurn
  claim_endless : Db → WorkerTurn

-- `process_next`, with the id that `uuid4` makes for the artifact.
unfoldable pub process_next :
    Unicode → Bool → (ℕ → String) → String → List Poll → Settling → Db → WorkerTurn
unfolding monitor
process_next u keep clock artifact_id polls s db =
    let (claim, db') = claim_next clock db in
    elim claim [
      | none ↦ claim_endless db'
      | some (err e) ↦ claim_raised e db'
      | some (ok none) ↦ nothing_queued db'
      | some (ok (some run)) ↦ processed run.run_id (monitor u keep run.run_id artifact_id polls s)
    ]
