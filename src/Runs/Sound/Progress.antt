-- ===== src/Runs/Sound/Progress.antt =====
-- `append_progress` and `request_cancellation`.
use src_visual.Common.{
  String, ◌≡◌, refl, subst, true, false, inl, inr, Bool-cases, some, List, [], ◌∷◌, ◌++◌, Unicode,
  arith,
}
use src_visual.Runs.Types.{
  is_active, RunRow, Db, running, progress_event, cancellation_event, EventType, Status, continue,
  is_running, is_cancelled, is_terminal,
}
use src_visual.Runs.Validate.{validated_message-cases}
use src_visual.Runs.Schema.{check_row, find_run, next_event, insert_event, latest_sequence}
use src_visual.Runs.Progress.{
  progress_tx, append_progress, requested_row, note_request, request_tx, request_cancellation,
}
use src_visual.Runs.Invariant.Steps.{Writes, unchanged, changes, one-Write}
use src_visual.Runs.Invariant.{IsValid}
use src_visual.Runs.Invariant.Rows.{replace_run_self}
use src_visual.Runs.Invariant.Writes.{Follows, update_run-ok}
use src_visual.Runs.Sound.{
  IsSound, IsSafe, settle-IsSound, then_read-settle-IsSound, require_run-cases, run_not_found-ne,
  invalid_transition-ne, value_error-ne,
}

-- An event alone, with the status that its run has.
module _ (db : Db) (i : String) (r : RunRow) (valid : IsValid db)
    (found : find_run i db.runs ≡ some r) (run : is_active r.status ≡ true) (type : EventType)
    (message now : String) where
  unchanged-Follows : Follows r r
  unchanged-Follows = record {
    same_id = refl;
    same_fingerprint = refl;
    same_origin = (refl, refl, refl);
    unfinished = ground arith;
    forward = ground arith;
    requested = λ h. h;
    checked = valid.checked i r found;
    uncancelled = valid.uncancelled i r found;
  }

  after_event-Writes :
      Writes db
        (record db { run_events = db.run_events ++ next_event i type r.status message now db ∷ [] })
  after_event-Writes =
      subst
        (λ (rows : List RunRow). Writes db (record {
          runs = rows;
          run_events = db.run_events ++ next_event i type r.status message now db ∷ [];
        }))
        (replace_run_self i r db.runs found)
        (one-Write (changes i r r type message now found unchanged-Follows))

progress_tx-IsSafe :
    (i message now : String) (db : Db) → IsValid db → IsSafe db (progress_tx i message now db)
unfolding progress_tx insert_event
progress_tx-IsSafe i message now db valid = elim (require_run-cases i db) [
  | inl missing ↦ rw (missing, continue) run_not_found-ne
  | inr (r, found, e) ↦ elim (Bool-cases (is_running r.status)) [
    | inr bad ↦ rw (e, continue, bad) invalid_transition-ne
    | inl run ↦
        rw (e, continue, run)
          (subst
            (λ (s : Status). Writes db (record db {
              run_events = db.run_events ++ next_event i progress_event s message now db ∷ [];
            }))
            (running_lem r.status run)
            (after_event-Writes db i r valid found (ground arith) progress_event message now))
  ]
]
  where
    running_lem : (s : Status) → is_running s ≡ true → s ≡ running
    running_lem s h = ground arith

pub append_progress-IsSound :
    (u : Unicode) (i message now : String) (db : Db)
    → IsValid db
    → IsSound db (append_progress u i message now db)
unfolding append_progress
append_progress-IsSound u i message now db valid = elim (validated_message-cases u message) [
  | inl bad ↦ rw (bad, append_progress) (unchanged, value_error-ne)
  | inr (m, good) ↦
      rw (good, append_progress)
        (settle-IsSound (progress_tx i m now db) db (progress_tx-IsSafe i m now db valid))
]

requested-Follows :
    (r : RunRow) → check_row r ≡ true → is_terminal r.status ≡ false → Follows r (requested_row r)
unfolding check_row
requested-Follows r c t = record {
  same_id = refl;
  same_fingerprint = refl;
  same_origin = (refl, refl, refl);
  unfinished = ground arith;
  forward = ground arith;
  requested = λ h. refl;
  checked = c;
  uncancelled = λ h. ground arith;
}

note_request-IsSafe :
    (r : RunRow) (i now : String) (db : Db)
    → IsValid db
    → find_run i db.runs ≡ some r
    → is_terminal r.status ≡ false
    → IsSafe db (note_request r i now db)
unfolding note_request insert_event latest_sequence
note_request-IsSafe r i now db valid found unfinished = elim (Bool-cases r.cancellation_requested) [
  | inl asked ↦ rw (asked, note_request) unchanged
  | inr first ↦
      let follows = requested-Follows r (valid.checked i r found) unfinished in
      rw (first, note_request)
        (rw (update_run-ok db i requested_row r valid found follows) (
          one-Write (
            changes i r (requested_row r) cancellation_event "Cancellation requested." now found
              follows)))
]

request_tx-IsSafe : (i now : String) (db : Db) → IsValid db → IsSafe db (request_tx i now db)
unfolding request_tx
request_tx-IsSafe i now db valid = elim (require_run-cases i db) [
  | inl missing ↦ rw (missing, continue) run_not_found-ne
  | inr (r, found, e) ↦ elim (Bool-cases (is_cancelled r.status)) [
    | inl done ↦ rw (e, continue, done) unchanged
    | inr other ↦ elim (Bool-cases (is_terminal r.status)) [
      | inl bad ↦ rw (e, continue, other, bad) invalid_transition-ne
      | inr unfinished ↦
          rw (e, continue, other, unfinished)
            (note_request-IsSafe r i now db valid found unfinished)
    ]
  ]
]

-- From a valid database, `request_cancellation` only writes rows and events that the invariant
-- allows, whether it returns or raises, and no constraint of the tables fails.
pub request_cancellation-IsSound :
    (i now : String) (db : Db) → IsValid db → IsSound db (request_cancellation i now db)
unfolding request_cancellation
request_cancellation-IsSound i now db valid =
    then_read-settle-IsSound i (request_tx i now db) db (request_tx-IsSafe i now db valid)
