-- ===== src/Runs/Tests.antt =====
-- Runs of the store's methods on a small database, and the theorems applied to them.
use src_visual.Common.{
  false, List, arith, drop, ◌∷◌, select, refl, ℕ, pos, String, ◌≡◌, true, some, [], ascii,
}
use src_visual.Runs.Types.{
  active_run, invalid_transition, err, ok, Db, RunRow, completed, status_event,
}
use src_visual.Runs.Validate.{
  validated_message, validated_diagnostic_code, is_hex, is_repository_id,
}
use src_visual.Runs.Schema.{
  latest_sequence, run_from_row, is_event_of, find_run, replace_run, check_row, conflicts,
  insert_run, update_run, require_run, insert_event,
}
use src_visual.Runs.Store.{
  transition, mark_running, complete, cancel, transition_row, to_completed, to_cancelled,
}
use src_visual.Runs.Queue.{
  acquire_history_run, drop_cancelled, start_run, claim_next, queued_row, running_row,
}
use src_visual.Runs.Progress.{request_cancellation, fail_abandoned_runs}
use src_visual.Runs.Invariant.{IsValid}
use src_visual.Runs.Invariant.Writes.{after_write}
use src_visual.Runs.Sound.{IsSound}
use src_visual.Runs.Sound.Claims.{IsClaimed, claim_next-IsClaimed}
use src_visual.Runs.Sound.Queue.{acquire_history_run-IsSound}
use src_visual.Runs.Sound.Progress.{request_cancellation-IsSound}
use src_visual.Runs.Sound.Abandoned.{fail_abandoned_runs-IsSound}
use src_visual.Runs.Calls.{
  Calls, start, then_call, acquires, claims, cancels, marks_running, init, Calls-IsValid,
}
use src_visual.Runs.Lifecycle.{Advances, Calls-Advances, ended_run_kept}
use src_visual.Runs.Events.{Round, Stream, stream_run_events, returned}
use src_visual.Runs.Events.Pages.{log_of}
use src_visual.Runs.Events.Feed.{delivered}
use src_visual.Runs.Events.Delivery.{Delivers, stream_run_events-Delivers}
use src_visual.Runs.Events.Return.{stream_run_events_returns}
use src_visual.Runs.Worker.{Poll, Settling, monitor, process_next}
use src_visual.Runs.Worker.Ending.{KnowsDiagnostics, IsSettled, monitor-IsSettled}
use src_visual.Runs.Worker.Turn as Turn
use src_visual.Runs.Executor.{returns, Work, World, execute}
use src_visual.Runs.Executor.Settles.{HasSettled, execute-HasSettled}
use src_visual.Runs.Acquire.{acquire_history_run_active}
use src_visual.Runs.Outcomes.{complete_outcome, cancel_outcome, record_after}

abbrev first_id : String
first_id = "0123456789abcdef0123456789abcdef"

abbrev print : String
print = "0123456789abcdef0123456789abcdef0123456789abcdef0123456789abcdef"

abbrev clock : ℕ → String
clock n = "2026-01-01T00:00:01.000Z"

abbrev queued_db : Db
queued_db =
    (acquire_history_run ascii (pos 1) print "demo" [] first_id "2026-01-01T00:00:00.000Z" init).1

abbrev running_db : Db
running_db = (claim_next clock queued_db).1

abbrev cancelled_db : Db
cancelled_db = (cancel first_id "2026-01-01T00:00:02.000Z" running_db).1

abbrev later_db : Db
later_db = (mark_running first_id "2026-01-01T00:00:03.000Z" cancelled_db).1

abbrev queued_one : RunRow
queued_one = queued_row first_id "demo" (pos 1) (some print) "2026-01-01T00:00:00.000Z"

abbrev running_one : RunRow
running_one = running_row "2026-01-01T00:00:01.000Z" queued_one

abbrev cancelled_one : RunRow
cancelled_one = transition_row to_cancelled "2026-01-01T00:00:02.000Z" running_one

queued-Calls : Calls ascii init queued_db
unfolding find_run is_hex
queued-Calls =
    then_call start
      (acquires (pos 1) print "demo" [] first_id "2026-01-01T00:00:00.000Z" (refl, refl))

running-Calls : Calls ascii init running_db
running-Calls = then_call queued-Calls (claims clock)

cancelled-Calls : Calls ascii init cancelled_db
cancelled-Calls = then_call running-Calls (cancels first_id "2026-01-01T00:00:02.000Z")

find_queued : find_run first_id queued_db.runs ≡ some queued_one
unfolding acquire_history_run find_run is_hex is_repository_id insert_run insert_event check_row
find_queued = refl

find_running : find_run first_id running_db.runs ≡ some running_one
unfolding acquire_history_run claim_next find_run is_hex is_repository_id insert_run insert_event
    check_row drop_cancelled start_run update_run replace_run conflicts
find_running = refl

find_cancelled : find_run first_id cancelled_db.runs ≡ some cancelled_one
unfolding acquire_history_run claim_next find_run is_hex is_repository_id insert_run insert_event
    check_row drop_cancelled start_run update_run replace_run cancel transition require_run
    conflicts
find_cancelled = refl

Calls-IsValid_example : IsValid running_db
Calls-IsValid_example = Calls-IsValid ascii running_db running-Calls

running-IsValid : IsValid running_db
running-IsValid = Calls-IsValid ascii running_db running-Calls

cancelled-IsValid : IsValid cancelled_db
cancelled-IsValid = Calls-IsValid ascii cancelled_db cancelled-Calls

ended_run_kept_example :
    (find_run first_id later_db.runs ≡ some cancelled_one)
    × (select (is_event_of first_id) later_db.run_events
        ≡ select (is_event_of first_id) cancelled_db.run_events)
ended_run_kept_example =
    ended_run_kept ascii cancelled_db later_db first_id cancelled_one cancelled-IsValid
      (then_call start (marks_running first_id "2026-01-01T00:00:03.000Z")) find_cancelled refl

Calls-Advances_example :
    (r : RunRow) × (find_run first_id cancelled_db.runs ≡ some r) × Advances running_one r
Calls-Advances_example =
    Calls-Advances ascii running_db cancelled_db first_id running_one running-IsValid
      (then_call start (cancels first_id "2026-01-01T00:00:02.000Z")) find_running

first_id_hex : is_hex 32 first_id ≡ true
unfolding is_hex
first_id_hex = refl

complete_outcome_example : complete first_id first_id "t" running_db ≡ (
  ok (record_after first_id (transition_row (to_completed first_id) "t" running_one) running_db),
  after_write running_db first_id
      (transition_row (to_completed first_id) "t" running_one)
      status_event
      completed
      "Visualization artifact published."
      "t",
)
unfolding is_hex
complete_outcome_example =
    complete_outcome first_id first_id "t" running_db running_one running-IsValid find_running

cancel_outcome_example : cancel first_id "t" cancelled_db ≡ (err invalid_transition, cancelled_db)
cancel_outcome_example =
    cancel_outcome first_id "t" cancelled_db cancelled_one cancelled-IsValid find_cancelled

claim_next-IsClaimed_example : IsClaimed queued_db (claim_next clock queued_db)
claim_next-IsClaimed_example =
    claim_next-IsClaimed clock queued_db (Calls-IsValid ascii queued_db queued-Calls)

fail_abandoned_runs-IsSound_example : IsSound running_db (fail_abandoned_runs "t" running_db)
fail_abandoned_runs-IsSound_example = fail_abandoned_runs-IsSound "t" running_db running-IsValid

request_cancellation-IsSound_example :
    IsSound running_db (request_cancellation first_id "t" running_db)
request_cancellation-IsSound_example =
    request_cancellation-IsSound first_id "t" running_db running-IsValid

acquire_history_run-IsSound_example : IsSound running_db (
    acquire_history_run ascii
      (pos 1)
      print
      "demo"
      []
      "aaaaaaaaaaaaaaaaaaaaaaaaaaaaaaaa"
      "t"
      running_db)
unfolding find_run is_hex claim_next acquire_history_run is_repository_id insert_run check_row
    insert_event start_run update_run conflicts replace_run
acquire_history_run-IsSound_example =
    acquire_history_run-IsSound ascii (pos 1) print "demo" [] "aaaaaaaaaaaaaaaaaaaaaaaaaaaaaaaa" "t"
      running_db running-IsValid refl refl

acquire_history_run_active_example :
    acquire_history_run ascii (pos 2) print "demo" [] first_id "t" running_db ≡ (
      ok (record {
        run = run_from_row running_one (latest_sequence first_id running_db);
        disposition = active_run;
      }),
      running_db,
    )
unfolding is_hex is_repository_id
acquire_history_run_active_example =
    acquire_history_run_active running_db first_id print running_one running-IsValid find_running
      refl refl ascii (pos 2) "demo" [] first_id "t" refl refl

abbrev one_round : Round
one_round = record { events_db = cancelled_db; output_time = 5; run_db = cancelled_db; now = 5 }

stream_run_events-Delivers_example :
    Delivers 1
      (log_of first_id cancelled_db)
      (stream_run_events first_id (pos 1) 15 0 (one_round ∷ []))
unfolding cancel transition is_hex require_run find_run claim_next acquire_history_run
    is_repository_id insert_run check_row insert_event start_run update_run conflicts replace_run
stream_run_events-Delivers_example =
    stream_run_events-Delivers ascii first_id 1 15 0 (one_round ∷ []) cancelled_db cancelled_one
      cancelled-IsValid find_cancelled (start, start, tt) (omega arith) (omega arith)

stream_run_events_returns_example :
    (s : Stream) × (stream_run_events first_id (pos 0) 15 0 (one_round ∷ []) ≡ returned s)
    × (delivered s.frames ≡ drop 0 (log_of first_id cancelled_db))
unfolding cancel transition is_hex require_run find_run claim_next acquire_history_run
    is_repository_id insert_run check_row insert_event start_run update_run conflicts replace_run
stream_run_events_returns_example =
    stream_run_events_returns ascii first_id 0 15 0 (one_round ∷ []) cancelled_db cancelled_one
      cancelled-IsValid find_cancelled refl (start, start, tt) (omega arith) (omega arith)
      (omega arith) (omega arith)

abbrev two_polls : List Poll
two_polls =
    record { poll_db = running_db; is_stopping = false }
    ∷ record { poll_db = running_db; is_stopping = true }
    ∷ []

abbrev settling : Settling
settling = record {
  process = record { has_exited = false; group_found = true; exits_in_time = false };
  reread_db = running_db;
  settle_db = running_db;
  now = "2026-01-01T00:00:04.000Z";
}

ascii-KnowsDiagnostics : KnowsDiagnostics ascii
unfolding validated_diagnostic_code validated_message
ascii-KnowsDiagnostics = ((refl, refl), (refl, refl))

monitor-IsSettled_example :
    IsSettled first_id first_id settling (monitor ascii false first_id first_id two_polls settling)
monitor-IsSettled_example =
    monitor-IsSettled ascii false first_id first_id two_polls settling running_db running_one
      ascii-KnowsDiagnostics running-IsValid find_running (start, (start, (start, start)))

abbrev work : Work
work = record {
  preparation = returns tt;
  messages = "Using temp directory: /tmp" ∷ "Building trees" ∷ [];
  publication = returns first_id;
}

abbrev first_world : World
first_world = record { turn = 0; db = running_db }

execute-HasSettled_example :
    HasSettled first_id (execute ascii (λ k db. db) clock work first_id first_world)
execute-HasSettled_example =
    execute-HasSettled ascii (λ k db. db) clock work first_id first_world running_one
      (λ k db. start) running-IsValid find_running

abbrev running_settling : Settling
running_settling = record {
  process = record { has_exited = true; group_found = true; exits_in_time = true };
  reread_db = (claim_next clock queued_db).1;
  settle_db = (claim_next clock queued_db).1;
  now = "2026-01-01T00:00:04.000Z";
}

process_next-HasSettled_example :
    Turn.HasSettled queued_db first_id running_settling
      (process_next ascii false clock first_id [] running_settling queued_db)
process_next-HasSettled_example =
    Turn.process_next-HasSettled ascii false clock first_id [] running_settling queued_db
      ascii-KnowsDiagnostics (Calls-IsValid ascii queued_db queued-Calls) (start, start)
