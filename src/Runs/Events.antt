-- ===== src/Runs/Events.antt =====
-- srcdiffvisual/runs/events.py: the stream of a run's events over a connection that stays open.
-- Other processes write between the reads of a round, so each read has its own database. Times are
-- those of one monotonic clock, and the JSON text of an event is an argument.
pub mod Pages
pub mod Format
pub mod Feed
pub mod Rounds
pub mod Delivery
pub mod Return
use src_visual.Common.{
  ℕ, ◌+◌, ℤ, pos, negsuc, String, Bool, true, false, ◌&&◌, List, [], ◌∷◌, ◌++◌, leb, if◌then◌else◌,
}
use src_visual.Runs.Types.{RunEvent, RunRecord, Db, Error, Result, ok, err, is_terminal}
use src_visual.Runs.Schema.{read_run}
use src_visual.Runs.Progress.{read_events}

-- What the generator yields: an event, or the comment that keeps the connection alive.
pub data Frame : Type 0 where
  event_frame : RunEvent → Frame
  keep_alive : Frame

-- The local variables, and what has been yielded.
pub record Stream : Type 0 where
  pub cursor : ℤ
  pub last_output : ℕ
  pub frames : List Frame

-- What one round of the loop meets: the database at each read, and the clock when it has yielded a
-- page and when it looks whether to keep the connection alive.
pub record Round : Type 0 where
  pub events_db : Db
  pub output_time : ℕ
  pub run_db : Db
  pub now : ℕ

-- The generator has returned, has raised, or sleeps.
pub data Outcome : Type 0 where
  returned : Stream → Outcome
  raised : Error → Stream → Outcome
  waiting : Stream → Outcome

unfoldable pub send : ℕ → List RunEvent → Stream → Stream
send t [] s = s
send t (e ∷ page) s =
    send t page
      (record { cursor = pos e.sequence; last_output = t; frames = s.frames ++ event_frame e ∷ [] })

abbrev pub has_reached : ℤ → ℕ → Bool
has_reached (pos n) latest = leb latest n
has_reached (negsuc n) latest = false

abbrev pub has_ended : RunRecord → Stream → Bool
has_ended run s = is_terminal run.status && has_reached s.cursor run.latest_event_sequence

unfoldable pub beat : ℕ → ℕ → Stream → Stream
beat heartbeat now s =
    if leb (s.last_output + heartbeat) now
    then record s { last_output = now; frames = s.frames ++ keep_alive ∷ [] }
    else s

unfoldable pub after_page : String → ℕ → Round → Stream → Outcome
after_page run_id heartbeat round s = elim (read_run run_id round.run_db) [
  | err e ↦ raised e s
  | ok run ↦ if has_ended run s then returned s else waiting (beat heartbeat round.now s)
]

-- The body of the loop.
unfoldable pub stream_round : String → ℕ → Round → Stream → Outcome
unfolding after_page
stream_round run_id heartbeat round s =
    elim (read_events run_id s.cursor (pos 100) round.events_db) [
      | err e ↦ raised e s
      | ok page ↦ after_page run_id heartbeat round (send round.output_time page s)
    ]

unfoldable pub stream_rounds : String → ℕ → List Round → Stream → Outcome
unfolding stream_round
stream_rounds run_id heartbeat [] s = waiting s
stream_rounds run_id heartbeat (round ∷ rounds) s = elim (stream_round run_id heartbeat round s) [
  | returned s' ↦ returned s'
  | raised e s' ↦ raised e s'
  | waiting s' ↦ stream_rounds run_id heartbeat rounds s'
]

-- `stream_run_events`, for as many rounds as are given.
unfoldable pub stream_run_events : String → ℤ → ℕ → ℕ → List Round → Outcome
unfolding stream_rounds
stream_run_events run_id after heartbeat started rounds =
    stream_rounds run_id heartbeat rounds
      (record { cursor = after; last_output = started; frames = [] })
