-- ===== src/Runs/Events/Rounds.antt =====
-- One round of `stream_run_events`, while other processes call the methods of `RunStore`.
use src_visual.Runs.Sound.{read_run_lem}
use mathlib.Core.List.{append-nil}
use src_visual.Runs.Outcomes.{latest_sequence_lem}
use src_visual.Common.{
  ltb, leb→le, drop_all, if◌then◌else◌, ℤ, ℕ, ◌+◌, pos, String, ◌≡◌, refl, sym, ap, ◌∙◌, Bool, true,
  false, ◌&&◌, Unicode, List, [], ◌∷◌, ◌++◌, some, length, take, drop,
}
use src_visual.Runs.Events.Pages.{length-sequences, log_of, log_of-NumberedFrom}
use src_visual.Runs.Events.Feed.{
  delivered, IsFed, rest_lem, grown-IsFed, send-IsFed, read_events_lem, Writes-log_of,
}
use src_visual.Runs.Types.{RunRow, RunEvent, ok, is_terminal}
use src_visual.Runs.Schema.{integer_limit, find_run, run_from_row, read_run}
use src_visual.Runs.Invariant.{IsValid}
use src_visual.Runs.Calls.{Calls, Calls-Writes}
use src_visual.Runs.Events.{
  read_events, ◌∷◌, String, Bool, ℕ, List, Stream, Round, Outcome, returned, raised, waiting, send,
  beat, has_reached, after_page, stream_round, stream_rounds,
}

-- The two ways on from a page.
abbrev pub decide_round : Bool → ℕ → ℕ → Stream → Outcome
decide_round true h now s = returned s
decide_round false h now s = waiting (beat h now s)

module _ (i : String) (h : ℕ) (round : Round) (a : ℕ) (s : Stream) (r r' : RunRow)
    (valid : IsValid round.events_db) (found : find_run i round.events_db.runs ≡ some r)
    (valid' : IsValid round.run_db) (found' : find_run i round.run_db.runs ≡ some r')
    (fed : IsFed a (log_of i round.events_db) s) where
  abbrev pub sent : Stream
  sent = send round.output_time (take 100 fed.rest) s

  page_read :
      ltb (a + length (delivered s.frames)) integer_limit ≡ true
      → read_events i s.cursor (pos 100) round.events_db ≡ ok (take 100 fed.rest)
  page_read fits =
      ap (λ (c : ℤ). read_events i c (pos 100) round.events_db) fed.at
      ∙ read_events_lem i (a + length (delivered s.frames)) r round.events_db valid found fits
      ∙ ap (λ (es : List RunEvent). ok (take 100 es))
          (sym (rest_lem a (log_of i round.events_db) s fed))

  run_read : read_run i round.run_db ≡ ok (run_from_row r' (length (log_of i round.run_db)))
  run_read =
      read_run_lem i r' round.run_db valid' found'
      ∙ ap (λ (n : ℕ). ok (run_from_row r' n))
          (latest_sequence_lem i round.run_db valid' ∙ length-sequences i round.run_db.run_events)

  after_page_lem :
      (t : Stream)
      → after_page i h round t
        ≡ decide_round
            (is_terminal r'.status && has_reached t.cursor (length (log_of i round.run_db)))
            h
            round.now
            t
  unfolding after_page run_from_row
  after_page_lem t =
      rw (run_read, after_page)
        (decided (is_terminal r'.status && has_reached t.cursor (length (log_of i round.run_db))))
    where
      decided :
          (b : Bool)
          → (if b then returned t else waiting (beat h round.now t)) ≡ decide_round b h round.now t
      decided true = refl
      decided false = refl

  pub stream_round_lem :
      ltb (a + length (delivered s.frames)) integer_limit ≡ true
      → stream_round i h round s
        ≡ decide_round
            (is_terminal r'.status && has_reached sent.cursor (length (log_of i round.run_db)))
            h
            round.now
            sent
  unfolding stream_round
  stream_round_lem fits = rw (page_read fits, stream_round) (after_page_lem sent)

  sent-IsFed : IsFed a (log_of i round.events_db) sent
  sent-IsFed =
      send-IsFed a round.output_time (log_of i round.events_db) s fed
        (log_of-NumberedFrom i round.events_db valid.numbered)

  pub sent-IsFed_after :
      (u : Unicode) → Calls u round.events_db round.run_db → IsFed a (log_of i round.run_db) sent
  sent-IsFed_after u cs =
      let (more, e) = Writes-log_of i (Calls-Writes cs valid) in
      grown-IsFed a (log_of i round.events_db) (log_of i round.run_db) more sent e sent-IsFed

-- A cursor that has reached the end of the log has yielded all of it.
pub reached_lem :
    (a : ℕ) (log : List RunEvent) (s : Stream)
    → IsFed a log s
    → has_reached s.cursor (length log) ≡ true
    → delivered s.frames ≡ drop a log
reached_lem a log s fed reached =
    sym (append-nil (delivered s.frames))
    ∙ ap (λ (es : List RunEvent). delivered s.frames ++ es) (sym none_left)
    ∙ fed.together
  where
    none_left : fed.rest ≡ []
    none_left =
        rest_lem a log s fed
        ∙ drop_all (a + length (delivered s.frames)) log (
            leb→le (length log) (a + length (delivered s.frames))
              (ap (λ (c : ℤ). has_reached c (length log)) (sym fed.at) ∙ reached))

-- The loop after a round.
abbrev pub go_on : String → ℕ → List Round → Outcome → Outcome
go_on i h rounds (returned s) = returned s
go_on i h rounds (raised e s) = raised e s
go_on i h rounds (waiting s) = stream_rounds i h rounds s

pub stream_rounds-go_on :
    (i : String) (h : ℕ) (round : Round) (rounds : List Round) (s : Stream) (o : Outcome)
    → stream_round i h round s ≡ o
    → stream_rounds i h (round ∷ rounds) s ≡ go_on i h rounds o
unfolding stream_rounds
stream_rounds-go_on i h round rounds s (returned t) e = rw (e, stream_rounds) refl
stream_rounds-go_on i h round rounds s (raised x t) e = rw (e, stream_rounds) refl
stream_rounds-go_on i h round rounds s (waiting t) e = rw (e, stream_rounds) refl
