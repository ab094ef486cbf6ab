-- ===== src/Runs/Events/Delivery.antt =====
-- What `stream_run_events` delivers, and that it ends, while other processes call the methods of
-- `RunStore`.
use src_visual.Runs.Types.{RunRow, RunEvent, Db, is_terminal}
use src_visual.Runs.Schema.{integer_limit, find_run}
use src_visual.Runs.Invariant.{IsValid}
use src_visual.Runs.Calls.{Calls, Calls-Writes, start}
use src_visual.Runs.Lifecycle.{ended_run_kept, Calls-trans, Later, later_lem}
use src_visual.Runs.Events.{
  beat, stream_round, Stream, Round, Outcome, returned, raised, waiting, has_reached, stream_rounds,
  stream_run_events,
}
use src_visual.Runs.Events.Pages.{log_of}
use src_visual.Runs.Events.Feed.{
  cursor_fits, delivered, IsFed, delivered-send, grown-IsFed, beat-IsFed, Writes-log_of,
}
use src_visual.Runs.Events.Rounds.{
  sent, sent-IsFed_after, stream_round_lem, reached_lem, stream_rounds-go_on, decide_round,
}
use src_visual.Common.{
  ◌+◌, length-append, ◌<◌, ◌≤◌, ltb, inr, ◌⊎◌, inl, ℕ, pos, String, ◌≡◌, refl, sym, ap, ◌∙◌, Bool,
  true, false, ◌&&◌, Unicode, List, [], ◌∷◌, ◌++◌, some, length, take, drop, arith, subst,
}

-- Between the reads, any process calls methods of the store.
abbrev pub IsHistory : Unicode → Db → List Round → Type 0
IsHistory u db [] = Unit
IsHistory u db (round ∷ rounds) =
    Calls u db round.events_db
    × Calls u round.events_db round.run_db
    × IsHistory u round.run_db rounds

abbrev pub last_db : Db → List Round → Db
last_db db [] = db
last_db db (round ∷ rounds) = last_db round.run_db rounds

-- The stream has the log from `a` on: all of it if it has returned, the first part if it waits.
abbrev pub Delivers : ℕ → List RunEvent → Outcome → Type 0
Delivers a log (returned s) = delivered s.frames ≡ drop a log
Delivers a log (waiting s) = (rest : List RunEvent) × (delivered s.frames ++ rest ≡ drop a log)
Delivers a log (raised e s) = ⊥

IsHistory-Calls :
    (u : Unicode) (db : Db) (rounds : List Round)
    → IsHistory u db rounds
    → Calls u db (last_db db rounds)
IsHistory-Calls u db [] cs = start
IsHistory-Calls u db (round ∷ rounds) cs =
    Calls-trans cs.0 (Calls-trans cs.1 (IsHistory-Calls u round.run_db rounds cs.2))

-- One round, from a database that is valid and has the run.
module _ (u : Unicode) (i : String) (h a : ℕ) (round : Round) (db : Db) (s : Stream)
    (l : Later i db) (before : Calls u db round.events_db)
    (between : Calls u round.events_db round.run_db) (fed : IsFed a (log_of i db) s) where
  at_events : Later i round.events_db
  at_events = later_lem u i db round.events_db l before

  pub at_run : Later i round.run_db
  unfolding at_events
  at_run = later_lem u i round.events_db round.run_db at_events between

  pub fed_events : IsFed a (log_of i round.events_db) s
  fed_events =
      let (more, e) = Writes-log_of i (Calls-Writes before l.valid) in
      grown-IsFed a (log_of i db) (log_of i round.events_db) more s e fed

  pub sent_page : Stream
  unfolding at_events at_run
  sent_page =
      sent i h round a s at_events.row at_run.row at_events.valid at_events.found at_run.valid
        at_run.found fed_events

  pub delivered-sent_page :
      delivered sent_page.frames ≡ delivered s.frames ++ take 100 fed_events.rest
  unfolding sent_page
  delivered-sent_page = delivered-send round.output_time (take 100 fed_events.rest) s

  pub fed_run : IsFed a (log_of i round.run_db) sent_page
  unfolding sent_page
  fed_run =
      sent-IsFed_after i h round a s at_events.row at_run.row at_events.valid at_events.found
        at_run.valid at_run.found fed_events u between

  -- The round returns if the run has ended and its whole log is sent, and else waits.
  pub round_cases :
      ltb (a + length (delivered s.frames)) integer_limit ≡ true
      → ((stream_round i h round s ≡ returned sent_page)
          × (is_terminal at_run.row.status ≡ true)
          × (has_reached sent_page.cursor (length (log_of i round.run_db)) ≡ true))
        ⊎ ((stream_round i h round s ≡ waiting (beat h round.now sent_page))
            × (is_terminal at_run.row.status ≡ true
                → has_reached sent_page.cursor (length (log_of i round.run_db)) ≡ false))
  unfolding sent_page
  round_cases fits =
      split (is_terminal at_run.row.status)
        (has_reached sent_page.cursor (length (log_of i round.run_db)))
        (stream_round_lem i h round a s at_events.row at_run.row at_events.valid at_events.found
          at_run.valid at_run.found fed_events fits)
    where
      split :
          (b c : Bool)
          → stream_round i h round s ≡ decide_round (b && c) h round.now sent_page
          → ((stream_round i h round s ≡ returned sent_page) × (b ≡ true) × (c ≡ true))
            ⊎ ((stream_round i h round s ≡ waiting (beat h round.now sent_page))
                × (b ≡ true → c ≡ false))
      split true true e = inl (e, refl, refl)
      split true false e = inr (e, λ k. refl)
      split false c e = inr (e, λ k. cc)

longer_log :
    (u : Unicode) (i : String) (db db' : Db)
    → Later i db
    → Calls u db db'
    → length (log_of i db) ≤ length (log_of i db')
longer_log u i db db' l cs =
    let (more, e) = Writes-log_of i (Calls-Writes cs l.valid) in
    omega (arith, ap length e, length-append (log_of i db) more)

rounds-Delivers :
    (u : Unicode) (i : String) (h a : ℕ) (rounds : List Round) (db : Db) (s : Stream)
    → Later i db
    → IsHistory u db rounds
    → IsFed a (log_of i db) s
    → a < integer_limit
    → length (log_of i (last_db db rounds)) < integer_limit
    → Delivers a (log_of i (last_db db rounds)) (stream_rounds i h rounds s)
unfolding stream_rounds
rounds-Delivers u i h a [] db s l cs fed small short = (fed.rest, fed.together)
rounds-Delivers u i h a (round ∷ rounds) db s l cs fed small short =
    elim (round_cases u i h a round db s l cs.0 cs.1 fed fits) [
      | inl (e, ended, reached) ↦
          subst (Delivers a (log_of i (last_db round.run_db rounds)))
            (sym (stream_rounds-go_on i h round rounds s _ e))
            (reached_lem a (log_of i round.run_db) t fed2 reached
              ∙ ap (drop a) (
                  sym
                    (ended_run_kept u round.run_db (last_db round.run_db rounds) i l2.row l2.valid
                      (IsHistory-Calls u round.run_db rounds cs.2) l2.found ended).1))
      | inr (e, _) ↦
          subst (Delivers a (log_of i (last_db round.run_db rounds)))
            (sym (stream_rounds-go_on i h round rounds s _ e))
            (rounds-Delivers u i h a rounds round.run_db (beat h round.now t) l2 cs.2
              (beat-IsFed a h round.now (log_of i round.run_db) t fed2) small short)
    ]
  where
    fits : ltb (a + length (delivered s.frames)) integer_limit ≡ true
    fits = cursor_fits a (log_of i db) s fed small (
        omega (
          arith,
          short,
          longer_log u i db (last_db round.run_db rounds) l
              (IsHistory-Calls u db (round ∷ rounds) cs),
        ))

    l2 : Later i round.run_db
    l2 = at_run u i h a round db s l cs.0 cs.1 fed

    t : Stream
    t = sent_page u i h a round db s l cs.0 cs.1 fed

    fed2 : IsFed a (log_of i round.run_db) t
    fed2 = fed_run u i h a round db s l cs.0 cs.1 fed

-- The stream of a run's events after the sequence number `after`, in any number of rounds between
-- which other processes call whatever methods of the store: if it has returned, it has yielded
-- exactly the events of the run's log after the first `after` ones, in order and once each, to the
-- end that the log has for good; if it still waits, it has yielded a first part of these; and it
-- never raises. `after` and the length of the log are below 2^63, so that SQLite takes them.
pub stream_run_events-Delivers :
    (u : Unicode) (i : String) (after heartbeat started : ℕ) (rounds : List Round) (db : Db)
    (r : RunRow)
    → IsValid db
    → find_run i db.runs ≡ some r
    → IsHistory u db rounds
    → after < integer_limit
    → length (log_of i (last_db db rounds)) < integer_limit
    → Delivers after
        (log_of i (last_db db rounds))
        (stream_run_events i (pos after) heartbeat started rounds)
unfolding stream_run_events
stream_run_events-Delivers u i after heartbeat started rounds db r valid found cs small short =
    rounds-Delivers u i heartbeat after rounds db _
      (record { row = r; valid = valid; found = found }) cs
      (record { at = ap pos (omega arith); rest = drop after (log_of i db); together = refl }) small
      short
