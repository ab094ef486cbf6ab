-- ===== src/Runs/Events/Return.antt =====
-- The stream of a run that has ended comes to an end.
use src_visual.Runs.Types.{RunRow, RunEvent, Db, is_terminal}
use src_visual.Runs.Schema.{integer_limit, find_run}
use src_visual.Runs.Invariant.{IsValid}
use src_visual.Runs.Calls.{Calls}
use src_visual.Runs.Lifecycle.{ended_run_kept, Calls-trans, Later}
use src_visual.Runs.Events.{
  Stream, Round, returned, beat, has_reached, stream_rounds, stream_run_events,
}
use src_visual.Runs.Events.Pages.{log_of}
use src_visual.Runs.Events.Feed.{
  cursor_fits, delivered, IsFed, delivered-beat, beat-IsFed, rest_lem,
}
use src_visual.Runs.Events.Rounds.{reached_lem, stream_rounds-go_on}
use src_visual.Runs.Events.Delivery.{
  IsHistory, at_run, fed_events, fed_run, sent_page, delivered-sent_page, round_cases,
}
use src_visual.Common.{
  ℤ, inr, inl, leb, ℕ, ◌+◌, ◌*◌, ◌≤◌, ◌<◌, pos, String, ◌≡◌, refl, sym, ap, ◌∙◌, true, false,
  Unicode, List, [], ◌∷◌, some, length, take, drop, arith, subst, take_cases, length-le-drop,
  length-append,
}

-- A later database has an ended run's row and log unchanged.
kept_log :
    (u : Unicode) (i : String) (db db' : Db) (l : Later i db)
    → is_terminal l.row.status ≡ true
    → Calls u db db'
    → log_of i db' ≡ log_of i db
kept_log u i db db' l ended cs = (ended_run_kept u db db' i l.row l.valid cs l.found ended).1

kept_end :
    (u : Unicode) (i : String) (db db' : Db) (l : Later i db) (l' : Later i db')
    → is_terminal l.row.status ≡ true
    → Calls u db db'
    → is_terminal l'.row.status ≡ true
kept_end u i db db' l l' ended cs =
    let found = (ended_run_kept u db db' i l.row l.valid cs l.found ended).0 in
    subst (λ (r : RunRow). is_terminal r.status ≡ true) (same (sym found ∙ l'.found)) ended
  where
    same : {q r : RunRow} → some q ≡ some r → q ≡ r
    same e = cc

leb-false-le : (m n : ℕ) → m ≤ n → leb m n ≡ false → ⊥
leb-false-le m n h e = ground arith

leb-false-lt : (m n : ℕ) → leb m n ≡ false → n < m
leb-false-lt m n e = ground arith

-- A page that does not reach the end of the log is full.
page_full :
    (c : ℕ) (log : List RunEvent)
    → leb (length log) (c + length (take 100 (drop c log))) ≡ false
    → length (take 100 (drop c log)) ≡ 100
page_full c log short = elim (take_cases 100 (drop c log)) [
  | inl full ↦ full
  | inr whole ↦ absurd (
      leb-false-le (length log) (c + length (drop c log)) (length-le-drop c log)
        (subst (λ (es : List RunEvent). leb (length log) (c + length es) ≡ false) whole short))
]

module _ (u : Unicode) (i : String) (h a : ℕ) (round : Round) (db : Db) (s : Stream)
    (l : Later i db) (ended : is_terminal l.row.status ≡ true) (before : Calls u db round.events_db)
    (between : Calls u round.events_db round.run_db) (fed : IsFed a (log_of i db) s) where
  abbrev page_of : Stream
  page_of = sent_page u i h a round db s l before between fed

  length-page_of :
      length (delivered page_of.frames)
      ≡ length (delivered s.frames)
        + length (take 100 (drop (a + length (delivered s.frames)) (log_of i db)))
  length-page_of =
      ap length (delivered-sent_page u i h a round db s l before between fed)
      ∙ length-append (delivered s.frames) (take 100 rest)
      ∙ ap (λ (es : List RunEvent). length (delivered s.frames) + length (take 100 es))
          (rest_lem a (log_of i round.events_db) s
              (fed_events u i h a round db s l before between fed)
            ∙ ap (drop (a + length (delivered s.frames)))
                (kept_log u i db round.events_db l ended before))
    where
      rest : List RunEvent
      rest = (fed_events u i h a round db s l before between fed).rest

  log_kept : log_of i round.run_db ≡ log_of i db
  log_kept = kept_log u i db round.run_db l ended (Calls-trans before between)

  page_of_unreached :
      has_reached page_of.cursor (length (log_of i round.run_db)) ≡ false
      → leb (length (log_of i db)) (a + length (delivered page_of.frames)) ≡ false
  page_of_unreached unreached =
      subst
        (λ (log : List RunEvent). leb (length log) (a + length (delivered page_of.frames)) ≡ false)
        log_kept
        (ap (λ (c : ℤ). has_reached c (length (log_of i round.run_db)))
            (sym (fed_run u i h a round db s l before between fed).at)
          ∙ unreached)

  pub page_of_full :
      has_reached page_of.cursor (length (log_of i round.run_db)) ≡ false
      → (length (delivered page_of.frames) ≡ length (delivered s.frames) + 100)
        × (a + length (delivered page_of.frames) < length (log_of i db))
  page_of_full unreached = (
    length-page_of
        ∙ ap (λ (n : ℕ). length (delivered s.frames) + n)
            (page_full (a + length (delivered s.frames)) (log_of i db) (
              subst (λ (n : ℕ). leb (length (log_of i db)) n ≡ false)
                (omega (arith, length-page_of)) (page_of_unreached unreached))),
    leb-false-lt (length (log_of i db)) _ (page_of_unreached unreached),
  )

  pub at_end : is_terminal (at_run u i h a round db s l before between fed).row.status ≡ true
  at_end =
      kept_end u i db round.run_db l (at_run u i h a round db s l before between fed) ended
        (Calls-trans before between)

  pub page_of_reached :
      has_reached page_of.cursor (length (log_of i round.run_db)) ≡ true
      → delivered page_of.frames ≡ drop a (log_of i db)
  page_of_reached reached =
      reached_lem a (log_of i round.run_db) page_of
        (fed_run u i h a round db s l before between fed) reached
      ∙ ap (drop a) log_kept

rounds-return :
    (u : Unicode) (i : String) (h a : ℕ) (rounds : List Round) (db : Db) (s : Stream)
    (l : Later i db)
    → is_terminal l.row.status ≡ true
    → IsHistory u db rounds
    → IsFed a (log_of i db) s
    → 1 ≤ length rounds
    → length (log_of i db) ≤ a + length (delivered s.frames) + 100 * length rounds
    → a < integer_limit
    → length (log_of i db) < integer_limit
    → (t : Stream) × (stream_rounds i h rounds s ≡ returned t)
      × (delivered t.frames ≡ drop a (log_of i db))
rounds-return u i h a [] db s l ended cs fed some_round enough small short = absurd (omega arith)
rounds-return u i h a (round ∷ rounds) db s l ended cs fed some_round enough small short_log =
    elim (round_cases u i h a round db s l cs.0 cs.1 fed
      (cursor_fits a (log_of i db) s fed small short_log)) [
        | inl (e, _, reached) ↦ (
          t,
          stream_rounds-go_on i h round rounds s _ e,
          page_of_reached u i h a round db s l ended cs.0 cs.1 fed reached,
        )
        | inr (e, unreached) ↦
            let (full, short) =
              page_of_full u i h a round db s l ended cs.0 cs.1 fed (unreached end) in
            let beaten = ap length (delivered-beat h round.now t) in
            let same = ap length kept in
            let (v, f, d) =
              rounds-return u i h a rounds round.run_db (beat h round.now t) l2 end cs.2
                (beat-IsFed a h round.now (log_of i round.run_db) t fed2) (omega arith)
                (omega arith) small (omega arith) in
            (v, stream_rounds-go_on i h round rounds s _ e ∙ f, d ∙ ap (drop a) kept)
      ]
  where
    l2 : Later i round.run_db
    l2 = at_run u i h a round db s l cs.0 cs.1 fed

    t : Stream
    t = sent_page u i h a round db s l cs.0 cs.1 fed

    fed2 : IsFed a (log_of i round.run_db) t
    fed2 = fed_run u i h a round db s l cs.0 cs.1 fed

    end : is_terminal l2.row.status ≡ true
    end = at_end u i h a round db s l ended cs.0 cs.1 fed

    kept : log_of i round.run_db ≡ log_of i db
    kept = log_kept u i h a round db s l ended cs.0 cs.1 fed

-- The stream of a run that has ended in a valid database returns within as many rounds as the log
-- has pages of 100 after `after`, and at least one, whatever other processes call between its reads:
-- it has then yielded the events of the log after the first `after` ones, in order and once each.
-- `after` and the length of the log are below 2^63, so that SQLite takes them.
pub stream_run_events_returns :
    (u : Unicode) (i : String) (after heartbeat started : ℕ) (rounds : List Round) (db : Db)
    (r : RunRow)
    → IsValid db
    → find_run i db.runs ≡ some r
    → is_terminal r.status ≡ true
    → IsHistory u db rounds
    → 1 ≤ length rounds
    → length (log_of i db) ≤ after + 100 * length rounds
    → after < integer_limit
    → length (log_of i db) < integer_limit
    → (s : Stream) × (stream_run_events i (pos after) heartbeat started rounds ≡ returned s)
      × (delivered s.frames ≡ drop after (log_of i db))
unfolding stream_run_events
stream_run_events_returns u i after heartbeat started rounds db r valid found ended cs some_round
      enough small short =
    rounds-return u i heartbeat after rounds db _ (record { row = r; valid = valid; found = found })
      ended cs
      (record { at = ap pos (omega arith); rest = drop after (log_of i db); together = refl })
      some_round (omega arith) small short
