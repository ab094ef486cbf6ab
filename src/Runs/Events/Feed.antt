-- ===== src/Runs/Events/Feed.antt =====
-- The part of a run's log that `stream_run_events` has yielded, page by page, while the log grows.
use src_visual.Common.{
  zero, ◌⊎◌, true, ltb, ◌<◌, ◌⊎◌, select-append, inr, length-append, drop-drop, subst, drop-append,
  drop-length_append, inl, ◌∙◌, sym, Bool-cases, ap, ℕ, suc, ◌+◌, pos, String, ◌≡◌, refl, List, [],
  ◌∷◌, ◌++◌, some, length, take, drop, leb, arith,
}
use src_visual.Runs.Types.{RunRow, RunEvent, Db, ok}
use src_visual.Runs.Schema.{integer_limit, next_event, find_run, is_event_of, require_run}
use mathlib.Core.List.{take-append-drop, append-nil, append_assoc}
use src_visual.Runs.Invariant.Steps.{Write, changes, adds, Writes, unchanged, then_write}
use src_visual.Runs.Progress.{page, read_events, read_page}
use src_visual.Runs.Invariant.{IsValid}
use src_visual.Runs.Events.{Frame, event_frame, keep_alive, Stream, send, beat}
use src_visual.Runs.Events.Pages.{
  take-NumberedFrom, drop-NumberedFrom, log_of, NumberedFrom, page_lem,
}

-- The events among the frames.
abbrev pub delivered : List Frame → List RunEvent
delivered [] = []
delivered (event_frame e ∷ frames) = e ∷ delivered frames
delivered (keep_alive ∷ frames) = delivered frames

pub delivered-append : (fs gs : List Frame) → delivered (fs ++ gs) ≡ delivered fs ++ delivered gs
delivered-append [] gs = refl
delivered-append (event_frame e ∷ fs) gs =
    ap (λ (es : List RunEvent). e ∷ es) (delivered-append fs gs)
delivered-append (keep_alive ∷ fs) gs = delivered-append fs gs

pub delivered-beat : (h now : ℕ) (s : Stream) → delivered (beat h now s).frames ≡ delivered s.frames
unfolding beat
delivered-beat h now s = elim (Bool-cases (leb (s.last_output + h) now)) [
  | inl idle ↦
      rw idle (delivered-append s.frames (keep_alive ∷ []) ∙ append-nil (delivered s.frames))
  | inr busy ↦ rw busy refl
]

pub cursor-beat : (h now : ℕ) (s : Stream) → (beat h now s).cursor ≡ s.cursor
unfolding beat
cursor-beat h now s = ground arith

pub delivered-send :
    (t : ℕ) (page : List RunEvent) (s : Stream)
    → delivered (send t page s).frames ≡ delivered s.frames ++ page
unfolding send
delivered-send t [] s = sym (append-nil (delivered s.frames))
delivered-send t (e ∷ page) s =
    delivered-send t page _
    ∙ ap (λ (es : List RunEvent). es ++ page) (delivered-append s.frames (event_frame e ∷ []))
    ∙ append_assoc (delivered s.frames) (e ∷ []) page

pub cursor-send :
    (t c : ℕ) (page : List RunEvent) (s : Stream)
    → s.cursor ≡ pos c
    → NumberedFrom (suc c) page
    → (send t page s).cursor ≡ pos (c + length page)
unfolding send
cursor-send t c [] s at h = at ∙ ap pos (omega arith)
cursor-send t c (e ∷ page) s at h =
    cursor-send t (suc c) page _ (ap pos h.0) h.1 ∙ ap pos (omega arith)

-- The log of a run only grows at its end.
Write-log_of :
    {db db' : Db} (i : String)
    → Write db db'
    → (more : List RunEvent) × (log_of i db' ≡ log_of i db ++ more)
Write-log_of {db} i (changes k p p' type message now at follows) = (
  _,
  select-append (is_event_of i) db.run_events (next_event k type p'.status message now db ∷ []),
)
Write-log_of {db} i (adds p message fresh alone checks unfinished named) =
    (_, select-append (is_event_of i) db.run_events _)

pub Writes-log_of :
    {db db' : Db} (i : String)
    → Writes db db'
    → (more : List RunEvent) × (log_of i db' ≡ log_of i db ++ more)
Writes-log_of {db} i unchanged = ([], sym (append-nil (log_of i db)))
Writes-log_of {db} i (then_write ws w) =
    let (m, e) = Writes-log_of i ws in
    let (n, f) = Write-log_of i w in
    (m ++ n, f ∙ ap (λ (es : List RunEvent). es ++ n) e ∙ append_assoc (log_of i db) m n)

-- What has been yielded by the time the cursor stands where it does: the log from `a` on, up to the
-- cursor.
pub record IsFed (a : ℕ) (log : List RunEvent) (s : Stream) : Type 0 where
  pub at : s.cursor ≡ pos (a + length (delivered s.frames))
  pub rest : List RunEvent
  pub together : delivered s.frames ++ rest ≡ drop a log

pub rest_lem :
    (a : ℕ) (log : List RunEvent) (s : Stream) (fed : IsFed a log s)
    → fed.rest ≡ drop (a + length (delivered s.frames)) log
rest_lem a log s fed =
    sym (drop-length_append (delivered s.frames) fed.rest)
    ∙ ap (drop (length (delivered s.frames))) fed.together
    ∙ drop-drop (length (delivered s.frames)) a log

length_dropped :
    (a : ℕ) (log : List RunEvent)
    → (length (drop a log) ≡ 0) ⊎ (a + length (drop a log) ≡ length log)
length_dropped zero log = inr (omega arith)
length_dropped (suc a) [] = inl refl
length_dropped (suc a) (e ∷ log) = elim (length_dropped a log) [
  | inl none_left ↦ inl none_left
  | inr whole ↦ inr (omega (arith, whole))
]

-- The cursor is an integer that SQLite takes, if the first one is and the log is not longer than
-- that.
pub cursor_fits :
    (a : ℕ) (log : List RunEvent) (s : Stream)
    → IsFed a log s
    → a < integer_limit
    → length log < integer_limit
    → ltb (a + length (delivered s.frames)) integer_limit ≡ true
cursor_fits a log s fed small short = elim (length_dropped a log) [
  | inl none_left ↦ ground (arith, none_left, lengths, small)
  | inr whole ↦ ground (arith, whole, lengths, short)
]
  where
    lengths : length (delivered s.frames) + length fed.rest ≡ length (drop a log)
    lengths = sym (length-append (delivered s.frames) fed.rest) ∙ ap length fed.together

pub grown-IsFed :
    (a : ℕ) (log log' more : List RunEvent) (s : Stream)
    → log' ≡ log ++ more
    → IsFed a log s
    → IsFed a log' s
grown-IsFed a log log' more s grown fed =
    let (m, e) = drop-append a log more in
    record {
      at = fed.at;
      rest = fed.rest ++ m;
      together =
          sym (append_assoc (delivered s.frames) fed.rest m)
          ∙ ap (λ (es : List RunEvent). es ++ m) fed.together
          ∙ sym e
          ∙ ap (drop a) (sym grown);
    }

pub send-IsFed :
    (a t : ℕ) (log : List RunEvent) (s : Stream) (fed : IsFed a log s)
    → NumberedFrom 1 log
    → IsFed a log (send t (take 100 fed.rest) s)
send-IsFed a t log s fed numbered = record {
  at =
      cursor-send t (a + length (delivered s.frames)) (take 100 fed.rest) s fed.at
        (take-NumberedFrom _ 100 fed.rest rest-NumberedFrom)
      ∙ ap pos (
          omega (
            arith,
            length-append (delivered s.frames) (take 100 fed.rest),
            ap length (delivered-send t (take 100 fed.rest) s),
          ));
  rest = drop 100 fed.rest;
  together =
      ap (λ (es : List RunEvent). es ++ drop 100 fed.rest) (delivered-send t (take 100 fed.rest) s)
      ∙ append_assoc (delivered s.frames) (take 100 fed.rest) (drop 100 fed.rest)
      ∙ ap (λ (es : List RunEvent). delivered s.frames ++ es) (take-append-drop 100 fed.rest)
      ∙ fed.together;
}
  where
    rest-NumberedFrom : NumberedFrom (suc (a + length (delivered s.frames))) fed.rest
    rest-NumberedFrom =
        subst (λ (es : List RunEvent). NumberedFrom (suc (a + length (delivered s.frames))) es)
          (sym (rest_lem a log s fed))
          (subst (λ (n : ℕ). NumberedFrom n (drop (a + length (delivered s.frames)) log))
            (omega arith) (drop-NumberedFrom 1 (a + length (delivered s.frames)) log numbered))

pub beat-IsFed :
    (a h now : ℕ) (log : List RunEvent) (s : Stream) → IsFed a log s → IsFed a log (beat h now s)
beat-IsFed a h now log s fed = record {
  at =
      cursor-beat h now s
      ∙ fed.at
      ∙ ap (λ (es : List RunEvent). pos (a + length es)) (sym (delivered-beat h now s));
  rest = fed.rest;
  together = ap (λ (es : List RunEvent). es ++ fed.rest) (delivered-beat h now s) ∙ fed.together;
}

require_run_lem :
    (i : String) (r : RunRow) (db : Db)
    → IsValid db
    → find_run i db.runs ≡ some r
    → require_run i db ≡ ok (r, db)
unfolding require_run
require_run_lem i r db valid found = rw (valid.named i r found, found) refl

read_page_lem :
    (i : String) (c limit : ℕ) (r : RunRow) (db : Db)
    → require_run i db ≡ ok (r, db)
    → ltb c integer_limit ≡ true
    → read_page i c limit db ≡ ok (page i c limit db.run_events)
unfolding read_page
read_page_lem i c limit r db required fits = rw (required, read_page, fits) refl

pub read_events_lem :
    (i : String) (c : ℕ) (r : RunRow) (db : Db)
    → IsValid db
    → find_run i db.runs ≡ some r
    → ltb c integer_limit ≡ true
    → read_events i (pos c) (pos 100) db ≡ ok (take 100 (drop c (log_of i db)))
unfolding read_events
read_events_lem i c r db valid found fits = rw (valid.named i r found) read
  where
    required : require_run i db ≡ ok (r, db)
    required = require_run_lem i r db valid found

    read : read_page i c 100 db ≡ ok (take 100 (drop c (log_of i db)))
    read = read_page_lem i c 100 r db required fits ∙ ap ok (page_lem i c 100 db valid.numbered)
