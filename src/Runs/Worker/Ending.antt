-- ===== src/Runs/Worker/Ending.antt =====
-- The worker leaves no run unfinished behind the process that it has watched.
use src_visual.Runs.Worker.{
  remove_unpublished_run_data, Effect, removes_staging, removes_tmp, terminate_process_group, Poll,
  Settling, Report, report, done, stopped, lost, stop_run, after_exit, monitor,
}
use src_visual.Runs.Types.{RunRow, RunRecord, Db, Result, ok, is_terminal}
use src_visual.Runs.Schema.{find_run, read_run, run_from_row, latest_sequence}
use src_visual.Runs.Store.{cancel}
use src_visual.Runs.Invariant.{IsValid}
use src_visual.Runs.Sound.{read_run_lem}
use src_visual.Runs.Outcomes.{Ends}
use src_visual.Runs.Endings.{EndsFrom, IsDiagnostic, cancel-Ends, fail-Ends}
use src_visual.Runs.Calls.{Calls}
use src_visual.Runs.Lifecycle.{Later, later_lem}
use src_visual.Common.{
  String, ◌≡◌, refl, sym, ap, Bool, true, false, not, ◌&&◌, ◌⊎◌, inl, inr, Unicode, List, [], ◌∷◌,
  ◌++◌, some, subst, Bool-cases, if◌then◌else◌,
}
use src_visual.Common.Sums.{Has}

-- Between the worker's reads and writes, any process calls methods of the store.
abbrev pub IsWatch : Unicode → Db → List Poll → Settling → Type 0
IsWatch u db [] s = Calls u db s.reread_db × Calls u s.reread_db s.settle_db
IsWatch u db (poll ∷ polls) s = Calls u db poll.poll_db × IsWatch u poll.poll_db polls s

-- The constant diagnostics pass the store's validation, as they do under Python's `str` methods.
abbrev pub KnowsDiagnostics : Unicode → Type 0
KnowsDiagnostics u =
    IsDiagnostic u "worker-stopped" "The history worker stopped before this run completed."
    × IsDiagnostic u "worker-process-failed" "The history execution process stopped unexpectedly."

-- The run has ended; unless it had ended by the worker's last read, its unpublished data is removed;
-- and the worker raises only if the run ended between that read and the write that follows.
pub record IsSettled (i artifact_id : String) (s : Settling) (m : Report) : Type 0 where
  pub ended : Ends i m.db
  pub released :
      (Has (removes_staging artifact_id) m.effects × Has (removes_tmp i) m.effects)
      ⊎ Ends i s.reread_db
  pub quiet : (m.result ≡ ok tt) ⊎ Ends i s.settle_db

Has-append_right : {A : Type 0} (x : A) (xs ys : List A) → Has x ys → Has x (xs ++ ys)
Has-append_right x [] ys h = h
Has-append_right x (y ∷ xs) ys h = inr (Has-append_right x xs ys h)

done_lem : (r : Result RunRecord) (rec : RunRecord) → r ≡ ok rec → done r ≡ ok tt
done_lem r rec e = ap done e

module _ (i a : String) (s : Settling) (l : Later i s.reread_db) (o : Result RunRecord × Db)
    (ends : EndsFrom i s.settle_db o) (effects : List Effect) where
  pub report-IsSettled : IsSettled i a s (report (effects ++ remove_unpublished_run_data a i) o)
  report-IsSettled = record {
    ended = ends.0;
    released =
        inl
          (Has-append_right _ effects _ (inl refl), Has-append_right _ effects _ (inr (inl refl)));
    quiet = elim ends.1 [ inl (rec, e) ↦ inl (done_lem _ rec e) | inr ended ↦ inr ended ];
  }

read_lem :
    (i : String) (db : Db) (l : Later i db)
    → read_run i db ≡ ok (run_from_row l.row (latest_sequence i db))
read_lem i db l = read_run_lem i l.row db l.valid l.found

module _ (u : Unicode) (i a : String) (s : Settling) (l : Later i s.reread_db) where
  abbrev cleared : List Effect
  cleared = terminate_process_group s.process ++ remove_unpublished_run_data a i

  stop_run_lem :
      (end : String → Db → Result RunRecord × Db)
      → stop_run end i a s ≡ (
          if is_terminal l.row.status
          then record { result = ok tt; effects = cleared; db = s.reread_db }
          else report cleared (end s.now s.settle_db))
  unfolding stop_run run_from_row
  stop_run_lem end = rw (read_lem i s.reread_db l, stop_run) refl

  ended_before : is_terminal l.row.status ≡ true → Ends i s.reread_db
  ended_before e = (l.row, l.found, e)

  stop_run-IsSettled :
      (end : String → Db → Result RunRecord × Db)
      → EndsFrom i s.settle_db (end s.now s.settle_db)
      → IsSettled i a s (stop_run end i a s)
  stop_run-IsSettled end ends =
      subst (IsSettled i a s) (sym (stop_run_lem end))
        (elim (Bool-cases (is_terminal l.row.status)) [
          | inl e ↦
              rw e (record {
                ended = ended_before e;
                released = inr (ended_before e);
                quiet = inl refl;
              })
          | inr e ↦ rw e (
              report-IsSettled i a s l (end s.now s.settle_db) ends
                (terminate_process_group s.process))
        ])

  after_exit_lem :
      (keep : Bool)
      → after_exit u keep i a s ≡ (
          if l.row.cancellation_requested && not (is_terminal l.row.status)
          then report (remove_unpublished_run_data a i) (cancel i s.now s.settle_db)
          else if not (is_terminal l.row.status)
          then report (remove_unpublished_run_data a i) (lost u i s.now s.settle_db)
          else record {
            result = ok tt;
            effects = if keep then [] else removes_tmp i ∷ [];
            db = s.reread_db;
          })
  unfolding after_exit run_from_row
  after_exit_lem keep = rw (read_lem i s.reread_db l, after_exit) refl

  after_exit-IsSettled :
      (keep : Bool)
      → EndsFrom i s.settle_db (cancel i s.now s.settle_db)
      → EndsFrom i s.settle_db (lost u i s.now s.settle_db)
      → IsSettled i a s (after_exit u keep i a s)
  after_exit-IsSettled keep cancels fails =
      subst (IsSettled i a s) (sym (after_exit_lem keep))
        (split l.row.cancellation_requested (is_terminal l.row.status) refl)
    where
      split :
          (b c : Bool)
          → is_terminal l.row.status ≡ c
          → IsSettled i a s (
              if b && not c
              then report (remove_unpublished_run_data a i) (cancel i s.now s.settle_db)
              else if not c
              then report (remove_unpublished_run_data a i) (lost u i s.now s.settle_db)
              else record {
                result = ok tt;
                effects = if keep then [] else removes_tmp i ∷ [];
                db = s.reread_db;
              })
      split true true e = record {
        ended = ended_before e;
        released = inr (ended_before e);
        quiet = inl refl;
      }
      split false true e = record {
        ended = ended_before e;
        released = inr (ended_before e);
        quiet = inl refl;
      }
      split true false e = report-IsSettled i a s l (cancel i s.now s.settle_db) cancels []
      split false false e = report-IsSettled i a s l (lost u i s.now s.settle_db) fails []

IsWatch-reread :
    (u : Unicode) (i : String) (db : Db) (polls : List Poll) (s : Settling)
    → Later i db
    → IsWatch u db polls s
    → Later i s.reread_db × Later i s.settle_db
IsWatch-reread u i db [] s l w =
    let r = later_lem u i db s.reread_db l w.0 in (r, later_lem u i s.reread_db s.settle_db r w.1)
IsWatch-reread u i db (poll ∷ polls) s l w =
    IsWatch-reread u i poll.poll_db polls s (later_lem u i db poll.poll_db l w.0) w.1

monitor_lem :
    (u : Unicode) (keep : Bool) (i a : String) (poll : Poll) (polls : List Poll) (s : Settling)
    (l : Later i poll.poll_db)
    → monitor u keep i a (poll ∷ polls) s ≡ (
        if l.row.cancellation_requested
        then stop_run (cancel i) i a s
        else if poll.is_stopping
        then stop_run (stopped u i) i a s
        else monitor u keep i a polls s)
unfolding monitor run_from_row
monitor_lem u keep i a poll polls s l = rw (read_lem i poll.poll_db l, monitor) refl

monitor-loop :
    (u : Unicode) (keep : Bool) (i a : String) (polls : List Poll) (s : Settling) (db : Db)
    → KnowsDiagnostics u
    → Later i db
    → IsWatch u db polls s
    → IsSettled i a s (monitor u keep i a polls s)
unfolding monitor
monitor-loop u keep i a [] s db knows l w =
    let (reread, settle) = IsWatch-reread u i db [] s l w in
    after_exit-IsSettled u i a s reread keep
      (cancel-Ends i s.now s.settle_db settle.row settle.valid settle.found)
      (fail-Ends u i _ _ s.now s.settle_db settle.row knows.1 settle.valid settle.found)
monitor-loop u keep i a (poll ∷ polls) s db knows l w =
    subst (IsSettled i a s) (sym (monitor_lem u keep i a poll polls s at_poll)) (
      split at_poll.row.cancellation_requested poll.is_stopping
        (monitor-loop u keep i a polls s poll.poll_db knows at_poll w.1))
  where
    at_poll : Later i poll.poll_db
    at_poll = later_lem u i db poll.poll_db l w.0

    ends : Later i s.reread_db × Later i s.settle_db
    ends = IsWatch-reread u i db (poll ∷ polls) s l w

    split :
        (b c : Bool)
        → IsSettled i a s (monitor u keep i a polls s)
        → IsSettled i a s (
            if b
            then stop_run (cancel i) i a s
            else if c
            then stop_run (stopped u i) i a s
            else monitor u keep i a polls s)
    split true c rest =
        stop_run-IsSettled u i a s ends.0 (cancel i)
          (cancel-Ends i s.now s.settle_db ends.1.row ends.1.valid ends.1.found)
    split false true rest =
        stop_run-IsSettled u i a s ends.0 (stopped u i)
          (fail-Ends u i _ _ s.now s.settle_db ends.1.row knows.0 ends.1.valid ends.1.found)
    split false false rest = rest

-- The worker's watch over a process of a run that is there, from a valid database, with any number
-- of polls between which other processes call whatever methods of the store: afterwards the run has
-- ended; its unpublished data is removed, unless the run had ended by the last read; and the worker
-- raises only if the run has ended by the last write.
pub monitor-IsSettled :
    (u : Unicode) (keep : Bool) (i a : String) (polls : List Poll) (s : Settling) (db : Db)
    (r : RunRow)
    → KnowsDiagnostics u
    → IsValid db
    → find_run i db.runs ≡ some r
    → IsWatch u db polls s
    → IsSettled i a s (monitor u keep i a polls s)
monitor-IsSettled u keep i a polls s db r knows valid found =
    monitor-loop u keep i a polls s db knows (record { row = r; valid = valid; found = found })
