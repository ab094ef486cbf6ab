-- ===== src/Runs/Sound/Abandoned.antt =====
-- `fail_abandoned_runs`.
use src_visual.Common.{
  ℕ, String, ◌≡◌, refl, ◌∙◌, true, false, inl, inr, Bool-cases, none, some, List, [], ◌∷◌, any, All,
  length, str_eq, arith, eq_iff,
}
use src_visual.Runs.Types.{RunRow, Db, Result, ok, err, failed, status_event, settle, is_running}
use src_visual.Runs.Schema.{next_event, check_row, find_run}
use src_visual.Runs.Progress.{
  abandoned_row, fail_abandoned, fail_each, running_ids, counted, fail_abandoned_runs,
}
use src_visual.Runs.Invariant.Steps.{unchanged, changes, one-Write}
use src_visual.Runs.Invariant.{IsValid, IsKeyed}
use src_visual.Runs.Invariant.Rows.{find_run-replace_run, run_id-find_run}
use src_visual.Runs.Invariant.Writes.{Follows, after_write, after_write-IsValid, write_lem}
use src_visual.Runs.Sound.{IsSafe-trans, IsSound, IsSafe}

-- The run is there, and runs.
abbrev pub IsRunningIn : List RunRow → String → Type 0
IsRunningIn rows i = (r : RunRow) × (find_run i rows ≡ some r) × (is_running r.status ≡ true)

abbrev IsDistinct : List String → Type 0
IsDistinct [] = Unit
IsDistinct (i ∷ ids) = (any (str_eq i) ids ≡ false) × IsDistinct ids

abandoned-Follows :
    (r : RunRow) (now : String)
    → check_row r ≡ true
    → is_running r.status ≡ true
    → Follows r (abandoned_row now r)
unfolding check_row
abandoned-Follows r now c run = record {
  same_id = refl;
  same_fingerprint = refl;
  same_origin = (refl, refl, refl);
  unfinished = ground arith;
  forward = ground arith;
  requested = λ h. h;
  checked = ground arith;
  uncancelled = λ h. cc;
}

abbrev stopped : String
stopped = "The history worker stopped before this run completed."

abbrev pub after_abandon : Db → String → RunRow → String → Db
after_abandon db i r now = after_write db i (abandoned_row now r) status_event failed stopped now

module _ (db : Db) (i now : String) (r : RunRow) (valid : IsValid db)
    (found : find_run i db.runs ≡ some r) (run : is_running r.status ≡ true) where
  follows : Follows r (abandoned_row now r)
  follows = abandoned-Follows r now (valid.checked i r found) run

  fail_abandoned_lem :
      fail_abandoned i now db
      ≡ ok (next_event i status_event failed stopped now db, after_abandon db i r now)
  unfolding fail_abandoned
  fail_abandoned_lem =
      write_lem db i (abandoned_row now) r valid found follows status_event failed stopped now

  after_abandon-IsValid : IsValid (after_abandon db i r now)
  after_abandon-IsValid =
      after_write-IsValid db i (abandoned_row now) r valid found follows status_event failed stopped
        now refl

  -- Failing one run leaves the others as they are.
  still_running :
      (j : String)
      → str_eq i j ≡ false
      → IsRunningIn db.runs j
      → IsRunningIn (after_abandon db i r now).runs j
  still_running j ne (q, e, h) = (
    q,
    find_run-replace_run i j (abandoned_row now r) db.runs (run_id-find_run i db.runs r found)
        ∙ (rw ne e),
    h,
  )

All-still_running :
    (db : Db) (i now : String) (r : RunRow)
    → IsValid db
    → find_run i db.runs ≡ some r
    → is_running r.status ≡ true
    → (ids : List String) → any (str_eq i) ids ≡ false
    → All (IsRunningIn db.runs) ids
    → All (IsRunningIn (after_abandon db i r now).runs) ids
All-still_running db i now r valid found run [] d h = tt
All-still_running db i now r valid found run (j ∷ ids) d h = (
  still_running db i now r valid found run j (ground arith) h.0,
  All-still_running db i now r valid found run ids (ground arith) h.1,
)

fail_each-IsSafe :
    (ids : List String) (now : String) (db : Db)
    → IsValid db
    → IsDistinct ids
    → All (IsRunningIn db.runs) ids
    → IsSafe db (fail_each ids now db)
unfolding fail_each
fail_each-IsSafe [] now db valid d h = unchanged
fail_each-IsSafe (i ∷ ids) now db valid d ((r, found, run), h) =
    rw (fail_abandoned_lem db i now r valid found run) (
      IsSafe-trans (fail_each ids now (after_abandon db i r now))
        (one-Write (
          changes i r (abandoned_row now r) status_event stopped now found
            (follows db i now r valid found run)))
        (fail_each-IsSafe ids now (after_abandon db i r now)
          (after_abandon-IsValid db i now r valid found run) d.1
          (All-still_running db i now r valid found run ids d.0 h)))

-- A run that no row has is not among the ids.
running_ids-fresh :
    (i : String) (rows : List RunRow)
    → find_run i rows ≡ none
    → any (str_eq i) (running_ids rows) ≡ false
unfolding find_run running_ids
running_ids-fresh i [] h = refl
running_ids-fresh i (q ∷ rows) h =
    ground (arith, eq_iff q.run_id i, eq_iff i q.run_id, running_ids-fresh i rows)

running_ids-IsDistinct : (rows : List RunRow) → IsKeyed rows → IsDistinct (running_ids rows)
unfolding running_ids
running_ids-IsDistinct [] k = tt
running_ids-IsDistinct (r ∷ rows) k = elim (Bool-cases (is_running r.status)) [
  | inl yes_run ↦ rw yes_run (running_ids-fresh r.run_id rows k.0, running_ids-IsDistinct rows k.1)
  | inr no_run ↦ rw no_run (running_ids-IsDistinct rows k.1)
]

IsRunningIn-cons :
    (r : RunRow) (rows : List RunRow) (ids : List String)
    → find_run r.run_id rows ≡ none
    → All (IsRunningIn rows) ids
    → All (IsRunningIn (r ∷ rows)) ids
unfolding find_run
IsRunningIn-cons r rows [] k h = tt
IsRunningIn-cons r rows (j ∷ ids) k ((q, e, run), h) =
    ((q, ground (arith, eq_iff r.run_id j), run), IsRunningIn-cons r rows ids k h)

running_ids-IsRunningIn :
    (rows : List RunRow) → IsKeyed rows → All (IsRunningIn rows) (running_ids rows)
unfolding find_run running_ids
running_ids-IsRunningIn [] k = tt
running_ids-IsRunningIn (r ∷ rows) k = elim (Bool-cases (is_running r.status)) [
  | inl yes_run ↦ rw yes_run (
    (r, ground (arith, eq_iff r.run_id r.run_id), yes_run),
    IsRunningIn-cons r rows (running_ids rows) k.0 (running_ids-IsRunningIn rows k.1),
  )
  | inr no_run ↦
      rw no_run (IsRunningIn-cons r rows (running_ids rows) k.0 (running_ids-IsRunningIn rows k.1))
]

counted-IsSound :
    (n : ℕ) (r : Result (Unit {0} × Db)) (db : Db)
    → IsSafe db r
    → IsSound db (counted n (settle r db))
counted-IsSound n (ok (a, db')) db safe = safe
counted-IsSound n (err e) db safe = (unchanged, safe)

-- From a valid database, `fail_abandoned_runs` only writes rows and events that the invariant
-- allows, whether it returns or raises, and no constraint of the tables fails.
pub fail_abandoned_runs-IsSound :
    (now : String) (db : Db) → IsValid db → IsSound db (fail_abandoned_runs now db)
unfolding fail_abandoned_runs
fail_abandoned_runs-IsSound now db valid =
    counted-IsSound (length (running_ids db.runs)) (fail_each (running_ids db.runs) now db) db (
      fail_each-IsSafe (running_ids db.runs) now db valid
        (running_ids-IsDistinct db.runs valid.keyed) (running_ids-IsRunningIn db.runs valid.keyed))
