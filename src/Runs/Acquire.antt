-- ===== src/Runs/Acquire.antt =====
-- acquire_history_run (srcdiffvisual/runs/store.py) where a run of the fingerprint is active.
use src_visual.Common.{
  ℤ, String, ◌≡◌, ap, ◌∙◌, Bool, true, ◌&&◌, inl, inr, Option-cases, none, some, List, [], ◌∷◌,
  select, least, all, arith, eq_iff, Unicode,
}
use src_visual.Runs.Types.{RunRecord, Db, RunRow, Result, ok, active_run, is_active}
use src_visual.Runs.Validate.{is_history_pair, is_repository_id, is_fingerprint, is_run_id}
use src_visual.Runs.Schema.{find_run, conflicts, latest_sequence, run_from_row, read_run}
use src_visual.Runs.Queue.{older, active_with, acquire_tx, acquire_history_run, acquisition}
use src_visual.Runs.Invariant.{IsValid}
use src_visual.Runs.Invariant.Rows.{run_id-find_run, find_run-least}
use src_visual.Runs.Sound.{read_run_lem}

least-select-some :
    (p : RunRow → Bool) (j : String) (q : RunRow) (rows : List RunRow)
    → find_run j rows ≡ some q
    → p q ≡ true
    → least older (select p rows) ≡ none
    → ⊥
unfolding find_run
least-select-some p j q [] f h e = cc
least-select-some p j q (r ∷ rows) f h e = ground (arith, least-select-some p j q rows)

module _ (db : Db) (j fp : String) (q : RunRow) (valid : IsValid db)
    (found : find_run j db.runs ≡ some q) (active : is_active q.status ≡ true)
    (printed : q.fingerprint ≡ some fp) where
  only_active : (r : RunRow) → least older (select (active_with fp) db.runs) ≡ some r → r ≡ q
  unfolding conflicts
  only_active r first =
      let (at, with) = find_run-least older (active_with fp) db.runs r valid.keyed first in
      ground (
        arith,
        at,
        with,
        found,
        valid.exclusive r.run_id j r q at found,
        run_id-find_run j db.runs q found,
        eq_iff r.run_id q.run_id,
        eq_iff r.run_id j,
        eq_iff fp fp,
      )

  first_active : least older (select (active_with fp) db.runs) ≡ some q
  first_active = elim (Option-cases (least older (select (active_with fp) db.runs))) [
    | inl empty ↦ absurd (
        least-select-some (active_with fp) j q db.runs found
          (ground (arith, active, printed, eq_iff fp fp)) empty)
    | inr (r, first) ↦ first ∙ ap some (only_active r first)
  ]

  -- Where a run of the fingerprint is queued or running, `acquire_history_run` with well-formed
  -- arguments returns the record of that run as the active one, and leaves the database as it is.
  pub acquire_history_run_active :
      (u : Unicode) (pair : ℤ) (repo : String) (excluded : List String) (new_id now : String)
      → (is_history_pair pair && is_repository_id u repo && is_fingerprint fp) ≡ true
      → all is_run_id excluded ≡ true
      → acquire_history_run u pair fp repo excluded new_id now db ≡ (
        ok (record { run = run_from_row q (latest_sequence j db); disposition = active_run }),
        db,
      )
  unfolding acquire_history_run acquire_tx
  acquire_history_run_active u pair repo excluded new_id now good known =
      rw (good, known, first_active, acquire_tx)
        (ap (λ (o : Result RunRecord). (acquisition active_run o, db))
          (ap (λ (i : String). read_run i db) (run_id-find_run j db.runs q found)
            ∙ read_run_lem j q db valid found))
