-- ===== src/Runs/Invariant/Inserts.antt =====
-- An INSERT of a new row with its first event keeps the invariant, and no constraint stops it.
use src_visual.Common.{
  eq_iff, ◌+◌, String, ◌≡◌, refl, true, false, none, some, [], ◌∷◌, ◌++◌, any, arith,
}
use src_visual.Runs.Types.{RunRow, RunEvent, Db, is_completed, ok}
use src_visual.Runs.Validate.{is_run_id}
use src_visual.Runs.Schema.{
  fits_integer, check_row, conflicts, find_run, insert_run, sequences, maximum,
}
use src_visual.Runs.Invariant.{IsValid}
use src_visual.Runs.Invariant.Rows.{
  find_run-append, append-IsKeyed, find_run-any, conflicts_self, conflicts_sym,
}
use src_visual.Runs.Invariant.Log.{last_status-append, sequences-append, append-IsNumbered}
use src_visual.Runs.Invariant.Writes.{inserted}

module _ (db : Db) (r : RunRow) (valid : IsValid db) (fresh : find_run r.run_id db.runs ≡ none)
    (alone : any (conflicts r) db.runs ≡ false) (checks : check_row r ≡ true) where
  pub insert_run-ok :
      fits_integer r.history_pair ≡ true
      → insert_run r db ≡ ok (tt, record db { runs = db.runs ++ r ∷ [] })
  unfolding insert_run
  insert_run-ok fits = rw (fits, fresh, alone, checks) refl

  inserted-exclusive :
      (j k : String) (p q : RunRow)
      → find_run j (db.runs ++ r ∷ []) ≡ some p
      → find_run k (db.runs ++ r ∷ []) ≡ some q
      → conflicts p q ≡ false
  inserted-exclusive j k p q hp hq = ground (
    arith,
    find_run-append j r db.runs fresh,
    find_run-append k r db.runs fresh,
    conflicts_self r,
    find_run-any (conflicts r) j p db.runs alone,
    find_run-any (conflicts r) k q db.runs alone,
    conflicts_sym r p,
    valid.exclusive j k p q,
  )

  module _ (e : RunEvent) (of_run : e.run_id ≡ r.run_id) (status : e.status ≡ r.status)
      (next : e.sequence ≡ maximum (sequences e.run_id db.run_events) + 1)
      (unfinished : is_completed r.status ≡ false) (named : is_run_id r.run_id ≡ true) where
    pub inserted-IsValid : IsValid (inserted r e db)
    inserted-IsValid = record {
      keyed = append-IsKeyed r db.runs fresh valid.keyed;
      named = λ j q h.
          ground
            (arith, find_run-append j r db.runs fresh, named, valid.named j q, eq_iff r.run_id j);
      checked =
          λ j q h. ground (arith, find_run-append j r db.runs fresh, checks, valid.checked j q);
      exclusive = inserted-exclusive;
      logged = λ j q h. ground (
        arith,
        find_run-append j r db.runs fresh,
        last_status-append j e db.run_events,
        valid.logged j q,
        of_run,
        status,
      );
      uncancelled =
          λ j q h c. ground (arith, find_run-append j r db.runs fresh, valid.uncancelled j q);
      owned = λ j h. ground (
        arith,
        find_run-append j r db.runs fresh,
        sequences-append j e db.run_events,
        valid.owned j,
        of_run,
      );
      numbered = append-IsNumbered e db.run_events valid.numbered next;
    }
