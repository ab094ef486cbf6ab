-- ===== src/Runs/Invariant/Writes.antt =====
-- The two ways in which the store writes: it changes one row and logs the change, or it inserts a
-- row and logs that. Both keep the invariant, and no constraint stops them.
use src_visual.Common.{
  Bool, eq_iff, ◌+◌, String, ◌≡◌, refl, ◌∙◌, true, false, some, [], ◌∷◌, ◌++◌, any, str_eq,
  if◌then◌else◌, arith,
}
use src_visual.Runs.Types.{
  queued, running, completed, failed, cancelled, EventType, Status, ◌>>◌, RunRow, RunEvent, Db,
  is_active, is_completed, ok,
}
use src_visual.Runs.Schema.{
  insert_event, next_event, latest_sequence, check_row, conflicts, find_run, replace_run,
  update_run, sequences, maximum,
}
use src_visual.Runs.Invariant.{IsValid}
use src_visual.Runs.Invariant.Rows.{
  keep, run_id-find_run, find_run-replace_run, replace_run-IsKeyed, any-find_run, conflicts_self,
  conflicts_sym, conflicts-weaken,
}
use src_visual.Runs.Invariant.Log.{last_status-append, sequences-append, append-IsNumbered}

-- The lifecycle: queued, then running, then one of the three ends. A queued run may also fail or
-- be cancelled; a run that has ended stays as it is.
abbrev pub may_follow : Status → Status → Bool
may_follow queued completed = false
may_follow queued _ = true
may_follow running queued = false
may_follow running _ = true
may_follow completed completed = true
may_follow failed failed = true
may_follow cancelled cancelled = true
may_follow _ _ = false

-- What a legal UPDATE makes of the row `r` of an unfinished run.
pub record Follows (r r' : RunRow) : Type 0 where
  pub same_id : r'.run_id ≡ r.run_id
  pub same_fingerprint : r'.fingerprint ≡ r.fingerprint
  pub same_origin :
      (r'.repository_id ≡ r.repository_id)
      × (r'.history_pair ≡ r.history_pair)
      × (r'.created_at ≡ r.created_at)
  pub unfinished : is_active r.status ≡ true
  pub forward : may_follow r.status r'.status ≡ true
  pub requested : r.cancellation_requested ≡ true → r'.cancellation_requested ≡ true
  pub checked : check_row r' ≡ true
  pub uncancelled : is_completed r'.status ≡ true → r'.cancellation_requested ≡ false

abbrev pub written : String → RunRow → RunEvent → Db → Db
written i r' e db = record { runs = replace_run i r' db.runs; run_events = db.run_events ++ e ∷ [] }

abbrev pub inserted : RunRow → RunEvent → Db → Db
inserted r e db = record { runs = db.runs ++ r ∷ []; run_events = db.run_events ++ e ∷ [] }

module _ (db : Db) (i : String) (r r' : RunRow) (valid : IsValid db)
    (found : find_run i db.runs ≡ some r) (follows : Follows r r') where
  same_id_at : r'.run_id ≡ i
  same_id_at = follows.same_id ∙ run_id-find_run i db.runs r found

  free : (j : String) (q : RunRow) → find_run j db.runs ≡ some q → conflicts r' q ≡ false
  free j q e =
      conflicts-weaken r r' q follows.same_id follows.same_fingerprint (λ _. follows.unfinished)
        (valid.exclusive i j r q found e)

  pub no_conflict : any (conflicts r') db.runs ≡ false
  no_conflict = any-find_run (conflicts r') db.runs valid.keyed free

  find_run-written :
      (j : String)
      → find_run j (replace_run i r' db.runs) ≡ (if str_eq i j then some r' else find_run j db.runs)
  find_run-written j = find_run-replace_run i j r' db.runs same_id_at ∙ at_found
    where
      at_found :
          (if str_eq i j then keep r' (find_run i db.runs) else find_run j db.runs)
          ≡ (if str_eq i j then some r' else find_run j db.runs)
      at_found = rw found

  written-exclusive :
      (j k : String) (p q : RunRow)
      → find_run j (replace_run i r' db.runs) ≡ some p
      → find_run k (replace_run i r' db.runs) ≡ some q
      → conflicts p q ≡ false
  written-exclusive j k p q hp hq = ground (
    arith,
    find_run-written j,
    find_run-written k,
    conflicts_self r',
    free k q,
    free j p,
    conflicts_sym r' p,
    valid.exclusive j k p q,
  )

  module _ (e : RunEvent) (of_run : e.run_id ≡ i) (status : e.status ≡ r'.status)
      (next : e.sequence ≡ maximum (sequences e.run_id db.run_events) + 1) where
    pub written-IsValid : IsValid (written i r' e db)
    written-IsValid = record {
      keyed = replace_run-IsKeyed i r' db.runs same_id_at valid.keyed;
      named = λ j q h.
          ground (arith, find_run-written j, valid.named i r found, valid.named j q, eq_iff i j);
      checked = λ j q h. ground (arith, find_run-written j, follows.checked, valid.checked j q);
      exclusive = written-exclusive;
      logged = λ j q h. ground (
        arith,
        find_run-written j,
        last_status-append j e db.run_events,
        valid.logged j q,
        of_run,
        status,
      );
      uncancelled =
          λ j q h c. ground (arith, find_run-written j, follows.uncancelled, valid.uncancelled j q);
      owned = λ j h.
          ground
            (arith, find_run-written j, sequences-append j e db.run_events, valid.owned j, of_run);
      numbered = append-IsNumbered e db.run_events valid.numbered next;
    }

-- In a valid database a legal UPDATE meets no constraint.
pub update_run-ok :
    (db : Db) (i : String) (f : RunRow → RunRow) (r : RunRow)
    → IsValid db
    → find_run i db.runs ≡ some r
    → Follows r (f r)
    → update_run i f db ≡ ok (tt, record db { runs = replace_run i (f r) db.runs })
unfolding update_run
update_run-ok db i f r valid found follows =
    rw (found, update_run) (rw (follows.checked, no_conflict db i r (f r) valid found follows) refl)

-- The database after an UPDATE of the run `i` to the row `r'`, and its event.
abbrev pub after_write : Db → String → RunRow → EventType → Status → String → String → Db
after_write db i r' type status message now =
    written i r' (next_event i type status message now db) db

module _ (db : Db) (i : String) (f : RunRow → RunRow) (r : RunRow) (valid : IsValid db)
    (found : find_run i db.runs ≡ some r) (follows : Follows r (f r)) (type : EventType)
    (status : Status) (message now : String) where
  pub after_write-IsValid :
      status ≡ (f r).status → IsValid (after_write db i (f r) type status message now)
  unfolding latest_sequence
  after_write-IsValid same =
      written-IsValid db i r (f r) valid found follows (next_event i type status message now db)
        refl same refl

  pub write_lem :
      (update_run i f >> insert_event i type status message now) db
      ≡ ok (next_event i type status message now db, after_write db i (f r) type status message now)
  unfolding insert_event latest_sequence
  write_lem = rw (update_run-ok db i f r valid found follows) refl
