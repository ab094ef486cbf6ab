-- ===== src/Runs/Sound/Queue.antt =====
-- `create_history_run` and `acquire_history_run`.
use src_visual.Common.{
  ◌≢◌, String, ℤ, ◌≡◌, refl, Bool, true, false, inl, inr, Bool-cases, Option-cases, Option, none,
  some, List, [], ◌∷◌, any, all, select, least, Unicode, arith,
}
use src_visual.Runs.Types.{
  overflow_error, RunRow, RunEvent, RunRecord, Db, Result, ok, err, queued, status_event, settle,
  Disposition, new,
}
use src_visual.Runs.Validate.{is_run_id, is_hex, is_fingerprint, is_history_pair, is_repository_id}
use src_visual.Runs.Schema.{
  fits_integer, insert_run, check_row, conflicts, find_run, is_null_or, next_event, insert_event,
  latest_sequence, read_run,
}
use src_visual.Runs.Queue.{
  queued_row, queue_run, create_history_run, older, newer, active_with, completed_with, acquire_tx,
  acquire_history_run, acquisition, then_acquire,
}
use src_visual.Runs.Invariant.Steps.{Writes, unchanged, adds, one-Write}
use src_visual.Runs.Invariant.{IsValid}
use src_visual.Runs.Invariant.Rows.{same_text_sym}
use src_visual.Runs.Invariant.Writes.{inserted}
use src_visual.Runs.Invariant.Inserts.{insert_run-ok}
use src_visual.Runs.Sound.{
  integrity_error, IsSound, IsSafe, then_read-settle-IsSound, read-IsSound,
  read_run-ne-integrity_error, run_not_found-ne, value_error-ne,
}

any-none {ℓ} :
    {A : Type ℓ} (p : A → Bool) (xs : List A) → ((x : A) → p x ≡ false) → any p xs ≡ false
any-none p [] h = refl
any-none p (x ∷ xs) h = ground (arith, h x, any-none p xs h)

-- Where no row passes `p`, no row passes a test that `p` implies.
pub select-nil_any {ℓ} :
    {A : Type ℓ} (le : A → A → Bool) (p c : A → Bool) (xs : List A)
    → least le (select p xs) ≡ none
    → ((x : A) → p x ≡ false → c x ≡ false)
    → any c xs ≡ false
select-nil_any le p c [] h imp = refl
select-nil_any le p c (x ∷ xs) h imp = elim (Bool-cases (p x)) [
  | inl yes_p ↦ ground arith
  | inr no_p ↦ ground (arith, imp x, select-nil_any le p c xs)
]

-- The event with which a run begins.
abbrev pub first_event : String → String → Db → RunEvent
first_event i now db = next_event i status_event queued "History visualization queued." now db

queued_row-conflicts :
    (i repo fp now : String) (pair : ℤ) (q : RunRow)
    → active_with fp q ≡ false
    → conflicts (queued_row i repo pair (some fp) now) q ≡ false
unfolding conflicts
queued_row-conflicts i repo fp now pair q h = ground (arith, same_text_sym q.fingerprint (some fp))

queue_run_overflow :
    (i repo now : String) (pair : ℤ) (fp : Option String) (db : Db)
    → fits_integer pair ≡ false
    → queue_run i repo pair fp now db ≡ err overflow_error
unfolding queue_run insert_run
queue_run_overflow i repo now pair fp db large = rw large refl

overflow_error-ne : overflow_error ≢ integrity_error
overflow_error-ne h = cc

module _ (i repo now : String) (pair : ℤ) (fp : Option String) (db : Db) (valid : IsValid db)
    (fresh : find_run i db.runs ≡ none) (named : is_run_id i ≡ true)
    (alone : any (conflicts (queued_row i repo pair fp now)) db.runs ≡ false)
    (positive : is_history_pair pair ≡ true) (hex : is_null_or (is_hex 64) fp ≡ true) where
  checks : check_row (queued_row i repo pair fp now) ≡ true
  unfolding check_row
  checks = ground arith

  pub queue_run_lem :
      fits_integer pair ≡ true
      → queue_run i repo pair fp now db
        ≡ ok (
          first_event i now db,
          inserted (queued_row i repo pair fp now) (first_event i now db) db,
        )
  unfolding queue_run insert_event latest_sequence
  queue_run_lem fits =
      rw (insert_run-ok db (queued_row i repo pair fp now) valid fresh alone checks fits) refl

  pub queue_run-Writes :
      Writes db (inserted (queued_row i repo pair fp now) (first_event i now db) db)
  queue_run-Writes = one-Write (
      adds (queued_row i repo pair fp now) "History visualization queued." fresh alone checks refl
        named)

pub create_history_run-IsSound :
    (u : Unicode) (pair : ℤ) (repo i now : String) (db : Db)
    → IsValid db
    → find_run i db.runs ≡ none
    → is_run_id i ≡ true
    → IsSound db (create_history_run u pair repo i now db)
unfolding create_history_run conflicts
create_history_run-IsSound u pair repo i now db valid fresh named =
    elim (Bool-cases (is_history_pair pair)) [
      | inr bad ↦ rw bad (unchanged, value_error-ne)
      | inl positive ↦ elim (Bool-cases (is_repository_id u repo)) [
        | inr bad ↦ rw (positive, bad) (unchanged, value_error-ne)
        | inl at ↦
            rw (positive, at)
              (then_read-settle-IsSound i (queue_run i repo pair none now db) db (safe positive))
      ]
    ]
  where
    alone : any (conflicts (queued_row i repo pair none now)) db.runs ≡ false
    alone = any-none (conflicts (queued_row i repo pair none now)) db.runs (λ q. ground arith)

    safe : is_history_pair pair ≡ true → IsSafe db (queue_run i repo pair none now db)
    safe positive = elim (Bool-cases (fits_integer pair)) [
      | inr large ↦ rw (queue_run_overflow i repo now pair none db large) overflow_error-ne
      | inl fits ↦
          rw (queue_run_lem i repo now pair none db valid fresh named alone positive refl fits)
            (queue_run-Writes i repo now pair none db valid fresh named alone positive refl)
    ]

module _ (pair : ℤ) (fp repo : String) (excluded : List String) (i now : String) (db : Db)
    (valid : IsValid db) (fresh : find_run i db.runs ≡ none) (named : is_run_id i ≡ true)
    (positive : is_history_pair pair ≡ true) (hex : is_fingerprint fp ≡ true) where
  alone_with :
      least older (select (active_with fp) db.runs) ≡ none
      → any (conflicts (queued_row i repo pair (some fp) now)) db.runs ≡ false
  alone_with h =
      select-nil_any older (active_with fp) (conflicts (queued_row i repo pair (some fp) now))
        db.runs h (queued_row-conflicts i repo fp now pair)

  -- Where no run of the fingerprint is active or may be reused, a new one is queued.
  pub acquire_tx-new :
      fits_integer pair ≡ true
      → least older (select (active_with fp) db.runs) ≡ none
      → least newer (select (completed_with fp excluded) db.runs) ≡ none
      → (acquire_tx pair fp repo excluded i now db
          ≡ ok
              ((i, new), inserted (queued_row i repo pair (some fp) now) (first_event i now db) db))
        × Writes db (inserted (queued_row i repo pair (some fp) now) (first_event i now db) db)
  unfolding acquire_tx
  acquire_tx-new fits a c = (
    rw (a, c, acquire_tx)
        (rw
          (queue_run_lem i repo now pair (some fp) db valid fresh named (alone_with a) positive hex
            fits)
          refl),
    queue_run-Writes i repo now pair (some fp) db valid fresh named (alone_with a) positive hex,
  )

  acquire_tx-IsSafe : IsSafe db (acquire_tx pair fp repo excluded i now db)
  unfolding acquire_tx
  acquire_tx-IsSafe = elim (Option-cases (least older (select (active_with fp) db.runs))) [
    | inr (r, a) ↦ rw (a, acquire_tx) unchanged
    | inl a ↦ elim (Option-cases (least newer (select (completed_with fp excluded) db.runs))) [
      | inr (r, c) ↦ rw (a, c, acquire_tx) unchanged
      | inl c ↦ elim (Bool-cases (fits_integer pair)) [
        | inr large ↦
            rw (a, c, acquire_tx)
              (rw (queue_run_overflow i repo now pair (some fp) db large) overflow_error-ne)
        | inl fits ↦ rw ((acquire_tx-new fits a c).0) ((acquire_tx-new fits a c).1)
      ]
    ]
  ]

acquisition-IsSound :
    (d : Disposition) (r : Result RunRecord) (db db' : Db)
    → IsSound db (r, db')
    → IsSound db (acquisition d r, db')
acquisition-IsSound d (ok r) db db' s = s
acquisition-IsSound d (err e) db db' s = s

then_acquire-IsSound :
    (r : Result ((String × Disposition) × Db)) (db : Db)
    → IsSafe db r
    → IsSound db (then_acquire (settle r db))
then_acquire-IsSound (ok ((i, d), db')) db safe =
    acquisition-IsSound d (read_run i db') db db'
      (read-IsSound (read_run i db') db db' safe (read_run-ne-integrity_error i db'))
then_acquire-IsSound (err e) db safe = (unchanged, safe)

-- From a valid database and with a new id, `acquire_history_run` only writes rows and events that
-- the invariant allows, whether it returns or raises, and no constraint of the tables fails.
pub acquire_history_run-IsSound :
    (u : Unicode) (pair : ℤ) (fp repo : String) (excluded : List String) (i now : String) (db : Db)
    → IsValid db
    → find_run i db.runs ≡ none
    → is_run_id i ≡ true
    → IsSound db (acquire_history_run u pair fp repo excluded i now db)
unfolding acquire_history_run
acquire_history_run-IsSound u pair fp repo excluded i now db valid fresh named =
    elim (Bool-cases (is_history_pair pair)) [
      | inr bad ↦ rw bad (unchanged, value_error-ne)
      | inl positive ↦ elim (Bool-cases (is_repository_id u repo)) [
        | inr bad ↦ rw (positive, bad) (unchanged, value_error-ne)
        | inl at ↦ elim (Bool-cases (is_fingerprint fp)) [
          | inr bad ↦ rw (positive, at, bad) (unchanged, value_error-ne)
          | inl hex ↦ elim (Bool-cases (all is_run_id excluded)) [
            | inr bad ↦ rw (positive, at, hex, bad) (unchanged, run_not_found-ne)
            | inl ids ↦
                rw (positive, at, hex, ids)
                  (then_acquire-IsSound (acquire_tx pair fp repo excluded i now db) db (
                    acquire_tx-IsSafe pair fp repo excluded i now db valid fresh named positive
                      hex))
          ]
        ]
      ]
    ]
