-- ===== src/Runs/Sound/Claims.antt =====
-- `claim_next`: it ends, raises nothing, and claims a queued run unless the queue is empty.
use src_visual.Common.{
  sym, subst, str_eq, ◌∙◌, ap, ◌≤◌, ℕ, zero, suc, ◌+◌, ◌<◌, String, ◌≡◌, refl, Bool, true, false,
  inl, inr, Bool-cases, Option-cases, Option, none, some, List, [], ◌∷◌, length, select, least,
  arith, eq_iff,
}
use src_visual.Runs.Types.{
  settle, RunRecord, running, cancelled, status_event, RunRow, Db, Result, ok, err, is_queued,
}
use src_visual.Runs.Schema.{run_from_row, read_run, check_row, find_run, replace_run, next_event}
use src_visual.Runs.Queue.{
  then_claim, claim_next, older, cancelled_row, running_row, drop_cancelled, start_run, claim_loop,
}
use src_visual.Runs.Invariant.Steps.{
  Writes, unchanged, changes, one-Write, Writes-trans, Writes-IsValid,
}
use src_visual.Runs.Sound.{read_run_lem}
use src_visual.Runs.Invariant.{IsValid}
use src_visual.Runs.Invariant.Rows.{run_id-find_run, find_run-least, find_run-replace_run}
use src_visual.Runs.Invariant.Writes.{Follows, after_write, write_lem}

abbrev waits : RunRow → Bool
waits r = is_queued r.status

-- `WHERE status = 'queued'`
abbrev pub queue : Db → List RunRow
queue db = select waits db.runs

cancelled-Follows :
    (r : RunRow) (now : String)
    → check_row r ≡ true
    → is_queued r.status ≡ true
    → Follows r (cancelled_row now r)
unfolding check_row
cancelled-Follows r now c q = record {
  same_id = refl;
  same_fingerprint = refl;
  same_origin = (refl, refl, refl);
  unfinished = ground arith;
  forward = ground arith;
  requested = λ h. h;
  checked = ground arith;
  uncancelled = λ h. cc;
}

running-Follows :
    (r : RunRow) (now : String)
    → check_row r ≡ true
    → is_queued r.status ≡ true
    → Follows r (running_row now r)
unfolding check_row
running-Follows r now c q = record {
  same_id = refl;
  same_fingerprint = refl;
  same_origin = (refl, refl, refl);
  unfinished = ground arith;
  forward = ground arith;
  requested = λ h. h;
  checked = ground arith;
  uncancelled = λ h. cc;
}

-- A queued run that leaves the queue makes it shorter by one.
length-queue-replace_run :
    (i : String) (r r' : RunRow) (rows : List RunRow)
    → find_run i rows ≡ some r
    → is_queued r.status ≡ true
    → is_queued r'.status ≡ false
    → length (select waits (replace_run i r' rows)) + 1 ≡ length (select waits rows)
unfolding find_run replace_run
length-queue-replace_run i r r' [] f q q' = cc
length-queue-replace_run i r r' (p ∷ rows) f q q' =
    ground (arith, length-queue-replace_run i r r' rows)

-- A pass of the loop takes the first run of the queue off it.
module _ (db : Db) (now : String) (r : RunRow) (valid : IsValid db)
    (first : least older (queue db) ≡ some r) where
  found : find_run r.run_id db.runs ≡ some r
  found = (find_run-least older waits db.runs r valid.keyed first).0

  queued_lem : is_queued r.status ≡ true
  queued_lem = (find_run-least older waits db.runs r valid.keyed first).1

  abbrev after_drop : Db
  after_drop =
      after_write db r.run_id (cancelled_row now r) status_event cancelled
        "History visualization cancelled." now

  abbrev after_start : Db
  after_start =
      after_write db r.run_id (running_row now r) status_event running
        "History visualization started." now

  drop_cancelled_lem :
      drop_cancelled r.run_id now db
      ≡ ok (
        next_event r.run_id status_event cancelled "History visualization cancelled." now db,
        after_drop,
      )
  unfolding drop_cancelled
  drop_cancelled_lem =
      write_lem db r.run_id (cancelled_row now) r valid found
        (cancelled-Follows r now (valid.checked r.run_id r found) queued_lem) status_event cancelled
        "History visualization cancelled." now

  start_run_lem :
      start_run r.run_id now db
      ≡ ok (
        next_event r.run_id status_event running "History visualization started." now db,
        after_start,
      )
  unfolding start_run
  start_run_lem =
      write_lem db r.run_id (running_row now) r valid found
        (running-Follows r now (valid.checked r.run_id r found) queued_lem) status_event running
        "History visualization started." now

  after_drop-Writes : Writes db after_drop
  after_drop-Writes = one-Write (
      changes r.run_id r (cancelled_row now r) status_event "History visualization cancelled." now
        found (cancelled-Follows r now (valid.checked r.run_id r found) queued_lem))

  after_start-Writes : Writes db after_start
  after_start-Writes = one-Write (
      changes r.run_id r (running_row now r) status_event "History visualization started." now found
        (running-Follows r now (valid.checked r.run_id r found) queued_lem))

  find_run-after_start : find_run r.run_id after_start.runs ≡ some (running_row now r)
  find_run-after_start = ground (
    arith,
    find_run-replace_run r.run_id r.run_id (running_row now r) db.runs refl,
    found,
    eq_iff r.run_id r.run_id,
  )

  length-after_drop : length (queue after_drop) + 1 ≡ length (queue db)
  length-after_drop =
      length-queue-replace_run r.run_id r (cancelled_row now r) db.runs found queued_lem refl

-- A run that was in the queue, without a requested cancellation.
abbrev pub WasQueued : String → Db → Type 0
WasQueued i db =
    (q : RunRow) × (find_run i db.runs ≡ some q)
    × (is_queued q.status ≡ true)
    × (q.cancellation_requested ≡ false)

-- A run that is queued after another has been dropped was queued before.
WasQueued-after_drop :
    (i : String) (db : Db) (now : String) (r : RunRow) (valid : IsValid db)
    (first : least older (queue db) ≡ some r)
    → WasQueued i (after_drop db now r valid first)
    → WasQueued i db
WasQueued-after_drop i db now r valid first (q, at, waiting, unasked) =
    elim (Bool-cases (str_eq r.run_id i)) [
      | inl same ↦ absurd (
          ground (
            arith,
            find_run-replace_run r.run_id i (cancelled_row now r) db.runs refl,
            found db now r valid first,
            at,
            same,
            waiting,
          ))
      | inr other ↦ (
        q,
        sym (find_run-replace_run r.run_id i (cancelled_row now r) db.runs refl ∙ rw other refl)
            ∙ at,
        waiting,
        unasked,
      )
    ]

-- How the transaction of `claim_next` ends, from `db`: by legal writes, with an empty queue, or with
-- a run that was queued, that it started and for which no cancellation is requested; never by an
-- error, or for want of fuel.
abbrev pub IsClaim : Db → Result (Option (Option String) × Db) → Type 0
IsClaim db (err e) = ⊥
IsClaim db (ok (none, db')) = ⊥
IsClaim db (ok (some none, db')) = Writes db db' × (least older (queue db') ≡ none)
IsClaim db (ok (some (some i), db')) =
    Writes db db'
    × ((r : RunRow) × (find_run i db'.runs ≡ some r)
        × (r.status ≡ running)
        × (r.cancellation_requested ≡ false))
    × WasQueued i db

IsClaim-trans :
    {db db' : Db} (r : Result (Option (Option String) × Db))
    → Writes db db'
    → ((i : String) → WasQueued i db' → WasQueued i db)
    → IsClaim db' r
    → IsClaim db r
IsClaim-trans (err e) ws back c = c
IsClaim-trans (ok (none, d)) ws back c = c
IsClaim-trans (ok (some none, d)) ws back (vs, empty) = (Writes-trans ws vs, empty)
IsClaim-trans (ok (some (some i), d)) ws back (vs, at, was) = (Writes-trans ws vs, at, back i was)

claim_loop-IsClaim :
    (fuel : ℕ) (clock : ℕ → String) (db : Db)
    → length (queue db) < fuel
    → IsValid db
    → IsClaim db (claim_loop fuel clock db)
unfolding claim_loop
claim_loop-IsClaim zero clock db enough valid = elim enough [ ]
claim_loop-IsClaim (suc fuel) clock db enough valid = elim (Option-cases (least older (queue db))) [
  | inl empty ↦ rw (empty, claim_loop) (unchanged, empty)
  | inr (r, first) ↦ elim (Bool-cases r.cancellation_requested) [
    | inl asked ↦
        rw (first, claim_loop, asked)
          (rw (drop_cancelled_lem db (clock fuel) r valid first) (
            IsClaim-trans (claim_loop fuel clock (after_drop db (clock fuel) r valid first))
              (after_drop-Writes db (clock fuel) r valid first)
              (λ i. WasQueued-after_drop i db (clock fuel) r valid first)
              (claim_loop-IsClaim fuel clock (after_drop db (clock fuel) r valid first)
                (omega (arith, length-after_drop db (clock fuel) r valid first))
                (Writes-IsValid (after_drop-Writes db (clock fuel) r valid first) valid))))
    | inr unasked ↦
        rw (first, claim_loop, unasked)
          (rw (start_run_lem db (clock fuel) r valid first) (
            after_start-Writes db (clock fuel) r valid first,
            (
              running_row (clock fuel) r,
              find_run-after_start db (clock fuel) r valid first,
              refl,
              unasked,
            ),
            (
              r,
              found db (clock fuel) r valid first,
              queued_lem db (clock fuel) r valid first,
              unasked,
            ),
          ))
  ]
]

-- What `claim_next` returns from a valid database: nothing, with no run left in the queue, or the
-- record of a run that was queued, that it has started and for which no cancellation is requested.
abbrev pub IsClaimed : Db → Option (Result (Option RunRecord)) × Db → Type 0
IsClaimed db (none, db') = ⊥
IsClaimed db (some (err e), db') = ⊥
IsClaimed db (some (ok none), db') = Writes db db' × (least older (queue db') ≡ none)
IsClaimed db (some (ok (some r)), db') =
    Writes db db'
    × (read_run r.run_id db' ≡ ok r)
    × (r.status ≡ running)
    × (r.cancellation_requested ≡ false)
    × WasQueued r.run_id db

then_claim-IsClaimed :
    (r : Result (Option (Option String) × Db)) (db : Db)
    → IsValid db
    → IsClaim db r
    → IsClaimed db (then_claim (settle r db))
unfolding run_from_row
then_claim-IsClaimed (err e) db valid c = c
then_claim-IsClaimed (ok (none, db')) db valid c = c
then_claim-IsClaimed (ok (some none, db')) db valid c = c
then_claim-IsClaimed (ok (some (some i), db')) db valid (ws, (r, at, status, unasked), was) =
    let read = read_run_lem i r db' (Writes-IsValid ws valid) at in
    rw read (
      ws,
      ap (λ (j : String). read_run j db') (run_id-find_run i db'.runs r at) ∙ read,
      status,
      unasked,
      subst (λ (j : String). WasQueued j db) (sym (run_id-find_run i db'.runs r at)) was,
    )

queue-le : (rows : List RunRow) → length (select waits rows) ≤ length rows
queue-le [] = omega arith
queue-le (r ∷ rows) = ground (arith, queue-le rows)

-- From a valid database `claim_next` ends without an error. It returns nothing only if no run is
-- queued any more; else the record is that of a running run for which no cancellation is requested,
-- and which was queued before the call.
pub claim_next-IsClaimed :
    (clock : ℕ → String) (db : Db) → IsValid db → IsClaimed db (claim_next clock db)
unfolding claim_next
claim_next-IsClaimed clock db valid =
    then_claim-IsClaimed (claim_loop (suc (length db.runs)) clock db) db valid
      (claim_loop-IsClaim (suc (length db.runs)) clock db (omega (arith, queue-le db.runs)) valid)
