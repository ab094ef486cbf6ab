-- ===== src/Runs/Lifecycle.antt =====
-- What the durable lifecycle promises over any history of calls.
use src_visual.Common.{
  String, ◌≡◌, refl, sym, subst, ap, ◌∙◌, Bool, true, false, inl, inr, Bool-cases, some, List, [],
  ◌∷◌, ◌++◌, select, str_eq, if◌then◌else◌, arith, eq_iff, Unicode,
}
use src_visual.Runs.Types.{
  Status, queued, running, completed, failed, cancelled, RunRow, RunEvent, Db, is_active,
  is_terminal,
}
use src_visual.Runs.Schema.{next_event, find_run, replace_run, is_event_of}
use src_visual.Runs.Invariant.{IsValid}
use src_visual.Runs.Invariant.Rows.{keep, run_id-find_run, find_run-replace_run, find_run-append}
use src_visual.Runs.Invariant.Writes.{Follows}
use src_visual.Runs.Invariant.Steps.{Write, changes, adds, Writes, unchanged, then_write}
use src_visual.Runs.Invariant.Steps.{Writes-IsValid}
use src_visual.Runs.Calls.{start, then_call, Calls, Calls-Writes}

-- The statuses that a run may have later.
abbrev pub reaches : Status → Status → Bool
reaches queued _ = true
reaches running queued = false
reaches running _ = true
reaches completed completed = true
reaches failed failed = true
reaches cancelled cancelled = true
reaches _ _ = false

-- What a run keeps, and how its status and its cancellation request move.
pub record Advances (r r' : RunRow) : Type 0 where
  pub forward : reaches r.status r'.status ≡ true
  pub requested : r.cancellation_requested ≡ true → r'.cancellation_requested ≡ true
  pub same_fingerprint : r'.fingerprint ≡ r.fingerprint
  pub same_origin :
      (r'.repository_id ≡ r.repository_id)
      × (r'.history_pair ≡ r.history_pair)
      × (r'.created_at ≡ r.created_at)
  pub final : is_terminal r.status ≡ true → r' ≡ r

Advances-refl : (r : RunRow) → Advances r r
Advances-refl r = record {
  forward = ground arith;
  requested = λ h. h;
  same_fingerprint = refl;
  same_origin = (refl, refl, refl);
  final = λ h. refl;
}

Advances-trans : {r s t : RunRow} → Advances r s → Advances s t → Advances r t
Advances-trans a b = record {
  forward = ground arith;
  requested = λ h. b.requested (a.requested h);
  same_fingerprint = b.same_fingerprint ∙ a.same_fingerprint;
  same_origin = (
    b.same_origin.0 ∙ a.same_origin.0,
    b.same_origin.1 ∙ a.same_origin.1,
    b.same_origin.2 ∙ a.same_origin.2,
  );
  final = λ h.
      b.final (subst (λ (q : RunRow). is_terminal q.status ≡ true) (sym (a.final h)) h) ∙ a.final h;
}

ended_active : (s : Status) → is_terminal s ≡ true → is_active s ≡ true → ⊥
ended_active s h a = ground arith

Follows-Advances : {r r' : RunRow} → Follows r r' → Advances r r'
Follows-Advances f = record {
  forward = ground arith;
  requested = f.requested;
  same_fingerprint = f.same_fingerprint;
  same_origin = f.same_origin;
  final = λ h. absurd (ended_active _ h f.unfinished);
}

-- The run `i`, which is the row `r` in `db`, has advanced in `db'`; once it has ended, its events
-- are what they were.
abbrev AdvancesIn : String → RunRow → Db → Db → Type 0
AdvancesIn i r db db' =
    (r' : RunRow) × (find_run i db'.runs ≡ some r')
    × Advances r r'
    × (is_terminal r.status ≡ true
        → select (is_event_of i) db'.run_events ≡ select (is_event_of i) db.run_events)

events-append_other :
    (i : String) (e : RunEvent) (events : List RunEvent)
    → str_eq e.run_id i ≡ false
    → select (is_event_of i) (events ++ e ∷ []) ≡ select (is_event_of i) events
events-append_other i e [] h = rw h
events-append_other i e (f ∷ events) h = ground (arith, events-append_other i e events h)

-- An UPDATE of the run `k`, seen from the run `i`.
module _ (db : Db) (i k : String) (r p p' : RunRow) (found : find_run i db.runs ≡ some r)
    (at : find_run k db.runs ≡ some p) (follows : Follows p p') (e : RunEvent)
    (of_run : e.run_id ≡ k) where
  changed : Db
  changed = record { runs = replace_run k p' db.runs; run_events = db.run_events ++ e ∷ [] }

  find_run-changed :
      find_run i (replace_run k p' db.runs)
      ≡ (if str_eq k i then keep p' (find_run k db.runs) else find_run i db.runs)
  find_run-changed =
      find_run-replace_run k i p' db.runs (follows.same_id ∙ run_id-find_run k db.runs p at)

  is_r : str_eq k i ≡ true → p ≡ r
  is_r same = ground (arith, eq_iff k i)

  changed-AdvancesIn : AdvancesIn i r db changed
  unfolding changed
  changed-AdvancesIn = elim (Bool-cases (str_eq k i)) [
    | inl same ↦ (
      p',
      find_run-changed ∙ rw (same, at),
      subst (λ (q : RunRow). Advances q p') (is_r same) (Follows-Advances follows),
      λ h. absurd (
          ended_active p.status
            (subst (λ (q : RunRow). is_terminal q.status ≡ true) (sym (is_r same)) h)
            follows.unfinished),
    )
    | inr other ↦ (
      r,
      find_run-changed ∙ rw other found,
      Advances-refl r,
      λ h. events-append_other i e db.run_events (rw of_run other),
    )
  ]

Write-AdvancesIn :
    {db db' : Db} (i : String) (r : RunRow)
    → Write db db'
    → find_run i db.runs ≡ some r
    → AdvancesIn i r db db'
unfolding changed
Write-AdvancesIn {db} i r (changes k p p' type message now at follows) found =
    changed-AdvancesIn db i k r p p' found at follows (next_event k type p'.status message now db)
      refl
Write-AdvancesIn {db} i r (adds p message fresh alone checks unfinished named) found = (
  r,
  find_run-append i p db.runs fresh ∙ rw other found,
  Advances-refl r,
  λ h. events-append_other i _ db.run_events other,
)
  where
    other : str_eq p.run_id i ≡ false
    other = ground (arith, eq_iff p.run_id i)

Writes-AdvancesIn :
    {db db' : Db} (i : String) (r : RunRow)
    → Writes db db'
    → find_run i db.runs ≡ some r
    → AdvancesIn i r db db'
Writes-AdvancesIn i r unchanged found = (r, found, Advances-refl r, λ h. refl)
Writes-AdvancesIn i r (then_write ws w) found =
    let (s, at_s, r_s, kept) = Writes-AdvancesIn i r ws found in
    let (t, at_t, s_t, kept') = Write-AdvancesIn i s w at_s in
    (
      t,
      at_t,
      Advances-trans r_s s_t,
      λ h.
          kept' (subst (λ (q : RunRow). is_terminal q.status ≡ true) (sym (r_s.final h)) h)
          ∙ kept h,
    )

-- Over any history of calls from a valid database, a run that is there stays there, with its
-- fingerprint, repository, pair and creation time; its status only moves forward along queued,
-- running, and an end; a cancellation request is never taken back.
pub Calls-Advances :
    (u : Unicode) (db db' : Db) (i : String) (r : RunRow)
    → IsValid db
    → Calls u db db'
    → find_run i db.runs ≡ some r
    → (r' : RunRow) × (find_run i db'.runs ≡ some r') × Advances r r'
Calls-Advances u db db' i r valid cs found =
    let (r', at, a, kept) = Writes-AdvancesIn i r (Calls-Writes cs valid) found in (r', at, a)

-- Once a run of a valid database has completed, failed, or been cancelled, no call by any process
-- changes its row or adds an event to it.
pub ended_run_kept :
    (u : Unicode) (db db' : Db) (i : String) (r : RunRow)
    → IsValid db
    → Calls u db db'
    → find_run i db.runs ≡ some r
    → is_terminal r.status ≡ true
    → (find_run i db'.runs ≡ some r)
      × (select (is_event_of i) db'.run_events ≡ select (is_event_of i) db.run_events)
ended_run_kept u db db' i r valid cs found ended =
    let (r', at, a, kept) = Writes-AdvancesIn i r (Calls-Writes cs valid) found in
    (at ∙ ap some (a.final ended), kept ended)

pub Calls-trans : {u : Unicode} {a b c : Db} → Calls u a b → Calls u b c → Calls u a c
Calls-trans cs start = cs
Calls-trans cs (then_call ds d) = then_call (Calls-trans cs ds) d

-- A valid database that has the run.
pub record Later (i : String) (db : Db) : Type 0 where
  pub row : RunRow
  pub valid : IsValid db
  pub found : find_run i db.runs ≡ some row

pub later_lem : (u : Unicode) (i : String) (db db' : Db) → Later i db → Calls u db db' → Later i db'
later_lem u i db db' l cs =
    let (r, at, a) = Calls-Advances u db db' i l.row l.valid cs l.found in
    record { row = r; valid = Writes-IsValid (Calls-Writes cs l.valid) l.valid; found = at }
