-- ===== src/Runs/Outcomes.antt =====
-- What the methods of `RunStore` return and leave, on every branch, from a valid database.
use src_visual.Common.{
  sym, subst, ◌⊎◌, and-true, length-append, ◌∙◌, ap, ℕ, ◌+◌, String, ◌≡◌, refl, Bool, true, false,
  not, ◌&&◌, inl, inr, Bool-cases, some, [], ◌∷◌, length, if◌then◌else◌, arith, eq_iff,
}
use src_visual.Runs.Types.{
  value_error, Error, Status, is_terminal, cancelled, completed, Db, RunRow, RunRecord, Result, ok,
  err, invalid_transition, continue, status_event, is_running, is_active,
}
use src_visual.Runs.Validate.{is_artifact_id}
use src_visual.Runs.Schema.{
  find_run, require_run, run_from_row, latest_sequence, next_event, sequences, read_run,
}
use src_visual.Runs.Store.{
  Transition, transition, transition_tx, transition_row, to_completed, to_cancelled, complete,
  cancel,
}
use src_visual.Runs.Invariant.Steps.{Write-IsValid, changes}
use src_visual.Runs.Invariant.{IsValid}
use src_visual.Runs.Invariant.Rows.{find_run-replace_run, run_id-find_run}
use src_visual.Runs.Invariant.Log.{sequences-append, maximum-numbered}
use src_visual.Runs.Invariant.Writes.{Follows, after_write}
use src_visual.Runs.Sound.{read_run_lem}
use src_visual.Runs.Sound.Transitions.{
  IsLegal, transition_tx_lem, to_completed-IsLegal, to_cancelled-IsLegal,
}

-- The run is there and has ended.
abbrev pub Ends : String → Db → Type 0
Ends i db = (r : RunRow) × (find_run i db.runs ≡ some r) × (is_terminal r.status ≡ true)

inactive : (s : Status) → is_active s ≡ false → is_terminal s ≡ true
inactive s h = ground arith

pub and-left : (a b : Bool) → (a && b) ≡ true → a ≡ true
and-left a b h = ground arith

pub and-right : (a b : Bool) → (a && b) ≡ true → b ≡ true
and-right a b h = ground arith

not-true : (b : Bool) → not b ≡ true → b ≡ false
not-true b h = ground arith

-- The record that a method returns after it has written the row `r'` with an event.
abbrev pub record_after : String → RunRow → Db → RunRecord
record_after i r' db = run_from_row r' (length (sequences i db.run_events) + 1)

abbrev pub accepts : Transition → RunRow → Bool
accepts t r =
    t.expected_statuses r.status && not (t.reject_cancellation && r.cancellation_requested)

pub latest_sequence_lem :
    (i : String) (db : Db) → IsValid db → latest_sequence i db ≡ length (sequences i db.run_events)
unfolding latest_sequence
latest_sequence_lem i db valid = maximum-numbered (sequences i db.run_events) (valid.numbered i)

module _ (i : String) (t : Transition) (now : String) (db : Db) (r : RunRow) (valid : IsValid db)
    (found : find_run i db.runs ≡ some r) where
  abbrev pub after_transition : Db
  after_transition = after_write db i (transition_row t now r) status_event t.status t.message now

  require_run_lem : require_run i db ≡ ok (r, db)
  unfolding require_run
  require_run_lem = rw (valid.named i r found, found) refl

  module _ (follows : Follows r (transition_row t now r)) where
    find_run-after : find_run i after_transition.runs ≡ some (transition_row t now r)
    find_run-after = ground (
      arith,
      find_run-replace_run i i (transition_row t now r) db.runs (run_id-find_run i db.runs r found),
      eq_iff i i,
    )

    after-IsValid : IsValid after_transition
    after-IsValid =
        Write-IsValid
          (changes i r (transition_row t now r) status_event t.message now found follows) valid

    length-after :
        length (sequences i after_transition.run_events) ≡ length (sequences i db.run_events) + 1
    length-after =
        rw
          (
            sequences-append i (next_event i status_event t.status t.message now db) db.run_events,
            (eq_iff i i).1 refl,
          )
          (length-append (sequences i db.run_events) ((latest_sequence i db + 1) ∷ []))

    read_run-after : read_run i after_transition ≡ ok (record_after i (transition_row t now r) db)
    read_run-after =
        read_run_lem i (transition_row t now r) after_transition after-IsValid find_run-after
        ∙ ap (λ (n : ℕ). ok (run_from_row (transition_row t now r) n))
            (latest_sequence_lem i after_transition after-IsValid ∙ length-after)

    transition-accepted :
        t.expected_statuses r.status ≡ true
        → (t.reject_cancellation && r.cancellation_requested) ≡ false
        → transition i t now db
          ≡ (ok (record_after i (transition_row t now r) db), after_transition)
    unfolding transition
    transition-accepted expected free = rw (valid.named i r found) (
        rw (transition_tx_lem i t now db valid r require_run_lem found expected free follows)
          (ap (λ (o : Result RunRecord). (o, after_transition)) read_run-after))

  -- A transition of a run that is there: it is made if the guards let it pass, and else raises and
  -- leaves the database as it is.
  pub transition_outcome :
      IsLegal t
      → transition i t now db ≡ (
          if accepts t r
          then (ok (record_after i (transition_row t now r) db), after_transition)
          else (err invalid_transition, db))
  unfolding transition transition_tx
  transition_outcome legal = elim (Bool-cases (t.expected_statuses r.status)) [
    | inr bad ↦ rw (valid.named i r found, bad) (rw (require_run_lem, continue, bad) refl)
    | inl expected ↦ elim (Bool-cases (t.reject_cancellation && r.cancellation_requested)) [
      | inl bad ↦
          rw (valid.named i r found, expected, bad)
            (rw (require_run_lem, continue, expected, bad) refl)
      | inr free ↦
          rw
            (transition-accepted (legal r now (valid.checked i r found) expected free) expected
              free)
            (rw (expected, free) refl)
    ]
  ]

  abbrev outcome_if : Bool → Result RunRecord × Db
  outcome_if true = (ok (record_after i (transition_row t now r) db), after_transition)
  outcome_if false = (err invalid_transition, db)

  outcome_by : IsLegal t → (b : Bool) → accepts t r ≡ b → transition i t now db ≡ outcome_if b
  outcome_by legal true e = transition_outcome legal ∙ rw e refl
  outcome_by legal false e = transition_outcome legal ∙ rw e refl

  accepted-Ends :
      IsLegal t
      → is_terminal t.status ≡ true
      → accepts t r ≡ true
      → Ends i (transition i t now db).1
  accepted-Ends legal final accepted =
      subst (λ (o : Result RunRecord × Db). Ends i o.1) (sym (outcome_by legal true accepted))
        (
          transition_row t now r,
          find_run-after (
              legal r now (valid.checked i r found) (and-left _ _ accepted)
                (not-true _ (and-right _ _ accepted))),
          final,
        )

  -- A transition to an end that raises nothing ends the run.
  pub transition-Ends :
      IsLegal t
      → is_terminal t.status ≡ true
      → (rec : RunRecord) → (transition i t now db).0 ≡ ok rec
      → Ends i (transition i t now db).1
  transition-Ends legal final rec done = elim (Bool-cases (accepts t r)) [
    | inl accepted ↦ accepted-Ends legal final accepted
    | inr refused ↦ absurd (
        raised
          (ap (λ (o : Result RunRecord × Db). o.0) (sym (outcome_by legal false refused)) ∙ done))
  ]
    where
      raised : {A : Type 0} {a : A} {e : Error} → err e ≡ ok a → ⊥
      raised h = cc

  -- A transition of any active run to an end leaves the run ended; it raises only
  -- if the run has ended before.
  pub active-Ends :
      IsLegal t
      → is_terminal t.status ≡ true
      → accepts t r ≡ is_active r.status
      → Ends i (transition i t now db).1
        × (((rec : RunRecord) × ((transition i t now db).0 ≡ ok rec)) ⊎ Ends i db)
  active-Ends legal final active = elim (Bool-cases (accepts t r)) [
    | inl accepted ↦ (
      accepted-Ends legal final accepted,
      inl (_, ap (λ (o : Result RunRecord × Db). o.0) (outcome_by legal true accepted)),
    )
    | inr refused ↦
        let ended : Ends i db = (r, found, inactive r.status (sym active ∙ refused)) in
        (
          subst (λ (o : Result RunRecord × Db). Ends i o.1) (sym (outcome_by legal false refused))
              ended,
          inr ended,
        )
  ]

-- `complete` on a run that is there: with an artifact id that is not one of 32 hex digits it raises
-- `ValueError`; else the run becomes completed with that artifact exactly if it is running and no
-- cancellation is requested, and the call raises `InvalidRunTransitionError` if not. A call that
-- raises leaves the database as it is.
pub complete_outcome :
    (i a now : String) (db : Db) (r : RunRow)
    → IsValid db
    → find_run i db.runs ≡ some r
    → complete i a now db ≡ (
        if not (is_artifact_id a)
        then (err value_error, db)
        else if is_running r.status && not r.cancellation_requested
        then (
          ok (record_after i (transition_row (to_completed a) now r) db),
          after_write db i
              (transition_row (to_completed a) now r)
              status_event
              completed
              "Visualization artifact published."
              now,
        )
        else (err invalid_transition, db))
unfolding complete
complete_outcome i a now db r valid found = elim (Bool-cases (is_artifact_id a)) [
  | inr malformed ↦ rw malformed refl
  | inl hex ↦
      rw hex
        (transition_outcome i (to_completed a) now db r valid found (to_completed-IsLegal a hex))
]

-- `cancel` on a run that is there: it becomes cancelled exactly if it is queued or running; else the
-- call raises `InvalidRunTransitionError` and leaves the database as it is.
pub cancel_outcome :
    (i now : String) (db : Db) (r : RunRow)
    → IsValid db
    → find_run i db.runs ≡ some r
    → cancel i now db ≡ (
        if is_active r.status
        then (
          ok (record_after i (transition_row to_cancelled now r) db),
          after_write db i
              (transition_row to_cancelled now r)
              status_event
              cancelled
              "History visualization cancelled."
              now,
        )
        else (err invalid_transition, db))
unfolding cancel
cancel_outcome i now db r valid found =
    rw (← and-true (is_active r.status))
      (transition_outcome i to_cancelled now db r valid found to_cancelled-IsLegal)
