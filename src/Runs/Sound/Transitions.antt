-- ===== src/Runs/Sound/Transitions.antt =====
-- `_transition` and the four methods that call it.
use src_visual.Common.{
  String, ◌≡◌, refl, true, false, ◌&&◌, inl, inr, Bool-cases, some, Unicode, arith,
}
use src_visual.Runs.Types.{RunRow, Db, ok, status_event, continue}
use src_visual.Runs.Validate.{
  validated_message-cases, validated_diagnostic_code-cases, is_run_id, is_artifact_id,
}
use src_visual.Runs.Schema.{next_event, check_row, find_run, require_run}
use src_visual.Runs.Store.{
  Transition, transition_row, transition_tx, transition, to_running, to_completed, to_failed,
  to_cancelled, mark_running, complete, cancel, fail,
}
use src_visual.Runs.Invariant.Steps.{unchanged, changes, one-Write}
use src_visual.Runs.Invariant.{IsValid}
use src_visual.Runs.Invariant.Writes.{after_write, Follows, after_write, write_lem}
use src_visual.Runs.Sound.{
  IsSound, IsSafe, require_run-cases, then_read-settle-IsSound, run_not_found-ne,
  invalid_transition-ne, value_error-ne,
}

-- Where the guards of `t` let a row pass, the row that the UPDATE writes is legal.
abbrev pub IsLegal : Transition → Type 0
IsLegal t =
    (r : RunRow) (now : String)
    → check_row r ≡ true
    → t.expected_statuses r.status ≡ true
    → (t.reject_cancellation && r.cancellation_requested) ≡ false
    → Follows r (transition_row t now r)

pub to_running-IsLegal : IsLegal to_running
unfolding check_row
to_running-IsLegal r now c e x = record {
  same_id = refl;
  same_fingerprint = refl;
  same_origin = (refl, refl, refl);
  unfinished = ground arith;
  forward = ground arith;
  requested = λ h. h;
  checked = ground arith;
  uncancelled = λ h. cc;
}

pub to_completed-IsLegal : (a : String) → is_artifact_id a ≡ true → IsLegal (to_completed a)
unfolding check_row
to_completed-IsLegal a hex r now c e x = record {
  same_id = refl;
  same_fingerprint = refl;
  same_origin = (refl, refl, refl);
  unfinished = ground arith;
  forward = ground arith;
  requested = λ h. h;
  checked = ground arith;
  uncancelled = λ h. x;
}

pub to_failed-IsLegal : (code message : String) → IsLegal (to_failed code message)
unfolding check_row
to_failed-IsLegal code message r now c e x = record {
  same_id = refl;
  same_fingerprint = refl;
  same_origin = (refl, refl, refl);
  unfinished = ground arith;
  forward = ground arith;
  requested = λ h. h;
  checked = ground arith;
  uncancelled = λ h. cc;
}

pub to_cancelled-IsLegal : IsLegal to_cancelled
unfolding check_row
to_cancelled-IsLegal r now c e x = record {
  same_id = refl;
  same_fingerprint = refl;
  same_origin = (refl, refl, refl);
  unfinished = ground arith;
  forward = ground arith;
  requested = λ h. h;
  checked = ground arith;
  uncancelled = λ h. cc;
}

module _ (i : String) (t : Transition) (now : String) (db : Db) (valid : IsValid db) where
  -- The transaction at a row that its guards let pass.
  pub transition_tx_lem :
      (r : RunRow)
      → require_run i db ≡ ok (r, db)
      → find_run i db.runs ≡ some r
      → t.expected_statuses r.status ≡ true
      → (t.reject_cancellation && r.cancellation_requested) ≡ false
      → Follows r (transition_row t now r)
      → transition_tx i t now db
        ≡ ok (
          next_event i status_event t.status t.message now db,
          after_write db i (transition_row t now r) status_event t.status t.message now,
        )
  unfolding transition_tx
  transition_tx_lem r e found expected free follows =
      rw (e, continue, expected, free)
        (write_lem db i (transition_row t now) r valid found follows status_event t.status t.message
          now)

  transition_tx-IsSafe : IsLegal t → IsSafe db (transition_tx i t now db)
  unfolding transition_tx
  transition_tx-IsSafe legal = elim (require_run-cases i db) [
    | inl missing ↦ rw (missing, continue) run_not_found-ne
    | inr (r, found, e) ↦ elim (Bool-cases (t.expected_statuses r.status)) [
      | inr bad ↦ rw (e, continue, bad) invalid_transition-ne
      | inl expected ↦ elim (Bool-cases (t.reject_cancellation && r.cancellation_requested)) [
        | inl bad ↦ rw (e, continue, expected, bad) invalid_transition-ne
        | inr free ↦
            let follows = legal r now (valid.checked i r found) expected free in
            rw (e, continue, expected, free)
              (rw
                (write_lem db i (transition_row t now) r valid found follows status_event t.status
                  t.message now)
                (one-Write
                  (changes i r (transition_row t now r) status_event t.message now found follows)))
      ]
    ]
  ]

  pub transition-IsSound : IsLegal t → IsSound db (transition i t now db)
  unfolding transition
  transition-IsSound legal = elim (Bool-cases (is_run_id i)) [
    | inr bad ↦ rw bad (unchanged, run_not_found-ne)
    | inl id ↦
        rw id
          (then_read-settle-IsSound i (transition_tx i t now db) db (transition_tx-IsSafe legal))
  ]

pub mark_running-IsSound :
    (i now : String) (db : Db) → IsValid db → IsSound db (mark_running i now db)
unfolding mark_running
mark_running-IsSound i now db valid =
    transition-IsSound i to_running now db valid to_running-IsLegal

pub cancel-IsSound : (i now : String) (db : Db) → IsValid db → IsSound db (cancel i now db)
unfolding cancel
cancel-IsSound i now db valid = transition-IsSound i to_cancelled now db valid to_cancelled-IsLegal

pub complete-IsSound : (i a now : String) (db : Db) → IsValid db → IsSound db (complete i a now db)
unfolding complete
complete-IsSound i a now db valid = elim (Bool-cases (is_artifact_id a)) [
  | inr bad ↦ rw bad (unchanged, value_error-ne)
  | inl hex ↦
      rw hex (transition-IsSound i (to_completed a) now db valid (to_completed-IsLegal a hex))
]

pub fail-IsSound :
    (u : Unicode) (i code message now : String) (db : Db)
    → IsValid db
    → IsSound db (fail u i code message now db)
unfolding fail
fail-IsSound u i code message now db valid = elim (validated_diagnostic_code-cases u code) [
  | inl bad ↦ rw (bad, fail) (unchanged, value_error-ne)
  | inr (c, code_ok) ↦ elim (validated_message-cases u message) [
    | inl bad ↦ rw (code_ok, bad, fail) (unchanged, value_error-ne)
    | inr (m, message_ok) ↦
        rw (code_ok, message_ok, fail)
          (transition-IsSound i (to_failed c m) now db valid (to_failed-IsLegal c m))
  ]
]
