-- ===== src/Runs/Endings.antt =====
-- The calls of `RunStore` that bring a run to an end.
use src_visual.Runs.Outcomes.{Ends, active-Ends, transition-Ends}
use src_visual.Runs.Store.{
  transition, to_completed, to_cancelled, to_failed, cancel, fail, complete,
}
use src_visual.Runs.Validate.{
  validated_message-cases, validated_diagnostic_code-cases, is_artifact_id,
  validated_diagnostic_code, validated_message,
}
use src_visual.Runs.Schema.{find_run}
use src_visual.Runs.Invariant.{IsValid}
use src_visual.Runs.Sound.Transitions.{
  to_completed-IsLegal, to_cancelled-IsLegal, to_failed-IsLegal,
}
use src_visual.Runs.Types.{RunRow, RunRecord, Db, Result, ok, is_active}
use src_visual.Common.{
  refl, some, ◌⊎◌, ◌≡◌, String, Unicode, sym, subst, Bool-cases, inl, inr, and-true,
}

-- A method's outcome ends the run, and raises only if the run has ended before.
abbrev pub EndsFrom : String → Db → Result RunRecord × Db → Type 0
EndsFrom i db o = Ends i o.1 × (((rec : RunRecord) × (o.0 ≡ ok rec)) ⊎ Ends i db)

pub cancel-Ends :
    (i now : String) (db : Db) (r : RunRow)
    → IsValid db
    → find_run i db.runs ≡ some r
    → EndsFrom i db (cancel i now db)
unfolding cancel
cancel-Ends i now db r valid found =
    active-Ends i to_cancelled now db r valid found to_cancelled-IsLegal refl
      (and-true (is_active r.status))

-- A diagnostic that `fail` takes as it is given.
abbrev pub IsDiagnostic : Unicode → String → String → Type 0
IsDiagnostic u code message =
    (validated_diagnostic_code u code ≡ ok code) × (validated_message u message ≡ ok message)

fail_lem :
    (u : Unicode) (i code message now : String) (db : Db)
    → validated_diagnostic_code u code ≡ ok code
    → validated_message u message ≡ ok message
    → fail u i code message now db ≡ transition i (to_failed code message) now db
unfolding fail
fail_lem u i code message now db c m = rw (c, fail) (rw m refl)

pub fail-Ends :
    (u : Unicode) (i code message now : String) (db : Db) (r : RunRow)
    → IsDiagnostic u code message
    → IsValid db
    → find_run i db.runs ≡ some r
    → EndsFrom i db (fail u i code message now db)
fail-Ends u i code message now db r (c, m) valid found =
    subst (EndsFrom i db) (sym (fail_lem u i code message now db c m)) (
      active-Ends i (to_failed code message) now db r valid found (to_failed-IsLegal code message)
        refl (and-true (is_active r.status)))

pub complete-Ends :
    (i a now : String) (db : Db) (r : RunRow) (rec : RunRecord)
    → IsValid db
    → find_run i db.runs ≡ some r
    → (complete i a now db).0 ≡ ok rec
    → Ends i (complete i a now db).1
unfolding complete
complete-Ends i a now db r rec valid found = elim (Bool-cases (is_artifact_id a)) [
  | inl hex ↦ rw hex (
      transition-Ends i (to_completed a) now db r valid found (to_completed-IsLegal a hex) refl rec)
  | inr bad ↦ rw bad (λ h. cc)
]

pub fail_ok-Ends :
    (u : Unicode) (i code message now : String) (db : Db) (r : RunRow) (rec : RunRecord)
    → IsValid db
    → find_run i db.runs ≡ some r
    → (fail u i code message now db).0 ≡ ok rec
    → Ends i (fail u i code message now db).1
unfolding fail
fail_ok-Ends u i code message now db r rec valid found =
    elim (validated_diagnostic_code-cases u code) [
      | inl bad ↦ rw (bad, fail) (λ h. cc)
      | inr (c, good) ↦ elim (validated_message-cases u message) [
        | inl bad ↦ rw (good, fail) (rw bad (λ h. cc))
        | inr (m, fine) ↦
            rw (good, fail)
              (rw fine (
                transition-Ends i (to_failed c m) now db r valid found (to_failed-IsLegal c m) refl
                  rec))
      ]
    ]
