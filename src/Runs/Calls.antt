-- ===== src/Runs/Calls.antt =====
-- The web process and the worker share one database. A history is any sequence of calls of the
-- methods of `RunStore` by any of them, each call with whatever arguments.
use src_visual.Common.{refl, ℕ, ℤ, String, ◌≡◌, true, none, Unicode, List, [], Option, some}
use src_visual.Runs.Types.{Db, Result, ok, err, RunRecord}
use src_visual.Runs.Validate.{is_run_id}
use src_visual.Runs.Schema.{find_run, sequences}
use src_visual.Runs.Store.{mark_running, complete, cancel, fail}
use src_visual.Runs.Queue.{create_history_run, acquire_history_run, claim_next}
use src_visual.Runs.Progress.{append_progress, request_cancellation, fail_abandoned_runs}
use src_visual.Runs.Invariant.{counting, IsValid}
use src_visual.Runs.Invariant.Steps.{Writes, unchanged, Writes-IsValid, Writes-trans}
use src_visual.Runs.Sound.{IsSound}
use src_visual.Runs.Sound.Transitions.{
  mark_running-IsSound, complete-IsSound, cancel-IsSound, fail-IsSound,
}
use src_visual.Runs.Sound.Queue.{create_history_run-IsSound, acquire_history_run-IsSound}
use src_visual.Runs.Sound.Progress.{append_progress-IsSound, request_cancellation-IsSound}
use src_visual.Runs.Sound.Abandoned.{fail_abandoned_runs-IsSound}
use src_visual.Runs.Sound.Claims.{IsClaimed, claim_next-IsClaimed}

-- What `uuid4().hex` gives: a lowercase hex text of 32 digits that no run has.
abbrev pub IsNewId : Db → String → Type 0
IsNewId db i = (find_run i db.runs ≡ none) × (is_run_id i ≡ true)

pub data Call (u : Unicode) (db : Db) : Db → Type 0 where
  creates :
      (pair : ℤ) (repo i now : String)
      → IsNewId db i
      → Call u db (create_history_run u pair repo i now db).1
  acquires :
      (pair : ℤ) (fp repo : String) (excluded : List String) (i now : String)
      → IsNewId db i
      → Call u db (acquire_history_run u pair fp repo excluded i now db).1
  marks_running : (i now : String) → Call u db (mark_running i now db).1
  claims : (clock : ℕ → String) → Call u db (claim_next clock db).1
  fails_abandoned : (now : String) → Call u db (fail_abandoned_runs now db).1
  appends_progress : (i message now : String) → Call u db (append_progress u i message now db).1
  requests_cancellation : (i now : String) → Call u db (request_cancellation i now db).1
  completes : (i artifact_id now : String) → Call u db (complete i artifact_id now db).1
  fails : (i code message now : String) → Call u db (fail u i code message now db).1
  cancels : (i now : String) → Call u db (cancel i now db).1

pub data Calls (u : Unicode) (db : Db) : Db → Type 0 where
  start : Calls u db db
  then_call : {db' db'' : Db} → Calls u db db' → Call u db' db'' → Calls u db db''

IsSound-Writes {ℓ} : {A : Type ℓ} (db : Db) (o : Result A × Db) → IsSound db o → Writes db o.1
IsSound-Writes db (ok a, db') s = s
IsSound-Writes db (err e, db') s = s.0

IsClaimed-Writes :
    (db : Db) (o : Option (Result (Option RunRecord)) × Db) → IsClaimed db o → Writes db o.1
IsClaimed-Writes db (none, db') c = absurd c
IsClaimed-Writes db (some (err e), db') c = absurd c
IsClaimed-Writes db (some (ok none), db') c = c.0
IsClaimed-Writes db (some (ok (some r)), db') c = c.0

Call-Writes : {u : Unicode} {db db' : Db} → Call u db db' → IsValid db → Writes db db'
Call-Writes {u} {db} (creates pair repo i now new) v =
    IsSound-Writes db _ (create_history_run-IsSound u pair repo i now db v new.0 new.1)
Call-Writes {u} {db} (acquires pair fp repo excluded i now new) v =
    IsSound-Writes db _ (acquire_history_run-IsSound u pair fp repo excluded i now db v new.0 new.1)
Call-Writes {u} {db} (marks_running i now) v = IsSound-Writes db _ (mark_running-IsSound i now db v)
Call-Writes {u} {db} (claims clock) v = IsClaimed-Writes db _ (claim_next-IsClaimed clock db v)
Call-Writes {u} {db} (fails_abandoned now) v =
    IsSound-Writes db _ (fail_abandoned_runs-IsSound now db v)
Call-Writes {u} {db} (appends_progress i message now) v =
    IsSound-Writes db _ (append_progress-IsSound u i message now db v)
Call-Writes {u} {db} (requests_cancellation i now) v =
    IsSound-Writes db _ (request_cancellation-IsSound i now db v)
Call-Writes {u} {db} (completes i artifact_id now) v =
    IsSound-Writes db _ (complete-IsSound i artifact_id now db v)
Call-Writes {u} {db} (fails i code message now) v =
    IsSound-Writes db _ (fail-IsSound u i code message now db v)
Call-Writes {u} {db} (cancels i now) v = IsSound-Writes db _ (cancel-IsSound i now db v)

pub Calls-Writes : {u : Unicode} {db db' : Db} → Calls u db db' → IsValid db → Writes db db'
Calls-Writes start v = unchanged
Calls-Writes (then_call cs c) v =
    let ws = Calls-Writes cs v in Writes-trans ws (Call-Writes c (Writes-IsValid ws v))

-- The database that `initialize` leaves where there was none: both tables, without rows.
abbrev pub init : Db
init = record { runs = []; run_events = [] }

init-IsValid : IsValid init
unfolding find_run sequences counting
init-IsValid = record {
  keyed = tt;
  named = λ i r h. cc;
  checked = λ i r h. cc;
  exclusive = λ i j r q h k. cc;
  logged = λ i r h. cc;
  uncancelled = λ i r h c. cc;
  owned = λ i h. refl;
  numbered = λ i. refl;
}

-- Every database that the methods of `RunStore` lead to from an empty one, in whatever order they
-- are called, satisfies the invariant.
pub Calls-IsValid : (u : Unicode) (db : Db) → Calls u init db → IsValid db
Calls-IsValid u db cs = Writes-IsValid (Calls-Writes cs init-IsValid) init-IsValid
