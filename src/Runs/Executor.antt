-- ===== src/Runs/Executor.antt =====
-- `HistoryRunExecutor` of srcdiffvisual/runs/worker.py: the process that builds a run's artifact.
-- What the tools and the workflow do is given as `Work`; other processes change the database between
-- the executor's calls.
pub mod Settles
use src_visual.Common.{
  ℕ, suc, ◌+◌, ℤ, pos, negsuc, String, Bool, true, false, ◌||◌, Unicode, List, [], ◌∷◌,
  if◌then◌else◌,
}
use src_visual.Runs.Types.{Status, RunRecord, RunEvent, Db, Error, Result, ok, err, is_running}
use src_visual.Runs.Schema.{read_run}
use src_visual.Runs.Store.{complete, fail}
use src_visual.Runs.Progress.{append_progress}
use src_visual.Srcdiff.Elements.{decimal}
use src_visual.Srcdiff.Attributes.{starts_with}
use Prim.Native.String.{◌++◌}

-- The exceptions that `_safe_failure` tells apart, with the fields of a BackendCommandError.
pub data Failure : Type 0 where
  configuration_error response_error other_error : Failure
  command_error : (is_missing timed_out : Bool) → Failure

-- What stops the executor: an error of the store, RuntimeError, a failure of the build, or SIGTERM.
pub data Cause : Type 0 where
  store_error : Error → Cause
  runtime_error terminated : Cause
  build_failure : Failure → Cause

pub data Attempt (A : Type 0) : Type 0 where
  returns : A → Attempt A
  raises : Cause → Attempt A

-- The materialized pair, the messages of the build's progress, and the id of the artifact that it
-- publishes.
pub record Work : Type 0 where
  pub preparation : Attempt (Unit {0})
  pub messages : List String
  pub publication : Attempt String

-- The number of the next call of the store, and the database.
pub record World : Type 0 where
  pub turn : ℕ
  pub db : Db

abbrev pub Action : Type 0 → Type 0
Action A = World → Attempt A × World

abbrev pub proceed : {A B : Type 0} → Attempt A × World → (A → Action B) → Attempt B × World
proceed (returns a, w) f = f a w
proceed (raises c, w) f = (raises c, w)

infixl 5 ◌>>=◌ ◌>>◌
abbrev pub ◌>>=◌ : {A B : Type 0} → Action A → (A → Action B) → Action B
◌>>=◌ m f w = proceed (m w) f

abbrev pub ◌>>◌ : {A B : Type 0} → Action A → Action B → Action B
m >> k = m >>= λ _. k

abbrev pub give : {A : Type 0} → Attempt A → Action A
give o w = (o, w)

abbrev pub attempt : {A : Type 0} → Result A → Attempt A
attempt (ok a) = returns a
attempt (err e) = raises (store_error e)

-- `_safe_failure`: the code and the message of a failed run.
pub safe_failure : Cause → String × String
safe_failure (build_failure configuration_error) =
    ("history-configuration-error", "History visualization is not configured correctly.")
safe_failure (build_failure response_error) =
    ("history-response-error", "srcMove returned an invalid history comparison response.")
safe_failure (build_failure (command_error true timed_out)) =
    ("command-unavailable", "A required visualization tool is unavailable.")
safe_failure (build_failure (command_error false true)) =
    ("command-timeout", "A visualization command timed out.")
safe_failure (build_failure (command_error false false)) =
    ("command-failed", "A visualization command failed.")
safe_failure _ = ("artifact-build-failed", "The visualization artifact could not be built.")

-- `str` of a history pair, and the first message of `_build`.
abbrev pub signed : ℤ → String
signed (pos n) = decimal n
signed (negsuc n) = "-" ++ decimal (suc n)

pub first_message : ℤ → String
first_message pair = "Regenerating history pair " ++ (signed pair ++ " with its frozen tools.")

-- The messages that `_record_progress` leaves out.
pub is_unrecorded : String → Bool
is_unrecorded message =
    starts_with "Using temp directory:" message || starts_with "Keeping temp directory:" message

-- What other processes do before each call, and the clock of each call.
module _ (u : Unicode) (others : ℕ → Db → Db) (clock : ℕ → String) where
  -- A call of a method of the store.
  abbrev pub call : {A : Type 0} → (String → Db → Result A × Db) → Action A
  call method w =
      let (r, db') = method (clock w.turn) (others w.turn w.db) in
      (attempt r, record { turn = w.turn + 1; db = db' })

  abbrev pub read : String → Action RunRecord
  read run_id = call (λ now db. (read_run run_id db, db))

  -- `_record_progress`
  unfoldable pub record_progress : String → String → Action (Unit {0})
  record_progress run_id message =
      if is_unrecorded message
      then give (returns tt)
      else (call (append_progress u run_id message) >> give (returns tt))

  unfoldable pub record_each : String → List String → Action (Unit {0})
  unfolding record_progress
  record_each run_id [] = give (returns tt)
  record_each run_id (message ∷ messages) =
      record_progress run_id message >> record_each run_id messages

  -- `_build`, given the run's id and its history pair.
  unfoldable pub build : Work → String → ℤ → Action (Unit {0})
  unfolding record_each
  build work run_id history_pair = do
    call (append_progress u run_id (first_message history_pair))
    give work.preparation
    call (append_progress u run_id "Building the immutable visualization artifact.")
    record_each run_id work.messages
    artifact_id ← give work.publication
    current ← read run_id
    if current.cancellation_requested
        then give (returns tt)
        else (call (complete run_id artifact_id) >> give (returns tt))

  -- The handlers of `execute`: SIGTERM is passed on, any other exception fails the run.
  unfoldable pub fail_run : String → Cause → Action (Unit {0})
  fail_run run_id cause = do
    current ← read run_id
    if current.cancellation_requested
        then give (returns tt)
        else (call (fail u run_id (safe_failure cause).0 (safe_failure cause).1)
            >> give (returns tt))

  unfoldable pub handle : String → Attempt (Unit {0}) × World → Attempt (Unit {0}) × World
  unfolding fail_run
  handle run_id (returns _, w) = (returns tt, w)
  handle run_id (raises terminated, w) = (raises terminated, w)
  handle run_id (raises cause, w) = fail_run run_id cause w

  -- `execute`
  unfoldable pub execute : Work → String → Action (Unit {0})
  unfolding build handle
  execute work run_id = do
    run ← read run_id
    if is_running run.status
        then if run.cancellation_requested
          then give (returns tt)
          else (λ w. handle run_id (build work run.run_id run.history_pair w))
        else give (raises runtime_error)
