-- ===== src/Runs/Executor/Settles.antt =====
-- What the executor leaves, while other processes call the methods of `RunStore`.
use src_visual.Runs.Executor.{
  ◌>>◌, fail_run, Cause, terminated, Attempt, returns, raises, Work, World, Action, proceed,
  attempt, call, read, give, record_progress, record_each, build, handle, execute, is_unrecorded,
  first_message, safe_failure, store_error, runtime_error, build_failure,
}
use src_visual.Runs.Types.{RunRow, RunRecord, Db, Result, ok, err, is_terminal, is_running}
use src_visual.Runs.Schema.{find_run, read_run, run_from_row}
use src_visual.Runs.Store.{complete, fail}
use src_visual.Runs.Progress.{append_progress}
use src_visual.Runs.Invariant.{IsValid}
use src_visual.Runs.Invariant.Rows.{run_id-find_run}
use src_visual.Runs.Endings.{complete-Ends, fail_ok-Ends}
use src_visual.Runs.Calls.{Calls, Call, start, then_call, appends_progress, completes, fails}
use src_visual.Runs.Lifecycle.{Later, later_lem}
use src_visual.Runs.Sound.{read_run_lem}
use src_visual.Common.{
  ℤ, ℕ, String, ◌≡◌, refl, sym, ◌∙◌, Bool, true, false, ◌⊎◌, inl, inr, Unicode, List, [], ◌∷◌, some,
  subst, Bool-cases, if◌then◌else◌,
}

-- The run has ended, or its cancellation is requested.
abbrev pub IsLeft : String → Db → Type 0
IsLeft i db =
    (r : RunRow) × (find_run i db.runs ≡ some r)
    × ((is_terminal r.status ≡ true) ⊎ (r.cancellation_requested ≡ true))

-- An outcome keeps the run and the database's invariant, and a value that is returned satisfies Q.
abbrev After : {A : Type 0} → String → (A → Db → Type 0) → Attempt A × World → Type 0
After i Q (returns a, w) = Later i w.db × Q a w.db
After i Q (raises c, w) = Later i w.db

abbrev Anything : {A : Type 0} → A → Db → Type 0
Anything a db = Unit

then_After :
    {A B : Type 0} (i : String) (P : A → Db → Type 0) (Q : B → Db → Type 0) (o : Attempt A × World)
    (f : A → Action B)
    → After i P o
    → ((a : A) (w : World) → Later i w.db → P a w.db → After i Q (f a w))
    → After i Q (proceed o f)
then_After i P Q (returns a, w) f h k = k a w h.0 h.1
then_After i P Q (raises c, w) f h k = h

attempt-After :
    {A : Type 0} (i : String) (Q : A → Db → Type 0) (r : Result A) (w : World)
    → Later i w.db
    → ((a : A) → r ≡ ok a → Q a w.db)
    → After i Q (attempt r, w)
attempt-After i Q (ok a) w l h = (l, h a refl)
attempt-After i Q (err e) w l h = l

module _ (u : Unicode) (others : ℕ → Db → Db) (clock : ℕ → String)
    (legal : (k : ℕ) (db : Db) → Calls u db (others k db)) (i : String) where
  -- A call of a method, given what it does to a database with the run.
  call-After :
      {A : Type 0} (Q : A → Db → Type 0) (method : String → Db → Result A × Db)
      → ((now : String) (db : Db) → Later i db → Later i (method now db).1)
      → ((now : String) (db : Db) (a : A)
          → Later i db
          → (method now db).0 ≡ ok a
          → Q a (method now db).1)
      → (w : World) → Later i w.db
      → After i Q (call u others clock method w)
  call-After Q method keeps holds w l =
      attempt-After i Q (method (clock w.turn) (others w.turn w.db)).0 _
        (keeps (clock w.turn) (others w.turn w.db) here)
        (λ a e. holds (clock w.turn) (others w.turn w.db) a here e)
    where
      here : Later i (others w.turn w.db)
      here = later_lem u i w.db (others w.turn w.db) l (legal w.turn w.db)

  later_call : {db db' : Db} → Call u db db' → Later i db → Later i db'
  later_call {db} {db'} c l = later_lem u i db db' l (then_call start c)

  append_progress-After :
      (message : String) (w : World)
      → Later i w.db
      → After i Anything (call u others clock (append_progress u i message) w)
  append_progress-After message =
      call-After Anything (append_progress u i message)
        (λ now db l. later_call (appends_progress i message now) l) (λ now db a l e. tt)

  complete-After :
      (a : String) (w : World)
      → Later i w.db
      → After i (λ rec db. IsLeft i db) (call u others clock (complete i a) w)
  complete-After a =
      call-After (λ rec db. IsLeft i db) (complete i a)
        (λ now db l. later_call (completes i a now) l)
        (λ now db rec l e.
          let (r, at, ended) = complete-Ends i a now db l.row rec l.valid l.found e in
          (r, at, inl ended))

  fail-After :
      (code message : String) (w : World)
      → Later i w.db
      → After i (λ rec db. IsLeft i db) (call u others clock (fail u i code message) w)
  fail-After code message =
      call-After (λ rec db. IsLeft i db) (fail u i code message)
        (λ now db l. later_call (fails i code message now) l)
        (λ now db rec l e.
          let (r, at, ended) = fail_ok-Ends u i code message now db l.row rec l.valid l.found e in
          (r, at, inl ended))

  -- The record that is read names the run, and shows whether its cancellation is requested.
  abbrev IsRead : RunRecord → Db → Type 0
  IsRead rec db = (rec.run_id ≡ i) × (rec.cancellation_requested ≡ true → IsLeft i db)

  read-After : (w : World) → Later i w.db → After i IsRead (read u others clock i w)
  unfolding run_from_row
  read-After =
      call-After IsRead (λ now db. (read_run i db, db)) (λ now db l. l)
        (λ now db rec l e.
          let same = sym (ok_injective (sym e ∙ read_run_lem i l.row db l.valid l.found)) in
          subst (λ (q : RunRecord). IsRead q db) same
            (run_id-find_run i db.runs l.row l.found, λ asked. (l.row, l.found, inr asked)))
    where
      ok_injective : {A : Type 0} {a b : A} → ok a ≡ ok b → a ≡ b
      ok_injective h = cc

  record_progress-After :
      (message : String) (w : World)
      → Later i w.db
      → After i Anything (record_progress u others clock i message w)
  unfolding record_progress
  record_progress-After message w l = elim (Bool-cases (is_unrecorded message)) [
    | inl left ↦ rw left (l, tt)
    | inr kept ↦ rw kept (
        then_After i Anything Anything _ _ (append_progress-After message w l)
          λ a w' l' _. (l', tt))
  ]

  record_each-After :
      (messages : List String) (w : World)
      → Later i w.db
      → After i Anything (record_each u others clock i messages w)
  unfolding record_each
  record_each-After [] w l = (l, tt)
  record_each-After (message ∷ messages) w l =
      then_After i Anything Anything _ _ (record_progress-After message w l)
        λ a w' l' _. record_each-After messages w' l'

  give-After : {A : Type 0} (o : Attempt A) (w : World) → Later i w.db → After i Anything (give o w)
  give-After (returns a) w l = (l, tt)
  give-After (raises c) w l = l

  -- What follows a record that asks for cancellation, or else an action that leaves the run.
  unless_cancelled-After :
      (b : Bool) (m : Action (Unit {0})) (w : World)
      → Later i w.db
      → (b ≡ true → IsLeft i w.db)
      → After i (λ a db. IsLeft i db) (m w)
      → After i (λ a db. IsLeft i db) ((if b then give (returns tt) else m) w)
  unless_cancelled-After true m w l asked h = (l, asked refl)
  unless_cancelled-After false m w l asked h = h

  -- An action, and then `None`.
  then_nothing-After :
      {A : Type 0} (m : Action A) (w : World)
      → After i (λ a db. IsLeft i db) (m w)
      → After i (λ a db. IsLeft i db) ((m >> give (returns tt)) w)
  then_nothing-After m w h =
      then_After i (λ a db. IsLeft i db) (λ a db. IsLeft i db) (m w) _ h λ a w' l left. (l, left)

  build-After :
      (work : Work) (pair : ℤ) (w : World)
      → Later i w.db
      → After i (λ a db. IsLeft i db) (build u others clock work i pair w)
  unfolding build
  build-After work pair w l =
      then_After i Anything _ _ _ (append_progress-After (first_message pair) w l) λ _ w1 l1 _.
        then_After i Anything _ _ _ (give-After work.preparation w1 l1) λ _ w2 l2 _.
          then_After i Anything _ _ _
            (append_progress-After "Building the immutable visualization artifact." w2 l2)
            λ _ w3 l3 _.
              then_After i Anything _ _ _ (record_each-After work.messages w3 l3) λ _ w4 l4 _.
                then_After i Anything _ _ _ (give-After work.publication w4 l4) λ a w5 l5 _.
                  then_After i IsRead _ _ _ (read-After w5 l5) λ current w6 l6 seen.
                    unless_cancelled-After current.cancellation_requested _ w6 l6 seen.1 (
                      then_nothing-After (call u others clock (complete i a)) w6
                        (complete-After a w6 l6))

  fail_run-After :
      (cause : Cause) (w : World)
      → Later i w.db
      → After i (λ a db. IsLeft i db) (fail_run u others clock i cause w)
  unfolding fail_run
  fail_run-After cause w l = then_After i IsRead _ _ _ (read-After w l) λ current w' l' seen.
      unless_cancelled-After current.cancellation_requested _ w' l' seen.1 (
        then_nothing-After
          (call u others clock (fail u i (safe_failure cause).0 (safe_failure cause).1)) w'
          (fail-After (safe_failure cause).0 (safe_failure cause).1 w' l'))

  handle-After :
      (o : Attempt (Unit {0}) × World)
      → After i (λ a db. IsLeft i db) o
      → After i (λ a db. IsLeft i db) (handle u others clock i o)
  unfolding handle
  handle-After (returns a, w) h = h
  handle-After (raises terminated, w) h = h
  handle-After (raises (store_error e), w) h = fail_run-After (store_error e) w h
  handle-After (raises runtime_error, w) h = fail_run-After runtime_error w h
  handle-After (raises (build_failure f), w) h = fail_run-After (build_failure f) w h

  execute-After :
      (work : Work) (w : World)
      → Later i w.db
      → After i (λ a db. IsLeft i db) (execute u others clock work i w)
  unfolding execute
  execute-After work w l = then_After i IsRead _ _ _ (read-After w l) λ run w' l' (named, asked).
      elim (Bool-cases (is_running run.status)) [
        | inr ended ↦ rw ended l'
        | inl running_ ↦ rw running_ (
            unless_cancelled-After run.cancellation_requested _ w' l' asked (
              handle-After _ (
                subst
                  (λ (j : String).
                    After i (λ a db. IsLeft i db) (build u others clock work j run.history_pair w'))
                  (sym named) (build-After work run.history_pair w' l'))))
      ]

-- The executor has returned and the run is left, or it has raised; the database is valid either way,
-- with the run in it.
abbrev pub HasSettled : String → Attempt (Unit {0}) × World → Type 0
HasSettled i (returns a, w) = IsValid w.db × IsLeft i w.db
HasSettled i (raises c, w) = IsValid w.db × ((r : RunRow) × (find_run i w.db.runs ≡ some r))

settled_lem :
    (i : String) (o : Attempt (Unit {0}) × World) → After i (λ a db. IsLeft i db) o → HasSettled i o
settled_lem i (returns a, w) h = (h.0.valid, h.1)
settled_lem i (raises c, w) h = (h.valid, (h.row, h.found))

-- The executor of a run that is there, from a valid database, whatever the tools do and whatever
-- methods other processes call before each of its calls: the database stays valid with the run in
-- it, and if the executor returns, the run has ended or its cancellation is requested.
pub execute-HasSettled :
    (u : Unicode) (others : ℕ → Db → Db) (clock : ℕ → String) (work : Work) (i : String) (w : World)
    (r : RunRow)
    → ((k : ℕ) (db : Db) → Calls u db (others k db))
    → IsValid w.db
    → find_run i w.db.runs ≡ some r
    → HasSettled i (execute u others clock work i w)
execute-HasSettled u others clock work i w r legal valid found =
    settled_lem i _ (
      execute-After u others clock legal i work w
        (record { row = r; valid = valid; found = found }))
