-- ===== src/Runs/Schema.antt =====
-- The SQL of srcdiffvisual/runs/store.py: the constraints of the two tables, the statements that
-- write them, and the queries that read one run. A write that a constraint forbids raises
-- `integrity_error`.
use Prim.Native.Nat.{◌^◌}
use src_visual.Common.{
  negsuc, ltb, pos, ℤ, ℕ, ◌+◌, max, String, Bool, true, false, not, ◌&&◌, Option, none, some, List,
  [], ◌∷◌, ◌++◌, any, is_some, str_eq, if◌then◌else◌, get_or,
}
use src_visual.Runs.Types.{
  overflow_error, Status, EventType, RunRow, RunEvent, RunDiagnostic, RunRecord, Db, Result, ok,
  err, run_not_found, integrity_error, is_active, is_completed, is_failed, is_terminal, Tx,
}
use src_visual.Runs.Validate.{is_hex, is_run_id, is_history_pair}

abbrev pub is_null_or : (String → Bool) → Option String → Bool
is_null_or p none = true
is_null_or p (some s) = p s

abbrev pub agree : Bool → Bool → Bool
agree true b = b
agree false b = not b

-- The CHECK constraints of `runs`.
unfoldable pub check_row : RunRow → Bool
check_row r =
    is_history_pair r.history_pair
    && (is_null_or (is_hex 64) r.fingerprint
        && (agree (is_some r.diagnostic_code) (is_some r.diagnostic_message)
            && (is_null_or (is_hex 32) r.artifact_id
                && (agree (is_completed r.status) (is_some r.artifact_id)
                    && (agree (is_failed r.status) (is_some r.diagnostic_code)
                        && agree (is_terminal r.status) (is_some r.finished_at))))))

-- Two texts that are equal and not NULL.
abbrev pub same_text : Option String → Option String → Bool
same_text (some a) (some b) = str_eq a b
same_text _ _ = false

-- The unique index `active_run_fingerprint` forbids both rows.
unfoldable pub conflicts : RunRow → RunRow → Bool
conflicts r q =
    is_active r.status
    && is_active q.status
    && same_text r.fingerprint q.fingerprint
    && not (str_eq r.run_id q.run_id)

-- `SELECT * FROM runs WHERE run_id = ?`
unfoldable pub find_run : String → List RunRow → Option RunRow
find_run run_id [] = none
find_run run_id (r ∷ rows) = if str_eq r.run_id run_id then some r else find_run run_id rows

unfoldable pub replace_run : String → RunRow → List RunRow → List RunRow
replace_run run_id r' [] = []
replace_run run_id r' (r ∷ rows) =
    if str_eq r.run_id run_id then r' ∷ rows else r ∷ replace_run run_id r' rows

-- The integers that sqlite3 binds: those of 64 bits with a sign. For any other it raises
-- `OverflowError`.
abbrev pub integer_limit : ℕ
integer_limit = 2 ^ 63

abbrev pub fits_integer : ℤ → Bool
fits_integer (pos n) = ltb n integer_limit
fits_integer (negsuc n) = ltb n integer_limit

-- `INSERT INTO runs`
unfoldable pub insert_run : RunRow → Tx (Unit {0})
insert_run r db =
    if not (fits_integer r.history_pair)
    then err overflow_error
    else if check_row r
        && (not (is_some (find_run r.run_id db.runs)) && not (any (conflicts r) db.runs))
    then ok (tt, record db { runs = db.runs ++ r ∷ [] })
    else err integrity_error

-- `UPDATE runs SET … WHERE run_id = ?`
unfoldable pub update_run : String → (RunRow → RunRow) → Tx (Unit {0})
update_run run_id f db = elim (find_run run_id db.runs) [
  | none ↦ ok (tt, db)
  | some r ↦
      if check_row (f r) && not (any (conflicts (f r)) db.runs)
      then ok (tt, record db { runs = replace_run run_id (f r) db.runs })
      else err integrity_error
]

-- `_require_run`
unfoldable pub require_run : String → Tx RunRow
require_run run_id db =
    if is_run_id run_id
    then elim (find_run run_id db.runs) [ none ↦ err run_not_found | some r ↦ ok (r, db) ]
    else err run_not_found

abbrev pub is_event_of : String → RunEvent → Bool
is_event_of run_id e = str_eq e.run_id run_id

unfoldable pub sequences : String → List RunEvent → List ℕ
sequences run_id [] = []
sequences run_id (e ∷ events) =
    if str_eq e.run_id run_id then e.sequence ∷ sequences run_id events else sequences run_id events

unfoldable pub maximum : List ℕ → ℕ
maximum [] = 0
maximum (n ∷ ns) = max n (maximum ns)

-- `SELECT COALESCE(MAX(sequence), 0) FROM run_events WHERE run_id = ?`
unfoldable pub latest_sequence : String → Db → ℕ
unfolding maximum sequences
latest_sequence run_id db = maximum (sequences run_id db.run_events)

abbrev pub next_event : String → EventType → Status → String → String → Db → RunEvent
next_event run_id type status message created_at db = record {
  run_id = run_id;
  sequence = latest_sequence run_id db + 1;
  type = type;
  status = status;
  message = message;
  created_at = created_at;
}

-- `_insert_event`
unfoldable pub insert_event : String → EventType → Status → String → String → Tx RunEvent
insert_event run_id type status message created_at db =
    let event = next_event run_id type status message created_at db in
    ok (event, record db { run_events = db.run_events ++ event ∷ [] })

-- The diagnostic of `_run_from_row`; `str(None)` is "None".
abbrev pub row_diagnostic : RunRow → Option RunDiagnostic
row_diagnostic r = elim r.diagnostic_code [
  | none ↦ none
  | some c ↦ some (record { code = c; message = get_or r.diagnostic_message "None" })
]

-- `_run_from_row`
unfoldable pub run_from_row : RunRow → ℕ → RunRecord
run_from_row r latest = record {
  run_id = r.run_id;
  repository_id = r.repository_id;
  history_pair = r.history_pair;
  status = r.status;
  artifact_id = r.artifact_id;
  cancellation_requested = r.cancellation_requested;
  diagnostic = row_diagnostic r;
  created_at = r.created_at;
  started_at = r.started_at;
  finished_at = r.finished_at;
  latest_event_sequence = latest;
}

-- `read_run`
unfoldable pub read_run : String → Db → Result RunRecord
unfolding run_from_row
read_run run_id db =
    if is_run_id run_id
    then elim (find_run run_id db.runs) [
      | none ↦ err run_not_found
      | some r ↦ ok (run_from_row r (latest_sequence run_id db))
    ]
    else err run_not_found
