-- ===== src/Runs/Worker/Turn.antt =====
-- One turn of the queue worker: the claim of a run, and the watch over its process.
use src_visual.Runs.Worker.{
  Poll, Settling, WorkerTurn, nothing_queued, processed, claim_raised, claim_endless, process_next,
  monitor,
}
use src_visual.Runs.Worker.Ending.{KnowsDiagnostics, IsWatch, IsSettled, monitor-IsSettled}
use src_visual.Runs.Types.{RunRow, RunRecord, Db, Result, ok, err}
use src_visual.Runs.Schema.{find_run, read_run}
use src_visual.Runs.Queue.{claim_next, older}
use src_visual.Runs.Invariant.{IsValid}
use src_visual.Runs.Invariant.Steps.{Writes-IsValid}
use src_visual.Runs.Sound.Claims.{IsClaimed, claim_next-IsClaimed, queue, WasQueued}
use src_visual.Common.{
  arith, ℕ, String, ◌≡◌, Bool, Unicode, List, Option, none, some, least, Option-cases, inl, inr,
}

read_run-found :
    (i : String) (db : Db) (rec : RunRecord)
    → read_run i db ≡ ok rec
    → (r : RunRow) × (find_run i db.runs ≡ some r)
unfolding read_run
read_run-found i db rec h = elim (Option-cases (find_run i db.runs)) [
  | inl absent ↦ absurd (ground arith)
  | inr (r, at) ↦ (r, at)
]

-- The turn of `db` came to its end: the queue was empty, or a run of the queue was claimed and has
-- settled.
abbrev pub HasSettled : Db → String → Settling → WorkerTurn → Type 0
HasSettled db a s (nothing_queued db') = least older (queue db') ≡ none
HasSettled db a s (processed i m) = WasQueued i db × IsSettled i a s m
HasSettled db a s (claim_raised e db') = ⊥
HasSettled db a s (claim_endless db') = ⊥

-- A turn of the worker from a valid database, with the polls of the process between which other
-- processes call whatever methods of the store: the claim neither raises nor runs on; if it finds no
-- run, none is left in the queue; else the claimed run was queued, without a requested cancellation,
-- and has ended when the turn does, its unpublished data is removed unless it had ended by the
-- worker's last read, and the worker raises only if the run has ended by its last write.
pub process_next-HasSettled :
    (u : Unicode) (keep : Bool) (clock : ℕ → String) (a : String) (polls : List Poll) (s : Settling)
    (db : Db)
    → KnowsDiagnostics u
    → IsValid db
    → IsWatch u (claim_next clock db).1 polls s
    → HasSettled db a s (process_next u keep clock a polls s db)
unfolding process_next
process_next-HasSettled u keep clock a polls s db knows valid watch =
    split (claim_next clock db) (claim_next-IsClaimed clock db valid) watch
  where
    split :
        (o : Option (Result (Option RunRecord)) × Db)
        → IsClaimed db o
        → IsWatch u o.1 polls s
        → HasSettled db a s (elim o.0 [
          | none ↦ claim_endless o.1
          | some (err e) ↦ claim_raised e o.1
          | some (ok none) ↦ nothing_queued o.1
          | some (ok (some run)) ↦ processed run.run_id (monitor u keep run.run_id a polls s)
        ])
    split (none, db') c w = absurd c
    split (some (err e), db') c w = absurd c
    split (some (ok none), db') c w = c.1
    split (some (ok (some run)), db') c w =
        let (r, at) = read_run-found run.run_id db' run c.1 in
        (
          c.4,
          monitor-IsSettled u keep run.run_id a polls s db' r knows (Writes-IsValid c.0 valid) at w,
        )
