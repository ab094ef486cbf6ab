-- ===== src/Runs/Invariant/Rows.antt =====
-- Lookups in the table `runs` after a write, and what a unique key gives.
use src_visual.Common.{
  least, select, Option-cases, inl, inr, String, ◌≡◌, refl, Bool, true, false, Option, none, some,
  List, [], ◌∷◌, ◌++◌, any, str_eq, if◌then◌else◌, arith, eq_iff,
}
use src_visual.Runs.Types.{RunRow, is_active}
use src_visual.Runs.Schema.{conflicts, find_run, replace_run, same_text}
use src_visual.Runs.Invariant.{IsKeyed}

abbrev pub keep : RunRow → Option RunRow → Option RunRow
keep r' none = none
keep r' (some _) = some r'

pub run_id-find_run :
    (i : String) (rows : List RunRow) (r : RunRow) → find_run i rows ≡ some r → r.run_id ≡ i
unfolding find_run
run_id-find_run i [] r h = cc
run_id-find_run i (q ∷ rows) r h = ground (arith, eq_iff q.run_id i, run_id-find_run i rows r)

pub find_run-replace_run :
    (i j : String) (r' : RunRow) (rows : List RunRow)
    → r'.run_id ≡ i
    → find_run j (replace_run i r' rows)
      ≡ (if str_eq i j then keep r' (find_run i rows) else find_run j rows)
unfolding find_run replace_run
find_run-replace_run i j r' [] e = ground arith
find_run-replace_run i j r' (q ∷ rows) e = ground (
  arith,
  eq_iff q.run_id i,
  eq_iff q.run_id j,
  eq_iff r'.run_id j,
  eq_iff i j,
  find_run-replace_run i j r' rows e,
)

pub replace_run-IsKeyed :
    (i : String) (r' : RunRow) (rows : List RunRow)
    → r'.run_id ≡ i
    → IsKeyed rows
    → IsKeyed (replace_run i r' rows)
unfolding replace_run
replace_run-IsKeyed i r' [] e k = tt
replace_run-IsKeyed i r' (q ∷ rows) e k = ground (
  arith,
  eq_iff q.run_id i,
  eq_iff i q.run_id,
  replace_run-IsKeyed i r' rows e,
  find_run-replace_run i q.run_id r' rows e,
)

pub find_run-append :
    (j : String) (r : RunRow) (rows : List RunRow)
    → find_run r.run_id rows ≡ none
    → find_run j (rows ++ r ∷ []) ≡ (if str_eq r.run_id j then some r else find_run j rows)
unfolding find_run
find_run-append j r [] h = refl
find_run-append j r (q ∷ rows) h = ground (
  arith,
  eq_iff q.run_id r.run_id,
  eq_iff q.run_id j,
  eq_iff r.run_id j,
  find_run-append j r rows,
)

pub append-IsKeyed :
    (r : RunRow) (rows : List RunRow)
    → find_run r.run_id rows ≡ none
    → IsKeyed rows
    → IsKeyed (rows ++ r ∷ [])
unfolding find_run
append-IsKeyed r [] h k = (refl, tt)
append-IsKeyed r (q ∷ rows) h k = ground (
  arith,
  eq_iff q.run_id r.run_id,
  eq_iff r.run_id q.run_id,
  append-IsKeyed r rows,
  find_run-append q.run_id r rows,
)

-- What holds of every row that its id finds holds of every row.
pub any-find_run :
    (p : RunRow → Bool) (rows : List RunRow)
    → IsKeyed rows
    → ((j : String) (q : RunRow) → find_run j rows ≡ some q → p q ≡ false)
    → any p rows ≡ false
unfolding find_run
any-find_run p [] k h = refl
any-find_run p (r ∷ rows) k h =
    ground (arith, eq_iff r.run_id r.run_id, h r.run_id r, any-find_run p rows k.1 later)
  where
    later : (j : String) (q : RunRow) → find_run j rows ≡ some q → p q ≡ false
    later j q e = ground (arith, eq_iff r.run_id j, h j q)

-- The converse, for the row that a lookup finds.
pub find_run-any :
    (p : RunRow → Bool) (j : String) (q : RunRow) (rows : List RunRow)
    → any p rows ≡ false
    → find_run j rows ≡ some q
    → p q ≡ false
unfolding find_run
find_run-any p j q [] h e = cc
find_run-any p j q (r ∷ rows) h e = ground (arith, find_run-any p j q rows)

pub conflicts_self : (r : RunRow) → conflicts r r ≡ false
unfolding conflicts
conflicts_self r = ground (arith, eq_iff r.run_id r.run_id)

pub same_text_sym : (a b : Option String) → same_text a b ≡ same_text b a
same_text_sym none none = refl
same_text_sym none (some b) = refl
same_text_sym (some a) none = refl
same_text_sym (some a) (some b) = ground (arith, eq_iff a b, eq_iff b a)

pub conflicts_sym : (r q : RunRow) → conflicts r q ≡ false → conflicts q r ≡ false
unfolding conflicts
conflicts_sym r q h = ground (
  arith,
  eq_iff r.run_id q.run_id,
  eq_iff q.run_id r.run_id,
  same_text_sym r.fingerprint q.fingerprint,
)

-- A write that keeps the id and the fingerprint, and makes no finished run active, makes no
-- conflict.
pub conflicts-weaken :
    (r r' q : RunRow)
    → r'.run_id ≡ r.run_id
    → r'.fingerprint ≡ r.fingerprint
    → (is_active r'.status ≡ true → is_active r.status ≡ true)
    → conflicts r q ≡ false
    → conflicts r' q ≡ false
unfolding conflicts
conflicts-weaken r r' q e f a h = rw (e, f) (ground (arith, a))

pub replace_run_self :
    (i : String) (r : RunRow) (rows : List RunRow)
    → find_run i rows ≡ some r
    → replace_run i r rows ≡ rows
unfolding find_run replace_run
replace_run_self i r [] h = refl
replace_run_self i r (q ∷ rows) h = ground (arith, replace_run_self i r rows)

-- The row that a query picks is the row that its id finds.
pub find_run-least :
    (le : RunRow → RunRow → Bool) (p : RunRow → Bool) (rows : List RunRow) (r : RunRow)
    → IsKeyed rows
    → least le (select p rows) ≡ some r
    → (find_run r.run_id rows ≡ some r) × (p r ≡ true)
unfolding find_run
find_run-least le p [] r k h = cc
find_run-least le p (q ∷ rows) r k h = elim (Option-cases (least le (select p rows))) [
  | inl last ↦ ground (arith, eq_iff q.run_id q.run_id, find_run-least le p rows r k.1)
  | inr (y, e) ↦ ground (
    arith,
    eq_iff q.run_id q.run_id,
    eq_iff q.run_id y.run_id,
    eq_iff q.run_id r.run_id,
    find_run-least le p rows y k.1 e,
    find_run-least le p rows r k.1,
  )
]
