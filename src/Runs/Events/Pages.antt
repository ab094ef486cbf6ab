-- ===== src/Runs/Events/Pages.antt =====
-- A page of `read_events` is a part of the run's log.
use src_visual.Common.{
  ap, ◌∙◌, subst, sym, ℕ, zero, suc, ◌+◌, String, ◌≡◌, refl, ◌&&◌, List, [], ◌∷◌, ◌≤◌, map, length,
  select, take, drop, sort_by, ltb, arith,
}
use src_visual.Runs.Types.{RunEvent, Db}
use src_visual.Runs.Schema.{is_event_of, sequences}
use src_visual.Runs.Progress.{page, by_sequence}
use src_visual.Runs.Invariant.{counting, IsNumbered}

-- The events of a run, in the order in which they were written.
abbrev pub log_of : String → Db → List RunEvent
log_of run_id db = select (is_event_of run_id) db.run_events

-- The events are numbered k, k + 1, …
abbrev pub NumberedFrom : ℕ → List RunEvent → Type 0
NumberedFrom k [] = Unit
NumberedFrom k (e ∷ events) = (e.sequence ≡ k) × NumberedFrom (suc k) events

sequences-map :
    (i : String) (events : List RunEvent)
    → sequences i events ≡ map (λ e. e.sequence) (select (is_event_of i) events)
unfolding sequences
sequences-map i [] = refl
sequences-map i (e ∷ events) = ground (arith, sequences-map i events)

pub length-sequences :
    (i : String) (events : List RunEvent)
    → length (sequences i events) ≡ length (select (is_event_of i) events)
unfolding sequences
length-sequences i [] = refl
length-sequences i (e ∷ events) = ground (arith, length-sequences i events)

counting-NumberedFrom :
    (k : ℕ) (events : List RunEvent)
    → map (λ e. e.sequence) events ≡ counting k (length events)
    → NumberedFrom k events
unfolding counting
counting-NumberedFrom k [] h = tt
counting-NumberedFrom k (e ∷ events) h = (cc, counting-NumberedFrom (suc k) events (cc))

pub log_of-NumberedFrom :
    (i : String) (db : Db) → IsNumbered db.run_events → NumberedFrom 1 (log_of i db)
log_of-NumberedFrom i db h =
    counting-NumberedFrom 1 (log_of i db) (
      sym (sequences-map i db.run_events)
      ∙ h i
      ∙ ap (counting 1) (length-sequences i db.run_events))

select-later :
    (c k : ℕ) (events : List RunEvent)
    → NumberedFrom (suc k) events
    → c ≤ k
    → select (λ e. ltb c e.sequence) events ≡ events
select-later c k [] h le = refl
select-later c k (e ∷ events) h le = ground (arith, select-later c (suc k) events h.1)

select-drop :
    (k j : ℕ) (events : List RunEvent)
    → NumberedFrom (suc k) events
    → select (λ e. ltb (k + j) e.sequence) events ≡ drop j events
select-drop k zero events h = select-later (k + 0) k events h (omega arith)
select-drop k (suc j) [] h = refl
select-drop k (suc j) (e ∷ events) h = ground (arith, select-drop (suc k) j events h.1)

sort_by_lem :
    (k : ℕ) (events : List RunEvent) → NumberedFrom k events → sort_by by_sequence events ≡ events
sort_by_lem k [] h = refl
sort_by_lem k (e ∷ []) h = refl
sort_by_lem k (e ∷ f ∷ events) h = rw (sort_by_lem (suc k) (f ∷ events) h.1) (ground arith)

pub drop-NumberedFrom :
    (k j : ℕ) (events : List RunEvent)
    → NumberedFrom k events
    → NumberedFrom (k + j) (drop j events)
drop-NumberedFrom k zero events h = subst (λ (n : ℕ). NumberedFrom n events) (omega arith) h
drop-NumberedFrom k (suc j) [] h = tt
drop-NumberedFrom k (suc j) (e ∷ events) h =
    subst (λ (n : ℕ). NumberedFrom n (drop j events)) (omega arith)
      (drop-NumberedFrom (suc k) j events h.1)

pub take-NumberedFrom :
    (k n : ℕ) (events : List RunEvent) → NumberedFrom k events → NumberedFrom k (take n events)
take-NumberedFrom k zero events h = tt
take-NumberedFrom k (suc n) [] h = tt
take-NumberedFrom k (suc n) (e ∷ events) h = (h.0, take-NumberedFrom (suc k) n events h.1)

select-and :
    (i : String) (c : ℕ) (events : List RunEvent)
    → select (λ e. is_event_of i e && ltb c e.sequence) events
      ≡ select (λ e. ltb c e.sequence) (select (is_event_of i) events)
select-and i c [] = refl
select-and i c (e ∷ events) = ground (arith, select-and i c events)

-- In a log that is numbered 1, 2, 3, …, a page holds the events after the cursor, in order, up to
-- the limit.
pub page_lem :
    (i : String) (c limit : ℕ) (db : Db)
    → IsNumbered db.run_events
    → page i c limit db.run_events ≡ take limit (drop c (log_of i db))
unfolding page
page_lem i c limit db h =
    ap (λ (es : List RunEvent). take limit (sort_by by_sequence es))
      (select-and i c db.run_events ∙ selected)
    ∙ ap (take limit)
        (sort_by_lem (1 + c) (drop c (log_of i db)) (drop-NumberedFrom 1 c (log_of i db) numbered))
  where
    numbered : NumberedFrom 1 (log_of i db)
    numbered = log_of-NumberedFrom i db h

    selected : select (λ e. ltb c e.sequence) (log_of i db) ≡ drop c (log_of i db)
    selected =
        subst (λ (n : ℕ). select (λ e. ltb n e.sequence) (log_of i db) ≡ drop c (log_of i db))
          (omega arith) (select-drop 0 c (log_of i db) numbered)
