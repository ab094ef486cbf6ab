-- ===== src/Runs/Invariant/Log.antt =====
-- The event log after an append: `_insert_event` numbers each run's events 1, 2, 3, ….
use src_visual.Common.{
  ℕ, zero, suc, ◌+◌, String, ◌≡◌, refl, sym, ap, ◌∙◌, inl, inr, Bool-cases, some, List, [], ◌∷◌,
  ◌++◌, length, length-append, str_eq, if◌then◌else◌, arith, eq_iff,
}
use src_visual.Runs.Types.{RunEvent}
use src_visual.Runs.Schema.{sequences, maximum}
use src_visual.Runs.Invariant.{last_status, counting, IsNumbered}

pub last_status-append :
    (j : String) (e : RunEvent) (events : List RunEvent)
    → last_status j (events ++ e ∷ [])
      ≡ (if str_eq e.run_id j then some e.status else last_status j events)
unfolding last_status
last_status-append j e [] = ground arith
last_status-append j e (f ∷ events) = ground (arith, last_status-append j e events)

pub sequences-append :
    (j : String) (e : RunEvent) (events : List RunEvent)
    → sequences j (events ++ e ∷ [])
      ≡ (if str_eq e.run_id j then sequences j events ++ e.sequence ∷ [] else sequences j events)
unfolding sequences
sequences-append j e [] = refl
sequences-append j e (f ∷ events) = ground (arith, sequences-append j e events)

pub counting-append : (k n : ℕ) → counting k (suc n) ≡ counting k n ++ (k + n) ∷ []
unfolding counting
counting-append k zero = ap (λ (m : ℕ). m ∷ []) (omega arith)
counting-append k (suc n) =
    ap (λ (l : List ℕ). k ∷ l)
      (counting-append (suc k) n ∙ last (suc k + n) (k + suc n) (omega arith))
  where
    last : (a b : ℕ) → a ≡ b → counting (suc k) n ++ a ∷ [] ≡ counting (suc k) n ++ b ∷ []
    last a b e = ap (λ (m : ℕ). counting (suc k) n ++ m ∷ []) e

maximum-counting : (k n : ℕ) → maximum (counting k (suc n)) ≡ k + n
unfolding maximum counting
maximum-counting k zero = omega arith
maximum-counting k (suc n) = omega (arith, maximum-counting (suc k) n)

pub maximum-numbered : (ns : List ℕ) → ns ≡ counting 1 (length ns) → maximum ns ≡ length ns
unfolding maximum
maximum-numbered [] h = refl
maximum-numbered (n ∷ ns) h = ap maximum h ∙ (maximum-counting 1 (length ns) ∙ omega arith)

next_number :
    (ns : List ℕ) (m : ℕ)
    → ns ≡ counting 1 (length ns)
    → m ≡ maximum ns + 1
    → ns ++ m ∷ [] ≡ counting 1 (length (ns ++ m ∷ []))
next_number ns m h e =
    ap (λ (l : List ℕ). l ++ m ∷ []) h
    ∙ (ap (λ (k : ℕ). counting 1 (length ns) ++ k ∷ []) (omega (arith, maximum-numbered ns h))
        ∙ (sym (counting-append 1 (length ns))
            ∙ ap (counting 1) (omega (arith, length-append ns (m ∷ [])))))

-- The sequence number that `_insert_event` computes keeps the numbering.
pub append-IsNumbered :
    (e : RunEvent) (events : List RunEvent)
    → IsNumbered events
    → e.sequence ≡ maximum (sequences e.run_id events) + 1
    → IsNumbered (events ++ e ∷ [])
append-IsNumbered e events h s j = elim (Bool-cases (str_eq e.run_id j)) [
  | inl same ↦
      rw (sequences-append j e events, same)
        (next_number (sequences j events) e.sequence (h j)
          (s ∙ ap (λ (i : String). maximum (sequences i events) + 1) ((eq_iff e.run_id j).0 same)))
  | inr other ↦ rw (sequences-append j e events, other) (h j)
]
