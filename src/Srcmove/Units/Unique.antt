-- ===== src/Srcmove/Units/Unique.antt =====
-- The index has a filename exactly if one unit has it.
use src_visual.Common.{
  subst, ℕ, suc, String, ◌≡◌, refl, sym, ◌∙◌, ◌↔◌, Bool, true, false, ◌||◌, Option, none, some,
  List, [], ◌∷◌, ◌++◌, any, str_eq, if◌then◌else◌, arith, eq_iff, is_some, Bool-cases, inl, inr,
}
use mathlib.Core.List.{append-nil, append_assoc}
use src_visual.Common.Dict.{Dict, get, contains, get-put}
use src_visual.Srcdiff.Elements.{Element, attributes_of, get_srcdiff_file_unit_elements}
use src_visual.Common.Dict.Update.{get-contains, get-remove, remove}
use src_visual.Srcmove.Units.{
  remove, Index, add_once, index_unit, index_units, remove_each, build_filename_to_unit_index,
  is_named, numbers_of,
}

abbrev first : List ℕ → Option ℕ
first [] = none
first (n ∷ ns) = some n

abbrev is_repeated : List ℕ → Bool
is_repeated [] = false
is_repeated (n ∷ []) = false
is_repeated (n ∷ m ∷ ns) = true

-- What the loop knows of a filename that it has met in the units `ns`.
record Knows (f : String) (ns : List ℕ) (i : Index) : Type 0 where
  pub at : get f i.0 ≡ first ns
  pub twice : any (str_eq f) i.1 ≡ is_repeated ns

pub add_once_lem :
    (f s : String) (set : List String)
    → any (str_eq f) (add_once s set) ≡ (str_eq f s || any (str_eq f) set)
add_once_lem f s set = elim (Bool-cases (any (str_eq s) set)) [
  | inl old ↦ rw old (ground (arith, eq_iff f s))
  | inr new ↦ rw new refl
]

get-remove_each :
    (f : String) (fs : List String) (d : Dict ℕ)
    → get f (remove_each fs d) ≡ (if any (str_eq f) fs then none else get f d)
unfolding remove_each
get-remove_each f [] d = refl
get-remove_each f (k ∷ fs) d = ground (arith, get-remove_each f fs (remove k d), get-remove f k d)

-- The numbers after a unit.
abbrev met : Bool → ℕ → List ℕ → List ℕ
met true n ns = ns ++ n ∷ []
met false n ns = ns

first-append :
    (n : ℕ) (ns : List ℕ) → first (ns ++ n ∷ []) ≡ (if is_some (first ns) then first ns else some n)
first-append n [] = refl
first-append n (m ∷ ns) = refl

repeated-append : (n : ℕ) (ns : List ℕ) → is_repeated (ns ++ n ∷ []) ≡ is_some (first ns)
repeated-append n [] = refl
repeated-append n (m ∷ []) = refl
repeated-append n (m ∷ k ∷ ns) = refl

repeated-first : (ns : List ℕ) → is_some (first ns) ≡ false → is_repeated ns ≡ false
repeated-first [] h = refl
repeated-first (n ∷ ns) h = cc

index_unit-Knows :
    (f : String) (n : ℕ) (o : Option String) (ns : List ℕ) (i : Index)
    → Knows f ns i
    → Knows f (met (is_named f o) n ns) (index_unit n o i)
index_unit-Knows f n none ns (index, twice) knows = knows
index_unit-Knows f n (some g) ns (index, twice) knows = elim (Bool-cases (contains g index)) [
  | inl old ↦ rw old (elim (Bool-cases (str_eq f g)) [
    | inl same ↦ rw same (record {
      at = ground (
        arith,
        eq_iff f g,
        get-contains g index,
        first-append n ns,
        repeated-append n ns,
        repeated-first ns,
      );
      twice = ground (
        arith,
        eq_iff f g,
        get-contains g index,
        first-append n ns,
        repeated-append n ns,
        repeated-first ns,
        add_once_lem f g twice,
      );
    })
    | inr other ↦
        rw other (record { at = knows.at; twice = add_once_lem f g twice ∙ rw other knows.twice })
  ])
  | inr new ↦ rw new (elim (Bool-cases (str_eq f g)) [
    | inl same ↦ rw same (record {
      at = ground (
        arith,
        eq_iff f g,
        get-contains g index,
        first-append n ns,
        repeated-append n ns,
        repeated-first ns,
        get-put f g n index,
      );
      twice = ground (
        arith,
        eq_iff f g,
        get-contains g index,
        first-append n ns,
        repeated-append n ns,
        repeated-first ns,
      );
    })
    | inr other ↦
        rw other (record { at = get-put f g n index ∙ rw other knows.at; twice = knows.twice })
  ])
]

index_units-Knows :
    (f : String) (k : ℕ) (units : List Element) (ns : List ℕ) (i : Index)
    → Knows f ns i
    → Knows f (ns ++ numbers_of f k units) (index_units k units i)
unfolding index_units numbers_of
index_units-Knows f k [] ns i knows =
    subst (λ (l : List ℕ). Knows f l i) (sym (append-nil ns)) knows
index_units-Knows f k (unit ∷ units) ns i knows =
    subst (λ (l : List ℕ). Knows f l (index_units k (unit ∷ units) i))
      (met-append (is_named f (get "filename" (attributes_of unit))) k ns
        (numbers_of f (suc k) units))
      (index_units-Knows f (suc k) units _ _
        (index_unit-Knows f k (get "filename" (attributes_of unit)) ns i knows))
  where
    met-append :
        (b : Bool) (n : ℕ) (ns ms : List ℕ) → met b n ns ++ ms ≡ ns ++ (if b then n ∷ ms else ms)
    met-append true n ns ms = append_assoc ns (n ∷ []) ms
    met-append false n ns ms = refl

only_lem :
    (ns : List ℕ) (n : ℕ) → ((if is_repeated ns then none else first ns) ≡ some n) ↔ (ns ≡ n ∷ [])
only_lem [] n = (λ h. cc, λ h. cc)
only_lem (m ∷ []) n = (λ h. cc, λ h. cc)
only_lem (m ∷ k ∷ ns) n = (λ h. cc, λ h. cc)

-- The index maps a filename to a number exactly if the unit of that number, counted from 1, has the
-- filename and no other unit of the document has it.
pub build_filename_to_unit_index_lem :
    (root : Element) (f : String) (n : ℕ)
    → (get f (build_filename_to_unit_index root) ≡ some n)
      ↔ (numbers_of f 1 (get_srcdiff_file_unit_elements root) ≡ n ∷ [])
unfolding build_filename_to_unit_index get
build_filename_to_unit_index_lem root f n =
    subst (λ (o : Option ℕ). (o ≡ some n) ↔ (ns ≡ n ∷ [])) (sym found) (only_lem ns n)
  where
    ns : List ℕ
    ns = numbers_of f 1 (get_srcdiff_file_unit_elements root)

    last : Index
    last = index_units 1 (get_srcdiff_file_unit_elements root) ([], [])

    knows : Knows f ns last
    knows =
        index_units-Knows f 1 (get_srcdiff_file_unit_elements root) [] ([], [])
          (record { at = refl; twice = refl })

    found : get f (remove_each last.1 last.0) ≡ (if is_repeated ns then none else first ns)
    found = get-remove_each f last.1 last.0 ∙ rw (knows.twice, knows.at) refl
