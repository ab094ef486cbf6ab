-- ===== src/Srcmove/Units.antt =====
-- `build_filename_to_unit_index` of srcdiffvisual/srcmove/srcmove_results.py.
pub mod Unique
use src_visual.Common.{
  inr, inl, Bool-cases, is_some, ℕ, zero, suc, ◌+◌, String, ◌≡◌, refl, sym, ap, ◌∙◌, ◌↔◌, Bool,
  true, false, ◌||◌, Option, none, some, List, [], ◌∷◌, ◌++◌, any, str_eq, if◌then◌else◌, arith,
  eq_iff,
}
use src_visual.Common.Dict.{Dict, get, contains, put}
use src_visual.Common.Dict.Update.{remove}
use src_visual.Srcdiff.Elements.{Element, attributes_of, get_srcdiff_file_unit_elements}

-- The index and the set of filenames that stand twice.
abbrev pub Index : Type 0
Index = Dict ℕ × List String

abbrev pub add_once : String → List String → List String
add_once s set = if any (str_eq s) set then set else s ∷ set

-- One pass of the loop.
abbrev pub index_unit : ℕ → Option String → Index → Index
index_unit n none (index, twice) = (index, twice)
index_unit n (some filename) (index, twice) =
    if contains filename index
    then (index, add_once filename twice)
    else (put filename n index, twice)

unfoldable pub index_units : ℕ → List Element → Index → Index
index_units n [] i = i
index_units n (unit ∷ units) i =
    index_units (suc n) units (index_unit n (get "filename" (attributes_of unit)) i)

unfoldable pub remove_each : List String → Dict ℕ → Dict ℕ
remove_each [] index = index
remove_each (filename ∷ filenames) index = remove_each filenames (remove filename index)

abbrev pub without_duplicates : Index → Dict ℕ
without_duplicates (index, twice) = remove_each twice index

unfoldable pub build_filename_to_unit_index : Element → Dict ℕ
unfolding index_units remove_each remove
build_filename_to_unit_index root =
    without_duplicates (index_units 1 (get_srcdiff_file_unit_elements root) ([], []))

-- The numbers of the units with the filename, counted from k.
abbrev pub is_named : String → Option String → Bool
is_named filename none = false
is_named filename (some f) = str_eq filename f

unfoldable pub numbers_of : String → ℕ → List Element → List ℕ
numbers_of filename k [] = []
numbers_of filename k (unit ∷ units) =
    let rest = numbers_of filename (suc k) units in
    if is_named filename (get "filename" (attributes_of unit)) then k ∷ rest else rest
