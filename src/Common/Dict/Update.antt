-- ===== src/Common/Dict/Update.antt =====
-- `{**a, **b}`: a key of `a` keeps its place and takes its value from `b` where `b` has it; the other
-- keys of `b` follow.
use src_visual.Common.Tests.{if◌then◌else◌, get_or, is_some}
use src_visual.Common.Text.{str_eq}
use src_visual.Common.Dict.{Dict, get, contains}
use Prim.Native.String.{String}
use mathlib.Core.Path.{◌≡◌, refl}
use mathlib.Core.Option.{Option, none, some}
use mathlib.Core.List.{[], ◌∷◌, ◌++◌}
use native.Mathlib.Omega.{arith}
use text.Mathlib.TextEquality.{eq_iff}

module _ {ℓ} {V : Type ℓ} where
  unfoldable pub overridden : Dict V → Dict V → Dict V
  overridden [] b = []
  overridden ((k, v) ∷ a) b = (k, get_or (get k b) v) ∷ overridden a b

  unfoldable pub absent : Dict V → Dict V → Dict V
  absent a [] = []
  absent a ((k, v) ∷ b) = let rest = absent a b in if contains k a then rest else (k, v) ∷ rest

  unfoldable pub update : Dict V → Dict V → Dict V
  unfolding overridden absent
  update a b = overridden a b ++ absent a b

  -- `del d[k]`, and the dictionary that `pop` leaves.
  unfoldable pub remove : String → Dict V → Dict V
  remove k [] = []
  remove k ((j, v) ∷ d) = let rest = remove k d in if str_eq k j then rest else (j, v) ∷ rest

  abbrev pub or_else : Option V → Option V → Option V
  or_else none o = o
  or_else (some v) o = some v

  pub get-contains : (k : String) (d : Dict V) → contains k d ≡ is_some (get k d)
  unfolding contains get
  get-contains k [] = refl
  get-contains k ((j, v) ∷ d) = ground (arith, get-contains k d)

  get-append : (k : String) (a b : Dict V) → get k (a ++ b) ≡ or_else (get k a) (get k b)
  unfolding get
  get-append k [] b = refl
  get-append k ((j, v) ∷ a) b = ground (arith, get-append k a b)

  abbrev overriding : Option V → Option V → Option V
  overriding none w = none
  overriding (some v) w = some (get_or w v)

  get-overridden :
      (k : String) (a b : Dict V) → get k (overridden a b) ≡ overriding (get k a) (get k b)
  unfolding get overridden
  get-overridden k [] b = refl
  get-overridden k ((j, v) ∷ a) b = ground (arith, eq_iff k j, get-overridden k a b)

  get-absent :
      (k : String) (a b : Dict V) → get k (absent a b) ≡ (if contains k a then none else get k b)
  unfolding get absent
  get-absent k a [] = ground arith
  get-absent k a ((j, v) ∷ b) = ground (arith, eq_iff k j, get-absent k a b)

  pub get-update : (k : String) (a b : Dict V) → get k (update a b) ≡ or_else (get k b) (get k a)
  unfolding update
  get-update k a b = ground (
    arith,
    get-append k (overridden a b) (absent a b),
    get-overridden k a b,
    get-absent k a b,
    get-contains k a,
  )

  pub get-remove :
      (f k : String) (d : Dict V) → get f (remove k d) ≡ (if str_eq f k then none else get f d)
  unfolding get remove
  get-remove f k [] = ground arith
  get-remove f k ((j, v) ∷ d) = ground (arith, eq_iff k j, eq_iff f k, eq_iff f j, get-remove f k d)
