-- ===== src/Common/Dict.antt =====
-- Python's `dict` with text keys, in the order of insertion.
pub mod Update
use src_visual.Common.Tests.{if◌then◌else◌}
use src_visual.Common.Text.{str_eq}
use src_visual.Common.Lists.{length}
use Prim.Native.Nat.{suc}
use Prim.Native.String.{String}
use mathlib.Core.Path.{◌≡◌, refl}
use mathlib.Core.Bool.{Bool, false, ◌||◌}
use mathlib.Core.Option.{Option, none, some}
use mathlib.Core.List.{List, [], ◌∷◌}
use native.Mathlib.Omega.{arith}
use text.Mathlib.TextEquality.{eq_iff}

abbrev pub Dict {ℓ} : Type ℓ → Type ℓ
Dict V = List (String × V)

module _ {ℓ} {V : Type ℓ} where
  -- `k in d`
  unfoldable pub contains : String → Dict V → Bool
  contains k [] = false
  contains k ((j, v) ∷ d) = str_eq k j || contains k d

  -- `d.get(k)`
  unfoldable pub get : String → Dict V → Option V
  get k [] = none
  get k ((j, v) ∷ d) = if str_eq k j then some v else get k d

  -- `d[k] = v`
  unfoldable pub put : String → V → Dict V → Dict V
  put k v [] = (k, v) ∷ []
  put k v ((j, w) ∷ d) = if str_eq k j then (k, v) ∷ d else (j, w) ∷ put k v d

  pub contains-put :
      (j k : String) (v : V) (d : Dict V) → contains j (put k v d) ≡ (str_eq j k || contains j d)
  unfolding contains put
  contains-put j k v [] = refl
  contains-put j k v ((i, w) ∷ d) =
      ground (arith, eq_iff k i, eq_iff j k, eq_iff j i, contains-put j k v d)

  pub get-put :
      (j k : String) (v : V) (d : Dict V)
      → get j (put k v d) ≡ (if str_eq j k then some v else get j d)
  unfolding get put
  get-put j k v [] = refl
  get-put j k v ((i, w) ∷ d) = ground (arith, eq_iff k i, eq_iff j k, eq_iff j i, get-put j k v d)

  pub length-put :
      (k : String) (v : V) (d : Dict V)
      → length (put k v d) ≡ (if contains k d then length d else suc (length d))
  unfolding contains put
  length-put k v [] = refl
  length-put k v ((i, w) ∷ d) = ground (arith, length-put k v d)
