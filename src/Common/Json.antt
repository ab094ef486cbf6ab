-- ===== src/Common/Json.antt =====
-- The values that `json.loads` makes: the dynamic values of Python that the code inspects. A key
-- stands once in an object. A float is its text, with the integer that it is equal to, if any.
use src_visual.Common.Tests.{ℤ}
use src_visual.Common.Dict.{Dict}
use Prim.Native.String.{String}
use mathlib.Core.Path.{ap, ◌≡◌, refl}
use mathlib.Core.Bool.{Bool, true, false}
use mathlib.Core.Option.{Option, none, some}
use mathlib.Core.List.{List, [], ◌∷◌}

mutual
  pub data Json : Type 0 where
    null : Json
    boolean : Bool → Json
    integer : ℤ → Json
    real : Option ℤ → String → Json
    text : String → Json
    array : Items → Json
    object : Fields → Json

  pub data Items : Type 0 where
    no_item : Items
    item : Json → Items → Items

  pub data Fields : Type 0 where
    no_field : Fields
    field : String → Json → Fields → Fields

unfoldable pub items : Items → List Json
items no_item = []
items (item j js) = j ∷ items js

unfoldable pub fields : Fields → Dict Json
fields no_field = []
fields (field k j fs) = (k, j) ∷ fields fs

unfoldable pub to_items : List Json → Items
to_items [] = no_item
to_items (j ∷ js) = item j (to_items js)

unfoldable pub to_fields : Dict Json → Fields
to_fields [] = no_field
to_fields ((k, j) ∷ d) = field k j (to_fields d)

pub items-to_items : (js : List Json) → items (to_items js) ≡ js
unfolding items to_items
items-to_items [] = refl
items-to_items (j ∷ js) = ap (λ (l : List Json). j ∷ l) (items-to_items js)

-- `isinstance(j, list)`, `isinstance(j, dict)` and `isinstance(j, str)`, with the value.
abbrev pub list_of : Json → Option (List Json)
list_of (array js) = some (items js)
list_of _ = none

abbrev pub dict_of : Json → Option (Dict Json)
dict_of (object fs) = some (fields fs)
dict_of _ = none

abbrev pub text_of : Json → Option String
text_of (text s) = some s
text_of _ = none

abbrev pub is_null : Json → Bool
is_null null = true
is_null _ = false
