-- ===== src/Srcdiff/Elements.antt =====
-- xml.etree.ElementTree's elements as data, srcdiffvisual/core/namespaces.py and
-- srcdiffvisual/core/units.py. A tag, "{namespace}name" in ElementTree, is its two parts; the
-- children of an element stand with their tails.
use src_visual.Common.{
  ℕ, zero, suc, String, Bool, false, not, ◌&&◌, Option, none, some, List, [], ◌∷◌, str_eq,
  if◌then◌else◌, get_or, ◌==◌,
}
use src_visual.Common.Dict.{Dict, get}
use Prim.Native.Nat.{◌/◌, ◌%◌}
use Prim.Native.String.{◌++◌}

pub record Tag : Type 0 where
  pub namespace : Option String
  pub local_name : String

mutual
  pub data Element : Type 0 where
    element : Tag → Dict String → Option String → Elements → Element

  pub data Elements : Type 0 where
    no_element : Elements
    child : Element → Option String → Elements → Elements

abbrev pub tag_of : Element → Tag
tag_of (element tag attributes text children) = tag

abbrev pub attributes_of : Element → Dict String
attributes_of (element tag attributes text children) = attributes

abbrev pub src_ns : String
src_ns = "http://www.srcML.org/srcML/src"

abbrev pub diff_ns : String
diff_ns = "http://www.srcML.org/srcDiff"

abbrev pub mv_ns : String
mv_ns = "http://www.srcML.org/srcMove"

abbrev pub pos_ns : String
pos_ns = "http://www.srcML.org/srcML/position"

-- `NAMESPACE_PREFIX`
abbrev pub namespace_prefix : Dict String
namespace_prefix = (src_ns, "src") ∷ (diff_ns, "diff") ∷ (mv_ns, "mv") ∷ (pos_ns, "pos") ∷ []

abbrev pub with_prefix : Option String → String → String
with_prefix none name = name
with_prefix (some prefix) name = if str_eq prefix "src" then name else prefix ++ (":" ++ name)

-- `prefixed_name`
abbrev pub name_in : Option String → String → String
name_in none name = name
name_in (some namespace) name = with_prefix (get namespace namespace_prefix) name

abbrev pub prefixed_name : Tag → String
prefixed_name tag = name_in tag.namespace tag.local_name

abbrev pub is_in : String → Option String → Bool
is_in namespace none = false
is_in namespace (some n) = str_eq n namespace

-- `tag in SKIPPED_TREE_TAGS`
abbrev pub is_skipped : Tag → Bool
is_skipped tag = is_in diff_ns tag.namespace && str_eq tag.local_name "ws"

-- `tag == SRC_UNIT_TAG`
abbrev pub is_src_unit : Tag → Bool
is_src_unit tag = is_in src_ns tag.namespace && str_eq tag.local_name "unit"

abbrev pub is_filled : Option String → Bool
is_filled none = false
is_filled (some s) = not (str_eq s "")

abbrev pub is_single_file_srcdiff_root : Element → Bool
is_single_file_srcdiff_root root =
    is_src_unit (tag_of root) && is_filled (get "filename" (attributes_of root))

unfoldable pub nested_units : Elements → List Element
nested_units no_element = []
nested_units (child e tail rest) =
    let units = nested_units rest in if is_src_unit (tag_of e) then e ∷ units else units

abbrev pub children_of : Element → Elements
children_of (element tag attributes text children) = children

abbrev pub units_or : List Element → Element → List Element
units_or (e ∷ units) root = e ∷ units
units_or [] root = if is_single_file_srcdiff_root root then root ∷ [] else []

unfoldable pub get_srcdiff_file_unit_elements : Element → List Element
unfolding nested_units
get_srcdiff_file_unit_elements root = units_or (nested_units (children_of root)) root

-- A number below ten, and any number, in decimal; each step of the latter divides by ten.
abbrev digit : ℕ → String
digit n =
    if n == 0
    then "0"
    else if n == 1
    then "1"
    else if n == 2
    then "2"
    else if n == 3
    then "3"
    else if n == 4
    then "4"
    else if n == 5
    then "5"
    else if n == 6
    then "6"
    else if n == 7
    then "7"
    else if n == 8
    then "8"
    else "9"

unfoldable pub digits : ℕ → ℕ → String → String
digits zero n text = text
digits (suc fuel) zero text = text
digits (suc fuel) (suc n) text = digits fuel (suc n / 10) (digit (suc n % 10) ++ text)

-- `str(n)`
unfoldable pub decimal : ℕ → String
unfolding digits
decimal zero = "0"
decimal (suc n) = digits (suc n) (suc n) ""

-- The children of one element are counted by name; `path/name[n]` is the path of the n-th.
abbrev pub count_of : String → Dict ℕ → ℕ
count_of name counts = suc (get_or (get name counts) 0)

abbrev pub child_path : String → String → ℕ → String
child_path path name n = path ++ ("/" ++ (name ++ ("[" ++ (decimal n ++ "]"))))

abbrev pub unit_path : ℕ → String
unit_path n = "/src:unit[" ++ (decimal n ++ "]")
