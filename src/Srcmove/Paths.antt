-- ===== src/Srcmove/Paths.antt =====
-- The paths of srcdiffvisual/srcmove/srcmove_results.py: srcMove names a unit by its number or its
-- filename, and elements by their names with the prefix `src:`.
use Prim.Native.Char.{Char, code}
use Prim.Native.String.{◌++◌}
use src_visual.Common.{
  ℕ, zero, suc, String, Bool, Option, none, some, List, [], ◌∷◌, str_eq, str_length, ◌-◌, ◌==◌,
  if◌then◌else◌,
}
use src_visual.Common.Dict.{Dict, get}
use src_visual.Srcdiff.Elements.{decimal}
use src_visual.Srcdiff.Attributes.{starts_with}
use src_visual.Srcdiff.PathLists.{is_quote}
use src_visual.Srcmove.Checked.{Checked, fine, assertion_error, ◌>>=◌, present}

-- The text after a prefix.
unfoldable pub after_prefix : String → String → Option String
after_prefix String.[] s = some s
after_prefix (String.◌∷◌ c p) String.[] = none
after_prefix (String.◌∷◌ c p) (String.◌∷◌ d s) = if code c == code d then after_prefix p s else none

abbrev pub is_newline : Char → Bool
is_newline c = code c == 10

abbrev pub with_char : Char → Option String → Option String
with_char c none = none
with_char c (some s) = some (String.◌∷◌ c s)

-- `.*$`: the rest of the line, where one newline may end the text.
unfoldable pub to_line_end : String → Option String
to_line_end String.[] = some ""
to_line_end (String.◌∷◌ c s) =
    if is_newline c then if str_eq s "" then some "" else none else with_char c (to_line_end s)

-- `(?P<rest>/.*)?$`
unfoldable pub match_rest : String → Option String
unfolding to_line_end
match_rest String.[] = some ""
match_rest (String.◌∷◌ c s) =
    if code c == 47
    then with_char c (to_line_end s)
    else if is_newline c
    then if str_eq s "" then some "" else none
    else none

abbrev pub with_filename_char : Char → Option (String × String) → Option (String × String)
with_filename_char c none = none
with_filename_char c (some (filename, rest)) = some (String.◌∷◌ c filename, rest)

abbrev pub or_else {ℓ} : {A : Type ℓ} → Option A → Option A → Option A
or_else none o = o
or_else (some a) o = some a

-- `(?P<filename>.*?)(?P=quote)\](?P<rest>/.*)?$`: the shortest filename with which the rest matches.
unfoldable pub match_filename : Char → String → Option (String × String)
unfolding match_rest after_prefix
match_filename quote String.[] = none
match_filename quote (String.◌∷◌ c s) =
    let longer = with_filename_char c (match_filename quote s) in
    or_else
      (elim (after_prefix (String.◌∷◌ quote "]") (String.◌∷◌ c s)) [
        | none ↦ none
        | some tail ↦ elim (match_rest tail) [ none ↦ none | some rest ↦ some ("", rest) ]
      ])
      (if is_newline c then none else longer)

abbrev pub match_quoted : String → Option (String × String)
match_quoted String.[] = none
match_quoted (String.◌∷◌ c s) = if is_quote c then match_filename c s else none

-- `FILENAME_UNIT_PATTERN.match`: the groups `filename` and `rest`.
unfoldable pub match_filename_unit : String → Option (String × String)
unfolding match_filename after_prefix
match_filename_unit xpath = elim (after_prefix "/src:unit[@filename=" xpath) [
  | none ↦ none
  | some s ↦ match_quoted s
]

-- `s.replace(old, new)`; the number counts characters of a match that are still to be passed over.
unfoldable pub replace_from : String → String → ℕ → String → String
replace_from old new skip String.[] = ""
replace_from old new (suc skip) (String.◌∷◌ c s) = replace_from old new skip s
replace_from old new zero (String.◌∷◌ c s) =
    if starts_with old (String.◌∷◌ c s)
    then new ++ replace_from old new (str_length old - 1) s
    else String.◌∷◌ c (replace_from old new zero s)

abbrev pub replace : String → String → String → String
replace old new s = replace_from old new 0 s

-- The text up to the first `]`, and what follows it.
unfoldable pub cut_at_bracket : String → Option (String × String)
cut_at_bracket String.[] = none
cut_at_bracket (String.◌∷◌ c s) =
    if code c == 93 then some (String.◌∷◌ c "", s) else with_filename_char c (cut_at_bracket s)

unfoldable pub normalize_src_prefixes_for_internal_path : String → String
unfolding replace_from cut_at_bracket starts_with
normalize_src_prefixes_for_internal_path xpath =
    if starts_with "/src:unit[" xpath
    then elim (cut_at_bracket xpath) [
      | none ↦ xpath
      | some (head, tail) ↦ head ++ replace "[src:" "[" (replace "/src:" "/" tail)
    ]
    else xpath

unfoldable pub normalize_srcmove_xpath : Dict ℕ → String → Checked String
unfolding match_filename_unit normalize_src_prefixes_for_internal_path
normalize_srcmove_xpath filename_to_unit_index xpath = elim (match_filename_unit xpath) [
  | none ↦ fine (normalize_src_prefixes_for_internal_path xpath)
  | some (filename, rest) ↦ present assertion_error (get filename filename_to_unit_index) >>= λ n.
      fine (normalize_src_prefixes_for_internal_path ("/src:unit[" ++ (decimal n ++ ("]" ++ rest))))
]

-- The comprehension of `normalize_srcmove_xpath_tuple`.
unfoldable pub normalize_srcmove_xpath_tuple : Dict ℕ → List String → Checked (List String)
unfolding normalize_srcmove_xpath
normalize_srcmove_xpath_tuple filename_to_unit_index [] = fine []
normalize_srcmove_xpath_tuple filename_to_unit_index (xpath ∷ xpaths) =
    normalize_srcmove_xpath filename_to_unit_index xpath >>= λ path.
    normalize_srcmove_xpath_tuple filename_to_unit_index xpaths >>= λ paths. fine (path ∷ paths)
