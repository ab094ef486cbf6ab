-- ===== src/Srcmove/Classification.antt =====
-- `validate_classification_fields` of srcdiffvisual/srcmove/srcmove_results.py.
pub mod Nesting
use src_visual.Common.{
  String, ◌≡◌, refl, ◌⊎◌, inl, inr, Bool, true, false, not, ◌&&◌, ◌||◌, none, some, List, [], ◌∷◌,
  any, all, str_eq, if◌then◌else◌, arith, Option,
}
use src_visual.Common.Json.{
  Json, null, boolean, integer, real, text, array, object, Items, no_item, item, Fields, no_field,
  field, fields, text_of, dict_of, is_null,
}
use src_visual.Srcmove.Checked.{Checked, fine, faulty, value_error, ◌>>=◌, ◌>>◌, required}

-- `s in texts`
abbrev pub is_one_of : List String → String → Bool
is_one_of texts s = any (str_eq s) texts

abbrev pub content_relationships : List String
content_relationships = "type1" ∷ "type2c" ∷ "type3" ∷ []

abbrev pub legacy_classification_fields : List String
legacy_classification_fields =
    "match_kind" ∷ "match_kinds" ∷ "by_match_type" ∷ "expected_match_kind"
    ∷ "reviewed_expected_match_kind" ∷ "observed_match_kind" ∷ "reviewed_match_kind"
    ∷ "_oracle_observed_match_kind" ∷ []

-- The fields with one relationship, and the fields with a table of them.
abbrev pub relationship_fields : List String
relationship_fields =
    "content_relationship" ∷ "expected_content_relationship"
    ∷ "reviewed_expected_content_relationship" ∷ "observed_content_relationship"
    ∷ "reviewed_content_relationship" ∷ "_oracle_observed_content_relationship" ∷ []

abbrev pub table_fields : List String
table_fields = "content_relationships" ∷ "by_content_relationship" ∷ []

abbrev pub is_relationship : Json → Bool
is_relationship null = true
is_relationship (text s) = is_one_of ("type2b" ∷ content_relationships) s
is_relationship _ = false

abbrev pub is_table : Json → Bool
is_table (object fs) = all (λ (k, j). is_one_of content_relationships k) (fields fs)
is_table _ = false

-- The three tests of one field.
unfoldable pub is_current : String → Json → Bool
is_current key value =
    not (is_one_of legacy_classification_fields key)
    && ((not (is_one_of relationship_fields key) || is_relationship value)
        && (not (is_one_of table_fields key) || is_table value))

unfoldable mutual
  pub validate_classification_fields : Json → Checked (Unit {0})
  validate_classification_fields (object fs) = validate_fields fs
  validate_classification_fields (array js) = validate_items js
  validate_classification_fields _ = fine tt

  pub validate_fields : Fields → Checked (Unit {0})
  validate_fields no_field = fine tt
  validate_fields (field key value fs) =
      required (is_current key value)
      >> (validate_classification_fields value >> validate_fields fs)

  pub validate_items : Items → Checked (Unit {0})
  validate_items no_item = fine tt
  validate_items (item value js) = validate_classification_fields value >> validate_items js

-- A field that stands somewhere inside a value, at whatever depth.
abbrev mutual
  pub Nested : String → Json → Json → Type 0
  Nested key value (object fs) = NestedInFields key value fs
  Nested key value (array js) = NestedInItems key value js
  Nested key value _ = ⊥

  pub NestedInFields : String → Json → Fields → Type 0
  NestedInFields key value no_field = ⊥
  NestedInFields key value (field k v fs) =
      ((key ≡ k) × (value ≡ v)) ⊎ (Nested key value v ⊎ NestedInFields key value fs)

  pub NestedInItems : String → Json → Items → Type 0
  NestedInItems key value no_item = ⊥
  NestedInItems key value (item v js) = Nested key value v ⊎ NestedInItems key value js
