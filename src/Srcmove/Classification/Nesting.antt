-- ===== src/Srcmove/Classification/Nesting.antt =====
-- What `validate_classification_fields` accepts.
use src_visual.Common.{String, ◌≡◌, refl, sym, ap, ◌∙◌, subst, inl, inr, ◌↔◌, Bool, true, false}
use src_visual.Common.Json.{
  Json, null, boolean, integer, real, text, array, object, Items, no_item, item, Fields, no_field,
  field,
}
use src_visual.Srcmove.Checked.{Checked, fine, faulty, ◌>>◌, required}
use src_visual.Srcmove.Classification.{
  is_current, validate_classification_fields, validate_fields, validate_items, Nested,
  NestedInFields, NestedInItems,
}

>>-fine : (m n : Checked (Unit {0})) → (m >> n) ≡ fine tt → (m ≡ fine tt) × (n ≡ fine tt)
>>-fine (fine tt) n h = (refl, h)
>>-fine (faulty e) n h = cc

required-true : (b : Bool) → required b ≡ fine tt → b ≡ true
required-true true h = refl
required-true false h = cc

module _ (key : String) (value : Json) where
  mutual
    unfolding validate_classification_fields validate_fields validate_items

    accepted :
        (j : Json)
        → validate_classification_fields j ≡ fine tt
        → Nested key value j
        → is_current key value ≡ true
    accepted (object fs) h n = accepted_fields fs h n
    accepted (array js) h n = accepted_items js h n
    accepted null h n = absurd n
    accepted (boolean b) h n = absurd n
    accepted (integer z) h n = absurd n
    accepted (real z s) h n = absurd n
    accepted (text s) h n = absurd n

    accepted_fields :
        (fs : Fields)
        → validate_fields fs ≡ fine tt
        → NestedInFields key value fs
        → is_current key value ≡ true
    accepted_fields no_field h n = absurd n
    accepted_fields (field k v fs) h (inl (same_key, same_value)) =
        subst (λ (k : String). is_current k value ≡ true) (sym same_key)
          (subst (λ (v : Json). is_current k v ≡ true) (sym same_value)
            (required-true (is_current k v) (>>-fine _ _ h).0))
    accepted_fields (field k v fs) h (inr (inl n)) =
        accepted v (>>-fine _ _ (>>-fine (required (is_current k v)) _ h).1).0 n
    accepted_fields (field k v fs) h (inr (inr n)) =
        accepted_fields fs
          (>>-fine (validate_classification_fields v) _
            (>>-fine (required (is_current k v)) _ h).1).1
          n

    accepted_items :
        (js : Items)
        → validate_items js ≡ fine tt
        → NestedInItems key value js
        → is_current key value ≡ true
    accepted_items no_item h n = absurd n
    accepted_items (item v js) h (inl n) = accepted v (>>-fine _ _ h).0 n
    accepted_items (item v js) h (inr n) =
        accepted_items js (>>-fine (validate_classification_fields v) _ h).1 n

fine->> : (m n : Checked (Unit {0})) → m ≡ fine tt → n ≡ fine tt → (m >> n) ≡ fine tt
fine->> m n h k = ap (λ (m : Checked (Unit {0})). m >> n) h ∙ k

mutual
  unfolding validate_classification_fields validate_fields validate_items

  accepting :
      (j : Json)
      → ((key : String) (value : Json) → Nested key value j → is_current key value ≡ true)
      → validate_classification_fields j ≡ fine tt
  accepting (object fs) h = accepting_fields fs h
  accepting (array js) h = accepting_items js h
  accepting null h = refl
  accepting (boolean b) h = refl
  accepting (integer z) h = refl
  accepting (real z s) h = refl
  accepting (text s) h = refl

  accepting_fields :
      (fs : Fields)
      → ((key : String) (value : Json) → NestedInFields key value fs → is_current key value ≡ true)
      → validate_fields fs ≡ fine tt
  accepting_fields no_field h = refl
  accepting_fields (field k v fs) h =
      fine->> (required (is_current k v)) _ (ap required (h k v (inl (refl, refl)))) (
        fine->> (validate_classification_fields v) _
          (accepting v (λ k' v' n. h k' v' (inr (inl n))))
          (accepting_fields fs (λ k' v' n. h k' v' (inr (inr n)))))

  accepting_items :
      (js : Items)
      → ((key : String) (value : Json) → NestedInItems key value js → is_current key value ≡ true)
      → validate_items js ≡ fine tt
  accepting_items no_item h = refl
  accepting_items (item v js) h =
      fine->> (validate_classification_fields v) _ (accepting v (λ k' v' n. h k' v' (inl n)))
        (accepting_items js (λ k' v' n. h k' v' (inr n)))

-- A value passes exactly if every field that stands in it, at whatever depth, is current: its key is
-- not a legacy one, and it holds a known relationship or a table of known relationships where its
-- key asks for one.
pub validate_classification_fields_lem :
    (j : Json)
    → (validate_classification_fields j ≡ fine tt)
      ↔ ((key : String) (value : Json) → Nested key value j → is_current key value ≡ true)
validate_classification_fields_lem j =
    (λ h key value n. accepted key value j h n, λ h. accepting j h)
