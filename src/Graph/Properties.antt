-- ===== src/Graph/Properties.antt =====
-- What the scorer reads of a node's properties: parseProperties, propertyText, findProperty,
-- flattenValue and normalizeKey of internal/graph/similarity.go.
use wachd.Base.{
  ℕ, List, [], ◌∷◌, true, false, Option, none, some, if◌then◌else◌, String, is_nil, ◌||◌,
}
use wachd.Password.{codes}
use wachd.Notify.Text.{trim_space}
use wachd.Graph.Types.{
  Json, null, string, number, boolean, array, object, Items, no_items, item, Fields, no_fields,
  field, same_text,
}
use wachd.Table.{order_by}
use wachd.Graph.Tokens.{Runtime, lower, join_with, text_before}

-- A text that is not blank, as a part of a longer one.
unfoldable pub add_part : List ℕ → List (List ℕ) → List (List ℕ)
unfolding trim_space
add_part text parts = if is_nil (trim_space text) then parts else trim_space text ∷ parts

-- The field of a name, and its text.
abbrev pub Flat : Type 0
Flat = List ℕ × List ℕ

abbrev names : List Flat → List (List ℕ)
names [] = []
names (f ∷ fs) = f.0 ∷ names fs

unfoldable pub add_named : List ℕ → List Flat → List (List ℕ) → List (List ℕ)
unfolding add_part
add_named key [] parts = parts
add_named key (f ∷ fs) parts =
    if same_text f.0 key then add_part f.1 parts else add_named key fs parts

unfoldable pub parts_of : List (List ℕ) → List Flat → List (List ℕ)
unfolding add_named
parts_of [] fs = []
parts_of (key ∷ keys) fs = add_named key fs (parts_of keys fs)

unfoldable pub preferred_keys : List (List ℕ)
preferred_keys =
    codes "message"
    ∷ codes "name"
    ∷ codes "label"
    ∷ codes "summary"
    ∷ codes "value"
    ∷ codes "metric"
    ∷ codes "service"
    ∷ codes "root_cause"
    ∷ codes "rootCause"
    ∷ codes "resolution"
    ∷ codes "sha"
    ∷ []

-- The preferred fields of an object, or else all of them in the order of their names.
unfoldable pub flatten_object : List Flat → List ℕ
unfolding parts_of preferred_keys join_with
flatten_object fs =
    if is_nil (parts_of preferred_keys fs)
    then join_with (codes " ") (parts_of (order_by text_before (names fs)) fs)
    else join_with (codes " ") (parts_of preferred_keys fs)

unfoldable mutual
  unfolding add_part flatten_object join_with

  pub flatten_value : Json → List ℕ
  flatten_value null = []
  flatten_value (string text) = text
  flatten_value (number text) = text
  flatten_value (boolean true) = codes "true"
  flatten_value (boolean false) = codes "false"
  flatten_value (array items) = join_with (codes " ") (flatten_items items)
  flatten_value (object fields) = flatten_object (flatten_fields fields)

  pub flatten_items : Items → List (List ℕ)
  flatten_items no_items = []
  flatten_items (item value items) = add_part (flatten_value value) (flatten_items items)

  pub flatten_fields : Fields → List Flat
  flatten_fields no_fields = []
  flatten_fields (field key value fields) = (key, flatten_value value) ∷ flatten_fields fields

-- What is no object leaves the map of properties empty.
abbrev pub parse_properties : Json → Json
parse_properties (object fields) = object fields
parse_properties null = object no_fields
parse_properties (string text) = object no_fields
parse_properties (number text) = object no_fields
parse_properties (boolean b) = object no_fields
parse_properties (array items) = object no_fields

module _ (u : Runtime) where
  abbrev letters_and_digits : List ℕ → List ℕ
  letters_and_digits [] = []
  letters_and_digits (r ∷ rs) =
      let rest = letters_and_digits rs in if u.is_letter r || u.is_digit r then r ∷ rest else rest

  abbrev pub normalize_key : List ℕ → List ℕ
  normalize_key key = letters_and_digits (lower u key)

  abbrev field_named : List ℕ → Fields → Option Json
  field_named key no_fields = none
  field_named key (field name value fields) =
      if same_text (normalize_key name) key then some value else field_named key fields

  -- The fields themselves before what lies below them. The fields stand in the order in which they are met: of
  -- several that fit, the first one is found.
  unfoldable mutual
    pub find_property : List ℕ → Json → Option Json
    find_property key null = none
    find_property key (string text) = none
    find_property key (number text) = none
    find_property key (boolean b) = none
    find_property key (array items) = find_in_items key items
    find_property key (object fields) = elim (field_named key fields) [
      | some value ↦ some value
      | none ↦ find_in_fields key fields
    ]

    pub find_in_items : List ℕ → Items → Option Json
    find_in_items key no_items = none
    find_in_items key (item value items) = elim (find_property key value) [
      | some found ↦ some found
      | none ↦ find_in_items key items
    ]

    pub find_in_fields : List ℕ → Fields → Option Json
    find_in_fields key no_fields = none
    find_in_fields key (field name value fields) = elim (find_property key value) [
      | some found ↦ some found
      | none ↦ find_in_fields key fields
    ]

  unfoldable pub text_of : Option Json → List ℕ
  unfolding flatten_value trim_space
  text_of none = []
  text_of (some value) = trim_space (flatten_value value)

  -- Each lookup meets the fields in an order of its own.
  unfoldable pub property_text : (String → Json) → List String → List ℕ
  unfolding find_property text_of
  property_text props [] = []
  property_text props (key ∷ keys) =
      if is_nil (text_of (find_property (normalize_key (codes key)) (props key)))
      then property_text props keys
      else text_of (find_property (normalize_key (codes key)) (props key))
