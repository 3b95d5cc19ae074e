-- ===== src/Json.antt =====
-- The values of Python's json module, and the reading of a dict that `json.loads` made: `data[key]`,
-- `data.get(key)` and `data.get(key, default)`. A field that has another JSON type than the record's
-- field, which Python stores as it is, is the error `mistyped`.
pub mod Times
pub mod Reading
pub mod Nested
pub mod Tally
use clearfeature.Prelude.{
  String, ◌≡◌, refl, ap, Bool, Option, none, some, List, [], ◌∷◌, map, if◌then◌else◌, str_eq, ℤ,
}

mutual
  pub data Json : Type 0 where
    null : Json
    bool : Bool → Json
    int : ℤ → Json
    -- by its literal
    float : String → Json
    text : String → Json
    array : Items → Json
    object : Fields → Json

  pub data Items : Type 0 where
    no_items : Items
    item : Json → Items → Items

  pub data Fields : Type 0 where
    no_fields : Fields
    field : String → Json → Fields → Fields

-- `{name: value, ...}`
abbrev pub fields : List (String × Json) → Fields
fields [] = no_fields
fields ((name, value) ∷ rest) = field name value (fields rest)

-- `data.items()`
abbrev pub members : Fields → List (String × Json)
members no_fields = []
members (field name value rest) = (name, value) ∷ members rest

abbrev pub elements : Items → List Json
elements no_items = []
elements (item value rest) = value ∷ elements rest

abbrev pub items : List Json → Items
items [] = no_items
items (value ∷ rest) = item value (items rest)

-- `data.get(name)`
unfoldable pub find : String → Fields → Option Json
find name no_fields = none
find name (field other value rest) = if str_eq name other then some value else find name rest

pub members-fields : (ps : List (String × Json)) → members (fields ps) ≡ ps
members-fields [] = refl
members-fields ((name, value) ∷ rest) = ap (λ ps. (name, value) ∷ ps) (members-fields rest)

pub elements-items : (vs : List Json) → elements (items vs) ≡ vs
elements-items [] = refl
elements-items (value ∷ rest) = ap (λ vs. value ∷ vs) (elements-items rest)

-- `list(names)`
abbrev pub texts : List String → Json
texts names = array (items (map text names))
