-- ===== src/Json/Nested.antt =====
-- Lists and dicts inside of a JSON object: how they are written, and that reading them back gives
-- what was written.
use clearfeature.Prelude.{
  ℕ, String, ◌≡◌, refl, Option, none, some, List, [], ◌∷◌, map, Dict, Result, ok, ◌>>=◌, >>=-eq-ok,
  ok-injective, pos,
}
use clearfeature.Json.{
  Json, null, text, int, array, object, Items, no_items, item, Fields, no_fields, field, items,
  texts,
}
use clearfeature.Json.Reading.{
  JsonError, read_text, read_nat, read_object, read_items, read_list, read_dict, optional_of,
}

-- `dict(d)`, with each value written by `write`.
abbrev pub dict_fields : {A : Type 0} → (A → Json) → Dict String A → Fields
dict_fields write [] = no_fields
dict_fields write ((name, value) ∷ rest) = field name (write value) (dict_fields write rest)

module _ {A : Type 0} (write : A → Json) (read : Json → Result JsonError A) where
  pub read_dict-dict_fields :
      ((a : A) → read (write a) ≡ ok a)
      → (d : Dict String A) → read_dict read (object (dict_fields write d)) ≡ ok d
  unfolding read_dict
  read_dict-dict_fields back [] = refl
  read_dict-dict_fields back ((name, a) ∷ d) = rw (back a, read_dict-dict_fields back d) refl

  pub read_list-map :
      ((a : A) → read (write a) ≡ ok a)
      → (as' : List A) → read_list read (array (items (map write as'))) ≡ ok as'
  unfolding read_list
  read_list-map back [] = refl
  read_list-map back (a ∷ as') = rw (back a, read_list-map back as') refl

pub read_list-texts : (names : List String) → read_list read_text (texts names) ≡ ok names
read_list-texts names = read_list-map text read_text (λ s. refl) names

module _ {A : Type 0} where
  -- `from_dict` of a value
  abbrev pub read_with : (Fields → Result JsonError A) → Json → Result JsonError A
  read_with from_dict value = do data_fields ← read_object value; from_dict data_fields

  abbrev pub write_items : (A → Result JsonError Fields) → List A → Result JsonError Items
  write_items to_dict [] = ok no_items
  write_items to_dict (a ∷ as') = do
    first ← to_dict a
    others ← write_items to_dict as'
    ok (item (object first) others)

  -- `[a.to_dict() for a in values]`
  abbrev pub write_list : (A → Result JsonError Fields) → List A → Result JsonError Json
  write_list to_dict as' = do written ← write_items to_dict as'; ok (array written)

  module _ (to_dict : A → Result JsonError Fields) (from_dict : Fields → Result JsonError A) where
    pub read_items-write_items :
        ((a : A) (j : Fields) → to_dict a ≡ ok j → from_dict j ≡ ok a)
        → (as' : List A) (written : Items) → write_items to_dict as' ≡ ok written
        → read_items (read_with from_dict) written ≡ ok as'
    unfolding read_items
    read_items-write_items back [] written made = rw (← ok-injective made) refl
    read_items-write_items back (a ∷ as') written made =
        let (first, one, rest) = >>=-eq-ok _ _ made in
        let (others, more, put) = >>=-eq-ok _ _ rest in
        rw (← ok-injective put, back a first one, read_items-write_items back as' others more) refl

    pub read_list-write_list :
        ((a : A) (j : Fields) → to_dict a ≡ ok j → from_dict j ≡ ok a)
        → (as' : List A) (value : Json) → write_list to_dict as' ≡ ok value
        → read_list (read_with from_dict) value ≡ ok as'
    unfolding read_list
    read_list-write_list back as' value made =
        let (written, all_written, put) = >>=-eq-ok _ _ made in
        rw (← ok-injective put, read_items-write_items back as' written all_written) refl

-- `value if value is not None else None`
abbrev pub value_or_null : {A : Type 0} → (A → Json) → Option A → Json
value_or_null write none = null
value_or_null write (some a) = write a

pub optional_of-text :
    (o : Option String) → optional_of read_text (some (value_or_null text o)) ≡ ok o
optional_of-text none = refl
optional_of-text (some s) = refl

abbrev pub nat : ℕ → Json
nat n = int (pos n)

pub optional_of-nat : (o : Option ℕ) → optional_of read_nat (some (value_or_null nat o)) ≡ ok o
optional_of-nat none = refl
optional_of-nat (some n) = refl

abbrev pub counts : Dict String ℕ → Json
counts d = object (dict_fields nat d)

pub optional_of-counts :
    (o : Option (Dict String ℕ))
    → optional_of (read_dict read_nat) (some (value_or_null counts o)) ≡ ok o
optional_of-counts none = refl
optional_of-counts (some d) = rw (read_dict-dict_fields nat read_nat (λ n. refl) d) refl
