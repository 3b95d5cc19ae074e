-- ===== src/Json/Reading.antt =====
-- Readers of the fields of a JSON object, each with the error that the program raises.
use clearfeature.Prelude.{
  ℕ, String, ◌≡◌, refl, Bool, Option, none, some, List, [], ◌∷◌, Result, ok, err, ◌>>=◌,
  ok-injective, err≢ok, pos, Dict,
}
use clearfeature.Domain.{DateTime, naive, aware}
use clearfeature.Domain.KeyCodec.{KeyCodecError}
use clearfeature.Json.{
  Json, null, bool, int, text, array, object, Items, no_items, item, Fields, no_fields, field, find,
}
use clearfeature.Json.Times.{IsoFormat}

pub data JsonError : Type 0 where
  missing : String → JsonError
  mistyped : JsonError
  bad_time : JsonError
  naive_time : JsonError
  -- `__post_init__` of the object refused it.
  refused : String → JsonError
  bad_key : KeyCodecError → JsonError

abbrev pub read_text : Json → Result JsonError String
read_text (text s) = ok s
read_text _ = err mistyped

abbrev pub read_nat : Json → Result JsonError ℕ
read_nat (int (pos n)) = ok n
read_nat _ = err mistyped

abbrev pub read_bool : Json → Result JsonError Bool
read_bool (bool b) = ok b
read_bool _ = err mistyped

abbrev pub read_object : Json → Result JsonError Fields
read_object (object data_fields) = ok data_fields
read_object _ = err mistyped

abbrev pub read_value : Json → Result JsonError Json
read_value value = ok value

module _ {A : Type 0} (read : Json → Result JsonError A) where
  unfoldable pub read_items : Items → Result JsonError (List A)
  read_items no_items = ok []
  read_items (item value rest) = do a ← read value; others ← read_items rest; ok (a ∷ others)

  -- `[read(v) for v in value]`
  unfoldable pub read_list : Json → Result JsonError (List A)
  unfolding read_items
  read_list (array values) = read_items values
  read_list _ = err mistyped

  unfoldable pub read_fields : Fields → Result JsonError (Dict String A)
  read_fields no_fields = ok []
  read_fields (field name value rest) = do
    a ← read value
    others ← read_fields rest
    ok ((name, a) ∷ others)

  -- `{name: read(v) for name, v in value.items()}`
  unfoldable pub read_dict : Json → Result JsonError (Dict String A)
  unfolding read_fields
  read_dict (object values) = read_fields values
  read_dict _ = err mistyped

  abbrev pub required_of : String → Option Json → Result JsonError A
  required_of name none = err (missing name)
  required_of name (some value) = read value

  -- `data[name]`
  unfoldable pub required : String → Fields → Result JsonError A
  unfolding find
  required name data_fields = required_of name (find name data_fields)

  abbrev pub optional_of : Option Json → Result JsonError (Option A)
  optional_of none = ok none
  optional_of (some null) = ok none
  optional_of (some value) = do a ← read value; ok (some a)

  -- `data.get(name)`, where `None` stays `None`
  unfoldable pub optional : String → Fields → Result JsonError (Option A)
  unfolding find
  optional name data_fields = optional_of (find name data_fields)

  abbrev pub default_of : A → Option Json → Result JsonError A
  default_of a none = ok a
  default_of a (some value) = read value

  -- `data.get(name, a)`
  unfoldable pub defaulted : String → A → Fields → Result JsonError A
  unfolding find
  defaulted name a data_fields = default_of a (find name data_fields)

module _ ⦃times : IsoFormat⦄ where
  -- `_iso`
  abbrev pub iso : DateTime → Result JsonError Json
  iso (naive _) = err naive_time
  iso (aware t) = ok (text (times.isoformat (aware t)))

  -- `_iso(t) if t is not None else None`
  abbrev pub iso_or_null : Option DateTime → Result JsonError Json
  iso_or_null none = ok null
  iso_or_null (some t) = iso t

  abbrev pub parsed : Option DateTime → Result JsonError DateTime
  parsed none = err bad_time
  parsed (some t) = ok t

  -- `_parse_dt`
  abbrev pub read_time : Json → Result JsonError DateTime
  read_time (text s) = parsed (times.fromisoformat s)
  read_time _ = err mistyped

module _ ⦃times : IsoFormat⦄ where
  pub read_time-iso : (t : DateTime) (value : Json) → iso t ≡ ok value → read_time value ≡ ok t
  read_time-iso (naive t) value written = absurd (err≢ok written)
  read_time-iso (aware t) value written = rw (← ok-injective written, times.parses (aware t)) refl

  pub optional_of-iso :
      (t : Option DateTime) (value : Json)
      → iso_or_null t ≡ ok value
      → optional_of read_time (some value) ≡ ok t
  optional_of-iso none value written = rw (← ok-injective written) refl
  optional_of-iso (some (naive t)) value written = absurd (err≢ok written)
  optional_of-iso (some (aware t)) value written =
      rw (← ok-injective written, times.parses (aware t)) refl
