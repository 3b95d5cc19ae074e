-- ===== src/Domain/KeyCodec.antt =====
-- fs_core/keycodec.py: the deterministic text of an entity key.
use Prim.Native.Nat.{Ordering}
use Prim.Native.String.{◌++◌ as append, compare}
use clearfeature.Prelude.{
  ℕ, String, ◌≡◌, refl, Bool, not, ◌&&◌, ◌||◌, Option, none, some, List, [], ◌∷◌, map, length, all,
  any, ◌==◌, Dict, string_key, lookup, contains, codes, is_blank, Result, ok, err, ◌>>=◌, ◌>>◌,
  reject_if,
}

-- The `ValueError`s of the module, by what they report. `missing_key` is the `KeyError` of
-- `parts[name]`.
pub data KeyCodecError : Type 0 where
  no_parts empty_name empty_value reserved_char key_order_mismatch missing_key : KeyCodecError

abbrev pub names_of : List (String × String) → List String
names_of parts = map (λ p. p.0) parts

-- `_RESERVED`, by code points.
abbrev pub is_reserved : ℕ → Bool
is_reserved c = (c == b'|') || (c == b'=')

unfoldable pub has_reserved : String → Bool
unfolding codes
has_reserved s = any is_reserved (codes s)

unfoldable pub validate_part : String → String → Result KeyCodecError (Unit {0})
unfolding is_blank has_reserved
validate_part name value = do
  reject_if (is_blank name) empty_name
  reject_if (is_blank value) empty_value
  reject_if (has_reserved name || has_reserved value) reserved_char

unfoldable pub validate_parts : List (String × String) → Result KeyCodecError (Unit {0})
unfolding validate_part
validate_parts [] = ok tt
validate_parts ((name, value) ∷ rest) = do validate_part name value; validate_parts rest

-- `len(key_order) != len(parts) or set(key_order) != set(parts)`
unfoldable pub validate_key_order :
    Dict String String → List String → Result KeyCodecError (Unit {0})
unfolding contains
validate_key_order parts key_order =
    reject_if
      (not (length key_order == length parts)
        || not (
            all (contains (names_of parts)) key_order && all (contains key_order) (names_of parts)))
      key_order_mismatch

-- `sorted(parts)`: Python orders texts by code points, as `compare` does.
insert_sorted : String → List String → List String
insert_sorted a [] = a ∷ []
insert_sorted a (b ∷ bs) = elim (compare b a) [
  | Ordering.gt ↦ a ∷ b ∷ bs
  | _ ↦ b ∷ insert_sorted a bs
]

unfoldable pub sorted : List String → List String
unfolding insert_sorted
sorted [] = []
sorted (a ∷ as') = insert_sorted a (sorted as')

-- f"{name}={value}"
unfoldable pub part_text : String → String → String
part_text name value = append name (append "=" value)

-- "|".join(...)
unfoldable pub join : List String → String
join [] = ""
join (s ∷ []) = s
join (s ∷ ss) = append s (append "|" (join ss))

unfoldable pub part_texts : Dict String String → List String → Result KeyCodecError (List String)
unfolding part_text lookup
part_texts parts [] = ok []
part_texts parts (name ∷ rest) = do
  value ← elim (lookup name parts) [ none ↦ err missing_key | some v ↦ ok v ]
  texts ← part_texts parts rest
  ok (part_text name value ∷ texts)

unfoldable pub order_names :
    Dict String String → Option (List String) → Result KeyCodecError (List String)
unfolding sorted validate_key_order
order_names parts none = ok (sorted (names_of parts))
order_names parts (some key_order) = do validate_key_order parts key_order; ok key_order

unfoldable pub encode_entity_key :
    Dict String String → Option (List String) → Result KeyCodecError String
unfolding validate_parts order_names part_texts join
encode_entity_key parts key_order = do
  reject_if (length parts == 0) no_parts
  validate_parts parts
  names ← order_names parts key_order
  texts ← part_texts parts names
  ok (join texts)

encode_sorted : encode_entity_key (("user", "7") ∷ ("bank", "x y") ∷ []) none ≡ ok "bank=x y|user=7"
unfolding encode_entity_key
encode_sorted = refl

encode_ordered :
    encode_entity_key (("user", "7") ∷ ("bank", "x") ∷ []) (some ("user" ∷ "bank" ∷ []))
    ≡ ok "user=7|bank=x"
unfolding encode_entity_key
encode_ordered = refl

encode_rejects : encode_entity_key (("user", "7=") ∷ []) none ≡ err reserved_char
unfolding encode_entity_key
encode_rejects = refl
