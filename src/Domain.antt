-- ===== src/Domain.antt =====
-- fs_core/models.py: the value objects that the other components exchange. A datetime that a
-- dataclass accepts is timezone-aware and is its instant, in microseconds; a raw argument may be
-- naive. Versions and counts are natural numbers. The dataclasses' `__post_init__` is a function
-- that makes the record or raises.
pub mod KeyCodec
pub mod WriteSet
use Prim.Native.Nat.{◌/◌, ◌%◌}
use Prim.Native.String.{◌++◌ as append, char_at, ◌∷◌ as cons}
use clearfeature.Prelude.{
  ℕ, zero, suc, ◌+◌, String, ◌≡◌, refl, Option, none, some, List, [], ◌∷◌, map, ltb, ◌==◌,
  if◌then◌else◌, Dict, string_key, insert, lookup, is_blank, Result, ok, err, ◌>>=◌, ◌>>◌,
  reject_if,
}
use KeyCodec.{KeyCodecError, missing_key, sorted, encode_entity_key, part_text, join, names_of}

pub data DomainError : Type 0 where
  not_aware : String → DomainError
  empty_text : String → DomainError
  version_below_one : DomainError
  bad_key : KeyCodecError → DomainError
  negative_size available_before_report bad_availability_source : DomainError

-- A `datetime` argument: with `tzinfo` it is an instant.
pub data DateTime : Type 0 where
  naive : ℕ → DateTime
  aware : ℕ → DateTime

unfoldable pub require_aware : DateTime → String → Result DomainError ℕ
require_aware (naive _) field = err (not_aware field)
require_aware (aware t) field = ok t

-- `if value is not None: _require_aware(value, field)`
unfoldable pub require_aware? : Option DateTime → String → Result DomainError (Option ℕ)
unfolding require_aware
require_aware? none field = ok none
require_aware? (some d) field = do t ← require_aware d field; ok (some t)

-- `str(n)` of a natural number.
decimal_from : ℕ → ℕ → String → String
decimal_from zero n acc = acc
decimal_from (suc fuel) n acc =
    let text = cons (char_at "0123456789" (n % 10)) acc in
    let rest = decimal_from fuel (n / 10) text in if n / 10 == 0 then text else rest

unfoldable pub decimal : ℕ → String
unfolding decimal_from
decimal n = decimal_from (suc n) n ""

-- A key whose `__post_init__` has passed.
pub record EntityKey : Type 0 where
  pub parts : List (String × String)

-- `dict(pairs)`
unfoldable pub dict_of : List (String × String) → Dict String String → Dict String String
unfolding insert
dict_of [] d = d
dict_of ((name, value) ∷ rest) d = dict_of rest (insert name value d)

-- `EntityKey.encode`, of any parts
unfoldable pub encode_parts : List (String × String) → Result KeyCodecError String
unfolding encode_entity_key dict_of
encode_parts parts = encode_entity_key (dict_of parts []) (some (names_of parts))

unfoldable pub entity_key : List (String × String) → Result KeyCodecError EntityKey
unfolding encode_parts
entity_key parts = do _ ← encode_parts parts; ok (record { parts = parts })

-- `EntityKey.encode` of a key that was made: `EntityKey-encode` shows that the checks pass.
unfoldable pub encode : EntityKey → String
unfolding join part_text
encode k = join (map (λ p. part_text p.0 p.1) k.parts)

-- `(name, parts[name]) for name in names`
unfoldable pub pick_parts :
    Dict String String → List String → Result KeyCodecError (List (String × String))
unfolding lookup
pick_parts parts [] = ok []
pick_parts parts (name ∷ names) = do
  value ← elim (lookup name parts) [ none ↦ err missing_key | some v ↦ ok v ]
  rest ← pick_parts parts names
  ok ((name, value) ∷ rest)

-- `EntityKey.from_mapping`
unfoldable pub from_mapping :
    Dict String String → Option (List String) → Result KeyCodecError EntityKey
unfolding encode_entity_key sorted pick_parts entity_key
from_mapping parts key_order = do
  _ ← encode_entity_key parts key_order
  let names : List String = elim key_order [ none ↦ sorted (names_of parts) | some order ↦ order ]
  pairs ← pick_parts parts names
  entity_key pairs

pub record FeatureRef : Type 0 where
  pub name : String
  pub version : ℕ

unfoldable pub feature_ref : String → ℕ → Result DomainError FeatureRef
feature_ref name version = do
  reject_if (is_blank name) (empty_text "feature name")
  reject_if (ltb version 1) version_below_one
  ok (record { name = name; version = version })

-- f"{name}:v{version}"
unfoldable pub encode_ref : FeatureRef → String
unfolding decimal
encode_ref r = append r.name (append ":v" (decimal r.version))

-- The same validation and the same text as `FeatureRef`, for views.
pub record FeatureViewRef : Type 0 where
  pub view : String
  pub view_version : ℕ

unfoldable pub feature_view_ref : String → ℕ → Result DomainError FeatureViewRef
feature_view_ref view view_version = do
  reject_if (is_blank view) (empty_text "view name")
  reject_if (ltb view_version 1) version_below_one
  ok (record { view = view; view_version = view_version })

-- Where an `available_at` comes from; `None` is the `none` of an option.
pub data Availability : Type 0 where
  source_provided ingestion_time : Availability

pub record SourceStamp : Type 0 where
  pub report_ts : ℕ
  pub content_hash : String
  pub available_at : Option ℕ
  pub availability_source : Option Availability

unfoldable pub source_stamp :
    DateTime → String → Option DateTime → Option Availability → Result DomainError SourceStamp
unfolding require_aware?
source_stamp report_ts content_hash available_at availability_source = do
  at ← require_aware report_ts "report_ts"
  reject_if (is_blank content_hash) (empty_text "content_hash")
  available ← require_aware? available_at "available_at"
  ok (record {
    report_ts = at;
    content_hash = content_hash;
    available_at = available;
    availability_source = availability_source;
  })

-- One computed value. `V` is the type of the values that UDFs and models return.
pub record FeatureResult (V : Type 0) : Type 0 where
  pub ref : FeatureRef
  pub entity : EntityKey
  pub value : V
  pub data_ts : ℕ
  pub calc_ts : ℕ
  pub max_input_data_ts : Option ℕ
  pub input_fingerprint : Option String
  pub value_hash : Option String
  pub available_at : Option ℕ
  pub availability_source : Option Availability
  pub model_uri : Option String
  pub model_digest : Option String
  pub model_output_name : Option String
  pub bundle_digest : Option String

-- Only a claim of the source itself takes part in the identity of a replay.
abbrev trusted : Option Availability → Option ℕ → Option ℕ
trusted (some source_provided) at = at
trusted _ at = none

unfoldable pub trusted_available_at : {V : Type 0} → FeatureResult V → Option ℕ
trusted_available_at r = trusted r.availability_source r.available_at

encode_ref_lem : encode_ref (record { name = "income"; version = 12 }) ≡ "income:v12"
unfolding encode_ref
encode_ref_lem = refl
