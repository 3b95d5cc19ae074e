-- ===== src/Domain/WriteSet.antt =====
-- `FeatureWriteSet` of fs_core/models.py: the computed results of one entity on their way to the
-- stores, and their JSON form.
use clearfeature.Prelude.{
  ℕ, String, ◌≡◌, refl, Option, none, some, List, [], ◌∷◌, map, Dict, Result, ok, err, ◌>>=◌, All,
  if◌then◌else◌, str_eq,
}
use clearfeature.Domain.{
  DateTime, naive, aware, EntityKey, entity_key, FeatureRef, feature_ref, FeatureResult,
  Availability, source_provided, ingestion_time, DomainError,
}
use mathlib.Core.Path.{subst}
use clearfeature.Domain.KeyCodec.{KeyCodecError}
use clearfeature.Json.{Json, text, object, array, no_items, item, Fields, fields, find, items}
use clearfeature.Json.Times.{IsoFormat}
use clearfeature.Json.Reading.{
  JsonError, mistyped, naive_time, refused, bad_key, required, optional, optional_of, defaulted,
  read_text, read_nat, read_value, read_list, read_fields, read_dict, read_time,
}
use clearfeature.Json.Nested.{
  nat, value_or_null, dict_fields, read_with, read_dict-dict_fields, read_list-map,
  optional_of-text,
}

pub record FeatureWriteSet (V : Type 0) : Type 0 where
  pub view : String
  pub view_version : ℕ
  pub entity_key : EntityKey
  pub results : Dict String (FeatureResult V)
  pub source_refs : Dict String String
  pub request_id : Option String
  pub job_id : Option String
  pub run_id : Option String
  pub correlation_id : Option String
  pub write_policy : String
  pub node_statuses : Dict String String

abbrev pub availability_text : Availability → String
availability_text source_provided = "source_provided"
availability_text ingestion_time = "ingestion_time"

abbrev pub read_availability : Json → Result JsonError Availability
read_availability (text s) =
    if str_eq s "source_provided"
    then ok source_provided
    else if str_eq s "ingestion_time"
    then ok ingestion_time
    else err mistyped
read_availability _ = err mistyped

-- `_require_aware`
abbrev pub instant : DateTime → Result JsonError ℕ
instant (naive _) = err naive_time
instant (aware t) = ok t

abbrev pub instant? : Option DateTime → Result JsonError (Option ℕ)
instant? none = ok none
instant? (some d) = do t ← instant d; ok (some t)

-- `[name, value]`
abbrev pub pair_json : String × String → Json
pair_json p = array (item (text p.0) (item (text p.1) no_items))

abbrev pub read_pair : Json → Result JsonError (String × String)
read_pair (array (item (text name) (item (text value) no_items))) = ok (name, value)
read_pair _ = err mistyped

abbrev pub of_key : Result KeyCodecError EntityKey → Result JsonError EntityKey
of_key (err problem) = err (bad_key problem)
of_key (ok key) = ok key

abbrev pub of_ref : Result DomainError FeatureRef → Result JsonError FeatureRef
of_ref (err _) = err (refused "ref")
of_ref (ok r) = ok r

module _ ⦃times : IsoFormat⦄ where
  abbrev pub time_json : ℕ → Json
  time_json t = text (times.isoformat (aware t))

  -- One entry of `results`.
  unfoldable pub result_to_dict : FeatureResult Json → Fields
  result_to_dict r = fields (
      ("feature_name", text r.ref.name)
      ∷ ("feature_version", nat r.ref.version)
      ∷ ("value", r.value)
      ∷ ("data_ts", time_json r.data_ts)
      ∷ ("calc_ts", time_json r.calc_ts)
      ∷ ("max_input_data_ts", value_or_null time_json r.max_input_data_ts)
      ∷ ("input_fingerprint", value_or_null text r.input_fingerprint)
      ∷ ("value_hash", value_or_null text r.value_hash)
      ∷ ("available_at", value_or_null time_json r.available_at)
      ∷ (
        "availability_source",
        value_or_null (λ a. text (availability_text a)) r.availability_source,
      )
      ∷ ("model_uri", value_or_null text r.model_uri)
      ∷ ("model_digest", value_or_null text r.model_digest)
      ∷ ("model_output_name", value_or_null text r.model_output_name)
      ∷ ("bundle_digest", value_or_null text r.bundle_digest)
      ∷ [])

  unfoldable pub result_from_dict : EntityKey → Fields → Result JsonError (FeatureResult Json)
  unfolding required optional feature_ref
  result_from_dict key data_fields = do
    name ← required read_text "feature_name" data_fields
    version ← required read_nat "feature_version" data_fields
    ref ← of_ref (feature_ref name version)
    value ← required read_value "value" data_fields
    data_time ← required read_time "data_ts" data_fields
    calc_time ← required read_time "calc_ts" data_fields
    max_input_time ← optional read_time "max_input_data_ts" data_fields
    input_fingerprint ← optional read_text "input_fingerprint" data_fields
    value_hash ← optional read_text "value_hash" data_fields
    available_time ← optional read_time "available_at" data_fields
    availability_source ← optional read_availability "availability_source" data_fields
    model_uri ← optional read_text "model_uri" data_fields
    model_digest ← optional read_text "model_digest" data_fields
    model_output_name ← optional read_text "model_output_name" data_fields
    bundle_digest ← optional read_text "bundle_digest" data_fields
    data_ts ← instant data_time
    calc_ts ← instant calc_time
    max_input_data_ts ← instant? max_input_time
    available_at ← instant? available_time
    ok (record {
      ref = ref;
      entity = key;
      value = value;
      data_ts = data_ts;
      calc_ts = calc_ts;
      max_input_data_ts = max_input_data_ts;
      input_fingerprint = input_fingerprint;
      value_hash = value_hash;
      available_at = available_at;
      availability_source = availability_source;
      model_uri = model_uri;
      model_digest = model_digest;
      model_output_name = model_output_name;
      bundle_digest = bundle_digest;
    })

  unfoldable pub to_dict : FeatureWriteSet Json → Fields
  unfolding result_to_dict
  to_dict s = fields (
      ("view", text s.view)
      ∷ ("view_version", nat s.view_version)
      ∷ ("entity_key", array (items (map pair_json s.entity_key.parts)))
      ∷ ("results", object (dict_fields (λ r. object (result_to_dict r)) s.results))
      ∷ ("source_refs", object (dict_fields text s.source_refs))
      ∷ ("request_id", value_or_null text s.request_id)
      ∷ ("job_id", value_or_null text s.job_id)
      ∷ ("run_id", value_or_null text s.run_id)
      ∷ ("correlation_id", value_or_null text s.correlation_id)
      ∷ ("write_policy", text s.write_policy)
      ∷ [])

  unfoldable pub from_dict : Fields → Result JsonError (FeatureWriteSet Json)
  unfolding required optional defaulted entity_key result_from_dict
  from_dict data_fields = do
    parts ← required (read_list read_pair) "entity_key" data_fields
    key ← of_key (entity_key parts)
    results ← required (read_dict (read_with (result_from_dict key))) "results" data_fields
    view ← required read_text "view" data_fields
    view_version ← required read_nat "view_version" data_fields
    source_refs ← required (read_dict read_text) "source_refs" data_fields
    request_id ← optional read_text "request_id" data_fields
    job_id ← optional read_text "job_id" data_fields
    run_id ← optional read_text "run_id" data_fields
    correlation_id ← optional read_text "correlation_id" data_fields
    write_policy ← defaulted read_text "write_policy" "online_first" data_fields
    ok (record {
      view = view;
      view_version = view_version;
      entity_key = key;
      results = results;
      source_refs = source_refs;
      request_id = request_id;
      job_id = job_id;
      run_id = run_id;
      correlation_id = correlation_id;
      write_policy = write_policy;
      node_statuses = [];
    })

abbrev pub aware? : Option ℕ → Option DateTime
aware? none = none
aware? (some t) = some (aware t)

instant?-aware? : (o : Option ℕ) → instant? (aware? o) ≡ ok o
instant?-aware? none = refl
instant?-aware? (some t) = refl

availability-back :
    (o : Option Availability)
    → optional_of read_availability (some (value_or_null (λ a. text (availability_text a)) o))
      ≡ ok o
availability-back none = refl
availability-back (some source_provided) = refl
availability-back (some ingestion_time) = refl

pairs-back :
    (ps : List (String × String)) → read_list read_pair (array (items (map pair_json ps))) ≡ ok ps
pairs-back ps = read_list-map pair_json read_pair (λ p. refl) ps

module _ ⦃times : IsoFormat⦄ where
  time-back : (t : ℕ) → read_time (time_json t) ≡ ok (aware t)
  time-back t = rw (times.parses (aware t)) refl

  time?-back :
      (o : Option ℕ) → optional_of read_time (some (value_or_null time_json o)) ≡ ok (aware? o)
  time?-back none = refl
  time?-back (some t) = rw (times.parses (aware t)) refl

  pub result_from_dict-result_to_dict :
      (r : FeatureResult Json)
      → feature_ref r.ref.name r.ref.version ≡ ok r.ref
      → result_from_dict r.entity (result_to_dict r) ≡ ok r
  unfolding result_to_dict result_from_dict find
  result_from_dict-result_to_dict r made =
      rw
        (
          made,
          time-back r.data_ts,
          time-back r.calc_ts,
          time?-back r.max_input_data_ts,
          optional_of-text r.input_fingerprint,
          optional_of-text r.value_hash,
          time?-back r.available_at,
          availability-back r.availability_source,
          optional_of-text r.model_uri,
          optional_of-text r.model_digest,
          optional_of-text r.model_output_name,
          optional_of-text r.bundle_digest,
          instant?-aware? r.max_input_data_ts,
          instant?-aware? r.available_at,
        )
        refl

  -- A result of the entity `key` whose reference its `__post_init__` accepts.
  abbrev pub IsOf : EntityKey → FeatureResult Json → Type 0
  IsOf key r = (r.entity ≡ key) × (feature_ref r.ref.name r.ref.version ≡ ok r.ref)

  result-back :
      (key : EntityKey) (r : FeatureResult Json)
      → IsOf key r
      → result_from_dict key (result_to_dict r) ≡ ok r
  result-back key r fine =
      subst (λ (k : EntityKey). result_from_dict k (result_to_dict r) ≡ ok r) fine.0
        (result_from_dict-result_to_dict r fine.1)

  results-back :
      (key : EntityKey) (d : Dict String (FeatureResult Json))
      → All (λ p. IsOf key p.1) d
      → read_fields
          (read_with (result_from_dict key))
          (dict_fields (λ r. object (result_to_dict r)) d)
        ≡ ok d
  unfolding read_fields
  results-back key [] fine = refl
  results-back key ((name, r) ∷ d) fine =
      rw (result-back key r fine.0, results-back key d fine.1) refl

  pub from_dict-to_dict :
      (s : FeatureWriteSet Json)
      → entity_key s.entity_key.parts ≡ ok s.entity_key
      → All (λ p. IsOf s.entity_key p.1) s.results
      → from_dict (to_dict s) ≡ ok (record s { node_statuses = [] })
  unfolding to_dict from_dict find read_dict
  from_dict-to_dict s key_made fine =
      rw
        (
          pairs-back s.entity_key.parts,
          key_made,
          results-back s.entity_key s.results fine,
          read_dict-dict_fields text read_text (λ t. refl) s.source_refs,
          optional_of-text s.request_id,
          optional_of-text s.job_id,
          optional_of-text s.run_id,
          optional_of-text s.correlation_id,
        )
        refl
