-- ===== src/Dedup.antt =====
-- fs_core/dedup.py: exact duplicates among the rows that a run appends to the offline history.
pub mod Rerun
mod Tests
use clearfeature.Prelude.{
  ℕ, suc, String, ◌≡◌, ◌↔◌, Bool, true, false, ◌&&◌, ◌||◌, Option, none, some, List, [], ◌∷◌, any,
  ◌==◌, if◌then◌else◌, str_eq,
}
use clearfeature.Domain.{FeatureResult, encode, trusted_available_at}
use clearfeature.Offline.{OfflineRecord, OfflineStore, get, one_feature}

-- What the module uses of the values of features: Python's `==` and the text of `json.dumps`.
pub record Values (V : Type 0) : Type 0 where
  pub eq : V → V → Bool
  pub token : V → String

-- `_signature`
pub record Signature : Type 0 where
  pub entity : String
  pub name : String
  pub version : ℕ
  pub data_ts : ℕ
  pub value_token : String
  pub input_fingerprint : Option String
  pub trusted_at : Option ℕ

-- Python's `==` on optional values.
abbrev pub same_text : Option String → Option String → Bool
same_text none none = true
same_text (some a) (some b) = str_eq a b
same_text _ _ = false

abbrev pub same_number : Option ℕ → Option ℕ → Bool
same_number none none = true
same_number (some a) (some b) = a == b
same_number _ _ = false

abbrev pub eq_signature : Signature → Signature → Bool
eq_signature a b =
    str_eq a.entity b.entity
    && str_eq a.name b.name
    && (a.version == b.version)
    && (a.data_ts == b.data_ts)
    && str_eq a.value_token b.value_token
    && same_text a.input_fingerprint b.input_fingerprint
    && same_number a.trusted_at b.trusted_at

-- Equal, or one side has none.
abbrev pub agrees_text : Option String → Option String → Bool
agrees_text (some a) (some b) = str_eq a b
agrees_text _ _ = true

abbrev pub agrees_number : Option ℕ → Option ℕ → Bool
agrees_number (some a) (some b) = a == b
agrees_number _ _ = true

module _ {V : Type 0} (values : Values V) where
  unfoldable pub signature : FeatureResult V → Signature
  unfolding encode trusted_available_at
  signature r = record {
    entity = encode r.entity;
    name = r.ref.name;
    version = r.ref.version;
    data_ts = r.data_ts;
    value_token = values.token r.value;
    input_fingerprint = r.input_fingerprint;
    trusted_at = trusted_available_at r;
  }

  unfoldable pub same_fingerprint : FeatureResult V → FeatureResult V → Bool
  same_fingerprint existing candidate =
      agrees_text existing.input_fingerprint candidate.input_fingerprint

  unfoldable pub same_availability : FeatureResult V → FeatureResult V → Bool
  same_availability existing candidate =
      agrees_number (trusted_available_at existing) (trusted_available_at candidate)

  -- The test of one row of `_exists_in_offline`.
  unfoldable pub is_duplicate : FeatureResult V → FeatureResult V → Bool
  unfolding same_fingerprint same_availability
  is_duplicate existing r =
      (existing.data_ts == r.data_ts)
      && values.eq existing.value r.value
      && same_fingerprint existing r
      && same_availability existing r

  unfoldable pub exists_in_offline : OfflineStore V → String → ℕ → FeatureResult V → Bool
  unfolding get is_duplicate
  exists_in_offline offline view view_version r =
      any (λ record_. is_duplicate record_.result r)
        (get r.entity (one_feature r.ref.name r.ref.version view view_version) offline)

  -- The loop, with `seen`. The accepted results keep their order.
  unfoldable pub partition_from :
      OfflineStore V
      → String
      → ℕ
      → List Signature
      → List (FeatureResult V)
      → List (FeatureResult V) × ℕ
  unfolding signature exists_in_offline
  partition_from offline view view_version seen [] = ([], 0)
  partition_from offline view view_version seen (r ∷ rs) =
      let skipped = partition_from offline view view_version seen rs in
      let kept = partition_from offline view view_version (signature r ∷ seen) rs in
      if any (eq_signature (signature r)) seen || exists_in_offline offline view view_version r
      then (skipped.0, suc skipped.1)
      else (r ∷ kept.0, kept.1)

  unfoldable pub partition_new_results :
      OfflineStore V → String → ℕ → List (FeatureResult V) → List (FeatureResult V) × ℕ
  unfolding partition_from
  partition_new_results offline view view_version results =
      partition_from offline view view_version [] results
