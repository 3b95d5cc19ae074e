-- ===== src/Consistency.antt =====
-- fs_core/consistency.py: does the online value of a feature agree with the latest offline one?
-- Reading only: the stores are arguments.
pub mod Verdict
mod Tests
use clearfeature.Prelude.{
  ℕ, String, Bool, true, false, not, Option, none, some, List, [], ◌∷◌, ltb, leb, all,
  if◌then◌else◌, Dict, string_key, lookup, insert, Result, ok, err, ◌>>=◌,
}
use clearfeature.Domain.{EntityKey, FeatureResult}
use clearfeature.Offline.{OfflineRecord, OfflineStore, one_feature}
use clearfeature.Offline
use clearfeature.Online.{OnlineStore}
use clearfeature.Online
use clearfeature.Registry.{FeatureDef, FeatureViewDef}
use clearfeature.Registry.Validator.{features_by_name}

pub data ConsistencyStatus : Type 0 where
  consistent missing_online missing_offline missing_both : ConsistencyStatus
  stale_online online_newer_than_offline value_mismatch : ConsistencyStatus

abbrev pub is_consistent : ConsistencyStatus → Bool
is_consistent consistent = true
is_consistent _ = false

pub record FeatureConsistencyItem (V : Type 0) : Type 0 where
  pub feature_name : String
  pub status : ConsistencyStatus
  pub offline_value : Option V
  pub online_value : Option V
  pub offline_data_ts : Option ℕ
  pub online_data_ts : Option ℕ
  pub offline_feature_version : Option ℕ
  pub online_feature_version : Option ℕ

-- `agrees` is `status == "ok"` of the report; the other text is "inconsistent".
pub record FeatureConsistencyReport (V : Type 0) : Type 0 where
  pub agrees : Bool
  pub items : Dict String (FeatureConsistencyItem V)

pub data ConsistencyError : Type 0 where
  unknown_feature : String → ConsistencyError

module _ {V : Type 0} where
  latest_from : Option (OfflineRecord V) → List (OfflineRecord V) → Option (OfflineRecord V)
  latest_from latest [] = latest
  latest_from none (r ∷ rs) = latest_from (some r) rs
  latest_from (some l) (r ∷ rs) =
      latest_from (if leb l.result.data_ts r.result.data_ts then some r else some l) rs

  unfoldable pub latest_offline : List (OfflineRecord V) → Option (OfflineRecord V)
  unfolding latest_from
  latest_offline records = latest_from none records

  unfoldable pub of_record :
      {A : Type 0} → (FeatureResult V → A) → Option (OfflineRecord V) → Option A
  of_record field none = none
  of_record field (some r) = some (field r.result)

  unfoldable pub of_result :
      {A : Type 0} → (FeatureResult V → A) → Option (FeatureResult V) → Option A
  of_result field none = none
  of_result field (some o) = some (field o)

-- `eq_value` is Python's `==` on the values of features.
module _ {V : Type 0} (eq_value : V → V → Bool) where
  unfoldable pub status_of : Option (OfflineRecord V) → Option (FeatureResult V) → ConsistencyStatus
  status_of none none = missing_both
  status_of (some r) none = missing_online
  status_of none (some o) = missing_offline
  status_of (some r) (some o) =
      if ltb o.data_ts r.result.data_ts
      then stale_online
      else if ltb r.result.data_ts o.data_ts
      then online_newer_than_offline
      else if not (eq_value r.result.value o.value)
      then value_mismatch
      else consistent

  unfoldable pub classify :
      String → Option (OfflineRecord V) → Option (FeatureResult V) → FeatureConsistencyItem V
  unfolding status_of of_record of_result
  classify name latest online_result = record {
    feature_name = name;
    status = status_of latest online_result;
    offline_value = of_record (λ r. r.value) latest;
    online_value = of_result (λ r. r.value) online_result;
    offline_data_ts = of_record (λ r. r.data_ts) latest;
    online_data_ts = of_result (λ r. r.data_ts) online_result;
    offline_feature_version = of_record (λ r. r.ref.version) latest;
    online_feature_version = of_result (λ r. r.ref.version) online_result;
  }

  -- The item of one feature of the view.
  unfoldable pub check_feature :
      OfflineStore V
      → OnlineStore V
      → FeatureViewDef
      → ℕ
      → EntityKey
      → String
      → FeatureDef
      → FeatureConsistencyItem V
  unfolding Offline.get Online.get latest_offline classify
  check_feature offline online view view_version entity name f =
      classify name
        (latest_offline
          (Offline.get entity (one_feature name f.feature_version view.name view_version) offline))
        (Online.get view.name view_version entity name f.feature_version online)

  unfoldable pub check_names :
      OfflineStore V
      → OnlineStore V
      → FeatureViewDef
      → ℕ
      → EntityKey
      → List String
      → Dict String (FeatureConsistencyItem V)
      → Result ConsistencyError (Dict String (FeatureConsistencyItem V))
  unfolding lookup insert check_feature features_by_name
  check_names offline online view view_version entity [] items = ok items
  check_names offline online view view_version entity (name ∷ names) items =
      elim (lookup name (features_by_name view.features)) [
        | none ↦ err (unknown_feature name)
        | some f ↦
            check_names offline online view view_version entity names
              (insert name (check_feature offline online view view_version entity name f) items)
      ]

  unfoldable pub check_online_offline_consistency :
      OfflineStore V
      → OnlineStore V
      → FeatureViewDef
      → ℕ
      → EntityKey
      → List String
      → Result ConsistencyError (FeatureConsistencyReport V)
  unfolding check_names
  check_online_offline_consistency offline online view view_version entity feature_names = do
    items ← check_names offline online view view_version entity feature_names []
    ok (record { agrees = all (λ i. is_consistent i.1.status) items; items = items })
