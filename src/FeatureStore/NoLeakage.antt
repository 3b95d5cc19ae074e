-- ===== src/FeatureStore/NoLeakage.antt =====
-- What `compute_dependent_from_offline` of fs_core/feature_store.py uses of the offline history.
use clearfeature.Prelude.{ℕ, ◌≤◌, String, ◌≡◌, some, map, In, All, pos, Dict, string_key, ok}
use clearfeature.Domain.{FeatureResult}
use clearfeature.Offline.{OfflineStore}
use clearfeature.Registry.{FeatureDef, FeatureViewDef}
use clearfeature.Registry.Views.{find_view_in}
use clearfeature.Registry.Validator.{features_by_name}
use clearfeature.Compute.Context.{FeatureComputation, Context, Udf, get_udf}
use clearfeature.Compute.Resolve.{find_view_in as view_of}
use clearfeature.Compute.Bounds.{Bounds}
use clearfeature.FeatureStore.{Parts}
use clearfeature.FeatureStore.Recompute.{DependentCall}
use clearfeature.FeatureStore.Prefilled.{IsKnownInput}

module _ {V P : Type 0} where
  -- The result is what the registered UDF makes of values of known rows, one for each name of the
  -- dependencies and no others, with times that fit these rows.
  pub record IsRecomputed (parts : Parts V P) (c : DependentCall) (g : ℕ) (view : FeatureViewDef)
      (feature : FeatureDef) (offline : OfflineStore V) (result : FeatureResult V) : Type 0 where
    pub sources : Dict String P
    pub used : Dict String (FeatureComputation V)
    pub udf : Udf V P
    pub registered : get_udf parts.udfs feature.udf_name ≡ ok udf
    pub valued : udf sources (map (λ p. (p.0, p.1.value)) used) ≡ ok result.value
    pub complete : All (λ d. (k : FeatureComputation V) × In (d.feature, k) used) feature.deps
    pub known :
        (n : String) (k : FeatureComputation V)
        → In (n, k) used
        → (i : IsKnownInput c g (features_by_name view.features) offline feature.deps n k)
          × (result.data_ts ≤ i.row.result.data_ts)
          × ((a : ℕ)
              → result.available_at ≡ some a
              → (b : ℕ) × (i.row.result.available_at ≡ some b) × (b ≤ a))

  module _ (parts : Parts V P) (c : DependentCall) (g : ℕ) (view : FeatureViewDef)
      (feature : FeatureDef) (offline : OfflineStore V) (gap : c.safety_gap ≡ pos g)
      (in_range : g ≤ c.calc_ts) where
    abbrev by_name : Dict String FeatureDef
    by_name = features_by_name view.features
