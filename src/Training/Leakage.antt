-- ===== src/Training/Leakage.antt =====
-- fs_core/training.py: every value of a dataset was known when it was observed.
use clearfeature.Prelude.{ℕ, String, ◌≡◌, ◌⊎◌, some, [], In, All, Dict, string_key, lookup, ok}
use clearfeature.Domain.{aware, EntityKey, from_mapping}
use clearfeature.Offline.{OfflineRecord, OfflineStore}
use clearfeature.Registry.{FeatureViewDef}
use clearfeature.Pit.Select.{Eligible}
use clearfeature.Pit.Store.{IsAsked}
use clearfeature.Training.{
  MissingPolicy, TrainingFeatureCell, TrainingDatasetRow, ok_cell, project_key, missing_cell,
}

module _ {V : Type 0} where
  -- A cell says that nothing was found, or it is of a row of the history, of the entity, the
  -- feature and the view, that was known at `t` with the gap `g`.
  abbrev pub IsKnown :
      OfflineStore V
      → FeatureViewDef
      → ℕ
      → EntityKey
      → ℕ
      → ℕ
      → Dict String ℕ
      → String
      → TrainingFeatureCell V
      → Type 0
  IsKnown offline view view_version key t g versions name cell =
      (cell ≡ missing_cell)
      ⊎ ((r : OfflineRecord V) × (cell ≡ ok_cell r)
          × In r offline
          × ((version : ℕ) × (lookup name versions ≡ some version)
              × IsAsked key name version view.name view_version r)
          × Eligible t g r)

  module _ (offline : OfflineStore V) (view : FeatureViewDef) (view_version : ℕ)
      (policy : MissingPolicy) (g : ℕ) (versions : Dict String ℕ) where
    module _ {C : Type 0} where
      -- Every cell of the row was known at the time of its observation, for its entity.
      pub record IsKnownRow (row : TrainingDatasetRow V C) : Type 0 where
        pub time : (t : ℕ) × (row.observation_ts ≡ aware t)
        pub parts : (p : Dict String String) × (project_key row.entity view.key_fields [] ≡ ok p)
        pub key : (k : EntityKey) × (from_mapping parts.0 (some view.key_fields) ≡ ok k)
        pub cells :
            All
              (λ e. IsKnown offline view view_version key.0 time.0 g versions e.0 e.1)
              row.feature_metadata
