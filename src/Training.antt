-- ===== src/Training.antt =====
-- fs_core/training.py: the point-in-time training dataset. Reading only: the offline history is an
-- argument.
pub mod Leakage
mod Tests
use clearfeature.Prelude.{
  ℕ, suc, ◌+◌, ◌*◌, String, Bool, true, false, Option, none, some, List, [], ◌∷◌, length, Dict,
  string_key, lookup, insert, Result, ok, err, ◌>>=◌, ◌>>◌, reject_if, ℤ, pos, negsuc,
}
use Prim.Native.Nat.{◌/◌}
use clearfeature.Domain.{DateTime, naive, aware, EntityKey, from_mapping}
use clearfeature.Domain.KeyCodec.{KeyCodecError}
use clearfeature.Offline.{OfflineRecord, OfflineStore, get, one_feature}
use clearfeature.Pit.{PitError, select_pit}
use clearfeature.Registry.{FeatureDef, FeatureViewDef}
use clearfeature.Registry.Validator.{features_by_name}

pub data MissingPolicy : Type 0 where
  keep_null error : MissingPolicy
  unknown : String → MissingPolicy

pub data TrainingError : Type 0 where
  unknown_missing_policy : String → TrainingError
  negative_gap observation_not_aware : TrainingError
  unknown_feature missing_key_field missing_feature : String → TrainingError
  bad_key : KeyCodecError → TrainingError
  pit : PitError → TrainingError

pub data CellStatus : Type 0 where
  okay missing : CellStatus

-- `C` is the type of the contexts, which are only passed on.
pub record TrainingObservation (C : Type 0) : Type 0 where
  pub entity : Dict String String
  pub observation_ts : DateTime
  pub context : Option C

pub record TrainingFeatureCell (V : Type 0) : Type 0 where
  pub status : CellStatus
  pub value : Option V
  pub feature_version : Option ℕ
  pub data_ts : Option ℕ

pub record TrainingDatasetRow (V C : Type 0) : Type 0 where
  pub entity : Dict String String
  pub observation_ts : DateTime
  pub context : Option C
  pub features : Dict String (Option V)
  pub feature_metadata : Dict String (TrainingFeatureCell V)

pub record Summary : Type 0 where
  pub rows : ℕ
  pub features : ℕ
  pub missing_values : ℕ
  pub future_records_ignored : ℕ
  pub safety_gap_seconds : ℕ

pub record TrainingDataset (V C : Type 0) : Type 0 where
  pub rows : List (TrainingDatasetRow V C)
  pub summary : Summary

-- The two counters of the loops.
pub record Counts : Type 0 where
  pub missing_values : ℕ
  pub future_records_ignored : ℕ

abbrev pub raised : {E A : Type 0} → (E → TrainingError) → Result E A → Result TrainingError A
raised wrap (err e) = err (wrap e)
raised wrap (ok a) = ok a

unfoldable pub versions_of :
    Dict String FeatureDef → List String → Dict String ℕ → Result TrainingError (Dict String ℕ)
unfolding lookup insert
versions_of by_name [] versions = ok versions
versions_of by_name (name ∷ names) versions = elim (lookup name by_name) [
  | none ↦ err (unknown_feature name)
  | some f ↦ versions_of by_name names (insert name f.feature_version versions)
]

-- `{field: observation.entity[field] for field in view.key_fields}`
unfoldable pub project_key :
    Dict String String
    → List String
    → Dict String String
    → Result TrainingError (Dict String String)
unfolding lookup insert
project_key entity [] acc = ok acc
project_key entity (field ∷ fields) acc = elim (lookup field entity) [
  | none ↦ err (missing_key_field field)
  | some value ↦ project_key entity fields (insert field value acc)
]

unfoldable pub check_policy : MissingPolicy → Result TrainingError (Unit {0})
check_policy (unknown text) = err (unknown_missing_policy text)
check_policy keep_null = ok tt
check_policy error = ok tt

-- `safety_gap < timedelta(0)`
unfoldable pub check_gap : ℤ → Result TrainingError ℕ
check_gap (negsuc _) = err negative_gap
check_gap (pos gap) = ok gap

abbrev pub observed_at : DateTime → Result TrainingError ℕ
observed_at (naive _) = err observation_not_aware
observed_at (aware t) = ok t

module _ {V : Type 0} where
  abbrev pub ok_cell : OfflineRecord V → TrainingFeatureCell V
  ok_cell r = record {
    status = okay;
    value = some r.result.value;
    feature_version = some r.result.ref.version;
    data_ts = some r.result.data_ts;
  }

  abbrev pub missing_cell : TrainingFeatureCell V
  missing_cell = record { status = missing; value = none; feature_version = none; data_ts = none }

  -- The cell of one feature, of what `select_pit` returned.
  unfoldable pub cell_of :
      MissingPolicy
      → String
      → Option (OfflineRecord V)
      → ℕ
      → Counts
      → Result TrainingError (TrainingFeatureCell V × Counts)
  cell_of error name none ignored n = err (missing_feature name)
  cell_of policy name none ignored n = ok (
    missing_cell,
    record {
      missing_values = suc n.missing_values;
      future_records_ignored = n.future_records_ignored + ignored;
    },
  )
  cell_of policy name (some r) ignored n =
      ok (ok_cell r, record n { future_records_ignored = n.future_records_ignored + ignored })

  -- The inner loop. The values of `features` are those of the cells.
  unfoldable pub cells_of :
      OfflineStore V
      → FeatureViewDef
      → ℕ
      → MissingPolicy
      → ℕ
      → EntityKey
      → ℕ
      → Dict String ℕ
      → List String
      → Dict String (TrainingFeatureCell V)
      → Counts
      → Result TrainingError (Dict String (TrainingFeatureCell V) × Counts)
  unfolding get select_pit lookup insert cell_of
  cells_of offline view view_version policy gap key t versions [] cells n = ok (cells, n)
  cells_of offline view view_version policy gap key t versions (name ∷ names) cells n =
      elim (lookup name versions) [
        | none ↦ err (unknown_feature name)
        | some version ↦ do
          (selected, ignored) ← raised pit (
              select_pit (get key (one_feature name version view.name view_version) offline)
                (aware t) (pos gap))
          (cell, n') ← cell_of policy name selected ignored n
          cells_of offline view view_version policy gap key t versions names
              (insert name cell cells) n'
      ]

  -- `features[name]` beside `metadata[name]`
  unfoldable pub values_of : Dict String (TrainingFeatureCell V) → Dict String (Option V)
  values_of [] = []
  values_of ((name, cell) ∷ cells) = (name, cell.value) ∷ values_of cells

  module _ {C : Type 0} where
    unfoldable pub row_of :
        OfflineStore V
        → FeatureViewDef
        → ℕ
        → MissingPolicy
        → ℕ
        → Dict String ℕ
        → List String
        → TrainingObservation C
        → Counts
        → Result TrainingError (TrainingDatasetRow V C × Counts)
    unfolding project_key from_mapping cells_of values_of
    row_of offline view view_version policy gap versions names o n = do
      t ← observed_at o.observation_ts
      parts ← project_key o.entity view.key_fields []
      key ← raised bad_key (from_mapping parts (some view.key_fields))
      (cells, n') ← cells_of offline view view_version policy gap key t versions names [] n
      ok (
        record {
          entity = o.entity;
          observation_ts = o.observation_ts;
          context = o.context;
          features = values_of cells;
          feature_metadata = cells;
        },
        n',
      )

    unfoldable pub rows_of :
        OfflineStore V
        → FeatureViewDef
        → ℕ
        → MissingPolicy
        → ℕ
        → Dict String ℕ
        → List String
        → List (TrainingObservation C)
        → Counts
        → Result TrainingError (List (TrainingDatasetRow V C) × Counts)
    unfolding row_of
    rows_of offline view view_version policy gap versions names [] n = ok ([], n)
    rows_of offline view view_version policy gap versions names (o ∷ os) n = do
      (row, n') ← row_of offline view view_version policy gap versions names o n
      (rows, n'') ← rows_of offline view view_version policy gap versions names os n'
      ok (row ∷ rows, n'')

    unfoldable pub build_training_dataset :
        OfflineStore V
        → FeatureViewDef
        → ℕ
        → List String
        → List (TrainingObservation C)
        → MissingPolicy
        → ℤ
        → Result TrainingError (TrainingDataset V C)
    unfolding check_policy check_gap versions_of features_by_name rows_of
    build_training_dataset offline view view_version names observations policy safety_gap = do
      check_policy policy
      gap ← check_gap safety_gap
      versions ← versions_of (features_by_name view.features) names []
      (rows, n) ←
          rows_of offline view view_version policy gap versions names observations
            (record { missing_values = 0; future_records_ignored = 0 })
      ok (record {
        rows = rows;
        summary = record {
          rows = length rows;
          features = length names;
          missing_values = n.missing_values;
          future_records_ignored = n.future_records_ignored;
          safety_gap_seconds = gap / 1000000;
        };
      })
