-- ===== src/Training/Tests.antt =====
-- Runs of fs_core/training.py on a small history.
use clearfeature.Prelude.{ℕ, ◌≡◌, refl, none, some, [], ◌∷◌, string_key, err, pos, negsuc}
use clearfeature.Domain.{aware, encode}
use clearfeature.Domain.KeyCodec.{encode_entity_key}
use clearfeature.Offline.{OfflineRecord, OfflineStore}
use clearfeature.Pit.{effective_available}
use clearfeature.Registry.Validator.{features_by_name}
use clearfeature.Training.{
  negative_gap, missing_feature, error, TrainingObservation, TrainingDataset, ok_cell, missing_cell,
  build_training_dataset,
}
use clearfeature.Samples.{income_at, risk_view}

abbrev row : ℕ → ℕ → OfflineRecord ℕ
row data_ts calc_ts = record {
  view = "risk";
  view_version = 2;
  result = income_at data_ts calc_ts none;
}

abbrev history : OfflineStore ℕ
history = row 3 4 ∷ row 5 9 ∷ row 4 4 ∷ row 12 13 ∷ []

abbrev seen_at : ℕ → TrainingObservation ℕ
seen_at t = record {
  entity = ("user_id", "7") ∷ ("name", "x") ∷ [];
  observation_ts = aware t;
  context = none;
}

-- At 8 the row of 5 is not yet available; at 2 there is nothing.
abbrev dataset : TrainingDataset ℕ ℕ
dataset = record {
  rows =
      record {
        entity = ("user_id", "7") ∷ ("name", "x") ∷ [];
        observation_ts = aware 8;
        context = none;
        features = ("income", some 3) ∷ [];
        feature_metadata = ("income", ok_cell (row 4 4)) ∷ [];
      }
      ∷ record {
        entity = ("user_id", "7") ∷ ("name", "x") ∷ [];
        observation_ts = aware 2;
        context = none;
        features = ("income", none) ∷ [];
        feature_metadata = ("income", missing_cell) ∷ [];
      }
      ∷ [];
  summary = record {
    rows = 2;
    features = 1;
    missing_values = 1;
    future_records_ignored = 5;
    safety_gap_seconds = 0;
  };
}

missing_refused :
    build_training_dataset history risk_view 2 ("income" ∷ []) (seen_at 2 ∷ []) error (pos 0)
    ≡ err (missing_feature "income")
unfolding build_training_dataset features_by_name encode encode_entity_key effective_available
missing_refused = refl

gap_refused :
    build_training_dataset history risk_view 2 [] (seen_at 2 ∷ []) error (negsuc 0)
    ≡ err negative_gap
unfolding build_training_dataset
gap_refused = refl
