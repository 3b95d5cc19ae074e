-- ===== src/Consistency/Tests.antt =====
-- Runs of fs_core/consistency.py on small stores.
use clearfeature.Prelude.{ℕ, ◌≡◌, refl, true, some, List, [], ◌∷◌, All, ◌==◌, ok}
use clearfeature.Domain.{encode}
use clearfeature.WriteGuard.{decide_write, guard_tuple}
use clearfeature.Online.{write}
use clearfeature.Online.Fresh.{Submission, write_all}
use clearfeature.Offline.{append}
use clearfeature.Registry.Validator.{features_by_name}
use clearfeature.Consistency.{
  consistent, FeatureConsistencyReport, check_online_offline_consistency,
}
use clearfeature.Consistency.Verdict.{
  append_all, IsInStep, check_online_offline_consistency-IsInStep,
}
use clearfeature.Samples.{user, income_at, risk_view}

abbrev call : ℕ → ℕ → Submission ℕ
call data_ts calc_ts = record {
  view = "risk";
  view_version = 2;
  result = income_at data_ts calc_ts (some "f");
}

-- Out of order.
abbrev calls : List (Submission ℕ)
calls = call 5 6 ∷ call 9 9 ∷ call 7 8 ∷ []

abbrev report : FeatureConsistencyReport ℕ
report = record {
  agrees = true;
  items =
      (
        "income",
        record {
          feature_name = "income";
          status = consistent;
          offline_value = some 3;
          online_value = some 3;
          offline_data_ts = some 9;
          online_data_ts = some 9;
          offline_feature_version = some 1;
          online_feature_version = some 1;
        },
      )
      ∷ [];
}

checked :
    check_online_offline_consistency ◌==◌
      (append_all calls [])
      (write_all calls [])
      risk_view
      2
      user
      ("income" ∷ [])
    ≡ ok report
unfolding check_online_offline_consistency append_all append write_all write decide_write
    guard_tuple encode features_by_name
checked = refl

check_online_offline_consistency-IsInStep_example : All (λ e. IsInStep e.1.status) report.items
check_online_offline_consistency-IsInStep_example =
    check_online_offline_consistency-IsInStep ◌==◌ calls risk_view 2 user ("income" ∷ []) report
      checked
