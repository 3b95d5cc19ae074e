-- ===== src/FeatureStore/Rerun.antt =====
-- A run of fs_core/feature_store.py that is repeated.
use clearfeature.Prelude.{
  ℕ, ◌≡◌, refl, ◌∙◌, ap, Bool, true, false, List, [], length, ok, >>=-eq-ok, ok-injective,
}
use mathlib.Core.Path.{subst}
use clearfeature.Domain.{FeatureResult}
use clearfeature.Domain.WriteSet.{FeatureWriteSet}
use clearfeature.Dedup.{Values, partition_new_results}
use clearfeature.Dedup.Rerun.{IsComparable, partition_new_results_rerun}
use clearfeature.Offline.{OfflineStore, append_many}
use clearfeature.Online.{write_many}
use clearfeature.FeatureStore.{
  Parts, Stores, ComputeCall, ComputeOutcome, result_values, to_write, persist, compute_write_set,
  compute_and_store, disabled_all,
}

module _ {V : Type 0} where
  -- The outcome of a run that found only duplicates.
  abbrev pub all_duplicates : FeatureWriteSet V → ComputeOutcome V
  all_duplicates set = record {
    results = set.results;
    online_written = [];
    duplicates_skipped = length (result_values set.results);
    node_statuses = set.node_statuses;
  }

  persist-nothing :
      (write_online : Bool) (set : FeatureWriteSet V) (n : ℕ) (s : Stores V)
      → persist write_online set ([], n) s ≡ (
        s,
        record {
          results = set.results;
          online_written = [];
          duplicates_skipped = n;
          node_statuses = set.node_statuses;
        },
      )
  unfolding persist append_many write_many disabled_all
  persist-nothing true set n s = refl
  persist-nothing false set n s = refl

  persist-offline :
      (write_online : Bool) (set : FeatureWriteSet V) (new : List (FeatureResult V) × ℕ)
      (s : Stores V)
      → (persist write_online set new s).0.offline
        ≡ append_many set.view set.view_version new.0 s.offline
  unfolding persist
  persist-offline write_online set new s = refl

  persist_again :
      (values : Values V) (write_online : Bool) (set : FeatureWriteSet V) (s : Stores V)
      → IsComparable values (result_values set.results)
      → let s' = (persist write_online set (to_write values true set s.offline) s).0 in
        persist write_online set (to_write values true set s'.offline) s' ≡ (s', all_duplicates set)
  unfolding to_write
  persist_again values write_online set s comparable =
      let new =
        partition_new_results values s.offline set.view set.view_version
          (result_values set.results) in
      let s' = (persist write_online set new s).0 in
      let again : partition_new_results values s'.offline set.view set.view_version
            (result_values set.results)
          ≡ ([], length (result_values set.results)) =
        ap
          (λ (o : OfflineStore V).
            partition_new_results values o set.view set.view_version (result_values set.results))
          (persist-offline write_online set new s)
        ∙ partition_new_results_rerun values set.view set.view_version s.offline
            (result_values set.results) comparable in
      ap (λ (n : List (FeatureResult V) × ℕ). persist write_online set n s') again
      ∙ persist-nothing write_online set (length (result_values set.results)) s'

  -- The outcome of a run that found only duplicates of an earlier one.
  abbrev pub repeated : ComputeOutcome V → ComputeOutcome V
  repeated o = record {
    results = o.results;
    online_written = [];
    duplicates_skipped = length (result_values o.results);
    node_statuses = o.node_statuses;
  }

  persisted_again :
      (values : Values V) (write_online : Bool) (set : FeatureWriteSet V) (s : Stores V)
      (p : Stores V × ComputeOutcome V)
      → IsComparable values (result_values p.1.results)
      → persist write_online set (to_write values true set s.offline) s ≡ p
      → persist write_online set (to_write values true set p.0.offline) p.0 ≡ (p.0, repeated p.1)
  unfolding persist
  persisted_again values write_online set s p comparable e =
      subst
        (λ (q : Stores V × ComputeOutcome V).
          persist write_online set (to_write values true set q.0.offline) q.0 ≡ (q.0, repeated q.1))
        e (persist_again values write_online set s (rw (← e) at comparable))

module _ {V P : Type 0} (values : Values V) (parts : Parts V P) (write_online : Bool)
    (c : ComputeCall) where
  -- A computation that skips duplicates, with results whose values are equal where their JSON texts
  -- are, repeated right after it went through, leaves both stores as they are, writes nothing online, returns the same results and counts every one of them as a
  -- duplicate.
  pub compute_and_store_rerun :
      (s s' : Stores V) (o : ComputeOutcome V)
      → IsComparable values (result_values o.results)
      → compute_and_store values parts write_online true c s ≡ ok (s', o)
      → compute_and_store values parts write_online true c s' ≡ ok (s', repeated o)
  unfolding compute_and_store
  compute_and_store_rerun s s' o comparable done =
      let (set, made, last) = >>=-eq-ok (compute_write_set parts c) _ done in
      rw made
        (ap ok (persisted_again values write_online set s (s', o) comparable (ok-injective last)))
