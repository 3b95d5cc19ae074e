-- ===== src/BatchStatus/Tests.antt =====
-- Runs of fs_core/stores/batch_status.py on small inputs.
use clearfeature.Prelude.{ℕ, String, ◌≡◌, refl, true, none, some, List, [], ◌∷◌, string_key, lookup}
use clearfeature.BatchStatus.{
  State, accepted, running, completed, failed, completed_with_errors, is_terminal, BatchChunkStatus,
  BatchJobStatus, derive_status, derive_job_status, merge_chunk, completed_chunks, failed_chunks,
  set_chunk, put,
}
use clearfeature.BatchStatus.Progress.{
  merge_all, IsFinished, merge_all-IsFinished, IsSettled, merge_all-IsSettled,
  merge_chunk_idempotent,
}
use clearfeature.BatchStatus.Status.{StatusOf, derive_status-StatusOf}

abbrev chunk : String → State → BatchChunkStatus
chunk id status = record {
  chunk_id = id;
  chunk_index = 0;
  status = status;
  item_count = 5;
  updated_at = 1;
  ok_items = 5;
  failed_items = 0;
  first_errors = [];
  finished_at = none;
}

abbrev job : BatchJobStatus (Unit {0})
job = record {
  job_id = "j";
  status = accepted;
  view = "risk";
  view_version = 2;
  created_at = 1;
  updated_at = 1;
  total_items = 10;
  chunk_count = 2;
  write_online = true;
  requested_features = [];
  requested_feature_groups = [];
  chunks = ("a", chunk "a" accepted) ∷ ("b", chunk "b" accepted) ∷ [];
  finished_at = none;
  error_summary = tt;
  manifest_id = none;
  manifest_ids = [];
  online_refresh_mode = none;
}

abbrev a_done : BatchJobStatus (Unit {0})
a_done = record job {
  chunks = ("a", chunk "a" completed) ∷ ("b", chunk "b" accepted) ∷ [];
  status = running;
  updated_at = 3;
}

-- The chunk `b` fails, and then a late update of `a` is ignored.
abbrev late : List (ℕ × BatchChunkStatus)
late = (4, chunk "b" failed) ∷ (5, chunk "a" running) ∷ []

first_chunk : merge_chunk 3 (chunk "a" completed) job ≡ a_done
unfolding merge_chunk
first_chunk = refl

late_ignored : (merge_all late a_done).status ≡ completed_with_errors
unfolding merge_chunk
late_ignored = refl

counts :
    (completed_chunks (merge_all late a_done) ≡ 1) × (failed_chunks (merge_all late a_done) ≡ 1)
unfolding merge_chunk completed_chunks failed_chunks
counts = (refl, refl)

stored : (set_chunk "j" 3 (chunk "a" completed) (put job [])).1 ≡ some a_done
unfolding set_chunk put
stored = refl

missing_job : set_chunk "k" 3 (chunk "a" completed) (put job []) ≡ (put job [], none)
unfolding set_chunk put
missing_job = refl

a_done-IsFinished : IsFinished "a" a_done
unfolding lookup is_terminal
a_done-IsFinished = (chunk "a" completed, refl, refl)

a_done-IsSettled : IsSettled a_done
unfolding derive_job_status is_terminal
a_done-IsSettled = record { derived = refl; timed = refl }

merge_all-IsFinished_example : IsFinished "a" (merge_all late a_done)
merge_all-IsFinished_example = merge_all-IsFinished "a" late a_done a_done-IsFinished

merge_all-IsSettled_example : IsSettled (merge_all late a_done)
merge_all-IsSettled_example = merge_all-IsSettled late a_done a_done-IsSettled

merge_chunk_idempotent_example :
    ((merge_chunk 4 (chunk "a" completed) (merge_chunk 3 (chunk "a" completed) job)).chunks
      ≡ (merge_chunk 3 (chunk "a" completed) job).chunks)
    × ((merge_chunk 4 (chunk "a" completed) (merge_chunk 3 (chunk "a" completed) job)).status
        ≡ (merge_chunk 3 (chunk "a" completed) job).status)
merge_chunk_idempotent_example = merge_chunk_idempotent 3 4 (chunk "a" completed) job

derive_status-StatusOf_example :
    StatusOf (failed ∷ completed ∷ []) 2 (derive_status (failed ∷ completed ∷ []) 2)
derive_status-StatusOf_example = derive_status-StatusOf (failed ∷ completed ∷ []) 2
