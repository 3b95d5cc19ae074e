-- ===== src/BatchStatus.antt =====
-- fs_core/stores/batch_status.py: the state of a batch job and of its chunks, and the in-memory
-- store of jobs. The clock is an argument. The lock of `set_chunk` makes it one step.
pub mod Progress
pub mod Status
mod Tests
use clearfeature.Prelude.{
  ℕ, suc, ◌+◌, String, Bool, true, false, ◌&&◌, ◌||◌, Option, none, some, List, [], ◌∷◌, map,
  length, all, any, ltb, ◌==◌, not, if◌then◌else◌, Dict, string_key, lookup, insert, Result, ok,
  ◌>>=◌,
}
use clearfeature.Domain.{DateTime, DomainError, require_aware, require_aware?}

-- The texts of `status`, of chunks and of jobs. `other` is any other text, such as the
-- `publish_failed` of a job.
pub data State : Type 0 where
  accepted running completed completed_with_errors failed : State
  other : String → State

-- `status in _TERMINAL_CHUNK`
unfoldable pub is_terminal : State → Bool
is_terminal completed = true
is_terminal completed_with_errors = true
is_terminal failed = true
is_terminal _ = false

abbrev pub is_accepted : State → Bool
is_accepted accepted = true
is_accepted _ = false

-- `status in ("accepted", "running")`
abbrev pub is_open : State → Bool
is_open accepted = true
is_open running = true
is_open _ = false

abbrev pub is_failed : State → Bool
is_failed failed = true
is_failed _ = false

-- `status in ("failed", "completed_with_errors")`
abbrev pub has_errors : State → Bool
has_errors failed = true
has_errors completed_with_errors = true
has_errors _ = false

-- `status in ("completed", "completed_with_errors")`
abbrev pub is_completed : State → Bool
is_completed completed = true
is_completed completed_with_errors = true
is_completed _ = false

pub record BatchChunkStatus : Type 0 where
  pub chunk_id : String
  pub chunk_index : ℕ
  pub status : State
  pub item_count : ℕ
  pub updated_at : ℕ
  pub ok_items : ℕ
  pub failed_items : ℕ
  pub first_errors : List String
  pub finished_at : Option ℕ

-- `BatchChunkStatus(...)` of raw times, with what `__post_init__` checks.
unfoldable pub batch_chunk_status :
    DateTime → Option DateTime → BatchChunkStatus → Result DomainError BatchChunkStatus
unfolding require_aware require_aware?
batch_chunk_status updated_at finished_at c = do
  updated ← require_aware updated_at "updated_at"
  finished ← require_aware? finished_at "finished_at"
  ok (record c { updated_at = updated; finished_at = finished })

-- `S` is the type of `error_summary`, which nothing here reads.
pub record BatchJobStatus (S : Type 0) : Type 0 where
  pub job_id : String
  pub status : State
  pub view : String
  pub view_version : ℕ
  pub created_at : ℕ
  pub updated_at : ℕ
  pub total_items : ℕ
  pub chunk_count : ℕ
  pub write_online : Bool
  pub requested_features : List String
  pub requested_feature_groups : List String
  pub chunks : Dict String BatchChunkStatus
  pub finished_at : Option ℕ
  pub error_summary : S
  pub manifest_id : Option String
  pub manifest_ids : List String
  pub online_refresh_mode : Option String

-- `_items`
abbrev pub BatchJobStatusStore : Type 0 → Type 0
BatchJobStatusStore S = Dict String (BatchJobStatus S)

-- `sum(1 for s in states if p(s))`
unfoldable pub count : (State → Bool) → List State → ℕ
count p [] = 0
count p (s ∷ ss) = if p s then suc (count p ss) else count p ss

-- `[c.status for c in chunks.values()]`
unfoldable pub states : Dict String BatchChunkStatus → List State
states [] = []
states ((_, c) ∷ rest) = c.status ∷ states rest

unfoldable pub sum_failed : Dict String BatchChunkStatus → ℕ
sum_failed [] = 0
sum_failed ((_, c) ∷ rest) = c.failed_items + sum_failed rest

unfoldable pub derive_status : List State → ℕ → State
derive_status ss chunk_count =
    if ltb (length ss) chunk_count || any is_open ss
    then (if not (length ss == 0) && all is_accepted ss && (length ss == chunk_count)
        then accepted
        else running)
    else if all is_failed ss
    then failed
    else if any has_errors ss
    then completed_with_errors
    else completed

-- The chunk that is there is finished, and the new state of it is not.
abbrev pub regresses : Option BatchChunkStatus → BatchChunkStatus → Bool
regresses none c = false
regresses (some existing) c = is_terminal existing.status && not (is_terminal c.status)

module _ {S : Type 0} where
  unfoldable pub completed_chunks : BatchJobStatus S → ℕ
  unfolding count states
  completed_chunks j = count is_completed (states j.chunks)

  unfoldable pub failed_chunks : BatchJobStatus S → ℕ
  unfolding count states
  failed_chunks j = count is_failed (states j.chunks)

  unfoldable pub failed_items : BatchJobStatus S → ℕ
  unfolding sum_failed
  failed_items j = sum_failed j.chunks

  unfoldable pub derive_job_status : BatchJobStatus S → State
  unfolding derive_status states
  derive_job_status j = derive_status (states j.chunks) j.chunk_count

  -- `dataclasses.replace(merged, status=..., finished_at=...)`
  unfoldable pub settle : ℕ → BatchJobStatus S → BatchJobStatus S
  unfolding derive_job_status is_terminal
  settle now merged =
      let status = derive_job_status merged in
      record merged { status = status; finished_at = if is_terminal status then some now else none }

  unfoldable pub merge_chunk : ℕ → BatchChunkStatus → BatchJobStatus S → BatchJobStatus S
  unfolding lookup insert is_terminal settle
  merge_chunk now c j =
      if regresses (lookup c.chunk_id j.chunks) c
      then j
      else settle now (record j { chunks = insert c.chunk_id c j.chunks; updated_at = now })

  unfoldable pub put : BatchJobStatus S → BatchJobStatusStore S → BatchJobStatusStore S
  unfolding insert
  put j s = insert j.job_id j s

  unfoldable pub get : String → BatchJobStatusStore S → Option (BatchJobStatus S)
  unfolding lookup
  get job_id s = lookup job_id s

  unfoldable pub set_chunk :
      String
      → ℕ
      → BatchChunkStatus
      → BatchJobStatusStore S
      → BatchJobStatusStore S × Option (BatchJobStatus S)
  unfolding lookup insert merge_chunk
  set_chunk job_id now c s = elim (lookup job_id s) [
    | none ↦ (s, none)
    | some existing ↦
        let merged = merge_chunk now c existing in (insert job_id merged s, some merged)
  ]
