-- ===== src/BatchStatus/Progress.antt =====
-- fs_core/stores/batch_status.py: what the updates of chunks do to a job.
use clearfeature.Prelude.{
  ℕ, String, ◌≡◌, refl, ◌∙◌, inl, inr, true, false, ◌&&◌, not, some, List, [], ◌∷◌, arith, is_some,
  Bool-cases, string_key, lookup, insert, lookup-insert_self, lookup-insert_ne, insert-insert,
  str_eq-cases, not-false,
}
use clearfeature.BatchStatus.{
  is_terminal, BatchChunkStatus, BatchJobStatus, derive_job_status, regresses, settle, merge_chunk,
}

module _ {S : Type 0} where
  -- The updates that a job gets, each with its time.
  abbrev pub merge_all : List (ℕ × BatchChunkStatus) → BatchJobStatus S → BatchJobStatus S
  merge_all [] j = j
  merge_all ((now, c) ∷ rest) j = merge_all rest (merge_chunk now c j)

  abbrev pub IsFinished : String → BatchJobStatus S → Type 0
  IsFinished id j =
      (c : BatchChunkStatus) × (lookup id j.chunks ≡ some c) × (is_terminal c.status ≡ true)

  -- The two outcomes of an update.
  merge_chunk-ignored :
      (now : ℕ) (c : BatchChunkStatus) (j : BatchJobStatus S)
      → regresses (lookup c.chunk_id j.chunks) c ≡ true
      → merge_chunk now c j ≡ j
  unfolding merge_chunk
  merge_chunk-ignored now c j h = rw (h, merge_chunk) refl

  merge_chunk-merged :
      (now : ℕ) (c : BatchChunkStatus) (j : BatchJobStatus S)
      → regresses (lookup c.chunk_id j.chunks) c ≡ false
      → merge_chunk now c j
        ≡ settle now (record j { chunks = insert c.chunk_id c j.chunks; updated_at = now })
  unfolding merge_chunk
  merge_chunk-merged now c j h = rw (h, merge_chunk) refl

  merge_chunk-IsFinished :
      (id : String) (now : ℕ) (c : BatchChunkStatus) (j : BatchJobStatus S)
      → IsFinished id j
      → IsFinished id (merge_chunk now c j)
  unfolding settle
  merge_chunk-IsFinished id now c j (was, held, done) =
      elim (Bool-cases (regresses (lookup c.chunk_id j.chunks) c)) [
        | inl ignored ↦ rw (merge_chunk-ignored now c j ignored) (was, held, done)
        | inr merged ↦ rw (merge_chunk-merged now c j merged) (elim (str_eq-cases c.chunk_id id) [
          | inl (_, e) ↦
              let forward : (is_terminal was.status && not (is_terminal c.status)) ≡ false =
                rw (e, held) at merged in
              (
                c,
                rw (← e) (lookup-insert_self c.chunk_id c j.chunks),
                not-false _ (rw done at forward),
              )
          | inr (_, ne) ↦ (was, lookup-insert_ne c.chunk_id id c j.chunks ne ∙ held, done)
        ])
      ]

  -- A chunk that is finished stays finished, whatever updates the job gets after that.
  pub merge_all-IsFinished :
      (id : String) (updates : List (ℕ × BatchChunkStatus)) (j : BatchJobStatus S)
      → IsFinished id j
      → IsFinished id (merge_all updates j)
  merge_all-IsFinished id [] j h = h
  merge_all-IsFinished id ((now, c) ∷ rest) j h =
      merge_all-IsFinished id rest _ (merge_chunk-IsFinished id now c j h)

  -- The status is the one that the chunks give, and a finishing time stands exactly under a
  -- finished status.
  pub record IsSettled (j : BatchJobStatus S) : Type 0 where
    pub derived : j.status ≡ derive_job_status j
    pub timed : is_some j.finished_at ≡ is_terminal j.status

  settle-IsSettled : (now : ℕ) (j : BatchJobStatus S) → IsSettled (settle now j)
  unfolding settle derive_job_status
  settle-IsSettled now j = record {
    derived = refl;
    timed = elim (Bool-cases (is_terminal (derive_job_status j))) [
      | inl e ↦ rw (e, settle) refl
      | inr e ↦ rw (e, settle) refl
    ];
  }

  merge_chunk-IsSettled :
      (now : ℕ) (c : BatchChunkStatus) (j : BatchJobStatus S)
      → IsSettled j
      → IsSettled (merge_chunk now c j)
  merge_chunk-IsSettled now c j h = elim (Bool-cases (regresses (lookup c.chunk_id j.chunks) c)) [
    | inl ignored ↦ rw (merge_chunk-ignored now c j ignored) h
    | inr merged ↦ rw (merge_chunk-merged now c j merged) (settle-IsSettled now _)
  ]

  -- Whatever updates a job gets, its status stays the one that its chunks give, and it has a
  -- finishing time exactly while it is finished.
  pub merge_all-IsSettled :
      (updates : List (ℕ × BatchChunkStatus)) (j : BatchJobStatus S)
      → IsSettled j
      → IsSettled (merge_all updates j)
  merge_all-IsSettled [] j h = h
  merge_all-IsSettled ((now, c) ∷ rest) j h =
      merge_all-IsSettled rest _ (merge_chunk-IsSettled now c j h)

  -- A chunk that is delivered twice is counted once: the second update leaves the chunks and the
  -- status as the first left them.
  pub merge_chunk_idempotent :
      (now later : ℕ) (c : BatchChunkStatus) (j : BatchJobStatus S)
      → ((merge_chunk later c (merge_chunk now c j)).chunks ≡ (merge_chunk now c j).chunks)
        × ((merge_chunk later c (merge_chunk now c j)).status ≡ (merge_chunk now c j).status)
  unfolding settle derive_job_status
  merge_chunk_idempotent now later c j =
      elim (Bool-cases (regresses (lookup c.chunk_id j.chunks) c)) [
        | inl ignored ↦
            rw (merge_chunk-ignored now c j ignored, merge_chunk-ignored later c j ignored)
              (refl, refl)
        | inr merged ↦
            let again : regresses (lookup c.chunk_id (insert c.chunk_id c j.chunks)) c ≡ false =
              rw (lookup-insert_self c.chunk_id c j.chunks) (ground arith) in
            rw (merge_chunk-merged now c j merged) (
              rw
                (merge_chunk-merged later c
                  (settle now
                    (record j { chunks = insert c.chunk_id c j.chunks; updated_at = now }))
                  again)
                (
                  insert-insert c.chunk_id c c j.chunks,
                  rw (insert-insert c.chunk_id c c j.chunks) refl,
                ))
      ]
