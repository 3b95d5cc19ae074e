-- ===== src/Events/RoundTrips.antt =====
-- The JSON forms of the events of fs_core/events/models.py, together.
use clearfeature.Prelude.{◌≡◌, ok}
use clearfeature.Json.{Fields}
use clearfeature.Json.Times.{IsoFormat}
use clearfeature.Events.ComputeCompleted.{
  FeatureComputeCompleted, to_dict as completed_to_dict, from_dict as completed_from_dict,
  from_dict-to_dict as completed_back,
}
use clearfeature.Events.Updated.{
  FeatureUpdated, post_init, to_dict as updated_to_dict, from_dict as updated_from_dict,
  from_dict-to_dict as updated_back,
}
use clearfeature.Events.ScoreWrite.{
  ModelScoreWriteRequested, to_dict as scores_to_dict, from_dict as scores_from_dict,
  from_dict-to_dict as scores_back,
}
use clearfeature.Events.ChunkRequested.{
  BatchChunkRequested, to_dict as chunk_to_dict, from_dict as chunk_from_dict,
  from_dict-to_dict as chunk_back,
}
use clearfeature.Events.ChunkProcessed.{
  BatchChunkProcessed, to_dict as processed_to_dict, from_dict as processed_from_dict,
  from_dict-to_dict as processed_back,
}
use clearfeature.Events.DeadLetter.{
  DeadLetterEvent, to_dict as letter_to_dict, from_dict as letter_from_dict,
  from_dict-to_dict as letter_back,
}

module _ ⦃times : IsoFormat⦄ where
  -- A batch chunk, a processed chunk, a write of scores, a completion, an update that its checks
  -- accept and a dead letter that were written to JSON are each read back as they were.
  pub from_dict-to_dict_events :
      (chunk : BatchChunkRequested) (processed : BatchChunkProcessed)
      (scores : ModelScoreWriteRequested) (completed : FeatureComputeCompleted)
      (updated : FeatureUpdated) (letter : DeadLetterEvent) (j1 j2 j3 j4 j5 j6 : Fields)
      → chunk_to_dict chunk ≡ ok j1
      → processed_to_dict processed ≡ ok j2
      → scores_to_dict scores ≡ ok j3
      → completed_to_dict completed ≡ ok j4
      → post_init updated ≡ ok tt
      → updated_to_dict updated ≡ ok j5
      → letter_to_dict letter ≡ ok j6
      → (chunk_from_dict j1 ≡ ok chunk)
        × (processed_from_dict j2 ≡ ok processed)
        × (scores_from_dict j3 ≡ ok scores)
        × (completed_from_dict j4 ≡ ok completed)
        × (updated_from_dict j5 ≡ ok updated)
        × (letter_from_dict j6 ≡ ok letter)
  from_dict-to_dict_events chunk processed scores completed updated letter j1 j2 j3 j4 j5 j6 w1 w2
        w3 w4 checked w5 w6 =
      (
        chunk_back chunk j1 w1,
        processed_back processed j2 w2,
        scores_back scores j3 w3,
        completed_back completed j4 w4,
        updated_back updated j5 checked w5,
        letter_back letter j6 w6,
      )
