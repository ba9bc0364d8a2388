-- ===== src/Scheduler/Updates.antt =====
-- internal/runtime/scheduler_work_state.go: the counts of planned work over its assignment and completion.
use timich_agent.Base.{ℕ, ◌+◌, ◌≤◌, ◌≡◌, arith}
use timich_agent.Scheduler.{
  WorkState, Cache, Phase, metadata, thumbnails, embeddings, content_verification, other_phase,
  take_phase, give_phase, assign, release, LocalMetadataBatchResult, LocalThumbnailBatchResult,
  complete_local_metadata, complete_local_thumbnail,
}

-- The work that a phase has queued.
abbrev pub queued : Phase → WorkState → ℕ
queued metadata s = s.metadata_queued
queued thumbnails s = s.thumbnail_queued
queued embeddings s = s.semantic_mixed_embedding_queued
queued content_verification s = 0
queued other_phase s = 0

-- Work that is assigned, within what its phase has queued, and then released leaves the queues of
-- metadata, thumbnails and embeddings as they were.
pub release-assign :
    (phase : Phase) (planned : ℕ) (c : Cache) (other : Phase)
    → planned ≤ queued phase c.state
    → queued other (release phase planned (assign phase planned c)).state ≡ queued other c.state
unfolding release assign take_phase give_phase
release-assign phase planned c other h = ground arith

-- A metadata batch that was assigned within the queue, and that processes no more than was planned,
-- takes exactly the processed jobs from the queue, and adds the assets it registered to the thumbnails.
pub complete_local_metadata-assign :
    (c : Cache) (planned : ℕ) (result : LocalMetadataBatchResult)
    → planned ≤ c.metadata_queued
    → result.processed_jobs ≤ planned
    → let done = complete_local_metadata result planned (assign metadata planned c) in
      (done.metadata_queued + result.processed_jobs ≡ c.metadata_queued)
      × (done.thumbnail_queued ≡ c.thumbnail_queued + result.registered_assets)
      × (done.semantic_mixed_embedding_queued ≡ c.semantic_mixed_embedding_queued)
unfolding complete_local_metadata assign take_phase
complete_local_metadata-assign c planned result h g = ground arith

-- A thumbnail batch that was assigned within the queue, and that processes no more than was planned,
-- takes exactly the processed jobs from the queue, and leaves the other queues alone.
pub complete_local_thumbnail-assign :
    (c : Cache) (planned : ℕ) (result : LocalThumbnailBatchResult)
    → planned ≤ c.thumbnail_queued
    → result.processed_jobs ≤ planned
    → let done = complete_local_thumbnail result planned (assign thumbnails planned c) in
      (done.thumbnail_queued + result.processed_jobs ≡ c.thumbnail_queued)
      × (done.metadata_queued ≡ c.metadata_queued)
      × (done.semantic_mixed_embedding_queued ≡ c.semantic_mixed_embedding_queued)
unfolding complete_local_thumbnail assign take_phase
complete_local_thumbnail-assign c planned result h g = ground arith
