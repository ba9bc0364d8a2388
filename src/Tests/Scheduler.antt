-- ===== src/Tests/Scheduler.antt =====
-- Runs of the scheduler's work state.
use timich_agent.Base.{
  ◌+◌, ◌≡◌, refl, ◌≤◌, ◌<◌, ◌⊎◌, true, false, some, none, List, [], ◌∷◌, codes, arith,
  if◌then◌else◌,
}
use timich_agent.Scheduler.{
  WorkState, Cache, Schedule, empty, metadata, assign, LocalMetadataBatchResult,
  LocalThumbnailBatchResult, mark_dirty,
}
use timich_agent.Scheduler.Snapshot.{
  Update, assigns, marks_dirty, update, updates, begin_snapshot, finish_snapshot, recomputes_from,
  finish_snapshot-updates, interrupted_snapshot_recomputes,
}
use timich_agent.Scheduler.Semantic.{
  BackfillStatus, publish_queued, embedding_queued, partial_publish_queued_threshold,
  partial_publish_queued_target, partial_publish_wait_target, priority_publish_due,
  partial_publish_wait_target_bounds,
}

abbrev blank : WorkState
blank = record {
  config_hash = codes "c";
  updated_at = 1;
  dirty = false;
  metadata_queued = 0;
  metadata_settling = 0;
  metadata_next_eligible_at = none;
  thumbnail_queued = 0;
  content_verification_ready = false;
  semantic_scheduled = false;
  semantic_runtime_retry = false;
  semantic_priority_publish_ready = false;
  semantic_publish_ready = false;
  semantic_embedding_ready = false;
  semantic_embedding_batch_size = 0;
  semantic_mixed_embedding_queued = 0;
  semantic_mixed_embedding_hint = 0;
  semantic_mixed_embedding_batch = 0;
  semantic_eligible_vectors = 0;
  semantic_completed_vectors = 0;
  semantic_failed_vectors = 0;
  semantic_indexed_vectors = 0;
  semantic_pending_index_jobs = 0;
  semantic_failed_index_jobs = 0;
  semantic_eligible_index_jobs = 0;
  semantic_waiting_queued_target = 0;
  semantic_next_eligible_at = none;
  semantic_selected_model_id = [];
  semantic_selected_vector_space_id = [];
}

abbrev cache : Cache
cache = record { state = record blank { metadata_queued = 9; thumbnail_queued = 4 }; seq = 3 }

abbrev batch : LocalMetadataBatchResult
batch = record {
  processed_jobs = 4;
  completed_jobs = 3;
  failed_jobs = 1;
  deferred_jobs = 0;
  registered_assets = 3;
  settling_jobs = 0;
}

abbrev thumbnail_batch : LocalThumbnailBatchResult
thumbnail_batch = record {
  processed_jobs = 2;
  completed_jobs = 2;
  failed_jobs = 0;
  deferred_jobs = 0;
  generated_assets = 2;
  generated_image_assets = 1;
  resettled_assets = 0;
}

abbrev meanwhile : List Update
meanwhile = assigns metadata 2 ∷ marks_dirty ∷ []

finish_snapshot-updates_example :
    let during = updates cache meanwhile in
    let (after, answer) = finish_snapshot during 3 blank in
    ((during ≡ cache) × (after.state ≡ blank) × (answer ≡ some blank))
    ⊎ ((3 < during.seq)
        × (after ≡ record during { state = record during.state { dirty = true } })
        × (answer ≡ (if empty during.state then none else some after.state)))
finish_snapshot-updates_example = finish_snapshot-updates cache meanwhile blank

abbrev schedule : Schedule
schedule = record { interval = 60; batch_size = 8; workers = 1; target_completed_vectors = 0 }

moved_on : 3 < (updates cache meanwhile).seq
unfolding updates update assign mark_dirty
moved_on = omega arith

interrupted_snapshot_recomputes_example :
    let after = (finish_snapshot (updates cache meanwhile) 3 blank).0 in
    begin_snapshot after 5 (codes "c") schedule true ≡ recomputes_from after.seq
interrupted_snapshot_recomputes_example =
    interrupted_snapshot_recomputes cache meanwhile blank 5 (codes "c") schedule true moved_on

abbrev backfill : BackfillStatus
backfill = record {
  eligible_asset_count = 120;
  completed_vector_count = 104;
  failed_vector_count = 0;
  indexed_vector_count = 101;
  pending_index_job_count = 0;
  failed_index_job_count = 0;
  eligible_index_job_count = 1;
  eligible_now_vector_count = 6;
  next_eligible_at = none;
}

waits_for_nine :
    partial_publish_wait_target 101 (publish_queued backfill) (embedding_queued backfill) 0 ≡ some 9
unfolding partial_publish_wait_target partial_publish_queued_target partial_publish_queued_threshold
    publish_queued embedding_queued
waits_for_nine = refl

partial_publish_wait_target_bounds_example :
    (publish_queued backfill < 9)
    × (9 ≤ publish_queued backfill + embedding_queued backfill)
    × (9 ≤ partial_publish_queued_threshold 101)
    × (priority_publish_due backfill ≡ false)
partial_publish_wait_target_bounds_example =
    partial_publish_wait_target_bounds backfill 9 waits_for_nine
