-- ===== src/Scheduler/Semantic.antt =====
-- internal/runtime/scheduler_work_state.go and semantic_candidate_backfill.go: the counts that come from
-- the semantic index, and the publication threshold of a fifth of the index.
use timich_agent.Base.{
  ℕ, ◌+◌, ◌-◌, ◌/◌, ◌%◌, ◌*◌, ◌≤◌, ◌<◌, ◌≡◌, max, Bool, false, not, ◌&&◌, ◌||◌, Option, none, some,
  ltb, leb, ◌==◌, if◌then◌else◌, min, Text, arith,
}
use timich_agent.Scheduler.{Schedule, WorkState, Cache, change}

pub record BackfillStatus : Type 0 where
  pub eligible_asset_count : ℕ
  pub completed_vector_count : ℕ
  pub failed_vector_count : ℕ
  pub indexed_vector_count : ℕ
  pub pending_index_job_count : ℕ
  pub failed_index_job_count : ℕ
  pub eligible_index_job_count : ℕ
  pub eligible_now_vector_count : ℕ
  pub next_eligible_at : Option ℕ

unfoldable pub publish_queued : BackfillStatus → ℕ
publish_queued status = status.completed_vector_count - status.indexed_vector_count

unfoldable pub embedding_queued : BackfillStatus → ℕ
embedding_queued status = status.eligible_now_vector_count

abbrev pub partial_publish_divisor : ℕ
partial_publish_divisor = 5

unfoldable pub partial_publish_queued_threshold : ℕ → ℕ
partial_publish_queued_threshold indexed =
    if indexed == 0
    then 1
    else max
        (if not (indexed % partial_publish_divisor == 0)
          then indexed / partial_publish_divisor + 1
          else indexed / partial_publish_divisor)
        1

unfoldable pub partial_publish_queued_target : ℕ → ℕ → ℕ → ℕ
unfolding partial_publish_queued_threshold
partial_publish_queued_target indexed queued embedding =
    if ltb 0 (queued + embedding)
      && ltb (queued + embedding) (partial_publish_queued_threshold indexed)
    then queued + embedding
    else partial_publish_queued_threshold indexed

unfoldable pub partial_publish_wait_target : ℕ → ℕ → ℕ → ℕ → Option ℕ
unfolding partial_publish_queued_target
partial_publish_wait_target indexed queued embedding failed_jobs =
    if queued == 0 || (embedding == 0 || ltb 0 failed_jobs)
    then none
    else if leb (partial_publish_queued_threshold indexed) queued
    then none
    else some (partial_publish_queued_target indexed queued embedding)

-- `if target, ok := …; ok { … = target }` after the field is set to 0.
abbrev pub or_zero : Option ℕ → ℕ
or_zero none = 0
or_zero (some n) = n

unfoldable pub priority_publish_due : BackfillStatus → Bool
unfolding publish_queued partial_publish_queued_threshold
priority_publish_due status =
    if publish_queued status == 0
    then false
    else leb (partial_publish_queued_threshold status.indexed_vector_count) (publish_queued status)

unfoldable pub batch_size_for_status : Schedule → ℕ → Option ℕ
batch_size_for_status schedule completed =
    if schedule.target_completed_vectors == 0
    then (if ltb 0 schedule.batch_size then some schedule.batch_size else none)
    else if schedule.target_completed_vectors - completed == 0
    then none
    else some (min schedule.batch_size (schedule.target_completed_vectors - completed))

unfoldable pub mixed_batch_size_for_status : Schedule → BackfillStatus → Option ℕ
unfolding batch_size_for_status embedding_queued
mixed_batch_size_for_status schedule status =
    elim (batch_size_for_status schedule status.completed_vector_count) [
      | none ↦ none
      | some size ↦
          if size == 0
          then none
          else if ltb (embedding_queued status) size
          then none
          else some (min size (embedding_queued status))
    ]

-- schedulerWorkStateApplySemanticStatusAfterEmbedding
unfoldable pub apply_semantic_status_after_embedding : BackfillStatus → ℕ → Cache → Cache
unfolding publish_queued embedding_queued partial_publish_wait_target priority_publish_due
apply_semantic_status_after_embedding status consumed_hint = change λ s. record s {
  semantic_eligible_vectors = status.eligible_asset_count;
  semantic_completed_vectors = status.completed_vector_count;
  semantic_failed_vectors = status.failed_vector_count;
  semantic_indexed_vectors = status.indexed_vector_count;
  semantic_pending_index_jobs = status.pending_index_job_count;
  semantic_failed_index_jobs = status.failed_index_job_count;
  semantic_eligible_index_jobs = status.eligible_index_job_count;
  semantic_next_eligible_at = status.next_eligible_at;
  semantic_mixed_embedding_queued = embedding_queued status;
  semantic_mixed_embedding_hint = s.semantic_mixed_embedding_hint - consumed_hint;
  semantic_embedding_ready =
      if embedding_queued status == 0 then false else s.semantic_embedding_ready;
  semantic_embedding_batch_size =
      if embedding_queued status == 0 then 0 else s.semantic_embedding_batch_size;
  semantic_priority_publish_ready =
      priority_publish_due status
      && (not (ltb 0 (status.pending_index_job_count + status.failed_index_job_count))
          || ltb 0 status.eligible_index_job_count);
  semantic_publish_ready = ltb 0 status.eligible_index_job_count;
  semantic_waiting_queued_target = or_zero (
      partial_publish_wait_target status.indexed_vector_count (publish_queued status)
        (embedding_queued status) status.failed_index_job_count);
}

-- applySemanticBackfillStatus, for the candidate's model and vector space.
unfoldable pub apply_semantic_backfill_status : Text → Text → BackfillStatus → WorkState → WorkState
unfolding publish_queued embedding_queued partial_publish_wait_target
apply_semantic_backfill_status model_id vector_space_id status s = record s {
  semantic_selected_model_id = model_id;
  semantic_selected_vector_space_id = vector_space_id;
  semantic_eligible_vectors = status.eligible_asset_count;
  semantic_completed_vectors = status.completed_vector_count;
  semantic_failed_vectors = status.failed_vector_count;
  semantic_indexed_vectors = status.indexed_vector_count;
  semantic_pending_index_jobs = status.pending_index_job_count;
  semantic_failed_index_jobs = status.failed_index_job_count;
  semantic_eligible_index_jobs = status.eligible_index_job_count;
  semantic_next_eligible_at = status.next_eligible_at;
  semantic_mixed_embedding_queued =
      if ltb s.semantic_mixed_embedding_queued (embedding_queued status)
      then embedding_queued status
      else s.semantic_mixed_embedding_queued;
  semantic_waiting_queued_target = or_zero (
      partial_publish_wait_target status.indexed_vector_count (publish_queued status)
        (embedding_queued status) status.failed_index_job_count);
}

-- The threshold is the least number, at least 1, that is a fifth of the number of indexed vectors or more.
pub partial_publish_queued_threshold_lem :
    (indexed : ℕ)
    → let t = partial_publish_queued_threshold indexed in
      (1 ≤ t) × (indexed ≤ 5 * t) × (5 * (t - 1) < max indexed 1)
unfolding partial_publish_queued_threshold
partial_publish_queued_threshold_lem indexed = ground arith

-- Where publication waits for a target, the target is above the number of queued vectors, at most the
-- number of queued vectors and embeddings together, and at most the threshold, and priority publication
-- is not due.
pub partial_publish_wait_target_bounds :
    (status : BackfillStatus) (target : ℕ)
    → partial_publish_wait_target status.indexed_vector_count
        (publish_queued status)
        (embedding_queued status)
        status.failed_index_job_count
      ≡ some target
    → (publish_queued status < target)
      × (target ≤ publish_queued status + embedding_queued status)
      × (target ≤ partial_publish_queued_threshold status.indexed_vector_count)
      × (priority_publish_due status ≡ false)
unfolding partial_publish_wait_target priority_publish_due partial_publish_queued_target
partial_publish_wait_target_bounds status target e = ground arith
