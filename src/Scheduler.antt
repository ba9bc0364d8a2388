-- ===== src/Scheduler.antt =====
-- internal/runtime/scheduler_work_state.go: the cached counts of background work. Counts, batch sizes and
-- targets are natural numbers, as the catalog counts them, so the source's `max(x, 0)` is `x`, and
-- `max(a-b, 0)` is `a - b`.
pub mod Semantic
pub mod Updates
pub mod Snapshot
use timich_agent.Base.{
  ℕ, ◌+◌, ◌-◌, ◌*◌, Bool, true, false, not, ◌&&◌, ◌||◌, Option, none, some, List, [], ◌∷◌, ltb, leb,
  ◌==◌, if◌then◌else◌, min, Text, text_eq, is_empty,
}

abbrev pub scheduler_work_state_stale_after : ℕ
scheduler_work_state_stale_after = 30 * 60 * 1_000_000_000

pub record Schedule : Type 0 where
  pub interval : ℕ
  pub batch_size : ℕ
  pub workers : ℕ
  pub target_completed_vectors : ℕ

pub record WorkState : Type 0 where
  pub config_hash : Text
  pub updated_at : ℕ
  pub dirty : Bool
  pub metadata_queued : ℕ
  pub metadata_settling : ℕ
  pub metadata_next_eligible_at : Option ℕ
  pub thumbnail_queued : ℕ
  pub content_verification_ready : Bool
  pub semantic_scheduled : Bool
  pub semantic_runtime_retry : Bool
  pub semantic_priority_publish_ready : Bool
  pub semantic_publish_ready : Bool
  pub semantic_embedding_ready : Bool
  pub semantic_embedding_batch_size : ℕ
  pub semantic_mixed_embedding_queued : ℕ
  pub semantic_mixed_embedding_hint : ℕ
  pub semantic_mixed_embedding_batch : ℕ
  pub semantic_eligible_vectors : ℕ
  pub semantic_completed_vectors : ℕ
  pub semantic_failed_vectors : ℕ
  pub semantic_indexed_vectors : ℕ
  pub semantic_pending_index_jobs : ℕ
  pub semantic_failed_index_jobs : ℕ
  pub semantic_eligible_index_jobs : ℕ
  pub semantic_waiting_queued_target : ℕ
  pub semantic_next_eligible_at : Option ℕ
  pub semantic_selected_model_id : Text
  pub semantic_selected_vector_space_id : Text

-- The runtime's cached state, and the number of its changes.
pub record Cache : Type 0 where
  pub state : WorkState
  pub open state use *
  pub seq : ℕ

unfoldable pub empty : WorkState → Bool
empty s = s.updated_at == 0 && is_empty s.config_hash

-- A next time that has come.
abbrev pub is_due : Option ℕ → ℕ → Bool
is_due none now = false
is_due (some at) now = not (ltb now at)

unfoldable pub stale_after : WorkState → Schedule → Bool → ℕ
stale_after s schedule semantic_scheduled =
    if semantic_scheduled
      && (ltb 0 schedule.workers && (s.semantic_runtime_retry && ltb 0 schedule.interval))
    then min scheduler_work_state_stale_after schedule.interval
    else scheduler_work_state_stale_after

unfoldable pub fresh : WorkState → ℕ → Text → Schedule → Bool → Bool
unfolding empty stale_after
fresh s now config_hash schedule semantic_scheduled =
    if empty s || (s.dirty || not (text_eq s.config_hash config_hash))
    then false
    else if leb (stale_after s schedule semantic_scheduled) (now - s.updated_at)
    then false
    else if is_due s.metadata_next_eligible_at now
    then false
    else if is_due s.semantic_next_eligible_at now
    then false
    else true

pub data Phase : Type 0 where
  metadata thumbnails embeddings content_verification other_phase : Phase

-- The switch of schedulerWorkStateAssign.
unfoldable pub take_phase : Phase → ℕ → WorkState → WorkState
take_phase metadata planned s = record s { metadata_queued = s.metadata_queued - planned }
take_phase thumbnails planned s = record s { thumbnail_queued = s.thumbnail_queued - planned }
take_phase embeddings planned s = record s {
  semantic_mixed_embedding_queued = s.semantic_mixed_embedding_queued - planned;
}
take_phase content_verification planned s = record s { content_verification_ready = false }
take_phase other_phase planned s = s

-- The switch of schedulerWorkStateRelease.
unfoldable pub give_phase : Phase → ℕ → WorkState → WorkState
give_phase metadata count s = record s { metadata_queued = s.metadata_queued + count }
give_phase thumbnails count s = record s { thumbnail_queued = s.thumbnail_queued + count }
give_phase embeddings count s = record s {
  semantic_mixed_embedding_queued = s.semantic_mixed_embedding_queued + count;
}
give_phase content_verification count s = s
give_phase other_phase count s = s

-- A change under the lock, which ends in `a.schedulerWorkStateSeq++`.
abbrev pub change : (WorkState → WorkState) → Cache → Cache
change f c = record { state = f c.state; seq = c.seq + 1 }

unfoldable pub assign : Phase → ℕ → Cache → Cache
unfolding take_phase
assign phase planned c = if planned == 0 then c else change (take_phase phase planned) c

unfoldable pub release : Phase → ℕ → Cache → Cache
unfolding give_phase
release phase count c = if count == 0 then c else change (give_phase phase count) c

unfoldable pub discard_mixed_embedding_work : Cache → Cache
discard_mixed_embedding_work = change λ s. record s {
  semantic_mixed_embedding_queued = 0;
  semantic_mixed_embedding_hint = 0;
  dirty = true;
}

-- `now` is the clock's time at the call.
unfoldable pub defer_until : ℕ → ℕ → Option ℕ → Option ℕ
defer_until next now none = some next
defer_until next now (some at) = if not (ltb now at) || ltb next at then some next else some at

unfoldable pub defer_scheduled_embedding_work : ℕ → ℕ → Cache → Cache
unfolding defer_until
defer_scheduled_embedding_work next now = change λ s. record s {
  semantic_embedding_ready = false;
  semantic_embedding_batch_size = 0;
  semantic_next_eligible_at = defer_until next now s.semantic_next_eligible_at;
}

pub record LocalMetadataBatchResult : Type 0 where
  pub processed_jobs : ℕ
  pub completed_jobs : ℕ
  pub failed_jobs : ℕ
  pub deferred_jobs : ℕ
  pub registered_assets : ℕ
  pub settling_jobs : ℕ

-- The jobs left in a queue: what was planned was taken from it before, and the rest comes back.
abbrev pub settle : ℕ → ℕ → ℕ → ℕ
settle queued planned processed =
    if ltb 0 planned then queued + (planned - processed) else queued - processed

unfoldable pub complete_local_metadata : LocalMetadataBatchResult → ℕ → Cache → Cache
complete_local_metadata result planned = change λ s. record s {
  metadata_queued = settle s.metadata_queued planned result.processed_jobs;
  thumbnail_queued = s.thumbnail_queued + result.registered_assets;
  dirty =
      if ltb 0 result.deferred_jobs
        || (ltb 0 result.settling_jobs || (result.processed_jobs == 0 && ltb 0 planned))
      then true
      else s.dirty;
}

pub record LocalThumbnailBatchResult : Type 0 where
  pub processed_jobs : ℕ
  pub completed_jobs : ℕ
  pub failed_jobs : ℕ
  pub deferred_jobs : ℕ
  pub generated_assets : ℕ
  pub generated_image_assets : ℕ
  pub resettled_assets : ℕ

unfoldable pub complete_local_thumbnail : LocalThumbnailBatchResult → ℕ → Cache → Cache
complete_local_thumbnail result planned = change λ s. record s {
  thumbnail_queued = settle s.thumbnail_queued planned result.processed_jobs;
  semantic_mixed_embedding_hint =
      if ltb 0 result.generated_image_assets && ltb 0 s.semantic_mixed_embedding_batch
      then s.semantic_mixed_embedding_hint + result.generated_image_assets
      else s.semantic_mixed_embedding_hint;
  dirty =
      if ltb 0 result.deferred_jobs
        || (ltb 0 result.resettled_assets || (result.processed_jobs == 0 && ltb 0 planned))
      then true
      else s.dirty;
}

unfoldable pub mark_dirty : Cache → Cache
mark_dirty = change λ s. record s { dirty = true }

-- schedulerWorkStateEmbeddingHintSnapshot
unfoldable pub embedding_hint : Cache → ℕ
embedding_hint c = c.semantic_mixed_embedding_hint
