-- ===== src/Scheduler/Snapshot.antt =====
-- internal/runtime/scheduler_work_state.go: schedulerWorkStateSnapshot, which recomputes the counts without
-- the lock and gives up its result when a change came in between.
use timich_agent.Base.{
  ℕ, ◌<◌, ◌≡◌, refl, Bool, true, Option, none, some, List, [], ◌∷◌, ◌==◌, not, if◌then◌else◌, Text,
  arith, ◌⊎◌, inl, inr,
}
use timich_agent.Scheduler.{
  WorkState, Cache, Schedule, empty, fresh, Phase, assign, release, discard_mixed_embedding_work,
  defer_scheduled_embedding_work, LocalMetadataBatchResult, LocalThumbnailBatchResult,
  complete_local_metadata, complete_local_thumbnail, mark_dirty,
}
use timich_agent.Scheduler.Semantic.{BackfillStatus, apply_semantic_status_after_embedding}

-- What the first section under the lock decides.
pub data Begun : Type 0 where
  reuses : WorkState → Begun
  recomputes_from : ℕ → Begun

-- schedulerWorkStateSnapshot, up to the recomputation.
unfoldable pub begin_snapshot : Cache → ℕ → Text → Schedule → Bool → Begun
unfolding fresh
begin_snapshot c now config_hash schedule semantic_scheduled =
    if fresh c.state now config_hash schedule semantic_scheduled
    then reuses c.state
    else recomputes_from c.seq

-- schedulerWorkStateSnapshot, after a recomputation without an error.
unfoldable pub finish_snapshot : Cache → ℕ → WorkState → Cache × Option WorkState
unfolding empty
finish_snapshot c start_seq recomputed =
    if not (c.seq == start_seq)
    then (
      record c { state = record c.state { dirty = true } },
      if not (empty c.state) then some (record c.state { dirty = true }) else none,
    )
    else (record c { state = recomputed }, some recomputed)

-- The calls that other goroutines make meanwhile.
pub data Update : Type 0 where
  assigns : Phase → ℕ → Update
  releases : Phase → ℕ → Update
  discards : Update
  defers : ℕ → ℕ → Update
  completes_metadata : LocalMetadataBatchResult → ℕ → Update
  completes_thumbnails : LocalThumbnailBatchResult → ℕ → Update
  applies : BackfillStatus → ℕ → Update
  marks_dirty : Update

unfoldable pub update : Cache → Update → Cache
update c (assigns phase planned) = assign phase planned c
update c (releases phase count) = release phase count c
update c discards = discard_mixed_embedding_work c
update c (defers next now) = defer_scheduled_embedding_work next now c
update c (completes_metadata result planned) = complete_local_metadata result planned c
update c (completes_thumbnails result planned) = complete_local_thumbnail result planned c
update c (applies status hint) = apply_semantic_status_after_embedding status hint c
update c marks_dirty = mark_dirty c

unfoldable pub updates : Cache → List Update → Cache
updates c [] = c
updates c (u ∷ us) = updates (update c u) us

-- A call either changes nothing or raises the number of changes.
pub update_seq : (c : Cache) (u : Update) → (update c u ≡ c) ⊎ (c.seq < (update c u).seq)
unfolding update assign release discard_mixed_embedding_work defer_scheduled_embedding_work
    complete_local_metadata complete_local_thumbnail apply_semantic_status_after_embedding
    mark_dirty
update_seq c (assigns phase planned) = ground arith
update_seq c (releases phase count) = ground arith
update_seq c discards = inr (omega arith)
update_seq c (defers next now) = inr (omega arith)
update_seq c (completes_metadata result planned) = inr (omega arith)
update_seq c (completes_thumbnails result planned) = inr (omega arith)
update_seq c (applies status hint) = inr (omega arith)
update_seq c marks_dirty = inr (omega arith)

pub updates_seq : (c : Cache) (us : List Update) → (updates c us ≡ c) ⊎ (c.seq < (updates c us).seq)
unfolding updates
updates_seq c [] = inl refl
updates_seq c (u ∷ us) = ground (arith, update_seq c u, updates_seq (update c u) us)

-- Whatever calls come between the start of a recomputation and its end: either they changed nothing and
-- the recomputed state is stored and returned, or every change of theirs is kept, the state is marked
-- dirty, and the recomputed state is dropped.
pub finish_snapshot-updates :
    (c : Cache) (us : List Update) (recomputed : WorkState)
    → let during = updates c us in
      let (after, answer) = finish_snapshot during c.seq recomputed in
      ((during ≡ c) × (after.state ≡ recomputed) × (answer ≡ some recomputed))
      ⊎ ((c.seq < during.seq)
          × (after ≡ record during { state = record during.state { dirty = true } })
          × (answer ≡ (if empty during.state then none else some after.state)))
unfolding finish_snapshot empty
finish_snapshot-updates c us recomputed = ground (arith, updates_seq c us)

-- After a recomputation that a change came in between, the next snapshot recomputes the state, whatever
-- its time and its configuration.
pub interrupted_snapshot_recomputes :
    (c : Cache) (us : List Update) (recomputed : WorkState) (now : ℕ) (hash : Text)
    (schedule : Schedule) (scheduled : Bool)
    → c.seq < (updates c us).seq
    → let after = (finish_snapshot (updates c us) c.seq recomputed).0 in
      begin_snapshot after now hash schedule scheduled ≡ recomputes_from after.seq
unfolding finish_snapshot begin_snapshot fresh
interrupted_snapshot_recomputes c us recomputed now hash schedule scheduled lt = ground arith
