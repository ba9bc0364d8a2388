-- ===== src/Uploads/Cleanup.antt =====
-- internal/store/upload_cleanup.go, and the cleanup of events in upload_store.go.
use timich_agent.Base.{
  ℕ, ◌+◌, ◌-◌, Bool, true, false, not, ◌&&◌, Option, none, some, List, [], ◌∷◌, ◌++◌, map, keep_if,
  ltb, leb, is_some, if◌then◌else◌, Text, is_empty, trim_space, to_nat,
}
use timich_agent.Uploads.Rows.{
  active, committing, completed, failed, aborted, UploadSession, CommitEvent, ResetEvent, Db,
}
use timich_agent.Uploads.Action.{Action, finish, pure, exec, query, transaction, ◌>>=◌, ◌>>◌}
use timich_agent.Uploads.Statements.{
  first, is_open, is_reserved, has_session_id, has_upload_id, count_where, delete_where,
  delete_sessions,
}
use timich_agent.Uploads.Inputs.{UploadCleanupInput, non_zero_time}
use timich_agent.Uploads.Commits.{UploadTempFile, temp_file_of}

pub record UploadCleanupCandidate : Type 0 where
  pub upload_id : Text
  pub device_id : Text

pub record UploadCleanupResult : Type 0 where
  pub cleaned_at : ℕ
  pub removed_expired_sessions : ℕ
  pub removed_completed : ℕ
  pub removed_aborted : ℕ
  pub removed_failed : ℕ
  pub removed_commit_events : ℕ
  pub removed_reset_events : ℕ
  pub temp_files : List UploadTempFile
  pub wal_checkpointed : Bool

abbrev pub no_result : ℕ → UploadCleanupResult
no_result now = record {
  cleaned_at = now;
  removed_expired_sessions = 0;
  removed_completed = 0;
  removed_aborted = 0;
  removed_failed = 0;
  removed_commit_events = 0;
  removed_reset_events = 0;
  temp_files = [];
  wal_checkpointed = false;
}

abbrev pub has_expired : ℕ → Option ℕ → Bool
has_expired now none = false
has_expired now (some at) = leb at now

-- uploadCleanupPredicate; a retention below zero counts as none. No row is older than Go's zero time.
unfoldable pub upload_cleanup_predicate : UploadCleanupInput → ℕ → UploadSession → Bool
upload_cleanup_predicate i now s = elim s.status [
  | active ↦ has_expired now s.expires_at
  | committing ↦ false
  | completed ↦ ltb s.updated_at (now - to_nat i.completed_session_retention)
  | aborted ↦ ltb s.updated_at (now - to_nat i.aborted_session_retention)
  | failed ↦ ltb s.updated_at (now - to_nat i.failed_session_retention)
]

unfoldable pub upload_cleanup_candidates :
    ℕ → UploadCleanupInput → Action (List UploadCleanupCandidate)
unfolding upload_cleanup_predicate non_zero_time
upload_cleanup_candidates clock i = query λ db.
    map (λ (s : UploadSession). record { upload_id = s.upload_id; device_id = s.device_id })
      (keep_if (upload_cleanup_predicate i (non_zero_time clock i.now)) db.sessions)

-- The switch on the status of the removed session, and its temporary file.
unfoldable pub removed_session : UploadSession → UploadCleanupResult → UploadCleanupResult
removed_session s r =
    let files = if not (is_empty s.temp_relative_path) then temp_file_of s ∷ [] else r.temp_files in
    elim s.status [
      | active ↦ record r { removed_expired_sessions = 1; temp_files = files }
      | committing ↦ record r { temp_files = files }
      | completed ↦ record r { removed_completed = 1; temp_files = files }
      | aborted ↦ record r { removed_aborted = 1; temp_files = files }
      | failed ↦ record r { removed_failed = 1; temp_files = files }
    ]

-- The deletion of the selected session, up to the end of the transaction.
abbrev pub remove_session : UploadSession → ℕ → Action UploadCleanupResult
remove_session session now = do
  exec (delete_sessions (has_session_id session.upload_id))
  pure (removed_session session (no_result now))

-- Where there is no session to remove the transaction is rolled back before anything is written.
abbrev pub remove_found : ℕ → Option UploadSession → Action UploadCleanupResult
remove_found now none = pure (no_result now)
remove_found now (some session) = λ c. finish c.db (remove_session session now c)

unfoldable pub cleanup_upload_session : ℕ → Text → UploadCleanupInput → Action UploadCleanupResult
unfolding upload_cleanup_predicate removed_session non_zero_time
cleanup_upload_session clock upload_id i =
    let now = non_zero_time clock i.now in
    do
      query (λ _. tt)
      found ← query (λ db.
          first (λ s. has_session_id (trim_space upload_id) s && upload_cleanup_predicate i now s)
            db.sessions)
      remove_found now found

abbrev pub is_old_event : ℕ → Db → CommitEvent → Bool
is_old_event bound db e =
    ltb e.created_at bound
    && (not (is_some (first (λ a. has_upload_id e.upload_id a && is_reserved a.status) db.assets))
        && not
            (is_some (first (λ s. has_session_id e.upload_id s && is_open s.status) db.sessions)))

abbrev pub is_old_reset : ℕ → ResetEvent → Bool
is_old_reset bound e = ltb e.created_at bound

unfoldable pub delete_commit_events : ℕ → Db → Db × ℕ
delete_commit_events bound db = (
  record db { commit_events = delete_where (is_old_event bound db) db.commit_events },
  count_where (is_old_event bound db) db.commit_events,
)

unfoldable pub delete_reset_events : ℕ → Db → Db × ℕ
delete_reset_events bound db = (
  record db { reset_events = delete_where (is_old_reset bound) db.reset_events },
  count_where (is_old_reset bound) db.reset_events,
)

-- CleanupUploadEvents, and the checkpoint of the log.
unfoldable pub cleanup_upload_events : ℕ → UploadCleanupInput → Action UploadCleanupResult
unfolding non_zero_time
cleanup_upload_events clock i =
    let now = non_zero_time clock i.now in
    do
      removed ← transaction (do
        commits ← exec (delete_commit_events (now - to_nat i.commit_event_retention))
        resets ← exec (delete_reset_events (now - to_nat i.reset_event_retention))
        pure (record (no_result now) {
          removed_commit_events = commits;
          removed_reset_events = resets;
        }))
      query (λ _. tt)
      pure (record removed { wal_checkpointed = true })

abbrev pub add_removed : UploadCleanupResult → UploadCleanupResult → UploadCleanupResult
add_removed r removed = record r {
  removed_expired_sessions = r.removed_expired_sessions + removed.removed_expired_sessions;
  removed_completed = r.removed_completed + removed.removed_completed;
  removed_aborted = r.removed_aborted + removed.removed_aborted;
  removed_failed = r.removed_failed + removed.removed_failed;
  temp_files = r.temp_files ++ removed.temp_files;
}

-- The loop of CleanupUploadState.
unfoldable pub cleanup_candidates :
    ℕ
    → UploadCleanupInput
    → List UploadCleanupCandidate
    → UploadCleanupResult
    → Action UploadCleanupResult
unfolding cleanup_upload_session
cleanup_candidates clock i [] result = pure result
cleanup_candidates clock i (c ∷ cs) result = do
  removed ← cleanup_upload_session clock c.upload_id i
  cleanup_candidates clock i cs (add_removed result removed)

unfoldable pub cleanup_upload_state : ℕ → UploadCleanupInput → Action UploadCleanupResult
unfolding upload_cleanup_candidates cleanup_candidates cleanup_upload_events
cleanup_upload_state clock i = do
  candidates ← upload_cleanup_candidates clock i
  result ← cleanup_candidates clock i candidates (no_result 0)
  events ← cleanup_upload_events clock i
  pure (record result {
    cleaned_at = events.cleaned_at;
    removed_commit_events = events.removed_commit_events;
    removed_reset_events = events.removed_reset_events;
    wal_checkpointed = events.wal_checkpointed;
  })
