-- ===== src/Uploads/History.antt =====
-- internal/store: the calls of the upload store's methods, and histories of such calls.
use timich_agent.Base.{ℕ, List, [], ◌∷◌, Text, ℤ}
use timich_agent.Uploads.Action.{Conn}
use timich_agent.Uploads.Inputs.{
  UploadSessionInput, UploadCommitInput, UploadResetInput, UploadCleanupInput,
}
use timich_agent.Uploads.Sessions.{
  UploadIdentity, ledger_epoch, get_session, create_session, update_session_progress, abort_session,
  get_uploaded_asset_by_source_identity, get_uploaded_asset_by_upload_id, get_uploaded_asset_by_id,
  check_uploaded,
}
use timich_agent.Uploads.Commits.{reserve_upload_commit, mark_uploaded, reset_device_upload_state}
use timich_agent.Uploads.Cleanup.{
  upload_cleanup_candidates, cleanup_upload_session, cleanup_upload_events, cleanup_upload_state,
}

-- A method with its arguments, the clock's time and the random text that it draws.
pub data Call : Type 0 where
  asks_epoch : Text → Text → Call
  gets_session : Text → Call
  creates : ℕ → Text → UploadSessionInput → Call
  advances : ℕ → Text → ℤ → ℤ → ℕ → Call
  aborts : ℕ → Text → Text → ℕ → Call
  reserves : ℕ → UploadCommitInput → Call
  marks : ℕ → ℕ → ℕ → Call
  gets_by_identity : Text → Text → Text → Call
  gets_by_upload : Text → Call
  gets_by_id : ℕ → Call
  checks : Text → Text → List UploadIdentity → Call
  resets : ℕ → Text → UploadResetInput → Call
  lists_candidates : ℕ → UploadCleanupInput → Call
  cleans_session : ℕ → Text → UploadCleanupInput → Call
  cleans_events : ℕ → UploadCleanupInput → Call
  cleans : ℕ → UploadCleanupInput → Call

module _ (to_lower : Text → Text) where
  -- The connection after a call, whatever it returns.
  unfoldable pub step : Call → Conn → Conn
  step (asks_epoch random device) c = (ledger_epoch random device c).0
  step (gets_session id) c = (get_session id c).0
  step (creates clock random input) c = (create_session clock random input c).0
  step (advances clock id expected next now) c =
      (update_session_progress clock id expected next now c).0
  step (aborts clock id device now) c = (abort_session clock id device now c).0
  step (reserves clock input) c = (reserve_upload_commit to_lower clock input c).0
  step (marks clock id now) c = (mark_uploaded clock id now c).0
  step (gets_by_identity device source version) c =
      (get_uploaded_asset_by_source_identity device source version c).0
  step (gets_by_upload id) c = (get_uploaded_asset_by_upload_id id c).0
  step (gets_by_id id) c = (get_uploaded_asset_by_id id c).0
  step (checks random device identities) c = (check_uploaded random device identities c).0
  step (resets clock random input) c = (reset_device_upload_state clock random input c).0
  step (lists_candidates clock input) c = (upload_cleanup_candidates clock input c).0
  step (cleans_session clock id input) c = (cleanup_upload_session clock id input c).0
  step (cleans_events clock input) c = (cleanup_upload_events clock input c).0
  step (cleans clock input) c = (cleanup_upload_state clock input c).0

  unfoldable pub run : List Call → Conn → Conn
  unfolding step
  run [] c = c
  run (call ∷ calls) c = run calls (step call c)
