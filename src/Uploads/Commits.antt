-- ===== src/Uploads/Commits.antt =====
-- internal/store/upload_store.go: the two steps of a commit, and the reset of a device.
use timich_agent.Base.{
  ℕ, ◌==◌, Bool, true, false, not, ◌&&◌, ◌||◌, Option, none, some, List, [], ◌∷◌, map, keep_if, ltb,
  if◌then◌else◌, Text, text_eq, is_empty, trim_space,
}
use timich_agent.Uploads.Rows.{
  committing, completed, reserved, uploaded, UploadSession, AssetRow, UploadChecksum, EventType,
  reserved_event, reservation_updated, completed_event, CommitEvent, UploadedAsset,
  upload_session_not_found, uploaded_asset_not_found, uploaded_asset_exists, root_key_empty,
}
use timich_agent.Uploads.Action.{
  Action, lift, some_or, raise_if, pure, raise, exec, query, transaction, ◌>>=◌, ◌>>◌,
}
use timich_agent.Uploads.Statements.{
  first, is_open, is_reserved, has_session_id, has_asset_id, upsert_checksum, update_sessions,
  update_assets, reserve_asset, insert_commit_event, insert_reset_event, renew_epoch,
  delete_sessions, delete_assets,
}
use timich_agent.Uploads.Inputs.{
  UploadCommitInput, UploadResetInput, non_zero_time, nullable_time, nullable_size,
  normalize_commit_input, normalize_reset_input,
}
use timich_agent.Uploads.Sessions.{get_uploaded_asset_by_id, get_uploaded_asset_by_source_identity}

-- The session that a commit may mark.
abbrev pub is_committable : UploadCommitInput → UploadSession → Bool
is_committable i s =
    has_session_id i.upload_id s
    && (text_eq s.device_id i.device_id
        && (text_eq s.source_asset_id i.source_asset_id
            && (text_eq s.source_asset_version i.source_asset_version && is_open s.status)))

abbrev pub new_asset : UploadCommitInput → Text → ℕ → AssetRow
new_asset i root id = record {
  id = id;
  device_id = i.device_id;
  source_asset_id = i.source_asset_id;
  source_asset_version = i.source_asset_version;
  upload_id = i.upload_id;
  status = reserved;
  media_type = i.media_type;
  original_filename = i.original_filename;
  captured_at = nullable_time i.captured_at;
  expected_size_bytes = nullable_size i.expected_size_bytes;
  selected_root_key = root;
  final_relative_path = i.final_relative_path;
  created_at = i.now;
  updated_at = i.now;
  committing_at = some i.now;
  uploaded_at = none;
}

abbrev pub event : Text → ℕ → EventType → ℕ → CommitEvent
event upload_id asset_id event_type now = record {
  upload_id = upload_id;
  asset_id = asset_id;
  event_type = event_type;
  created_at = now;
}

-- selectedRootKeyForUploadSession
unfoldable pub selected_root_key_for_upload_session : Text → Action Text
selected_root_key_for_upload_session upload_id = do
  found ← query (λ db. first (has_session_id upload_id) db.sessions)
  session ← some_or upload_session_not_found found
  raise_if (is_empty (trim_space session.selected_root_key)) root_key_empty
  pure (session.selected_root_key)

-- upsertAssetChecksumsTx
unfoldable pub upsert_asset_checksums : ℕ → List UploadChecksum → Action (Unit {0})
upsert_asset_checksums id [] = pure tt
upsert_asset_checksums id (c ∷ cs) = do
  exec (λ db. (upsert_checksum id c db, tt))
  upsert_asset_checksums id cs

-- `existing.UploadID != normalized.UploadID || existing.Status != "committing"`
abbrev pub is_other_upload : UploadCommitInput → UploadedAsset → Bool
is_other_upload i existing =
    not (text_eq existing.row.upload_id i.upload_id) || not (is_reserved existing.row.status)

-- How the row is read again once the transaction is committed.
pub data ReadBack : Type 0 where
  by_id : ℕ → ReadBack
  by_identity : ReadBack

abbrev pub refreshed : UploadCommitInput → Text → AssetRow → AssetRow
refreshed i root a = record a {
  media_type = i.media_type;
  original_filename = i.original_filename;
  captured_at = nullable_time i.captured_at;
  expected_size_bytes = nullable_size i.expected_size_bytes;
  selected_root_key = root;
  final_relative_path = i.final_relative_path;
  updated_at = i.now;
}

-- The reservation of the same upload is brought up to date.
unfoldable pub update_reservation : UploadCommitInput → Text → UploadedAsset → Action ReadBack
unfolding upsert_asset_checksums
update_reservation i root existing = do
  changed ← exec (
      update_assets (λ a. has_asset_id existing.row.id a && is_reserved a.status)
        (refreshed i root))
  raise_if (changed == 0) (uploaded_asset_exists (some existing))
  upsert_asset_checksums existing.row.id i.checksums
  exec (insert_commit_event (event i.upload_id existing.row.id reservation_updated i.now))
  pure (by_id existing.row.id)

abbrev pub met_existing : UploadCommitInput → Text → UploadedAsset → Action ReadBack
met_existing i root existing =
    if is_other_upload i existing
    then raise (uploaded_asset_exists (some existing))
    else update_reservation i root existing

-- The branch of ReserveUploadCommit where the insertion was ignored.
unfoldable pub meet_existing : UploadCommitInput → Text → Action ReadBack
unfolding update_reservation
meet_existing i root = do
  found ← get_uploaded_asset_by_source_identity i.device_id i.source_asset_id i.source_asset_version
  existing ← some_or (uploaded_asset_exists none) found
  met_existing i root existing

-- The branch where a row was inserted.
unfoldable pub complete_reservation : UploadCommitInput → ℕ → Action ReadBack
unfolding upsert_asset_checksums
complete_reservation i id = do
  upsert_asset_checksums id i.checksums
  exec (insert_commit_event (event i.upload_id id reserved_event i.now))
  pure by_identity

abbrev pub reserved_or_met : UploadCommitInput → Text → Option ℕ → Action ReadBack
reserved_or_met i root none = meet_existing i root
reserved_or_met i root (some id) = complete_reservation i id

abbrev pub committing_for : UploadCommitInput → UploadSession → UploadSession
committing_for i s = record s {
  status = committing;
  final_relative_path = some i.final_relative_path;
  updated_at = i.now;
}

-- The transaction of ReserveUploadCommit.
unfoldable pub reserve_body : UploadCommitInput → Action ReadBack
unfolding selected_root_key_for_upload_session meet_existing complete_reservation
reserve_body i = do
  changed ← exec (update_sessions (is_committable i) (committing_for i))
  raise_if (changed == 0) upload_session_not_found
  root ← selected_root_key_for_upload_session i.upload_id
  inserted ← exec (reserve_asset (new_asset i root))
  reserved_or_met i root inserted

abbrev pub asset_after : Action (Option UploadedAsset) → Action UploadedAsset
asset_after m = m >>= some_or uploaded_asset_not_found

-- The reads of ReserveUploadCommit after the transaction.
abbrev pub read_back : UploadCommitInput → ReadBack → Action (Option UploadedAsset)
read_back i (by_id id) = get_uploaded_asset_by_id id
read_back i by_identity =
    get_uploaded_asset_by_source_identity i.device_id i.source_asset_id i.source_asset_version

unfoldable pub reserve_upload_commit : (Text → Text) → ℕ → UploadCommitInput → Action UploadedAsset
unfolding reserve_body
reserve_upload_commit to_lower clock input = do
  i ← lift (normalize_commit_input to_lower clock input)
  back ← transaction (reserve_body i)
  asset_after (read_back i back)

abbrev pub marked : ℕ → AssetRow → AssetRow
marked now a = record a {
  status = uploaded;
  uploaded_at = elim a.uploaded_at [ none ↦ some now | some t ↦ some t ];
  updated_at = now;
}

abbrev pub completed_at : ℕ → UploadSession → UploadSession
completed_at now s = record s { status = completed; updated_at = now }

-- The transaction of MarkUploaded.
unfoldable pub mark_body : ℕ → ℕ → Action (Unit {0})
mark_body now id = do
  found ← query (λ db. first (has_asset_id id) db.assets)
  asset ← some_or uploaded_asset_not_found found
  changed ← exec (update_assets (has_asset_id id) (marked now))
  raise_if (changed == 0) uploaded_asset_not_found
  completed_sessions ← exec (update_sessions (has_session_id asset.upload_id) (completed_at now))
  raise_if (completed_sessions == 0) upload_session_not_found
  exec (insert_commit_event (event asset.upload_id id completed_event now))

unfoldable pub mark_uploaded : ℕ → ℕ → ℕ → Action UploadedAsset
unfolding mark_body
mark_uploaded clock id now = do
  transaction (mark_body (non_zero_time clock now) id)
  asset_after (get_uploaded_asset_by_id id)

-- `captured_at IS NOT NULL AND captured_at >= ?` and `captured_at < ?`; a bound that is nil is no clause.
abbrev pub not_before : Option ℕ → Option ℕ → Bool
not_before none captured = true
not_before (some bound) none = false
not_before (some bound) (some t) = not (ltb t bound)

abbrev pub is_before : Option ℕ → Option ℕ → Bool
is_before none captured = true
is_before (some bound) none = false
is_before (some bound) (some t) = ltb t bound

-- resetWhereClause
unfoldable pub in_reset_range : UploadResetInput → Text → Option ℕ → Bool
in_reset_range i device captured =
    text_eq device i.device_id
    && (not_before i.captured_after captured && is_before i.captured_before captured)

pub record UploadTempFile : Type 0 where
  pub root_key : Text
  pub relative_path : Text

pub record UploadResetResult : Type 0 where
  pub device_id : Text
  pub captured_after : Option ℕ
  pub captured_before : Option ℕ
  pub reset_at : ℕ
  pub removed_uploaded_assets : ℕ
  pub removed_sessions : ℕ
  pub temp_files : List UploadTempFile

abbrev pub temp_file_of : UploadSession → UploadTempFile
temp_file_of s = record { root_key = s.selected_root_key; relative_path = s.temp_relative_path }

abbrev pub has_temp_file : UploadResetInput → UploadSession → Bool
has_temp_file i s =
    in_reset_range i s.device_id s.captured_at && not (is_empty s.temp_relative_path)

unfoldable pub reset_body : Text → UploadResetInput → Action UploadResetResult
unfolding in_reset_range
reset_body random i = do
  exec (λ db. (renew_epoch i.device_id random db, tt))
  files ← query (λ db. map temp_file_of (keep_if (has_temp_file i) db.sessions))
  assets ← exec (delete_assets (λ a. in_reset_range i a.device_id a.captured_at))
  sessions ← exec (delete_sessions (λ s. in_reset_range i s.device_id s.captured_at))
  exec (
      insert_reset_event (record {
        device_id = i.device_id;
        captured_after = nullable_time i.captured_after;
        captured_before = nullable_time i.captured_before;
        reason = i.reason;
        created_at = i.now;
      }))
  pure (record {
    device_id = i.device_id;
    captured_after = i.captured_after;
    captured_before = i.captured_before;
    reset_at = i.now;
    removed_uploaded_assets = assets;
    removed_sessions = sessions;
    temp_files = files;
  })

unfoldable pub reset_device_upload_state : ℕ → Text → UploadResetInput → Action UploadResetResult
unfolding reset_body
reset_device_upload_state clock random input = do
  i ← lift (normalize_reset_input clock input)
  transaction (reset_body random i)
