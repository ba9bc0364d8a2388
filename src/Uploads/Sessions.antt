-- ===== src/Uploads/Sessions.antt =====
-- internal/store/upload_store.go and upload_ledger.go: epochs, sessions and their progress.
use timich_agent.Base.{
  ℕ, ◌==◌, Bool, true, false, ◌&&◌, Option, none, some, List, [], ◌∷◌, ltb, if◌then◌else◌, Text,
  text_eq, is_empty, trim_space, ℤ, pos,
}
use timich_agent.Uploads.Rows.{
  active, aborted, UploadSession, AssetRow, Db, UploadedAsset, upload_session_not_found,
  device_not_found, upload_session_offset_conflict, input_invalid, database_failed,
}
use timich_agent.Uploads.Action.{
  Action, lift, some_or, raise_if, pure, raise, statement, exec, query, transaction, ◌>>=◌, ◌>>◌,
}
use timich_agent.Uploads.Statements.{
  first, is_active, is_uploaded, has_session_id, has_identity, has_upload_id, has_asset_id,
  epoch_of, checksums_for_asset, insert_session, insert_epoch, update_sessions,
}
use timich_agent.Uploads.Inputs.{
  UploadSessionInput, non_zero_time, nullable_time, nullable_size, normalize_session_input,
}

-- LedgerEpoch after its first query; `random` is what randomblob gives.
abbrev pub epoch_or_new : Text → Text → Option Text → Action Text
epoch_or_new random device (some epoch) = pure epoch
epoch_or_new random device none = do
  exec (λ db. (insert_epoch device random db, tt))
  again ← query (epoch_of device)
  some_or database_failed again

unfoldable pub ledger_epoch : Text → Text → Action Text
ledger_epoch random device_id = do
  raise_if (is_empty (trim_space device_id)) device_not_found
  found ← query (epoch_of (trim_space device_id))
  epoch_or_new random (trim_space device_id) found

unfoldable pub get_session : Text → Action (Option UploadSession)
get_session upload_id = query (λ db. first (has_session_id (trim_space upload_id)) db.sessions)

-- GetSession after a write: `if !ok { return …, ErrUploadSessionNotFound }`.
abbrev pub session_after : Text → Action UploadSession
session_after upload_id = get_session upload_id >>= some_or upload_session_not_found

abbrev pub new_session : UploadSessionInput → UploadSession
new_session i = record {
  upload_id = i.upload_id;
  device_id = i.device_id;
  source_asset_id = i.source_asset_id;
  source_asset_version = i.source_asset_version;
  status = active;
  media_type = i.media_type;
  original_filename = i.original_filename;
  captured_at = nullable_time i.captured_at;
  expected_size_bytes = nullable_size i.expected_size_bytes;
  next_offset = 0;
  selected_root_key = i.selected_root_key;
  temp_relative_path = i.temp_relative_path;
  final_relative_path = none;
  created_at = i.now;
  updated_at = i.now;
  expires_at = nullable_time i.expires_at;
}

-- CreateSession after its checks.
unfoldable pub create_normalized : Text → UploadSessionInput → Action UploadSession
unfolding ledger_epoch get_session
create_normalized random i = do
  ledger_epoch random i.device_id
  statement (insert_session (new_session i))
  session_after i.upload_id

unfoldable pub create_session : ℕ → Text → UploadSessionInput → Action UploadSession
unfolding create_normalized
create_session clock random input = do
  i ← lift (normalize_session_input clock input)
  create_normalized random i

-- The row that the compare-and-set of UpdateSessionProgress changes.
abbrev pub at_offset : Text → ℕ → UploadSession → Bool
at_offset id expected s = has_session_id id s && (is_active s.status && s.next_offset == expected)

abbrev pub has_status_active : Option UploadSession → Option UploadSession
has_status_active none = none
has_status_active (some s) = if is_active s.status then some s else none

abbrev pub advanced : ℕ → ℕ → UploadSession → UploadSession
advanced next now s = record s { next_offset = next; updated_at = now }

-- The error for a session that the compare-and-set has not changed.
abbrev pub refused : Text → Action UploadSession
refused id = do
  found ← get_session id
  session ← some_or upload_session_not_found (has_status_active found)
  raise (upload_session_offset_conflict session)

-- UpdateSessionProgress after its checks, with the name trimmed and the time that is written.
unfoldable pub compare_and_set : Text → ℕ → ℕ → ℕ → Action UploadSession
unfolding get_session
compare_and_set id expected next now = do
  changed ← exec (update_sessions (at_offset id expected) (advanced next now))
  if changed == 0 then refused id else session_after id

-- UpdateSessionProgress, once the offsets are found not to be negative.
unfoldable pub advance_session : ℕ → Text → ℕ → ℕ → ℕ → Action UploadSession
unfolding compare_and_set
advance_session clock upload_id expected next now = do
  raise_if (ltb next expected) input_invalid
  compare_and_set (trim_space upload_id) expected next (non_zero_time clock now)

unfoldable pub update_session_progress : ℕ → Text → ℤ → ℤ → ℕ → Action UploadSession
unfolding advance_session
update_session_progress clock upload_id (pos expected) (pos next) now =
    advance_session clock upload_id expected next now
update_session_progress clock upload_id _ _ now = raise input_invalid

abbrev pub is_abortable : Text → Text → UploadSession → Bool
is_abortable id device s = has_session_id id s && (text_eq s.device_id device && is_active s.status)

abbrev pub aborted_at : ℕ → UploadSession → UploadSession
aborted_at now s = record s { status = aborted; updated_at = now }

unfoldable pub abort_session : ℕ → Text → Text → ℕ → Action UploadSession
unfolding get_session
abort_session clock upload_id device_id now = do
  raise_if (is_empty (trim_space upload_id)) upload_session_not_found
  raise_if (is_empty (trim_space device_id)) device_not_found
  changed ← exec (
      update_sessions (is_abortable (trim_space upload_id) (trim_space device_id))
        (aborted_at (non_zero_time clock now)))
  raise_if (changed == 0) upload_session_not_found
  session_after (trim_space upload_id)

-- The row that uploadedAssetSelectSQL selects, with the epoch of its device.
abbrev pub select_asset : (AssetRow → Bool) → Db → Option (AssetRow × Option Text)
select_asset p db = elim (first p db.assets) [
  | none ↦ none
  | some a ↦ some (a, epoch_of a.device_id db)
]

-- scanUploadedAsset, which fails for a device without an epoch, and then checksumsForAsset.
abbrev pub scan_asset : Option (AssetRow × Option Text) → Action (Option UploadedAsset)
scan_asset none = pure none
scan_asset (some (a, epoch)) = do
  e ← some_or database_failed epoch
  checksums ← query (checksums_for_asset a.id)
  pure (some (record { row = a; ledger_epoch = e; asset_checksums = checksums }))

unfoldable pub read_asset : (AssetRow → Bool) → Action (Option UploadedAsset)
read_asset p = do found ← query (select_asset p); scan_asset found

unfoldable pub get_uploaded_asset_by_source_identity :
    Text → Text → Text → Action (Option UploadedAsset)
unfolding read_asset
get_uploaded_asset_by_source_identity device source version =
    read_asset (has_identity (trim_space device) (trim_space source) (trim_space version))

unfoldable pub get_uploaded_asset_by_upload_id : Text → Action (Option UploadedAsset)
unfolding read_asset
get_uploaded_asset_by_upload_id upload_id = read_asset (has_upload_id (trim_space upload_id))

unfoldable pub get_uploaded_asset_by_id : ℕ → Action (Option UploadedAsset)
unfolding read_asset
get_uploaded_asset_by_id id = read_asset (has_asset_id id)

pub record UploadIdentity : Type 0 where
  pub source_asset_id : Text
  pub source_asset_version : Text

abbrev pub is_uploaded_row : Text → UploadIdentity → AssetRow → Bool
is_uploaded_row device i a =
    has_identity device i.source_asset_id i.source_asset_version a && is_uploaded a.status

-- The loop of CheckUploaded: one EXISTS for each identity.
unfoldable pub check_identities : Text → List UploadIdentity → Action (List Bool)
check_identities device [] = pure []
check_identities device (i ∷ is) = do
  found ← query (λ db. first (is_uploaded_row device i) db.assets)
  rest ← check_identities device is
  pure ((elim found [ none ↦ false | some a ↦ true ]) ∷ rest)

-- The transaction of CheckUploaded.
unfoldable pub check_body : Text → List UploadIdentity → Action (Text × List Bool)
unfolding check_identities
check_body device identities = do
  epoch ← query (epoch_of device)
  e ← some_or database_failed epoch
  states ← check_identities device identities
  pure (e, states)

unfoldable pub check_uploaded : Text → Text → List UploadIdentity → Action (Text × List Bool)
unfolding ledger_epoch check_body
check_uploaded random device_id identities = do
  ledger_epoch random (trim_space device_id)
  transaction (check_body (trim_space device_id) identities)
