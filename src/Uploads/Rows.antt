-- ===== src/Uploads/Rows.antt =====
-- internal/store/upload_store.go: the tables, a list of rows each. A time is a number of nanoseconds;
-- its text in the tables has a fixed width, so it is ordered as the time is. NULL is `none`.
use timich_agent.Base.{ℕ, Option, List, [], Text}

pub data SessionStatus : Type 0 where
  active committing completed failed aborted : SessionStatus

pub data AssetStatus : Type 0 where
  reserved uploaded : AssetStatus

pub record UploadSession : Type 0 where
  pub upload_id : Text
  pub device_id : Text
  pub source_asset_id : Text
  pub source_asset_version : Text
  pub status : SessionStatus
  pub media_type : Text
  pub original_filename : Text
  pub captured_at : Option ℕ
  pub expected_size_bytes : Option ℕ
  pub next_offset : ℕ
  pub selected_root_key : Text
  pub temp_relative_path : Text
  pub final_relative_path : Option Text
  pub created_at : ℕ
  pub updated_at : ℕ
  pub expires_at : Option ℕ

-- A row of uploaded_assets; `reserved` is its status 'committing'.
pub record AssetRow : Type 0 where
  pub id : ℕ
  pub device_id : Text
  pub source_asset_id : Text
  pub source_asset_version : Text
  pub upload_id : Text
  pub status : AssetStatus
  pub media_type : Text
  pub original_filename : Text
  pub captured_at : Option ℕ
  pub expected_size_bytes : Option ℕ
  pub selected_root_key : Text
  pub final_relative_path : Text
  pub created_at : ℕ
  pub updated_at : ℕ
  pub committing_at : Option ℕ
  pub uploaded_at : Option ℕ

pub record UploadChecksum : Type 0 where
  pub algorithm : Text
  pub encoding : Text
  pub digest : Text

pub record ChecksumRow : Type 0 where
  pub asset_id : ℕ
  pub checksum : UploadChecksum

pub data EventType : Type 0 where
  reserved_event reservation_updated completed_event : EventType

pub record CommitEvent : Type 0 where
  pub upload_id : Text
  pub asset_id : ℕ
  pub event_type : EventType
  pub created_at : ℕ

pub record ResetEvent : Type 0 where
  pub device_id : Text
  pub captured_after : Option ℕ
  pub captured_before : Option ℕ
  pub reason : Text
  pub created_at : ℕ

pub record EpochRow : Type 0 where
  pub device_id : Text
  pub epoch : Text

-- `last_asset_id` is what AUTOINCREMENT remembers.
pub record Db : Type 0 where
  pub epochs : List EpochRow
  pub assets : List AssetRow
  pub last_asset_id : ℕ
  pub checksums : List ChecksumRow
  pub sessions : List UploadSession
  pub commit_events : List CommitEvent
  pub reset_events : List ResetEvent

-- UploadedAsset: a row with the epoch of its device and its checksums.
pub record UploadedAsset : Type 0 where
  pub row : AssetRow
  pub ledger_epoch : Text
  pub asset_checksums : List UploadChecksum

pub data UploadError : Type 0 where
  upload_session_not_found device_not_found uploaded_asset_not_found : UploadError
  upload_session_offset_conflict : UploadSession → UploadError
  uploaded_asset_exists : Option UploadedAsset → UploadError
  input_invalid root_key_empty database_failed : UploadError

abbrev pub empty_db : Db
empty_db = record {
  epochs = [];
  assets = [];
  last_asset_id = 0;
  checksums = [];
  sessions = [];
  commit_events = [];
  reset_events = [];
}
