-- ===== src/Uploads/Inputs.antt =====
-- internal/store/upload_store.go: the inputs of the store's methods, and how they are normalised.
use timich_agent.Base.{
  ℕ, ◌==◌, Bool, false, not, ◌||◌, Option, none, some, List, [], ◌∷◌, ltb, if◌then◌else◌, Text,
  codes, text_eq, is_empty, trim_space, Result, ok, err, ℤ, is_negative, to_nat,
}
use timich_agent.Uploads.Rows.{UploadChecksum, UploadError, input_invalid}

pub record UploadSessionInput : Type 0 where
  pub upload_id : Text
  pub device_id : Text
  pub source_asset_id : Text
  pub source_asset_version : Text
  pub media_type : Text
  pub original_filename : Text
  pub captured_at : Option ℕ
  pub expected_size_bytes : Option ℤ
  pub selected_root_key : Text
  pub temp_relative_path : Text
  pub expires_at : Option ℕ
  pub now : ℕ

pub record UploadCommitInput : Type 0 where
  pub upload_id : Text
  pub device_id : Text
  pub source_asset_id : Text
  pub source_asset_version : Text
  pub media_type : Text
  pub original_filename : Text
  pub captured_at : Option ℕ
  pub expected_size_bytes : Option ℤ
  pub final_relative_path : Text
  pub checksums : List UploadChecksum
  pub now : ℕ

pub record UploadResetInput : Type 0 where
  pub device_id : Text
  pub captured_after : Option ℕ
  pub captured_before : Option ℕ
  pub reason : Text
  pub now : ℕ

pub record UploadCleanupInput : Type 0 where
  pub now : ℕ
  pub completed_session_retention : ℤ
  pub aborted_session_retention : ℤ
  pub failed_session_retention : ℤ
  pub commit_event_retention : ℤ
  pub reset_event_retention : ℤ

-- nonZeroTime, for the clock's time at the call.
unfoldable pub non_zero_time : ℕ → ℕ → ℕ
non_zero_time clock value = if value == 0 then clock else value

-- nullableTime
unfoldable pub nullable_time : Option ℕ → Option ℕ
nullable_time none = none
nullable_time (some t) = if t == 0 then none else some t

-- The column of an expected size that is not negative.
abbrev pub nullable_size : Option ℤ → Option ℕ
nullable_size none = none
nullable_size (some size) = some (to_nat size)

abbrev pub is_negative_size : Option ℤ → Bool
is_negative_size none = false
is_negative_size (some size) = is_negative size

abbrev pub any_empty : List Text → Bool
any_empty [] = false
any_empty (t ∷ ts) = is_empty t || any_empty ts

-- The trimmed fields; `expected_size_bytes` stays as it is.
unfoldable pub trim_session_input : ℕ → UploadSessionInput → UploadSessionInput
unfolding non_zero_time
trim_session_input clock i = record i {
  upload_id = trim_space i.upload_id;
  device_id = trim_space i.device_id;
  source_asset_id = trim_space i.source_asset_id;
  source_asset_version = trim_space i.source_asset_version;
  media_type = trim_space i.media_type;
  original_filename = trim_space i.original_filename;
  selected_root_key = trim_space i.selected_root_key;
  temp_relative_path = trim_space i.temp_relative_path;
  now = non_zero_time clock i.now;
}

unfoldable pub normalize_session_input :
    ℕ → UploadSessionInput → Result UploadError UploadSessionInput
unfolding trim_session_input
normalize_session_input clock input =
    let i = trim_session_input clock input in
    if any_empty (
      i.upload_id ∷ i.device_id ∷ i.source_asset_id ∷ i.source_asset_version ∷ i.media_type
      ∷ i.original_filename ∷ i.selected_root_key ∷ i.temp_relative_path ∷ [])
    then err input_invalid
    else if is_negative_size i.expected_size_bytes
    then err input_invalid
    else ok i

-- `to_lower` is strings.ToLower.
unfoldable pub normalize_checksum : (Text → Text) → UploadChecksum → UploadChecksum
normalize_checksum to_lower c =
    let encoding = to_lower (trim_space c.encoding) in
    record {
      algorithm = to_lower (trim_space c.algorithm);
      encoding = if is_empty encoding then codes "hex" else encoding;
      digest = trim_space c.digest;
    }

abbrev pub has_algorithm : Text → List UploadChecksum → Bool
has_algorithm a [] = false
has_algorithm a (c ∷ cs) = text_eq c.algorithm a || has_algorithm a cs

-- The loop over the checksums; `seen` holds those before.
unfoldable pub normalize_checksums :
    (Text → Text)
    → List UploadChecksum
    → List UploadChecksum
    → Result UploadError (List UploadChecksum)
unfolding normalize_checksum
normalize_checksums to_lower seen [] = ok []
normalize_checksums to_lower seen (c ∷ cs) =
    let n = normalize_checksum to_lower c in
    let rest = normalize_checksums to_lower (n ∷ seen) cs in
    if is_empty n.algorithm || (is_empty n.digest || has_algorithm n.algorithm seen)
    then err input_invalid
    else elim rest [ err e ↦ err e | ok ns ↦ ok (n ∷ ns) ]

unfoldable pub trim_commit_input : ℕ → UploadCommitInput → UploadCommitInput
unfolding non_zero_time
trim_commit_input clock i = record i {
  upload_id = trim_space i.upload_id;
  device_id = trim_space i.device_id;
  source_asset_id = trim_space i.source_asset_id;
  source_asset_version = trim_space i.source_asset_version;
  media_type = trim_space i.media_type;
  original_filename = trim_space i.original_filename;
  final_relative_path = trim_space i.final_relative_path;
  now = non_zero_time clock i.now;
}

unfoldable pub normalize_commit_input :
    (Text → Text) → ℕ → UploadCommitInput → Result UploadError UploadCommitInput
unfolding trim_commit_input normalize_checksums
normalize_commit_input to_lower clock input =
    let i = trim_commit_input clock input in
    if any_empty (
      i.upload_id ∷ i.device_id ∷ i.source_asset_id ∷ i.source_asset_version ∷ i.media_type
      ∷ i.original_filename ∷ i.final_relative_path ∷ [])
    then err input_invalid
    else if is_negative_size i.expected_size_bytes
    then err input_invalid
    else elim (normalize_checksums to_lower [] i.checksums) [
      | err e ↦ err e
      | ok checksums ↦ ok (record i { checksums = checksums })
    ]

abbrev pub is_empty_range : Option ℕ → Option ℕ → Bool
is_empty_range (some after) (some before) = not (ltb after before)
is_empty_range _ _ = false

unfoldable pub normalize_reset_input : ℕ → UploadResetInput → Result UploadError UploadResetInput
unfolding non_zero_time
normalize_reset_input clock input =
    let i = record input {
      device_id = trim_space input.device_id;
      reason = trim_space input.reason;
      now = non_zero_time clock input.now;
    } in
    if is_empty i.device_id
    then err input_invalid
    else if is_empty_range i.captured_after i.captured_before
    then err input_invalid
    else ok i
