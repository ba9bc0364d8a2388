-- ===== src/Tests/Uploads.antt =====
-- internal/store: runs of the upload store on concrete inputs.
use timich_agent.Base.{
  ◌≡◌, refl, ◌⊎◌, inr, true, false, Bool, some, none, List, [], ◌∷◌, ℕ, Text, codes, ok, err, pos,
  arith, trim_space, is_empty, is_space, split_at, text_eq, trim_left, trim_right, trim_right_char,
}
use timich_agent.Uploads.Rows.{
  UploadSession, UploadedAsset, uploaded, UploadError, active, empty_db,
}
use timich_agent.Uploads.Action.{Conn, finish, statement, transaction}
use timich_agent.Uploads.Action.Atomic.{sound}
use timich_agent.Uploads.Statements.{
  first, has_session_id, checksums_for_asset, delete_assets, delete_sessions, insert_commit_event,
  insert_epoch, insert_reset_event, insert_session, renew_epoch, reserve_asset, update_assets,
  update_sessions, upsert_checksum,
}
use timich_agent.Uploads.Inputs.{
  UploadSessionInput, UploadCommitInput, UploadCleanupInput, UploadResetInput,
  normalize_session_input, normalize_commit_input, trim_session_input, non_zero_time,
  normalize_checksum, normalize_checksums, normalize_reset_input, nullable_time, trim_commit_input,
}
use timich_agent.Uploads.Sessions.{
  create_session, update_session_progress, check_uploaded, abort_session, advance_session,
  check_body, check_identities, compare_and_set, create_normalized, get_session,
  get_uploaded_asset_by_id, get_uploaded_asset_by_source_identity, get_uploaded_asset_by_upload_id,
  ledger_epoch, read_asset,
}
use timich_agent.Uploads.Commits.{
  reserve_upload_commit, mark_uploaded, complete_reservation, in_reset_range, mark_body,
  meet_existing, reserve_body, reset_body, reset_device_upload_state,
  selected_root_key_for_upload_session, update_reservation, upsert_asset_checksums,
}
use timich_agent.Uploads.Cleanup.{
  cleanup_upload_state, cleanup_candidates, cleanup_upload_events, cleanup_upload_session,
  delete_commit_events, delete_reset_events, removed_session, upload_cleanup_candidates,
  upload_cleanup_predicate,
}
use timich_agent.Uploads.History.{
  Call, creates, advances, reserves, marks, checks, cleans, step, run,
}
use timich_agent.Uploads.Recorded.{Answers}
use timich_agent.Uploads.Checks.{identity_of, mark_uploaded-check_uploaded}
use timich_agent.Uploads.Unique.{run-IsUnique}
use timich_agent.Uploads.Effects.Assets.{OnAssets}
use timich_agent.Uploads.Unique.{IsUnique}
use timich_agent.Uploads.Ledger.{ledger_status, Moves, run-step-Moves}
use timich_agent.Uploads.Stale.{update_session_progress-once}
use timich_agent.Uploads.Progress.{run-OneEach}
use timich_agent.Uploads.Protected.{cleanup_upload_state-keeps}
use timich_agent.Uploads.Checks.{check_uploaded-Answers}
use timich_agent.Uploads.Atomicity.{commits-IsWhole}
use timich_agent.Uploads.Action.Atomic.{IsWhole}

abbrev initial : List Bool → Conn
initial outcomes = record { outcomes = outcomes; db = empty_db }

abbrev session_input : Text → UploadSessionInput
session_input source = record {
  upload_id = codes "u1";
  device_id = codes "d1";
  source_asset_id = source;
  source_asset_version = codes "1";
  media_type = codes "m";
  original_filename = codes "f";
  captured_at = some 5;
  expected_size_bytes = some (pos 20);
  selected_root_key = codes "r";
  temp_relative_path = codes "t";
  expires_at = some 900;
  now = 10;
}

abbrev commit_input : UploadCommitInput
commit_input = record {
  upload_id = codes "u1";
  device_id = codes "d1";
  source_asset_id = codes "a1";
  source_asset_version = codes "1";
  media_type = codes "m";
  original_filename = codes "f";
  captured_at = some 5;
  expected_size_bytes = some (pos 20);
  final_relative_path = codes "p";
  checksums = [];
  now = 30;
}

abbrev started : List Call
started = creates 10 (codes "e1") (session_input (codes "a1")) ∷ []

abbrev before_mark : List Call
before_mark =
    creates 10 (codes "e1") (session_input (codes "a1"))
    ∷ advances 11 (codes "u1") (pos 0) (pos 20) 11
    ∷ reserves 30 commit_input
    ∷ []

same_text : Text → Text
same_text t = t

abbrev reserved_conn : Conn
reserved_conn = run same_text before_mark (initial [])

abbrev marked_asset : UploadedAsset
marked_asset = record {
  row = record {
    id = 1;
    device_id = codes "d1";
    source_asset_id = codes "a1";
    source_asset_version = codes "1";
    upload_id = codes "u1";
    status = uploaded;
    media_type = codes "m";
    original_filename = codes "f";
    captured_at = some 5;
    expected_size_bytes = some 20;
    selected_root_key = codes "r";
    final_relative_path = codes "p";
    created_at = 30;
    updated_at = 40;
    committing_at = some 30;
    uploaded_at = some 40;
  };
  ledger_epoch = codes "e1";
  asset_checksums = [];
}

abbrev after_mark : Conn
after_mark = (mark_uploaded 40 1 40 reserved_conn).0

marks_asset : mark_uploaded 40 1 40 reserved_conn ≡ (after_mark, ok marked_asset)
unfolding abort_session advance_session check_body check_identities check_uploaded
    checksums_for_asset cleanup_candidates cleanup_upload_events cleanup_upload_session
    cleanup_upload_state compare_and_set complete_reservation create_normalized create_session
    delete_assets delete_commit_events delete_reset_events delete_sessions finish get_session
    get_uploaded_asset_by_id get_uploaded_asset_by_source_identity get_uploaded_asset_by_upload_id
    in_reset_range insert_commit_event insert_epoch insert_reset_event insert_session is_space
    ledger_epoch mark_body mark_uploaded meet_existing non_zero_time normalize_checksum
    normalize_checksums normalize_commit_input normalize_reset_input normalize_session_input
    nullable_time read_asset removed_session renew_epoch reserve_asset reserve_body
    reserve_upload_commit reset_body reset_device_upload_state run
    selected_root_key_for_upload_session split_at statement step text_eq transaction
    trim_commit_input trim_left trim_right trim_right_char trim_session_input trim_space
    update_assets update_reservation update_session_progress update_sessions
    upload_cleanup_candidates upload_cleanup_predicate upsert_asset_checksums upsert_checksum
marks_asset = refl

abbrev cleanup_input : UploadCleanupInput
cleanup_input = record {
  now = 100;
  completed_session_retention = pos 10;
  aborted_session_retention = pos 10;
  failed_session_retention = pos 10;
  commit_event_retention = pos 10;
  reset_event_retention = pos 10;
}

-- The same asset is sent again, and the cleanup runs, with a statement that fails.
abbrev later_calls : List Call
later_calls = reserves 50 commit_input ∷ cleans 2000 cleanup_input ∷ []

device_trimmed : trim_space (codes " d1") ≡ codes "d1"
unfolding trim_space trim_left trim_right is_space
device_trimmed = refl

mark_uploaded-check_uploaded_example :
    let later = run same_text later_calls after_mark in
    let asset = identity_of marked_asset ∷ [] in
    (((e : UploadError) × ((check_uploaded (codes "e2") (codes " d1") asset later).1 ≡ err e))
      ⊎ ((epoch : Text) × ((check_uploaded (codes "e2") (codes " d1") asset later).1
            ≡ ok (epoch, true ∷ []))))
    × ((epoch : Text) × ((check_uploaded (codes "e2") (codes " d1") asset (sound later.db)).1
          ≡ ok (epoch, true ∷ [])))
unfolding trim_space trim_left trim_right is_space text_eq
mark_uploaded-check_uploaded_example =
    mark_uploaded-check_uploaded same_text 40 1 40 reserved_conn after_mark marked_asset later_calls
      (codes "e2") (codes " d1") (run-IsUnique same_text before_mark []) marks_asset refl
      device_trimmed refl

run-IsUnique_example :
    OnAssets IsUnique (run same_text before_mark (initial (true ∷ true ∷ false ∷ []))).db
run-IsUnique_example = run-IsUnique same_text before_mark (true ∷ true ∷ false ∷ [])

run-step-Moves_example :
    let c = run same_text before_mark (initial []) in
    Moves
      (codes "d1")
      (codes "a1")
      (codes "1")
      same_text
      (marks 40 1 40)
      (ledger_status (codes "d1") (codes "a1") (codes "1") c.db.assets)
      (ledger_status
        (codes "d1")
        (codes "a1")
        (codes "1")
        (step same_text (marks 40 1 40) c).db.assets)
run-step-Moves_example =
    run-step-Moves (codes "d1") (codes "a1") (codes "1") same_text [] before_mark (marks 40 1 40)

abbrev started_conn : Conn
started_conn = run same_text started (initial [])

abbrev session_at : ℕ → ℕ → UploadSession
session_at offset updated = record {
  upload_id = codes "u1";
  device_id = codes "d1";
  source_asset_id = codes "a1";
  source_asset_version = codes "1";
  status = active;
  media_type = codes "m";
  original_filename = codes "f";
  captured_at = some 5;
  expected_size_bytes = some 20;
  next_offset = offset;
  selected_root_key = codes "r";
  temp_relative_path = codes "t";
  final_relative_path = none;
  created_at = 10;
  updated_at = updated;
  expires_at = some 900;
}

abbrev advanced_conn : Conn
advanced_conn = (update_session_progress 11 (codes "u1") (pos 0) (pos 8) 11 started_conn).0

advances_session :
    update_session_progress 11 (codes "u1") (pos 0) (pos 8) 11 started_conn
    ≡ (advanced_conn, ok (session_at 8 11))
unfolding abort_session advance_session check_body check_identities check_uploaded
    checksums_for_asset cleanup_candidates cleanup_upload_events cleanup_upload_session
    cleanup_upload_state compare_and_set complete_reservation create_normalized create_session
    delete_assets delete_commit_events delete_reset_events delete_sessions finish get_session
    get_uploaded_asset_by_id get_uploaded_asset_by_source_identity get_uploaded_asset_by_upload_id
    in_reset_range insert_commit_event insert_epoch insert_reset_event insert_session is_space
    ledger_epoch mark_body mark_uploaded meet_existing non_zero_time normalize_checksum
    normalize_checksums normalize_commit_input normalize_reset_input normalize_session_input
    nullable_time read_asset removed_session renew_epoch reserve_asset reserve_body
    reserve_upload_commit reset_body reset_device_upload_state run
    selected_root_key_for_upload_session split_at statement step text_eq transaction
    trim_commit_input trim_left trim_right trim_right_char trim_session_input trim_space
    update_assets update_reservation update_session_progress update_sessions
    upload_cleanup_candidates upload_cleanup_predicate upsert_asset_checksums upsert_checksum
advances_session = refl

update_session_progress-once_example :
    (e : UploadError) × ((update_session_progress 12
        (codes "u1")
        (pos 0)
        (pos 6)
        12
        (run same_text (checks (codes "e1") (codes "d1") [] ∷ []) advanced_conn)).1
      ≡ err e)
update_session_progress-once_example =
    update_session_progress-once same_text 11 (codes "u1") 0 8 11 started_conn advanced_conn
      (session_at 8 11) (checks (codes "e1") (codes "d1") [] ∷ []) 12 0 6 12
      (run-OneEach same_text started (initial []) (λ id. omega arith)) (omega arith)
      advances_session refl (omega arith)

session_kept : first (has_session_id (codes "u1")) started_conn.db.sessions ≡ some (session_at 0 10)
unfolding abort_session advance_session check_body check_identities check_uploaded
    checksums_for_asset cleanup_candidates cleanup_upload_events cleanup_upload_session
    cleanup_upload_state compare_and_set complete_reservation create_normalized create_session
    delete_assets delete_commit_events delete_reset_events delete_sessions finish get_session
    get_uploaded_asset_by_id get_uploaded_asset_by_source_identity get_uploaded_asset_by_upload_id
    in_reset_range insert_commit_event insert_epoch insert_reset_event insert_session is_space
    ledger_epoch mark_body mark_uploaded meet_existing non_zero_time normalize_checksum
    normalize_checksums normalize_commit_input normalize_reset_input normalize_session_input
    nullable_time read_asset removed_session renew_epoch reserve_asset reserve_body
    reserve_upload_commit reset_body reset_device_upload_state run
    selected_root_key_for_upload_session split_at statement step text_eq transaction
    trim_commit_input trim_left trim_right trim_right_char trim_session_input trim_space
    update_assets update_reservation update_session_progress update_sessions
    upload_cleanup_candidates upload_cleanup_predicate upsert_asset_checksums upsert_checksum
session_kept = refl

cleanup_upload_state-keeps_example :
    first
      (has_session_id (codes "u1"))
      (cleanup_upload_state 100 cleanup_input started_conn).0.db.sessions
    ≡ some (session_at 0 10)
unfolding non_zero_time
cleanup_upload_state-keeps_example =
    cleanup_upload_state-keeps 100 cleanup_input (codes "u1") (session_at 0 10) started_conn
      (run-OneEach same_text started (initial []) (λ id. omega arith)) session_kept
      (inr (refl, refl))

abbrev checked_conn : Conn
checked_conn =
    (check_uploaded (codes "e2") (codes "d1") (identity_of marked_asset ∷ []) reserved_conn).0

checks_asset :
    check_uploaded (codes "e2") (codes "d1") (identity_of marked_asset ∷ []) reserved_conn
    ≡ (checked_conn, ok (codes "e1", false ∷ []))
unfolding abort_session advance_session check_body check_identities check_uploaded
    checksums_for_asset cleanup_candidates cleanup_upload_events cleanup_upload_session
    cleanup_upload_state compare_and_set complete_reservation create_normalized create_session
    delete_assets delete_commit_events delete_reset_events delete_sessions finish get_session
    get_uploaded_asset_by_id get_uploaded_asset_by_source_identity get_uploaded_asset_by_upload_id
    in_reset_range insert_commit_event insert_epoch insert_reset_event insert_session is_space
    ledger_epoch mark_body mark_uploaded meet_existing non_zero_time normalize_checksum
    normalize_checksums normalize_commit_input normalize_reset_input normalize_session_input
    nullable_time read_asset removed_session renew_epoch reserve_asset reserve_body
    reserve_upload_commit reset_body reset_device_upload_state run
    selected_root_key_for_upload_session split_at statement step text_eq transaction
    trim_commit_input trim_left trim_right trim_right_char trim_session_input trim_space
    update_assets update_reservation update_session_progress update_sessions
    upload_cleanup_candidates upload_cleanup_predicate upsert_asset_checksums upsert_checksum
checks_asset = refl

device_there : is_empty (trim_space (codes "d1")) ≡ false
unfolding trim_space trim_left trim_right is_space
device_there = refl

check_uploaded-Answers_example :
    Answers
      (trim_space (codes "d1"))
      reserved_conn.db.assets
      (identity_of marked_asset ∷ [])
      (false ∷ [])
check_uploaded-Answers_example =
    check_uploaded-Answers (codes "e2") (codes "d1") (identity_of marked_asset ∷ []) reserved_conn
      checked_conn (codes "e1") (false ∷ []) device_there checks_asset

abbrev reset_input : UploadResetInput
reset_input = record {
  device_id = codes "d1";
  captured_after = none;
  captured_before = some 9;
  reason = codes "r";
  now = 60;
}

-- A connection whose fourth statement fails.
abbrev failing : Conn
failing = record { outcomes = true ∷ true ∷ true ∷ false ∷ []; db = reserved_conn.db }

commits-IsWhole_example :
    IsWhole (reserve_upload_commit same_text 30 commit_input) failing
    × IsWhole (mark_uploaded 30 1 40) failing
    × IsWhole (reset_device_upload_state 30 (codes "e3") reset_input) failing
commits-IsWhole_example =
    commits-IsWhole same_text 30 commit_input 1 40 (codes "e3") reset_input failing
