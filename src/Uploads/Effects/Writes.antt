-- ===== src/Uploads/Effects/Writes.antt =====
-- The three methods of the upload store that write to the table uploaded_assets, and every call.
use timich_agent.Base.{ℕ, ◌≡◌, Bool, ◌&&◌, Option, none, some, List, [], ◌∷◌, Text, ok}
use timich_agent.Uploads.Rows.{AssetRow, UploadChecksum, UploadedAsset}
use timich_agent.Uploads.Action.{Conn, exec, transaction}
use timich_agent.Uploads.Action.Keeps.{
  Keeps, Keeps-pure, Keeps-query, Keeps-bind, Keeps-bind-lift, Keeps-transaction, keeps_rules,
}
use timich_agent.Uploads.Statements.{
  has_asset_id, is_reserved, update_assets, reserve_asset, delete_assets,
}
use timich_agent.Uploads.Inputs.{
  UploadCommitInput, UploadResetInput, normalize_commit_input, normalize_reset_input,
}
use timich_agent.Uploads.Sessions.{
  read_asset, get_uploaded_asset_by_source_identity, get_uploaded_asset_by_upload_id,
  get_uploaded_asset_by_id,
}
use timich_agent.Uploads.Commits.{
  ReadBack, by_id, by_identity, selected_root_key_for_upload_session, upsert_asset_checksums,
  refreshed, marked, new_asset, in_reset_range, update_reservation, met_existing, meet_existing,
  complete_reservation, reserved_or_met, reserve_body, asset_after, read_back,
  reserve_upload_commit, mark_body, mark_uploaded, reset_body, reset_device_upload_state,
}
use timich_agent.Uploads.Cleanup.{upload_cleanup_candidates}
use timich_agent.Uploads.History.{
  Call, asks_epoch, gets_session, creates, advances, aborts, reserves, marks, gets_by_identity,
  gets_by_upload, gets_by_id, checks, resets, lists_candidates, cleans_session, cleans_events,
  cleans, step,
}
use timich_agent.Uploads.Effects.Assets.{
  OnAssets, renew_epoch-OnAssets, update_sessions-OnAssets, delete_sessions-OnAssets,
  upsert_checksum-OnAssets, insert_commit_event-OnAssets, insert_reset_event-OnAssets,
  ledger_epoch-OnAssets, get_session-OnAssets, create_session-OnAssets,
  update_session_progress-OnAssets, abort_session-OnAssets, read_asset-OnAssets,
  check_uploaded-OnAssets, cleanup_upload_session-OnAssets, cleanup_upload_events-OnAssets,
  cleanup_upload_state-OnAssets,
}

-- `Q` outlives the statements of ReserveUploadCommit on the table, for its normalised input.
pub record Reserves (Q : List AssetRow → ℕ → Type 0) (i : UploadCommitInput) : Type 0 where
  pub inserts : (root : Text) → Keeps (OnAssets Q) (exec (reserve_asset (new_asset i root)))
  pub refreshes :
      (root : Text) (id : ℕ)
      → Keeps
          (OnAssets Q)
          (exec (update_assets (λ a. has_asset_id id a && is_reserved a.status) (refreshed i root)))

pub record Marks (Q : List AssetRow → ℕ → Type 0) : Type 0 where
  pub updates :
      (now id : ℕ) → Keeps (OnAssets Q) (exec (update_assets (has_asset_id id) (marked now)))

pub record Resets (Q : List AssetRow → ℕ → Type 0) (i : UploadResetInput) : Type 0 where
  pub deletes :
      Keeps (OnAssets Q) (exec (delete_assets (λ a. in_reset_range i a.device_id a.captured_at)))

module _ (Q : List AssetRow → ℕ → Type 0) where
  upsert_asset_checksums-OnAssets :
      (id : ℕ) (cs : List UploadChecksum) → Keeps (OnAssets Q) (upsert_asset_checksums id cs)
  unfolding upsert_asset_checksums
  upsert_asset_checksums-OnAssets id [] = Keeps-pure tt
  upsert_asset_checksums-OnAssets id (c ∷ cs) =
      Keeps-bind _ _ (upsert_checksum-OnAssets Q id c) λ _. upsert_asset_checksums-OnAssets id cs

  asset_after-OnAssets : (p : AssetRow → Bool) → Keeps (OnAssets Q) (asset_after (read_asset p))
  asset_after-OnAssets p = search (keeps_rules, read_asset-OnAssets Q)

  read_back-OnAssets :
      (i : UploadCommitInput) (back : ReadBack)
      → Keeps (OnAssets Q) (asset_after (read_back i back))
  unfolding get_uploaded_asset_by_id get_uploaded_asset_by_source_identity
  read_back-OnAssets i (by_id id) = asset_after-OnAssets _
  read_back-OnAssets i by_identity = asset_after-OnAssets _

  module _ (i : UploadCommitInput) (r : Reserves Q i) where
    update_reservation-OnAssets :
        (root : Text) (existing : UploadedAsset)
        → Keeps (OnAssets Q) (update_reservation i root existing)
    unfolding update_reservation
    update_reservation-OnAssets root existing =
        search
          (
            keeps_rules,
            r.refreshes,
            upsert_asset_checksums-OnAssets,
            insert_commit_event-OnAssets Q,
          )
          depth 12

    met_existing-OnAssets :
        (root : Text) (existing : UploadedAsset) → Keeps (OnAssets Q) (met_existing i root existing)
    met_existing-OnAssets root existing = search (keeps_rules, update_reservation-OnAssets)

    reserved_or_met-OnAssets :
        (root : Text) (inserted : Option ℕ) → Keeps (OnAssets Q) (reserved_or_met i root inserted)
    unfolding meet_existing complete_reservation get_uploaded_asset_by_source_identity
    reserved_or_met-OnAssets root none =
        search (keeps_rules, read_asset-OnAssets Q, met_existing-OnAssets)
    reserved_or_met-OnAssets root (some id) =
        search (keeps_rules, upsert_asset_checksums-OnAssets, insert_commit_event-OnAssets Q)

    reserve_body-OnAssets : Keeps (OnAssets Q) (reserve_body i)
    unfolding reserve_body selected_root_key_for_upload_session
    reserve_body-OnAssets =
        search (keeps_rules, update_sessions-OnAssets Q, r.inserts, reserved_or_met-OnAssets) depth
          14

  reserve_upload_commit-OnAssets :
      (to_lower : Text → Text) (clock : ℕ) (input : UploadCommitInput)
      → ((i : UploadCommitInput)
          → normalize_commit_input to_lower clock input ≡ ok i
          → Reserves Q i)
      → Keeps (OnAssets Q) (reserve_upload_commit to_lower clock input)
  unfolding reserve_upload_commit
  reserve_upload_commit-OnAssets to_lower clock input r =
      Keeps-bind-lift (normalize_commit_input to_lower clock input) _ λ i e.
        Keeps-bind _ _
          (Keeps-transaction (OnAssets Q) (reserve_body i) (reserve_body-OnAssets i (r i e)))
          (read_back-OnAssets i)

  mark_uploaded-OnAssets :
      Marks Q → (clock id now : ℕ) → Keeps (OnAssets Q) (mark_uploaded clock id now)
  unfolding mark_uploaded mark_body get_uploaded_asset_by_id
  mark_uploaded-OnAssets m clock id now =
      search
        (
          keeps_rules,
          m.updates,
          update_sessions-OnAssets Q,
          insert_commit_event-OnAssets Q,
          read_asset-OnAssets Q,
        )
        depth 16

  reset_body-OnAssets :
      (random : Text) (i : UploadResetInput) → Resets Q i → Keeps (OnAssets Q) (reset_body random i)
  unfolding reset_body
  reset_body-OnAssets random i r = Keeps-bind _ _ (renew_epoch-OnAssets Q _ _) λ _.
      Keeps-bind _ _ (Keeps-query _) λ files. Keeps-bind _ _ (r.deletes) λ removed.
        Keeps-bind _ _ (delete_sessions-OnAssets Q _)
          λ sessions. Keeps-bind _ _ (insert_reset_event-OnAssets Q _) λ _. Keeps-pure _

  reset_device_upload_state-OnAssets :
      (clock : ℕ) (random : Text) (input : UploadResetInput)
      → ((i : UploadResetInput) → normalize_reset_input clock input ≡ ok i → Resets Q i)
      → Keeps (OnAssets Q) (reset_device_upload_state clock random input)
  unfolding reset_device_upload_state
  reset_device_upload_state-OnAssets clock random input r =
      Keeps-bind-lift (normalize_reset_input clock input) (λ i. transaction (reset_body random i))
        λ i e.
          Keeps-transaction (OnAssets Q) (reset_body random i)
            (reset_body-OnAssets random i (r i e))

-- What a call needs of `Q` for `Q` to hold after it.
abbrev pub Writes : (Text → Text) → (List AssetRow → ℕ → Type 0) → Call → Type 0
Writes l Q (reserves clock input) =
    (i : UploadCommitInput) → normalize_commit_input l clock input ≡ ok i → Reserves Q i
Writes l Q (marks clock id now) = Marks Q
Writes l Q (resets clock random input) =
    (i : UploadResetInput) → normalize_reset_input clock input ≡ ok i → Resets Q i
Writes l Q _ = Unit

pub step-OnAssets :
    (Q : List AssetRow → ℕ → Type 0) (to_lower : Text → Text) (call : Call)
    → Writes to_lower Q call
    → (c : Conn) → OnAssets Q c.db
    → OnAssets Q (step to_lower call c).db
unfolding step get_uploaded_asset_by_source_identity get_uploaded_asset_by_upload_id
    get_uploaded_asset_by_id upload_cleanup_candidates
step-OnAssets Q l (asks_epoch random device) w c = (ledger_epoch-OnAssets Q random device).at c
step-OnAssets Q l (gets_session id) w c = (get_session-OnAssets Q id).at c
step-OnAssets Q l (creates clock random i) w c = (create_session-OnAssets Q clock random i).at c
step-OnAssets Q l (advances clock id e n now) w c =
    (update_session_progress-OnAssets Q clock id e n now).at c
step-OnAssets Q l (aborts clock id device now) w c =
    (abort_session-OnAssets Q clock id device now).at c
step-OnAssets Q l (reserves clock i) w c = (reserve_upload_commit-OnAssets Q l clock i w).at c
step-OnAssets Q l (marks clock id now) w c = (mark_uploaded-OnAssets Q w clock id now).at c
step-OnAssets Q l (gets_by_identity d s v) w c = (read_asset-OnAssets Q _).at c
step-OnAssets Q l (gets_by_upload id) w c = (read_asset-OnAssets Q _).at c
step-OnAssets Q l (gets_by_id id) w c = (read_asset-OnAssets Q _).at c
step-OnAssets Q l (checks random device is) w c = (check_uploaded-OnAssets Q random device is).at c
step-OnAssets Q l (resets clock random i) w c =
    (reset_device_upload_state-OnAssets Q clock random i w).at c
step-OnAssets Q l (lists_candidates clock i) w c = (Keeps-query {P = OnAssets Q} _).at c
step-OnAssets Q l (cleans_session clock id i) w c =
    (cleanup_upload_session-OnAssets Q clock id i).at c
step-OnAssets Q l (cleans_events clock i) w c = (cleanup_upload_events-OnAssets Q clock i).at c
step-OnAssets Q l (cleans clock i) w c = (cleanup_upload_state-OnAssets Q clock i).at c
