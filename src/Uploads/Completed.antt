-- ===== src/Uploads/Completed.antt =====
-- What MarkUploaded establishes, and that it lasts until a reset of the device.
use timich_agent.Base.{
  ℕ, ◌≡◌, ap, ◌∙◌, Bool, true, ◌&&◌, inl, inr, Option, some, List, [], ◌∷◌, Text, text_eq,
  text_eq_self, text_eq_complete, not, subst, arith, Result, ok, trim_space,
}
use timich_agent.Uploads.Rows.{Db, UploadError, AssetRow, AssetStatus, UploadedAsset, uploaded}
use timich_agent.Uploads.Action.{Conn, statement, finish, transaction}
use timich_agent.Uploads.Action.Atomic.{sound}
use timich_agent.Uploads.Statements.{
  first, update_where, has_identity, has_asset_id, update_assets, update_sessions,
  insert_commit_event,
}
use timich_agent.Uploads.Inputs.{UploadResetInput, normalize_reset_input, non_zero_time}
use timich_agent.Uploads.Sessions.{get_uploaded_asset_by_id, read_asset}
use timich_agent.Uploads.Commits.{marked, mark_body, mark_uploaded}
use timich_agent.Uploads.Atomicity.{mark_uploaded-Atomic}
use timich_agent.Uploads.Tables.{first-other}
use timich_agent.Uploads.History.{Call, marks, resets, reserves, step, run}
use timich_agent.Uploads.Effects.Assets.{OnAssets}
use timich_agent.Uploads.Effects.Writes.{step-OnAssets}
use timich_agent.Uploads.Unique.{IsUnique, Writes-IsUnique}
use timich_agent.Uploads.Ledger.{ledger_status, status_of, Moves, step-Moves}

marked-first :
    (now id : ℕ) (assets : List AssetRow) (a : AssetRow)
    → first (has_asset_id id) (update_where (has_asset_id id) (marked now) assets) ≡ some a
    → a.status ≡ uploaded
marked-first now id [] a e = cc
marked-first now id (b ∷ bs) a e = ground (arith, marked-first now id bs a)

-- Where MarkUploaded returns an asset, it is the first with that id, and uploaded.
mark_uploaded-sound :
    (clock id now : ℕ) (db db' : Db) (r : UploadedAsset)
    → mark_uploaded clock id now (sound db) ≡ (sound db', ok r)
    → (first (has_asset_id id) db'.assets ≡ some r.row) × (r.row.status ≡ uploaded)
unfolding mark_uploaded mark_body transaction finish statement get_uploaded_asset_by_id read_asset
    update_assets update_sessions insert_commit_event
mark_uploaded-sound clock id now db db' r e =
    ground (arith, e, marked-first (non_zero_time clock now) id db.assets r.row)

same_identity :
    (a : AssetRow) → has_identity a.device_id a.source_asset_id a.source_asset_version a ≡ true
same_identity a =
    rw (text_eq_self a.device_id)
      (rw (text_eq_self a.source_asset_id) (text_eq_self a.source_asset_version))

pub mark_uploaded-IsUnique :
    (clock id now : ℕ) (c c' : Conn) (r : Result UploadError UploadedAsset)
    → OnAssets IsUnique c.db
    → mark_uploaded clock id now c ≡ (c', r)
    → OnAssets IsUnique c'.db
unfolding step
mark_uploaded-IsUnique clock id now c c' r u e =
    subst (λ x. OnAssets IsUnique x.0.db) e
      (step-OnAssets IsUnique (λ t. t) (marks clock id now)
        (Writes-IsUnique (λ t. t) (marks clock id now)) c u)

-- Where MarkUploaded returns an asset, the ledger has it as uploaded.
pub mark_uploaded-status :
    (clock id now : ℕ) (c c' : Conn) (r : UploadedAsset)
    → OnAssets IsUnique c.db
    → mark_uploaded clock id now c ≡ (c', ok r)
    → ledger_status r.row.device_id r.row.source_asset_id r.row.source_asset_version c'.db.assets
      ≡ some uploaded
mark_uploaded-status clock id now c c' r u e =
    let a = r.row in
    let (found, done) =
      mark_uploaded-sound clock id now c.db c'.db r
        ((mark_uploaded-Atomic clock id now c).returns c' r e) in
    ap status_of (
      first-other (has_identity a.device_id a.source_asset_id a.source_asset_version)
        (has_asset_id id) c'.db.assets a
        ((mark_uploaded-IsUnique clock id now c c' (ok r) u e).identity a.device_id
          a.source_asset_id a.source_asset_version)
        found (same_identity a))
    ∙ ap some done

-- The call does not reset the device.
abbrev pub spares : Text → Call → Bool
spares device (resets clock random input) = not (text_eq (trim_space input.device_id) device)
spares device _ = true

abbrev pub all_spare : Text → List Call → Bool
all_spare device [] = true
all_spare device (call ∷ calls) = spares device call && all_spare device calls

reset_device :
    (clock : ℕ) (input i : UploadResetInput)
    → normalize_reset_input clock input ≡ ok i
    → trim_space input.device_id ≡ i.device_id
unfolding normalize_reset_input
reset_device clock input i e = ground (arith, e)

Moves-uploaded :
    (device source version : Text) (l : Text → Text) (call : Call) (after : Option AssetStatus)
    → spares device call ≡ true
    → Moves device source version l call (some uploaded) after
    → after ≡ some uploaded
Moves-uploaded device source version l (reserves clock input) after s (inl e) = e
Moves-uploaded device source version l (reserves clock input) after s (inr (e, _, _)) = cc
Moves-uploaded device source version l (marks clock id now) after s (inl e) = e
Moves-uploaded device source version l (marks clock id now) after s (inr (e, f)) = cc
Moves-uploaded device source version l (resets clock random input) after s (inl e) = e
Moves-uploaded device source version l (resets clock random input) after s
      (inr (e, (i, ok_i, own))) =
    ground (
      arith,
      s,
      text_eq_complete (trim_space input.device_id) device (reset_device clock input i ok_i ∙ own),
    )
Moves-uploaded device source version l _ after s m = m

pub run-uploaded :
    (device source version : Text) (l : Text → Text) (calls : List Call) (c : Conn)
    → OnAssets IsUnique c.db
    → all_spare device calls ≡ true
    → ledger_status device source version c.db.assets ≡ some uploaded
    → ledger_status device source version (run l calls c).db.assets ≡ some uploaded
unfolding run
run-uploaded device source version l [] c u s e = e
run-uploaded device source version l (call ∷ calls) c u s e =
    let m = step-Moves device source version l call c u in
    run-uploaded device source version l calls (step l call c)
      (step-OnAssets IsUnique l call (Writes-IsUnique l call) c u) (ground (arith, s))
      (Moves-uploaded device source version l call _ (ground (arith, s)) (
        subst
          (λ x.
            Moves device source version l call x
              (ledger_status device source version (step l call c).db.assets))
          e m))
