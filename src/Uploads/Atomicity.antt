-- ===== src/Uploads/Atomicity.antt =====
-- ReserveUploadCommit, MarkUploaded and ResetDeviceUploadState happen as a whole or not at all.
use timich_agent.Base.{ℕ, Bool, true, false, Option, none, some, List, [], ◌∷◌, if◌then◌else◌, Text}
use timich_agent.Uploads.Rows.{Db, UploadChecksum, UploadedAsset, AssetRow, UploadError}
use timich_agent.Uploads.Action.{Action, Conn, some_or, query, ◌>>=◌}
use timich_agent.Uploads.Action.Keeps.{Keeps-pure, Keeps-query, Keeps-some_or, Keeps-bind}
use timich_agent.Uploads.Action.Atomic.{
  Uniform, Uniform-pure, Uniform-raise, Uniform-exec, Uniform-query, Uniform-bind, Atomic, IsWhole,
  Atomic-IsWhole, ReadOnly, transaction-Atomic, transaction-reads-Atomic, lift-Atomic,
}
use timich_agent.Uploads.Inputs.{
  UploadCommitInput, UploadResetInput, normalize_commit_input, normalize_reset_input,
}
use timich_agent.Uploads.Sessions.{
  scan_asset, read_asset, get_uploaded_asset_by_id, get_uploaded_asset_by_source_identity,
}
use timich_agent.Uploads.Commits.{
  ReadBack, by_id, by_identity, selected_root_key_for_upload_session, met_existing, reserved_or_met,
  upsert_asset_checksums, update_reservation, meet_existing, complete_reservation, reserve_body,
  read_back, reserve_upload_commit, mark_body, mark_uploaded, reset_body, reset_device_upload_state,
  asset_after,
}

module _ {A : Type 0} where
  pub Uniform-some_or : (e : UploadError) (o : Option A) → Uniform (some_or e o)
  Uniform-some_or e none = Uniform-raise e
  Uniform-some_or e (some a) = Uniform-pure a

  pub Uniform-if :
      (b : Bool) (m n : Action A) → Uniform m → Uniform n → Uniform (if b then m else n)
  Uniform-if true m n um un = um
  Uniform-if false m n um un = un

pub ruleset uniform_rules = (
  Uniform-pure, Uniform-raise, Uniform-exec, Uniform-query, Uniform-bind, Uniform-some_or,
  Uniform-if,
)

scan_asset-Uniform : (found : Option (AssetRow × Option Text)) → Uniform (scan_asset found)
scan_asset-Uniform none = search uniform_rules
scan_asset-Uniform (some (a, epoch)) = search uniform_rules

read_asset-Uniform : (p : AssetRow → Bool) → Uniform (read_asset p)
unfolding read_asset
read_asset-Uniform p = search (uniform_rules, scan_asset-Uniform)

upsert_asset_checksums-Uniform :
    (id : ℕ) (cs : List UploadChecksum) → Uniform (upsert_asset_checksums id cs)
unfolding upsert_asset_checksums
upsert_asset_checksums-Uniform id [] = Uniform-pure tt
upsert_asset_checksums-Uniform id (c ∷ cs) =
    Uniform-bind _ _ (Uniform-exec _) (λ _. upsert_asset_checksums-Uniform id cs)

update_reservation-Uniform :
    (i : UploadCommitInput) (root : Text) (existing : UploadedAsset)
    → Uniform (update_reservation i root existing)
unfolding update_reservation
update_reservation-Uniform i root existing = search (uniform_rules, upsert_asset_checksums-Uniform)

met-Uniform :
    (i : UploadCommitInput) (root : Text) (existing : UploadedAsset)
    → Uniform (met_existing i root existing)
met-Uniform i root existing = search (uniform_rules, update_reservation-Uniform)

meet_existing-Uniform : (i : UploadCommitInput) (root : Text) → Uniform (meet_existing i root)
unfolding meet_existing get_uploaded_asset_by_source_identity
meet_existing-Uniform i root = search (uniform_rules, read_asset-Uniform, met-Uniform)

complete_reservation-Uniform :
    (i : UploadCommitInput) (id : ℕ) → Uniform (complete_reservation i id)
unfolding complete_reservation
complete_reservation-Uniform i id = search (uniform_rules, upsert_asset_checksums-Uniform)

reserved-Uniform :
    (i : UploadCommitInput) (root : Text) (inserted : Option ℕ)
    → Uniform (reserved_or_met i root inserted)
reserved-Uniform i root none = meet_existing-Uniform i root
reserved-Uniform i root (some id) = complete_reservation-Uniform i id

reserve_body-Uniform : (i : UploadCommitInput) → Uniform (reserve_body i)
unfolding reserve_body selected_root_key_for_upload_session
reserve_body-Uniform i = search (uniform_rules, reserved-Uniform) depth 12

mark_body-Uniform : (now id : ℕ) → Uniform (mark_body now id)
unfolding mark_body
mark_body-Uniform now id = search uniform_rules depth 12

reset_body-Uniform : (random : Text) (i : UploadResetInput) → Uniform (reset_body random i)
unfolding reset_body
reset_body-Uniform random i = search uniform_rules depth 12

-- Reads.
module _ {A B : Type 0} where
  ReadOnly-bind :
      (m : Action A) (f : A → Action B)
      → ReadOnly m
      → ((a : A) → ReadOnly (f a))
      → ReadOnly (m >>= f)
  ReadOnly-bind m f rm rf before = Keeps-bind m f (rm before) (λ a. rf a before)

some_or-ReadOnly : {A : Type 0} (e : UploadError) (o : Option A) → ReadOnly (some_or e o)
some_or-ReadOnly e o before = Keeps-some_or e o

query-ReadOnly : {A : Type 0} (f : Db → A) → ReadOnly (query f)
query-ReadOnly f before = Keeps-query f

scan_asset-ReadOnly : (found : Option (AssetRow × Option Text)) → ReadOnly (scan_asset found)
scan_asset-ReadOnly none = λ before. Keeps-pure none
scan_asset-ReadOnly (some (a, epoch)) =
    ReadOnly-bind _ _ (some_or-ReadOnly _ epoch)
      λ e. ReadOnly-bind _ _ (query-ReadOnly _) λ checksums before. Keeps-pure _

pub read_asset-ReadOnly : (p : AssetRow → Bool) → ReadOnly (read_asset p)
unfolding read_asset
read_asset-ReadOnly p = ReadOnly-bind _ _ (query-ReadOnly _) scan_asset-ReadOnly

asset_after-Uniform : (p : AssetRow → Bool) → Uniform (asset_after (read_asset p))
asset_after-Uniform p = search (uniform_rules, read_asset-Uniform)

asset_after-ReadOnly : (p : AssetRow → Bool) → ReadOnly (asset_after (read_asset p))
asset_after-ReadOnly p = ReadOnly-bind _ _ (read_asset-ReadOnly p) (some_or-ReadOnly _)

read_back-Uniform :
    (i : UploadCommitInput) (back : ReadBack) → Uniform (asset_after (read_back i back))
unfolding get_uploaded_asset_by_id get_uploaded_asset_by_source_identity
read_back-Uniform i (by_id id) = asset_after-Uniform _
read_back-Uniform i by_identity = asset_after-Uniform _

read_back-ReadOnly :
    (i : UploadCommitInput) (back : ReadBack) → ReadOnly (asset_after (read_back i back))
unfolding get_uploaded_asset_by_id get_uploaded_asset_by_source_identity
read_back-ReadOnly i (by_id id) = asset_after-ReadOnly _
read_back-ReadOnly i by_identity = asset_after-ReadOnly _

pub reserve_upload_commit-Atomic :
    (to_lower : Text → Text) (clock : ℕ) (input : UploadCommitInput) (c : Conn)
    → Atomic (reserve_upload_commit to_lower clock input) c
unfolding reserve_upload_commit
reserve_upload_commit-Atomic to_lower clock input c =
    lift-Atomic (normalize_commit_input to_lower clock input) _ c λ i.
      transaction-reads-Atomic (reserve_body i) (λ back. asset_after (read_back i back))
        (reserve_body-Uniform i) (read_back-Uniform i) (read_back-ReadOnly i) c

pub mark_uploaded-Atomic : (clock id now : ℕ) (c : Conn) → Atomic (mark_uploaded clock id now) c
unfolding mark_uploaded get_uploaded_asset_by_id
mark_uploaded-Atomic clock id now c =
    transaction-reads-Atomic (mark_body _ id) (λ _. asset_after (get_uploaded_asset_by_id id))
      (mark_body-Uniform _ id) (λ _. asset_after-Uniform _) (λ _. asset_after-ReadOnly _) c

reset_device_upload_state-Atomic :
    (clock : ℕ) (random : Text) (input : UploadResetInput) (c : Conn)
    → Atomic (reset_device_upload_state clock random input) c
unfolding reset_device_upload_state
reset_device_upload_state-Atomic clock random input c =
    lift-Atomic (normalize_reset_input clock input) _ c
      λ i. transaction-Atomic (reset_body random i) (reset_body-Uniform random i) c

-- Whichever statements fail, ReserveUploadCommit, MarkUploaded and ResetDeviceUploadState each do their
-- work as a whole or not at all: the call fails and leaves the database as it was or as the same call
-- without failures leaves it, or it returns what that call returns and leaves the database as that does.
pub commits-IsWhole :
    (to_lower : Text → Text) (clock : ℕ) (commit : UploadCommitInput) (id now : ℕ) (random : Text)
    (reset : UploadResetInput) (c : Conn)
    → IsWhole (reserve_upload_commit to_lower clock commit) c
      × IsWhole (mark_uploaded clock id now) c
      × IsWhole (reset_device_upload_state clock random reset) c
commits-IsWhole to_lower clock commit id now random reset c = (
  Atomic-IsWhole _ c (reserve_upload_commit-Atomic to_lower clock commit c),
  Atomic-IsWhole _ c (mark_uploaded-Atomic clock id now c),
  Atomic-IsWhole _ c (reset_device_upload_state-Atomic clock random reset c),
)
