-- ===== src/Uploads/Statements.antt =====
-- internal/store/upload_store.go: the SQL statements of the upload store, as functions of the tables.
use timich_agent.Base.{
  ℕ, suc, ◌+◌, ◌==◌, Bool, true, false, not, ◌&&◌, ◌||◌, Option, none, some, List, [], ◌∷◌, ◌++◌,
  map, ltb, if◌then◌else◌, is_some, keep_if, Text, text_eq,
}
use timich_agent.Uploads.Rows.{
  SessionStatus, active, committing, AssetStatus, reserved, uploaded, UploadSession, AssetRow,
  UploadChecksum, ChecksumRow, CommitEvent, ResetEvent, EpochRow, Db,
}

module _ {A : Type 0} where
  -- SELECT of one row
  abbrev pub first : (A → Bool) → List A → Option A
  first p [] = none
  first p (x ∷ xs) = let rest = first p xs in if p x then some x else rest

  -- UPDATE … WHERE …
  abbrev pub update_where : (A → Bool) → (A → A) → List A → List A
  update_where p f [] = []
  update_where p f (x ∷ xs) = (if p x then f x else x) ∷ update_where p f xs

  -- RowsAffected of an UPDATE or of a DELETE
  abbrev pub count_where : (A → Bool) → List A → ℕ
  count_where p [] = 0
  count_where p (x ∷ xs) = (if p x then 1 else 0) + count_where p xs

  -- DELETE … WHERE …
  abbrev pub delete_where : (A → Bool) → List A → List A
  delete_where p xs = keep_if (λ x. not (p x)) xs

abbrev pub is_active : SessionStatus → Bool
is_active active = true
is_active _ = false

abbrev pub is_open : SessionStatus → Bool
is_open active = true
is_open committing = true
is_open _ = false

abbrev pub is_reserved : AssetStatus → Bool
is_reserved reserved = true
is_reserved uploaded = false

abbrev pub is_uploaded : AssetStatus → Bool
is_uploaded reserved = false
is_uploaded uploaded = true

abbrev pub has_epoch : Text → EpochRow → Bool
has_epoch device e = text_eq e.device_id device

abbrev pub has_session_id : Text → UploadSession → Bool
has_session_id id s = text_eq s.upload_id id

-- The columns of UNIQUE(device_id, source_asset_id, source_asset_version).
abbrev pub has_identity : Text → Text → Text → AssetRow → Bool
has_identity device source version a =
    text_eq a.device_id device
    && (text_eq a.source_asset_id source && text_eq a.source_asset_version version)

abbrev pub has_upload_id : Text → AssetRow → Bool
has_upload_id id a = text_eq a.upload_id id

abbrev pub has_asset_id : ℕ → AssetRow → Bool
has_asset_id id a = a.id == id

abbrev pub epoch_of : Text → Db → Option Text
epoch_of device db = elim (first (has_epoch device) db.epochs) [
  | none ↦ none
  | some e ↦ some e.epoch
]

-- `ORDER BY algorithm`, by bytes; algorithms are ASCII.
abbrev pub text_le : Text → Text → Bool
text_le [] t = true
text_le (a ∷ s) [] = false
text_le (a ∷ s) (b ∷ t) = if a == b then text_le s t else ltb a b

abbrev pub insert_checksum : UploadChecksum → List UploadChecksum → List UploadChecksum
insert_checksum c [] = c ∷ []
insert_checksum c (d ∷ ds) =
    if text_le c.algorithm d.algorithm then c ∷ d ∷ ds else d ∷ insert_checksum c ds

abbrev pub sort_checksums : List UploadChecksum → List UploadChecksum
sort_checksums [] = []
sort_checksums (c ∷ cs) = insert_checksum c (sort_checksums cs)

abbrev pub of_asset : ℕ → ChecksumRow → Bool
of_asset id c = c.asset_id == id

unfoldable pub checksums_for_asset : ℕ → Db → List UploadChecksum
checksums_for_asset id db =
    sort_checksums (map (λ (c : ChecksumRow). c.checksum) (keep_if (of_asset id) db.checksums))

abbrev pub has_checksum : ℕ → Text → ChecksumRow → Bool
has_checksum id algorithm c = (c.asset_id == id) && text_eq c.checksum.algorithm algorithm

-- INSERT … ON CONFLICT(asset_id, algorithm) DO UPDATE
unfoldable pub upsert_checksum : ℕ → UploadChecksum → Db → Db
upsert_checksum id c db =
    if is_some (first (has_checksum id c.algorithm) db.checksums)
    then record db {
      checksums =
          update_where (has_checksum id c.algorithm)
            (λ (r : ChecksumRow). record r {
              checksum = record (r.checksum) { encoding = c.encoding; digest = c.digest };
            })
            db.checksums;
    }
    else record db { checksums = db.checksums ++ record { asset_id = id; checksum = c } ∷ [] }

-- INSERT INTO upload_sessions, whose key must be new.
unfoldable pub insert_session : UploadSession → Db → Option (Db × Unit {0})
insert_session s db =
    if is_some (first (has_session_id s.upload_id) db.sessions)
    then none
    else some (record db { sessions = db.sessions ++ s ∷ [] }, tt)

-- INSERT OR IGNORE INTO upload_ledger_epochs
unfoldable pub insert_epoch : Text → Text → Db → Db
insert_epoch device epoch db =
    if is_some (first (has_epoch device) db.epochs)
    then db
    else record db { epochs = db.epochs ++ record { device_id = device; epoch = epoch } ∷ [] }

-- INSERT INTO upload_ledger_epochs … ON CONFLICT(device_id) DO UPDATE
unfoldable pub renew_epoch : Text → Text → Db → Db
renew_epoch device epoch db =
    if is_some (first (has_epoch device) db.epochs)
    then record db {
      epochs =
          update_where (has_epoch device) (λ (e : EpochRow). record e { epoch = epoch }) db.epochs;
    }
    else record db { epochs = db.epochs ++ record { device_id = device; epoch = epoch } ∷ [] }

-- UPDATE upload_sessions: how many rows were changed.
unfoldable pub update_sessions :
    (UploadSession → Bool) → (UploadSession → UploadSession) → Db → Db × ℕ
update_sessions p f db =
    (record db { sessions = update_where p f db.sessions }, count_where p db.sessions)

unfoldable pub update_assets : (AssetRow → Bool) → (AssetRow → AssetRow) → Db → Db × ℕ
update_assets p f db = (record db { assets = update_where p f db.assets }, count_where p db.assets)

-- INSERT OR IGNORE INTO uploaded_assets: the new id, or `none` where a row has the identity or the upload.
unfoldable pub reserve_asset : (ℕ → AssetRow) → Db → Db × Option ℕ
reserve_asset row db =
    let id = suc db.last_asset_id in
    let new = row id in
    if is_some
        (first (has_identity new.device_id new.source_asset_id new.source_asset_version) db.assets)
      || is_some (first (has_upload_id new.upload_id) db.assets)
    then (db, none)
    else (record db { assets = db.assets ++ new ∷ []; last_asset_id = id }, some id)

unfoldable pub insert_commit_event : CommitEvent → Db → Db × Unit {0}
insert_commit_event e db = (record db { commit_events = db.commit_events ++ e ∷ [] }, tt)

unfoldable pub insert_reset_event : ResetEvent → Db → Db × Unit {0}
insert_reset_event e db = (record db { reset_events = db.reset_events ++ e ∷ [] }, tt)

unfoldable pub delete_sessions : (UploadSession → Bool) → Db → Db × ℕ
delete_sessions p db =
    (record db { sessions = delete_where p db.sessions }, count_where p db.sessions)

-- Some row of the deleted assets owns the checksum.
abbrev pub of_some_asset : List AssetRow → ChecksumRow → Bool
of_some_asset [] c = false
of_some_asset (a ∷ rest) c = of_asset a.id c || of_some_asset rest c

-- DELETE FROM uploaded_assets, with ON DELETE CASCADE.
unfoldable pub delete_assets : (AssetRow → Bool) → Db → Db × ℕ
delete_assets p db = (
  record db {
    assets = delete_where p db.assets;
    checksums = delete_where (of_some_asset (keep_if p db.assets)) db.checksums;
  },
  count_where p db.assets,
)
