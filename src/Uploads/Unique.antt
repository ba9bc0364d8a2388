-- ===== src/Uploads/Unique.antt =====
-- internal/store/upload_store.go: the keys of the table uploaded_assets.
use timich_agent.Base.{
  ℕ, suc, ◌≤◌, ◌<◌, ◌≡◌, refl, sym, Bool, true, false, Bool-cases, inl, inr, List, [], ◌∷◌, ◌++◌,
  is_some, Text, text_eq_sound, arith,
}
use timich_agent.Uploads.Rows.{Db, AssetRow, empty_db}
use timich_agent.Uploads.Action.{Conn}
use timich_agent.Uploads.Action.Keeps.{Keeps-exec}
use timich_agent.Uploads.Statements.{
  first, count_where, delete_where, has_identity, has_upload_id, has_asset_id, update_assets,
  reserve_asset, delete_assets,
}
use timich_agent.Uploads.Inputs.{UploadCommitInput}
use timich_agent.Uploads.Commits.{refreshed, marked, new_asset}
use timich_agent.Uploads.Tables.{
  count_where-add, count_where-update, count_where-delete, count_where-snoc,
}
use timich_agent.Uploads.History.{Call, reserves, marks, resets, step, run}
use timich_agent.Uploads.Effects.Assets.{OnAssets}
use timich_agent.Uploads.Effects.Writes.{Writes, step-OnAssets}

-- No two rows have an identity, an upload or an id in common, and no id is above the last one given.
pub record IsUnique (assets : List AssetRow) (last : ℕ) : Type 0 where
  pub identity :
      (device source version : Text) → count_where (has_identity device source version) assets ≤ 1
  pub upload : (id : Text) → count_where (has_upload_id id) assets ≤ 1
  pub key : (id : ℕ) → count_where (has_asset_id id) assets ≤ 1
  pub above : (id : ℕ) → last < id → count_where (has_asset_id id) assets ≡ 0

pub has_identity_sound :
    (device source version : Text) (a : AssetRow)
    → has_identity device source version a ≡ true
    → (a.device_id ≡ device) × (a.source_asset_id ≡ source) × (a.source_asset_version ≡ version)
has_identity_sound device source version a h = (
  text_eq_sound a.device_id device (ground (arith, h)),
  text_eq_sound a.source_asset_id source (ground (arith, h)),
  text_eq_sound a.source_asset_version version (ground (arith, h)),
)

module _ (assets : List AssetRow) (last : ℕ) (u : IsUnique assets last) (a : AssetRow) where
  add-IsUnique :
      a.id ≡ suc last
      → is_some (first (has_identity a.device_id a.source_asset_id a.source_asset_version) assets)
        ≡ false
      → is_some (first (has_upload_id a.upload_id) assets) ≡ false
      → IsUnique (assets ++ a ∷ []) (suc last)
  add-IsUnique new i j = record {
    identity = λ d s v.
        count_where-add (has_identity d s v) assets a
          (λ e.
            let (x, y, z) = has_identity_sound d s v a e in rw (sym x) (rw (sym y) (rw (sym z) i)))
          (u.identity d s v);
    upload = λ id.
        count_where-add (has_upload_id id) assets a
          (λ e. rw (sym (text_eq_sound a.upload_id id e)) j) (u.upload id);
    key = λ id. ground (arith, count_where-snoc (has_asset_id id) assets a, u.key id, u.above id);
    above = λ id h. ground (arith, count_where-snoc (has_asset_id id) assets a, u.above id);
  }

updated-IsUnique :
    (p : AssetRow → Bool) (f : AssetRow → AssetRow)
    → ((a : AssetRow) → (f a).device_id ≡ a.device_id)
    → ((a : AssetRow) → (f a).source_asset_id ≡ a.source_asset_id)
    → ((a : AssetRow) → (f a).source_asset_version ≡ a.source_asset_version)
    → ((a : AssetRow) → (f a).upload_id ≡ a.upload_id)
    → ((a : AssetRow) → (f a).id ≡ a.id)
    → (db : Db) → OnAssets IsUnique db
    → OnAssets IsUnique (update_assets p f db).0
unfolding update_assets
updated-IsUnique p f fd fs fv fu fi db u = record {
  identity = λ d s v.
      rw
        (count_where-update (has_identity d s v) p f (λ a. rw (fd a) (rw (fs a) (rw (fv a) refl)))
          db.assets)
        (u.identity d s v);
  upload = λ id.
      rw (count_where-update (has_upload_id id) p f (λ a. rw (fu a) refl) db.assets) (u.upload id);
  key = λ id.
      rw (count_where-update (has_asset_id id) p f (λ a. rw (fi a) refl) db.assets) (u.key id);
  above = λ id h.
      rw (count_where-update (has_asset_id id) p f (λ a. rw (fi a) refl) db.assets) (u.above id h);
}

pub reserve_asset-IsUnique :
    (i : UploadCommitInput) (root : Text) (db : Db)
    → OnAssets IsUnique db
    → OnAssets IsUnique (reserve_asset (new_asset i root) db).0
unfolding reserve_asset
reserve_asset-IsUnique i root db u =
    let new = new_asset i root (suc db.last_asset_id) in
    elim (Bool-cases (
      is_some
        (first (has_identity i.device_id i.source_asset_id i.source_asset_version) db.assets))) [
          | inl e ↦ rw e u
          | inr e ↦ elim (Bool-cases (is_some (first (has_upload_id i.upload_id) db.assets))) [
            | inl f ↦ rw e (rw f u)
            | inr f ↦ rw e (rw f (add-IsUnique db.assets db.last_asset_id u new refl e f))
          ]
        ]

pub refreshed-IsUnique :
    (i : UploadCommitInput) (root : Text) (p : AssetRow → Bool) (db : Db)
    → OnAssets IsUnique db
    → OnAssets IsUnique (update_assets p (refreshed i root) db).0
refreshed-IsUnique i root p db u =
    updated-IsUnique p (refreshed i root) (λ a. refl) (λ a. refl) (λ a. refl) (λ a. refl)
      (λ a. refl) db u

pub marked-IsUnique :
    (now : ℕ) (p : AssetRow → Bool) (db : Db)
    → OnAssets IsUnique db
    → OnAssets IsUnique (update_assets p (marked now) db).0
marked-IsUnique now p db u =
    updated-IsUnique p (marked now) (λ a. refl) (λ a. refl) (λ a. refl) (λ a. refl) (λ a. refl) db u

pub deleted-IsUnique :
    (p : AssetRow → Bool) (assets : List AssetRow) (last : ℕ)
    → IsUnique assets last
    → IsUnique (delete_where p assets) last
deleted-IsUnique p assets last u = record {
  identity =
      λ d s v. ground (arith, count_where-delete (has_identity d s v) p assets, u.identity d s v);
  upload = λ id. ground (arith, count_where-delete (has_upload_id id) p assets, u.upload id);
  key = λ id. ground (arith, count_where-delete (has_asset_id id) p assets, u.key id);
  above = λ id h. ground (arith, count_where-delete (has_asset_id id) p assets, u.above id h);
}

-- Every statement on the table keeps its keys unique.
pub Writes-IsUnique : (to_lower : Text → Text) (call : Call) → Writes to_lower IsUnique call
unfolding delete_assets
Writes-IsUnique l (reserves clock input) = λ i e. record {
  inserts = λ root. Keeps-exec _ (reserve_asset-IsUnique i root);
  refreshes = λ root id. Keeps-exec _ (refreshed-IsUnique i root _);
}
Writes-IsUnique l (marks clock id now) = record {
  updates = λ now' id'. Keeps-exec _ (marked-IsUnique now' _);
}
Writes-IsUnique l (resets clock random input) =
    λ i e. record { deletes = Keeps-exec _ λ db u. deleted-IsUnique _ db.assets db.last_asset_id u }
Writes-IsUnique l _ = tt

pub run_keeps_IsUnique :
    (to_lower : Text → Text) (calls : List Call) (c : Conn)
    → OnAssets IsUnique c.db
    → OnAssets IsUnique (run to_lower calls c).db
unfolding run
run_keeps_IsUnique l [] c u = u
run_keeps_IsUnique l (call ∷ calls) c u =
    run_keeps_IsUnique l calls (step l call c)
      (step-OnAssets IsUnique l call (Writes-IsUnique l call) c u)

-- After any calls of the upload store's methods from an empty database, whichever statements fail, no two
-- rows of uploaded_assets have an identity, an upload or an id in common, and no id is above the last one
-- that was given.
pub run-IsUnique :
    (to_lower : Text → Text) (calls : List Call) (outcomes : List Bool)
    → OnAssets IsUnique (run to_lower calls (record { outcomes = outcomes; db = empty_db })).db
run-IsUnique l calls outcomes = run_keeps_IsUnique l calls _ (record {
  identity = λ d s v. omega arith;
  upload = λ id. omega arith;
  key = λ id. omega arith;
  above = λ id h. refl;
})
