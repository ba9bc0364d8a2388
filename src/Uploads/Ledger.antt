-- ===== src/Uploads/Ledger.antt =====
-- The ledger that the upload store implements: what is known of an asset of a device is its status.
use timich_agent.Base.{
  ℕ, suc, ◌≤◌, ◌≡◌, refl, sym, ◌∙◌, Bool, true, ◌&&◌, ◌||◌, Bool-cases, ◌⊎◌, inl, inr, Option, none,
  some, List, [], ◌∷◌, ◌++◌, is_some, Text, text_eq_sound, arith, ok,
}
use timich_agent.Uploads.Rows.{Db, AssetRow, AssetStatus, reserved, uploaded, empty_db}
use timich_agent.Uploads.Action.{Conn}
use timich_agent.Uploads.Action.Keeps.{Keeps-exec}
use timich_agent.Uploads.Statements.{
  first, count_where, delete_where, update_where, has_identity, has_upload_id, has_asset_id,
  is_reserved, update_assets, reserve_asset, delete_assets,
}
use timich_agent.Uploads.Inputs.{
  UploadCommitInput, UploadResetInput, normalize_commit_input, normalize_reset_input,
}
use timich_agent.Uploads.Commits.{refreshed, marked, new_asset, in_reset_range}
use timich_agent.Uploads.Tables.{first-none, count_where-delete}
use timich_agent.Uploads.History.{Call, reserves, marks, resets, step, run}
use timich_agent.Uploads.Effects.Assets.{OnAssets}
use timich_agent.Uploads.Effects.Writes.{Writes, step-OnAssets}
use timich_agent.Uploads.Unique.{
  IsUnique, has_identity_sound, reserve_asset-IsUnique, refreshed-IsUnique, marked-IsUnique,
  deleted-IsUnique, run-IsUnique,
}

abbrev pub status_of : Option AssetRow → Option AssetStatus
status_of none = none
status_of (some a) = some a.status

module _ (device source version : Text) where
  -- What the table knows of an asset.
  abbrev pub ledger_status : List AssetRow → Option AssetStatus
  ledger_status assets = status_of (first (has_identity device source version) assets)

  -- The moves of the ledger: from unknown to reserved by a commit of the asset, from reserved to uploaded,
  -- and to unknown by a reset of the device.
  abbrev pub Moves : (Text → Text) → Call → Option AssetStatus → Option AssetStatus → Type 0
  Moves l (reserves clock input) before after =
      (after ≡ before)
      ⊎ ((before ≡ none)
          × (after ≡ some reserved)
          × ((i : UploadCommitInput) × (normalize_commit_input l clock input ≡ ok i)
              × (i.device_id ≡ device)
              × (i.source_asset_id ≡ source)
              × (i.source_asset_version ≡ version)))
  Moves l (marks clock id now) before after =
      (after ≡ before) ⊎ ((before ≡ some reserved) × (after ≡ some uploaded))
  Moves l (resets clock random input) before after =
      (after ≡ before)
      ⊎ ((after ≡ none)
          × ((i : UploadResetInput) × (normalize_reset_input clock input ≡ ok i)
              × (i.device_id ≡ device)))
  Moves l _ before after = after ≡ before

  refreshes-status :
      (i : UploadCommitInput) (root : Text) (id : ℕ) (assets : List AssetRow)
      → ledger_status
          (update_where (λ a. has_asset_id id a && is_reserved a.status) (refreshed i root) assets)
        ≡ ledger_status assets
  refreshes-status i root id [] = refl
  refreshes-status i root id (a ∷ rest) = ground (arith, refreshes-status i root id rest)

  marks-status :
      (now id : ℕ) (assets : List AssetRow)
      → (ledger_status (update_where (has_asset_id id) (marked now) assets) ≡ ledger_status assets)
        ⊎ ((ledger_status assets ≡ some reserved)
            × (ledger_status (update_where (has_asset_id id) (marked now) assets) ≡ some uploaded))
  marks-status now id [] = inl refl
  marks-status now id (a ∷ rest) = ground (arith, marks-status now id rest)

  reserves-status :
      (assets : List AssetRow) (a : AssetRow)
      → a.status ≡ reserved
      → (ledger_status (assets ++ a ∷ []) ≡ ledger_status assets)
        ⊎ ((ledger_status assets ≡ none)
            × (ledger_status (assets ++ a ∷ []) ≡ some reserved)
            × (has_identity device source version a ≡ true))
  reserves-status [] a e = ground (arith, e)
  reserves-status (b ∷ bs) a e = ground (arith, reserves-status bs a e)

  resets-status :
      (p : AssetRow → Bool) (assets : List AssetRow)
      → count_where (has_identity device source version) assets ≤ 1
      → (ledger_status (delete_where p assets) ≡ ledger_status assets)
        ⊎ ((ledger_status (delete_where p assets) ≡ none)
            × ((a : AssetRow) × (has_identity device source version a ≡ true) × (p a ≡ true)))
  resets-status p [] h = inl refl
  resets-status p (a ∷ rest) h = elim (Bool-cases (has_identity device source version a)) [
    | inl hit ↦ elim (Bool-cases (p a)) [
      | inl e ↦ inr (
        ground (
          arith,
          first-none (has_identity device source version) (delete_where p rest),
          count_where-delete (has_identity device source version) p rest,
        ),
        (a, hit, e),
      )
      | inr e ↦ inl (ground (arith, e, hit))
    ]
    | inr miss ↦ elim (resets-status p rest (ground arith)) [
      | inl e ↦ inl (ground (arith, e, miss))
      | inr (gone, (a', i, j)) ↦ inr (ground (arith, gone, miss), (a', i, j))
    ]
  ]

  module _ (l : Text → Text) (before : Option AssetStatus) where
    -- What a call makes of a status, on a table whose keys are unique.
    abbrev Reached : Call → List AssetRow → ℕ → Type 0
    Reached call assets last = IsUnique assets last × Moves l call before (ledger_status assets)

    identified :
        (clock : ℕ) (input i : UploadCommitInput)
        → normalize_commit_input l clock input ≡ ok i
        → (i.device_id ≡ device) × (i.source_asset_id ≡ source) × (i.source_asset_version ≡ version)
        → (x : UploadCommitInput) × (normalize_commit_input l clock input ≡ ok x)
          × (x.device_id ≡ device)
          × (x.source_asset_id ≡ source)
          × (x.source_asset_version ≡ version)
    identified clock input i e (d, s, v) = (i, e, d, s, v)

    inserts-Moves :
        (clock : ℕ) (input i : UploadCommitInput) (root : Text)
        → normalize_commit_input l clock input ≡ ok i
        → (db : Db) → Moves l (reserves clock input) before (ledger_status db.assets)
        → Moves l
            (reserves clock input)
            before
            (ledger_status (reserve_asset (new_asset i root) db).0.assets)
    unfolding reserve_asset
    inserts-Moves clock input i root ok_i db m =
        elim (Bool-cases (
          is_some
            (first (has_identity i.device_id i.source_asset_id i.source_asset_version) db.assets)
          || is_some (first (has_upload_id i.upload_id) db.assets))) [
            | inl e ↦ rw e m
            | inr e ↦
                rw e
                  (elim (reserves-status db.assets (new_asset i root (suc db.last_asset_id)) refl) [
                    | inl same ↦ rw same m
                    | inr (unknown, now_reserved, hit) ↦ inr (
                      elim m [ inl old ↦ sym old ∙ unknown | inr (old, _, _) ↦ old ],
                      now_reserved,
                      identified clock input i ok_i (
                          has_identity_sound device source version
                            (new_asset i root (suc db.last_asset_id)) hit),
                    )
                  ])
          ]

    marks-Moves :
        (clock id now now' id' : ℕ) (assets : List AssetRow)
        → Moves l (marks clock id now) before (ledger_status assets)
        → Moves l
            (marks clock id now)
            before
            (ledger_status (update_where (has_asset_id id') (marked now') assets))
    marks-Moves clock id now now' id' assets m = elim (marks-status now' id' assets) [
      | inl same ↦ rw same m
      | inr (was, is) ↦ elim m [ inl old ↦ inr (sym old ∙ was, is) | inr (old, _) ↦ inr (old, is) ]
    ]

    deletes-Moves :
        (clock : ℕ) (random : Text) (input i : UploadResetInput)
        → normalize_reset_input clock input ≡ ok i
        → (assets : List AssetRow) → count_where (has_identity device source version) assets ≤ 1
        → Moves l (resets clock random input) before (ledger_status assets)
        → Moves l
            (resets clock random input)
            before
            (ledger_status (delete_where (λ a. in_reset_range i a.device_id a.captured_at) assets))
    unfolding in_reset_range
    deletes-Moves clock random input i ok_i assets h m =
        elim (resets-status (λ a. in_reset_range i a.device_id a.captured_at) assets h) [
          | inl same ↦ rw same m
          | inr (gone, (a, hit, in_range)) ↦
              let (own, _, _) = has_identity_sound device source version a hit in
              inr (
                gone,
                (
                  i,
                  ok_i,
                  sym (text_eq_sound a.device_id i.device_id (ground (arith, in_range))) ∙ own,
                ),
              )
        ]

    Writes-Reached : (call : Call) → Writes l (Reached call) call
    unfolding update_assets delete_assets
    Writes-Reached (reserves clock input) = λ i e. record {
      inserts = λ root. Keeps-exec _ λ db (u, m).
          (reserve_asset-IsUnique i root db u, inserts-Moves clock input i root e db m);
      refreshes = λ root id. Keeps-exec _ λ db (u, m).
          (refreshed-IsUnique i root _ db u, rw (refreshes-status i root id db.assets) m);
    }
    Writes-Reached (marks clock id now) = record {
      updates = λ now' id'.
          Keeps-exec _ λ db (u, m).
            (marked-IsUnique now' _ db u, marks-Moves clock id now now' id' db.assets m);
    }
    Writes-Reached (resets clock random input) = λ i e. record {
      deletes = Keeps-exec _ λ db (u, m). (
        deleted-IsUnique _ db.assets db.last_asset_id u,
        deletes-Moves clock random input i e db.assets (u.identity device source version) m,
      );
    }
    Writes-Reached _ = tt

  stays : (l : Text → Text) (call : Call) (before : Option AssetStatus) → Moves l call before before
  stays l (reserves clock input) before = inl refl
  stays l (marks clock id now) before = inl refl
  stays l (resets clock random input) before = inl refl
  stays l _ before = refl

  pub step-Moves :
      (to_lower : Text → Text) (call : Call) (c : Conn)
      → OnAssets IsUnique c.db
      → Moves to_lower call
          (ledger_status c.db.assets)
          (ledger_status (step to_lower call c).db.assets)
  step-Moves l call c u =
      let before = ledger_status c.db.assets in
      (step-OnAssets (Reached l before call) l call (Writes-Reached l before call) c
        (u, stays l call before)).1

-- After any calls from an empty database, every call of the upload store, whichever of its statements
-- fail, makes one move of the ledger: an asset's status stays, or a commit of that asset takes it from
-- unknown to reserved, or MarkUploaded from reserved to uploaded, or a reset of its device to unknown.
pub run-step-Moves :
    (device source version : Text) (to_lower : Text → Text) (outcomes : List Bool)
    (calls : List Call) (call : Call)
    → let c = run to_lower calls (record { outcomes = outcomes; db = empty_db }) in
      Moves device source version to_lower call
        (ledger_status device source version c.db.assets)
        (ledger_status device source version (step to_lower call c).db.assets)
run-step-Moves device source version l outcomes calls call =
    step-Moves device source version l call _ (run-IsUnique l calls outcomes)
