-- ===== src/Uploads/Checks.antt =====
-- What CheckUploaded answers.
use timich_agent.Base.{
  ℕ, ◌≡◌, refl, sym, subst, ap, ◌∙◌, Bool, true, false, ◌⊎◌, inl, inr, Option, Option-cases, none,
  some, List, [], ◌∷◌, is_some, is_empty, Text, text_eq_self, trim_space_idem, arith, Result,
  Result-cases, ok, err, map, trim_space,
}
use timich_agent.Uploads.Rows.{Db, UploadError, EpochRow, database_failed, UploadedAsset, uploaded}
use timich_agent.Uploads.Action.{
  Conn, Action, pure, some_or, continue, statement, finish, transaction, ◌>>=◌,
}
use timich_agent.Uploads.Action.Atomic.{
  sound, Uniform, Uniform-query, Uniform-pure, Uniform-bind, Uniform-transaction,
}
use timich_agent.Uploads.Statements.{first, has_identity, has_epoch, epoch_of, insert_epoch}
use timich_agent.Uploads.Sessions.{
  UploadIdentity, is_uploaded_row, epoch_or_new, ledger_epoch, check_identities, check_body,
  check_uploaded,
}
use timich_agent.Uploads.Commits.{mark_uploaded}
use timich_agent.Uploads.Atomicity.{uniform_rules}
use timich_agent.Uploads.Tables.{first-stronger, first_sound, first-snoc_none}
use timich_agent.Uploads.Recorded.{Answers, rows-Answers}
use timich_agent.Uploads.History.{Call, run}
use timich_agent.Uploads.Effects.Assets.{OnAssets}
use timich_agent.Uploads.Unique.{IsUnique}
use timich_agent.Uploads.Ledger.{ledger_status}
use timich_agent.Uploads.Completed.{
  mark_uploaded-IsUnique, mark_uploaded-status, run-uploaded, all_spare,
}

-- What CheckUploaded answers of one asset.
abbrev pub answer : Text → Db → UploadIdentity → Bool
answer device db i = is_some (first (is_uploaded_row device i) db.assets)

check_identities-sound :
    (device : Text) (is : List UploadIdentity) (db : Db)
    → check_identities device is (sound db) ≡ (sound db, ok (map (answer device db) is))
unfolding check_identities statement
check_identities-sound device [] db = refl
check_identities-sound device (i ∷ is) db =
    ap (continue (λ rest. pure (answer device db i ∷ rest))) (check_identities-sound device is db)

answer-uploaded :
    (device : Text) (i : UploadIdentity) (db : Db)
    → ledger_status device i.source_asset_id i.source_asset_version db.assets ≡ some uploaded
    → answer device db i ≡ true
answer-uploaded device i db e =
    elim (Option-cases
      (first (has_identity device i.source_asset_id i.source_asset_version) db.assets)) [
        | inl none_found ↦ ground (arith, e, none_found)
        | inr (a, found) ↦ ap is_some (
            first-stronger (has_identity device i.source_asset_id i.source_asset_version)
              (is_uploaded_row device i) db.assets a (λ x h. ground (arith, h)) found
              (ground (
                arith,
                e,
                found,
                first_sound (has_identity device i.source_asset_id i.source_asset_version) db.assets
                    a found,
              )))
      ]

epoch_or_new-sound :
    (random device : Text) (db : Db) (found : Option Text)
    → epoch_of device db ≡ found
    → (epoch : Text) × (db' : Db) × (epoch_or_new random device found (sound db)
        ≡ (sound db', ok epoch))
      × (epoch_of device db' ≡ some epoch)
      × (db'.assets ≡ db.assets)
unfolding statement insert_epoch
epoch_or_new-sound random device db (some epoch) e = (epoch, db, refl, e, refl)
epoch_or_new-sound random device db none e =
    let missing : first (has_epoch device) db.epochs ≡ none = ground (arith, e) in
    let row : EpochRow = record { device_id = device; epoch = random } in
    let added : epoch_of device (insert_epoch device random db) ≡ some random = ground (
      arith,
      missing,
      text_eq_self device,
      first-snoc_none (has_epoch device) db.epochs row missing,
    ) in
    (
      random,
      insert_epoch device random db,
      ap (λ o. some_or database_failed o (sound (insert_epoch device random db))) added,
      added,
      ground (arith, missing),
    )

ledger_epoch-sound :
    (random device : Text) (db : Db)
    → is_empty (trim_space device) ≡ false
    → (epoch : Text) × (db' : Db) × (ledger_epoch random device (sound db) ≡ (sound db', ok epoch))
      × (epoch_of (trim_space device) db' ≡ some epoch)
      × (db'.assets ≡ db.assets)
unfolding ledger_epoch statement
ledger_epoch-sound random device db h =
    rw h (epoch_or_new-sound random (trim_space device) db (epoch_of (trim_space device) db) refl)

with_epoch : Text → List Bool → Action (Text × List Bool)
with_epoch epoch states = pure (epoch, states)

answered : Text → List UploadIdentity → Text → Action (Text × List Bool)
answered device is epoch = check_identities device is >>= with_epoch epoch

check_body-sound :
    (device epoch : Text) (is : List UploadIdentity) (db : Db)
    → epoch_of device db ≡ some epoch
    → transaction (check_body device is) (sound db)
      ≡ (sound db, ok (epoch, map (answer device db) is))
unfolding check_body transaction finish statement with_epoch answered
check_body-sound device epoch is db found =
    ap (λ o. finish db ((some_or database_failed o >>= answered device is) (sound db))) found
    ∙ ap (λ r. finish db (continue (with_epoch epoch) r)) (check_identities-sound device is db)

map-answer :
    (device : Text) (is : List UploadIdentity) (db db' : Db)
    → db'.assets ≡ db.assets
    → map (answer device db') is ≡ map (answer device db) is
map-answer device [] db db' same = refl
map-answer device (i ∷ is) db db' same =
    rw same (ap (λ rest. answer device db i ∷ rest) (map-answer device is db db' same))

-- Where no statement fails, CheckUploaded of a device whose name is not blank returns, with the answers
-- that the table gives for the assets.
pub check_uploaded-sound :
    (random device : Text) (is : List UploadIdentity) (db : Db)
    → is_empty (trim_space device) ≡ false
    → (epoch : Text) × (db' : Db) × (check_uploaded random device is (sound db)
        ≡ (sound db', ok (epoch, map (answer (trim_space device) db) is)))
unfolding check_uploaded
check_uploaded-sound random device is db h =
    let (epoch, db', ran, found, same) =
      ledger_epoch-sound random (trim_space device) db (rw (trim_space_idem device) h) in
    (
      epoch,
      db',
      ap (continue (λ _. transaction (check_body (trim_space device) is))) ran
          ∙ (check_body-sound (trim_space device) epoch is db'
                (rw (trim_space_idem device) at found)
              ∙ ap (λ answers. (sound db', ok (epoch, answers)))
                  (map-answer (trim_space device) is db db' same)),
    )

epoch_or_new-Uniform :
    (random device : Text) (found : Option Text) → Uniform (epoch_or_new random device found)
epoch_or_new-Uniform random device none = search uniform_rules
epoch_or_new-Uniform random device (some epoch) = search uniform_rules

check_identities-Uniform :
    (device : Text) (is : List UploadIdentity) → Uniform (check_identities device is)
unfolding check_identities
check_identities-Uniform device [] = Uniform-pure []
check_identities-Uniform device (i ∷ is) =
    Uniform-bind _ _ (Uniform-query _)
      λ found. Uniform-bind _ _ (check_identities-Uniform device is) λ rest. Uniform-pure _

check_uploaded-Uniform :
    (random device : Text) (is : List UploadIdentity) → Uniform (check_uploaded random device is)
unfolding check_uploaded ledger_epoch check_body
check_uploaded-Uniform random device is =
    search (uniform_rules, Uniform-transaction, epoch_or_new-Uniform, check_identities-Uniform)
      depth 16

same_answer :
    {c c' : Conn} {x y : Text × List Bool}
    → ◌≡◌ {A = Conn × Result UploadError (Text × List Bool)} (c, ok x) (c', ok y)
    → x.1 ≡ y.1
same_answer e = ground (arith, e)

check_uploaded-rows :
    (random device : Text) (is : List UploadIdentity) (c c' : Conn) (epoch : Text)
    (states : List Bool)
    → is_empty (trim_space device) ≡ false
    → check_uploaded random device is c ≡ (c', ok (epoch, states))
    → states ≡ map (answer (trim_space device) c.db) is
check_uploaded-rows random device is c c' epoch states h e =
    let (epoch', db', ran) = check_uploaded-sound random device is c.db h in
    same_answer (sym ((check_uploaded-Uniform random device is).at c c' (epoch, states) e) ∙ ran)

-- Whatever statements fail, where CheckUploaded of a device whose name is not blank returns without an
-- error, it gives one answer for each asset, in their order, and an answer is yes exactly when the table
-- has a row for that device, asset and version whose status is uploaded.
pub check_uploaded-Answers :
    (random device : Text) (is : List UploadIdentity) (c c' : Conn) (epoch : Text)
    (states : List Bool)
    → is_empty (trim_space device) ≡ false
    → check_uploaded random device is c ≡ (c', ok (epoch, states))
    → Answers (trim_space device) c.db.assets is states
check_uploaded-Answers random device is c c' epoch states h e =
    subst (Answers (trim_space device) c.db.assets is)
      (sym (check_uploaded-rows random device is c c' epoch states h e))
      (rows-Answers (trim_space device) c.db.assets is)

abbrev pub identity_of : UploadedAsset → UploadIdentity
identity_of r = record {
  source_asset_id = r.row.source_asset_id;
  source_asset_version = r.row.source_asset_version;
}

-- Once MarkUploaded has returned an asset, then after any further calls, whichever statements fail, none
-- of them a reset of the asset's device, CheckUploaded of that asset fails or answers true, and answers
-- true where none of its own statements fails.
pub mark_uploaded-check_uploaded :
    (to_lower : Text → Text) (clock id now : ℕ) (c c' : Conn) (r : UploadedAsset)
    (calls : List Call) (random device : Text)
    → OnAssets IsUnique c.db
    → mark_uploaded clock id now c ≡ (c', ok r)
    → all_spare r.row.device_id calls ≡ true
    → trim_space device ≡ r.row.device_id
    → is_empty (trim_space device) ≡ false
    → let later = run to_lower calls c' in
      let asset = identity_of r ∷ [] in
      (((e : UploadError) × ((check_uploaded random device asset later).1 ≡ err e))
        ⊎ ((epoch : Text) × ((check_uploaded random device asset later).1 ≡ ok (epoch, true ∷ []))))
      × ((epoch : Text) × ((check_uploaded random device asset (sound later.db)).1
            ≡ ok (epoch, true ∷ [])))
mark_uploaded-check_uploaded l clock id now c c' r calls random device u e spared own h =
    let later = run l calls c' in
    let asset = identity_of r ∷ [] in
    let yes : map (answer (trim_space device) later.db) asset ≡ true ∷ [] =
      ap (λ b. b ∷ [])
        (answer-uploaded (trim_space device) (identity_of r) later.db (
          rw own (
            run-uploaded r.row.device_id r.row.source_asset_id r.row.source_asset_version l calls c'
              (mark_uploaded-IsUnique clock id now c c' (ok r) u e) spared
              (mark_uploaded-status clock id now c c' r u e)))) in
    let (epoch, db', ran) = check_uploaded-sound random device asset later.db h in
    (
      elim (Result-cases (check_uploaded random device asset later).1) [
        | inl ((epoch', states), got) ↦ inr (
          epoch',
          got
              ∙ ap (λ s. ok (epoch', s))
                  (check_uploaded-rows random device asset later
                      (check_uploaded random device asset later).0 epoch' states h
                      (ap (λ x. ((check_uploaded random device asset later).0, x)) got)
                    ∙ yes),
        )
        | inr (e', got) ↦ inl (e', got)
      ],
      (epoch, ap (λ x. x.1) ran ∙ ap (λ s. ok (epoch, s)) yes),
    )
