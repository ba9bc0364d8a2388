-- ===== src/Uploads/Effects/Assets.antt =====
-- What the methods of the upload store do to the table uploaded_assets.
use timich_agent.Base.{ℕ, Bool, Option, none, some, List, [], ◌∷◌, Text, ℤ, pos, negsuc, arith}
use timich_agent.Uploads.Rows.{Db, AssetRow, UploadSession, UploadChecksum, CommitEvent, ResetEvent}
use timich_agent.Uploads.Action.{statement, exec}
use timich_agent.Uploads.Action.Keeps.{
  Keeps, Keeps-pure, Keeps-query, Keeps-statement, Keeps-exec, Keeps-bind, finish-keeps,
  keeps_rules,
}
use timich_agent.Uploads.Statements.{
  upsert_checksum, insert_session, insert_epoch, renew_epoch, update_sessions, insert_commit_event,
  insert_reset_event, delete_sessions,
}
use timich_agent.Uploads.Inputs.{UploadSessionInput, UploadCleanupInput}
use timich_agent.Uploads.Sessions.{
  UploadIdentity, epoch_or_new, ledger_epoch, get_session, create_normalized, create_session,
  compare_and_set, advance_session, update_session_progress, abort_session, scan_asset, read_asset,
  check_identities, check_body, check_uploaded,
}
use timich_agent.Uploads.Cleanup.{
  UploadCleanupCandidate, UploadCleanupResult, delete_commit_events, delete_reset_events,
  remove_session, remove_found, upload_cleanup_candidates, cleanup_upload_session,
  cleanup_upload_events, cleanup_candidates, cleanup_upload_state,
}

-- A statement about the table, and the last id that it gave.
abbrev pub OnAssets : (List AssetRow → ℕ → Type 0) → Db → Type 0
OnAssets Q db = Q db.assets db.last_asset_id

module _ (Q : List AssetRow → ℕ → Type 0) where
  insert_session-OnAssets : (s : UploadSession) → Keeps (OnAssets Q) (statement (insert_session s))
  unfolding insert_session
  insert_session-OnAssets s = Keeps-statement _ λ db db' a e h. ground (arith, e, h)

  insert_epoch-OnAssets : (d e : Text) → Keeps (OnAssets Q) (exec (λ db. (insert_epoch d e db, tt)))
  unfolding insert_epoch
  insert_epoch-OnAssets d e = Keeps-exec _ λ db h. ground (arith, h)

  pub renew_epoch-OnAssets :
      (d e : Text) → Keeps (OnAssets Q) (exec (λ db. (renew_epoch d e db, tt)))
  unfolding renew_epoch
  renew_epoch-OnAssets d e = Keeps-exec _ λ db h. ground (arith, h)

  pub update_sessions-OnAssets :
      (p : UploadSession → Bool) (f : UploadSession → UploadSession)
      → Keeps (OnAssets Q) (exec (update_sessions p f))
  unfolding update_sessions
  update_sessions-OnAssets p f = Keeps-exec _ λ db h. h

  pub delete_sessions-OnAssets :
      (p : UploadSession → Bool) → Keeps (OnAssets Q) (exec (delete_sessions p))
  unfolding delete_sessions
  delete_sessions-OnAssets p = Keeps-exec _ λ db h. h

  pub upsert_checksum-OnAssets :
      (id : ℕ) (c : UploadChecksum)
      → Keeps (OnAssets Q) (exec (λ db. (upsert_checksum id c db, tt)))
  unfolding upsert_checksum
  upsert_checksum-OnAssets id c = Keeps-exec _ λ db h. ground (arith, h)

  pub insert_commit_event-OnAssets :
      (e : CommitEvent) → Keeps (OnAssets Q) (exec (insert_commit_event e))
  unfolding insert_commit_event
  insert_commit_event-OnAssets e = Keeps-exec _ λ db h. h

  pub insert_reset_event-OnAssets :
      (e : ResetEvent) → Keeps (OnAssets Q) (exec (insert_reset_event e))
  unfolding insert_reset_event
  insert_reset_event-OnAssets e = Keeps-exec _ λ db h. h

  delete_commit_events-OnAssets : (n : ℕ) → Keeps (OnAssets Q) (exec (delete_commit_events n))
  unfolding delete_commit_events
  delete_commit_events-OnAssets n = Keeps-exec _ λ db h. h

  delete_reset_events-OnAssets : (n : ℕ) → Keeps (OnAssets Q) (exec (delete_reset_events n))
  unfolding delete_reset_events
  delete_reset_events-OnAssets n = Keeps-exec _ λ db h. h

  ruleset assets_rules = (
    keeps_rules, insert_session-OnAssets, insert_epoch-OnAssets, renew_epoch-OnAssets,
    update_sessions-OnAssets, delete_sessions-OnAssets, upsert_checksum-OnAssets,
    insert_commit_event-OnAssets, insert_reset_event-OnAssets, delete_commit_events-OnAssets,
    delete_reset_events-OnAssets,
  )

  epoch_or_new-OnAssets :
      (random device : Text) (found : Option Text)
      → Keeps (OnAssets Q) (epoch_or_new random device found)
  epoch_or_new-OnAssets random device (some epoch) = search assets_rules
  epoch_or_new-OnAssets random device none = search assets_rules

  pub ledger_epoch-OnAssets :
      (random device : Text) → Keeps (OnAssets Q) (ledger_epoch random device)
  unfolding ledger_epoch
  ledger_epoch-OnAssets random device = search (assets_rules, epoch_or_new-OnAssets) depth 12

  pub get_session-OnAssets : (id : Text) → Keeps (OnAssets Q) (get_session id)
  unfolding get_session
  get_session-OnAssets id = search assets_rules

  pub create_session-OnAssets :
      (clock : ℕ) (random : Text) (input : UploadSessionInput)
      → Keeps (OnAssets Q) (create_session clock random input)
  unfolding create_session create_normalized
  create_session-OnAssets clock random input = search (assets_rules, ledger_epoch-OnAssets) depth 12

  advance_session-OnAssets :
      (clock : ℕ) (id : Text) (expected next now : ℕ)
      → Keeps (OnAssets Q) (advance_session clock id expected next now)
  unfolding advance_session compare_and_set
  advance_session-OnAssets clock id expected next now = search assets_rules depth 12

  pub update_session_progress-OnAssets :
      (clock : ℕ) (id : Text) (expected next : ℤ) (now : ℕ)
      → Keeps (OnAssets Q) (update_session_progress clock id expected next now)
  unfolding update_session_progress
  update_session_progress-OnAssets clock id (pos e) (pos n) now =
      advance_session-OnAssets clock id e n now
  update_session_progress-OnAssets clock id (pos e) (negsuc n) now = search assets_rules
  update_session_progress-OnAssets clock id (negsuc e) (pos n) now = search assets_rules
  update_session_progress-OnAssets clock id (negsuc e) (negsuc n) now = search assets_rules

  pub abort_session-OnAssets :
      (clock : ℕ) (id device : Text) (now : ℕ)
      → Keeps (OnAssets Q) (abort_session clock id device now)
  unfolding abort_session
  abort_session-OnAssets clock id device now = search assets_rules depth 14

  scan_asset-OnAssets :
      (found : Option (AssetRow × Option Text)) → Keeps (OnAssets Q) (scan_asset found)
  scan_asset-OnAssets none = search assets_rules
  scan_asset-OnAssets (some (a, epoch)) = search assets_rules

  pub read_asset-OnAssets : (p : AssetRow → Bool) → Keeps (OnAssets Q) (read_asset p)
  unfolding read_asset
  read_asset-OnAssets p = search (assets_rules, scan_asset-OnAssets)

  check_identities-OnAssets :
      (device : Text) (is : List UploadIdentity) → Keeps (OnAssets Q) (check_identities device is)
  unfolding check_identities
  check_identities-OnAssets device [] = Keeps-pure []
  check_identities-OnAssets device (i ∷ is) =
      Keeps-bind _ _ (Keeps-query _)
        λ found. Keeps-bind _ _ (check_identities-OnAssets device is) λ rest. Keeps-pure _

  pub check_uploaded-OnAssets :
      (random device : Text) (is : List UploadIdentity)
      → Keeps (OnAssets Q) (check_uploaded random device is)
  unfolding check_uploaded check_body
  check_uploaded-OnAssets random device is =
      search (assets_rules, ledger_epoch-OnAssets, check_identities-OnAssets) depth 14

  remove_found-OnAssets :
      (now : ℕ) (found : Option UploadSession) → Keeps (OnAssets Q) (remove_found now found)
  remove_found-OnAssets now none = search assets_rules
  remove_found-OnAssets now (some s) = record {
    at = λ c h.
        let k : Keeps (OnAssets Q) (remove_session s now) = search assets_rules in
        finish-keeps (OnAssets Q) c.db (remove_session s now c) h (k.at c h);
  }

  pub cleanup_upload_session-OnAssets :
      (clock : ℕ) (id : Text) (i : UploadCleanupInput)
      → Keeps (OnAssets Q) (cleanup_upload_session clock id i)
  unfolding cleanup_upload_session
  cleanup_upload_session-OnAssets clock id i = search (assets_rules, remove_found-OnAssets) depth 12

  cleanup_candidates-OnAssets :
      (clock : ℕ) (i : UploadCleanupInput) (cs : List UploadCleanupCandidate)
      (r : UploadCleanupResult)
      → Keeps (OnAssets Q) (cleanup_candidates clock i cs r)
  unfolding cleanup_candidates
  cleanup_candidates-OnAssets clock i [] r = Keeps-pure r
  cleanup_candidates-OnAssets clock i (c ∷ cs) r =
      Keeps-bind _ _ (cleanup_upload_session-OnAssets clock _ i)
        λ removed. cleanup_candidates-OnAssets clock i cs _

  pub cleanup_upload_events-OnAssets :
      (clock : ℕ) (i : UploadCleanupInput) → Keeps (OnAssets Q) (cleanup_upload_events clock i)
  unfolding cleanup_upload_events
  cleanup_upload_events-OnAssets clock i = search assets_rules depth 14

  pub cleanup_upload_state-OnAssets :
      (clock : ℕ) (i : UploadCleanupInput) → Keeps (OnAssets Q) (cleanup_upload_state clock i)
  unfolding cleanup_upload_state upload_cleanup_candidates
  cleanup_upload_state-OnAssets clock i =
      search (assets_rules, cleanup_candidates-OnAssets, cleanup_upload_events-OnAssets) depth 14
