-- ===== src/Uploads/Effects/Sessions.antt =====
-- What the methods of the upload store do to the table upload_sessions.
use timich_agent.Base.{
  ℕ, ◌≡◌, refl, Bool, false, Bool-cases, inl, inr, Option, none, some, List, [], ◌∷◌, ◌++◌, Text, ℤ,
  pos, negsuc, arith, ltb, is_some, ok, trim_space,
}
use timich_agent.Uploads.Rows.{
  Db, AssetRow, UploadSession, UploadChecksum, UploadedAsset, CommitEvent, ResetEvent,
  input_invalid,
}
use timich_agent.Uploads.Action.{Conn, statement, exec}
use timich_agent.Uploads.Action.Keeps.{
  Keeps, Keeps-pure, Keeps-query, Keeps-some_or, Keeps-statement, Keeps-exec, Keeps-bind,
  Keeps-bind-lift, Keeps-bind-raise_if, Keeps-if, finish-keeps, keeps_rules,
}
use timich_agent.Uploads.Statements.{
  first, has_session_id, upsert_checksum, insert_session, insert_epoch, renew_epoch,
  update_sessions, update_assets, reserve_asset, insert_commit_event, insert_reset_event,
  delete_sessions, delete_assets, update_where, delete_where,
}
use timich_agent.Uploads.Inputs.{
  UploadSessionInput, UploadCommitInput, UploadResetInput, UploadCleanupInput, non_zero_time,
  normalize_session_input,
}
use timich_agent.Uploads.Sessions.{
  UploadIdentity, epoch_or_new, ledger_epoch, get_session, session_after, new_session, at_offset,
  advanced, refused, aborted_at, create_normalized, create_session, compare_and_set,
  advance_session, update_session_progress, abort_session, scan_asset, read_asset,
  get_uploaded_asset_by_source_identity, get_uploaded_asset_by_upload_id, get_uploaded_asset_by_id,
  check_identities, check_body, check_uploaded,
}
use timich_agent.Uploads.Commits.{
  ReadBack, by_id, by_identity, selected_root_key_for_upload_session, upsert_asset_checksums,
  committing_for, completed_at, update_reservation, met_existing, meet_existing,
  complete_reservation, reserved_or_met, reserve_body, asset_after, read_back,
  reserve_upload_commit, mark_body, mark_uploaded, reset_body, reset_device_upload_state,
}
use timich_agent.Uploads.Cleanup.{
  UploadCleanupCandidate, UploadCleanupResult, delete_commit_events, delete_reset_events,
  remove_session, remove_found, upload_cleanup_candidates, cleanup_upload_session,
  cleanup_upload_events, cleanup_candidates, cleanup_upload_state,
}
use timich_agent.Uploads.History.{
  Call, asks_epoch, gets_session, creates, advances, aborts, reserves, marks, gets_by_identity,
  gets_by_upload, gets_by_id, checks, resets, lists_candidates, cleans_session, cleans_events,
  cleans, step,
}

-- `Q` outlives the statements on the table other than the insertion.
pub record Updates (Q : List UploadSession → Type 0) : Type 0 where
  pub progress :
      (id : Text) (expected next now : ℕ) (ss : List UploadSession)
      → ltb next expected ≡ false
      → Q ss
      → Q (update_where (at_offset id expected) (advanced next now) ss)
  pub restated :
      (p : UploadSession → Bool) (f : UploadSession → UploadSession) (ss : List UploadSession)
      → ((s : UploadSession) → (f s).upload_id ≡ s.upload_id)
      → ((s : UploadSession) → (f s).next_offset ≡ s.next_offset)
      → Q ss
      → Q (update_where p f ss)
  pub deleted : (p : UploadSession → Bool) (ss : List UploadSession) → Q ss → Q (delete_where p ss)

-- It outlives the insertion of a session.
pub record Inserts (Q : List UploadSession → Type 0) (i : UploadSessionInput) : Type 0 where
  pub inserted :
      (ss : List UploadSession)
      → is_some (first (has_session_id i.upload_id) ss) ≡ false
      → Q ss
      → Q (ss ++ new_session i ∷ [])

abbrev pub OnSessions : (List UploadSession → Type 0) → Db → Type 0
OnSessions Q db = Q db.sessions

module _ (Q : List UploadSession → Type 0) (u : Updates Q) where
  insert_session-OnSessions :
      (i : UploadSessionInput)
      → Inserts Q i
      → Keeps (OnSessions Q) (statement (insert_session (new_session i)))
  unfolding insert_session
  insert_session-OnSessions i k = Keeps-statement _ λ db db' a e h.
      elim (Bool-cases (is_some (first (has_session_id i.upload_id) db.sessions))) [
        | inl dup ↦ ground (arith, e, dup)
        | inr new ↦ ground (arith, e, new, k.inserted db.sessions new h)
      ]

  insert_epoch-OnSessions :
      (d e : Text) → Keeps (OnSessions Q) (exec (λ db. (insert_epoch d e db, tt)))
  unfolding insert_epoch
  insert_epoch-OnSessions d e = Keeps-exec _ λ db h. ground (arith, h)

  renew_epoch-OnSessions :
      (d e : Text) → Keeps (OnSessions Q) (exec (λ db. (renew_epoch d e db, tt)))
  unfolding renew_epoch
  renew_epoch-OnSessions d e = Keeps-exec _ λ db h. ground (arith, h)

  update_sessions-OnSessions :
      (p : UploadSession → Bool) (f : UploadSession → UploadSession)
      → ((s : UploadSession) → (f s).upload_id ≡ s.upload_id)
      → ((s : UploadSession) → (f s).next_offset ≡ s.next_offset)
      → Keeps (OnSessions Q) (exec (update_sessions p f))
  unfolding update_sessions
  update_sessions-OnSessions p f fi fo = Keeps-exec _ λ db h. u.restated p f db.sessions fi fo h

  delete_sessions-OnSessions :
      (p : UploadSession → Bool) → Keeps (OnSessions Q) (exec (delete_sessions p))
  unfolding delete_sessions
  delete_sessions-OnSessions p = Keeps-exec _ λ db h. u.deleted p db.sessions h

  update_assets-OnSessions :
      (p : AssetRow → Bool) (f : AssetRow → AssetRow)
      → Keeps (OnSessions Q) (exec (update_assets p f))
  unfolding update_assets
  update_assets-OnSessions p f = Keeps-exec _ λ db h. h

  reserve_asset-OnSessions : (row : ℕ → AssetRow) → Keeps (OnSessions Q) (exec (reserve_asset row))
  unfolding reserve_asset
  reserve_asset-OnSessions row = Keeps-exec _ λ db h. ground (arith, h)

  delete_assets-OnSessions : (p : AssetRow → Bool) → Keeps (OnSessions Q) (exec (delete_assets p))
  unfolding delete_assets
  delete_assets-OnSessions p = Keeps-exec _ λ db h. h

  upsert_checksum-OnSessions :
      (id : ℕ) (c : UploadChecksum)
      → Keeps (OnSessions Q) (exec (λ db. (upsert_checksum id c db, tt)))
  unfolding upsert_checksum
  upsert_checksum-OnSessions id c = Keeps-exec _ λ db h. ground (arith, h)

  insert_commit_event-OnSessions :
      (e : CommitEvent) → Keeps (OnSessions Q) (exec (insert_commit_event e))
  unfolding insert_commit_event
  insert_commit_event-OnSessions e = Keeps-exec _ λ db h. h

  insert_reset_event-OnSessions :
      (e : ResetEvent) → Keeps (OnSessions Q) (exec (insert_reset_event e))
  unfolding insert_reset_event
  insert_reset_event-OnSessions e = Keeps-exec _ λ db h. h

  delete_commit_events-OnSessions : (n : ℕ) → Keeps (OnSessions Q) (exec (delete_commit_events n))
  unfolding delete_commit_events
  delete_commit_events-OnSessions n = Keeps-exec _ λ db h. h

  delete_reset_events-OnSessions : (n : ℕ) → Keeps (OnSessions Q) (exec (delete_reset_events n))
  unfolding delete_reset_events
  delete_reset_events-OnSessions n = Keeps-exec _ λ db h. h

  ruleset sessions_rules = (
    keeps_rules, insert_epoch-OnSessions, renew_epoch-OnSessions, update_assets-OnSessions,
    reserve_asset-OnSessions, delete_assets-OnSessions, delete_sessions-OnSessions,
    upsert_checksum-OnSessions, insert_commit_event-OnSessions, insert_reset_event-OnSessions,
    delete_commit_events-OnSessions, delete_reset_events-OnSessions,
  )

  epoch_or_new-OnSessions :
      (random device : Text) (found : Option Text)
      → Keeps (OnSessions Q) (epoch_or_new random device found)
  epoch_or_new-OnSessions random device (some epoch) = search sessions_rules
  epoch_or_new-OnSessions random device none = search sessions_rules

  ledger_epoch-OnSessions :
      (random device : Text) → Keeps (OnSessions Q) (ledger_epoch random device)
  unfolding ledger_epoch
  ledger_epoch-OnSessions random device = search (sessions_rules, epoch_or_new-OnSessions) depth 12

  get_session-OnSessions : (id : Text) → Keeps (OnSessions Q) (get_session id)
  unfolding get_session
  get_session-OnSessions id = search sessions_rules

  session_after-OnSessions : (id : Text) → Keeps (OnSessions Q) (session_after id)
  session_after-OnSessions id = Keeps-bind _ _ (get_session-OnSessions id) (Keeps-some_or _)

  create_normalized-OnSessions :
      (random : Text) (i : UploadSessionInput)
      → Inserts Q i
      → Keeps (OnSessions Q) (create_normalized random i)
  unfolding create_normalized
  create_normalized-OnSessions random i k =
      Keeps-bind _ _ (ledger_epoch-OnSessions _ _)
        λ _. Keeps-bind _ _ (insert_session-OnSessions i k) λ _. session_after-OnSessions _

  create_session-OnSessions :
      (clock : ℕ) (random : Text) (input : UploadSessionInput)
      → ((i : UploadSessionInput) → normalize_session_input clock input ≡ ok i → Inserts Q i)
      → Keeps (OnSessions Q) (create_session clock random input)
  unfolding create_session
  create_session-OnSessions clock random input k =
      Keeps-bind-lift (normalize_session_input clock input) (create_normalized random)
        λ i e. create_normalized-OnSessions random i (k i e)

  refused-OnSessions : (id : Text) → Keeps (OnSessions Q) (refused id)
  unfolding get_session
  refused-OnSessions id = search sessions_rules depth 12

  compare_and_set-OnSessions :
      (id : Text) (expected next now : ℕ)
      → ltb next expected ≡ false
      → Keeps (OnSessions Q) (compare_and_set id expected next now)
  unfolding compare_and_set update_sessions
  compare_and_set-OnSessions id expected next now up =
      Keeps-bind _ _
        (Keeps-exec (update_sessions (at_offset id expected) (advanced next now))
          λ db h. u.progress id expected next now db.sessions up h)
        λ n. Keeps-if _ _ _ (refused-OnSessions id) (session_after-OnSessions id)

  advance_session-OnSessions :
      (clock : ℕ) (id : Text) (expected next now : ℕ)
      → Keeps (OnSessions Q) (advance_session clock id expected next now)
  unfolding advance_session
  advance_session-OnSessions clock id expected next now =
      Keeps-bind-raise_if (ltb next expected) input_invalid
        (compare_and_set (trim_space id) expected next (non_zero_time clock now))
        λ up. compare_and_set-OnSessions (trim_space id) expected next (non_zero_time clock now) up

  update_session_progress-OnSessions :
      (clock : ℕ) (id : Text) (expected next : ℤ) (now : ℕ)
      → Keeps (OnSessions Q) (update_session_progress clock id expected next now)
  unfolding update_session_progress
  update_session_progress-OnSessions clock id (pos e) (pos n) now =
      advance_session-OnSessions clock id e n now
  update_session_progress-OnSessions clock id (pos e) (negsuc n) now = search sessions_rules
  update_session_progress-OnSessions clock id (negsuc e) (pos n) now = search sessions_rules
  update_session_progress-OnSessions clock id (negsuc e) (negsuc n) now = search sessions_rules

  aborted_at-OnSessions :
      (p : UploadSession → Bool) (now : ℕ)
      → Keeps (OnSessions Q) (exec (update_sessions p (aborted_at now)))
  aborted_at-OnSessions p now =
      update_sessions-OnSessions p (aborted_at now) (λ s. refl) (λ s. refl)

  abort_session-OnSessions :
      (clock : ℕ) (id device : Text) (now : ℕ)
      → Keeps (OnSessions Q) (abort_session clock id device now)
  unfolding abort_session
  abort_session-OnSessions clock id device now =
      search (sessions_rules, aborted_at-OnSessions, session_after-OnSessions) depth 14

  scan_asset-OnSessions :
      (found : Option (AssetRow × Option Text)) → Keeps (OnSessions Q) (scan_asset found)
  scan_asset-OnSessions none = search sessions_rules
  scan_asset-OnSessions (some (a, epoch)) = search sessions_rules

  read_asset-OnSessions : (p : AssetRow → Bool) → Keeps (OnSessions Q) (read_asset p)
  unfolding read_asset
  read_asset-OnSessions p = search (sessions_rules, scan_asset-OnSessions)

  check_identities-OnSessions :
      (device : Text) (is : List UploadIdentity) → Keeps (OnSessions Q) (check_identities device is)
  unfolding check_identities
  check_identities-OnSessions device [] = Keeps-pure []
  check_identities-OnSessions device (i ∷ is) =
      Keeps-bind _ _ (Keeps-query _)
        λ found. Keeps-bind _ _ (check_identities-OnSessions device is) λ rest. Keeps-pure _

  check_uploaded-OnSessions :
      (random device : Text) (is : List UploadIdentity)
      → Keeps (OnSessions Q) (check_uploaded random device is)
  unfolding check_uploaded check_body
  check_uploaded-OnSessions random device is =
      search (sessions_rules, ledger_epoch-OnSessions, check_identities-OnSessions) depth 14

  remove_found-OnSessions :
      (now : ℕ) (found : Option UploadSession) → Keeps (OnSessions Q) (remove_found now found)
  remove_found-OnSessions now none = search sessions_rules
  remove_found-OnSessions now (some s) = record {
    at = λ c h.
        let k : Keeps (OnSessions Q) (remove_session s now) = search sessions_rules in
        finish-keeps (OnSessions Q) c.db (remove_session s now c) h (k.at c h);
  }

  cleanup_upload_session-OnSessions :
      (clock : ℕ) (id : Text) (i : UploadCleanupInput)
      → Keeps (OnSessions Q) (cleanup_upload_session clock id i)
  unfolding cleanup_upload_session
  cleanup_upload_session-OnSessions clock id i =
      search (sessions_rules, remove_found-OnSessions) depth 12

  cleanup_candidates-OnSessions :
      (clock : ℕ) (i : UploadCleanupInput) (cs : List UploadCleanupCandidate)
      (r : UploadCleanupResult)
      → Keeps (OnSessions Q) (cleanup_candidates clock i cs r)
  unfolding cleanup_candidates
  cleanup_candidates-OnSessions clock i [] r = Keeps-pure r
  cleanup_candidates-OnSessions clock i (c ∷ cs) r =
      Keeps-bind _ _ (cleanup_upload_session-OnSessions clock _ i)
        λ removed. cleanup_candidates-OnSessions clock i cs _

  cleanup_upload_events-OnSessions :
      (clock : ℕ) (i : UploadCleanupInput) → Keeps (OnSessions Q) (cleanup_upload_events clock i)
  unfolding cleanup_upload_events
  cleanup_upload_events-OnSessions clock i = search sessions_rules depth 14

  cleanup_upload_state-OnSessions :
      (clock : ℕ) (i : UploadCleanupInput) → Keeps (OnSessions Q) (cleanup_upload_state clock i)
  unfolding cleanup_upload_state upload_cleanup_candidates
  cleanup_upload_state-OnSessions clock i =
      search (sessions_rules, cleanup_candidates-OnSessions, cleanup_upload_events-OnSessions) depth
        14

  upsert_asset_checksums-OnSessions :
      (id : ℕ) (cs : List UploadChecksum) → Keeps (OnSessions Q) (upsert_asset_checksums id cs)
  unfolding upsert_asset_checksums
  upsert_asset_checksums-OnSessions id [] = Keeps-pure tt
  upsert_asset_checksums-OnSessions id (c ∷ cs) =
      Keeps-bind _ _ (upsert_checksum-OnSessions id c) λ _. upsert_asset_checksums-OnSessions id cs

  asset_after-OnSessions : (p : AssetRow → Bool) → Keeps (OnSessions Q) (asset_after (read_asset p))
  asset_after-OnSessions p = search (keeps_rules, read_asset-OnSessions)

  read_back-OnSessions :
      (i : UploadCommitInput) (back : ReadBack)
      → Keeps (OnSessions Q) (asset_after (read_back i back))
  unfolding get_uploaded_asset_by_id get_uploaded_asset_by_source_identity
  read_back-OnSessions i (by_id id) = asset_after-OnSessions _
  read_back-OnSessions i by_identity = asset_after-OnSessions _

  committing_for-OnSessions :
      (p : UploadSession → Bool) (i : UploadCommitInput)
      → Keeps (OnSessions Q) (exec (update_sessions p (committing_for i)))
  committing_for-OnSessions p i =
      update_sessions-OnSessions p (committing_for i) (λ s. refl) (λ s. refl)

  completed_at-OnSessions :
      (p : UploadSession → Bool) (now : ℕ)
      → Keeps (OnSessions Q) (exec (update_sessions p (completed_at now)))
  completed_at-OnSessions p now =
      update_sessions-OnSessions p (completed_at now) (λ s. refl) (λ s. refl)

  met_existing-OnSessions :
      (i : UploadCommitInput) (root : Text) (existing : UploadedAsset)
      → Keeps (OnSessions Q) (met_existing i root existing)
  unfolding update_reservation
  met_existing-OnSessions i root existing =
      search (sessions_rules, upsert_asset_checksums-OnSessions) depth 12

  reserved_or_met-OnSessions :
      (i : UploadCommitInput) (root : Text) (inserted : Option ℕ)
      → Keeps (OnSessions Q) (reserved_or_met i root inserted)
  unfolding meet_existing complete_reservation get_uploaded_asset_by_source_identity
  reserved_or_met-OnSessions i root none =
      search (sessions_rules, read_asset-OnSessions, met_existing-OnSessions)
  reserved_or_met-OnSessions i root (some id) =
      search (sessions_rules, upsert_asset_checksums-OnSessions)

  reserve_upload_commit-OnSessions :
      (to_lower : Text → Text) (clock : ℕ) (input : UploadCommitInput)
      → Keeps (OnSessions Q) (reserve_upload_commit to_lower clock input)
  unfolding reserve_upload_commit reserve_body selected_root_key_for_upload_session
  reserve_upload_commit-OnSessions to_lower clock input =
      search
        (
          sessions_rules, committing_for-OnSessions, reserved_or_met-OnSessions,
          read_back-OnSessions,
        )
        depth 18

  mark_uploaded-OnSessions : (clock id now : ℕ) → Keeps (OnSessions Q) (mark_uploaded clock id now)
  unfolding mark_uploaded mark_body get_uploaded_asset_by_id
  mark_uploaded-OnSessions clock id now =
      search (sessions_rules, completed_at-OnSessions, read_asset-OnSessions) depth 18

  reset_device_upload_state-OnSessions :
      (clock : ℕ) (random : Text) (input : UploadResetInput)
      → Keeps (OnSessions Q) (reset_device_upload_state clock random input)
  unfolding reset_device_upload_state reset_body
  reset_device_upload_state-OnSessions clock random input = search sessions_rules depth 18

-- What a call needs of `Q` for `Q` to hold after it.
abbrev pub Creates : (List UploadSession → Type 0) → Call → Type 0
Creates Q (creates clock random input) =
    (i : UploadSessionInput) → normalize_session_input clock input ≡ ok i → Inserts Q i
Creates Q _ = Unit

pub step-OnSessions :
    (Q : List UploadSession → Type 0) (u : Updates Q) (to_lower : Text → Text) (call : Call)
    → Creates Q call
    → (c : Conn) → OnSessions Q c.db
    → OnSessions Q (step to_lower call c).db
unfolding step get_uploaded_asset_by_source_identity get_uploaded_asset_by_upload_id
    get_uploaded_asset_by_id upload_cleanup_candidates
step-OnSessions Q u l (asks_epoch random device) w c =
    (ledger_epoch-OnSessions Q u random device).at c
step-OnSessions Q u l (gets_session id) w c = (get_session-OnSessions Q u id).at c
step-OnSessions Q u l (creates clock random i) w c =
    (create_session-OnSessions Q u clock random i w).at c
step-OnSessions Q u l (advances clock id e n now) w c =
    (update_session_progress-OnSessions Q u clock id e n now).at c
step-OnSessions Q u l (aborts clock id device now) w c =
    (abort_session-OnSessions Q u clock id device now).at c
step-OnSessions Q u l (reserves clock i) w c = (reserve_upload_commit-OnSessions Q u l clock i).at c
step-OnSessions Q u l (marks clock id now) w c = (mark_uploaded-OnSessions Q u clock id now).at c
step-OnSessions Q u l (gets_by_identity d s v) w c = (read_asset-OnSessions Q u _).at c
step-OnSessions Q u l (gets_by_upload id) w c = (read_asset-OnSessions Q u _).at c
step-OnSessions Q u l (gets_by_id id) w c = (read_asset-OnSessions Q u _).at c
step-OnSessions Q u l (checks random device is) w c =
    (check_uploaded-OnSessions Q u random device is).at c
step-OnSessions Q u l (resets clock random i) w c =
    (reset_device_upload_state-OnSessions Q u clock random i).at c
step-OnSessions Q u l (lists_candidates clock i) w c = (Keeps-query {P = OnSessions Q} _).at c
step-OnSessions Q u l (cleans_session clock id i) w c =
    (cleanup_upload_session-OnSessions Q u clock id i).at c
step-OnSessions Q u l (cleans_events clock i) w c =
    (cleanup_upload_events-OnSessions Q u clock i).at c
step-OnSessions Q u l (cleans clock i) w c = (cleanup_upload_state-OnSessions Q u clock i).at c
