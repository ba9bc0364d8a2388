-- ===== src/Uploads/Protected.antt =====
-- internal/store/upload_cleanup.go: the sessions that a cleanup leaves.
use timich_agent.Base.{
  ℕ, ◌≡◌, refl, sym, ap, ◌∙◌, subst, false, ◌&&◌, Bool-cases, ◌⊎◌, inl, inr, Option, none, some,
  List, [], ◌∷◌, Text, text_eq_sound, text_eq_complete, arith, trim_space,
}
use timich_agent.Uploads.Rows.{Db, UploadSession, active, committing}
use timich_agent.Uploads.Action.{Conn, exec}
use timich_agent.Uploads.Action.Keeps.{
  Keeps, Keeps-pure, Keeps-query, Keeps-exec, Keeps-bind, Keeps-bind-query, finish-keeps,
  keeps_rules,
}
use timich_agent.Uploads.Statements.{first, has_session_id, delete_sessions}
use timich_agent.Uploads.Inputs.{UploadCleanupInput, non_zero_time}
use timich_agent.Uploads.Cleanup.{
  UploadCleanupCandidate, UploadCleanupResult, has_expired, upload_cleanup_predicate,
  upload_cleanup_candidates, remove_session, remove_found, cleanup_upload_session,
  delete_commit_events, delete_reset_events, cleanup_upload_events, cleanup_candidates,
  cleanup_upload_state,
}
use timich_agent.Uploads.Tables.{first_unique, first_sound, first-delete_kept, count_where-delete}
use timich_agent.Uploads.Progress.{OneEach}

-- The session is being committed, or it is active and not expired.
abbrev pub IsInUse : ℕ → UploadSession → Type 0
IsInUse now s =
    (s.status ≡ committing) ⊎ ((s.status ≡ active) × (has_expired now s.expires_at ≡ false))

in_use-unselected :
    (i : UploadCleanupInput) (now : ℕ) (s : UploadSession)
    → IsInUse now s
    → upload_cleanup_predicate i now s ≡ false
unfolding upload_cleanup_predicate
in_use-unselected i now s (inl e) = rw e refl
in_use-unselected i now s (inr (e, h)) = rw e h

module _ (name : Text) (s : UploadSession) where
  -- The session is the one with the name.
  abbrev Holds : Db → Type 0
  Holds db = OneEach db.sessions × (first (has_session_id name) db.sessions ≡ some s)

  module _ (clock : ℕ) (i : UploadCleanupInput) (used : IsInUse (non_zero_time clock i.now) s) where
    other_name :
        (id : Text) (ss : List UploadSession) (found : UploadSession)
        → OneEach ss
        → first (has_session_id name) ss ≡ some s
        → first
            (λ x. has_session_id id x && upload_cleanup_predicate i (non_zero_time clock i.now) x)
            ss
          ≡ some found
        → has_session_id found.upload_id s ≡ false
    other_name id ss found one kept e = elim (Bool-cases (has_session_id found.upload_id s)) [
      | inr different ↦ different
      | inl same ↦
          let named =
            text_eq_sound s.upload_id name (first_sound (has_session_id name) ss s kept) in
          let equal = text_eq_sound s.upload_id found.upload_id same in
          let is_s : s ≡ found =
            first_unique (has_session_id name)
              (λ x. has_session_id id x && upload_cleanup_predicate i (non_zero_time clock i.now) x)
              ss s found (one name) kept e
              (text_eq_complete found.upload_id name (sym equal ∙ named)) in
          ground (
            arith,
            in_use-unselected i (non_zero_time clock i.now) s used,
            ap (upload_cleanup_predicate i (non_zero_time clock i.now)) is_s,
            first_sound
                (λ x.
                  has_session_id id x && upload_cleanup_predicate i (non_zero_time clock i.now) x)
                ss found e,
          )
    ]

    delete_sessions-Holds :
        (id : Text)
        → has_session_id id s ≡ false
        → Keeps Holds (exec (delete_sessions (has_session_id id)))
    unfolding delete_sessions
    delete_sessions-Holds id different = Keeps-exec _ λ db (one, kept). (
      λ id'.
          ground (
            arith,
            count_where-delete (has_session_id id') (has_session_id id) db.sessions,
            one id',
          ),
      first-delete_kept (has_session_id name) (has_session_id id) db.sessions s kept different,
    )

    remove_found-Holds :
        (id : Text) (c : Conn) (db : Db) (found : Option UploadSession)
        → first
            (λ x. has_session_id id x && upload_cleanup_predicate i (non_zero_time clock i.now) x)
            db.sessions
          ≡ found
        → db ≡ c.db
        → Holds db
        → Holds (remove_found (non_zero_time clock i.now) found c).0.db
    remove_found-Holds id c db none e same h = subst Holds same h
    remove_found-Holds id c db (some found) e same h =
        let (one, kept) = h in
        let here = subst Holds same h in
        let removed =
          Keeps-bind (exec (delete_sessions (has_session_id found.upload_id))) _
            (delete_sessions-Holds found.upload_id (other_name id db.sessions found one kept e))
            λ _. Keeps-pure _ in
        finish-keeps Holds c.db (remove_session found (non_zero_time clock i.now) c) here
          (removed.at c here)

    cleanup_upload_session-Holds : (id : Text) → Keeps Holds (cleanup_upload_session clock id i)
    unfolding cleanup_upload_session
    cleanup_upload_session-Holds id = Keeps-bind _ _ (Keeps-query _) λ _.
        Keeps-bind-query
          (λ db.
            first
              (λ x.
                has_session_id (trim_space id) x
                && upload_cleanup_predicate i (non_zero_time clock i.now) x)
              db.sessions)
          (remove_found (non_zero_time clock i.now))
          λ c db same h. remove_found-Holds (trim_space id) c db _ refl same h

    cleanup_candidates-Holds :
        (cs : List UploadCleanupCandidate) (r : UploadCleanupResult)
        → Keeps Holds (cleanup_candidates clock i cs r)
    unfolding cleanup_candidates
    cleanup_candidates-Holds [] r = Keeps-pure r
    cleanup_candidates-Holds (c ∷ cs) r =
        Keeps-bind _ _ (cleanup_upload_session-Holds _) λ removed. cleanup_candidates-Holds cs _

    delete_commit_events-Holds : (n : ℕ) → Keeps Holds (exec (delete_commit_events n))
    unfolding delete_commit_events
    delete_commit_events-Holds n = Keeps-exec _ λ db h. h

    delete_reset_events-Holds : (n : ℕ) → Keeps Holds (exec (delete_reset_events n))
    unfolding delete_reset_events
    delete_reset_events-Holds n = Keeps-exec _ λ db h. h

    cleanup_upload_state-Holds : Keeps Holds (cleanup_upload_state clock i)
    unfolding cleanup_upload_state upload_cleanup_candidates cleanup_upload_events
    cleanup_upload_state-Holds =
        search
          (
            keeps_rules, cleanup_candidates-Holds, delete_commit_events-Holds,
            delete_reset_events-Holds,
          )
          depth 16

-- Whichever statements fail, CleanupUploadState leaves every session that is being committed, or is active
-- and not expired, as it is, in a table where no two sessions have a name in common.
pub cleanup_upload_state-keeps :
    (clock : ℕ) (i : UploadCleanupInput) (name : Text) (s : UploadSession) (c : Conn)
    → OneEach c.db.sessions
    → first (has_session_id name) c.db.sessions ≡ some s
    → IsInUse (non_zero_time clock i.now) s
    → first (has_session_id name) (cleanup_upload_state clock i c).0.db.sessions ≡ some s
cleanup_upload_state-keeps clock i name s c one kept used =
    ((cleanup_upload_state-Holds name s clock i used).at c (one, kept)).1
