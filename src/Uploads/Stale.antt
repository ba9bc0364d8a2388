-- ===== src/Uploads/Stale.antt =====
-- internal/store/upload_store.go: of two writers that expect the same offset, one succeeds.
use timich_agent.Base.{
  ℕ, ◌≤◌, ◌<◌, ◌≡◌, refl, ap, true, Bool-cases, inl, inr, List, [], ◌∷◌, Text, arith, Result-cases,
  ok, err, trim_space, pos,
}
use timich_agent.Uploads.Rows.{Db, UploadSession, UploadError}
use timich_agent.Uploads.Action.{Conn, statement}
use timich_agent.Uploads.Action.Atomic.{sound, Uniform}
use timich_agent.Uploads.Statements.{count_where, update_where, has_session_id, update_sessions}
use timich_agent.Uploads.Inputs.{non_zero_time}
use timich_agent.Uploads.Sessions.{
  at_offset, advanced, refused, get_session, compare_and_set, advance_session,
  update_session_progress,
}
use timich_agent.Uploads.Atomicity.{uniform_rules}
use timich_agent.Uploads.Tables.{count_where-stronger}
use timich_agent.Uploads.History.{Call, run}
use timich_agent.Uploads.Effects.Sessions.{OnSessions}
use timich_agent.Uploads.Progress.{OneEach, behind, IsPast, start_no, run-IsPast}

behind_none :
    (id : Text) (expected next now : ℕ) (ss : List UploadSession)
    → count_where (has_session_id id) ss ≡ 0
    → IsPast id expected (update_where (at_offset id expected) (advanced next now) ss)
behind_none id expected next now [] h = refl
behind_none id expected next now (s ∷ ss) h = ground (arith, h, behind_none id expected next now ss)

-- The session that the compare-and-set has changed is past the expected offset.
updated-IsPast :
    (id : Text) (expected next now : ℕ) (ss : List UploadSession)
    → expected < next
    → count_where (has_session_id id) ss ≤ 1
    → 1 ≤ count_where (at_offset id expected) ss
    → IsPast id expected (update_where (at_offset id expected) (advanced next now) ss)
updated-IsPast id expected next now [] up one hit = cc
updated-IsPast id expected next now (s ∷ ss) up one hit = elim (Bool-cases (has_session_id id s)) [
  | inl named ↦ ground (
    arith,
    named,
    up,
    one,
    hit,
    behind_none id expected next now ss,
    count_where-stronger (has_session_id id) (at_offset id expected) (λ x k. ground (arith, k)) ss,
  )
  | inr other ↦ ground (arith, other, up, one, hit, updated-IsPast id expected next now ss up)
]

refused-Uniform : (id : Text) → Uniform (refused id)
unfolding get_session
refused-Uniform id = search uniform_rules depth 12

advance_session-Uniform :
    (clock : ℕ) (id : Text) (expected next now : ℕ)
    → Uniform (advance_session clock id expected next now)
unfolding advance_session compare_and_set get_session
advance_session-Uniform clock id expected next now =
    search (uniform_rules, refused-Uniform) depth 16

advance_session-sound :
    (clock : ℕ) (id : Text) (expected next now : ℕ) (db db' : Db) (s : UploadSession)
    → advance_session clock id expected next now (sound db) ≡ (sound db', ok s)
    → (1 ≤ count_where (at_offset (trim_space id) expected) db.sessions)
      × (db'.sessions
          ≡ update_where
              (at_offset (trim_space id) expected)
              (advanced next (non_zero_time clock now))
              db.sessions)
unfolding advance_session compare_and_set get_session statement update_sessions
advance_session-sound clock id expected next now db db' s e = ground (arith, e)

-- After the success the session is past the expected offset.
advance_session-IsPast :
    (clock : ℕ) (id : Text) (expected next now : ℕ) (c c' : Conn) (s : UploadSession)
    → OnSessions OneEach c.db
    → expected < next
    → advance_session clock id expected next now c ≡ (c', ok s)
    → OnSessions (IsPast (trim_space id) expected) c'.db
advance_session-IsPast clock id expected next now c c' s one up e =
    let (hit, changed) =
      advance_session-sound clock id expected next now c.db c'.db s
        ((advance_session-Uniform clock id expected next now).at c c' s e) in
    rw changed (
      updated-IsPast (trim_space id) expected next (non_zero_time clock now) c.db.sessions up
        (one (trim_space id)) hit)

-- Past an offset, an update that expects it or one before it does not return.
past-refused :
    (clock : ℕ) (id : Text) (n expected next now : ℕ) (c : Conn)
    → OnSessions (IsPast (trim_space id) n) c.db
    → expected ≤ n
    → (e : UploadError) × ((advance_session clock id expected next now c).1 ≡ err e)
past-refused clock id n expected next now c past le =
    elim (Result-cases (advance_session clock id expected next now c).1) [
      | inl (s, got) ↦
          let c' = (advance_session clock id expected next now c).0 in
          let (hit, _) = advance_session-sound clock id expected next now c.db c'.db s (
            (advance_session-Uniform clock id expected next now).at c c' s
              (ap (λ x. (c', x)) got)) in
          let fewer =
            count_where-stronger (behind (trim_space id) n) (at_offset (trim_space id) expected)
              (λ x k. ground (arith, k, le)) c.db.sessions in
          ground (arith, hit, fewer, past)
      | inr (e, got) ↦ (e, got)
    ]

-- Where UpdateSessionProgress has taken a session forward from an offset, then after any further calls,
-- whichever statements fail, that start no session under the same name anew, an update that expects that
-- offset or one before it fails.
pub update_session_progress-once :
    (to_lower : Text → Text) (clock : ℕ) (id : Text) (expected next now : ℕ) (c c' : Conn)
    (s : UploadSession) (calls : List Call) (clock' expected' next' now' : ℕ)
    → OnSessions OneEach c.db
    → expected < next
    → update_session_progress clock id (pos expected) (pos next) now c ≡ (c', ok s)
    → start_no (trim_space id) calls ≡ true
    → expected' ≤ expected
    → (e : UploadError) × ((update_session_progress clock' id
          (pos expected')
          (pos next')
          now'
          (run to_lower calls c')).1
        ≡ err e)
unfolding update_session_progress
update_session_progress-once l clock id expected next now c c' s calls clock' expected' next' now'
      one up ran other le =
    past-refused clock' id expected expected' next' now' (run l calls c')
      (run-IsPast (trim_space id) expected l calls c' other
        (advance_session-IsPast clock id expected next now c c' s one up ran))
      le
