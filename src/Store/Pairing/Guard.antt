-- ===== src/Store/Pairing/Guard.antt =====
-- There is at most one pairing session, with less than five failed attempts.
pub mod Run
use timich_agent.Base.{
  ℕ, ◌≤◌, ◌<◌, ◌≡◌, Option, List, [], ◌∷◌, length, All, keep_if, length-keep_if, All-keep_if,
  length-set, All-set, find_index, find_index_sound, All-get_elem?, arith, Text, text_eq,
  trim_space, List-cases, inl, inr, Option-cases, some, err, Result,
}
use timich_agent.AtomicFile.{Syscalls}
use timich_agent.Store.Registry.{
  StoreError, pairing_session_not_found, PairingSession, DeviceRecord, DeviceRegistryStore,
  max_pairing_failed_attempts,
}
use timich_agent.Store.File.{persist_locked, commit}
use timich_agent.Store.Cleanup.{session_is_active, cleanup_expired}
use timich_agent.Store.Tokens.{Digest, DeviceDraws}
use timich_agent.Store.Pairing.{
  record_failed_pairing_attempt, create_pairing_session, count_failed_attempt, pair_device,
  redeem_pairing_session,
}

abbrev pub IsOpen : PairingSession → Type 0
IsOpen session = session.failed_attempts < max_pairing_failed_attempts

pub record IsGuarded (s : DeviceRegistryStore) : Type 0 where
  pub at_most_one : length s.pairing_sessions ≤ 1
  pub attempts_left : All IsOpen s.pairing_sessions

pub cleanup_expired-IsGuarded :
    (now : ℕ) (s : DeviceRegistryStore) → IsGuarded s → IsGuarded (cleanup_expired now s)
unfolding cleanup_expired
cleanup_expired-IsGuarded now s g = record {
  at_most_one =
      omega (arith, length-keep_if (session_is_active now) s.pairing_sessions, g.at_most_one);
  attempts_left = All-keep_if IsOpen (session_is_active now) s.pairing_sessions g.attempts_left;
}

pub create_pairing_session-IsGuarded :
    (os : Syscalls) (code : Option Text) (s : DeviceRegistryStore) (now expires : ℕ)
    → IsGuarded s
    → IsGuarded (create_pairing_session os code s now expires).0
unfolding create_pairing_session persist_locked
create_pairing_session-IsGuarded os code s now expires g =
    ground (arith, cleanup_expired-IsGuarded now s g)

-- A failed attempt counts, and closes the session at the fifth.
count_failed_attempt-IsGuarded :
    (sessions : List PairingSession)
    → length sessions ≤ 1
    → All IsOpen sessions
    → (length (count_failed_attempt sessions) ≤ 1) × All IsOpen (count_failed_attempt sessions)
unfolding count_failed_attempt
count_failed_attempt-IsGuarded [] o a = (o, a)
count_failed_attempt-IsGuarded (x ∷ []) o a = ground arith
count_failed_attempt-IsGuarded (x ∷ y ∷ ys) o a = absurd (omega arith)

module _ {A : Type 0} where
  record_failed_pairing_attempt-IsGuarded :
      (os : Syscalls) (s : DeviceRegistryStore) (reply : Result StoreError A)
      → IsGuarded s
      → IsGuarded (record_failed_pairing_attempt os s reply).0
  unfolding record_failed_pairing_attempt persist_locked
  record_failed_pairing_attempt-IsGuarded os s reply g =
      ground
        (arith, count_failed_attempt-IsGuarded s.pairing_sessions g.at_most_one g.attempts_left)

module _ ⦃h : Digest⦄ where
  -- The session that is redeemed stands in the list, so its number of failed attempts is kept.
  pair_device-IsGuarded :
      (os : Syscalls) (draws : DeviceDraws) (c : DeviceRegistryStore) (index : ℕ)
      (session : PairingSession) (name : Text) (now expires : ℕ)
      → IsGuarded c
      → IsOpen session
      → IsGuarded (pair_device os draws c (index, session) name now expires).0
  unfolding pair_device persist_locked
  pair_device-IsGuarded os draws c index session name now expires g o = ground (
    arith,
    length-set c.pairing_sessions index (record session { redeemed_at = some now }),
    All-set IsOpen c.pairing_sessions index (record session { redeemed_at = some now })
        g.attempts_left o,
  )

  pub redeem_pairing_session-IsGuarded :
      (os : Syscalls) (draws : DeviceDraws) (s : DeviceRegistryStore) (code name : Text)
      (now expires : ℕ)
      → IsGuarded s
      → IsGuarded (redeem_pairing_session os draws s code name now expires).0
  unfolding redeem_pairing_session
  redeem_pairing_session-IsGuarded os draws s code name now expires g =
      let c : DeviceRegistryStore = cleanup_expired now s in
      let gc : IsGuarded c = cleanup_expired-IsGuarded now s g in
      elim (Option-cases
        (find_index (λ session. text_eq session.code (trim_space code)) c.pairing_sessions)) [
          | inl e ↦ rw e (
              ground (
                arith,
                gc,
                record_failed_pairing_attempt-IsGuarded {A = DeviceRecord} os c
                    (err pairing_session_not_found) gc,
              ))
          | inr ((i, session), e) ↦ rw e (
              ground (
                arith,
                gc,
                record_failed_pairing_attempt-IsGuarded {A = DeviceRecord} os c
                    (err pairing_session_not_found) gc,
                pair_device-IsGuarded os draws c i session name now expires gc (
                    All-get_elem? IsOpen c.pairing_sessions i session gc.attempts_left
                      (find_index_sound _ c.pairing_sessions i session e).1),
              ))
        ]
