-- ===== src/Store/Pairing.antt =====
-- internal/store/device_registry.go: pairing sessions.
pub mod Guard
pub mod OneTime
pub mod Lockout
use timich_agent.Base.{
  ℕ, ◌+◌, ◌≡◌, Bool, true, false, Option, none, some, List, [], ◌∷◌, ◌++◌, ltb, leb, if◌then◌else◌,
  is_some, length, set, find_index, Text, text_eq, is_empty, trim_space, Result, ok, err,
}
use timich_agent.AtomicFile.{Syscalls}
use timich_agent.Store.Registry.{
  StoreError, pairing_session_not_found, pairing_session_expired, pairing_session_used,
  device_limit_reached, random_failed, max_pairing_failed_attempts, PairingSession, DeviceRecord,
  DeviceRegistryStore, Reply,
}
use timich_agent.Store.File.{persist_locked}
use timich_agent.Store.Cleanup.{cleanup_expired}
use timich_agent.Store.Tokens.{Digest, DeviceDraws, new_device_record}

-- `code` is what randomPairingCode gives.
unfoldable pub create_pairing_session :
    Syscalls → Option Text → DeviceRegistryStore → ℕ → ℕ → Reply PairingSession
create_pairing_session os code s now expires_at =
    let c = cleanup_expired now s in
    if leb c.device_limit (length c.devices) then (c, err device_limit_reached) else elim code [
      | none ↦ (c, err random_failed)
      | some code ↦
          let session : PairingSession = record {
            code = code;
            created_at = now;
            expires_at = expires_at;
            failed_attempts = 0;
            redeemed_at = none;
          } in
          persist_locked os
            (record c { registry = record c.registry { pairing_sessions = session ∷ [] } })
            (ok session)
    ]

-- The sessions after a failed attempt on the first of them.
unfoldable pub count_failed_attempt : List PairingSession → List PairingSession
count_failed_attempt [] = []
count_failed_attempt (session ∷ rest) =
    if leb max_pairing_failed_attempts (session.failed_attempts + 1)
    then []
    else record session { failed_attempts = session.failed_attempts + 1 } ∷ rest

-- recordFailedPairingAttemptLocked, and then `return reply`.
unfoldable pub record_failed_pairing_attempt :
    {A : Type 0} → Syscalls → DeviceRegistryStore → Result StoreError A → Reply A
unfolding count_failed_attempt
record_failed_pairing_attempt os s reply = elim s.pairing_sessions [
  | [] ↦ (s, reply)
  | session ∷ rest ↦
      persist_locked os
        (record s {
          registry = record s.registry {
            pairing_sessions = count_failed_attempt s.pairing_sessions;
          };
        })
        reply
]

module _ ⦃h : Digest⦄ where
  -- The end of RedeemPairingSession, from newDeviceRecord on.
  unfoldable pub pair_device :
      Syscalls
      → DeviceDraws
      → DeviceRegistryStore
      → ℕ × PairingSession
      → Text
      → ℕ
      → ℕ
      → Reply DeviceRecord
  pair_device os draws c (index, session) name now refresh_token_expires_at =
      elim (new_device_record draws name now refresh_token_expires_at) [
        | err e ↦ (c, err e)
        | ok device ↦
            persist_locked os
              (record c {
                registry = record c.registry {
                  devices = c.devices ++ device ∷ [];
                  pairing_sessions =
                      set c.pairing_sessions index (record session { redeemed_at = some now });
                };
              })
              (ok device)
      ]

  unfoldable pub redeem_pairing_session :
      Syscalls → DeviceDraws → DeviceRegistryStore → Text → Text → ℕ → ℕ → Reply DeviceRecord
  unfolding record_failed_pairing_attempt
  redeem_pairing_session os draws s code name now refresh_token_expires_at =
      let c = cleanup_expired now s in
      if leb c.device_limit (length c.devices)
      then (c, err device_limit_reached)
      else if is_empty (trim_space code)
      then record_failed_pairing_attempt os c (err pairing_session_not_found)
      else elim (find_index (λ session. text_eq session.code (trim_space code))
          c.pairing_sessions) [
            | none ↦ record_failed_pairing_attempt os c (err pairing_session_not_found)
            | some (index, session) ↦
                if is_some session.redeemed_at
                then (c, err pairing_session_used)
                else if ltb session.expires_at now
                then (c, err pairing_session_expired)
                else pair_device os draws c (index, session) name now refresh_token_expires_at
          ]
