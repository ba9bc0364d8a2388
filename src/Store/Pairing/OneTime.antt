-- ===== src/Store/Pairing/OneTime.antt =====
-- A pairing code is good for one device.
pub mod Run
use timich_agent.Base.{
  ℕ, zero, suc, ◌≤◌, ◌<◌, ◌≡◌, refl, ◌≢◌, inl, inr, some, Option-cases, List, [], ◌∷◌, ◌++◌, length,
  set, get_elem?, keep_if, find_index, find_index_sound, arith, Text, text_eq, text_eq_sound,
  trim_space, Result-cases, ok, err,
}
use timich_agent.AtomicFile.{Syscalls, whole}
use timich_agent.Store.Registry.{
  StoreError, pairing_session_not_found, PairingSession, DeviceRecord, DeviceRegistryStore,
}
use timich_agent.Store.Json.{marshal_registry}
use timich_agent.Store.File.{persist_locked, persist_locked-success}
use timich_agent.Store.Cleanup.{session_is_active, cleanup_expired}
use timich_agent.Store.Tokens.{Digest, DeviceDraws, new_device_record}
use timich_agent.Store.Pairing.{record_failed_pairing_attempt, pair_device, redeem_pairing_session}
use timich_agent.Store.Pairing.Guard.{IsGuarded, cleanup_expired-IsGuarded}

-- What a successful pairing did: `c` is the cleaned registry before it, `t` the one after it.
pub record Paired (c t : DeviceRegistryStore) (code : Text) (now index : ℕ)
    (session : PairingSession) (device : DeviceRecord) : Type 0 where
  pub found : get_elem? c.pairing_sessions index ≡ some session
  pub code_matches : session.code ≡ trim_space code
  pub unexpired : now ≤ session.expires_at
  pub room : length c.devices < c.device_limit
  pub device_added : t.devices ≡ c.devices ++ device ∷ []
  pub redeemed :
      t.pairing_sessions ≡ set c.pairing_sessions index (record session { redeemed_at = some now })
  pub written : t.directory.file ≡ some (whole (marshal_registry t.registry))

record_failed-not_ok :
    {A : Type 0} (os : Syscalls) (s : DeviceRegistryStore) (e : StoreError) (a : A)
    → (record_failed_pairing_attempt os s (err e)).1 ≢ ok a
unfolding record_failed_pairing_attempt persist_locked
record_failed-not_ok os s e a = ground arith

module _ ⦃h : Digest⦄ where
  pair_device-success :
      (os : Syscalls) (draws : DeviceDraws) (c : DeviceRegistryStore) (index : ℕ)
      (session : PairingSession) (name : Text) (now expires : ℕ) (device : DeviceRecord)
      → let r = pair_device os draws c (index, session) name now expires in
        r.1 ≡ ok device
        → (r.0.devices ≡ c.devices ++ device ∷ [])
          × (r.0.pairing_sessions
              ≡ set c.pairing_sessions index (record session { redeemed_at = some now }))
          × (r.0.directory.file ≡ some (whole (marshal_registry r.0.registry)))
  unfolding pair_device
  pair_device-success os draws c index session name now expires device =
      elim (Result-cases (new_device_record draws name now expires)) [
        | inl (d, e) ↦
            rw (e, pair_device)
              (λ q. ground (
                arith,
                persist_locked-success os
                    (record c {
                      registry = record c.registry {
                        devices = c.devices ++ d ∷ [];
                        pairing_sessions =
                            set c.pairing_sessions index
                              (record session { redeemed_at = some now });
                      };
                    })
                    d device q,
              ))
        | inr (x, e) ↦ rw (e, pair_device) (λ q. cc)
      ]

  -- A pairing that succeeds found a session with the trimmed code that had not expired, while there was
  -- room for a device; it added the device at the end, marked the session redeemed, and wrote the file.
  pub redeem_pairing_session-Paired :
      (os : Syscalls) (draws : DeviceDraws) (s : DeviceRegistryStore) (code name : Text)
      (now expires : ℕ) (device : DeviceRecord)
      → (redeem_pairing_session os draws s code name now expires).1 ≡ ok device
      → (index : ℕ) × (session : PairingSession) × Paired
          (cleanup_expired now s)
          (redeem_pairing_session os draws s code name now expires).0
          code
          now
          index
          session
          device
  unfolding redeem_pairing_session
  redeem_pairing_session-Paired os draws s code name now expires device r =
      let c : DeviceRegistryStore = cleanup_expired now s in
      let search =
        find_index (λ (x : PairingSession). text_eq x.code (trim_space code)) c.pairing_sessions in
      elim (Option-cases search) [
        | inl e ↦
            absurd
              (ground (arith, e, r, record_failed-not_ok os c pairing_session_not_found device))
        | inr ((index, session), e) ↦
            let (hit, at) = find_index_sound _ c.pairing_sessions index session e in
            (
              index,
              session,
              ground (
                arith,
                e,
                r,
                hit,
                at,
                record_failed-not_ok os c pairing_session_not_found device,
                text_eq_sound session.code (trim_space code),
                pair_device-success os draws c index session name now expires device,
              ),
            )
      ]
