-- ===== src/Store/Failure.antt =====
-- What a method leaves in memory when the registry's file cannot be written.
use timich_agent.Base.{ℕ, ◌≡◌, false, Option, Text, Result, Result-cases, err, inl, inr, arith}
use timich_agent.AtomicFile.{Syscalls}
use timich_agent.AtomicFile.Replace.{completes}
use timich_agent.Store.Registry.{DeviceRegistryStore, StoreError, registry_not_written}
use timich_agent.Store.File.{persist_locked, persist_locked_lem, commit_lem}
use timich_agent.Store.Cleanup.{cleanup_expired}
use timich_agent.Store.Tokens.{Digest, DeviceDraws}
use timich_agent.Store.Pairing.{
  create_pairing_session, record_failed_pairing_attempt, pair_device, redeem_pairing_session,
}
use timich_agent.Store.Rotation.{rotate_current, replay_previous, rotate_refresh_token}
use timich_agent.Store.Devices.{
  create_hosted_device, create_hosted_review_device, add_review_device,
}
use timich_agent.Store.Links.{
  LinkDraws, reject_poll_token, create_nearby_link, consume_link, redeem_nearby_link,
}

-- The registry that a call leaves does not depend on the system calls of its write.
pub persist_locked_registry :
    (A B : Type 0) (os os' : Syscalls) (s : DeviceRegistryStore) (a : Result StoreError A)
    (b : Result StoreError B)
    → (persist_locked os s a).0.registry ≡ (persist_locked os' s b).0.registry
unfolding persist_locked
persist_locked_registry A B os os' s a b = ground arith

-- The reply is an error.
abbrev pub IsFailure : {A : Type 0} → Result StoreError A → Type 0
IsFailure r = (e : StoreError) × (r ≡ err e)

module _ {A : Type 0} where
  pub persist_locked-fails :
      (os : Syscalls) (s : DeviceRegistryStore) (reply : Result StoreError A)
      → completes os ≡ false
      → (persist_locked os s reply).1 ≡ err registry_not_written
  persist_locked-fails os s reply f = ground (arith, f, persist_locked_lem os s reply)

module _ ⦃h : Digest⦄ (os os' : Syscalls) (s : DeviceRegistryStore) (now expires : ℕ) where
  keeps_change :
      (random : Option Text) (draws : DeviceDraws) (code name : Text)
      → ((create_pairing_session os random s now expires).0.registry
          ≡ (create_pairing_session os' random s now expires).0.registry)
        × ((redeem_pairing_session os draws s code name now expires).0.registry
            ≡ (redeem_pairing_session os' draws s code name now expires).0.registry)
        × ((create_hosted_device os draws s name now expires).0.registry
            ≡ (create_hosted_device os' draws s name now expires).0.registry)
  unfolding create_pairing_session redeem_pairing_session record_failed_pairing_attempt pair_device
      create_hosted_device persist_locked
  keeps_change random draws code name = (ground arith, ground arith, ground arith)

  create_pairing_session-fails :
      (random : Option Text)
      → completes os ≡ false
      → IsFailure (create_pairing_session os random s now expires).1
  unfolding create_pairing_session
  create_pairing_session-fails random f =
      elim (Result-cases (create_pairing_session os random s now expires).1) [
        | inl (a, e) ↦ absurd (grind (arith, persist_locked-fails))
        | inr (x, e) ↦ (x, e)
      ]

  redeem_pairing_session-fails :
      (draws : DeviceDraws) (code name : Text)
      → completes os ≡ false
      → IsFailure (redeem_pairing_session os draws s code name now expires).1
  unfolding redeem_pairing_session record_failed_pairing_attempt pair_device
  redeem_pairing_session-fails draws code name f =
      elim (Result-cases (redeem_pairing_session os draws s code name now expires).1) [
        | inl (a, e) ↦ absurd (grind (arith, persist_locked-fails))
        | inr (x, e) ↦ (x, e)
      ]

  create_hosted_device-fails :
      (draws : DeviceDraws) (name : Text)
      → completes os ≡ false
      → IsFailure (create_hosted_device os draws s name now expires).1
  unfolding create_hosted_device
  create_hosted_device-fails draws name f =
      elim (Result-cases (create_hosted_device os draws s name now expires).1) [
        | inl (a, e) ↦ absurd (grind (arith, persist_locked-fails))
        | inr (x, e) ↦ (x, e)
      ]

  -- When the write of the file does not complete, creating a pairing session, redeeming one and creating
  -- a hosted device return an error, and leave in memory the registry that the same call leaves with any
  -- other outcomes of its system calls: the failed write is reported, and not undone.
  pub failed_write_keeps_change :
      (random : Option Text) (draws : DeviceDraws) (code name : Text)
      → completes os ≡ false
      → (IsFailure (create_pairing_session os random s now expires).1
          × ((create_pairing_session os random s now expires).0.registry
              ≡ (create_pairing_session os' random s now expires).0.registry))
        × (IsFailure (redeem_pairing_session os draws s code name now expires).1
            × ((redeem_pairing_session os draws s code name now expires).0.registry
                ≡ (redeem_pairing_session os' draws s code name now expires).0.registry))
        × (IsFailure (create_hosted_device os draws s name now expires).1
            × ((create_hosted_device os draws s name now expires).0.registry
                ≡ (create_hosted_device os' draws s name now expires).0.registry))
  failed_write_keeps_change random draws code name f =
      let (created, redeemed, hosted) = keeps_change random draws code name in
      (
        (create_pairing_session-fails random f, created),
        (redeem_pairing_session-fails draws code name f, redeemed),
        (create_hosted_device-fails draws name f, hosted),
      )

module _ ⦃h : Digest⦄ (os : Syscalls) (s : DeviceRegistryStore) (now expires : ℕ) where
  -- When the write does not complete, refreshing, making a review device, creating a nearby link and
  -- redeeming one leave the registry as the cleanup left it.
  pub failed_write_undoes :
      (salt : Option Text) (draws : DeviceDraws) (link_draws : LinkDraws) (a b : Text)
      → completes os ≡ false
      → ((rotate_refresh_token os salt s a b now expires).0.registry
          ≡ (cleanup_expired now s).registry)
        × ((create_hosted_review_device os draws s a now expires).0.registry
            ≡ (cleanup_expired now s).registry)
        × ((create_nearby_link os link_draws s a b now expires).0.registry
            ≡ (cleanup_expired now s).registry)
        × ((redeem_nearby_link os draws s a b now expires).0.registry
            ≡ (cleanup_expired now s).registry)
  unfolding rotate_refresh_token rotate_current replay_previous create_hosted_review_device
      add_review_device create_nearby_link redeem_nearby_link reject_poll_token consume_link
  failed_write_undoes salt draws link_draws a b f = (
    grind (arith, commit_lem),
    grind (arith, commit_lem),
    grind (arith, commit_lem),
    grind (arith, commit_lem),
  )
