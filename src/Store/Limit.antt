-- ===== src/Store/Limit.antt =====
-- The number of paired devices stays within the limit that the store was given.
pub mod Run
use timich_agent.Base.{
  ℕ, zero, suc, ◌+◌, ◌≤◌, ◌<◌, ◌≡◌, refl, Option-cases, Option, none, some, List, [], ◌∷◌, ◌++◌,
  max, length, length_snoc, length-set, length-erase_idx, length-erase_idx_le, arith, Text, Result,
  ok, err, ◌⊎◌, inl, inr,
}
use timich_agent.AtomicFile.{Syscalls}
use timich_agent.Store.Registry.{
  NearbyLink, PairingSession, DeviceRecord, DeviceRegistry, DeviceRegistryStore, StoreError,
}
use timich_agent.Store.File.{persist_locked, persist_locked_lem, commit, commit_lem}
use timich_agent.Store.Cleanup.{cleanup_expired}
use timich_agent.Store.Cleanup.Laws.{length-devices-cleanup}
use timich_agent.Store.Tokens.{Digest, DeviceDraws}
use timich_agent.Store.Pairing.{
  create_pairing_session, record_failed_pairing_attempt, pair_device, redeem_pairing_session,
}
use timich_agent.Store.Rotation.{rotate_current, replay_previous, rotate_refresh_token}
use timich_agent.Store.Devices.{
  create_hosted_device, create_hosted_review_device, add_review_device, review_capacity,
  oldest_review_device, has_device, rename_device, revoke_device,
}
use timich_agent.Store.Devices.Oldest.{oldest_review_device-lt}
use timich_agent.Store.Links.{
  LinkDraws, update_nearby_link, create_nearby_link, approve_nearby_link, deny_nearby_link,
  cancel_nearby_link, poll_nearby_link, consume_link, redeem_nearby_link,
}

-- The store `t` has the limit of `s`, and no more devices than the limit or `s` had.
pub record Within (s : DeviceRegistryStore) (t : DeviceRegistryStore) : Type 0 where
  pub limit_kept : t.device_limit ≡ s.device_limit
  pub devices_bounded : length t.devices ≤ max s.device_limit (length s.devices)

pub Within-cleanup : (now : ℕ) (s : DeviceRegistryStore) → Within s (cleanup_expired now s)
Within-cleanup now s = ground (arith, length-devices-cleanup now s)

pub Within-create_pairing_session :
    (os : Syscalls) (code : Option Text) (s : DeviceRegistryStore) (now expires : ℕ)
    → Within s (create_pairing_session os code s now expires).0
unfolding create_pairing_session persist_locked
Within-create_pairing_session os code s now expires = ground (arith, Within-cleanup now s)

module _ ⦃h : Digest⦄ where
  Within-pair_device :
      (os : Syscalls) (draws : DeviceDraws) (s c : DeviceRegistryStore) (index : ℕ)
      (session : PairingSession) (name : Text) (now expires : ℕ)
      → Within s c
      → length c.devices < c.device_limit
      → Within s (pair_device os draws c (index, session) name now expires).0
  unfolding pair_device persist_locked
  Within-pair_device os draws s c index session name now expires w room = grind (arith, length_snoc)

  pub Within-redeem_pairing_session :
      (os : Syscalls) (draws : DeviceDraws) (s : DeviceRegistryStore) (code name : Text)
      (now expires : ℕ)
      → Within s (redeem_pairing_session os draws s code name now expires).0
  unfolding redeem_pairing_session persist_locked
  Within-redeem_pairing_session os draws s code name now expires =
      grind (arith, Within-cleanup now s, Within-pair_device)

pub Within-rename_device :
    (os : Syscalls) (s : DeviceRegistryStore) (id name : Text) (now : ℕ)
    → Within s (rename_device os s id name now).0
unfolding rename_device commit
Within-rename_device os s id name now = grind (arith, Within-cleanup now s, length-set)

pub Within-revoke_device :
    (os : Syscalls) (s : DeviceRegistryStore) (id : Text) (now : ℕ)
    → Within s (revoke_device os s id now).0
unfolding revoke_device commit
Within-revoke_device os s id now = grind (arith, Within-cleanup now s, length-erase_idx_le)

-- Approving, denying, cancelling and polling leave the devices alone.
Within-update_nearby_link :
    (os : Syscalls) (s c : DeviceRegistryStore) (index : ℕ) (link : NearbyLink)
    → Within s c
    → Within s (update_nearby_link os c index link).0
unfolding commit
Within-update_nearby_link os s c index link w = ground arith

pub Within-approve_nearby_link :
    (os : Syscalls) (s : DeviceRegistryStore) (code : Text) (now : ℕ)
    → Within s (approve_nearby_link os s code now).0
unfolding approve_nearby_link commit
Within-approve_nearby_link os s code now = grind (arith, Within-cleanup now s)

pub Within-deny_nearby_link :
    (os : Syscalls) (s : DeviceRegistryStore) (id : Text) (now : ℕ)
    → Within s (deny_nearby_link os s id now).0
unfolding deny_nearby_link commit
Within-deny_nearby_link os s id now = grind (arith, Within-cleanup now s)

module _ ⦃h : Digest⦄ where
  pub Within-cancel_nearby_link :
      (os : Syscalls) (s : DeviceRegistryStore) (id token : Text) (now : ℕ)
      → Within s (cancel_nearby_link os s id token now).0
  unfolding cancel_nearby_link commit
  Within-cancel_nearby_link os s id token now = grind (arith, Within-cleanup now s)

  pub Within-poll_nearby_link :
      (os : Syscalls) (s : DeviceRegistryStore) (id token : Text) (now : ℕ)
      → Within s (poll_nearby_link os s id token now).0
  unfolding poll_nearby_link commit
  Within-poll_nearby_link os s id token now = grind (arith, Within-cleanup now s)

  pub Within-create_nearby_link :
      (os : Syscalls) (draws : LinkDraws) (s : DeviceRegistryStore) (name kind : Text)
      (now expires : ℕ)
      → Within s (create_nearby_link os draws s name kind now expires).0
  unfolding create_nearby_link commit
  Within-create_nearby_link os draws s name kind now expires = grind (arith, Within-cleanup now s)

  Within-consume_link :
      (os : Syscalls) (draws : DeviceDraws) (s c : DeviceRegistryStore) (index : ℕ)
      (link : NearbyLink) (now expires : ℕ)
      → Within s c
      → length c.devices < c.device_limit
      → Within s (consume_link os draws c (index, link) now expires).0
  unfolding consume_link commit
  Within-consume_link os draws s c index link now expires w room = grind (arith, length_snoc)

  pub Within-redeem_nearby_link :
      (os : Syscalls) (draws : DeviceDraws) (s : DeviceRegistryStore) (id token : Text)
      (now expires : ℕ)
      → Within s (redeem_nearby_link os draws s id token now expires).0
  unfolding redeem_nearby_link commit
  Within-redeem_nearby_link os draws s id token now expires =
      grind (arith, Within-cleanup now s, Within-consume_link)

  pub Within-rotate_refresh_token :
      (os : Syscalls) (salt : Option Text) (s : DeviceRegistryStore) (token next : Text)
      (now expires : ℕ)
      → Within s (rotate_refresh_token os salt s token next now expires).0
  unfolding rotate_refresh_token rotate_current replay_previous commit
  Within-rotate_refresh_token os salt s token next now expires =
      grind (arith, Within-cleanup now s, length-set)

  pub Within-create_hosted_device :
      (os : Syscalls) (draws : DeviceDraws) (s : DeviceRegistryStore) (name : Text)
      (now expires : ℕ)
      → Within s (create_hosted_device os draws s name now expires).0
  unfolding create_hosted_device persist_locked
  Within-create_hosted_device os draws s name now expires =
      grind (arith, Within-cleanup now s, length_snoc)

module _ ⦃h : Digest⦄ where
  Within-add_review_device :
      (os : Syscalls) (draws : DeviceDraws) (s c : DeviceRegistryStore)
      (evicted : Option (ℕ × DeviceRecord)) (name : Text) (now expires : ℕ)
      → Within s c
      → ((evicted ≡ none) × (length c.devices < c.device_limit))
        ⊎ ((i : ℕ) × (d : DeviceRecord) × (evicted ≡ some (i, d)) × (i < length c.devices))
      → Within s (add_review_device os draws c evicted name now expires).0
  unfolding add_review_device commit
  Within-add_review_device os draws s c none name now expires w (inl room) =
      grind (arith, length_snoc)
  Within-add_review_device os draws s c (some _) name now expires w (inl room) = cc
  Within-add_review_device os draws s c none name now expires w (inr room) = cc (room.2)
  Within-add_review_device os draws s c (some (j, o)) name now expires w (inr (i, d, e, lt)) =
      grind (arith, length_snoc, length-erase_idx c.devices j)

  pub Within-create_hosted_review_device :
      (os : Syscalls) (draws : DeviceDraws) (s : DeviceRegistryStore) (name : Text)
      (now expires : ℕ)
      → 1 ≤ s.device_limit
      → Within s (create_hosted_review_device os draws s name now expires).0
  unfolding create_hosted_review_device
  Within-create_hosted_review_device os draws s name now expires limit =
      let c : DeviceRegistryStore = cleanup_expired now s in
      let w : Within s c = Within-cleanup now s in
      elim (Option-cases (oldest_review_device c.devices)) [
        | inl e ↦ rw e (ground (arith, Within-add_review_device os draws s c none name now expires))
        | inr (found, e) ↦ rw e (
            ground (
              arith,
              Within-add_review_device os draws s c (some found) name now expires,
              oldest_review_device-lt c.devices found.0 found.1,
              Within-add_review_device os draws s c none name now expires,
            ))
      ]
