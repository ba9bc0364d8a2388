-- ===== src/Store/Devices.antt =====
-- internal/store/device_registry.go: hosted and review devices, renaming and revocation.
pub mod Oldest
pub mod Review
pub mod Revoke
use timich_agent.Base.{
  ℕ, zero, suc, ◌+◌, ◌-◌, ◌≡◌, Bool, true, false, not, Option, none, some, List, [], ◌∷◌, ◌++◌, ltb,
  leb, if◌then◌else◌, is_some, length, set, erase_idx, find_index, Text, text_eq, is_empty,
  trim_space, Result, ok, err,
}
use timich_agent.AtomicFile.{Syscalls}
use timich_agent.Store.Registry.{
  StoreError, device_limit_reached, device_not_found, device_name_invalid, DeviceRecord,
  DeviceRegistry, DeviceRegistryStore, Reply,
}
use timich_agent.Store.File.{persist_locked, commit}
use timich_agent.Store.Cleanup.{cleanup_expired}
use timich_agent.Store.Tokens.{Digest, DeviceDraws, new_device_record}

-- One round of the loop of oldestReviewDeviceIndex; the option holds the index and the device found.
unfoldable pub older_review :
    Option (ℕ × DeviceRecord) → ℕ → DeviceRecord → Option (ℕ × DeviceRecord)
older_review none index d = if d.review_only then some (index, d) else none
older_review (some (i, o)) index d =
    if not d.review_only
    then some (i, o)
    else if ltb d.last_refreshed_at o.last_refreshed_at
    then some (index, d)
    else some (i, o)

unfoldable pub oldest_review_from :
    Option (ℕ × DeviceRecord) → ℕ → List DeviceRecord → Option (ℕ × DeviceRecord)
unfolding older_review
oldest_review_from oldest index [] = oldest
oldest_review_from oldest index (d ∷ ds) =
    oldest_review_from (older_review oldest index d) (suc index) ds

unfoldable pub oldest_review_device : List DeviceRecord → Option (ℕ × DeviceRecord)
unfolding oldest_review_from
oldest_review_device devices = oldest_review_from none 0 devices

-- `deviceLimit - 1`, at least 1; the limit is at least 1 in every store that is loaded.
abbrev pub review_capacity : ℕ → ℕ
review_capacity limit = if ltb (limit - 1) 1 then 1 else limit - 1

module _ ⦃h : Digest⦄ where
  unfoldable pub create_hosted_device :
      Syscalls → DeviceDraws → DeviceRegistryStore → Text → ℕ → ℕ → Reply DeviceRecord
  create_hosted_device os draws s name now refresh_token_expires_at =
      let c = cleanup_expired now s in
      if leb c.device_limit (length c.devices)
      then (c, err device_limit_reached)
      else elim (new_device_record draws name now refresh_token_expires_at) [
        | err e ↦ (c, err e)
        | ok device ↦
            persist_locked os
              (record c { registry = record c.registry { devices = c.devices ++ device ∷ [] } })
              (ok device)
      ]

  -- The end of CreateHostedReviewDevice, once the device to evict is known, if there is one.
  unfoldable pub add_review_device :
      Syscalls
      → DeviceDraws
      → DeviceRegistryStore
      → Option (ℕ × DeviceRecord)
      → Text
      → ℕ
      → ℕ
      → Reply (DeviceRecord × Text)
  add_review_device os draws c evicted name now refresh_token_expires_at =
      elim (new_device_record draws name now refresh_token_expires_at) [
        | err e ↦ (c, err e)
        | ok created ↦
            let device = record created { review_only = true } in
            elim evicted [
              | none ↦
                  commit os c (record c.registry { devices = c.devices ++ device ∷ [] })
                    (device, [])
              | some (index, old) ↦
                  commit os c
                    (record c.registry { devices = erase_idx c.devices index ++ device ∷ [] })
                    (device, old.device_id)
            ]
      ]

  unfoldable pub create_hosted_review_device :
      Syscalls → DeviceDraws → DeviceRegistryStore → Text → ℕ → ℕ → Reply (DeviceRecord × Text)
  create_hosted_review_device os draws s name now refresh_token_expires_at =
      let c = cleanup_expired now s in
      if leb (review_capacity c.device_limit) (length c.devices)
      then elim (oldest_review_device c.devices) [
        | none ↦ (c, err device_limit_reached)
        | some found ↦ add_review_device os draws c (some found) name now refresh_token_expires_at
      ]
      else add_review_device os draws c none name now refresh_token_expires_at

abbrev pub has_id : Text → DeviceRecord → Bool
has_id id d = text_eq d.device_id id

-- HasDevice also cleans the registry up.
unfoldable pub has_device : DeviceRegistryStore → Text → ℕ → DeviceRegistryStore × Bool
has_device s id now =
    let c = cleanup_expired now s in (c, is_some (find_index (has_id id) c.devices))

unfoldable pub rename_device : Syscalls → DeviceRegistryStore → Text → Text → ℕ → Reply DeviceRecord
rename_device os s id name now =
    if is_empty (trim_space id)
    then (s, err device_not_found)
    else if is_empty (trim_space name)
    then (s, err device_name_invalid)
    else let c = cleanup_expired now s in
      elim (find_index (has_id (trim_space id)) c.devices) [
        | none ↦ (c, err device_not_found)
        | some (index, d) ↦
            if text_eq d.device_name (trim_space name)
            then (c, ok d)
            else let renamed = record d { device_name = trim_space name } in
              commit os c (record c.registry { devices = set c.devices index renamed }) renamed
      ]

unfoldable pub revoke_device : Syscalls → DeviceRegistryStore → Text → ℕ → Reply (Unit {0})
revoke_device os s id now =
    if is_empty (trim_space id)
    then (s, err device_not_found)
    else let c = cleanup_expired now s in
      elim (find_index (has_id (trim_space id)) c.devices) [
        | none ↦ (c, err device_not_found)
        | some (index, d) ↦
            commit os c (record c.registry { devices = erase_idx c.devices index }) tt
      ]
