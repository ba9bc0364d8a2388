-- ===== src/Store/Rotation.antt =====
-- internal/store/device_registry.go: RotateRefreshToken.
pub mod Grace
pub mod Success
pub mod Retry
use timich_agent.Base.{
  ℕ, ◌+◌, ◌≡◌, Bool, true, false, ◌||◌, Option, none, some, List, [], ◌∷◌, ltb, if◌then◌else◌, set,
  find_index, Text, is_empty, trim_space, Result, ok, err,
}
use timich_agent.AtomicFile.{Syscalls}
use timich_agent.Store.Registry.{
  StoreError, refresh_token_not_found, refresh_token_expired, previous_refresh_token_replay_grace,
  DeviceRecord, DeviceRegistryStore, Reply,
}
use timich_agent.Store.File.{commit}
use timich_agent.Store.Cleanup.{cleanup_expired}
use timich_agent.Store.Tokens.{
  Digest, set_refresh_token, matches_refresh_token, matches_previous_refresh_token,
}

-- The device with its current token made the previous one, before the new token is set.
unfoldable pub retire_token : DeviceRecord → ℕ → ℕ → DeviceRecord
retire_token d now refresh_token_expires_at =
    let valid_until = now + previous_refresh_token_replay_grace in
    record d {
      previous_refresh_token_hash = d.current_refresh_token_hash;
      previous_refresh_token_salt = d.refresh_token_salt;
      previous_refresh_token_valid_until =
          if ltb refresh_token_expires_at valid_until
          then refresh_token_expires_at
          else valid_until;
    }

module _ ⦃h : Digest⦄ where
  -- The first case of the switch: the token is the device's current one.
  unfoldable pub rotate_current :
      Syscalls
      → Option Text
      → DeviceRegistryStore
      → ℕ × DeviceRecord
      → Text
      → ℕ
      → ℕ
      → Reply DeviceRecord
  rotate_current os salt c (index, d) replacement now refresh_token_expires_at =
      if ltb d.refresh_token_expires_at now
      then (c, err refresh_token_expired)
      else elim (set_refresh_token salt (retire_token d now refresh_token_expires_at) replacement) [
        | err e ↦ (c, err e)
        | ok fresh ↦
            let device = record fresh {
              last_refreshed_at = now;
              refresh_token_expires_at = refresh_token_expires_at;
            } in
            commit os c (record c.registry { devices = set c.devices index device }) device
      ]

  -- The second case: the token is the previous one, still in its time of grace.
  unfoldable pub replay_previous : DeviceRegistryStore → DeviceRecord → Text → Reply DeviceRecord
  replay_previous c d replacement =
      if matches_refresh_token d replacement
      then (c, ok (record d { current_refresh_token = replacement }))
      else (c, err refresh_token_not_found)

  unfoldable pub rotate_refresh_token :
      Syscalls → Option Text → DeviceRegistryStore → Text → Text → ℕ → ℕ → Reply DeviceRecord
  rotate_refresh_token os salt s refresh_token replacement now refresh_token_expires_at =
      let c = cleanup_expired now s in
      let token = trim_space refresh_token in
      if is_empty token
      then (c, err refresh_token_not_found)
      else if is_empty (trim_space replacement)
      then (c, err refresh_token_not_found)
      else elim (find_index
          (λ d. matches_refresh_token d token || matches_previous_refresh_token d token now)
          c.devices) [
            | none ↦ (c, err refresh_token_not_found)
            | some (index, d) ↦
                if matches_refresh_token d token
                then rotate_current os salt c (index, d) (trim_space replacement) now
                    refresh_token_expires_at
                else replay_previous c d (trim_space replacement)
          ]
