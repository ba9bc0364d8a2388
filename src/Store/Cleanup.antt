-- ===== src/Store/Cleanup.antt =====
-- internal/store/device_registry.go: cleanupExpiredLocked, with which every method begins.
pub mod Laws
use timich_agent.Base.{
  ℕ, ◌+◌, ◌≡◌, refl, Bool, true, false, not, ◌&&◌, Option, none, some, List, [], ◌∷◌, map, ltb,
  ◌==◌, if◌then◌else◌, is_some, keep_if,
}
use timich_agent.Store.Registry.{
  PairingSession, DeviceRecord, NearbyLink, DeviceRegistryStore,
  previous_refresh_token_replay_grace,
}

unfoldable pub session_is_active : ℕ → PairingSession → Bool
session_is_active now session =
    not (is_some session.redeemed_at) && not (ltb session.expires_at now)

unfoldable pub link_is_active : ℕ → NearbyLink → Bool
link_is_active now link = not (is_some link.consumed_at) && not (ltb link.expires_at now)

unfoldable pub cleanup_device : ℕ → DeviceRecord → DeviceRecord
cleanup_device now d =
    if valid_until == 0
    then record d { previous_refresh_token_hash = []; previous_refresh_token_salt = [] }
    else if ltb now capped
    then record d { previous_refresh_token_valid_until = capped }
    else record d {
      previous_refresh_token_hash = [];
      previous_refresh_token_salt = [];
      previous_refresh_token_valid_until = 0;
    }
  where
    open d use {previous_refresh_token_valid_until as valid_until}

    max_valid_until : ℕ
    max_valid_until = d.last_refreshed_at + previous_refresh_token_replay_grace

    capped : ℕ
    capped = if ltb max_valid_until valid_until then max_valid_until else valid_until

unfoldable pub cleanup_expired : ℕ → DeviceRegistryStore → DeviceRegistryStore
cleanup_expired now s = record s {
  registry = record {
    pairing_sessions = keep_if (session_is_active now) s.pairing_sessions;
    nearby_links = keep_if (link_is_active now) s.nearby_links;
    devices = map (cleanup_device now) s.devices;
  };
}
