-- ===== src/Store/Cleanup/Laws.antt =====
-- What cleanupExpiredLocked keeps and removes.
use timich_agent.Base.{
  ℕ, ◌+◌, ◌≤◌, ◌<◌, ◌≡◌, refl, List, [], ◌∷◌, map, length, keep_if, arith, Bool, ◌⊎◌,
}
use timich_agent.Store.Registry.{
  DeviceRecord, DeviceRegistryStore, previous_refresh_token_replay_grace,
}
use timich_agent.Store.Cleanup.{session_is_active, link_is_active, cleanup_device, cleanup_expired}

module _ {ℓ} {A : Type ℓ} where
  pub keep_if_idem : (p : A → Bool) (xs : List A) → keep_if p (keep_if p xs) ≡ keep_if p xs
  keep_if_idem p [] = refl
  keep_if_idem p (x ∷ xs) = ground (arith, keep_if_idem p xs)

cleanup_device_idem :
    (now : ℕ) (d : DeviceRecord) → cleanup_device now (cleanup_device now d) ≡ cleanup_device now d
unfolding cleanup_device
cleanup_device_idem now d = ground arith

map-cleanup_device_idem :
    (now : ℕ) (ds : List DeviceRecord)
    → map (cleanup_device now) (map (cleanup_device now) ds) ≡ map (cleanup_device now) ds
map-cleanup_device_idem now [] = refl
map-cleanup_device_idem now (d ∷ ds) =
    cc (cleanup_device_idem now d, map-cleanup_device_idem now ds)

-- A second cleanup at the same time changes nothing.
pub cleanup_expired_idem :
    (now : ℕ) (s : DeviceRegistryStore)
    → cleanup_expired now (cleanup_expired now s) ≡ cleanup_expired now s
unfolding cleanup_expired
cleanup_expired_idem now s = cc (
  keep_if_idem (session_is_active now) s.pairing_sessions,
  keep_if_idem (link_is_active now) s.nearby_links,
  map-cleanup_device_idem now s.devices,
)

-- A previous token that survives is young: its time of grace ends at most two minutes after the
-- rotation, and is not over.
pub cleanup_device_grace :
    (now : ℕ) (d : DeviceRecord)
    → let c = cleanup_device now d in
      ((c.previous_refresh_token_hash ≡ []) × (c.previous_refresh_token_valid_until ≡ 0))
      ⊎ ((now < c.previous_refresh_token_valid_until)
          × (c.previous_refresh_token_valid_until
              ≤ d.last_refreshed_at + previous_refresh_token_replay_grace)
          × (c.previous_refresh_token_hash ≡ d.previous_refresh_token_hash))
unfolding cleanup_device
cleanup_device_grace now d = ground arith

length-map-cleanup :
    (now : ℕ) (ds : List DeviceRecord) → length (map (cleanup_device now) ds) ≡ length ds
length-map-cleanup now [] = refl
length-map-cleanup now (d ∷ ds) = omega (arith, length-map-cleanup now ds)

pub length-devices-cleanup :
    (now : ℕ) (s : DeviceRegistryStore)
    → (length (cleanup_expired now s).devices ≡ length s.devices)
      × ((cleanup_expired now s).device_limit ≡ s.device_limit)
unfolding cleanup_expired
length-devices-cleanup now s = (length-map-cleanup now s.devices, refl)
