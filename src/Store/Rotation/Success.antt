-- ===== src/Store/Rotation/Success.antt =====
-- When a refresh token is exchanged, and what the exchange does.
use timich_agent.Base.{
  ℕ, ◌≤◌, ◌≡◌, ◌⊎◌, inl, inr, Bool, true, false, ◌||◌, Option, some, Option-cases, Result-cases,
  Bool-cases, set, get_elem?, find_index, find_index_sound, arith, Text, trim_space, ok,
}
use timich_agent.AtomicFile.{Syscalls, whole}
use timich_agent.Store.Registry.{DeviceRecord, DeviceRegistryStore}
use timich_agent.Store.Json.{marshal_registry}
use timich_agent.Store.File.{commit-success}
use timich_agent.Store.Cleanup.{cleanup_expired}
use timich_agent.Store.Tokens.{
  Digest, hash_refresh_token, set_refresh_token, matches_refresh_token,
  matches_previous_refresh_token,
}
use timich_agent.Store.Tokens.Laws.{set_refresh_token-ok}
use timich_agent.Store.Rotation.{
  retire_token, rotate_current, replay_previous, rotate_refresh_token,
}
use timich_agent.Store.Rotation.Grace.{rotated}

-- The registry `c` after the cleanup, and `t` after the call.
module _ ⦃h : Digest⦄ (c t : DeviceRegistryStore) (token next : Text) (now expires : ℕ) where
  -- The current token of the device at an index was presented, in its time; it became the previous one.
  pub record IsRotation (device : DeviceRecord) (index : ℕ) (d : DeviceRecord) : Type 0 where
    pub at : get_elem? c.devices index ≡ some d
    pub current : matches_refresh_token d (trim_space token) ≡ true
    pub unexpired : now ≤ d.refresh_token_expires_at
    pub stored :
        device
        ≡ rotated d
            (trim_space (trim_space next))
            (hash_refresh_token (trim_space (trim_space next)) device.refresh_token_salt)
            device.refresh_token_salt
            now
            expires
    pub replaced : t.devices ≡ set c.devices index device
    pub written : t.directory.file ≡ some (whole (marshal_registry t.registry))

  -- The previous token was presented in its time of grace, with the device's current token to follow.
  pub record IsReplay (device : DeviceRecord) (index : ℕ) (d : DeviceRecord) : Type 0 where
    pub at : get_elem? c.devices index ≡ some d
    pub not_current : matches_refresh_token d (trim_space token) ≡ false
    pub previous : matches_previous_refresh_token d (trim_space token) now ≡ true
    pub next_is_current : matches_refresh_token d (trim_space next) ≡ true
    pub answered : device ≡ record d { current_refresh_token = trim_space next }
    pub unchanged : t ≡ c

module _ ⦃h : Digest⦄ where
  abbrev pub is_candidate : Text → ℕ → DeviceRecord → Bool
  is_candidate token now d =
      matches_refresh_token d token || matches_previous_refresh_token d token now

  pub rotate_current-IsRotation :
      (os : Syscalls) (salt : Option Text) (c : DeviceRegistryStore) (index : ℕ) (d : DeviceRecord)
      (token next : Text) (now expires : ℕ) (device : DeviceRecord)
      → get_elem? c.devices index ≡ some d
      → matches_refresh_token d (trim_space token) ≡ true
      → (rotate_current os salt c (index, d) (trim_space next) now expires).1 ≡ ok device
      → IsRotation c
          (rotate_current os salt c (index, d) (trim_space next) now expires).0
          token
          next
          now
          expires
          device
          index
          d
  unfolding rotate_current
  rotate_current-IsRotation os salt c index d token next now expires device at current e =
      elim (Result-cases (set_refresh_token salt (retire_token d now expires) (trim_space next))) [
        | inr (x, q) ↦ absurd (ground (arith, q, e))
        | inl (f, q) ↦
            let (filled, (x, s, g)) =
              set_refresh_token-ok salt (retire_token d now expires) f (trim_space next) q in
            let stored : DeviceRecord = record f {
              last_refreshed_at = now;
              refresh_token_expires_at = expires;
            } in
            ground (
              arith,
              q,
              e,
              g,
              s,
              at,
              current,
              commit-success os c (record c.registry { devices = set c.devices index stored })
                  stored device,
            )
      ]

  replay_previous-IsReplay :
      (c : DeviceRegistryStore) (index : ℕ) (d : DeviceRecord) (token next : Text) (now expires : ℕ)
      (device : DeviceRecord)
      → get_elem? c.devices index ≡ some d
      → matches_refresh_token d (trim_space token) ≡ false
      → is_candidate (trim_space token) now d ≡ true
      → (replay_previous c d (trim_space next)).1 ≡ ok device
      → IsReplay c (replay_previous c d (trim_space next)).0 token next now expires device index d
  unfolding replay_previous
  replay_previous-IsReplay c index d token next now expires device at not_current hit e =
      ground arith

  -- A refresh that succeeds found a device that was presented either its current token in time, which is
  -- then retired and replaced on disk and in memory, or its previous token within the grace and followed
  -- by its current token, in which case nothing is changed.
  pub rotate_refresh_token-success :
      (os : Syscalls) (salt : Option Text) (s : DeviceRegistryStore) (token next : Text)
      (now expires : ℕ) (device : DeviceRecord)
      → (rotate_refresh_token os salt s token next now expires).1 ≡ ok device
      → let c = cleanup_expired now s in
        let t = (rotate_refresh_token os salt s token next now expires).0 in
        (index : ℕ) × (d : DeviceRecord) × (IsRotation c t token next now expires device index d
          ⊎ IsReplay c t token next now expires device index d)
  unfolding rotate_refresh_token
  rotate_refresh_token-success os salt s token next now expires device e =
      let c : DeviceRegistryStore = cleanup_expired now s in
      elim (Option-cases (find_index (is_candidate (trim_space token) now) c.devices)) [
        | inl q ↦ absurd (ground (arith, q, e))
        | inr ((index, d), q) ↦
            let (hit, at) =
              find_index_sound (is_candidate (trim_space token) now) c.devices index d q in
            (
              index,
              d,
              elim (Bool-cases (matches_refresh_token d (trim_space token))) [
                | inl current ↦ inl (
                    ground (
                      arith,
                      q,
                      e,
                      rotate_current-IsRotation os salt c index d token next now expires device at
                          current,
                    ))
                | inr old ↦ inr (
                    ground (
                      arith,
                      q,
                      e,
                      replay_previous-IsReplay c index d token next now expires device at old hit,
                    ))
              ],
            )
      ]
