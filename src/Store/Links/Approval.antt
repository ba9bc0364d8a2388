-- ===== src/Store/Links/Approval.antt =====
-- A nearby link becomes a device only after an administrator approved it.
use timich_agent.Base.{
  ℕ, ◌≡◌, ◌≢◌, Option-cases, Result-cases, Bool-cases, true, false, some, [], ◌∷◌, ◌++◌, get_elem?,
  erase_idx, find_index_sound, is_some, trim_space, is_empty, text_eq_sound, inl, inr, arith, Text,
  ok,
}
use timich_agent.AtomicFile.{Syscalls, whole}
use timich_agent.Store.Registry.{NearbyLink, DeviceRecord, DeviceRegistryStore}
use timich_agent.Store.Json.{marshal_registry}
use timich_agent.Store.File.{commit-success}
use timich_agent.Store.Cleanup.{cleanup_expired}
use timich_agent.Store.Tokens.{Digest, DeviceDraws, new_device_record}
use timich_agent.Store.Links.{
  reject_poll_token, nearby_link_by_id, matches_poll_token, consume_link, redeem_nearby_link,
}

pub nearby_link_by_id-At :
    (c : DeviceRegistryStore) (id : Text) (i : ℕ) (link : NearbyLink)
    → nearby_link_by_id c id ≡ some (i, link)
    → (link.link_id ≡ trim_space id) × (get_elem? c.nearby_links i ≡ some link)
unfolding nearby_link_by_id
nearby_link_by_id-At c id i link = elim (Bool-cases (is_empty (trim_space id))) [
  | inl e ↦ rw e (λ h. cc)
  | inr e ↦ rw e (λ h.
      let (hit, at) = find_index_sound _ c.nearby_links i link h in
      (text_eq_sound link.link_id (trim_space id) hit, at))
]

module _ ⦃h : Digest⦄ where
  -- The store `t` after a device was made of the link at `index` of the store `c`.
  pub record Linked (c t : DeviceRegistryStore) (id token : Text) (index : ℕ) (link : NearbyLink)
      (device : DeviceRecord) : Type 0 where
    pub at_index : get_elem? c.nearby_links index ≡ some link
    pub same_id : link.link_id ≡ trim_space id
    pub token_matches : matches_poll_token link token ≡ true
    pub was_approved : is_some link.approved_at ≡ true
    pub not_denied : is_some link.denied_at ≡ false
    pub link_removed : t.nearby_links ≡ erase_idx c.nearby_links index
    pub device_added : t.devices ≡ c.devices ++ device ∷ []
    pub saved : t.directory.file ≡ some (whole (marshal_registry t.registry))

  reject_poll_token-not_ok :
      {A : Type 0} (os : Syscalls) (c : DeviceRegistryStore) (index : ℕ) (link : NearbyLink)
      (now : ℕ) (a : A)
      → (reject_poll_token os c index link now).1 ≢ ok a
  unfolding reject_poll_token
  reject_poll_token-not_ok os c index link now a = ground arith

  consume_link-success :
      (os : Syscalls) (draws : DeviceDraws) (c : DeviceRegistryStore) (index : ℕ)
      (link : NearbyLink) (now expires : ℕ) (device : DeviceRecord) (consumed : NearbyLink)
      → let r = consume_link os draws c (index, link) now expires in
        r.1 ≡ ok (device, consumed)
        → (r.0.nearby_links ≡ erase_idx c.nearby_links index)
          × (r.0.devices ≡ c.devices ++ device ∷ [])
          × (r.0.directory.file ≡ some (whole (marshal_registry r.0.registry)))
  unfolding consume_link
  consume_link-success os draws c index link now expires device consumed =
      elim (Result-cases (new_device_record draws link.device_name now expires)) [
        | inl (d, e) ↦
            rw (e, consume_link)
              (λ q. ground (
                arith,
                commit-success os c
                    (record c.registry {
                      nearby_links = erase_idx c.nearby_links index;
                      devices = c.devices ++ d ∷ [];
                    })
                    (d, record link { consumed_at = some now }) (device, consumed) q,
              ))
        | inr (x, e) ↦ rw (e, consume_link) (λ q. cc)
      ]

  -- A redemption that succeeds found the link with the trimmed id, whose poll token matches and which is
  -- approved and not denied; it removed the link, added the device at the end, and wrote the file.
  pub redeem_nearby_link-Linked :
      (os : Syscalls) (draws : DeviceDraws) (s : DeviceRegistryStore) (id token : Text)
      (now expires : ℕ) (device : DeviceRecord) (consumed : NearbyLink)
      → (redeem_nearby_link os draws s id token now expires).1 ≡ ok (device, consumed)
      → (index : ℕ) × (link : NearbyLink) × Linked
          (cleanup_expired now s)
          (redeem_nearby_link os draws s id token now expires).0
          id
          token
          index
          link
          device
  unfolding redeem_nearby_link
  redeem_nearby_link-Linked os draws s id token now expires device consumed r =
      let c : DeviceRegistryStore = cleanup_expired now s in
      elim (Option-cases (nearby_link_by_id c id)) [
        | inl e ↦ absurd (ground (arith, e, r))
        | inr ((index, link), e) ↦
            let (same, at) = nearby_link_by_id-At c id index link e in
            (
              index,
              link,
              ground (
                arith,
                e,
                r,
                same,
                at,
                reject_poll_token-not_ok {A = DeviceRecord × NearbyLink} os c index link now
                    (device, consumed),
                consume_link-success os draws c index link now expires device consumed,
              ),
            )
      ]
