-- ===== src/Store/Links.antt =====
-- internal/store/nearby_link.go: requests of nearby devices that an administrator approves.
pub mod Approval
pub mod Unapproved
use timich_agent.Base.{
  ℕ, suc, ◌+◌, Bool, false, not, ◌&&◌, ◌||◌, Option, none, some, List, [], ◌∷◌, ◌++◌, leb,
  if◌then◌else◌, is_some, length, set, erase_idx, find_index, Text, text_eq, is_empty, trim_space,
  Result, ok, err,
}
use timich_agent.AtomicFile.{Syscalls}
use timich_agent.Store.Registry.{
  StoreError, device_limit_reached, nearby_link_not_found, nearby_link_denied,
  nearby_link_not_approved, nearby_link_consumed, nearby_link_poll_token_invalid,
  nearby_link_limit_reached, random_failed, NearbyLink, DeviceRecord, DeviceRegistryStore, Reply,
}
use timich_agent.Store.File.{commit}
use timich_agent.Store.Cleanup.{cleanup_expired}
use timich_agent.Store.Tokens.{Digest, hash_refresh_token, DeviceDraws, new_device_record}
use timich_agent.Store.LinkCode.{
  random_nearby_link_code, normalize_nearby_link_code, normalize_nearby_link_device_kind,
}

abbrev pub max_active_nearby_links : ℕ
max_active_nearby_links = 8

abbrev pub max_nearby_link_failed_attempts : ℕ
max_nearby_link_failed_attempts = 5

pub data LinkStatus : Type 0 where
  pending approved denied : LinkStatus

-- NearbyLink.Status
unfoldable pub status : NearbyLink → LinkStatus
status link =
    if is_some link.denied_at
    then denied
    else if is_some link.approved_at
    then approved
    else pending

unfoldable pub active_nearby_link_count : List NearbyLink → ℕ
active_nearby_link_count [] = 0
active_nearby_link_count (link ∷ links) =
    let rest = active_nearby_link_count links in
    if not (is_some link.consumed_at) && not (is_some link.denied_at) then suc rest else rest

-- updateNearbyLinkLocked at an index in range, as its callers give; then `return reply`.
abbrev pub update_nearby_link : Syscalls → DeviceRegistryStore → ℕ → NearbyLink → Reply NearbyLink
update_nearby_link os c index link =
    commit os c (record c.registry { nearby_links = set c.nearby_links index link }) link

unfoldable pub count_failed_poll : NearbyLink → ℕ → NearbyLink
count_failed_poll link now =
    let counted = record link { failed_attempts = link.failed_attempts + 1 } in
    if leb max_nearby_link_failed_attempts counted.failed_attempts
    then record counted { denied_at = some now }
    else counted

-- recordFailedNearbyLinkAttemptLocked, and then `return …, ErrNearbyLinkPollTokenInvalid`.
unfoldable pub reject_poll_token :
    {A : Type 0} → Syscalls → DeviceRegistryStore → ℕ → NearbyLink → ℕ → Reply A
unfolding count_failed_poll
reject_poll_token os c index link now =
    let (c', outcome) = update_nearby_link os c index (count_failed_poll link now) in
    elim outcome [ ok _ ↦ (c', err nearby_link_poll_token_invalid) | err e ↦ (c', err e) ]

-- nearbyLinkByIDLocked
unfoldable pub nearby_link_by_id : DeviceRegistryStore → Text → Option (ℕ × NearbyLink)
nearby_link_by_id c id =
    if is_empty (trim_space id)
    then none
    else find_index (λ link. text_eq link.link_id (trim_space id)) c.nearby_links

-- The end of ApproveNearbyLink, at the link found.
unfoldable pub approve_found :
    Syscalls → DeviceRegistryStore → ℕ × NearbyLink → ℕ → Reply NearbyLink
approve_found os c (index, link) now =
    if is_some link.consumed_at
    then (c, err nearby_link_consumed)
    else if is_some link.denied_at
    then (c, err nearby_link_denied)
    else if not (is_some link.approved_at)
    then update_nearby_link os c index (record link { approved_at = some now })
    else (c, ok link)

unfoldable pub approve_nearby_link : Syscalls → DeviceRegistryStore → Text → ℕ → Reply NearbyLink
unfolding approve_found
approve_nearby_link os s link_code now =
    let c = cleanup_expired now s in
    let code = normalize_nearby_link_code link_code in
    if is_empty code
    then (c, err nearby_link_not_found)
    else elim (find_index (λ link. text_eq link.link_code code) c.nearby_links) [
      | none ↦ (c, err nearby_link_not_found)
      | some found ↦ approve_found os c found now
    ]

-- The end of DenyNearbyLink and of CancelNearbyLink.
unfoldable pub deny_found : Syscalls → DeviceRegistryStore → ℕ × NearbyLink → ℕ → Reply NearbyLink
deny_found os c (index, link) now =
    if is_some link.consumed_at
    then (c, err nearby_link_consumed)
    else if not (is_some link.denied_at)
    then update_nearby_link os c index (record link { denied_at = some now })
    else (c, ok link)

unfoldable pub deny_nearby_link : Syscalls → DeviceRegistryStore → Text → ℕ → Reply NearbyLink
unfolding deny_found nearby_link_by_id
deny_nearby_link os s link_id now =
    let c = cleanup_expired now s in
    elim (nearby_link_by_id c link_id) [
      | none ↦ (c, err nearby_link_not_found)
      | some found ↦ deny_found os c found now
    ]

-- What the generator of random bytes gives to one call of CreateNearbyLink, in the order of the draws.
pub record LinkDraws : Type 0 where
  pub id : Option Text
  pub code : ℕ → Option ℕ
  pub poll_token : Option Text
  pub salt : Option Text

module _ ⦃h : Digest⦄ where
  unfoldable pub new_nearby_link :
      LinkDraws → List NearbyLink → Text → Text → ℕ → ℕ → Result StoreError (NearbyLink × Text)
  new_nearby_link draws links name kind now expires_at = elim draws.id [
    | none ↦ err random_failed
    | some id ↦ elim (random_nearby_link_code draws.code links) [
      | err e ↦ err e
      | ok code ↦ elim draws.poll_token [
        | none ↦ err random_failed
        | some poll_token ↦ elim draws.salt [
          | none ↦ err random_failed
          | some salt ↦ ok (
            record {
              link_id = id;
              link_code = code;
              device_name = trim_space name;
              device_kind = normalize_nearby_link_device_kind kind;
              poll_token_hash = hash_refresh_token poll_token salt;
              poll_token_salt = salt;
              created_at = now;
              expires_at = expires_at;
              approved_at = none;
              denied_at = none;
              consumed_at = none;
              failed_attempts = 0;
            },
            poll_token,
          )
        ]
      ]
    ]
  ]

  unfoldable pub create_nearby_link :
      Syscalls → LinkDraws → DeviceRegistryStore → Text → Text → ℕ → ℕ → Reply (NearbyLink × Text)
  unfolding new_nearby_link
  create_nearby_link os draws s name kind now expires_at =
      let c = cleanup_expired now s in
      if leb c.device_limit (length c.devices)
      then (c, err device_limit_reached)
      else if leb max_active_nearby_links (active_nearby_link_count c.nearby_links)
      then (c, err nearby_link_limit_reached)
      else elim (new_nearby_link draws c.nearby_links name kind now expires_at) [
        | err e ↦ (c, err e)
        | ok (link, poll_token) ↦
            commit os c (record c.registry { nearby_links = c.nearby_links ++ link ∷ [] })
              (link, poll_token)
      ]

  unfoldable pub matches_poll_token : NearbyLink → Text → Bool
  matches_poll_token link token =
      if is_empty (trim_space token)
        || (is_empty link.poll_token_hash || is_empty link.poll_token_salt)
      then false
      else text_eq (hash_refresh_token (trim_space token) link.poll_token_salt) link.poll_token_hash

  unfoldable pub cancel_nearby_link :
      Syscalls → DeviceRegistryStore → Text → Text → ℕ → Reply NearbyLink
  unfolding deny_found nearby_link_by_id reject_poll_token
  cancel_nearby_link os s link_id poll_token now =
      let c = cleanup_expired now s in
      elim (nearby_link_by_id c link_id) [
        | none ↦ (c, err nearby_link_not_found)
        | some (index, link) ↦
            if not (matches_poll_token link poll_token)
            then reject_poll_token os c index link now
            else deny_found os c (index, link) now
      ]

  unfoldable pub poll_nearby_link :
      Syscalls → DeviceRegistryStore → Text → Text → ℕ → Reply NearbyLink
  unfolding nearby_link_by_id reject_poll_token
  poll_nearby_link os s link_id poll_token now =
      let c = cleanup_expired now s in
      elim (nearby_link_by_id c link_id) [
        | none ↦ (c, err nearby_link_not_found)
        | some (index, link) ↦
            if not (matches_poll_token link poll_token)
            then reject_poll_token os c index link now
            else (c, ok link)
      ]

  -- The end of RedeemNearbyLink, from newDeviceRecord on.
  unfoldable pub consume_link :
      Syscalls
      → DeviceDraws
      → DeviceRegistryStore
      → ℕ × NearbyLink
      → ℕ
      → ℕ
      → Reply (DeviceRecord × NearbyLink)
  consume_link os draws c (index, link) now refresh_token_expires_at =
      elim (new_device_record draws link.device_name now refresh_token_expires_at) [
        | err e ↦ (c, err e)
        | ok device ↦
            commit os c
              (record c.registry {
                nearby_links = erase_idx c.nearby_links index;
                devices = c.devices ++ device ∷ [];
              })
              (device, record link { consumed_at = some now })
      ]

  unfoldable pub redeem_nearby_link :
      Syscalls
      → DeviceDraws
      → DeviceRegistryStore
      → Text
      → Text
      → ℕ
      → ℕ
      → Reply (DeviceRecord × NearbyLink)
  unfolding nearby_link_by_id reject_poll_token
  redeem_nearby_link os draws s link_id poll_token now refresh_token_expires_at =
      let c = cleanup_expired now s in
      if leb c.device_limit (length c.devices)
      then (c, err device_limit_reached)
      else elim (nearby_link_by_id c link_id) [
        | none ↦ (c, err nearby_link_not_found)
        | some (index, link) ↦
            if not (matches_poll_token link poll_token)
            then reject_poll_token os c index link now
            else if is_some link.consumed_at
            then (c, err nearby_link_consumed)
            else if is_some link.denied_at
            then (c, err nearby_link_denied)
            else if not (is_some link.approved_at)
            then (c, err nearby_link_not_approved)
            else consume_link os draws c (index, link) now refresh_token_expires_at
      ]
