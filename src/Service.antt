-- ===== src/Service.antt =====
-- internal/pairing/service.go: pairing, refresh and access tokens over the device registry.
pub mod Sessions
pub mod Links
pub mod Refresh
use timich_agent.Base.{
  ℕ, ◌+◌, ◌*◌, Bool, true, false, Option, none, some, List, [], ◌∷◌, map, ltb, if◌then◌else◌,
  length, find_index, ◌++◌, Text, codes, text_eq, is_empty, trim_space, trim_right_char, Result, ok,
  err,
}
use timich_agent.AtomicFile.{Syscalls}
use timich_agent.Store.Registry.{
  StoreError, pairing_session_not_found, pairing_session_expired, pairing_session_used,
  device_limit_reached, refresh_token_not_found, refresh_token_expired, nearby_link_not_found,
  nearby_link_denied, nearby_link_not_approved, nearby_link_consumed,
  nearby_link_poll_token_invalid, nearby_link_limit_reached, minute, PairingSession, DeviceRecord,
  NearbyLink, DeviceRegistryStore, Reply,
}
use timich_agent.Store.Cleanup.{cleanup_expired}
use timich_agent.Store.Tokens.{Digest, DeviceDraws}
use timich_agent.Store.Pairing.{create_pairing_session, redeem_pairing_session}
use timich_agent.Store.Rotation.{rotate_refresh_token}
use timich_agent.Store.Devices.{
  create_hosted_device, create_hosted_review_device, has_device, revoke_device,
}
use timich_agent.Store.Links.{
  LinkDraws, LinkStatus, approved, status, create_nearby_link, approve_nearby_link,
  deny_nearby_link, cancel_nearby_link, poll_nearby_link, redeem_nearby_link,
}
use timich_agent.Security.{
  Bytes, TokenError, access_token_invalid, AccessTokenClaims, TokenManager, Crypto,
  audience_timich_agent, mint_access_token, verify_access_token, new_token_manager,
}

abbrev hour : ℕ
hour = 60 * minute

abbrev pub default_pairing_ttl : ℕ
default_pairing_ttl = 10 * minute

abbrev pub default_nearby_link_ttl : ℕ
default_nearby_link_ttl = 5 * minute

abbrev pub default_access_token_ttl : ℕ
default_access_token_ttl = 12 * hour

abbrev pub default_refresh_token_ttl : ℕ
default_refresh_token_ttl = 30 * (24 * hour)

pub data ServiceError : Type 0 where
  store_error : StoreError → ServiceError
  token_error : TokenError → ServiceError

pub record SessionBundle : Type 0 where
  pub access_token : Text
  pub refresh_token : Text
  pub agent_id : Text
  pub agent_name : Text
  pub device_id : Text
  pub base_url : Text
  pub access_token_expires_at : ℕ  -- in Unix seconds
  pub refresh_token_expires_at : ℕ

pub record PairingSessionResponse : Type 0 where
  pub pairing_code : Text
  pub expires_at : ℕ

pub data PairingStatus : Type 0 where
  ready_for_first_local_pairing pairing_session_available : PairingStatus
  ready_for_additional_local_pairing : PairingStatus

pub record NearbyLinkResponse : Type 0 where
  pub link_id : Text
  pub link_code : Text
  pub poll_token : Text
  pub device_name : Text
  pub device_kind : Text
  pub link_status : LinkStatus
  pub created_at : ℕ
  pub expires_at : ℕ

pub record NearbyLinkPollResponse : Type 0 where
  pub link_id : Text
  pub link_status : LinkStatus
  pub expires_at : ℕ
  pub session : Option SessionBundle

pub record Service : Type 0 where
  pub agent_id : Text
  pub agent_name : Text
  pub registry : DeviceRegistryStore
  pub tokens : TokenManager
  pub refresh_rotation_key : Bytes

-- The service after a call, and its value or its error.
abbrev pub Answer : Type 0 → Type 0
Answer A = Service × Result ServiceError A

-- `if err != nil { return …, err }` after a call of the registry; what follows sees the new registry.
abbrev pub on_ok : {A B : Type 0} → Service → Reply A → (Service → A → Answer B) → Answer B
on_ok s (r, err e) next = (record s { registry = r }, err (store_error e))
on_ok s (r, ok a) next = next (record s { registry = r }) a

abbrev pub nearby_link_response : NearbyLink → Text → NearbyLinkResponse
nearby_link_response link poll_token = record {
  link_id = link.link_id;
  link_code = link.link_code;
  poll_token = poll_token;
  device_name = link.device_name;
  device_kind = link.device_kind;
  link_status = status link;
  created_at = link.created_at;
  expires_at = link.expires_at;
}

-- IsClientError
unfoldable pub is_client_error : ServiceError → Bool
is_client_error (store_error pairing_session_not_found) = true
is_client_error (store_error pairing_session_expired) = true
is_client_error (store_error pairing_session_used) = true
is_client_error (store_error device_limit_reached) = true
is_client_error (store_error refresh_token_not_found) = true
is_client_error (store_error refresh_token_expired) = true
is_client_error (store_error nearby_link_not_found) = true
is_client_error (store_error nearby_link_denied) = true
is_client_error (store_error nearby_link_not_approved) = true
is_client_error (store_error nearby_link_consumed) = true
is_client_error (store_error nearby_link_poll_token_invalid) = true
is_client_error (store_error nearby_link_limit_reached) = true
is_client_error _ = false

-- `len(items) == 0`
abbrev pub is_empty_list : {A : Type 0} → List A → Bool
is_empty_list [] = true
is_empty_list (x ∷ xs) = false

unfoldable pub pairing_status : Service → ℕ → Service × PairingStatus
pairing_status s now =
    let c = cleanup_expired now s.registry in
    (
      record s { registry = c },
      if is_empty_list c.devices
          then ready_for_first_local_pairing
          else if is_empty_list c.pairing_sessions
          then ready_for_additional_local_pairing
          else pairing_session_available,
    )

module _ ⦃k : Crypto⦄ where
  unfoldable pub new_service : Text → Text → Text → DeviceRegistryStore → Result TokenError Service
  new_service agent_id agent_name encoded_key registry =
      elim (new_token_manager agent_id encoded_key default_access_token_ttl) [
        | err e ↦ err e
        | ok tokens ↦ ok (record {
          agent_id = agent_id;
          agent_name = agent_name;
          registry = registry;
          tokens = tokens;
          refresh_rotation_key = k.sha256 (codes "timich-refresh-rotation-v1" ++ 0 ∷ encoded_key);
        })
      ]

  -- `token_id` is what randomTokenID gives.
  unfoldable pub build_session_bundle :
      Service → Option Text → DeviceRecord → Text → ℕ → Result ServiceError SessionBundle
  build_session_bundle s token_id device base_url now =
      elim (mint_access_token s.tokens token_id device.device_id audience_timich_agent now) [
        | err e ↦ err (token_error e)
        | ok (token, claims) ↦ ok (record {
          access_token = token;
          refresh_token = device.current_refresh_token;
          agent_id = s.agent_id;
          agent_name = s.agent_name;
          device_id = device.device_id;
          base_url = trim_right_char b'/' (trim_space base_url);
          access_token_expires_at = claims.expires_at;
          refresh_token_expires_at = device.refresh_token_expires_at;
        })
      ]

  unfoldable pub next_refresh_token : Service → Text → Text
  next_refresh_token s token =
      k.encode_url (k.hmac_sha256 s.refresh_rotation_key (trim_space token))
