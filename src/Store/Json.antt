-- ===== src/Store/Json.antt =====
-- internal/store/device_registry.go and nearby_link.go: the registry's JSON, written by the tags of its
-- structs. What encoding/json does between a document and its bytes is not modelled.
pub mod Reading
use timich_agent.Base.{
  ℕ, ◌==◌, Bool, true, false, not, Option, none, some, List, [], ◌∷◌, map, if◌then◌else◌, Text,
  codes, is_empty,
}
use timich_agent.Store.Registry.{PairingSession, DeviceRecord, NearbyLink, DeviceRegistry}
use timich_agent.Store.Document.{JsonValue, text, number, flag, time, JsonObject, RegistryJson}

-- What `omitempty` does with each type. It leaves out no `time.Time`, which is a struct.
abbrev pub omit_empty_text : Text → Option JsonValue
omit_empty_text t = if is_empty t then none else some (text t)

abbrev pub omit_false : Bool → Option JsonValue
omit_false b = if b then some (flag true) else none

abbrev pub omit_zero : ℕ → Option JsonValue
omit_zero n = if n == 0 then none else some (number n)

abbrev pub omit_nil : Option ℕ → Option JsonValue
omit_nil none = none
omit_nil (some t) = some (time t)

-- The tags of DeviceRecord; the plain token's is `-`.
abbrev pub marshal_device : DeviceRecord → JsonObject
marshal_device d =
    (codes "deviceId", some (text d.device_id))
    ∷ (codes "deviceName", some (text d.device_name))
    ∷ (codes "reviewOnly", omit_false d.review_only)
    ∷ (codes "createdAt", some (time d.created_at))
    ∷ (codes "lastRefreshedAt", some (time d.last_refreshed_at))
    ∷ (codes "currentRefreshTokenHash", omit_empty_text d.current_refresh_token_hash)
    ∷ (codes "refreshTokenSalt", omit_empty_text d.refresh_token_salt)
    ∷ (codes "refreshTokenExpiresAt", some (time d.refresh_token_expires_at))
    ∷ (codes "previousRefreshTokenHash", omit_empty_text d.previous_refresh_token_hash)
    ∷ (codes "previousRefreshTokenSalt", omit_empty_text d.previous_refresh_token_salt)
    ∷ (codes "previousRefreshTokenValidUntil", some (time d.previous_refresh_token_valid_until))
    ∷ []

-- The tags of PairingSession.
abbrev pub marshal_pairing_session : PairingSession → JsonObject
marshal_pairing_session p =
    (codes "code", some (text p.code))
    ∷ (codes "createdAt", some (time p.created_at))
    ∷ (codes "expiresAt", some (time p.expires_at))
    ∷ (codes "failedAttempts", omit_zero p.failed_attempts)
    ∷ (codes "redeemedAt", omit_nil p.redeemed_at)
    ∷ []

-- The tags of NearbyLink.
abbrev pub marshal_nearby_link : NearbyLink → JsonObject
marshal_nearby_link l =
    (codes "linkId", some (text l.link_id))
    ∷ (codes "linkCode", some (text l.link_code))
    ∷ (codes "deviceName", some (text l.device_name))
    ∷ (codes "deviceKind", omit_empty_text l.device_kind)
    ∷ (codes "pollTokenHash", omit_empty_text l.poll_token_hash)
    ∷ (codes "pollTokenSalt", omit_empty_text l.poll_token_salt)
    ∷ (codes "createdAt", some (time l.created_at))
    ∷ (codes "expiresAt", some (time l.expires_at))
    ∷ (codes "approvedAt", omit_nil l.approved_at)
    ∷ (codes "deniedAt", omit_nil l.denied_at)
    ∷ (codes "consumedAt", omit_nil l.consumed_at)
    ∷ (codes "failedAttempts", omit_zero l.failed_attempts)
    ∷ []

abbrev pub omit_no_links : List NearbyLink → Option (List JsonObject)
omit_no_links [] = none
omit_no_links (l ∷ ls) = some (map marshal_nearby_link (l ∷ ls))

-- The tags of DeviceRegistry.
unfoldable pub marshal_registry : DeviceRegistry → RegistryJson
marshal_registry r =
    (codes "pairingSessions", some (map marshal_pairing_session r.pairing_sessions))
    ∷ (codes "nearbyLinks", omit_no_links r.nearby_links)
    ∷ (codes "devices", some (map marshal_device r.devices))
    ∷ []
