-- ===== src/Store/Json/Reading.antt =====
-- internal/store/device_registry.go and nearby_link.go: the registry's JSON, read by the tags of the
-- structs that json.Unmarshal fills. An object that has a tag twice, or in other capitals, is not
-- modelled, nor a time where a text is expected.
use timich_agent.Base.{
  ℕ, Bool, false, Option, none, some, List, [], ◌∷◌, if◌then◌else◌, Text, codes, text_eq,
}
use timich_agent.Store.Registry.{PairingSession, DeviceRecord, NearbyLink}
use timich_agent.Store.Document.{
  JsonValue, null, text, number, flag, time, JsonObject, RegistryJson,
}

-- The value under a tag; a member without a value is one that `omitempty` left out.
abbrev pub lookup : {A : Type 0} → Text → List (Text × Option A) → Option A
lookup tag [] = none
lookup tag ((key, member) ∷ rest) =
    let later = lookup tag rest in if text_eq key tag then member else later

-- A field of each type: the zero value where the tag is missing or null, and an error where the value is
-- of another type.
abbrev pub read_text : Option JsonValue → Option Text
read_text none = some []
read_text (some null) = some []
read_text (some (text t)) = some t
read_text (some _) = none

abbrev pub read_flag : Option JsonValue → Option Bool
read_flag none = some false
read_flag (some null) = some false
read_flag (some (flag b)) = some b
read_flag (some _) = none

abbrev pub read_number : Option JsonValue → Option ℕ
read_number none = some 0
read_number (some null) = some 0
read_number (some (number n)) = some n
read_number (some _) = none

abbrev pub read_time : Option JsonValue → Option ℕ
read_time none = some 0
read_time (some null) = some 0
read_time (some (time t)) = some t
read_time (some _) = none

abbrev pub read_time_pointer : Option JsonValue → Option (Option ℕ)
read_time_pointer none = some none
read_time_pointer (some null) = some none
read_time_pointer (some (time t)) = some (some t)
read_time_pointer (some _) = none

infixl 5 ◌>>=◌
abbrev pub ◌>>=◌ : {A B : Type 0} → Option A → (A → Option B) → Option B
◌>>=◌ none k = none
◌>>=◌ (some a) k = k a

-- The tags of deviceRecordJSON, the payload that DeviceRecord.UnmarshalJSON reads.
unfoldable pub read_device : JsonObject → Option DeviceRecord
read_device o = do
  device_id ← read_text (lookup (codes "deviceId") o)
  device_name ← read_text (lookup (codes "deviceName") o)
  review_only ← read_flag (lookup (codes "reviewOnly") o)
  created_at ← read_time (lookup (codes "createdAt") o)
  last_refreshed_at ← read_time (lookup (codes "lastRefreshedAt") o)
  current_refresh_token ← read_text (lookup (codes "currentRefreshToken") o)
  current_refresh_token_hash ← read_text (lookup (codes "currentRefreshTokenHash") o)
  refresh_token_salt ← read_text (lookup (codes "refreshTokenSalt") o)
  refresh_token_expires_at ← read_time (lookup (codes "refreshTokenExpiresAt") o)
  previous_refresh_token_hash ← read_text (lookup (codes "previousRefreshTokenHash") o)
  previous_refresh_token_salt ← read_text (lookup (codes "previousRefreshTokenSalt") o)
  previous_refresh_token_valid_until ← read_time (lookup (codes "previousRefreshTokenValidUntil") o)
  some (record {
    device_id = device_id;
    device_name = device_name;
    review_only = review_only;
    created_at = created_at;
    last_refreshed_at = last_refreshed_at;
    current_refresh_token = current_refresh_token;
    current_refresh_token_hash = current_refresh_token_hash;
    refresh_token_salt = refresh_token_salt;
    refresh_token_expires_at = refresh_token_expires_at;
    previous_refresh_token_hash = previous_refresh_token_hash;
    previous_refresh_token_salt = previous_refresh_token_salt;
    previous_refresh_token_valid_until = previous_refresh_token_valid_until;
  })

unfoldable pub read_pairing_session : JsonObject → Option PairingSession
read_pairing_session o = do
  code ← read_text (lookup (codes "code") o)
  created_at ← read_time (lookup (codes "createdAt") o)
  expires_at ← read_time (lookup (codes "expiresAt") o)
  failed_attempts ← read_number (lookup (codes "failedAttempts") o)
  redeemed_at ← read_time_pointer (lookup (codes "redeemedAt") o)
  some (record {
    code = code;
    created_at = created_at;
    expires_at = expires_at;
    failed_attempts = failed_attempts;
    redeemed_at = redeemed_at;
  })

unfoldable pub read_nearby_link : JsonObject → Option NearbyLink
read_nearby_link o = do
  link_id ← read_text (lookup (codes "linkId") o)
  link_code ← read_text (lookup (codes "linkCode") o)
  device_name ← read_text (lookup (codes "deviceName") o)
  device_kind ← read_text (lookup (codes "deviceKind") o)
  poll_token_hash ← read_text (lookup (codes "pollTokenHash") o)
  poll_token_salt ← read_text (lookup (codes "pollTokenSalt") o)
  created_at ← read_time (lookup (codes "createdAt") o)
  expires_at ← read_time (lookup (codes "expiresAt") o)
  approved_at ← read_time_pointer (lookup (codes "approvedAt") o)
  denied_at ← read_time_pointer (lookup (codes "deniedAt") o)
  consumed_at ← read_time_pointer (lookup (codes "consumedAt") o)
  failed_attempts ← read_number (lookup (codes "failedAttempts") o)
  some (record {
    link_id = link_id;
    link_code = link_code;
    device_name = device_name;
    device_kind = device_kind;
    poll_token_hash = poll_token_hash;
    poll_token_salt = poll_token_salt;
    created_at = created_at;
    expires_at = expires_at;
    approved_at = approved_at;
    denied_at = denied_at;
    consumed_at = consumed_at;
    failed_attempts = failed_attempts;
  })

-- An array of objects, which may be missing.
abbrev pub read_each : {A : Type 0} → (JsonObject → Option A) → List JsonObject → Option (List A)
read_each read [] = some []
read_each read (o ∷ os) =
    let rest = read_each read os in read o >>= λ a. rest >>= λ others. some (a ∷ others)

abbrev pub array : Text → RegistryJson → List JsonObject
array tag doc = elim (lookup tag doc) [ none ↦ [] | some objects ↦ objects ]
