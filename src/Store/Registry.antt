-- ===== src/Store/Registry.antt =====
-- internal/store/device_registry.go and nearby_link.go: the records, the constants and the errors.
-- A time is the number of nanoseconds since Go's zero time; a nil `*time.Time` is `none`.
use timich_agent.Base.{ℕ, ◌*◌, Bool, Option, List, [], Text, Result}
use timich_agent.AtomicFile.{Directory}
use timich_agent.Store.Document.{RegistryJson}

pub data StoreError : Type 0 where
  pairing_session_not_found pairing_session_expired pairing_session_used : StoreError
  device_limit_reached device_not_found device_name_invalid : StoreError
  refresh_token_not_found refresh_token_expired : StoreError
  nearby_link_not_found nearby_link_denied nearby_link_not_approved : StoreError
  nearby_link_consumed nearby_link_poll_token_invalid nearby_link_limit_reached : StoreError
  -- errors that the source makes on the spot
  random_failed registry_not_written refresh_token_empty refresh_token_missing : StoreError
  data_directory_empty device_limit_invalid data_directory_not_created : StoreError
  registry_not_read registry_not_parsed : StoreError

abbrev pub second : ℕ
second = 1_000_000_000

abbrev pub minute : ℕ
minute = 60 * second

abbrev pub max_pairing_failed_attempts : ℕ
max_pairing_failed_attempts = 5

abbrev pub previous_refresh_token_replay_grace : ℕ
previous_refresh_token_replay_grace = 2 * minute

pub record PairingSession : Type 0 where
  pub code : Text
  pub created_at : ℕ
  pub expires_at : ℕ
  pub failed_attempts : ℕ
  pub redeemed_at : Option ℕ

pub record DeviceRecord : Type 0 where
  pub device_id : Text
  pub device_name : Text
  pub review_only : Bool
  pub created_at : ℕ
  pub last_refreshed_at : ℕ
  pub current_refresh_token : Text
  pub current_refresh_token_hash : Text
  pub refresh_token_salt : Text
  pub refresh_token_expires_at : ℕ
  pub previous_refresh_token_hash : Text
  pub previous_refresh_token_salt : Text
  pub previous_refresh_token_valid_until : ℕ

pub record NearbyLink : Type 0 where
  pub link_id : Text
  pub link_code : Text
  pub device_name : Text
  pub device_kind : Text
  pub poll_token_hash : Text
  pub poll_token_salt : Text
  pub created_at : ℕ
  pub expires_at : ℕ
  pub approved_at : Option ℕ
  pub denied_at : Option ℕ
  pub consumed_at : Option ℕ
  pub failed_attempts : ℕ

pub record DeviceRegistry : Type 0 where
  pub pairing_sessions : List PairingSession
  pub nearby_links : List NearbyLink
  pub devices : List DeviceRecord

-- The store, with the directory that holds its file.
pub record DeviceRegistryStore : Type 0 where
  pub device_limit : ℕ
  pub registry : DeviceRegistry
  pub open registry use *
  pub directory : Directory RegistryJson

abbrev pub empty_registry : DeviceRegistry
empty_registry = record { pairing_sessions = []; nearby_links = []; devices = [] }

-- What a method returns: the store after it, and its value or its error.
abbrev pub Reply : Type 0 → Type 0
Reply A = DeviceRegistryStore × Result StoreError A
