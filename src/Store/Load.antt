-- ===== src/Store/Load.antt =====
-- internal/store/device_registry.go: LoadOrCreateDeviceRegistry.
pub mod RoundTrip
use timich_agent.Base.{
  ℕ, zero, suc, Bool, true, false, not, Option, none, some, List, [], ◌∷◌, ltb, if◌then◌else◌, Text,
  codes, is_empty, Result, ok, err,
}
use timich_agent.AtomicFile.{Content, partial, whole, Directory, Syscalls}
use timich_agent.Store.Registry.{
  StoreError, data_directory_empty, device_limit_invalid, data_directory_not_created,
  registry_not_read, registry_not_parsed, DeviceRecord, DeviceRegistry, DeviceRegistryStore,
  empty_registry,
}
use timich_agent.Store.Document.{JsonObject, RegistryJson}
use timich_agent.Store.Json.Reading.{
  ◌>>=◌, read_device, read_pairing_session, read_nearby_link, read_each, array,
}
use timich_agent.Store.File.{write_registry, persist_locked}
use timich_agent.Store.Cleanup.{cleanup_expired}
use timich_agent.Store.Tokens.{Digest, unmarshal_device}

module _ ⦃h : Digest⦄ where
  -- The devices of the file: each object is read by its tags and then by UnmarshalJSON; `salts i` is
  -- what the generator gives for the i-th of them.
  unfoldable pub unmarshal_devices :
      (ℕ → Option Text) → ℕ → List JsonObject → Option (List DeviceRecord)
  unfolding read_device
  unmarshal_devices salts i [] = some []
  unmarshal_devices salts i (o ∷ rest) =
      let tail = unmarshal_devices salts (suc i) rest in
      read_device o >>= λ payload. elim (unmarshal_device (salts i) payload) [
        | err e ↦ none
        | ok d ↦ tail >>= λ ds. some (d ∷ ds)
      ]

  -- json.Unmarshal of a document: it fails where a value has the wrong type or a device is bad.
  unfoldable pub unmarshal_registry : (ℕ → Option Text) → RegistryJson → Option DeviceRegistry
  unfolding unmarshal_devices read_pairing_session read_nearby_link
  unmarshal_registry salts doc = do
    pairing_sessions ← read_each read_pairing_session (array (codes "pairingSessions") doc)
    nearby_links ← read_each read_nearby_link (array (codes "nearbyLinks") doc)
    devices ← unmarshal_devices salts 0 (array (codes "devices") doc)
    some (record {
      pairing_sessions = pairing_sessions;
      nearby_links = nearby_links;
      devices = devices;
    })

  -- json.Unmarshal of the file: a file that is cut off does not parse.
  unfoldable pub parse_registry :
      (ℕ → Option Text) → Content RegistryJson → Result StoreError DeviceRegistry
  unfolding unmarshal_registry
  parse_registry salts partial = err registry_not_parsed
  parse_registry salts (whole doc) = elim (unmarshal_registry salts doc) [
    | none ↦ err registry_not_parsed
    | some r ↦ ok r
  ]

  -- The registry that is read, or the empty one that is written where there is no file; the directory
  -- after that.
  unfoldable pub read_or_create :
      Syscalls
      → Bool
      → (ℕ → Option Text)
      → Directory RegistryJson
      → Directory RegistryJson × Result StoreError DeviceRegistry
  unfolding parse_registry
  read_or_create os readable salts d = elim d.file [
    | none ↦
        let (d', outcome) = write_registry os d empty_registry in
        (d', elim outcome [ err e ↦ err e | ok _ ↦ ok empty_registry ])
    | some content ↦
        if not readable then (d, err registry_not_read) else (d, parse_registry salts content)
  ]

  -- The end of LoadOrCreateDeviceRegistry: the first cleanup, and the write that follows it.
  unfoldable pub start_store :
      Syscalls
      → ℕ
      → ℕ
      → Directory RegistryJson × Result StoreError DeviceRegistry
      → Directory RegistryJson × Result StoreError DeviceRegistryStore
  start_store os limit now (d, err e) = (d, err e)
  start_store os limit now (d, ok r) =
      let s = cleanup_expired now (record { device_limit = limit; registry = r; directory = d }) in
      let (s', outcome) = persist_locked os s (ok tt) in
      (s'.directory, elim outcome [ err e ↦ err e | ok _ ↦ ok s' ])

  -- `made` and `readable` are the outcomes of os.MkdirAll and os.ReadFile; a file that does not exist is
  -- `none` in the directory.
  unfoldable pub load_or_create :
      Syscalls
      → Syscalls
      → Bool
      → Bool
      → (ℕ → Option Text)
      → Directory RegistryJson
      → Text
      → ℕ
      → ℕ
      → Directory RegistryJson × Result StoreError DeviceRegistryStore
  unfolding read_or_create start_store
  load_or_create os os' made readable salts d data_dir limit now =
      if is_empty data_dir
      then (d, err data_directory_empty)
      else if ltb limit 1
      then (d, err device_limit_invalid)
      else if not made
      then (d, err data_directory_not_created)
      else start_store os' limit now (read_or_create os readable salts d)
