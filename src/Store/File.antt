-- ===== src/Store/File.antt =====
-- internal/store/device_registry.go: writing the registry's file, and what the file holds.
use timich_agent.Base.{◌≡◌, Option, some, if◌then◌else◌, Result, ok, err, arith}
use timich_agent.AtomicFile.{Content, whole, Directory, Syscalls, WriteError, write_file}
use timich_agent.AtomicFile.Replace.{replaces, completes, write_file-replaces}
use timich_agent.Store.Document.{RegistryJson}
use timich_agent.Store.Json.{marshal_registry}
use timich_agent.Store.Registry.{
  StoreError, registry_not_written, DeviceRegistry, DeviceRegistryStore, Reply,
}

wrap_write : Result WriteError (Unit {0}) → Result StoreError (Unit {0})
wrap_write (ok u) = ok u
wrap_write (err e) = err registry_not_written

-- writeDeviceRegistryFile: the directory after it, and its error.
unfoldable pub write_registry :
    Syscalls
    → Directory RegistryJson
    → DeviceRegistry
    → Directory RegistryJson × Result StoreError (Unit {0})
unfolding wrap_write
write_registry os d r =
    let (d', outcome) = write_file os d (marshal_registry r) in (d', wrap_write outcome)

-- `if err := s.persistLocked(); err != nil { return …, err }`, and then `return reply`.
unfoldable pub persist_locked :
    {A : Type 0} → Syscalls → DeviceRegistryStore → Result StoreError A → Reply A
persist_locked os s reply =
    let (d, outcome) = write_registry os s.directory s.registry in
    elim outcome [
      | ok _ ↦ (record s { directory = d }, reply)
      | err e ↦ (record s { directory = d }, err e)
    ]

-- The registry in memory is replaced by `updated` only once the file is written.
unfoldable pub commit : {A : Type 0} → Syscalls → DeviceRegistryStore → DeviceRegistry → A → Reply A
commit os s updated value =
    let (d, outcome) = write_registry os s.directory updated in
    elim outcome [
      | ok _ ↦ (record s { registry = updated; directory = d }, ok value)
      | err e ↦ (record s { directory = d }, err e)
    ]

write_registry_outcome :
    (os : Syscalls) (d : Directory RegistryJson) (r : DeviceRegistry)
    → (write_registry os d r).1 ≡ (if completes os then ok tt else err registry_not_written)
unfolding write_registry completes write_file
write_registry_outcome os d r = ground arith

-- The store's file holds this registry, in full.
abbrev pub file_after :
    Syscalls → Option (Content RegistryJson) → DeviceRegistry → Option (Content RegistryJson)
file_after os old r = if replaces os then some (whole (marshal_registry r)) else old

module _ {A : Type 0} (os : Syscalls) (s : DeviceRegistryStore) where
  pub persist_locked_lem :
      (reply : Result StoreError A)
      → ((persist_locked os s reply).0.registry ≡ s.registry)
        × ((persist_locked os s reply).0.device_limit ≡ s.device_limit)
        × ((persist_locked os s reply).0.directory.file ≡ file_after os s.directory.file s.registry)
        × ((persist_locked os s reply).1
            ≡ (if completes os then reply else err registry_not_written))
  unfolding write_registry persist_locked
  persist_locked_lem reply = ground (
    arith,
    write_registry_outcome os s.directory s.registry,
    write_file-replaces os s.directory (marshal_registry s.registry),
  )

  pub commit_lem :
      (updated : DeviceRegistry) (value : A)
      → ((commit os s updated value).0.registry ≡ (if completes os then updated else s.registry))
        × ((commit os s updated value).0.device_limit ≡ s.device_limit)
        × ((commit os s updated value).0.directory.file ≡ file_after os s.directory.file updated)
        × ((commit os s updated value).1
            ≡ (if completes os then ok value else err registry_not_written))
  unfolding write_registry commit
  commit_lem updated value = ground (
    arith,
    write_registry_outcome os s.directory updated,
    write_file-replaces os s.directory (marshal_registry updated),
  )

  -- Success means that the file holds the registry in memory.
  pub persist_locked-success :
      (value result : A)
      → (persist_locked os s (ok value)).1 ≡ ok result
      → (value ≡ result)
        × ((persist_locked os s (ok value)).0.registry ≡ s.registry)
        × ((persist_locked os s (ok value)).0.directory.file
            ≡ some (whole (marshal_registry s.registry)))
  unfolding write_registry persist_locked completes write_file
  persist_locked-success value result h = ground arith

  pub commit-success :
      (updated : DeviceRegistry) (value result : A)
      → (commit os s updated value).1 ≡ ok result
      → (value ≡ result)
        × ((commit os s updated value).0.registry ≡ updated)
        × ((commit os s updated value).0.directory.file ≡ some (whole (marshal_registry updated)))
  unfolding write_registry commit completes write_file
  commit-success updated value result h = ground arith
