-- ===== src/Tests/Store.antt =====
-- Runs of the registry's file and of its devices.
use timich_agent.Base.{
  ℕ, ◌≡◌, refl, true, false, Option, some, none, [], ◌∷◌, Text, codes, text_eq, trim_space,
  if◌then◌else◌, ok,
}
use timich_agent.AtomicFile.{whole, Directory, write_file}
use timich_agent.AtomicFile.Replace.{replaces, completes, write_file-replaces}
use timich_agent.Store.Registry.{DeviceRecord, DeviceRegistryStore, empty_registry}
use timich_agent.Store.Document.{RegistryJson}
use timich_agent.Store.Json.{marshal_registry}
use timich_agent.Store.File.{commit, write_registry}
use timich_agent.Store.Cleanup.{cleanup_expired, cleanup_device}
use timich_agent.Store.Load.{read_or_create}
use timich_agent.Store.Load.RoundTrip.{IsStored, forget_tokens, read_or_create-write_registry}
use timich_agent.Store.Devices.{
  has_device, oldest_review_device, create_hosted_device, create_hosted_review_device,
  revoke_device,
}
use timich_agent.Store.Devices.Oldest.{IsReview, IsAt, IsOldest, oldest_review_device-IsOldest}
use timich_agent.Store.Devices.Review.{ordinary, create_hosted_review_device-ordinary}
use timich_agent.Store.Devices.Revoke.{revoke_device-has_device}
use timich_agent.Store.Pairing.{create_pairing_session, redeem_pairing_session}
use timich_agent.Store.Rotation.{rotate_refresh_token}
use timich_agent.Store.Links.{LinkDraws, create_nearby_link, redeem_nearby_link}
use timich_agent.Store.Failure.{IsFailure, failed_write_keeps_change, failed_write_undoes}
use timich_agent.Tests.Data.{plain, all_succeed, full_disk, draws, waiting, phone, paired}

abbrev bare : Directory RegistryJson
bare = record { file = none; temp = none }

write_file-replaces_example :
    (write_file full_disk bare (marshal_registry empty_registry)).0.file
    ≡ (if replaces full_disk then some (whole (marshal_registry empty_registry)) else none)
write_file-replaces_example = write_file-replaces full_disk bare (marshal_registry empty_registry)

phone-IsStored : IsStored phone
unfolding trim_space
phone-IsStored = record {
  hash_filled = refl;
  salt_filled = refl;
  hash_trimmed = refl;
  salt_trimmed = refl;
  previous_hash_trimmed = refl;
  previous_salt_trimmed = refl;
}

abbrev salts : ℕ → Option Text
salts i = none

read_or_create-write_registry_example :
    (read_or_create full_disk true salts (write_registry all_succeed bare paired.registry).0).1
    ≡ ok (forget_tokens paired.registry)
unfolding replaces
read_or_create-write_registry_example =
    read_or_create-write_registry all_succeed full_disk salts bare paired.registry
      (phone-IsStored, tt) refl

revoke_runs : (revoke_device all_succeed paired (codes "d1 ") 9).1 ≡ ok tt
unfolding revoke_device commit write_registry write_file cleanup_expired cleanup_device text_eq
    trim_space
revoke_runs = refl

revoke_device-has_device_example :
    (has_device
      (revoke_device all_succeed paired (codes "d1 ") 9).0
      (trim_space (codes "d1 "))
      12).1
    ≡ false
revoke_device-has_device_example =
    revoke_device-has_device all_succeed paired (codes "d1 ") 9 12 (tt, tt) revoke_runs

abbrev reviewer : DeviceRecord
reviewer = record phone { device_id = codes "r1"; review_only = true }

abbrev full_house : DeviceRegistryStore
full_house = record paired { registry = record empty_registry { devices = reviewer ∷ phone ∷ [] } }

create_hosted_review_device-ordinary_example :
    ordinary (create_hosted_review_device all_succeed draws full_house (codes "r") 9 99).0.devices
    ≡ ordinary (cleanup_expired 9 full_house).devices
create_hosted_review_device-ordinary_example =
    create_hosted_review_device-ordinary all_succeed draws full_house (codes "r") 9 99

oldest_review_device-IsOldest_example :
    let found = oldest_review_device full_house.devices in
    IsReview found × IsAt full_house.devices found × IsOldest full_house.devices found
oldest_review_device-IsOldest_example = oldest_review_device-IsOldest full_house.devices

failed_write_keeps_change_example :
    (IsFailure (create_pairing_session full_disk (some (codes "q")) waiting 6 99).1
      × ((create_pairing_session full_disk (some (codes "q")) waiting 6 99).0.registry
          ≡ (create_pairing_session all_succeed (some (codes "q")) waiting 6 99).0.registry))
    × (IsFailure (redeem_pairing_session full_disk draws waiting (codes "abc") (codes "tv") 6 99).1
        × ((redeem_pairing_session full_disk draws waiting
              (codes "abc")
              (codes "tv")
              6
              99).0.registry
            ≡ (redeem_pairing_session all_succeed draws waiting
                (codes "abc")
                (codes "tv")
                6
                99).0.registry))
    × (IsFailure (create_hosted_device full_disk draws waiting (codes "tv") 6 99).1
        × ((create_hosted_device full_disk draws waiting (codes "tv") 6 99).0.registry
            ≡ (create_hosted_device all_succeed draws waiting (codes "tv") 6 99).0.registry))
unfolding completes
failed_write_keeps_change_example =
    failed_write_keeps_change full_disk all_succeed waiting 6 99 (some (codes "q")) draws
      (codes "abc") (codes "tv") refl

abbrev link_draws : LinkDraws
link_draws = record {
  id = some (codes "l1");
  code = λ i. some i;
  poll_token = some (codes "p");
  salt = some (codes "s");
}

failed_write_undoes_example :
    ((rotate_refresh_token full_disk none paired (codes "t1") (codes "t2") 9 99).0.registry
      ≡ (cleanup_expired 9 paired).registry)
    × ((create_hosted_review_device full_disk draws paired (codes "t1") 9 99).0.registry
        ≡ (cleanup_expired 9 paired).registry)
    × ((create_nearby_link full_disk link_draws paired (codes "t1") (codes "t2") 9 99).0.registry
        ≡ (cleanup_expired 9 paired).registry)
    × ((redeem_nearby_link full_disk draws paired (codes "t1") (codes "t2") 9 99).0.registry
        ≡ (cleanup_expired 9 paired).registry)
unfolding completes replaces
failed_write_undoes_example =
    failed_write_undoes full_disk paired 9 99 none draws link_draws (codes "t1") (codes "t2") refl
