-- ===== src/Tests/Data.antt =====
-- A digest, a store and its devices.
use timich_agent.Base.{refl, true, false, some, none, [], ◌∷◌, codes}
use timich_agent.AtomicFile.{Syscalls}
use timich_agent.Store.Registry.{PairingSession, DeviceRecord, DeviceRegistryStore, empty_registry}
use timich_agent.Store.Tokens.{Digest, IsFilled, DeviceDraws}

-- A digest that marks its argument.
instance abbrev pub plain : Digest
plain = record { digest = λ t. b'#' ∷ t }

pub plain-IsFilled : IsFilled plain
plain-IsFilled t = refl

abbrev pub all_succeed : Syscalls
all_succeed = record {
  create_temp = true;
  chmod = true;
  write = true;
  sync = true;
  close = true;
  rename = true;
  open_directory = true;
  sync_directory = true;
  remove = true;
}

abbrev pub full_disk : Syscalls
full_disk = record all_succeed { write = false }

abbrev pub draws : DeviceDraws
draws = record { id = some (codes "d1"); token = some (codes "t1"); salt = some (codes "s1") }

abbrev pub session : PairingSession
session = record {
  code = codes "abc";
  created_at = 1;
  expires_at = 100;
  failed_attempts = 0;
  redeemed_at = none;
}

abbrev pub waiting : DeviceRegistryStore
waiting = record {
  device_limit = 2;
  registry = record empty_registry { pairing_sessions = session ∷ [] };
  directory = record { file = none; temp = none };
}

-- The device that pairing with the session above makes.
abbrev pub phone : DeviceRecord
phone = record {
  device_id = codes "d1";
  device_name = codes "phone";
  review_only = false;
  created_at = 6;
  last_refreshed_at = 6;
  current_refresh_token = codes "t1";
  current_refresh_token_hash = codes "#s1:t1";
  refresh_token_salt = codes "s1";
  refresh_token_expires_at = 1000;
  previous_refresh_token_hash = [];
  previous_refresh_token_salt = [];
  previous_refresh_token_valid_until = 0;
}

-- The store once the phone is paired.
abbrev pub paired : DeviceRegistryStore
paired = record waiting { registry = record empty_registry { devices = phone ∷ [] } }
