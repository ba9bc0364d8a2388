-- ===== src/Store/Load/RoundTrip.antt =====
-- A registry that was written is read back as it was.
use timich_agent.Base.{
  ℕ, suc, ◌≡◌, refl, ap, ◌∙◌, Bool, true, false, Option, none, some, text_eq, List, [], ◌∷◌, map,
  All, Text, is_empty, trim_space, ok, arith,
}
use timich_agent.AtomicFile.{Syscalls, Directory}
use timich_agent.AtomicFile.Replace.{replaces, write_file-replaces}
use timich_agent.Store.Registry.{PairingSession, DeviceRecord, NearbyLink, DeviceRegistry}
use timich_agent.Store.Document.{JsonObject, RegistryJson}
use timich_agent.Store.Json.{
  omit_empty_text, omit_false, omit_zero, omit_nil, omit_no_links, marshal_device,
  marshal_pairing_session, marshal_nearby_link, marshal_registry,
}
use timich_agent.Store.Json.Reading.{
  ◌>>=◌, read_text, read_flag, read_number, read_time_pointer, read_device, read_pairing_session,
  read_nearby_link, read_each,
}
use timich_agent.Store.File.{write_registry}
use timich_agent.Store.Tokens.{Digest, unmarshal_device}
use timich_agent.Store.Load.{unmarshal_devices, unmarshal_registry, parse_registry, read_or_create}

-- A device as the store keeps it: its hash and its salt are there, and no hash or salt has space around it.
pub record IsStored (d : DeviceRecord) : Type 0 where
  pub hash_filled : is_empty d.current_refresh_token_hash ≡ false
  pub salt_filled : is_empty d.refresh_token_salt ≡ false
  pub hash_trimmed : trim_space d.current_refresh_token_hash ≡ d.current_refresh_token_hash
  pub salt_trimmed : trim_space d.refresh_token_salt ≡ d.refresh_token_salt
  pub previous_hash_trimmed :
      trim_space d.previous_refresh_token_hash ≡ d.previous_refresh_token_hash
  pub previous_salt_trimmed :
      trim_space d.previous_refresh_token_salt ≡ d.previous_refresh_token_salt

-- The registry without the plain refresh tokens, which the source never writes.
abbrev pub forget_token : DeviceRecord → DeviceRecord
forget_token d = record d { current_refresh_token = [] }

abbrev pub forget_tokens : DeviceRegistry → DeviceRegistry
forget_tokens r = record r { devices = map forget_token r.devices }

read_text-omit : (t : Text) → read_text (omit_empty_text t) ≡ some t
read_text-omit [] = refl
read_text-omit (c ∷ t) = refl

read_flag-omit : (b : Bool) → read_flag (omit_false b) ≡ some b
read_flag-omit true = refl
read_flag-omit false = refl

read_number-omit : (n : ℕ) → read_number (omit_zero n) ≡ some n
read_number-omit n = ground arith

read_time_pointer-omit : (t : Option ℕ) → read_time_pointer (omit_nil t) ≡ some t
read_time_pointer-omit none = refl
read_time_pointer-omit (some t) = refl

then_read :
    {A B : Type 0} {o : Option A} {a : A} {r : Option B} (k : A → Option B)
    → o ≡ some a
    → k a ≡ r
    → (o >>= k) ≡ r
then_read k e f = ap (λ o. o >>= k) e ∙ f

read-marshal_device : (d : DeviceRecord) → read_device (marshal_device d) ≡ some (forget_token d)
unfolding read_device text_eq
read-marshal_device d = then_read _ (read_flag-omit d.review_only) (
    then_read _ (read_text-omit d.current_refresh_token_hash) (
      then_read _ (read_text-omit d.refresh_token_salt) (
        then_read _ (read_text-omit d.previous_refresh_token_hash)
          (then_read _ (read_text-omit d.previous_refresh_token_salt) refl))))

read-marshal_pairing_session :
    (p : PairingSession) → read_pairing_session (marshal_pairing_session p) ≡ some p
unfolding read_pairing_session text_eq
read-marshal_pairing_session p =
    then_read _ (read_number-omit p.failed_attempts)
      (then_read _ (read_time_pointer-omit p.redeemed_at) refl)

read-marshal_nearby_link : (l : NearbyLink) → read_nearby_link (marshal_nearby_link l) ≡ some l
unfolding read_nearby_link text_eq
read-marshal_nearby_link l = then_read _ (read_text-omit l.device_kind) (
    then_read _ (read_text-omit l.poll_token_hash) (
      then_read _ (read_text-omit l.poll_token_salt) (
        then_read _ (read_time_pointer-omit l.approved_at) (
          then_read _ (read_time_pointer-omit l.denied_at) (
            then_read _ (read_time_pointer-omit l.consumed_at)
              (then_read _ (read_number-omit l.failed_attempts) refl))))))

read_each-map :
    {A : Type 0} (read : JsonObject → Option A) (write : A → JsonObject)
    → ((a : A) → read (write a) ≡ some a)
    → (all : List A) → read_each read (map write all) ≡ some all
read_each-map read write same [] = refl
read_each-map read write same (a ∷ rest) =
    then_read _ (same a) (then_read _ (read_each-map read write same rest) refl)

links_array :
    (ls : List NearbyLink)
    → (elim (omit_no_links ls) [ none ↦ [] | some objects ↦ objects ]) ≡ map marshal_nearby_link ls
links_array [] = refl
links_array (l ∷ ls) = refl

module _ ⦃h : Digest⦄ where
  unmarshal-forget_token :
      (salt : Option Text) (d : DeviceRecord)
      → IsStored d
      → unmarshal_device salt (forget_token d) ≡ ok (forget_token d)
  unfolding unmarshal_device
  unmarshal-forget_token salt d q = grind arith

  unmarshal_devices-marshal :
      (salts : ℕ → Option Text) (i : ℕ) (ds : List DeviceRecord)
      → All IsStored ds
      → unmarshal_devices salts i (map marshal_device ds) ≡ some (map forget_token ds)
  unfolding unmarshal_devices
  unmarshal_devices-marshal salts i [] q = refl
  unmarshal_devices-marshal salts i (d ∷ ds) q = then_read _ (read-marshal_device d) (
      rw (unmarshal-forget_token (salts i) d q.0)
        (then_read _ (unmarshal_devices-marshal salts (suc i) ds q.1) refl))

  unmarshal-marshal_registry :
      (salts : ℕ → Option Text) (r : DeviceRegistry)
      → All IsStored r.devices
      → unmarshal_registry salts (marshal_registry r) ≡ some (forget_tokens r)
  unfolding unmarshal_registry marshal_registry text_eq
  unmarshal-marshal_registry salts r q =
      then_read _
        (read_each-map read_pairing_session marshal_pairing_session read-marshal_pairing_session
          r.pairing_sessions)
        (then_read _
          (ap (read_each read_nearby_link) (links_array r.nearby_links)
            ∙ read_each-map read_nearby_link marshal_nearby_link read-marshal_nearby_link
                r.nearby_links)
          (then_read _ (unmarshal_devices-marshal salts 0 r.devices q) refl))

  -- If the hash and the salt of each device are there, and no hash or salt has space around it, then a
  -- registry, written by the tags of its structs and read by those of the payloads, is read back, after a
  -- write that replaced the file, as it was but for the plain refresh tokens, which no file holds.
  pub read_or_create-write_registry :
      (os os' : Syscalls) (salts : ℕ → Option Text) (d : Directory RegistryJson)
      (r : DeviceRegistry)
      → All IsStored r.devices
      → replaces os ≡ true
      → (read_or_create os' true salts (write_registry os d r).0).1 ≡ ok (forget_tokens r)
  unfolding read_or_create parse_registry write_registry
  read_or_create-write_registry os os' salts d r q e =
      ground
        (arith, write_file-replaces os d (marshal_registry r), unmarshal-marshal_registry salts r q)
