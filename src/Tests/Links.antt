-- ===== src/Tests/Links.antt =====
-- Runs of nearby links.
use timich_agent.Base.{
  All, ℕ, ◌+◌, ◌≡◌, refl, ◌≢◌, false, Option, some, none, List, [], ◌∷◌, length, codes, text_eq,
  trim_space, ok,
}
use timich_agent.AtomicFile.{write_file}
use timich_agent.Store.Registry.{NearbyLink, DeviceRecord, DeviceRegistryStore, empty_registry}
use timich_agent.Store.File.{commit, write_registry}
use timich_agent.Store.Cleanup.{cleanup_expired, link_is_active}
use timich_agent.Store.Tokens.{hash_refresh_token, set_refresh_token, new_device_record}
use timich_agent.Store.LinkCode.{
  normalize_nearby_link_code, link_code_of, random_nearby_link_code, random_link_code_from,
  nearby_link_code_exists, pad_decimal,
}
use timich_agent.Store.LinkCode.RoundTrip.{
  normalize_nearby_link_code_of_digits, random_nearby_link_code-fresh, LeavesFree,
}
use timich_agent.Store.Links.{
  nearby_link_by_id, matches_poll_token, consume_link, redeem_nearby_link,
}
use timich_agent.Store.Links.Approval.{Linked, redeem_nearby_link-Linked}
use timich_agent.Store.Links.Unapproved.{no_approval_no_device}
use timich_agent.Store.History.{Call, polls, creates_session, run}
use timich_agent.Tests.Data.{plain, all_succeed, full_disk, draws, waiting}

normalize_nearby_link_code_of_digits_example :
    (normalize_nearby_link_code (codes "123456") ≡ codes "123456")
    × (normalize_nearby_link_code (codes "123-456") ≡ codes "123456")
normalize_nearby_link_code_of_digits_example =
    normalize_nearby_link_code_of_digits (codes "123") (codes "456") (refl, (refl, (refl, tt)))
      (refl, (refl, (refl, tt))) refl

abbrev link : NearbyLink
link = record {
  link_id = codes "l1";
  link_code = codes "000042";
  device_name = codes "tv";
  device_kind = codes "android_tv";
  poll_token_hash = codes "#s:p";
  poll_token_salt = codes "s";
  created_at = 1;
  expires_at = 100;
  approved_at = none;
  denied_at = none;
  consumed_at = none;
  failed_attempts = 0;
}

abbrev code_draws : ℕ → Option ℕ
code_draws i = some (42 + i)

code_runs : random_nearby_link_code code_draws (link ∷ []) ≡ ok (codes "000043")
unfolding random_nearby_link_code random_link_code_from nearby_link_code_exists link_code_of
    pad_decimal text_eq
code_runs = refl

random_nearby_link_code-fresh_example :
    All (LeavesFree (codes "000043")) (link ∷ [])
    × (length (codes "000043") ≡ 6)
    × (normalize_nearby_link_code (codes "000043") ≡ codes "000043")
random_nearby_link_code-fresh_example =
    random_nearby_link_code-fresh code_draws (link ∷ []) (codes "000043") code_runs

abbrev asked : DeviceRegistryStore
asked = record waiting { registry = record empty_registry { nearby_links = link ∷ [] } }

abbrev waits : List Call
waits =
    creates_session all_succeed (some (codes "xyz")) 5 50
    ∷ polls full_disk (codes "l1") (codes "p") 6
    ∷ []

abbrev tv : DeviceRecord
tv = record {
  device_id = codes "d1";
  device_name = codes "tv";
  review_only = false;
  created_at = 8;
  last_refreshed_at = 8;
  current_refresh_token = codes "t1";
  current_refresh_token_hash = codes "#s1:t1";
  refresh_token_salt = codes "s1";
  refresh_token_expires_at = 1000;
  previous_refresh_token_hash = [];
  previous_refresh_token_salt = [];
  previous_refresh_token_valid_until = 0;
}

abbrev agreed : NearbyLink
agreed = record link { approved_at = some 7 }

abbrev consumed : NearbyLink
consumed = record agreed { consumed_at = some 8 }

no_approval_no_device_example :
    (redeem_nearby_link all_succeed draws (run asked waits) (codes "l1") (codes "p") 8 1000).1
    ≢ ok (tv, consumed)
no_approval_no_device_example =
    no_approval_no_device asked waits all_succeed draws (codes "l1") (codes "p") 8 1000
      (tv, consumed) (refl, (refl, tt)) (refl, tt)

abbrev allowed : DeviceRegistryStore
allowed = record waiting { registry = record empty_registry { nearby_links = agreed ∷ [] } }

link_runs :
    (redeem_nearby_link all_succeed draws allowed (codes "l1") (codes "p") 8 1000).1
    ≡ ok (tv, consumed)
unfolding redeem_nearby_link nearby_link_by_id matches_poll_token consume_link new_device_record
    set_refresh_token hash_refresh_token commit write_registry write_file cleanup_expired
    link_is_active text_eq trim_space
link_runs = refl

redeem_nearby_link-Linked_example :
    (index : ℕ) × (found : NearbyLink) × Linked
      (cleanup_expired 8 allowed)
      (redeem_nearby_link all_succeed draws allowed (codes "l1") (codes "p") 8 1000).0
      (codes "l1")
      (codes "p")
      index
      found
      tv
redeem_nearby_link-Linked_example =
    redeem_nearby_link-Linked all_succeed draws allowed (codes "l1") (codes "p") 8 1000 tv consumed
      link_runs
