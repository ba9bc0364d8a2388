-- ===== src/Store/Pairing/Guard/Run.antt =====
-- Every history of calls keeps the guard on pairing sessions.
use timich_agent.Base.{ℕ, Option, List, [], ◌∷◌, Text, arith}
use timich_agent.AtomicFile.{Syscalls}
use timich_agent.Store.Registry.{DeviceRegistryStore}
use timich_agent.Store.File.{persist_locked, commit}
use timich_agent.Store.Tokens.{Digest, DeviceDraws}
use timich_agent.Store.Rotation.{rotate_current, replay_previous, rotate_refresh_token}
use timich_agent.Store.Devices.{
  create_hosted_device, add_review_device, create_hosted_review_device, has_device, rename_device,
  revoke_device,
}
use timich_agent.Store.Links.{
  LinkDraws, create_nearby_link, approve_nearby_link, deny_nearby_link, cancel_nearby_link,
  poll_nearby_link, consume_link, redeem_nearby_link,
}
use timich_agent.Store.History.{
  Call, snapshots, creates_session, redeems_session, rotates, creates_hosted, creates_review,
  looks_up, renames, revokes, creates_link, approves, denies, cancels, polls, redeems_link, step,
  run,
}
use timich_agent.Store.Pairing.Guard.{
  IsGuarded, cleanup_expired-IsGuarded, create_pairing_session-IsGuarded,
  redeem_pairing_session-IsGuarded,
}

has_device-IsGuarded :
    (s : DeviceRegistryStore) (id : Text) (now : ℕ)
    → IsGuarded s
    → IsGuarded (has_device s id now).0
unfolding has_device
has_device-IsGuarded s id now g = cleanup_expired-IsGuarded now s g

rename_device-IsGuarded :
    (os : Syscalls) (s : DeviceRegistryStore) (id name : Text) (now : ℕ)
    → IsGuarded s
    → IsGuarded (rename_device os s id name now).0
unfolding rename_device commit
rename_device-IsGuarded os s id name now g = ground (arith, cleanup_expired-IsGuarded now s g)

revoke_device-IsGuarded :
    (os : Syscalls) (s : DeviceRegistryStore) (id : Text) (now : ℕ)
    → IsGuarded s
    → IsGuarded (revoke_device os s id now).0
unfolding revoke_device commit
revoke_device-IsGuarded os s id now g = ground (arith, cleanup_expired-IsGuarded now s g)

approve_nearby_link-IsGuarded :
    (os : Syscalls) (s : DeviceRegistryStore) (code : Text) (now : ℕ)
    → IsGuarded s
    → IsGuarded (approve_nearby_link os s code now).0
unfolding approve_nearby_link commit
approve_nearby_link-IsGuarded os s code now g = ground (arith, cleanup_expired-IsGuarded now s g)

deny_nearby_link-IsGuarded :
    (os : Syscalls) (s : DeviceRegistryStore) (id : Text) (now : ℕ)
    → IsGuarded s
    → IsGuarded (deny_nearby_link os s id now).0
unfolding deny_nearby_link commit
deny_nearby_link-IsGuarded os s id now g = ground (arith, cleanup_expired-IsGuarded now s g)

module _ ⦃h : Digest⦄ where
  rotate_refresh_token-IsGuarded :
      (os : Syscalls) (salt : Option Text) (s : DeviceRegistryStore) (token next : Text)
      (now expires : ℕ)
      → IsGuarded s
      → IsGuarded (rotate_refresh_token os salt s token next now expires).0
  unfolding rotate_refresh_token rotate_current replay_previous commit
  rotate_refresh_token-IsGuarded os salt s token next now expires g =
      ground (arith, cleanup_expired-IsGuarded now s g)

  create_hosted_device-IsGuarded :
      (os : Syscalls) (draws : DeviceDraws) (s : DeviceRegistryStore) (name : Text)
      (now expires : ℕ)
      → IsGuarded s
      → IsGuarded (create_hosted_device os draws s name now expires).0
  unfolding create_hosted_device persist_locked
  create_hosted_device-IsGuarded os draws s name now expires g =
      ground (arith, cleanup_expired-IsGuarded now s g)

  create_hosted_review_device-IsGuarded :
      (os : Syscalls) (draws : DeviceDraws) (s : DeviceRegistryStore) (name : Text)
      (now expires : ℕ)
      → IsGuarded s
      → IsGuarded (create_hosted_review_device os draws s name now expires).0
  unfolding create_hosted_review_device add_review_device commit
  create_hosted_review_device-IsGuarded os draws s name now expires g =
      ground (arith, cleanup_expired-IsGuarded now s g)

  create_nearby_link-IsGuarded :
      (os : Syscalls) (draws : LinkDraws) (s : DeviceRegistryStore) (name kind : Text)
      (now expires : ℕ)
      → IsGuarded s
      → IsGuarded (create_nearby_link os draws s name kind now expires).0
  unfolding create_nearby_link commit
  create_nearby_link-IsGuarded os draws s name kind now expires g =
      ground (arith, cleanup_expired-IsGuarded now s g)

  cancel_nearby_link-IsGuarded :
      (os : Syscalls) (s : DeviceRegistryStore) (id token : Text) (now : ℕ)
      → IsGuarded s
      → IsGuarded (cancel_nearby_link os s id token now).0
  unfolding cancel_nearby_link commit
  cancel_nearby_link-IsGuarded os s id token now g =
      ground (arith, cleanup_expired-IsGuarded now s g)

  poll_nearby_link-IsGuarded :
      (os : Syscalls) (s : DeviceRegistryStore) (id token : Text) (now : ℕ)
      → IsGuarded s
      → IsGuarded (poll_nearby_link os s id token now).0
  unfolding poll_nearby_link commit
  poll_nearby_link-IsGuarded os s id token now g = ground (arith, cleanup_expired-IsGuarded now s g)

  redeem_nearby_link-IsGuarded :
      (os : Syscalls) (draws : DeviceDraws) (s : DeviceRegistryStore) (id token : Text)
      (now expires : ℕ)
      → IsGuarded s
      → IsGuarded (redeem_nearby_link os draws s id token now expires).0
  unfolding redeem_nearby_link consume_link commit
  redeem_nearby_link-IsGuarded os draws s id token now expires g =
      ground (arith, cleanup_expired-IsGuarded now s g)

  step-IsGuarded : (s : DeviceRegistryStore) (call : Call) → IsGuarded s → IsGuarded (step s call)
  unfolding step
  step-IsGuarded s (snapshots now) g = cleanup_expired-IsGuarded now s g
  step-IsGuarded s (creates_session os code now expires) g =
      create_pairing_session-IsGuarded os code s now expires g
  step-IsGuarded s (redeems_session os draws code name now expires) g =
      redeem_pairing_session-IsGuarded os draws s code name now expires g
  step-IsGuarded s (looks_up id now) g = has_device-IsGuarded s id now g
  step-IsGuarded s (rotates os salt token next now expires) g =
      rotate_refresh_token-IsGuarded os salt s token next now expires g
  step-IsGuarded s (creates_hosted os draws name now expires) g =
      create_hosted_device-IsGuarded os draws s name now expires g
  step-IsGuarded s (creates_review os draws name now expires) g =
      create_hosted_review_device-IsGuarded os draws s name now expires g
  step-IsGuarded s (renames os id name now) g = rename_device-IsGuarded os s id name now g
  step-IsGuarded s (revokes os id now) g = revoke_device-IsGuarded os s id now g
  step-IsGuarded s (creates_link os draws name kind now expires) g =
      create_nearby_link-IsGuarded os draws s name kind now expires g
  step-IsGuarded s (approves os code now) g = approve_nearby_link-IsGuarded os s code now g
  step-IsGuarded s (denies os id now) g = deny_nearby_link-IsGuarded os s id now g
  step-IsGuarded s (cancels os id token now) g = cancel_nearby_link-IsGuarded os s id token now g
  step-IsGuarded s (polls os id token now) g = poll_nearby_link-IsGuarded os s id token now g
  step-IsGuarded s (redeems_link os draws id token now expires) g =
      redeem_nearby_link-IsGuarded os draws s id token now expires g

  -- Every history of calls keeps this: there is at most one pairing session, and it has less than five
  -- failed attempts.
  pub run-IsGuarded :
      (s : DeviceRegistryStore) (calls : List Call) → IsGuarded s → IsGuarded (run s calls)
  unfolding run
  run-IsGuarded s [] g = g
  run-IsGuarded s (call ∷ calls) g = run-IsGuarded (step s call) calls (step-IsGuarded s call g)
