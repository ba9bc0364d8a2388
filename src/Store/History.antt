-- ===== src/Store/History.antt =====
-- internal/store: the calls of the registry's methods, and histories of such calls.
use timich_agent.Base.{ℕ, Option, List, [], ◌∷◌, Text}
use timich_agent.AtomicFile.{Syscalls}
use timich_agent.Store.Registry.{DeviceRegistryStore}
use timich_agent.Store.Cleanup.{cleanup_expired}
use timich_agent.Store.Tokens.{Digest, DeviceDraws}
use timich_agent.Store.Pairing.{create_pairing_session, redeem_pairing_session}
use timich_agent.Store.Rotation.{rotate_refresh_token}
use timich_agent.Store.Devices.{
  create_hosted_device, create_hosted_review_device, has_device, rename_device, revoke_device,
}
use timich_agent.Store.Links.{
  LinkDraws, create_nearby_link, approve_nearby_link, deny_nearby_link, cancel_nearby_link,
  poll_nearby_link, redeem_nearby_link,
}

-- A method with its arguments, the outcomes of its system calls and the random bytes that it draws.
pub data Call : Type 0 where
  snapshots : ℕ → Call
  creates_session : Syscalls → Option Text → ℕ → ℕ → Call
  redeems_session : Syscalls → DeviceDraws → Text → Text → ℕ → ℕ → Call
  rotates : Syscalls → Option Text → Text → Text → ℕ → ℕ → Call
  creates_hosted : Syscalls → DeviceDraws → Text → ℕ → ℕ → Call
  creates_review : Syscalls → DeviceDraws → Text → ℕ → ℕ → Call
  looks_up : Text → ℕ → Call
  renames : Syscalls → Text → Text → ℕ → Call
  revokes : Syscalls → Text → ℕ → Call
  creates_link : Syscalls → LinkDraws → Text → Text → ℕ → ℕ → Call
  approves : Syscalls → Text → ℕ → Call
  denies : Syscalls → Text → ℕ → Call
  cancels : Syscalls → Text → Text → ℕ → Call
  polls : Syscalls → Text → Text → ℕ → Call
  redeems_link : Syscalls → DeviceDraws → Text → Text → ℕ → ℕ → Call

module _ ⦃h : Digest⦄ where
  -- The store after a call; `snapshots` stands for Snapshot and NearbyLinks.
  unfoldable pub step : DeviceRegistryStore → Call → DeviceRegistryStore
  step s (snapshots now) = cleanup_expired now s
  step s (creates_session os code now expires) = (create_pairing_session os code s now expires).0
  step s (redeems_session os draws code name now expires) =
      (redeem_pairing_session os draws s code name now expires).0
  step s (rotates os salt token next now expires) =
      (rotate_refresh_token os salt s token next now expires).0
  step s (creates_hosted os draws name now expires) =
      (create_hosted_device os draws s name now expires).0
  step s (creates_review os draws name now expires) =
      (create_hosted_review_device os draws s name now expires).0
  step s (looks_up id now) = (has_device s id now).0
  step s (renames os id name now) = (rename_device os s id name now).0
  step s (revokes os id now) = (revoke_device os s id now).0
  step s (creates_link os draws name kind now expires) =
      (create_nearby_link os draws s name kind now expires).0
  step s (approves os code now) = (approve_nearby_link os s code now).0
  step s (denies os id now) = (deny_nearby_link os s id now).0
  step s (cancels os id token now) = (cancel_nearby_link os s id token now).0
  step s (polls os id token now) = (poll_nearby_link os s id token now).0
  step s (redeems_link os draws id token now expires) =
      (redeem_nearby_link os draws s id token now expires).0

  unfoldable pub run : DeviceRegistryStore → List Call → DeviceRegistryStore
  run s [] = s
  run s (call ∷ calls) = run (step s call) calls
