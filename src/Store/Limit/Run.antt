-- ===== src/Store/Limit/Run.antt =====
-- The limit on paired devices over every history of calls.
use timich_agent.Base.{ℕ, ◌≤◌, refl, List, [], ◌∷◌, length, arith}
use timich_agent.Store.Registry.{DeviceRegistryStore}
use timich_agent.Store.Tokens.{Digest}
use timich_agent.Store.Devices.{has_device}
use timich_agent.Store.History.{
  Call, snapshots, creates_session, redeems_session, rotates, creates_hosted, creates_review,
  looks_up, renames, revokes, creates_link, approves, denies, cancels, polls, redeems_link, step,
  run,
}
use timich_agent.Store.Limit.{
  Within, Within-cleanup, Within-create_pairing_session, Within-redeem_pairing_session,
  Within-rename_device, Within-revoke_device, Within-approve_nearby_link, Within-deny_nearby_link,
  Within-cancel_nearby_link, Within-poll_nearby_link, Within-create_nearby_link,
  Within-redeem_nearby_link, Within-rotate_refresh_token, Within-create_hosted_device,
  Within-create_hosted_review_device,
}

Within-refl : (s : DeviceRegistryStore) → Within s s
Within-refl s = record { limit_kept = refl; devices_bounded = omega arith }

Within-trans : (s t u : DeviceRegistryStore) → Within s t → Within t u → Within s u
Within-trans s t u v w = ground arith

Within-has_device :
    (s : DeviceRegistryStore) (id : List ℕ) (now : ℕ) → Within s (has_device s id now).0
unfolding has_device
Within-has_device s id now = Within-cleanup now s

module _ ⦃h : Digest⦄ where
  -- With a limit of at least 1, no call of a method changes the limit, or makes the number of paired
  -- devices exceed both the limit and the number there was.
  pub step-Within :
      (s : DeviceRegistryStore) (call : Call) → 1 ≤ s.device_limit → Within s (step s call)
  unfolding step
  step-Within s (snapshots now) l = Within-cleanup now s
  step-Within s (creates_session os code now expires) l =
      Within-create_pairing_session os code s now expires
  step-Within s (redeems_session os draws code name now expires) l =
      Within-redeem_pairing_session os draws s code name now expires
  step-Within s (rotates os salt token next now expires) l =
      Within-rotate_refresh_token os salt s token next now expires
  step-Within s (creates_hosted os draws name now expires) l =
      Within-create_hosted_device os draws s name now expires
  step-Within s (creates_review os draws name now expires) l =
      Within-create_hosted_review_device os draws s name now expires l
  step-Within s (looks_up id now) l = Within-has_device s id now
  step-Within s (renames os id name now) l = Within-rename_device os s id name now
  step-Within s (revokes os id now) l = Within-revoke_device os s id now
  step-Within s (creates_link os draws name kind now expires) l =
      Within-create_nearby_link os draws s name kind now expires
  step-Within s (approves os code now) l = Within-approve_nearby_link os s code now
  step-Within s (denies os id now) l = Within-deny_nearby_link os s id now
  step-Within s (cancels os id token now) l = Within-cancel_nearby_link os s id token now
  step-Within s (polls os id token now) l = Within-poll_nearby_link os s id token now
  step-Within s (redeems_link os draws id token now expires) l =
      Within-redeem_nearby_link os draws s id token now expires

  -- A store whose limit is at least 1 and that starts within its limit stays within it over every
  -- history of calls, whatever their arguments, the outcomes of the writes and the random bytes.
  pub run_within_limit :
      (s : DeviceRegistryStore) (calls : List Call)
      → 1 ≤ s.device_limit
      → length s.devices ≤ s.device_limit
      → length (run s calls).devices ≤ s.device_limit
  unfolding run
  run_within_limit s [] l b = b
  run_within_limit s (call ∷ calls) l b =
      let w = step-Within s call l in
      omega (arith, w, run_within_limit (step s call) calls (omega arith) (omega arith))
