-- ===== src/Store/Pairing/OneTime/Run.antt =====
-- A redeemed code stays redeemed over every history without a new session.
use timich_agent.Base.{
  ℕ, zero, suc, ◌≤◌, ◌≡◌, refl, subst, sym, ◌≢◌, Bool, true, false, some, List, [], ◌∷◌, length,
  get_elem?, set, keep_if, is_some, All, arith, Text, ok,
}
use timich_agent.AtomicFile.{Syscalls}
use timich_agent.Store.Registry.{PairingSession, DeviceRecord, DeviceRegistryStore}
use timich_agent.Store.File.{persist_locked, commit}
use timich_agent.Store.Cleanup.{session_is_active, cleanup_expired}
use timich_agent.Store.Tokens.{Digest, DeviceDraws}
use timich_agent.Store.Pairing.{record_failed_pairing_attempt, redeem_pairing_session}
use timich_agent.Store.Pairing.Guard.{IsGuarded, cleanup_expired-IsGuarded}
use timich_agent.Store.Pairing.OneTime.{redeem_pairing_session-Paired}
use timich_agent.Store.Rotation.{rotate_current, replay_previous, rotate_refresh_token}
use timich_agent.Store.Devices.{
  create_hosted_device, create_hosted_review_device, add_review_device, has_device, rename_device,
  revoke_device,
}
use timich_agent.Store.Links.{
  reject_poll_token, deny_found, approve_found, create_nearby_link, approve_nearby_link,
  deny_nearby_link, cancel_nearby_link, poll_nearby_link, consume_link, redeem_nearby_link,
}
use timich_agent.Store.History.{
  Call, snapshots, creates_session, redeems_session, rotates, creates_hosted, creates_review,
  looks_up, renames, revokes, creates_link, approves, denies, cancels, polls, redeems_link, step,
  run,
}

abbrev IsSpent : PairingSession → Type 0
IsSpent session = is_some session.redeemed_at ≡ true

-- Every session of the store is redeemed.
abbrev pub AllSpent : DeviceRegistryStore → Type 0
AllSpent s = All IsSpent s.pairing_sessions

-- The call is not CreatePairingSession.
abbrev pub creates_nothing : Call → Bool
creates_nothing (creates_session os code now expires) = false
creates_nothing _ = true

none_active :
    (now : ℕ) (sessions : List PairingSession)
    → All IsSpent sessions
    → keep_if (session_is_active now) sessions ≡ []
unfolding session_is_active
none_active now [] h = refl
none_active now (x ∷ xs) h = ground (arith, none_active now xs h.1)

cleanup-spent :
    (now : ℕ) (s : DeviceRegistryStore) → AllSpent s → (cleanup_expired now s).pairing_sessions ≡ []
unfolding cleanup_expired
cleanup-spent now s h = none_active now s.pairing_sessions h

all_of_none : (t : DeviceRegistryStore) → t.pairing_sessions ≡ [] → AllSpent t
all_of_none t e = subst (All IsSpent) (sym e) tt

cleanup-AllSpent :
    (now : ℕ) (s : DeviceRegistryStore) → AllSpent s → AllSpent (cleanup_expired now s)
cleanup-AllSpent now s h = all_of_none (cleanup_expired now s) (cleanup-spent now s h)

module _ ⦃h : Digest⦄ where
  redeem_pairing_session-AllSpent :
      (os : Syscalls) (draws : DeviceDraws) (s : DeviceRegistryStore) (code name : Text)
      (now expires : ℕ)
      → AllSpent s
      → AllSpent (redeem_pairing_session os draws s code name now expires).0
  unfolding redeem_pairing_session record_failed_pairing_attempt
  redeem_pairing_session-AllSpent os draws s code name now expires q =
      all_of_none (redeem_pairing_session os draws s code name now expires).0
        (ground (arith, cleanup-spent now s q))

  -- Every call but the creation of a session keeps all sessions redeemed.
  step-AllSpent :
      (s : DeviceRegistryStore) (call : Call)
      → creates_nothing call ≡ true
      → AllSpent s
      → AllSpent (step s call)
  unfolding step
  step-AllSpent s (snapshots now) a q = cleanup-AllSpent now s q
  step-AllSpent s (creates_session os code now expires) a q = cc
  step-AllSpent s (redeems_session os draws code name now expires) a q =
      redeem_pairing_session-AllSpent os draws s code name now expires q
  step-AllSpent s (rotates os salt token next now expires) a q =
      unfold rotate_refresh_token rotate_current replay_previous commit in
      ground (arith, cleanup-AllSpent now s q)
  step-AllSpent s (creates_hosted os draws name now expires) a q =
      unfold create_hosted_device persist_locked in ground (arith, cleanup-AllSpent now s q)
  step-AllSpent s (creates_review os draws name now expires) a q =
      unfold create_hosted_review_device add_review_device commit in
      ground (arith, cleanup-AllSpent now s q)
  step-AllSpent s (looks_up id now) a q = unfold has_device in cleanup-AllSpent now s q
  step-AllSpent s (renames os id name now) a q =
      unfold rename_device commit in ground (arith, cleanup-AllSpent now s q)
  step-AllSpent s (revokes os id now) a q =
      unfold revoke_device commit in ground (arith, cleanup-AllSpent now s q)
  step-AllSpent s (creates_link os draws name kind now expires) a q =
      unfold create_nearby_link commit in ground (arith, cleanup-AllSpent now s q)
  step-AllSpent s (approves os code now) a q =
      unfold approve_nearby_link approve_found commit in ground (arith, cleanup-AllSpent now s q)
  step-AllSpent s (denies os id now) a q =
      unfold deny_nearby_link deny_found commit in ground (arith, cleanup-AllSpent now s q)
  step-AllSpent s (cancels os id token now) a q =
      unfold cancel_nearby_link deny_found reject_poll_token commit in
      ground (arith, cleanup-AllSpent now s q)
  step-AllSpent s (polls os id token now) a q =
      unfold poll_nearby_link reject_poll_token commit in ground (arith, cleanup-AllSpent now s q)
  step-AllSpent s (redeems_link os draws id token now expires) a q =
      unfold redeem_nearby_link consume_link reject_poll_token commit in
      ground (arith, cleanup-AllSpent now s q)

  run-AllSpent :
      (s : DeviceRegistryStore) (calls : List Call)
      → All (λ call. creates_nothing call ≡ true) calls
      → AllSpent s
      → AllSpent (run s calls)
  unfolding run
  run-AllSpent s [] a q = q
  run-AllSpent s (call ∷ calls) a q =
      run-AllSpent (step s call) calls a.1 (step-AllSpent s call a.0 q)

set-AllSpent :
    (sessions : List PairingSession) (i : ℕ) (session : PairingSession) (now : ℕ)
    → length sessions ≤ 1
    → get_elem? sessions i ≡ some session
    → All IsSpent (set sessions i (record session { redeemed_at = some now }))
set-AllSpent [] i session now l e = tt
set-AllSpent (x ∷ []) zero session now l e = (refl, tt)
set-AllSpent (x ∷ []) (suc i) session now l e = cc
set-AllSpent (x ∷ y ∷ ys) i session now l e = absurd (omega arith)

module _ ⦃h : Digest⦄ where
  -- Where the guard on sessions holds and a pairing succeeded, then after any history of calls without
  -- CreatePairingSession no pairing succeeds, with whatever code, at whatever time and with whatever
  -- outcomes.
  pub redeem_pairing_session_once :
      (os os' : Syscalls) (draws draws' : DeviceDraws) (s : DeviceRegistryStore)
      (code code' name name' : Text) (now now' expires expires' : ℕ) (device device' : DeviceRecord)
      (calls : List Call)
      → IsGuarded s
      → (redeem_pairing_session os draws s code name now expires).1 ≡ ok device
      → All (λ call. creates_nothing call ≡ true) calls
      → (redeem_pairing_session os' draws'
          (run (redeem_pairing_session os draws s code name now expires).0 calls)
          code'
          name'
          now'
          expires').1
        ≢ ok device'
  redeem_pairing_session_once os os' draws draws' s code code' name name' now now' expires expires'
        device device' calls g r a r' =
      let t : DeviceRegistryStore = (redeem_pairing_session os draws s code name now expires).0 in
      let (i, session, p) =
        redeem_pairing_session-Paired os draws s code name now expires device r in
      let spent : AllSpent t = subst (All IsSpent) (sym p.redeemed) (
        set-AllSpent (cleanup_expired now s).pairing_sessions i session now
          (cleanup_expired-IsGuarded now s g).at_most_one p.found) in
      let u : DeviceRegistryStore = run t calls in
      let (j, other, p') =
        redeem_pairing_session-Paired os' draws' u code' name' now' expires' device' r' in
      let closed : (cleanup_expired now' u).pairing_sessions ≡ [] =
        cleanup-spent now' u (run-AllSpent t calls a spent) in
      ground (arith, closed, p'.found)
