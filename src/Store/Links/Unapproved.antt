-- ===== src/Store/Links/Unapproved.antt =====
-- Without a call of ApproveNearbyLink, no nearby link is ever approved.
use timich_agent.Base.{
  ℕ, ◌≡◌, ◌≢◌, Option-cases, Bool, true, false, some, List, [], ◌∷◌, is_some, All, All-set,
  All-append, All-keep_if, All-get_elem?, arith, Text, ok, inl, inr,
}
use timich_agent.AtomicFile.{Syscalls}
use timich_agent.Store.Registry.{NearbyLink, DeviceRecord, DeviceRegistry, DeviceRegistryStore}
use timich_agent.Store.File.{commit, persist_locked}
use timich_agent.Store.Cleanup.{cleanup_expired, link_is_active}
use timich_agent.Store.Tokens.{Digest, DeviceDraws}
use timich_agent.Store.Pairing.{
  create_pairing_session, record_failed_pairing_attempt, pair_device, redeem_pairing_session,
}
use timich_agent.Store.Rotation.{rotate_current, replay_previous, rotate_refresh_token}
use timich_agent.Store.Devices.{
  create_hosted_device, create_hosted_review_device, add_review_device, has_device, rename_device,
  revoke_device,
}
use timich_agent.Store.Links.{
  LinkDraws, reject_poll_token, count_failed_poll, nearby_link_by_id, deny_found,
  create_nearby_link, new_nearby_link, deny_nearby_link, cancel_nearby_link, poll_nearby_link,
  redeem_nearby_link,
}
use timich_agent.Store.Links.Approval.{nearby_link_by_id-At, redeem_nearby_link-Linked}
use timich_agent.Store.History.{
  Call, snapshots, creates_session, redeems_session, rotates, creates_hosted, creates_review,
  looks_up, renames, revokes, creates_link, approves, denies, cancels, polls, redeems_link, step,
  run,
}

abbrev pub IsUnapproved : NearbyLink → Type 0
IsUnapproved link = is_some link.approved_at ≡ false

-- No link of the store is approved.
abbrev pub AllUnapproved : DeviceRegistryStore → Type 0
AllUnapproved s = All IsUnapproved s.nearby_links

-- The call is not ApproveNearbyLink.
abbrev pub approves_nothing : Call → Bool
approves_nothing (approves os code now) = false
approves_nothing _ = true

cleanup-AllUnapproved :
    (now : ℕ) (s : DeviceRegistryStore) → AllUnapproved s → AllUnapproved (cleanup_expired now s)
unfolding cleanup_expired
cleanup-AllUnapproved now s h = All-keep_if IsUnapproved (link_is_active now) s.nearby_links h

commit-All :
    {A : Type 0} (os : Syscalls) (c : DeviceRegistryStore) (updated : DeviceRegistry) (value : A)
    → AllUnapproved c
    → All IsUnapproved updated.nearby_links
    → AllUnapproved (commit os c updated value).0
unfolding commit
commit-All os c updated value h g = ground arith

found-IsUnapproved :
    (c : DeviceRegistryStore) (id : Text) (i : ℕ) (link : NearbyLink)
    → AllUnapproved c
    → nearby_link_by_id c id ≡ some (i, link)
    → IsUnapproved link
found-IsUnapproved c id i link h e =
    All-get_elem? IsUnapproved c.nearby_links i link h (nearby_link_by_id-At c id i link e).1

deny_found-AllUnapproved :
    (os : Syscalls) (c : DeviceRegistryStore) (i : ℕ) (link : NearbyLink) (now : ℕ)
    → AllUnapproved c
    → IsUnapproved link
    → AllUnapproved (deny_found os c (i, link) now).0
unfolding deny_found commit
deny_found-AllUnapproved os c i link now h q =
    ground (arith, All-set IsUnapproved c.nearby_links i (record link { denied_at = some now }) h q)

deny_nearby_link-AllUnapproved :
    (os : Syscalls) (s : DeviceRegistryStore) (id : Text) (now : ℕ)
    → AllUnapproved s
    → AllUnapproved (deny_nearby_link os s id now).0
unfolding deny_nearby_link
deny_nearby_link-AllUnapproved os s id now q =
    let c : DeviceRegistryStore = cleanup_expired now s in
    let g : AllUnapproved c = cleanup-AllUnapproved now s q in
    elim (Option-cases (nearby_link_by_id c id)) [
      | inl e ↦ rw (e, deny_nearby_link) g
      | inr ((i, link), e) ↦
          let u = found-IsUnapproved c id i link g e in
          rw (e, deny_nearby_link) (deny_found-AllUnapproved os c i link now g u)
    ]

module _ ⦃h : Digest⦄ where
  reject_poll_token-AllUnapproved :
      (A : Type 0) (os : Syscalls) (c : DeviceRegistryStore) (i : ℕ) (link : NearbyLink) (now : ℕ)
      → AllUnapproved c
      → IsUnapproved link
      → AllUnapproved (reject_poll_token {A = A} os c i link now).0
  unfolding reject_poll_token count_failed_poll commit
  reject_poll_token-AllUnapproved A os c i link now h q =
      ground (arith, All-set IsUnapproved c.nearby_links i (count_failed_poll link now) h)

  cancel_nearby_link-AllUnapproved :
      (os : Syscalls) (s : DeviceRegistryStore) (id token : Text) (now : ℕ)
      → AllUnapproved s
      → AllUnapproved (cancel_nearby_link os s id token now).0
  unfolding cancel_nearby_link
  cancel_nearby_link-AllUnapproved os s id token now q =
      let c : DeviceRegistryStore = cleanup_expired now s in
      let g : AllUnapproved c = cleanup-AllUnapproved now s q in
      elim (Option-cases (nearby_link_by_id c id)) [
        | inl e ↦ rw (e, cancel_nearby_link) g
        | inr ((i, link), e) ↦
            let u = found-IsUnapproved c id i link g e in
            rw (e, cancel_nearby_link)
              (ground (
                arith,
                reject_poll_token-AllUnapproved NearbyLink os c i link now g u,
                deny_found-AllUnapproved os c i link now g u,
              ))
      ]

  poll_nearby_link-AllUnapproved :
      (os : Syscalls) (s : DeviceRegistryStore) (id token : Text) (now : ℕ)
      → AllUnapproved s
      → AllUnapproved (poll_nearby_link os s id token now).0
  unfolding poll_nearby_link
  poll_nearby_link-AllUnapproved os s id token now q =
      let c : DeviceRegistryStore = cleanup_expired now s in
      let g : AllUnapproved c = cleanup-AllUnapproved now s q in
      elim (Option-cases (nearby_link_by_id c id)) [
        | inl e ↦ rw (e, poll_nearby_link) g
        | inr ((i, link), e) ↦
            let u = found-IsUnapproved c id i link g e in
            rw (e, poll_nearby_link)
              (ground (arith, reject_poll_token-AllUnapproved NearbyLink os c i link now g u))
      ]

  redeem_nearby_link-AllUnapproved :
      (os : Syscalls) (draws : DeviceDraws) (s : DeviceRegistryStore) (id token : Text)
      (now expires : ℕ)
      → AllUnapproved s
      → AllUnapproved (redeem_nearby_link os draws s id token now expires).0
  unfolding redeem_nearby_link
  redeem_nearby_link-AllUnapproved os draws s id token now expires q =
      let c : DeviceRegistryStore = cleanup_expired now s in
      let g : AllUnapproved c = cleanup-AllUnapproved now s q in
      elim (Option-cases (nearby_link_by_id c id)) [
        | inl e ↦ rw e (ground arith)
        | inr ((i, link), e) ↦
            let u = found-IsUnapproved c id i link g e in
            rw e (
              ground (
                arith,
                reject_poll_token-AllUnapproved (DeviceRecord × NearbyLink) os c i link now g u,
              ))
      ]

  create_nearby_link-AllUnapproved :
      (os : Syscalls) (draws : LinkDraws) (s : DeviceRegistryStore) (name kind : Text)
      (now expires : ℕ)
      → AllUnapproved s
      → AllUnapproved (create_nearby_link os draws s name kind now expires).0
  unfolding create_nearby_link new_nearby_link commit
  create_nearby_link-AllUnapproved os draws s name kind now expires q =
      let c : DeviceRegistryStore = cleanup_expired now s in
      let g : AllUnapproved c = cleanup-AllUnapproved now s q in
      grind (arith, All-append IsUnapproved)

  -- Every call but an approval keeps all links unapproved.
  step-AllUnapproved :
      (s : DeviceRegistryStore) (call : Call)
      → approves_nothing call ≡ true
      → AllUnapproved s
      → AllUnapproved (step s call)
  unfolding step
  step-AllUnapproved s (snapshots now) a q = cleanup-AllUnapproved now s q
  step-AllUnapproved s (creates_session os code now expires) a q =
      unfold create_pairing_session persist_locked in ground (arith, cleanup-AllUnapproved now s q)
  step-AllUnapproved s (redeems_session os draws code name now expires) a q =
      unfold redeem_pairing_session record_failed_pairing_attempt pair_device persist_locked in
      ground (arith, cleanup-AllUnapproved now s q)
  step-AllUnapproved s (rotates os salt token next now expires) a q =
      unfold rotate_refresh_token rotate_current replay_previous commit in
      ground (arith, cleanup-AllUnapproved now s q)
  step-AllUnapproved s (creates_hosted os draws name now expires) a q =
      unfold create_hosted_device persist_locked in ground (arith, cleanup-AllUnapproved now s q)
  step-AllUnapproved s (creates_review os draws name now expires) a q =
      unfold create_hosted_review_device add_review_device commit in
      ground (arith, cleanup-AllUnapproved now s q)
  step-AllUnapproved s (looks_up id now) a q = unfold has_device in cleanup-AllUnapproved now s q
  step-AllUnapproved s (renames os id name now) a q =
      unfold rename_device commit in ground (arith, cleanup-AllUnapproved now s q)
  step-AllUnapproved s (revokes os id now) a q =
      unfold revoke_device commit in ground (arith, cleanup-AllUnapproved now s q)
  step-AllUnapproved s (creates_link os draws name kind now expires) a q =
      create_nearby_link-AllUnapproved os draws s name kind now expires q
  step-AllUnapproved s (approves os code now) a q = cc
  step-AllUnapproved s (denies os id now) a q = deny_nearby_link-AllUnapproved os s id now q
  step-AllUnapproved s (cancels os id token now) a q =
      cancel_nearby_link-AllUnapproved os s id token now q
  step-AllUnapproved s (polls os id token now) a q =
      poll_nearby_link-AllUnapproved os s id token now q
  step-AllUnapproved s (redeems_link os draws id token now expires) a q =
      redeem_nearby_link-AllUnapproved os draws s id token now expires q

  run-AllUnapproved :
      (s : DeviceRegistryStore) (calls : List Call)
      → All (λ call. approves_nothing call ≡ true) calls
      → AllUnapproved s
      → AllUnapproved (run s calls)
  unfolding run
  run-AllUnapproved s [] a q = q
  run-AllUnapproved s (call ∷ calls) a q =
      run-AllUnapproved (step s call) calls a.1 (step-AllUnapproved s call a.0 q)

  -- If no link of a store is approved, then after any history of calls without ApproveNearbyLink, no
  -- redemption of a nearby link, with whatever id and poll token, succeeds.
  pub no_approval_no_device :
      (s : DeviceRegistryStore) (calls : List Call) (os : Syscalls) (draws : DeviceDraws)
      (id token : Text) (now expires : ℕ) (made : DeviceRecord × NearbyLink)
      → All (λ call. approves_nothing call ≡ true) calls
      → AllUnapproved s
      → (redeem_nearby_link os draws (run s calls) id token now expires).1 ≢ ok made
  no_approval_no_device s calls os draws id token now expires (device, consumed) a q e =
      let t : DeviceRegistryStore = run s calls in
      let (index, link, linked) =
        redeem_nearby_link-Linked os draws t id token now expires device consumed e in
      let u : IsUnapproved link =
        All-get_elem? IsUnapproved (cleanup_expired now t).nearby_links index link
          (cleanup-AllUnapproved now t (run-AllUnapproved s calls a q)) linked.at_index in
      ground (arith, linked.was_approved)
