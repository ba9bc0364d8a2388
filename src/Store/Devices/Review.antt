-- ===== src/Store/Devices/Review.antt =====
-- A review device takes the place of review devices only.
use timich_agent.Base.{
  ℕ, zero, suc, ◌≡◌, refl, subst, true, not, Option, none, some, List, [], ◌∷◌, ◌++◌, keep_if,
  erase_idx, get_elem?, Option-cases, inl, inr, Text, arith,
}
use timich_agent.AtomicFile.{Syscalls}
use timich_agent.Store.Registry.{DeviceRecord, DeviceRegistryStore}
use timich_agent.Store.File.{commit}
use timich_agent.Store.Cleanup.{cleanup_expired}
use timich_agent.Store.Tokens.{Digest, DeviceDraws}
use timich_agent.Store.Devices.{
  oldest_review_device, add_review_device, create_hosted_review_device,
}
use timich_agent.Store.Devices.Oldest.{
  IsReview, oldest_review_device-IsAt, oldest_review_device-IsOldest,
}

-- The devices that are not for review.
unfoldable pub ordinary : List DeviceRecord → List DeviceRecord
ordinary ds = keep_if (λ d. not d.review_only) ds

ordinary-erase_idx :
    (ds : List DeviceRecord) (i : ℕ) (d : DeviceRecord)
    → get_elem? ds i ≡ some d
    → d.review_only ≡ true
    → ordinary (erase_idx ds i) ≡ ordinary ds
unfolding ordinary
ordinary-erase_idx [] i d e r = refl
ordinary-erase_idx (x ∷ xs) zero d e r = ground arith
ordinary-erase_idx (x ∷ xs) (suc i) d e r = ground (arith, ordinary-erase_idx xs i d)

ordinary-snoc :
    (ds : List DeviceRecord) (d : DeviceRecord)
    → d.review_only ≡ true
    → ordinary (ds ++ d ∷ []) ≡ ordinary ds
unfolding ordinary
ordinary-snoc [] d r = ground arith
ordinary-snoc (x ∷ xs) d r = ground (arith, ordinary-snoc xs d r)

oldest_is_review :
    (c : DeviceRegistryStore) (i : ℕ) (d : DeviceRecord)
    → oldest_review_device c.devices ≡ some (i, d)
    → d.review_only ≡ true
oldest_is_review c i d e = subst IsReview e (oldest_review_device-IsOldest c.devices).0

module _ ⦃h : Digest⦄ where
  add_review_device-ordinary :
      (os : Syscalls) (draws : DeviceDraws) (c : DeviceRegistryStore)
      (evicted : Option (ℕ × DeviceRecord)) (name : Text) (now expires : ℕ)
      → ((i : ℕ) (d : DeviceRecord)
          → evicted ≡ some (i, d)
          → ordinary (erase_idx c.devices i) ≡ ordinary c.devices)
      → ordinary (add_review_device os draws c evicted name now expires).0.devices
        ≡ ordinary c.devices
  unfolding add_review_device commit
  add_review_device-ordinary os draws c none name now expires f = grind (arith, ordinary-snoc)
  add_review_device-ordinary os draws c (some (i, d)) name now expires f =
      let kept = f i d refl in grind (arith, ordinary-snoc)

  -- Making a review device never removes or changes an ordinary device: but for the cleanup, the
  -- ordinary devices stay the same, whether the call succeeds or fails.
  pub create_hosted_review_device-ordinary :
      (os : Syscalls) (draws : DeviceDraws) (s : DeviceRegistryStore) (name : Text)
      (now expires : ℕ)
      → ordinary (create_hosted_review_device os draws s name now expires).0.devices
        ≡ ordinary (cleanup_expired now s).devices
  unfolding create_hosted_review_device
  create_hosted_review_device-ordinary os draws s name now expires =
      let c : DeviceRegistryStore = cleanup_expired now s in
      elim (Option-cases (oldest_review_device c.devices)) [
        | inl e ↦
            let free : ordinary (add_review_device os draws c none name now expires).0.devices
                ≡ ordinary c.devices =
              add_review_device-ordinary os draws c none name now expires (λ i d q. cc) in
            rw (e, create_hosted_review_device) (ground arith)
        | inr ((i, d), e) ↦
            let kept : ordinary (erase_idx c.devices i) ≡ ordinary c.devices =
              ordinary-erase_idx c.devices i d (oldest_review_device-IsAt c.devices i d e)
                (oldest_is_review c i d e) in
            let free : ordinary (add_review_device os draws c none name now expires).0.devices
                ≡ ordinary c.devices =
              add_review_device-ordinary os draws c none name now expires (λ j o q. cc) in
            let full : ordinary
                  (add_review_device os draws c (some (i, d)) name now expires).0.devices
                ≡ ordinary c.devices =
              add_review_device-ordinary os draws c (some (i, d)) name now expires (λ j o q.
                let same : i ≡ j = ground arith in
                subst (λ n. ordinary (erase_idx c.devices n) ≡ ordinary c.devices) same kept) in
            rw (e, create_hosted_review_device) (ground arith)
      ]
