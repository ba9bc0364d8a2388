-- ===== src/Store/Rotation/Retry.antt =====
-- A client that lost the answer to a refresh may ask again.
use timich_agent.Base.{
  ℕ, zero, suc, ◌+◌, ◌<◌, ◌≤◌, ◌≡◌, refl, inl, inr, Bool, true, false, Option, some, Bool-cases,
  List, [], ◌∷◌, map, set, find_from, find_index, find_index_sound, lt→ltb, min, arith, Text,
  is_empty, trim_space, trim_space_idem, text_eq_self, ◌∙◌, ok,
}
use timich_agent.AtomicFile.{Syscalls}
use timich_agent.Store.Registry.{
  DeviceRecord, DeviceRegistryStore, previous_refresh_token_replay_grace,
}
use timich_agent.Store.Cleanup.{cleanup_device, cleanup_expired}
use timich_agent.Store.Tokens.{
  Digest, IsFilled, hash_refresh_token, matches_refresh_token, matches_previous_refresh_token,
}
use timich_agent.Store.Tokens.Laws.{hash-IsFilled}
use timich_agent.Store.Rotation.{retire_token, replay_previous, rotate_refresh_token}
use timich_agent.Store.Rotation.Grace.{rotated, previous_token_grace}
use timich_agent.Store.Rotation.Success.{IsRotation, is_candidate, rotate_current-IsRotation}

-- A search that found index `j` finds the element written there, if the elements before it still fail.
find_from-map-set {ℓ} :
    {A : Type ℓ} (p q : A → Bool) (f : A → A) (y : A)
    → ((x : A) → p x ≡ false → q (f x) ≡ false)
    → q (f y) ≡ true
    → (k i j : ℕ) (xs : List A) (x : A) → j ≡ k + i
    → find_from p k xs ≡ some (j, x)
    → find_from q k (map f (set xs i y)) ≡ some (j, f y)
find_from-map-set p q f y keep hit k i j [] x e h = cc
find_from-map-set {A} p q f y keep hit k zero j (z ∷ zs) x e h = rw hit (ground arith)
find_from-map-set {A} p q f y keep hit k (suc i) j (z ∷ zs) x e h = elim (Bool-cases (p z)) [
  | inl first ↦
      let g : ◌≡◌ {A = Option (ℕ × A)} (some (k, z)) (some (j, x)) = rw first at h in
      absurd (ground arith)
  | inr later ↦
      rw (keep z later)
        (find_from-map-set p q f y keep hit (suc k) i j zs x (omega arith) (rw later at h))
]

module _ ⦃h : Digest⦄ where
  -- The cleanup makes no device a candidate.
  cleanup_device-not_candidate :
      (token : Text) (now later : ℕ)
      → now ≤ later
      → (d : DeviceRecord) → is_candidate token now d ≡ false
      → is_candidate token later (cleanup_device later d) ≡ false
  unfolding cleanup_device matches_refresh_token matches_previous_refresh_token
  cleanup_device-not_candidate token now later le d e = ground arith

  cleanup_device-current :
      (later : ℕ) (d : DeviceRecord) (token : Text)
      → matches_refresh_token (cleanup_device later d) token ≡ matches_refresh_token d token
  unfolding cleanup_device matches_refresh_token
  cleanup_device-current later d token = ground arith

  -- What the first call leaves behind, at the device that presented its current token.
  first_call :
      (os : Syscalls) (salt : Option Text) (s : DeviceRegistryStore) (token next : Text)
      (now expires : ℕ) (device : DeviceRecord) (index : ℕ) (d : DeviceRecord)
      → find_index (is_candidate (trim_space token) now) (cleanup_expired now s).devices
        ≡ some (index, d)
      → matches_refresh_token d (trim_space token) ≡ true
      → (rotate_refresh_token os salt s token next now expires).1 ≡ ok device
      → (is_empty (trim_space token) ≡ false)
        × (is_empty (trim_space next) ≡ false)
        × IsRotation
            (cleanup_expired now s)
            (rotate_refresh_token os salt s token next now expires).0
            token
            next
            now
            expires
            device
            index
            d
  unfolding rotate_refresh_token
  first_call os salt s token next now expires device index d q current e =
      let c : DeviceRegistryStore = cleanup_expired now s in
      let (hit, at) = find_index_sound (is_candidate (trim_space token) now) c.devices index d q in
      let r =
        rotate_current-IsRotation os salt c index d token next now expires device at current in
      (ground (arith, q, e), ground (arith, q, e), ground (arith, q, e, r))

  -- The answer to a call that presents a previous token.
  second_call :
      (os : Syscalls) (salt : Option Text) (t : DeviceRegistryStore) (token next : Text)
      (now expires : ℕ) (index : ℕ) (d : DeviceRecord)
      → is_empty (trim_space token) ≡ false
      → is_empty (trim_space next) ≡ false
      → find_index (is_candidate (trim_space token) now) (cleanup_expired now t).devices
        ≡ some (index, d)
      → matches_refresh_token d (trim_space token) ≡ false
      → matches_refresh_token d (trim_space next) ≡ true
      → rotate_refresh_token os salt t token next now expires
        ≡ (cleanup_expired now t, ok (record d { current_refresh_token = trim_space next }))
  unfolding rotate_refresh_token replay_previous
  second_call os salt t token next now expires index d a b q old fresh = ground (arith, q)

  rotated-accepts :
      (d : DeviceRecord) (token salt : Text) (now expires : ℕ)
      → IsFilled h
      → is_empty (trim_space token) ≡ false
      → is_empty salt ≡ false
      → let t = trim_space (trim_space token) in
        matches_refresh_token
          (rotated d t (hash_refresh_token t salt) salt now expires)
          (trim_space token)
        ≡ true
  unfolding matches_refresh_token retire_token
  rotated-accepts d token salt now expires filled a b = ground (
    arith,
    trim_space_idem token,
    hash-IsFilled filled (trim_space (trim_space token)) salt,
    text_eq_self (hash_refresh_token (trim_space (trim_space token)) salt),
  )

  cleaned_devices :
      (now : ℕ) (t : DeviceRegistryStore)
      → (cleanup_expired now t).devices ≡ map (cleanup_device now) t.devices
  unfolding cleanup_expired
  cleaned_devices now t = refl

  -- Suppose a refresh was presented the current token of the device that its search found, and succeeded.
  -- Then the same request, made again before the end of the grace, finds that device, returns it with
  -- the same new token, and changes nothing but what the cleanup changes: the token family does not
  -- advance. The hypotheses on hashing are that the digest and the new salt are not empty and that the
  -- new hash does not accept the old token.
  pub rotate_refresh_token_retry :
      (os os' : Syscalls) (salt salt' : Option Text) (s : DeviceRegistryStore) (token next : Text)
      (now expires later expires' : ℕ) (device : DeviceRecord) (index : ℕ) (d : DeviceRecord)
      → IsFilled h
      → find_index (is_candidate (trim_space token) now) (cleanup_expired now s).devices
        ≡ some (index, d)
      → matches_refresh_token d (trim_space token) ≡ true
      → (rotate_refresh_token os salt s token next now expires).1 ≡ ok device
      → is_empty device.refresh_token_salt ≡ false
      → matches_refresh_token device (trim_space token) ≡ false
      → now ≤ later
      → later < min (now + previous_refresh_token_replay_grace) expires
      → let t = (rotate_refresh_token os salt s token next now expires).0 in
        rotate_refresh_token os' salt' t token next later expires' ≡ (
          cleanup_expired later t,
          ok (record (cleanup_device later device) { current_refresh_token = trim_space next }),
        )
  rotate_refresh_token_retry os os' salt salt' s token next now expires later expires' device index
        d filled q current e salted old le soon =
      let c : DeviceRegistryStore = cleanup_expired now s in
      let t : DeviceRegistryStore = (rotate_refresh_token os salt s token next now expires).0 in
      let (a, b, r) = first_call os salt s token next now expires device index d q current e in
      let n : Text = trim_space (trim_space next) in
      let x : Text = device.refresh_token_salt in
      let grace =
        previous_token_grace d (trim_space token) n (hash_refresh_token n x) x now expires later
          current in
      let candidate : is_candidate (trim_space token) later (cleanup_device later device) ≡ true =
        ground (
          arith,
          grace,
          r.stored,
          lt→ltb later _ soon,
          cleanup_device-current later device (trim_space token),
          old,
        ) in
      let fresh : matches_refresh_token (cleanup_device later device) (trim_space next) ≡ true =
        ground (
          arith,
          cleanup_device-current later device (trim_space next),
          r.stored,
          rotated-accepts d next x now expires filled b salted,
        ) in
      let found : find_index (is_candidate (trim_space token) later)
            (cleanup_expired later t).devices
          ≡ some (index, cleanup_device later device) =
        rw (cleaned_devices later t, r.replaced)
          (find_from-map-set (is_candidate (trim_space token) now)
            (is_candidate (trim_space token) later) (cleanup_device later) device
            (cleanup_device-not_candidate (trim_space token) now later le) candidate 0 index index
            c.devices d (omega arith) q) in
      second_call os' salt' t token next later expires' index (cleanup_device later device) a b
        found (cleanup_device-current later device (trim_space token) ∙ old) fresh
