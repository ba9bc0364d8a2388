-- ===== src/Store/Pairing/Lockout.antt =====
-- Guessing a pairing code: five wrong codes close the session.
use timich_agent.Base.{
  Result, leb, ℕ, ◌+◌, ◌-◌, ◌≤◌, ◌<◌, ◌≡◌, refl, inl, inr, Bool, false, List, [], ◌∷◌, length, All,
  All-imp, All-keep_if, keep_if, length-keep_if, find_from-none, arith, Text, text_eq, trim_space,
  err, Bool-cases,
}
use timich_agent.AtomicFile.{Syscalls}
use timich_agent.Store.Registry.{
  StoreError, PairingSession, DeviceRecord, DeviceRegistryStore, max_pairing_failed_attempts,
  pairing_session_not_found,
}
use timich_agent.Store.File.{persist_locked}
use timich_agent.Store.Cleanup.{session_is_active, cleanup_expired}
use timich_agent.Store.Cleanup.Laws.{length-devices-cleanup}
use timich_agent.Store.Tokens.{Digest, DeviceDraws}
use timich_agent.Store.Pairing.{
  count_failed_attempt, record_failed_pairing_attempt, redeem_pairing_session,
}
use timich_agent.Store.Pairing.Guard.{IsGuarded, IsOpen, redeem_pairing_session-IsGuarded}

-- One call of RedeemPairingSession.
pub record Attempt : Type 0 where
  pub os : Syscalls
  pub draws : DeviceDraws
  pub code : Text
  pub name : Text
  pub now : ℕ
  pub expires : ℕ

-- No session of the list has the code.
abbrev pub IsWrong : List PairingSession → Text → Type 0
IsWrong sessions code = All (λ x. text_eq x.code (trim_space code) ≡ false) sessions

-- How many more failed attempts the first session bears.
tries_left : List PairingSession → ℕ
tries_left [] = 0
tries_left (x ∷ xs) = max_pairing_failed_attempts - x.failed_attempts

tries_left-keep_if :
    (p : PairingSession → Bool) (sessions : List PairingSession)
    → length sessions ≤ 1
    → tries_left (keep_if p sessions) ≤ tries_left sessions
unfolding tries_left
tries_left-keep_if p [] h = omega arith
tries_left-keep_if p (x ∷ []) h = ground arith
tries_left-keep_if p (x ∷ y ∷ ys) h = absurd (omega arith)

tries_left-count :
    (sessions : List PairingSession)
    → length sessions ≤ 1
    → (length (count_failed_attempt sessions) ≤ 1)
      × (tries_left (count_failed_attempt sessions) ≤ tries_left sessions - 1)
unfolding tries_left count_failed_attempt
tries_left-count [] h = omega arith
tries_left-count (x ∷ []) h = ground arith
tries_left-count (x ∷ y ∷ ys) h = absurd (omega arith)

count_failed_attempt-IsWrong :
    (code : Text) (sessions : List PairingSession)
    → IsWrong sessions code
    → IsWrong (count_failed_attempt sessions) code
unfolding count_failed_attempt
count_failed_attempt-IsWrong code [] w = tt
count_failed_attempt-IsWrong code (x ∷ xs) w =
    elim (Bool-cases (leb max_pairing_failed_attempts (x.failed_attempts + 1))) [
      | inl e ↦ rw e tt
      | inr e ↦ rw e w
    ]

record_failed-sessions :
    {A : Type 0} (os : Syscalls) (s : DeviceRegistryStore) (reply : Result StoreError A)
    → let t = (record_failed_pairing_attempt os s reply).0 in
      (t.pairing_sessions ≡ count_failed_attempt s.pairing_sessions)
      × (t.devices ≡ s.devices)
      × (t.device_limit ≡ s.device_limit)
unfolding record_failed_pairing_attempt persist_locked
record_failed-sessions os s reply = ground arith

-- The sessions and the room after an attempt with a wrong code.
record After (s t : DeviceRegistryStore) : Type 0 where
  at_most_one : length t.pairing_sessions ≤ 1
  fewer : tries_left t.pairing_sessions ≤ tries_left s.pairing_sessions - 1
  same_devices : length t.devices ≡ length s.devices
  same_limit : t.device_limit ≡ s.device_limit

module _ ⦃h : Digest⦄ where
  attempt : DeviceRegistryStore → Attempt → DeviceRegistryStore
  attempt s a = (redeem_pairing_session a.os a.draws s a.code a.name a.now a.expires).0

  pub attempts : DeviceRegistryStore → List Attempt → DeviceRegistryStore
  attempts s [] = s
  attempts s (a ∷ as') = attempts (attempt s a) as'

  attempt-sessions :
      (s : DeviceRegistryStore) (a : Attempt)
      → IsWrong s.pairing_sessions a.code
      → length s.devices < s.device_limit
      → let c = cleanup_expired a.now s in
        ((attempt s a).pairing_sessions ≡ count_failed_attempt c.pairing_sessions)
        × (length (attempt s a).devices ≡ length s.devices)
        × ((attempt s a).device_limit ≡ s.device_limit)
  unfolding attempt redeem_pairing_session
  attempt-sessions s a w room =
      let c : DeviceRegistryStore = cleanup_expired a.now s in
      let wrong : IsWrong c.pairing_sessions a.code =
        unfold cleanup_expired in
        All-keep_if (λ x. text_eq x.code (trim_space a.code) ≡ false) (session_is_active a.now)
          s.pairing_sessions w in
      ground (
        arith,
        find_from-none (λ (x : PairingSession). text_eq x.code (trim_space a.code)) 0
            c.pairing_sessions wrong,
        length-devices-cleanup a.now s,
        record_failed-sessions {A = DeviceRecord} a.os c (err pairing_session_not_found),
      )

  attempt-After :
      (s : DeviceRegistryStore) (a : Attempt)
      → IsWrong s.pairing_sessions a.code
      → length s.devices < s.device_limit
      → length s.pairing_sessions ≤ 1
      → After s (attempt s a)
  unfolding cleanup_expired
  attempt-After s a w room one =
      let (e, d, l) = attempt-sessions s a w room in
      let kept = tries_left-keep_if (session_is_active a.now) s.pairing_sessions one in
      let short = length-keep_if (session_is_active a.now) s.pairing_sessions in
      let (o, f) =
        tries_left-count (keep_if (session_is_active a.now) s.pairing_sessions) (omega arith) in
      record { at_most_one = rw e o; fewer = rw e (omega arith); same_devices = d; same_limit = l }

  -- A code that is wrong stays wrong.
  attempt-IsWrong :
      (s : DeviceRegistryStore) (a : Attempt) (code : Text)
      → IsWrong s.pairing_sessions a.code
      → length s.devices < s.device_limit
      → IsWrong s.pairing_sessions code
      → IsWrong (attempt s a).pairing_sessions code
  unfolding cleanup_expired
  attempt-IsWrong s a code w room v = rw (attempt-sessions s a w room).0 (
      count_failed_attempt-IsWrong code _ (
        All-keep_if (λ x. text_eq x.code (trim_space code) ≡ false) (session_is_active a.now)
          s.pairing_sessions v))

  attempts-tries_left :
      (s : DeviceRegistryStore) (list : List Attempt)
      → All (λ a. IsWrong s.pairing_sessions a.code) list
      → length s.devices < s.device_limit
      → length s.pairing_sessions ≤ 1
      → tries_left (attempts s list).pairing_sessions ≤ tries_left s.pairing_sessions - length list
  unfolding attempts
  attempts-tries_left s [] w room one = omega arith
  attempts-tries_left s (a ∷ rest) w room one =
      let t = attempt-After s a w.0 room one in
      omega (
        arith,
        t,
        attempts-tries_left (attempt s a) rest
            (All-imp rest (λ b v. attempt-IsWrong s a b.code w.0 room v) w.1) (omega (arith, t))
            t.at_most_one,
      )

tries_left-le : (sessions : List PairingSession) → tries_left sessions ≤ 5
unfolding tries_left
tries_left-le [] = omega arith
tries_left-le (x ∷ xs) = omega arith

tries_left-pos :
    (sessions : List PairingSession) → All IsOpen sessions → tries_left sessions ≤ 0 → sessions ≡ []
unfolding tries_left
tries_left-pos [] o h = refl
tries_left-pos (x ∷ xs) o h = absurd (omega arith)

module _ ⦃h : Digest⦄ where
  attempts-IsGuarded :
      (s : DeviceRegistryStore) (list : List Attempt) → IsGuarded s → IsGuarded (attempts s list)
  unfolding attempts attempt
  attempts-IsGuarded s [] g = g
  attempts-IsGuarded s (a ∷ rest) g =
      attempts-IsGuarded (attempt s a) rest
        (redeem_pairing_session-IsGuarded a.os a.draws s a.code a.name a.now a.expires g)

  -- Where the guard on sessions holds and there is room for a device, five attempts or more with codes
  -- that no session has leave no pairing session, even if none of the writes succeeds.
  pub attempts_lock_out :
      (s : DeviceRegistryStore) (list : List Attempt)
      → IsGuarded s
      → length s.devices < s.device_limit
      → All (λ a. IsWrong s.pairing_sessions a.code) list
      → 5 ≤ length list
      → (attempts s list).pairing_sessions ≡ []
  attempts_lock_out s list g room wrong many =
      tries_left-pos (attempts s list).pairing_sessions (attempts-IsGuarded s list g).attempts_left
        (omega (
          arith,
          attempts-tries_left s list wrong room g.at_most_one,
          tries_left-le s.pairing_sessions,
          many,
        ))
