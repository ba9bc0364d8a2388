-- ===== src/Leases/Revoked.antt =====
-- The sessions of a revoked device.
use timich_agent.Base.{
  ℕ, zero, suc, ◌+◌, ◌==◌, ◌≡◌, refl, sym, subst, Bool, true, false, ◌||◌, Bool-cases, ◌⊎◌, inl,
  inr, ◌≤◌, length, some, List, [], ◌∷◌, get_elem?, set, arith, Text, text_eq, text_eq_complete,
}
use timich_agent.Leases.{
  Instant, Session, Manager, Event, closes, authorized_locked, close_found, close_session,
  sessions_from, Turn, next, other, revoke_turns, revoke_device, step, run,
}
use timich_agent.Leases.Holders.{run-Later, leave_lease-sessions}

get_elem?-set_here :
    (ss : List Session) (id : ℕ) (s new : Session)
    → get_elem? ss id ≡ some s
    → get_elem? (set ss id new) id ≡ some new
get_elem?-set_here [] id s new e = cc
get_elem?-set_here (x ∷ xs) zero s new e = refl
get_elem?-set_here (x ∷ xs) (suc id) s new e = get_elem?-set_here xs id s new e

-- At the place there is a session, and it is closed.
abbrev IsClosed : ℕ → Manager → Type 0
IsClosed id m = (s : Session) × (get_elem? m.sessions id ≡ some s) × (s.closed ≡ true)

close_found-IsClosed :
    (now : Instant) (id : ℕ) (s : Session) (m : Manager)
    → get_elem? m.sessions id ≡ some s
    → IsClosed id (close_found now id false (some s) m)
close_found-IsClosed now id s m e = elim (Bool-cases s.closed) [
  | inl shut ↦ (s, ground (arith, e, shut), shut)
  | inr live ↦ (
    record s { closed = true },
    ground (
      arith,
      live,
      leave_lease-sessions s.lease
          (record m { sessions = set m.sessions id (record s { closed = true }) }),
      get_elem?-set_here m.sessions id s (record s { closed = true }) e,
    ),
    refl,
  )
]

run-IsClosed :
    (events : List (Instant × Event)) (id : ℕ) (m : Manager)
    → IsClosed id m
    → IsClosed id (run events m)
run-IsClosed events id m (s, e, shut) =
    let (s', e', l) = run-Later events m id s e in
    (s', e', elim l.shut [ inl live ↦ ground (arith, shut, live) | inr still ↦ still ])

abbrev has_id : ℕ → List ℕ → Bool
has_id id [] = false
has_id id (x ∷ xs) = x == id || has_id id xs

sessions_from-has_id :
    (place : ℕ) (device : Text) (ss : List Session) (id : ℕ) (s : Session)
    → get_elem? ss id ≡ some s
    → s.closed ≡ false
    → text_eq s.auth.device_id device ≡ true
    → has_id (place + id) (sessions_from place device ss) ≡ true
sessions_from-has_id place device [] id s e live own = cc
sessions_from-has_id place device (x ∷ xs) zero s e live own = ground (arith, e, live, own)
sessions_from-has_id place device (x ∷ xs) (suc id) s e live own =
    ground (arith, sessions_from-has_id (suc place) device xs id s e live own)

-- The session is closed, or the call has yet to close it.
abbrev IsCovered : ℕ → Manager → List ℕ → Type 0
IsCovered id m ids =
    (s : Session) × (get_elem? m.sessions id ≡ some s)
    × ((s.closed ≡ true) ⊎ (has_id id ids ≡ true))

step-IsCovered :
    (now : Instant) (e : Event) (id : ℕ) (m : Manager) (ids : List ℕ)
    → IsCovered id m ids
    → IsCovered id (step now e m) ids
unfolding run
step-IsCovered now e id m ids (s, found, inl shut) =
    let (s', found', shut') = run-IsClosed ((now, e) ∷ []) id m (s, found, shut) in
    (s', found', inl shut')
step-IsCovered now e id m ids (s, found, inr named) =
    let (s', found', _) = run-Later ((now, e) ∷ []) m id s found in (s', found', inr named)

next-IsCovered :
    (now : Instant) (x id : ℕ) (m : Manager) (ids : List ℕ)
    → IsCovered id m (x ∷ ids)
    → IsCovered id (close_session now x false m) ids
unfolding close_session step
next-IsCovered now x id m ids (s, found, inl shut) =
    step-IsCovered now (closes x false) id m ids (s, found, inl shut)
next-IsCovered now x id m ids (s, found, inr named) = elim (Bool-cases (x == id)) [
  | inl here ↦
      let this : id ≡ x = ground (arith, here) in
      let found' : get_elem? m.sessions x ≡ some s =
        subst (λ y. get_elem? m.sessions y ≡ some s) this found in
      let (s', e', shut) : IsClosed x (close_found now x false (get_elem? m.sessions x) m) =
        subst (λ o. IsClosed x (close_found now x false o m)) (sym found')
          (close_found-IsClosed now x s m found') in
      subst (λ y. IsCovered y (close_session now x false m) ids) (sym this) (s', e', inl shut)
  | inr other_one ↦
      step-IsCovered now (closes x false) id m ids
        (s, found, inr (ground (arith, named, other_one)))
]

-- The closings among the turns.
abbrev pub closings : List Turn → ℕ
closings [] = 0
closings (next now ∷ ts) = suc (closings ts)
closings (other now e ∷ ts) = closings ts

revoke_turns-IsCovered :
    (ts : List Turn) (id : ℕ) (m : Manager) (ids : List ℕ)
    → IsCovered id m ids
    → let (m', ids') = revoke_turns ts m ids in IsCovered id m' ids'
revoke_turns-IsCovered [] id m ids c = c
revoke_turns-IsCovered (next now ∷ ts) id m [] c = revoke_turns-IsCovered ts id m [] c
revoke_turns-IsCovered (next now ∷ ts) id m (x ∷ ids) c =
    revoke_turns-IsCovered ts id (close_session now x false m) ids (next-IsCovered now x id m ids c)
revoke_turns-IsCovered (other now e ∷ ts) id m ids c =
    revoke_turns-IsCovered ts id (step now e m) ids (step-IsCovered now e id m ids c)

revoke_turns-returns :
    (ts : List Turn) (m : Manager) (ids : List ℕ)
    → length ids ≤ closings ts
    → (revoke_turns ts m ids).1 ≡ []
revoke_turns-returns [] m [] h = refl
revoke_turns-returns [] m (x ∷ ids) h = absurd (omega (arith, h))
revoke_turns-returns (next now ∷ ts) m [] h = revoke_turns-returns ts m [] (omega arith)
revoke_turns-returns (next now ∷ ts) m (x ∷ ids) h =
    revoke_turns-returns ts (close_session now x false m) ids (omega (arith, h))
revoke_turns-returns (other now e ∷ ts) m ids h = revoke_turns-returns ts (step now e m) ids h

-- RevokeDevice returns once it has made as many closings as the device had open sessions when it began.
-- Whatever other events came between and before its closings, and whatever events come after, every
-- session that the device had when the call began is then closed, and is not authorized at any time.
pub revoke_device-unauthorized :
    (device : Text) (turns : List Turn) (m : Manager) (id : ℕ) (s : Session)
    (events : List (Instant × Event)) (later : Instant)
    → get_elem? m.sessions id ≡ some s
    → s.auth.device_id ≡ device
    → length (sessions_from 0 device m.sessions) ≤ closings turns
    → let returned = revoke_device device turns m in
      (returned.1 ≡ [])
      × ((s' : Session) × (get_elem? (run events returned.0).sessions id ≡ some s')
          × (s'.closed ≡ true)
          × (authorized_locked later (run events returned.0) s' ≡ false))
unfolding revoke_device authorized_locked
revoke_device-unauthorized device turns m id s events later e own enough =
    let ids = sessions_from 0 device m.sessions in
    let none_left = revoke_turns-returns turns m ids enough in
    let covered : IsCovered id m ids = (
      s,
      e,
      elim (Bool-cases s.closed) [
        | inl already ↦ inl already
        | inr live ↦ inr (
            ground (
              arith,
              sessions_from-has_id 0 device m.sessions id s e live
                  (text_eq_complete s.auth.device_id device own),
            ))
      ],
    ) in
    let (s1, e1, why) = revoke_turns-IsCovered turns id m ids covered in
    let shut : s1.closed ≡ true = elim why [
      | inl closed ↦ closed
      | inr named ↦ ground (arith, none_left, named)
    ] in
    let (s', e', closed') =
      run-IsClosed events id (revoke_device device turns m).0 (s1, e1, shut) in
    (none_left, (s', e', closed', ground (arith, closed')))
