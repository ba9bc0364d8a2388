-- ===== src/Leases/Terminal.antt =====
-- A lease that has lapsed authorizes no session again.
use timich_agent.Base.{
  ℕ, zero, suc, ◌-◌, ◌==◌, ◌≤◌, ◌≡◌, refl, Bool, true, false, ◌&&◌, ◌||◌, Bool-cases, inl, inr,
  Option, Option-cases, none, some, List, [], ◌∷◌, ◌++◌, get_elem?, set, leb, arith,
}
use timich_agent.Leases.{
  Instant, Authorization, LeaseScope, Session, Manager, lookup_lease, lease_key,
  lease_deadline_valid, authorized_locked, join_scope, prepare, activate, reauthorize, leave_scope,
  leave_lease, close_session, expire_lease, apply_lease, Event, prepares, activates, reauthorizes,
  closes, expires, applies, step, run,
}

-- By the monotonic clock the deadline has passed, or the scope is cancelled.
abbrev pub has_lapsed : ℕ → LeaseScope → Bool
has_lapsed t scope =
    scope.cancelled || (elim scope.deadline [ none ↦ false | some d ↦ leb d.monotonic t ])

abbrev pub lapsed_at : ℕ → ℕ → List LeaseScope → Bool
lapsed_at t ref scopes = elim (get_elem? scopes ref) [
  | none ↦ false
  | some scope ↦ has_lapsed t scope
]

lapsed_at-snoc :
    (t ref : ℕ) (scopes : List LeaseScope) (scope : LeaseScope)
    → lapsed_at t ref scopes ≡ true
    → lapsed_at t ref (scopes ++ scope ∷ []) ≡ true
lapsed_at-snoc t ref [] scope h = cc
lapsed_at-snoc t zero (x ∷ xs) scope h = h
lapsed_at-snoc t (suc ref) (x ∷ xs) scope h = lapsed_at-snoc t ref xs scope h

-- A scope is replaced by one that has lapsed if it has.
lapsed_at-set :
    (t ref place : ℕ) (scopes : List LeaseScope) (old new : LeaseScope)
    → get_elem? scopes place ≡ some old
    → (has_lapsed t old ≡ true → has_lapsed t new ≡ true)
    → lapsed_at t ref scopes ≡ true
    → lapsed_at t ref (set scopes place new) ≡ true
lapsed_at-set t ref place [] old new e k h = cc
lapsed_at-set t zero zero (x ∷ xs) old new e k h = ground (arith, e, k, h)
lapsed_at-set t (suc ref) zero (x ∷ xs) old new e k h = h
lapsed_at-set t zero (suc place) (x ∷ xs) old new e k h = h
lapsed_at-set t (suc ref) (suc place) (x ∷ xs) old new e k h =
    lapsed_at-set t ref place xs old new e k h

module _ (t ref : ℕ) where
  -- The scope of the manager has lapsed.
  abbrev lapsed : Manager → Bool
  lapsed m = lapsed_at t ref m.scopes

  join_scope-lapsed :
      (auth : Authorization) (found : Option ℕ) (m : Manager)
      → lapsed m ≡ true
      → lapsed (join_scope auth found m).0 ≡ true
  join_scope-lapsed auth none m h = lapsed_at-snoc t ref m.scopes _ h
  join_scope-lapsed auth (some r) m h = elim (Option-cases (get_elem? m.scopes r)) [
    | inl e ↦ ground (arith, e, h)
    | inr (scope, e) ↦ rw e (lapsed_at-set t ref r m.scopes scope _ e (λ k. k) h)
  ]

  prepare-lapsed :
      (now : Instant) (auth : Authorization) (m : Manager)
      → lapsed m ≡ true
      → lapsed (prepare now auth m).0 ≡ true
  unfolding prepare
  prepare-lapsed now auth m h =
      ground (arith, h, join_scope-lapsed auth (lookup_lease (lease_key auth) m.leases) m h)

  activate-lapsed :
      (now : Instant) (id : ℕ) (m : Manager) → lapsed m ≡ true → lapsed (activate now id m).0 ≡ true
  unfolding activate
  activate-lapsed now id m h = ground (arith, h)

  reauthorize-lapsed :
      (now : Instant) (id : ℕ) (auth : Authorization) (m : Manager)
      → lapsed m ≡ true
      → lapsed (reauthorize now id auth m).0 ≡ true
  unfolding reauthorize
  reauthorize-lapsed now id auth m h = ground (arith, h)

  leave_scope-lapsed :
      (r : ℕ) (scope : LeaseScope) (m : Manager)
      → get_elem? m.scopes r ≡ some scope
      → lapsed m ≡ true
      → lapsed (leave_scope r scope m) ≡ true
  leave_scope-lapsed r scope m e h = elim (Bool-cases (scope.refs == 1)) [
    | inl last ↦ ground (
      arith,
      last,
      lapsed_at-set t ref r m.scopes scope
          (record scope { refs = scope.refs - 1; cancelled = true }) e (λ k. refl) h,
    )
    | inr more ↦ ground (
      arith,
      more,
      lapsed_at-set t ref r m.scopes scope (record scope { refs = scope.refs - 1 }) e (λ k. k) h,
    )
  ]

  leave_lease-lapsed :
      (lease : Option ℕ) (m : Manager) → lapsed m ≡ true → lapsed (leave_lease lease m) ≡ true
  leave_lease-lapsed none m h = h
  leave_lease-lapsed (some r) m h = elim (Option-cases (get_elem? m.scopes r)) [
    | inl e ↦ ground (arith, e, h)
    | inr (scope, e) ↦ ground (arith, e, leave_scope-lapsed r scope m e h)
  ]

  close_session-lapsed :
      (now : Instant) (id : ℕ) (expired_only : Bool) (m : Manager)
      → lapsed m ≡ true
      → lapsed (close_session now id expired_only m) ≡ true
  unfolding close_session
  close_session-lapsed now id expired_only m h = elim (Option-cases (get_elem? m.sessions id)) [
    | inl e ↦ ground (arith, e, h)
    | inr (s, e) ↦ ground (
      arith,
      e,
      h,
      leave_lease-lapsed s.lease
          (record m { sessions = set m.sessions id (record s { closed = true }) }) h,
    )
  ]

  expire_lease-lapsed :
      (now : Instant) (r : ℕ) (force : Bool) (m : Manager)
      → lapsed m ≡ true
      → lapsed (expire_lease now r force m) ≡ true
  unfolding expire_lease
  expire_lease-lapsed now r force m h = elim (Option-cases (get_elem? m.scopes r)) [
    | inl e ↦ ground (arith, e, h)
    | inr (scope, e) ↦ ground (
      arith,
      e,
      h,
      lapsed_at-set t ref r m.scopes scope (record scope { cancelled = true }) e (λ k. refl) h,
    )
  ]

  -- A deadline is not put off once it has passed.
  apply_lease-lapsed :
      (now : Instant) (r : ℕ) (deadline : Instant) (m : Manager)
      → t ≤ now.monotonic
      → lapsed m ≡ true
      → lapsed (apply_lease now r deadline m) ≡ true
  unfolding apply_lease lease_deadline_valid
  apply_lease-lapsed now r deadline m late h = elim (Option-cases (get_elem? m.scopes r)) [
    | inl e ↦ ground (arith, e, h)
    | inr (scope, e) ↦ elim (Bool-cases (has_lapsed t scope)) [
      | inl over ↦ ground (arith, e, h, late, over)
      | inr runs ↦ ground (
        arith,
        e,
        h,
        lapsed_at-set t ref r m.scopes scope (record scope { deadline = some deadline }) e
            (λ k. ground (arith, k, runs)) h,
      )
    ]
  ]

  step-lapsed :
      (now : Instant) (e : Event) (m : Manager)
      → t ≤ now.monotonic
      → lapsed m ≡ true
      → lapsed (step now e m) ≡ true
  unfolding step
  step-lapsed now (prepares auth) m late h = prepare-lapsed now auth m h
  step-lapsed now (activates id) m late h = activate-lapsed now id m h
  step-lapsed now (reauthorizes id auth) m late h = reauthorize-lapsed now id auth m h
  step-lapsed now (closes id expired_only) m late h = close_session-lapsed now id expired_only m h
  step-lapsed now (expires r force) m late h = expire_lease-lapsed now r force m h
  step-lapsed now (applies r deadline) m late h = apply_lease-lapsed now r deadline m late h

-- No event is before the time, by the monotonic clock.
abbrev pub all_after : ℕ → List (Instant × Event) → Bool
all_after t [] = true
all_after t ((now, e) ∷ events) = leb t now.monotonic && all_after t events

run-lapsed :
    (t ref : ℕ) (events : List (Instant × Event)) (m : Manager)
    → all_after t events ≡ true
    → lapsed_at t ref m.scopes ≡ true
    → lapsed_at t ref (run events m).scopes ≡ true
unfolding run
run-lapsed t ref [] m late h = h
run-lapsed t ref ((now, e) ∷ events) m late h =
    run-lapsed t ref events (step now e m) (ground (arith, late))
      (step-lapsed t ref now e m (ground (arith, late)) h)

lapsed-unauthorized :
    (t ref : ℕ) (now : Instant) (m : Manager) (s : Session)
    → t ≤ now.monotonic
    → s.lease ≡ some ref
    → lapsed_at t ref m.scopes ≡ true
    → authorized_locked now m s ≡ false
unfolding authorized_locked lease_deadline_valid
lapsed-unauthorized t ref now m s late e h = rw e (ground (arith, late, h))

-- Once a scope is cancelled or, by the monotonic clock, its deadline has passed, no session of the scope,
-- old or new, is authorized at any later time, whatever events come in between and whatever the wall clock
-- shows.
pub lapsed_lease_terminal :
    (t ref : ℕ) (events : List (Instant × Event)) (m : Manager) (now : Instant) (s : Session)
    → lapsed_at t ref m.scopes ≡ true
    → all_after t events ≡ true
    → t ≤ now.monotonic
    → s.lease ≡ some ref
    → authorized_locked now (run events m) s ≡ false
lapsed_lease_terminal t ref events m now s h late present e =
    lapsed-unauthorized t ref now (run events m) s present e (run-lapsed t ref events m late h)
