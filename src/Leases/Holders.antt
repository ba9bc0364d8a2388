-- ===== src/Leases/Holders.antt =====
-- What the events do to a session.
use timich_agent.Base.{
  ℕ, zero, suc, ◌≤◌, ◌≡◌, refl, sym, subst, ◌∙◌, Bool, true, false, ◌&&◌, ◌||◌, Bool-cases, ◌⊎◌,
  inl, inr, Option, none, some, List, [], ◌∷◌, ◌++◌, get_elem?, set, ltb, arith, if◌then◌else◌,
  text_eq_sound,
}
use mathlib.Core.Option.{some-injective}
use timich_agent.Leases.{
  Instant, Authorization, LeaseScope, Session, Manager, authorized_locked, add_session, join_scope,
  prepare, activate, same_holder, activate_found, reauthorize_found, leave_found,
  reauthorize_session, reauthorize, leave_lease, close_found, close_session, expire_lease,
  apply_lease, Event, prepares, activates, reauthorizes, closes, expires, applies, step, run,
}

-- What a session may become: once closed it stays closed, its token's expiry is not brought forward, and it
-- keeps its holder and its lease.
pub record Later (s s' : Session) : Type 0 where
  pub shut : (s.closed ≡ false) ⊎ (s'.closed ≡ true)
  pub expiry : s.auth.expires_at ≤ s'.auth.expires_at
  pub device : s'.auth.device_id ≡ s.auth.device_id
  pub agent : s'.auth.agent_id ≡ s.auth.agent_id
  pub lease : s'.lease ≡ s.lease

pub Later-same : (s : Session) → Later s s
Later-same s = record {
  shut = elim (Bool-cases s.closed) [ inl e ↦ inr e | inr e ↦ inl e ];
  expiry = omega arith;
  device = refl;
  agent = refl;
  lease = refl;
}

pub Later-then : (s s' s'' : Session) → Later s s' → Later s' s'' → Later s s''
Later-then s s' s'' a b = record {
  shut = elim a.shut [
    | inl e ↦ inl e
    | inr e ↦ elim b.shut [ inl f ↦ ground (arith, e, f) | inr f ↦ inr f ]
  ];
  expiry = omega (arith, a.expiry, b.expiry);
  device = b.device ∙ a.device;
  agent = b.agent ∙ a.agent;
  lease = b.lease ∙ a.lease;
}

-- Every session of a list has become one of another list, at the same place.
pub Become : List Session → List Session → Type 0
Become ss ss' =
    (id : ℕ) (s : Session)
    → get_elem? ss id ≡ some s
    → (s' : Session) × (get_elem? ss' id ≡ some s') × Later s s'

Become-same : (ss : List Session) → Become ss ss
unfolding Become
Become-same ss id s e = (s, e, Later-same s)

pub Become-then : (a b c : List Session) → Become a b → Become b c → Become a c
unfolding Become
Become-then a b c f g id s e =
    let (s', e', l) = f id s e in
    let (s'', e'', l') = g id s' e' in (s'', e'', Later-then s s' s'' l l')

Become-snoc : (ss : List Session) (new : Session) → Become ss (ss ++ new ∷ [])
unfolding Become
Become-snoc [] new id s e = cc
Become-snoc (x ∷ xs) new zero s e = (s, e, Later-same s)
Become-snoc (x ∷ xs) new (suc id) s e = Become-snoc xs new id s e

Become-set :
    (ss : List Session) (place : ℕ) (old new : Session)
    → get_elem? ss place ≡ some old
    → Later old new
    → Become ss (set ss place new)
unfolding Become
Become-set [] place old new e l id s h = cc
Become-set (x ∷ xs) zero old new e l zero s h =
    (new, refl, subst (λ y. Later y new) (some-injective old s (sym e ∙ h)) l)
Become-set (x ∷ xs) zero old new e l (suc id) s h = (s, h, Later-same s)
Become-set (x ∷ xs) (suc place) old new e l zero s h = (s, h, Later-same s)
Become-set (x ∷ xs) (suc place) old new e l (suc id) s h = Become-set xs place old new e l id s h

join_scope-Become :
    (auth : Authorization) (found : Option ℕ) (m : Manager)
    → Become m.sessions (join_scope auth found m).0.sessions
join_scope-Become auth none m = Become-snoc m.sessions _
join_scope-Become auth (some r) m = Become-snoc m.sessions _

-- The same of what a function returns.
Gives : {R : Type 0} → List Session → Manager × R → Type 0
Gives ss x = Become ss x.0.sessions

module _ {R : Type 0} where
  gives : (ss : List Session) (x : Manager × R) → Become ss x.0.sessions → Gives ss x
  unfolding Gives
  gives ss x h = h

  given : (ss : List Session) (x : Manager × R) → Gives ss x → Become ss x.0.sessions
  unfolding Gives
  given ss x h = h

  if-Gives :
      (ss : List Session) (b : Bool) (x y : Manager × R)
      → Gives ss x
      → Gives ss y
      → Gives ss (if b then x else y)
  if-Gives ss true x y bx by_y = bx
  if-Gives ss false x y bx by_y = by_y

same-Gives : {R : Type 0} (m : Manager) (r : R) → Gives m.sessions (m, r)
same-Gives m r = gives _ _ (Become-same m.sessions)

add_session-Gives :
    (auth : Authorization) (lease : Option ℕ) (m : Manager)
    → Gives m.sessions (add_session auth lease m)
add_session-Gives auth lease m = gives _ _ (Become-snoc m.sessions _)

join_scope-Gives :
    (auth : Authorization) (found : Option ℕ) (m : Manager)
    → Gives m.sessions (join_scope auth found m)
join_scope-Gives auth found m = gives _ _ (join_scope-Become auth found m)

prepare-Gives :
    (now : Instant) (auth : Authorization) (m : Manager) → Gives m.sessions (prepare now auth m)
unfolding prepare
prepare-Gives now auth m = search (if-Gives, same-Gives, add_session-Gives, join_scope-Gives)

set-Gives :
    {R : Type 0} (m : Manager) (id : ℕ) (old new : Session) (r : R)
    → get_elem? m.sessions id ≡ some old
    → Later old new
    → Gives m.sessions (record m { sessions = set m.sessions id new }, r)
set-Gives m id old new r e l = gives _ _ (Become-set m.sessions id old new e l)

activated-Later : (s : Session) → Later s (record s { active = true })
activated-Later s = record {
  shut = (Later-same s).shut;
  expiry = omega arith;
  device = refl;
  agent = refl;
  lease = refl;
}

activate_found-Gives :
    (now : Instant) (id : ℕ) (o : Option Session) (m : Manager)
    → get_elem? m.sessions id ≡ o
    → Gives m.sessions (activate_found now id o m)
activate_found-Gives now id none m e = same-Gives m _
activate_found-Gives now id (some s) m e = search (if-Gives, same-Gives, set-Gives, activated-Later)

reauthorized-Later :
    (auth : Authorization) (s : Session)
    → same_holder auth s.auth ≡ true
    → ltb s.auth.expires_at auth.expires_at ≡ true
    → Later s (record s { auth = auth })
reauthorized-Later auth s holder later = record {
  shut = (Later-same s).shut;
  expiry = ground (arith, later);
  device = text_eq_sound auth.device_id s.auth.device_id (ground (arith, holder));
  agent = text_eq_sound auth.agent_id s.auth.agent_id (ground (arith, holder));
  lease = refl;
}

reauthorize_session-same :
    (now : Instant) (id : ℕ) (auth : Authorization) (s : Session) (m : Manager)
    → (same_holder auth s.auth && ltb s.auth.expires_at auth.expires_at) ≡ false
    → (reauthorize_session now id auth s m).0.sessions ≡ m.sessions
reauthorize_session-same now id auth s m h = ground (arith, h)

reauthorize_session-Gives :
    (now : Instant) (id : ℕ) (auth : Authorization) (s : Session) (m : Manager)
    → get_elem? m.sessions id ≡ some s
    → Gives m.sessions (reauthorize_session now id auth s m)
reauthorize_session-Gives now id auth s m e =
    elim (Bool-cases (same_holder auth s.auth && ltb s.auth.expires_at auth.expires_at)) [
      | inl both ↦
          let later = reauthorized-Later auth s (ground (arith, both)) (ground (arith, both)) in
          search (if-Gives, same-Gives, set-Gives)
      | inr refused ↦ gives _ _ (
          subst (λ ss. Become m.sessions ss)
            (sym (reauthorize_session-same now id auth s m refused)) (Become-same m.sessions))
    ]

reauthorize_found-Gives :
    (now : Instant) (id : ℕ) (auth : Authorization) (o : Option Session) (m : Manager)
    → get_elem? m.sessions id ≡ o
    → Gives m.sessions (reauthorize_found now id auth o m)
reauthorize_found-Gives now id auth none m e = gives _ _ (Become-same m.sessions)
reauthorize_found-Gives now id auth (some s) m e =
    search (if-Gives, same-Gives, reauthorize_session-Gives)

pub leave_lease-sessions :
    (lease : Option ℕ) (m : Manager) → (leave_lease lease m).sessions ≡ m.sessions
leave_lease-sessions none m = refl
leave_lease-sessions (some r) m = go (get_elem? m.scopes r)
  where
    go : (o : Option LeaseScope) → (leave_found r o m).sessions ≡ m.sessions
    go none = refl
    go (some scope) = ground arith

pub close_found-Become :
    (now : Instant) (id : ℕ) (expired_only : Bool) (o : Option Session) (m : Manager)
    → get_elem? m.sessions id ≡ o
    → Become m.sessions (close_found now id expired_only o m).sessions
close_found-Become now id expired_only none m e = Become-same m.sessions
close_found-Become now id expired_only (some s) m e =
    go (s.closed || (expired_only && authorized_locked now m s))
  where
    go :
        (b : Bool)
        → Become m.sessions
            (if b
              then m
              else leave_lease s.lease
                  (record m { sessions = set m.sessions id (record s { closed = true }) })).sessions
    go true = Become-same m.sessions
    go false =
        subst (λ ss. Become m.sessions ss)
          (sym (
            leave_lease-sessions s.lease
              (record m { sessions = set m.sessions id (record s { closed = true }) })))
          (Become-set m.sessions id s _ e (record {
            shut = inr refl;
            expiry = omega arith;
            device = refl;
            agent = refl;
            lease = refl;
          }))

expire_lease-sessions :
    (now : Instant) (r : ℕ) (force : Bool) (m : Manager)
    → (expire_lease now r force m).sessions ≡ m.sessions
unfolding expire_lease
expire_lease-sessions now r force m = ground arith

apply_lease-sessions :
    (now : Instant) (r : ℕ) (deadline : Instant) (m : Manager)
    → (apply_lease now r deadline m).sessions ≡ m.sessions
unfolding apply_lease
apply_lease-sessions now r deadline m = ground arith

pub step-Become :
    (now : Instant) (e : Event) (m : Manager) → Become m.sessions (step now e m).sessions
unfolding step activate reauthorize close_session
step-Become now (prepares auth) m = given _ _ (prepare-Gives now auth m)
step-Become now (activates id) m = given _ _ (activate_found-Gives now id _ m refl)
step-Become now (reauthorizes id auth) m = given _ _ (reauthorize_found-Gives now id auth _ m refl)
step-Become now (closes id expired_only) m = close_found-Become now id expired_only _ m refl
step-Become now (expires r force) m =
    subst (λ ss. Become m.sessions ss) (sym (expire_lease-sessions now r force m))
      (Become-same m.sessions)
step-Become now (applies r deadline) m =
    subst (λ ss. Become m.sessions ss) (sym (apply_lease-sessions now r deadline m))
      (Become-same m.sessions)

pub run-Become :
    (events : List (Instant × Event)) (m : Manager) → Become m.sessions (run events m).sessions
unfolding run
run-Become [] m = Become-same m.sessions
run-Become ((now, e) ∷ events) m =
    Become-then m.sessions (step now e m).sessions (run events (step now e m)).sessions
      (step-Become now e m) (run-Become events (step now e m))

-- Through any events a session, once closed, stays closed, its token's expiry is never brought forward, and
-- it keeps its device, its agent and its lease.
pub run-Later :
    (events : List (Instant × Event)) (m : Manager) (id : ℕ) (s : Session)
    → get_elem? m.sessions id ≡ some s
    → (s' : Session) × (get_elem? (run events m).sessions id ≡ some s') × Later s s'
unfolding Become
run-Later events m id s e = run-Become events m id s e
