-- ===== src/Leases.antt =====
-- internal/webrtcmedia/authorization.go: sessions and the leases that authorize them. Each function is one
-- section under the manager's lock, so a run of the program is a sequence of such sections.
pub mod Terminal
pub mod Holders
pub mod Revoked
use timich_agent.Base.{
  ℕ, suc, ◌+◌, ◌-◌, ◌==◌, Bool, true, false, not, ◌&&◌, ◌||◌, Option, none, some, List, [], ◌∷◌,
  ◌++◌, length, get_elem?, set, ltb, if◌then◌else◌, Text, text_eq, is_empty, Result, ok, err,
  keep_if,
}

-- A time.Time with its two clocks. A section reads the clock once.
pub record Instant : Type 0 where
  pub wall : ℕ
  pub monotonic : ℕ

-- The expiry comes from a token, so it has a wall clock only.
pub record Authorization : Type 0 where
  pub agent_id : Text
  pub device_id : Text
  pub key_id : Text
  pub authority : Text
  pub issued_at : ℕ
  pub expires_at : ℕ

pub record LeaseScope : Type 0 where
  pub key : Text
  pub cancelled : Bool
  pub deadline : Option Instant
  pub refs : ℕ

-- `lease` is the place of the session's scope.
pub record Session : Type 0 where
  pub auth : Authorization
  pub active : Bool
  pub closed : Bool
  pub lease : Option ℕ

-- A session's name is its place in the list, as a UUID is new; `sessions[id]` is there until it is closed.
-- `scopes` has every scope that was made, and `leases` the map from keys to them.
pub record Manager : Type 0 where
  pub canceled : Bool
  pub sessions : List Session
  pub scopes : List LeaseScope
  pub leases : List (Text × ℕ)

pub data LeaseError : Type 0 where
  not_authorized manager_canceled : LeaseError

-- auth.Authority + "\x00" + auth.AgentID + "\x00" + auth.DeviceID
abbrev pub lease_key : Authorization → Text
lease_key a = a.authority ++ 0 ∷ a.agent_id ++ 0 ∷ a.device_id

abbrev pub lookup_lease : Text → List (Text × ℕ) → Option ℕ
lookup_lease key [] = none
lookup_lease key ((k, ref) ∷ rest) =
    let found = lookup_lease key rest in if text_eq k key then some ref else found

abbrev pub delete_lease : Text → List (Text × ℕ) → List (Text × ℕ)
delete_lease key leases = keep_if (λ e. not (text_eq e.0 key)) leases

-- `m.leases[scope.key] == scope`
abbrev pub is_current : ℕ → LeaseScope → Manager → Bool
is_current ref scope m = elim (lookup_lease scope.key m.leases) [ none ↦ false | some r ↦ r == ref ]

unfoldable pub lease_deadline_valid : Instant → Instant → Bool
lease_deadline_valid deadline now =
    ltb now.monotonic deadline.monotonic && ltb now.wall deadline.wall

abbrev pub is_scope_valid : Instant → LeaseScope → Bool
is_scope_valid now scope =
    not scope.cancelled
    && (elim scope.deadline [ none ↦ false | some d ↦ lease_deadline_valid d now ])

unfoldable pub authorized_locked : Instant → Manager → Session → Bool
authorized_locked now m s =
    not (s.closed || not (ltb now.wall s.auth.expires_at)) && (elim s.lease [
      | none ↦ true
      | some ref ↦ elim (get_elem? m.scopes ref) [
        | none ↦ false
        | some scope ↦ is_scope_valid now scope
      ]
    ])

abbrev pub add_session : Authorization → Option ℕ → Manager → Manager × Result LeaseError ℕ
add_session auth lease m = (
  record m {
    sessions =
        m.sessions ++ record { auth = auth; active = false; closed = false; lease = lease } ∷ [];
  },
  ok (length m.sessions),
)

-- The scope of a session with an authority: a new one, or the present one with one reference more.
abbrev pub join_scope : Authorization → Option ℕ → Manager → Manager × Result LeaseError ℕ
join_scope auth none m = add_session auth (some (length m.scopes)) (record m {
  scopes =
      m.scopes
      ++ record { key = lease_key auth; cancelled = false; deadline = none; refs = 1 } ∷ [];
  leases = m.leases ++ (lease_key auth, length m.scopes) ∷ [];
})
join_scope auth (some ref) m = add_session auth (some ref) (record m {
  scopes = elim (get_elem? m.scopes ref) [
    | none ↦ m.scopes
    | some scope ↦ set m.scopes ref (record scope { refs = scope.refs + 1 })
  ];
})

unfoldable pub prepare : Instant → Authorization → Manager → Manager × Result LeaseError ℕ
prepare now auth m =
    if is_empty auth.agent_id
      || (is_empty auth.device_id || (is_empty auth.key_id || not (ltb now.wall auth.expires_at)))
    then (m, err not_authorized)
    else if m.canceled
    then (m, err manager_canceled)
    else if is_empty auth.authority
    then add_session auth none m
    else join_scope auth (lookup_lease (lease_key auth) m.leases) m

abbrev pub activate_found :
    Instant → ℕ → Option Session → Manager → Manager × Result LeaseError (Unit {0})
activate_found now id none m = (m, err not_authorized)
activate_found now id (some s) m =
    if not (authorized_locked now m s)
    then (m, err not_authorized)
    else (record m { sessions = set m.sessions id (record s { active = true }) }, ok tt)

-- The end of the handling of an offer, in manager.go.
unfoldable pub activate : Instant → ℕ → Manager → Manager × Result LeaseError (Unit {0})
unfolding authorized_locked
activate now id m = activate_found now id (get_elem? m.sessions id) m

abbrev pub same_holder : Authorization → Authorization → Bool
same_holder a b =
    text_eq a.agent_id b.agent_id
    && (text_eq a.device_id b.device_id
        && (text_eq a.key_id b.key_id && text_eq a.authority b.authority))

abbrev pub reauthorize_session :
    Instant → ℕ → Authorization → Session → Manager → Manager × Result LeaseError (Unit {0})
reauthorize_session now id auth s m =
    if not (authorized_locked now m s)
      || (not s.active || (not (same_holder auth s.auth) || not (ltb now.wall auth.expires_at)))
    then (m, err not_authorized)
    else if ltb auth.issued_at s.auth.issued_at || not (ltb s.auth.expires_at auth.expires_at)
    then (m, ok tt)
    else (record m { sessions = set m.sessions id (record s { auth = auth }) }, ok tt)

abbrev pub reauthorize_found :
    Instant → ℕ → Authorization → Option Session → Manager → Manager × Result LeaseError (Unit {0})
reauthorize_found now id auth none m = (m, err not_authorized)
reauthorize_found now id auth (some s) m =
    if s.closed then (m, err not_authorized) else reauthorize_session now id auth s m

unfoldable pub reauthorize :
    Instant → ℕ → Authorization → Manager → Manager × Result LeaseError (Unit {0})
unfolding authorized_locked
reauthorize now id auth m = reauthorize_found now id auth (get_elem? m.sessions id) m

-- The last reference removes the scope from the map, if it is there, and cancels it.
abbrev pub leave_scope : ℕ → LeaseScope → Manager → Manager
leave_scope ref scope m =
    if scope.refs == 1
    then record m {
      scopes = set m.scopes ref (record scope { refs = scope.refs - 1; cancelled = true });
      leases = if is_current ref scope m then delete_lease scope.key m.leases else m.leases;
    }
    else record m { scopes = set m.scopes ref (record scope { refs = scope.refs - 1 }) }

abbrev pub leave_found : ℕ → Option LeaseScope → Manager → Manager
leave_found ref none m = m
leave_found ref (some scope) m = leave_scope ref scope m

abbrev pub leave_lease : Option ℕ → Manager → Manager
leave_lease none m = m
leave_lease (some ref) m = leave_found ref (get_elem? m.scopes ref) m

abbrev pub close_found : Instant → ℕ → Bool → Option Session → Manager → Manager
close_found now id expired_only none m = m
close_found now id expired_only (some s) m =
    if s.closed || (expired_only && authorized_locked now m s)
    then m
    else leave_lease s.lease
        (record m { sessions = set m.sessions id (record s { closed = true }) })

unfoldable pub close_session : Instant → ℕ → Bool → Manager → Manager
unfolding authorized_locked
close_session now id expired_only m = close_found now id expired_only (get_elem? m.sessions id) m

-- The locked section of expireLease; the sessions of the scope are closed after it.
abbrev pub expire_scope : Instant → ℕ → Bool → LeaseScope → Manager → Manager
expire_scope now ref force scope m =
    if not (is_current ref scope m)
      || (not force && (elim scope.deadline [ none ↦ false | some d ↦ lease_deadline_valid d now ]))
    then m
    else record m {
      scopes = set m.scopes ref (record scope { cancelled = true });
      leases = delete_lease scope.key m.leases;
    }

unfoldable pub expire_lease : Instant → ℕ → Bool → Manager → Manager
unfolding lease_deadline_valid
expire_lease now ref force m = elim (get_elem? m.scopes ref) [
  | none ↦ m
  | some scope ↦ expire_scope now ref force scope m
]

abbrev pub apply_scope : Instant → ℕ → Instant → LeaseScope → Manager → Manager
apply_scope now ref deadline scope m =
    if not (is_current ref scope m)
      || (scope.cancelled
          || (not (lease_deadline_valid deadline now) || (elim scope.deadline [
            | none ↦ false
            | some d ↦ not (lease_deadline_valid d now)
          ])))
    then m
    else record m { scopes = set m.scopes ref (record scope { deadline = some deadline }) }

unfoldable pub apply_lease : Instant → ℕ → Instant → Manager → Manager
unfolding lease_deadline_valid
apply_lease now ref deadline m = elim (get_elem? m.scopes ref) [
  | none ↦ m
  | some scope ↦ apply_scope now ref deadline scope m
]

-- A section with its arguments.
pub data Event : Type 0 where
  prepares : Authorization → Event
  activates : ℕ → Event
  reauthorizes : ℕ → Authorization → Event
  closes : ℕ → Bool → Event
  expires : ℕ → Bool → Event
  applies : ℕ → Instant → Event

unfoldable pub step : Instant → Event → Manager → Manager
unfolding prepare activate reauthorize close_session expire_lease apply_lease
step now (prepares auth) m = (prepare now auth m).0
step now (activates id) m = (activate now id m).0
step now (reauthorizes id auth) m = (reauthorize now id auth m).0
step now (closes id expired_only) m = close_session now id expired_only m
step now (expires ref force) m = expire_lease now ref force m
step now (applies ref deadline) m = apply_lease now ref deadline m

unfoldable pub run : List (Instant × Event) → Manager → Manager
unfolding step
run [] m = m
run ((now, e) ∷ events) m = run events (step now e m)

-- The loop of RevokeDevice under the lock: the names of the device's sessions, from a place on. Go ranges
-- over the map in any order; here the order is that of their creation.
abbrev pub sessions_from : ℕ → Text → List Session → List ℕ
sessions_from place device [] = []
sessions_from place device (s ∷ ss) =
    let rest = sessions_from (suc place) device ss in
    if not s.closed && text_eq s.auth.device_id device then place ∷ rest else rest

-- A call of RevokeDevice after that loop has released the lock: each closing of the second loop takes
-- the lock by itself, at an instant of its own, and other sections may run before and after it.
pub data Turn : Type 0 where
  next : Instant → Turn
  other : Instant → Event → Turn

-- The state of the manager and the names that the call has yet to close.
abbrev pub revoke_turn : Turn → Manager → List ℕ → Manager × List ℕ
revoke_turn (next now) m [] = (m, [])
revoke_turn (next now) m (id ∷ ids) = (close_session now id false m, ids)
revoke_turn (other now e) m ids = (step now e m, ids)

abbrev pub revoke_turns : List Turn → Manager → List ℕ → Manager × List ℕ
revoke_turns [] m ids = (m, ids)
revoke_turns (t ∷ ts) m ids = let (m', ids') = revoke_turn t m ids in revoke_turns ts m' ids'

unfoldable pub revoke_device : Text → List Turn → Manager → Manager × List ℕ
unfolding close_session step
revoke_device device turns m = revoke_turns turns m (sessions_from 0 device m.sessions)
