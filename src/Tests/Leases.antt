-- ===== src/Tests/Leases.antt =====
-- Runs of the leases on concrete inputs.
use timich_agent.Base.{
  ℕ, ◌≡◌, ◌≤◌, length, refl, Bool, true, false, some, ◌+◌, List, [], ◌∷◌, codes, get_elem?, arith,
  text_eq,
}
use timich_agent.Leases.{
  Instant, Authorization, Session, Manager, authorized_locked, lease_deadline_valid, prepare,
  activate, apply_lease, revoke_device, sessions_from, Turn, next, other, Event, prepares,
  activates, reauthorizes, closes, applies, step, run,
}
use timich_agent.Leases.Terminal.{lapsed_at, lapsed_lease_terminal}
use timich_agent.Leases.Revoked.{closings, revoke_device-unauthorized}
use timich_agent.Leases.Holders.{Later, run-Later}

abbrev new_manager : Manager
new_manager = record { canceled = false; sessions = []; scopes = []; leases = [] }

abbrev at : ℕ → Instant
at t = record { wall = 1000 + t; monotonic = t }

abbrev auth_until : ℕ → Authorization
auth_until t = record {
  agent_id = codes "g";
  device_id = codes "d";
  key_id = codes "k";
  authority = codes "a";
  issued_at = 1;
  expires_at = t;
}

-- A session of a scope whose lease lasts until 20.
abbrev leased : Manager
leased =
    run ((at 1, prepares (auth_until 5000)) ∷ (at 2, applies 0 (at 20)) ∷ (at 3, activates 0) ∷ [])
      new_manager

abbrev session : Bool → Session
session closed = record { auth = auth_until 5000; active = true; closed = closed; lease = some 0 }

leased_session : get_elem? leased.sessions 0 ≡ some (session false)
unfolding run step prepare activate apply_lease authorized_locked lease_deadline_valid text_eq
leased_session = refl

is_authorized : authorized_locked (at 10) leased (session false) ≡ true
unfolding run step prepare activate apply_lease authorized_locked lease_deadline_valid text_eq
is_authorized = refl

lapsed_at_20 : lapsed_at 20 0 leased.scopes ≡ true
unfolding run step prepare activate apply_lease authorized_locked lease_deadline_valid text_eq
lapsed_at_20 = refl

abbrev late_events : List (Instant × Event)
late_events =
    (at 21, applies 0 (at 90))
    ∷ (at 22, prepares (auth_until 6000))
    ∷ (at 23, reauthorizes 0 (auth_until 6000))
    ∷ (at 24, closes 0 true)
    ∷ []

lapsed_lease_terminal_example :
    authorized_locked (record { wall = 1; monotonic = 30 }) (run late_events leased) (session false)
    ≡ false
lapsed_lease_terminal_example =
    lapsed_lease_terminal 20 0 late_events leased (record { wall = 1; monotonic = 30 })
      (session false) lapsed_at_20 refl (omega arith) refl

run-Later_example :
    (s' : Session) × (get_elem? (run late_events leased).sessions 0 ≡ some s')
    × Later (session false) s'
run-Later_example = run-Later late_events leased 0 (session false) leased_session

-- The one closing of the call, between two other sections.
abbrev revoking : List Turn
revoking = other (at 4) (applies 0 (at 25)) ∷ next (at 5) ∷ other (at 5) (activates 0) ∷ []

one_session : length (sessions_from 0 (codes "d") leased.sessions) ≤ closings revoking
unfolding run step prepare activate apply_lease authorized_locked lease_deadline_valid text_eq
one_session = omega arith

revoke_device-unauthorized_example :
    let returned = revoke_device (codes "d") revoking leased in
    (returned.1 ≡ [])
    × ((s' : Session) × (get_elem? (run late_events returned.0).sessions 0 ≡ some s')
        × (s'.closed ≡ true)
        × (authorized_locked (at 6) (run late_events returned.0) s' ≡ false))
revoke_device-unauthorized_example =
    revoke_device-unauthorized (codes "d") revoking leased 0 (session false) late_events (at 6)
      leased_session refl one_session
