-- ===== src/Lifecycle/Drain.antt =====
-- Shutdown: nothing is admitted after the close, and Wait returns once all admitted work is released.
use timich_agent.Base.{
  ℕ, zero, suc, ◌<◌, ◌≤◌, ◌≡◌, refl, ◌≢◌, Bool, ◌&&◌, ◌==◌, true, false, none, some, List, [], ◌∷◌,
  length, length-set, get_elem?, set, arith, ◌∙◌,
}
use native.Mathlib.Decide.{ℕ_discrete}
use timich_agent.Lifecycle.{
  Group, acquire, leave, release, close_admission, cancel, wait, is_done, at_first, returned,
  completed, handle, unavailable, Event, acquires, closes, cancels, releases, step, run,
}
use timich_agent.Lifecycle.Admission.{held, Inv, step-Inv}

-- Admission is closed and no lease is held.
abbrev pub drained : Group → Bool
drained g = g.closed && held g.leases == 0

pub is_done-drained : (g : Group) → Inv g → is_done g ≡ drained g
is_done-drained g v = ground arith

held-set_le : (leases : List Bool) (i : ℕ) → held (set leases i true) ≤ held leases
unfolding held
held-set_le [] i = omega arith
held-set_le (true ∷ rest) zero = omega arith
held-set_le (false ∷ rest) zero = omega arith
held-set_le (true ∷ rest) (suc i) = held-set_le rest i
held-set_le (false ∷ rest) (suc i) = omega (arith, held-set_le rest i)

-- After the close every event leaves the group closed, hands out no lease, and never raises the number
-- of leases that are held.
pub closed_step :
    (g : Group) (e : Event)
    → Inv g
    → g.closed ≡ true
    → ((step g e).closed ≡ true)
      × (length (step g e).leases ≡ length g.leases)
      × (held (step g e).leases ≤ held g.leases)
unfolding step acquire release close_admission cancel leave
closed_step g acquires v c = ground arith
closed_step g closes v c = ground arith
closed_step g cancels v c = ground arith
closed_step g (releases lease) v c =
    ground (arith, length-set g.leases lease true, held-set_le g.leases lease)

closed_run :
    (g : Group) (es : List Event)
    → Inv g
    → g.closed ≡ true
    → ((run g es).closed ≡ true)
      × (length (run g es).leases ≡ length g.leases)
      × (held (run g es).leases ≤ held g.leases)
unfolding run
closed_run g [] v c = (c, refl, omega arith)
closed_run g (e ∷ es) v c =
    let (c', l, h) = closed_step g e v c in
    let (c2, l2, h2) = closed_run (step g e) es (step-Inv g e v) c' in
    (c2, omega arith, omega arith)

set_kept :
    (leases : List Bool) (i j : ℕ)
    → get_elem? leases j ≢ some false
    → get_elem? (set leases i true) j ≢ some false
set_kept [] i j h = h
set_kept (b ∷ rest) zero zero h = λ e. cc
set_kept (b ∷ rest) zero (suc j) h = h
set_kept (b ∷ rest) (suc i) zero h = h
set_kept (b ∷ rest) (suc i) (suc j) h = set_kept rest i j h

set_self : (leases : List Bool) (i : ℕ) → get_elem? (set leases i true) i ≢ some false
set_self [] i = λ e. cc
set_self (b ∷ rest) zero = λ e. cc
set_self (b ∷ rest) (suc i) = set_self rest i

release_kept :
    (g : Group) (i j : ℕ)
    → get_elem? g.leases j ≢ some false
    → get_elem? (release i g).leases j ≢ some false
unfolding release
release_kept g i j h = ground (arith, set_kept g.leases i j)

release_self : (g : Group) (i : ℕ) → get_elem? (release i g).leases i ≢ some false
unfolding release
release_self g i = ground (arith, set_self g.leases i)

-- The releases of the first `n` leases.
pub release_first : ℕ → Group → Group
release_first zero g = g
release_first (suc n) g = release n (release_first n g)

released_first :
    (n : ℕ) (g : Group) (j : ℕ) → j < n → get_elem? (release_first n g).leases j ≢ some false
unfolding release_first
released_first zero g j h = elim h [ ]
released_first (suc n) g j h = elim (ℕ_discrete j n) [
  | yes e ↦ rw e (release_self (release_first n g) n)
  | no e ↦ release_kept (release_first n g) n j (released_first n g j (omega arith))
]

release-closed :
    (g : Group) (i : ℕ)
    → Inv g
    → g.closed ≡ true
    → Inv (release i g)
      × ((release i g).closed ≡ true)
      × (length (release i g).leases ≡ length g.leases)
unfolding step
release-closed g i v c =
    let (c', l, h) = closed_step g (releases i) v c in (step-Inv g (releases i) v, c', l)

release_first-closed :
    (n : ℕ) (g : Group)
    → Inv g
    → g.closed ≡ true
    → Inv (release_first n g)
      × ((release_first n g).closed ≡ true)
      × (length (release_first n g).leases ≡ length g.leases)
unfolding release_first
release_first-closed zero g v c = (v, c, refl)
release_first-closed (suc n) g v c =
    let (v1, c1, l1) = release_first-closed n g v c in
    let (v2, c2, l2) = release-closed (release_first n g) n v1 c1 in (v2, c2, l2 ∙ l1)

held_none :
    (leases : List Bool)
    → ((j : ℕ) → j < length leases → get_elem? leases j ≢ some false)
    → held leases ≡ 0
unfolding held
held_none [] h = refl
held_none (true ∷ rest) h = held_none rest (λ j l. h (suc j) (omega arith))
held_none (false ∷ rest) h = absurd (h 0 (omega arith) refl)

-- In a group that has the invariant and is closed, once every lease that it handed out is released, a
-- call of Wait returns without an error at its first select, even where its caller's context has ended.
pub wait-release_first :
    (g : Group) (context_done takes_done : Bool)
    → Inv g
    → g.closed ≡ true
    → wait (release_first (length g.leases) g) context_done takes_done at_first ≡ returned completed
unfolding wait
wait-release_first g context_done takes_done v c =
    let n = length g.leases in
    let (v', c', l) = release_first-closed n g v c in
    let free =
      held_none (release_first n g).leases (λ j h. released_first n g j (omega (arith, l, h))) in
    ground (arith, is_done-drained (release_first n g) v', c', free)

-- In a group that has the invariant and is closed, whatever happens next, no further lease is handed out,
-- no more leases are held than before, and the next acquisition and the next request of the handler are
-- refused and change nothing.
pub closed_refuses :
    (g : Group) (es : List Event)
    → Inv g
    → g.closed ≡ true
    → let t = run g es in
      (length t.leases ≡ length g.leases)
      × (held t.leases ≤ held g.leases)
      × (acquire t ≡ (t, none))
      × (handle t ≡ (t, unavailable))
unfolding acquire handle
closed_refuses g es v c = let (c', l, h) = closed_run g es v c in (l, h, ground arith, ground arith)
