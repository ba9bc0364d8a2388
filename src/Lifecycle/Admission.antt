-- ===== src/Lifecycle/Admission.antt =====
-- The group's count is exact, and its channel is closed once, when the last work ends after the close.
use timich_agent.Base.{
  ℕ, zero, suc, ◌<◌, ◌≤◌, ◌≡◌, Bool, true, false, some, List, [], ◌∷◌, ◌++◌, get_elem?, set,
  if◌then◌else◌, arith,
}
use timich_agent.Lifecycle.{
  Group, new_group, acquire, release, close_admission, cancel, Event, acquires, closes, cancels,
  releases, step, run,
}

-- The leases whose release has not run.
unfoldable pub held : List Bool → ℕ
held [] = 0
held (spent ∷ rest) = if spent then held rest else suc (held rest)

held-append : (leases : List Bool) → held (leases ++ false ∷ []) ≡ suc (held leases)
unfolding held
held-append [] = omega arith
held-append (true ∷ rest) = held-append rest
held-append (false ∷ rest) = omega (arith, held-append rest)

held-set :
    (leases : List Bool) (i : ℕ)
    → get_elem? leases i ≡ some false
    → held leases ≡ suc (held (set leases i true))
unfolding held
held-set [] i e = cc
held-set (b ∷ rest) zero e = ground arith
held-set (true ∷ rest) (suc i) e = held-set rest i e
held-set (false ∷ rest) (suc i) e = omega (arith, held-set rest i e)

pub record Inv (g : Group) : Type 0 where
  pub counted : g.active ≡ held g.leases
  pub done_once : g.done_closings ≤ 1
  pub done_when_drained : 0 < g.done_closings → (g.closed ≡ true) × (g.active ≡ 0)
  pub drained_is_done : g.closed ≡ true → g.active ≡ 0 → 0 < g.done_closings

new_group-Inv : Inv new_group
unfolding new_group held
new_group-Inv = ground arith

acquire-Inv : (g : Group) → Inv g → Inv (acquire g).0
unfolding acquire
acquire-Inv g v = ground (arith, held-append g.leases)

release-Inv : (g : Group) (lease : ℕ) → Inv g → Inv (release lease g)
unfolding release
release-Inv g lease v = ground (arith, held-set g.leases lease)

close_admission-Inv : (g : Group) → Inv g → Inv (close_admission g)
unfolding close_admission
close_admission-Inv g v = ground arith

pub step-Inv : (g : Group) (e : Event) → Inv g → Inv (step g e)
unfolding step cancel
step-Inv g acquires v = acquire-Inv g v
step-Inv g closes v = close_admission-Inv g v
step-Inv g cancels v = ground arith
step-Inv g (releases lease) v = release-Inv g lease v

run-Inv : (g : Group) (es : List Event) → Inv g → Inv (run g es)
unfolding run
run-Inv g [] v = v
run-Inv g (e ∷ es) v = run-Inv (step g e) es (step-Inv g e v)

-- Over every sequence of acquisitions, releases (repeated ones too), closings and cancellations of a new
-- group, the count of active work is the number of leases not yet released, and the channel that Wait
-- reads is closed at most once: exactly when admission is closed and that number is 0.
pub run-new_group-Inv : (es : List Event) → Inv (run new_group es)
run-new_group-Inv es = run-Inv new_group es new_group-Inv
