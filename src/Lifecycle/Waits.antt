-- ===== src/Lifecycle/Waits.antt =====
-- internal/lifecycle/group.go: a call of Wait, between whose steps the group's other functions run and
-- the caller's context may end.
use timich_agent.Base.{
  ◌≡◌, refl, Bool, true, false, ◌||◌, Bool-cases, inl, inr, List, [], ◌∷◌, arith,
}
use timich_agent.Lifecycle.{
  Group, Waiting, at_first, at_second, returned, completed, interrupted, is_done, wait, Event, step,
}
use timich_agent.Lifecycle.Admission.{held, Inv, step-Inv}
use timich_agent.Lifecycle.Drain.{drained, is_done-drained, closed_step}

pub record Shutdown : Type 0 where
  pub group : Group
  pub context_done : Bool
  pub call : Waiting

-- A function of the group, the end of the context, or a step of the call with the choice that its
-- second select makes where both of its cases are ready.
pub data Turn : Type 0 where
  happens : Event → Turn
  context_ends : Turn
  advances : Bool → Turn

abbrev pub turn : Turn → Shutdown → Shutdown
turn (happens e) s = record s { group = step s.group e }
turn context_ends s = record s { context_done = true }
turn (advances takes_done) s = record s { call = wait s.group s.context_done takes_done s.call }

abbrev pub run_turns : List Turn → Shutdown → Shutdown
run_turns [] s = s
run_turns (t ∷ ts) s = run_turns ts (turn t s)

abbrev pub begin : Group → Bool → Shutdown
begin g context_done = record { group = g; context_done = context_done; call = at_first }

-- What the call's return says of the group and of the context.
abbrev pub Justified : Waiting → Group → Bool → Type 0
Justified at_first g context_done = true ≡ true
Justified at_second g context_done = true ≡ true
Justified (returned completed) g context_done = (g.closed ≡ true) × (held g.leases ≡ 0)
Justified (returned interrupted) g context_done = context_done ≡ true

abbrev pub has_returned : Waiting → Bool
has_returned at_first = false
has_returned at_second = false
has_returned (returned r) = true

step-Justified :
    (w : Waiting) (g : Group) (context_done : Bool) (e : Event)
    → Inv g
    → Justified w g context_done
    → Justified w (step g e) context_done
step-Justified at_first g context_done e v j = refl
step-Justified at_second g context_done e v j = refl
step-Justified (returned completed) g context_done e v (c, none_held) =
    let (c', _, fewer) = closed_step g e v c in (c', omega arith)
step-Justified (returned interrupted) g context_done e v j = j

ends-Justified :
    (w : Waiting) (g : Group) (context_done : Bool)
    → Justified w g context_done
    → Justified w g true
ends-Justified at_first g context_done j = refl
ends-Justified at_second g context_done j = refl
ends-Justified (returned completed) g context_done j = j
ends-Justified (returned interrupted) g context_done j = refl

drained-parts : (g : Group) → drained g ≡ true → (g.closed ≡ true) × (held g.leases ≡ 0)
drained-parts g h = (ground (arith, h), ground (arith, h))

wait-Justified :
    (w : Waiting) (g : Group) (context_done takes_done : Bool)
    → Inv g
    → Justified w g context_done
    → Justified (wait g context_done takes_done w) g context_done
unfolding wait
wait-Justified at_first g context_done takes_done v j = elim (Bool-cases (is_done g)) [
  | inl done ↦ rw done (drained-parts g (ground (arith, is_done-drained g v, done)))
  | inr open_still ↦ rw open_still refl
]
wait-Justified at_second g true true v j = elim (Bool-cases (is_done g)) [
  | inl done ↦ rw done (drained-parts g (ground (arith, is_done-drained g v, done)))
  | inr open_still ↦ rw open_still refl
]
wait-Justified at_second g true false v j = elim (Bool-cases (is_done g)) [
  | inl done ↦ rw done refl
  | inr open_still ↦ rw open_still refl
]
wait-Justified at_second g false true v j = elim (Bool-cases (is_done g)) [
  | inl done ↦ rw done (drained-parts g (ground (arith, is_done-drained g v, done)))
  | inr open_still ↦ rw open_still refl
]
wait-Justified at_second g false false v j = elim (Bool-cases (is_done g)) [
  | inl done ↦ rw done (drained-parts g (ground (arith, is_done-drained g v, done)))
  | inr open_still ↦ rw open_still refl
]
wait-Justified (returned r) g context_done takes_done v j = j

run_turns-Justified :
    (ts : List Turn) (s : Shutdown)
    → Inv s.group
    → Justified s.call s.group s.context_done
    → let t = run_turns ts s in Inv t.group × Justified t.call t.group t.context_done
run_turns-Justified [] s v j = (v, j)
run_turns-Justified (happens e ∷ ts) s v j =
    run_turns-Justified ts (turn (happens e) s) (step-Inv s.group e v)
      (step-Justified s.call s.group s.context_done e v j)
run_turns-Justified (context_ends ∷ ts) s v j =
    run_turns-Justified ts (turn context_ends s) v (ends-Justified s.call s.group s.context_done j)
run_turns-Justified (advances takes_done ∷ ts) s v j =
    run_turns-Justified ts (turn (advances takes_done) s) v
      (wait-Justified s.call s.group s.context_done takes_done v j)

-- Two more steps end the call exactly when it has returned, or one of its channels is ready.
has_returned-wait :
    (w : Waiting) (g : Group) (context_done b b' : Bool)
    → Inv g
    → has_returned (wait g context_done b' (wait g context_done b w))
      ≡ (has_returned w || (drained g || context_done))
unfolding wait
has_returned-wait at_first g context_done b b' v = ground (arith, is_done-drained g v)
has_returned-wait at_second g context_done b b' v = ground (arith, is_done-drained g v)
has_returned-wait (returned r) g context_done b b' v = refl

-- From a group that has the invariant, whatever functions of the group run between the steps of a call of
-- Wait, whenever its context ends, and whatever its selects choose: once the call has returned without an
-- error, admission is closed and no lease is held, then and at every later time; where it has returned an
-- error, the context has ended; and two more steps of the call end it exactly when it has returned, or
-- admission is closed with no lease held, or the context has ended, so it blocks at no other time.
pub wait_turns-Justified :
    (turns : List Turn) (g : Group) (context_done b b' : Bool)
    → Inv g
    → let t = run_turns turns (begin g context_done) in
      Justified t.call t.group t.context_done
      × (has_returned (run_turns (advances b ∷ advances b' ∷ []) t).call
          ≡ (has_returned t.call || (drained t.group || t.context_done)))
wait_turns-Justified turns g context_done b b' v =
    let t = run_turns turns (begin g context_done) in
    let (v', j) = run_turns-Justified turns (begin g context_done) v refl in
    (j, has_returned-wait t.call t.group t.context_done b b' v')
