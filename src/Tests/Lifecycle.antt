-- ===== src/Tests/Lifecycle.antt =====
-- Runs of a lifecycle group.
use timich_agent.Base.{◌≡◌, refl, ◌||◌, subst, ◌≤◌, true, false, none, List, [], ◌∷◌, length}
use timich_agent.Lifecycle.{
  Group, new_group, acquire, close_admission, release, handle, unavailable, wait, at_first,
  returned, completed, leave, interrupted, Event, acquires, closes, releases, step, run,
}
use timich_agent.Lifecycle.Admission.{held, Inv, run-new_group-Inv}
use timich_agent.Lifecycle.Drain.{release_first, drained, wait-release_first, closed_refuses}
use timich_agent.Lifecycle.Waits.{
  Turn, happens, context_ends, advances, run_turns, begin, Justified, has_returned,
  wait_turns-Justified,
}

-- Two leases, the first released twice, and the close.
abbrev shutting : List Event
shutting = acquires ∷ acquires ∷ releases 0 ∷ closes ∷ releases 0 ∷ []

run-new_group-Inv_example : Inv (run new_group shutting)
run-new_group-Inv_example = run-new_group-Inv shutting

abbrev busy : Group
busy = record {
  closed = true;
  active = 1;
  done_closings = 0;
  cancelled = false;
  leases = true ∷ false ∷ [];
}

shutting_ends : run new_group shutting ≡ busy
unfolding run step new_group acquire release close_admission
shutting_ends = refl

busy-Inv : Inv busy
busy-Inv = subst Inv shutting_ends (run-new_group-Inv shutting)

-- The call passes its first select, the context ends, the last lease is released, and the second select,
-- with both of its cases ready, takes the context's.
abbrev waiting : List Turn
waiting = advances true ∷ advances true ∷ context_ends ∷ happens (releases 1) ∷ advances false ∷ []

waiting_interrupted : (run_turns waiting (begin busy false)).call ≡ returned interrupted
unfolding wait step release leave
waiting_interrupted = refl

waiting_completed :
    (run_turns
      (advances true ∷ context_ends ∷ happens (releases 1) ∷ advances true ∷ [])
      (begin busy false)).call
    ≡ returned completed
unfolding wait step release leave
waiting_completed = refl

wait_turns-Justified_example :
    let t = run_turns waiting (begin busy false) in
    Justified t.call t.group t.context_done
    × (has_returned (run_turns (advances true ∷ advances false ∷ []) t).call
        ≡ (has_returned t.call || (drained t.group || t.context_done)))
wait_turns-Justified_example = wait_turns-Justified waiting busy false true false busy-Inv

wait-release_first_example : wait (release_first 2 busy) true false at_first ≡ returned completed
wait-release_first_example = wait-release_first busy true false busy-Inv refl

closed_refuses_example :
    let t = run busy shutting in
    (length t.leases ≡ 2)
    × (held t.leases ≤ held busy.leases)
    × (acquire t ≡ (t, none))
    × (handle t ≡ (t, unavailable))
closed_refuses_example = closed_refuses busy shutting busy-Inv refl
