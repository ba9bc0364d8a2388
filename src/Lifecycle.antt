-- ===== src/Lifecycle.antt =====
-- internal/lifecycle/group.go: admission of work and its completion. Each function runs under the
-- group's lock, so a run of the program is a sequence of such steps; only the selects of Wait hold no
-- lock, and are steps of their own.
pub mod Admission
pub mod Drain
pub mod Waits
use timich_agent.Base.{
  ℕ, zero, suc, ◌+◌, ◌-◌, Bool, true, false, not, ◌&&◌, ◌||◌, Option, none, some, List, [], ◌∷◌,
  ◌++◌, length, get_elem?, set, ◌==◌, if◌then◌else◌,
}

-- `done_closings` counts the calls of `close(g.done)`; Go panics at the second. `leases` has an entry
-- for each release function handed out, which tells whether its `sync.OnceFunc` has run.
pub record Group : Type 0 where
  pub closed : Bool
  pub active : ℕ
  pub done_closings : ℕ
  pub cancelled : Bool
  pub leases : List Bool

-- The zero value.
unfoldable pub new_group : Group
new_group = record { closed = false; active = 0; done_closings = 0; cancelled = false; leases = [] }

-- Acquire: the lease's number, or `none` where admission is closed.
unfoldable pub acquire : Group → Group × Option ℕ
acquire g = if g.closed then (g, none) else (
  record g { active = g.active + 1; leases = g.leases ++ false ∷ [] },
  some (length g.leases),
)

-- The body of the function that Acquire returns, under the lock.
unfoldable pub leave : Group → Group
leave g =
    let left = record g { active = g.active - 1 } in
    if left.closed && left.active == 0
    then record left { done_closings = left.done_closings + 1 }
    else left

-- The lease at a place of the list; a function that has run before does nothing.
unfoldable pub release : ℕ → Group → Group
unfolding leave
release lease g = elim (get_elem? g.leases lease) [
  | none ↦ g
  | some spent ↦ if spent then g else leave (record g { leases = set g.leases lease true })
]

unfoldable pub close_admission : Group → Group
close_admission g =
    let shut = record g { closed = true } in
    if not g.closed
    then (if g.active == 0 then record shut { done_closings = shut.done_closings + 1 } else shut)
    else g

unfoldable pub cancel : Group → Group
cancel g = record g { cancelled = true }

pub data WaitResult : Type 0 where
  completed interrupted : WaitResult

-- A call of Wait: at the first of its two selects, at the second, or returned.
pub data Waiting : Type 0 where
  at_first at_second : Waiting
  returned : WaitResult → Waiting

-- `g.done` is closed.
abbrev pub is_done : Group → Bool
is_done g = not (g.done_closings == 0)

-- The next step of the call, where it blocks the call itself. `context_done` says whether the caller's
-- context has ended by then. Where both cases of the second select are ready, Go picks one at random:
-- `takes_done` is its choice.
unfoldable pub wait : Group → Bool → Bool → Waiting → Waiting
wait g context_done takes_done at_first = if is_done g then returned completed else at_second
wait g context_done takes_done at_second =
    if is_done g && (takes_done || not context_done)
    then returned completed
    else if context_done
    then returned interrupted
    else at_second
wait g context_done takes_done (returned r) = returned r

unfoldable pub pending : Group → ℕ
pending g = g.active

-- The answer of Handler: the wrapped handler, or 503.
pub data Response : Type 0 where
  served unavailable : Response

-- Handler around work that runs to its end before anything else happens.
unfoldable pub handle : Group → Group × Response
unfolding acquire release
handle g =
    let (h, lease) = acquire g in
    elim lease [ none ↦ (h, unavailable) | some n ↦ (release n h, served) ]

pub data Event : Type 0 where
  acquires closes cancels : Event
  releases : ℕ → Event

unfoldable pub step : Group → Event → Group
step g acquires = (acquire g).0
step g closes = close_admission g
step g cancels = cancel g
step g (releases lease) = release lease g

unfoldable pub run : Group → List Event → Group
run g [] = g
run g (e ∷ es) = run (step g e) es
