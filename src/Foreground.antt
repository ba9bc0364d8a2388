-- ===== src/Foreground.antt =====
-- internal/runtime/foreground_activity.go: the gate between foreground requests and background work.
-- A run is a sequence of the atomic operations of the goroutines and of the sections under the lock.
pub mod Quiet
use timich_agent.Base.{
  ℕ, ◌+◌, ◌-◌, Bool, true, false, not, ◌&&◌, ◌||◌, Option, none, some, List, [], ◌∷◌, ◌++◌, map,
  ltb, ◌==◌, if◌then◌else◌, get_elem?, set,
}

-- Where a request is: after the store of its time; after `active.Add(1)`; after the section under the
-- lock, while it calls what it took; after begin; and in the function that begin returned.
pub data Stage : Type 0 where
  noted counted sweeping running leaving ended : Stage

-- A background context: its cancel function stands in the map; its own release has deleted it from the
-- map; it was called; or a request has taken it from the map.
pub data Background : Type 0 where
  registered released cancelled : Background
  taken : ℕ → Background

-- `active` is never below 0: each request subtracts after it added.
pub record Gate : Type 0 where
  pub active : ℕ
  pub last_activity : ℕ
  pub quiet_period : ℕ
  pub requests : List Stage
  pub contexts : List Background

unfoldable pub new_gate : ℕ → Gate
new_gate quiet = record {
  active = 0;
  last_activity = 0;
  quiet_period = quiet;
  requests = [];
  contexts = [];
}

abbrev pub default_quiet_period : ℕ
default_quiet_period = 500_000_000

unfoldable pub note : ℕ → Gate → Gate
note now g = record g { last_activity = now; requests = g.requests ++ noted ∷ [] }

unfoldable pub count : ℕ → Gate → Gate
count k g = elim (get_elem? g.requests k) [
  | some noted ↦ record g { active = g.active + 1; requests = set g.requests k counted }
  | _ ↦ g
]

abbrev pub take_from : ℕ → Background → Background
take_from k registered = taken k
take_from k released = released
take_from k cancelled = cancelled
take_from k (taken j) = taken j

-- The section of begin under the lock: every cancel function leaves the map.
unfoldable pub sweep : ℕ → Gate → Gate
sweep k g = elim (get_elem? g.requests k) [
  | some counted ↦ record g {
    requests = set g.requests k sweeping;
    contexts = map (take_from k) g.contexts;
  }
  | _ ↦ g
]

-- One round of the loop that calls the cancel functions.
unfoldable pub call_cancel : ℕ → ℕ → Gate → Gate
call_cancel k i g = elim (get_elem? g.contexts i) [
  | some (taken j) ↦ if j == k then record g { contexts = set g.contexts i cancelled } else g
  | _ ↦ g
]

abbrev pub holds : ℕ → Background → Bool
holds k (taken j) = j == k
holds k _ = false

unfoldable pub holds_any : ℕ → List Background → Bool
holds_any k [] = false
holds_any k (b ∷ bs) = holds k b || holds_any k bs

-- begin returns once the loop is through.
unfoldable pub begun : ℕ → Gate → Gate
unfolding holds_any
begun k g = elim (get_elem? g.requests k) [
  | some sweeping ↦
      if holds_any k g.contexts then g else record g { requests = set g.requests k running }
  | _ ↦ g
]

-- The two operations of the function that begin returned, which runs once.
unfoldable pub leave : ℕ → ℕ → Gate → Gate
leave k now g = elim (get_elem? g.requests k) [
  | some running ↦ record g { last_activity = now; requests = set g.requests k leaving }
  | _ ↦ g
]

unfoldable pub depart : ℕ → Gate → Gate
depart k g = elim (get_elem? g.requests k) [
  | some leaving ↦ record g { active = g.active - 1; requests = set g.requests k ended }
  | _ ↦ g
]

abbrev pub quiet_period_of : Gate → ℕ
quiet_period_of g = if g.quiet_period == 0 then default_quiet_period else g.quiet_period

-- The section of beginCancelableBackground under the lock, at its load of `active`; `last` is the time of
-- the last activity that it has loaded before.
unfoldable pub admit : ℕ → ℕ → Gate → Gate
admit last now g =
    if ltb 0 g.active || (not (last == 0) && ltb (now - last) (quiet_period_of g))
    then g
    else record g { contexts = g.contexts ++ registered ∷ [] }

-- The two operations of the function that beginCancelableBackground returned: the deletion from the map
-- under the lock, and the call of the cancel function, which may come once the context is out of the map.
unfoldable pub unregister : ℕ → Gate → Gate
unregister i g = elim (get_elem? g.contexts i) [
  | some registered ↦ record g { contexts = set g.contexts i released }
  | _ ↦ g
]

unfoldable pub release : ℕ → Gate → Gate
release i g = elim (get_elem? g.contexts i) [
  | some registered ↦ g
  | _ ↦ record g { contexts = set g.contexts i cancelled }
]

pub data Event : Type 0 where
  notes : ℕ → Event
  counts sweeps begins departs unregisters releases : ℕ → Event
  cancels leaves admits : ℕ → ℕ → Event

unfoldable pub step : Gate → Event → Gate
step g (notes now) = note now g
step g (counts k) = count k g
step g (sweeps k) = sweep k g
step g (cancels k i) = call_cancel k i g
step g (begins k) = begun k g
step g (leaves k now) = leave k now g
step g (departs k) = depart k g
step g (admits last now) = admit last now g
step g (unregisters i) = unregister i g
step g (releases i) = release i g

unfoldable pub run : Gate → List Event → Gate
run g [] = g
run g (e ∷ es) = run (step g e) es
