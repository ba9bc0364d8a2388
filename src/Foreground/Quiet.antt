-- ===== src/Foreground/Quiet.antt =====
-- No background context outlives the begin of a request.
use timich_agent.Base.{
  ℕ, zero, suc, ◌+◌, ◌-◌, ◌<◌, ◌≤◌, ◌≡◌, ◌≢◌, ◌⊎◌, refl, sym, ◌∙◌, false, not, Option-cases,
  Bool-cases, inl, inr, some, List, [], ◌∷◌, ◌++◌, map, get_elem?, set, All, All-append, All-set,
  All-imp, All-get_elem?, arith, ◌==◌, ltb, ◌&&◌, ◌||◌,
}
use timich_agent.Foreground.{
  Stage, noted, counted, sweeping, running, leaving, ended, Background, registered, released,
  cancelled, taken, Gate, new_gate, note, count, take_from, sweep, call_cancel, holds, holds_any,
  begun, leave, depart, admit, unregister, release, Event, notes, counts, sweeps, begins, departs,
  unregisters, releases, cancels, leaves, admits, quiet_period_of, step, run,
}

-- Whether a request is counted in `active`, and whether it has swept the map.
abbrev pub in_flight : Stage → ℕ
in_flight noted = 0
in_flight ended = 0
in_flight _ = 1

abbrev pub has_swept : Stage → ℕ
has_swept noted = 0
has_swept counted = 0
has_swept ended = 0
has_swept _ = 1

abbrev pub total : (Stage → ℕ) → List Stage → ℕ
total w [] = 0
total w (x ∷ xs) = w x + total w xs

total-append :
    (w : Stage → ℕ) (xs : List Stage) (x : Stage) → total w (xs ++ x ∷ []) ≡ total w xs + w x
total-append w [] x = omega arith
total-append w (y ∷ xs) x = omega (arith, total-append w xs x)

total-set :
    (w : Stage → ℕ) (xs : List Stage) (k : ℕ) (x y : Stage)
    → get_elem? xs k ≡ some x
    → total w (set xs k y) + w x ≡ total w xs + w y
total-set w [] k x y e = cc
total-set w (z ∷ xs) zero x y e = let same : z ≡ x = ground arith in rw same (omega arith)
total-set w (z ∷ xs) (suc k) x y e = omega (arith, total-set w xs k x y e)

total-le : (xs : List Stage) → total has_swept xs ≤ total in_flight xs
total-le [] = omega arith
total-le (noted ∷ xs) = omega (arith, total-le xs)
total-le (counted ∷ xs) = omega (arith, total-le xs)
total-le (sweeping ∷ xs) = omega (arith, total-le xs)
total-le (running ∷ xs) = omega (arith, total-le xs)
total-le (leaving ∷ xs) = omega (arith, total-le xs)
total-le (ended ∷ xs) = omega (arith, total-le xs)

abbrev pub IsOff : Background → Type 0
IsOff b = b ≢ registered

-- A context that was taken from the map belongs to a request that is calling cancel functions.
abbrev pub IsOwned : List Stage → Background → Type 0
IsOwned requests registered = Unit
IsOwned requests released = Unit
IsOwned requests cancelled = Unit
IsOwned requests (taken k) = get_elem? requests k ≡ some sweeping

pub record Inv (g : Gate) : Type 0 where
  pub active_exact : g.active ≡ total in_flight g.requests
  pub swept_off : 0 < total has_swept g.requests → All IsOff g.contexts
  pub owned : All (IsOwned g.requests) g.contexts

get_elem?-set_other :
    (xs : List Stage) (k j : ℕ) (y : Stage) → j ≢ k → get_elem? (set xs k y) j ≡ get_elem? xs j
get_elem?-set_other [] k j y n = refl
get_elem?-set_other (x ∷ xs) zero zero y n = absurd (n refl)
get_elem?-set_other (x ∷ xs) zero (suc j) y n = refl
get_elem?-set_other (x ∷ xs) (suc k) zero y n = refl
get_elem?-set_other (x ∷ xs) (suc k) (suc j) y n =
    get_elem?-set_other xs k j y (λ e. n (omega arith))

get_elem?-set_same :
    (xs : List Stage) (k : ℕ) (x y : Stage)
    → get_elem? xs k ≡ some x
    → get_elem? (set xs k y) k ≡ some y
get_elem?-set_same [] k x y e = cc
get_elem?-set_same (z ∷ xs) zero x y e = refl
get_elem?-set_same (z ∷ xs) (suc k) x y e = get_elem?-set_same xs k x y e

get_elem?-append :
    (xs : List Stage) (j : ℕ) (x y : Stage)
    → get_elem? xs j ≡ some x
    → get_elem? (xs ++ y ∷ []) j ≡ some x
get_elem?-append [] j x y e = cc
get_elem?-append (z ∷ xs) zero x y e = e
get_elem?-append (z ∷ xs) (suc j) x y e = get_elem?-append xs j x y e

-- A request that is not calling cancel functions may move on.
IsOwned-set :
    (requests : List Stage) (k : ℕ) (x y : Stage) (b : Background)
    → get_elem? requests k ≡ some x
    → x ≢ sweeping
    → IsOwned requests b
    → IsOwned (set requests k y) b
IsOwned-set requests k x y registered e n o = tt
IsOwned-set requests k x y released e n o = tt
IsOwned-set requests k x y cancelled e n o = tt
IsOwned-set requests k x y (taken j) e n o =
    get_elem?-set_other requests k j y (λ same. ground (arith, e, o)) ∙ o

-- And so may one that holds no context.
IsOwned-begun :
    (requests : List Stage) (k : ℕ) (y : Stage) (b : Background)
    → holds k b ≡ false
    → IsOwned requests b
    → IsOwned (set requests k y) b
IsOwned-begun requests k y registered f o = tt
IsOwned-begun requests k y released f o = tt
IsOwned-begun requests k y cancelled f o = tt
IsOwned-begun requests k y (taken j) f o =
    get_elem?-set_other requests k j y (λ same. ground arith) ∙ o

IsOwned-append :
    (requests : List Stage) (y : Stage) (b : Background)
    → IsOwned requests b
    → IsOwned (requests ++ y ∷ []) b
IsOwned-append requests y registered o = tt
IsOwned-append requests y released o = tt
IsOwned-append requests y cancelled o = tt
IsOwned-append requests y (taken j) o = get_elem?-append requests j sweeping y o

take_from-IsOff : (k : ℕ) (bs : List Background) → All IsOff (map (take_from k) bs)
take_from-IsOff k [] = tt
take_from-IsOff k (registered ∷ bs) = ((λ e. cc), take_from-IsOff k bs)
take_from-IsOff k (released ∷ bs) = ((λ e. cc), take_from-IsOff k bs)
take_from-IsOff k (cancelled ∷ bs) = ((λ e. cc), take_from-IsOff k bs)
take_from-IsOff k (taken j ∷ bs) = ((λ e. cc), take_from-IsOff k bs)

take_from-IsOwned :
    (requests : List Stage) (k : ℕ) (bs : List Background)
    → get_elem? requests k ≡ some sweeping
    → All (IsOwned requests) bs
    → All (IsOwned requests) (map (take_from k) bs)
take_from-IsOwned requests k [] e o = tt
take_from-IsOwned requests k (registered ∷ bs) e o = (e, take_from-IsOwned requests k bs e o.1)
take_from-IsOwned requests k (released ∷ bs) e o = (tt, take_from-IsOwned requests k bs e o.1)
take_from-IsOwned requests k (cancelled ∷ bs) e o = (tt, take_from-IsOwned requests k bs e o.1)
take_from-IsOwned requests k (taken j ∷ bs) e o = (o.0, take_from-IsOwned requests k bs e o.1)

IsOwned-begun-All :
    (requests : List Stage) (k : ℕ) (y : Stage) (bs : List Background)
    → holds_any k bs ≡ false
    → All (IsOwned requests) bs
    → All (IsOwned (set requests k y)) bs
unfolding holds_any
IsOwned-begun-All requests k y [] f o = tt
IsOwned-begun-All requests k y (b ∷ bs) f o = (
  IsOwned-begun requests k y b (ground arith) o.0,
  IsOwned-begun-All requests k y bs (ground arith) o.1,
)

-- A request moves from one stage to another; the contexts stay as they are.
module _ (g : Gate) (k : ℕ) (v : Inv g) where
  moved :
      (x y : Stage)
      → get_elem? g.requests k ≡ some x
      → x ≢ sweeping
      → All (IsOwned (set g.requests k y)) g.contexts
  moved x y e n = All-imp g.contexts (λ b o. IsOwned-set g.requests k x y b e n o) v.owned

  totals :
      (w : Stage → ℕ) (x y : Stage)
      → get_elem? g.requests k ≡ some x
      → total w (set g.requests k y) + w x ≡ total w g.requests + w y
  totals w x y e = total-set w g.requests k x y e

new_gate-Inv : (quiet : ℕ) → Inv (new_gate quiet)
unfolding new_gate
new_gate-Inv quiet = record { active_exact = refl; swept_off = λ h. tt; owned = tt }

note-Inv : (now : ℕ) (g : Gate) → Inv g → Inv (note now g)
unfolding note
note-Inv now g v = record {
  active_exact = omega (arith, v.active_exact, total-append in_flight g.requests noted);
  swept_off = λ h. v.swept_off (omega (arith, total-append has_swept g.requests noted, h));
  owned = All-imp g.contexts (λ b o. IsOwned-append g.requests noted b o) v.owned;
}

-- The gate after a request moved from one stage to another, when no context is registered or the request
-- has not swept.
moved-Inv :
    (g : Gate) (k : ℕ) (v : Inv g) (x y : Stage) (active last : ℕ)
    → get_elem? g.requests k ≡ some x
    → All (IsOwned (set g.requests k y)) g.contexts
    → has_swept y ≤ has_swept x
    → active + in_flight x ≡ g.active + in_flight y
    → Inv (record g { active = active; last_activity = last; requests = set g.requests k y })
moved-Inv g k v x y active last e o le same = record {
  active_exact = omega (arith, v.active_exact, totals g k v in_flight x y e, same);
  swept_off = λ h. v.swept_off (omega (arith, totals g k v has_swept x y e, le, h));
  owned = o;
}

in_flight-pos :
    (g : Gate) (k : ℕ) (x : Stage)
    → Inv g
    → get_elem? g.requests k ≡ some x
    → in_flight x ≤ g.active
in_flight-pos g k x v e = omega (arith, v.active_exact, total-set in_flight g.requests k x ended e)

count-Inv : (k : ℕ) (g : Gate) → Inv g → Inv (count k g)
unfolding count
count-Inv k g v = elim (Option-cases (get_elem? g.requests k)) [
  | inl e ↦ rw (e, count) v
  | inr (noted, e) ↦
      rw (e, count)
        (moved-Inv g k v noted counted (g.active + 1) g.last_activity e
          (moved g k v noted counted e (λ q. cc)) (omega arith) (omega arith))
  | inr (counted, e) ↦ rw (e, count) v
  | inr (sweeping, e) ↦ rw (e, count) v
  | inr (running, e) ↦ rw (e, count) v
  | inr (leaving, e) ↦ rw (e, count) v
  | inr (ended, e) ↦ rw (e, count) v
]

sweep-Inv : (k : ℕ) (g : Gate) → Inv g → Inv (sweep k g)
unfolding sweep
sweep-Inv k g v = elim (Option-cases (get_elem? g.requests k)) [
  | inl e ↦ rw (e, sweep) v
  | inr (counted, e) ↦
      rw (e, sweep)
        (record {
          active_exact = omega (arith, v.active_exact, totals g k v in_flight counted sweeping e);
          swept_off = λ h. take_from-IsOff k g.contexts;
          owned =
              take_from-IsOwned (set g.requests k sweeping) k g.contexts
                (get_elem?-set_same g.requests k counted sweeping e)
                (moved g k v counted sweeping e (λ q. cc));
        })
  | inr (noted, e) ↦ rw (e, sweep) v
  | inr (sweeping, e) ↦ rw (e, sweep) v
  | inr (running, e) ↦ rw (e, sweep) v
  | inr (leaving, e) ↦ rw (e, sweep) v
  | inr (ended, e) ↦ rw (e, sweep) v
]

-- A context that is released or cancelled.
dropped-Inv :
    (g : Gate) (i : ℕ) (b : Background)
    → IsOff b
    → IsOwned g.requests b
    → Inv g
    → Inv (record g { contexts = set g.contexts i b })
dropped-Inv g i b off own v = record {
  active_exact = v.active_exact;
  swept_off = λ h. All-set IsOff g.contexts i b (v.swept_off h) off;
  owned = All-set (IsOwned g.requests) g.contexts i b v.owned own;
}

cancelled-Inv :
    (g : Gate) (i : ℕ) → Inv g → Inv (record g { contexts = set g.contexts i cancelled })
cancelled-Inv g i v = dropped-Inv g i cancelled (λ e. cc) tt v

unregister-Inv : (i : ℕ) (g : Gate) → Inv g → Inv (unregister i g)
unfolding unregister
unregister-Inv i g v = elim (Option-cases (get_elem? g.contexts i)) [
  | inl e ↦ rw (e, unregister) v
  | inr (registered, e) ↦ rw (e, unregister) (dropped-Inv g i released (λ q. cc) tt v)
  | inr (released, e) ↦ rw (e, unregister) v
  | inr (cancelled, e) ↦ rw (e, unregister) v
  | inr (taken j, e) ↦ rw (e, unregister) v
]

release-Inv : (i : ℕ) (g : Gate) → Inv g → Inv (release i g)
unfolding release
release-Inv i g v = elim (Option-cases (get_elem? g.contexts i)) [
  | inl e ↦ rw (e, release) (cancelled-Inv g i v)
  | inr (registered, e) ↦ rw (e, release) v
  | inr (released, e) ↦ rw (e, release) (cancelled-Inv g i v)
  | inr (cancelled, e) ↦ rw (e, release) (cancelled-Inv g i v)
  | inr (taken j, e) ↦ rw (e, release) (cancelled-Inv g i v)
]

call_cancel-Inv : (k i : ℕ) (g : Gate) → Inv g → Inv (call_cancel k i g)
unfolding call_cancel
call_cancel-Inv k i g v = elim (Option-cases (get_elem? g.contexts i)) [
  | inl e ↦ rw (e, call_cancel) v
  | inr (registered, e) ↦ rw (e, call_cancel) v
  | inr (released, e) ↦ rw (e, call_cancel) v
  | inr (cancelled, e) ↦ rw (e, call_cancel) v
  | inr (taken j, e) ↦ elim (Bool-cases (j == k)) [
    | inl f ↦ rw (e, f, call_cancel) (cancelled-Inv g i v)
    | inr f ↦ rw (e, f, call_cancel) v
  ]
]

begun-Inv : (k : ℕ) (g : Gate) → Inv g → Inv (begun k g)
unfolding begun
begun-Inv k g v = elim (Option-cases (get_elem? g.requests k)) [
  | inl e ↦ rw (e, begun) v
  | inr (sweeping, e) ↦ elim (Bool-cases (holds_any k g.contexts)) [
    | inl f ↦ rw (e, f, begun) v
    | inr f ↦
        rw (e, f, begun)
          (moved-Inv g k v sweeping running g.active g.last_activity e
            (IsOwned-begun-All g.requests k running g.contexts f v.owned) (omega arith)
            (omega arith))
  ]
  | inr (noted, e) ↦ rw (e, begun) v
  | inr (counted, e) ↦ rw (e, begun) v
  | inr (running, e) ↦ rw (e, begun) v
  | inr (leaving, e) ↦ rw (e, begun) v
  | inr (ended, e) ↦ rw (e, begun) v
]

leave-Inv : (k now : ℕ) (g : Gate) → Inv g → Inv (leave k now g)
unfolding leave
leave-Inv k now g v = elim (Option-cases (get_elem? g.requests k)) [
  | inl e ↦ rw (e, leave) v
  | inr (running, e) ↦
      rw (e, leave)
        (moved-Inv g k v running leaving g.active now e (moved g k v running leaving e (λ q. cc))
          (omega arith) (omega arith))
  | inr (noted, e) ↦ rw (e, leave) v
  | inr (counted, e) ↦ rw (e, leave) v
  | inr (sweeping, e) ↦ rw (e, leave) v
  | inr (leaving, e) ↦ rw (e, leave) v
  | inr (ended, e) ↦ rw (e, leave) v
]

depart-Inv : (k : ℕ) (g : Gate) → Inv g → Inv (depart k g)
unfolding depart
depart-Inv k g v = elim (Option-cases (get_elem? g.requests k)) [
  | inl e ↦ rw (e, depart) v
  | inr (leaving, e) ↦
      rw (e, depart)
        (moved-Inv g k v leaving ended (g.active - 1) g.last_activity e
          (moved g k v leaving ended e (λ q. cc)) (omega arith)
          (omega (arith, in_flight-pos g k leaving v e)))
  | inr (noted, e) ↦ rw (e, depart) v
  | inr (counted, e) ↦ rw (e, depart) v
  | inr (sweeping, e) ↦ rw (e, depart) v
  | inr (running, e) ↦ rw (e, depart) v
  | inr (ended, e) ↦ rw (e, depart) v
]

admitted-Inv :
    (g : Gate) → Inv g → g.active ≡ 0 → Inv (record g { contexts = g.contexts ++ registered ∷ [] })
admitted-Inv g v idle = record {
  active_exact = v.active_exact;
  swept_off = λ h. absurd (omega (arith, v.active_exact, total-le g.requests, idle, h));
  owned = All-append (IsOwned g.requests) g.contexts (registered ∷ []) v.owned (tt, tt);
}

admit-Inv : (last now : ℕ) (g : Gate) → Inv g → Inv (admit last now g)
unfolding admit
admit-Inv last now g v =
    elim (Bool-cases
      (ltb 0 g.active || (not (last == 0) && ltb (now - last) (quiet_period_of g)))) [
        | inl busy ↦ rw (busy, admit) v
        | inr idle ↦ rw (idle, admit) (admitted-Inv g v (ground arith))
      ]

step-Inv : (g : Gate) (e : Event) → Inv g → Inv (step g e)
unfolding step
step-Inv g (notes now) v = note-Inv now g v
step-Inv g (counts k) v = count-Inv k g v
step-Inv g (sweeps k) v = sweep-Inv k g v
step-Inv g (cancels k i) v = call_cancel-Inv k i g v
step-Inv g (begins k) v = begun-Inv k g v
step-Inv g (leaves k now) v = leave-Inv k now g v
step-Inv g (departs k) v = depart-Inv k g v
step-Inv g (admits last now) v = admit-Inv last now g v
step-Inv g (unregisters i) v = unregister-Inv i g v
step-Inv g (releases i) v = release-Inv i g v

run-Inv : (g : Gate) (es : List Event) → Inv g → Inv (run g es)
unfolding run
run-Inv g [] v = v
run-Inv g (e ∷ es) v = run-Inv (step g e) es (step-Inv g e v)

-- A request is in the foreground from the return of its begin until it is counted out.
abbrev pub InForeground : Stage → Type 0
InForeground stage = (stage ≡ running) ⊎ (stage ≡ leaving)

foreground-swept :
    (xs : List Stage) (k : ℕ) (x : Stage)
    → get_elem? xs k ≡ some x
    → InForeground x
    → 0 < total has_swept xs
foreground-swept xs k x e (inl r) =
    omega (arith, total-set has_swept xs k running ended (rw (sym r) e))
foreground-swept xs k x e (inr r) =
    omega (arith, total-set has_swept xs k leaving ended (rw (sym r) e))

-- Over every interleaving of requests and background admissions from a new gate, while any request is in
-- the foreground, a background context is cancelled, or was released by its owner, or was taken by a
-- request that is still in its begin, calling cancel functions.
pub foreground_cancels_background :
    (quiet : ℕ) (es : List Event) (k i : ℕ) (stage : Stage) (b : Background)
    → get_elem? (run (new_gate quiet) es).requests k ≡ some stage
    → InForeground stage
    → get_elem? (run (new_gate quiet) es).contexts i ≡ some b
    → (b ≡ cancelled)
      ⊎ (b ≡ released)
      ⊎ ((j : ℕ) × (b ≡ taken j) × (get_elem? (run (new_gate quiet) es).requests j ≡ some sweeping))
foreground_cancels_background quiet es k i stage b e f c =
    let g : Gate = run (new_gate quiet) es in
    let v : Inv g = run-Inv (new_gate quiet) es (new_gate-Inv quiet) in
    let off : b ≢ registered =
      All-get_elem? IsOff g.contexts i b (v.swept_off (foreground-swept g.requests k stage e f))
        c in
    owner b off (All-get_elem? (IsOwned g.requests) g.contexts i b v.owned c)
  where
    owner :
        (x : Background)
        → x ≢ registered
        → IsOwned (run (new_gate quiet) es).requests x
        → (x ≡ cancelled)
          ⊎ (x ≡ released)
          ⊎ ((j : ℕ) × (x ≡ taken j)
              × (get_elem? (run (new_gate quiet) es).requests j ≡ some sweeping))
    owner registered n o = absurd (n refl)
    owner cancelled n o = inl refl
    owner released n o = inr (inl refl)
    owner (taken j) n o = inr (inr (j, refl, o))
