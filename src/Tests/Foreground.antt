-- ===== src/Tests/Foreground.antt =====
-- A run of the foreground gate.
use timich_agent.Base.{ℕ, ◌≡◌, refl, ◌⊎◌, inl, some, List, [], ◌∷◌, get_elem?}
use timich_agent.Foreground.{
  new_gate, cancelled, released, taken, sweeping, running, Event, notes, counts, sweeps, begins,
  cancels, admits, note, count, sweep, call_cancel, holds_any, begun, admit, step, run,
}
use timich_agent.Foreground.Quiet.{foreground_cancels_background}

-- A background context is admitted, and a request begins.
abbrev arrival : List Event
arrival = admits 0 5 ∷ notes 10 ∷ counts 0 ∷ sweeps 0 ∷ admits 0 11 ∷ cancels 0 0 ∷ begins 0 ∷ []

request_begun : get_elem? (run (new_gate 7) arrival).requests 0 ≡ some running
unfolding run step new_gate admit note count sweep call_cancel begun holds_any
request_begun = refl

context_cancelled : get_elem? (run (new_gate 7) arrival).contexts 0 ≡ some cancelled
unfolding run step new_gate admit note count sweep call_cancel begun holds_any
context_cancelled = refl

foreground_cancels_background_example :
    (cancelled ≡ cancelled)
    ⊎ (cancelled ≡ released)
    ⊎ ((j : ℕ) × (cancelled ≡ taken j)
        × (get_elem? (run (new_gate 7) arrival).requests j ≡ some sweeping))
foreground_cancels_background_example =
    foreground_cancels_background 7 arrival 0 0 running cancelled request_begun (inl refl)
      context_cancelled
