-- ===== src/Features/Tail.antt =====
-- What the newest events do to the features of backend/analytics/runtime/features.py.
use onlinetlabs.Base.{
  ℕ, suc, ◌+◌, ◌≤◌, ◌≡◌, refl, ap, if-false, false, List, [], ◌∷◌, ◌++◌, Option, none, some, inl,
  inr, arith, ltb, leb, if◌then◌else◌, filter, length, Bool-cases, Option-cases,
}
use onlinetlabs.Regime.{Time}
use onlinetlabs.Features.{
  Event, is_student, student_events, latencies, idle_periods, is_passed, error_run_from,
  current_error_run, same,
}

abbrev total : List ℕ → ℕ
total [] = 0
total (d ∷ ds) = d + total ds

-- The events stand in the order of their times, before now.
abbrev IsOrdered : Time → List Event → Type 0
IsOrdered now [] = Unit
IsOrdered now (e ∷ []) = e.timestamp ≤ now
IsOrdered now (e ∷ f ∷ rest) = (e.timestamp ≤ f.timestamp) × IsOrdered now (f ∷ rest)

-- The latencies part the time from the first event to now.
total-latencies :
    (now : Time) (e : Event) (rest : List Event)
    → IsOrdered now (e ∷ rest)
    → e.timestamp + total (latencies now (e ∷ rest)) ≡ now
unfolding latencies
total-latencies now e [] h = ground arith
total-latencies now e (f ∷ rest) h = ground (arith, total-latencies now f rest h.1)

filter-heartbeat :
    (events : List Event) (h : Event)
    → is_student h ≡ false
    → student_events (events ++ h ∷ []) ≡ student_events events
filter-heartbeat [] h q = if-false _ _ _ q
filter-heartbeat (e ∷ events) h q = elim (Bool-cases (is_student e)) [
  | inl k ↦ rw k (ap (λ es. e ∷ es) (filter-heartbeat events h q))
  | inr k ↦ rw k (filter-heartbeat events h q)
]

-- An event of the observer, as the newest, changes no idle period: a learner who is silent while
-- the checks are polled goes on being idle.
idle_periods-heartbeat :
    (idle_gap : ℕ) (now : Time) (events : List Event) (h : Event)
    → is_student h ≡ false
    → idle_periods idle_gap now (events ++ h ∷ []) ≡ idle_periods idle_gap now events
unfolding idle_periods
idle_periods-heartbeat idle_gap now events h q =
    ap (λ es. length (filter (λ d. ltb idle_gap d) (latencies now es)))
      (filter-heartbeat events h q)

-- The messages of the errors since the last passed check, the newest first.
abbrev pub recent : List Event → List (Option ℕ)
recent [] = []
recent (e ∷ older) =
    let rest = recent older in
    if is_passed e then [] else (if e.is_error then e.message ∷ rest else rest)

-- How many messages at the head are a given one.
abbrev pub heading : ℕ → List (Option ℕ) → ℕ
heading m [] = 0
heading m (x ∷ xs) = let rest = heading m xs in if same x (some m) then suc rest else 0

-- The run of the first message that is there, after errors without one.
abbrev pub first_run : ℕ → List (Option ℕ) → ℕ
first_run none_seen [] = none_seen
first_run none_seen (none ∷ xs) = first_run 1 xs
first_run none_seen (some m ∷ xs) = suc (heading m xs)

error_run_from-heading :
    (run m : ℕ) (events : List Event)
    → error_run_from run (some m) events ≡ run + heading m (recent events)
unfolding error_run_from
error_run_from-heading run m [] = omega arith
error_run_from-heading run m (e ∷ older) =
    ground (arith, error_run_from-heading run m older, error_run_from-heading (suc run) m older)

error_run_from-first_run :
    (run : ℕ) (events : List Event) → error_run_from run none events ≡ first_run run (recent events)
unfolding error_run_from
error_run_from-first_run run [] = refl
error_run_from-first_run run (e ∷ older) = elim (Option-cases e.message) [
  | inl q ↦
      rw q (ground (arith, error_run_from-first_run run older, error_run_from-first_run 1 older))
  | inr (m, q) ↦
      rw q (ground (arith, error_run_from-first_run run older, error_run_from-heading 1 m older))
]

-- The current error run is the run of equal messages, of two at least, that the errors since the
-- last passed check end with, errors without a message at the very end left aside; otherwise 0.
current_error_run-first_run :
    (newest_first : List Event)
    → current_error_run newest_first
      ≡ (if leb 2 (first_run 0 (recent newest_first)) then first_run 0 (recent newest_first) else 0)
unfolding current_error_run
current_error_run-first_run newest_first = rw (error_run_from-first_run 0 newest_first) refl
