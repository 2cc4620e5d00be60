-- ===== src/Features.antt =====
-- backend/analytics/runtime/features.py: the features that need no floating point, which the
-- identifier's rules read. The events of a session are in the order of their times, and the running
-- features take them from the newest back, as `reversed` does.
pub mod Tail
use onlinetlabs.Base.{
  ℕ, suc, ◌+◌, ◌-◌, ◌≤◌, ◌<◌, Bool, true, false, not, ◌&&◌, List, [], ◌∷◌, Option, none, some, ltb,
  leb, ◌==◌, if◌then◌else◌, filter, length, is_some,
}
use onlinetlabs.Regime.{Time}

-- The actions of the observer, and all others.
pub data Action : Type 0 where
  check_passed check_regressed check_failing check_retry : Action
  other : ℕ → Action

pub record Event : Type 0 where
  pub timestamp : Time
  pub is_error : Bool
  pub action : Action
  pub component : Option ℕ
  pub message : Option ℕ

-- `_student_events`: without the heartbeat of the observer.
abbrev pub is_student : Event → Bool
is_student e = elim e.action [ other _ ↦ true | _ ↦ false ]

abbrev pub student_events : List Event → List Event
student_events events = filter is_student events

abbrev pub distance : Time → Time → ℕ
distance a b = if leb a b then b - a else a - b

-- `_inter_action_latencies`, with the gap up to now at the end.
unfoldable pub latencies : Time → List Event → List ℕ
latencies now [] = []
latencies now (e ∷ []) = distance e.timestamp now ∷ []
latencies now (e ∷ f ∷ rest) = distance e.timestamp f.timestamp ∷ latencies now (f ∷ rest)

unfoldable pub idle_periods : ℕ → Time → List Event → ℕ
unfolding latencies
idle_periods idle_gap now events =
    length (filter (λ d. ltb idle_gap d) (latencies now (student_events events)))

abbrev pub same : Option ℕ → Option ℕ → Bool
same none none = true
same (some a) (some b) = a == b
same _ _ = false

abbrev pub is_passed : Event → Bool
is_passed e = elim e.action [ check_passed ↦ true | _ ↦ false ]

abbrev pub is_failing : Event → Bool
is_failing e = elim e.action [ check_failing ↦ true | _ ↦ false ]

-- The loop of `_current_error_run`, at `run` and `last_message`.
unfoldable pub error_run_from : ℕ → Option ℕ → List Event → ℕ
error_run_from run last [] = run
error_run_from run last (e ∷ older) = elim (is_passed e) [
  | true ↦ run
  | false ↦ elim e.is_error [
    | false ↦ error_run_from run last older
    | true ↦ elim last [
      | none ↦ error_run_from 1 e.message older
      | some m ↦ elim (same e.message (some m)) [
        | true ↦ error_run_from (suc run) (some m) older
        | false ↦ run
      ]
    ]
  ]
]

unfoldable pub current_error_run : List Event → ℕ
unfolding error_run_from
current_error_run newest_first =
    let run = error_run_from 0 none newest_first in if leb 2 run then run else 0

-- The loop of `_cycles_failing_unchanged`, at `run` and `ref_cid`.
unfoldable pub cycles_from : ℕ → Option ℕ → List Event → ℕ
cycles_from run ref [] = run
cycles_from run ref (e ∷ older) = elim (is_failing e) [
  | false ↦ run
  | true ↦ elim ref [
    | none ↦ cycles_from (suc run) e.component older
    | some c ↦ elim (same e.component (some c)) [
      | true ↦ cycles_from (suc run) (some c) older
      | false ↦ run
    ]
  ]
]

unfoldable pub cycles_failing_unchanged : List Event → ℕ
unfolding cycles_from
cycles_failing_unchanged newest_first = cycles_from 0 none newest_first
