-- ===== src/Experiment/Metrics.antt =====
-- backend/experiment/finalizer.py: the metrics of a session that has ended. A final score is in
-- percent, as a fraction that is not rounded.
pub mod Runs
use onlinetlabs.Base.{
  ℕ, zero, suc, ◌+◌, ◌-◌, ◌*◌, ◌≤◌, ◌<◌, ◌≡◌, refl, ap, sym, subst, ◌∙◌, Bool, true, false, not,
  ◌&&◌, ◌||◌, List, [], ◌∷◌, ◌++◌, map, Option, none, some, inl, inr, arith, ◌==◌, ltb, leb,
  if◌then◌else◌, filter, length, Bool-cases, append_assoc, append-nil, ◌⊎◌,
}

pub data EventType : Type 0 where
  error intervention escalation would_intervene other : EventType

pub record Event : Type 0 where
  pub event_type : EventType
  pub message : Option ℕ
  pub success : Bool

abbrev pub is_error : Event → Bool
is_error e = elim e.event_type [ error ↦ true | _ ↦ false ]

abbrev pub is_intervention : Event → Bool
is_intervention e = elim e.event_type [ intervention ↦ true | _ ↦ false ]

abbrev pub same_message : Option ℕ → Option ℕ → Bool
same_message (some m) (some p) = m == p
same_message _ _ = false

abbrev pub max : ℕ → ℕ → ℕ
max a b = if ltb a b then b else a

-- The loop of `_max_consecutive_errors`, over the messages: `best`, `run` and `prev`.
unfoldable pub longest_from : ℕ → ℕ → Option ℕ → List (Option ℕ) → ℕ
longest_from best run prev [] = best
longest_from best run prev (m ∷ ms) = elim (same_message m prev) [
  | true ↦ longest_from (max best (suc run)) (suc run) m ms
  | false ↦ longest_from best 1 m ms
]

unfoldable pub max_consecutive_errors : List Event → ℕ
unfolding longest_from
max_consecutive_errors events = longest_from 0 1 none (map (λ e. e.message) events)

pub record Metrics : Type 0 where
  pub total_errors : ℕ
  pub repeated_errors : ℕ
  pub interventions_received : ℕ
  pub interventions_succeeded : ℕ
  pub interventions_failed : ℕ
  pub completed : Bool
  pub l2_unassisted_pass : Option Bool

-- `compute_session_metrics`, the counts and the two outcomes.
unfoldable pub compute_session_metrics : List Event → ℕ → ℕ → ℕ → Bool → Metrics
unfolding max_consecutive_errors
compute_session_metrics events steps_completed total_steps cap is_l2 =
    let errors = filter is_error events in
    let received = filter is_intervention events in
    let succeeded = filter (λ e. e.success) received in
    let completed = leb total_steps steps_completed in
    record {
      total_errors = length errors;
      repeated_errors = max_consecutive_errors errors;
      interventions_received = length received;
      interventions_succeeded = length succeeded;
      interventions_failed = length received - length succeeded;
      completed = completed;
      l2_unassisted_pass = if is_l2 then some (completed && leb (length received) cap) else none;
    }
