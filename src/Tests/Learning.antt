-- ===== src/Tests/Learning.antt =====
-- The theorems about backend/analytics/runtime/ and backend/agents/identifier/: events are numbers
-- that are their own timestamps, and an analysis counts them as repeated errors.
use onlinetlabs.Base.{
  ℕ, ◌+◌, ◌≡◌, refl, Bool, true, false, some, none, List, [], ◌∷◌, arith, length, ◌↔◌, ◌⊎◌,
}
use onlinetlabs.Base.Int.{pos, sub_ℕ}
use onlinetlabs.Regime.{productive, trial_and_error, repeating_errors, Time, observe, no_dwell}
use onlinetlabs.Regime.Dwell.{History, track, run_start, observe-run_start}
use onlinetlabs.ControlLaw.{
  ControlArm, open_loop, closed_loop, Config, should_intervene, intervene, withhold, skip,
}
use onlinetlabs.ControlLaw.Gates.{IsDecisionPoint, IsReleased, should_intervene_lem}
use onlinetlabs.Identifier.{SessionFeatures, Thresholds, identify_regime, AnalyticsResult}
use onlinetlabs.Monitor.{Monitor, Cycle, responded, run_analysis, run_cycles}
use onlinetlabs.Monitor.Arm.{deliveries, run_cycles-open_arm, run_analysis-with_verdict}
use onlinetlabs.Monitor.Unheeded.{with_verdict}
use onlinetlabs.Monitor.Spacing.{IsPaced, run_cycles-IsPaced}
use onlinetlabs.Monitor.Escalation.{IsOnce, run_cycles-IsOnce}
use onlinetlabs.Monitor.Spells.{IsTidy, run_cycles-IsTidy}

abbrev history : History
history = (trial_and_error, 40) ∷ (trial_and_error, 25) ∷ (productive, 10) ∷ []

observe-run_start_example :
    (observe (track history) trial_and_error 55).1 ≡ sub_ℕ 55 (run_start trial_and_error 55 history)
observe-run_start_example = observe-run_start trial_and_error 55 history

abbrev config : Bool → Config
config mrt = record {
  dwell_thresholds = λ regime. some 20;
  enabled = true;
  cooldown_period = 60;
  mrt_enabled = mrt;
  mrt_hold_probability = 4;
  escalation_max_dwell = 100;
}

should_intervene_lem_example :
    let a =
      (should_intervene trial_and_error
        (pos 30)
        closed_loop
        (some 100)
        (config false)
        200
        none
        none).action in
    let p =
      IsDecisionPoint trial_and_error
        (pos 30)
        closed_loop
        (some 100)
        (config false)
        200
        none
        none in
    ((a ≡ intervene) ↔ (p × (closed_loop ≡ closed_loop) × IsReleased none 4))
    × ((a ≡ withhold) ↔ (p × ((closed_loop ≡ open_loop) ⊎ (¬ IsReleased none 4))))
    × ((a ≡ skip) ↔ (¬ p))
should_intervene_lem_example =
    should_intervene_lem trial_and_error (pos 30) closed_loop (some 100) (config false) 200 none
      none

abbrev thresholds : Thresholds
thresholds = record {
  error_repeat_threshold = 2;
  distinct_actuals_threshold = 3;
  unchanged_cycles_threshold = 3;
  entropy_threshold = 12000;
  error_freq_threshold = 3000;
  idle_threshold = 3;
  rate_slope_threshold = pos 0;
  stuck_time_multiplier = 5;
  min_latency_floor = 50000;
  min_idle_for_stuck = 2;
}

abbrev features : List ℕ → SessionFeatures
features events = record {
  avg_inter_action_latency = 20000;
  action_rate_slope = pos 1;
  idle_periods = 1;
  time_on_current_step = 120;
  error_repeat_count = length events;
  action_sequence_entropy = 9000;
  error_frequency = 1000;
  distinct_failing_actuals = 1;
  cycles_failing_unchanged = 0;
}

abbrev analyse : List ℕ → AnalyticsResult
analyse events = identify_regime (features events) thresholds

abbrev started : ControlArm → Bool → Monitor ℕ
started arm mrt = record {
  control_arm = arm;
  config = config mrt;
  last_intervention_at = none;
  last_event_at = none;
  last_events = [];
  dwell = no_dwell;
  escalated_in_spell = false;
  spell_id = none;
  spell_t_k = none;
  open_decision_ids = [];
  samples = [];
  events = [];
  decisions = [];
  acts = [];
}

abbrev cycle : Time → Bool → Cycle ℕ
cycle now authorized = record {
  loaded = now ∷ (now + 1) ∷ (now + 2) ∷ [];
  state_at = now + 3;
  now = now + 4;
  trigger_at = now + 5;
  dispatched_at = now + 6;
  authorized = authorized;
  outcome = responded true;
  sample_stored = true;
  decision_stored = true;
  exit_stored = true;
  jitter = λ t. t;
  hold_draw = 9;
  fresh_spell = now;
  fresh_row = now + 1;
}

abbrev cycles : List (Cycle ℕ)
cycles = cycle 0 true ∷ cycle 30 true ∷ cycle 60 true ∷ cycle 120 true ∷ []

run_cycles-open_arm_example :
    deliveries (run_cycles (λ e. e) analyse (started open_loop false) cycles).acts ≡ 0
run_cycles-open_arm_example =
    run_cycles-open_arm {E = ℕ} (λ e. e) analyse (started open_loop false) cycles refl

-- The monitor of a closed-loop learner who has struggled for a while.
abbrev struggling : Bool → Monitor ℕ
struggling mrt = record (started closed_loop mrt) {
  dwell = record { current = some (repeating_errors, 0) };
  spell_id = some 1;
  spell_t_k = some 20;
}

run_analysis-with_verdict_example :
    let after = run_analysis (λ e. e) analyse (struggling true) in
    ((struggling true).config.mrt_enabled ≡ false
      → (cycle 30 true).authorized ≡ false
      → deliveries (after (cycle 30 true)).acts ≡ deliveries (struggling true).acts)
    × ((struggling true).config.mrt_enabled ≡ true
        → after (with_verdict (λ e. e) analyse (cycle 30 true) false) ≡ after (cycle 30 true))
run_analysis-with_verdict_example =
    run_analysis-with_verdict {E = ℕ} (λ e. e) analyse (struggling true) (cycle 30 true) false

run_cycles-IsPaced_example :
    IsPaced 60 (run_cycles (λ e. e) analyse (started closed_loop true) cycles)
run_cycles-IsPaced_example =
    run_cycles-IsPaced {E = ℕ} (λ e. e) analyse 60 (started closed_loop true) cycles
      (record { cooldown = refl; spaced = tt; stamped = tt })
      (omega arith, (omega arith, (omega arith, (omega arith, tt))))

-- The sample of one cycle and the decision point of another are not stored.
abbrev failing_cycles : List (Cycle ℕ)
failing_cycles =
    cycle 0 true
    ∷ record (cycle 30 true) { sample_stored = false }
    ∷ record (cycle 60 true) { decision_stored = false }
    ∷ cycle 120 true
    ∷ []

run_cycles-IsTidy_example :
    IsTidy (run_cycles (λ e. e) analyse (started closed_loop true) failing_cycles)
run_cycles-IsTidy_example =
    run_cycles-IsTidy {E = ℕ} (λ e. e) analyse (started closed_loop true) failing_cycles tt
      (refl, (refl, (refl, (refl, tt))))

run_cycles-IsOnce_example : IsOnce (run_cycles (λ e. e) analyse (started closed_loop true) cycles)
run_cycles-IsOnce_example =
    run_cycles-IsOnce {E = ℕ} (λ e. e) analyse (started closed_loop true) cycles
      (omega arith, λ h. refl)
