-- ===== src/Tests/Policy.antt =====
-- The theorems about backend/analytics/criterion.py and backend/analytics/thresholds.py: a log of
-- seven samples.
use onlinetlabs.Base.{ℕ, ◌≤◌, ◌≡◌, refl, true, false, none, some, List, [], ◌∷◌, arith, filter, All}
use onlinetlabs.Base.Int.{pos}
use onlinetlabs.Regime.{ProcessRegime}
use onlinetlabs.ControlLaw.{Config, should_intervene}
use onlinetlabs.Criterion.{
  Sample, Costs, compute_J, count_false, interventions_outside_bad_regime, regime_at, hasty,
  clean_durations, spells_from, bad_duration_of,
}
use onlinetlabs.Criterion.Thresholds.{
  Setting, Grid, simulate_from, simulate_interventions, truncate_at_interventions, derive_T_k,
  first_candidates, search_from, best_from, total_J,
}
use onlinetlabs.Criterion.Firing.{live_from, is_regulated, simulate_interventions-live}
use onlinetlabs.Criterion.Pauses.{IsApart, ready_at, is_accounted, simulate_interventions_lem}
use onlinetlabs.Criterion.Search.{IsGreedy, derive_T_k-IsGreedy}
use onlinetlabs.Criterion.FalseAlarms.{compute_J-n_false}

abbrev pub sample : ℕ → ProcessRegime → ℕ → Sample
sample ts regime dwell = record { ts = ts; regime = regime; dwell = pos dwell }

abbrev pub log : List Sample
log =
    sample 0 ProcessRegime.productive 0
    ∷ sample 10 ProcessRegime.idle 0
    ∷ sample 20 ProcessRegime.idle 10
    ∷ sample 30 ProcessRegime.productive 0
    ∷ sample 40 ProcessRegime.stuck_on_step 0
    ∷ sample 50 ProcessRegime.stuck_on_step 10
    ∷ sample 60 ProcessRegime.stuck_on_step 20
    ∷ []

-- The regime of idling has no threshold.
abbrev pub cfg : Config
cfg = record {
  dwell_thresholds = λ r. elim r [ ProcessRegime.stuck_on_step ↦ some 5 | _ ↦ none ];
  enabled = true;
  cooldown_period = 15;
  mrt_enabled = false;
  mrt_hold_probability = 0;
  escalation_max_dwell = 100;
}

fires_once : simulate_interventions log cfg.dwell_thresholds cfg.cooldown_period ≡ 50 ∷ []
unfolding simulate_from
fires_once = refl

-- Without a threshold the law acts on the samples of idling too.
acts_twice : live_from cfg none log ≡ 10 ∷ 50 ∷ []
unfolding live_from should_intervene
acts_twice = refl

simulate_interventions-live_example :
    simulate_interventions log cfg.dwell_thresholds cfg.cooldown_period
    ≡ live_from cfg none (filter (is_regulated cfg.dwell_thresholds) log)
simulate_interventions-live_example = simulate_interventions-live cfg log refl

simulate_interventions_lem_example :
    let ivs = simulate_interventions log cfg.dwell_thresholds 15 in
    IsApart 15 none ivs
    × All (λ at. ready_at cfg.dwell_thresholds log at ≡ true) ivs
    × All (λ s. is_accounted cfg.dwell_thresholds 15 ivs s ≡ true) log
simulate_interventions_lem_example =
    simulate_interventions_lem log cfg.dwell_thresholds 15
      (omega arith, (omega arith, (omega arith, (omega arith, (omega arith, (omega arith, tt))))))

abbrev pub costs : Costs
costs = record { c_stuck = 2; c_intervention = 3; c_false = 4 }

-- One intervention in the clean part of the log, and one in the spell of idling.
false_alarms : count_false log (5 ∷ 20 ∷ []) ≡ 1
unfolding count_false interventions_outside_bad_regime regime_at hasty clean_durations spells_from
false_alarms = refl

compute_J-n_false_example :
    let j = compute_J log (5 ∷ 20 ∷ []) costs none in
    (j.n_interventions ≡ 2) × (j.n_false ≤ j.n_interventions)
compute_J-n_false_example =
    compute_J-n_false log (5 ∷ 20 ∷ []) costs none
      (omega arith, (omega arith, (omega arith, (omega arith, (omega arith, (omega arith, tt))))))

abbrev pub setting : Setting
setting = record {
  sessions = record { samples = log; detections = none } ∷ [];
  costs = costs;
  cooldown = 15;
  counterfactual = λ samples ivs. truncate_at_interventions samples ivs;
}

abbrev pub grid : Grid
grid = (ProcessRegime.idle, 100 ∷ 10 ∷ []) ∷ (ProcessRegime.stuck_on_step, 0 ∷ 10 ∷ 50 ∷ []) ∷ []

derived :
    derive_T_k setting grid
    ≡ some ((ProcessRegime.idle, 10) ∷ (ProcessRegime.stuck_on_step, 50) ∷ [])
unfolding derive_T_k truncate_at_interventions search_from best_from total_J compute_J
    bad_duration_of simulate_from first_candidates count_false interventions_outside_bad_regime
    regime_at hasty clean_durations spells_from
derived = refl

derive_T_k-IsGreedy_example :
    (result : List (ProcessRegime × ℕ)) × (derive_T_k setting grid ≡ some result)
    × IsGreedy setting (first_candidates grid) grid result
derive_T_k-IsGreedy_example = derive_T_k-IsGreedy setting grid (tt, (tt, tt))
