-- ===== src/Identifier.antt =====
-- backend/agents/identifier/agent.py: the rules that detect a struggle. A quantity that is a float
-- in the source is a number of 1 / 10000, to which backend/analytics/runtime/features.py rounds; a
-- slope is such an integer. A confidence is a fraction.
pub mod Rules
use onlinetlabs.Base.{
  ℕ, ◌+◌, ◌*◌, Bool, true, false, ◌&&◌, Option, none, some, List, [], ◌∷◌, ltb, leb, if◌then◌else◌,
  is_some,
}
use onlinetlabs.Base.Int.{ℤ, ltb_ℤ}
use onlinetlabs.Regime.{StruggleType}

pub data SuggestedIntervention : Type 0 where
  hint tutor simplify no_intervention : SuggestedIntervention

-- The features that a rule reads.
pub record SessionFeatures : Type 0 where
  pub avg_inter_action_latency : ℕ
  pub action_rate_slope : ℤ
  pub idle_periods : ℕ
  pub time_on_current_step : ℕ
  pub error_repeat_count : ℕ
  pub action_sequence_entropy : ℕ
  pub error_frequency : ℕ
  pub distinct_failing_actuals : ℕ
  pub cycles_failing_unchanged : ℕ

-- The thresholds of `LearningAnalyticsConfig` that a rule reads.
pub record Thresholds : Type 0 where
  pub error_repeat_threshold : ℕ
  pub distinct_actuals_threshold : ℕ
  pub unchanged_cycles_threshold : ℕ
  pub entropy_threshold : ℕ
  pub error_freq_threshold : ℕ
  pub idle_threshold : ℕ
  pub rate_slope_threshold : ℤ
  pub stuck_time_multiplier : ℕ
  pub min_latency_floor : ℕ
  pub min_idle_for_stuck : ℕ

pub record Fraction : Type 0 where
  pub num : ℕ
  pub den : ℕ

abbrev pub scale : ℕ
scale = 10000

-- `min(n / d, 1.0)`
abbrev pub at_most_one : ℕ → ℕ → Fraction
at_most_one n d = if leb n d then record { num = n; den = d } else record { num = 1; den = 1 }

abbrev pub max_of : ℕ → ℕ → ℕ
max_of a b = if ltb a b then b else a

pub record StruggleRule : Type 0 where
  pub predicate : SessionFeatures → Thresholds → Bool
  pub stype : StruggleType
  pub intervention : SuggestedIntervention
  pub confidence : SessionFeatures → Thresholds → Fraction

abbrev pub repeats_errors : SessionFeatures → Thresholds → Bool
repeats_errors f c = leb c.error_repeat_threshold f.error_repeat_count

abbrev pub varies_answers : SessionFeatures → Thresholds → Bool
varies_answers f c = ltb c.distinct_actuals_threshold f.distinct_failing_actuals

abbrev pub fails_unchanged : SessionFeatures → Thresholds → Bool
fails_unchanged f c = leb c.unchanged_cycles_threshold f.cycles_failing_unchanged

abbrev pub flails : SessionFeatures → Thresholds → Bool
flails f c =
    ltb c.entropy_threshold f.action_sequence_entropy
    && ltb c.error_freq_threshold f.error_frequency

abbrev pub slows_down : SessionFeatures → Thresholds → Bool
slows_down f c =
    ltb c.idle_threshold f.idle_periods && ltb_ℤ f.action_rate_slope c.rate_slope_threshold

abbrev pub lingers : SessionFeatures → Thresholds → Bool
lingers f c =
    ltb (c.stuck_time_multiplier * max_of f.avg_inter_action_latency c.min_latency_floor)
      (f.time_on_current_step * scale)
    && ltb c.min_idle_for_stuck f.idle_periods

-- `STRUGGLE_RULES`
abbrev pub struggle_rules : List StruggleRule
struggle_rules =
    record {
      predicate = repeats_errors;
      stype = StruggleType.repeating_errors;
      intervention = hint;
      confidence = λ f c. at_most_one f.error_repeat_count (c.error_repeat_threshold + 2);
    }
    ∷ record {
      predicate = varies_answers;
      stype = StruggleType.trial_and_error;
      intervention = tutor;
      confidence = λ f c. at_most_one f.distinct_failing_actuals 4;
    }
    ∷ record {
      predicate = fails_unchanged;
      stype = StruggleType.stuck_on_step;
      intervention = hint;
      confidence = λ f c. record { num = 7; den = 10 };
    }
    ∷ record {
      predicate = flails;
      stype = StruggleType.trial_and_error;
      intervention = tutor;
      confidence = λ f c. at_most_one f.action_sequence_entropy scale;
    }
    ∷ record {
      predicate = slows_down;
      stype = StruggleType.idle;
      intervention = tutor;
      confidence = λ f c. record { num = 7; den = 10 };
    }
    ∷ record {
      predicate = lingers;
      stype = StruggleType.stuck_on_step;
      intervention = hint;
      confidence = λ f c. record { num = 6; den = 10 };
    }
    ∷ []

pub record Detection : Type 0 where
  pub struggle_type : Option StruggleType
  pub suggested_intervention : SuggestedIntervention
  pub confidence : Fraction

-- The loop of `_detect_struggle`.
unfoldable pub detect_from : List StruggleRule → SessionFeatures → Thresholds → Detection
detect_from [] f c = record {
  struggle_type = none;
  suggested_intervention = no_intervention;
  confidence = record { num = 0; den = 1 };
}
detect_from (r ∷ rules) f c =
    if r.predicate f c
    then record {
      struggle_type = some r.stype;
      suggested_intervention = r.intervention;
      confidence = r.confidence f c;
    }
    else detect_from rules f c

unfoldable pub detect_struggle : SessionFeatures → Thresholds → Detection
unfolding detect_from
detect_struggle f c = detect_from struggle_rules f c

-- The fields of `AnalyticsResult` that depend on the rules.
pub record AnalyticsResult : Type 0 where
  pub struggle_detected : Bool
  pub struggle_type : Option StruggleType
  pub suggested_intervention : SuggestedIntervention
  pub confidence : Fraction

unfoldable pub identify_regime : SessionFeatures → Thresholds → AnalyticsResult
unfolding detect_struggle
identify_regime f c =
    let d = detect_struggle f c in
    record {
      struggle_detected = is_some d.struggle_type;
      struggle_type = d.struggle_type;
      suggested_intervention = d.suggested_intervention;
      confidence = d.confidence;
    }
