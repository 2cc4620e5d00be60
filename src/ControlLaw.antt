-- ===== src/ControlLaw.antt =====
-- backend/analytics/runtime/control_law.py: the intervention decision. A threshold is a number of
-- microseconds, and a draw from [0, 1) or a probability a number of 1 / 2^53, the grain of
-- `random.random()`.
pub mod Gates
use onlinetlabs.Base.{
  ℕ, ◌+◌, Bool, true, false, not, Option, none, some, ltb, if◌then◌else◌, or_else, is_some,
}
use onlinetlabs.Base.Int.{ℤ, pos, sub_ℕ, ltb_ℤ}
use onlinetlabs.Regime.{ProcessRegime, Time, is_bad}

-- `ControlArm` of backend/experiment/assignment.py
pub data ControlArm : Type 0 where
  open_loop closed_loop : ControlArm

pub data Action : Type 0 where
  intervene withhold skip : Action

pub data Reason : Type 0 where
  productive_regime dwell_below_threshold interventions_disabled cooldown : Reason
  open_arm mrt_hold mrt_intervene threshold_reached : Reason

pub record Decision : Type 0 where
  pub action : Action
  pub reason : Reason

-- The fields of `LearningAnalyticsConfig` that the law and the monitor read.
pub record Config : Type 0 where
  pub dwell_thresholds : ProcessRegime → Option ℕ
  pub enabled : Bool
  pub cooldown_period : ℕ
  pub mrt_enabled : Bool
  pub mrt_hold_probability : ℕ
  pub escalation_max_dwell : ℕ

abbrev pub decide : Action → Reason → Decision
decide a r = record { action = a; reason = r }

-- `(now - last).total_seconds() < cooldown_period`, where there is a last intervention.
abbrev pub in_cooldown : Option Time → Config → Time → Bool
in_cooldown none cfg now = false
in_cooldown (some last) cfg now = ltb_ℤ (sub_ℕ now last) (pos cfg.cooldown_period)

abbrev pub holds : Option ℕ → Config → Bool
holds none cfg = false
holds (some draw) cfg = ltb draw cfg.mrt_hold_probability

abbrev pub is_open : ControlArm → Bool
is_open open_loop = true
is_open closed_loop = false

-- The threshold in force: the spell's own under MRT, else that of the regime, else 0.
abbrev pub threshold_of : Option ℕ → Config → ProcessRegime → ℕ
threshold_of mrt_threshold cfg regime =
    or_else mrt_threshold (or_else (cfg.dwell_thresholds regime) 0)

unfoldable pub should_intervene :
    ProcessRegime → ℤ → ControlArm → Option Time → Config → Time → Option ℕ → Option ℕ → Decision
should_intervene regime dwell arm last cfg now mrt_threshold hold_draw =
    if not (is_bad regime)
    then decide skip productive_regime
    else (if ltb_ℤ dwell (pos (threshold_of mrt_threshold cfg regime))
        then decide skip dwell_below_threshold
        else (if not cfg.enabled
            then decide skip interventions_disabled
            else (if in_cooldown last cfg now
                then decide skip cooldown
                else (if is_open arm
                    then decide withhold open_arm
                    else (if holds hold_draw cfg
                        then decide withhold mrt_hold
                        else decide intervene
                            (if is_some hold_draw then mrt_intervene else threshold_reached))))))
