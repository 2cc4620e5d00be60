-- ===== src/Regime.antt =====
-- backend/analytics/runtime/process_state.py: the regime of the controlled process and the time
-- spent in it. A time is a number of microseconds, the resolution of `datetime`; a difference of
-- two clock readings is an integer, since the wall clock may be set back.
pub mod Dwell
use onlinetlabs.Base.{ℕ, Bool, true, false, Option, none, some, if◌then◌else◌}
use onlinetlabs.Base.Int.{ℤ, pos, sub_ℕ}

pub data ProcessRegime : Type 0 where
  productive stuck_on_step repeating_errors idle trial_and_error : ProcessRegime

-- `StruggleType` of backend/agents/identifier/schemas.py
pub data StruggleType : Type 0 where
  stuck_on_step repeating_errors idle trial_and_error : StruggleType

abbrev pub Time : Type 0
Time = ℕ

abbrev pub regime_eq : ProcessRegime → ProcessRegime → Bool
regime_eq productive productive = true
regime_eq ProcessRegime.stuck_on_step ProcessRegime.stuck_on_step = true
regime_eq ProcessRegime.repeating_errors ProcessRegime.repeating_errors = true
regime_eq ProcessRegime.idle ProcessRegime.idle = true
regime_eq ProcessRegime.trial_and_error ProcessRegime.trial_and_error = true
regime_eq _ _ = false

-- `ProcessRegime(struggle_type.value)`: the two enumerations share their values.
abbrev pub of_struggle : StruggleType → ProcessRegime
of_struggle StruggleType.stuck_on_step = ProcessRegime.stuck_on_step
of_struggle StruggleType.repeating_errors = ProcessRegime.repeating_errors
of_struggle StruggleType.idle = ProcessRegime.idle
of_struggle StruggleType.trial_and_error = ProcessRegime.trial_and_error

-- The two fields of `AnalyticsResult` that are read here.
abbrev regime_of : Bool → Option StruggleType → ProcessRegime
regime_of false t = productive
regime_of true none = productive
regime_of true (some t) = of_struggle t

unfoldable pub analysis_to_regime : Bool → Option StruggleType → ProcessRegime
analysis_to_regime struggle_detected struggle_type = regime_of struggle_detected struggle_type

abbrev pub is_bad : ProcessRegime → Bool
is_bad productive = false
is_bad _ = true

-- `_regime` and `_since` are `None` together, and are set together.
pub record DwellTracker : Type 0 where
  pub current : Option (ProcessRegime × Time)

abbrev pub no_dwell : DwellTracker
no_dwell = record { current = none }

observe_from : Option (ProcessRegime × Time) → ProcessRegime → Time → DwellTracker × ℤ
observe_from none regime now = (record { current = some (regime, now) }, pos 0)
observe_from (some (r, since)) regime now =
    if regime_eq regime r
    then (record { current = some (r, since) }, sub_ℕ now since)
    else (record { current = some (regime, now) }, pos 0)

-- `DwellTracker.observe`: the tracker after it, and the dwell time.
unfoldable pub observe : DwellTracker → ProcessRegime → Time → DwellTracker × ℤ
unfolding observe_from
observe t regime now = observe_from t.current regime now
