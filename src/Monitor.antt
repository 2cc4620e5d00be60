-- ===== src/Monitor.antt =====
-- backend/analytics/runtime/monitor.py: one `SessionMonitor`, as the record of its attributes
-- with the rows that it has written. A cycle of `_run_analysis` is a function of the record and of
-- what the cycle meets: the events it loads, the readings of the clock, the random draws, the
-- verdict of the control interface and the orchestrator's outcome. A commit of the sample, of a decision
-- point or of an exit that raises ends the cycle, which `_analysis_loop` survives; the rows of
-- `BehavioralEvent`, whose failed writes the monitor only logs, are taken to be written. The activity
-- feed, the latency rows and the grounding ablation are left out: nothing reads them back.
pub mod Frame
pub mod Unheeded
pub mod Arm
pub mod Spacing
pub mod Spells
pub mod Escalation
use onlinetlabs.Base.{
  ℕ, ◌+◌, Bool, true, false, not, ◌&&◌, Option, none, some, List, [], ◌∷◌, map, ltb, ◌==◌,
  if◌then◌else◌, or_else, is_some, length, contains,
}
use onlinetlabs.Base.Int.{ℤ, pos, negsuc, ltb_ℤ}
use onlinetlabs.Regime.{ProcessRegime, Time, DwellTracker, observe, analysis_to_regime, is_bad}
use onlinetlabs.ControlLaw.{
  ControlArm, Action, intervene, withhold, skip, Reason, Decision, Config, should_intervene,
  in_cooldown,
}
use onlinetlabs.Identifier.{AnalyticsResult}

pub record Sample : Type 0 where
  pub ts : Time
  pub regime : ProcessRegime
  pub dwell_seconds : ℤ

-- The rows of `BehavioralEvent` that the monitor writes.
pub data EventRow : Type 0 where
  escalation : EventRow
  would_intervene : Reason → EventRow
  intervention : Bool → EventRow

pub data Assignment : Type 0 where
  assigned_intervene assigned_withhold : Assignment

-- `InterventionDecision`
pub record DecisionRow : Type 0 where
  pub id : ℕ
  pub spell_id : ℕ
  pub ts : Time
  pub regime : ProcessRegime
  pub dwell_seconds : ℤ
  pub t_k_applied : ℕ
  pub assignment : Assignment
  pub subsequent_exit_ts : Option Time
  pub censored : Bool

-- An act of the loop, with the clock reading on which it was decided: an intervention that the
-- orchestrator answered, or one that was withheld.
pub record Act : Type 0 where
  pub decided_at : Time
  pub delivered : Bool

pub record Monitor (E : Type 0) : Type 0 where
  pub control_arm : ControlArm
  pub config : Config
  pub last_intervention_at : Option Time
  pub last_event_at : Option Time
  pub last_events : List E
  pub dwell : DwellTracker
  pub escalated_in_spell : Bool
  pub spell_id : Option ℕ
  pub spell_t_k : Option ℕ
  pub open_decision_ids : List ℕ
  pub samples : List Sample
  pub events : List EventRow
  pub decisions : List DecisionRow
  pub acts : List Act

-- What becomes of a call of the orchestrator and of the delivery that follows a success.
pub data Outcome : Type 0 where
  orchestrator_raised : Outcome
  gateway_raised : Outcome
  responded : Bool → Outcome

pub record Cycle (E : Type 0) : Type 0 where
  pub loaded : List E
  pub state_at : Time
  pub now : Time
  pub trigger_at : Time
  pub dispatched_at : Time
  pub authorized : Bool
  pub outcome : Outcome
  -- whether the commits return of the sample, of a decision point, and of the exit of a spell
  pub sample_stored : Bool
  pub decision_stored : Bool
  pub exit_stored : Bool
  -- `uniform(1 - j, 1 + j)` times the regime's threshold
  pub jitter : ℕ → ℕ
  pub hold_draw : ℕ
  pub fresh_spell : ℕ
  pub fresh_row : ℕ

abbrev pub is_zero : ℤ → Bool
is_zero (pos n) = n == 0
is_zero (negsuc n) = false

abbrev pub last_of {ℓ} : {A : Type ℓ} → A → List A → A
last_of x [] = x
last_of x (y ∷ ys) = last_of y ys

-- `censor_open_decisions` of backend/analytics/runtime/mrt.py, on one session's rows: the rows after
-- it, and how many are marked.
abbrev censor_row : DecisionRow → DecisionRow
censor_row row = if is_some row.subsequent_exit_ts then row else record row { censored = true }

abbrev open_count : List DecisionRow → ℕ
open_count [] = 0
open_count (row ∷ rows) = (if is_some row.subsequent_exit_ts then 0 else 1) + open_count rows

unfoldable pub censor_open_decisions : List DecisionRow → List DecisionRow × ℕ
censor_open_decisions rows = (map censor_row rows, open_count rows)

-- The update of `_mrt_close_spell` on one row.
pub close_row : List ℕ → Time → DecisionRow → DecisionRow
close_row ids now row =
    if contains row.id ids then record row { subsequent_exit_ts = some now } else row

module _ {E : Type 0} (timestamp : E → Time) (analyse : List E → AnalyticsResult) where
  -- The window of a cycle: new events become the last ones, else the last ones serve again.
  unfoldable pub load_window : Monitor E → List E → Monitor E × List E
  load_window m [] = (m, m.last_events)
  load_window m (e ∷ es) =
      (record m { last_event_at = some (timestamp (last_of e es)); last_events = e ∷ es }, e ∷ es)

  -- `_log_process_state`
  unfoldable pub log_process_state :
      Monitor E → AnalyticsResult → Time → Monitor E × ProcessRegime × ℤ
  log_process_state m a now =
      let regime = analysis_to_regime a.struggle_detected a.struggle_type in
      let (tracker, dwell) = observe m.dwell regime now in
      (
        record m {
          dwell = tracker;
          samples = record { ts = now; regime = regime; dwell_seconds = dwell } ∷ m.samples;
        },
        regime,
        dwell,
      )

  -- `_log_process_state` whose commit raises: the tracker has observed the cycle all the same.
  unfoldable pub log_process_state_raised : Monitor E → AnalyticsResult → Time → Monitor E
  log_process_state_raised m a now =
      let regime = analysis_to_regime a.struggle_detected a.struggle_type in
      record m { dwell = (observe m.dwell regime now).0 }

  -- The objective escalation, and the reset of its flag outside a bad spell.
  unfoldable pub escalate : Monitor E → ProcessRegime → ℤ → Monitor E
  escalate m regime dwell =
      if is_bad regime
      then (if not (ltb_ℤ dwell (pos m.config.escalation_max_dwell)) && not m.escalated_in_spell
          then record m { escalated_in_spell = true; events = escalation ∷ m.events }
          else m)
      else record m { escalated_in_spell = false }

  -- `_log_would_intervene`, and the stamp of the cooldown after it.
  abbrev pub withhold_act : Monitor E → Reason → Time → Monitor E
  withhold_act m reason now = record m {
    events = would_intervene reason ∷ m.events;
    last_intervention_at = some now;
    acts = record { decided_at = now; delivered = false } ∷ m.acts;
  }

  -- `_should_trigger_intervention`
  abbrev pub should_trigger : Monitor E → Time → Bool
  should_trigger m now = m.config.enabled && not (in_cooldown m.last_intervention_at m.config now)

  -- Whether `_decide_intervention` assembles an intervention.
  abbrev pub assembles : Monitor E → AnalyticsResult → Time → Bool
  assembles m a now = a.struggle_detected && should_trigger m now

  -- `_dispatch_intervention` and `_persist_intervention`; an exception ends the cycle.
  unfoldable pub dispatch : Monitor E → Cycle E → Outcome → Monitor E
  dispatch m c orchestrator_raised = m
  dispatch m c gateway_raised = record m {
    last_intervention_at = some c.dispatched_at;
    acts = record { decided_at = c.now; delivered = true } ∷ m.acts;
  }
  dispatch m c (responded success) = record m {
    last_intervention_at = some c.dispatched_at;
    events = intervention success ∷ m.events;
    acts = record { decided_at = c.now; delivered = true } ∷ m.acts;
  }

  -- What follows the law's decision without MRT.
  act_on : Monitor E → Cycle E → AnalyticsResult → Action → Reason → Monitor E
  act_on m c a skip reason = m
  act_on m c a withhold reason = withhold_act m reason c.now
  act_on m c a intervene reason =
      if assembles m a c.trigger_at && c.authorized then dispatch m c c.outcome else m

  unfoldable pub law_step : Monitor E → Cycle E → AnalyticsResult → ProcessRegime → ℤ → Monitor E
  unfolding act_on
  law_step m c a regime dwell =
      let d =
        should_intervene regime dwell m.control_arm m.last_intervention_at m.config c.now none
          none in
      act_on m c a d.action d.reason

  -- `_mrt_close_spell`
  unfoldable pub mrt_close_spell : Monitor E → Time → Monitor E
  unfolding close_row
  mrt_close_spell m now = record m {
    spell_id = none;
    spell_t_k = none;
    open_decision_ids = [];
    decisions = map (close_row m.open_decision_ids now) m.decisions;
  }

  -- `_mrt_close_spell` whose commit raises: the monitor has forgotten the spell, and the rows are as they
  -- were.
  unfoldable pub mrt_close_spell_raised : Monitor E → Monitor E
  mrt_close_spell_raised m = record m { spell_id = none; spell_t_k = none; open_decision_ids = [] }

  -- Whether a cycle closes a spell and its commit raises; without open decision points there is none.
  unfoldable pub exit_raises : Monitor E → Cycle E → ℤ → Bool
  exit_raises m c dwell =
      is_zero dwell && is_some m.spell_id && ltb 0 (length m.open_decision_ids) && not c.exit_stored

  -- `_mrt_open_spell`
  unfoldable pub mrt_open_spell : Monitor E → Cycle E → ProcessRegime → Monitor E
  mrt_open_spell m c regime = record m {
    spell_t_k = some (c.jitter (or_else (m.config.dwell_thresholds regime) 0));
    spell_id = some c.fresh_spell;
    open_decision_ids = [];
  }

  -- `_mrt_record_decision`
  unfoldable pub mrt_record_decision :
      Monitor E → Cycle E → ℕ → ProcessRegime → ℤ → ℕ → Assignment → Monitor E
  mrt_record_decision m c spell regime dwell t_k assignment = record m {
    open_decision_ids = c.fresh_row ∷ m.open_decision_ids;
    decisions =
        record {
          id = c.fresh_row;
          spell_id = spell;
          ts = c.now;
          regime = regime;
          dwell_seconds = dwell;
          t_k_applied = t_k;
          assignment = assignment;
          subsequent_exit_ts = none;
          censored = false;
        }
        ∷ m.decisions;
  }

  -- `_mrt_record_decision` whose commit raises: the point is listed as open without a row.
  unfoldable pub mrt_record_raised : Monitor E → Cycle E → Action → Monitor E
  mrt_record_raised m c skip = m
  mrt_record_raised m c _ = record m { open_decision_ids = c.fresh_row ∷ m.open_decision_ids }

  -- The stamp of `_mrt_step` after a delivery; an exception passes it over.
  mrt_dispatch : Monitor E → Cycle E → Outcome → Monitor E
  unfolding dispatch
  mrt_dispatch m c (responded success) = record (dispatch m c (responded success)) {
    last_intervention_at = some c.now;
  }
  mrt_dispatch m c outcome = dispatch m c outcome

  mrt_act :
      Monitor E
      → Cycle E
      → AnalyticsResult
      → ℕ
      → ProcessRegime
      → ℤ
      → ℕ
      → Action
      → Reason
      → Monitor E
  unfolding mrt_dispatch mrt_record_decision
  mrt_act m c a spell regime dwell t_k skip reason = m
  mrt_act m c a spell regime dwell t_k withhold reason =
      withhold_act (mrt_record_decision m c spell regime dwell t_k assigned_withhold) reason c.now
  mrt_act m c a spell regime dwell t_k intervene reason =
      let m' = mrt_record_decision m c spell regime dwell t_k assigned_intervene in
      if assembles m' a c.trigger_at then mrt_dispatch m' c c.outcome else m'

  -- The head of `_mrt_step`: a dwell of 0 closes the spell and opens one on a bad regime.
  unfoldable pub mrt_turn : Monitor E → Cycle E → ProcessRegime → ℤ → Monitor E
  unfolding mrt_close_spell mrt_open_spell
  mrt_turn m c regime dwell =
      if is_zero dwell
      then (let m' = if is_some m.spell_id then mrt_close_spell m c.now else m in
          if is_bad regime then mrt_open_spell m' c regime else m')
      else m

  mrt_attempt :
      Monitor E
      → Cycle E
      → AnalyticsResult
      → ℕ
      → ProcessRegime
      → ℤ
      → ℕ
      → Action
      → Reason
      → Monitor E
  unfolding mrt_act mrt_record_raised
  mrt_attempt m c a spell regime dwell t_k action reason =
      if c.decision_stored
      then mrt_act m c a spell regime dwell t_k action reason
      else mrt_record_raised m c action

  mrt_decide :
      Monitor E → Cycle E → AnalyticsResult → ProcessRegime → ℤ → Option ℕ → Option ℕ → Monitor E
  unfolding mrt_attempt
  mrt_decide m c a regime dwell (some spell) (some t_k) =
      let d =
        should_intervene regime dwell m.control_arm m.last_intervention_at m.config c.now (some t_k)
          (some c.hold_draw) in
      mrt_attempt m c a spell regime dwell t_k d.action d.reason
  mrt_decide m c a regime dwell none t_k = m
  mrt_decide m c a regime dwell (some spell) none = m

  mrt_proceed : Monitor E → Cycle E → AnalyticsResult → ProcessRegime → ℤ → Monitor E
  unfolding mrt_turn mrt_decide
  mrt_proceed m c a regime dwell =
      let m' = mrt_turn m c regime dwell in mrt_decide m' c a regime dwell m'.spell_id m'.spell_t_k

  -- `_mrt_step`
  unfoldable pub mrt_step : Monitor E → Cycle E → AnalyticsResult → ProcessRegime → ℤ → Monitor E
  unfolding mrt_proceed mrt_close_spell_raised exit_raises
  mrt_step m c a regime dwell =
      if exit_raises m c dwell then mrt_close_spell_raised m else mrt_proceed m c a regime dwell

  -- What follows the sample of a cycle.
  respond : Monitor E → Cycle E → AnalyticsResult → ProcessRegime → ℤ → Monitor E
  unfolding escalate law_step mrt_step
  respond m c a regime dwell =
      let m' = escalate m regime dwell in
      if m'.config.mrt_enabled then mrt_step m' c a regime dwell else law_step m' c a regime dwell

  analyse_window : Monitor E → Cycle E → List E → Monitor E
  unfolding log_process_state log_process_state_raised respond
  analyse_window m c [] = m
  analyse_window m c (e ∷ es) =
      let a = analyse (e ∷ es) in
      let (m1, regime, dwell) = log_process_state m a c.state_at in
      if c.sample_stored
      then respond m1 c a regime dwell
      else log_process_state_raised m a c.state_at

  -- `_run_analysis`
  unfoldable pub run_analysis : Monitor E → Cycle E → Monitor E
  unfolding load_window analyse_window
  run_analysis m c = let (m', window) = load_window m c.loaded in analyse_window m' c window

  -- `_analysis_loop`: one cycle after another.
  unfoldable pub run_cycles : Monitor E → List (Cycle E) → Monitor E
  run_cycles m [] = m
  run_cycles m (c ∷ cs) = run_cycles (run_analysis m c) cs
