-- ===== src/Monitor/Spacing.antt =====
-- The pause between the acts of backend/analytics/runtime/monitor.py.
use onlinetlabs.Base.{
  ℕ, ◌+◌, ◌≤◌, ◌≡◌, ◌≢◌, refl, sym, ap, ◌∙◌, true, false, Option, none, some, List, [], ◌∷◌, arith,
  if◌then◌else◌, if-keeps, is_some, ◌&&◌, All,
}
use mathlib.Core.Path.{subst, subst₂}
use onlinetlabs.Base.Int.{ℤ}
use onlinetlabs.Regime.{ProcessRegime, Time, is_bad}
use onlinetlabs.ControlLaw.{
  ControlArm, Config, should_intervene, Action, intervene, withhold, skip, Reason,
}
use onlinetlabs.ControlLaw.Gates.{IsCool, in_cooldown_iff}
use onlinetlabs.Identifier.{AnalyticsResult}
use onlinetlabs.Monitor.{
  Monitor, Cycle, Act, Outcome, orchestrator_raised, gateway_raised, responded, dispatch,
  mrt_dispatch, law_step, mrt_turn, mrt_decide, mrt_step, mrt_act, act_on, mrt_record_decision,
  assigned_intervene, mrt_attempt, mrt_record_raised, mrt_proceed, mrt_close_spell_raised,
  exit_raises, run_analysis, run_cycles, assembles, mrt_open_spell, mrt_close_spell, is_zero,
}
use onlinetlabs.Monitor.Frame.{Same, run_analysis-keeps}

-- Each act was decided at least a pause after the one before it. The newest stands first.
abbrev pub IsSpaced : ℕ → List Act → Type 0
IsSpaced pause [] = Unit
IsSpaced pause (a ∷ []) = Unit
IsSpaced pause (a ∷ b ∷ acts) = (b.decided_at + pause ≤ a.decided_at) × IsSpaced pause (b ∷ acts)

-- The stamp of the cooldown is not older than the newest act.
abbrev pub IsStamped : List Act → Option Time → Type 0
IsStamped [] last = Unit
IsStamped (a ∷ acts) none = ⊥
IsStamped (a ∷ acts) (some t) = a.decided_at ≤ t

pub record IsPaced {E : Type 0} (pause : ℕ) (m : Monitor E) : Type 0 where
  pub cooldown : m.config.cooldown_period ≡ pause
  pub spaced : IsSpaced pause m.acts
  pub stamped : IsStamped m.acts m.last_intervention_at

IsSpaced-cons :
    (pause : ℕ) (acts : List Act) (last : Option Time) (a : Act)
    → IsSpaced pause acts
    → IsStamped acts last
    → IsCool last pause a.decided_at
    → IsSpaced pause (a ∷ acts)
IsSpaced-cons pause [] last a s t c = tt
IsSpaced-cons pause (b ∷ acts) none a s t c = absurd t
IsSpaced-cons pause (b ∷ acts) (some u) a s t c = (omega arith, s)

-- A decision that is no skip is made after the cooldown.
should_intervene-IsCool :
    (regime : ProcessRegime) (dwell : ℤ) (arm : ControlArm) (last : Option Time) (cfg : Config)
    (now : Time) (mrt draw : Option ℕ) (x : Action)
    → (should_intervene regime dwell arm last cfg now mrt draw).action ≡ x
    → x ≢ skip
    → IsCool last cfg.cooldown_period now
unfolding should_intervene
should_intervene-IsCool regime dwell arm last cfg now mrt draw x e h =
    ground (arith, in_cooldown_iff last cfg now)

Same-IsPaced :
    {E : Type 0} (pause : ℕ) (m n : Monitor E) → Same m n → IsPaced pause m → IsPaced pause n
Same-IsPaced pause m n same p = record {
  cooldown = ap (λ g. g.cooldown_period) same.same_config ∙ p.cooldown;
  spaced = subst (IsSpaced pause) (sym same.same_acts) p.spaced;
  stamped = subst₂ IsStamped (sym same.same_acts) (sym same.same_last) p.stamped;
}

module _ {E : Type 0} (timestamp : E → Time) (analyse : List E → AnalyticsResult) (pause : ℕ)
    (c : Cycle E) (forward : c.now ≤ c.dispatched_at) where
  dispatch-IsPaced :
      (m : Monitor E) (o : Outcome)
      → IsPaced pause m
      → IsCool m.last_intervention_at m.config.cooldown_period c.now
      → IsPaced pause (dispatch timestamp analyse m c o)
  unfolding dispatch
  dispatch-IsPaced m orchestrator_raised p cool = p
  dispatch-IsPaced m _ p cool = record {
    cooldown = p.cooldown;
    spaced =
        IsSpaced-cons pause m.acts m.last_intervention_at
          (record { decided_at = c.now; delivered = true }) p.spaced p.stamped
          (rw p.cooldown at cool);
    stamped = forward;
  }

  act_on-IsPaced :
      (m : Monitor E) (a : AnalyticsResult) (x : Action) (r : Reason)
      → IsPaced pause m
      → (x ≢ skip → IsCool m.last_intervention_at m.config.cooldown_period c.now)
      → IsPaced pause (act_on timestamp analyse m c a x r)
  unfolding act_on
  act_on-IsPaced m a skip r p cool = p
  act_on-IsPaced m a withhold r p cool = record {
    cooldown = p.cooldown;
    spaced =
        IsSpaced-cons pause m.acts m.last_intervention_at
          (record { decided_at = c.now; delivered = false }) p.spaced p.stamped
          (rw p.cooldown at (cool (λ e. cc)));
    stamped = omega arith;
  }
  act_on-IsPaced m a intervene r p cool =
      if-keeps (IsPaced pause) (assembles timestamp analyse m a c.trigger_at && c.authorized)
        (dispatch timestamp analyse m c c.outcome) m
        (dispatch-IsPaced m c.outcome p (cool (λ e. cc))) p

  law_step-IsPaced :
      (m : Monitor E) (a : AnalyticsResult) (regime : ProcessRegime) (dwell : ℤ)
      → IsPaced pause m
      → IsPaced pause (law_step timestamp analyse m c a regime dwell)
  unfolding law_step
  law_step-IsPaced m a regime dwell p = act_on-IsPaced m a _ _ p (
      should_intervene-IsCool regime dwell m.control_arm m.last_intervention_at m.config c.now none
        none _ refl)

  mrt_turn-IsPaced :
      (m : Monitor E) (regime : ProcessRegime) (dwell : ℤ)
      → IsPaced pause m
      → IsPaced pause (mrt_turn timestamp analyse m c regime dwell)
  unfolding mrt_turn
  mrt_turn-IsPaced m regime dwell p =
      if-keeps (IsPaced pause) (is_zero dwell) _ m
        (if-keeps (IsPaced pause) (is_bad regime) (mrt_open_spell timestamp analyse m' c regime) m'
          (record { cooldown = closed.cooldown; spaced = closed.spaced; stamped = closed.stamped })
          closed)
        p
    where
      m' : Monitor E
      m' = if is_some m.spell_id then mrt_close_spell timestamp analyse m c.now else m

      closed : IsPaced pause m'
      closed =
          if-keeps (IsPaced pause) (is_some m.spell_id) (mrt_close_spell timestamp analyse m c.now)
            m (record { cooldown = p.cooldown; spaced = p.spaced; stamped = p.stamped }) p

  mrt_dispatch-IsPaced :
      (m : Monitor E) (o : Outcome)
      → IsPaced pause m
      → IsCool m.last_intervention_at m.config.cooldown_period c.now
      → IsPaced pause (mrt_dispatch timestamp analyse m c o)
  unfolding mrt_dispatch
  mrt_dispatch-IsPaced m orchestrator_raised p cool = dispatch-IsPaced m orchestrator_raised p cool
  mrt_dispatch-IsPaced m gateway_raised p cool = dispatch-IsPaced m gateway_raised p cool
  mrt_dispatch-IsPaced m (responded b) p cool =
      let q = dispatch-IsPaced m (responded b) p cool in
      record { cooldown = q.cooldown; spaced = q.spaced; stamped = omega arith }

  mrt_act-IsPaced :
      (m : Monitor E) (a : AnalyticsResult) (spell : ℕ) (regime : ProcessRegime) (dwell : ℤ)
      (t_k : ℕ) (x : Action) (r : Reason)
      → IsPaced pause m
      → (x ≢ skip → IsCool m.last_intervention_at m.config.cooldown_period c.now)
      → IsPaced pause (mrt_act timestamp analyse m c a spell regime dwell t_k x r)
  unfolding mrt_act
  mrt_act-IsPaced m a spell regime dwell t_k skip r p cool = p
  mrt_act-IsPaced m a spell regime dwell t_k withhold r p cool = record {
    cooldown = p.cooldown;
    spaced =
        IsSpaced-cons pause m.acts m.last_intervention_at
          (record { decided_at = c.now; delivered = false }) p.spaced p.stamped
          (rw p.cooldown at (cool (λ e. cc)));
    stamped = omega arith;
  }
  mrt_act-IsPaced m a spell regime dwell t_k intervene r p cool =
      if-keeps (IsPaced pause) (assembles timestamp analyse m' a c.trigger_at)
        (mrt_dispatch timestamp analyse m' c c.outcome) m'
        (mrt_dispatch-IsPaced m' c.outcome p' (cool (λ e. cc))) p'
    where
      m' : Monitor E
      m' = mrt_record_decision timestamp analyse m c spell regime dwell t_k assigned_intervene

      p' : IsPaced pause m'
      p' = record { cooldown = p.cooldown; spaced = p.spaced; stamped = p.stamped }

  mrt_attempt-IsPaced :
      (m : Monitor E) (a : AnalyticsResult) (spell : ℕ) (regime : ProcessRegime) (dwell : ℤ)
      (t_k : ℕ) (x : Action) (r : Reason)
      → IsPaced pause m
      → (x ≢ skip → IsCool m.last_intervention_at m.config.cooldown_period c.now)
      → IsPaced pause (mrt_attempt timestamp analyse m c a spell regime dwell t_k x r)
  unfolding mrt_attempt
  mrt_attempt-IsPaced m a spell regime dwell t_k x r p cool =
      if-keeps (IsPaced pause) c.decision_stored
        (mrt_act timestamp analyse m c a spell regime dwell t_k x r)
        (mrt_record_raised timestamp analyse m c x)
        (mrt_act-IsPaced m a spell regime dwell t_k x r p cool) (missed x)
    where
      listed : IsPaced pause (record m { open_decision_ids = c.fresh_row ∷ m.open_decision_ids })
      listed = record { cooldown = p.cooldown; spaced = p.spaced; stamped = p.stamped }

      missed : (x : Action) → IsPaced pause (mrt_record_raised timestamp analyse m c x)
      missed skip = unfold mrt_record_raised in p
      missed withhold = unfold mrt_record_raised in listed
      missed intervene = unfold mrt_record_raised in listed

  mrt_decide-IsPaced :
      (m : Monitor E) (a : AnalyticsResult) (regime : ProcessRegime) (dwell : ℤ)
      (spell t_k : Option ℕ)
      → IsPaced pause m
      → IsPaced pause (mrt_decide timestamp analyse m c a regime dwell spell t_k)
  unfolding mrt_decide
  mrt_decide-IsPaced m a regime dwell none t_k p = p
  mrt_decide-IsPaced m a regime dwell (some spell) none p = p
  mrt_decide-IsPaced m a regime dwell (some spell) (some t_k) p =
      mrt_attempt-IsPaced m a spell regime dwell t_k _ _ p (
        should_intervene-IsCool regime dwell m.control_arm m.last_intervention_at m.config c.now
          (some t_k) (some c.hold_draw) _ refl)

  mrt_proceed-IsPaced :
      (m : Monitor E) (a : AnalyticsResult) (regime : ProcessRegime) (dwell : ℤ)
      → IsPaced pause m
      → IsPaced pause (mrt_proceed timestamp analyse m c a regime dwell)
  unfolding mrt_proceed
  mrt_proceed-IsPaced m a regime dwell p =
      let m' = mrt_turn timestamp analyse m c regime dwell in
      mrt_decide-IsPaced m' a regime dwell m'.spell_id m'.spell_t_k
        (mrt_turn-IsPaced m regime dwell p)

  mrt_step-IsPaced :
      (m : Monitor E) (a : AnalyticsResult) (regime : ProcessRegime) (dwell : ℤ)
      → IsPaced pause m
      → IsPaced pause (mrt_step timestamp analyse m c a regime dwell)
  unfolding mrt_step mrt_close_spell_raised
  mrt_step-IsPaced m a regime dwell p =
      if-keeps (IsPaced pause) (exit_raises timestamp analyse m c dwell)
        (mrt_close_spell_raised timestamp analyse m)
        (mrt_proceed timestamp analyse m c a regime dwell)
        (record { cooldown = p.cooldown; spaced = p.spaced; stamped = p.stamped })
        (mrt_proceed-IsPaced m a regime dwell p)

  run_analysis-IsPaced :
      (m : Monitor E) → IsPaced pause m → IsPaced pause (run_analysis timestamp analyse m c)
  run_analysis-IsPaced m p =
      run_analysis-keeps timestamp analyse (IsPaced pause) c
        (λ m n same p. Same-IsPaced pause m n same p)
        (λ m a regime dwell _ p. law_step-IsPaced m a regime dwell p)
        (λ m a regime dwell _ p. mrt_step-IsPaced m a regime dwell p) m p

-- The clock is not set back between a cycle's decision and its delivery.
abbrev pub IsForward : {E : Type 0} → Cycle E → Type 0
IsForward c = c.now ≤ c.dispatched_at

module _ {E : Type 0} (timestamp : E → Time) (analyse : List E → AnalyticsResult) where
  -- From a monitor of which this holds (a new one is such), over any sequence of cycles, with or
  -- without MRT, in which the clock is not set back between a decision and its delivery, each
  -- delivered or withheld intervention is decided at least the cooldown after the one before it,
  -- whatever the orchestrator, the gateway and the control interface answer; and the stamp of the
  -- cooldown is not older than the newest of them.
  pub run_cycles-IsPaced :
      (pause : ℕ) (m : Monitor E) (cs : List (Cycle E))
      → IsPaced pause m
      → All IsForward cs
      → IsPaced pause (run_cycles timestamp analyse m cs)
  unfolding run_cycles
  run_cycles-IsPaced pause m [] p fs = p
  run_cycles-IsPaced pause m (c ∷ cs) p fs =
      run_cycles-IsPaced pause (run_analysis timestamp analyse m c) cs
        (run_analysis-IsPaced timestamp analyse pause c fs.0 m p) fs.1
