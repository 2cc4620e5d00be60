-- ===== src/Monitor/Frame.antt =====
-- The cycle of backend/analytics/runtime/monitor.py in two parts: what comes before the decision
-- touches neither the spell nor the acts, and the decision is one of two steps.
use onlinetlabs.Base.{
  ℕ, ◌≡◌, refl, ◌∙◌, true, false, Option, none, some, List, [], ◌∷◌, arith, if-keeps, Bool-cases,
  inl, inr,
}
use onlinetlabs.Base.Int.{ℤ}
use onlinetlabs.Regime.{ProcessRegime, Time}
use onlinetlabs.ControlLaw.{Action, intervene, withhold, skip, Reason}
use onlinetlabs.Identifier.{AnalyticsResult}
use onlinetlabs.Monitor.{
  Monitor, Cycle, load_window, log_process_state, escalate, law_step, mrt_step, analyse_window,
  run_analysis, dispatch, mrt_dispatch, act_on, mrt_turn, mrt_act, mrt_decide, mrt_record_decision,
  assigned_intervene, mrt_attempt, mrt_proceed, mrt_record_raised, mrt_close_spell_raised,
  exit_raises, log_process_state_raised, respond, Outcome, orchestrator_raised,
}

-- The attributes that only a decision changes.
pub record Same {E : Type 0} (m n : Monitor E) : Type 0 where
  pub same_arm : n.control_arm ≡ m.control_arm
  pub same_config : n.config ≡ m.config
  pub same_last : n.last_intervention_at ≡ m.last_intervention_at
  pub same_spell : n.spell_id ≡ m.spell_id
  pub same_t_k : n.spell_t_k ≡ m.spell_t_k
  pub same_open : n.open_decision_ids ≡ m.open_decision_ids
  pub same_decisions : n.decisions ≡ m.decisions
  pub same_acts : n.acts ≡ m.acts

module _ {E : Type 0} (timestamp : E → Time) (analyse : List E → AnalyticsResult) where
  pub load_window-Same :
      (m : Monitor E) (es : List E) → Same m (load_window timestamp analyse m es).0
  unfolding load_window
  load_window-Same m [] = ground arith
  load_window-Same m (e ∷ es) = ground arith

  log_process_state-Same :
      (m : Monitor E) (a : AnalyticsResult) (t : Time)
      → Same m (log_process_state timestamp analyse m a t).0
  unfolding log_process_state
  log_process_state-Same m a t = ground arith

  log_process_state_raised-Same :
      (m : Monitor E) (a : AnalyticsResult) (t : Time)
      → Same m (log_process_state_raised timestamp analyse m a t)
  unfolding log_process_state_raised
  log_process_state_raised-Same m a t = ground arith

  escalate-Same :
      (m : Monitor E) (regime : ProcessRegime) (dwell : ℤ)
      → Same m (escalate timestamp analyse m regime dwell)
  unfolding escalate
  escalate-Same m regime dwell = ground arith

  -- What a cycle does before its decision.
  unfoldable pub prepare : Monitor E → AnalyticsResult → Time → Monitor E
  unfolding log_process_state escalate
  prepare m a t =
      let (m1, regime, dwell) = log_process_state timestamp analyse m a t in
      escalate timestamp analyse m1 regime dwell

  pub prepare-config :
      (m : Monitor E) (a : AnalyticsResult) (t : Time) → (prepare m a t).config ≡ m.config
  unfolding prepare
  prepare-config m a t = ground arith

  -- The arm and the configuration are set at the start and never change.
  abbrev pub SetAtStart : Monitor E → Monitor E → Type 0
  SetAtStart m n = (n.control_arm ≡ m.control_arm) × (n.config ≡ m.config)

  dispatch-SetAtStart :
      (m : Monitor E) (c : Cycle E) (o : Outcome) → SetAtStart m (dispatch timestamp analyse m c o)
  unfolding dispatch
  dispatch-SetAtStart m c orchestrator_raised = (refl, refl)
  dispatch-SetAtStart m c _ = (refl, refl)

  mrt_dispatch-SetAtStart :
      (m : Monitor E) (c : Cycle E) (o : Outcome)
      → SetAtStart m (mrt_dispatch timestamp analyse m c o)
  unfolding mrt_dispatch
  mrt_dispatch-SetAtStart m c orchestrator_raised = (refl, refl)
  mrt_dispatch-SetAtStart m c _ = (refl, refl)

  pub law_step-SetAtStart :
      (m : Monitor E) (c : Cycle E) (a : AnalyticsResult) (regime : ProcessRegime) (dwell : ℤ)
      → SetAtStart m (law_step timestamp analyse m c a regime dwell)
  unfolding law_step
  law_step-SetAtStart m c a regime dwell = acted _ _
    where
      acted : (x : Action) (r : Reason) → SetAtStart m (act_on timestamp analyse m c a x r)
      acted skip r = (refl, refl)
      acted withhold r = (refl, refl)
      acted intervene r = ground (arith, dispatch-SetAtStart m c c.outcome)

  mrt_turn-SetAtStart :
      (m : Monitor E) (c : Cycle E) (regime : ProcessRegime) (dwell : ℤ)
      → SetAtStart m (mrt_turn timestamp analyse m c regime dwell)
  unfolding mrt_turn
  mrt_turn-SetAtStart m c regime dwell = ground arith

  mrt_act-SetAtStart :
      (m : Monitor E) (c : Cycle E) (a : AnalyticsResult) (spell : ℕ) (regime : ProcessRegime)
      (dwell : ℤ) (t_k : ℕ) (x : Action) (r : Reason)
      → SetAtStart m (mrt_act timestamp analyse m c a spell regime dwell t_k x r)
  unfolding mrt_act
  mrt_act-SetAtStart m c a spell regime dwell t_k skip r = (refl, refl)
  mrt_act-SetAtStart m c a spell regime dwell t_k withhold r = (refl, refl)
  mrt_act-SetAtStart m c a spell regime dwell t_k intervene r =
      let m' =
        mrt_record_decision timestamp analyse m c spell regime dwell t_k assigned_intervene in
      ground (arith, mrt_dispatch-SetAtStart m' c c.outcome)

  mrt_attempt-SetAtStart :
      (m : Monitor E) (c : Cycle E) (a : AnalyticsResult) (spell : ℕ) (regime : ProcessRegime)
      (dwell : ℤ) (t_k : ℕ) (x : Action) (r : Reason)
      → SetAtStart m (mrt_attempt timestamp analyse m c a spell regime dwell t_k x r)
  unfolding mrt_attempt
  mrt_attempt-SetAtStart m c a spell regime dwell t_k x r =
      if-keeps (SetAtStart m) c.decision_stored
        (mrt_act timestamp analyse m c a spell regime dwell t_k x r)
        (mrt_record_raised timestamp analyse m c x)
        (mrt_act-SetAtStart m c a spell regime dwell t_k x r) (missed x)
    where
      missed : (x : Action) → SetAtStart m (mrt_record_raised timestamp analyse m c x)
      missed skip = unfold mrt_record_raised in (refl, refl)
      missed withhold = unfold mrt_record_raised in (refl, refl)
      missed intervene = unfold mrt_record_raised in (refl, refl)

  mrt_proceed-SetAtStart :
      (m : Monitor E) (c : Cycle E) (a : AnalyticsResult) (regime : ProcessRegime) (dwell : ℤ)
      → SetAtStart m (mrt_proceed timestamp analyse m c a regime dwell)
  unfolding mrt_proceed
  mrt_proceed-SetAtStart m c a regime dwell =
      let m' = mrt_turn timestamp analyse m c regime dwell in
      let (arm, config) = mrt_turn-SetAtStart m c regime dwell in
      let (arm', config') = decided m' m'.spell_id m'.spell_t_k in (arm' ∙ arm, config' ∙ config)
    where
      decided :
          (n : Monitor E) (spell t_k : Option ℕ)
          → SetAtStart n (mrt_decide timestamp analyse n c a regime dwell spell t_k)
      decided n none t_k = (refl, refl)
      decided n (some spell) none = (refl, refl)
      decided n (some spell) (some t_k) =
          unfold mrt_decide in mrt_attempt-SetAtStart n c a spell regime dwell t_k _ _

  pub mrt_step-SetAtStart :
      (m : Monitor E) (c : Cycle E) (a : AnalyticsResult) (regime : ProcessRegime) (dwell : ℤ)
      → SetAtStart m (mrt_step timestamp analyse m c a regime dwell)
  unfolding mrt_step mrt_close_spell_raised
  mrt_step-SetAtStart m c a regime dwell =
      if-keeps (SetAtStart m) (exit_raises timestamp analyse m c dwell)
        (mrt_close_spell_raised timestamp analyse m)
        (mrt_proceed timestamp analyse m c a regime dwell) (refl, refl)
        (mrt_proceed-SetAtStart m c a regime dwell)

  module _ (P : Monitor E → Type 0) (c : Cycle E) (frame : (m n : Monitor E) → Same m n → P m → P n)
      (law : (m : Monitor E) (a : AnalyticsResult) (regime : ProcessRegime) (dwell : ℤ)
        → m.config.mrt_enabled ≡ false
        → P m
        → P (law_step timestamp analyse m c a regime dwell))
      (mrt : (m : Monitor E) (a : AnalyticsResult) (regime : ProcessRegime) (dwell : ℤ)
        → m.config.mrt_enabled ≡ true
        → P m
        → P (mrt_step timestamp analyse m c a regime dwell)) where
    respond-keeps :
        (m : Monitor E) (a : AnalyticsResult) (regime : ProcessRegime) (dwell : ℤ)
        → P m
        → P (respond timestamp analyse m c a regime dwell)
    unfolding respond
    respond-keeps m a regime dwell p =
        let m' = escalate timestamp analyse m regime dwell in
        let p' = frame m m' (escalate-Same m regime dwell) p in
        elim (Bool-cases m'.config.mrt_enabled) [
          | inl on ↦ rw on (mrt m' a regime dwell on p')
          | inr off ↦ rw off (law m' a regime dwell off p')
        ]

    analyse_window-keeps :
        (m : Monitor E) (es : List E) → P m → P (analyse_window timestamp analyse m c es)
    unfolding analyse_window
    analyse_window-keeps m [] p = p
    analyse_window-keeps m (e ∷ es) p =
        let a = analyse (e ∷ es) in
        let (m1, regime, dwell) = log_process_state timestamp analyse m a c.state_at in
        let failed = log_process_state_raised timestamp analyse m a c.state_at in
        if-keeps P c.sample_stored (respond timestamp analyse m1 c a regime dwell) failed
          (respond-keeps m1 a regime dwell (frame m m1 (log_process_state-Same m a c.state_at) p))
          (frame m failed (log_process_state_raised-Same m a c.state_at) p)

    -- A property that the two steps keep, and that says nothing of the other attributes, holds
    -- after every cycle.
    pub run_analysis-keeps : (m : Monitor E) → P m → P (run_analysis timestamp analyse m c)
    unfolding run_analysis
    run_analysis-keeps m p =
        let (m', window) = load_window timestamp analyse m c.loaded in
        analyse_window-keeps m' window (frame m m' (load_window-Same m c.loaded) p)
