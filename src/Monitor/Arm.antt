-- ===== src/Monitor/Arm.antt =====
-- Who may be intervened on by backend/analytics/runtime/monitor.py: the arm, the control interface.
use onlinetlabs.Base.{
  ℕ, ◌+◌, ◌≡◌, ◌≢◌, refl, ap, ◌∙◌, Bool, true, false, Option, none, some, List, [], ◌∷◌, arith,
  if◌then◌else◌, if-keeps,
}
use onlinetlabs.Base.Int.{ℤ}
use onlinetlabs.Regime.{ProcessRegime, Time}
use onlinetlabs.ControlLaw.{
  ControlArm, open_loop, Config, should_intervene, Action, intervene, withhold, skip, Reason,
}
use onlinetlabs.Identifier.{AnalyticsResult}
use onlinetlabs.Monitor.Frame.{law_step-SetAtStart, mrt_step-SetAtStart, run_analysis-keeps}
use onlinetlabs.Monitor.Unheeded.{with_verdict, run_analysis-mrt_unheeded}
use onlinetlabs.Monitor.{
  Monitor, Cycle, Act, law_step, mrt_turn, mrt_decide, mrt_step, mrt_act, act_on, mrt_attempt,
  mrt_record_raised, mrt_proceed, mrt_close_spell_raised, exit_raises, run_analysis, run_cycles,
}

-- How many interventions were delivered.
abbrev pub deliveries : List Act → ℕ
deliveries [] = 0
deliveries (a ∷ acts) = (if a.delivered then 1 else 0) + deliveries acts

law_open_arm :
    (regime : ProcessRegime) (dwell : ℤ) (arm : ControlArm) (last : Option Time) (cfg : Config)
    (now : Time) (mrt draw : Option ℕ)
    → arm ≡ open_loop
    → (should_intervene regime dwell arm last cfg now mrt draw).action ≢ intervene
unfolding should_intervene
law_open_arm regime dwell arm last cfg now mrt draw h = ground arith

module _ {E : Type 0} (timestamp : E → Time) (analyse : List E → AnalyticsResult) where
  act_on-quiet :
      (m : Monitor E) (c : Cycle E) (a : AnalyticsResult) (x : Action) (r : Reason)
      → x ≢ intervene
      → deliveries (act_on timestamp analyse m c a x r).acts ≡ deliveries m.acts
  unfolding act_on
  act_on-quiet m c a skip r h = refl
  act_on-quiet m c a withhold r h = ground arith
  act_on-quiet m c a intervene r h = absurd (h refl)

  mrt_act-quiet :
      (m : Monitor E) (c : Cycle E) (a : AnalyticsResult) (spell : ℕ) (regime : ProcessRegime)
      (dwell : ℤ) (t_k : ℕ) (x : Action) (r : Reason)
      → x ≢ intervene
      → deliveries (mrt_act timestamp analyse m c a spell regime dwell t_k x r).acts
        ≡ deliveries m.acts
  unfolding mrt_act
  mrt_act-quiet m c a spell regime dwell t_k skip r h = refl
  mrt_act-quiet m c a spell regime dwell t_k withhold r h = ground arith
  mrt_act-quiet m c a spell regime dwell t_k intervene r h = absurd (h refl)

  mrt_record_raised-quiet :
      (m : Monitor E) (c : Cycle E) (x : Action)
      → (mrt_record_raised timestamp analyse m c x).acts ≡ m.acts
  unfolding mrt_record_raised
  mrt_record_raised-quiet m c skip = refl
  mrt_record_raised-quiet m c withhold = refl
  mrt_record_raised-quiet m c intervene = refl

  mrt_attempt-quiet :
      (m : Monitor E) (c : Cycle E) (a : AnalyticsResult) (spell : ℕ) (regime : ProcessRegime)
      (dwell : ℤ) (t_k : ℕ) (x : Action) (r : Reason)
      → x ≢ intervene
      → deliveries (mrt_attempt timestamp analyse m c a spell regime dwell t_k x r).acts
        ≡ deliveries m.acts
  unfolding mrt_attempt
  mrt_attempt-quiet m c a spell regime dwell t_k x r h =
      if-keeps (λ n. deliveries n.acts ≡ deliveries m.acts) c.decision_stored
        (mrt_act timestamp analyse m c a spell regime dwell t_k x r)
        (mrt_record_raised timestamp analyse m c x)
        (mrt_act-quiet m c a spell regime dwell t_k x r h)
        (ap deliveries (mrt_record_raised-quiet m c x))

  law_step-quiet :
      (m : Monitor E) (c : Cycle E) (a : AnalyticsResult) (regime : ProcessRegime) (dwell : ℤ)
      → m.control_arm ≡ open_loop
      → deliveries (law_step timestamp analyse m c a regime dwell).acts ≡ deliveries m.acts
  unfolding law_step
  law_step-quiet m c a regime dwell h =
      act_on-quiet m c a _ _
        (law_open_arm regime dwell m.control_arm m.last_intervention_at m.config c.now none none h)

  mrt_decide-quiet :
      (m : Monitor E) (c : Cycle E) (a : AnalyticsResult) (regime : ProcessRegime) (dwell : ℤ)
      (spell t_k : Option ℕ)
      → m.control_arm ≡ open_loop
      → deliveries (mrt_decide timestamp analyse m c a regime dwell spell t_k).acts
        ≡ deliveries m.acts
  unfolding mrt_decide
  mrt_decide-quiet m c a regime dwell (some spell) (some t_k) h =
      mrt_attempt-quiet m c a spell regime dwell t_k _ _ (
        law_open_arm regime dwell m.control_arm m.last_intervention_at m.config c.now (some t_k)
          (some c.hold_draw) h)
  mrt_decide-quiet m c a regime dwell (some spell) none h = refl
  mrt_decide-quiet m c a regime dwell none t_k h = refl

  mrt_turn-quiet :
      (m : Monitor E) (c : Cycle E) (regime : ProcessRegime) (dwell : ℤ)
      → let m' = mrt_turn timestamp analyse m c regime dwell in
        (m'.acts ≡ m.acts)
        × (m'.control_arm ≡ m.control_arm)
        × (m'.last_intervention_at ≡ m.last_intervention_at)
        × (m'.config ≡ m.config)
  unfolding mrt_turn
  mrt_turn-quiet m c regime dwell = ground arith

  mrt_proceed-quiet :
      (m : Monitor E) (c : Cycle E) (a : AnalyticsResult) (regime : ProcessRegime) (dwell : ℤ)
      → m.control_arm ≡ open_loop
      → deliveries (mrt_proceed timestamp analyse m c a regime dwell).acts ≡ deliveries m.acts
  unfolding mrt_proceed
  mrt_proceed-quiet m c a regime dwell h =
      let m' = mrt_turn timestamp analyse m c regime dwell in
      let (same, arm, _, _) = mrt_turn-quiet m c regime dwell in
      mrt_decide-quiet m' c a regime dwell m'.spell_id m'.spell_t_k (arm ∙ h) ∙ ap deliveries same

  mrt_step-quiet :
      (m : Monitor E) (c : Cycle E) (a : AnalyticsResult) (regime : ProcessRegime) (dwell : ℤ)
      → m.control_arm ≡ open_loop
      → deliveries (mrt_step timestamp analyse m c a regime dwell).acts ≡ deliveries m.acts
  unfolding mrt_step mrt_close_spell_raised
  mrt_step-quiet m c a regime dwell h =
      if-keeps (λ n. deliveries n.acts ≡ deliveries m.acts)
        (exit_raises timestamp analyse m c dwell) (mrt_close_spell_raised timestamp analyse m)
        (mrt_proceed timestamp analyse m c a regime dwell) refl
        (mrt_proceed-quiet m c a regime dwell h)

  -- An open-arm monitor that has delivered so many interventions.
  Quiet : ℕ → Monitor E → Type 0
  Quiet n m = (m.control_arm ≡ open_loop) × (deliveries m.acts ≡ n)

  run_analysis-Quiet :
      (n : ℕ) (m : Monitor E) (c : Cycle E)
      → Quiet n m
      → Quiet n (run_analysis timestamp analyse m c)
  unfolding Quiet
  run_analysis-Quiet n m c q =
      run_analysis-keeps timestamp analyse (Quiet n) c
        (λ m m' same p. (same.same_arm ∙ p.0, ap deliveries same.same_acts ∙ p.1))
        (λ m a regime dwell _ p. (
          (law_step-SetAtStart timestamp analyse m c a regime dwell).0 ∙ p.0,
          law_step-quiet m c a regime dwell p.0 ∙ p.1,
        ))
        (λ m a regime dwell _ p. (
          (mrt_step-SetAtStart timestamp analyse m c a regime dwell).0 ∙ p.0,
          mrt_step-quiet m c a regime dwell p.0 ∙ p.1,
        ))
        m q

  run_cycles-Quiet :
      (n : ℕ) (m : Monitor E) (cs : List (Cycle E))
      → Quiet n m
      → Quiet n (run_cycles timestamp analyse m cs)
  unfolding run_cycles
  run_cycles-Quiet n m [] q = q
  run_cycles-Quiet n m (c ∷ cs) q =
      run_cycles-Quiet n (run_analysis timestamp analyse m c) cs (run_analysis-Quiet n m c q)

  -- However many cycles an open-arm monitor runs, with or without MRT and whatever they meet, it
  -- delivers no intervention.
  pub run_cycles-open_arm :
      (m : Monitor E) (cs : List (Cycle E))
      → m.control_arm ≡ open_loop
      → deliveries (run_cycles timestamp analyse m cs).acts ≡ deliveries m.acts
  run_cycles-open_arm m cs h =
      unfold Quiet in (run_cycles-Quiet (deliveries m.acts) m cs (h, refl)).1

  law_step-unauthorized :
      (m : Monitor E) (c : Cycle E) (a : AnalyticsResult) (regime : ProcessRegime) (dwell : ℤ)
      → c.authorized ≡ false
      → deliveries (law_step timestamp analyse m c a regime dwell).acts ≡ deliveries m.acts
  unfolding law_step
  law_step-unauthorized m c a regime dwell h = acted _ _
    where
      acted :
          (x : Action) (r : Reason)
          → deliveries (act_on timestamp analyse m c a x r).acts ≡ deliveries m.acts
      acted skip r = refl
      acted withhold r = ground arith
      acted intervene r = ground arith

  Unauthorized : ℕ → Monitor E → Type 0
  Unauthorized n m = (m.config.mrt_enabled ≡ false) × (deliveries m.acts ≡ n)

  run_analysis-unauthorized :
      (m : Monitor E) (c : Cycle E)
      → m.config.mrt_enabled ≡ false
      → c.authorized ≡ false
      → deliveries (run_analysis timestamp analyse m c).acts ≡ deliveries m.acts
  run_analysis-unauthorized m c off h =
      let kept =
        run_analysis-keeps timestamp analyse (Unauthorized (deliveries m.acts)) c
          (λ m m' same p.
            unfold Unauthorized in
            (ap (λ g. g.mrt_enabled) same.same_config ∙ p.0, ap deliveries same.same_acts ∙ p.1))
          (λ m a regime dwell _ p.
            unfold Unauthorized in
            (
              ap (λ g. g.mrt_enabled) (law_step-SetAtStart timestamp analyse m c a regime dwell).1
                  ∙ p.0,
              law_step-unauthorized m c a regime dwell h ∙ p.1,
            ))
          (λ m a regime dwell on p. unfold Unauthorized in cc) m
          (unfold Unauthorized in (off, refl)) in
      unfold Unauthorized in kept.1

  -- Without MRT, a cycle whose intervention the control interface denies delivers none. Under MRT the
  -- verdict of the control interface changes nothing: the cycle of `_mrt_step` delivers the same
  -- interventions and ends in the same state whether they are authorized or not.
  pub run_analysis-with_verdict :
      (m : Monitor E) (c : Cycle E) (b : Bool)
      → (m.config.mrt_enabled ≡ false
          → c.authorized ≡ false
          → deliveries (run_analysis timestamp analyse m c).acts ≡ deliveries m.acts)
        × (m.config.mrt_enabled ≡ true
            → run_analysis timestamp analyse m (with_verdict timestamp analyse c b)
              ≡ run_analysis timestamp analyse m c)
  run_analysis-with_verdict m c b =
      (run_analysis-unauthorized m c, run_analysis-mrt_unheeded timestamp analyse m c b)
