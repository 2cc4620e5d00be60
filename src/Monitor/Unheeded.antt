-- ===== src/Monitor/Unheeded.antt =====
-- The cycles of backend/analytics/runtime/monitor.py under MRT, and the control interface.
use onlinetlabs.Base.{
  ℕ, ◌≡◌, refl, ap, ◌∙◌, Bool, true, Option, none, some, List, [], ◌∷◌, if◌then◌else◌,
}
use onlinetlabs.Base.Int.{ℤ}
use onlinetlabs.Regime.{ProcessRegime, Time}
use onlinetlabs.ControlLaw.{Action, intervene, withhold, skip, Reason}
use onlinetlabs.Identifier.{AnalyticsResult}
use onlinetlabs.Monitor.Frame.{load_window-Same, prepare, prepare-config}
use onlinetlabs.Monitor.{
  Monitor, Cycle, Outcome, orchestrator_raised, load_window, log_process_state, escalate, mrt_turn,
  mrt_decide, mrt_step, mrt_act, mrt_dispatch, mrt_record_decision, assigned_intervene, mrt_attempt,
  mrt_record_raised, mrt_proceed, mrt_close_spell_raised, exit_raises, respond,
  log_process_state_raised, assembles, analyse_window, run_analysis,
}

module _ {E : Type 0} (timestamp : E → Time) (analyse : List E → AnalyticsResult) where
  -- The cycle with another verdict of the control interface.
  abbrev pub with_verdict : Cycle E → Bool → Cycle E
  with_verdict c b = record c { authorized = b }

  dispatch-unheeded :
      (m : Monitor E) (c : Cycle E) (b : Bool) (o : Outcome)
      → mrt_dispatch timestamp analyse m (with_verdict c b) o ≡ mrt_dispatch timestamp analyse m c o
  unfolding mrt_dispatch
  dispatch-unheeded m c b orchestrator_raised = refl
  dispatch-unheeded m c b _ = refl

  mrt_act-unheeded :
      (m : Monitor E) (c : Cycle E) (b : Bool) (a : AnalyticsResult) (spell : ℕ)
      (regime : ProcessRegime) (dwell : ℤ) (t_k : ℕ) (x : Action) (r : Reason)
      → mrt_act timestamp analyse m (with_verdict c b) a spell regime dwell t_k x r
        ≡ mrt_act timestamp analyse m c a spell regime dwell t_k x r
  unfolding mrt_act
  mrt_act-unheeded m c b a spell regime dwell t_k skip r = refl
  mrt_act-unheeded m c b a spell regime dwell t_k withhold r = refl
  mrt_act-unheeded m c b a spell regime dwell t_k intervene r =
      let m' =
        mrt_record_decision timestamp analyse m c spell regime dwell t_k assigned_intervene in
      ap (λ n. if assembles timestamp analyse m' a c.trigger_at then n else m')
        (dispatch-unheeded m' c b c.outcome)

  mrt_attempt-unheeded :
      (m : Monitor E) (c : Cycle E) (b : Bool) (a : AnalyticsResult) (spell : ℕ)
      (regime : ProcessRegime) (dwell : ℤ) (t_k : ℕ) (x : Action) (r : Reason)
      → mrt_attempt timestamp analyse m (with_verdict c b) a spell regime dwell t_k x r
        ≡ mrt_attempt timestamp analyse m c a spell regime dwell t_k x r
  unfolding mrt_attempt mrt_record_raised
  mrt_attempt-unheeded m c b a spell regime dwell t_k x r =
      ap (λ n. if c.decision_stored then n else mrt_record_raised timestamp analyse m c x)
        (mrt_act-unheeded m c b a spell regime dwell t_k x r)
      ∙ ap
          (λ n.
            if c.decision_stored
            then mrt_act timestamp analyse m c a spell regime dwell t_k x r
            else n)
          (same x)
    where
      same :
          (x : Action)
          → mrt_record_raised timestamp analyse m (with_verdict c b) x
            ≡ mrt_record_raised timestamp analyse m c x
      same skip = unfold mrt_record_raised in refl
      same withhold = unfold mrt_record_raised in refl
      same intervene = unfold mrt_record_raised in refl

  mrt_decide-unheeded :
      (m : Monitor E) (c : Cycle E) (b : Bool) (a : AnalyticsResult) (regime : ProcessRegime)
      (dwell : ℤ) (spell t_k : Option ℕ)
      → mrt_decide timestamp analyse m (with_verdict c b) a regime dwell spell t_k
        ≡ mrt_decide timestamp analyse m c a regime dwell spell t_k
  unfolding mrt_decide
  mrt_decide-unheeded m c b a regime dwell none t_k = refl
  mrt_decide-unheeded m c b a regime dwell (some spell) none = refl
  mrt_decide-unheeded m c b a regime dwell (some spell) (some t_k) =
      mrt_attempt-unheeded m c b a spell regime dwell t_k _ _

  mrt_step-unheeded :
      (m : Monitor E) (c : Cycle E) (b : Bool) (a : AnalyticsResult) (regime : ProcessRegime)
      (dwell : ℤ)
      → mrt_step timestamp analyse m (with_verdict c b) a regime dwell
        ≡ mrt_step timestamp analyse m c a regime dwell
  unfolding mrt_step mrt_proceed exit_raises
  mrt_step-unheeded m c b a regime dwell =
      let m' = mrt_turn timestamp analyse m c regime dwell in
      ap
        (λ n.
          if exit_raises timestamp analyse m c dwell
          then mrt_close_spell_raised timestamp analyse m
          else n)
        (mrt_decide-unheeded m' c b a regime dwell m'.spell_id m'.spell_t_k)

  respond-unheeded :
      (m : Monitor E) (c : Cycle E) (b : Bool) (a : AnalyticsResult) (regime : ProcessRegime)
      (dwell : ℤ)
      → (escalate timestamp analyse m regime dwell).config.mrt_enabled ≡ true
      → respond timestamp analyse m (with_verdict c b) a regime dwell
        ≡ respond timestamp analyse m c a regime dwell
  unfolding respond
  respond-unheeded m c b a regime dwell on =
      rw on (mrt_step-unheeded (escalate timestamp analyse m regime dwell) c b a regime dwell)

  mrt_analyse_window-unheeded :
      (m : Monitor E) (c : Cycle E) (b : Bool) (es : List E)
      → m.config.mrt_enabled ≡ true
      → analyse_window timestamp analyse m (with_verdict c b) es
        ≡ analyse_window timestamp analyse m c es
  unfolding analyse_window prepare
  mrt_analyse_window-unheeded m c b [] on = refl
  mrt_analyse_window-unheeded m c b (e ∷ es) on =
      let a = analyse (e ∷ es) in
      let (m1, regime, dwell) = log_process_state timestamp analyse m a c.state_at in
      let still = ap (λ g. g.mrt_enabled) (prepare-config timestamp analyse m a c.state_at) ∙ on in
      ap
        (λ n.
          if c.sample_stored then n else log_process_state_raised timestamp analyse m a c.state_at)
        (respond-unheeded m1 c b a regime dwell still)

  pub run_analysis-mrt_unheeded :
      (m : Monitor E) (c : Cycle E) (b : Bool)
      → m.config.mrt_enabled ≡ true
      → run_analysis timestamp analyse m (with_verdict c b) ≡ run_analysis timestamp analyse m c
  unfolding run_analysis
  run_analysis-mrt_unheeded m c b on =
      let (m', window) = load_window timestamp analyse m c.loaded in
      mrt_analyse_window-unheeded m' c b window
        (ap (λ g. g.mrt_enabled) (load_window-Same timestamp analyse m c.loaded).same_config ∙ on)
