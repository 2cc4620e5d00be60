-- ===== src/Monitor/Escalation.antt =====
-- The objective escalation of backend/analytics/runtime/monitor.py against the samples of the regime.
use onlinetlabs.Base.{
  ℕ, suc, ◌+◌, ◌≤◌, ◌≡◌, refl, ◌∙◌, Bool, false, not, ◌&&◌, Option, none, some, List, [], ◌∷◌,
  arith, if◌then◌else◌, is_some, Bool-cases, if-keeps, inl, inr,
}
use onlinetlabs.Base.Int.{ℤ}
use onlinetlabs.Regime.{ProcessRegime, Time, is_bad}
use onlinetlabs.ControlLaw.{Action, intervene, withhold, skip, Reason}
use onlinetlabs.Identifier.{AnalyticsResult}
use onlinetlabs.Monitor.{
  Monitor, Cycle, Sample, EventRow, escalation, would_intervene, intervention, Assignment, Outcome,
  orchestrator_raised, gateway_raised, responded, load_window, log_process_state, escalate,
  dispatch, mrt_dispatch, law_step, mrt_turn, mrt_decide, mrt_step, mrt_act, act_on, analyse_window,
  mrt_attempt, mrt_record_raised, mrt_proceed, mrt_close_spell_raised, exit_raises, respond,
  log_process_state_raised, mrt_record_decision, assigned_intervene, run_analysis, run_cycles,
  mrt_open_spell, mrt_close_spell, assembles, is_zero,
}

-- How many escalations are recorded.
abbrev pub escalations : List EventRow → ℕ
escalations [] = 0
escalations (escalation ∷ es) = suc (escalations es)
escalations (would_intervene _ ∷ es) = escalations es
escalations (intervention _ ∷ es) = escalations es

-- Whether the newest sample is of a bad regime.
abbrev pub ends_bad : List Sample → Bool
ends_bad [] = false
ends_bad (s ∷ older) = is_bad s.regime

-- How many unbroken runs of bad regimes the samples have, the newest first.
abbrev pub bad_runs : List Sample → ℕ
bad_runs [] = 0
bad_runs (s ∷ older) = (if is_bad s.regime && not (ends_bad older) then 1 else 0) + bad_runs older

-- The escalations are at most the runs that have had theirs, and the flag is set only in a bad run.
abbrev pub IsOnce : {E : Type 0} → Monitor E → Type 0
IsOnce m =
    (escalations m.events + (if ends_bad m.samples && not m.escalated_in_spell then 1 else 0)
      ≤ bad_runs m.samples)
    × (ends_bad m.samples ≡ false → m.escalated_in_spell ≡ false)

-- What a step after the escalation leaves as it was.
record Kept {E : Type 0} (m m' : Monitor E) : Type 0 where
  kept_count : escalations m'.events ≡ escalations m.events
  kept_samples : m'.samples ≡ m.samples
  kept_flag : m'.escalated_in_spell ≡ m.escalated_in_spell

Kept-refl : {E : Type 0} (m : Monitor E) → Kept m m
Kept-refl m = record { kept_count = refl; kept_samples = refl; kept_flag = refl }

Kept-trans : {E : Type 0} (m m' m'' : Monitor E) → Kept m m' → Kept m' m'' → Kept m m''
Kept-trans m m' m'' h k = record {
  kept_count = k.kept_count ∙ h.kept_count;
  kept_samples = k.kept_samples ∙ h.kept_samples;
  kept_flag = k.kept_flag ∙ h.kept_flag;
}

Kept-IsOnce : {E : Type 0} (m m' : Monitor E) → Kept m m' → IsOnce m → IsOnce m'
Kept-IsOnce m m' k (h, off) = rw (k.kept_count, k.kept_samples, k.kept_flag) (h, off)

module _ {E : Type 0} (timestamp : E → Time) (analyse : List E → AnalyticsResult) where
  prepare-IsOnce :
      (m : Monitor E) (a : AnalyticsResult) (t : Time)
      → IsOnce m
      → let (m1, regime, dwell) = log_process_state timestamp analyse m a t in
        IsOnce (escalate timestamp analyse m1 regime dwell)
  unfolding log_process_state escalate
  prepare-IsOnce m a t (h, off) = ground arith

  dispatch-Kept :
      (m : Monitor E) (c : Cycle E) (o : Outcome) → Kept m (dispatch timestamp analyse m c o)
  unfolding dispatch
  dispatch-Kept m c orchestrator_raised = Kept-refl m
  dispatch-Kept m c gateway_raised = record {
    kept_count = refl;
    kept_samples = refl;
    kept_flag = refl;
  }
  dispatch-Kept m c (responded success) = record {
    kept_count = refl;
    kept_samples = refl;
    kept_flag = refl;
  }

  act_on-Kept :
      (m : Monitor E) (c : Cycle E) (a : AnalyticsResult) (x : Action) (r : Reason)
      → Kept m (act_on timestamp analyse m c a x r)
  unfolding act_on
  act_on-Kept m c a skip r = Kept-refl m
  act_on-Kept m c a withhold r = record { kept_count = refl; kept_samples = refl; kept_flag = refl }
  act_on-Kept m c a intervene r =
      elim (Bool-cases (assembles timestamp analyse m a c.trigger_at && c.authorized)) [
        | inl e ↦ rw e (dispatch-Kept m c c.outcome)
        | inr e ↦ rw e (Kept-refl m)
      ]

  law_step-Kept :
      (m : Monitor E) (c : Cycle E) (a : AnalyticsResult) (g : ProcessRegime) (d : ℤ)
      → Kept m (law_step timestamp analyse m c a g d)
  unfolding law_step
  law_step-Kept m c a g d = act_on-Kept m c a _ _

  mrt_dispatch-Kept :
      (m : Monitor E) (c : Cycle E) (o : Outcome) → Kept m (mrt_dispatch timestamp analyse m c o)
  unfolding mrt_dispatch dispatch
  mrt_dispatch-Kept m c orchestrator_raised = Kept-refl m
  mrt_dispatch-Kept m c gateway_raised = record {
    kept_count = refl;
    kept_samples = refl;
    kept_flag = refl;
  }
  mrt_dispatch-Kept m c (responded success) = record {
    kept_count = refl;
    kept_samples = refl;
    kept_flag = refl;
  }

  record_decision-Kept :
      (m : Monitor E) (c : Cycle E) (spell : ℕ) (g : ProcessRegime) (d : ℤ) (t : ℕ) (x : Assignment)
      → Kept m (mrt_record_decision timestamp analyse m c spell g d t x)
  unfolding mrt_record_decision
  record_decision-Kept m c spell g d t x = record {
    kept_count = refl;
    kept_samples = refl;
    kept_flag = refl;
  }

  mrt_act-Kept :
      (m : Monitor E) (c : Cycle E) (a : AnalyticsResult) (spell : ℕ) (g : ProcessRegime) (d : ℤ)
      (t : ℕ) (x : Action) (r : Reason)
      → Kept m (mrt_act timestamp analyse m c a spell g d t x r)
  unfolding mrt_act mrt_record_decision
  mrt_act-Kept m c a spell g d t skip r = Kept-refl m
  mrt_act-Kept m c a spell g d t withhold r = record {
    kept_count = refl;
    kept_samples = refl;
    kept_flag = refl;
  }
  mrt_act-Kept m c a spell g d t intervene r =
      let m' = mrt_record_decision timestamp analyse m c spell g d t assigned_intervene in
      let k = record_decision-Kept m c spell g d t assigned_intervene in
      elim (Bool-cases (assembles timestamp analyse m' a c.trigger_at)) [
        | inl e ↦ rw e (
            Kept-trans m m' (mrt_dispatch timestamp analyse m' c c.outcome) k
              (mrt_dispatch-Kept m' c c.outcome))
        | inr e ↦ rw e k
      ]

  closed-Kept :
      (m : Monitor E) (now : Time)
      → Kept m (if is_some m.spell_id then mrt_close_spell timestamp analyse m now else m)
  unfolding mrt_close_spell
  closed-Kept m now = elim (Bool-cases (is_some m.spell_id)) [
    | inl e ↦ rw e (record { kept_count = refl; kept_samples = refl; kept_flag = refl })
    | inr e ↦ rw e (Kept-refl m)
  ]

  opened-Kept :
      (m : Monitor E) (c : Cycle E) (g : ProcessRegime)
      → Kept m (if is_bad g then mrt_open_spell timestamp analyse m c g else m)
  unfolding mrt_open_spell
  opened-Kept m c g = elim (Bool-cases (is_bad g)) [
    | inl e ↦ rw e (record { kept_count = refl; kept_samples = refl; kept_flag = refl })
    | inr e ↦ rw e (Kept-refl m)
  ]

  mrt_turn-Kept :
      (m : Monitor E) (c : Cycle E) (g : ProcessRegime) (d : ℤ)
      → Kept m (mrt_turn timestamp analyse m c g d)
  unfolding mrt_turn
  mrt_turn-Kept m c g d =
      let m1 : Monitor E =
        if is_some m.spell_id then mrt_close_spell timestamp analyse m c.now else m in
      let m2 : Monitor E = if is_bad g then mrt_open_spell timestamp analyse m1 c g else m1 in
      elim (Bool-cases (is_zero d)) [
        | inl e ↦ rw e (Kept-trans m m1 m2 (closed-Kept m c.now) (opened-Kept m1 c g))
        | inr e ↦ rw e (Kept-refl m)
      ]

  mrt_attempt-Kept :
      (m : Monitor E) (c : Cycle E) (a : AnalyticsResult) (spell : ℕ) (g : ProcessRegime) (d : ℤ)
      (t : ℕ) (x : Action) (r : Reason)
      → Kept m (mrt_attempt timestamp analyse m c a spell g d t x r)
  unfolding mrt_attempt
  mrt_attempt-Kept m c a spell g d t x r =
      if-keeps (Kept m) c.decision_stored (mrt_act timestamp analyse m c a spell g d t x r)
        (mrt_record_raised timestamp analyse m c x) (mrt_act-Kept m c a spell g d t x r) (missed x)
    where
      missed : (x : Action) → Kept m (mrt_record_raised timestamp analyse m c x)
      missed skip = unfold mrt_record_raised in Kept-refl m
      missed withhold =
          unfold mrt_record_raised in
          record { kept_count = refl; kept_samples = refl; kept_flag = refl }
      missed intervene =
          unfold mrt_record_raised in
          record { kept_count = refl; kept_samples = refl; kept_flag = refl }

  mrt_decide-Kept :
      (m : Monitor E) (c : Cycle E) (a : AnalyticsResult) (g : ProcessRegime) (d : ℤ)
      (spell t : Option ℕ)
      → Kept m (mrt_decide timestamp analyse m c a g d spell t)
  unfolding mrt_decide
  mrt_decide-Kept m c a g d (some spell) (some t) = mrt_attempt-Kept m c a spell g d t _ _
  mrt_decide-Kept m c a g d none t = Kept-refl m
  mrt_decide-Kept m c a g d (some spell) none = Kept-refl m

  mrt_proceed-Kept :
      (m : Monitor E) (c : Cycle E) (a : AnalyticsResult) (g : ProcessRegime) (d : ℤ)
      → Kept m (mrt_proceed timestamp analyse m c a g d)
  unfolding mrt_proceed
  mrt_proceed-Kept m c a g d =
      let m' = mrt_turn timestamp analyse m c g d in
      Kept-trans m m' (mrt_proceed timestamp analyse m c a g d) (mrt_turn-Kept m c g d)
        (mrt_decide-Kept m' c a g d m'.spell_id m'.spell_t_k)

  mrt_step-Kept :
      (m : Monitor E) (c : Cycle E) (a : AnalyticsResult) (g : ProcessRegime) (d : ℤ)
      → Kept m (mrt_step timestamp analyse m c a g d)
  unfolding mrt_step mrt_close_spell_raised
  mrt_step-Kept m c a g d =
      if-keeps (Kept m) (exit_raises timestamp analyse m c d)
        (mrt_close_spell_raised timestamp analyse m) (mrt_proceed timestamp analyse m c a g d)
        (record { kept_count = refl; kept_samples = refl; kept_flag = refl })
        (mrt_proceed-Kept m c a g d)

  respond-IsOnce :
      (m : Monitor E) (c : Cycle E) (a : AnalyticsResult) (g : ProcessRegime) (d : ℤ)
      → IsOnce (escalate timestamp analyse m g d)
      → IsOnce (respond timestamp analyse m c a g d)
  unfolding respond
  respond-IsOnce m c a g d once =
      let m' = escalate timestamp analyse m g d in
      elim (Bool-cases m'.config.mrt_enabled) [
        | inl on ↦
            rw on (
              Kept-IsOnce m' (mrt_step timestamp analyse m' c a g d) (mrt_step-Kept m' c a g d)
                once)
        | inr off ↦
            rw off (
              Kept-IsOnce m' (law_step timestamp analyse m' c a g d) (law_step-Kept m' c a g d)
                once)
      ]

  raised-Kept :
      (m : Monitor E) (a : AnalyticsResult) (t : Time)
      → Kept m (log_process_state_raised timestamp analyse m a t)
  unfolding log_process_state_raised
  raised-Kept m a t = record { kept_count = refl; kept_samples = refl; kept_flag = refl }

  analyse_window-IsOnce :
      (m : Monitor E) (c : Cycle E) (window : List E)
      → IsOnce m
      → IsOnce (analyse_window timestamp analyse m c window)
  unfolding analyse_window
  analyse_window-IsOnce m c [] h = h
  analyse_window-IsOnce m c (e ∷ es) h =
      let a = analyse (e ∷ es) in
      let (m1, g, d) = log_process_state timestamp analyse m a c.state_at in
      let failed = log_process_state_raised timestamp analyse m a c.state_at in
      if-keeps IsOnce c.sample_stored (respond timestamp analyse m1 c a g d) failed
        (respond-IsOnce m1 c a g d (prepare-IsOnce m a c.state_at h))
        (Kept-IsOnce m failed (raised-Kept m a c.state_at) h)

  run_analysis-IsOnce :
      (m : Monitor E) (c : Cycle E) → IsOnce m → IsOnce (run_analysis timestamp analyse m c)
  unfolding run_analysis load_window
  run_analysis-IsOnce m c h =
      elim (c.loaded)
        as (λ es. IsOnce (
          analyse_window timestamp analyse (load_window timestamp analyse m es).0 c
            (load_window timestamp analyse m es).1)) [
              | [] ↦ analyse_window-IsOnce m c m.last_events h
              | e ∷ es ↦
                  analyse_window-IsOnce (load_window timestamp analyse m (e ∷ es)).0 c (e ∷ es) h
            ]

  -- Over any sequence of cycles, with or without MRT, from a monitor of which this holds (a new one
  -- is such), the escalations that are recorded are at most as many as the unbroken runs of bad
  -- regimes among the samples, one fewer while the current run has had none; the flag of the
  -- escalation is clear after a sample of a good regime.
  pub run_cycles-IsOnce :
      (m : Monitor E) (cs : List (Cycle E)) → IsOnce m → IsOnce (run_cycles timestamp analyse m cs)
  unfolding run_cycles
  run_cycles-IsOnce m [] h = h
  run_cycles-IsOnce m (c ∷ cs) h =
      run_cycles-IsOnce (run_analysis timestamp analyse m c) cs (run_analysis-IsOnce m c h)
