-- ===== src/Monitor/Spells.antt =====
-- The spells of the micro-randomized trial in backend/analytics/runtime/monitor.py, and the
-- censoring of backend/analytics/runtime/mrt.py.
use mathlib.Core.Path.{subst, subst₃}
use onlinetlabs.Base.{
  ℕ, ◌≡◌, refl, sym, true, false, Option, none, some, List, [], ◌∷◌, arith, if◌then◌else◌, if-keeps,
  is_some, contains, All, All-map, All-weaken, Bool-cases, Option-cases, inl, inr, ==_refl, ◌&&◌,
}
use onlinetlabs.Base.Int.{ℤ}
use onlinetlabs.Regime.{ProcessRegime, Time, is_bad}
use onlinetlabs.ControlLaw.{Action, intervene, withhold, skip, Reason}
use onlinetlabs.Identifier.{AnalyticsResult}
use onlinetlabs.Monitor.{
  Monitor, Cycle, DecisionRow, Assignment, Outcome, orchestrator_raised, gateway_raised, responded,
  dispatch, mrt_dispatch, law_step, mrt_turn, mrt_decide, mrt_step, mrt_act, act_on,
  mrt_record_decision, assigned_intervene, assigned_withhold, run_analysis, run_cycles, assembles,
  is_zero, mrt_attempt, mrt_record_raised, mrt_proceed, exit_raises, mrt_open_spell,
  mrt_close_spell, close_row,
}
use onlinetlabs.Monitor.Frame.{Same, run_analysis-keeps}

-- A decision point without an exit time is one of the open ones of the current spell.
abbrev pub IsCurrent : Option ℕ → List ℕ → DecisionRow → Type 0
IsCurrent spell ids row =
    row.subsequent_exit_ts ≡ none → (contains row.id ids ≡ true) × (some row.spell_id ≡ spell)

abbrev pub IsTidy : {E : Type 0} → Monitor E → Type 0
IsTidy m = All (IsCurrent m.spell_id m.open_decision_ids) m.decisions

-- No decision point is open.
abbrev IsClosed : DecisionRow → Type 0
IsClosed row = row.subsequent_exit_ts ≡ none → ⊥

IsClosed-close_row :
    (spell : Option ℕ) (ids : List ℕ) (now : Time) (row : DecisionRow)
    → IsCurrent spell ids row
    → IsClosed (close_row ids now row)
unfolding close_row
IsClosed-close_row spell ids now row h = elim (Bool-cases (contains row.id ids)) [
  | inl listed ↦ rw listed (λ e. cc)
  | inr other ↦ rw other (λ e. cc (h e).0)
]

IsClosed-no_spell : (ids : List ℕ) (row : DecisionRow) → IsCurrent none ids row → IsClosed row
IsClosed-no_spell ids row h e = cc (h e).1

IsCurrent-cons :
    (spell : Option ℕ) (id : ℕ) (ids : List ℕ) (row : DecisionRow)
    → IsCurrent spell ids row
    → IsCurrent spell (id ∷ ids) row
IsCurrent-cons spell id ids row h e = ground (arith, h e)

Same-IsTidy : {E : Type 0} (m n : Monitor E) → Same m n → IsTidy m → IsTidy n
Same-IsTidy m n same t =
    subst₃ (λ spell ids rows. All (IsCurrent spell ids) rows) (sym same.same_spell)
      (sym same.same_open) (sym same.same_decisions) t

module _ {E : Type 0} (timestamp : E → Time) (analyse : List E → AnalyticsResult)
    (c : Cycle E) where
  closed-IsTidy : (m : Monitor E) → All IsClosed m.decisions → IsTidy m
  closed-IsTidy m h =
      All-weaken IsClosed (IsCurrent m.spell_id m.open_decision_ids)
        (λ row closed e. absurd (closed e)) m.decisions h

  -- The monitor after the close at the head of `_mrt_step`.
  after_close : Monitor E → Monitor E
  after_close m = if is_some m.spell_id then mrt_close_spell timestamp analyse m c.now else m

  after_close-IsClosed : (m : Monitor E) → IsTidy m → All IsClosed (after_close m).decisions
  unfolding after_close mrt_close_spell
  after_close-IsClosed m t = elim (Option-cases m.spell_id) [
    | inl e ↦
        let t' = subst (λ s. All (IsCurrent s m.open_decision_ids) m.decisions) e t in
        rw e (
          All-weaken (IsCurrent none m.open_decision_ids) IsClosed
            (IsClosed-no_spell m.open_decision_ids) m.decisions t')
    | inr (s, e) ↦ rw e (
        All-map (IsCurrent m.spell_id m.open_decision_ids) IsClosed
          (close_row m.open_decision_ids c.now)
          (IsClosed-close_row m.spell_id m.open_decision_ids c.now) m.decisions t)
  ]

  mrt_turn-IsTidy :
      (m : Monitor E) (regime : ProcessRegime) (dwell : ℤ)
      → IsTidy m
      → IsTidy (mrt_turn timestamp analyse m c regime dwell)
  unfolding mrt_turn after_close
  mrt_turn-IsTidy m regime dwell t =
      let m' = after_close m in
      let closed = after_close-IsClosed m t in
      if-keeps IsTidy (is_zero dwell)
        (if is_bad regime then mrt_open_spell timestamp analyse m' c regime else m') m
        (if-keeps IsTidy (is_bad regime) (mrt_open_spell timestamp analyse m' c regime) m'
          (closed-IsTidy (mrt_open_spell timestamp analyse m' c regime) closed)
          (closed-IsTidy m' closed))
        t

  mrt_record_decision-IsTidy :
      (m : Monitor E) (spell : ℕ) (regime : ProcessRegime) (dwell : ℤ) (t_k : ℕ) (w : Assignment)
      → m.spell_id ≡ some spell
      → IsTidy m
      → IsTidy (mrt_record_decision timestamp analyse m c spell regime dwell t_k w)
  unfolding mrt_record_decision
  mrt_record_decision-IsTidy m spell regime dwell t_k w e t = (
    λ _. (ground (arith, ==_refl c.fresh_row), sym e),
    All-weaken (IsCurrent m.spell_id m.open_decision_ids)
        (IsCurrent m.spell_id (c.fresh_row ∷ m.open_decision_ids))
        (IsCurrent-cons m.spell_id c.fresh_row m.open_decision_ids) m.decisions t,
  )

  mrt_dispatch-IsTidy :
      (m : Monitor E) (o : Outcome) → IsTidy m → IsTidy (mrt_dispatch timestamp analyse m c o)
  unfolding mrt_dispatch dispatch
  mrt_dispatch-IsTidy m orchestrator_raised t = t
  mrt_dispatch-IsTidy m gateway_raised t = t
  mrt_dispatch-IsTidy m (responded b) t = t

  mrt_act-IsTidy :
      (m : Monitor E) (a : AnalyticsResult) (spell : ℕ) (regime : ProcessRegime) (dwell : ℤ)
      (t_k : ℕ) (x : Action) (r : Reason)
      → m.spell_id ≡ some spell
      → IsTidy m
      → IsTidy (mrt_act timestamp analyse m c a spell regime dwell t_k x r)
  unfolding mrt_act
  mrt_act-IsTidy m a spell regime dwell t_k skip r e t = t
  mrt_act-IsTidy m a spell regime dwell t_k withhold r e t =
      mrt_record_decision-IsTidy m spell regime dwell t_k assigned_withhold e t
  mrt_act-IsTidy m a spell regime dwell t_k intervene r e t =
      let m' =
        mrt_record_decision timestamp analyse m c spell regime dwell t_k assigned_intervene in
      let t' = mrt_record_decision-IsTidy m spell regime dwell t_k assigned_intervene e t in
      if-keeps IsTidy (assembles timestamp analyse m' a c.trigger_at)
        (mrt_dispatch timestamp analyse m' c c.outcome) m' (mrt_dispatch-IsTidy m' c.outcome t') t'

  mrt_attempt-IsTidy :
      (m : Monitor E) (a : AnalyticsResult) (spell : ℕ) (regime : ProcessRegime) (dwell : ℤ)
      (t_k : ℕ) (x : Action) (r : Reason)
      → m.spell_id ≡ some spell
      → IsTidy m
      → IsTidy (mrt_attempt timestamp analyse m c a spell regime dwell t_k x r)
  unfolding mrt_attempt
  mrt_attempt-IsTidy m a spell regime dwell t_k x r e t =
      if-keeps IsTidy c.decision_stored (mrt_act timestamp analyse m c a spell regime dwell t_k x r)
        (mrt_record_raised timestamp analyse m c x)
        (mrt_act-IsTidy m a spell regime dwell t_k x r e t) (missed x)
    where
      listed : IsTidy (record m { open_decision_ids = c.fresh_row ∷ m.open_decision_ids })
      listed =
          All-weaken (IsCurrent m.spell_id m.open_decision_ids)
            (IsCurrent m.spell_id (c.fresh_row ∷ m.open_decision_ids))
            (IsCurrent-cons m.spell_id c.fresh_row m.open_decision_ids) m.decisions t

      missed : (x : Action) → IsTidy (mrt_record_raised timestamp analyse m c x)
      missed skip = unfold mrt_record_raised in t
      missed withhold = unfold mrt_record_raised in listed
      missed intervene = unfold mrt_record_raised in listed

  mrt_decide-IsTidy :
      (m : Monitor E) (a : AnalyticsResult) (regime : ProcessRegime) (dwell : ℤ)
      (spell t_k : Option ℕ)
      → m.spell_id ≡ spell
      → IsTidy m
      → IsTidy (mrt_decide timestamp analyse m c a regime dwell spell t_k)
  unfolding mrt_decide
  mrt_decide-IsTidy m a regime dwell none t_k e t = t
  mrt_decide-IsTidy m a regime dwell (some spell) none e t = t
  mrt_decide-IsTidy m a regime dwell (some spell) (some t_k) e t =
      mrt_attempt-IsTidy m a spell regime dwell t_k _ _ e t

  mrt_proceed-IsTidy :
      (m : Monitor E) (a : AnalyticsResult) (regime : ProcessRegime) (dwell : ℤ)
      → IsTidy m
      → IsTidy (mrt_proceed timestamp analyse m c a regime dwell)
  unfolding mrt_proceed
  mrt_proceed-IsTidy m a regime dwell t =
      let m' = mrt_turn timestamp analyse m c regime dwell in
      mrt_decide-IsTidy m' a regime dwell m'.spell_id m'.spell_t_k refl
        (mrt_turn-IsTidy m regime dwell t)

  stored-exit_raises :
      (m : Monitor E) (dwell : ℤ)
      → c.exit_stored ≡ true
      → exit_raises timestamp analyse m c dwell ≡ false
  unfolding exit_raises
  stored-exit_raises m dwell h = ground (arith, h)

  mrt_step-IsTidy :
      (m : Monitor E) (a : AnalyticsResult) (regime : ProcessRegime) (dwell : ℤ)
      → c.exit_stored ≡ true
      → IsTidy m
      → IsTidy (mrt_step timestamp analyse m c a regime dwell)
  unfolding mrt_step
  mrt_step-IsTidy m a regime dwell h t =
      rw (stored-exit_raises m dwell h) (mrt_proceed-IsTidy m a regime dwell t)

  law_step-IsTidy :
      (m : Monitor E) (a : AnalyticsResult) (regime : ProcessRegime) (dwell : ℤ)
      → IsTidy m
      → IsTidy (law_step timestamp analyse m c a regime dwell)
  unfolding law_step
  law_step-IsTidy m a regime dwell t = acted _ _
    where
      dispatched : (o : Outcome) → IsTidy (dispatch timestamp analyse m c o)
      dispatched orchestrator_raised = unfold dispatch in t
      dispatched gateway_raised = unfold dispatch in t
      dispatched (responded b) = unfold dispatch in t

      acted : (x : Action) (r : Reason) → IsTidy (act_on timestamp analyse m c a x r)
      acted skip r = unfold act_on in t
      acted withhold r = unfold act_on in t
      acted intervene r =
          unfold act_on in
          if-keeps IsTidy (assembles timestamp analyse m a c.trigger_at && c.authorized)
            (dispatch timestamp analyse m c c.outcome) m (dispatched c.outcome) t

  run_analysis-IsTidy :
      (m : Monitor E)
      → c.exit_stored ≡ true
      → IsTidy m
      → IsTidy (run_analysis timestamp analyse m c)
  run_analysis-IsTidy m h t =
      run_analysis-keeps timestamp analyse IsTidy c (λ m n same t. Same-IsTidy m n same t)
        (λ m a regime dwell _ t. law_step-IsTidy m a regime dwell t)
        (λ m a regime dwell _ t. mrt_step-IsTidy m a regime dwell h t) m t

-- A cycle in which the commit of an exit, if there is one, returns.
abbrev pub StoresExit : {E : Type 0} → Cycle E → Type 0
StoresExit c = c.exit_stored ≡ true

module _ {E : Type 0} (timestamp : E → Time) (analyse : List E → AnalyticsResult) where
  -- From a monitor of which this holds (a new one is such), after any sequence of cycles in which no
  -- commit of a spell's exit raises, whichever commits of samples and of decision points do, each
  -- decision point whose exit time is not set is listed as open and belongs to the current spell.
  pub run_cycles-IsTidy :
      (m : Monitor E) (cs : List (Cycle E))
      → IsTidy m
      → All StoresExit cs
      → IsTidy (run_cycles timestamp analyse m cs)
  unfolding run_cycles
  run_cycles-IsTidy m [] t stored = t
  run_cycles-IsTidy m (c ∷ cs) t stored =
      run_cycles-IsTidy (run_analysis timestamp analyse m c) cs
        (run_analysis-IsTidy timestamp analyse c m stored.0 t) stored.1
