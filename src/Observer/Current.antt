-- ===== src/Observer/Current.antt =====
-- The current step of backend/analytics/runtime/progress_observer.py for a snapshot of the checks.
use onlinetlabs.Base.{
  All, ℕ, ◌<◌, ◌≡◌, refl, sym, ap, ap₂, ◌∙◌, arith, true, false, not, ◌&&◌, Option, none, some,
  List, [], ◌∷◌, ◌++◌, all, filter, length, ◌⊎◌, inl, inr, Bool-cases, if-true, if-false,
}
use onlinetlabs.Validation.{
  Check, Step, CheckRecord, StepRecord, Handled, check_record, eval_check, evaluate_checks,
  evaluate_spec,
}
use onlinetlabs.Observer.{ProgressState, derive_current_step}

-- A step as the first that is not passed: those before it are, and it has a check that failed.
pub record IsFirstOpen {J : Type 0} (snapshot : List (StepRecord J)) (state : ProgressState J)
    : Type 0 where
  pub before : List (StepRecord J)
  pub step : StepRecord J
  pub after : List (StepRecord J)
  pub parts : snapshot ≡ before ++ step ∷ after
  pub passed_before : all (λ s. s.ok) before ≡ true
  pub open_step : step.ok ≡ false
  pub current : state.current_step ≡ some (step.id, step.title)
  pub failing : state.failing_checks ≡ filter (λ c. not c.ok) step.checks
  pub some_failing : 0 < length state.failing_checks

-- A step whose `ok` is that of all its checks.
abbrev IsSummed : {J : Type 0} → StepRecord J → Type 0
IsSummed s = s.ok ≡ all (λ c. c.ok) s.checks

module _ {J : Type 0} where
  some_failed :
      (cs : List (CheckRecord J))
      → all (λ c. c.ok) cs ≡ false
      → 0 < length (filter (λ c. not c.ok) cs)
  some_failed [] h = absurd cc
  some_failed (c ∷ cs) h = ground (arith, some_failed cs)

  derive_current_step-cases :
      (snapshot : List (StepRecord J))
      → All IsSummed snapshot
      → ((all (λ s. s.ok) snapshot ≡ true)
          × (derive_current_step snapshot ≡ record { current_step = none; failing_checks = [] }))
        ⊎ IsFirstOpen snapshot (derive_current_step snapshot)
  unfolding derive_current_step
  derive_current_step-cases [] h = inl (refl, refl)
  derive_current_step-cases (s ∷ ss) h =
      let rest = derive_current_step ss in
      let here : ProgressState J = record {
        current_step = some (s.id, s.title);
        failing_checks = filter (λ c. not c.ok) s.checks;
      } in
      elim (Bool-cases s.ok) [
        | inr e ↦
            let eq = if-false s.ok rest here e in
            inr (record {
              before = [];
              step = s;
              after = ss;
              parts = refl;
              passed_before = refl;
              open_step = e;
              current = ap (λ k. k.current_step) eq;
              failing = ap (λ k. k.failing_checks) eq;
              some_failing = omega (
                arith,
                ap (λ (k : ProgressState J). length k.failing_checks) eq,
                some_failed s.checks (sym h.0 ∙ e),
              );
            })
        | inl e ↦
            let eq = if-true s.ok rest here e in
            elim (derive_current_step-cases ss h.1) [
              | inl (passed, finished) ↦ inl (ap₂ (λ a b. a && b) e passed, eq ∙ finished)
              | inr v ↦ inr (record {
                before = s ∷ v.before;
                step = v.step;
                after = v.after;
                parts = ap (λ r. s ∷ r) v.parts;
                passed_before = ap₂ (λ a b. a && b) e v.passed_before;
                open_step = v.open_step;
                current = ap (λ k. k.current_step) eq ∙ v.current;
                failing = ap (λ k. k.failing_checks) eq ∙ v.failing;
                some_failing = omega (
                  arith,
                  ap (λ (k : ProgressState J). length k.failing_checks) eq,
                  v.some_failing,
                );
              })
            ]
      ]

module _ {J : Type 0} (handler : ℕ → Option (J → J → Handled J)) (unknown_kind : ℕ → J)
    (render : J → ℕ → J) where
  evaluate_checks-IsSummed :
      (cs : List (Check J))
      → let (records, ok) = evaluate_checks handler unknown_kind render cs in
        ok ≡ all (λ c. c.ok) records
  unfolding evaluate_checks check_record
  evaluate_checks-IsSummed [] = refl
  evaluate_checks-IsSummed (c ∷ cs) =
      ap (λ b. (eval_check handler unknown_kind render c).ok && b) (evaluate_checks-IsSummed cs)

  evaluate_spec-IsSummed :
      (spec : List (Step J)) → All IsSummed (evaluate_spec handler unknown_kind render spec)
  unfolding evaluate_spec
  evaluate_spec-IsSummed [] = tt
  evaluate_spec-IsSummed (s ∷ ss) = (evaluate_checks-IsSummed s.checks, evaluate_spec-IsSummed ss)

  -- For what the checks of a lab give, either every step is passed and there is no current step, or
  -- the current step is the first that is not passed, the failing checks are all of its checks that
  -- failed, in their order, and there is at least one.
  pub derive_current_step-evaluate_spec :
      (spec : List (Step J))
      → let snapshot = evaluate_spec handler unknown_kind render spec in
        ((all (λ s. s.ok) snapshot ≡ true)
          × (derive_current_step snapshot ≡ record { current_step = none; failing_checks = [] }))
        ⊎ IsFirstOpen snapshot (derive_current_step snapshot)
  derive_current_step-evaluate_spec spec =
      derive_current_step-cases (evaluate_spec handler unknown_kind render spec)
        (evaluate_spec-IsSummed spec)
