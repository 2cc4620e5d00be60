-- ===== src/Validation.antt =====
-- backend/validation/runner.py: the checks of a lab, run with a stream of events (`run_validation`) and
-- without (`evaluate_spec`). A JSON value is an element of a type `J` that is only passed on, and a
-- text a number. The handlers of the checks and the rendering of an outcome that was not observed are
-- arguments.
pub mod Replay
pub mod Service
pub mod Stream
use onlinetlabs.Base.{
  ℕ, suc, Bool, true, false, not, ◌&&◌, Option, none, some, List, [], ◌∷◌, ◌++◌, map, all, length,
  if◌then◌else◌,
}

-- `CheckResult` of backend/validation/checks/registry.py, with the lines of its log; `error_key` is the
-- key of the text that an unobserved outcome is rendered with, and the parameters of it.
pub record CheckResult (J : Type 0) : Type 0 where
  pub ok : Bool
  pub expected : J
  pub actual : J
  pub log : List ℕ
  pub observed : Bool
  pub error_key : ℕ

pub record Check (J : Type 0) : Type 0 where
  pub kind : ℕ
  pub params : J
  pub expect : J

pub record Step (J : Type 0) : Type 0 where
  pub id : ℕ
  pub title : ℕ
  pub checks : List (Check J)

-- A check in a step's record; `unobserved` is the mark that only `_check_record` sets.
pub record CheckRecord (J : Type 0) : Type 0 where
  pub kind : ℕ
  pub params : J
  pub ok : Bool
  pub expected : J
  pub actual : J
  pub unobserved : Bool

pub record StepRecord (J : Type 0) : Type 0 where
  pub id : ℕ
  pub title : ℕ
  pub ok : Bool
  pub checks : List (CheckRecord J)

pub data Event (J : Type 0) : Type 0 where
  run_start : ℕ → Event J
  step_start : ℕ → ℕ → ℕ → Event J
  check_start : ℕ → ℕ → ℕ → J → Event J
  check_log : ℕ → ℕ → ℕ → Event J
  check_result : ℕ → ℕ → Bool → J → J → Bool → Event J
  step_result : ℕ → ℕ → Bool → Event J
  run_finish : Bool → Event J

-- What a handler does: it answers, or raises with a message.
pub data Handled (J : Type 0) : Type 0 where
  answered : CheckResult J → Handled J
  raises : J → Handled J

module _ {J : Type 0} (handler : ℕ → Option (J → J → Handled J)) (unknown_kind : ℕ → J)
    (render : J → ℕ → J) where
  refusal : J → J → CheckResult J
  refusal expect why = record {
    ok = false;
    expected = expect;
    actual = why;
    log = [];
    observed = true;
    error_key = 0;
  }

  handled : J → Handled J → CheckResult J
  unfolding refusal
  handled expect (answered r) = r
  handled expect (raises why) = refusal expect why

  eval_with : Check J → Option (J → J → Handled J) → CheckResult J
  unfolding handled
  eval_with c none = refusal c.expect (unknown_kind c.kind)
  eval_with c (some h) = handled c.expect (h c.params c.expect)

  -- `_eval_check`
  unfoldable pub eval_check : Check J → CheckResult J
  unfolding eval_with
  eval_check c = eval_with c (handler c.kind)

  -- `_check_record`
  unfoldable pub check_record : Check J → CheckResult J → CheckRecord J
  check_record c r = record {
    kind = c.kind;
    params = c.params;
    ok = r.ok;
    expected = r.expected;
    actual = if r.observed then r.actual else render r.actual r.error_key;
    unobserved = not r.observed;
  }

  -- The inner loop of `evaluate_spec`, and whether all checks have passed.
  unfoldable pub evaluate_checks : List (Check J) → List (CheckRecord J) × Bool
  evaluate_checks [] = ([], true)
  evaluate_checks (c ∷ cs) =
      let r = eval_check c in
      let (records, rest_ok) = evaluate_checks cs in (check_record c r ∷ records, r.ok && rest_ok)

  -- `evaluate_spec`
  unfoldable pub evaluate_spec : List (Step J) → List (StepRecord J)
  evaluate_spec [] = []
  evaluate_spec (s ∷ ss) =
      let (records, ok) = evaluate_checks s.checks in
      record { id = s.id; title = s.title; ok = ok; checks = records } ∷ evaluate_spec ss

  -- What `run_validation` stores of a check.
  abbrev pub stored : Check J → CheckResult J → CheckRecord J
  stored c r = record {
    kind = c.kind;
    params = c.params;
    ok = r.ok;
    expected = r.expected;
    actual = (check_record c r).actual;
    unobserved = false;
  }

  -- The events of one check.
  unfoldable pub check_events : ℕ → ℕ → Check J → List (Event J)
  check_events step idx c =
      let r = eval_check c in
      check_start step idx c.kind c.params ∷ map (check_log step idx) r.log
      ++ check_result step idx r.ok r.expected (check_record c r).actual (not r.observed) ∷ []

  -- The inner loop of `run_validation`: the events, the stored checks, and whether all have passed.
  unfoldable pub run_checks : ℕ → ℕ → List (Check J) → List (Event J) × List (CheckRecord J) × Bool
  run_checks step idx [] = ([], [], true)
  run_checks step idx (c ∷ cs) =
      let r = eval_check c in
      let (events, records, rest_ok) = run_checks step (suc idx) cs in
      (check_events step idx c ++ events, stored c r ∷ records, r.ok && rest_ok)

  unfoldable pub run_steps : List (Step J) → List (Event J) × List (StepRecord J)
  run_steps [] = ([], [])
  run_steps (s ∷ ss) =
      let (events, records, ok) = run_checks s.id 0 s.checks in
      let (later, steps) = run_steps ss in
      (
        step_start s.id s.title (length s.checks) ∷ events ++ (step_result s.id s.title ok ∷ later),
        record { id = s.id; title = s.title; ok = ok; checks = records } ∷ steps,
      )

  -- `run_validation`: the events, and the steps that the last one comes with.
  unfoldable pub run_validation : List (Step J) → List (Event J) × List (StepRecord J)
  run_validation spec =
      let (events, steps) = run_steps spec in
      (run_start (length spec) ∷ events ++ (run_finish (all (λ s. s.ok) steps) ∷ []), steps)
