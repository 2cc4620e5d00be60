-- ===== src/Tests/Checks.antt =====
-- The theorems about backend/validation/ and backend/progress/: a lab of two steps.
use onlinetlabs.Base.{
  arith, ℕ, ◌+◌, ◌*◌, ◌/◌, ◌≡◌, true, false, Option, none, some, List, [], ◌∷◌, ◌++◌, map, ◌==◌,
  is_some, if◌then◌else◌,
}
use onlinetlabs.Validation.{
  Step, StepRecord, Handled, answered, raises, evaluate_spec, run_validation,
}
use onlinetlabs.Validation.Replay.{follow_all, knowing, unmarked_step, run_validation-evaluate_spec}
use onlinetlabs.Progress.{find_progress, StepAttempt, numbers, attempt_loop}
use onlinetlabs.Progress.Best.{
  Run, record_all, outcome, first_run, best, first_pass, record_lab_validation-best,
}
use onlinetlabs.Progress.Attempts.{
  IsNumbered, counting, all_others, has_quiet_try, attempt_loop-IsNumbered,
}

-- A check of kind 1 compares, one of kind 2 never gets an answer, and one of kind 3 raises.
abbrev pub handler : ℕ → Option (ℕ → ℕ → Handled ℕ)
handler kind =
    if kind == 1
    then some (λ params expect. answered (record {
      ok = params == expect;
      expected = expect;
      actual = params;
      log = 5 ∷ 6 ∷ [];
      observed = true;
      error_key = 0;
    }))
    else (if kind == 2
        then some (λ params expect. answered (record {
          ok = false;
          expected = expect;
          actual = 0;
          log = [];
          observed = false;
          error_key = 8;
        }))
        else (if kind == 3 then some (λ params expect. raises 77) else none))

abbrev pub unknown_kind : ℕ → ℕ
unknown_kind kind = 900 + kind

abbrev pub render : ℕ → ℕ → ℕ
render actual error_key = 1000 * error_key + actual

abbrev pub lab : List (Step ℕ)
lab =
    record {
      id = 1;
      title = 10;
      checks =
          record { kind = 1; params = 4; expect = 4 }
          ∷ record { kind = 2; params = 4; expect = 5 }
          ∷ [];
    }
    ∷ record { id = 2; title = 20; checks = record { kind = 4; params = 1; expect = 2 } ∷ [] }
    ∷ []

run_validation-evaluate_spec_example :
    let (events, steps) = run_validation handler unknown_kind render lab in
    let evaluated = evaluate_spec handler unknown_kind render lab in
    ((follow_all (knowing [] []) events).steps ≡ evaluated) × (steps ≡ map unmarked_step evaluated)
run_validation-evaluate_spec_example = run_validation-evaluate_spec handler unknown_kind render lab

-- The share in tenths of a percent, rounded down.
abbrev percent : ℕ → ℕ → ℕ
percent done total = (1000 * done) / total

abbrev all_right : List (StepRecord ℕ)
all_right =
    record {
      id = 1;
      title = 10;
      ok = true;
      checks =
          record { kind = 1; params = 4; ok = true; expected = 4; actual = 4; unobserved = false }
          ∷ [];
    }
    ∷ []

-- Two runs of learner 3, the first complete and the second empty, and one of learner 4.
abbrev runs : List (Run ℕ)
runs =
    record { at = 10; user = 3; lab = 7; steps = all_right }
    ∷ record { at = 20; user = 4; lab = 7; steps = [] }
    ∷ record { at = 30; user = 3; lab = 7; steps = [] }
    ∷ []

record_lab_validation-best_example :
    find_progress 3 7 (record_all percent runs [])
    ≡ outcome 3 7 (first_run percent 3 7 runs) (best percent 3 7 runs) (first_pass percent 3 7 runs)
record_lab_validation-best_example = record_lab_validation-best percent 3 7 runs

abbrev attempt : ℕ → ℕ → StepAttempt
attempt step n = record { step = step; attempt_number = n; result = 1 }

abbrev rivals : List (List StepAttempt)
rivals = (attempt 5 2 ∷ []) ∷ (attempt 6 1 ∷ []) ∷ [] ∷ []

IsNumbered-with_rivals : IsNumbered ((attempt 5 1 ∷ []) ++ all_others rivals)
unfolding numbers counting all_others
IsNumbered-with_rivals step = ground (arith)

-- Another attempt of the step takes the first try's number, and the second try succeeds.
attempt_loop-IsNumbered_example :
    let (after, made) = attempt_loop 5 1 rivals (attempt 5 1 ∷ []) in
    IsNumbered after
    × (is_some made ≡ has_quiet_try 5 rivals)
    × ((if has_quiet_try 5 rivals then after else (attempt 5 1 ∷ []) ++ all_others rivals) ≡ after)
attempt_loop-IsNumbered_example =
    attempt_loop-IsNumbered 5 1 rivals (attempt 5 1 ∷ []) IsNumbered-with_rivals
