-- ===== src/Validation/Replay.antt =====
-- The stream of backend/validation/runner.py against what is stored, and the run against the evaluation
-- without a stream.
use onlinetlabs.Base.{
  ℕ, suc, ◌≡◌, refl, sym, ap, ap₂, ◌∙◌, Bool, false, ◌&&◌, Option, none, some, List, [], ◌∷◌, ◌++◌,
  not, all, map, append_assoc, append-nil,
}
use onlinetlabs.Validation.{
  Check, Step, CheckRecord, StepRecord, Event, run_start, step_start, check_start, check_log,
  check_result, step_result, run_finish, Handled, eval_check, check_record, evaluate_checks,
  evaluate_spec, stored, check_events, run_checks, run_steps, run_validation,
}

-- What a client knows: the finished steps, the checks of the current one, and the check that was
-- announced.
pub record Client (J : Type 0) : Type 0 where
  pub steps : List (StepRecord J)
  pub checks : List (CheckRecord J)
  pub announced : Option (ℕ × J)

module _ {J : Type 0} where
  -- A record without the mark.
  abbrev pub unmarked : CheckRecord J → CheckRecord J
  unmarked r = record r { unobserved = false }

  abbrev pub unmarked_step : StepRecord J → StepRecord J
  unmarked_step s = record s { checks = map unmarked s.checks }

  -- A client between two checks.
  abbrev pub knowing : List (StepRecord J) → List (CheckRecord J) → Client J
  knowing steps checks = record { steps = steps; checks = checks; announced = none }

  abbrev pub note_result : Client J → Option (ℕ × J) → Bool → J → J → Bool → Client J
  note_result k none ok expected actual unobserved = k
  note_result k (some (kind, params)) ok expected actual unobserved = record k {
    checks =
        k.checks
        ++ record {
          kind = kind;
          params = params;
          ok = ok;
          expected = expected;
          actual = actual;
          unobserved = unobserved;
        }
          ∷ [];
    announced = none;
  }

  -- How a client follows the stream.
  unfoldable pub follow : Client J → Event J → Client J
  follow k (run_start n) = k
  follow k (step_start id title n) = record k { checks = [] }
  follow k (check_start id idx kind params) = record k { announced = some (kind, params) }
  follow k (check_log id idx line) = k
  follow k (check_result id idx ok expected actual unobserved) =
      note_result k k.announced ok expected actual unobserved
  follow k (step_result id title ok) = record k {
    steps = k.steps ++ record { id = id; title = title; ok = ok; checks = k.checks } ∷ [];
  }
  follow k (run_finish ok) = k

  unfoldable pub follow_all : Client J → List (Event J) → Client J
  follow_all k [] = k
  follow_all k (e ∷ es) = follow_all (follow k e) es

  follow_all-append :
      (k : Client J) (xs ys : List (Event J))
      → follow_all k (xs ++ ys) ≡ follow_all (follow_all k xs) ys
  unfolding follow_all
  follow_all-append k [] ys = refl
  follow_all-append k (x ∷ xs) ys = follow_all-append (follow k x) xs ys

  follow-logs :
      (k : Client J) (id idx : ℕ) (lines : List ℕ) → follow_all k (map (check_log id idx) lines) ≡ k
  unfolding follow_all follow
  follow-logs k id idx [] = refl
  follow-logs k id idx (x ∷ xs) = follow-logs k id idx xs

module _ {J : Type 0} (handler : ℕ → Option (J → J → Handled J)) (unknown_kind : ℕ → J)
    (render : J → ℕ → J) where
  evaluate_checks-run :
      (step idx : ℕ) (cs : List (Check J))
      → let (events, records, ok) = run_checks handler unknown_kind render step idx cs in
        let (evaluated, ok') = evaluate_checks handler unknown_kind render cs in
        (records ≡ map unmarked evaluated) × (ok ≡ ok')
  unfolding run_checks evaluate_checks check_record
  evaluate_checks-run step idx [] = (refl, refl)
  evaluate_checks-run step idx (c ∷ cs) =
      let (same, oks) = evaluate_checks-run step (suc idx) cs in
      let r = eval_check handler unknown_kind render c in
      (ap (λ rs. stored handler unknown_kind render c r ∷ rs) same, ap (λ b. r.ok && b) oks)

  run_steps-evaluate_spec :
      (spec : List (Step J))
      → (run_steps handler unknown_kind render spec).1
        ≡ map unmarked_step (evaluate_spec handler unknown_kind render spec)
  unfolding run_steps evaluate_spec
  run_steps-evaluate_spec [] = refl
  run_steps-evaluate_spec (s ∷ ss) =
      let (same, oks) = evaluate_checks-run s.id 0 s.checks in
      ap₂ (◌∷◌)
        (ap₂
          (λ (r : List (CheckRecord J)) (b : Bool). record {
            id = s.id;
            title = s.title;
            ok = b;
            checks = r;
          })
          same oks)
        (run_steps-evaluate_spec ss)

  follow-check :
      (done : List (StepRecord J)) (seen : List (CheckRecord J)) (step idx : ℕ) (c : Check J)
      → follow_all (knowing done seen) (check_events handler unknown_kind render step idx c)
        ≡ knowing done (
            seen
            ++ check_record handler unknown_kind render c (eval_check handler unknown_kind render c)
              ∷ [])
  unfolding check_events follow_all follow check_record
  follow-check done seen step idx c =
      let r = eval_check handler unknown_kind render c in
      let k : Client J = record {
        steps = done;
        checks = seen;
        announced = some (c.kind, c.params);
      } in
      let logs : List (Event J) = map (check_log step idx) r.log in
      let result : List (Event J) =
        check_result step idx r.ok r.expected (check_record handler unknown_kind render c r).actual
          (not r.observed)
        ∷ [] in
      follow_all-append k logs result ∙ ap (λ j. follow_all j result) (follow-logs k step idx r.log)

  follow-checks :
      (done : List (StepRecord J)) (seen : List (CheckRecord J)) (step idx : ℕ)
      (cs : List (Check J))
      → follow_all (knowing done seen) (run_checks handler unknown_kind render step idx cs).0
        ≡ knowing done (seen ++ (evaluate_checks handler unknown_kind render cs).0)
  unfolding run_checks follow_all evaluate_checks
  follow-checks done seen step idx [] = ap (knowing done) (sym (append-nil seen))
  follow-checks done seen step idx (c ∷ cs) =
      let events = check_events handler unknown_kind render step idx c in
      let later = (run_checks handler unknown_kind render step (suc idx) cs).0 in
      let r =
        check_record handler unknown_kind render c (eval_check handler unknown_kind render c) in
      follow_all-append (knowing done seen) events later
      ∙ ap (λ k. follow_all k later) (follow-check done seen step idx c)
      ∙ follow-checks done (seen ++ r ∷ []) step (suc idx) cs
      ∙ ap (knowing done)
          (append_assoc seen (r ∷ []) (evaluate_checks handler unknown_kind render cs).0)

  follow-steps :
      (done : List (StepRecord J)) (seen : List (CheckRecord J)) (spec : List (Step J))
      → (follow_all (knowing done seen) (run_steps handler unknown_kind render spec).0).steps
        ≡ done ++ evaluate_spec handler unknown_kind render spec
  unfolding run_steps follow_all follow evaluate_spec
  follow-steps done seen [] = sym (append-nil done)
  follow-steps done seen (s ∷ ss) =
      let (events, records, ok) = run_checks handler unknown_kind render s.id 0 s.checks in
      let (evaluated, ok') = evaluate_checks handler unknown_kind render s.checks in
      let later = (run_steps handler unknown_kind render ss).0 in
      let now : Bool → StepRecord J =
        λ b. record { id = s.id; title = s.title; ok = b; checks = evaluated } in
      ap (λ k. k.steps)
        (follow_all-append (knowing done []) events (step_result s.id s.title ok ∷ later)
          ∙ ap (λ k. follow_all k (step_result s.id s.title ok ∷ later))
              (follow-checks done [] s.id 0 s.checks))
      ∙ follow-steps (done ++ now ok ∷ []) evaluated ss
      ∙ append_assoc done (now ok ∷ []) (evaluate_spec handler unknown_kind render ss)
      ∙ ap (λ b. done ++ now b ∷ evaluate_spec handler unknown_kind render ss)
          (evaluate_checks-run s.id 0 s.checks).1

  run_validation-follow :
      (spec : List (Step J))
      → (follow_all (knowing [] []) (run_validation handler unknown_kind render spec).0).steps
        ≡ evaluate_spec handler unknown_kind render spec
  unfolding run_validation follow_all follow
  run_validation-follow spec =
      let (events, steps) = run_steps handler unknown_kind render spec in
      let last : List (Event J) = run_finish (all (λ s. s.ok) steps) ∷ [] in
      ap (λ k. k.steps) (follow_all-append (knowing [] []) events last) ∙ follow-steps [] [] spec

  -- A client that starts with nothing and follows the events of a run has, at the end of the stream,
  -- the steps of the evaluation without a stream, with the mark of each check whose outcome was not
  -- observed. The steps that the run stores are the same but for that mark, which they lack.
  pub run_validation-evaluate_spec :
      (spec : List (Step J))
      → let (events, steps) = run_validation handler unknown_kind render spec in
        let evaluated = evaluate_spec handler unknown_kind render spec in
        ((follow_all (knowing [] []) events).steps ≡ evaluated)
        × (steps ≡ map unmarked_step evaluated)
  unfolding run_validation
  run_validation-evaluate_spec spec = (run_validation-follow spec, run_steps-evaluate_spec spec)
