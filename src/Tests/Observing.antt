-- ===== src/Tests/Observing.antt =====
-- The theorems about backend/analytics/runtime/progress_observer.py: a lab of one step.
use onlinetlabs.Base.{
  ℕ, ◌+◌, ◌*◌, ◌≡◌, ◌⊎◌, refl, Bool, true, false, none, List, [], ◌∷◌, all, All, ◌==◌,
}
use onlinetlabs.Validation.{StepRecord, evaluate_spec}
use onlinetlabs.Observer.{derive_current_step, checks_of}
use onlinetlabs.Observer.Current.{IsFirstOpen, derive_current_step-evaluate_spec}
use onlinetlabs.Observer.Changes.{
  count_of, HasOnce, follow_check, ok_at, events_of, last_of, diff_snapshots-follow_check,
}
use onlinetlabs.Tests.Checks.{lab, handler, unknown_kind, render}

derive_current_step-evaluate_spec_example :
    let snapshot = evaluate_spec handler unknown_kind render lab in
    ((all (λ s. s.ok) snapshot ≡ true)
      × (derive_current_step snapshot ≡ record { current_step = none; failing_checks = [] }))
    ⊎ IsFirstOpen snapshot (derive_current_step snapshot)
derive_current_step-evaluate_spec_example =
    derive_current_step-evaluate_spec handler unknown_kind render lab

abbrev key : ℕ → ℕ → ℕ
key kind params = 100 * kind + params

abbrev component : ℕ → ℕ → ℕ
component kind params = params

abbrev same : ℕ → ℕ → Bool
same a b = a == b

abbrev snapshot : Bool → ℕ → List (StepRecord ℕ)
snapshot ok actual =
    record {
      id = 1;
      title = 10;
      ok = ok;
      checks =
          record {
            kind = 1;
            params = 4;
            ok = ok;
            expected = 4;
            actual = actual;
            unobserved = false;
          }
          ∷ [];
    }
    ∷ []

first-HasOnce : HasOnce key component same 104 (snapshot false 7)
unfolding count_of checks_of
first-HasOnce = refl

later-HasOnce : All (HasOnce key component same 104) (snapshot false 8 ∷ snapshot true 4 ∷ [])
unfolding count_of checks_of
later-HasOnce = (refl, (refl, tt))

-- A check that fails in another way, and then passes.
diff_snapshots-follow_check_example :
    follow_check key component same 104
      (ok_at key component same 104 (snapshot false 7))
      (events_of key component same (snapshot false 7) (snapshot false 8 ∷ snapshot true 4 ∷ []))
    ≡ ok_at key component same 104
        (last_of key component same (snapshot false 7) (snapshot false 8 ∷ snapshot true 4 ∷ []))
diff_snapshots-follow_check_example =
    diff_snapshots-follow_check key component same 104 (snapshot false 7)
      (snapshot false 8 ∷ snapshot true 4 ∷ []) first-HasOnce later-HasOnce
