-- ===== src/Observer.antt =====
-- backend/analytics/runtime/progress_observer.py: the current step of a snapshot of the checks
-- (`derive_current_step`), and what has changed between two (`diff_snapshots`). The text that a check's
-- kind and parameters make, the node that its parameters name and the equality of JSON values are
-- arguments.
pub mod Current
pub mod Changes
use onlinetlabs.Base.{
  ℕ, Bool, true, false, not, Option, none, some, List, [], ◌∷◌, ◌++◌, filter, ◌==◌, if◌then◌else◌,
}
use onlinetlabs.Validation.{CheckRecord, StepRecord}

-- `ProgressState`; without a current step its id and title are absent.
pub record ProgressState (J : Type 0) : Type 0 where
  pub current_step : Option (ℕ × ℕ)
  pub failing_checks : List (CheckRecord J)

-- `derive_current_step`
unfoldable pub derive_current_step : {J : Type 0} → List (StepRecord J) → ProgressState J
derive_current_step [] = record { current_step = none; failing_checks = [] }
derive_current_step (s ∷ ss) =
    let rest = derive_current_step ss in
    if s.ok then rest else record {
      current_step = some (s.id, s.title);
      failing_checks = filter (λ c. not c.ok) s.checks;
    }

-- The `action` of an event.
pub data Change : Type 0 where
  check_passed check_regressed check_failing check_retry : Change

-- An event of `diff_snapshots`; `is_error` is its type, and `message` the key of its check.
pub record ProgressEvent (J : Type 0) : Type 0 where
  pub is_error : Bool
  pub action : Change
  pub component_id : ℕ
  pub message : ℕ
  pub success : Bool
  pub prev_actual : Option J
  pub actual : Option J

-- The checks of all steps, in their order.
unfoldable pub checks_of : {J : Type 0} → List (StepRecord J) → List (CheckRecord J)
checks_of [] = []
checks_of (s ∷ ss) = s.checks ++ checks_of ss

abbrev pub or_later {ℓ} : {A : Type ℓ} → Option A → Option A → Option A
or_later (some later) o = some later
or_later none o = o

module _ {J : Type 0} (key : ℕ → J → ℕ) (component : ℕ → J → ℕ) (same : J → J → Bool) where
  abbrev pub key_of : CheckRecord J → ℕ
  key_of c = key c.kind c.params

  -- The index of the former checks, where a later check of the same key takes the place.
  unfoldable pub prev_check : ℕ → List (CheckRecord J) → Option (CheckRecord J)
  prev_check k [] = none
  prev_check k (c ∷ cs) = or_later (prev_check k cs) (if key_of c == k then some c else none)

  changed : Change → CheckRecord J → Option J → ProgressEvent J
  changed check_passed c prev_actual = record {
    is_error = false;
    action = check_passed;
    component_id = component c.kind c.params;
    message = key_of c;
    success = true;
    prev_actual = none;
    actual = none;
  }
  changed action c prev_actual = record {
    is_error = true;
    action = action;
    component_id = component c.kind c.params;
    message = key_of c;
    success = false;
    prev_actual = prev_actual;
    actual = some c.actual;
  }

  -- The events of one check.
  unfoldable pub change_of : CheckRecord J → Option (CheckRecord J) → List (ProgressEvent J)
  unfolding changed
  change_of c none = []
  change_of c (some p) =
      if c.ok
      then (if p.ok then [] else changed check_passed c none ∷ [])
      else (if p.ok
          then changed check_regressed c none ∷ []
          else (if same p.actual c.actual
              then changed check_failing c none ∷ []
              else changed check_retry c (some p.actual) ∷ []))

  unfoldable pub changes_of : List (CheckRecord J) → List (CheckRecord J) → List (ProgressEvent J)
  changes_of prev [] = []
  changes_of prev (c ∷ cs) = change_of c (prev_check (key_of c) prev) ++ changes_of prev cs

  -- `diff_snapshots`
  unfoldable pub diff_snapshots :
      Option (List (StepRecord J)) → List (StepRecord J) → List (ProgressEvent J)
  diff_snapshots none curr = []
  diff_snapshots (some prev) curr = changes_of (checks_of prev) (checks_of curr)
