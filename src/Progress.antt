-- ===== src/Progress.antt =====
-- backend/progress/service.py: the progress of a lab (`score_from_steps`, `record_lab_validation`,
-- `start_lab`) and the attempts of a step (`record_step_attempt`). A score is in tenths of a percent;
-- `round(passed / total * 100, 1)`, in floating point, is the argument `percent`. A time is a number.
pub mod Best
pub mod Attempts
use onlinetlabs.Base.{
  ℕ, suc, ◌+◌, ◌≡◌, Bool, true, false, not, ◌&&◌, ◌||◌, Option, none, some, List, [], ◌∷◌, ◌++◌,
  map, all, length, filter, or_else, if◌then◌else◌, ◌==◌, leb,
}
use onlinetlabs.Validation.{CheckRecord, StepRecord}

-- `LabProgress` of backend/models/learning.py, without the fields that this code never sets.
pub data ProgressStatus : Type 0 where
  not_started : ProgressStatus
  in_progress : ProgressStatus
  completed : ProgressStatus

pub record LabProgress : Type 0 where
  pub user_id : ℕ
  pub lab_slug : ℕ
  pub status : ProgressStatus
  pub score : Option ℕ
  pub started_at : Option ℕ
  pub completed_at : Option ℕ

abbrev pub is_completed : ProgressStatus → Bool
is_completed not_started = false
is_completed in_progress = false
is_completed completed = true

-- The number of checks of all steps, and of those that have passed.
unfoldable pub total_checks : {J : Type 0} → List (StepRecord J) → ℕ
total_checks [] = 0
total_checks (s ∷ ss) = length s.checks + total_checks ss

unfoldable pub passed_checks : {J : Type 0} → List (StepRecord J) → ℕ
passed_checks [] = 0
passed_checks (s ∷ ss) = length (filter (λ c. c.ok) s.checks) + passed_checks ss

abbrev pub has_steps : {J : Type 0} → List (StepRecord J) → Bool
has_steps [] = false
has_steps (s ∷ ss) = true

-- `score_from_steps`
unfoldable pub score_from_steps : {J : Type 0} → (ℕ → ℕ → ℕ) → List (StepRecord J) → ℕ × Bool
score_from_steps percent steps =
    let total = total_checks steps in
    (
      if total == 0 then 0 else percent (passed_checks steps) total,
      has_steps steps && all (λ s. s.ok) steps,
    )

abbrev pub max : ℕ → ℕ → ℕ
max a b = if leb b a then a else b

abbrev pub is_row : ℕ → ℕ → LabProgress → Bool
is_row user lab p = (p.user_id == user) && (p.lab_slug == lab)

-- The row of a learner and a lab; the table has at most one.
unfoldable pub find_progress : ℕ → ℕ → List LabProgress → Option LabProgress
find_progress user lab [] = none
find_progress user lab (p ∷ ps) = if is_row user lab p then some p else find_progress user lab ps

-- The write of that row.
unfoldable pub put_progress : LabProgress → List LabProgress → List LabProgress
put_progress q [] = q ∷ []
put_progress q (p ∷ ps) =
    let rest = put_progress q ps in if is_row q.user_id q.lab_slug p then q ∷ ps else p ∷ rest

-- The row that `record_lab_validation` starts from.
abbrev pub new_row : ℕ → ℕ → ℕ → LabProgress
new_row user lab now = record {
  user_id = user;
  lab_slug = lab;
  status = not_started;
  score = none;
  started_at = some now;
  completed_at = none;
}

-- What a run does to the row.
unfoldable pub apply_run : ℕ → ℕ → Bool → LabProgress → LabProgress
apply_run now score all_passed p =
    let scored : LabProgress = record p {
      started_at = some (or_else p.started_at now);
      score = some (max (or_else p.score 0) score);
    } in
    if is_completed p.status
    then scored
    else if all_passed
    then record scored { status = completed; completed_at = some now }
    else record scored { status = in_progress }

-- `record_lab_validation`
unfoldable pub record_lab_validation :
    {J : Type 0}
    → (ℕ → ℕ → ℕ)
    → ℕ
    → ℕ
    → ℕ
    → List (StepRecord J)
    → List LabProgress
    → List LabProgress
record_lab_validation percent now user lab steps rows =
    let (score, all_passed) = score_from_steps percent steps in
    let row = or_else (find_progress user lab rows) (new_row user lab now) in
    put_progress (apply_run now score all_passed row) rows

started_row : ℕ → ℕ → ℕ → Option LabProgress → List LabProgress → List LabProgress
started_row now user lab (some p) rows = rows
started_row now user lab none rows =
    put_progress (record (new_row user lab now) { status = in_progress }) rows

-- `start_lab`
unfoldable pub start_lab : ℕ → ℕ → ℕ → List LabProgress → List LabProgress
unfolding started_row
start_lab now user lab rows = started_row now user lab (find_progress user lab rows) rows

-- `StepAttempt` of backend/models/learning.py: `step` stands for learner, lab and step.
pub record StepAttempt : Type 0 where
  pub step : ℕ
  pub attempt_number : ℕ
  pub result : ℕ

-- The numbers of a step's attempts, in the order of their rows.
unfoldable pub numbers : ℕ → List StepAttempt → List ℕ
numbers step [] = []
numbers step (a ∷ rows) =
    let rest = numbers step rows in if a.step == step then a.attempt_number ∷ rest else rest

unfoldable pub maximum : List ℕ → ℕ
maximum [] = 0
maximum (n ∷ ns) = max n (maximum ns)

-- The subquery `coalesce(max(attempt_number), 0) + 1`.
abbrev pub next_number : ℕ → List StepAttempt → ℕ
next_number step rows = suc (maximum (numbers step rows))

-- Whether the unique index holds this number of the step.
unfoldable pub is_taken : ℕ → List ℕ → Bool
is_taken n [] = false
is_taken n (m ∷ ms) = (m == n) || is_taken n ms

-- The loop of `record_step_attempt`. Each element of the list is one try: the attempts that other
-- transactions commit after the subquery has read its snapshot and before the row is inserted.
unfoldable pub attempt_loop :
    ℕ → ℕ → List (List StepAttempt) → List StepAttempt → List StepAttempt × Option StepAttempt
attempt_loop step result [] rows = (rows, none)
attempt_loop step result (others ∷ later) rows =
    let attempt : StepAttempt = record {
      step = step;
      attempt_number = next_number step rows;
      result = result;
    } in
    let again = attempt_loop step result later (rows ++ others) in
    if is_taken attempt.attempt_number (numbers step (rows ++ others))
    then again
    else (rows ++ others ++ attempt ∷ [], some attempt)

-- `record_step_attempt`, with its three tries.
abbrev pub record_step_attempt :
    ℕ
    → ℕ
    → List StepAttempt
    → List StepAttempt
    → List StepAttempt
    → List StepAttempt
    → List StepAttempt × Option StepAttempt
record_step_attempt step result first second third rows =
    attempt_loop step result (first ∷ second ∷ third ∷ []) rows
