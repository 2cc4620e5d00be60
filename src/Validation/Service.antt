-- ===== src/Validation/Service.antt =====
-- backend/validation/service.py and repository.py: the guards before a run (`prepare_validation`), and a
-- run whose events a client reads as long as it stays (`stream_validation`). Times and ids are numbers.
use onlinetlabs.Base.{ℕ, Option, none, some, List, [], ◌∷◌, take, if◌then◌else◌}
use onlinetlabs.Validation.{
  Step, StepRecord, Event, run_start, step_start, check_start, check_log, check_result, step_result,
  run_finish, Handled, run_validation,
}
use onlinetlabs.Progress.{LabProgress, has_steps, record_lab_validation}

-- What the guards refuse with.
pub data ValidationError : Type 0 where
  session_not_found : ValidationError
  lab_spec_not_found : ValidationError
  gns3_session_missing : ValidationError

pub data Prepared (J : Type 0) : Type 0 where
  refused : ValidationError → Prepared J
  prepared : List (Step J) → ℕ → Prepared J

-- `prepare_validation`, by what its look-ups give: the id that the owned session's `meta` holds, or
-- no session; and the spec.
unfoldable pub prepare_validation :
    {J : Type 0} → Option (Option ℕ) → Option (List (Step J)) → Prepared J
prepare_validation none spec = refused session_not_found
prepare_validation (some gns3_sid) none = refused lab_spec_not_found
prepare_validation (some none) (some spec) = refused gns3_session_missing
prepare_validation (some (some gns3_sid)) (some spec) = prepared spec gns3_sid

pub data RunStatus : Type 0 where
  running : RunStatus
  passed : RunStatus
  failed : RunStatus

-- `ValidationRun` of backend/models/learning.py.
pub record ValidationRun (J : Type 0) : Type 0 where
  pub session_id : ℕ
  pub lab_slug : ℕ
  pub status : RunStatus
  pub steps : List (StepRecord J)
  pub finished_at : Option ℕ

-- `create_run`
unfoldable pub create_run : {J : Type 0} → ℕ → ℕ → ValidationRun J
create_run session lab = record {
  session_id = session;
  lab_slug = lab;
  status = running;
  steps = [];
  finished_at = none;
}

-- `finish_run`
unfoldable pub finish_run :
    {J : Type 0} → ℕ → RunStatus → List (StepRecord J) → ValidationRun J → ValidationRun J
finish_run now status steps run = record run {
  status = status;
  steps = steps;
  finished_at = some now;
}

-- The loop of `stream_validation` over the events that the client reads: the final status and steps,
-- from the last event, which comes with the steps.
unfoldable pub final_of :
    {J : Type 0} → List (StepRecord J) → List (Event J) → RunStatus × List (StepRecord J)
final_of steps [] = (failed, [])
final_of steps (run_finish ok ∷ es) = (if ok then passed else failed, steps)
final_of steps (run_start n ∷ es) = final_of steps es
final_of steps (step_start id title n ∷ es) = final_of steps es
final_of steps (check_start id idx kind params ∷ es) = final_of steps es
final_of steps (check_log id idx line ∷ es) = final_of steps es
final_of steps (check_result id idx ok expected actual unobserved ∷ es) = final_of steps es
final_of steps (step_result id title ok ∷ es) = final_of steps es

-- The block of `stream_validation` that runs at its end, however the stream ends: the run's row, and
-- the table of progress.
unfoldable pub close_run :
    {J : Type 0}
    → (ℕ → ℕ → ℕ)
    → (now user session lab : ℕ) → List LabProgress
    → RunStatus × List (StepRecord J)
    → ValidationRun J × List LabProgress
close_run percent now user session lab rows (final_status, final_steps) = (
  finish_run now final_status final_steps (create_run session lab),
  if has_steps final_steps
      then record_lab_validation percent now user lab final_steps rows
      else rows,
)

module _ {J : Type 0} (handler : ℕ → Option (J → J → Handled J)) (unknown_kind : ℕ → J)
    (render : J → ℕ → J) (percent : ℕ → ℕ → ℕ) where
  -- `stream_validation`, whose client reads the first `seen` events.
  unfoldable pub stream_validation :
      (now user session lab : ℕ)
      → List (Step J)
      → (seen : ℕ) → List LabProgress
      → ValidationRun J × List LabProgress
  stream_validation now user session lab spec seen rows =
      let (events, steps) = run_validation handler unknown_kind render spec in
      close_run percent now user session lab rows (final_of steps (take seen events))
