-- ===== src/Validation/Stream.antt =====
-- What a run of backend/validation/service.py leaves, by how long its client stays.
use onlinetlabs.Validation.{
  Event, run_start, step_start, check_start, check_log, check_result, step_result, run_finish,
}

-- Whether an event is not the last of a run.
unfoldable pub IsInner : {J : Type 0} → Event J → Type 0
IsInner (run_finish ok) = ⊥
IsInner (run_start n) = Unit
IsInner (step_start id title n) = Unit
IsInner (check_start id idx kind params) = Unit
IsInner (check_log id idx line) = Unit
IsInner (check_result id idx ok expected actual unobserved) = Unit
IsInner (step_result id title ok) = Unit
