-- ===== src/Tests/Background.antt =====
-- The theorems about backend/worker/ and backend/sessions/activity.py: session 5 of learner 1.
use onlinetlabs.Base.{◌≡◌, refl, true, some, [], ◌∷◌, arith, if◌then◌else◌, ◌==◌}
use onlinetlabs.Sessions.{Session, active, ended, provisioning_row, finalize_fields, get_row}
use onlinetlabs.Lifecycle.{World, ended_fields}
use onlinetlabs.Worker.{ReapEnv, is_overdue, reap_expired_sessions, ReclaimEnv}
use onlinetlabs.Worker.Passes.{reap_expired_sessions_lem}
use onlinetlabs.Tests.Fixtures.{Memory, memory, empty, two_slots}

abbrev launched : Session
launched =
    finalize_fields active (some (record { gns3_service_session_id = 3; gns3_project_id = 4 }))
      (provisioning_row 5 1 7 0 100 3600)

abbrev crashed : Session
crashed = provisioning_row 6 2 7 0 100 9000000000

abbrev world : World Memory
world = record { rows = launched ∷ crashed ∷ []; slots = empty }

abbrev reaping : ReapEnv Memory
reaping = record {
  meanwhile = λ id w. w;
  stop_ok = λ id. id == 5;
  ended_at = λ id. 4001;
  redis_ok = λ id. true;
}

reap_expired_sessions_lem_example :
    get_row (reap_expired_sessions memory two_slots reaping world 4000).rows 5
    ≡ some (if is_overdue 4000 launched then ended_fields ended 4001 launched else launched)
reap_expired_sessions_lem_example =
    reap_expired_sessions_lem memory two_slots reaping world 4000 launched (omega arith) refl refl
      (λ j w. refl) refl

abbrev reclaiming : ReclaimEnv
reclaiming = record {
  meanwhile = λ id rows. rows;
  gns3_activity = λ id. some 200;
  stop_ok = λ id. true;
  paused_at = λ id. 2000000001;
}
