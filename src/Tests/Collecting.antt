-- ===== src/Tests/Collecting.antt =====
-- The theorems about backend/analytics/runtime/collector.py: two cycles that are answered the same.
use onlinetlabs.Base.{ℕ, Option, ◌*◌, ◌+◌, ◌≡◌, true, false, none, some, List, [], ◌∷◌, arith}
use onlinetlabs.Collector.{
  UserAction, LogEntry, ActionName, of_user, log, log_at, error, Collector, Cycle, fetch_errors,
  poll_cycle, persist, poll_loop,
}
use onlinetlabs.Collector.Again.{answering, poll_loop-again}

abbrev code : ActionName → ℕ
code (of_user a) = 10 + a
code log = 0
code (log_at n) = 1
code error = 2

abbrev digest : ℕ → ActionName → Option ℕ → ℕ
digest at a none = 100 * at + code a
digest at a (some c) = 10000 * c + 100 * at + code a

abbrev actions : List UserAction
actions =
    record { timestamp = 1; component_id = some 7; action = 3; raw_command = none; success = true }
    ∷ record {
      timestamp = 2;
      component_id = none;
      action = 4;
      raw_command = some 5;
      success = false;
    }
    ∷ []

abbrev logs : List LogEntry
logs = record { timestamp = 2; level = 1; source = 8; message = 9 } ∷ []

abbrev cycle : Cycle
cycle = record {
  actions = some actions;
  logs = some logs;
  errors = λ since.
      some (
        record { timestamp = 3; level = 2; component_id = none; message = 6; details = none } ∷ []);
  component_type = λ c. some 1;
  now = 5;
  is_saved = false;
}

abbrev fresh : Collector
fresh = record { seen = []; component_types = []; last_error_poll = none }

poll_loop-again_example :
    let (events, after) = poll_cycle digest 4 (answering digest 4 actions logs cycle) fresh in
    (poll_loop digest 4
      (answering digest 4 actions logs cycle ∷ answering digest 4 actions logs cycle ∷ [])
      fresh
      []).1
    ≡ persist digest 4 false
        (fetch_errors digest 4 5 (cycle.errors after.last_error_poll) after).0
        (persist digest 4 false events [])
poll_loop-again_example = poll_loop-again digest 4 cycle cycle actions logs fresh [] (omega arith)
