-- ===== src/Collector.antt =====
-- backend/analytics/runtime/collector.py: `BehavioralCollector`, which polls what a learner did and
-- stores it. A time, a text and an id are numbers; an absent component is `none`. The digest of the
-- de-duplication key (MD5) is an argument, and so are the answers of the MCP server, or of the control
-- interface that stands before it: `none` is a call that raised. The ids of session, learner and lab,
-- which are the same in all events of a collector, are left out, and so is the evidence snapshot.
pub mod Window
pub mod Again
use onlinetlabs.Base.{
  ℕ, suc, ◌≡◌, Bool, true, false, Option, none, some, List, [], ◌∷◌, ◌++◌, map, take, contains,
  if◌then◌else◌, ◌==◌,
}

-- `UserAction`, `LogEntry` and `ErrorEntry` of mcp-sdk/src/mcp_sdk/models.py.
pub record UserAction : Type 0 where
  pub timestamp : ℕ
  pub component_id : Option ℕ
  pub action : ℕ
  pub raw_command : Option ℕ
  pub success : Bool

pub record LogEntry : Type 0 where
  pub timestamp : ℕ
  pub level : ℕ
  pub source : ℕ
  pub message : ℕ

pub record ErrorEntry : Type 0 where
  pub timestamp : ℕ
  pub level : ℕ
  pub component_id : Option ℕ
  pub message : ℕ
  pub details : Option ℕ

pub data EventType : Type 0 where
  action_event : EventType
  log_event : EventType
  error_event : EventType

-- The text of an action: the learner's, "log", "log_" with a level, and "error".
pub data ActionName : Type 0 where
  of_user : ℕ → ActionName
  log : ActionName
  log_at : ℕ → ActionName
  error : ActionName

pub record BehavioralEvent : Type 0 where
  pub event_type : EventType
  pub timestamp : ℕ
  pub component_id : Option ℕ
  pub component_type : Option ℕ
  pub action : ActionName
  pub raw_command : Option ℕ
  pub success : Bool
  pub severity : Option ℕ
  pub message : Option ℕ
  pub details : Option ℕ

-- What the collector keeps between cycles: the keys seen, the newest first, the types of components,
-- and the time of the last poll of errors.
pub record Collector : Type 0 where
  pub seen : List ℕ
  pub component_types : List (ℕ × ℕ)
  pub last_error_poll : Option ℕ

-- `_is_new`, on the keys seen: whether the key is new, and the keys seen after it.
unfoldable pub is_new : ℕ → ℕ → List ℕ → Bool × List ℕ
is_new dedup_max_size key seen =
    if contains key seen then (false, seen) else (true, take dedup_max_size (key ∷ seen))

unfoldable pub type_of : ℕ → List (ℕ × ℕ) → Option ℕ
type_of c [] = none
type_of c ((k, t) ∷ ts) = let rest = type_of c ts in if k == c then some t else rest

-- The write of an answered look-up.
unfoldable pub learn_type : ℕ → Option ℕ → Option ℕ → List (ℕ × ℕ) → List (ℕ × ℕ)
learn_type c (some known) answer types = types
learn_type c none none types = types
learn_type c none (some t) types = (c, t) ∷ types

-- `_resolve_type`; `component_type` is what the server answers for a component.
unfoldable pub resolve_type : (ℕ → Option ℕ) → Option ℕ → List (ℕ × ℕ) → List (ℕ × ℕ)
resolve_type component_type none types = types
resolve_type component_type (some c) types = learn_type c (type_of c types) (component_type c) types

abbrev pub known_type : Option ℕ → List (ℕ × ℕ) → Option ℕ
known_type none types = none
known_type (some c) types = type_of c types

-- `normalize_user_action`
unfoldable pub normalize_user_action : UserAction → List (ℕ × ℕ) → BehavioralEvent
normalize_user_action a types = record {
  event_type = action_event;
  timestamp = a.timestamp;
  component_id = a.component_id;
  component_type = known_type a.component_id types;
  action = of_user a.action;
  raw_command = a.raw_command;
  success = a.success;
  severity = none;
  message = none;
  details = none;
}

-- `normalize_log_entry`
unfoldable pub normalize_log_entry : LogEntry → BehavioralEvent
normalize_log_entry l = record {
  event_type = log_event;
  timestamp = l.timestamp;
  component_id = some l.source;
  component_type = none;
  action = log_at l.level;
  raw_command = none;
  success = true;
  severity = some l.level;
  message = some l.message;
  details = none;
}

-- `normalize_error_entry`
unfoldable pub normalize_error_entry : ErrorEntry → BehavioralEvent
normalize_error_entry e = record {
  event_type = error_event;
  timestamp = e.timestamp;
  component_id = e.component_id;
  component_type = none;
  action = error;
  raw_command = none;
  success = false;
  severity = some e.level;
  message = some e.message;
  details = e.details;
}

-- What a cycle meets: the answers of the three calls, of the look-ups of types, the time, and whether
-- the write succeeds.
pub record Cycle : Type 0 where
  pub actions : Option (List UserAction)
  pub logs : Option (List LogEntry)
  pub errors : Option ℕ → Option (List ErrorEntry)
  pub component_type : ℕ → Option ℕ
  pub now : ℕ
  pub is_saved : Bool

module _ (digest : ℕ → ActionName → Option ℕ → ℕ) (dedup_max_size : ℕ) where
  -- The keys of the entries.
  abbrev pub action_key : UserAction → ℕ
  action_key a = digest a.timestamp (of_user a.action) a.component_id

  abbrev pub log_key : LogEntry → ℕ
  log_key l = digest l.timestamp log (some l.source)

  -- The loop of `_fetch_actions`.
  unfoldable pub take_actions :
      (ℕ → Option ℕ) → List UserAction → Collector → List BehavioralEvent × Collector
  take_actions component_type [] k = ([], k)
  take_actions component_type (a ∷ rest) k =
      let (new, seen) = is_new dedup_max_size (action_key a) k.seen in
      let types = resolve_type component_type a.component_id k.component_types in
      let (events, after) =
        take_actions component_type rest
          (if new then record k { seen = seen; component_types = types } else k) in
      (if new then normalize_user_action a types ∷ events else events, after)

  -- `_fetch_actions`
  unfoldable pub fetch_actions :
      (ℕ → Option ℕ) → Option (List UserAction) → Collector → List BehavioralEvent × Collector
  fetch_actions component_type none k = ([], k)
  fetch_actions component_type (some entries) k = take_actions component_type entries k

  -- The loop of `_fetch_logs`.
  unfoldable pub take_logs : List LogEntry → Collector → List BehavioralEvent × Collector
  take_logs [] k = ([], k)
  take_logs (l ∷ rest) k =
      let (new, seen) = is_new dedup_max_size (log_key l) k.seen in
      let (events, after) = take_logs rest (if new then record k { seen = seen } else k) in
      (if new then normalize_log_entry l ∷ events else events, after)

  -- `_fetch_logs`
  unfoldable pub fetch_logs : Option (List LogEntry) → Collector → List BehavioralEvent × Collector
  fetch_logs none k = ([], k)
  fetch_logs (some entries) k = take_logs entries k

  -- `_fetch_errors`
  unfoldable pub fetch_errors :
      ℕ → Option (List ErrorEntry) → Collector → List BehavioralEvent × Collector
  fetch_errors now none k = ([], k)
  fetch_errors now (some entries) k =
      (map normalize_error_entry entries, record k { last_error_poll = some now })

  -- `_poll_cycle`: the events of the cycle, and the collector after it.
  unfoldable pub poll_cycle : Cycle → Collector → List BehavioralEvent × Collector
  poll_cycle c k =
      let (actions, k1) = fetch_actions c.component_type c.actions k in
      let (logs, k2) = fetch_logs c.logs k1 in
      let (errors, k3) = fetch_errors c.now (c.errors k2.last_error_poll) k2 in
      (actions ++ logs ++ errors, k3)

  -- `_persist`: the table of events, which a failed write leaves as it was.
  unfoldable pub persist : Bool → List BehavioralEvent → List BehavioralEvent → List BehavioralEvent
  persist is_saved events table = if is_saved then table ++ events else table

  -- The cycles of `_poll_loop`.
  unfoldable pub poll_loop :
      List Cycle → Collector → List BehavioralEvent → Collector × List BehavioralEvent
  poll_loop [] k table = (k, table)
  poll_loop (c ∷ cs) k table =
      let (events, after) = poll_cycle c k in poll_loop cs after (persist c.is_saved events table)
