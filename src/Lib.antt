-- ===== src/Lib.antt =====
-- onlinetlabs: network labs that a learner runs in GNS3 while a closed loop watches the session and
-- helps when the learner struggles. This library models the core of the backend (backend/), the
-- connection pool of its MCP library (mcp-sdk/), and the session lifecycle, the access gate and the
-- console capture of its GNS3 service (gns3/), and proves what makes them correct.
--
-- The parts, and the files that model them:
--
-- - Redis: the store behind the queue service, an interface of commands with their documented laws.
-- - Queue: backend/sessions/queue.py. A lab's free slots are two counters in Redis, its queue a list;
--   try_acquire, release and enqueue are Lua scripts and so single steps. Queue/Slots has what one
--   call does to a counter, Queue/Ledger the refinement to a multiset of held slots, Queue/Caps the
--   caps under any interleaving of calls and of keys that expire, Queue/Fifo the waiting line.
-- - Sessions: the rows of LearningSession in backend/models/learning.py, the lookups of
--   backend/sessions/services/query.py and the transactions of backend/sessions/services/launch.py. A
--   table is a list of rows and a transaction a function of it. Sessions/Live counts live rows.
-- - Lifecycle: backend/sessions/services/lifecycle.py, the ends, the restart and the reset.
--   Lifecycle/Transactions is a step relation of the transactions that add a row or change its status,
--   and of the restart; Lifecycle/Ends is what an end does once and again.
-- - Launch: launch_session, and launch_endpoint of backend/sessions/routers/commands.py, which calls
--   Queue, Sessions and Lifecycle. What other requests commit while a launch awaits is a function of
--   the table in its environment, so a race is an argument, and so are the calls to Redis that raise.
--   Launch/Slots is its slot accounting.
-- - Regime: ProcessRegime and DwellTracker of backend/analytics/runtime/process_state.py.
-- - Identifier: the struggle rules of backend/agents/identifier/agent.py.
-- - ControlLaw: should_intervene of backend/analytics/runtime/control_law.py.
-- - Monitor: SessionMonitor of backend/analytics/runtime/monitor.py, which runs Identifier, Regime and
--   ControlLaw in cycles. A cycle is a function of the monitor and of what the cycle meets. The
--   children are the parts of the state a cycle keeps (Frame), the arms and the control interface
--   (Arm, and Unheeded for the cycles under MRT), the pause between acts (Spacing), the spells of the
--   micro-randomized trial (Spells) and the escalations (Escalation). A commit that raises ends a cycle.
-- - Consent: the registry and the rows of backend/consent/ (registry.py, consent.py). Consent/Rows is
--   what an answer and a revocation change.
-- - Interface: the seam of backend/consent/interface.py. Interface/Gates is what a call of a tool
--   passes, and its audit.
-- - Worker: one pass of backend/worker/reaper.py and of backend/worker/idle_reclaim.py, and the stamp of
--   backend/sessions/activity.py. Worker/Passes is what a pass does to one row while the others change.
-- - Validation: backend/validation/, the checks of a lab. The run that streams its events and the plain
--   evaluation are two functions; Validation/Replay has a client that follows the events, and
--   Validation/Service the guards before a run and the row that it leaves, which Validation/Stream
--   describes for a client that goes early.
-- - Progress: backend/progress/service.py, which Validation calls at the end of a run. Progress/Best is
--   the progress of a lab over a sequence of runs, Progress/Attempts the numbers of a step's attempts
--   when other transactions commit between the tries of a call.
-- - Collector: BehavioralCollector of backend/analytics/runtime/collector.py, which polls what the Monitor
--   analyses. Collector/Window is the de-duplication, Collector/Again what a second poll and a failed
--   write do.
-- - Observer: backend/analytics/runtime/progress_observer.py, which evaluates the checks of Validation in
--   the background. Observer/Current is the current step, Observer/Changes the events between polls.
-- - Pool: ConnectionPool of mcp-sdk/src/mcp_sdk/connection.py, which the MCP servers take connections
--   from. Pool/Order is the order of use, Pool/Calls one call after another, and Pool/Race calls for
--   different keys that are interleaved between their awaits.
-- - Capture: ConsoleCapture of gns3/gns3-service/src/console_capture.py, the queue of console frames and
--   commands and its flusher. Capture/Runs is submits and drains in any order, Capture/Accounts where each
--   item ends, Capture/Flush the bounds of the backlog, and Capture/Drain the rounds of a drain.
-- - Tap: ConsoleTap of the same file, which submits to Capture. Tap/Pieces and Tap/Lines part a stream into
--   frames, Tap/Mask the typed passwords, Tap/Budget the rows of one socket, Tap/Closing the
--   loop of `close`.
-- - Gns3: gns3/gns3-service/src/services/session_lifecycle.py, the users, projects and rows that the calls
--   of a lab session leave. GNS3 and the database are replies, one for each call, so a failure at any
--   call is an argument. Gns3/Sessions has the operations, with Creation, Backing and Closing for what
--   they keep; Gns3/Gate is gns3/gns3-service/src/rbac_gate.py as a step relation of calls in several
--   replicas, and Gns3/Gate/Held its exclusion and progress.
-- - Registry: backend/sessions/monitor_registry.py, which starts a Monitor and an Observer for a session.
-- - Vpcs: backend/validation/checks/vpcs.py, handlers of the checks that Validation runs. Vpcs/Patterns
--   is the comparison of a number with a pattern, Vpcs/Verdicts what the handlers answer.
-- - Criterion: backend/analytics/criterion.py, and in Criterion/Thresholds backend/analytics/thresholds.py:
--   the cost of a policy over logged sessions, and the search for thresholds. Criterion/Firing compares
--   the simulated policy with ControlLaw and Criterion/Pauses has its pauses; Criterion/FalseAlarms is
--   about the false interventions, Criterion/Resolving about the counterfactual, and Criterion/Search
--   about the grid search.
-- - Experiment: backend/experiment/, the arm of a session (Experiment/Arms) and its final metrics, with
--   the runs of equal errors (Experiment/Metrics/Runs).
-- - Features: backend/analytics/runtime/features.py, the counts that Identifier reads of what Collector
--   stores. Features/Tail is what the newest events do to them.
-- - Caches: gns3/gns3-service/src/services/state_cache.py and backend/sessions/services/ticket.py, with
--   Caches/Fresh for what is returned and how often.
-- - Base: names of the libraries, Boolean tests, lists, maps and the integers over the native ℕ.
-- - Tests: a store in memory, and the theorems at concrete inputs.
--
-- Numbers. A time is a number of microseconds since an epoch, a difference of two times an integer. An
-- id, a slug and a locale are only compared for equality, and a number stands for each. Real numbers
-- are fixed-point: features and thresholds in units of 1 / 10000, a probability and a random draw in
-- units of 2^-53, a mean and a confidence as a fraction, a score in tenths of a percent. The loops of
-- Tap take a byte at least in each round, so their fuel is the length of what waits and one more; it
-- is enough for both (Tap/Lines for `_ingest`, Tap/Closing for `close`). The drain of Capture is
-- given, for each round, how its commits end and what is submitted meanwhile, and Vpcs reads through
-- three connections at most, as the code does. Every other loop is a recursion on a list, or a relation
-- of steps.
--
-- Not modelled: the web framework, the user interface, the language models and GNS3 itself (their
-- answers are arguments), the regular expressions and the text encodings of the console (arguments
-- too), floating point (costs and times are exact numbers), the activity feed and the metrics that
-- nothing reads back, and the parts of the repository with no file here.
pub mod Base
pub mod Redis
pub mod Queue
pub mod Regime
pub mod ControlLaw
pub mod Identifier
pub mod Monitor
pub mod Consent
pub mod Interface
pub mod Sessions
pub mod Lifecycle
pub mod Launch
pub mod Worker
pub mod Collector
pub mod Validation
pub mod Observer
pub mod Progress
pub mod Pool
pub mod Capture
pub mod Tap
pub mod Gns3
pub mod Registry
pub mod Vpcs
pub mod Criterion
pub mod Experiment
pub mod Features
pub mod Caches
pub mod Tests
