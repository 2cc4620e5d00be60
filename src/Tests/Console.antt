-- ===== src/Tests/Console.antt =====
-- The theorems about gns3/gns3-service/src/console_capture.py: a small queue and a short chunk.
use onlinetlabs.Base.{
  ℕ, ◌+◌, ◌≤◌, ◌<◌, ◌≡◌, refl, Bool, true, false, none, List, [], ◌∷◌, ◌++◌, arith, length, map,
  All,
}
use onlinetlabs.Capture.{
  Bytes, from_machine, Item, frame, CaptureLimits, Capture, committed, failed, cancelled, Commit,
  command, Round, submit, submit_all, batch_of, unload, write, settled, drain_once,
}
use onlinetlabs.Capture.Runs.{Event, submits, drains, run}
use onlinetlabs.Tap.{TapLimits, Finished, Tap, ingest, last_break, emit_buffer}
use onlinetlabs.Tap.Pieces.{IsPartial, outs, concat}
use onlinetlabs.Tap.Lines.{ingest_lem}
use onlinetlabs.Tap.Budget.{IsNumbered}

abbrev limits : CaptureLimits
limits = record { queue_size = 2; max_queue_bytes = 10; batch_size = 2; has_db = true }

abbrev no_backlog : Capture
no_backlog = record {
  queue = [];
  queued_bytes = 0;
  dropped = 0;
  in_flight = [];
  written = [];
  lost = [];
  kept = [];
  offered = [];
}

abbrev typed : ℕ → Item
typed n = command (record {
  session_id = 9;
  node_id = 1;
  connection_id = 4;
  seq = n;
  prompt = 35 ∷ [];
  command = 105 ∷ [];
  response = 66 ∷ [];
  ts = 100 + n;
})

abbrev line : ℕ → Item
line n = frame (record {
  session_id = 9;
  node_id = 1;
  connection_id = 4;
  seq = n;
  direction = from_machine;
  payload = 65 ∷ 66 ∷ 10 ∷ [];
  truncated = false;
  redacted = false;
  ts = 100 + n;
})

abbrev ends : Commit → Commit → List Item → Round
ends chunks commands meanwhile = record {
  fate = record { chunks = chunks; commands = commands };
  meanwhile = meanwhile;
}

-- A line, a command, and a line that finds the queue full; a drain whose chunks fail and whose commands
-- are cancelled, while a line comes; and a drain that writes the chunk that the log has given up.
abbrev events : List Event
events =
    submits (line 1)
    ∷ submits (typed 1)
    ∷ submits (line 2)
    ∷ drains (ends failed cancelled (line 3 ∷ []) ∷ [])
    ∷ drains (ends committed committed [] ∷ ends committed committed [] ∷ [])
    ∷ []

given_up_and_written :
    let c = run limits no_backlog events in
    (c.lost ≡ line 1 ∷ line 2 ∷ [])
    × (c.kept ≡ line 1 ∷ [])
    × (c.written ≡ line 1 ∷ typed 1 ∷ line 3 ∷ [])
unfolding run submit submit_all drain_once batch_of unload write settled
given_up_and_written = (refl, refl, refl)

abbrev backlog : Capture
backlog = record no_backlog { queue = line 1 ∷ []; queued_bytes = 3 }

abbrev rounds : List Round
rounds =
    ends failed committed (line 2 ∷ [])
    ∷ ends committed committed []
    ∷ ends committed committed []
    ∷ ends committed committed []
    ∷ []

abbrev tap_limits : TapLimits
tap_limits = record { chunk = 4; connection_bytes = 100; rows = 5; prompt = 8 }

abbrev socket : Tap ℕ
socket = record {
  session_id = 9;
  node_id = 1;
  connection_id = 4;
  seq = 0;
  bytes = 0;
  over_budget = false;
  rows = 0;
  tail = [];
  password_mode = false;
  pending_enters = [];
  last_enter_match = 0;
  typed = record { block = []; ts = none };
  output = record { block = []; ts = none };
  parser = 0;
  sent = [];
}

abbrev plain : Bytes → Bytes × Bool
plain bs = (bs, false)

-- A line, a piece of a chunk without a break, and a rest.
abbrev output : Bytes
output = 65 ∷ 10 ∷ 66 ∷ 66 ∷ 66 ∷ 66 ∷ 67 ∷ []

within : (ingest tap_limits plain socket from_machine output 50).over_budget ≡ false
unfolding ingest last_break emit_buffer
within = refl

ingest_lem_example :
    let t = ingest tap_limits plain socket from_machine output 50 in
    (pieces : List Bytes) × (concat pieces ++ t.output.block ≡ output)
    × (outs t.sent ≡ map (λ p. (plain p).0) pieces)
    × All (λ p. (0 < length p) × (length p ≤ 4)) pieces
    × IsPartial t.output.block
    × (length t.output.block < 4)
ingest_lem_example =
    ingest_lem tap_limits plain socket output 50 (omega arith) refl (omega arith) within

abbrev feed : ℕ → Bytes → ℕ → ℕ × List Finished
feed p bs now = (p, [])

abbrev flush : ℕ → ℕ × List Finished
flush p = (p, [])

socket-IsNumbered : IsNumbered tap_limits socket
socket-IsNumbered = record { one_row_each = refl; rows_within = omega arith; seqs = refl }
