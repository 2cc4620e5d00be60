-- ===== src/Capture.antt =====
-- gns3/gns3-service/src/console_capture.py: `ConsoleCapture`, the queue of console frames and commands
-- and the flusher that writes them in batches. The two tables are one list of items, in the order of
-- the commits. `lost` is what the log reports as dropped, `kept` those of them that stay in flight to
-- be written again, and `offered` what `submit` has been called with. How a commit ends is an argument
-- of each write: a cancelled commit is one that has not been made. The duration of a command is left
-- out, and a text is the list of its bytes.
pub mod Runs
pub mod Accounts
pub mod Flush
pub mod Drain
use onlinetlabs.Base.{
  ℕ, zero, suc, ◌+◌, ◌-◌, Bool, true, false, not, ◌&&◌, List, [], ◌∷◌, ◌++◌, ltb, leb,
  if◌then◌else◌, length, take, drop, filter,
}
use onlinetlabs.Regime.{Time}

abbrev pub Bytes : Type 0
Bytes = List ℕ

pub data Direction : Type 0 where
  from_learner from_machine : Direction

pub record ConsoleFrame : Type 0 where
  pub session_id : ℕ
  pub node_id : ℕ
  pub connection_id : ℕ
  pub seq : ℕ
  pub direction : Direction
  pub payload : Bytes
  pub truncated : Bool
  pub redacted : Bool
  pub ts : Time

pub record ConsoleCommandRecord : Type 0 where
  pub session_id : ℕ
  pub node_id : ℕ
  pub connection_id : ℕ
  pub seq : ℕ
  pub prompt : Bytes
  pub command : Bytes
  pub response : Bytes
  pub ts : Time

pub data Item : Type 0 where
  frame : ConsoleFrame → Item
  command : ConsoleCommandRecord → Item

-- `isinstance(item, ConsoleFrame)`
abbrev pub is_frame : Item → Bool
is_frame (frame f) = true
is_frame (command c) = false

-- `_frame_bytes`
abbrev pub frame_bytes : Item → ℕ
frame_bytes (frame f) = length f.payload
frame_bytes (command c) = length c.command + length c.response

-- The arguments of `__init__`.
pub record CaptureLimits : Type 0 where
  pub queue_size : ℕ
  pub max_queue_bytes : ℕ
  pub batch_size : ℕ
  -- whether there is a `db_factory`
  pub has_db : Bool

pub record Capture : Type 0 where
  pub queue : List Item
  pub queued_bytes : ℕ
  pub dropped : ℕ
  pub in_flight : List Item
  pub written : List Item
  pub lost : List Item
  pub kept : List Item
  pub offered : List Item

-- `_drop`
abbrev pub drop_item : Capture → Item → Capture
drop_item c i = record c { dropped = suc c.dropped; lost = i ∷ c.lost }

-- How the commit of one table ends.
pub data Commit : Type 0 where
  committed failed cancelled : Commit

pub record Fate : Type 0 where
  pub chunks : Commit
  pub commands : Commit

-- How the commits of a round end, and what is submitted while it awaits them.
pub record Round : Type 0 where
  pub fate : Fate
  pub meanwhile : List Item

-- Whether a call returned; a cancelled one did not.
pub data Finish : Type 0 where
  returned interrupted : Finish

-- The second half of `_write`, after `reported` has been logged as chunks that were not written. Where
-- the commit is cancelled, they are still in flight with the commands.
unfoldable pub write_commands : Capture → List Item → List Item → Commit → Capture × Finish
write_commands c reported [] fate = (c, returned)
write_commands c reported (i ∷ rows) committed =
    (record c { written = c.written ++ i ∷ rows; in_flight = [] }, returned)
write_commands c reported (i ∷ rows) failed = (record c { lost = (i ∷ rows) ++ c.lost }, returned)
write_commands c reported (i ∷ rows) cancelled =
    (record c { kept = reported ++ c.kept }, interrupted)

-- The first half: `_in_flight` becomes the commands once the chunks are written.
unfoldable pub write_chunks : Capture → List Item → List Item → Fate → Commit → Capture × Finish
unfolding write_commands
write_chunks c [] rows fate commit = write_commands c [] rows fate.commands
write_chunks c (i ∷ chunks) rows fate committed =
    write_commands (record c { written = c.written ++ i ∷ chunks; in_flight = rows }) [] rows
      fate.commands
write_chunks c (i ∷ chunks) rows fate failed =
    write_commands (record c { lost = (i ∷ chunks) ++ c.lost }) (i ∷ chunks) rows fate.commands
write_chunks c (i ∷ chunks) rows fate cancelled = (c, interrupted)

-- `_write`, on the batch that is in flight.
unfoldable pub write : Capture → Fate → Capture × Finish
unfolding write_chunks
write c fate =
    write_chunks c (filter is_frame c.in_flight) (filter (λ i. not (is_frame i)) c.in_flight) fate
      fate.chunks

-- The inner loop of `_drain_once`: at most `room` items go from the queue to the batch.
unfoldable pub unload : ℕ → List Item → Capture → Capture
unload zero q c = record c { queue = q }
unload (suc room) [] c = record c { queue = [] }
unload (suc room) (i ∷ q) c =
    unload room q (record c {
      queued_bytes = c.queued_bytes - frame_bytes i;
      in_flight = c.in_flight ++ i ∷ [];
    })

abbrev pub fill : ℕ → Capture → Capture
fill room c = unload room c.queue c

-- The end of a round, where `_write` has returned.
unfoldable pub settled : Capture × Finish → Capture × Finish
settled (c, returned) = (record c { in_flight = [] }, returned)
settled (c, interrupted) = (c, interrupted)

unfoldable pub continue : (Capture → Capture × Finish) → Capture × Finish → Capture × Finish
continue next (c, interrupted) = (c, interrupted)
continue next (c, returned) = next c

abbrev pub disturbed : (Capture → Capture) → Capture × Finish → Capture × Finish
disturbed others (c, finish) = (others c, finish)

-- One round of `_drain_once` on a filled batch, and the rounds after it. `others` is what the rest of
-- the service submits while the round awaits its commits and its `sleep(0)`.
unfoldable pub batch_from :
    (Capture → Capture × Finish)
    → (Capture → Capture)
    → Fate
    → Capture
    → List Item
    → Capture × Finish
unfolding continue settled
batch_from next others fate c [] = (c, returned)
batch_from next others fate c (i ∷ batch) =
    continue next (disturbed others (settled (write c fate)))

unfoldable pub batch_of :
    (Capture → Capture × Finish) → (Capture → Capture) → Fate → Capture → Capture × Finish
unfolding batch_from
batch_of next others fate c = batch_from next others fate c c.in_flight

abbrev pub sum_bytes : List Item → ℕ
sum_bytes [] = 0
sum_bytes (i ∷ is) = frame_bytes i + sum_bytes is

module _ (l : CaptureLimits) where
  -- `QueueFull`; a size of 0 is no limit.
  abbrev pub is_full : Capture → Bool
  is_full c = ltb 0 l.queue_size && leb l.queue_size (length c.queue)

  admit : Capture → Item → Capture
  admit c i =
      if ltb l.max_queue_bytes (c.queued_bytes + frame_bytes i)
      then drop_item c i
      else (if is_full c then drop_item c i else record c {
        queue = c.queue ++ i ∷ [];
        queued_bytes = c.queued_bytes + frame_bytes i;
      })

  -- `submit`
  unfoldable pub submit : Capture → Item → Capture
  unfolding admit
  submit c i = admit (record c { offered = i ∷ c.offered }) i

  unfoldable pub submit_all : Capture → List Item → Capture
  submit_all c [] = c
  submit_all c (i ∷ is) = submit_all (submit c i) is

  -- The loop of `_drain_once`: it ends at the first empty batch, or is interrupted.
  unfoldable pub drain_rounds : List Round → Capture → Capture × Finish
  unfolding batch_of unload
  drain_rounds [] c = (c, interrupted)
  drain_rounds (round ∷ rounds) c =
      batch_of (drain_rounds rounds) (λ d. submit_all d round.meanwhile) round.fate
        (fill (l.batch_size - length c.in_flight) c)

  -- `_drain_once`
  unfoldable pub drain_once : List Round → Capture → Capture × Finish
  unfolding drain_rounds
  drain_once rounds c = if l.has_db then drain_rounds rounds c else (c, returned)
