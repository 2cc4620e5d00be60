-- ===== src/Capture/Flush.antt =====
-- The backlog of gns3/gns3-service/src/console_capture.py: its bounds, and where each item ends.
use onlinetlabs.Base.{◌≤◌, ◌<◌, ◌≡◌, refl, not, List, [], ◌∷◌, ◌++◌, length, filter}
use onlinetlabs.Capture.{
  Item, is_frame, CaptureLimits, Capture, Commit, committed, failed, cancelled, Fate,
  write_commands, write_chunks, write, sum_bytes, settled,
}

-- The bytes of the backlog are counted, and within the budget, as its rows are.
pub record IsBacked (l : CaptureLimits) (c : Capture) : Type 0 where
  pub counted : c.queued_bytes ≡ sum_bytes c.queue
  pub bytes_within : c.queued_bytes ≤ l.max_queue_bytes
  pub rows_within : 0 < l.queue_size → length c.queue ≤ l.queue_size

-- A write leaves the queue alone.
write_commands-queue :
    (c : Capture) (reported rows : List Item) (fate : Commit)
    → let w = (settled (write_commands c reported rows fate)).0 in
      (w.queue ≡ c.queue) × (w.queued_bytes ≡ c.queued_bytes)
unfolding write_commands settled
write_commands-queue c reported [] fate = (refl, refl)
write_commands-queue c reported (i ∷ rows) committed = (refl, refl)
write_commands-queue c reported (i ∷ rows) failed = (refl, refl)
write_commands-queue c reported (i ∷ rows) cancelled = (refl, refl)

write_chunks-queue :
    (c : Capture) (chunks rows : List Item) (fate : Fate) (commit : Commit)
    → let w = (settled (write_chunks c chunks rows fate commit)).0 in
      (w.queue ≡ c.queue) × (w.queued_bytes ≡ c.queued_bytes)
unfolding write_chunks
write_chunks-queue c [] rows fate commit = write_commands-queue c [] rows fate.commands
write_chunks-queue c (i ∷ chunks) rows fate committed =
    write_commands-queue (record c { written = c.written ++ i ∷ chunks; in_flight = rows }) [] rows
      fate.commands
write_chunks-queue c (i ∷ chunks) rows fate failed =
    write_commands-queue (record c { lost = (i ∷ chunks) ++ c.lost }) (i ∷ chunks) rows
      fate.commands
write_chunks-queue c (i ∷ chunks) rows fate cancelled = unfold settled in (refl, refl)

pub write-queue :
    (c : Capture) (fate : Fate)
    → let w = (settled (write c fate)).0 in (w.queue ≡ c.queue) × (w.queued_bytes ≡ c.queued_bytes)
unfolding write
write-queue c fate =
    write_chunks-queue c (filter is_frame c.in_flight) (filter (λ i. not (is_frame i)) c.in_flight)
      fate fate.chunks
