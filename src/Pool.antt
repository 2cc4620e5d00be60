-- ===== src/Pool.antt =====
-- mcp-sdk/src/mcp_sdk/connection.py: `ConnectionPool`. The entries of the `OrderedDict` are a list, the
-- least recently used first. A key, which is a tuple of strings, is only compared for equality: a
-- number stands for it, and one for a connection. The two calls of the manager are arguments: whether a
-- connection is healthy, and what `connect` gives, if it does not raise.
pub mod Order
pub mod Calls
pub mod Race
use onlinetlabs.Base.{
  ℕ, ◌+◌, Bool, true, false, not, Option, none, some, List, [], ◌∷◌, ◌++◌, ltb, ◌==◌, if◌then◌else◌,
  length, filter, contains, map,
}
use onlinetlabs.Regime.{Time}

-- `_Entry`, with its key.
pub record Entry : Type 0 where
  pub key : ℕ
  pub conn : ℕ
  pub last_used : Time
  pub last_checked : Time

abbrev pub Entries : Type 0
Entries = List Entry

-- The arguments of `__init__`.
pub record Limits : Type 0 where
  pub max_size : ℕ
  pub idle_ttl : ℕ
  pub health_check_interval : ℕ
  pub min_evict_idle : ℕ

abbrev pub keys : Entries → List ℕ
keys = map (λ e. e.key)

-- `self._entries.get(key)`
abbrev pub find_entry : ℕ → Entries → Option Entry
find_entry k [] = none
find_entry k (e ∷ es) = if e.key == k then some e else find_entry k es

-- `_close`: the entry leaves the pool, whether `disconnect` raises or not.
unfoldable pub close_entry : ℕ → Entries → Entries
close_entry k es = filter (λ e. not (e.key == k)) es

-- The assignment of one entry, and `move_to_end`.
unfoldable pub put_last : Entry → Entries → Entries
unfolding close_entry
put_last e es = close_entry e.key es ++ e ∷ []

-- How a call ends: with a connection, or with one of two exceptions.
pub data Answer : Type 0 where
  connected : ℕ → Answer
  exhausted connect_raised : Answer

module _ (l : Limits) where
  open l use {max_size, idle_ttl, health_check_interval, min_evict_idle}

  abbrev pub is_stale : Time → Entry → Bool
  is_stale now e = ltb (e.last_used + idle_ttl) now

  -- `_drop_idle`
  unfoldable pub drop_idle : Time → Entries → Entries
  drop_idle now es = filter (λ e. not (is_stale now e)) es

  abbrev pub is_hot : Time → Entry → Bool
  is_hot now e = ltb now (e.last_used + min_evict_idle)

  -- `_make_room`: the entries that are left, and whether there is room; it raises where there is not.
  -- Each round of the loop takes the head away.
  unfoldable pub make_room : Time → Entries → Entries × Bool
  make_room now [] = ([], ltb 0 max_size)
  make_room now (e ∷ es) =
      let rest = make_room now es in
      if ltb (length (e ∷ es)) max_size
      then (e ∷ es, true)
      else (if is_hot now e then (e ∷ es, false) else rest)

  -- Whether `_is_alive` asks the manager.
  abbrev pub is_due : Time → Entry → Bool
  is_due now e = not (ltb now (e.last_checked + health_check_interval))

  -- `_is_alive`: the answer; the entry is stamped when the manager was asked.
  abbrev pub is_alive : Time → Bool → Entry → Bool
  is_alive now healthy e = if is_due now e then healthy else true

  abbrev pub checked : Time → Entry → Entry
  checked now e = if is_due now e then record e { last_checked = now } else e

  open_found : ℕ → Time → Option ℕ → Entries × Bool → Entries × Answer
  open_found k now opened (es, false) = (es, exhausted)
  open_found k now none (es, true) = (es, connect_raised)
  open_found k now (some c) (es, true) =
      (put_last (record { key = k; conn = c; last_used = now; last_checked = now }) es, connected c)

  -- The end of `get_connection`, where a connection is opened.
  unfoldable pub open_connection : Entries → ℕ → Time → Option ℕ → Entries × Answer
  unfolding open_found
  open_connection es k now opened = open_found k now opened (make_room now es)

  reuse : Entries → ℕ → Time → Bool → Option ℕ → Option Entry → Entries × Answer
  unfolding open_connection
  reuse es k now healthy opened none = open_connection es k now opened
  reuse es k now healthy opened (some e) =
      if is_alive now healthy e
      then (put_last (record (checked now e) { last_used = now }) es, connected e.conn)
      else open_connection (close_entry k es) k now opened

  -- `get_connection`, with nobody else between its awaits.
  unfoldable pub get_connection : Entries → ℕ → Time → Bool → Option ℕ → Entries × Answer
  unfolding reuse
  get_connection es k now healthy opened =
      let es' = drop_idle now es in reuse es' k now healthy opened (find_entry k es')
