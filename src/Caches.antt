-- ===== src/Caches.antt =====
-- gns3/gns3-service/src/services/state_cache.py and backend/sessions/services/ticket.py: values that
-- are kept for a time. A dict is a function of the key, and `sweep_stale` is taken without the number
-- that it returns; a key in Redis is there until its time, and GETDEL takes it away.
pub mod Fresh
use onlinetlabs.Base.{
  ℕ, ◌+◌, ◌*◌, Bool, true, false, List, [], ◌∷◌, Option, none, some, ltb, leb, ◌==◌, if◌then◌else◌,
  update,
}
use onlinetlabs.Regime.{Time}

module _ (V : Type 0) where
  -- `_data`: the time of the write and the value.
  abbrev pub Cache : Type 0
  Cache = ℕ → Option (Time × V)

  -- `time.monotonic() - ts >= ttl` is a miss.
  abbrev pub unless_stale : ℕ → Time → Option (Time × V) → Option V
  unless_stale ttl now none = none
  unless_stale ttl now (some (ts, v)) = if leb (ts + ttl) now then none else some v

  unfoldable pub get_state : ℕ → Time → ℕ → Cache → Option V
  get_state ttl now key c = unless_stale ttl now (c key)

  unfoldable pub set_state : Time → ℕ → V → Cache → Cache
  set_state now key v c = update c key (some (now, v))

  unfoldable pub invalidate : ℕ → Cache → Cache
  invalidate key c = update c key none

  abbrev pub unless_swept : ℕ → Time → Option (Time × V) → Option (Time × V)
  unless_swept threshold now none = none
  unless_swept threshold now (some (ts, v)) =
      if ltb (ts + threshold) now then none else some (ts, v)

  unfoldable pub sweep_stale : ℕ → ℕ → Time → Cache → Cache
  sweep_stale ttl factor now c key = unless_swept (ttl * factor) now (c key)

-- The session and the user that a ticket is bound to.
pub record Payload : Type 0 where
  pub session_id : ℕ
  pub user_id : ℕ

-- The tickets in Redis, each with the time at which it goes.
abbrev pub Tickets : Type 0
Tickets = ℕ → Option (Time × Payload)

-- `TICKET_TTL_SEC`, in microseconds
abbrev pub ticket_ttl : ℕ
ticket_ttl = 120000000

unfoldable pub issue : Time → ℕ → Payload → Tickets → Tickets
issue now ticket p s = update s ticket (some (now + ticket_ttl, p))

abbrev pub unless_expired : Time → Option (Time × Payload) → Option Payload
unless_expired now none = none
unless_expired now (some (until, p)) = if ltb now until then some p else none

-- `redeem`: the payload, and the tickets after it.
unfoldable pub redeem : Time → ℕ → Tickets → Option Payload × Tickets
redeem now ticket s = (unless_expired now (s ticket), update s ticket none)
