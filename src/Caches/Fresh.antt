-- ===== src/Caches/Fresh.antt =====
-- What gns3/gns3-service/src/services/state_cache.py returns over a sequence of calls, and a ticket of
-- backend/sessions/services/ticket.py.
use native.Mathlib.Nat.{mul-le-mul_left}
use onlinetlabs.Base.{
  ℕ, ◌+◌, ◌*◌, ◌≤◌, ◌≡◌, refl, ◌∙◌, ◌<◌, List, [], ◌∷◌, Option, none, some, arith, ltb, ◌==◌,
  if◌then◌else◌, All,
}
use onlinetlabs.Regime.{Time}
use onlinetlabs.Caches.{
  Cache, unless_stale, get_state, set_state, invalidate, unless_swept, sweep_stale, Payload,
  Tickets, ticket_ttl, issue, redeem,
}

le_scaled : (ttl factor : ℕ) → 0 < factor → ttl ≤ ttl * factor
le_scaled ttl factor h = omega (arith, mul-le-mul_left {m = 1} {n = factor} ttl (omega arith))

pub data Op (V : Type 0) : Type 0 where
  sets : Time → ℕ → V → Op V
  invalidates : ℕ → Op V
  sweeps : Time → Op V

module _ (V : Type 0) (ttl factor : ℕ) where
  -- The cache after some calls, the newest first.
  unfoldable pub after : List (Op V) → Cache V
  after [] key = none
  after (sets now k v ∷ ops) key = set_state V now k v (after ops) key
  after (invalidates k ∷ ops) key = invalidate V k (after ops) key
  after (sweeps now ∷ ops) key = sweep_stale V ttl factor now (after ops) key

  -- What was written last, unless it was invalidated since: no sweep matters.
  abbrev pub last_write : ℕ → List (Op V) → Option (Time × V)
  last_write key [] = none
  last_write key (sets now k v ∷ ops) =
      let older = last_write key ops in if k == key then some (now, v) else older
  last_write key (invalidates k ∷ ops) =
      let older = last_write key ops in if k == key then none else older
  last_write key (sweeps now ∷ ops) = last_write key ops

  -- No sweep comes after a time.
  abbrev pub IsBefore : Time → Op V → Type 0
  IsBefore now (sweeps at) = at ≤ now
  IsBefore now _ = Unit

  unless_swept-stale :
      (at now : Time) (o : Option (Time × V))
      → 0 < factor
      → at ≤ now
      → unless_stale V ttl now (unless_swept V (ttl * factor) at o) ≡ unless_stale V ttl now o
  unless_swept-stale at now none h k = refl
  unless_swept-stale at now (some (ts, v)) h k = ground (arith, le_scaled ttl factor h)

  -- However the cache was written, invalidated and swept up to a time, reading a key then returns
  -- the value that was written last and not invalidated since, unless that was the time to live
  -- ago or more; the sweeps make no difference.
  get_state-after :
      (now : Time) (key : ℕ) (ops : List (Op V))
      → 0 < factor
      → All (IsBefore now) ops
      → get_state V ttl now key (after ops) ≡ unless_stale V ttl now (last_write key ops)
  unfolding get_state after set_state invalidate sweep_stale
  get_state-after now key [] h q = refl
  get_state-after now key (sets t k v ∷ ops) h q = ground (arith, get_state-after now key ops)
  get_state-after now key (invalidates k ∷ ops) h q = ground (arith, get_state-after now key ops)
  get_state-after now key (sweeps t ∷ ops) h q =
      unless_swept-stale t now (after ops key) h q.0 ∙ get_state-after now key ops h q.1

-- A ticket that was issued is good for its session and user until its time to live is over; once
-- redeemed, in time or late, it is never good again; and no other ticket is touched.
redeem-issue :
    (now at later : Time) (ticket other : ℕ) (p : Payload) (s : Tickets)
    → let (got, s') = redeem at ticket (issue now ticket p s) in
      (got ≡ (if ltb at (now + ticket_ttl) then some p else none))
      × ((redeem later ticket s').0 ≡ none)
      × (s' other ≡ (if ticket == other then none else s other))
unfolding redeem issue
redeem-issue now at later ticket other p s = (ground arith, ground arith, ground arith)
