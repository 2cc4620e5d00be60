-- ===== src/Queue.antt =====
-- backend/sessions/queue.py: the slot counters and the waiting queues of `SessionQueueService`.
-- A Lua script runs atomically, so it is one function of the database. `settings.capacity` is the
-- record `Capacity`.
pub mod Slots
pub mod Fifo
pub mod Ledger
pub mod Caps
use onlinetlabs.Base.{
  ℕ, suc, ◌+◌, ◌*◌, Bool, true, false, Option, none, some, List, [], ◌∷◌, ◌==◌, leb, ltb, ◌&&◌,
  ◌||◌, if◌then◌else◌, or_else, length,
}
use onlinetlabs.Redis.{
  Redis, LabSlug, UserId, CounterKey, active_key, total_key, ListKey, queue_key, provision_key,
}

pub record Capacity : Type 0 where
  pub per_lab_caps : LabSlug → Option ℕ
  pub global_cap : ℕ
  pub queue_ttl_seconds : ℕ

abbrev pub active_ttl : ℕ
active_ttl = 7 * 24 * 3600

abbrev pub queue_avg_provision_sec : ℕ
queue_avg_provision_sec = 30

abbrev pub provision_samples : ℕ
provision_samples = 20

-- The mean of the samples is kept as the fraction sum / count, since there are no floats.
pub record Mean : Type 0 where
  pub sum : ℕ
  pub count : ℕ

abbrev pub sum : List ℕ → ℕ
sum [] = 0
sum (x ∷ xs) = x + sum xs

abbrev pub lab_cap : Capacity → LabSlug → ℕ
lab_cap c lab = or_else (c.per_lab_caps lab) c.global_cap

-- `_caps`
abbrev pub caps : Capacity → LabSlug → ℕ × ℕ
caps c lab = (lab_cap c lab, c.global_cap)

-- The loop of `LUA_ENQUEUE` and that of `position`: the 1-based index of a user from index `i` on.
unfoldable pub find_from : ℕ → UserId → List UserId → Option ℕ
find_from i user [] = none
find_from i user (v ∷ vs) = if v == user then some i else find_from (i + 1) user vs

module _ (r : Redis) (c : Capacity) where
  open r use {Db, get, incr, decr, expire, lrange, rpush, lpush, lrem, ltrim, lexpire}

  -- `LUA_TRY_ACQUIRE`
  unfoldable pub lua_try_acquire : Db → LabSlug → ℕ → ℕ → Db × ℕ
  lua_try_acquire d lab lab_limit global_cap =
      if leb lab_limit (get d (active_key lab)) || leb global_cap (get d total_key)
      then (d, 0)
      else (let d1 = incr d (active_key lab) in
          let d2 = expire d1 (active_key lab) active_ttl in
          let d3 = incr d2 total_key in (expire d3 total_key active_ttl, 1))

  -- `LUA_RELEASE`
  decr_if_positive : Db → CounterKey → Db
  decr_if_positive d k = if ltb 0 (get d k) then decr d k else d

  unfoldable pub lua_release : Db → LabSlug → Db
  unfolding decr_if_positive
  lua_release d lab = decr_if_positive (decr_if_positive d (active_key lab)) total_key

  -- `LUA_ENQUEUE`
  lua_enqueue : Db → ListKey → UserId → ℕ → Db × ℕ
  lua_enqueue d k user ttl = elim (find_from 1 user (lrange d k)) [
    | some i ↦ (lexpire d k ttl, i)
    | none ↦ let d' = lexpire (rpush d k user) k ttl in (d', length (lrange d' k))
  ]

  unfoldable pub dequeue : Db → UserId → LabSlug → Db × ℕ
  dequeue d user lab = lrem d (queue_key lab) user

  unfoldable pub try_acquire : Db → UserId → LabSlug → Db × Bool
  unfolding lua_try_acquire dequeue
  try_acquire d user lab =
      let (d', result) = lua_try_acquire d lab (caps c lab).0 (caps c lab).1 in
      if result == 1 then ((dequeue d' user lab).0, true) else (d', false)

  -- What `try_acquire` leaves where it takes a slot and its dequeue raises.
  unfoldable pub try_acquire_raised : Db → LabSlug → Db
  unfolding lua_try_acquire
  try_acquire_raised d lab = (lua_try_acquire d lab (caps c lab).0 (caps c lab).1).0

  unfoldable pub release : Db → LabSlug → Db
  unfolding lua_release
  release d lab = lua_release d lab

  unfoldable pub enqueue : Db → UserId → LabSlug → Db × ℕ
  unfolding lua_enqueue
  enqueue d user lab = lua_enqueue d (queue_key lab) user c.queue_ttl_seconds

  unfoldable pub position : Db → UserId → LabSlug → Option ℕ
  position d user lab = find_from 1 user (lrange d (queue_key lab))

  unfoldable pub queue_depth : Db → LabSlug → ℕ
  queue_depth d lab = length (lrange d (queue_key lab))

  unfoldable pub has_free_slot : Db → LabSlug → Bool
  has_free_slot d lab =
      ltb (get d (active_key lab)) (caps c lab).0 && ltb (get d total_key) (caps c lab).1

  unfoldable pub record_provision_seconds : Db → ℕ → Db
  record_provision_seconds d seconds =
      let d1 = lpush d provision_key seconds in
      let d2 = ltrim d1 provision_key provision_samples in lexpire d2 provision_key active_ttl

  unfoldable pub avg_provision_seconds : Db → Mean
  avg_provision_seconds d = elim (lrange d provision_key) [
    | [] ↦ record { sum = queue_avg_provision_sec; count = 1 }
    | v ∷ vs ↦ record { sum = sum (v ∷ vs); count = length (v ∷ vs) }
  ]
