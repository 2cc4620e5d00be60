-- ===== src/Worker.antt =====
-- The background loops of backend/worker/ over the table of sessions: one pass of reaper.py and one of
-- idle_reclaim.py, and the liveness stamp of backend/sessions/activity.py. What the rest of the
-- backend does while a pass awaits is a function of the world, given by the environment. Saving and
-- tearing down in GNS3 writes nothing here.
pub mod Passes
use onlinetlabs.Base.{
  ℕ, suc, ◌+◌, ◌*◌, Bool, true, false, not, ◌&&◌, ◌||◌, Option, none, some, List, [], ◌∷◌, ltb,
  ◌==◌, if◌then◌else◌, is_some, filter,
}
use onlinetlabs.Redis.{Redis}
use onlinetlabs.Queue.{Capacity}
use onlinetlabs.Regime.{Time}
use onlinetlabs.Sessions.{
  Session, Rows, Meta, ended, is_live, is_active, is_provisioning, get_row, update_row,
}
use onlinetlabs.Lifecycle.{World, mark_ended_and_finalize}

abbrev pub second : ℕ
second = 1000000

-- `STALE_PROVISIONING_MIN`
abbrev pub stale_provisioning : ℕ
stale_provisioning = 15 * 60 * second

-- `IDLE_THRESHOLD_MIN`
abbrev pub idle_threshold : ℕ
idle_threshold = 30 * 60 * second

-- `TOUCH_THROTTLE_SEC`
abbrev pub touch_throttle : ℕ
touch_throttle = 30 * second

abbrev pub is_before : Option Time → Time → Bool
is_before none now = false
is_before (some t) now = ltb t now

-- The `WHERE` clause of `reap_expired_sessions`.
abbrev pub is_overdue : Time → Session → Bool
is_overdue now s =
    is_live s.status
    && (is_before s.expires_at now
        || (is_provisioning s.status && ltb (s.started_at + stale_provisioning) now))

-- `for session in rows`, over the rows that were selected.
abbrev pub walk : {S : Type 0} → (S → Session → S) → S → List Session → S
walk step w [] = w
walk step w (s ∷ ss) = walk step (step w s) ss

-- What a pass of the reaper meets at each session: whether its monitor stops, the clock, and whether
-- Redis answers.
pub record ReapEnv (Db : Type 0) : Type 0 where
  pub meanwhile : ℕ → World Db → World Db
  pub stop_ok : ℕ → Bool
  pub ended_at : ℕ → Time
  pub redis_ok : ℕ → Bool

module _ (r : Redis) (c : Capacity) where
  open r use {Db}

  unfoldable pub end_row : World Db → Option Session → Time → Bool → World Db
  end_row w none now redis_ok = w
  end_row w (some row) now redis_ok = mark_ended_and_finalize r c w row ended now redis_ok

  -- `_end_one`, and the `try` around it: an exception passes the session over.
  unfoldable pub end_one : ReapEnv Db → World Db → Session → World Db
  unfolding end_row
  end_one env w s =
      let w' = env.meanwhile s.id w in
      if env.stop_ok s.id
      then end_row w' (get_row w'.rows s.id) (env.ended_at s.id) (env.redis_ok s.id)
      else w'

  -- `reap_expired_sessions`
  unfoldable pub reap_expired_sessions : ReapEnv Db → World Db → Time → World Db
  reap_expired_sessions env w now = walk (end_one env) w (filter (is_overdue now) w.rows)

-- The `WHERE` clause of `_reclaim_idle_sessions`.
abbrev pub is_idle : Time → Session → Bool
is_idle now s =
    is_active s.status && not (is_some s.paused_at) && ltb (s.last_seen_at + idle_threshold) now

-- What a pass of the reclaimer meets: the last activity that GNS3 reports, whether the saving and the
-- stop of the nodes succeed, and the clock.
pub record ReclaimEnv : Type 0 where
  pub meanwhile : ℕ → Rows → Rows
  pub gns3_activity : ℕ → Option Time
  pub stop_ok : ℕ → Bool
  pub paused_at : ℕ → Time

abbrev pub is_recent : Option Time → Time → Bool
is_recent none now = false
is_recent (some t) now = ltb now (t + idle_threshold)

-- Whether a selected session is paused.
abbrev pub is_reclaimed : ReclaimEnv → Time → Session → Bool
is_reclaimed env now s =
    not (is_some s.payload && is_recent (env.gns3_activity s.id) now)
    && is_some s.payload
    && env.stop_ok s.id

-- `_mark_paused`
unfoldable pub mark_paused : Rows → ℕ → Time → Rows
mark_paused rows id now = update_row id (λ o. record o { paused_at = some now }) rows

unfoldable pub reclaim_one : ReclaimEnv → Time → Rows → Session → Rows
reclaim_one env now rows s =
    let rows' = env.meanwhile s.id rows in
    if is_reclaimed env now s then mark_paused rows' s.id (env.paused_at s.id) else rows'

-- `_reclaim_idle_sessions`
unfoldable pub reclaim_idle_sessions : ReclaimEnv → Rows → Time → Rows
reclaim_idle_sessions env rows now = walk (reclaim_one env now) rows (filter (is_idle now) rows)

-- `touch_session`: the stamp, where the row is the user's and the last stamp is old enough.
abbrev pub is_touched : ℕ → Time → Session → Bool
is_touched user now s = s.user_id == user && ltb (s.last_seen_at + touch_throttle) now

abbrev pub stamp : ℕ → Time → Session → Session
stamp user now o = if is_touched user now o then record o { last_seen_at = now } else o

unfoldable pub touch_session : Rows → ℕ → ℕ → Time → Rows
touch_session rows id user now = update_row id (stamp user now) rows
