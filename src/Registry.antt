-- ===== src/Registry.antt =====
-- backend/sessions/monitor_registry.py: the registry of running session monitors. What the database,
-- the observer and the monitor do when they are called is a reply.
pub mod Pairing
use onlinetlabs.Base.{
  ℕ, Bool, true, false, not, ◌&&◌, ◌||◌, List, [], ◌∷◌, ◌++◌, Option, none, some, ◌==◌,
  if◌then◌else◌, filter, contains,
}

-- The keys of `_monitors` and of `_observers`.
pub record Registry : Type 0 where
  pub monitors : List ℕ
  pub observers : List ℕ

-- Whether the calls of one `start` return. `observes`: there is a GNS3 client, the row has a
-- `gns3_service_session_id`, and the observer starts.
pub record StartReplies : Type 0 where
  pub observes : Bool
  pub arm_resolved : Bool
  pub monitor_started : Bool

-- `pop(key, None)`
abbrev pub pop : ℕ → List ℕ → List ℕ
pop k ks = filter (λ x. not (x == k)) ks

-- `d[key] = …`
abbrev pub put : ℕ → List ℕ → List ℕ
put k ks = if contains k ks then ks else ks ++ k ∷ []

abbrev pub add_observer : Bool → ℕ → Registry → Registry
add_observer observes k r = if observes then record r { observers = put k r.observers } else r

-- `_stop_observer`: an observer that does not stop is forgotten too.
abbrev pub stop_observer : ℕ → Registry → Registry
stop_observer k r = record r { observers = pop k r.observers }

-- `start`: whether it returns, and the registry.
unfoldable pub start : StartReplies → ℕ → Registry → Bool × Registry
start s k r =
    if contains k r.monitors
    then (true, r)
    else (let r' = add_observer s.observes k r in
        if s.arm_resolved && s.monitor_started
        then (true, record r' { monitors = put k r'.monitors })
        else (false, stop_observer k r'))

-- `stop`: `monitor.stop_session` raises or not.
unfoldable pub stop : Bool → ℕ → Registry → Bool × Registry
stop stopped k r =
    let r' = record r { monitors = pop k r.monitors } in
    if contains k r.monitors && not stopped then (false, r') else (true, stop_observer k r')

-- What follows a call that returns; a raised exception goes on to the caller.
abbrev pub and_then : Bool × Registry → (Registry → Bool × Registry) → Bool × Registry
and_then (true, r) f = f r
and_then (false, r) f = (false, r)

-- The first loop of `stop_all`.
unfoldable pub stop_monitors : (ℕ → Bool) → List ℕ → Registry → Bool × Registry
unfolding stop
stop_monitors stopped [] r = (true, r)
stop_monitors stopped (k ∷ ks) r = and_then (stop (stopped k) k r) (stop_monitors stopped ks)

unfoldable pub stop_observers : List ℕ → Registry → Registry
stop_observers [] r = r
stop_observers (k ∷ ks) r = stop_observers ks (stop_observer k r)

unfoldable pub stop_all : (ℕ → Bool) → Registry → Bool × Registry
unfolding stop_monitors stop_observers
stop_all stopped r =
    and_then (stop_monitors stopped r.monitors r) (λ r'. (true, stop_observers r'.observers r'))
