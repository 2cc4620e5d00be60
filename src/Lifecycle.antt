-- ===== src/Lifecycle.antt =====
-- backend/sessions/services/lifecycle.py: the end of a session, and what is done to a live one. The
-- experiment metrics, the censoring of decision points and the gauge are best-effort measurements,
-- and are left out here; so are the calls of the GNS3 service that nothing reads back.
pub mod Transactions
pub mod Ends
use onlinetlabs.Base.{
  ℕ, Bool, true, false, Option, none, some, List, [], ◌∷◌, if◌then◌else◌, is_some,
}
use onlinetlabs.Redis.{Redis}
use onlinetlabs.Queue.{Capacity, release}
use onlinetlabs.Regime.{Time}
use onlinetlabs.Sessions.{Session, Rows, Status, ended, Meta, get_owned_session, update_row}

-- The table of sessions beside the counters of the queue service.
pub record World (Db : Type 0) : Type 0 where
  pub rows : Rows
  pub slots : Db

abbrev pub ended_fields : Status → Time → Session → Session
ended_fields status now s = record s { status = status; ended_at = some now }

module _ (r : Redis) (c : Capacity) where
  open r use {Db}

  -- `_release_slot`: a failure of Redis is logged and passed over.
  abbrev pub release_slot : Bool → Db → ℕ → Db
  release_slot redis_ok d lab = if redis_ok then release r c d lab else d

  -- `_mark_ended_and_finalize`, on the row as the caller has loaded it.
  unfoldable pub mark_ended_and_finalize : World Db → Session → Status → Time → Bool → World Db
  mark_ended_and_finalize w loaded status now redis_ok =
      if is_some loaded.ended_at then w else record {
        rows = update_row loaded.id (ended_fields status now) w.rows;
        slots = release_slot redis_ok w.slots loaded.lab_slug;
      }

  unfoldable pub end_found : World Db → Option Session → Status → Time → Bool → World Db × Bool
  end_found w none status now redis_ok = (w, false)
  end_found w (some s) status now redis_ok = (mark_ended_and_finalize w s status now redis_ok, true)

  -- `end_session`
  unfoldable pub end_session : World Db → ℕ → ℕ → Status → Time → Bool → World Db × Bool
  unfolding end_found
  end_session w id user status now redis_ok =
      end_found w (get_owned_session w.rows id user) status now redis_ok

  -- `end_lab`
  unfoldable pub end_lab : World Db → ℕ → ℕ → Time → Bool → World Db × Bool
  unfolding end_found
  end_lab w id user now redis_ok = end_found w (get_owned_session w.rows id user) ended now redis_ok

-- `restart_lab`: the MCP server may raise, and then nothing is written.
unfoldable pub restart_found : Rows → Option Session → Bool → Rows × Option Bool
restart_found rows none mcp_ok = (rows, some false)
restart_found rows (some s) false = (rows, none)
restart_found rows (some s) true = (
  if is_some s.paused_at then update_row s.id (λ o. record o { paused_at = none }) rows else rows,
  some true,
)

unfoldable pub restart_lab : Rows → ℕ → ℕ → Bool → Rows × Option Bool
unfolding restart_found
restart_lab rows id user mcp_ok = restart_found rows (get_owned_session rows id user) mcp_ok

pub data ResetResult : Type 0 where
  reset_done not_owned lab_not_found no_template session_incomplete gns3_raised : ResetResult

-- `reset_lab`: what `db.get(Lab)` and `template_project_id_for` find, and the project that GNS3
-- answers with.
pub record ResetEnv : Type 0 where
  pub lab_exists : Bool
  pub has_template : Bool
  pub new_project : Option ℕ

reset_project : Rows → Session → Meta → Option ℕ → Rows × ResetResult
reset_project rows s m none = (rows, gns3_raised)
reset_project rows s m (some p) = (
  update_row s.id (λ o. record o { payload = some (record m { gns3_project_id = p }) }) rows,
  reset_done,
)

reset_payload : Rows → Session → Option Meta → Option ℕ → Rows × ResetResult
unfolding reset_project
reset_payload rows s none p = (rows, session_incomplete)
reset_payload rows s (some m) p = reset_project rows s m p

reset_found : Rows → Option Session → ResetEnv → Rows × ResetResult
unfolding reset_payload
reset_found rows none env = (rows, not_owned)
reset_found rows (some s) env =
    if env.lab_exists
    then (if env.has_template
        then reset_payload rows s s.payload env.new_project
        else (rows, no_template))
    else (rows, lab_not_found)

unfoldable pub reset_lab : Rows → ℕ → ℕ → ResetEnv → Rows × ResetResult
unfolding reset_found
reset_lab rows id user env = reset_found rows (get_owned_session rows id user) env
