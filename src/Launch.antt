-- ===== src/Launch.antt =====
-- The launch of a session: `launch_session` of backend/sessions/services/launch.py and
-- `launch_endpoint` of backend/sessions/routers/commands.py. What other requests do to the table
-- while one of these awaits is a function of the table, given by the environment.
pub mod Slots
use onlinetlabs.Base.{
  ℕ, Bool, true, false, not, ◌&&◌, Option, none, some, List, [], ◌∷◌, leb, ◌==◌, if◌then◌else◌,
  is_some,
}
use onlinetlabs.Redis.{Redis}
use onlinetlabs.Queue.{
  Capacity, Mean, try_acquire, try_acquire_raised, enqueue, queue_depth, avg_provision_seconds,
  release,
}
use onlinetlabs.Regime.{Time}
use onlinetlabs.Consent.{Answer}
use onlinetlabs.Sessions.{
  Session, Rows, Meta, active, error, get_active_session, count_active_sessions, update_row,
  CreateError, limit_reached, already_launching, Created, created, not_created,
  create_provisioning_row, provisioning_row, Finalized, gone, conflict, finalized,
  finalize_session_row,
}
use onlinetlabs.Lifecycle.{World}

pub data LaunchError : Type 0 where
  session_limit lab_not_found lab_disabled no_template launching_already session_gone : LaunchError

pub data Result {ℓ} (A : Type ℓ) : Type ℓ where
  ok : A → Result A
  localized : LaunchError → Result A
  raised : Result A

pub data LabLookup : Type 0 where
  missing disabled without_template ready : LabLookup

pub record LaunchEnv : Type 0 where
  pub study_decision : Option Answer
  pub lab : LabLookup
  pub postgres : Bool
  pub max_per_user : ℕ
  pub max_duration : ℕ
  pub locale : ℕ
  pub now : Time
  pub fresh_id : ℕ
  -- what `gns3_client.create_session` answers, if it does not raise
  pub provisioned : Option Meta
  pub ticket_ok : Bool
  -- whether the calls to Redis return that take a slot, leave the queue after it, and give a slot
  -- back; one that raises has changed nothing
  pub acquire_ok : Bool
  pub dequeue_ok : Bool
  pub release_ok : Bool
  -- the table after the awaits: before `launch_session` looks up, before it inserts, and while
  -- GNS3 provisions
  pub before_lookup : Rows → Rows
  pub before_insert : Rows → Rows
  pub while_provisioning : Rows → Rows

abbrev pub with_ticket : Bool → Session → Bool → Result (Session × Bool)
with_ticket true s new = ok (s, new)
with_ticket false s new = raised

-- The end of a launch whose environment is up.
activate : Rows → Finalized → LaunchEnv → Rows × Result (Session × Bool)
activate rows gone env = (rows, localized session_gone)
activate rows conflict env = (rows, raised)
activate rows (finalized rows' s) env = (rows', with_ticket env.ticket_ok s true)

-- The end of a launch whose provisioning failed; the exception is raised again.
abandon : Rows → Finalized → Rows × Result (Session × Bool)
abandon rows (finalized rows' s) = (rows', raised)
abandon rows _ = (rows, raised)

provision : Rows → Session → Option Meta → LaunchEnv → Rows × Result (Session × Bool)
unfolding activate abandon
provision rows s none env = abandon rows (finalize_session_row rows s.id error none)
provision rows s (some m) env = activate rows (finalize_session_row rows s.id active (some m)) env

create_error : CreateError → LaunchError
create_error limit_reached = session_limit
create_error already_launching = launching_already

insert : Rows → Created → LaunchEnv → Rows × Result (Session × Bool)
unfolding provision create_error
insert rows (not_created e) env = (rows, localized (create_error e))
insert rows (created rows' s) env = provision (env.while_provisioning rows') s env.provisioned env

insert_new : Rows → ℕ → ℕ → LaunchEnv → LabLookup → Rows × Result (Session × Bool)
unfolding insert
insert_new rows user lab env missing = (rows, localized lab_not_found)
insert_new rows user lab env disabled = (rows, localized lab_disabled)
insert_new rows user lab env without_template = (rows, localized no_template)
insert_new rows user lab env ready =
    let rows' = env.before_insert rows in
    insert rows'
      (create_provisioning_row env.postgres env.max_per_user rows'
        (provisioning_row env.fresh_id user lab env.locale env.now env.max_duration))
      env

-- A raise rolls the request's own transaction back, with the new locale of a resumed session.
launch_found : Rows → ℕ → ℕ → LaunchEnv → Option Session → Rows × Result (Session × Bool)
unfolding insert_new
launch_found rows user lab env (some s) =
    if env.ticket_ok
    then (
      update_row s.id (λ o. record o { locale = env.locale }) rows,
      ok (record s { locale = env.locale }, false),
    )
    else (rows, raised)
launch_found rows user lab env none =
    if leb env.max_per_user (count_active_sessions rows user)
    then (rows, localized session_limit)
    else insert_new rows user lab env env.lab

-- `launch_session`: the session, and whether this call created it.
unfoldable pub launch_session : Rows → ℕ → ℕ → LaunchEnv → Rows × Result (Session × Bool)
unfolding launch_found
launch_session rows user lab env = launch_found rows user lab env (get_active_session rows user lab)

pub data Response : Type 0 where
  consent_required : Response
  queued : ℕ → ℕ → Mean → Response
  failed : LaunchError → Response
  provisioning_failed : Response
  redis_failed : Response
  launched : Session → Bool → Response

module _ (r : Redis) (c : Capacity) where
  open r use {Db}

  abbrev pub release_if : Bool → Db → ℕ → Db
  release_if b d lab = if b then release r c d lab else d

  -- A release that raises takes the place of the response.
  abbrev released : Bool → Bool → Rows → Db → ℕ → Response → World Db × Response
  released due release_ok rows d lab response = (
    record { rows = rows; slots = release_if (due && release_ok) d lab },
    if due && not release_ok then redis_failed else response,
  )

  -- The `try` around `launch_session`, and the release of a slot that only a resumed session took.
  settle : Bool → Bool → Db → ℕ → Rows × Result (Session × Bool) → World Db × Response
  settle is_new release_ok d lab (rows, ok (s, new)) =
      released (is_new && not new) release_ok rows d lab (launched s new)
  settle is_new release_ok d lab (rows, localized e) =
      released is_new release_ok rows d lab (failed e)
  settle is_new release_ok d lab (rows, raised) =
      released is_new release_ok rows d lab provisioning_failed

  -- The waiting place of a request that found no free slot.
  queue_up : World Db → Db → ℕ → ℕ → World Db × Response
  queue_up w d user lab =
      let (d', place) = enqueue r c d user lab in
      (
        record w { slots = d' },
        queued place (queue_depth r c d' lab) (avg_provision_seconds r c d'),
      )

  -- A launch that has taken a slot.
  launch_new : World Db → Db → ℕ → ℕ → LaunchEnv → World Db × Response
  unfolding settle
  launch_new w d user lab env =
      if env.dequeue_ok
      then settle true env.release_ok d lab (launch_session (env.before_lookup w.rows) user lab env)
      else (record w { slots = try_acquire_raised r c w.slots lab }, redis_failed)

  launch_slot : World Db → ℕ → ℕ → LaunchEnv → Option Session → World Db × Response
  unfolding settle queue_up launch_new
  launch_slot w user lab env (some s) =
      settle false env.release_ok w.slots lab
        (launch_session (env.before_lookup w.rows) user lab env)
  launch_slot w user lab env none =
      if env.acquire_ok
      then (let (d, acquired) = try_acquire r c w.slots user lab in
          if acquired then launch_new w d user lab env else queue_up w d user lab)
      else (w, redis_failed)

  -- `launch_endpoint`
  unfoldable pub launch_endpoint : World Db → ℕ → ℕ → LaunchEnv → World Db × Response
  unfolding launch_slot
  launch_endpoint w user lab env =
      if is_some env.study_decision
      then launch_slot w user lab env (get_active_session w.rows user lab)
      else (w, consent_required)
