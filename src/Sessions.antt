-- ===== src/Sessions.antt =====
-- The rows of `LearningSession` (backend/models/learning.py), the lookups of
-- backend/sessions/services/query.py and the transactions of backend/sessions/services/launch.py.
-- The table is a list of rows, and a transaction is a function of it. An id, a slug, a locale and
-- the GNS3 ids are only compared for equality: a number stands for each.
pub mod Live
use onlinetlabs.Base.{
  ℕ, suc, ◌+◌, Bool, true, false, not, ◌&&◌, ◌||◌, Option, none, some, List, [], ◌∷◌, ◌++◌, leb,
  ◌==◌, if◌then◌else◌, is_some, any, filter, length, map,
}
use onlinetlabs.Regime.{Time}

pub data Status : Type 0 where
  provisioning active ended error completed : Status

-- The GNS3 part of `meta`.
pub record Meta : Type 0 where
  pub gns3_service_session_id : ℕ
  pub gns3_project_id : ℕ

pub record Session : Type 0 where
  pub id : ℕ
  pub user_id : ℕ
  pub lab_slug : ℕ
  pub status : Status
  pub started_at : Time
  pub ended_at : Option Time
  pub last_seen_at : Time
  pub paused_at : Option Time
  pub expires_at : Option Time
  pub payload : Option Meta
  pub locale : ℕ

abbrev pub Rows : Type 0
Rows = List Session

-- `status IN ('active', 'provisioning')`
abbrev pub is_live : Status → Bool
is_live provisioning = true
is_live active = true
is_live _ = false

abbrev pub is_active : Status → Bool
is_active active = true
is_active _ = false

abbrev pub is_provisioning : Status → Bool
is_provisioning provisioning = true
is_provisioning _ = false

-- `select … where … ` with `scalar_one_or_none`; the unique index leaves at most one match.
abbrev pub find : (Session → Bool) → Rows → Option Session
find p [] = none
find p (s ∷ rows) = if p s then some s else find p rows

abbrev pub is_active_of : ℕ → ℕ → Session → Bool
is_active_of user lab s = s.user_id == user && s.lab_slug == lab && is_active s.status

unfoldable pub get_active_session : Rows → ℕ → ℕ → Option Session
get_active_session rows user lab = find (is_active_of user lab) rows

abbrev pub is_owned : ℕ → ℕ → Session → Bool
is_owned id user s = s.id == id && s.user_id == user

unfoldable pub get_owned_session : Rows → ℕ → ℕ → Option Session
get_owned_session rows id user = find (is_owned id user) rows

-- `db.get(LearningSession, id)`
abbrev pub get_row : Rows → ℕ → Option Session
get_row rows id = find (λ s. s.id == id) rows

-- The write of a committed row.
abbrev pub update_row : ℕ → (Session → Session) → Rows → Rows
update_row id f [] = []
update_row id f (s ∷ rows) = (if s.id == id then f s else s) ∷ update_row id f rows

abbrev pub is_live_of_user : ℕ → Session → Bool
is_live_of_user user s = s.user_id == user && is_live s.status

unfoldable pub count_active_sessions : Rows → ℕ → ℕ
count_active_sessions rows user = length (filter (is_live_of_user user) rows)

-- The partial unique index `uq_learning_sessions_one_live`.
abbrev pub is_live_of : ℕ → ℕ → Session → Bool
is_live_of user lab s = s.user_id == user && s.lab_slug == lab && is_live s.status

abbrev pub live_count : ℕ → ℕ → Rows → ℕ
live_count user lab rows = length (filter (is_live_of user lab) rows)

pub data CreateError : Type 0 where
  limit_reached already_launching : CreateError

pub data Created : Type 0 where
  created : Rows → Session → Created
  not_created : CreateError → Created

-- `_enforce_user_cap`, which only PostgreSQL runs: whether it raises.
abbrev pub enforce_user_cap : Bool → Rows → ℕ → ℕ → Bool
enforce_user_cap postgres rows user max_per_user =
    postgres && leb max_per_user (count_active_sessions rows user)

abbrev pub provisioning_row : ℕ → ℕ → ℕ → ℕ → Time → ℕ → Session
provisioning_row id user lab locale now max_duration = record {
  id = id;
  user_id = user;
  lab_slug = lab;
  status = provisioning;
  started_at = now;
  ended_at = none;
  last_seen_at = now;
  paused_at = none;
  expires_at = some (now + max_duration);
  payload = none;
  locale = locale;
}

-- `_create_provisioning_row`: the commit fails on the unique index.
unfoldable pub create_provisioning_row : Bool → ℕ → Rows → Session → Created
create_provisioning_row postgres max_per_user rows new =
    if enforce_user_cap postgres rows new.user_id max_per_user
    then not_created limit_reached
    else (if any (is_live_of new.user_id new.lab_slug) rows
        then not_created already_launching
        else created (rows ++ new ∷ []) new)

pub data Finalized : Type 0 where
  gone : Finalized
  conflict : Finalized
  finalized : Rows → Session → Finalized

-- `session.meta = meta` where `meta` is not `None`.
abbrev pub set_payload : Option Meta → Session → Session
set_payload none s = s
set_payload (some m) s = record s { payload = some m }

abbrev pub finalize_fields : Status → Option Meta → Session → Session
finalize_fields status meta s = set_payload meta (record s { status = status })

-- Whether another row than this one is live for the same user and lab.
abbrev pub has_twin : Session → Rows → Bool
has_twin s rows = any (λ o. not (o.id == s.id) && is_live_of s.user_id s.lab_slug o) rows

-- `_finalize_session_row`: the row may be gone, and the commit may fail on the unique index.
unfoldable pub finalize_found : Rows → Status → Option Meta → Option Session → Finalized
finalize_found rows status meta none = gone
finalize_found rows status meta (some s) =
    if is_live status && has_twin s rows
    then conflict
    else finalized (update_row s.id (finalize_fields status meta) rows)
        (finalize_fields status meta s)

unfoldable pub finalize_session_row : Rows → ℕ → Status → Option Meta → Finalized
unfolding finalize_found
finalize_session_row rows id status meta = finalize_found rows status meta (get_row rows id)
