-- ===== src/Gns3/Sessions.antt =====
-- gns3/gns3-service/src/services/session_lifecycle.py: `create_session`, `reset_project`,
-- `issue_user_token` and `delete_session`.

pub mod Creation
pub mod Closing
pub mod Backing
use onlinetlabs.Base.{
  ℕ, Bool, true, false, not, ◌&&◌, List, [], ◌∷◌, ◌++◌, Option, none, some, if◌then◌else◌,
}
use onlinetlabs.Gns3.{
  Row, Role, user_role, auditor_role, AclPath, all_projects, one_project, Acl, Books, Outcome, done,
  not_found, closed, failed, make_user, make_project, delete_user, delete_project, grant_acl,
  start_project, stop_project, get_row, write_row,
}

-- The replies to the calls of `create_session`: whether the call returns, or what it returns, in
-- the order of the calls. The two calls of the gate count with the calls they guard, and the two
-- roles with the ACLs.
pub record CreateReplies : Type 0 where
  pub session_id : ℕ
  -- `duplicate_project` and the await of its task
  pub project : Option ℕ
  -- `find_user_by_name`: the call raises, or returns an orphan or none
  pub orphan : Option (Option ℕ)
  pub orphan_deleted : Bool
  pub user : Option ℕ
  pub opened : Bool
  pub project_acl : Bool
  pub list_acl : Bool
  pub token : Option ℕ
  pub committed : Bool
  pub refreshed : Bool
  pub proxy_started : Bool
  -- the calls of the rollback
  pub project_deleted : Bool
  pub user_deleted : Bool

-- The books, and the two variables that the rollback reads.
pub record Progress : Type 0 where
  pub books : Books
  pub created_user : Option ℕ
  pub created_project : Option ℕ

pub record Created : Type 0 where
  pub session_id : ℕ
  pub jwt : ℕ
  pub user : ℕ
  pub project : ℕ

-- A computation that can raise, and keeps the progress it made.
abbrev pub M : Type 0 → Type 0
M A = Progress → Option A × Progress

abbrev pub pure : {A : Type 0} → A → M A
pure a s = (some a, s)

infixl 5 ◌>>=◌ ◌>>◌
abbrev pub ◌>>=◌ : {A B : Type 0} → M A → (A → M B) → M B
m >>= f = λ s. let (r, s') = m s in elim r [ none ↦ (none, s') | some a ↦ f a s' ]

abbrev pub ◌>>◌ : {B : Type 0} → M (Unit {0}) → M B → M B
m >> k = m >>= λ _. k

-- A call with a result, and one without: it raises, or changes the books.
abbrev pub returns : {A : Type 0} → Option A → (A → Books → Books) → M A
returns none f s = (none, s)
returns (some a) f s = (some a, record s { books = f a s.books })

abbrev pub succeeds : Bool → (Books → Books) → M (Unit {0})
succeeds false f s = (none, s)
succeeds true f s = (some tt, record s { books = f s.books })

-- A call whose exception is only logged: the change takes the reply.
abbrev pub attempts : (Books → Books) → M (Unit {0})
attempts f s = (some tt, record s { books = f s.books })

-- The task of `duplicate_project` makes the project, awaited or not.
abbrev start_task : Option ℕ → M (Unit {0})
start_task none s = (some tt, s)
start_task (some p) s = (some tt, record s { books = make_project p s.books })

abbrev remove_orphan : Bool → Option ℕ → Books → Books
remove_orphan ok none b = b
remove_orphan ok (some u) b = delete_user ok u b

abbrev remember : ℕ → ℕ → M (Unit {0})
remember u p s = (some tt, record s { created_user = some u; created_project = some p })

abbrev add_row : ℕ → ℕ → ℕ → Books → Books
add_row k u p b = record b {
  rows = b.rows ++ record { id = k; gns3_user = u; gns3_project = p; closed = false } ∷ [];
}

unfoldable pub create_body : CreateReplies → M Created
create_body r = do
  start_task r.project
  orphan ← returns r.orphan (λ _ b. b)
  attempts (remove_orphan r.orphan_deleted orphan)
  user ← returns r.user make_user
  project ← returns r.project (λ _ b. b)
  remember user project
  succeeds r.opened (λ b. b)
  succeeds r.project_acl (grant_acl (one_project project) user_role user)
  succeeds r.list_acl (grant_acl all_projects auditor_role user)
  jwt ← returns r.token (λ _ b. b)
  succeeds r.committed (add_row r.session_id user project)
  succeeds r.refreshed (λ b. b)
  attempts (start_project r.proxy_started project)
  pure (record { session_id = r.session_id; jwt = jwt; user = user; project = project })

abbrev pub clean_project : Bool → Option ℕ → Books → Books
clean_project ok none b = b
clean_project ok (some p) b = delete_project ok p b

abbrev pub clean_user : Bool → Option ℕ → Books → Books
clean_user ok none b = b
clean_user ok (some u) b = delete_user ok u b

-- `_rollback_created_resources`
unfoldable pub rollback_created_resources : CreateReplies → Progress → Books
rollback_created_resources r s =
    clean_user r.user_deleted s.created_user
      (clean_project r.project_deleted s.created_project s.books)

unfoldable pub create_session : CreateReplies → Books → Outcome Created × Books
unfolding create_body rollback_created_resources
create_session r b =
    let (result, s) =
      create_body r (record { books = b; created_user = none; created_project = none }) in
    elim result [
      | some created ↦ (done created, s.books)
      | none ↦ (failed, rollback_created_resources r s)
    ]

-- The replies to the calls of `reset_project`.
pub record ResetReplies : Type 0 where
  pub project : Option ℕ
  pub opened : Bool
  pub project_acl : Bool
  pub committed : Bool
  pub proxy_stopped : Bool
  pub proxy_started : Bool
  pub old_deleted : Bool

abbrev pub move_row : ℕ → Row → Row
move_row p row = record row { gns3_project = p }

-- After the checks: a call that raises ends the reset there, with what was done before it.
abbrev pub reset_to : ResetReplies → ℕ → Row → ℕ → Books → Outcome ℕ × Books
reset_to r session_id row p b =
    if not r.opened
    then (failed, b)
    else (if not r.project_acl
        then (failed, b)
        else (let b' = grant_acl (one_project p) user_role row.gns3_user b in
            if not r.committed
            then (failed, b')
            else (let written = write_row (move_row p) session_id b' in
                let stopped = stop_project r.proxy_stopped row.gns3_project written in
                let started = start_project (r.proxy_stopped && r.proxy_started) p stopped in
                (done p, delete_project r.old_deleted row.gns3_project started))))

-- After the lookup: the two checks and the first call.
abbrev pub reset_found : ResetReplies → ℕ → Option Row → Books → Outcome ℕ × Books
reset_found r session_id none b = (not_found, b)
reset_found r session_id (some row) b = if row.closed then (closed, b) else elim r.project [
  | none ↦ (failed, b)
  | some p ↦ reset_to r session_id row p (make_project p b)
]

unfoldable pub reset_project : ResetReplies → ℕ → Books → Outcome ℕ × Books
reset_project r session_id b = reset_found r session_id (get_row session_id b.rows) b

abbrev pub token_found : Option ℕ → Option Row → Outcome ℕ
token_found token none = not_found
token_found token (some row) =
    if row.closed then closed else elim token [ none ↦ failed | some jwt ↦ done jwt ]

unfoldable pub issue_user_token : Option ℕ → ℕ → Books → Outcome ℕ
issue_user_token token session_id b = token_found token (get_row session_id b.rows)

-- The replies to the calls of `delete_session`; that of `bulk_node_action` changes nothing here.
pub record DeleteReplies : Type 0 where
  pub proxy_stopped : Bool
  pub user_deleted : Bool
  pub project_deleted : Bool
  pub committed : Bool

abbrev pub close_row : Row → Row
close_row row = record row { closed = true }

abbrev pub clean_session : DeleteReplies → Row → Books → Books
clean_session r row b =
    delete_project r.project_deleted row.gns3_project
      (delete_user r.user_deleted row.gns3_user (stop_project r.proxy_stopped row.gns3_project b))

abbrev pub delete_found : DeleteReplies → ℕ → Option Row → Books → Outcome (Unit {0}) × Books
delete_found r session_id none b = (not_found, b)
delete_found r session_id (some row) b =
    if row.closed
    then (done tt, b)
    else (let cleaned = clean_session r row b in
        if r.committed
        then (done tt, write_row close_row session_id cleaned)
        else (failed, cleaned))

unfoldable pub delete_session : DeleteReplies → ℕ → Books → Outcome (Unit {0}) × Books
delete_session r session_id b = delete_found r session_id (get_row session_id b.rows) b
