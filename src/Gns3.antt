-- ===== src/Gns3.antt =====
-- gns3/gns3-service/src/services/session_lifecycle.py: the books that the calls of a lab session's
-- lifecycle leave behind. GNS3, its admin client, the database and the WebSocket proxy are replies:
-- each call has one, which says whether it raises and what it returns.
pub mod Sessions
pub mod Gate
use onlinetlabs.Base.{
  ℕ, Bool, true, false, List, [], ◌∷◌, ◌++◌, Option, none, some, ◌==◌, if◌then◌else◌,
}

-- A row of `sessions`.
pub record Row : Type 0 where
  pub id : ℕ
  pub gns3_user : ℕ
  pub gns3_project : ℕ
  pub closed : Bool

pub data Role : Type 0 where
  user_role auditor_role : Role

-- `/projects`, or `/projects/{id}`
pub data AclPath : Type 0 where
  all_projects : AclPath
  one_project : ℕ → AclPath

pub record Acl : Type 0 where
  pub path : AclPath
  pub role : Role
  pub user : ℕ

-- The users and the projects that successful calls made and no successful call deleted, the ACLs,
-- the committed rows, and the projects that the proxy follows.
pub record Books : Type 0 where
  pub users : List ℕ
  pub projects : List ℕ
  pub acls : List Acl
  pub rows : List Row
  pub followed : List ℕ

pub data Outcome {ℓ} (A : Type ℓ) : Type ℓ where
  done : A → Outcome A
  -- `SessionNotFound`, `SessionClosed`, and whatever a call raises
  not_found closed failed : Outcome A

-- One entry of a number off a list.
abbrev pub remove_one : ℕ → List ℕ → List ℕ
remove_one k [] = []
remove_one k (x ∷ xs) = let rest = remove_one k xs in if x == k then xs else x ∷ rest

-- What a call that returns leaves behind; one that raises leaves nothing.
abbrev pub make_user : ℕ → Books → Books
make_user u b = record b { users = u ∷ b.users }

abbrev pub make_project : ℕ → Books → Books
make_project p b = record b { projects = p ∷ b.projects }

abbrev pub delete_user : Bool → ℕ → Books → Books
delete_user ok u b = if ok then record b { users = remove_one u b.users } else b

abbrev pub delete_project : Bool → ℕ → Books → Books
delete_project ok p b = if ok then record b { projects = remove_one p b.projects } else b

abbrev pub grant_acl : AclPath → Role → ℕ → Books → Books
grant_acl path role u b = record b {
  acls = b.acls ++ record { path = path; role = role; user = u } ∷ [];
}

abbrev pub start_project : Bool → ℕ → Books → Books
start_project ok p b = if ok then record b { followed = p ∷ b.followed } else b

abbrev pub stop_project : Bool → ℕ → Books → Books
stop_project ok p b = if ok then record b { followed = remove_one p b.followed } else b

-- `db.get(Session, id)`
abbrev pub get_row : ℕ → List Row → Option Row
get_row k [] = none
get_row k (r ∷ rs) = let rest = get_row k rs in if r.id == k then some r else rest

-- The row of an id, changed and committed.
abbrev pub change_row : (Row → Row) → ℕ → List Row → List Row
change_row f k [] = []
change_row f k (r ∷ rs) = let rest = change_row f k rs in if r.id == k then f r ∷ rs else r ∷ rest

abbrev pub write_row : (Row → Row) → ℕ → Books → Books
write_row f k b = record b { rows = change_row f k b.rows }
