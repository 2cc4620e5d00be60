-- ===== src/Gns3/Sessions/Creation.antt =====
-- What `create_session` of gns3/gns3-service/src/services/session_lifecycle.py leaves behind,
-- whichever of its calls raise.
use onlinetlabs.Base.{
  ℕ, ◌≡◌, Bool, true, false, not, ◌&&◌, List, [], ◌∷◌, ◌++◌, Option, none, some, arith,
  if◌then◌else◌, is_some, Option-cases, inl, inr, append-nil,
}
use onlinetlabs.Gns3.{Row, Books, Outcome, done, remove_one}
use onlinetlabs.Gns3.Sessions.{
  CreateReplies, create_session, create_body, rollback_created_resources, remove_orphan,
}

abbrev pub is_done {ℓ} : {A : Type ℓ} → Outcome A → Bool
is_done (done _) = true
is_done _ = false

-- The user that the calls make, if any.
abbrev pub made_user : CreateReplies → Option ℕ
made_user r = if is_some r.orphan then r.user else none

-- Whether the rollback knows what to delete: both the user and the project were made.
abbrev pub is_known : CreateReplies → Bool
is_known r = is_some (made_user r) && is_some r.project

-- Whether the row is committed.
abbrev pub is_written : CreateReplies → Bool
is_written r =
    is_known r && r.opened && r.project_acl && r.list_acl && is_some r.token && r.committed

-- Whether every call returns whose failure is not only logged.
abbrev pub all_return : CreateReplies → Bool
all_return r = is_written r && r.refreshed

-- What is left of one made thing: all of it, unless the rollback knows and deletes it.
abbrev pub left : CreateReplies → Bool → Option ℕ → List ℕ → List ℕ
left r deleted none xs = xs
left r deleted (some k) xs = if not (all_return r) && is_known r && deleted then xs else k ∷ xs

remove_one_head : (k : ℕ) (xs : List ℕ) → remove_one k (k ∷ xs) ≡ xs
remove_one_head k xs = ground arith

-- The users before the launch, less the orphan of the name.
abbrev pub users_before : CreateReplies → Books → List ℕ
users_before r b = elim r.orphan [
  | none ↦ b.users
  | some orphan ↦ (remove_orphan r.orphan_deleted orphan b).users
]

pub create_session-is_done :
    (r : CreateReplies) (b : Books) → is_done (create_session r b).0 ≡ all_return r
unfolding create_session create_body rollback_created_resources
create_session-is_done r b = ground arith

create_session-users :
    (r : CreateReplies) (b : Books)
    → (create_session r b).1.users ≡ left r r.user_deleted (made_user r) (users_before r b)
unfolding create_session create_body rollback_created_resources
create_session-users r b = elim (Option-cases r.user) [
  | inl e ↦ ground arith
  | inr e ↦ ground (arith, remove_one_head e.0 (users_before r b))
]

create_session-projects :
    (r : CreateReplies) (b : Books)
    → (create_session r b).1.projects ≡ left r r.project_deleted r.project b.projects
unfolding create_session create_body rollback_created_resources
create_session-projects r b = elim (Option-cases r.project) [
  | inl e ↦ ground arith
  | inr e ↦ ground (arith, remove_one_head e.0 b.projects)
]

-- The row that is committed, if any.
abbrev pub added : Bool → ℕ → Option ℕ → Option ℕ → List Row
added true k (some u) (some p) =
    record { id = k; gns3_user = u; gns3_project = p; closed = false } ∷ []
added _ _ _ _ = []

create_session-rows :
    (r : CreateReplies) (b : Books)
    → (create_session r b).1.rows
      ≡ b.rows ++ added (is_written r) r.session_id (made_user r) r.project
unfolding create_session create_body rollback_created_resources
create_session-rows r b = ground (arith, append-nil b.rows)

-- Whichever calls of `create_session` raise, and where the raised ones have no effect: it returns a
-- session exactly when all calls return whose failure is not only logged; a made user and a made
-- project stay, unless it raises, both were made, and the rollback's call deletes the one; and the
-- row is committed exactly when all calls up to the commit return.
pub create_session_lem :
    (r : CreateReplies) (b : Books)
    → let (o, b') = create_session r b in
      (is_done o ≡ all_return r)
      × (b'.users ≡ left r r.user_deleted (made_user r) (users_before r b))
      × (b'.projects ≡ left r r.project_deleted r.project b.projects)
      × (b'.rows ≡ b.rows ++ added (is_written r) r.session_id (made_user r) r.project)
create_session_lem r b = (
  create_session-is_done r b,
  create_session-users r b,
  create_session-projects r b,
  create_session-rows r b,
)
