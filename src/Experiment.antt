-- ===== src/Experiment.antt =====
-- backend/experiment: the control arm of a session and its final metrics. An id or a slug is a
-- number, and so is a message or a skill.
pub mod Metrics
pub mod Arms
use onlinetlabs.Base.{
  ℕ, ◌+◌, Bool, true, false, not, ◌&&◌, ◌||◌, List, [], ◌∷◌, Option, none, some, ◌==◌,
  if◌then◌else◌, any, filter,
}
use onlinetlabs.ControlLaw.{ControlArm, open_loop, closed_loop}

-- The `control_arm` of a user, `none` where it is unset.
pub record User : Type 0 where
  pub id : ℕ
  pub control_arm : Option ControlArm

-- A lab with the tag of `meta["skill"]`; an empty tag is none.
pub record Lab : Type 0 where
  pub slug : ℕ
  pub skill : Option ℕ

pub record LabProgress : Type 0 where
  pub user : ℕ
  pub lab : ℕ
  pub completed : Bool

pub record Tables : Type 0 where
  pub users : List User
  pub labs : List Lab
  pub progress : List LabProgress

abbrev pub find_user : ℕ → List User → Option User
find_user k [] = none
find_user k (u ∷ us) = let rest = find_user k us in if u.id == k then some u else rest

abbrev pub set_arm : ℕ → ControlArm → List User → List User
set_arm k arm [] = []
set_arm k arm (u ∷ us) =
    let rest = set_arm k arm us in
    if u.id == k then record u { control_arm = some arm } ∷ us else u ∷ rest

-- `user.control_arm or assign_arm()`; `draw` is the random choice. `none` is `UserNotFound`.
abbrev pub resolve_found : ControlArm → ℕ → Option User → Tables → Option ControlArm × Tables
resolve_found draw k none t = (none, t)
resolve_found draw k (some u) t = elim u.control_arm [
  | some arm ↦ (some arm, t)
  | none ↦ (some draw, record t { users = set_arm k draw t.users })
]

unfoldable pub resolve_control_arm : ControlArm → ℕ → Tables → Option ControlArm × Tables
resolve_control_arm draw k t = resolve_found draw k (find_user k t.users) t

abbrev pub find_lab : ℕ → List Lab → Option Lab
find_lab slug [] = none
find_lab slug (l ∷ ls) = let rest = find_lab slug ls in if l.slug == slug then some l else rest

abbrev pub skill_of : Option Lab → Option ℕ
skill_of none = none
skill_of (some l) = l.skill

-- `prior and skill_tag(prior) == skill`
abbrev pub has_skill : ℕ → Option ℕ → Bool
has_skill skill none = false
has_skill skill (some s) = s == skill

-- A completed progress of the user on another lab that is of the skill; the join asks for the lab.
abbrev pub is_prior : List Lab → ℕ → ℕ → ℕ → LabProgress → Bool
is_prior labs user slug skill p =
    p.user == user
    && p.completed
    && not (p.lab == slug)
    && has_skill skill (skill_of (find_lab p.lab labs))

abbrev pub is_l2_of : List Lab → List LabProgress → ℕ → ℕ → Option ℕ → Bool
is_l2_of labs progress user slug none = false
is_l2_of labs progress user slug (some skill) = any (is_prior labs user slug skill) progress

unfoldable pub is_l2_session : ℕ → ℕ → Tables → Bool
is_l2_session user slug t = is_l2_of t.labs t.progress user slug (skill_of (find_lab slug t.labs))

unfoldable pub effective_arm : ControlArm → ℕ → ℕ → Tables → Option ControlArm × Tables
effective_arm draw user slug t =
    if is_l2_session user slug t then (some open_loop, t) else resolve_control_arm draw user t
