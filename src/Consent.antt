-- ===== src/Consent.antt =====
-- backend/consent: the tool registry (registry.py) and the consent rows (consent.py). The table of `Consent` rows is a list, newest last. A
-- user's or a session's id is only compared for equality: a number stands for it.
pub mod Rows
use Prim.Native.String.{String}
use text.Mathlib.Text.{◌==◌ as str_eq}
use onlinetlabs.Base.{
  ℕ, suc, ◌+◌, Bool, true, false, not, ◌&&◌, ◌||◌, Option, none, some, List, [], ◌∷◌, ◌++◌, ltb,
  ◌==◌, if◌then◌else◌, is_some, update, any, filter, length, map,
}
use onlinetlabs.Base.Int.{pos, sub_ℕ, ltb_ℤ}
use onlinetlabs.Regime.{Time}
use onlinetlabs.ControlLaw.{ControlArm, is_open, in_cooldown}

pub data ToolKind : Type 0 where
  observe_kind act_kind : ToolKind

-- `classify`: the registry of the tools that may be called at all.
unfoldable pub classify : String → Option ToolKind
classify tool =
    if str_eq tool "list_components"
      || str_eq tool "get_component"
      || str_eq tool "list_errors"
      || str_eq tool "get_logs"
      || str_eq tool "list_user_actions"
    then some observe_kind
    else (if str_eq tool "execute_action" || str_eq tool "intervention"
        then some act_kind
        else none)

abbrev pub is_observe : Option ToolKind → Bool
is_observe (some observe_kind) = true
is_observe _ = false

abbrev pub is_act : Option ToolKind → Bool
is_act (some act_kind) = true
is_act _ = false

pub data Scope : Type 0 where
  study_scope product_scope : Scope
  other_scope : ℕ → Scope

pub data Answer : Type 0 where
  granted declined : Answer

pub record ConsentRow : Type 0 where
  pub user_id : ℕ
  pub scope : Scope
  pub observe : Bool
  pub act : Bool
  pub decision : Answer
  pub policy_version : ℕ
  pub granted_at : Time
  pub revoked_at : Option Time

abbrev pub scope_eq : Scope → Scope → Bool
scope_eq study_scope study_scope = true
scope_eq product_scope product_scope = true
scope_eq (other_scope a) (other_scope b) = a == b
scope_eq _ _ = false

abbrev pub is_granted : Answer → Bool
is_granted granted = true
is_granted declined = false

abbrev pub granular : ToolKind → ConsentRow → Bool
granular observe_kind row = row.observe
granular act_kind row = row.act

-- The `WHERE` clause of `has_consent`.
abbrev pub covers : ℕ → ToolKind → ConsentRow → Bool
covers user kind row =
    row.user_id == user
    && not (is_some row.revoked_at)
    && is_granted row.decision
    && (scope_eq row.scope study_scope || (scope_eq row.scope product_scope && granular kind row))

unfoldable pub has_consent : List ConsentRow → ℕ → ToolKind → Bool
has_consent rows user kind = any (covers user kind) rows

abbrev pub current_policy_version : ℕ
current_policy_version = 1

-- The `WHERE` clause of `study_decision`.
abbrev pub is_study_answer : ℕ → ConsentRow → Bool
is_study_answer user row =
    row.user_id == user
    && scope_eq row.scope study_scope
    && row.policy_version == current_policy_version
    && not (is_some row.revoked_at)

-- `ORDER BY granted_at DESC LIMIT 1`
abbrev pub later : ConsentRow → Option ConsentRow → Option ConsentRow
later row none = some row
later row (some best) = if ltb best.granted_at row.granted_at then some row else some best

abbrev pub latest : List ConsentRow → Option ConsentRow
latest [] = none
latest (row ∷ rows) = later row (latest rows)

abbrev pub decision_of : Option ConsentRow → Option Answer
decision_of none = none
decision_of (some row) = some row.decision

unfoldable pub study_decision : List ConsentRow → ℕ → Option Answer
study_decision rows user = decision_of (latest (filter (is_study_answer user) rows))

abbrev pub is_grant : Option Answer → Bool
is_grant (some granted) = true
is_grant _ = false

unfoldable pub may_collect : List ConsentRow → ℕ → Bool
unfolding study_decision
may_collect rows user = is_grant (study_decision rows user)

-- The row that `record` writes, at the reading of the clock that the column defaults to.
abbrev pub answer_row : ℕ → Scope → Bool → Bool → Answer → ℕ → Time → ConsentRow
answer_row user scope observe act decision version now = record {
  user_id = user;
  scope = scope;
  observe = observe && is_granted decision;
  act = act && is_granted decision;
  decision = decision;
  policy_version = version;
  granted_at = now;
  revoked_at = none;
}

-- `record`
unfoldable pub record_answer :
    List ConsentRow → ℕ → Scope → Bool → Bool → Answer → ℕ → Time → List ConsentRow
record_answer rows user scope observe act decision version now =
    rows ++ answer_row user scope observe act decision version now ∷ []

unfoldable pub grant : List ConsentRow → ℕ → Scope → Bool → Bool → Time → List ConsentRow
unfolding record_answer
grant rows user scope observe act now =
    record_answer rows user scope observe act granted current_policy_version now

-- The `WHERE` clause of `revoke`.
abbrev pub is_revocable : ℕ → Scope → ConsentRow → Bool
is_revocable user scope row =
    row.user_id == user && scope_eq row.scope scope && not (is_some row.revoked_at)

abbrev pub revoke_row : ℕ → Scope → Time → ConsentRow → ConsentRow
revoke_row user scope now row =
    if is_revocable user scope row then record row { revoked_at = some now } else row

-- `revoke`: the rows after it, and how many it marked.
unfoldable pub revoke : List ConsentRow → ℕ → Scope → Time → List ConsentRow × ℕ
revoke rows user scope now =
    (map (revoke_row user scope now) rows, length (filter (is_revocable user scope) rows))
