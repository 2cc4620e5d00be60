-- ===== src/Interface.antt =====
-- backend/consent/interface.py: the governed seam between the control loop and the tools, with its
-- audit (backend/consent/audit.py).
pub mod Gates
use Prim.Native.String.{String}
use onlinetlabs.Base.{
  ℕ, suc, ◌+◌, Bool, true, false, not, ◌&&◌, ◌||◌, Option, none, some, List, [], ◌∷◌, ◌++◌, ltb,
  ◌==◌, if◌then◌else◌, is_some, update, any, filter, length, map,
}
use onlinetlabs.Base.Int.{pos, sub_ℕ, ltb_ℤ}
use onlinetlabs.Regime.{Time}
use onlinetlabs.ControlLaw.{ControlArm, is_open}
use onlinetlabs.Consent.{
  ToolKind, observe_kind, act_kind, classify, is_observe, is_act, ConsentRow, has_consent,
}

pub data Denial : Type 0 where
  unclassified isolation no_consent open_arm_denied rate : Denial

pub data AuditError : Type 0 where
  denied : Denial → AuditError
  raised : AuditError

pub record AuditRow : Type 0 where
  pub user_id : ℕ
  pub session_id : ℕ
  pub tool : String
  pub kind : ToolKind
  pub success : Bool
  pub error : Option AuditError

-- What a gate reads of the database, and what the interface keeps: `_last_act_ts`, the audit
-- table, and the calls that reached the MCP server.
pub record Seam : Type 0 where
  pub consents : List ConsentRow
  pub owns : ℕ → ℕ → Bool
  pub last_act_ts : ℕ → Option Time
  pub audits : List AuditRow
  pub calls : ℕ

pub data Verdict : Type 0 where
  allowed : Verdict
  refused : Denial → Verdict

-- How a call through the seam ends: a denial, the tool's own exception, or its result.
pub data Ending : Type 0 where
  denied_by : Denial → Ending
  tool_raised : Ending
  returned : Ending

abbrev pub audit : Seam → ℕ → ℕ → String → ToolKind → Bool → Option AuditError → Seam
audit s user session tool kind success error = record s {
  audits =
      record {
        user_id = user;
        session_id = session;
        tool = tool;
        kind = kind;
        success = success;
        error = error;
      }
      ∷ s.audits;
}

abbrev pub deny : Seam → ℕ → ℕ → String → ToolKind → Denial → Seam × Verdict
deny s user session tool kind why =
    (audit s user session tool kind false (some (denied why)), refused why)

-- The gates of `observe`.
unfoldable pub authorize_observe : Seam → String → ℕ → ℕ → Seam × Verdict
authorize_observe s tool user session =
    if not (is_observe (classify tool))
    then deny s user session tool observe_kind unclassified
    else (if not (s.owns session user)
        then deny s user session tool observe_kind isolation
        else (if not (has_consent s.consents user observe_kind)
            then deny s user session tool observe_kind no_consent
            else (s, allowed)))

-- The call itself; `ok` says whether the tool returns.
after_observe : ℕ → ℕ → String → Bool → Seam × Verdict → Seam × Ending
after_observe user session tool ok (s, refused why) = (s, denied_by why)
after_observe user session tool true (s, allowed) =
    (audit (record s { calls = suc s.calls }) user session tool observe_kind true none, returned)
after_observe user session tool false (s, allowed) = (
  audit (record s { calls = suc s.calls }) user session tool observe_kind false (some raised),
  tool_raised,
)

unfoldable pub observe_tool : Seam → String → ℕ → ℕ → Bool → Seam × Ending
unfolding after_observe
observe_tool s tool user session ok =
    after_observe user session tool ok (authorize_observe s tool user session)

abbrev pub rate_limited : Seam → ℕ → ℕ → Time → Bool
rate_limited s session cooldown now = elim (s.last_act_ts session) [
  | none ↦ false
  | some last ↦ ltb_ℤ (sub_ℕ now last) (pos cooldown)
]

-- `authorize_act`
unfoldable pub authorize_act : Seam → String → ℕ → ℕ → ControlArm → ℕ → Time → Seam × Verdict
authorize_act s tool user session arm cooldown now =
    if not (is_act (classify tool))
    then deny s user session tool act_kind unclassified
    else (if not (s.owns session user)
        then deny s user session tool act_kind isolation
        else (if not (has_consent s.consents user act_kind)
            then deny s user session tool act_kind no_consent
            else (if is_open arm
                then deny s user session tool act_kind open_arm_denied
                else (if rate_limited s session cooldown now
                    then deny s user session tool act_kind rate
                    else (s, allowed)))))

-- `record_act`
unfoldable pub record_act : Seam → String → ℕ → ℕ → Bool → Time → Seam
record_act s tool user session success now =
    audit (record s { last_act_ts = update s.last_act_ts session (some now) }) user session tool
      act_kind success none

after_act : ℕ → ℕ → String → Bool → Time → Seam × Verdict → Seam × Ending
unfolding record_act
after_act user session tool ok done_at (s, refused why) = (s, denied_by why)
after_act user session tool ok done_at (s, allowed) = (
  record_act (record s { calls = suc s.calls }) tool user session ok done_at,
  if ok then returned else tool_raised,
)

-- `act`: the gates at one reading of the clock, the call, and the stamp at a later one.
unfoldable pub act_tool :
    Seam → String → ℕ → ℕ → ControlArm → ℕ → Time → Time → Bool → Seam × Ending
unfolding after_act
act_tool s tool user session arm cooldown now done_at ok =
    after_act user session tool ok done_at (authorize_act s tool user session arm cooldown now)
