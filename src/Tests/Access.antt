-- ===== src/Tests/Access.antt =====
-- The theorems about backend/consent/: learner 1 owns session 9.
use onlinetlabs.Base.{
  ◌≡◌, ◌≢◌, refl, true, false, not, ◌&&◌, ◌||◌, some, none, List, [], ◌∷◌, arith, length, any, ◌↔◌,
  ◌==◌, update,
}
use onlinetlabs.ControlLaw.{closed_loop}
use onlinetlabs.Consent.{
  act_kind, classify, study_scope, product_scope, scope_eq, ConsentRow, granted, declined, covers,
  has_consent, revoke, record_answer, current_policy_version, answer_row,
}
use onlinetlabs.Interface.{Seam, allowed, authorize_act, act_tool, rate_limited}
use onlinetlabs.Consent.Rows.{IsPast, has_consent_lem}
use onlinetlabs.Interface.Gates.{authorize_act_iff, act_tool_lem}

abbrev rows : List ConsentRow
rows =
    answer_row 1 study_scope true true granted current_policy_version 10
    ∷ answer_row 2 product_scope true false granted current_policy_version 20
    ∷ []

rows-IsPast : IsPast 30 rows
rows-IsPast = (omega arith, (omega arith, tt))

has_consent_lem_example :
    (has_consent (revoke rows 1 study_scope 30).0 1 act_kind
      ≡ any (λ row. covers 1 act_kind row && not (1 == 1 && scope_eq row.scope study_scope)) rows)
    × (has_consent (record_answer rows 1 study_scope false false granted 0 30) 1 act_kind
        ≡ (has_consent rows 1 act_kind || 1 == 1))
    × (has_consent (record_answer rows 1 study_scope false false declined 0 30) 1 act_kind
        ≡ has_consent rows 1 act_kind)
has_consent_lem_example = has_consent_lem rows 1 study_scope false false 0 30 1 act_kind

abbrev seam : Seam
seam = record {
  consents = rows;
  owns = λ session user. session == 9 && user == 1;
  last_act_ts = λ session. none;
  audits = [];
  calls = 0;
}

authorize_act_iff_example :
    ((authorize_act seam "intervention" 1 9 closed_loop 60 100).1 ≡ allowed) ↔ (
      (classify "intervention" ≡ some act_kind)
      × (seam.owns 9 1 ≡ true)
      × (has_consent seam.consents 1 act_kind ≡ true)
      × (closed_loop ≡ closed_loop)
      × (rate_limited seam 9 60 100 ≡ false))
authorize_act_iff_example = authorize_act_iff seam "intervention" 1 9 closed_loop 60 100

act_tool_lem_example :
    let (s', e) = act_tool seam "intervention" 1 9 closed_loop 60 100 101 true in
    let v = (authorize_act seam "intervention" 1 9 closed_loop 60 100).1 in
    (length s'.audits ≡ 1)
    × (v ≡ allowed → (s'.calls ≡ 1) × (s'.last_act_ts ≡ update seam.last_act_ts 9 (some 101)))
    × (v ≢ allowed → (s'.calls ≡ 0) × (s'.last_act_ts ≡ seam.last_act_ts))
act_tool_lem_example = act_tool_lem seam "intervention" 1 9 closed_loop 60 100 101 true

first_allowed : (authorize_act seam "intervention" 1 9 closed_loop 60 100).1 ≡ allowed
unfolding authorize_act classify has_consent
first_allowed = refl

second_allowed :
    (authorize_act
      (act_tool seam "intervention" 1 9 closed_loop 60 100 101 true).0
      "execute_action"
      1
      9
      closed_loop
      60
      170).1
    ≡ allowed
unfolding authorize_act act_tool classify has_consent
second_allowed = refl
