-- ===== src/Consent/Rows.antt =====
-- The consent rows of backend/consent/consent.py: what an answer and a revocation change.
use onlinetlabs.Base.{
  ℕ, ◌<◌, ◌≡◌, ◌≢◌, refl, ap, ◌∙◌, Bool, true, false, not, ◌&&◌, ◌||◌, some, List, [], ◌∷◌, ◌++◌,
  map, arith, ◌==◌, any, filter, Bool-cases, inl, inr, All,
}
use onlinetlabs.Regime.{Time}
use onlinetlabs.Consent.{
  ToolKind, Scope, study_scope, Answer, granted, declined, ConsentRow, covers, has_consent,
  record_answer, revoke, revoke_row, study_decision, is_study_answer, latest, decision_of,
  may_collect, scope_eq, current_policy_version, is_granted, is_grant, answer_row,
}

any-append {ℓ} :
    {A : Type ℓ} (p : A → Bool) (xs ys : List A) → any p (xs ++ ys) ≡ (any p xs || any p ys)
any-append p [] ys = refl
any-append p (x ∷ xs) ys = ground (arith, any-append p xs ys)

any-map {ℓ} :
    {A : Type ℓ} (p : A → Bool) (f : A → A) (q : A → Bool)
    → ((a : A) → p (f a) ≡ q a)
    → (xs : List A) → any p (map f xs) ≡ any q xs
any-map p f q h [] = refl
any-map p f q h (x ∷ xs) = ground (arith, h x, any-map p f q h xs)

covers-revoke_row :
    (user who : ℕ) (scope : Scope) (kind : ToolKind) (now : Time) (row : ConsentRow)
    → covers who kind (revoke_row user scope now row)
      ≡ (covers who kind row && not (user == who && scope_eq row.scope scope))
covers-revoke_row user who scope kind now row = ground arith

has_consent-revoke :
    (rows : List ConsentRow) (user : ℕ) (scope : Scope) (now : Time) (who : ℕ) (kind : ToolKind)
    → has_consent (revoke rows user scope now).0 who kind
      ≡ any (λ row. covers who kind row && not (user == who && scope_eq row.scope scope)) rows
unfolding has_consent revoke
has_consent-revoke rows user scope now who kind =
    any-map (covers who kind) (revoke_row user scope now)
      (λ row. covers who kind row && not (user == who && scope_eq row.scope scope))
      (covers-revoke_row user who scope kind now) rows

has_consent-study_grant :
    (rows : List ConsentRow) (user : ℕ) (observe act : Bool) (version : ℕ) (now : Time) (who : ℕ)
    (kind : ToolKind)
    → has_consent (record_answer rows user study_scope observe act granted version now) who kind
      ≡ (has_consent rows who kind || user == who)
unfolding has_consent record_answer
has_consent-study_grant rows user observe act version now who kind =
    any-append (covers who kind) rows _ ∙ ground arith

has_consent-declined :
    (rows : List ConsentRow) (user : ℕ) (scope : Scope) (observe act : Bool) (version : ℕ)
    (now : Time) (who : ℕ) (kind : ToolKind)
    → has_consent (record_answer rows user scope observe act declined version now) who kind
      ≡ has_consent rows who kind
unfolding has_consent record_answer
has_consent-declined rows user scope observe act version now who kind =
    any-append (covers who kind) rows _ ∙ ground arith

-- After a revocation a learner's consent rests on the rows of the other scopes, and anybody else's on
-- the same rows as before. A granted study answer gives its learner consent to both kinds of tools, at
-- whatever policy version it is recorded, and changes nobody else's consent. A recorded refusal leaves
-- the consent of everyone as it was, also that of the learner who refuses: an earlier grant goes on
-- counting.
pub has_consent_lem :
    (rows : List ConsentRow) (user : ℕ) (scope : Scope) (observe act : Bool) (version : ℕ)
    (now : Time) (who : ℕ) (kind : ToolKind)
    → (has_consent (revoke rows user scope now).0 who kind
        ≡ any (λ row. covers who kind row && not (user == who && scope_eq row.scope scope)) rows)
      × (has_consent (record_answer rows user study_scope observe act granted version now) who kind
          ≡ (has_consent rows who kind || user == who))
      × (has_consent (record_answer rows user scope observe act declined version now) who kind
          ≡ has_consent rows who kind)
has_consent_lem rows user scope observe act version now who kind = (
  has_consent-revoke rows user scope now who kind,
  has_consent-study_grant rows user observe act version now who kind,
  has_consent-declined rows user scope observe act version now who kind,
)

-- Every row was granted before a reading of the clock.
abbrev pub IsPast : Time → List ConsentRow → Type 0
IsPast now = All (λ row. row.granted_at < now)

latest-append_new :
    (now : Time) (rows : List ConsentRow) (new : ConsentRow)
    → IsPast now rows
    → new.granted_at ≡ now
    → latest (rows ++ new ∷ []) ≡ some new
latest-append_new now [] new past e = refl
latest-append_new now (row ∷ rows) new past e =
    ground (arith, latest-append_new now rows new past.1 e)

IsPast-filter :
    (p : ConsentRow → Bool) (now : Time) (rows : List ConsentRow)
    → IsPast now rows
    → IsPast now (filter p rows)
IsPast-filter p now [] past = tt
IsPast-filter p now (row ∷ rows) past = elim (Bool-cases (p row)) [
  | inl kept ↦ rw kept (past.0, IsPast-filter p now rows past.1)
  | inr dropped ↦ rw dropped (IsPast-filter p now rows past.1)
]

filter-append_kept {ℓ} :
    {A : Type ℓ} (p : A → Bool) (xs : List A) (y : A)
    → p y ≡ true
    → filter p (xs ++ y ∷ []) ≡ filter p xs ++ y ∷ []
filter-append_kept p [] y h = rw h refl
filter-append_kept p (x ∷ xs) y h = ground (arith, filter-append_kept p xs y h)

filter-append_dropped {ℓ} :
    {A : Type ℓ} (p : A → Bool) (xs : List A) (y : A)
    → p y ≡ false
    → filter p (xs ++ y ∷ []) ≡ filter p xs
filter-append_dropped p [] y h = rw h refl
filter-append_dropped p (x ∷ xs) y h = ground (arith, filter-append_dropped p xs y h)

study_decision-record :
    (rows : List ConsentRow) (user : ℕ) (observe act : Bool) (decision : Answer) (version : ℕ)
    (now : Time)
    → IsPast now rows
    → let after = record_answer rows user study_scope observe act decision version now in
      (version ≡ current_policy_version → study_decision after user ≡ some decision)
      × (version ≢ current_policy_version → study_decision after user ≡ study_decision rows user)
unfolding study_decision record_answer
study_decision-record rows user observe act decision version now past =
    let new = answer_row user study_scope observe act decision version now in
    let mine = is_study_answer user in
    (
      λ e.
          ap (λ l. decision_of (latest l)) (filter-append_kept mine rows new (ground arith))
          ∙ ap decision_of (
              latest-append_new now (filter mine rows) new (IsPast-filter mine now rows past) refl),
      λ ne. ap (λ l. decision_of (latest l)) (filter-append_dropped mine rows new (ground arith)),
    )

is_grant-some : (decision : Answer) → is_grant (some decision) ≡ is_granted decision
is_grant-some decision = ground arith

-- An answer of the current policy version that is newer than every row is the learner's study
-- decision, and decides what may be collected: a refusal ends the collection at once. An answer of
-- another version leaves both as they were.
record_answer_lem :
    (rows : List ConsentRow) (user : ℕ) (observe act : Bool) (decision : Answer) (version : ℕ)
    (now : Time)
    → IsPast now rows
    → let after = record_answer rows user study_scope observe act decision version now in
      (version ≡ current_policy_version
        → (study_decision after user ≡ some decision)
          × (may_collect after user ≡ is_granted decision))
      × (version ≢ current_policy_version
          → (study_decision after user ≡ study_decision rows user)
            × (may_collect after user ≡ may_collect rows user))
unfolding may_collect
record_answer_lem rows user observe act decision version now past =
    let (current, other) = study_decision-record rows user observe act decision version now past in
    (
      λ e. (current e, ap is_grant (current e) ∙ is_grant-some decision),
      λ ne. (other ne, ap is_grant (other ne)),
    )
