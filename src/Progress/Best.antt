-- ===== src/Progress/Best.antt =====
-- The progress of a lab over a sequence of runs of backend/progress/service.py.
use onlinetlabs.Base.{
  ℕ, ◌≡◌, refl, sym, ap, ap₂, ◌∙◌, arith, Bool, true, ◌&&◌, Option, none, some, List, [], ◌∷◌,
  or_else, if◌then◌else◌, if-true, if-false, ◌==◌, Bool-cases, inl, inr,
}
use onlinetlabs.Validation.{StepRecord}
use onlinetlabs.Progress.{
  in_progress, completed, LabProgress, score_from_steps, max, is_row, find_progress, put_progress,
  new_row, apply_run, record_lab_validation,
}

-- A run of some learner's lab.
pub record Run (J : Type 0) : Type 0 where
  pub at : ℕ
  pub user : ℕ
  pub lab : ℕ
  pub steps : List (StepRecord J)

abbrev pub going : ℕ → ℕ → ℕ → ℕ → LabProgress
going user lab t b = record {
  user_id = user;
  lab_slug = lab;
  status = in_progress;
  score = some b;
  started_at = some t;
  completed_at = none;
}

abbrev pub passed : ℕ → ℕ → ℕ → ℕ → ℕ → LabProgress
passed user lab t b c = record (going user lab t b) { status = completed; completed_at = some c }

-- The row that runs lead to: by the first, the best score, and the first in which all passed.
abbrev pub outcome : ℕ → ℕ → Option ℕ → ℕ → Option ℕ → Option LabProgress
outcome user lab none b c = none
outcome user lab (some t) b none = some (going user lab t b)
outcome user lab (some t) b (some c) = some (passed user lab t b c)

module _ {J : Type 0} (percent : ℕ → ℕ → ℕ) where
  unfoldable pub record_all : List (Run J) → List LabProgress → List LabProgress
  record_all [] rows = rows
  record_all (r ∷ rs) rows =
      record_all rs (record_lab_validation percent r.at r.user r.lab r.steps rows)

  abbrev pub is_run : ℕ → ℕ → Run J → Bool
  is_run user lab r = (r.user == user) && (r.lab == lab)

  -- The best score of a learner's runs of a lab.
  unfoldable pub best : ℕ → ℕ → List (Run J) → ℕ
  best user lab [] = 0
  best user lab (r ∷ rs) =
      let rest = best user lab rs in
      if is_run user lab r then max (score_from_steps percent r.steps).0 rest else rest

  -- The time of the first of them in which every step passed.
  unfoldable pub first_pass : ℕ → ℕ → List (Run J) → Option ℕ
  first_pass user lab [] = none
  first_pass user lab (r ∷ rs) =
      let rest = first_pass user lab rs in
      if is_run user lab r && (score_from_steps percent r.steps).1 then some r.at else rest

  -- The time of the first of them.
  unfoldable pub first_run : ℕ → ℕ → List (Run J) → Option ℕ
  first_run user lab [] = none
  first_run user lab (r ∷ rs) =
      let rest = first_run user lab rs in if is_run user lab r then some r.at else rest

  -- What becomes of the one row.
  unfoldable pub row_after : ℕ → ℕ → Option LabProgress → List (Run J) → Option LabProgress
  row_after user lab o [] = o
  row_after user lab o (r ∷ rs) =
      let (score, all_passed) = score_from_steps percent r.steps in
      let written = apply_run r.at score all_passed (or_else o (new_row user lab r.at)) in
      row_after user lab (if is_run user lab r then some written else o) rs

is_row_key :
    (user lab : ℕ) (p : LabProgress)
    → is_row user lab p ≡ true
    → (p.user_id ≡ user) × (p.lab_slug ≡ lab)
is_row_key user lab p e = ground (arith)

is_row_at :
    (user lab : ℕ) (p : LabProgress)
    → p.user_id ≡ user
    → p.lab_slug ≡ lab
    → is_row user lab p ≡ true
is_row_at user lab p e f = ground (arith)

find_progress-put :
    (user lab : ℕ) (q : LabProgress) (rows : List LabProgress)
    → find_progress user lab (put_progress q rows)
      ≡ (if is_row user lab q then some q else find_progress user lab rows)
unfolding find_progress put_progress
find_progress-put user lab q [] = refl
find_progress-put user lab q (p ∷ ps) = ground (arith, find_progress-put user lab q ps)

max_assoc : (a b c : ℕ) → max (max a b) c ≡ max a (max b c)
max_assoc a b c = ground (arith)

max-max_zero : (a b : ℕ) → max (max 0 a) b ≡ max a b
max-max_zero a b = ground (arith)

max_zero : (a : ℕ) → max a 0 ≡ a
max_zero a = ground (arith)

apply_run-row :
    (now score : ℕ) (all_passed : Bool) (p : LabProgress)
    → ((apply_run now score all_passed p).user_id ≡ p.user_id)
      × ((apply_run now score all_passed p).lab_slug ≡ p.lab_slug)
unfolding apply_run
apply_run-row now score all_passed p = ground (arith)

found_row :
    (user lab now : ℕ) (rows : List LabProgress)
    → let p = or_else (find_progress user lab rows) (new_row user lab now) in
      (p.user_id ≡ user) × (p.lab_slug ≡ lab)
unfolding find_progress
found_row user lab now [] = (refl, refl)
found_row user lab now (p ∷ ps) = ground (arith, found_row user lab now ps)

module _ {J : Type 0} (percent : ℕ → ℕ → ℕ) where
  row_after-passed :
      (user lab t b c : ℕ) (rs : List (Run J))
      → row_after percent user lab (some (passed user lab t b c)) rs
        ≡ some (passed user lab t (max b (best percent user lab rs)) c)
  unfolding row_after best apply_run
  row_after-passed user lab t b c [] = ap (λ x. some (passed user lab t x c)) (sym (max_zero b))
  row_after-passed user lab t b c (r ∷ rs) =
      let s = (score_from_steps percent r.steps).0 in
      elim (Bool-cases (is_run percent user lab r)) [
        | inl e ↦ rw e (
            row_after-passed user lab t (max b s) c rs
            ∙ ap (λ x. some (passed user lab t x c)) (max_assoc b s (best percent user lab rs)))
        | inr e ↦ rw e (row_after-passed user lab t b c rs)
      ]

  row_after-going :
      (user lab t b : ℕ) (rs : List (Run J))
      → row_after percent user lab (some (going user lab t b)) rs
        ≡ outcome user lab
            (some t)
            (max b (best percent user lab rs))
            (first_pass percent user lab rs)
  unfolding row_after best apply_run first_pass
  row_after-going user lab t b [] = ap (λ x. some (going user lab t x)) (sym (max_zero b))
  row_after-going user lab t b (r ∷ rs) =
      let s = (score_from_steps percent r.steps).0 in
      elim (Bool-cases (is_run percent user lab r)) [
        | inr e ↦ rw e (row_after-going user lab t b rs)
        | inl e ↦ elim (Bool-cases (score_from_steps percent r.steps).1) [
          | inl f ↦ rw e (
              rw f (
                row_after-passed user lab t (max b s) r.at rs
                ∙ ap (λ x. some (passed user lab t x r.at))
                    (max_assoc b s (best percent user lab rs))))
          | inr f ↦ rw e (
              rw f (
                row_after-going user lab t (max b s) rs
                ∙ ap (λ x. outcome user lab (some t) x (first_pass percent user lab rs))
                    (max_assoc b s (best percent user lab rs))))
        ]
      ]

  row_after-none :
      (user lab : ℕ) (rs : List (Run J))
      → row_after percent user lab none rs
        ≡ outcome user lab
            (first_run percent user lab rs)
            (best percent user lab rs)
            (first_pass percent user lab rs)
  unfolding row_after best apply_run first_pass first_run
  row_after-none user lab [] = refl
  row_after-none user lab (r ∷ rs) = elim (Bool-cases (is_run percent user lab r)) [
    | inr e ↦ rw e (row_after-none user lab rs)
    | inl e ↦ elim (Bool-cases (score_from_steps percent r.steps).1) [
      | inl f ↦ rw e (
          rw f (
            row_after-passed user lab r.at (max 0 (score_from_steps percent r.steps).0) r.at rs
            ∙ ap (λ x. some (passed user lab r.at x r.at))
                (max-max_zero (score_from_steps percent r.steps).0 (best percent user lab rs))))
      | inr f ↦ rw e (
          rw f (
            row_after-going user lab r.at (max 0 (score_from_steps percent r.steps).0) rs
            ∙ ap (λ x. outcome user lab (some r.at) x (first_pass percent user lab rs))
                (max-max_zero (score_from_steps percent r.steps).0 (best percent user lab rs))))
    ]
  ]

  is_run_key :
      (user lab : ℕ) (r : Run J)
      → is_run percent user lab r ≡ true
      → (r.user ≡ user) × (r.lab ≡ lab)
  is_run_key user lab r e = ground (arith)

  find_progress-record :
      (user lab : ℕ) (r : Run J) (rows : List LabProgress)
      → find_progress user lab (record_lab_validation percent r.at r.user r.lab r.steps rows) ≡ (
          if is_run percent user lab r
          then some (
              apply_run r.at
                (score_from_steps percent r.steps).0
                (score_from_steps percent r.steps).1
                (or_else (find_progress user lab rows) (new_row user lab r.at)))
          else find_progress user lab rows)
  unfolding record_lab_validation
  find_progress-record user lab r rows =
      let (score, all_passed) = score_from_steps percent r.steps in
      let after : LabProgress → LabProgress = apply_run r.at score all_passed in
      let row : ℕ → ℕ → LabProgress =
        λ u l. after (or_else (find_progress u l rows) (new_row u l r.at)) in
      let q = row r.user r.lab in
      let (user_found, lab_found) = found_row r.user r.lab r.at rows in
      let (user_kept, lab_kept) =
        apply_run-row r.at score all_passed
          (or_else (find_progress r.user r.lab rows) (new_row r.user r.lab r.at)) in
      let same =
        ap₂ (λ u l. (u == user) && (l == lab)) (user_kept ∙ user_found) (lab_kept ∙ lab_found) in
      let none_found = find_progress user lab rows in
      find_progress-put user lab q rows
      ∙ ap (λ b. if b then some q else none_found) same
      ∙ elim (Bool-cases (is_run percent user lab r)) [
        | inl e ↦
            let (at_user, at_lab) = is_run_key user lab r e in
            if-true _ (some q) none_found e
            ∙ ap₂ (λ u l. some (row u l)) at_user at_lab
            ∙ sym (if-true _ (some (row user lab)) none_found e)
        | inr e ↦
            if-false _ (some q) none_found e ∙ sym (if-false _ (some (row user lab)) none_found e)
      ]

  record_all-row_after :
      (user lab : ℕ) (rs : List (Run J)) (rows : List LabProgress)
      → find_progress user lab (record_all percent rs rows)
        ≡ row_after percent user lab (find_progress user lab rows) rs
  unfolding record_all row_after
  record_all-row_after user lab [] rows = refl
  record_all-row_after user lab (r ∷ rs) rows =
      record_all-row_after user lab rs
        (record_lab_validation percent r.at r.user r.lab r.steps rows)
      ∙ ap (λ o. row_after percent user lab o rs) (find_progress-record user lab r rows)

  -- After any runs, of any learners and labs, a learner has a row for a lab exactly when one of the
  -- runs was the learner's of that lab. The row's start is the time of the first such run, its score
  -- the best of their scores, and it is completed, since the first of them in which every step
  -- passed, exactly when there is one: no later run takes that back, or lowers the score.
  pub record_lab_validation-best :
      (user lab : ℕ) (rs : List (Run J))
      → find_progress user lab (record_all percent rs [])
        ≡ outcome user lab
            (first_run percent user lab rs)
            (best percent user lab rs)
            (first_pass percent user lab rs)
  unfolding find_progress
  record_lab_validation-best user lab rs =
      record_all-row_after user lab rs [] ∙ row_after-none user lab rs
