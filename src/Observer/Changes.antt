-- ===== src/Observer/Changes.antt =====
-- The events between the snapshots of backend/analytics/runtime/progress_observer.py.
use onlinetlabs.Base.{
  ℕ, ◌+◌, ◌≡◌, refl, sym, ap, ap₂, ◌∙◌, arith, Bool, true, false, Option, none, some, List, [], ◌∷◌,
  ◌++◌, if◌then◌else◌, ◌==◌, ==_iff, ==_refl, inl, inr, Bool-cases, if-true, if-false, All,
}
use onlinetlabs.Validation.{CheckRecord, StepRecord}
use onlinetlabs.Observer.{
  ProgressEvent, checks_of, key_of, prev_check, or_later, change_of, changes_of, diff_snapshots,
}

cons_count : (b : Bool) (n : ℕ) → b ≡ true → (if b then 1 else 0) + n ≡ 0 → ⊥
cons_count b n e h = ground (arith)

skip_count : (b : Bool) (n m : ℕ) → b ≡ false → (if b then 1 else 0) + n ≡ m → n ≡ m
skip_count b n m e h = ground (arith)

last_count : (b : Bool) (n : ℕ) → b ≡ true → (if b then 1 else 0) + n ≡ 1 → n ≡ 0
last_count b n e h = ground (arith)

or_later-none {ℓ} : {A : Type ℓ} (o : Option A) → or_later o none ≡ o
or_later-none none = refl
or_later-none (some x) = refl

abbrev pub is_passed : {J : Type 0} → Option (CheckRecord J) → Bool
is_passed none = false
is_passed (some c) = c.ok

some-ok : {J : Type 0} (x c : CheckRecord J) → some x ≡ some c → x.ok ≡ c.ok
some-ok x c e = let same : x ≡ c = cc in ap (λ r. r.ok) same

module _ {J : Type 0} (key : ℕ → J → ℕ) (component : ℕ → J → ℕ) (same : J → J → Bool) where
  -- What a reader of the events takes a check to be: passed after `check_passed`, failed after any
  -- other event of its key, and as before where there is none.
  unfoldable pub follow_check : ℕ → Bool → List (ProgressEvent J) → Bool
  follow_check k ok [] = ok
  follow_check k ok (e ∷ es) = follow_check k (if e.message == k then e.success else ok) es

  -- How many checks have a key.
  unfoldable pub count_of : ℕ → List (CheckRecord J) → ℕ
  count_of k [] = 0
  count_of k (c ∷ cs) = (if key_of key component same c == k then 1 else 0) + count_of k cs

  follow_check-append :
      (k : ℕ) (xs ys : List (ProgressEvent J)) (ok : Bool)
      → follow_check k ok (xs ++ ys) ≡ follow_check k (follow_check k ok xs) ys
  unfolding follow_check
  follow_check-append k [] ys ok = refl
  follow_check-append k (x ∷ xs) ys ok =
      follow_check-append k xs ys (if x.message == k then x.success else ok)

  follow_check-own :
      (c p : CheckRecord J)
      → follow_check (key_of key component same c) p.ok (change_of key component same c (some p))
        ≡ c.ok
  unfolding follow_check change_of
  follow_check-own c p = ground (arith, ==_refl (key_of key component same c))

  follow_check-other :
      (k : ℕ) (ok : Bool) (c : CheckRecord J) (o : Option (CheckRecord J))
      → (key_of key component same c == k) ≡ false
      → follow_check k ok (change_of key component same c o) ≡ ok
  unfolding follow_check change_of
  follow_check-other k ok c none e = refl
  follow_check-other k ok c (some p) e = ground (arith, e)

  follow_check-absent :
      (k : ℕ) (ok : Bool) (prev cs : List (CheckRecord J))
      → count_of k cs ≡ 0
      → follow_check k ok (changes_of key component same prev cs) ≡ ok
  unfolding changes_of follow_check count_of
  follow_check-absent k ok prev [] h = refl
  follow_check-absent k ok prev (c ∷ cs) h =
      let events =
        change_of key component same c
          (prev_check key component same (key_of key component same c) prev) in
      let later = changes_of key component same prev cs in
      elim (Bool-cases (key_of key component same c == k)) [
        | inl e ↦ absurd (cons_count _ _ e h)
        | inr e ↦
            follow_check-append k events later ok
            ∙ ap (λ b. follow_check k b later) (follow_check-other k ok c _ e)
            ∙ follow_check-absent k ok prev cs (skip_count _ _ _ e h)
      ]

  prev_check-absent :
      (k : ℕ) (cs : List (CheckRecord J))
      → count_of k cs ≡ 0
      → prev_check key component same k cs ≡ none
  unfolding prev_check count_of
  prev_check-absent k [] h = refl
  prev_check-absent k (c ∷ cs) h = elim (Bool-cases (key_of key component same c == k)) [
    | inl e ↦ absurd (cons_count _ _ e h)
    | inr e ↦ ap₂ or_later (prev_check-absent k cs (skip_count _ _ _ e h)) (if-false _ _ _ e)
  ]

  follow_check-changes_of :
      (k : ℕ) (c p : CheckRecord J) (prev cs : List (CheckRecord J))
      → prev_check key component same k prev ≡ some p
      → count_of k cs ≡ 1
      → prev_check key component same k cs ≡ some c
      → follow_check k p.ok (changes_of key component same prev cs) ≡ c.ok
  unfolding changes_of count_of prev_check
  follow_check-changes_of k c p prev [] found once now = absurd (omega (arith, once))
  follow_check-changes_of k c p prev (x ∷ cs) found once now =
      let own = key_of key component same x in
      let events = change_of key component same x (prev_check key component same own prev) in
      let later = changes_of key component same prev cs in
      elim (Bool-cases (own == k)) [
        | inl e ↦
            let at = (==_iff own k).0 e in
            let none_later = last_count _ _ e once in
            let this : some x ≡ some c =
              sym (ap₂ or_later (prev_check-absent k cs none_later) (if-true _ _ _ e)) ∙ now in
            follow_check-append k events later p.ok
            ∙ follow_check-absent k _ prev cs none_later
            ∙ ap (λ j. follow_check j p.ok events) (sym at)
            ∙ ap (λ o. follow_check own p.ok (change_of key component same x o))
                (ap (λ j. prev_check key component same j prev) at ∙ found)
            ∙ follow_check-own x p
            ∙ some-ok x c this
        | inr e ↦
            let then_now =
              sym (or_later-none _)
              ∙ ap (or_later (prev_check key component same k cs)) (sym (if-false _ _ _ e))
              ∙ now in
            follow_check-append k events later p.ok
            ∙ ap (λ b. follow_check k b later) (follow_check-other k p.ok x _ e)
            ∙ follow_check-changes_of k c p prev cs found (skip_count _ _ _ e once) then_now
      ]

  -- A key that stands once in a snapshot.
  abbrev pub HasOnce : ℕ → List (StepRecord J) → Type 0
  HasOnce k snapshot = count_of k (checks_of snapshot) ≡ 1

  prev_check-once :
      (k : ℕ) (cs : List (CheckRecord J))
      → count_of k cs ≡ 1
      → (c : CheckRecord J) × (prev_check key component same k cs ≡ some c)
  unfolding prev_check count_of
  prev_check-once k [] h = absurd (omega (arith, h))
  prev_check-once k (c ∷ cs) h = elim (Bool-cases (key_of key component same c == k)) [
    | inl e ↦ (c, ap₂ or_later (prev_check-absent k cs (last_count _ _ e h)) (if-true _ _ _ e))
    | inr e ↦
        let (x, found) = prev_check-once k cs (skip_count _ _ _ e h) in
        (x, ap₂ or_later found (if-false _ _ _ e))
  ]

  -- Whether the check of a key has passed in a snapshot.
  abbrev pub ok_at : ℕ → List (StepRecord J) → Bool
  ok_at k snapshot = is_passed (prev_check key component same k (checks_of snapshot))

  -- The events of a sequence of polls after a first one, and the last snapshot.
  unfoldable pub events_of :
      List (StepRecord J) → List (List (StepRecord J)) → List (ProgressEvent J)
  events_of prev [] = []
  events_of prev (s ∷ ss) = diff_snapshots key component same (some prev) s ++ events_of s ss

  abbrev pub last_of : List (StepRecord J) → List (List (StepRecord J)) → List (StepRecord J)
  last_of prev [] = prev
  last_of prev (s ∷ ss) = last_of s ss

  follow_check-diff :
      (k : ℕ) (prev curr : List (StepRecord J))
      → HasOnce k prev
      → HasOnce k curr
      → follow_check k (ok_at k prev) (diff_snapshots key component same (some prev) curr)
        ≡ ok_at k curr
  unfolding diff_snapshots
  follow_check-diff k prev curr before after =
      let (p, found) = prev_check-once k (checks_of prev) before in
      let (c, now) = prev_check-once k (checks_of curr) after in
      ap (λ o. follow_check k (is_passed o) (diff_snapshots key component same (some prev) curr))
        found
      ∙ follow_check-changes_of k c p (checks_of prev) (checks_of curr) found after now
      ∙ sym (ap is_passed now)

  -- Over any sequence of snapshots in each of which a key stands once, the events of that key tell
  -- whether its check has passed: who knows how it stood in the first snapshot and follows the events
  -- has the outcome of the last.
  pub diff_snapshots-follow_check :
      (k : ℕ) (first : List (StepRecord J)) (later : List (List (StepRecord J)))
      → HasOnce k first
      → All (HasOnce k) later
      → follow_check k (ok_at k first) (events_of first later) ≡ ok_at k (last_of first later)
  unfolding events_of follow_check
  diff_snapshots-follow_check k first [] once rest = refl
  diff_snapshots-follow_check k first (s ∷ ss) once rest =
      follow_check-append k (diff_snapshots key component same (some first) s) (events_of s ss)
        (ok_at k first)
      ∙ ap (λ b. follow_check k b (events_of s ss)) (follow_check-diff k first s once rest.0)
      ∙ diff_snapshots-follow_check k s ss rest.0 rest.1
