-- ===== src/Experiment/Metrics/Runs.antt =====
-- `_max_consecutive_errors` of backend/experiment/finalizer.py beside the runs of a list.
use onlinetlabs.Base.{
  ℕ, zero, suc, ◌+◌, ◌≤◌, ◌<◌, ◌≡◌, refl, ap, sym, subst, ◌∙◌, true, false, List, [], ◌∷◌, ◌++◌,
  map, Option, none, some, inl, inr, arith, ◌==◌, ltb, Bool-cases, append_assoc, ◌⊎◌, ==_iff,
  if-true, if-false,
}
use onlinetlabs.Experiment.Metrics.{Event, same_message, max, longest_from, max_consecutive_errors}

-- A message, a number of times.
abbrev pub copies : ℕ → ℕ → List (Option ℕ)
copies zero m = []
copies (suc n) m = some m ∷ copies n m

-- Whether a list holds a run of one message.
abbrev pub HasRun : ℕ → List (Option ℕ) → Type 0
HasRun n ms =
    (front : List (Option ℕ)) × (m : ℕ) × (back : List (Option ℕ)) × (ms
      ≡ front ++ (copies n m ++ back))

module _ (best run : ℕ) (m prev : Option ℕ) (ms : List (Option ℕ)) where
  longest_same :
      same_message m prev ≡ true
      → longest_from best run prev (m ∷ ms) ≡ longest_from (max best (suc run)) (suc run) m ms
  unfolding longest_from
  longest_same h = ground arith

  longest_other :
      same_message m prev ≡ false → longest_from best run prev (m ∷ ms) ≡ longest_from best 1 m ms
  unfolding longest_from
  longest_other h = ground arith

longest_from-ge :
    (best run : ℕ) (prev : Option ℕ) (ms : List (Option ℕ)) → best ≤ longest_from best run prev ms
unfolding longest_from
longest_from-ge best run prev [] = omega arith
longest_from-ge best run prev (m ∷ ms) = elim (Bool-cases (same_message m prev)) [
  | inl e ↦
      rw (longest_same best run m prev ms e)
        (ground (arith, longest_from-ge (max best (suc run)) (suc run) m ms))
  | inr e ↦ rw (longest_other best run m prev ms e) (longest_from-ge best 1 m ms)
]

-- A run that goes on is counted on.
longest_from-more :
    (n best run m : ℕ) (back : List (Option ℕ))
    → run + suc n ≤ longest_from best run (some m) (copies (suc n) m ++ back)
longest_from-more zero best run m back =
    rw (longest_same best run (some m) (some m) back (ground arith))
      (ground (arith, longest_from-ge (max best (suc run)) (suc run) (some m) back))
longest_from-more (suc n) best run m back =
    rw (longest_same best run (some m) (some m) (copies (suc n) m ++ back) (ground arith))
      (ground (arith, longest_from-more n (max best (suc run)) (suc run) m back))

longest_from-run :
    (front : List (Option ℕ)) (n best run m : ℕ) (prev : Option ℕ) (back : List (Option ℕ))
    → suc (suc n) ≤ longest_from best run prev (front ++ (copies (suc (suc n)) m ++ back))
longest_from-run [] n best run m prev back = elim (Bool-cases (same_message (some m) prev)) [
  | inl e ↦
      rw (longest_same best run (some m) prev (copies (suc n) m ++ back) e)
        (ground (arith, longest_from-more n (max best (suc run)) (suc run) m back))
  | inr e ↦
      rw (longest_other best run (some m) prev (copies (suc n) m ++ back) e)
        (ground (arith, longest_from-more n best 1 m back))
]
longest_from-run (x ∷ front) n best run m prev back = elim (Bool-cases (same_message x prev)) [
  | inl e ↦
      rw (longest_same best run x prev (front ++ (copies (suc (suc n)) m ++ back)) e)
        (longest_from-run front n (max best (suc run)) (suc run) m x back)
  | inr e ↦
      rw (longest_other best run x prev (front ++ (copies (suc (suc n)) m ++ back)) e)
        (longest_from-run front n best 1 m x back)
]

copies_concat : (n m : ℕ) → copies n m ++ some m ∷ [] ≡ copies (suc n) m
copies_concat zero m = refl
copies_concat (suc n) m = ap (λ xs. some m ∷ xs) (copies_concat n m)

-- The messages seen end with a run of the last one.
abbrev EndsWith : ℕ → Option ℕ → List (Option ℕ) → Type 0
EndsWith run none seen = Unit
EndsWith run (some p) seen =
    (0 < run) × ((front : List (Option ℕ)) × (seen ≡ front ++ copies run p))

-- The result is the best so far, or a run of at least two in all messages.
abbrev pub IsJust : ℕ → List (Option ℕ) → ℕ → Type 0
IsJust best all_ms result = (result ≡ best) ⊎ ((1 < result) × HasRun result all_ms)

ends_fresh : (m : Option ℕ) (seen : List (Option ℕ)) → EndsWith 1 m (seen ++ m ∷ [])
ends_fresh none seen = tt
ends_fresh (some p) seen = (omega arith, (seen, refl))

ends_longer :
    (run p : ℕ) (front seen : List (Option ℕ))
    → seen ≡ front ++ copies run p
    → seen ++ some p ∷ [] ≡ front ++ copies (suc run) p
ends_longer run p front seen e =
    ap (λ xs. xs ++ some p ∷ []) e
    ∙ append_assoc front (copies run p) (some p ∷ [])
    ∙ ap (λ xs. front ++ xs) (copies_concat run p)

-- A run that is one longer, and perhaps the best.
run_on :
    (m : ℕ) (ms seen : List (Option ℕ)) (best run : ℕ)
    → 0 < run
    → (front : List (Option ℕ)) → seen ≡ front ++ copies run m
    → {result : ℕ} → IsJust (max best (suc run)) (seen ++ some m ∷ [] ++ ms) result
    → IsJust best (seen ++ some m ∷ ms) result
run_on m ms seen best run h front e (inr (lt, r)) =
    inr (lt, subst (HasRun _) (append_assoc seen (some m ∷ []) ms) r)
run_on m ms seen best run h front e (inl same) = elim (Bool-cases (ltb best (suc run))) [
  | inr q ↦ inl (same ∙ if-false _ _ _ q)
  | inl q ↦
      let now = same ∙ if-true _ _ _ q in
      inr (
        ground arith,
        subst (λ n. HasRun n (seen ++ some m ∷ ms)) (sym now)
            (
              front,
              m,
              ms,
              sym (append_assoc seen (some m ∷ []) ms)
                  ∙ ap (λ xs. xs ++ ms) (ends_longer run m front seen e)
                  ∙ append_assoc front (copies (suc run) m) ms,
            ),
      )
]

longest_from-IsJust :
    (ms seen : List (Option ℕ)) (best run : ℕ) (prev : Option ℕ)
    → EndsWith run prev seen
    → IsJust best (seen ++ ms) (longest_from best run prev ms)
unfolding longest_from
longest_from-IsJust [] seen best run prev h = inl refl
longest_from-IsJust (none ∷ ms) seen best run prev h =
    subst (λ xs. IsJust best xs (longest_from best 1 none ms)) (append_assoc seen (none ∷ []) ms)
      (longest_from-IsJust ms (seen ++ none ∷ []) best 1 none tt)
longest_from-IsJust (some m ∷ ms) seen best run none h =
    subst (λ xs. IsJust best xs (longest_from best 1 (some m) ms))
      (append_assoc seen (some m ∷ []) ms)
      (longest_from-IsJust ms (seen ++ some m ∷ []) best 1 (some m) (ends_fresh (some m) seen))
longest_from-IsJust (some m ∷ ms) seen best run (some p) (pos_run, (front, e)) =
    elim (Bool-cases (m == p)) [
      | inr q ↦ rw (longest_other best run (some m) (some p) ms q) (
          subst (λ xs. IsJust best xs (longest_from best 1 (some m) ms))
            (append_assoc seen (some m ∷ []) ms)
            (longest_from-IsJust ms (seen ++ some m ∷ []) best 1 (some m)
              (ends_fresh (some m) seen)))
      | inl q ↦ rw (longest_same best run (some m) (some p) ms q) (
          run_on m ms seen best run pos_run front
            (subst (λ x. seen ≡ front ++ copies run x) (sym ((==_iff m p).0 q)) e)
            (longest_from-IsJust ms (seen ++ some m ∷ []) (max best (suc run)) (suc run) (some m) (
              omega arith,
              (
                front,
                ends_longer run m front seen
                    (subst (λ x. seen ≡ front ++ copies run x) (sym ((==_iff m p).0 q)) e),
              ),
            )))
    ]

-- The repeated errors are 0, or the length of a run of one message among the errors, of two at
-- least; and any run of one message among them is not longer, unless it is of one message at most.
pub max_consecutive_errors_lem :
    (errors : List Event) (n : ℕ)
    → HasRun n (map (λ e. e.message) errors)
    → let best = max_consecutive_errors errors in
      IsJust 0 (map (λ e. e.message) errors) best × ((n ≤ 1) ⊎ (n ≤ best))
unfolding max_consecutive_errors
max_consecutive_errors_lem errors n run =
    (longest_from-IsJust (map (λ e. e.message) errors) [] 0 1 none tt, longest n run)
  where
    longest :
        (k : ℕ)
        → HasRun k (map (λ e. e.message) errors)
        → (k ≤ 1) ⊎ (k ≤ longest_from 0 1 none (map (λ e. e.message) errors))
    longest zero r = inl (omega arith)
    longest (suc zero) r = inl (omega arith)
    longest (suc (suc k)) (front, m, back, e) =
        inr (rw e (longest_from-run front k 0 1 m none back))
