-- ===== src/Criterion/Search.antt =====
-- The choices of the grid search of backend/analytics/thresholds.py.
use onlinetlabs.Base.{
  ℕ, ◌≡◌, refl, true, false, List, [], ◌∷◌, none, some, inl, inr, arith, contains, All, Bool-cases,
  ap, sym, subst, if-true, if-false,
}
use onlinetlabs.Base.Int.{ℤ, leb_ℤ, ltb_ℤ}
use onlinetlabs.Regime.{ProcessRegime}
use onlinetlabs.Criterion.Thresholds.{
  Thresholds, set_threshold, Setting, Grid, total_J, best_from, search_from, first_candidates,
  derive_T_k,
}

-- A candidate whose cost is not above that of any candidate.
abbrev pub IsBest : (ℕ → ℤ) → List ℕ → ℕ → Type 0
IsBest cost tks tk =
    (contains tk tks ≡ true) × All (λ other. leb_ℤ (cost tk) (cost other) ≡ true) tks

module _ (cost : ℕ → ℤ) where
  -- The best of some candidates and of the one before them.
  abbrev IsFound : ℕ → List ℕ → ℕ → Type 0
  IsFound b tks best =
      (contains best (b ∷ tks) ≡ true)
      × (leb_ℤ (cost best) (cost b) ≡ true)
      × All (λ other. leb_ℤ (cost best) (cost other) ≡ true) tks

  best_from-won :
      (b tk : ℕ) (tks : List ℕ)
      → ltb_ℤ (cost tk) (cost b) ≡ true
      → best_from cost (b, some (cost b)) (tk ∷ tks) ≡ best_from cost (tk, some (cost tk)) tks
  unfolding best_from
  best_from-won b tk tks e = ap (λ t. best_from cost t tks) (if-true _ _ _ e)

  best_from-lost :
      (b tk : ℕ) (tks : List ℕ)
      → ltb_ℤ (cost tk) (cost b) ≡ false
      → best_from cost (b, some (cost b)) (tk ∷ tks) ≡ best_from cost (b, some (cost b)) tks
  unfolding best_from
  best_from-lost b tk tks e = ap (λ t. best_from cost t tks) (if-false _ _ _ e)

  best_from_lem : (b : ℕ) (tks : List ℕ) → IsFound b tks (best_from cost (b, some (cost b)) tks).0
  unfolding best_from
  best_from_lem b [] = (ground arith, ground arith, tt)
  best_from_lem b (tk ∷ tks) = elim (Bool-cases (ltb_ℤ (cost tk) (cost b))) [
    | inl e ↦
        subst (λ best. IsFound b (tk ∷ tks) best.0) (sym (best_from-won b tk tks e))
          (let (a, c, d) = best_from_lem tk tks in (ground arith, ground arith, (c, d)))
    | inr e ↦
        subst (λ best. IsFound b (tk ∷ tks) best.0) (sym (best_from-lost b tk tks e))
          (let (a, c, d) = best_from_lem b tks in (ground arith, c, (ground arith, d)))
  ]

  best_from-IsBest :
      (first : ℕ) (others : List ℕ)
      → IsBest cost (first ∷ others) (best_from cost (first, none) (first ∷ others)).0
  unfolding best_from
  best_from-IsBest first others = let (a, c, d) = best_from_lem first others in (a, (c, d))

-- At each regime of the grid the choice is best, given the choices made for the regimes before it
-- and the thresholds held for those after it; the next choice is made with it in place.
abbrev pub IsGreedy : Setting → Thresholds → Grid → List (ProcessRegime × ℕ) → Type 0
IsGreedy g current [] [] = Unit
IsGreedy g current [] (_ ∷ _) = ⊥
IsGreedy g current (_ ∷ _) [] = ⊥
IsGreedy g current ((regime, tks) ∷ grid) ((r, tk) ∷ result) =
    (r ≡ regime)
    × IsBest (λ other. total_J g (set_threshold current regime other)) tks tk
    × IsGreedy g (set_threshold current regime tk) grid result

abbrev pub HasCandidates : ProcessRegime × List ℕ → Type 0
HasCandidates (_, []) = ⊥
HasCandidates (_, _ ∷ _) = Unit

search_from-IsGreedy :
    (g : Setting) (current : Thresholds) (grid : Grid)
    → All HasCandidates grid
    → (result : List (ProcessRegime × ℕ)) × (search_from g current grid ≡ some result)
      × IsGreedy g current grid result
unfolding search_from
search_from-IsGreedy g current [] h = ([], refl, tt)
search_from-IsGreedy g current ((regime, []) ∷ grid) h = absurd h.0
search_from-IsGreedy g current ((regime, first ∷ others) ∷ grid) h =
    let cost : ℕ → ℤ = λ tk. total_J g (set_threshold current regime tk) in
    let best = (best_from cost (first, none) (first ∷ others)).0 in
    let (rest, e, greedy) = search_from-IsGreedy g (set_threshold current regime best) grid h.1 in
    ((regime, best) ∷ rest, rw e refl, (refl, best_from-IsBest cost first others, greedy))

-- On a grid in which every regime has a candidate the search returns a threshold for each regime
-- in turn: one of its candidates, at which the total criterion over the sessions is not above
-- that at any other candidate, with the thresholds already chosen for the regimes before it and
-- the first candidates of those after it.
pub derive_T_k-IsGreedy :
    (g : Setting) (grid : Grid)
    → All HasCandidates grid
    → (result : List (ProcessRegime × ℕ)) × (derive_T_k g grid ≡ some result)
      × IsGreedy g (first_candidates grid) grid result
unfolding derive_T_k
derive_T_k-IsGreedy g grid h = search_from-IsGreedy g (first_candidates grid) grid h
