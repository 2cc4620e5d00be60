-- ===== src/Criterion/Thresholds.antt =====
-- backend/analytics/thresholds.py: deriving the dwell thresholds from historical sessions. A dwell
-- threshold is a number of microseconds, a dict of thresholds a function of the regime, and a grid
-- the list of its items.
use onlinetlabs.Base.{
  ℕ, Bool, true, false, not, ◌&&◌, List, [], ◌∷◌, map, Option, none, some, leb, if◌then◌else◌, any,
}
use onlinetlabs.Base.Int.{ℤ, pos, sub_ℕ, ltb_ℤ, ◌+ℤ◌}
use onlinetlabs.Base.Sorting.{sorted}
use onlinetlabs.Regime.{ProcessRegime, Time, regime_eq}
use onlinetlabs.Criterion.{Sample, Costs, is_bad_regime, compute_J}

abbrev pub Thresholds : Type 0
Thresholds = ProcessRegime → Option ℕ

-- `{**thresholds, regime: tk}`
abbrev pub set_threshold : Thresholds → ProcessRegime → ℕ → Thresholds
set_threshold thresholds regime tk r = if regime_eq r regime then some tk else thresholds r

-- `s["dwell"] < threshold`, and `continue` where the regime has none.
abbrev pub is_due : Thresholds → Sample → Bool
is_due thresholds s = elim (thresholds s.regime) [
  | none ↦ false
  | some threshold ↦ not (ltb_ℤ s.dwell (pos threshold))
]

-- The cooldown gate.
abbrev pub is_cooling : Option Time → ℕ → Time → Bool
is_cooling none cooldown at = false
is_cooling (some last) cooldown at = ltb_ℤ (sub_ℕ at last) (pos cooldown)

abbrev pub fires : Thresholds → ℕ → Option Time → Sample → Bool
fires thresholds cooldown last s =
    is_bad_regime s.regime && is_due thresholds s && not (is_cooling last cooldown s.ts)

-- The loop of `simulate_interventions`, at its last firing.
unfoldable pub simulate_from : Thresholds → ℕ → Option Time → List Sample → List Time
simulate_from thresholds cooldown last [] = []
simulate_from thresholds cooldown last (s ∷ ss) = elim (fires thresholds cooldown last s) [
  | true ↦ s.ts ∷ simulate_from thresholds cooldown (some s.ts) ss
  | false ↦ simulate_from thresholds cooldown last ss
]

abbrev pub simulate_interventions : List Sample → Thresholds → ℕ → List Time
simulate_interventions samples thresholds cooldown = simulate_from thresholds cooldown none samples

-- One sample of `_truncate_at_interventions`.
abbrev pub resolve : List Time → Sample → Sample
resolve ivs s =
    if is_bad_regime s.regime && any (λ at. leb at s.ts) (sorted leb ivs)
    then record s { regime = ProcessRegime.productive; dwell = pos 0 }
    else s

unfoldable pub truncate_at_interventions : List Sample → List Time → List Sample
truncate_at_interventions samples [] = samples
truncate_at_interventions samples (iv ∷ ivs) = map (resolve (iv ∷ ivs)) samples

unfoldable pub no_effect_counterfactual : List Sample → List Time → List Sample
no_effect_counterfactual samples interventions = samples

abbrev pub Counterfactual : Type 0
Counterfactual = List Sample → List Time → List Sample

-- A session, with the states as the identifier reported them where it has them.
pub record SessionLog : Type 0 where
  pub samples : List Sample
  pub detections : Option (List Sample)

-- `detections or samples`
abbrev pub or_samples : Option (List Sample) → List Sample → List Sample
or_samples none samples = samples
or_samples (some []) samples = samples
or_samples (some (d ∷ ds)) samples = d ∷ ds

abbrev pub firing_samples : SessionLog → List Sample
firing_samples s = or_samples s.detections s.samples

-- The settings that the search passes on unchanged.
pub record Setting : Type 0 where
  pub sessions : List SessionLog
  pub costs : Costs
  pub cooldown : ℕ
  pub counterfactual : Counterfactual

session_J : Setting → Thresholds → SessionLog → ℤ
unfolding compute_J
session_J g thresholds s =
    let ivs = simulate_interventions (firing_samples s) thresholds g.cooldown in
    (compute_J s.samples ivs g.costs (some (g.counterfactual s.samples ivs))).total

sum_J : Setting → Thresholds → List SessionLog → ℤ
sum_J g thresholds [] = pos 0
sum_J g thresholds (s ∷ ss) = session_J g thresholds s +ℤ sum_J g thresholds ss

unfoldable pub total_J : Setting → Thresholds → ℤ
unfolding sum_J session_J
total_J g thresholds = sum_J g thresholds g.sessions

abbrev pub Grid : Type 0
Grid = List (ProcessRegime × List ℕ)

-- `j < best_j`, where `best_j` starts at infinity.
abbrev pub is_below : ℤ → Option ℤ → Bool
is_below j none = true
is_below j (some best) = ltb_ℤ j best

-- The loop over the candidates of one regime, at `(best_tk, best_j)`.
unfoldable pub best_from : (ℕ → ℤ) → ℕ × Option ℤ → List ℕ → ℕ × Option ℤ
best_from cost best [] = best
best_from cost best (tk ∷ tks) =
    best_from cost (if is_below (cost tk) best.1 then (tk, some (cost tk)) else best) tks

-- The loop over the grid, at `current_thresholds`; `candidates[0]` of an empty list raises.
unfoldable pub search_from : Setting → Thresholds → Grid → Option (List (ProcessRegime × ℕ))
search_from g current [] = some []
search_from g current ((regime, []) ∷ rest) = none
search_from g current ((regime, first ∷ others) ∷ rest) =
    let cost : ℕ → ℤ = λ tk. total_J g (set_threshold current regime tk) in
    let best = (best_from cost (first, none) (first ∷ others)).0 in
    elim (search_from g (set_threshold current regime best) rest) [
      | none ↦ none
      | some result ↦ some ((regime, best) ∷ result)
    ]

-- `current_thresholds` before the search: the first candidates.
unfoldable pub first_candidates : Grid → Thresholds
first_candidates [] r = none
first_candidates ((regime, []) ∷ rest) r = first_candidates rest r
first_candidates ((regime, first ∷ _) ∷ rest) r =
    let later = first_candidates rest r in if regime_eq r regime then some first else later

unfoldable pub derive_T_k : Setting → Grid → Option (List (ProcessRegime × ℕ))
derive_T_k g grid = search_from g (first_candidates grid) grid
