-- ===== src/Criterion.antt =====
-- backend/analytics/criterion.py: the control criterion J of a session's state log. A time is a
-- number of microseconds and a cost a number of the shared unit; sums are exact.
pub mod Thresholds
pub mod Firing
pub mod Pauses
pub mod Search
pub mod Resolving
pub mod FalseAlarms
use onlinetlabs.Base.{
  ℕ, ◌+◌, ◌-◌, ◌*◌, ◌/◌, ◌%◌, Bool, true, false, not, ◌&&◌, List, [], ◌∷◌, map, Option, none, some,
  ltb, leb, ◌==◌, if◌then◌else◌, or_else, length, filter, any, drop,
}
use onlinetlabs.Base.Int.{ℤ, pos, sub_ℕ, ltb_ℤ, leb_ℤ, ◌+ℤ◌, scale}
use onlinetlabs.Base.Sorting.{sorted}
use onlinetlabs.Regime.{ProcessRegime, Time, is_bad}

pub record Costs : Type 0 where
  pub c_stuck : ℕ
  pub c_intervention : ℕ
  pub c_false : ℕ

-- The upper-case `J` of the source is `total`.
pub record JResult : Type 0 where
  pub total : ℤ
  pub bad_duration : ℤ
  pub n_interventions : ℕ
  pub n_false : ℕ

-- One entry of the state log.
pub record Sample : Type 0 where
  pub ts : Time
  pub regime : ProcessRegime
  pub dwell : ℤ

-- `is_bad_regime`: the strings of `BAD_REGIMES` are the values of the bad regimes.
abbrev pub is_bad_regime : ProcessRegime → Bool
is_bad_regime regime = is_bad regime

-- The regime of the last sample at or before a time, where the samples ascend: the one at
-- `bisect_right(ts, ivt) - 1`.
unfoldable pub regime_at : List Sample → Time → Option ProcessRegime
regime_at [] at = none
regime_at (s ∷ ss) at = elim (leb s.ts at) [
  | true ↦ some (or_else (regime_at ss at) s.regime)
  | false ↦ none
]

abbrev pub is_outside : List Sample → Time → Bool
is_outside samples at = elim (regime_at samples at) [
  | none ↦ false
  | some regime ↦ not (is_bad_regime regime)
]

unfoldable pub interventions_outside_bad_regime : List Sample → List Time → ℕ
interventions_outside_bad_regime samples intervention_ts =
    length (filter (is_outside samples) intervention_ts)

pub record Spell : Type 0 where
  pub start : Time
  pub stop : Time
  pub recovered : Bool

-- Both `while` loops: `open` is the start of the spell that the inner loop is in. The last sample
-- starts no spell, and ends one in whatever regime it is.
unfoldable pub spells_from : Option Time → List Sample → List Spell
spells_from start [] = []
spells_from none (s ∷ []) = []
spells_from none (s ∷ t ∷ rest) = elim (is_bad_regime s.regime) [
  | true ↦ spells_from (some s.ts) (t ∷ rest)
  | false ↦ spells_from none (t ∷ rest)
]
spells_from (some start) (s ∷ []) =
    record { start = start; stop = s.ts; recovered = not (is_bad_regime s.regime) } ∷ []
spells_from (some start) (s ∷ t ∷ rest) = elim (is_bad_regime s.regime) [
  | true ↦ spells_from (some start) (t ∷ rest)
  | false ↦ record { start = start; stop = s.ts; recovered = true } ∷ spells_from none (t ∷ rest)
]

abbrev pub had_iv : List Time → Spell → Bool
had_iv intervention_ts sp = any (λ at. leb sp.start at && ltb at sp.stop) intervention_ts

abbrev pub duration : Spell → ℤ
duration sp = sub_ℕ sp.stop sp.start

get_or : {A : Type 0} → List A → ℕ → A → A
get_or xs n d = elim (drop n xs) [ [] ↦ d | x ∷ _ ↦ x ]

-- Twice `statistics.median` of a list that is not empty.
unfoldable twice_median : List ℤ → ℤ
unfolding get_or
twice_median xs =
    let upper = get_or (sorted leb_ℤ xs) (length xs / 2) (pos 0) in
    let lower = get_or (sorted leb_ℤ xs) ((length xs - 1) / 2) (pos 0) in lower +ℤ upper

unfoldable pub clean_durations : List Spell → List Time → List ℤ
clean_durations spells intervention_ts =
    map duration (filter (λ sp. not (had_iv intervention_ts sp) && sp.recovered) spells)

-- A spell with an intervention that ended faster than the median.
abbrev pub is_hasty : List Time → ℤ → Spell → Bool
is_hasty intervention_ts twice sp =
    had_iv intervention_ts sp && sp.recovered && ltb_ℤ (scale 2 (duration sp)) twice

unfoldable pub hasty : List Spell → List Time → List ℤ → ℕ
unfolding twice_median
hasty spells intervention_ts [] = 0
hasty spells intervention_ts (d ∷ ds) =
    length (filter (is_hasty intervention_ts (twice_median (d ∷ ds))) spells)

-- `_count_false`
unfoldable pub count_false : List Sample → List Time → ℕ
count_false samples [] = 0
count_false samples (iv ∷ ivs) =
    let intervention_ts = sorted leb (iv ∷ ivs) in
    let spells = spells_from none samples in
    interventions_outside_bad_regime samples intervention_ts
    + hasty spells intervention_ts (clean_durations spells intervention_ts)

-- The sum of the gaps whose left sample is in a bad regime.
unfoldable pub bad_duration_of : List Sample → ℤ
bad_duration_of [] = pos 0
bad_duration_of (s ∷ []) = pos 0
bad_duration_of (s ∷ t ∷ rest) =
    let later = bad_duration_of (t ∷ rest) in
    if is_bad_regime s.regime then sub_ℕ t.ts s.ts +ℤ later else later

unfoldable pub compute_J : List Sample → List Time → Costs → Option (List Sample) → JResult
compute_J samples interventions costs bad_duration_samples =
    let bad = bad_duration_of (or_else bad_duration_samples samples) in
    let n = length interventions in
    let n_false = count_false samples interventions in
    record {
      total =
          scale costs.c_stuck bad
          +ℤ pos (costs.c_intervention * n)
          +ℤ pos (costs.c_false * n_false);
      bad_duration = bad;
      n_interventions = n;
      n_false = n_false;
    }
