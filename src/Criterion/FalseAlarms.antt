-- ===== src/Criterion/FalseAlarms.antt =====
-- The false interventions that backend/analytics/criterion.py counts, and the spells of a log.
use onlinetlabs.Base.{
  ℕ, ◌+◌, ◌≤◌, ◌<◌, ◌≡◌, refl, Bool, true, false, not, ◌&&◌, List, [], ◌∷◌, Option, none, some, inl,
  inr, arith, ltb, leb, if◌then◌else◌, length, filter, Bool-cases,
}
use onlinetlabs.Base.Int.{ℤ}
use onlinetlabs.Base.Sorting.{sorted, length-sorted}
use onlinetlabs.Regime.{Time}
use onlinetlabs.Criterion.{
  Sample, Spell, is_bad_regime, regime_at, is_outside, spells_from, had_iv, is_hasty, hasty,
  interventions_outside_bad_regime, clean_durations, count_false, compute_J, Costs,
}
use onlinetlabs.Criterion.Resolving.{IsAscending}

abbrev holds_time : Time → Spell → Bool
holds_time at sp = leb sp.start at && ltb at sp.stop

abbrev n_outside : List Sample → Time → ℕ
n_outside samples at = if is_outside samples at then 1 else 0

-- How many of the spells of a log hold a time, with a spell open or not before it.
unfoldable n_holding : Option Time → List Sample → Time → ℕ
n_holding open_since samples at = length (filter (holds_time at) (spells_from open_since samples))

module _ (at : Time) (s t : Sample) (rest : List Sample) where
  outside_here : s.ts ≤ at → at < t.ts → is_outside (s ∷ t ∷ rest) at ≡ not (is_bad_regime s.regime)
  unfolding regime_at
  outside_here h k = ground arith

  outside_later : s.ts ≤ at → t.ts ≤ at → is_outside (s ∷ t ∷ rest) at ≡ is_outside (t ∷ rest) at
  unfolding regime_at
  outside_later h k = ground arith

  -- The spells after a sample that is not the last.
  holding_none :
      n_holding none (s ∷ t ∷ rest) at
      ≡ n_holding (if is_bad_regime s.regime then some s.ts else none) (t ∷ rest) at
  unfolding n_holding spells_from
  holding_none = ground arith

  holding_bad :
      (start : Time)
      → is_bad_regime s.regime ≡ true
      → n_holding (some start) (s ∷ t ∷ rest) at ≡ n_holding (some start) (t ∷ rest) at
  unfolding n_holding spells_from
  holding_bad start h = ground arith

  holding_good :
      (start : Time)
      → is_bad_regime s.regime ≡ false
      → n_holding (some start) (s ∷ t ∷ rest) at
        ≡ (if leb start at && ltb at s.ts then 1 else 0) + n_holding none (t ∷ rest) at
  unfolding n_holding spells_from
  holding_good start h = ground arith

-- Before the first sample no spell holds a time but the one that is open, if it has begun.
n_holding_early :
    (at : Time) (s : Sample) (ss : List Sample)
    → IsAscending (s ∷ ss)
    → at < s.ts
    → (n_holding none (s ∷ ss) at ≡ 0)
      × ((start : Time) → (n_holding (some start) (s ∷ ss) at ≤ (if leb start at then 1 else 0)))
unfolding n_holding spells_from
n_holding_early at s [] h k = (refl, λ start. ground arith)
n_holding_early at s (t ∷ rest) h k =
    let (closed, opened) = n_holding_early at t rest h.1 (omega arith) in
    elim (Bool-cases (is_bad_regime s.regime)) [
      | inl e ↦ (
        ground (arith, holding_none at s t rest, opened s.ts),
        λ start. ground (arith, holding_bad at s t rest start e, opened start),
      )
      | inr e ↦ (
        ground (arith, holding_none at s t rest),
        λ start. ground (arith, holding_good at s t rest start e),
      )
    ]

-- From the first sample on, a time is outside or in one spell at most, never both.
n_holding_late :
    (at : Time) (s : Sample) (ss : List Sample) (open_since : Option Time)
    → IsAscending (s ∷ ss)
    → s.ts ≤ at
    → n_outside (s ∷ ss) at + n_holding open_since (s ∷ ss) at ≤ 1
unfolding n_holding spells_from
n_holding_late at s [] none h k = ground arith
n_holding_late at s [] (some start) h k = ground arith
n_holding_late at s (t ∷ rest) none h k = elim (Bool-cases (ltb at t.ts)) [
  | inl e ↦
      let (closed, opened) = n_holding_early at t rest h.1 (ground arith) in
      ground (arith, outside_here at s t rest k, holding_none at s t rest, opened s.ts)
  | inr e ↦
      rw (outside_later at s t rest k (ground arith), holding_none at s t rest)
        (n_holding_late at t rest (if is_bad_regime s.regime then some s.ts else none) h.1
          (ground arith))
]
n_holding_late at s (t ∷ rest) (some start) h k = elim (Bool-cases (ltb at t.ts)) [
  | inl e ↦
      let (closed, opened) = n_holding_early at t rest h.1 (ground arith) in
      ground (
        arith,
        outside_here at s t rest k,
        holding_bad at s t rest start,
        holding_good at s t rest start,
        opened start,
      )
  | inr e ↦
      let closed = n_holding_late at t rest none h.1 (ground arith) in
      let opened = n_holding_late at t rest (some start) h.1 (ground arith) in
      ground (
        arith,
        outside_later at s t rest k,
        holding_bad at s t rest start,
        holding_good at s t rest start,
      )
]

outside_early :
    (at : Time) (s : Sample) (ss : List Sample) → at < s.ts → is_outside (s ∷ ss) at ≡ false
unfolding regime_at
outside_early at s ss h = ground arith

-- A time is outside or in one spell at most, never both.
n_outside-n_holding :
    (at : Time) (samples : List Sample)
    → IsAscending samples
    → n_outside samples at + n_holding none samples at ≤ 1
unfolding n_holding regime_at spells_from
n_outside-n_holding at [] h = omega arith
n_outside-n_holding at (s ∷ ss) h = elim (Bool-cases (ltb at s.ts)) [
  | inl e ↦ ground (arith, outside_early at s ss, n_holding_early at s ss h)
  | inr e ↦ n_holding_late at s ss none h (ground arith)
]

-- A spell with one of several interventions has the first, or one of the others.
had_iv-cons :
    (at : Time) (ivs : List Time) (sps : List Spell)
    → length (filter (had_iv (at ∷ ivs)) sps)
      ≤ length (filter (holds_time at) sps) + length (filter (had_iv ivs) sps)
had_iv-cons at ivs [] = omega arith
had_iv-cons at ivs (sp ∷ sps) = ground (arith, had_iv-cons at ivs sps)

length-filter-false : (sps : List Spell) → length (filter (had_iv []) sps) ≡ 0
length-filter-false [] = refl
length-filter-false (sp ∷ sps) = length-filter-false sps

outside-had_iv :
    (samples : List Sample) (ivs : List Time)
    → IsAscending samples
    → length (filter (is_outside samples) ivs)
        + length (filter (had_iv ivs) (spells_from none samples))
      ≤ length ivs
unfolding n_holding
outside-had_iv samples [] h = omega (arith, length-filter-false (spells_from none samples))
outside-had_iv samples (at ∷ ivs) h = ground (
  arith,
  outside-had_iv samples ivs h,
  had_iv-cons at ivs (spells_from none samples),
  n_outside-n_holding at samples h,
)

hasty-had_iv :
    (ivs : List Time) (twice : ℤ) (sps : List Spell)
    → length (filter (is_hasty ivs twice) sps) ≤ length (filter (had_iv ivs) sps)
hasty-had_iv ivs twice [] = omega arith
hasty-had_iv ivs twice (sp ∷ sps) = ground (arith, hasty-had_iv ivs twice sps)

hasty_le :
    (sps : List Spell) (ivs : List Time) (durations : List ℤ)
    → hasty sps ivs durations ≤ length (filter (had_iv ivs) sps)
unfolding hasty
hasty_le sps ivs [] = omega arith
hasty_le sps ivs (d ∷ ds) = hasty-had_iv ivs _ sps

count_false-le :
    (samples : List Sample) (ivs : List Time)
    → IsAscending samples
    → count_false samples ivs ≤ length ivs
unfolding count_false interventions_outside_bad_regime
count_false-le samples [] h = omega arith
count_false-le samples (iv ∷ ivs) h =
    let all_ivs = sorted leb (iv ∷ ivs) in
    let spells = spells_from none samples in
    omega (
      arith,
      outside-had_iv samples all_ivs h,
      hasty_le spells all_ivs (clean_durations spells all_ivs),
      length-sorted leb (iv ∷ ivs),
    )

-- On a log whose samples ascend, the criterion counts every intervention, and no more false
-- interventions than interventions.
pub compute_J-n_false :
    (samples : List Sample) (ivs : List Time) (costs : Costs) (bad : Option (List Sample))
    → IsAscending samples
    → let j = compute_J samples ivs costs bad in
      (j.n_interventions ≡ length ivs) × (j.n_false ≤ j.n_interventions)
unfolding compute_J
compute_J-n_false samples ivs costs bad h = (refl, count_false-le samples ivs h)
