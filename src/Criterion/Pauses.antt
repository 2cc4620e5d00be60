-- ===== src/Criterion/Pauses.antt =====
-- The simulated policy of backend/analytics/thresholds.py: when it intervenes and when it does not.
use onlinetlabs.Base.{
  ℕ, ◌≤◌, ◌≡◌, sym, subst, Bool, true, false, not, ◌&&◌, ◌||◌, List, [], ◌∷◌, Option, none, some,
  inl, inr, arith, ◌==◌, leb, any, All, All-weaken, Bool-cases, false-ne-true,
}
use onlinetlabs.Regime.{Time}
use onlinetlabs.ControlLaw.Gates.{IsCool}
use onlinetlabs.Criterion.{Sample, is_bad_regime}
use onlinetlabs.Criterion.Thresholds.{
  Thresholds, is_due, is_cooling, fires, simulate_from, simulate_interventions,
}
use onlinetlabs.Criterion.Resolving.{IsAscending}
use onlinetlabs.Criterion.Firing.{simulate_fired, simulate_passed}

-- Consecutive interventions, and the first after the last earlier one, are a cooldown apart.
abbrev pub IsApart : ℕ → Option Time → List Time → Type 0
IsApart cooldown last [] = Unit
IsApart cooldown last (at ∷ rest) = IsCool last cooldown at × IsApart cooldown (some at) rest

abbrev pub is_ready : Thresholds → Sample → Bool
is_ready thresholds s = is_bad_regime s.regime && is_due thresholds s

-- Whether some sample of a log is ready at a time.
abbrev pub ready_at : Thresholds → List Sample → Time → Bool
ready_at thresholds samples at = any (λ s. is_ready thresholds s && s.ts == at) samples

-- Whether a sample is at the time of an intervention, or comes less than a cooldown after one.
abbrev pub is_covered : ℕ → List Time → Sample → Bool
is_covered cooldown ivs s =
    any (λ at. s.ts == at || (leb at s.ts && is_cooling (some at) cooldown s.ts)) ivs

-- The samples are in the order of their times, from the last intervention on.
abbrev IsAfter : Option Time → List Sample → Type 0
IsAfter last [] = Unit
IsAfter none (s ∷ ss) = IsAfter (some s.ts) ss
IsAfter (some at) (s ∷ ss) = (at ≤ s.ts) × IsAfter (some s.ts) ss

-- A time at or after the last intervention is in its place.
later :
    (last : Option Time) (s : Sample) (ss : List Sample) → IsAfter last (s ∷ ss) → IsAfter last ss
later none s [] h = tt
later none s (t ∷ ss) h = h.1
later (some at) s [] h = tt
later (some at) s (t ∷ ss) (first, (second, rest)) = (omega (arith, first, second), rest)

from_here :
    (last : Option Time) (s : Sample) (ss : List Sample)
    → IsAfter last (s ∷ ss)
    → IsAfter (some s.ts) ss
from_here none s ss h = h
from_here (some at) s ss h = h.1

IsAscending-IsAfter :
    (s : Sample) (ss : List Sample) → IsAscending (s ∷ ss) → IsAfter (some s.ts) ss
IsAscending-IsAfter s [] h = tt
IsAscending-IsAfter s (t ∷ ss) (first, rest) = (first, IsAscending-IsAfter t ss rest)

IsAscending-start : (ss : List Sample) → IsAscending ss → IsAfter none ss
IsAscending-start [] h = tt
IsAscending-start (s ∷ ss) h = IsAscending-IsAfter s ss h

-- is_cooling, by what its failure means
is_cooling-IsCool :
    (last : Option Time) (cooldown : ℕ) (at : Time)
    → is_cooling last cooldown at ≡ false
    → IsCool last cooldown at
is_cooling-IsCool none cooldown at h = tt
is_cooling-IsCool (some t) cooldown at h = ground arith

simulate-IsApart :
    (th : Thresholds) (cooldown : ℕ) (last : Option Time) (ss : List Sample)
    → IsApart cooldown last (simulate_from th cooldown last ss)
unfolding simulate_from
simulate-IsApart th cooldown last [] = tt
simulate-IsApart th cooldown last (s ∷ ss) = elim (Bool-cases (fires th cooldown last s)) [
  | inl e ↦ rw (simulate_fired th cooldown last s ss e) (
    is_cooling-IsCool last cooldown s.ts (ground arith),
    simulate-IsApart th cooldown (some s.ts) ss,
  )
  | inr e ↦ rw (simulate_passed th cooldown last s ss e) (simulate-IsApart th cooldown last ss)
]

simulate-ready :
    (th : Thresholds) (cooldown : ℕ) (last : Option Time) (ss : List Sample)
    → All (λ at. ready_at th ss at ≡ true) (simulate_from th cooldown last ss)
unfolding simulate_from
simulate-ready th cooldown last [] = tt
simulate-ready th cooldown last (s ∷ ss) = elim (Bool-cases (fires th cooldown last s)) [
  | inl e ↦
      rw (simulate_fired th cooldown last s ss e)
        (ground arith, All-weaken _ _ still _ (simulate-ready th cooldown (some s.ts) ss))
  | inr e ↦
      rw (simulate_passed th cooldown last s ss e)
        (All-weaken _ _ still _ (simulate-ready th cooldown last ss))
]
  where
    still : (at : Time) → ready_at th ss at ≡ true → ready_at th (s ∷ ss) at ≡ true
    still at h = ground arith

-- The last intervention, as one more of a list.
abbrev with_last : Option Time → List Time → List Time
with_last none ivs = ivs
with_last (some at) ivs = at ∷ ivs

-- One earlier intervention more covers no less.
covered-with_last :
    (cooldown : ℕ) (last : Option Time) (ivs : List Time) (s : Sample)
    → is_covered cooldown ivs s ≡ true
    → is_covered cooldown (with_last last ivs) s ≡ true
covered-with_last cooldown none ivs s h = h
covered-with_last cooldown (some at) ivs s h = ground arith

covered_cooling :
    (cooldown : ℕ) (last : Option Time) (ivs : List Time) (s : Sample) (ss : List Sample)
    → IsAfter last (s ∷ ss)
    → is_cooling last cooldown s.ts ≡ true
    → is_covered cooldown (with_last last ivs) s ≡ true
covered_cooling cooldown none ivs s ss after h = absurd (false-ne-true h)
covered_cooling cooldown (some at) ivs s ss (after, _) h = ground (arith, after)

abbrev pub is_accounted : Thresholds → ℕ → List Time → Sample → Bool
is_accounted th cooldown ivs s = not (is_ready th s) || is_covered cooldown ivs s

simulate-covers :
    (th : Thresholds) (cooldown : ℕ) (last : Option Time) (ss : List Sample)
    → IsAfter last ss
    → All
        (λ s.
          is_accounted th cooldown (with_last last (simulate_from th cooldown last ss)) s ≡ true)
        ss
unfolding simulate_from
simulate-covers th cooldown last [] after = tt
simulate-covers th cooldown last (s ∷ ss) after = elim (Bool-cases (fires th cooldown last s)) [
  | inl e ↦
      subst (λ ivs. Accounts ivs) (sym (simulate_fired th cooldown last s ss e))
        (
          ground (
            arith,
            covered-with_last cooldown last (s.ts ∷ simulate_from th cooldown (some s.ts) ss) s,
          ),
          All-weaken _ _ still _
              (simulate-covers th cooldown (some s.ts) ss (from_here last s ss after)),
        )
  | inr e ↦
      subst (λ ivs. Accounts ivs) (sym (simulate_passed th cooldown last s ss e))
        (
          ground
              (arith, covered_cooling cooldown last (simulate_from th cooldown last ss) s ss after),
          simulate-covers th cooldown last ss (later last s ss after),
        )
]
  where
    Accounts : List Time → Type 0
    Accounts ivs = All (λ x. is_accounted th cooldown (with_last last ivs) x ≡ true) (s ∷ ss)

    still :
        (x : Sample)
        → is_accounted th cooldown (s.ts ∷ simulate_from th cooldown (some s.ts) ss) x ≡ true
        → is_accounted th cooldown
            (with_last last (s.ts ∷ simulate_from th cooldown (some s.ts) ss))
            x
          ≡ true
    still x h =
        ground (
          arith,
          covered-with_last cooldown last (s.ts ∷ simulate_from th cooldown (some s.ts) ss) x,
        )

-- Over a log in the order of its times, the simulated interventions are at least a cooldown apart; each
-- is at the time of a sample that is in a bad regime with a threshold and whose dwell has reached it;
-- and every such sample is at the time of an intervention, or comes after one and less than a cooldown
-- after it.
pub simulate_interventions_lem :
    (samples : List Sample) (th : Thresholds) (cooldown : ℕ)
    → IsAscending samples
    → let ivs = simulate_interventions samples th cooldown in
      IsApart cooldown none ivs
      × All (λ at. ready_at th samples at ≡ true) ivs
      × All (λ s. is_accounted th cooldown ivs s ≡ true) samples
simulate_interventions_lem samples th cooldown ascending = (
  simulate-IsApart th cooldown none samples,
  simulate-ready th cooldown none samples,
  simulate-covers th cooldown none samples (IsAscending-start samples ascending),
)
