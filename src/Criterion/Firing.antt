-- ===== src/Criterion/Firing.antt =====
-- The simulated policy of backend/analytics/thresholds.py beside the control law of
-- backend/analytics/runtime/control_law.py.
use onlinetlabs.Base.{
  ℕ, ◌≡◌, refl, ap, sym, ◌∙◌, Bool, true, false, not, ◌&&◌, List, [], ◌∷◌, Option, none, some, inl,
  inr, arith, is_some, filter, Bool-cases, Option-cases,
}
use onlinetlabs.Base.Int.{pos, ltb_ℤ}
use onlinetlabs.Regime.{Time, is_bad}
use onlinetlabs.ControlLaw.{
  Config, Action, closed_loop, should_intervene, in_cooldown, threshold_of,
}
use onlinetlabs.Criterion.{Sample}
use onlinetlabs.Criterion.Thresholds.{
  Thresholds, is_cooling, fires, simulate_from, simulate_interventions,
}

abbrev pub is_act : Action → Bool
is_act Action.intervene = true
is_act _ = false

-- Whether the live law acts on a sample, in the closed arm and without the randomizer.
abbrev pub acts : Config → Option Time → Sample → Bool
acts cfg last s =
    is_act (should_intervene s.regime s.dwell closed_loop last cfg s.ts none none).action

-- The times at which the live law acts on the samples of a log.
unfoldable pub live_from : Config → Option Time → List Sample → List Time
live_from cfg last [] = []
live_from cfg last (s ∷ ss) = elim (acts cfg last s) [
  | true ↦ s.ts ∷ live_from cfg (some s.ts) ss
  | false ↦ live_from cfg last ss
]

-- Whether the regime of a sample has a threshold.
abbrev pub is_regulated : Thresholds → Sample → Bool
is_regulated thresholds s = is_some (thresholds s.regime)

is_cooling-in_cooldown :
    (last : Option Time) (cfg : Config) (at : Time)
    → is_cooling last cfg.cooldown_period at ≡ in_cooldown last cfg at
is_cooling-in_cooldown none cfg at = refl
is_cooling-in_cooldown (some t) cfg at = refl

acts_lem :
    (cfg : Config) (last : Option Time) (s : Sample)
    → cfg.enabled ≡ true
    → acts cfg last s ≡ (
        is_bad s.regime
        && not (ltb_ℤ s.dwell (pos (threshold_of none cfg s.regime)))
        && not (in_cooldown last cfg s.ts))
unfolding should_intervene
acts_lem cfg last s h = rw h (ground arith)

fires-acts :
    (cfg : Config) (last : Option Time) (s : Sample)
    → cfg.enabled ≡ true
    → fires cfg.dwell_thresholds cfg.cooldown_period last s
      ≡ (is_regulated cfg.dwell_thresholds s && acts cfg last s)
fires-acts cfg last s h = elim (Option-cases (cfg.dwell_thresholds s.regime)) [
  | inl e ↦ rw e (ground arith)
  | inr e ↦ rw (acts_lem cfg last s h, ← is_cooling-in_cooldown last cfg s.ts, e.1) (ground arith)
]

module _ (th : Thresholds) (cooldown : ℕ) (last : Option Time) (s : Sample) (ss : List Sample) where
  pub simulate_fired :
      fires th cooldown last s ≡ true
      → simulate_from th cooldown last (s ∷ ss) ≡ s.ts ∷ simulate_from th cooldown (some s.ts) ss
  unfolding simulate_from
  simulate_fired h = ground arith

  pub simulate_passed :
      fires th cooldown last s ≡ false
      → simulate_from th cooldown last (s ∷ ss) ≡ simulate_from th cooldown last ss
  unfolding simulate_from
  simulate_passed h = ground arith

module _ (cfg : Config) (last : Option Time) (s : Sample) (ss : List Sample) where
  live_acted :
      acts cfg last s ≡ true → live_from cfg last (s ∷ ss) ≡ s.ts ∷ live_from cfg (some s.ts) ss
  unfolding live_from
  live_acted h = ground arith

  live_passed : acts cfg last s ≡ false → live_from cfg last (s ∷ ss) ≡ live_from cfg last ss
  unfolding live_from
  live_passed h = ground arith

simulate-live :
    (cfg : Config) (last : Option Time) (ss : List Sample)
    → cfg.enabled ≡ true
    → simulate_from cfg.dwell_thresholds cfg.cooldown_period last ss
      ≡ live_from cfg last (filter (is_regulated cfg.dwell_thresholds) ss)
unfolding simulate_from live_from
simulate-live cfg last [] h = refl
simulate-live cfg last (s ∷ ss) h = elim (Bool-cases (is_regulated cfg.dwell_thresholds s)) [
  | inr e ↦ rw e (
      simulate_passed cfg.dwell_thresholds cfg.cooldown_period last s ss
        (is_fired false e (ground arith))
      ∙ simulate-live cfg last ss h)
  | inl e ↦ rw e (elim (Bool-cases (acts cfg last s)) [
    | inl a ↦
        simulate_fired cfg.dwell_thresholds cfg.cooldown_period last s ss
          (is_fired true e (ground arith))
        ∙ ap (λ ts. s.ts ∷ ts) (simulate-live cfg (some s.ts) ss h)
        ∙ sym (live_acted cfg last s _ a)
    | inr a ↦
        simulate_passed cfg.dwell_thresholds cfg.cooldown_period last s ss
          (is_fired false e (ground arith))
        ∙ simulate-live cfg last ss h
        ∙ sym (live_passed cfg last s _ a)
  ])
]
  where
    is_fired :
        (b : Bool) {r : Bool}
        → is_regulated cfg.dwell_thresholds s ≡ r
        → (r && acts cfg last s) ≡ b
        → fires cfg.dwell_thresholds cfg.cooldown_period last s ≡ b
    is_fired b e q = fires-acts cfg last s h ∙ ap (λ r. r && acts cfg last s) e ∙ q

-- The simulated interventions of a log are those of the live control law, in the closed arm with
-- interventions enabled and without the randomizer, on the samples whose regime has a threshold.
pub simulate_interventions-live :
    (cfg : Config) (samples : List Sample)
    → cfg.enabled ≡ true
    → simulate_interventions samples cfg.dwell_thresholds cfg.cooldown_period
      ≡ live_from cfg none (filter (is_regulated cfg.dwell_thresholds) samples)
simulate_interventions-live cfg samples h = simulate-live cfg none samples h
