-- ===== src/ControlLaw/Gates.antt =====
-- The gates of backend/analytics/runtime/control_law.py, as conditions on the inputs.
use onlinetlabs.Base.{ℕ, ◌+◌, ◌≤◌, ◌≡◌, refl, ◌↔◌, ◌⊎◌, true, false, Option, none, some, arith}
use onlinetlabs.Base.Int.{ℤ, pos, ltb_ℤ, pos_part, neg_part}
use onlinetlabs.Regime.{ProcessRegime, Time, is_bad}
use onlinetlabs.ControlLaw.{
  ControlArm, open_loop, closed_loop, Config, should_intervene, intervene, withhold, skip,
  threshold_of, in_cooldown, holds,
}

-- The state is bad for at least as long as the threshold says.
abbrev pub IsDue : ProcessRegime → ℤ → ℕ → Type 0
IsDue regime dwell threshold =
    (is_bad regime ≡ true) × (threshold + neg_part dwell ≤ pos_part dwell)

-- At least the cooldown has passed since the last act, if there is one.
abbrev pub IsCool : Option Time → ℕ → Time → Type 0
IsCool none cooldown now = Unit
IsCool (some last) cooldown now = last + cooldown ≤ now

-- The randomizer does not hold the intervention back.
abbrev pub IsReleased : Option ℕ → ℕ → Type 0
IsReleased none p = Unit
IsReleased (some draw) p = p ≤ draw

ltb_ℤ_iff :
    (dwell : ℤ) (n : ℕ) → (ltb_ℤ dwell (pos n) ≡ false) ↔ (n + neg_part dwell ≤ pos_part dwell)
ltb_ℤ_iff dwell n = ground arith

pub in_cooldown_iff :
    (last : Option Time) (cfg : Config) (now : Time)
    → (in_cooldown last cfg now ≡ false) ↔ IsCool last cfg.cooldown_period now
in_cooldown_iff none cfg now = (λ h. tt, λ h. refl)
in_cooldown_iff (some last) cfg now = ground arith

holds_iff :
    (draw : Option ℕ) (cfg : Config)
    → (holds draw cfg ≡ false) ↔ IsReleased draw cfg.mrt_hold_probability
holds_iff none cfg = (λ h. tt, λ h. refl)
holds_iff (some draw) cfg = ground arith

module _ (regime : ProcessRegime) (dwell : ℤ) (arm : ControlArm) (last : Option Time) (cfg : Config)
    (now : Time) (mrt draw : Option ℕ) where
  -- The gates that come before the arm: a bad regime for long enough, interventions enabled, and
  -- the cooldown over.
  abbrev pub IsDecisionPoint : Type 0
  IsDecisionPoint =
      IsDue regime dwell (threshold_of mrt cfg regime)
      × (cfg.enabled ≡ true)
      × IsCool last cfg.cooldown_period now

  -- The law intervenes exactly at a decision point of a closed-loop session that the randomizer
  -- releases, it withholds exactly at a decision point of an open-arm session or one that the
  -- randomizer holds, and it skips exactly where there is no decision point.
  pub should_intervene_lem :
      let a = (should_intervene regime dwell arm last cfg now mrt draw).action in
      ((a ≡ intervene)
        ↔ (IsDecisionPoint × (arm ≡ closed_loop) × IsReleased draw cfg.mrt_hold_probability))
      × ((a ≡ withhold)
          ↔ (IsDecisionPoint × ((arm ≡ open_loop) ⊎ (¬ IsReleased draw cfg.mrt_hold_probability))))
      × ((a ≡ skip) ↔ (¬ IsDecisionPoint))
  unfolding should_intervene
  should_intervene_lem = ground (
    arith,
    ltb_ℤ_iff dwell (threshold_of mrt cfg regime),
    in_cooldown_iff last cfg now,
    holds_iff draw cfg,
  )
