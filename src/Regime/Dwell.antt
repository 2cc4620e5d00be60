-- ===== src/Regime/Dwell.antt =====
-- `DwellTracker` of backend/analytics/runtime/process_state.py against the whole history.
use onlinetlabs.Base.{
  ◌≡◌, refl, true, some, List, [], ◌∷◌, arith, if◌then◌else◌, Bool-cases, sym, ap, ◌∙◌, inl, inr,
}
use onlinetlabs.Base.Int.{sub_ℕ}
use onlinetlabs.Regime.{
  ProcessRegime, Time, DwellTracker, no_dwell, observe, regime_eq, productive, observe_from,
}

pub regime_eq_refl : (r : ProcessRegime) → regime_eq r r ≡ true
regime_eq_refl productive = refl
regime_eq_refl _ = refl

pub regime_eq→eq : (r s : ProcessRegime) → regime_eq r s ≡ true → r ≡ s
regime_eq→eq r s h = ground arith

-- The observations, the newest first.
abbrev pub History : Type 0
History = List (ProcessRegime × Time)

-- The tracker after a history that starts from no observation.
unfoldable pub track : History → DwellTracker
track [] = no_dwell
track ((r, t) ∷ older) = (observe (track older) r t).0

-- The time at which the run of one regime at the end of a history began: the specification.
abbrev pub run_start : ProcessRegime → Time → History → Time
run_start r t [] = t
run_start r t ((s, u) ∷ older) =
    let earlier = run_start r u older in if regime_eq r s then earlier else t

-- One observation, from a tracker that is in a regime since some time.
observe_from-some :
    (r : ProcessRegime) (t : Time) (s : ProcessRegime) (since : Time)
    → (observe_from (some (s, since)) r t).0.current ≡ some (r, if regime_eq r s then since else t)
unfolding observe_from
observe_from-some r t s since = ground (arith, regime_eq→eq r s)

observe_from-dwell :
    (r : ProcessRegime) (t : Time) (s : ProcessRegime) (since : Time)
    → (observe_from (some (s, since)) r t).1 ≡ sub_ℕ t (if regime_eq r s then since else t)
unfolding observe_from
observe_from-dwell r t s since = ground arith

run_start-cons :
    (r : ProcessRegime) (t : Time) (s : ProcessRegime) (u : Time) (older : History)
    → (if regime_eq r s then run_start s u older else t) ≡ run_start r t ((s, u) ∷ older)
run_start-cons r t s u older = elim (Bool-cases (regime_eq r s)) [
  | inl same ↦ rw same (ap (λ q. run_start q u older) (sym (regime_eq→eq r s same)))
  | inr other ↦ rw other refl
]

track-current :
    (r : ProcessRegime) (t : Time) (older : History)
    → (track ((r, t) ∷ older)).current ≡ some (r, run_start r t older)
unfolding track observe
track-current r t [] = unfold observe_from in refl
track-current r t ((s, u) ∷ older) =
    ap (λ cur. (observe_from cur r t).0.current) (track-current s u older)
    ∙ observe_from-some r t s (run_start s u older)
    ∙ ap (λ w. some (r, w)) (run_start-cons r t s u older)

-- Over any history of observations, the dwell time that the tracker returns is the time since the
-- first observation of the unbroken run of the current regime.
pub observe-run_start :
    (r : ProcessRegime) (t : Time) (older : History)
    → (observe (track older) r t).1 ≡ sub_ℕ t (run_start r t older)
unfolding track observe
observe-run_start r t [] = unfold observe_from in ground arith
observe-run_start r t ((s, u) ∷ older) =
    ap (λ cur. (observe_from cur r t).1) (track-current s u older)
    ∙ observe_from-dwell r t s (run_start s u older)
    ∙ ap (sub_ℕ t) (run_start-cons r t s u older)
