-- ===== src/Identifier/Rules.antt =====
-- What the rules of backend/agents/identifier/agent.py conclude.
use onlinetlabs.Base.{
  ◌≤◌, ◌<◌, ◌≡◌, inl, inr, refl, true, false, Option, none, some, List, [], ◌∷◌, ◌++◌, arith, All,
  any, is_some, ap, ◌∙◌, Bool-cases,
}
use onlinetlabs.Regime.{StruggleType, analysis_to_regime, is_bad}
use onlinetlabs.Identifier.{
  SessionFeatures, Thresholds, StruggleRule, struggle_rules, Detection, detect_from,
  detect_struggle, identify_regime, no_intervention,
}

-- The detection reports a rule that fires, where none of the rules before it does; or no rule
-- fires and there is no struggle.
pub data FirstMatch (f : SessionFeatures) (c : Thresholds) (d : Detection)
    (rules : List StruggleRule) : Type 0 where
  matched :
      (before : List StruggleRule) (r : StruggleRule) (after : List StruggleRule)
      → rules ≡ before ++ r ∷ after
      → All (λ q. q.predicate f c ≡ false) before
      → r.predicate f c ≡ true
      → (d.struggle_type ≡ some r.stype) × (d.suggested_intervention ≡ r.intervention)
      → d.confidence ≡ r.confidence f c
      → FirstMatch f c d rules
  unmatched :
      All (λ q. q.predicate f c ≡ false) rules
      → (d.struggle_type ≡ none) × (d.suggested_intervention ≡ no_intervention)
      → FirstMatch f c d rules

FirstMatch-cons :
    (f : SessionFeatures) (c : Thresholds) (d : Detection) (q : StruggleRule)
    (rules : List StruggleRule)
    → q.predicate f c ≡ false
    → FirstMatch f c d rules
    → FirstMatch f c d (q ∷ rules)
FirstMatch-cons f c d q rules h (matched before r after e clear fires same conf) =
    matched (q ∷ before) r after (ap (◌∷◌ q) e) (h, clear) fires same conf
FirstMatch-cons f c d q rules h (unmatched clear same) = unmatched (h, clear) same

detect_from-FirstMatch :
    (rules : List StruggleRule) (f : SessionFeatures) (c : Thresholds)
    → FirstMatch f c (detect_from rules f c) rules
unfolding detect_from
detect_from-FirstMatch [] f c = unmatched tt (refl, refl)
detect_from-FirstMatch (q ∷ rules) f c = elim (Bool-cases (q.predicate f c)) [
  | inl fires ↦ rw fires (matched [] q rules refl tt fires (refl, refl) refl)
  | inr idle ↦
      rw idle (
        FirstMatch-cons f c (detect_from rules f c) q rules idle (detect_from-FirstMatch rules f c))
]

detect_from-any :
    (rules : List StruggleRule) (f : SessionFeatures) (c : Thresholds)
    → is_some (detect_from rules f c).struggle_type ≡ any (λ q. q.predicate f c) rules
unfolding detect_from
detect_from-any [] f c = refl
detect_from-any (q ∷ rules) f c = elim (Bool-cases (q.predicate f c)) [
  | inl fires ↦ rw fires refl
  | inr idle ↦ rw idle (detect_from-any rules f c)
]

is_bad-is_some : (t : Option StruggleType) → is_bad (analysis_to_regime (is_some t) t) ≡ is_some t
unfolding analysis_to_regime
is_bad-is_some t = ground arith

detect_struggle-FirstMatch :
    (f : SessionFeatures) (c : Thresholds) → FirstMatch f c (detect_struggle f c) struggle_rules
unfolding detect_struggle
detect_struggle-FirstMatch f c = detect_from-FirstMatch struggle_rules f c

identify_regime-is_bad :
    (f : SessionFeatures) (c : Thresholds)
    → let a = identify_regime f c in
      is_bad (analysis_to_regime a.struggle_detected a.struggle_type)
      ≡ any (λ q. q.predicate f c) struggle_rules
unfolding identify_regime
identify_regime-is_bad f c =
    is_bad-is_some (detect_struggle f c).struggle_type
    ∙ unfold detect_struggle in detect_from-any struggle_rules f c

identify_regime-confidence :
    (f : SessionFeatures) (c : Thresholds)
    → let a = identify_regime f c in (a.confidence.num ≤ a.confidence.den) × (0 < a.confidence.den)
unfolding identify_regime
identify_regime-confidence f c = ground arith

-- The detection is that of the first rule of the table that fires, or no struggle where none does;
-- the regime after an analysis is bad exactly when at least one rule fires; and the confidence is a
-- fraction between 0 and 1.
identify_regime_lem :
    (f : SessionFeatures) (c : Thresholds)
    → let a = identify_regime f c in
      FirstMatch f c (detect_struggle f c) struggle_rules
      × (is_bad (analysis_to_regime a.struggle_detected a.struggle_type)
          ≡ any (λ q. q.predicate f c) struggle_rules)
      × (a.confidence.num ≤ a.confidence.den)
      × (0 < a.confidence.den)
identify_regime_lem f c = (
  detect_struggle-FirstMatch f c,
  identify_regime-is_bad f c,
  (identify_regime-confidence f c).0,
  (identify_regime-confidence f c).1,
)
