-- ===== src/Criterion/Resolving.antt =====
-- The two counterfactuals of backend/analytics/thresholds.py and the bad time they leave.
use onlinetlabs.Base.{
  ◌≤◌, ◌≡◌, refl, Bool, true, false, not, ◌&&◌, List, [], ◌∷◌, map, arith, leb, if◌then◌else◌, any,
  false-ne-true,
}
use onlinetlabs.Base.Int.{ℤ, pos, sub_ℕ, leb_ℤ, ◌+ℤ◌}
use onlinetlabs.Base.Sorting.{any-sorted}
use onlinetlabs.Regime.{Time}
use onlinetlabs.Criterion.{Sample, is_bad_regime, bad_duration_of}
use onlinetlabs.Criterion.Thresholds.{resolve, truncate_at_interventions}

-- The samples stand in the order of their times.
abbrev pub IsAscending : List Sample → Type 0
IsAscending [] = Unit
IsAscending (s ∷ []) = Unit
IsAscending (s ∷ t ∷ rest) = (s.ts ≤ t.ts) × IsAscending (t ∷ rest)

-- The sum of the gaps whose left sample passes a test.
unfoldable pub spent : (Sample → Bool) → List Sample → ℤ
spent p [] = pos 0
spent p (s ∷ []) = pos 0
spent p (s ∷ t ∷ rest) =
    let later = spent p (t ∷ rest) in if p s then sub_ℕ t.ts s.ts +ℤ later else later

-- A bad sample with no intervention at or before it.
abbrev pub is_unresolved : List Time → Sample → Bool
is_unresolved ivs s = is_bad_regime s.regime && not (any (λ at. leb at s.ts) ivs)

module _ (iv : Time) (ivs : List Time) where
  ts-resolve : (s : Sample) → (resolve (iv ∷ ivs) s).ts ≡ s.ts
  ts-resolve s = ground arith

  bad-resolve :
      (s : Sample) → is_bad_regime (resolve (iv ∷ ivs) s).regime ≡ is_unresolved (iv ∷ ivs) s
  bad-resolve s = ground (arith, any-sorted (λ at. leb at s.ts) leb (iv ∷ ivs))

  bad_duration-resolve :
      (samples : List Sample)
      → bad_duration_of (map (resolve (iv ∷ ivs)) samples)
        ≡ spent (is_unresolved (iv ∷ ivs)) samples
  unfolding bad_duration_of spent
  bad_duration-resolve [] = refl
  bad_duration-resolve (s ∷ []) = refl
  bad_duration-resolve (s ∷ t ∷ rest) =
      rw (bad-resolve s, ts-resolve s, ts-resolve t, bad_duration-resolve (t ∷ rest)) refl

-- One gap more on both sides, where the first test is the narrower one.
gap-le :
    (x y : Time) (a b : ℤ) (p q : Bool)
    → x ≤ y
    → (p ≡ true → q ≡ true)
    → (leb_ℤ a b ≡ true) × (leb_ℤ (pos 0) a ≡ true)
    → (leb_ℤ (if p then sub_ℕ y x +ℤ a else a) (if q then sub_ℕ y x +ℤ b else b) ≡ true)
      × (leb_ℤ (pos 0) (if p then sub_ℕ y x +ℤ a else a) ≡ true)
gap-le x y a b true true l h (c, d) = (ground arith, ground arith)
gap-le x y a b true false l h (c, d) = absurd (false-ne-true (h refl))
gap-le x y a b false true l h (c, d) = (ground arith, ground arith)
gap-le x y a b false false l h (c, d) = (c, d)

spent-le :
    (p q : Sample → Bool)
    → ((s : Sample) → p s ≡ true → q s ≡ true)
    → (samples : List Sample) → IsAscending samples
    → (leb_ℤ (spent p samples) (spent q samples) ≡ true) × (leb_ℤ (pos 0) (spent p samples) ≡ true)
unfolding spent
spent-le p q h [] a = (refl, refl)
spent-le p q h (s ∷ []) a = (refl, refl)
spent-le p q h (s ∷ t ∷ rest) a =
    gap-le s.ts t.ts _ _ (p s) (q s) a.0 (h s) (spent-le p q h (t ∷ rest) a.1)

bad_duration-spent :
    (samples : List Sample) → bad_duration_of samples ≡ spent (λ s. is_bad_regime s.regime) samples
unfolding bad_duration_of spent
bad_duration-spent [] = refl
bad_duration-spent (s ∷ []) = refl
bad_duration-spent (s ∷ t ∷ rest) = rw (bad_duration-spent (t ∷ rest)) refl

-- Where there is an intervention, the bad duration of the truncated log is the sum of the gaps
-- that begin in a bad regime with no intervention at or before them; where the samples ascend it
-- is not above the bad duration of the log, nor below 0.
truncate_at_interventions_lem :
    (samples : List Sample) (iv : Time) (ivs : List Time)
    → IsAscending samples
    → let bad = bad_duration_of (truncate_at_interventions samples (iv ∷ ivs)) in
      (bad ≡ spent (is_unresolved (iv ∷ ivs)) samples)
      × (leb_ℤ bad (bad_duration_of samples) ≡ true)
      × (leb_ℤ (pos 0) bad ≡ true)
unfolding truncate_at_interventions
truncate_at_interventions_lem samples iv ivs h =
    let e = bad_duration-resolve iv ivs samples in
    let (l, z) =
      spent-le (is_unresolved (iv ∷ ivs)) (λ s. is_bad_regime s.regime) (λ s q. ground arith)
        samples h in
    (e, rw (e, bad_duration-spent samples) l, rw e z)
