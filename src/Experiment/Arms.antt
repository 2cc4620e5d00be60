-- ===== src/Experiment/Arms.antt =====
-- backend/experiment/assignment.py: the arm of a session, asked for again.
use onlinetlabs.Base.{
  ℕ, ◌≡◌, refl, ap, ap₂, sym, subst, ◌∙◌, true, false, List, [], ◌∷◌, Option, none, some, inl, inr,
  ◌==◌, if◌then◌else◌, Bool-cases, Option-cases, if-true, if-false,
}
use onlinetlabs.ControlLaw.{ControlArm, open_loop}
use onlinetlabs.Experiment.{
  User, Tables, find_user, set_arm, resolve_found, resolve_control_arm, is_l2_session, is_l2_of,
  skill_of, find_lab, effective_arm,
}

abbrev with_arm : ControlArm → Option User → Option User
with_arm arm none = none
with_arm arm (some u) = some (record u { control_arm = some arm })

find_user-set_arm :
    (k : ℕ) (arm : ControlArm) (us : List User)
    → find_user k (set_arm k arm us) ≡ with_arm arm (find_user k us)
find_user-set_arm k arm [] = refl
find_user-set_arm k arm (u ∷ us) = elim (Bool-cases (u.id == k)) [
  | inl e ↦
      ap (find_user k) (if-true _ (record u { control_arm = some arm } ∷ us) _ e)
      ∙ if-true _ (some (record u { control_arm = some arm })) _ e
      ∙ ap (with_arm arm) (sym (if-true _ (some u) _ e))
  | inr e ↦
      ap (find_user k) (if-false _ (record u { control_arm = some arm } ∷ us) _ e)
      ∙ if-false _ (some u) _ e
      ∙ find_user-set_arm k arm us
      ∙ ap (with_arm arm) (sym (if-false _ (some u) _ e))
]

again_found :
    (draw again : ControlArm) (k : ℕ) (o : Option User) (t : Tables)
    → find_user k t.users ≡ o
    → let (arm, t') = resolve_found draw k o t in
      resolve_found again k (find_user k t'.users) t' ≡ (arm, t')
again_found draw again k none t e = ap (λ o. resolve_found again k o t) e
again_found draw again k (some u) t e = elim (Option-cases u.control_arm) [
  | inl q ↦ rw q (
      ap (λ o. resolve_found again k o (record t { users = set_arm k draw t.users }))
        (find_user-set_arm k draw t.users ∙ ap (with_arm draw) e))
  | inr (arm, q) ↦ rw q (ap (λ o. resolve_found again k o t) e ∙ rw q refl)
]

-- The labs and the progress, which decide on the holdout, are left as they are.
resolve-labs :
    (draw : ControlArm) (k : ℕ) (o : Option User) (t : Tables)
    → let t' = (resolve_found draw k o t).1 in (t'.labs ≡ t.labs) × (t'.progress ≡ t.progress)
resolve-labs draw k none t = (refl, refl)
resolve-labs draw k (some u) t = elim (Option-cases u.control_arm) [
  | inl q ↦ rw q (refl, refl)
  | inr (arm, q) ↦ rw q (refl, refl)
]

is_l2_session_same :
    (user slug : ℕ) (t t' : Tables)
    → t'.labs ≡ t.labs
    → t'.progress ≡ t.progress
    → is_l2_session user slug t' ≡ is_l2_session user slug t
unfolding is_l2_session
is_l2_session_same user slug t t' e q =
    ap₂ (λ labs progress. is_l2_of labs progress user slug (skill_of (find_lab slug labs))) e q

module _ (draw : ControlArm) (user slug : ℕ) (t : Tables) where
  effective_holdout :
      is_l2_session user slug t ≡ true → effective_arm draw user slug t ≡ (some open_loop, t)
  unfolding effective_arm
  effective_holdout h = if-true _ _ _ h

  effective_own :
      is_l2_session user slug t ≡ false
      → effective_arm draw user slug t ≡ resolve_found draw user (find_user user t.users) t
  unfolding effective_arm resolve_control_arm
  effective_own h = if-false _ _ _ h

-- Whatever is drawn, now or later: the arm of a session is open if the user has completed another
-- lab of the same skill, and then nothing changes; otherwise it is the user's own arm, which is
-- drawn and stored if there was none; and the same question asked again has the same answer and
-- changes nothing.
effective_arm_lem :
    (draw again : ControlArm) (user slug : ℕ) (t : Tables)
    → let (arm, t') = effective_arm draw user slug t in
      (effective_arm again user slug t' ≡ (arm, t'))
      × ((arm, t') ≡ (
          if is_l2_session user slug t
          then (some open_loop, t)
          else resolve_found draw user (find_user user t.users) t))
unfolding effective_arm resolve_control_arm
effective_arm_lem draw again user slug t = (
  elim (Bool-cases (is_l2_session user slug t)) [
    | inl e ↦
        subst (λ x. effective_arm again user slug x.1 ≡ (x.0, x.1))
          (sym (effective_holdout draw user slug t e)) (effective_holdout again user slug t e)
    | inr e ↦
        subst (λ x. effective_arm again user slug x.1 ≡ (x.0, x.1))
          (sym (effective_own draw user slug t e))
          (let (ls, ps) = resolve-labs draw user (find_user user t.users) t in
            effective_own again user slug _ (is_l2_session_same user slug t _ ls ps ∙ e)
            ∙ again_found draw again user (find_user user t.users) t refl)
  ],
  refl,
)
