-- ===== src/Interface/Gates.antt =====
-- The gates of backend/consent/interface.py.
use Prim.Native.String.{String}
use onlinetlabs.Base.{
  ℕ, suc, ◌+◌, ◌≤◌, ◌≡◌, ◌≢◌, ◌↔◌, refl, ap, ◌∙◌, Bool, true, false, not, some, arith, if-keeps,
  update_self, ◌⊎◌, inl, inr, length, update,
}
use onlinetlabs.Regime.{Time}
use onlinetlabs.ControlLaw.{is_open, ControlArm, closed_loop}
use onlinetlabs.Consent.{observe_kind, act_kind, classify, is_act, has_consent}
use onlinetlabs.Interface.{
  Denial, unclassified, isolation, no_consent, open_arm_denied, rate, Seam, Verdict, allowed, deny,
  authorize_observe, observe_tool, rate_limited, authorize_act, act_tool,
}

module _ (s : Seam) (tool : String) (user session : ℕ) where
  -- The gates of an act end in leave to call, with the seam untouched, or in one denial, which is
  -- audited.
  authorize_act-cases :
      (arm : ControlArm) (cooldown : ℕ) (now : Time)
      → (authorize_act s tool user session arm cooldown now ≡ (s, allowed))
        ⊎ ((why : Denial) × (authorize_act s tool user session arm cooldown now
              ≡ deny s user session tool act_kind why))
  unfolding authorize_act
  authorize_act-cases arm cooldown now =
      if-keeps P (not (is_act (classify tool))) _ _ (inr (unclassified, refl)) (
        if-keeps P (not (s.owns session user)) _ _ (inr (isolation, refl)) (
          if-keeps P (not (has_consent s.consents user act_kind)) _ _ (inr (no_consent, refl)) (
            if-keeps P (is_open arm) _ _ (inr (open_arm_denied, refl)) (
              if-keeps P (rate_limited s session cooldown now) _ _ (inr (rate, refl)) (inl refl)))))
    where
      P : Seam × Verdict → Type 0
      P x = (x ≡ (s, allowed)) ⊎ ((why : Denial) × (x ≡ deny s user session tool act_kind why))

  -- A call passes the gates of `authorize_act` exactly when its tool is registered as an act, the
  -- session is the user's own, the user's consent covers acts, the arm is closed and no act of the
  -- session is younger than the cooldown.
  pub authorize_act_iff :
      (arm : ControlArm) (cooldown : ℕ) (now : Time)
      → ((authorize_act s tool user session arm cooldown now).1 ≡ allowed) ↔ (
          (classify tool ≡ some act_kind)
          × (s.owns session user ≡ true)
          × (has_consent s.consents user act_kind ≡ true)
          × (arm ≡ closed_loop)
          × (rate_limited s session cooldown now ≡ false))
  unfolding authorize_act
  authorize_act_iff arm cooldown now = ground arith

  -- Every act that is asked for, allowed or not and whether the tool returns or raises, adds
  -- exactly one audit row; the tool is called exactly when no gate denies, and only then is the
  -- session's rate window stamped.
  pub act_tool_lem :
      (arm : ControlArm) (cooldown : ℕ) (now done_at : Time) (ok : Bool)
      → let (s', e) = act_tool s tool user session arm cooldown now done_at ok in
        let v = (authorize_act s tool user session arm cooldown now).1 in
        (length s'.audits ≡ suc (length s.audits))
        × (v ≡ allowed
            → (s'.calls ≡ suc s.calls)
              × (s'.last_act_ts ≡ update s.last_act_ts session (some done_at)))
        × (v ≢ allowed → (s'.calls ≡ s.calls) × (s'.last_act_ts ≡ s.last_act_ts))
  unfolding act_tool
  act_tool_lem arm cooldown now done_at ok = elim (authorize_act-cases arm cooldown now) [
    | inl free ↦ rw free (refl, λ _. (refl, refl), λ h. absurd (h refl))
    | inr (why, stop) ↦ rw stop (refl, λ h. cc, λ _. (refl, refl))
  ]

  -- An observation reaches the tool exactly when the tool is registered as one, the session is the
  -- user's own and the user's consent covers observation; reached or not, returning or raising, it
  -- adds exactly one audit row and leaves the rate windows of acts alone.
  observe_tool_lem :
      (ok : Bool)
      → let (s', e) = observe_tool s tool user session ok in
        (length s'.audits ≡ suc (length s.audits))
        × (s'.last_act_ts ≡ s.last_act_ts)
        × ((s'.calls ≡ suc s.calls) ↔ (
            (classify tool ≡ some observe_kind)
            × (s.owns session user ≡ true)
            × (has_consent s.consents user observe_kind ≡ true)))
  unfolding observe_tool authorize_observe
  observe_tool_lem ok = ground arith

rate_limited-stamped :
    (s : Seam) (session cooldown : ℕ) (t now : Time)
    → s.last_act_ts session ≡ some t
    → rate_limited s session cooldown now ≡ false
    → t + cooldown ≤ now
rate_limited-stamped s session cooldown t now e h = ground arith

-- Two acts of one session that both pass the gates, with no other act of it between them, lie at
-- least the cooldown apart: the second is asked for no earlier than the cooldown after the first
-- was done.
act_tool-rate :
    (s : Seam) (tool tool' : String) (user user' session : ℕ) (arm arm' : ControlArm) (cooldown : ℕ)
    (now done_at now' : Time) (ok : Bool)
    → (authorize_act s tool user session arm cooldown now).1 ≡ allowed
    → (authorize_act
        (act_tool s tool user session arm cooldown now done_at ok).0
        tool'
        user'
        session
        arm'
        cooldown
        now').1
      ≡ allowed
    → done_at + cooldown ≤ now'
act_tool-rate s tool tool' user user' session arm arm' cooldown now done_at now' ok first second =
    let s' = (act_tool s tool user session arm cooldown now done_at ok).0 in
    let stamped = ((act_tool_lem s tool user session arm cooldown now done_at ok).1 first).1 in
    let free = ((authorize_act_iff s' tool' user' session arm' cooldown now').0 second).4 in
    rate_limited-stamped s' session cooldown done_at now'
      (ap (λ m. m session) stamped ∙ update_self s.last_act_ts session (some done_at)) free
