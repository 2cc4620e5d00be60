-- ===== src/Worker/Passes.antt =====
-- What one pass of backend/worker/reaper.py or backend/worker/idle_reclaim.py does to a row.
use mathlib.Core.Path.{subst}
use onlinetlabs.Base.{
  ℕ, ◌+◌, ◌≤◌, ◌≡◌, refl, sym, ap, ◌∙◌, Bool, true, false, ◌&&◌, Option, none, some, [], ◌∷◌, arith,
  ◌==◌, if◌then◌else◌, is_some, filter, Bool-cases, inl, inr, ==_refl, ==_iff,
}
use onlinetlabs.Redis.{Redis}
use onlinetlabs.Queue.{Capacity}
use onlinetlabs.Regime.{Time}
use onlinetlabs.Sessions.{Session, Rows, ended, get_row, update_row}
use onlinetlabs.Sessions.Live.{count_id, get_row-id}
use onlinetlabs.Lifecycle.{World, ended_fields, mark_ended_and_finalize}
use onlinetlabs.Worker.{
  walk, touch_session, touch_throttle, idle_threshold, stamp, is_touched, is_overdue, ReapEnv,
  end_row, end_one, reap_expired_sessions, is_idle, ReclaimEnv, is_reclaimed, mark_paused,
  reclaim_one, reclaim_idle_sessions,
}

abbrev pub on_found : (Session → Session) → Option Session → Option Session
on_found f none = none
on_found f (some s) = some (f s)

pub get_row-update :
    (f : Session → Session)
    → ((s : Session) → (f s).id ≡ s.id)
    → (rows : Rows) (j id : ℕ)
    → get_row (update_row j f rows) id
      ≡ (if j == id then on_found f (get_row rows id) else get_row rows id)
get_row-update f h [] j id = ground arith
get_row-update f h (o ∷ rows) j id = elim (Bool-cases (o.id == id)) [
  | inl mine ↦ ground (arith, h o, mine)
  | inr other ↦ ground (arith, h o, other, get_row-update f h rows j id)
]

-- A pass whose step writes a row only at the row's own turn.
module _ {S : Type 0} (rows_of : S → Rows) (step : S → Session → S) (id : ℕ)
    (own : Session → Session → Session)
    (turn : (w : S) (s : Session)
      → get_row (rows_of (step w s)) id ≡ (
          if s.id == id
          then on_found (own s) (get_row (rows_of w) id)
          else get_row (rows_of w) id)) where
  walk_others :
      (p : Session → Bool) (rows : Rows) (w : S)
      → count_id id rows ≡ 0
      → get_row (rows_of (walk step w (filter p rows))) id ≡ get_row (rows_of w) id
  walk_others p [] w h = refl
  walk_others p (o ∷ rows) w h = elim (Bool-cases (p o)) [
    | inl e ↦ ground (arith, e, turn w o, walk_others p rows (step w o))
    | inr e ↦ ground (arith, e, walk_others p rows w)
  ]

  walk_first :
      (p : Session → Bool) (rows : Rows) (w : S) (o : Session)
      → (o.id == id) ≡ true
      → count_id id rows ≡ 0
      → get_row (rows_of (walk step w (filter p (o ∷ rows)))) id
        ≡ (if p o then on_found (own o) (get_row (rows_of w) id) else get_row (rows_of w) id)
  walk_first p rows w o mine h = elim (Bool-cases (p o)) [
    | inl e ↦ rw e (walk_others p rows (step w o) h ∙ turn w o ∙ (rw mine refl))
    | inr e ↦ rw e (walk_others p rows w h)
  ]

  walk_later :
      (p : Session → Bool) (rows : Rows) (w : S) (o s : Session)
      → (o.id == id) ≡ false
      → ((w : S)
          → get_row (rows_of (walk step w (filter p rows))) id
            ≡ (if p s then on_found (own s) (get_row (rows_of w) id) else get_row (rows_of w) id))
      → get_row (rows_of (walk step w (filter p (o ∷ rows)))) id
        ≡ (if p s then on_found (own s) (get_row (rows_of w) id) else get_row (rows_of w) id)
  walk_later p rows w o s other later =
      let same : get_row (rows_of (step w o)) id ≡ get_row (rows_of w) id =
        turn w o ∙ (rw other refl) in
      elim (Bool-cases (p o)) [
        | inl e ↦ rw e (later (step w o) ∙ (rw same refl))
        | inr e ↦ rw e (later w)
      ]

  pub walk_own :
      (p : Session → Bool) (rows : Rows) (w : S) (s : Session)
      → count_id id rows ≤ 1
      → get_row rows id ≡ some s
      → get_row (rows_of (walk step w (filter p rows))) id
        ≡ (if p s then on_found (own s) (get_row (rows_of w) id) else get_row (rows_of w) id)
  walk_own p [] w s u e = cc
  walk_own p (o ∷ rows) w s u e = elim (Bool-cases (o.id == id)) [
    | inl mine ↦
        subst
          (λ x.
            get_row (rows_of (walk step w (filter p (o ∷ rows)))) id
            ≡ (if p x then on_found (own x) (get_row (rows_of w) id) else get_row (rows_of w) id))
          (ground (arith, mine, e)) (walk_first p rows w o mine (ground (arith, mine, u)))
    | inr other ↦
        walk_later p rows w o s other
          (λ w. walk_own p rows w s (ground (arith, other, u)) (ground (arith, other, e)))
  ]

-- What an end does to a row that it finds.
abbrev pub end_fresh : Time → Session → Session
end_fresh now s = if is_some s.ended_at then s else ended_fields ended now s

module _ (r : Redis) (c : Capacity) where
  open r use {Db}

  end_row-found :
      (w : World Db) (found : Option Session) (j id : ℕ) (now : Time) (redis_ok : Bool)
      → get_row w.rows j ≡ found
      → get_row (end_row r c w found now redis_ok).rows id
        ≡ (if j == id then on_found (end_fresh now) (get_row w.rows id) else get_row w.rows id)
  unfolding end_row mark_ended_and_finalize
  end_row-found w none j id now redis_ok h = elim (Bool-cases (j == id)) [
    | inl mine ↦
        let e : get_row w.rows id ≡ none = ap (get_row w.rows) (sym ((==_iff j id).0 mine)) ∙ h in
        rw (mine, e) refl
    | inr other ↦ rw other refl
  ]
  end_row-found w (some s) j id now redis_ok h =
      let at : s.id ≡ j = get_row-id w.rows j s h in
      let written = get_row-update (ended_fields ended now) (λ s. refl) w.rows s.id id in
      elim (Bool-cases (j == id)) [
        | inl mine ↦
            let e : get_row w.rows id ≡ some s =
              ap (get_row w.rows) (sym ((==_iff j id).0 mine)) ∙ h in
            let here : (s.id == id) ≡ true = ap (λ x. x == id) at ∙ mine in
            elim (Bool-cases (is_some s.ended_at)) [
              | inl over ↦ rw (over, mine, e, over) refl
              | inr live ↦ rw (live, mine, e, live) (written ∙ (rw (here, e) refl))
            ]
        | inr other ↦
            let away : (s.id == id) ≡ false = ap (λ x. x == id) at ∙ other in
            elim (Bool-cases (is_some s.ended_at)) [
              | inl over ↦ rw (over, other) refl
              | inr live ↦ rw (live, other) (written ∙ (rw away refl))
            ]
      ]

  end_one-found :
      (env : ReapEnv Db) (w : World Db) (s : Session) (id : ℕ)
      → get_row (env.meanwhile s.id w).rows id ≡ get_row w.rows id
      → env.stop_ok id ≡ true
      → get_row (end_one r c env w s).rows id ≡ (
          if s.id == id
          then on_found (end_fresh (env.ended_at s.id)) (get_row w.rows id)
          else get_row w.rows id)
  unfolding end_one
  end_one-found env w s id alone stops = elim (Bool-cases (env.stop_ok s.id)) [
    | inl e ↦ rw e (
        end_row-found (env.meanwhile s.id w) (get_row (env.meanwhile s.id w).rows s.id) s.id id
          (env.ended_at s.id) (env.redis_ok s.id) refl
        ∙ (rw alone refl))
    | inr e ↦ elim (Bool-cases (s.id == id)) [
      | inl mine ↦ cc (sym e ∙ ap env.stop_ok ((==_iff s.id id).0 mine) ∙ stops)
      | inr other ↦ rw (e, other) alone
    ]
  ]

  -- A pass of the reaper ends a session, whose id is unique, which no one has ended, whose monitor
  -- stops and whose row no one else writes during the pass, exactly when it was overdue at the
  -- start of the pass; it leaves every other such session as it was. What others do to other rows,
  -- and whether the ends of those fail, makes no difference.
  pub reap_expired_sessions_lem :
      (env : ReapEnv Db) (w : World Db) (now : Time) (s : Session)
      → count_id s.id w.rows ≤ 1
      → get_row w.rows s.id ≡ some s
      → s.ended_at ≡ none
      → ((j : ℕ) (w : World Db) → get_row (env.meanwhile j w).rows s.id ≡ get_row w.rows s.id)
      → env.stop_ok s.id ≡ true
      → get_row (reap_expired_sessions r c env w now).rows s.id
        ≡ some (if is_overdue now s then ended_fields ended (env.ended_at s.id) s else s)
  unfolding reap_expired_sessions
  reap_expired_sessions_lem env w now s once e live alone stops =
      walk_own (λ w. w.rows) (end_one r c env) s.id (λ o. end_fresh (env.ended_at o.id))
        (λ w o. end_one-found env w o s.id (alone o.id w) stops) (is_overdue now) w.rows w s once e
      ∙ elim (Bool-cases (is_overdue now s)) [
        | inl due ↦ rw (e, due, live) refl
        | inr not_due ↦ rw (e, not_due) refl
      ]

on_found_id : (o : Option Session) → on_found (λ s. s) o ≡ o
on_found_id none = refl
on_found_id (some s) = refl

-- What a turn of the reclaimer does to the row of its session.
abbrev pub reclaimed : ReclaimEnv → Time → Session → Session → Session
reclaimed env now s =
    if is_reclaimed env now s
    then (λ o. record o { paused_at = some (env.paused_at s.id) })
    else (λ o. o)

reclaim_one-found :
    (env : ReclaimEnv) (now : Time) (rows : Rows) (s : Session) (id : ℕ)
    → get_row (env.meanwhile s.id rows) id ≡ get_row rows id
    → get_row (reclaim_one env now rows s) id
      ≡ (if s.id == id then on_found (reclaimed env now s) (get_row rows id) else get_row rows id)
unfolding reclaim_one mark_paused
reclaim_one-found env now rows s id alone = elim (Bool-cases (is_reclaimed env now s)) [
  | inl e ↦ rw e (
      get_row-update (λ o. record o { paused_at = some (env.paused_at s.id) }) (λ o. refl)
        (env.meanwhile s.id rows) s.id id
      ∙ (rw alone refl))
  | inr e ↦ rw e (
      alone ∙ elim (Bool-cases (s.id == id)) [
        | inl mine ↦ rw mine (sym (on_found_id (get_row rows id)))
        | inr other ↦ rw other refl
      ])
]

-- A pass of the reclaimer pauses a session, whose id is unique and whose row no one else writes
-- during the pass, exactly when it was idle at the start of the pass, has an environment in GNS3
-- whose last activity is not recent, and its nodes stop; else the session stays as it was.
reclaim_idle_sessions_lem :
    (env : ReclaimEnv) (rows : Rows) (now : Time) (s : Session)
    → count_id s.id rows ≤ 1
    → get_row rows s.id ≡ some s
    → ((j : ℕ) (rows : Rows) → get_row (env.meanwhile j rows) s.id ≡ get_row rows s.id)
    → get_row (reclaim_idle_sessions env rows now) s.id
      ≡ some (
          if is_idle now s && is_reclaimed env now s
          then record s { paused_at = some (env.paused_at s.id) }
          else s)
unfolding reclaim_idle_sessions
reclaim_idle_sessions_lem env rows now s once e alone =
    walk_own (λ w. w) (reclaim_one env now) s.id (reclaimed env now)
      (λ w o. reclaim_one-found env now w o s.id (alone o.id w)) (is_idle now) rows rows s once e
    ∙ elim (Bool-cases (is_idle now s)) [
      | inl idle ↦ elim (Bool-cases (is_reclaimed env now s)) [
        | inl yields ↦ rw (e, idle, yields) refl
        | inr holds ↦ rw (e, idle, holds) refl
      ]
      | inr busy ↦ rw (e, busy) refl
    ]

stamp-id : (user : ℕ) (now : Time) (s : Session) → (stamp user now s).id ≡ s.id
stamp-id user now s = ground arith

stamp-is_idle :
    (user : ℕ) (now later : Time) (s : Session)
    → s.user_id ≡ user
    → later + touch_throttle ≤ now + idle_threshold
    → is_idle later (stamp user now s) ≡ false
stamp-is_idle user now later s own soon = elim (Bool-cases (is_touched user now s)) [
  | inl e ↦ rw e (ground (arith, soon))
  | inr e ↦ rw e (ground (arith, soon, own, e))
]

-- After a request of its owner has stamped a session, or passed because the last stamp is recent, no
-- pass of the reclaimer selects it until the idle threshold less the throttle has gone by.
touch_session-is_idle :
    (rows : Rows) (id user : ℕ) (now later : Time) (s after : Session)
    → get_row rows id ≡ some s
    → s.user_id ≡ user
    → later + touch_throttle ≤ now + idle_threshold
    → get_row (touch_session rows id user now) id ≡ some after
    → is_idle later after ≡ false
unfolding touch_session
touch_session-is_idle rows id user now later s after e own soon found =
    let both : some after ≡ some (stamp user now s) =
      sym found
      ∙ get_row-update (stamp user now) (stamp-id user now) rows id id
      ∙ (rw (==_refl id, e) refl) in
    let same : after ≡ stamp user now s = cc both in
    ap (is_idle later) same ∙ stamp-is_idle user now later s own soon
