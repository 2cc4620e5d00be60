-- ===== src/Lifecycle/Ends.antt =====
-- What an end of a session does in backend/sessions/services/lifecycle.py, once and again.
use onlinetlabs.Base.{
  ℕ, ◌-◌, ◌≡◌, refl, sym, ap, ◌∙◌, Bool, true, false, ==_refl, ◌||◌, Option, none, some, [], ◌∷◌,
  arith, if◌then◌else◌, is_some, Bool-cases, inl, inr,
}
use onlinetlabs.Redis.{Redis, CounterKey, active_key, total_key, counter_key_eq}
use onlinetlabs.Regime.{Time}
use onlinetlabs.Queue.{Capacity}
use onlinetlabs.Queue.Slots.{get-release}
use onlinetlabs.Sessions.{
  Session, Rows, Status, active, ended, Meta, is_owned, get_row, update_row, get_owned_session,
  finalized, finalize_session_row, finalize_found, finalize_fields, has_twin, is_active,
  get_active_session,
}
use onlinetlabs.Lifecycle.{World, ended_fields, mark_ended_and_finalize, end_found, end_lab}

-- A write to a row that a lookup has found is what the lookup finds next.
owned-update :
    (f : Session → Session)
    → ((s : Session) → (f s).id ≡ s.id)
    → ((s : Session) → (f s).user_id ≡ s.user_id)
    → (rows : Rows) (id user : ℕ) (s : Session) → get_owned_session rows id user ≡ some s
    → get_owned_session (update_row s.id f rows) id user ≡ some (f s)
unfolding get_owned_session
owned-update f h k [] id user s e = cc
owned-update f h k (o ∷ rows) id user s e = elim (Bool-cases (is_owned id user o)) [
  | inl mine ↦ ground (arith, h o, k o, h s, k s)
  | inr other ↦ ground (arith, owned-update f h k rows id user s, h o, k o, h s, k s)
]

-- An owned row that is active is found by the learner's next launch of its lab.
owned-active :
    (rows : Rows) (id user : ℕ) (o : Session)
    → get_owned_session rows id user ≡ some o
    → o.status ≡ active
    → is_some (get_active_session rows user o.lab_slug) ≡ true
unfolding get_owned_session get_active_session
owned-active [] id user o e h = cc
owned-active (x ∷ rows) id user o e h = elim (Bool-cases (is_owned id user x)) [
  | inl mine ↦ ground (arith, ap is_active h, ==_refl o.lab_slug)
  | inr other ↦ ground (arith, owned-active rows id user o)
]

module _ (r : Redis) (c : Capacity) where
  open r use {Db, get}

  end_found-once :
      (w : World Db) (id user : ℕ) (found : Option Session) (now later : Time)
      (redis_ok redis_ok' : Bool)
      → get_owned_session w.rows id user ≡ found
      → let w' = (end_found r c w found ended now redis_ok).0 in
        end_found r c w' (get_owned_session w'.rows id user) ended later redis_ok'
        ≡ end_found r c w found ended now redis_ok
  unfolding end_found mark_ended_and_finalize
  end_found-once w id user none now later redis_ok redis_ok' h = rw h refl
  end_found-once w id user (some s) now later redis_ok redis_ok' h =
      elim (Bool-cases (is_some s.ended_at)) [
        | inl over ↦ rw (over, h, over) refl
        | inr open_yet ↦
            rw
              (
                open_yet,
                owned-update (ended_fields ended now) (λ s. refl) (λ s. refl) w.rows id user s h,
              )
              refl
      ]

  end_lab-once :
      (w : World Db) (id user : ℕ) (now later : Time) (redis_ok redis_ok' : Bool)
      → end_lab r c (end_lab r c w id user now redis_ok).0 id user later redis_ok'
        ≡ end_lab r c w id user now redis_ok
  unfolding end_lab
  end_lab-once w id user now later redis_ok redis_ok' =
      end_found-once w id user (get_owned_session w.rows id user) now later redis_ok redis_ok' refl

  end_lab-release :
      (w : World Db) (id user : ℕ) (now : Time) (s : Session) (j : CounterKey)
      → get_owned_session w.rows id user ≡ some s
      → s.ended_at ≡ none
      → let (w', found) = end_lab r c w id user now true in
        (get_owned_session w'.rows id user ≡ some (ended_fields ended now s))
        × (get w'.slots j ≡ (
            if counter_key_eq (active_key s.lab_slug) j || counter_key_eq total_key j
            then get w.slots j - 1
            else get w.slots j))
  unfolding end_lab end_found mark_ended_and_finalize
  end_lab-release w id user now s j h e =
      rw (h, e)
        (
          owned-update (ended_fields ended now) (λ s. refl) (λ s. refl) w.rows id user s h,
          get-release r c w.slots s.lab_slug j,
        )

  -- An end of a session that is ended already changes neither the table nor the counters, and gives
  -- the same verdict: whatever the first end found (no row of the caller, a row that was over, or a
  -- row it has ended now), a second one by the same caller leaves the world as the first left it. An
  -- end of a row that the caller owns and that no one has ended sets its status and its end, and,
  -- when Redis answers, takes one from the counter of the row's lab and one from the total (none
  -- where a counter is at 0), whatever the row's status was: a row of status `error`, whose slot the
  -- launch endpoint has given back, gives one back again.
  pub end_lab_lem :
      (w : World Db) (id user : ℕ) (now later : Time) (redis_ok redis_ok' : Bool) (s : Session)
      (j : CounterKey)
      → (end_lab r c (end_lab r c w id user now redis_ok).0 id user later redis_ok'
          ≡ end_lab r c w id user now redis_ok)
        × (get_owned_session w.rows id user ≡ some s
            → s.ended_at ≡ none
            → let (w', found) = end_lab r c w id user now true in
              (get_owned_session w'.rows id user ≡ some (ended_fields ended now s))
              × (get w'.slots j ≡ (
                  if counter_key_eq (active_key s.lab_slug) j || counter_key_eq total_key j
                  then get w.slots j - 1
                  else get w.slots j)))
  end_lab_lem w id user now later redis_ok redis_ok' s j =
      (end_lab-once w id user now later redis_ok redis_ok', end_lab-release w id user now s j)

  end_found-over :
      (w : World Db) (s : Session) (status : Status) (now : Time) (redis_ok : Bool)
      → is_some s.ended_at ≡ true
      → (end_found r c w (some s) status now redis_ok).0 ≡ w
  unfolding end_found mark_ended_and_finalize
  end_found-over w s status now redis_ok over = rw over refl

  -- A finalize to `active` of an owned row that was ended before (by the reaper, or by the learner, while
  -- its environment was provisioned) succeeds where the learner has no other live row of the lab. The
  -- row then stands in the table with status `active` and its old end; an end of it by its owner changes
  -- neither the table nor the counters; and the learner's next launch of the lab finds an active session.
  pub finalize_session_row-ended :
      (w : World Db) (id user : ℕ) (meta : Option Meta) (s : Session) (now : Time) (redis_ok : Bool)
      → get_row w.rows id ≡ some s
      → get_owned_session w.rows id user ≡ some s
      → is_some s.ended_at ≡ true
      → has_twin s w.rows ≡ false
      → (after : Rows) × (after_row : Session) × (finalize_session_row w.rows id active meta
          ≡ finalized after after_row)
        × (get_owned_session after id user ≡ some after_row)
        × (after_row.status ≡ active)
        × (after_row.ended_at ≡ s.ended_at)
        × ((end_lab r c (record w { rows = after }) id user now redis_ok).0
            ≡ record w { rows = after })
        × (is_some (get_active_session after user s.lab_slug) ≡ true)
  unfolding finalize_session_row finalize_found end_lab
  finalize_session_row-ended w id user meta s now redis_ok e mine over alone =
      let row = finalize_fields active meta s in
      let after = update_row s.id (finalize_fields active meta) w.rows in
      let w' : World Db = record w { rows = after } in
      let found : get_owned_session after id user ≡ some row =
        owned-update (finalize_fields active meta) (λ s. same_id meta s) (λ s. same_user meta s)
          w.rows id user s mine in
      (
        after,
        row,
        rw (e, alone) refl,
        found,
        now_active meta s,
        same_end meta s,
        ap (λ f. (end_found r c w' f ended now redis_ok).0) found
            ∙ end_found-over w' row ended now redis_ok (ap is_some (same_end meta s) ∙ over),
        ap (λ lab. is_some (get_active_session after user lab)) (sym (same_lab meta s))
            ∙ owned-active after id user row found (now_active meta s),
      )
    where
      same_id : (meta : Option Meta) (s : Session) → (finalize_fields active meta s).id ≡ s.id
      same_id none s = refl
      same_id (some m) s = refl

      same_user :
          (meta : Option Meta) (s : Session) → (finalize_fields active meta s).user_id ≡ s.user_id
      same_user none s = refl
      same_user (some m) s = refl

      same_end :
          (meta : Option Meta) (s : Session) → (finalize_fields active meta s).ended_at ≡ s.ended_at
      same_end none s = refl
      same_end (some m) s = refl

      same_lab :
          (meta : Option Meta) (s : Session) → (finalize_fields active meta s).lab_slug ≡ s.lab_slug
      same_lab none s = refl
      same_lab (some m) s = refl

      now_active :
          (meta : Option Meta) (s : Session) → (finalize_fields active meta s).status ≡ active
      now_active none s = refl
      now_active (some m) s = refl
