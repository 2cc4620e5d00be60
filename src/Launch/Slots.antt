-- ===== src/Launch/Slots.antt =====
-- The slot accounting of `launch_endpoint` in backend/sessions/routers/commands.py.
use onlinetlabs.Base.{
  ℕ, suc, ◌≡◌, refl, ap, sym, subst, ◌∙◌, Bool, true, false, not, ◌&&◌, ◌||◌, Option, none, some,
  arith, if◌then◌else◌, is_some, Bool-cases, inl, inr,
}
use onlinetlabs.Redis.{Redis, CounterKey, active_key, total_key, counter_key_eq}
use onlinetlabs.Queue.{Capacity, try_acquire, try_acquire_raised, release, has_free_slot}
use onlinetlabs.Queue.Slots.{
  get-try_acquire, get-try_acquire_raised, get-release, try_acquire_full, try_acquire_result,
}
use onlinetlabs.Queue.Ledger.{get-enqueue}
use onlinetlabs.Sessions.{Session, Rows, get_active_session}
use onlinetlabs.Lifecycle.{World}
use onlinetlabs.Launch.{
  LaunchEnv, Result, ok, localized, raised, Response, launched, launch_session, launch_endpoint,
  launch_slot, launch_new, settle, release_if, queue_up, redis_failed,
}

-- Whether the response is that of a session which the request has created.
abbrev pub creates : Response → Bool
creates (launched s new) = new
creates _ = false

-- Whether a launch that has taken a slot leaves it taken.
abbrev pub keeps_slot : LaunchEnv → Response → Bool
keeps_slot env response = not env.dequeue_ok || creates response || not env.release_ok

-- Whether a counter counts a lab's slots: the lab's own, and the total.
abbrev pub counts_lab : ℕ → CounterKey → Bool
counts_lab lab j = counter_key_eq (active_key lab) j || counter_key_eq total_key j

module _ (r : Redis) (c : Capacity) where
  open r use {Db, get}

  get-acquired :
      (d : Db) (user lab : ℕ) (j : CounterKey)
      → has_free_slot r c d lab ≡ true
      → get (try_acquire r c d user lab).0 j ≡ (if counts_lab lab j then suc (get d j) else get d j)
  get-acquired d user lab j h = ground (arith, get-try_acquire r c d user lab j h)

  -- Taking a slot and giving it back leaves every counter as it was.
  get-given_back :
      (d : Db) (user lab : ℕ) (j : CounterKey)
      → has_free_slot r c d lab ≡ true
      → get (release r c (try_acquire r c d user lab).0 lab) j ≡ get d j
  get-given_back d user lab j h =
      ground
        (arith, get-acquired d user lab j h, get-release r c (try_acquire r c d user lab).0 lab j)

  get-kept :
      (d : Db) (user lab : ℕ) (j : CounterKey) (release_ok : Bool)
      → has_free_slot r c d lab ≡ true
      → get (release_if r c release_ok (try_acquire r c d user lab).0 lab) j
        ≡ (if not release_ok && counts_lab lab j then suc (get d j) else get d j)
  get-kept d user lab j true h = get-given_back d user lab j h
  get-kept d user lab j false h = get-acquired d user lab j h

  settle-slots :
      (d : Db) (user lab : ℕ) (release_ok : Bool) (out : Rows × Result (Session × Bool))
      (j : CounterKey)
      → has_free_slot r c d lab ≡ true
      → let (w', response) = settle r c true release_ok (try_acquire r c d user lab).0 lab out in
        get w'.slots j ≡ (
          if (creates response || not release_ok) && counts_lab lab j
          then suc (get d j)
          else get d j)
  unfolding settle
  settle-slots d user lab true (rows, ok (s, true)) j h = get-acquired d user lab j h
  settle-slots d user lab false (rows, ok (s, true)) j h = get-acquired d user lab j h
  settle-slots d user lab true (rows, ok (s, false)) j h = get-kept d user lab j true h
  settle-slots d user lab false (rows, ok (s, false)) j h = get-kept d user lab j false h
  settle-slots d user lab true (rows, localized e) j h = get-kept d user lab j true h
  settle-slots d user lab false (rows, localized e) j h = get-kept d user lab j false h
  settle-slots d user lab true (rows, raised) j h = get-kept d user lab j true h
  settle-slots d user lab false (rows, raised) j h = get-kept d user lab j false h

  settle-resumed :
      (d : Db) (lab : ℕ) (release_ok : Bool) (out : Rows × Result (Session × Bool))
      → (settle r c false release_ok d lab out).0.slots ≡ d
  unfolding settle
  settle-resumed d lab release_ok (rows, ok (s, b)) = refl
  settle-resumed d lab release_ok (rows, localized e) = refl
  settle-resumed d lab release_ok (rows, raised) = refl

  launch_new-slots :
      (w : World Db) (user lab : ℕ) (env : LaunchEnv) (j : CounterKey)
      → has_free_slot r c w.slots lab ≡ true
      → let (w', response) = launch_new r c w (try_acquire r c w.slots user lab).0 user lab env in
        get w'.slots j ≡ (
          if keeps_slot env response && counts_lab lab j
          then suc (get w.slots j)
          else get w.slots j)
  unfolding launch_new
  launch_new-slots w user lab env j free = elim (Bool-cases env.dequeue_ok) [
    | inl left ↦
        subst (λ b. Counted b) (sym left)
          (settle-slots w.slots user lab env.release_ok
            (launch_session (env.before_lookup w.rows) user lab env) j free)
    | inr stuck ↦
        subst (λ b. Counted b) (sym stuck)
          (get-try_acquire_raised r c w.slots user lab j free
            ∙ get-acquired w.slots user lab j free)
  ]
    where
      Counted : Bool → Type 0
      Counted left =
          let (w', response) =
            if left
            then settle r c true env.release_ok (try_acquire r c w.slots user lab).0 lab
                (launch_session (env.before_lookup w.rows) user lab env)
            else (record w { slots = try_acquire_raised r c w.slots lab }, redis_failed) in
          get w'.slots j ≡ (
            if (not left || creates response || not env.release_ok) && counts_lab lab j
            then suc (get w.slots j)
            else get w.slots j)

  launch_slot-slots :
      (w : World Db) (user lab : ℕ) (env : LaunchEnv) (existing : Option Session) (j : CounterKey)
      → let (w', response) = launch_slot r c w user lab env existing in
        get w'.slots j ≡ (
          if not (is_some existing)
            && env.acquire_ok
            && has_free_slot r c w.slots lab
            && keeps_slot env response
            && counts_lab lab j
          then suc (get w.slots j)
          else get w.slots j)
  unfolding launch_slot
  launch_slot-slots w user lab env (some s) j =
      ap (λ d. get d j)
        (settle-resumed w.slots lab env.release_ok
          (launch_session (env.before_lookup w.rows) user lab env))
  launch_slot-slots w user lab env none j = elim (Bool-cases env.acquire_ok) [
    | inl answers ↦ elim (Bool-cases (has_free_slot r c w.slots lab)) [
      | inl free ↦ ground (
        arith,
        answers,
        free,
        try_acquire_result r c w.slots user lab,
        launch_new-slots w user lab env j free,
      )
      | inr full ↦
          let waits : get (queue_up r c w w.slots user lab).0.slots j ≡ get w.slots j =
            unfold queue_up in get-enqueue r c w.slots user lab j in
          ground (arith, answers, full, try_acquire_full r c w.slots user lab full, waits)
    ]
    | inr raises ↦ ground (arith, raises)
  ]

  -- Whatever other requests do to the table meanwhile and whatever of the launch fails, the counters
  -- of the lab's slots end one higher exactly when the request passed the question of consent, found
  -- no active session and took a free slot, and then either its call to leave the queue raised, or it
  -- answers with a session that it has created, or the call that gives a slot back raises; in every
  -- other case, and at every other counter, they end as they were. So where Redis answers, a session
  -- that the request has created and committed before its ticket failed is left without a slot, and a
  -- raising call to leave the queue leaves a slot without a session. A call to Redis that raises has
  -- changed nothing.
  pub launch_endpoint-slots :
      (w : World Db) (user lab : ℕ) (env : LaunchEnv) (j : CounterKey)
      → let (w', response) = launch_endpoint r c w user lab env in
        get w'.slots j ≡ (
          if is_some env.study_decision
            && not (is_some (get_active_session w.rows user lab))
            && env.acquire_ok
            && has_free_slot r c w.slots lab
            && keeps_slot env response
            && counts_lab lab j
          then suc (get w.slots j)
          else get w.slots j)
  unfolding launch_endpoint
  launch_endpoint-slots w user lab env j = elim (Bool-cases (is_some env.study_decision)) [
    | inl asked ↦ rw asked (launch_slot-slots w user lab env (get_active_session w.rows user lab) j)
    | inr never ↦ rw never (ground arith)
  ]
