-- ===== src/Queue/Slots.antt =====
-- The slot counters of backend/sessions/queue.py: what acquiring and releasing a slot do to them.
use onlinetlabs.Base.{
  suc, ◌-◌, ◌<◌, ◌≡◌, refl, true, false, arith, ◌||◌, ◌↔◌, ◌∙◌, if◌then◌else◌, ==_iff, ap,
}
use onlinetlabs.Redis.{
  Redis, LabSlug, UserId, CounterKey, ListKey, active_key, total_key, queue_key, remove_all,
  counter_key_eq, list_key_eq,
}
use onlinetlabs.Queue.{
  Capacity, lab_cap, try_acquire, try_acquire_raised, release, has_free_slot, active_ttl,
  decr_if_positive,
}

pub counter_key_eq→eq : (k j : CounterKey) → counter_key_eq k j ≡ true → k ≡ j
counter_key_eq→eq (active_key a) (active_key b) h = ap active_key ((==_iff a b).0 h)
counter_key_eq→eq (active_key a) total_key h = cc
counter_key_eq→eq total_key (active_key b) h = cc
counter_key_eq→eq total_key total_key h = refl

module _ (r : Redis) (c : Capacity) where
  open r use {Db, get, lrange}

  module _ (d : Db) (user : UserId) (lab : LabSlug) where
    pub try_acquire_full : has_free_slot r c d lab ≡ false → try_acquire r c d user lab ≡ (d, false)
    unfolding try_acquire has_free_slot
    try_acquire_full h = ground arith

    pub try_acquire_result : (try_acquire r c d user lab).1 ≡ has_free_slot r c d lab
    unfolding try_acquire has_free_slot
    try_acquire_result = ground arith

    pub get-try_acquire :
        (j : CounterKey)
        → has_free_slot r c d lab ≡ true
        → get (try_acquire r c d user lab).0 j ≡ (
            if counter_key_eq (active_key lab) j
            then suc (get d j)
            else if counter_key_eq total_key j
            then suc (get d j)
            else get d j)
    unfolding try_acquire has_free_slot
    get-try_acquire j h =
        let d1 = r.incr d (active_key lab) in
        let d2 = r.expire d1 (active_key lab) active_ttl in
        let d3 = r.incr d2 total_key in
        let d4 = r.expire d3 total_key active_ttl in
        ground (
          arith,
          r.get-lrem d4 (queue_key lab) user j,
          r.get-expire d3 total_key j active_ttl,
          r.get-incr d2 total_key j,
          r.get-expire d1 (active_key lab) j active_ttl,
          r.get-expire d1 (active_key lab) total_key active_ttl,
          r.get-incr d (active_key lab) j,
          r.get-incr d (active_key lab) total_key,
        )

    -- The dequeue does not touch the counters.
    pub get-try_acquire_raised :
        (j : CounterKey)
        → has_free_slot r c d lab ≡ true
        → get (try_acquire_raised r c d lab) j ≡ get (try_acquire r c d user lab).0 j
    unfolding try_acquire try_acquire_raised has_free_slot
    get-try_acquire_raised j h =
        let d1 = r.incr d (active_key lab) in
        let d2 = r.expire d1 (active_key lab) active_ttl in
        let d3 = r.incr d2 total_key in
        let d4 = r.expire d3 total_key active_ttl in
        ground (arith, r.get-lrem d4 (queue_key lab) user j)

    pub lrange-try_acquire :
        (j : ListKey)
        → has_free_slot r c d lab ≡ true
        → lrange (try_acquire r c d user lab).0 j ≡ (
            if list_key_eq (queue_key lab) j
            then remove_all user (lrange d (queue_key lab))
            else lrange d j)
    unfolding try_acquire has_free_slot
    lrange-try_acquire j h =
        let d1 = r.incr d (active_key lab) in
        let d2 = r.expire d1 (active_key lab) active_ttl in
        let d3 = r.incr d2 total_key in
        let d4 = r.expire d3 total_key active_ttl in
        let kept = λ (k : ListKey).
          r.lrange-expire d3 total_key active_ttl k
          ∙ r.lrange-incr d2 total_key k
          ∙ r.lrange-expire d1 (active_key lab) active_ttl k
          ∙ r.lrange-incr d (active_key lab) k in
        ground (arith, r.lrange-lrem d4 (queue_key lab) user j, kept j, kept (queue_key lab))

    -- A free slot is two counters below their caps.
    pub has_free_slot_iff :
        (has_free_slot r c d lab ≡ true)
        ↔ ((get d (active_key lab) < lab_cap c lab) × (get d total_key < c.global_cap))
    unfolding has_free_slot
    has_free_slot_iff = ground arith

  get-decr_if_positive :
      (d : Db) (k j : CounterKey)
      → get (decr_if_positive r c d k) j ≡ (if counter_key_eq k j then get d j - 1 else get d j)
  unfolding decr_if_positive
  get-decr_if_positive d k j = ground (arith, counter_key_eq→eq k j, r.get-decr d k j)

  pub get-release :
      (d : Db) (lab : LabSlug) (j : CounterKey)
      → get (release r c d lab) j ≡ (
          if counter_key_eq (active_key lab) j || counter_key_eq total_key j
          then get d j - 1
          else get d j)
  unfolding release
  get-release d lab j =
      let d1 = decr_if_positive r c d (active_key lab) in
      ground (
        arith,
        get-decr_if_positive d (active_key lab) j,
        get-decr_if_positive d1 total_key j,
        get-decr_if_positive d (active_key lab) total_key,
      )
