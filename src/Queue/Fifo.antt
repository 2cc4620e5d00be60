-- ===== src/Queue/Fifo.antt =====
-- The waiting queue of backend/sessions/queue.py: enqueueing once, positions, and leaving.
use onlinetlabs.Base.{
  ℕ, suc, ◌+◌, ◌-◌, ◌≤◌, ◌<◌, ◌≡◌, ◌≢◌, refl, sym, ap, ◌∙◌, true, false, none, some, List, [], ◌∷◌,
  ◌++◌, arith, ◌==◌, if◌then◌else◌, count, length, length-append, count-append, not, take,
  length-take-le, ◌&&◌, is_some,
}
use onlinetlabs.Redis.{
  Redis, LabSlug, UserId, ListKey, queue_key, provision_key, remove_all, list_key_eq,
}
use onlinetlabs.Queue.{
  Capacity, enqueue, dequeue, position, record_provision_seconds, avg_provision_seconds,
  provision_samples, active_ttl, try_acquire, has_free_slot, find_from,
}
use onlinetlabs.Queue.Slots.{lrange-try_acquire, try_acquire_full, try_acquire_result}

-- How many entries of one user stand ahead of another's first.
abbrev pub ahead : UserId → UserId → List UserId → ℕ
ahead user v [] = 0
ahead user v (x ∷ xs) =
    let rest = ahead user v xs in if x == v then 0 else (if x == user then suc rest else rest)

find_from-eq-none :
    (i : ℕ) (u : UserId) (xs : List UserId) → count u xs ≡ 0 → find_from i u xs ≡ none
unfolding find_from
find_from-eq-none i u [] h = refl
find_from-eq-none i u (x ∷ xs) h = ground (arith, find_from-eq-none (i + 1) u xs)

find_from-absent :
    (i : ℕ) (u : UserId) (xs : List UserId) → find_from i u xs ≡ none → count u xs ≡ 0
unfolding find_from
find_from-absent i u [] h = refl
find_from-absent i u (x ∷ xs) h = ground (arith, find_from-absent (i + 1) u xs)

find_from-append_self :
    (i : ℕ) (u : UserId) (xs : List UserId)
    → find_from i u xs ≡ none
    → find_from i u (xs ++ u ∷ []) ≡ some (i + length xs)
unfolding find_from
find_from-append_self i u [] h = ground arith
find_from-append_self i u (x ∷ xs) h = ground (arith, find_from-append_self (i + 1) u xs)

find_from-append_ne :
    (i : ℕ) (u v : UserId) (xs : List UserId)
    → u ≢ v
    → find_from i v (xs ++ u ∷ []) ≡ find_from i v xs
unfolding find_from
find_from-append_ne i u v [] h = ground arith
find_from-append_ne i u v (x ∷ xs) h = ground (arith, find_from-append_ne (i + 1) u v xs)

find_from-le : (i : ℕ) (v : UserId) (xs : List UserId) (p : ℕ) → find_from i v xs ≡ some p → i ≤ p
unfolding find_from
find_from-le i v [] p h = cc
find_from-le i v (x ∷ xs) p h = ground (arith, find_from-le (i + 1) v xs p)

-- The positions counted from one index less.
find_from-pred :
    (i : ℕ) (v : UserId) (xs : List UserId) (p : ℕ)
    → find_from (i + 1) v xs ≡ some p
    → find_from i v xs ≡ some (p - 1)
unfolding find_from
find_from-pred i v [] p h = cc
find_from-pred i v (x ∷ xs) p h = ground (arith, find_from-pred (i + 1) v xs p)

find_from-remove_all :
    (i : ℕ) (u v : UserId) (xs : List UserId) (p : ℕ)
    → u ≢ v
    → find_from i v xs ≡ some p
    → (find_from i v (remove_all u xs) ≡ some (p - ahead u v xs)) × (i + ahead u v xs ≤ p)
unfolding find_from
find_from-remove_all i u v [] p ne h = cc
find_from-remove_all i u v (x ∷ xs) p ne h = ground (
  arith,
  find_from-remove_all (i + 1) u v xs p ne,
  find_from-pred i v (remove_all u xs) (p - ahead u v xs),
)

count-remove_all :
    (u v : UserId) (xs : List UserId)
    → count v (remove_all u xs) ≡ (if u == v then 0 else count v xs)
count-remove_all u v [] = ground arith
count-remove_all u v (x ∷ xs) = ground (arith, count-remove_all u v xs)

-- Nobody waits twice.
abbrev pub IsDistinct : List UserId → Type 0
IsDistinct xs = (v : UserId) → count v xs ≤ 1

module _ (r : Redis) (c : Capacity) where
  open r use {Db, lrange}

  module _ (d : Db) (user : UserId) (lab : LabSlug) where
    lrange-enqueue :
        (j : ListKey)
        → lrange (enqueue r c d user lab).0 j ≡ (
            if list_key_eq (queue_key lab) j && not (is_some (position r c d user lab))
            then lrange d (queue_key lab) ++ user ∷ []
            else lrange d j)
    unfolding enqueue position
    lrange-enqueue j = ground (
      arith,
      r.lrange-lexpire d (queue_key lab) c.queue_ttl_seconds j,
      r.lrange-lexpire (r.rpush d (queue_key lab) user) (queue_key lab) c.queue_ttl_seconds j,
      r.lrange-rpush d (queue_key lab) user j,
    )

    -- Enqueueing keeps the queue free of duplicates.
    enqueue-IsDistinct :
        IsDistinct (lrange d (queue_key lab))
        → IsDistinct (lrange (enqueue r c d user lab).0 (queue_key lab))
    unfolding position
    enqueue-IsDistinct once v = ground (
      arith,
      lrange-enqueue (queue_key lab),
      once v,
      count-append v (lrange d (queue_key lab)) (user ∷ []),
      find_from-absent 1 user (lrange d (queue_key lab)),
    )

    enqueue-position :
        position r c (enqueue r c d user lab).0 user lab ≡ some (enqueue r c d user lab).1
    unfolding enqueue position
    enqueue-position = ground (
      arith,
      lrange-enqueue (queue_key lab),
      find_from-append_self 1 user (lrange d (queue_key lab)),
      length-append (lrange d (queue_key lab)) (user ∷ []),
    )

    enqueue-position_ne :
        (v : UserId)
        → user ≢ v
        → position r c (enqueue r c d user lab).0 v lab ≡ position r c d v lab
    unfolding position
    enqueue-position_ne v ne = ground (
      arith,
      lrange-enqueue (queue_key lab),
      find_from-append_ne 1 user v (lrange d (queue_key lab)) ne,
    )

    result-enqueue_waiting :
        (p : ℕ) → position r c d user lab ≡ some p → (enqueue r c d user lab).1 ≡ p
    unfolding enqueue position
    result-enqueue_waiting p h = ground arith

    position-dequeue_self : position r c (dequeue r c d user lab).0 user lab ≡ none
    unfolding position dequeue
    position-dequeue_self =
        let xs = lrange d (queue_key lab) in
        ground (
          arith,
          r.lrange-lrem d (queue_key lab) user (queue_key lab),
          count-remove_all user user xs,
          find_from-eq-none 1 user (remove_all user xs),
        )

    position-dequeue_ne :
        (v : UserId) (p : ℕ)
        → user ≢ v
        → position r c d v lab ≡ some p
        → position r c (dequeue r c d user lab).0 v lab
          ≡ some (p - ahead user v (lrange d (queue_key lab)))
    unfolding position dequeue
    position-dequeue_ne v p ne h =
        let xs = lrange d (queue_key lab) in
        ground (
          arith,
          r.lrange-lrem d (queue_key lab) user (queue_key lab),
          find_from-remove_all 1 user v xs p ne,
        )

  enqueue_once :
      (d : Db) (user : UserId) (lab : LabSlug)
      → IsDistinct (lrange d (queue_key lab))
      → let (d', place) = enqueue r c d user lab in
        (position r c d' user lab ≡ some place)
        × ((v : UserId) → user ≢ v → position r c d' v lab ≡ position r c d v lab)
        × IsDistinct (lrange d' (queue_key lab))
        × ((p : ℕ)
            → position r c d user lab ≡ some p
            → (place ≡ p) × ((j : ListKey) → lrange d' j ≡ lrange d j))
  enqueue_once d user lab once = (
    enqueue-position d user lab,
    enqueue-position_ne d user lab,
    enqueue-IsDistinct d user lab once,
    λ p waits. (
      result-enqueue_waiting d user lab p waits,
      λ j. ground (arith, lrange-enqueue d user lab j),
    ),
  )

  dequeue_lem :
      (d : Db) (user : UserId) (lab : LabSlug)
      → let (d', dropped) = dequeue r c d user lab in
        (position r c d' user lab ≡ none)
        × (dropped ≡ count user (lrange d (queue_key lab)))
        × ((v : UserId) (p : ℕ)
            → user ≢ v
            → position r c d v lab ≡ some p
            → let n = ahead user v (lrange d (queue_key lab)) in
              (position r c d' v lab ≡ some (p - n)) × (1 + n ≤ p))
  unfolding dequeue position
  dequeue_lem d user lab = (
    position-dequeue_self d user lab,
    r.removed-lrem d (queue_key lab) user,
    λ v p ne h. (
      position-dequeue_ne d user lab v p ne h,
      (find_from-remove_all 1 user v (lrange d (queue_key lab)) p ne h).1,
    ),
  )

  -- Enqueueing a user on a duplicate-free queue returns the position at which the user now waits,
  -- leaves every other user's position, keeps the queue free of duplicates, and changes no list at
  -- all when the user waited already, whose position is then returned. Leaving the queue removes the
  -- user, returns how many entries were dropped, and moves each other waiting user up by exactly the
  -- number of dropped entries that stood ahead, never out of the queue: the new position is still at
  -- least 1.
  enqueue-dequeue :
      (d : Db) (user : UserId) (lab : LabSlug)
      → IsDistinct (lrange d (queue_key lab))
      → let (e, place) = enqueue r c d user lab in
        let (l, dropped) = dequeue r c d user lab in
        ((position r c e user lab ≡ some place)
          × ((v : UserId) → user ≢ v → position r c e v lab ≡ position r c d v lab)
          × IsDistinct (lrange e (queue_key lab))
          × ((p : ℕ)
              → position r c d user lab ≡ some p
              → (place ≡ p) × ((j : ListKey) → lrange e j ≡ lrange d j)))
        × (position r c l user lab ≡ none)
        × (dropped ≡ count user (lrange d (queue_key lab)))
        × ((v : UserId) (p : ℕ)
            → user ≢ v
            → position r c d v lab ≡ some p
            → let n = ahead user v (lrange d (queue_key lab)) in
              (position r c l v lab ≡ some (p - n)) × (1 + n ≤ p))
  enqueue-dequeue d user lab once =
      let (gone, dropped, others) = dequeue_lem d user lab in
      (enqueue_once d user lab once, gone, dropped, others)

  -- A granted slot takes the user out of the lab's queue, and a refused one changes nothing; the
  -- answer is the one that `has_free_slot` gives.
  try_acquire_lem :
      (d : Db) (user : UserId) (lab : LabSlug)
      → let (d', acquired) = try_acquire r c d user lab in
        (acquired ≡ has_free_slot r c d lab)
        × (acquired ≡ true → position r c d' user lab ≡ none)
        × (acquired ≡ false → d' ≡ d)
  unfolding position
  try_acquire_lem d user lab = (
    try_acquire_result r c d user lab,
    λ granted.
        let xs = lrange d (queue_key lab) in
        let free = sym (try_acquire_result r c d user lab) ∙ granted in
        ground (
          arith,
          lrange-try_acquire r c d user lab (queue_key lab) free,
          count-remove_all user user xs,
          find_from-eq-none 1 user (remove_all user xs),
        ),
    λ refused.
        ap (λ p. p.0)
          (try_acquire_full r c d user lab (sym (try_acquire_result r c d user lab) ∙ refused)),
  )

  -- Recording a duration keeps the twenty newest samples, newest first, and the mean is always
  -- taken over at least one sample and at most twenty.
  record_provision_seconds_lem :
      (d : Db) (seconds : ℕ)
      → let d' = record_provision_seconds r c d seconds in
        (lrange d' provision_key ≡ take provision_samples (seconds ∷ lrange d provision_key))
        × (0 < (avg_provision_seconds r c d').count)
        × ((avg_provision_seconds r c d').count ≤ provision_samples)
  unfolding record_provision_seconds avg_provision_seconds
  record_provision_seconds_lem d seconds =
      let d1 = r.lpush d provision_key seconds in
      let window =
        r.lrange-lexpire (r.ltrim d1 provision_key provision_samples) provision_key active_ttl
          provision_key
        ∙ r.lrange-ltrim d1 provision_key provision_samples provision_key
        ∙ ap (take provision_samples) (r.lrange-lpush d provision_key seconds provision_key) in
      (
        window,
        rw (window, avg_provision_seconds) (omega arith),
        rw (window, avg_provision_seconds)
            (length-take-le provision_samples (seconds ∷ lrange d provision_key)),
      )
