-- ===== src/Queue/Ledger.antt =====
-- The counters of backend/sessions/queue.py against what they stand for: the caps, and the slots
-- that launched sessions hold.
use onlinetlabs.Base.{
  suc, ◌-◌, ◌<◌, ◌≡◌, refl, sym, ◌∙◌, Bool, true, false, inl, inr, List, [], ◌∷◌, arith, ◌==◌, ltb,
  ◌&&◌, if◌then◌else◌, Bool-cases, ap₂, ltb→lt, count, length,
}
use onlinetlabs.Redis.{Redis, LabSlug, UserId, CounterKey, active_key, total_key, queue_key}
use onlinetlabs.Queue.{Capacity, lab_cap, try_acquire, release, enqueue, dequeue, has_free_slot}
use onlinetlabs.Queue.Slots.{try_acquire_full, try_acquire_result, get-try_acquire, get-release}

-- The slots that are held, a lab for each: the abstract state.
abbrev pub Held : Type 0
Held = List LabSlug

-- One slot of a lab is given back.
abbrev pub give_back : LabSlug → Held → Held
give_back lab [] = []
give_back lab (x ∷ xs) = let rest = give_back lab xs in if x == lab then xs else x ∷ rest

-- A slot is free while the lab and the platform hold fewer than their caps.
abbrev pub has_room : Capacity → Held → LabSlug → Bool
has_room c held lab = ltb (count lab held) (lab_cap c lab) && ltb (length held) c.global_cap

-- What a caller of the queue service does. A slot is given back only by whoever holds one.
pub data Request : Type 0 where
  take_slot : UserId → LabSlug → Request
  give_slot : LabSlug → Request
  wait : UserId → LabSlug → Request
  leave : UserId → LabSlug → Request

-- The specification of a request: the slots after it, and whether it was granted.
abbrev pub grant : Capacity → Held → Request → Held × Bool
grant c held (take_slot user lab) =
    if has_room c held lab then (lab ∷ held, true) else (held, false)
grant c held (give_slot lab) =
    if ltb 0 (count lab held) then (give_back lab held, true) else (held, false)
grant c held (wait user lab) = (held, true)
grant c held (leave user lab) = (held, true)

abbrev pub grant_all : Capacity → Held → List Request → Held × List Bool
grant_all c held [] = (held, [])
grant_all c held (q ∷ qs) =
    let (held', b) = grant c held q in let (end, bs) = grant_all c held' qs in (end, b ∷ bs)

length-give_back :
    (lab : LabSlug) (held : Held)
    → 0 < count lab held
    → suc (length (give_back lab held)) ≡ length held
length-give_back lab [] h = absurd (omega arith)
length-give_back lab (x ∷ xs) h = ground (arith, length-give_back lab xs)

count-give_back :
    (j lab : LabSlug) (held : Held)
    → count j (give_back lab held) ≡ (if lab == j then count j held - 1 else count j held)
count-give_back j lab [] = ground arith
count-give_back j lab (x ∷ xs) = ground (arith, count-give_back j lab xs)

module _ (r : Redis) (c : Capacity) where
  open r use {Db, get}

  -- The service's own run of a request. A caller that holds no slot of the lab releases none.
  unfoldable pub serve : Db → Held → Request → Db × Bool
  serve d held (take_slot user lab) = try_acquire r c d user lab
  serve d held (give_slot lab) =
      if ltb 0 (count lab held) then (release r c d lab, true) else (d, false)
  serve d held (wait user lab) = ((enqueue r c d user lab).0, true)
  serve d held (leave user lab) = ((dequeue r c d user lab).0, true)

  unfoldable pub serve_all : Db → Held → List Request → Db × List Bool
  unfolding serve
  serve_all d held [] = (d, [])
  serve_all d held (q ∷ qs) =
      let (d', b) = serve d held q in
      let (end, bs) = serve_all d' (grant c held q).0 qs in (end, b ∷ bs)

  -- The counters say how many slots are held.
  pub record Counts (d : Db) (held : Held) : Type 0 where
    pub per_lab : (lab : LabSlug) → get d (active_key lab) ≡ count lab held
    pub in_total : get d total_key ≡ length held

  pub get-enqueue :
      (d : Db) (user : UserId) (lab : LabSlug) (j : CounterKey)
      → get (enqueue r c d user lab).0 j ≡ get d j
  unfolding enqueue
  get-enqueue d user lab j = ground (
    arith,
    r.get-lexpire d (queue_key lab) c.queue_ttl_seconds j,
    r.get-lexpire (r.rpush d (queue_key lab) user) (queue_key lab) c.queue_ttl_seconds j,
    r.get-rpush d (queue_key lab) user j,
  )

  pub get-dequeue :
      (d : Db) (user : UserId) (lab : LabSlug) (j : CounterKey)
      → get (dequeue r c d user lab).0 j ≡ get d j
  unfolding dequeue
  get-dequeue d user lab j = r.get-lrem d (queue_key lab) user j

  Counts-has_room :
      (d : Db) (held : Held) (lab : LabSlug)
      → Counts d held
      → has_free_slot r c d lab ≡ has_room c held lab
  unfolding has_free_slot
  Counts-has_room d held lab n = ground (arith, n.per_lab lab)

  Counts-take :
      (d : Db) (held : Held) (user : UserId) (lab : LabSlug)
      → Counts d held
      → has_free_slot r c d lab ≡ true
      → Counts (try_acquire r c d user lab).0 (lab ∷ held)
  Counts-take d held user lab n free = record {
    per_lab = λ j. ground (arith, get-try_acquire r c d user lab (active_key j) free, n.per_lab j);
    in_total = ground (arith, get-try_acquire r c d user lab total_key free);
  }

  Counts-give :
      (d : Db) (held : Held) (lab : LabSlug)
      → Counts d held
      → 0 < count lab held
      → Counts (release r c d lab) (give_back lab held)
  Counts-give d held lab n h = record {
    per_lab = λ j.
        ground
          (arith, get-release r c d lab (active_key j), n.per_lab j, count-give_back j lab held);
    in_total = ground (arith, get-release r c d lab total_key, length-give_back lab held h);
  }

  serve-grant :
      (d : Db) (held : Held) (q : Request)
      → Counts d held
      → Counts (serve d held q).0 (grant c held q).0 × ((serve d held q).1 ≡ (grant c held q).1)
  unfolding serve
  serve-grant d held (take_slot user lab) n = elim (Bool-cases (has_free_slot r c d lab)) [
    | inl free ↦
        rw (sym (Counts-has_room d held lab n) ∙ free)
          (Counts-take d held user lab n free, try_acquire_result r c d user lab ∙ free)
    | inr full ↦
        rw (sym (Counts-has_room d held lab n) ∙ full, try_acquire_full r c d user lab full)
          (n, refl)
  ]
  serve-grant d held (give_slot lab) n = elim (Bool-cases (ltb 0 (count lab held))) [
    | inl some_held ↦ rw some_held (Counts-give d held lab n (ltb→lt _ _ some_held), refl)
    | inr none_held ↦ rw none_held (n, refl)
  ]
  serve-grant d held (wait user lab) n = (
    record {
      per_lab = λ j. get-enqueue d user lab (active_key j) ∙ n.per_lab j;
      in_total = get-enqueue d user lab total_key ∙ n.in_total;
    },
    refl,
  )
  serve-grant d held (leave user lab) n = (
    record {
      per_lab = λ j. get-dequeue d user lab (active_key j) ∙ n.per_lab j;
      in_total = get-dequeue d user lab total_key ∙ n.in_total;
    },
    refl,
  )

  -- Over any sequence of requests, from counters that count the held slots, the service grants
  -- exactly the requests that the specification grants, and its counters still count the slots
  -- held at the end.
  pub serve_all-grant_all :
      (d : Db) (held : Held) (qs : List Request)
      → Counts d held
      → Counts (serve_all d held qs).0 (grant_all c held qs).0
        × ((serve_all d held qs).1 ≡ (grant_all c held qs).1)
  unfolding serve_all
  serve_all-grant_all d held [] n = (n, refl)
  serve_all-grant_all d held (q ∷ qs) n =
      let (n', same) = serve-grant d held q n in
      let (end, sames) = serve_all-grant_all (serve d held q).0 (grant c held q).0 qs n' in
      (end, ap₂ ◌∷◌ same sames)
