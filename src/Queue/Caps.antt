-- ===== src/Queue/Caps.antt =====
-- The caps of backend/sessions/queue.py under any interleaving of calls and of expiring keys.
use onlinetlabs.Base.{ℕ, ◌≤◌, ◌≡◌, inl, inr, arith, Bool-cases, ◌∙◌}
use onlinetlabs.Redis.{Redis, LabSlug, UserId, CounterKey, active_key, total_key}
use onlinetlabs.Queue.{
  Capacity, lab_cap, try_acquire, release, enqueue, dequeue, record_provision_seconds,
  has_free_slot,
}
use onlinetlabs.Queue.Slots.{try_acquire_full, get-try_acquire, has_free_slot_iff, get-release}
use onlinetlabs.Queue.Ledger.{get-enqueue, get-dequeue}

module _ (r : Redis) (c : Capacity) where
  open r use {Db, get, Elapse}

  -- One atomic call by anyone, or time in which keys expire.
  pub data Step (d : Db) : Db → Type 0 where
    acquired : (user : UserId) (lab : LabSlug) → Step d (try_acquire r c d user lab).0
    released : (lab : LabSlug) → Step d (release r c d lab)
    enqueued : (user : UserId) (lab : LabSlug) → Step d (enqueue r c d user lab).0
    dequeued : (user : UserId) (lab : LabSlug) → Step d (dequeue r c d user lab).0
    recorded : (seconds : ℕ) → Step d (record_provision_seconds r c d seconds)
    elapsed : {e : Db} → Elapse d e → Step d e

  pub data Reach (d : Db) : Db → Type 0 where
    here : Reach d d
    next : {e f : Db} → Reach d e → Step e f → Reach d f

  pub record WithinCaps (d : Db) : Type 0 where
    pub lab_within : (lab : LabSlug) → get d (active_key lab) ≤ lab_cap c lab
    pub total_within : get d total_key ≤ c.global_cap

  same_counters-WithinCaps :
      (d e : Db) → ((j : CounterKey) → get e j ≤ get d j) → WithinCaps d → WithinCaps e
  same_counters-WithinCaps d e le w = record {
    lab_within = λ lab. omega (arith, le (active_key lab), w.lab_within lab);
    total_within = omega (arith, le total_key, w.total_within);
  }

  try_acquire-WithinCaps :
      (d : Db) (user : UserId) (lab : LabSlug)
      → WithinCaps d
      → WithinCaps (try_acquire r c d user lab).0
  try_acquire-WithinCaps d user lab w = elim (Bool-cases (has_free_slot r c d lab)) [
    | inl free ↦
        let room = (has_free_slot_iff r c d user lab).0 free in
        record {
          lab_within = λ j.
              ground
                (arith, get-try_acquire r c d user lab (active_key j) free, room, w.lab_within j);
          total_within = ground (arith, get-try_acquire r c d user lab total_key free, room);
        }
    | inr full ↦ rw (try_acquire_full r c d user lab full) w
  ]

  get-record_provision_seconds :
      (d : Db) (seconds : ℕ) (j : CounterKey)
      → get (record_provision_seconds r c d seconds) j ≡ get d j
  unfolding record_provision_seconds
  get-record_provision_seconds d seconds j =
      r.get-lexpire _ _ _ j ∙ r.get-ltrim _ _ _ j ∙ r.get-lpush _ _ _ j

  Step-WithinCaps : {d e : Db} → Step d e → WithinCaps d → WithinCaps e
  Step-WithinCaps {d} (acquired user lab) w = try_acquire-WithinCaps d user lab w
  Step-WithinCaps {d} (released lab) w =
      same_counters-WithinCaps d _ (λ j. ground (arith, get-release r c d lab j)) w
  Step-WithinCaps {d} (enqueued user lab) w =
      same_counters-WithinCaps d _ (λ j. omega (arith, get-enqueue r c d user lab j)) w
  Step-WithinCaps {d} (dequeued user lab) w =
      same_counters-WithinCaps d _ (λ j. omega (arith, get-dequeue r c d user lab j)) w
  Step-WithinCaps {d} (recorded seconds) w =
      same_counters-WithinCaps d _ (λ j. omega (arith, get-record_provision_seconds d seconds j)) w
  Step-WithinCaps {d} {e} (elapsed t) w =
      same_counters-WithinCaps d e (λ j. ground (arith, r.get-elapse d e j t)) w

  -- From counters within the caps, every sequence of acquires, releases, queue operations and
  -- recorded durations, by any callers and with keys expiring at any moment between them, ends in
  -- counters within the caps: no lab's counter passes its own cap, nor the total the global cap.
  pub Reach-WithinCaps : {d e : Db} → WithinCaps d → Reach d e → WithinCaps e
  Reach-WithinCaps w here = w
  Reach-WithinCaps w (next reach s) = Step-WithinCaps s (Reach-WithinCaps w reach)
