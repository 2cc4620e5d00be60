-- ===== src/Tests/Slots.antt =====
-- The theorems about backend/sessions/queue.py, where lab 7 has one slot.
use onlinetlabs.Base.{◌≡◌, refl, List, [], ◌∷◌, arith}
use onlinetlabs.Redis.{queue_key}
use onlinetlabs.Queue.{try_acquire}
use onlinetlabs.Queue.Ledger.{
  Request, take_slot, give_slot, wait, leave, serve_all, grant_all, Counts, serve_all-grant_all,
}
use onlinetlabs.Queue.Caps.{acquired, here, next, WithinCaps, Reach-WithinCaps}
use onlinetlabs.Queue.Fifo.{IsDistinct}
use onlinetlabs.Tests.Fixtures.{Memory, memory, empty, two_slots, put_list}

abbrev requests : List Request
requests =
    take_slot 1 7
    ∷ take_slot 2 7
    ∷ wait 2 7
    ∷ give_slot 7
    ∷ take_slot 2 7
    ∷ leave 1 7
    ∷ give_slot 9
    ∷ []

Counts-empty : Counts memory two_slots empty []
Counts-empty = record { per_lab = λ lab. refl; in_total = refl }

serve_all-grant_all_example :
    Counts memory two_slots
      (serve_all memory two_slots empty [] requests).0
      (grant_all two_slots [] requests).0
    × ((serve_all memory two_slots empty [] requests).1 ≡ (grant_all two_slots [] requests).1)
serve_all-grant_all_example = serve_all-grant_all memory two_slots empty [] requests Counts-empty

WithinCaps-empty : WithinCaps memory two_slots empty
WithinCaps-empty = record { lab_within = λ lab. omega arith; total_within = omega arith }

abbrev one_taken : Memory
one_taken = (try_acquire memory two_slots empty 1 7).0

abbrev refused_next : Memory
refused_next = (try_acquire memory two_slots one_taken 2 7).0

Reach-WithinCaps_example : WithinCaps memory two_slots refused_next
Reach-WithinCaps_example =
    Reach-WithinCaps memory two_slots {d = empty} {e = refused_next} WithinCaps-empty
      (next (next here (acquired 1 7)) (acquired 2 7))

-- Users 4, 5 and 6 wait for lab 7.
abbrev waiting : Memory
waiting = put_list empty (queue_key 7) (4 ∷ 5 ∷ 6 ∷ [])

waiting-IsDistinct : IsDistinct (4 ∷ 5 ∷ 6 ∷ [])
waiting-IsDistinct v = ground arith
