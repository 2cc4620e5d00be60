-- ===== src/Tests/Connections.antt =====
-- The theorems about mcp-sdk/src/mcp_sdk/connection.py: a pool of two connections.
use onlinetlabs.Base.{◌+◌, ◌<◌, refl, [], ◌∷◌, ◌++◌, arith, length}
use onlinetlabs.Pool.{Entry, Entries, Limits, put_last, close_entry}
use onlinetlabs.Pool.Calls.{IsPool}
use onlinetlabs.Pool.Race.{Traffic, finds_room, puts, Reach, here, next, Reach-IsBounded}

abbrev limits : Limits
limits = record { max_size = 2; idle_ttl = 100; health_check_interval = 10; min_evict_idle = 5 }

abbrev two_open : Entries
two_open =
    record { key = 1; conn = 11; last_used = 10; last_checked = 10 }
    ∷ record { key = 2; conn = 12; last_used = 20; last_checked = 20 }
    ∷ []

two_open-IsPool : IsPool limits 20 two_open
two_open-IsPool = record {
  once = λ k. ground (arith);
  ordered = ((omega arith, tt), (tt, tt));
  past = (omega arith, (omega arith, tt));
  bounded = omega arith;
}

abbrev one_open : Traffic
one_open = record {
  entries = record { key = 1; conn = 11; last_used = 10; last_checked = 10 } ∷ [];
  opening = 0;
}

abbrev second : Entry
second = record { key = 2; conn = 12; last_used = 30; last_checked = 30 }

abbrev third : Entry
third = record { key = 3; conn = 13; last_used = 31; last_checked = 31 }

-- Two calls find room for one connection, and both put theirs in.
overfull :
    Reach limits 2 one_open
      (record { entries = one_open.entries ++ second ∷ third ∷ []; opening = 0 })
unfolding put_last close_entry
overfull =
    next
      (next
        (next (next here (finds_room (omega arith) (omega arith)))
          (finds_room (omega arith) (omega arith)))
        (puts second (omega arith)))
      (puts third (omega arith))

Reach-IsBounded_example : length (one_open.entries ++ second ∷ third ∷ []) + 0 < limits.max_size + 2
Reach-IsBounded_example = Reach-IsBounded (omega arith) (omega arith) refl overfull
