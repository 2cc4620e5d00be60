-- ===== src/Tests/Fixtures.antt =====
-- A store in memory that keeps the laws of backend/kit/redis.py, and small inputs for the modules
-- of backend/.
use onlinetlabs.Base.{
  ℕ, suc, ◌-◌, ◌≡◌, refl, ◌⊎◌, none, some, List, [], ◌∷◌, ◌++◌, if◌then◌else◌, take, count,
}
use onlinetlabs.Redis.{
  Redis, CounterKey, active_key, ListKey, counter_key_eq, list_key_eq, remove_all,
}
use onlinetlabs.Queue.{Capacity}

pub record Memory : Type 0 where
  pub counters : CounterKey → ℕ
  pub lists : ListKey → List ℕ

abbrev pub put_counter : Memory → CounterKey → ℕ → Memory
put_counter d k n = record d { counters = λ j. if counter_key_eq k j then n else d.counters j }

abbrev pub put_list : Memory → ListKey → List ℕ → Memory
put_list d k xs = record d { lists = λ j. if list_key_eq k j then xs else d.lists j }

abbrev pub memory : Redis
memory = record {
  Db = Memory;
  get = λ d k. d.counters k;
  incr = λ d k. put_counter d k (suc (d.counters k));
  decr = λ d k. put_counter d k (d.counters k - 1);
  expire = λ d k ttl. d;
  lrange = λ d k. d.lists k;
  rpush = λ d k u. put_list d k (d.lists k ++ u ∷ []);
  lpush = λ d k u. put_list d k (u ∷ d.lists k);
  lrem = λ d k u. (put_list d k (remove_all u (d.lists k)), count u (d.lists k));
  ltrim = λ d k n. put_list d k (take n (d.lists k));
  lexpire = λ d k ttl. d;
  Elapse = λ d e.
      ((j : CounterKey) → (e.counters j ≡ d.counters j) ⊎ (e.counters j ≡ 0))
      × ((j : ListKey) → (e.lists j ≡ d.lists j) ⊎ (e.lists j ≡ []));
  get-incr = λ d k j. refl;
  get-decr = λ d k j h. refl;
  get-expire = λ d k j ttl. refl;
  get-lrem = λ d k u j. refl;
  get-rpush = λ d k u j. refl;
  get-lpush = λ d k u j. refl;
  get-ltrim = λ d k n j. refl;
  get-lexpire = λ d k n j. refl;
  get-elapse = λ d e j h. h.0 j;
  lrange-incr = λ d k j. refl;
  lrange-decr = λ d k j. refl;
  lrange-expire = λ d k ttl j. refl;
  lrange-rpush = λ d k u j. refl;
  lrange-lpush = λ d k u j. refl;
  lrange-lrem = λ d k u j. refl;
  removed-lrem = λ d k u. refl;
  lrange-ltrim = λ d k n j. refl;
  lrange-lexpire = λ d k ttl j. refl;
  lrange-elapse = λ d e j h. h.1 j;
}

abbrev pub empty : Memory
empty = record { counters = λ k. 0; lists = λ k. [] }

-- Lab 7 has one slot, the platform two.
abbrev pub two_slots : Capacity
two_slots = record {
  per_lab_caps = λ lab. if counter_key_eq (active_key lab) (active_key 7) then some 1 else none;
  global_cap = 2;
  queue_ttl_seconds = 600;
}
