-- ===== src/Redis.antt =====
-- Redis as the backend uses it (backend/kit/redis.py is the client): a service outside the
-- repository, so its commands are the fields of an interface and what their documentation says is
-- its laws. The keys are those of backend/sessions/queue.py.
use onlinetlabs.Base.{
  ℕ, suc, ◌-◌, ◌<◌, ◌≡◌, Bool, true, false, ◌⊎◌, List, [], ◌∷◌, ◌++◌, not, ◌==◌, if◌then◌else◌,
  filter, take, count,
}

-- A lab's slug and a user's id are only compared for equality: a number stands for each.
abbrev pub LabSlug : Type 0
LabSlug = ℕ

abbrev pub UserId : Type 0
UserId = ℕ

-- The keys that hold a counter: `active_sessions:<slug>` and `active_sessions_total`.
pub data CounterKey : Type 0 where
  active_key : LabSlug → CounterKey
  total_key : CounterKey

-- The keys that hold a list: `queue:<slug>` and `provision_seconds`.
pub data ListKey : Type 0 where
  queue_key : LabSlug → ListKey
  provision_key : ListKey

abbrev pub counter_key_eq : CounterKey → CounterKey → Bool
counter_key_eq (active_key a) (active_key b) = a == b
counter_key_eq (active_key a) total_key = false
counter_key_eq total_key (active_key b) = false
counter_key_eq total_key total_key = true

abbrev pub list_key_eq : ListKey → ListKey → Bool
list_key_eq (queue_key a) (queue_key b) = a == b
list_key_eq (queue_key a) provision_key = false
list_key_eq provision_key (queue_key b) = false
list_key_eq provision_key provision_key = true

-- The elements other than a value.
abbrev pub remove_all : ℕ → List ℕ → List ℕ
remove_all u = filter (λ x. not (x == u))

-- The commands. A key that does not exist reads as 0, and as the empty list.
pub record Redis : Type 1 where
  pub Db : Type 0
  pub get : Db → CounterKey → ℕ
  pub incr : Db → CounterKey → Db
  pub decr : Db → CounterKey → Db
  pub expire : Db → CounterKey → ℕ → Db
  pub lrange : Db → ListKey → List ℕ
  pub rpush : Db → ListKey → ℕ → Db
  pub lpush : Db → ListKey → ℕ → Db
  pub lrem : Db → ListKey → ℕ → Db × ℕ
  -- `LTRIM key 0 (n - 1)`
  pub ltrim : Db → ListKey → ℕ → Db
  pub lexpire : Db → ListKey → ℕ → Db
  -- Time passes, and some of the keys reach the end of their time to live.
  pub Elapse : Db → Db → Type 0
  pub get-incr :
      (d : Db) (k j : CounterKey)
      → get (incr d k) j ≡ (if counter_key_eq k j then suc (get d k) else get d j)
  pub get-decr :
      (d : Db) (k j : CounterKey)
      → 0 < get d k
      → get (decr d k) j ≡ (if counter_key_eq k j then get d k - 1 else get d j)
  pub get-expire : (d : Db) (k j : CounterKey) (ttl : ℕ) → get (expire d k ttl) j ≡ get d j
  pub get-lrem : (d : Db) (k : ListKey) (u : ℕ) (j : CounterKey) → get (lrem d k u).0 j ≡ get d j
  pub get-rpush : (d : Db) (k : ListKey) (u : ℕ) (j : CounterKey) → get (rpush d k u) j ≡ get d j
  pub get-lpush : (d : Db) (k : ListKey) (u : ℕ) (j : CounterKey) → get (lpush d k u) j ≡ get d j
  pub get-ltrim : (d : Db) (k : ListKey) (n : ℕ) (j : CounterKey) → get (ltrim d k n) j ≡ get d j
  pub get-lexpire :
      (d : Db) (k : ListKey) (n : ℕ) (j : CounterKey) → get (lexpire d k n) j ≡ get d j
  pub get-elapse : (d e : Db) (j : CounterKey) → Elapse d e → (get e j ≡ get d j) ⊎ (get e j ≡ 0)
  pub lrange-incr : (d : Db) (k : CounterKey) (j : ListKey) → lrange (incr d k) j ≡ lrange d j
  pub lrange-decr : (d : Db) (k : CounterKey) (j : ListKey) → lrange (decr d k) j ≡ lrange d j
  pub lrange-expire :
      (d : Db) (k : CounterKey) (ttl : ℕ) (j : ListKey) → lrange (expire d k ttl) j ≡ lrange d j
  pub lrange-rpush :
      (d : Db) (k : ListKey) (u : ℕ) (j : ListKey)
      → lrange (rpush d k u) j ≡ (if list_key_eq k j then lrange d k ++ u ∷ [] else lrange d j)
  pub lrange-lpush :
      (d : Db) (k : ListKey) (u : ℕ) (j : ListKey)
      → lrange (lpush d k u) j ≡ (if list_key_eq k j then u ∷ lrange d k else lrange d j)
  pub lrange-lrem :
      (d : Db) (k : ListKey) (u : ℕ) (j : ListKey)
      → lrange (lrem d k u).0 j
        ≡ (if list_key_eq k j then remove_all u (lrange d k) else lrange d j)
  pub removed-lrem : (d : Db) (k : ListKey) (u : ℕ) → (lrem d k u).1 ≡ count u (lrange d k)
  pub lrange-ltrim :
      (d : Db) (k : ListKey) (n : ℕ) (j : ListKey)
      → lrange (ltrim d k n) j ≡ (if list_key_eq k j then take n (lrange d k) else lrange d j)
  pub lrange-lexpire :
      (d : Db) (k : ListKey) (ttl : ℕ) (j : ListKey) → lrange (lexpire d k ttl) j ≡ lrange d j
  pub lrange-elapse :
      (d e : Db) (j : ListKey) → Elapse d e → (lrange e j ≡ lrange d j) ⊎ (lrange e j ≡ [])
