-- ===== src/Pool/Race.antt =====
-- mcp-sdk/src/mcp_sdk/connection.py when many calls of `get_connection` for different keys are under
-- way: each step is what one of them does between two awaits.
use onlinetlabs.Base.{
  ℕ, suc, ◌+◌, ◌-◌, ◌≤◌, ◌<◌, ◌≡◌, true, not, [], ◌∷◌, arith, ◌==◌, length, filter, length-append,
  length-filter-le, contains,
}
use onlinetlabs.Regime.{Time}
use onlinetlabs.Pool.{Entry, Entries, Limits, keys, close_entry, put_last, drop_idle, is_stale}

-- The entries, and how many callers have found room and not yet put their connection in.
pub record Traffic : Type 0 where
  pub entries : Entries
  pub opening : ℕ

-- At most `most` callers open a connection at a time.
pub data Step (l : Limits) (most : ℕ) (t : Traffic) : Traffic → Type 0 where
  idles : (now : Time) → Step l most t (record t { entries = drop_idle l now t.entries })
  closes : (k : ℕ) → Step l most t (record t { entries = close_entry k t.entries })
  -- `move_to_end`, where the key is still in the pool
  uses :
      (e : Entry)
      → contains e.key (keys t.entries) ≡ true
      → Step l most t (record t { entries = put_last e t.entries })
  -- a round of `_make_room` that finds room
  finds_room :
      length t.entries < l.max_size
      → t.opening < most
      → Step l most t (record t { opening = suc t.opening })
  puts :
      (e : Entry)
      → 0 < t.opening
      → Step l most t (record t { entries = put_last e t.entries; opening = t.opening - 1 })
  -- `connect` raises
  gives_up : 0 < t.opening → Step l most t (record t { opening = t.opening - 1 })

pub data Reach (l : Limits) (most : ℕ) (t : Traffic) : Traffic → Type 0 where
  here : Reach l most t t
  next : {u v : Traffic} → Reach l most t u → Step l most u v → Reach l most t v

abbrev pub IsBounded : Limits → ℕ → Traffic → Type 0
IsBounded l most t = length t.entries + t.opening < l.max_size + most

length-put_last : (e : Entry) (es : Entries) → length (put_last e es) ≤ suc (length es)
unfolding put_last close_entry
length-put_last e es = omega (
  arith,
  length-append (filter (λ x. not (x.key == e.key)) es) (e ∷ []),
  length-filter-le (λ x. not (x.key == e.key)) es,
)

length-close-lt :
    (k : ℕ) (es : Entries)
    → contains k (keys es) ≡ true
    → length (filter (λ x. not (x.key == k)) es) < length es
length-close-lt k [] h = cc
length-close-lt k (x ∷ es) h =
    ground (arith, length-close-lt k es, length-filter-le (λ x. not (x.key == k)) es)

length-put_last_known :
    (e : Entry) (es : Entries)
    → contains e.key (keys es) ≡ true
    → length (put_last e es) ≤ length es
unfolding put_last close_entry
length-put_last_known e es h = omega (
  arith,
  length-append (filter (λ x. not (x.key == e.key)) es) (e ∷ []),
  length-close-lt e.key es h,
)

step-IsBounded :
    {l : Limits} {most : ℕ} {t u : Traffic}
    → Step l most t u
    → IsBounded l most t
    → IsBounded l most u
unfolding drop_idle close_entry
step-IsBounded {l} {most} {t} (idles now) v =
    omega (arith, v, length-filter-le (λ e. not (is_stale l now e)) t.entries)
step-IsBounded {l} {most} {t} (closes k) v =
    omega (arith, v, length-filter-le (λ e. not (e.key == k)) t.entries)
step-IsBounded {l} {most} {t} (uses e h) v = omega (arith, v, length-put_last_known e t.entries h)
step-IsBounded (finds_room room few) v = omega (arith, room, few)
step-IsBounded {l} {most} {t} (puts e h) v = omega (arith, v, h, length-put_last e t.entries)
step-IsBounded (gives_up h) v = omega (arith, v, h)

-- However the calls are interleaved, while at most `most` of them open a connection at a time, a pool
-- that held at most `max_size` connections with none being opened holds fewer than `max_size + most`,
-- those being opened included: at most `max_size` where one call opens at a time, and up to
-- `max_size + most - 1` otherwise.
pub Reach-IsBounded :
    {l : Limits} {most : ℕ} {t u : Traffic}
    → 0 < most
    → length t.entries ≤ l.max_size
    → t.opening ≡ 0
    → Reach l most t u
    → length u.entries + u.opening < l.max_size + most
Reach-IsBounded h room none_yet here = omega (arith, h, room, none_yet)
Reach-IsBounded h room none_yet (next reach step) =
    step-IsBounded step (Reach-IsBounded h room none_yet reach)
