-- ===== src/Pool/Calls.antt =====
-- `get_connection` of mcp-sdk/src/mcp_sdk/connection.py, one call after another.
use onlinetlabs.Base.{
  ℕ, ◌≤◌, ◌<◌, ◌≡◌, refl, sym, ap, ◌∙◌, Bool, true, false, not, Option, none, some, [], ◌∷◌, arith,
  ltb, ◌==◌, if◌then◌else◌, length, filter, All, count, Bool-cases, inl, inr, length-append,
  All-filter, All-concat, if-keeps, ltb→lt, All-weaken, length-filter-le, filter-All,
}
use onlinetlabs.Regime.{Time}
use onlinetlabs.Pool.{
  Entry, Entries, Limits, keys, find_entry, close_entry, put_last, is_stale, drop_idle, is_hot,
  make_room, is_alive, checked, Answer, connected, exhausted, connect_raised, open_found,
  open_connection, reuse, get_connection,
}
use onlinetlabs.Pool.Order.{
  UsedBy, IsLruOrder, HasKeysOnce, filter-IsLruOrder, concat-IsLruOrder, filter-HasKeysOnce,
  put_last-HasKeysOnce, length-close,
}

-- What a call leaves at a time: distinct keys, the order of use, no use in the future, and at most
-- `max_size` connections.
pub record IsPool (l : Limits) (now : Time) (es : Entries) : Type 0 where
  pub once : HasKeysOnce es
  pub ordered : IsLruOrder es
  pub past : UsedBy now es
  pub bounded : length es ≤ l.max_size

filter-IsPool :
    (l : Limits) (now : Time) (p : Entry → Bool) (es : Entries)
    → IsPool l now es
    → IsPool l now (filter p es)
filter-IsPool l now p es v = record {
  once = filter-HasKeysOnce p es v.once;
  ordered = filter-IsLruOrder p es v.ordered;
  past = All-filter (λ e. e.last_used ≤ now) p es v.past;
  bounded = omega (arith, length-filter-le p es, v.bounded);
}

later-IsPool :
    (l : Limits) (now later : Time) (es : Entries)
    → now ≤ later
    → IsPool l now es
    → IsPool l later es
later-IsPool l now later es h v = record {
  once = v.once;
  ordered = v.ordered;
  past =
      All-weaken (λ e. e.last_used ≤ now) (λ e. e.last_used ≤ later) (λ e k. omega (arith, k, h)) es
        v.past;
  bounded = v.bounded;
}

put_last-IsPool :
    (l : Limits) (now : Time) (e : Entry) (es : Entries)
    → e.last_used ≡ now
    → length (close_entry e.key es) < l.max_size
    → IsPool l now es
    → IsPool l now (put_last e es)
unfolding close_entry put_last
put_last-IsPool l now e es h room v =
    let w = filter-IsPool l now (λ x. not (x.key == e.key)) es v in
    record {
      once = put_last-HasKeysOnce e es v.once;
      ordered = concat-IsLruOrder (close_entry e.key es) e w.ordered (rw h w.past);
      past = All-concat (λ x. x.last_used ≤ now) (close_entry e.key es) e w.past (omega (arith, h));
      bounded = omega (arith, length-append (close_entry e.key es) (e ∷ []), room);
    }

tail-IsPool :
    (l : Limits) (now : Time) (e : Entry) (es : Entries) → IsPool l now (e ∷ es) → IsPool l now es
tail-IsPool l now e es v = record {
  once = λ k. ground (arith, v.once k);
  ordered = v.ordered.1;
  past = v.past.1;
  bounded = omega (arith, v.bounded);
}

-- Room was made, or the pool is full of hot connections.
make_room_lem :
    (l : Limits) (now : Time) (es : Entries)
    → IsLruOrder es
    → ((make_room l now es).1 ≡ true → length (make_room l now es).0 < l.max_size)
      × ((make_room l now es).1 ≡ false
          → (l.max_size ≤ length (make_room l now es).0)
            × All (λ e. is_hot l now e ≡ true) (make_room l now es).0)
unfolding make_room
make_room_lem l now [] h = ground arith
make_room_lem l now (e ∷ es) h = elim (Bool-cases (ltb (length (e ∷ es)) l.max_size)) [
  | inl room ↦ rw room (λ x. ltb→lt (length (e ∷ es)) l.max_size room, λ x. cc)
  | inr full ↦ elim (Bool-cases (is_hot l now e)) [
    | inl hot ↦
        rw (full, hot)
          (
            λ x. cc,
            λ x. (
              ground (arith, full),
              (
                hot,
                All-weaken (λ x. e.last_used ≤ x.last_used) (λ x. is_hot l now x ≡ true)
                    (λ x k. ground (arith, hot, k)) es h.0,
              ),
            ),
          )
    | inr cold ↦ rw (full, cold) (make_room_lem l now es h.1)
  ]
]

-- A pool without an entry that is idle for too long.
record IsFresh (l : Limits) (now : Time) (es : Entries) : Type 0 where
  pool : IsPool l now es
  fresh : All (λ e. is_stale l now e ≡ false) es

filter-IsFresh :
    (l : Limits) (now : Time) (p : Entry → Bool) (es : Entries)
    → IsFresh l now es
    → IsFresh l now (filter p es)
filter-IsFresh l now p es v = record {
  pool = filter-IsPool l now p es v.pool;
  fresh = All-filter (λ e. is_stale l now e ≡ false) p es v.fresh;
}

drop_idle-IsFresh :
    (l : Limits) (now : Time) (es : Entries) → IsPool l now es → IsFresh l now (drop_idle l now es)
unfolding drop_idle
drop_idle-IsFresh l now es v = record {
  pool = filter-IsPool l now (λ e. not (is_stale l now e)) es v;
  fresh =
      All-weaken (λ e. not (is_stale l now e) ≡ true) (λ e. is_stale l now e ≡ false)
        (λ e h. ground (arith, h)) (filter (λ e. not (is_stale l now e)) es)
        (filter-All (λ e. not (is_stale l now e)) es);
}

make_room-IsFresh :
    (l : Limits) (now : Time) (es : Entries)
    → IsFresh l now es
    → IsFresh l now (make_room l now es).0
unfolding make_room
make_room-IsFresh l now [] v = v
make_room-IsFresh l now (e ∷ es) v =
    if-keeps (λ r. IsFresh l now r.0) (ltb (length (e ∷ es)) l.max_size) (e ∷ es, true)
      (if is_hot l now e then (e ∷ es, false) else make_room l now es) v
      (if-keeps (λ r. IsFresh l now r.0) (is_hot l now e) (e ∷ es, false) (make_room l now es) v
        (make_room-IsFresh l now es
          (record { pool = tail-IsPool l now e es v.pool; fresh = v.fresh.1 })))

put_last-IsFresh :
    (l : Limits) (now : Time) (e : Entry) (es : Entries)
    → e.last_used ≡ now
    → length (close_entry e.key es) < l.max_size
    → IsFresh l now es
    → IsFresh l now (put_last e es)
unfolding put_last close_entry
put_last-IsFresh l now e es h room v = record {
  pool = put_last-IsPool l now e es h room v.pool;
  fresh =
      All-concat (λ e. is_stale l now e ≡ false) (close_entry e.key es) e
        (All-filter (λ e. is_stale l now e ≡ false) (λ x. not (x.key == e.key)) es v.fresh)
        (ground (arith, h));
}

-- What the answer of a call says of the entries that it leaves.
abbrev pub IsAnswered : Limits → Time → ℕ → Entries → Answer → Type 0
IsAnswered l now k es (connected c) =
    (e : Entry) × (find_entry k es ≡ some e) × (e.conn ≡ c) × (e.last_used ≡ now)
IsAnswered l now k es exhausted = (l.max_size ≤ length es) × All (λ e. is_hot l now e ≡ true) es
IsAnswered l now k es connect_raised = length es < l.max_size

find-put_last : (e : Entry) (es : Entries) → find_entry e.key (put_last e es) ≡ some e
unfolding put_last close_entry
find-put_last e [] = ground arith
find-put_last e (x ∷ es) = ground (arith, find-put_last e es)

open_found_lem :
    (l : Limits) (k : ℕ) (now : Time) (opened : Option ℕ) (r : Entries × Bool)
    → IsFresh l now r.0
    → (r.1 ≡ true → length r.0 < l.max_size)
    → (r.1 ≡ false → (l.max_size ≤ length r.0) × All (λ e. is_hot l now e ≡ true) r.0)
    → let (es', a) = open_found l k now opened r in IsFresh l now es' × IsAnswered l now k es' a
unfolding open_found
open_found_lem l k now opened (es, false) v room full = (v, full refl)
open_found_lem l k now none (es, true) v room full = (v, room refl)
open_found_lem l k now (some c) (es, true) v room full =
    let e : Entry = record { key = k; conn = c; last_used = now; last_checked = now } in
    (
      put_last-IsFresh l now e es refl
          (unfold close_entry in
            omega (arith, length-filter-le (λ x. not (x.key == k)) es, room refl))
          v,
      (e, find-put_last e es, refl, refl),
    )

open_connection_lem :
    (l : Limits) (es : Entries) (k : ℕ) (now : Time) (opened : Option ℕ)
    → IsFresh l now es
    → let (es', a) = open_connection l es k now opened in
      IsFresh l now es' × IsAnswered l now k es' a
unfolding open_connection
open_connection_lem l es k now opened v =
    let (room, full) = make_room_lem l now es v.pool.ordered in
    open_found_lem l k now opened (make_room l now es) (make_room-IsFresh l now es v) room full

find_entry-count :
    (k : ℕ) (es : Entries) (e : Entry)
    → find_entry k es ≡ some e
    → (e.key ≡ k) × (0 < count k (keys es))
find_entry-count k [] e h = cc
find_entry-count k (x ∷ es) e h = ground (arith, find_entry-count k es e)

checked-kept :
    (l : Limits) (now : Time) (e : Entry)
    → ((checked l now e).key ≡ e.key) × ((checked l now e).conn ≡ e.conn)
checked-kept l now e = ground arith

-- A connection that is used again.
reused_lem :
    (l : Limits) (es : Entries) (k : ℕ) (now : Time) (e u : Entry)
    → u.key ≡ e.key
    → u.conn ≡ e.conn
    → u.last_used ≡ now
    → find_entry k es ≡ some e
    → IsFresh l now es
    → IsFresh l now (put_last u es) × IsAnswered l now k (put_last u es) (connected e.conn)
reused_lem l es k now e u same conn used h v =
    let (at, here) = find_entry-count k es e h in
    let key : u.key ≡ k = same ∙ at in
    let held : 0 < count u.key (keys es) = rw key here in
    (
      put_last-IsFresh l now u es used
          (omega (arith, length-close u.key es (v.pool.once u.key), held, v.pool.bounded)) v,
      (u, ap (λ x. find_entry x (put_last u es)) (sym key) ∙ find-put_last u es, conn, used),
    )

reuse_lem :
    (l : Limits) (es : Entries) (k : ℕ) (now : Time) (healthy : Bool) (opened : Option ℕ)
    (found : Option Entry)
    → find_entry k es ≡ found
    → IsFresh l now es
    → let (es', a) = reuse l es k now healthy opened found in
      IsFresh l now es' × IsAnswered l now k es' a
unfolding reuse
reuse_lem l es k now healthy opened none h v = open_connection_lem l es k now opened v
reuse_lem l es k now healthy opened (some e) h v = elim (Bool-cases (is_alive l now healthy e)) [
  | inl alive ↦ rw alive (
      reused_lem l es k now e (record (checked l now e) { last_used = now })
        (checked-kept l now e).0 (checked-kept l now e).1 refl h v)
  | inr dead ↦ rw dead (
      open_connection_lem l (close_entry k es) k now opened
        (unfold close_entry in filter-IsFresh l now (λ x. not (x.key == k)) es v))
]

-- A call on a pool whose keys are distinct, whose entries stand in the order of their use, none of it
-- later than the call, and number at most `max_size`, leaves such a pool without an entry that has been
-- idle for longer than `idle_ttl`, whatever the health check and `connect` do. A connection that it
-- gives is then the pool's entry of the key, used now; it raises for want of room only where the
-- pool is full and every entry is hot; and after `connect` has raised there is room.
get_connection_lem :
    (l : Limits) (es : Entries) (k : ℕ) (before now : Time) (healthy : Bool) (opened : Option ℕ)
    → before ≤ now
    → IsPool l before es
    → let (es', a) = get_connection l es k now healthy opened in
      IsPool l now es' × All (λ e. is_stale l now e ≡ false) es' × IsAnswered l now k es' a
unfolding get_connection
get_connection_lem l es k before now healthy opened h earlier =
    let v = later-IsPool l before now es h earlier in
    let es' = drop_idle l now es in
    let (w, a) =
      reuse_lem l es' k now healthy opened (find_entry k es') refl (drop_idle-IsFresh l now es v) in
    (w.pool, w.fresh, a)
