-- ===== src/Pool/Order.antt =====
-- The order of the entries in mcp-sdk/src/mcp_sdk/connection.py: what filtering, eviction and
-- `move_to_end` keep.
use onlinetlabs.Base.{
  ℕ, ◌+◌, ◌≤◌, ◌≡◌, refl, sym, ap, ◌∙◌, Bool, not, [], ◌∷◌, ◌++◌, arith, ◌==◌, if◌then◌else◌,
  length, filter, All, count, Bool-cases, inl, inr, All-filter, All-concat, ==_iff,
}
use onlinetlabs.Regime.{Time}
use onlinetlabs.Pool.{Entry, Entries, keys, close_entry, put_last}

-- Every entry was used at `t` or later, at `t` or earlier.
abbrev pub UsedFrom : Time → Entries → Type 0
UsedFrom t = All (λ e. t ≤ e.last_used)

abbrev pub UsedBy : Time → Entries → Type 0
UsedBy t = All (λ e. e.last_used ≤ t)

-- The least recently used entry stands first.
abbrev pub IsLruOrder : Entries → Type 0
IsLruOrder [] = Unit
IsLruOrder (e ∷ es) = UsedFrom e.last_used es × IsLruOrder es

pub filter-IsLruOrder : (p : Entry → Bool) (es : Entries) → IsLruOrder es → IsLruOrder (filter p es)
filter-IsLruOrder p [] h = tt
filter-IsLruOrder p (e ∷ es) h = elim (Bool-cases (p e)) [
  | inl y ↦ rw y (All-filter (λ x. e.last_used ≤ x.last_used) p es h.0, filter-IsLruOrder p es h.1)
  | inr n ↦ rw n (filter-IsLruOrder p es h.1)
]

pub concat-IsLruOrder :
    (es : Entries) (e : Entry) → IsLruOrder es → UsedBy e.last_used es → IsLruOrder (es ++ e ∷ [])
concat-IsLruOrder [] e h k = (tt, tt)
concat-IsLruOrder (x ∷ es) e h k =
    (All-concat (λ y. x.last_used ≤ y.last_used) es e h.0 k.0, concat-IsLruOrder es e h.1 k.1)

-- Keys are distinct.
abbrev pub HasKeysOnce : Entries → Type 0
HasKeysOnce es = (k : ℕ) → count k (keys es) ≤ 1

count-filter-le :
    (k : ℕ) (p : Entry → Bool) (es : Entries) → count k (keys (filter p es)) ≤ count k (keys es)
count-filter-le k p [] = omega arith
count-filter-le k p (e ∷ es) = ground (arith, count-filter-le k p es)

pub filter-HasKeysOnce :
    (p : Entry → Bool) (es : Entries) → HasKeysOnce es → HasKeysOnce (filter p es)
filter-HasKeysOnce p es h k = omega (arith, h k, count-filter-le k p es)

pub count-close : (k : ℕ) (es : Entries) → count k (keys (close_entry k es)) ≡ 0
unfolding close_entry
count-close k [] = refl
count-close k (e ∷ es) = ground (arith, count-close k es)

count-concat :
    (j : ℕ) (es : Entries) (e : Entry)
    → count j (keys (es ++ e ∷ [])) ≡ count j (keys es) + (if e.key == j then 1 else 0)
count-concat j [] e = ground arith
count-concat j (x ∷ es) e = omega (arith, count-concat j es e)

pub put_last-HasKeysOnce : (e : Entry) (es : Entries) → HasKeysOnce es → HasKeysOnce (put_last e es)
unfolding put_last close_entry
put_last-HasKeysOnce e es h k = elim (Bool-cases (e.key == k)) [
  | inl same ↦
      let gone : count k (keys (close_entry e.key es)) ≡ 0 =
        ap (λ x. count x (keys (close_entry e.key es))) (sym ((==_iff e.key k).0 same))
        ∙ count-close e.key es in
      ground (arith, count-concat k (close_entry e.key es) e, gone, same)
  | inr other ↦ ground (
    arith,
    count-concat k (close_entry e.key es) e,
    count-filter-le k (λ x. not (x.key == e.key)) es,
    h k,
    other,
  )
]

length-absent :
    (k : ℕ) (es : Entries) → count k (keys es) ≡ 0 → length (close_entry k es) ≡ length es
unfolding close_entry
length-absent k [] h = refl
length-absent k (e ∷ es) h = ground (arith, length-absent k es)

-- A key that is in the pool once frees one place.
pub length-close :
    (k : ℕ) (es : Entries)
    → count k (keys es) ≤ 1
    → length (close_entry k es) + count k (keys es) ≡ length es
unfolding close_entry
length-close k [] h = refl
length-close k (e ∷ es) h = ground (arith, length-close k es, length-absent k es)
