-- ===== src/Sessions/Live.antt =====
-- How many rows are live in the table of backend/models/learning.py: what one write changes.
use onlinetlabs.Base.{
  ℕ, ◌+◌, ◌≤◌, ◌≡◌, refl, Bool, true, false, not, ◌&&◌, some, [], ◌∷◌, ◌++◌, arith, ◌==◌,
  if◌then◌else◌, any, filter, length, Bool-cases, inl, inr,
}
use onlinetlabs.Sessions.{Session, Rows, get_row, update_row}

abbrev pub count_rows : (Session → Bool) → Rows → ℕ
count_rows p rows = length (filter p rows)

abbrev pub count_id : ℕ → Rows → ℕ
count_id id = count_rows (λ s. s.id == id)

pub count_rows-append :
    (p : Session → Bool) (rows : Rows) (new : Session)
    → count_rows p (rows ++ new ∷ []) ≡ count_rows p rows + (if p new then 1 else 0)
count_rows-append p [] new = ground arith
count_rows-append p (s ∷ rows) new = ground (arith, count_rows-append p rows new)

pub count_rows-none :
    (p : Session → Bool) (rows : Rows) → any p rows ≡ false → count_rows p rows ≡ 0
count_rows-none p [] h = refl
count_rows-none p (s ∷ rows) h = ground (arith, count_rows-none p rows)

-- A write that makes no new row pass a test.
pub count_rows-update_le :
    (p : Session → Bool) (id : ℕ) (f : Session → Session)
    → ((s : Session) → p (f s) ≡ true → p s ≡ true)
    → (rows : Rows) → count_rows p (update_row id f rows) ≤ count_rows p rows
count_rows-update_le p id f h [] = omega arith
count_rows-update_le p id f h (s ∷ rows) = ground (arith, h s, count_rows-update_le p id f h rows)

-- The rows that pass a test and have another id.
abbrev pub count_others : (Session → Bool) → ℕ → Rows → ℕ
count_others p id = count_rows (λ s. not (s.id == id) && p s)

pub count_others-le :
    (p : Session → Bool) (id : ℕ) (rows : Rows) → count_others p id rows ≤ count_rows p rows
count_others-le p id [] = omega arith
count_others-le p id (s ∷ rows) = ground (arith, count_others-le p id rows)

update_row-absent :
    (p : Session → Bool) (id : ℕ) (f : Session → Session) (rows : Rows)
    → count_id id rows ≡ 0
    → count_rows p (update_row id f rows) ≡ count_others p id rows
update_row-absent p id f [] h = refl
update_row-absent p id f (s ∷ rows) h = ground (arith, update_row-absent p id f rows)

-- A write to a row whose id no other row has.
pub count_rows-update :
    (p : Session → Bool) (id : ℕ) (f : Session → Session) (rows : Rows) (s : Session)
    → get_row rows id ≡ some s
    → count_id id rows ≤ 1
    → count_rows p (update_row id f rows) ≡ count_others p id rows + (if p (f s) then 1 else 0)
count_rows-update p id f [] s e u = cc
count_rows-update p id f (o ∷ rows) s e u = elim (Bool-cases (o.id == id)) [
  | inl same ↦ ground (arith, update_row-absent p id f rows)
  | inr other ↦ ground (arith, count_rows-update p id f rows s)
]

pub count_id-update :
    (f : Session → Session)
    → ((s : Session) → (f s).id ≡ s.id)
    → (id j : ℕ) (rows : Rows) → count_id j (update_row id f rows) ≡ count_id j rows
count_id-update f h id j [] = refl
count_id-update f h id j (s ∷ rows) = ground (arith, h s, count_id-update f h id j rows)

pub get_row-id : (rows : Rows) (id : ℕ) (s : Session) → get_row rows id ≡ some s → s.id ≡ id
get_row-id [] id s h = cc
get_row-id (o ∷ rows) id s h = ground (arith, get_row-id rows id s)
