-- ===== src/Gns3/Sessions/Backing.antt =====
-- gns3/gns3-service/src/services/session_lifecycle.py: the projects and the users of the rows that
-- are not closed, over any sequence of calls.
use onlinetlabs.Base.{
  ℕ, ◌+◌, ◌≤◌, ◌≡◌, refl, sym, subst, ◌∙◌, if-true, Bool, true, false, not, ◌&&◌, ◌||◌, List, [],
  ◌∷◌, ◌++◌, Option, none, some, inl, inr, arith, ◌==◌, if◌then◌else◌, count, Bool-cases,
  Option-cases, false-ne-true,
}
use onlinetlabs.Gns3.{Row, Books, remove_one, get_row, change_row, make_project, write_row}
use onlinetlabs.Gns3.Sessions.{
  CreateReplies, ResetReplies, DeleteReplies, create_session, reset_project, delete_session,
  close_row, move_row, clean_session, reset_to, reset_found, delete_found,
}
use onlinetlabs.Gns3.Sessions.Creation.{
  create_session_lem, is_written, made_user, users_before, left, added,
}

-- How many rows that are not closed have a project, or a user.
abbrev pub uses : (Row → ℕ) → ℕ → List Row → ℕ
uses of_row k [] = 0
uses of_row k (r ∷ rs) = (if not r.closed && (of_row r == k) then 1 else 0) + uses of_row k rs

-- Every row that is not closed has a project and a user of its own among those not deleted.
abbrev pub IsBacked : Books → Type 0
IsBacked b =
    (k : ℕ)
    → (uses (λ r. r.gns3_project) k b.rows ≤ count k b.projects)
      × (uses (λ r. r.gns3_user) k b.rows ≤ count k b.users)

module _ (of_row : Row → ℕ) (k : ℕ) where
  uses-append : (rs ss : List Row) → uses of_row k (rs ++ ss) ≡ uses of_row k rs + uses of_row k ss
  uses-append [] ss = omega arith
  uses-append (r ∷ rs) ss = omega (arith, uses-append rs ss)

  -- A row that is found and not closed counts; a changed row counts as what it becomes.
  uses-change_row :
      (f : Row → Row) (j : ℕ) (row : Row) (rs : List Row)
      → get_row j rs ≡ some row
      → uses of_row k (change_row f j rs) + uses of_row k (row ∷ [])
        ≡ uses of_row k rs + uses of_row k (f row ∷ [])
  uses-change_row f j row [] h = absurd (false-ne-true (ground arith))
  uses-change_row f j row (r ∷ rs) h = elim (Bool-cases (r.id == j)) [
    | inl e ↦
        let q : some r ≡ some row = sym (if-true _ (some r) _ e) ∙ h in
        let same : r ≡ row = cc in
        subst
          (λ x.
            uses of_row k (change_row f j (r ∷ rs)) + uses of_row k (x ∷ [])
            ≡ uses of_row k (r ∷ rs) + uses of_row k (f x ∷ []))
          same (ground arith)
    | inr e ↦ ground (arith, uses-change_row f j row rs)
  ]

count-remove_one :
    (k x : ℕ) (xs : List ℕ) → count k xs ≤ count k (remove_one x xs) + (if x == k then 1 else 0)
count-remove_one k x [] = omega arith
count-remove_one k x (y ∷ ys) = ground (arith, count-remove_one k x ys)

-- An orphan that the launch finds is no row's user.
abbrev pub IsStray : Option (Option ℕ) → List Row → Type 0
IsStray none rows = Unit
IsStray (some none) rows = Unit
IsStray (some (some o)) rows = uses (λ x. x.gns3_user) o rows ≡ 0

-- The launch neither commits a row that it cannot read back, nor finds as its orphan a user that a
-- row is using.
abbrev pub IsSound : CreateReplies → Books → Type 0
IsSound r b = ((not r.committed || r.refreshed) ≡ true) × IsStray r.orphan b.rows

-- The entries of an optional value.
abbrev listed : Option ℕ → List ℕ
listed none = []
listed (some k) = k ∷ []

count-users_before :
    (r : CreateReplies) (b : Books) (k : ℕ)
    → IsStray r.orphan b.rows
    → uses (λ x. x.gns3_user) k b.rows ≤ count k b.users
    → uses (λ x. x.gns3_user) k b.rows ≤ count k (users_before r b)
count-users_before r b k free v = elim (Option-cases r.orphan) [
  | inl e ↦ rw e v
  | inr (none, e) ↦ rw e v
  | inr (some o, e) ↦
      let n : uses (λ x. x.gns3_user) o b.rows ≡ 0 = subst (λ x. IsStray x b.rows) e free in
      rw e (elim (Bool-cases (o == k)) [
        | inl q ↦ ground (arith, count-remove_one k o b.users)
        | inr q ↦ ground (arith, count-remove_one k o b.users)
      ])
]

uses-added :
    (w : Bool) (j k : ℕ) (u p : Option ℕ)
    → (uses (λ x. x.gns3_project) k (added w j u p) ≤ (if w then count k (listed p) else 0))
      × (uses (λ x. x.gns3_user) k (added w j u p) ≤ (if w then count k (listed u) else 0))
uses-added false j k u p = (omega arith, omega arith)
uses-added true j k none p = (ground arith, ground arith)
uses-added true j k (some u) none = (ground arith, ground arith)
uses-added true j k (some u) (some p) = (ground arith, ground arith)

left-written :
    (r : CreateReplies) (deleted : Bool) (o : Option ℕ) (xs : List ℕ) (k : ℕ)
    → (not r.committed || r.refreshed) ≡ true
    → (if is_written r then count k (listed o) else 0) + count k xs ≤ count k (left r deleted o xs)
left-written r deleted none xs k h = ground arith
left-written r deleted (some u) xs k h = ground arith

create_session-IsBacked :
    (r : CreateReplies) (b : Books) → IsSound r b → IsBacked b → IsBacked (create_session r b).1
create_session-IsBacked r b (h, free) v k =
    let (_, us, ps, rs) = create_session_lem r b in
    let (p_fits, u_fits) = uses-added (is_written r) r.session_id k (made_user r) r.project in
    let (p_had, u_had) = v k in
    rw (us, ps, rs)
      (
        omega (
          arith,
          p_fits,
          p_had,
          uses-append (λ x. x.gns3_project) k b.rows
              (added (is_written r) r.session_id (made_user r) r.project),
          left-written r r.project_deleted r.project b.projects k h,
        ),
        omega (
          arith,
          u_fits,
          count-users_before r b k free u_had,
          uses-append (λ x. x.gns3_user) k b.rows
              (added (is_written r) r.session_id (made_user r) r.project),
          left-written r r.user_deleted (made_user r) (users_before r b) k h,
        ),
      )

-- Replacing the project of an open row, and deleting the old one or not.
moved-IsBacked :
    (r : ResetReplies) (j p : ℕ) (row : Row) (b : Books)
    → get_row j b.rows ≡ some row
    → row.closed ≡ false
    → IsBacked b
    → IsBacked (reset_to r j row p (make_project p b)).1
moved-IsBacked r j p row b h open_row v k =
    let (p_had, u_had) = v k in
    (
      ground (
        arith,
        p_had,
        uses-change_row (λ x. x.gns3_project) k (move_row p) j row b.rows h,
        count-remove_one k row.gns3_project (p ∷ b.projects),
      ),
      ground (arith, u_had, uses-change_row (λ x. x.gns3_user) k (move_row p) j row b.rows h),
    )

reset_found-IsBacked :
    (r : ResetReplies) (j : ℕ) (o : Option Row) (b : Books)
    → get_row j b.rows ≡ o
    → IsBacked b
    → IsBacked (reset_found r j o b).1
reset_found-IsBacked r j none b e v = v
reset_found-IsBacked r j (some row) b e v = elim (Bool-cases row.closed) [
  | inl c ↦ rw c v
  | inr c ↦ rw c (elim (Option-cases r.project) [
    | inl q ↦ rw q v
    | inr (p, q) ↦ rw q (moved-IsBacked r j p row b e c v)
  ])
]

closed-IsBacked :
    (r : DeleteReplies) (j : ℕ) (row : Row) (b : Books)
    → get_row j b.rows ≡ some row
    → row.closed ≡ false
    → IsBacked b
    → IsBacked (write_row close_row j (clean_session r row b))
closed-IsBacked r j row b h open_row v k =
    let (p_had, u_had) = v k in
    (
      ground (
        arith,
        p_had,
        uses-change_row (λ x. x.gns3_project) k close_row j row b.rows h,
        count-remove_one k row.gns3_project b.projects,
      ),
      ground (
        arith,
        u_had,
        uses-change_row (λ x. x.gns3_user) k close_row j row b.rows h,
        count-remove_one k row.gns3_user b.users,
      ),
    )

delete_found-IsBacked :
    (r : DeleteReplies) (j : ℕ) (o : Option Row) (b : Books)
    → r.committed ≡ true
    → get_row j b.rows ≡ o
    → IsBacked b
    → IsBacked (delete_found r j o b).1
delete_found-IsBacked r j none b h e v = v
delete_found-IsBacked r j (some row) b h e v = elim (Bool-cases row.closed) [
  | inl c ↦ rw c v
  | inr c ↦ rw (c, h) (closed-IsBacked r j row b e c v)
]

-- One call of the service, with the replies to its own calls.
pub data Op : Type 0 where
  creates : CreateReplies → Op
  resets : ResetReplies → ℕ → Op
  deletes : DeleteReplies → ℕ → Op

unfoldable pub serve : Op → Books → Books
serve (creates r) b = (create_session r b).1
serve (resets r j) b = (reset_project r j b).1
serve (deletes r j) b = (delete_session r j b).1

-- The database takes the commit of a deletion, and a launch is sound.
abbrev pub IsSoundOp : Op → Books → Type 0
IsSoundOp (creates r) b = IsSound r b
IsSoundOp (resets r j) b = Unit
IsSoundOp (deletes r j) b = r.committed ≡ true

abbrev pub AllSound : List Op → Books → Type 0
AllSound [] b = Unit
AllSound (op ∷ ops) b = IsSoundOp op b × AllSound ops (serve op b)

unfoldable pub serve_all : List Op → Books → Books
serve_all [] b = b
serve_all (op ∷ ops) b = serve_all ops (serve op b)

serve-IsBacked : (op : Op) (b : Books) → IsSoundOp op b → IsBacked b → IsBacked (serve op b)
unfolding serve reset_project delete_session
serve-IsBacked (creates r) b h v = create_session-IsBacked r b h v
serve-IsBacked (resets r j) b h v = reset_found-IsBacked r j (get_row j b.rows) b refl v
serve-IsBacked (deletes r j) b h v = delete_found-IsBacked r j (get_row j b.rows) b h refl v

-- Through any calls of `create_session`, `reset_project` and `delete_session`, whichever of their
-- own calls raise, every row that is not closed keeps a project and a user of its own among those
-- not deleted, provided that a launch neither commits a row that it then cannot read back nor finds
-- as its orphan the user of such a row, and that the database takes the commit of every deletion.
pub serve_all-IsBacked :
    (ops : List Op) (b : Books) → AllSound ops b → IsBacked b → IsBacked (serve_all ops b)
unfolding serve_all
serve_all-IsBacked [] b h v = v
serve_all-IsBacked (op ∷ ops) b (h, hs) v =
    serve_all-IsBacked ops (serve op b) hs (serve-IsBacked op b h v)
