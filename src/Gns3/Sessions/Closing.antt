-- ===== src/Gns3/Sessions/Closing.antt =====
-- gns3/gns3-service/src/services/session_lifecycle.py: calls for a session that was deleted.
use onlinetlabs.Base.{
  ℕ, ◌≡◌, refl, sym, ◌∙◌, ap, if-true, if-false, true, List, [], ◌∷◌, Option, none, some, inl, inr,
  arith, ◌==◌, Bool-cases, ◌≢◌,
}
use onlinetlabs.Gns3.{Row, Books, done, closed, get_row, change_row}
use onlinetlabs.Gns3.Sessions.{
  DeleteReplies, ResetReplies, delete_session, delete_found, reset_project, issue_user_token,
  close_row, clean_session,
}

get_row-change_row :
    (j : ℕ) (row : Row) (rs : List Row)
    → get_row j rs ≡ some row
    → get_row j (change_row close_row j rs) ≡ some (close_row row)
get_row-change_row j row [] h = absurd (none-ne-some h)
  where
    none-ne-some : none ≡ some row → ⊥
    none-ne-some q = cc
get_row-change_row j row (r ∷ rs) h = elim (Bool-cases (r.id == j)) [
  | inl e ↦
      ap (get_row j) (if-true _ (close_row r ∷ rs) _ e)
      ∙ if-true _ (some (close_row r)) _ e
      ∙ ap close_found (sym (if-true _ (some r) _ e) ∙ h)
  | inr e ↦
      ap (get_row j) (if-false _ (close_row r ∷ rs) _ e)
      ∙ if-false _ (some r) _ e
      ∙ get_row-change_row j row rs (sym (if-false _ (some r) _ e) ∙ h)
]
  where
    close_found : Option Row → Option Row
    close_found none = none
    close_found (some x) = some (close_row x)

-- Whether the row of an id is closed.
abbrev pub IsClosed : ℕ → Books → Type 0
IsClosed j b = (row : Row) × (get_row j b.rows ≡ some row) × (row.closed ≡ true)

IsClosed-calls :
    (j : ℕ) (b : Books)
    → IsClosed j b
    → (r : DeleteReplies) (q : ResetReplies) (token : Option ℕ)
    → (delete_session r j b ≡ (done tt, b))
      × (reset_project q j b ≡ (closed, b))
      × (issue_user_token token j b ≡ closed)
unfolding delete_session reset_project issue_user_token
IsClosed-calls j b (row, e, c) r q token = (rw (e, c) refl, rw (e, c) refl, rw (e, c) refl)

clean_session-rows :
    (r : DeleteReplies) (row : Row) (b : Books) → (clean_session r row b).rows ≡ b.rows
clean_session-rows r row b = ground arith

delete_found-IsClosed :
    (r : DeleteReplies) (j : ℕ) (o : Option Row) (b : Books)
    → get_row j b.rows ≡ o
    → o ≢ none
    → r.committed ≡ true
    → IsClosed j (delete_found r j o b).1
delete_found-IsClosed r j none b e n h = absurd (n refl)
delete_found-IsClosed r j (some row) b e n h = elim (Bool-cases row.closed) [
  | inl c ↦ rw c (row, e, c)
  | inr c ↦
      rw (c, h)
        (
          close_row row,
          get_row-change_row j row (clean_session r row b).rows
              (ap (get_row j) (clean_session-rows r row b) ∙ e),
          refl,
        )
]

-- Once `delete_session` has been called for a session that has a row, and the database took the
-- commit, whichever calls to GNS3 raised: deleting it again returns and changes nothing, and
-- resetting its project or asking for its token raises `SessionClosed` and changes nothing.
delete_session_lem :
    (r : DeleteReplies) (j : ℕ) (b : Books)
    → get_row j b.rows ≢ none
    → r.committed ≡ true
    → (again : DeleteReplies) (q : ResetReplies) (token : Option ℕ)
    → let b' = (delete_session r j b).1 in
      (delete_session again j b' ≡ (done tt, b'))
      × (reset_project q j b' ≡ (closed, b'))
      × (issue_user_token token j b' ≡ closed)
unfolding delete_session
delete_session_lem r j b n h again q token =
    IsClosed-calls j (delete_session r j b).1 closed_now again q token
  where
    closed_now : IsClosed j (delete_session r j b).1
    closed_now = delete_found-IsClosed r j (get_row j b.rows) b refl n h
