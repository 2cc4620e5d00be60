-- ===== src/Lifecycle/Transactions.antt =====
-- The table of sessions under any order of transactions of backend/sessions/services/launch.py and
-- backend/sessions/services/lifecycle.py.
use mathlib.Core.Path.{subst}
use onlinetlabs.Base.{
  ℕ, ◌≤◌, ◌<◌, ◌≡◌, refl, sym, ap, ◌∙◌, Bool, true, false, not, ◌&&◌, Option, none, some, [], ◌∷◌,
  ◌++◌, arith, ◌==◌, is_some, any, Bool-cases, inl, inr, ==_iff,
}
use onlinetlabs.Regime.{Time}
use onlinetlabs.Sessions.{
  Session, Rows, Status, Meta, is_live, is_live_of, is_live_of_user, live_count,
  count_active_sessions, get_row, update_row, has_twin, provisioning_row, get_owned_session,
  created, create_provisioning_row, finalized, finalize_session_row, finalize_found,
  finalize_fields,
}
use onlinetlabs.Sessions.Live.{
  get_row-id, count_id, count_others, count_rows-append, count_rows-none, count_rows-update_le,
  count_others-le, count_rows-update, count_id-update,
}
use onlinetlabs.Lifecycle.{ended_fields, restart_lab, restart_found}

-- One committed transaction by anyone. A new row's id is fresh. The row that is ended may be any.
pub data Transaction (rows : Rows) : Rows → Type 0 where
  creates :
      (postgres : Bool) (max_per_user id user lab locale : ℕ) (now : Time) (max_duration : ℕ)
      {after : Rows} {s : Session}
      → count_id id rows ≡ 0
      → create_provisioning_row postgres max_per_user rows
          (provisioning_row id user lab locale now max_duration)
        ≡ created after s
      → Transaction rows after
  finalizes :
      (id : ℕ) (status : Status) (meta : Option Meta) {after : Rows} {s : Session}
      → finalize_session_row rows id status meta ≡ finalized after s
      → Transaction rows after
  ends :
      (id : ℕ) (status : Status) (now : Time)
      → is_live status ≡ false
      → Transaction rows (update_row id (ended_fields status now) rows)
  restarts : (id user : ℕ) (mcp_ok : Bool) → Transaction rows (restart_lab rows id user mcp_ok).0

pub data Reach (rows : Rows) : Rows → Type 0 where
  here : Reach rows rows
  next : {mid after : Rows} → Reach rows mid → Transaction mid after → Reach rows after

-- Ids are unique, and each learner has at most one live session of each lab.
pub record IsConsistent (rows : Rows) : Type 0 where
  pub unique_ids : (id : ℕ) → count_id id rows ≤ 1
  pub one_live : (user lab : ℕ) → live_count user lab rows ≤ 1

created-inv :
    (postgres : Bool) (max_per_user : ℕ) (rows : Rows) (new : Session) (after : Rows) (s : Session)
    → create_provisioning_row postgres max_per_user rows new ≡ created after s
    → (after ≡ rows ++ new ∷ [])
      × (any (is_live_of new.user_id new.lab_slug) rows ≡ false)
      × (postgres ≡ true → count_active_sessions rows new.user_id < max_per_user)
unfolding create_provisioning_row
created-inv postgres max_per_user rows new after s h = ground arith

is_live_of-same :
    (a b u l : ℕ) (s : Session)
    → is_live_of u l s ≡ true
    → s.user_id ≡ a
    → s.lab_slug ≡ b
    → (u ≡ a) × (l ≡ b)
is_live_of-same a b u l s h e f = ground arith

creates-one_live :
    (rows : Rows) (new : Session) (u l : ℕ)
    → any (is_live_of new.user_id new.lab_slug) rows ≡ false
    → live_count u l rows ≤ 1
    → live_count u l (rows ++ new ∷ []) ≤ 1
creates-one_live rows new u l alone v = elim (Bool-cases (is_live_of u l new)) [
  | inl mine ↦
      let same = is_live_of-same new.user_id new.lab_slug u l new mine refl refl in
      let empty =
        ap (λ x. live_count x l rows) same.0
        ∙ ap (λ y. live_count new.user_id y rows) same.1
        ∙ count_rows-none (is_live_of new.user_id new.lab_slug) rows alone in
      ground (arith, count_rows-append (is_live_of u l) rows new, empty, mine)
  | inr other ↦ ground (arith, count_rows-append (is_live_of u l) rows new, other, v)
]

creates_unique :
    (rows : Rows) (new : Session) (j : ℕ)
    → count_id new.id rows ≡ 0
    → count_id j rows ≤ 1
    → count_id j (rows ++ new ∷ []) ≤ 1
creates_unique rows new j fresh v = elim (Bool-cases (new.id == j)) [
  | inl same ↦
      let empty = ap (λ x. count_id x rows) (sym ((==_iff new.id j).0 same)) ∙ fresh in
      ground (arith, count_rows-append (λ s. s.id == j) rows new, empty, same)
  | inr other ↦ ground (arith, count_rows-append (λ s. s.id == j) rows new, other, v)
]

creates-IsConsistent :
    (rows : Rows) (new : Session)
    → count_id new.id rows ≡ 0
    → any (is_live_of new.user_id new.lab_slug) rows ≡ false
    → IsConsistent rows
    → IsConsistent (rows ++ new ∷ [])
creates-IsConsistent rows new fresh alone v = record {
  unique_ids = λ j. creates_unique rows new j fresh (v.unique_ids j);
  one_live = λ u l. creates-one_live rows new u l alone (v.one_live u l);
}

-- A write to the row with an id, as the three other transactions do it.
update-IsConsistent :
    (f : Session → Session)
    → ((s : Session) → (f s).id ≡ s.id)
    → (rows : Rows) (s : Session) → get_row rows s.id ≡ some s
    → ((u l : ℕ) → is_live_of u l (f s) ≡ true → count_others (is_live_of u l) s.id rows ≡ 0)
    → IsConsistent rows
    → IsConsistent (update_row s.id f rows)
update-IsConsistent f h rows s e alone v = record {
  unique_ids = λ j. omega (arith, count_id-update f h s.id j rows, v.unique_ids j);
  one_live = λ u l. elim (Bool-cases (is_live_of u l (f s))) [
    | inl mine ↦ ground (
      arith,
      count_rows-update (is_live_of u l) s.id f rows s e (v.unique_ids s.id),
      alone u l mine,
      mine,
    )
    | inr other ↦ ground (
      arith,
      count_rows-update (is_live_of u l) s.id f rows s e (v.unique_ids s.id),
      count_others-le (is_live_of u l) s.id rows,
      v.one_live u l,
      other,
    )
  ];
}

-- A write that makes no row live.
quiet-IsConsistent :
    (f : Session → Session)
    → ((s : Session) → (f s).id ≡ s.id)
    → ((u l : ℕ) (s : Session) → is_live_of u l (f s) ≡ true → is_live_of u l s ≡ true)
    → (id : ℕ) (rows : Rows) → IsConsistent rows
    → IsConsistent (update_row id f rows)
quiet-IsConsistent f h q id rows v = record {
  unique_ids = λ j. omega (arith, count_id-update f h id j rows, v.unique_ids j);
  one_live =
      λ u l. omega (arith, count_rows-update_le (is_live_of u l) id f (q u l) rows, v.one_live u l);
}

finalized-inv :
    (rows : Rows) (status : Status) (meta : Option Meta) (found : Option Session) (after : Rows)
    (s : Session)
    → finalize_found rows status meta found ≡ finalized after s
    → (o : Session) × (found ≡ some o)
      × (after ≡ update_row o.id (finalize_fields status meta) rows)
      × ((is_live status && has_twin o rows) ≡ false)
unfolding finalize_found
finalized-inv rows status meta none after s h = cc
finalized-inv rows status meta (some o) after s h =
    elim (Bool-cases (is_live status && has_twin o rows)) [
      | inl e ↦ ground arith
      | inr e ↦ (o, refl, ground arith, e)
    ]

set_payload-id :
    (status : Status) (meta : Option Meta) (s : Session) → (finalize_fields status meta s).id ≡ s.id
set_payload-id status none s = refl
set_payload-id status (some m) s = refl

finalize-parts :
    (u l : ℕ) (status : Status) (meta : Option Meta) (s : Session)
    → is_live_of u l (finalize_fields status meta s) ≡ true
    → (u ≡ s.user_id) × (l ≡ s.lab_slug) × (is_live status ≡ true)
finalize-parts u l status none s h = ground arith
finalize-parts u l status (some m) s h = ground arith

twin-none :
    (u l : ℕ) (status : Status) (meta : Option Meta) (rows : Rows) (o : Session)
    → (is_live status && has_twin o rows) ≡ false
    → is_live_of u l (finalize_fields status meta o) ≡ true
    → count_others (is_live_of u l) o.id rows ≡ 0
twin-none u l status meta rows o free mine =
    let at = finalize-parts u l status meta o mine in
    ap (λ x. count_others (is_live_of x l) o.id rows) at.0
    ∙ ap (λ y. count_others (is_live_of o.user_id y) o.id rows) at.1
    ∙ count_rows-none (λ s. not (s.id == o.id) && is_live_of o.user_id o.lab_slug s) rows
        (ground (arith, free, at.2))

finalizes-IsConsistent :
    (rows : Rows) (id : ℕ) (status : Status) (meta : Option Meta) (after : Rows) (s : Session)
    → finalize_session_row rows id status meta ≡ finalized after s
    → IsConsistent rows
    → IsConsistent after
unfolding finalize_session_row
finalizes-IsConsistent rows id status meta after s h v =
    let (o, e, w, free) = finalized-inv rows status meta (get_row rows id) after s h in
    subst IsConsistent (sym w) (
      update-IsConsistent (finalize_fields status meta) (set_payload-id status meta) rows o
        (ap (get_row rows) (get_row-id rows id o e) ∙ e)
        (λ u l. twin-none u l status meta rows o free) v)

restarts-IsConsistent :
    (rows : Rows) (found : Option Session) (mcp_ok : Bool)
    → IsConsistent rows
    → IsConsistent (restart_found rows found mcp_ok).0
unfolding restart_found
restarts-IsConsistent rows none mcp_ok v = v
restarts-IsConsistent rows (some s) false v = v
restarts-IsConsistent rows (some s) true v = elim (Bool-cases (is_some s.paused_at)) [
  | inl e ↦ rw e (
      quiet-IsConsistent (λ o. record o { paused_at = none }) (λ o. refl) (λ u l o h. h) s.id rows
        v)
  | inr e ↦ rw e v
]

transaction-IsConsistent :
    {rows after : Rows} → Transaction rows after → IsConsistent rows → IsConsistent after
unfolding restart_lab
transaction-IsConsistent {rows} {after}
      (creates postgres per_user id user lab locale now duration {s = s} fresh h) v =
    let new = provisioning_row id user lab locale now duration in
    let (w, alone, _) = created-inv postgres per_user rows new after s h in
    subst IsConsistent (sym w) (creates-IsConsistent rows new fresh alone v)
transaction-IsConsistent {rows} {after} (finalizes id status meta {s = s} h) v =
    finalizes-IsConsistent rows id status meta after s h v
transaction-IsConsistent {rows} (ends id status now off) v =
    quiet-IsConsistent (ended_fields status now) (λ s. refl) (λ u l s h. ground (arith, off, h)) id
      rows v
transaction-IsConsistent {rows} (restarts id user mcp_ok) v =
    restarts-IsConsistent rows (get_owned_session rows id user) mcp_ok v

-- In a table whose ids are unique and where each learner has at most one live session of each lab,
-- any sequence of transactions (a create under a fresh id, a finalize to any status, an end, a
-- restart, each by any caller at any time) keeps both.
pub Reach-IsConsistent :
    {rows after : Rows} → Reach rows after → IsConsistent rows → IsConsistent after
Reach-IsConsistent here v = v
Reach-IsConsistent (next reach step) v = transaction-IsConsistent step (Reach-IsConsistent reach v)

-- On PostgreSQL a create that succeeds leaves the learner with at most `max_per_user` sessions that
-- are live, and the row it adds is its last.
create_provisioning_row-cap :
    (max_per_user : ℕ) (rows : Rows) (new : Session) (after : Rows) (s : Session)
    → create_provisioning_row true max_per_user rows new ≡ created after s
    → (count_active_sessions after new.user_id ≤ max_per_user) × (after ≡ rows ++ new ∷ [])
unfolding count_active_sessions
create_provisioning_row-cap max_per_user rows new after s h =
    let (w, alone, room) = created-inv true max_per_user rows new after s h in
    (
      subst (λ x. count_active_sessions x new.user_id ≤ max_per_user) (sym w) ground
          (arith, count_rows-append (is_live_of_user new.user_id) rows new, room refl),
      w,
    )
