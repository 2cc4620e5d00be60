-- ===== src/Gns3/Gate/Held.antt =====
-- Mutual exclusion and progress of the gate of gns3/gns3-service/src/rbac_gate.py.
use onlinetlabs.Base.{
  ℕ, ◌≡◌, ◌≢◌, refl, Bool, true, false, ◌||◌, some, inl, inr, arith, ◌==◌, Bool-cases, Option-cases,
  sym, subst, false-ne-true,
}
use onlinetlabs.Gns3.Gate.{
  Stage, fresh, waiting, inside, deleting, finished, Gate, finish, Step, enters, acquires,
  continues_without, finds_own, finds_other, deletes, leaves, fails_read, fails_delete, expires,
  Reach, here, next, IsFresh, is_inside,
}

-- Whether a call holds its replica's lock.
abbrev is_entered : Stage → Bool
is_entered fresh = false
is_entered finished = false
is_entered _ = true

-- Whether a call has its token in Redis, in a steady run; whether it went on without one.
abbrev is_locking : Stage → Bool
is_locking (inside true) = true
is_locking deleting = true
is_locking _ = false

abbrev is_bare : Stage → Bool
is_bare (inside false) = true
is_bare _ = false

-- A call past the local lock holds it, and in a steady run one that has a token holds the lock in
-- Redis, and none goes on without a token; each lock is held by a call that has it.
record IsHeld (replica : ℕ → ℕ) (steady : Bool) (g : Gate) : Type 0 where
  entered : (j : ℕ) → is_entered (g.stage j) ≡ true → g.local (replica j) ≡ some j
  locking : (j : ℕ) → steady ≡ true → is_locking (g.stage j) ≡ true → g.lock ≡ some j
  token : (j : ℕ) → steady ≡ true → is_bare (g.stage j) ≡ false
  local_owner : (k j : ℕ) → g.local k ≡ some j → (is_entered (g.stage j) ≡ true) × (replica j ≡ k)
  owner : (j : ℕ) → steady ≡ true → g.lock ≡ some j → is_locking (g.stage j) ≡ true

fresh-IsHeld : (replica : ℕ → ℕ) (steady : Bool) (g : Gate) → IsFresh g → IsHeld replica steady g
fresh-IsHeld replica steady g (l, ls, ss) = record {
  entered = λ j h. ground (arith, ss j);
  locking = λ j q h. ground (arith, ss j);
  token = λ j q. ground (arith, ss j);
  local_owner = λ k j l'. absurd (ground (arith, ls k));
  owner = λ j q l'. absurd (ground arith);
}

-- A call that ends gives up its replica's lock.
finish-IsHeld :
    {replica : ℕ → ℕ} {steady : Bool} {g : Gate} (i : ℕ)
    → is_entered (g.stage i) ≡ true
    → (steady ≡ true → g.lock ≡ some i → ⊥)
    → IsHeld replica steady g
    → IsHeld replica steady (finish replica g i)
finish-IsHeld i h other v = record {
  entered = λ j k. ground (arith, v.entered j, v.entered i);
  locking = λ j q k. ground (arith, v.locking j);
  token = λ j q. ground (arith, v.token j);
  local_owner = λ k j l'. ground (arith, v.local_owner k j);
  owner = λ j q l'. ground (arith, v.owner j, other q);
}

Step-IsHeld :
    {replica : ℕ → ℕ} {steady : Bool} {g g' : Gate}
    → Step replica steady g g'
    → IsHeld replica steady g
    → IsHeld replica steady g'
Step-IsHeld {replica} {steady} {g} (enters i s l) v = record {
  entered = λ j h. ground (arith, v.entered j);
  locking = λ j q h. ground (arith, v.locking j);
  token = λ j q. ground (arith, v.token j);
  local_owner = λ k j l'. ground (arith, v.local_owner k j);
  owner = λ j q l'. ground (arith, v.owner j);
}
Step-IsHeld {replica} {steady} {g} (acquires i s l) v = record {
  entered = λ j h. ground (arith, v.entered j);
  locking = λ j q h. ground (arith, v.locking j);
  token = λ j q. ground (arith, v.token j);
  local_owner = λ k j l'. ground (arith, v.local_owner k j);
  owner = λ j q l'. ground (arith, v.owner j);
}
Step-IsHeld {replica} {steady} {g} (continues_without i s q) v = record {
  entered = λ j h. ground (arith, v.entered j);
  locking = λ j r h. ground (arith, v.locking j);
  token = λ j r. ground (arith, v.token j);
  local_owner = λ k j l'. ground (arith, v.local_owner k j);
  owner = λ j r l'. ground (arith, v.owner j);
}
Step-IsHeld {replica} {steady} {g} (finds_own i s l) v = record {
  entered = λ j h. ground (arith, v.entered j);
  locking = λ j q h. ground (arith, v.locking j);
  token = λ j q. ground (arith, v.token j);
  local_owner = λ k j l'. ground (arith, v.local_owner k j);
  owner = λ j q l'. ground (arith, v.owner j);
}
Step-IsHeld (finds_other i s l) v = finish-IsHeld i (ground arith) (λ r k. l k) v
Step-IsHeld {replica} {steady} {g} (deletes i s) v = record {
  entered = λ j h. ground (arith, v.entered j, v.entered i);
  locking = λ j q h. ground (arith, v.locking j, v.locking i);
  token = λ j q. ground (arith, v.token j);
  local_owner = λ k j l'. ground (arith, v.local_owner k j);
  owner = λ j q l'. ground (arith, v.owner j);
}
Step-IsHeld (leaves i s) v = finish-IsHeld i (ground arith) (λ r k. ground (arith, v.token i r)) v
Step-IsHeld (fails_read i s q) v = finish-IsHeld i (ground arith) (λ r k. ground arith) v
Step-IsHeld (fails_delete i s q) v = finish-IsHeld i (ground arith) (λ r k. ground arith) v
Step-IsHeld (expires q) v = record {
  entered = v.entered;
  locking = λ j r h. ground (arith, v.locking j);
  token = v.token;
  local_owner = v.local_owner;
  owner = λ j r l'. absurd (ground arith);
}

Reach-IsHeld :
    {replica : ℕ → ℕ} {steady : Bool} {g g' : Gate}
    → Reach replica steady g g'
    → IsFresh g
    → IsHeld replica steady g'
Reach-IsHeld {replica} {steady} {g} here h = fresh-IsHeld replica steady g h
Reach-IsHeld (next r s) h = Step-IsHeld s (Reach-IsHeld r h)

-- From a fresh start, two calls that are in the body of the gate at one time are the same call if
-- they are in the same replica, whatever Redis does; and in any two replicas if Redis answers, no
-- waiting times out and no body outlives the lock's time to live.
pub gate-exclusive :
    (replica : ℕ → ℕ) (steady : Bool) (g g' : Gate)
    → IsFresh g
    → Reach replica steady g g'
    → (i j : ℕ) → is_inside (g'.stage i) ≡ true
    → is_inside (g'.stage j) ≡ true
    → (replica i == replica j || steady) ≡ true
    → i ≡ j
gate-exclusive replica steady g g' h r i j hi hj q = elim (Bool-cases steady) [
  | inl e ↦ ground (arith, v.locking i e, v.locking j e, v.token i e, v.token j e)
  | inr e ↦ ground (arith, v.entered i, v.entered j)
]
  where
    v : IsHeld replica steady g'
    v = Reach-IsHeld r h

-- Some call can move.
abbrev pub CanMove : (ℕ → ℕ) → Bool → Gate → Type 0
CanMove replica steady g = (g' : Gate) × Step replica steady g g'

module _ (replica : ℕ → ℕ) (g : Gate) (v : IsHeld replica true g) where
  locking_moves : (j : ℕ) (s : Stage) → g.stage j ≡ s → is_locking s ≡ true → CanMove replica true g
  locking_moves j fresh e h = absurd (false-ne-true h)
  locking_moves j waiting e h = absurd (false-ne-true h)
  locking_moves j finished e h = absurd (false-ne-true h)
  locking_moves j (inside false) e h = absurd (false-ne-true h)
  locking_moves j (inside true) e h =
      (_, finds_own j e (v.locking j refl (subst (λ x. is_locking x ≡ true) (sym e) h)))
  locking_moves j deleting e h = (_, deletes j e)

  entered_moves : (j : ℕ) (s : Stage) → g.stage j ≡ s → is_entered s ≡ true → CanMove replica true g
  entered_moves j fresh e h = absurd (false-ne-true h)
  entered_moves j finished e h = absurd (false-ne-true h)
  entered_moves j waiting e h = elim (Option-cases g.lock) [
    | inl free ↦ (_, acquires j e free)
    | inr (k, taken) ↦ locking_moves k (g.stage k) refl (v.owner k refl taken)
  ]
  entered_moves j (inside false) e h = (_, leaves j e)
  entered_moves j (inside true) e h = locking_moves j (inside true) e refl
  entered_moves j deleting e h = (_, deletes j e)

  unfinished_moves : (j : ℕ) (s : Stage) → g.stage j ≡ s → s ≢ finished → CanMove replica true g
  unfinished_moves j finished e h = absurd (h refl)
  unfinished_moves j waiting e h = entered_moves j waiting e refl
  unfinished_moves j (inside b) e h = entered_moves j (inside b) e refl
  unfinished_moves j deleting e h = entered_moves j deleting e refl
  unfinished_moves j fresh e h = elim (Option-cases (g.local (replica j))) [
    | inl free ↦ (_, enters j e free)
    | inr (k, taken) ↦ entered_moves k (g.stage k) refl (v.local_owner (replica j) k taken).0
  ]

-- While Redis answers, no waiting times out and no body outlives the lock's time to live, the gate
-- does not deadlock: as long as one call has not finished, some call can move.
pub gate-CanMove :
    (replica : ℕ → ℕ) (g g' : Gate)
    → IsFresh g
    → Reach replica true g g'
    → (i : ℕ) → g'.stage i ≢ finished
    → CanMove replica true g'
gate-CanMove replica g g' h r i n =
    unfinished_moves replica g' (Reach-IsHeld r h) i (g'.stage i) refl n
