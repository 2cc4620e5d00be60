-- ===== src/Gns3/Gate.antt =====
-- gns3/gns3-service/src/rbac_gate.py: the gate that serialises writes to GNS3's access control, for
-- any number of calls in any number of replicas. A step is what one call does between two awaits,
-- or the end of the lock's time to live; a call's token is its own number.
pub mod Held
use onlinetlabs.Base.{
  ℕ, ◌≡◌, refl, Bool, true, false, ◌||◌, Option, none, some, inl, inr, arith, ◌==◌, if◌then◌else◌,
  Bool-cases, update,
}

-- Where a call stands: before the local lock, trying for the lock in Redis, in the body with or
-- without a token, between the read and the deletion of the release, and after.
pub data Stage : Type 0 where
  fresh waiting : Stage
  inside : Bool → Stage
  deleting finished : Stage

pub record Gate : Type 0 where
  -- `lock:gns3_rbac_write`
  pub lock : Option ℕ
  -- `_local` of each replica
  pub local : ℕ → Option ℕ
  pub stage : ℕ → Stage

abbrev pub move : Gate → ℕ → Stage → Gate
move g i s = record g { stage = update g.stage i s }

-- The body's `async with self._local` ends.
abbrev pub finish : (ℕ → ℕ) → Gate → ℕ → Gate
finish replica g i = record g {
  local = update g.local (replica i) none;
  stage = update g.stage i finished;
}

-- `steady`: Redis answers, a lock is free before the waiting times out, and no body outlives the
-- lock's time to live.
pub data Step (replica : ℕ → ℕ) (steady : Bool) (g : Gate) : Gate → Type 0 where
  enters :
      (i : ℕ)
      → g.stage i ≡ fresh
      → g.local (replica i) ≡ none
      → Step replica steady g (record g {
        local = update g.local (replica i) (some i);
        stage = update g.stage i waiting;
      })
  acquires :
      (i : ℕ)
      → g.stage i ≡ waiting
      → g.lock ≡ none
      → Step replica steady g (record g { lock = some i; stage = update g.stage i (inside true) })
  -- Redis raises, or the waiting times out
  continues_without :
      (i : ℕ)
      → g.stage i ≡ waiting
      → steady ≡ false
      → Step replica steady g (move g i (inside false))
  finds_own :
      (i : ℕ)
      → g.stage i ≡ inside true
      → g.lock ≡ some i
      → Step replica steady g (move g i deleting)
  finds_other :
      (i : ℕ)
      → g.stage i ≡ inside true
      → (g.lock ≡ some i → ⊥)
      → Step replica steady g (finish replica g i)
  deletes :
      (i : ℕ)
      → g.stage i ≡ deleting
      → Step replica steady g (record (finish replica g i) { lock = none })
  -- the release of a call without a token
  leaves : (i : ℕ) → g.stage i ≡ inside false → Step replica steady g (finish replica g i)
  -- Redis raises on the read of a release, or on its deletion
  fails_read :
      (i : ℕ)
      → g.stage i ≡ inside true
      → steady ≡ false
      → Step replica steady g (finish replica g i)
  fails_delete :
      (i : ℕ) → g.stage i ≡ deleting → steady ≡ false → Step replica steady g (finish replica g i)
  expires : steady ≡ false → Step replica steady g (record g { lock = none })

pub data Reach (replica : ℕ → ℕ) (steady : Bool) (g : Gate) : Gate → Type 0 where
  here : Reach replica steady g g
  next :
      {u v : Gate} → Reach replica steady g u → Step replica steady u v → Reach replica steady g v

abbrev pub IsFresh : Gate → Type 0
IsFresh g = (g.lock ≡ none) × ((k : ℕ) → g.local k ≡ none) × ((i : ℕ) → g.stage i ≡ fresh)

abbrev pub is_inside : Stage → Bool
is_inside (inside _) = true
is_inside _ = false
