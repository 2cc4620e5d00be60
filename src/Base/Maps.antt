-- ===== src/Base/Maps.antt =====
-- A dictionary over numeric keys as a function, with the write of one key.
-- It models no code of the repository.
use Prim.Native.Nat.{ℕ}
use mathlib.Core.Path.{◌≡◌}
use native.Mathlib.Omega.{arith}
use onlinetlabs.Base.Tests.{◌==◌, if◌then◌else◌}

abbrev pub update {ℓ} : {A : Type ℓ} → (ℕ → A) → ℕ → A → ℕ → A
update m k v j = if k == j then v else m j

pub update_self {ℓ} : {A : Type ℓ} (m : ℕ → A) (k : ℕ) (v : A) → update m k v k ≡ v
update_self m k v = ground arith
