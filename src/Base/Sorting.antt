-- ===== src/Base/Sorting.antt =====
-- `sorted` under a Boolean order, by insertion.
-- It models no code of the repository.
use Prim.Native.Nat.{suc}
use mathlib.Core.Path.{◌≡◌, refl}
use mathlib.Core.Bool.{Bool, ◌||◌}
use mathlib.Core.List.{List, [], ◌∷◌}
use native.Mathlib.Omega.{arith}
use onlinetlabs.Base.Tests.{if◌then◌else◌}
use onlinetlabs.Base.Lists.{length, any}

module _ {ℓ} {A : Type ℓ} where
  abbrev pub insert : (A → A → Bool) → A → List A → List A
  insert le x [] = x ∷ []
  insert le x (y ∷ ys) = let rest = insert le x ys in if le x y then x ∷ y ∷ ys else y ∷ rest

  abbrev pub sorted : (A → A → Bool) → List A → List A
  sorted le [] = []
  sorted le (x ∷ xs) = insert le x (sorted le xs)

  any-insert :
      (p : A → Bool) (le : A → A → Bool) (x : A) (ys : List A)
      → any p (insert le x ys) ≡ (p x || any p ys)
  any-insert p le x [] = refl
  any-insert p le x (y ∷ ys) = ground (arith, any-insert p le x ys)

  pub any-sorted :
      (p : A → Bool) (le : A → A → Bool) (xs : List A) → any p (sorted le xs) ≡ any p xs
  any-sorted p le [] = refl
  any-sorted p le (x ∷ xs) = ground (arith, any-insert p le x (sorted le xs), any-sorted p le xs)

  length-insert :
      (le : A → A → Bool) (x : A) (ys : List A) → length (insert le x ys) ≡ suc (length ys)
  length-insert le x [] = refl
  length-insert le x (y ∷ ys) = ground (arith, length-insert le x ys)

  pub length-sorted : (le : A → A → Bool) (xs : List A) → length (sorted le xs) ≡ length xs
  length-sorted le [] = refl
  length-sorted le (x ∷ xs) = omega (arith, length-insert le x (sorted le xs), length-sorted le xs)
