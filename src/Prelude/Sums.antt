-- ===== src/Prelude/Sums.antt =====
-- Sums of a weight over an array, and what a write does to them.
use Prim.Native.Nat.{ℕ, zero, suc, ◌+◌, ◌≤◌, ◌<◌}
use mathlib.Core.Path.{◌≡◌}
use mathlib.Core.List.{List, [], ◌∷◌, ◌++◌}
use native.Mathlib.Omega.{arith}
use battlezone_netcode_patch.Prelude.Lists.{length, get_or, set}

module _ {ℓ} {A : Type ℓ} where
  abbrev pub sum : (A → ℕ) → List A → ℕ
  sum f [] = 0
  sum f (x ∷ xs) = f x + sum f xs

  pub sum-set :
      (f : A → ℕ) (xs : List A) (i : ℕ) (v d : A)
      → i < length xs
      → sum f (set xs i v) + f (get_or xs i d) ≡ sum f xs + f v
  sum-set f [] i v d h = elim h [ ]
  sum-set f (x ∷ xs) zero v d h = omega arith
  sum-set f (x ∷ xs) (suc i) v d h = omega (arith, sum-set f xs i v d (omega arith))

  pub sum-append : (f : A → ℕ) (xs ys : List A) → sum f (xs ++ ys) ≡ sum f xs + sum f ys
  sum-append f [] ys = omega arith
  sum-append f (x ∷ xs) ys = omega (arith, sum-append f xs ys)

  -- Weights of at most one add up to at most the length.
  pub sum-le-length : (f : A → ℕ) (xs : List A) → ((x : A) → f x ≤ 1) → sum f xs ≤ length xs
  sum-le-length f [] h = omega arith
  sum-le-length f (x ∷ xs) h = omega (arith, h x, sum-le-length f xs h)

  pub le-sum :
      (f : A → ℕ) (xs : List A) (i : ℕ) (d : A) → i < length xs → f (get_or xs i d) ≤ sum f xs
  le-sum f [] i d h = elim h [ ]
  le-sum f (x ∷ xs) zero d h = omega arith
  le-sum f (x ∷ xs) (suc i) d h = omega (arith, le-sum f xs i d (omega arith))
