-- ===== src/Common/Every.antt =====
-- Lists all of whose elements pass a test.
use Prim.Native.Nat.{ℕ, zero, suc}
use mathlib.Core.Path.{◌≡◌, refl}
use mathlib.Core.List.{List, [], ◌∷◌, ◌++◌}
use mathlib.Core.Bool.{Bool, true, ◌&&◌}
use mathlib.Core.Option.{Option, none, some}
use native.Mathlib.Omega.{arith}
use pi_ssc_ssd_ssa.Common.Lists.{get_or, set}

module _ {ℓ} {A : Type ℓ} where
  abbrev pub get_elem? : List A → ℕ → Option A
  get_elem? [] i = none
  get_elem? (x ∷ xs) zero = some x
  get_elem? (x ∷ xs) (suc i) = get_elem? xs i

  unfoldable pub every : (A → Bool) → List A → Bool
  every f [] = true
  every f (x ∷ xs) = f x && every f xs

  pub every-append :
      (f : A → Bool) (xs ys : List A)
      → every f xs ≡ true
      → every f ys ≡ true
      → every f (xs ++ ys) ≡ true
  unfolding every
  every-append f [] ys h k = k
  every-append f (x ∷ xs) ys h k = ground (arith, h, every-append f xs ys (ground (arith, h)) k)

  pub every-get_elem? :
      (f : A → Bool) (xs : List A) (i : ℕ) (x : A)
      → every f xs ≡ true
      → get_elem? xs i ≡ some x
      → f x ≡ true
  unfolding every
  every-get_elem? f [] i x h e = cc
  every-get_elem? f (y ∷ xs) zero x h e = let same : y ≡ x = cc in rw (← same) (ground (arith, h))
  every-get_elem? f (y ∷ xs) (suc i) x h e = every-get_elem? f xs i x (ground (arith, h)) e

  pub every-get_or :
      (f : A → Bool) (xs : List A) (i : ℕ) (d : A)
      → every f xs ≡ true
      → f d ≡ true
      → f (get_or xs i d) ≡ true
  unfolding every get_or
  every-get_or f [] i d h k = k
  every-get_or f (x ∷ xs) zero d h k = ground (arith, h)
  every-get_or f (x ∷ xs) (suc i) d h k = every-get_or f xs i d (ground (arith, h)) k

  pub every-set :
      (f : A → Bool) (xs : List A) (i : ℕ) (v : A)
      → every f xs ≡ true
      → f v ≡ true
      → every f (set xs i v) ≡ true
  unfolding every set
  every-set f [] i v h k = refl
  every-set f (x ∷ xs) zero v h k = ground (arith, h, k)
  every-set f (x ∷ xs) (suc i) v h k = ground (arith, h, every-set f xs i v (ground (arith, h)) k)
