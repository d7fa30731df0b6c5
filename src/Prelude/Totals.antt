-- ===== src/Prelude/Totals.antt =====
-- Sums over a list, and how a write or an addition at the end changes them.
use Prim.Native.Nat.{ℕ, zero, suc, ◌+◌, ◌≤◌}
use mathlib.Core.Path.{◌≡◌, refl}
use mathlib.Core.Option.{some}
use mathlib.Core.List.{List, [], ◌∷◌, ◌++◌}
use fa.Prelude.Lists.{get_elem?, set, replicate}
use native.Mathlib.Omega.{arith}

unfoldable pub total : {A : Type 0} → (A → ℕ) → List A → ℕ
total f [] = 0
total f (x ∷ xs) = f x + total f xs

module _ {A : Type 0} (f : A → ℕ) where
  pub total-set :
      (xs : List A) (i : ℕ) (a b : A)
      → get_elem? xs i ≡ some a
      → total f (set xs i b) + f a ≡ total f xs + f b
  unfolding total
  total-set [] i a b e = cc
  total-set (x ∷ xs) zero a b e = let same : x ≡ a = cc in rw same (omega arith)
  total-set (x ∷ xs) (suc i) a b e = omega (arith, total-set xs i a b e)

  pub total-append : (xs ys : List A) → total f (xs ++ ys) ≡ total f xs + total f ys
  unfolding total
  total-append [] ys = omega arith
  total-append (x ∷ xs) ys = omega (arith, total-append xs ys)

  pub total-snoc : (xs : List A) (a : A) → total f (xs ++ (a ∷ [])) ≡ total f xs + f a
  unfolding total
  total-snoc xs a = omega (arith, total-append xs (a ∷ []))

  pub total-get : (xs : List A) (i : ℕ) (a : A) → get_elem? xs i ≡ some a → f a ≤ total f xs
  unfolding total
  total-get [] i a e = cc
  total-get (x ∷ xs) zero a e = let same : x ≡ a = cc in rw same (omega arith)
  total-get (x ∷ xs) (suc i) a e = omega (arith, total-get xs i a e)

  pub total-replicate_zero : (n : ℕ) (a : A) → f a ≡ 0 → total f (replicate n a) ≡ 0
  unfolding total
  total-replicate_zero zero a h = refl
  total-replicate_zero (suc n) a h = omega (arith, total-replicate_zero n a h)
