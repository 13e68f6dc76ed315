-- ===== src/Airtime/Sums.antt =====
-- The sum of an array, and how a write changes it.
use melodi.Base.{
  length, get_or, set, replicate, ℕ, zero, suc, ◌+◌, ◌≤◌, ◌<◌, ◌≡◌, refl, List, ◌∷◌, arith, [],
}

unfoldable pub sum : List ℕ → ℕ
sum [] = 0
sum (x ∷ xs) = x + sum xs

pub sum-replicate_zero : (n : ℕ) → sum (replicate n 0) ≡ 0
unfolding sum
sum-replicate_zero zero = refl
sum-replicate_zero (suc n) = omega (arith, sum-replicate_zero n)

pub get_or-le-sum : (xs : List ℕ) (i : ℕ) → get_or xs i 0 ≤ sum xs
unfolding sum
get_or-le-sum [] i = omega arith
get_or-le-sum (x ∷ xs) zero = omega arith
get_or-le-sum (x ∷ xs) (suc i) = omega (arith, get_or-le-sum xs i)

pub sum-set :
    (xs : List ℕ) (i v : ℕ) → i < length xs → sum (set xs i v) + get_or xs i 0 ≡ sum xs + v
unfolding sum
sum-set [] i v h = absurd (omega arith)
sum-set (x ∷ xs) zero v h = omega arith
sum-set (x ∷ xs) (suc i) v h = omega (arith, sum-set xs i v (omega arith))

pub sum-zero : (xs : List ℕ) → ((i : ℕ) → i < length xs → get_or xs i 0 ≡ 0) → sum xs ≡ 0
unfolding sum
sum-zero [] h = refl
sum-zero (x ∷ xs) h = omega (arith, h 0 (omega arith), sum-zero xs (λ i p. h (suc i) (omega arith)))
