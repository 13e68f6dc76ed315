-- ===== src/Base/Bits.antt =====
-- The binary digits of a number, and what `&`, `|`, `<<` and a cast do to each.
use Prim.Native.Nat.{
  ℕ, zero, suc, ◌+◌, ◌-◌, ◌*◌, ◌/◌, ◌%◌, ◌^◌, ◌≤◌, ◌<◌, min, max, bit_and, bit_or, digits, bitwise,
  bit_and-bitwise, bit_or-bitwise,
}
use mathlib.Core.Path.{◌≡◌, refl, ap, ap₂, ◌∙◌}
use native.Mathlib.Nat.{
  pow-suc, one-le-pow, le_refl, div-add-mod, add-mul-mod_self_left, mod-eq_of_lt, mod-lt,
  suc-sub-suc,
}
use native.Mathlib.Omega.{arith}
use melodi.Base.Logic.{ltb, ◌==◌, if◌then◌else◌}

-- The digit of `x` at position `i`, 0 or 1.
unfoldable pub bit : ℕ → ℕ → ℕ
bit zero x = x % 2
bit (suc i) x = bit i (x / 2)

module _ (z : ℕ → ℕ) (f : ℕ → ℕ → ℕ) where
  -- Any count of at least `a` steps gives the same digits.
  digits_count : (m n a b : ℕ) → a ≤ m → a ≤ n → digits z f m a b ≡ digits z f n a b
  digits_count zero zero a b _ _ = refl
  digits_count zero (suc n) zero b _ _ = refl
  digits_count (suc m) zero zero b _ _ = refl
  digits_count (suc m) (suc n) zero b _ _ = refl
  digits_count zero (suc n) (suc a) b p q = absurd (omega arith)
  digits_count (suc m) zero (suc a) b p q = absurd (omega arith)
  digits_count (suc m) (suc n) (suc a) b p q =
      ap (λ (t : ℕ). t * 2 + f (suc a % 2) (b % 2))
        (digits_count m n (suc a / 2) (b / 2) (omega arith) (omega arith))

  -- One round of the operation takes a digit off both numbers.
  bitwise_halves :
      (x y : ℕ)
      → let n = suc x in bitwise z f n y ≡ bitwise z f (n / 2) (y / 2) * 2 + f (n % 2) (y % 2)
  bitwise_halves x y =
      let rest = suc x / 2 in
      ap (λ (high : ℕ). high * 2 + f (suc x % 2) (y % 2))
        (digits_count x rest rest (y / 2) (omega arith) (le_refl rest))

pub bit_and_halves : (x y : ℕ) → bit_and x y ≡ min (x % 2) (y % 2) + bit_and (x / 2) (y / 2) * 2
bit_and_halves zero y = simp bit_and-bitwise (omega arith)
bit_and_halves (suc x) y =
    let e : bit_and (suc x) y ≡ bit_and (suc x / 2) (y / 2) * 2 + min (suc x % 2) (y % 2) =
      simp bit_and-bitwise (bitwise_halves (λ t. 0) min x y) in
    omega (arith, e)

pub bit_or_halves : (x y : ℕ) → bit_or x y ≡ max (x % 2) (y % 2) + bit_or (x / 2) (y / 2) * 2
bit_or_halves zero y = simp bit_or-bitwise (omega arith)
bit_or_halves (suc x) y =
    let e : bit_or (suc x) y ≡ bit_or (suc x / 2) (y / 2) * 2 + max (suc x % 2) (y % 2) =
      simp bit_or-bitwise (bitwise_halves (λ t. t) max x y) in
    omega (arith, e)

pub bit-le_one : (i x : ℕ) → bit i x ≤ 1
unfolding bit
bit-le_one zero x = omega arith
bit-le_one (suc i) x = bit-le_one i (x / 2)

pub bit-zero : (i : ℕ) → bit i 0 ≡ 0
unfolding bit
bit-zero zero = refl
bit-zero (suc i) = bit-zero i

-- By a bound on the number.
bit_and-zero_upto : (bound x : ℕ) → x ≤ bound → bit_and x 0 ≡ 0
bit_and-zero_upto zero x h = ap (λ y. bit_and y 0) {x = x} {y = 0} (omega arith)
bit_and-zero_upto (suc bound) x h =
    omega (arith, bit_and_halves x 0, bit_and-zero_upto bound (x / 2) (omega arith))

pub bit_and-zero : (x : ℕ) → bit_and x 0 ≡ 0
bit_and-zero x = bit_and-zero_upto x x (le_refl x)

bit_or-zero_upto : (bound x : ℕ) → x ≤ bound → bit_or x 0 ≡ x
bit_or-zero_upto zero x h = ap (λ y. bit_or y 0) {x = x} {y = 0} (omega arith) ∙ omega arith
bit_or-zero_upto (suc bound) x h =
    omega (arith, bit_or_halves x 0, bit_or-zero_upto bound (x / 2) (omega arith))

pub bit_or-zero : (x : ℕ) → bit_or x 0 ≡ x
bit_or-zero x = bit_or-zero_upto x x (le_refl x)

pub bit-bit_and : (i a b : ℕ) → bit i (bit_and a b) ≡ min (bit i a) (bit i b)
unfolding bit
bit-bit_and zero a b = omega (arith, bit_and_halves a b)
bit-bit_and (suc i) a b =
    ap (bit i) (omega (arith, bit_and_halves a b)) ∙ bit-bit_and i (a / 2) (b / 2)

pub bit-bit_or : (i a b : ℕ) → bit i (bit_or a b) ≡ max (bit i a) (bit i b)
unfolding bit
bit-bit_or zero a b = omega (arith, bit_or_halves a b)
bit-bit_or (suc i) a b =
    ap (bit i) (omega (arith, bit_or_halves a b)) ∙ bit-bit_or i (a / 2) (b / 2)

pub two-pow_suc : (k : ℕ) → 2 ^ suc k ≡ 2 * 2 ^ k
two-pow_suc k = omega (arith, pow-suc 2 k)

pub bit-two-pow : (i j : ℕ) → bit j (2 ^ i) ≡ (if i == j then 1 else 0)
unfolding bit
bit-two-pow zero zero = refl
bit-two-pow zero (suc j) = ground (arith, bit-zero j)
bit-two-pow (suc i) zero = ground (arith, two-pow_suc i)
bit-two-pow (suc i) (suc j) =
    ap (bit j) (omega (arith, two-pow_suc i)) ∙ bit-two-pow i j ∙ ground arith

pub mul-two-pow_suc : (x d : ℕ) → x * 2 ^ suc d ≡ 2 * (x * 2 ^ d)
mul-two-pow_suc x d = omega (arith, ap (λ (t : ℕ). x * t) (two-pow_suc d))

pub bit-shl : (d j x : ℕ) → bit j (x * 2 ^ d) ≡ (if ltb j d then 0 else bit (j - d) x)
unfolding bit
bit-shl zero j x = ap (bit j) {y = x} (omega arith) ∙ ground arith
bit-shl (suc d) zero x = ground (arith, mul-two-pow_suc x d)
bit-shl (suc d) (suc j) x =
    ap (bit j) {y = x * 2 ^ d} (omega (arith, mul-two-pow_suc x d))
    ∙ bit-shl d j x
    ∙ ground (arith, suc-sub-suc j d)

-- The lowest digit of a remainder, and the others.
mod_double : (x m : ℕ) → 0 < m → x % (2 * m) ≡ 2 * (x / 2 % m) + x % 2
mod_double x m h =
    ap (λ (t : ℕ). t % (2 * m)) (omega (arith, div-add-mod (x / 2) m))
    ∙ add-mul-mod_self_left (2 * (x / 2 % m) + x % 2) (2 * m) (x / 2 / m)
    ∙ mod-eq_of_lt (omega (arith, mod-lt (x / 2) h))

pub mod-two-pow_suc : (w x : ℕ) → x % 2 ^ suc w ≡ 2 * (x / 2 % 2 ^ w) + x % 2
mod-two-pow_suc w x =
    ap (λ (t : ℕ). x % t) (two-pow_suc w) ∙ mod_double x (2 ^ w) (one-le-pow w 2 (omega arith))

pub bit-mod : (w j x : ℕ) → bit j (x % 2 ^ w) ≡ (if ltb j w then bit j x else 0)
unfolding bit
bit-mod zero j x = ap (bit j) {y = 0} (omega arith) ∙ bit-zero j ∙ ground arith
bit-mod (suc w) zero x = ground (arith, mod-two-pow_suc w x)
bit-mod (suc w) (suc j) x =
    ap (bit j) {y = x / 2 % 2 ^ w} (omega (arith, mod-two-pow_suc w x))
    ∙ bit-mod w j (x / 2)
    ∙ ground arith

halved : (i : ℕ) → 2 ^ suc i / 2 ≡ 2 ^ i
halved i = omega (arith, two-pow_suc i)

-- `x & (1 << i)` tests the digit `i`.
pub bit_and-two-pow : (i x : ℕ) → bit_and x (2 ^ i) ≡ bit i x * 2 ^ i
unfolding bit
bit_and-two-pow zero x = omega (arith, bit_and_halves x 1, bit_and-zero (x / 2))
bit_and-two-pow (suc i) x = omega (
  arith,
  bit_and_halves x (2 ^ suc i),
  two-pow_suc i,
  ap (bit_and (x / 2)) {y = 2 ^ i} (halved i),
  bit_and-two-pow i (x / 2),
  mul-two-pow_suc (bit i (x / 2)) i,
)

pub bit_or-lt : (w a b : ℕ) → a < 2 ^ w → b < 2 ^ w → bit_or a b < 2 ^ w
bit_or-lt zero a b p q =
    let e : bit_or a b ≡ 0 =
      ap₂ bit_or {x = a} {y = 0} {u = b} {v = 0} (omega arith) (omega arith) in
    omega arith
bit_or-lt (suc w) a b p q = omega (
  arith,
  bit_or_halves a b,
  two-pow_suc w,
  bit_or-lt w (a / 2) (b / 2) (omega (arith, two-pow_suc w)) (omega (arith, two-pow_suc w)),
)

pub bit_and-lt : (w a b : ℕ) → a < 2 ^ w → b < 2 ^ w → bit_and a b < 2 ^ w
bit_and-lt zero a b p q =
    let e : bit_and a b ≡ 0 =
      ap₂ bit_and {x = a} {y = 0} {u = b} {v = 0} (omega arith) (omega arith) in
    omega arith
bit_and-lt (suc w) a b p q = omega (
  arith,
  bit_and_halves a b,
  two-pow_suc w,
  bit_and-lt w (a / 2) (b / 2) (omega (arith, two-pow_suc w)) (omega (arith, two-pow_suc w)),
)

-- Numbers with the same digits are equal.
pub bit_ext : (w a b : ℕ) → a < 2 ^ w → b < 2 ^ w → ((i : ℕ) → bit i a ≡ bit i b) → a ≡ b
unfolding bit
bit_ext zero a b p q h = omega arith
bit_ext (suc w) a b p q h = omega (
  arith,
  h 0,
  bit_ext w (a / 2) (b / 2) (omega (arith, two-pow_suc w)) (omega (arith, two-pow_suc w))
      (λ i. h (suc i)),
)
