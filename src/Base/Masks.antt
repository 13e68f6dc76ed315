-- ===== src/Base/Masks.antt =====
-- Single digits and masks: `x & (1 << i)`, `x | (1 << i)`, `(q << k) | r`, `x & (2 ^ k - 1)` and `~x`.
use Prim.Native.Nat.{ℕ, zero, suc, ◌+◌, ◌-◌, ◌*◌, ◌/◌, ◌%◌, ◌^◌, ◌≤◌, ◌<◌, bit_and, bit_or}
use mathlib.Core.Path.{◌≡◌, refl, ap, ap₂, ◌∙◌}
use native.Mathlib.Nat.{
  one-le-pow, pow-le-pow_right, mod-eq_of_lt, div-add-mod, mod-lt, div-div-eq-div-mul,
  div-lt_iff_lt-mul,
}
use native.Mathlib.Omega.{arith}
use mathlib.Core.Logic.{◌⊎◌, inl, inr}
use mathlib.Core.Bool.{false}
use melodi.Base.Logic.{ltb, ◌==◌, if◌then◌else◌}
use melodi.Base.Words.{◌<<<◌, has, inv64}
use melodi.Base.Bits.{
  bit, bit_and_halves, bit_or_halves, bit-le_one, bit-zero, bit_and-zero, bit_or-zero, bit-bit_or,
  bit-two-pow, bit_and-two-pow, bit_or-lt, two-pow_suc, mul-two-pow_suc, mod-two-pow_suc,
}

-- The test `x & (1 << i)`, and setting that digit by `x | (1 << i)`.
pub has-one_shl : (i x : ℕ) → has x (1 <<< i) ≡ (bit i x == 1)
has-one_shl i x = ground (
  arith,
  ap (bit_and x) {x = 1 * 2 ^ i} {y = 2 ^ i} (omega arith),
  bit_and-two-pow i x,
  bit-le_one i x,
  one-le-pow i 2 (omega arith),
  times_bit (bit i x) (2 ^ i),
)
  where
    times_bit : (b m : ℕ) → (b * m ≡ 0) × (b ≡ 0) ⊎ (b * m ≡ m) × (b ≡ 1) ⊎ (2 ≤ b)
    times_bit zero m = inl (omega arith, refl)
    times_bit (suc zero) m = inr (inl (omega arith, refl))
    times_bit (suc (suc b)) m = inr (inr (omega arith))

pub bit-set_one : (i j x : ℕ) → bit j (bit_or x (1 <<< i)) ≡ (if i == j then 1 else bit j x)
bit-set_one i j x = ground (
  arith,
  bit-bit_or j x (1 * 2 ^ i),
  ap (bit j) {x = 1 * 2 ^ i} {y = 2 ^ i} (omega arith),
  bit-two-pow i j,
  bit-le_one j x,
)

pub set_one-lt : (w i x : ℕ) → x < 2 ^ w → i < w → bit_or x (1 <<< i) < 2 ^ w
set_one-lt w i x fits lt = bit_or-lt w x (1 * 2 ^ i) fits (
    omega (
      arith,
      two-pow_suc i,
      one-le-pow i 2 (omega arith),
      pow-le-pow_right {n = 2} (omega arith) {i = suc i} {j = w} lt,
    ))

-- `(q << k) | r` is a sum where `r` fits `k` bits.
pub bit_or-shl : (w high low : ℕ) → low < 2 ^ w → bit_or (high <<< w) low ≡ high * 2 ^ w + low
bit_or-shl zero q r fits = omega (
  arith,
  ap₂ bit_or {x = q * 1} {y = q} {u = r} {v = 0} (omega arith) (omega arith),
  bit_or-zero q,
)
bit_or-shl (suc k) q r fits = omega (
  arith,
  bit_or_halves (q * 2 ^ suc k) r,
  mul-two-pow_suc q k,
  ap (λ (t : ℕ). bit_or t (r / 2)) {x = q * 2 ^ suc k / 2} {y = q * 2 ^ k}
      (omega (arith, mul-two-pow_suc q k)),
  bit_or-shl k q (r / 2) (omega (arith, two-pow_suc k)),
)

-- A mask of `k` ones keeps the remainder by `2 ^ k`.
pub bit_and_mask : (k a : ℕ) → bit_and a (2 ^ k - 1) ≡ a % 2 ^ k
bit_and_mask zero a = omega (arith, bit_and-zero a)
bit_and_mask (suc k) a = omega (
  arith,
  one-le-pow k 2 (omega arith),
  two-pow_suc k,
  bit_and_halves a (2 ^ suc k - 1),
  ap (bit_and (a / 2)) {x = (2 ^ suc k - 1) / 2} {y = 2 ^ k - 1}
      (omega (arith, two-pow_suc k, one-le-pow k 2 (omega arith))),
  bit_and_mask k (a / 2),
  mod-two-pow_suc k a,
)

two-pow_add : (a b : ℕ) → 2 ^ (a + b) ≡ 2 ^ a * 2 ^ b
two-pow_add zero b = ap (λ (k : ℕ). 2 ^ k) {x = 0 + b} {y = b} (omega arith) ∙ omega arith
two-pow_add (suc a) b =
    ap (λ (k : ℕ). 2 ^ k) {x = suc a + b} {y = suc (a + b)} (omega arith)
    ∙ omega (arith, two-pow_suc (a + b), two-pow_add a b, ap (λ (t : ℕ). t * 2 ^ b) (two-pow_suc a))

-- A mask that is shifted up looks at the digits from there on.
bit_and-mul : (k x m : ℕ) → bit_and x (m * 2 ^ k) ≡ bit_and (x / 2 ^ k) m * 2 ^ k
bit_and-mul zero x m =
    ap₂ bit_and {x = x} {y = x / 1} {u = m * 1} {v = m} (omega arith) (omega arith) ∙ omega arith
bit_and-mul (suc k) x m = omega (
  arith,
  bit_and_halves x (m * 2 ^ suc k),
  mul-two-pow_suc m k,
  ap (bit_and (x / 2)) {x = m * 2 ^ suc k / 2} {y = m * 2 ^ k} (omega (arith, mul-two-pow_suc m k)),
  bit_and-mul k (x / 2) m,
  ap (λ (t : ℕ). bit_and t m * 2 ^ k) {x = x / 2 / 2 ^ k} {y = x / 2 ^ suc k}
      (div-div-eq-div-mul x 2 (2 ^ k) ∙ ap (λ (t : ℕ). x / t) (omega (arith, two-pow_suc k))),
  mul-two-pow_suc (bit_and (x / 2 ^ suc k) m) k,
)

-- A number with no digit above the low `k` is below `2 ^ k`.
pub mask-lt : (k x : ℕ) → k ≤ 64 → x < 2 ^ 64 → has x (inv64 (2 ^ k - 1)) ≡ false → x < 2 ^ k
mask-lt k x le fits none =
    let q = x / 2 ^ k in
    let whole : 2 ^ 64 ≡ 2 ^ k * 2 ^ (64 - k) =
      ap (λ (n : ℕ). 2 ^ n) {x = 64} {y = k + (64 - k)} (omega arith) ∙ two-pow_add k (64 - k) in
    let pos : 1 ≤ 2 ^ k = one-le-pow k 2 (omega arith) in
    let one_less : (2 ^ (64 - k) - 1 + 1) * 2 ^ k ≡ 2 ^ (64 - k) * 2 ^ k =
      ap (λ (t : ℕ). t * 2 ^ k) (omega (arith, one-le-pow (64 - k) 2 (omega arith))) in
    let above : inv64 (2 ^ k - 1) ≡ (2 ^ (64 - k) - 1) * 2 ^ k =
      omega (arith, whole, pos, one_less) in
    let small : q < 2 ^ (64 - k) = (div-lt_iff_lt-mul pos).1 (omega (arith, whole)) in
    let digits : bit_and x (inv64 (2 ^ k - 1)) ≡ q * 2 ^ k =
      ap (bit_and x) above
      ∙ bit_and-mul k x (2 ^ (64 - k) - 1)
      ∙ ap (λ (t : ℕ). t * 2 ^ k) (bit_and_mask (64 - k) q ∙ mod-eq_of_lt small) in
    let none' : q * 2 ^ k ≡ 0 = ground (arith, digits) in
    omega (arith, none', div-add-mod x (2 ^ k), mod-lt x pos)

-- The digits of `2 ^ w - 1 - x`, which is `~x` at width `w`.
pub bit-complement :
    (w i x : ℕ) → x < 2 ^ w → bit i (2 ^ w - 1 - x) ≡ (if ltb i w then 1 - bit i x else 0)
unfolding bit
bit-complement zero i x h = ap (bit i) {y = 0} (omega arith) ∙ bit-zero i ∙ ground arith
bit-complement (suc w) zero x h = ground (arith, two-pow_suc w)
bit-complement (suc w) (suc i) x h =
    ap (bit i) {y = 2 ^ w - 1 - x / 2} (omega (arith, two-pow_suc w))
    ∙ bit-complement w i (x / 2) (omega (arith, two-pow_suc w))
    ∙ ground arith

pub bit-mask : (k i : ℕ) → bit i (2 ^ k - 1) ≡ (if ltb i k then 1 else 0)
bit-mask k i =
    ap (bit i) {x = 2 ^ k - 1} {y = 2 ^ k - 1 - 0} (omega arith)
    ∙ bit-complement k i 0 (one-le-pow k 2 (omega arith))
    ∙ ground (arith, bit-zero i)
