-- ===== src/Ordering/Loops.antt =====
-- The loops over the bitmap in src/proto/ordering.c, with their fuel.
use melodi.Base.{
  ◌==◌, ==_iff, u8, ◌>>>◌, has, bit, bit_and_mask, two-pow_suc, ℕ, zero, suc, ◌+◌, ◌/◌, ◌%◌, ◌^◌,
  ◌≤◌, ◌<◌, ◌≡◌, ap, ap₂, ◌∙◌, false, arith,
}
use native.Mathlib.Decide.{ℕ_discrete}
use melodi.Ordering.State.{order_modulus, next, advance, release_loop, Run, Skip, skip_loop}

-- The marker of a position in the endless sequence of messages.
abbrev pub marker_of : ℕ → ℕ
marker_of p = p % order_modulus + 1

pub next-marker_of : (p : ℕ) → next (marker_of p) ≡ marker_of (p + 1)
unfolding next
next-marker_of p = ground arith

pub advance-marker_of : (p n : ℕ) → advance (marker_of p) n ≡ marker_of (p + n)
unfolding advance
advance-marker_of p zero = ap marker_of {y = p + 0} (omega arith)
advance-marker_of p (suc n) =
    ap (λ m. advance m n) (next-marker_of p)
    ∙ advance-marker_of (p + 1) n
    ∙ ap marker_of {y = p + suc n} (omega arith)

has-one : (bits : ℕ) → has bits 1 ≡ (bits % 2 == 1)
has-one bits = ground (arith, bit_and_mask 1 bits)

-- The loop passes exactly the digits 1 at the low end.
pub record Ran (bits p count : ℕ) (r : Run) : Type 0 where
  pub ones : ℕ
  pub expected : r.expected ≡ marker_of (p + ones)
  pub count_eq : r.count ≡ count + ones
  pub passed : (j : ℕ) → j < ones → bit j bits ≡ 1
  pub stopped : bit ones bits ≡ 0
  pub rest : (i : ℕ) → bit i r.bits ≡ bit (ones + i) bits
  pub rest-le : r.bits ≤ bits
  pub rest_even : r.bits % 2 ≡ 0

module _ (fuel bits p count : ℕ) where
  stop_here :
      bits % 2 ≡ 0
      → Ran bits p count (record { bits = bits; expected = marker_of p; count = count })
  unfolding bit
  stop_here even = record {
    ones = 0;
    expected = ap marker_of {y = p + 0} (omega arith);
    count_eq = omega arith;
    passed = λ j h. absurd (omega arith);
    stopped = even;
    rest = λ i. ap (λ k. bit k bits) {x = i} {y = 0 + i} (omega arith);
    rest-le = omega arith;
    rest_even = even;
  }

  go_on : bits % 2 ≡ 1 → (r : Run) → Ran (bits / 2) (p + 1) (count + 1) r → Ran bits p count r
  unfolding bit
  go_on odd r f = record {
    ones = suc f.ones;
    expected = f.expected ∙ ap marker_of {y = p + suc f.ones} (omega arith);
    count_eq = omega (arith, f.count_eq);
    passed = elim [ zero ↦ λ h. odd | suc j ↦ λ h. f.passed j (omega arith) ];
    stopped = f.stopped;
    rest = λ i.
        f.rest i ∙ ap (λ k. bit k bits) {x = suc (f.ones + i)} {y = suc f.ones + i} (omega arith);
    rest-le = omega (arith, f.rest-le);
    rest_even = f.rest_even;
  }

pub release_loop-Ran :
    (fuel bits p count : ℕ)
    → bits < 2 ^ fuel
    → count + fuel < 256
    → Ran bits p count (release_loop fuel bits (marker_of p) count)
unfolding release_loop
release_loop-Ran zero bits p count fits small = stop_here zero bits p count (omega arith)
release_loop-Ran (suc fuel) bits p count fits small = elim (ℕ_discrete (bits % 2) 1) [
  | yes odd ↦
      let rest = release_loop fuel (bits >>> 1) (next (marker_of p)) (u8 (count + 1)) in
      let e : rest ≡ release_loop fuel (bits / 2) (marker_of (p + 1)) (count + 1) =
        ap₂ (λ m c. release_loop fuel (bits / 2) m c) (next-marker_of p) (omega arith) in
      rw (has-one bits, (==_iff (bits % 2) 1).1 odd, e)
        (go_on fuel bits p count odd (release_loop fuel (bits / 2) (marker_of (p + 1)) (count + 1))
          (release_loop-Ran fuel (bits / 2) (p + 1) (count + 1) (omega (arith, two-pow_suc fuel))
            (omega arith)))
  | no even ↦
      let unset : (bits % 2 == 1) ≡ false = ground arith in
      rw (has-one bits, unset) (stop_here (suc fuel) bits p count (omega arith))
]

-- The loop passes exactly the digits 0 below the first digit 1.
pub record Skipped (bits from fuel : ℕ) (r : Skip) : Type 0 where
  pub zeros : ℕ
  pub zeros-lt : zeros < fuel
  pub skipped_eq : r.skipped ≡ from + zeros
  pub below : (j : ℕ) → j < zeros → bit j bits ≡ 0
  pub found : bit zeros bits ≡ 1
  pub rest : (i : ℕ) → bit i r.bits ≡ bit (zeros + i) bits
  pub rest-le : r.bits ≤ bits

module _ (bits from fuel : ℕ) where
  found_here : bits % 2 ≡ 1 → Skipped bits from (suc fuel) (record { bits = bits; skipped = from })
  unfolding bit
  found_here odd = record {
    zeros = 0;
    zeros-lt = omega arith;
    skipped_eq = omega arith;
    below = λ j h. absurd (omega arith);
    found = odd;
    rest = λ i. ap (λ k. bit k bits) {x = i} {y = 0 + i} (omega arith);
    rest-le = omega arith;
  }

  skip_one :
      bits % 2 ≡ 0
      → (r : Skip) → Skipped (bits / 2) (from + 1) fuel r
      → Skipped bits from (suc fuel) r
  unfolding bit
  skip_one even r f = record {
    zeros = suc f.zeros;
    zeros-lt = omega (arith, f.zeros-lt);
    skipped_eq = omega (arith, f.skipped_eq);
    below = elim [ zero ↦ λ h. even | suc j ↦ λ h. f.below j (omega arith) ];
    found = f.found;
    rest = λ i.
        f.rest i ∙ ap (λ k. bit k bits) {x = suc (f.zeros + i)} {y = suc f.zeros + i} (omega arith);
    rest-le = omega (arith, f.rest-le);
  }

pub skip_loop-Skipped :
    (fuel bits from : ℕ)
    → 0 < bits
    → bits < 2 ^ fuel
    → from + fuel < 256
    → Skipped bits from fuel (skip_loop fuel bits from)
unfolding skip_loop
skip_loop-Skipped zero bits from pos fits small = absurd (omega arith)
skip_loop-Skipped (suc fuel) bits from pos fits small = elim (ℕ_discrete (bits % 2) 1) [
  | yes odd ↦ rw (has-one bits, (==_iff (bits % 2) 1).1 odd) (found_here bits from fuel odd)
  | no even ↦
      let unset : (bits % 2 == 1) ≡ false = ground arith in
      let e : skip_loop fuel (bits >>> 1) (u8 (from + 1)) ≡ skip_loop fuel (bits / 2) (from + 1) =
        ap (λ c. skip_loop fuel (bits / 2) c) (omega arith) in
      rw (has-one bits, unset, e)
        (skip_one bits from fuel (omega arith) (skip_loop fuel (bits / 2) (from + 1)) (
          skip_loop-Skipped fuel (bits / 2) (from + 1) (omega arith)
            (omega (arith, two-pow_suc fuel)) (omega arith)))
]
