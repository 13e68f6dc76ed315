-- ===== src/Radio/Duration.antt =====
-- melodi_radio_airtime_estimate of src/proto/radio.c. A signed difference that may fall below zero
-- is tested before it is taken; the other signed values are taken in ℕ.
use melodi.Base.{
  ltb, leb, ◌==◌, if◌then◌else◌, Bool-cases, reject, reject-ok, Result, u32, u64, ◌<<<◌,
  two-pow_suc, ok, err, einval, ℕ, zero, suc, ◌+◌, ◌-◌, ◌*◌, ◌/◌, ◌%◌, ◌^◌, ◌≤◌, ◌<◌, ◌≡◌, refl,
  sym, ap, ap₂, ◌∙◌, ◌≢◌, inl, inr, Bool, true, false, not, ◌&&◌, ◌||◌, arith, ◌>>◌,
}
use native.Mathlib.Nat.{
  mul-le-mul, div-lt_iff_lt-mul, le-div_iff_mul-le, div-mul-le_self, one-le-pow, div-le_self,
  mul-le-mul_right, mod-add-div', mod-lt, mul-add-div_right, add-div_right, div-eq_of_lt,
}

unfoldable pub estimate_refused : ℕ → ℕ → ℕ → ℕ → Bool
estimate_refused spreading_factor bandwidth_khz coding_rate payload_length =
    ltb spreading_factor 6
    || ltb 12 spreading_factor
    || bandwidth_khz == 0
    || ltb coding_rate 5
    || ltb 8 coding_rate
    || ltb 240 payload_length

unfoldable pub symbol_us : ℕ → ℕ → ℕ
symbol_us spreading_factor bandwidth_khz = u64 (u64 (1 <<< spreading_factor) * 1000) / bandwidth_khz

unfoldable pub low_rate : ℕ → ℕ → ℕ
low_rate spreading_factor bandwidth_khz =
    if leb 11 spreading_factor && leb bandwidth_khz 125 then 1 else 0

unfoldable pub payload_symbols : ℕ → ℕ → ℕ → ℕ → ℕ
payload_symbols spreading_factor low coding_rate payload_length =
    let denominator = 4 * (spreading_factor - 2 * low) in
    let numerator = 8 * payload_length + 28 + 16 - 4 * spreading_factor in
    let symbols = if numerator == 0 then 0 else (numerator + denominator - 1) / denominator in
    8 + symbols * coding_rate

unfoldable pub airtime_estimate : ℕ → ℕ → ℕ → ℕ → Result ℕ
airtime_estimate spreading_factor bandwidth_khz coding_rate payload_length = do
  reject (estimate_refused spreading_factor bandwidth_khz coding_rate payload_length) einval
  reject (leb spreading_factor (2 * low_rate spreading_factor bandwidth_khz)) einval
  let symbol = symbol_us spreading_factor bandwidth_khz
  let symbols =
      payload_symbols spreading_factor (low_rate spreading_factor bandwidth_khz) coding_rate
        payload_length
  ok (u32 (u64 (u64 (symbol * 49) / 4 + u64 (u64 symbols * symbol))))

div_mono : (a b d : ℕ) → 0 < d → a ≤ b → a / d ≤ b / d
div_mono a b d pos h =
    (le-div_iff_mul-le {k = d} {x = a / d} {y = b} pos).1 (omega (arith, div-mul-le_self a d))

module _ (sf low cr : ℕ) (sf_low : 6 ≤ sf) (sf_high : sf ≤ 12) (rate : low ≤ 1)
    (late : low ≡ 1 → 11 ≤ sf) (coding : cr ≤ 8) where
  numerator : ℕ → ℕ
  numerator n = 8 * n + 28 + 16 - 4 * sf

  symbols : ℕ → ℕ
  symbols n =
      if numerator n == 0 then 0 else (numerator n + 4 * (sf - 2 * low) - 1) / (4 * (sf - 2 * low))

  symbols-le : (n : ℕ) → n ≤ 240 → symbols n ≤ 81
  unfolding symbols numerator
  symbols-le n h =
      let d = 4 * (sf - 2 * low) in
      let wide : 24 ≤ d = ground arith in
      let few : (numerator n + d - 1) / d < 82 =
        (div-lt_iff_lt-mul {k = d} {x = numerator n + d - 1} {y = 82} (omega arith)).1
          (omega arith) in
      ground arith

  symbols_mono : (n m : ℕ) → n ≤ m → symbols n ≤ symbols m
  unfolding symbols numerator
  symbols_mono n m h =
      let d = 4 * (sf - 2 * low) in
      let wide : 24 ≤ d = ground arith in
      let more : (numerator n + d - 1) / d ≤ (numerator m + d - 1) / d =
        div_mono (numerator n + d - 1) (numerator m + d - 1) d (omega arith) (omega arith) in
      ground arith

two-pow-le : (n m : ℕ) → n ≤ m → 2 ^ n ≤ 2 ^ m
two-pow-le n zero h = omega (arith, ap (λ k. 2 ^ k) {x = n} {y = 0} (omega arith))
two-pow-le zero (suc m) h = omega (arith, two-pow_suc m, one-le-pow m 2 (omega arith))
two-pow-le (suc n) (suc m) h =
    omega (arith, two-pow_suc m, two-pow_suc n, two-pow-le n m (omega arith))

-- The parameters the estimate takes.
unfoldable pub in_range : ℕ → ℕ → ℕ → ℕ → Bool
in_range sf bw cr n = (leb 6 sf && leb sf 12) && (ltb 0 bw && ((leb 5 cr && leb cr 8) && leb n 240))

-- One symbol, in whole microseconds.
unfoldable pub symbol_time : ℕ → ℕ → ℕ
symbol_time sf bw = 2 ^ sf * 1000 / bw

-- A division that rounds up.
unfoldable pub rounded_up : ℕ → ℕ → ℕ
rounded_up a d = a / d + (if a % d == 0 then 0 else 1)

-- The symbols after the preamble: with the low rate, two chips of each symbol carry nothing.
unfoldable pub symbol_count : ℕ → ℕ → ℕ → ℕ → ℕ
symbol_count sf bw cr n =
    let carried = if leb 11 sf && leb bw 125 then sf - 2 else sf in
    8 + rounded_up (8 * n + 44 - 4 * sf) (4 * carried) * cr

-- The time on air in ℕ: a preamble of 12.25 symbols, and the symbols after it.
unfoldable pub time_on_air : ℕ → ℕ → ℕ → ℕ → ℕ
time_on_air sf bw cr n = symbol_time sf bw * 49 / 4 + symbol_count sf bw cr n * symbol_time sf bw

symbol_us-eq : (sf bw : ℕ) → sf ≤ 12 → symbol_us sf bw ≡ symbol_time sf bw
unfolding symbol_us symbol_time
symbol_us-eq sf bw h =
    ap (λ k. k / bw) {x = u64 (u64 (1 <<< sf) * 1000)} {y = 2 ^ sf * 1000}
      (omega (arith, two-pow-le sf 12 h))

symbol_us-le : (sf bw : ℕ) → sf ≤ 12 → 0 < bw → symbol_us sf bw ≤ 4096000
unfolding symbol_time
symbol_us-le sf bw h pos =
    let whole : 2 ^ sf * 1000 ≤ 4096000 = omega (arith, two-pow-le sf 12 h) in
    omega (arith, div-le_self (2 ^ sf * 1000) bw, symbol_us-eq sf bw h)

-- The same as the code composes it.
unfoldable exact : ℕ → ℕ → ℕ → ℕ → ℕ
exact sf bw cr n =
    symbol_us sf bw * 49 / 4 + payload_symbols sf (low_rate sf bw) cr n * symbol_us sf bw

payload_symbols-le :
    (sf low cr n : ℕ)
    → 6 ≤ sf
    → sf ≤ 12
    → low ≤ 1
    → (low ≡ 1 → 11 ≤ sf)
    → cr ≤ 8
    → n ≤ 240
    → payload_symbols sf low cr n ≤ 656
unfolding payload_symbols symbols numerator
payload_symbols-le sf low cr n lo hi rate late coding h =
    omega (arith, mul-le-mul (symbols-le sf low cr lo hi rate late coding n h) coding)

low_rate_lem : (sf bw : ℕ) → (low_rate sf bw ≤ 1) × (low_rate sf bw ≡ 1 → 11 ≤ sf)
unfolding low_rate
low_rate_lem sf bw = (ground arith, λ e. ground arith)

record Sane (sf bw cr n : ℕ) : Type 0 where
  sf_low : 6 ≤ sf
  sf_high : sf ≤ 12
  bandwidth : 0 < bw
  coding : cr ≤ 8
  payload : n ≤ 240

accepted-Sane : (sf bw cr n : ℕ) → estimate_refused sf bw cr n ≡ false → Sane sf bw cr n
unfolding estimate_refused
accepted-Sane sf bw cr n good = record {
  sf_low = ground arith;
  sf_high = ground arith;
  bandwidth = ground arith;
  coding = ground arith;
  payload = ground arith;
}

exact-lt : (sf bw cr n : ℕ) → Sane sf bw cr n → exact sf bw cr n < 2 ^ 32
unfolding exact
exact-lt sf bw cr n v =
    let (rate, late) = low_rate_lem sf bw in
    let symbol = symbol_us-le sf bw v.sf_high v.bandwidth in
    let few =
      payload_symbols-le sf (low_rate sf bw) cr n v.sf_low v.sf_high rate late v.coding v.payload in
    omega (arith, mul-le-mul few symbol, symbol)

range-refused : (sf bw cr n : ℕ) → estimate_refused sf bw cr n ≡ not (in_range sf bw cr n)
unfolding estimate_refused in_range
range-refused sf bw cr n = ground arith

accepted-exact :
    (sf bw cr n : ℕ)
    → estimate_refused sf bw cr n ≡ false
    → airtime_estimate sf bw cr n ≡ ok (exact sf bw cr n)
unfolding airtime_estimate exact
accepted-exact sf bw cr n good =
    let v = accepted-Sane sf bw cr n good in
    let above : leb sf (2 * low_rate sf bw) ≡ false =
      ground (arith, low_rate_lem sf bw, v.sf_low) in
    let (rate, late) = low_rate_lem sf bw in
    let symbol = symbol_us-le sf bw v.sf_high v.bandwidth in
    let few =
      payload_symbols-le sf (low_rate sf bw) cr n v.sf_low v.sf_high rate late v.coding v.payload in
    let fits = exact-lt sf bw cr n v in
    let plain : u64 (payload_symbols sf (low_rate sf bw) cr n)
        ≡ payload_symbols sf (low_rate sf bw) cr n =
      omega (arith, few) in
    rw (good, above, plain) (ap ok (omega (arith, fits, symbol)))

rounded_up-eq : (a d : ℕ) → 0 < d → (a + d - 1) / d ≡ rounded_up a d
unfolding rounded_up
rounded_up-eq a d pos =
    let q = a / d in
    let r = a % d in
    let whole : a ≡ r + q * d = sym (mod-add-div' a d) in
    let small : r < d = mod-lt a pos in
    let shifted : (a + d - 1) / d ≡ q + (r + d - 1) / d =
      ap (λ k. k / d) {x = a + d - 1} {y = q * d + (r + d - 1)} (omega (arith, whole))
      ∙ mul-add-div_right pos q (r + d - 1) in
    elim (Bool-cases (r == 0)) [
      | inl none_left ↦
          let rest : (r + d - 1) / d ≡ 0 = div-eq_of_lt (ground (arith, none_left)) in
          ground (arith, shifted, rest, none_left)
      | inr more ↦
          let left : r ≢ 0 = ground (arith, more) in
          let rest : (r + d - 1) / d ≡ 1 =
            ap (λ k. k / d) {x = r + d - 1} {y = r - 1 + d} (omega (arith, left))
            ∙ add-div_right (r - 1) pos
            ∙ ap (λ k. k + 1) (div-eq_of_lt {n = r - 1} {m = d} (omega arith)) in
          ground (arith, shifted, rest, more)
    ]

count-eq :
    (sf bw cr n : ℕ)
    → Sane sf bw cr n
    → payload_symbols sf (low_rate sf bw) cr n ≡ symbol_count sf bw cr n
unfolding payload_symbols symbol_count low_rate
count-eq sf bw cr n v =
    let a = 8 * n + 44 - 4 * sf in
    let d = 4 * (if leb 11 sf && leb bw 125 then sf - 2 else sf) in
    let pos : 0 < d = ground (arith, v.sf_low) in
    let divisor : 4 * (sf - 2 * low_rate sf bw) ≡ d = ground arith in
    let joined : 8 * n + 28 + 16 ≡ 8 * n + 44 = omega arith in
    let none_left : a ≡ 0 → rounded_up a d ≡ 0 =
      λ e. sym (rounded_up-eq a d pos) ∙ div-eq_of_lt (omega (arith, e, pos)) in
    let symbols : (if 8 * n + 28 + 16 - 4 * sf == 0
          then 0
          else (8 * n + 28 + 16 - 4 * sf + 4 * (sf - 2 * low_rate sf bw) - 1)
            / (4 * (sf - 2 * low_rate sf bw)))
        ≡ rounded_up a d =
      rw (divisor, joined) (by_zero a d (rounded_up-eq a d pos) none_left) in
    ap (λ k. 8 + k * cr) symbols
  where
    by_zero :
        (a d : ℕ) {k : ℕ}
        → (a + d - 1) / d ≡ k
        → (a ≡ 0 → k ≡ 0)
        → (if a == 0 then 0 else (a + d - 1) / d) ≡ k
    by_zero a d same zero_too = ground arith

exact-time : (sf bw cr n : ℕ) → Sane sf bw cr n → exact sf bw cr n ≡ time_on_air sf bw cr n
unfolding exact time_on_air
exact-time sf bw cr n v =
    ap₂ (λ symbol count. symbol * 49 / 4 + count * symbol) (symbol_us-eq sf bw v.sf_high)
      (count-eq sf bw cr n v)

-- The estimate is made just for spreading factors from 6 to 12, a bandwidth, coding rates from 5 to 8
-- and at most 240 octets, and is EINVAL otherwise. It is the time on air in whole numbers: in range no
-- product, sum or conversion of the code wraps round.
pub airtime_estimate-exact :
    (sf bw cr n : ℕ)
    → airtime_estimate sf bw cr n
      ≡ (if in_range sf bw cr n then ok (time_on_air sf bw cr n) else err einval)
unfolding airtime_estimate
airtime_estimate-exact sf bw cr n = elim (Bool-cases (in_range sf bw cr n)) [
  | inl good ↦
      let refused : estimate_refused sf bw cr n ≡ false = range-refused sf bw cr n ∙ ap not good in
      accepted-exact sf bw cr n refused
      ∙ rw (good) (ap ok (exact-time sf bw cr n (accepted-Sane sf bw cr n refused)))
  | inr bad ↦ refused (range-refused sf bw cr n ∙ ap not bad) ∙ rw (bad) refl
]
  where
    refused : estimate_refused sf bw cr n ≡ true → airtime_estimate sf bw cr n ≡ err einval
    refused bad = rw (bad) refl

exact_mono : (sf bw cr n m : ℕ) → Sane sf bw cr n → n ≤ m → exact sf bw cr n ≤ exact sf bw cr m
unfolding exact payload_symbols symbols numerator
exact_mono sf bw cr n m v h =
    let (rate, late) = low_rate_lem sf bw in
    let more = symbols_mono sf (low_rate sf bw) cr v.sf_low v.sf_high rate late v.coding n m h in
    omega (
      arith,
      mul-le-mul_right {m = payload_symbols sf (low_rate sf bw) cr n}
          {n = payload_symbols sf (low_rate sf bw) cr m} (symbol_us sf bw)
          (omega (arith, mul-le-mul_right cr more)),
    )

-- What a returned estimate is.
estimated :
    (sf bw cr n : ℕ) {d : ℕ}
    → airtime_estimate sf bw cr n ≡ ok d
    → (estimate_refused sf bw cr n ≡ false) × (d ≡ exact sf bw cr n)
unfolding airtime_estimate
estimated sf bw cr n e =
    let (good, _) = reject-ok (estimate_refused sf bw cr n) einval _ e in
    (good, ground (arith, e, accepted-exact sf bw cr n good))

-- A longer payload takes no less time.
pub airtime_estimate_mono :
    (sf bw cr n m : ℕ) {d e : ℕ}
    → n ≤ m
    → airtime_estimate sf bw cr n ≡ ok d
    → airtime_estimate sf bw cr m ≡ ok e
    → d ≤ e
airtime_estimate_mono sf bw cr n m h first second =
    let (good, shorter) = estimated sf bw cr n first in
    let (_, longer) = estimated sf bw cr m second in
    omega (arith, shorter, longer, exact_mono sf bw cr n m (accepted-Sane sf bw cr n good) h)
