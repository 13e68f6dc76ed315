-- ===== src/Airtime/Invariant.antt =====
-- The invariant of struct melodi_airtime_window in src/proto/airtime.c.
use melodi.Base.{
  length, get_or, set, length-set, u32, ℕ, zero, suc, ◌+◌, ◌-◌, ◌/◌, ◌%◌, ◌^◌, ◌≤◌, ◌<◌, ◌≡◌, refl,
  sym, List, arith,
}
use melodi.Airtime.Sums.{sum, sum-replicate_zero, get_or-le-sum, sum-set}
use melodi.Airtime.Window.{
  Window, bucket_count, window_us, slot_ms, bucket_of, sub64, reset, expire, advance, charge, admit,
}

-- Two `size_t`-like bounds: no slot of a `uint64_t` clock comes near the wrap.
abbrev pub slot_limit : ℕ
slot_limit = 2 ^ 63

pub record IsWindow (w : Window) : Type 0 where
  pub size : length w.buckets ≡ bucket_count
  pub total : w.total_us ≡ sum w.buckets
  pub bounded : w.total_us ≤ window_us
  pub epoch : w.epoch_slot < slot_limit

pub reset-IsWindow : IsWindow reset
unfolding reset
reset-IsWindow = record {
  size = refl;
  total = sym (sum-replicate_zero bucket_count);
  bounded = omega arith;
  epoch = omega arith;
}

-- Expiring buckets keeps the total the sum of the buckets, and never raises it.
pub expire-sum :
    (left index epoch : ℕ) (buckets : List ℕ) (total : ℕ)
    → length buckets ≡ bucket_count
    → total ≡ sum buckets
    → total ≤ window_us
    → let (buckets', total') = expire left index epoch buckets total in
      (length buckets' ≡ bucket_count) × (total' ≡ sum buckets') × (total' ≤ total)
unfolding expire
expire-sum zero index epoch buckets total size eq le = (size, eq, omega arith)
expire-sum (suc left) index epoch buckets total size eq le =
    let i = bucket_of (epoch + index) in
    let b = get_or buckets i 0 in
    let small : b ≤ total = omega (arith, get_or-le-sum buckets i) in
    let next =
      expire-sum left (index + 1) epoch (set buckets i 0) (sub64 total b)
        (omega (arith, length-set buckets i 0)) (omega (arith, sum-set buckets i 0 (omega arith)))
        (omega arith) in
    (next.0, next.1, omega arith)

pub advance-IsWindow :
    (w : Window) (slot : ℕ) → IsWindow w → slot < slot_limit → IsWindow (advance w slot)
unfolding advance
advance-IsWindow w slot v h = ground (
  arith,
  sum-replicate_zero bucket_count,
  expire-sum (slot - w.epoch_slot) 1 w.epoch_slot w.buckets w.total_us v.size v.total v.bounded,
)

pub charge-IsWindow :
    (w : Window) (slot now budget cost : ℕ)
    → IsWindow w
    → cost ≤ budget
    → budget ≤ window_us
    → IsWindow (charge w slot now budget cost).0
unfolding charge
charge-IsWindow w slot now budget cost v fits le = ground (
  arith,
  length-set w.buckets (slot % bucket_count)
      (u32 (get_or w.buckets (slot % bucket_count) 0 + u32 cost)),
  sum-set w.buckets (slot % bucket_count)
      (u32 (get_or w.buckets (slot % bucket_count) 0 + u32 cost)),
  get_or-le-sum w.buckets (slot % bucket_count),
)

-- `admit` keeps the invariant on every path, whatever the clock, the budget and the cost.
pub admit-IsWindow :
    (w : Window) (now budget cost : ℕ)
    → IsWindow w
    → now < 2 ^ 64
    → IsWindow (admit w now budget cost).0
unfolding admit
admit-IsWindow w now budget cost v h = ground (
  arith,
  charge-IsWindow (advance w (now / slot_ms)) (now / slot_ms) now budget cost
      (advance-IsWindow w (now / slot_ms) v (omega arith)),
)
