-- ===== src/Airtime/Window.antt =====
-- struct melodi_airtime_window and its operations. Each of 360 buckets holds the microseconds that
-- were admitted in one slot of ten seconds. The bucket of a slot is its number modulo 360.
use melodi.Base.{
  ltb, leb, ◌==◌, if◌then◌else◌, Errno, get_or, set, replicate, u32, u64, einval, emsgsize,
  eoverflow, ℕ, zero, suc, ◌+◌, ◌-◌, ◌*◌, ◌/◌, ◌%◌, ◌^◌, Bool, true, false, not, ◌||◌, Option, none,
  some, List,
}

abbrev pub bucket_count : ℕ
bucket_count = 360

abbrev pub slot_ms : ℕ
slot_ms = 10000

abbrev pub window_us : ℕ
window_us = 3600000000

pub record Window : Type 0 where
  pub buckets : List ℕ
  pub epoch_slot : ℕ
  pub total_us : ℕ
  pub initialized : Bool

abbrev pub no_airtime : List ℕ
no_airtime = replicate bucket_count 0

unfoldable pub reset : Window
reset = record { buckets = no_airtime; epoch_slot = 0; total_us = 0; initialized = false }

-- `uint64_t` subtraction.
abbrev pub sub64 : ℕ → ℕ → ℕ
sub64 a b = u64 (a + 2 ^ 64 - b)

abbrev pub bucket_of : ℕ → ℕ
bucket_of slot = u64 slot % bucket_count

-- The loop of `melodi_airtime_advance` at `index`, with `left` rounds to go.
unfoldable pub expire : ℕ → ℕ → ℕ → List ℕ → ℕ → List ℕ × ℕ
expire zero index epoch buckets total = (buckets, total)
expire (suc left) index epoch buckets total =
    let expired = bucket_of (epoch + index) in
    expire left (index + 1) epoch (set buckets expired 0) (sub64 total (get_or buckets expired 0))

unfoldable pub advance : Window → ℕ → Window
advance w slot =
    let elapsed = slot - w.epoch_slot in
    if not w.initialized || ltb slot w.epoch_slot
    then record { buckets = no_airtime; epoch_slot = slot; total_us = 0; initialized = true }
    else if leb bucket_count elapsed
    then record w { buckets = no_airtime; total_us = 0; epoch_slot = slot }
    else record w {
      buckets = (expire elapsed 1 w.epoch_slot w.buckets w.total_us).0;
      total_us = (expire elapsed 1 w.epoch_slot w.buckets w.total_us).1;
      epoch_slot = slot;
    }

-- The results of `melodi_airtime_admit`: 0, -EAGAIN with `*wait_ms`, or another error.
pub data Verdict : Type 0 where
  admitted : Verdict
  deferred : ℕ → Verdict
  refused : Errno → Verdict

-- The loop that finds how many buckets must expire: `none` if even all of them do not suffice.
unfoldable pub first_fit : ℕ → ℕ → ℕ → List ℕ → ℕ → ℕ → Option ℕ
first_fit zero index slot buckets remaining limit = none
first_fit (suc left) index slot buckets remaining limit =
    let now_remaining = sub64 remaining (get_or buckets (bucket_of (slot + index)) 0) in
    let rest = first_fit left (index + 1) slot buckets now_remaining limit in
    if leb now_remaining limit then some index else rest

abbrev pub defer_until : ℕ → Option ℕ → Verdict
defer_until now (some index) = deferred (sub64 (u64 (index * slot_ms)) (now % slot_ms))
defer_until now none = refused eoverflow

-- A window that has been advanced to `slot` takes the cost if it fits the budget.
unfoldable pub charge : Window → ℕ → ℕ → ℕ → ℕ → Window × Verdict
charge w slot now budget cost =
    let index = slot % bucket_count in
    if leb w.total_us (budget - cost)
    then (
      record w {
        buckets = set w.buckets index (u32 (get_or w.buckets index 0 + u32 cost));
        total_us = u64 (w.total_us + cost);
      },
      admitted,
    )
    else (w, defer_until now (first_fit bucket_count 1 slot w.buckets w.total_us (budget - cost)))

unfoldable pub admit : Window → ℕ → ℕ → ℕ → Window × Verdict
admit w now budget cost =
    let slot = now / slot_ms in
    if budget == 0 || cost == 0 || ltb window_us budget
    then (w, refused einval)
    else if ltb budget cost
    then (w, refused emsgsize)
    else charge (advance w slot) slot now budget cost
