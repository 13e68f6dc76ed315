-- ===== src/Airtime/Expiry.antt =====
-- What is left of the total when buckets expire: the writing loop of `melodi_airtime_advance` and
-- the reading loop of `melodi_airtime_admit`.
use melodi.Base.{
  length, get_or, set, length-set, get_or-set_self, get_or-set_ne, ℕ, zero, suc, ◌+◌, ◌-◌, ◌%◌, ◌≤◌,
  ◌<◌, ◌≡◌, refl, sym, ap, ap₂, ◌∙◌, true, List, arith,
}
use native.Mathlib.Decide.{ℕ_discrete}
use melodi.Airtime.Sums.{sum, sum-zero}
use melodi.Airtime.Invariant.{IsWindow, slot_limit, expire-sum}
use melodi.Airtime.Window.{Window, bucket_count, window_us, bucket_of, sub64, expire, advance}

-- The total after the buckets `index` to `index + n - 1` have expired, as the reading loop has it.
unfoldable pub left_after : ℕ → ℕ → ℕ → List ℕ → ℕ → ℕ
left_after zero index slot buckets total = total
left_after (suc n) index slot buckets total =
    left_after n (index + 1) slot buckets
      (sub64 total (get_or buckets (bucket_of (slot + index)) 0))

-- Expired buckets lie elsewhere than those to come.
agree-set :
    (slot index m v : ℕ) (xs : List ℕ)
    → slot < slot_limit
    → index < m
    → m ≤ 360
    → 1 ≤ index
    → get_or (set xs (bucket_of (slot + index)) v) (bucket_of (slot + m)) 0
      ≡ get_or xs (bucket_of (slot + m)) 0
agree-set slot index m v xs h lt le pos =
    get_or-set_ne xs (bucket_of (slot + index)) (bucket_of (slot + m)) v 0 (omega arith)

expire-left_after :
    (left index slot : ℕ) (xs buckets : List ℕ) (total : ℕ)
    → slot < slot_limit
    → 1 ≤ index
    → index + left ≤ 361
    → ((m : ℕ)
        → index ≤ m
        → m ≤ 360
        → get_or xs (bucket_of (slot + m)) 0 ≡ get_or buckets (bucket_of (slot + m)) 0)
    → (expire left index slot xs total).1 ≡ left_after left index slot buckets total
unfolding expire left_after
expire-left_after zero index slot xs buckets total h pos le same = refl
expire-left_after (suc left) index slot xs buckets total h pos le same =
    expire-left_after left (index + 1) slot (set xs (bucket_of (slot + index)) 0) buckets
      (sub64 total (get_or xs (bucket_of (slot + index)) 0)) h (omega arith) (omega arith)
      (λ m p q. agree-set slot index m 0 xs h (omega arith) q pos ∙ same m (omega arith) q)
    ∙ ap (λ b. left_after left (index + 1) slot buckets (sub64 total b))
        (same index (omega arith) (omega arith))

-- A full round clears every bucket.
expire_clears :
    (left index slot : ℕ) (xs : List ℕ) (total : ℕ)
    → slot < slot_limit
    → 1 ≤ index
    → index + left ≡ 361
    → length xs ≡ bucket_count
    → ((m : ℕ) → 1 ≤ m → m < index → get_or xs (bucket_of (slot + m)) 0 ≡ 0)
    → (m : ℕ) → 1 ≤ m
    → m ≤ 360
    → get_or (expire left index slot xs total).0 (bucket_of (slot + m)) 0 ≡ 0
unfolding expire
expire_clears zero index slot xs total h pos e size clear m p q = clear m p (omega arith)
expire_clears (suc left) index slot xs total h pos e size clear m p q =
    let i = bucket_of (slot + index) in
    expire_clears left (index + 1) slot (set xs i 0) (sub64 total (get_or xs i 0)) h (omega arith)
      (omega arith) (omega (arith, length-set xs i 0))
      (λ k r s. elim (ℕ_discrete k index) [
        | yes same ↦
            ap (λ j. get_or (set xs i 0) (bucket_of (slot + j)) 0) same
            ∙ get_or-set_self xs i 0 0 (omega arith)
        | no other ↦
            get_or-set_ne xs i (bucket_of (slot + k)) 0 0 (omega arith) ∙ clear k r (omega arith)
      ])
      m p q

module _ (slot : ℕ) (buckets : List ℕ) (total : ℕ) (h : slot < slot_limit)
    (size : length buckets ≡ bucket_count) (eq : total ≡ sum buckets) (le : total ≤ window_us) where
  pub left_after_all : left_after bucket_count 1 slot buckets total ≡ 0
  left_after_all =
      let done = expire-sum bucket_count 1 slot buckets total size eq le in
      let xs = (expire bucket_count 1 slot buckets total).0 in
      sym (
        expire-left_after bucket_count 1 slot buckets buckets total h (omega arith) (omega arith)
          (λ m p q. refl))
      ∙ done.1
      ∙ sum-zero xs (λ i p.
        ap (λ j. get_or xs j 0) {x = i} {y = bucket_of (slot + ((i + 719 - slot % 360) % 360 + 1))}
          (omega (arith, done.0))
        ∙ expire_clears bucket_count 1 slot buckets total h (omega arith) (omega arith) size
            (λ m p q. absurd (omega arith)) ((i + 719 - slot % 360) % 360 + 1) (omega arith)
            (omega arith))

expire-add :
    (i k index slot : ℕ) (xs : List ℕ) (total : ℕ)
    → expire (i + k) index slot xs total
      ≡ expire k (index + i) slot (expire i index slot xs total).0 (expire i index slot xs total).1
unfolding expire
expire-add zero k index slot xs total =
    ap₂ (λ a b. expire a b slot xs total) {x = 0 + k} {y = k} {u = index} {v = index + 0}
      (omega arith) (omega arith)
expire-add (suc i) k index slot xs total =
    ap (λ n. expire n index slot xs total) {x = suc i + k} {y = suc (i + k)} (omega arith)
    ∙ expire-add i k (index + 1) slot (set xs (bucket_of (slot + index)) 0)
        (sub64 total (get_or xs (bucket_of (slot + index)) 0))
    ∙ ap
        (λ b.
          expire k b slot (expire (suc i) index slot xs total).0
            (expire (suc i) index slot xs total).1)
        {x = index + 1 + i} {y = index + suc i} (omega arith)

-- The longer the wait, the less is left.
pub left_after_mono :
    (w : Window) (i k : ℕ)
    → IsWindow w
    → i + k ≤ bucket_count
    → left_after (i + k) 1 w.epoch_slot w.buckets w.total_us
      ≤ left_after i 1 w.epoch_slot w.buckets w.total_us
left_after_mono w i k v le =
    let slot = w.epoch_slot in
    let sums = expire-sum i 1 slot w.buckets w.total_us v.size v.total v.bounded in
    let mid = expire i 1 slot w.buckets w.total_us in
    omega (
      arith,
      v.bounded,
      expire-sum k (1 + i) slot mid.0 mid.1 sums.0 sums.1 (omega (arith, sums.2, v.bounded)),
      sums.2,
      ap (λ (p : List ℕ × ℕ). p.1) (expire-add i k 1 slot w.buckets w.total_us),
      expire-left_after (i + k) 1 slot w.buckets w.buckets w.total_us v.epoch (omega arith)
          (omega arith) (λ m p q. refl),
      expire-left_after i 1 slot w.buckets w.buckets w.total_us v.epoch (omega arith) (omega arith)
          (λ m p q. refl),
    )

-- Advancing a running window by at most a full round leaves that total.
pub advance-total :
    (w : Window) (j : ℕ)
    → IsWindow w
    → w.initialized ≡ true
    → j ≤ bucket_count
    → (advance w (w.epoch_slot + j)).total_us ≡ left_after j 1 w.epoch_slot w.buckets w.total_us
unfolding advance
advance-total w j v on le = ground (
  arith,
  left_after_all w.epoch_slot w.buckets w.total_us v.epoch v.size v.total v.bounded,
  ap (λ k. (expire k 1 w.epoch_slot w.buckets w.total_us).1) {x = w.epoch_slot + j - w.epoch_slot}
      {y = j} (omega arith),
  ap (λ k. left_after k 1 w.epoch_slot w.buckets w.total_us) {x = j} {y = 360},
  expire-left_after j 1 w.epoch_slot w.buckets w.buckets w.total_us v.epoch (omega arith)
      (omega arith) (λ m p q. refl),
)

-- After a full round nothing is left, however long it takes.
pub advance-total_far :
    (w : Window) (j : ℕ)
    → w.initialized ≡ true
    → bucket_count ≤ j
    → (advance w (w.epoch_slot + j)).total_us ≡ 0
unfolding advance
advance-total_far w j on le = ground arith
