-- ===== src/Airtime/Wait.antt =====
-- `*wait_ms` of melodi_airtime_admit in src/proto/airtime.c.
use melodi.Base.{
  get_or, ℕ, zero, suc, ◌+◌, ◌-◌, ◌*◌, ◌/◌, ◌%◌, ◌≤◌, ◌<◌, ◌≡◌, sym, ap, ◌∙◌, true, some, List,
  arith,
}
use native.Mathlib.Decide.{dec_le}
use melodi.Airtime.Invariant.{IsWindow}
use melodi.Airtime.Expiry.{left_after, left_after_all}
use melodi.Airtime.Window.{
  Window, admitted, deferred, bucket_count, slot_ms, window_us, bucket_of, sub64, advance,
  first_fit, defer_until, charge, admit,
}

-- The search stops at the first count of expired buckets after which the rest fits.
pub record Found (left index slot : ℕ) (buckets : List ℕ) (total limit : ℕ) : Type 0 where
  pub more : ℕ
  pub within : more < left
  pub result : first_fit left index slot buckets total limit ≡ some (index + more)
  pub fits : left_after (suc more) index slot buckets total ≤ limit
  pub first : (j : ℕ) → j < more → limit < left_after (suc j) index slot buckets total

module _ (left index slot : ℕ) (buckets : List ℕ) (total limit : ℕ) where
  abbrev next_total : ℕ
  next_total = sub64 total (get_or buckets (bucket_of (slot + index)) 0)

  Found-now : next_total ≤ limit → Found (suc left) index slot buckets total limit
  unfolding first_fit left_after
  Found-now now = record {
    more = 0;
    within = omega arith;
    result = ground arith;
    fits = now;
    first = λ j p. absurd (omega arith);
  }

  Found-later :
      limit < next_total
      → Found left (index + 1) slot buckets next_total limit
      → Found (suc left) index slot buckets total limit
  unfolding first_fit left_after
  Found-later later f = record {
    more = suc f.more;
    within = omega (arith, f.within);
    result = ground (arith, f.result);
    fits = f.fits;
    first = elim [ zero ↦ λ p. later | suc j ↦ λ p. f.first j (omega arith) ];
  }

first_fit-Found :
    (left index slot : ℕ) (buckets : List ℕ) (total limit : ℕ)
    → left_after (suc left) index slot buckets total ≤ limit
    → Found (suc left) index slot buckets total limit
unfolding left_after
first_fit-Found zero index slot buckets total limit fits =
    Found-now zero index slot buckets total limit fits
first_fit-Found (suc left) index slot buckets total limit fits =
    elim (dec_le (next_total (suc left) index slot buckets total limit) limit) [
      | yes now ↦ Found-now (suc left) index slot buckets total limit now
      | no later ↦ Found-later (suc left) index slot buckets total limit (omega arith) (
          first_fit-Found left (index + 1) slot buckets
            (next_total (suc left) index slot buckets total limit) limit fits)
    ]

-- An advanced window has the slot for its epoch.
pub advance-epoch :
    (w : Window) (slot : ℕ)
    → ((advance w slot).epoch_slot ≡ slot) × ((advance w slot).initialized ≡ true)
unfolding advance
advance-epoch w slot = ground arith

pub charge-fits :
    (w : Window) (slot now budget cost : ℕ)
    → w.total_us ≤ budget - cost
    → (charge w slot now budget cost).1 ≡ admitted
unfolding charge
charge-fits w slot now budget cost le = ground arith

charge-full :
    (w : Window) (slot now budget cost : ℕ)
    → budget - cost < w.total_us
    → charge w slot now budget cost
      ≡ (w, defer_until now (first_fit bucket_count 1 slot w.buckets w.total_us (budget - cost)))
unfolding charge
charge-full w slot now budget cost lt = ground arith

-- An advanced window that lacks room defers by whole slots, and the search finds their number.
pub charge-deferred :
    (w : Window) (now budget cost : ℕ)
    → IsWindow w
    → w.epoch_slot ≡ now / slot_ms
    → budget - cost < w.total_us
    → (f : Found bucket_count 1 w.epoch_slot w.buckets w.total_us (budget - cost)) × (charge w
          (now / slot_ms)
          now
          budget
          cost
        ≡ (w, deferred ((f.more + 1) * slot_ms - now % slot_ms)))
charge-deferred w now budget cost v epoch lt =
    let all = left_after_all w.epoch_slot w.buckets w.total_us v.epoch v.size v.total v.bounded in
    let f =
      first_fit-Found 359 1 w.epoch_slot w.buckets w.total_us (budget - cost)
        (omega (arith, all)) in
    (
      f,
      charge-full w (now / slot_ms) now budget cost lt
          ∙ ap
              (λ s. (
                w,
                defer_until now (first_fit bucket_count 1 s w.buckets w.total_us (budget - cost)),
              ))
              (sym epoch)
          ∙ ap (λ o. (w, defer_until now o)) f.result
          ∙ ap (λ d. (w, deferred d)) (omega (arith, f.within)),
    )

pub admit-charge :
    (w : Window) (now budget cost : ℕ)
    → 0 < cost
    → cost ≤ budget
    → budget ≤ window_us
    → admit w now budget cost ≡ charge (advance w (now / slot_ms)) (now / slot_ms) now budget cost
unfolding admit
admit-charge w now budget cost pos fits le = ground arith
