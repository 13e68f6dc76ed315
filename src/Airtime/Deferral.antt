-- ===== src/Airtime/Deferral.antt =====
-- The deferral of melodi_airtime_admit: the wait that it reports, and a later retry.
use melodi.Base.{
  ltb, if◌then◌else◌, ℕ, zero, suc, ◌+◌, ◌-◌, ◌*◌, ◌/◌, ◌%◌, ◌^◌, ◌≤◌, ◌<◌, ◌≡◌, sym, ap, ◌∙◌, ◌↔◌,
  ◌⊎◌, inl, inr, true, arith,
}
use native.Mathlib.Decide.{dec_le, dec_lt}
use melodi.Airtime.Invariant.{IsWindow, advance-IsWindow}
use melodi.Airtime.Expiry.{left_after, left_after_mono, advance-total, advance-total_far}
use melodi.Airtime.Wait.{Found, advance-epoch, charge-fits, charge-deferred, admit-charge}
use melodi.Airtime.Window.{
  Window, Verdict, admitted, deferred, bucket_count, slot_ms, window_us, advance, admit,
}

-- The window that a call at `now` decides on.
abbrev current : Window → ℕ → Window
current w now = advance w (now / slot_ms)

module _ (w : Window) (now budget cost : ℕ) (v : IsWindow w) (clock : now < 2 ^ 64) where
  current-IsWindow : IsWindow (current w now)
  current-IsWindow = advance-IsWindow w (now / slot_ms) v (omega arith)

  -- A cost that fits the budget is admitted or deferred, by at most an hour: the overflow is never
  -- reached.
  pub admit-total :
      0 < cost
      → cost ≤ budget
      → budget ≤ window_us
      → ((admit w now budget cost).1 ≡ admitted)
        ⊎ (wait : ℕ) × ((admit w now budget cost).1 ≡ deferred wait) × (0 < wait) × (wait ≤ 3600000)
  admit-total pos fits le = elim (dec_le (current w now).total_us (budget - cost)) [
    | yes room ↦ inl (
        ap (λ (p : Window × Verdict). p.1) (admit-charge w now budget cost pos fits le)
        ∙ charge-fits (current w now) (now / slot_ms) now budget cost room)
    | no full ↦
        let (f, e) =
          charge-deferred (current w now) now budget cost current-IsWindow
            (advance-epoch w (now / slot_ms)).0 (omega arith) in
        inr (
          (f.more + 1) * slot_ms - now % slot_ms,
          ap (λ (p : Window × Verdict). p.1) (admit-charge w now budget cost pos fits le ∙ e),
          omega arith,
          omega (arith, f.within),
        )
  ]

-- A running window at a later time: what is left of the total.
later_total : Window → ℕ → ℕ
later_total w j = if ltb bucket_count j then 0 else left_after j 1 w.epoch_slot w.buckets w.total_us

total-later :
    (w : Window) (j : ℕ)
    → IsWindow w
    → w.initialized ≡ true
    → (advance w (w.epoch_slot + j)).total_us ≡ later_total w j
unfolding later_total
total-later w j v on = ground (arith, advance-total w j v on, advance-total_far w j on)

module _ (w : Window) (limit : ℕ) (v : IsWindow w)
    (f : Found bucket_count 1 w.epoch_slot w.buckets w.total_us limit) where
  early : (j : ℕ) → limit < w.total_us → j ≤ f.more → limit < later_total w j
  unfolding later_total
  early zero full le = unfold left_after in full
  early (suc i) full le = ground (arith, f.first i (omega arith), f.within)

  in_time : (j : ℕ) → f.more < j → later_total w j ≤ limit
  unfolding later_total
  in_time j lt = ground (
    arith,
    f.fits,
    left_after_mono w (suc f.more) (j - suc f.more) v,
    ap (λ k. left_after k 1 w.epoch_slot w.buckets w.total_us) {x = suc f.more + (j - suc f.more)}
        {y = j} (omega arith),
  )

-- The verdict at a later time, by the total that is left then.
verdict-later :
    (w : Window) (later budget cost : ℕ)
    → IsWindow w
    → later < 2 ^ 64
    → 0 < cost
    → cost ≤ budget
    → budget ≤ window_us
    → ((admit w later budget cost).1 ≡ admitted) ↔ ((current w later).total_us ≤ budget - cost)
verdict-later w later budget cost v clock pos fits le =
    elim (dec_le (current w later).total_us (budget - cost)) [
      | yes room ↦ (
        λ _. room,
        λ _.
            ap (λ (p : Window × Verdict). p.1) (admit-charge w later budget cost pos fits le)
            ∙ charge-fits (current w later) (later / slot_ms) later budget cost room,
      )
      | no full ↦
          let (f, e) =
            charge-deferred (current w later) later budget cost
              (current-IsWindow w later budget cost v clock) (advance-epoch w (later / slot_ms)).0
              (omega arith) in
          let refusal =
            ap (λ (p : Window × Verdict). p.1) (admit-charge w later budget cost pos fits le ∙ e) in
          (λ yes_admitted. ground (arith, refusal), λ p. absurd (full p))
    ]

exact_from :
    (w : Window) (now budget cost later : ℕ)
    → (v : IsWindow w) → w.initialized ≡ true
    → w.epoch_slot ≡ now / slot_ms
    → 0 < cost
    → cost ≤ budget
    → budget ≤ window_us
    → budget - cost < w.total_us
    → (f : Found bucket_count 1 w.epoch_slot w.buckets w.total_us (budget - cost)) → now ≤ later
    → later < 2 ^ 64
    → ((admit w later budget cost).1 ≡ admitted)
      ↔ (now + ((f.more + 1) * slot_ms - now % slot_ms) ≤ later)
exact_from w now budget cost later v on epoch pos fits le full f after clock =
    let j = later / slot_ms - w.epoch_slot in
    let verdict = verdict-later w later budget cost v clock pos fits le in
    let total : (current w later).total_us ≡ later_total w j =
      ap (λ s. (advance w s).total_us) {x = later / slot_ms} {y = w.epoch_slot + j} (omega arith)
      ∙ total-later w j v on in
    (
      λ p. elim (dec_lt f.more j) [
        | yes lt ↦ omega arith
        | no ge ↦
            absurd
              (omega (arith, verdict.0 p, total, early w (budget - cost) v f j full (omega arith)))
      ],
      λ p. verdict.1 (omega (arith, total, in_time w (budget - cost) v f j (omega arith))),
    )

-- The reported wait is exact: the same request, made on the window that the call left and at any
-- later time of the clock, is admitted just when the wait has passed.
pub deferred-exact :
    (w w' : Window) (now budget cost wait later : ℕ)
    → IsWindow w
    → 0 < cost
    → cost ≤ budget
    → budget ≤ window_us
    → admit w now budget cost ≡ (w', deferred wait)
    → now ≤ later
    → later < 2 ^ 64
    → ((admit w' later budget cost).1 ≡ admitted) ↔ (now + wait ≤ later)
deferred-exact w w' now budget cost wait later v pos fits le e after clock =
    let w₁ = current w now in
    let v₁ = current-IsWindow w now budget cost v (omega arith) in
    let start = advance-epoch w (now / slot_ms) in
    elim (dec_le w₁.total_us (budget - cost)) [
      | yes room ↦
          let done = (verdict-later w now budget cost v (omega arith) pos fits le).1 room in
          absurd (ground (arith, done, ap (λ (p : Window × Verdict). p.1) e))
      | no full ↦
          let (f, deferral) = charge-deferred w₁ now budget cost v₁ start.0 (omega arith) in
          let same = sym e ∙ admit-charge w now budget cost pos fits le ∙ deferral in
          let w'-eq : w' ≡ w₁ = ap (λ (p : Window × Verdict). p.0) same in
          let exact =
            exact_from w₁ now budget cost later v₁ start.1 start.0 pos fits le (omega arith) f after
              clock in
          let wait-eq : wait ≡ (f.more + 1) * slot_ms - now % slot_ms =
            ground (arith, ap (λ (p : Window × Verdict). p.1) same) in
          (
            λ p.
                omega (
                  arith,
                  wait-eq,
                  exact.0 (ap (λ u. (admit u later budget cost).1) (sym w'-eq) ∙ p),
                ),
            λ p. ap (λ u. (admit u later budget cost).1) w'-eq ∙ exact.1 (omega (arith, wait-eq)),
          )
    ]
