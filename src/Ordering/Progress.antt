-- ===== src/Ordering/Progress.antt =====
-- melodi_order_poll of src/proto/ordering.c, by the positions of the messages.
use melodi.Base.{
  ◌==◌, if◌then◌else◌, u8, bit, ℕ, suc, ◌+◌, ◌/◌, ◌^◌, ◌≤◌, ◌<◌, ◌≡◌, refl, sym, ap, ap₂, ◌∙◌,
  subst, ◌≢◌, ◌⊎◌, inl, inr, arith,
}
use melodi.Ordering.State.{
  State, Outcome, held, released, order_window, advance, deadline, release, rearm, poll, Skip,
  skip_loop,
}
use melodi.Ordering.Loops.{marker_of, advance-marker_of, Skipped, skip_loop-Skipped}
use melodi.Ordering.Positions.{IsOrder, Releases, release-Releases, Releases-IsOrder}

-- A release after a gap: the messages from `p` to before the first one held are passed over, and
-- those held in a row from there are released.
pub record PassesGap (p now : ℕ) (s s' : State) (outcome : Outcome) : Type 0 where
  pub gap : ℕ
  pub others : ℕ
  pub missing : (j : ℕ) → j < gap → bit j s.pending ≡ 0
  pub first : bit gap s.pending ≡ 1
  pub outcome_eq : outcome ≡ released (marker_of (p + suc gap)) (suc others)
  pub in_a_row : (j : ℕ) → j < others → bit (suc gap + j) s.pending ≡ 1
  pub stopped : bit (suc gap + others) s.pending ≡ 0
  pub still_held : (i : ℕ) → bit i s'.pending ≡ bit (suc gap + (suc others + i)) s.pending
  pub deadline_eq : s'.deadline_ms ≡ (if s'.pending == 0 then 0 else now + 5000)
  pub keeps_IsOrder : IsOrder (p + suc gap + suc others) s'

-- `rearm` on a clock that has room.
rearmed : ℕ → State → State
rearmed now s = record {
  deadline_ms = if s.pending == 0 then 0 else now + 5000;
  expected = s.expected;
  pending = s.pending;
}

rearm-rearmed :
    (now : ℕ) (s : State) (o : Outcome)
    → now + 5000 < 2 ^ 64
    → (s.pending ≡ 0 → s.deadline_ms ≡ 0)
    → rearm now (s, o) ≡ (rearmed now s, o)
unfolding rearm deadline rearmed
rearm-rearmed now s o clock idle = ground (arith, idle)

rearmed-IsOrder : {p : ℕ} (now : ℕ) {s : State} → IsOrder p s → IsOrder p (rearmed now s)
unfolding rearmed
rearmed-IsOrder now v = record {
  at = v.at;
  fits = v.fits;
  idle = λ e. ground arith;
  armed = λ ne. ground arith;
}

released-PassesGap :
    {p now : ℕ} {s s' : State} {o : Outcome} (v : IsOrder p s) (r : Skip)
    → (g : Skipped s.pending 0 order_window r) → Releases (p + suc g.zeros) (r.bits / 2) s s' o
    → PassesGap p now s (rearmed now s') o
unfolding rearmed bit
released-PassesGap {p} {now} {s} {s'} {o} v r g f =
    let shift : (k : ℕ) → bit k (r.bits / 2) ≡ bit (suc g.zeros + k) s.pending = λ k.
      g.rest (suc k)
      ∙ ap (λ n. bit n s.pending) {x = g.zeros + suc k} {y = suc g.zeros + k} (omega arith) in
    record {
      gap = g.zeros;
      others = f.others;
      missing = g.below;
      first = g.found;
      outcome_eq = f.outcome_eq;
      in_a_row = λ j h. sym (shift j) ∙ f.in_a_row j h;
      stopped = sym (shift f.others) ∙ f.stopped;
      still_held = λ i. f.still_held i ∙ shift (suc f.others + i);
      deadline_eq = refl;
      keeps_IsOrder = rearmed-IsOrder now (
          Releases-IsOrder (p + suc g.zeros) (r.bits / 2) s s' o f
            (omega (arith, g.rest-le, v.fits))
            (λ ne. v.armed (λ e. ne (omega (arith, g.rest-le)))));
    }

gap-PassesGap :
    {p now : ℕ} {s : State} (v : IsOrder p s) (r : Skip)
    → (g : Skipped s.pending 0 order_window r) → now + 5000 < 2 ^ 64
    → (let q = rearm now (release s (marker_of (p + suc g.zeros)) (r.bits / 2)) in
        PassesGap p now s q.0 q.1)
gap-PassesGap {p} {now} {s} v r g clock =
    let q = release s (marker_of (p + suc g.zeros)) (r.bits / 2) in
    let f : Releases (p + suc g.zeros) (r.bits / 2) s q.0 q.1 =
      release-Releases s (p + suc g.zeros) (r.bits / 2) (omega (arith, g.rest-le, v.fits)) in
    subst (λ (o : State × Outcome). PassesGap p now s o.0 o.1)
      (sym (rearm-rearmed now q.0 q.1 clock (λ e. ground (arith, f.deadline_eq))))
      (released-PassesGap v r g f)

module _ {p : ℕ} {s : State} (v : IsOrder p s) (now : ℕ) where
  -- With nothing held, or before the deadline, polling changes nothing.
  pub poll_idle : s.pending ≡ 0 ⊎ now < s.deadline_ms → poll s now ≡ (s, held)
  unfolding poll
  poll_idle = elim [ inl e ↦ ground (arith, v.at) | inr lt ↦ ground (arith, v.at) ]

  -- When the deadline of the held messages has passed, polling skips the missing messages up to the
  -- first one held, and releases it with those that follow it in a row. What stays held has a new
  -- deadline.
  pub poll_due :
      s.pending ≢ 0
      → s.deadline_ms ≤ now
      → now + 5000 < 2 ^ 64
      → PassesGap p now s (poll s now).0 (poll s now).1
  unfolding poll
  poll_due ne due clock =
      let first = skip_loop order_window s.pending 0 in
      let g : Skipped s.pending 0 order_window first =
        skip_loop-Skipped order_window s.pending 0 (omega arith) v.fits (omega arith) in
      let at : advance s.expected (u8 (first.skipped + 1)) ≡ marker_of (p + suc g.zeros) =
        ap₂ advance {u = u8 (first.skipped + 1)} {v = suc g.zeros} v.at
          (omega (arith, g.skipped_eq, g.zeros-lt))
        ∙ advance-marker_of p (suc g.zeros) in
      let e : poll s now ≡ rearm now (release s (marker_of (p + suc g.zeros)) (first.bits / 2)) =
        ground (arith, v.at) ∙ ap (λ m. rearm now (release s m (first.bits / 2))) at in
      subst (λ (o : State × Outcome). PassesGap p now s o.0 o.1) (sym e)
        (gap-PassesGap v first g clock)
