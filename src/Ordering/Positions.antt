-- ===== src/Ordering/Positions.antt =====
-- What admitting does, by the position of the message in the endless sequence that the markers
-- number modulo 2 ^ 32 - 1.
use melodi.Base.{
  leb, ◌==◌, if◌then◌else◌, ==_iff, ◌<<<◌, has, bit, bit-zero, has-one_shl, bit-set_one, set_one-lt,
  ok, erange, ℕ, suc, ◌+◌, ◌-◌, ◌/◌, ◌^◌, ◌≤◌, ◌<◌, bit_or, ◌≡◌, refl, sym, ap, ◌∙◌, subst, ◌≢◌,
  false, arith,
}
use native.Mathlib.Decide.{ℕ_discrete}
use melodi.Ordering.State.{
  State, Outcome, held, released, duplicate, failed, order_modulus, order_window, next, distance,
  deadline, release, hold, place, admit, Run, release_loop, reset,
}
use melodi.Ordering.Loops.{marker_of, next-marker_of, Ran, release_loop-Ran}

-- The state waits for the message at position `p`, and has a deadline just when something is held.
pub record IsOrder (p : ℕ) (s : State) : Type 0 where
  pub at : s.expected ≡ marker_of p
  pub fits : s.pending < 2 ^ 32
  pub idle : s.pending ≡ 0 → s.deadline_ms ≡ 0
  pub armed : s.pending ≢ 0 → s.deadline_ms ≢ 0

pub reset-IsOrder : IsOrder 0 reset
unfolding reset
reset-IsOrder = record {
  at = refl;
  fits = omega arith;
  idle = λ e. refl;
  armed = λ ne. absurd (ne refl);
}

distance-marker_of :
    (p k : ℕ) → k < order_modulus → distance (marker_of p) (marker_of (p + k)) ≡ ok k
unfolding distance
distance-marker_of p k h = ground arith

-- The test of digit `k`.
has-mark : (k x : ℕ) → has x (1 <<< (suc k - 1)) ≡ (bit k x == 1)
has-mark k x = ap (λ n. has x (1 <<< n)) {x = suc k - 1} {y = k} (omega arith) ∙ has-one_shl k x

-- A release of `count` messages from position `q` on, where digit `i` of `bits` stands for the
-- message at `q + 1 + i`: as many as are there in a row, and no more.
pub record Releases (q bits : ℕ) (s s' : State) (outcome : Outcome) : Type 0 where
  pub others : ℕ
  pub outcome_eq : outcome ≡ released (marker_of q) (suc others)
  pub expected : s'.expected ≡ marker_of (q + suc others)
  pub in_a_row : (j : ℕ) → j < others → bit j bits ≡ 1
  pub stopped : bit others bits ≡ 0
  pub still_held : (i : ℕ) → bit i s'.pending ≡ bit (suc others + i) bits
  pub fits : s'.pending ≤ bits
  pub deadline_eq : s'.deadline_ms ≡ (if s'.pending == 0 then 0 else s.deadline_ms)

Releases-of :
    (s : State) (q bits : ℕ) (r : Run)
    → Ran bits (q + 1) 1 r
    → r ≡ release_loop order_window bits (next (marker_of q)) 1
    → Releases q bits s (release s (marker_of q) bits).0 (release s (marker_of q) bits).1
unfolding release bit
Releases-of s q bits r f e = record {
  others = f.ones;
  outcome_eq =
      ap (λ (u : Run). released (marker_of q) u.count) (sym e)
      ∙ ap (released (marker_of q)) (omega (arith, f.count_eq));
  expected =
      ap (λ (u : Run). u.expected) (sym e)
      ∙ f.expected
      ∙ ap marker_of {y = q + suc f.ones} (omega arith);
  in_a_row = f.passed;
  stopped = f.stopped;
  still_held = λ i.
      ap (λ (u : Run). bit i (u.bits / 2)) (sym e)
      ∙ f.rest (suc i)
      ∙ ap (λ k. bit k bits) {x = f.ones + suc i} {y = suc f.ones + i} (omega arith);
  fits = omega (arith, ap (λ (u : Run). u.bits) e, f.rest-le);
  deadline_eq = refl;
}

pub release-Releases :
    (s : State) (q bits : ℕ)
    → bits < 2 ^ 32
    → Releases q bits s (release s (marker_of q) bits).0 (release s (marker_of q) bits).1
release-Releases s q bits fits =
    Releases-of s q bits (release_loop order_window bits (marker_of (q + 1)) 1)
      (release_loop-Ran order_window bits (q + 1) 1 fits (omega arith))
      (ap (λ m. release_loop order_window bits m 1) (sym (next-marker_of q)))

pub Releases-IsOrder :
    (q bits : ℕ) (s s' : State) (o : Outcome) (f : Releases q bits s s' o)
    → bits < 2 ^ 32
    → (bits ≢ 0 → s.deadline_ms ≢ 0)
    → IsOrder (q + suc f.others) s'
Releases-IsOrder q bits s s' o f fits armed = record {
  at = f.expected;
  fits = omega (arith, f.fits);
  idle = λ e. ground (arith, f.deadline_eq);
  armed = λ ne e. armed (λ z. ne (omega (arith, f.fits))) (ground (arith, f.deadline_eq));
}

-- What holding digit `k` does to a state `s`.
pub record Holds (p k : ℕ) (s s' : State) (outcome : Outcome) : Type 0 where
  pub outcome_eq : outcome ≡ (if bit k s.pending == 1 then duplicate else held)
  pub pending : (i : ℕ) → bit i s'.pending ≡ (if k == i then 1 else bit i s.pending)
  pub unchanged : bit k s.pending ≡ 1 → s' ≡ s
  pub keeps_IsOrder : IsOrder p s'

-- The state with digit `k` set, and a deadline.
with_digit : State → ℕ → ℕ → State
with_digit s k deadline = record {
  deadline_ms = deadline;
  expected = s.expected;
  pending = bit_or s.pending (1 <<< k);
}

with_digit-Holds :
    {p k : ℕ} {s : State} (v : IsOrder p s) (deadline : ℕ)
    → k < 32
    → bit k s.pending ≢ 1
    → deadline ≢ 0
    → Holds p k s (with_digit s k deadline) held
unfolding with_digit
with_digit-Holds {p} {k} {s} v deadline h clear ne = record {
  outcome_eq = ground arith;
  pending = λ i. bit-set_one k i s.pending;
  unchanged = λ e. absurd (clear e);
  keeps_IsOrder = record {
    at = v.at;
    fits = set_one-lt 32 k s.pending v.fits h;
    idle = λ z.
        let zero_digit : bit k (bit_or s.pending (1 <<< k)) ≡ bit k 0 = ap (bit k) z in
        absurd (ground (arith, bit-set_one k k s.pending, zero_digit, bit-zero k));
    armed = λ nz. ne;
  };
}

already-Holds :
    {p k : ℕ} {s : State} (v : IsOrder p s) → bit k s.pending ≡ 1 → Holds p k s s duplicate
already-Holds {p} {k} {s} v e = record {
  outcome_eq = ground arith;
  pending = λ i. elim (ℕ_discrete k i) [
    | yes same ↦ ground (arith, ap (λ n. bit n s.pending) same)
    | no ne ↦ ground arith
  ];
  unchanged = λ e. refl;
  keeps_IsOrder = v;
}

-- Holding a digit that is not yet held.
hold_fresh :
    {p : ℕ} {s : State} (v : IsOrder p s) (now k : ℕ)
    → k < 32
    → now + 5000 < 2 ^ 64
    → bit k s.pending ≢ 1
    → Holds p k s (with_digit s k (if s.deadline_ms == 0 then now + 5000 else s.deadline_ms)) held
hold_fresh v now k h clock clear = with_digit-Holds v _ h clear (ground arith)

hold-cases :
    (s : State) (now k : ℕ)
    → now + 5000 < 2 ^ 64
    → hold s now (1 <<< k) ≡ (
        if bit k s.pending == 1
        then (s, duplicate)
        else (with_digit s k (if s.deadline_ms == 0 then now + 5000 else s.deadline_ms), held))
unfolding hold deadline with_digit
hold-cases s now k clock = rw (has-one_shl k s.pending) (ground arith)

hold-Holds :
    {p : ℕ} {s : State} (v : IsOrder p s) (now k : ℕ)
    → k < 32
    → now + 5000 < 2 ^ 64
    → Holds p k s (hold s now (1 <<< k)).0 (hold s now (1 <<< k)).1
hold-Holds {p} {s} v now k h clock =
    let r : State × Outcome =
      (with_digit s k (if s.deadline_ms == 0 then now + 5000 else s.deadline_ms), held) in
    rw (hold-cases s now k clock) (elim (ℕ_discrete (bit k s.pending) 1) [
      | yes there ↦ rw ((==_iff (bit k s.pending) 1).1 there) (already-Holds v there)
      | no clear ↦
          let unset : (bit k s.pending == 1) ≡ false = ground arith in
          rw (unset) (hold_fresh v now k h clock clear)
    ])

module _ {p : ℕ} {s : State} (v : IsOrder p s) (now : ℕ) where
  -- Admission goes by the distance of the position.
  admit-place :
      (k : ℕ)
      → k < order_modulus
      → admit s (marker_of (p + k)) now ≡ place s (marker_of (p + k)) now k
  unfolding admit
  admit-place k h =
      ground (arith, v.at, ap (λ m. distance m (marker_of (p + k))) v.at ∙ distance-marker_of p k h)

  -- The expected message is released, together with those held that follow it in a row.
  pub admit_expected :
      (f : Releases p s.pending s (admit s (marker_of p) now).0 (admit s (marker_of p) now).1)
      × IsOrder (p + suc f.others) (admit s (marker_of p) now).0
  unfolding place
  admit_expected =
      let e : admit s (marker_of p) now ≡ release s (marker_of p) s.pending =
        ap (λ q. admit s (marker_of q) now) {x = p} {y = p + 0} (omega arith)
        ∙ admit-place 0 (omega arith)
        ∙ ap (λ q. place s (marker_of q) now 0) {x = p + 0} {y = p} (omega arith) in
      let f = release-Releases s p s.pending v.fits in
      subst
        (λ (r : State × Outcome).
          (f : Releases p s.pending s r.0 r.1) × IsOrder (p + suc f.others) r.0)
        (sym e) (f, Releases-IsOrder p s.pending s _ _ f v.fits v.armed)

  -- A message up to 32 places ahead is held once: a second arrival is a duplicate and changes
  -- nothing.
  pub admit_ahead :
      (k : ℕ)
      → k < 32
      → now + 5000 < 2 ^ 64
      → Holds p k s (admit s (marker_of (p + suc k)) now).0 (admit s (marker_of (p + suc k)) now).1
  unfolding place
  admit_ahead k h clock =
      let f = hold-Holds v now k h clock in
      let e : admit s (marker_of (p + suc k)) now ≡ hold s now (1 <<< k) =
        admit-place (suc k) (omega arith) ∙ ground arith in
      subst (λ (r : State × Outcome). Holds p k s r.0 r.1) (sym e) f

  -- A message up to 32 places behind is a duplicate, and any other is out of range.
  pub admit_elsewhere :
      (k : ℕ)
      → 32 < k
      → k < order_modulus
      → admit s (marker_of (p + k)) now
        ≡ (s, if leb (order_modulus - k) order_window then duplicate else failed erange)
  unfolding place
  admit_elsewhere k far h = admit-place k h ∙ ground arith
