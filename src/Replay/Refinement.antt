-- ===== src/Replay/Refinement.antt =====
-- The window against the history of the counters that were accepted.
use melodi.Base.{
  ℕ, ◌+◌, ◌-◌, ◌^◌, ◌≤◌, ◌<◌, bit_or, ◌≡◌, refl, ap, true, false, List, ◌∷◌, arith, ltb, ◌==◌,
  if◌then◌else◌, u64, ◌<<<◌, has, ok, err, einval, ealready, bit, bit-mod, bit-shl, bit-bit_or,
  bit-le_one, has-one_shl, bit-set_one, set_one-lt, bit_or-lt, bit-two-pow, Bool-cases, inl, inr,
  ◌↔◌, subst, [],
}
use native.Mathlib.Decide.{dec_lt}
use melodi.Replay.History.{
  History, contains, newest, admit, Distinct, not-contains, keep, admit-keep, admit-Distinct,
}
use melodi.Replay.Window.{Window, reset, seen, shifted, mark}

-- The window holds the newest counter and, for each of the 64 counters up to it, whether it was
-- accepted.
pub record Represents (h : History) (w : Window) : Type 0 where
  pub top : w.highest ≡ newest h
  pub fits : w.bitmap < 2 ^ 64
  pub recent :
      (c : ℕ)
      → 0 < c
      → c ≤ w.highest
      → w.highest < c + 64
      → bit (w.highest - c) w.bitmap ≡ (if contains c h then 1 else 0)

pub reset-Represents : Represents [] reset
unfolding reset newest contains
reset-Represents = record {
  top = refl;
  fits = omega arith;
  recent = λ c p q r. absurd (omega arith);
}

shifted-lt : (bitmap distance : ℕ) → shifted bitmap distance < 2 ^ 64
unfolding shifted
shifted-lt bitmap distance =
    ground (arith, bit_or-lt 64 (u64 (bitmap <<< distance)) 1 (omega arith) (omega arith))

-- Digit 0 stands for the new counter, and the others move up.
bit-shifted :
    (bitmap distance i : ℕ)
    → i < 64
    → 0 < distance
    → bit i (shifted bitmap distance)
      ≡ (if i == 0 then 1 else if ltb i distance then 0 else bit (i - distance) bitmap)
unfolding shifted
bit-shifted bitmap distance i lt pos = ground (
  arith,
  bit-bit_or i (u64 (bitmap <<< distance)) 1,
  bit-mod 64 i (bitmap <<< distance),
  bit-shl distance i bitmap,
  bit-two-pow 0 i,
  bit-le_one (i - distance) bitmap,
)

module _ {h : History} {w : Window} (r : Represents h w) (c : ℕ) where
  above-Represents :
      w.highest < c
      → Represents (c ∷ h) (record { highest = c; bitmap = shifted w.bitmap (c - w.highest) })
  unfolding newest contains
  above-Represents lt = record {
    top = omega (arith, r.top);
    fits = shifted-lt w.bitmap (c - w.highest);
    recent = λ k p q near. ground (
      arith,
      bit-shifted w.bitmap (c - w.highest) (c - k) (omega arith) (omega arith),
      r.recent k p,
      r.top,
      not-contains k h,
      ap (λ i. bit i w.bitmap) {x = c - k - (c - w.highest)} {y = w.highest - k},
    );
  }

  below-Represents :
      0 < c
      → c ≤ w.highest
      → w.highest < c + 64
      → Represents (c ∷ h) (record w { bitmap = bit_or w.bitmap (1 <<< (w.highest - c)) })
  unfolding newest contains
  below-Represents pos le near = record {
    top = omega (arith, r.top);
    fits = set_one-lt 64 (w.highest - c) w.bitmap r.fits (omega arith);
    recent = λ k p q close.
        ground (arith, bit-set_one (w.highest - c) (w.highest - k) w.bitmap, r.recent k p q close);
  }

  -- The test of the bitmap finds the accepted counters.
  has-recent :
      0 < c
      → c ≤ w.highest
      → w.highest < c + 64
      → has w.bitmap (1 <<< (w.highest - c)) ≡ contains c h
  has-recent pos le near =
      ground (arith, has-one_shl (w.highest - c) w.bitmap, r.recent c pos le near)

  at_zero : c ≡ 0 → (mark w c ≡ (w, err einval)) × (admit h c ≡ (h, err einval))
  unfolding mark admit
  at_zero e = ground arith

  above :
      w.highest < c
      → (mark w c ≡ (record { highest = c; bitmap = shifted w.bitmap (c - w.highest) }, ok tt))
        × (admit h c ≡ (c ∷ h, ok tt))
  unfolding mark admit
  above lt = ground (arith, r.top, not-contains c h)

  too_old :
      0 < c → c + 64 ≤ w.highest → (mark w c ≡ (w, err ealready)) × (admit h c ≡ (h, err ealready))
  unfolding mark admit
  too_old pos le = ground (arith, r.top)

  repeated :
      0 < c
      → c ≤ w.highest
      → w.highest < c + 64
      → contains c h ≡ true
      → (mark w c ≡ (w, err ealready)) × (admit h c ≡ (h, err ealready))
  unfolding mark admit
  repeated pos le near old = ground (arith, r.top, has-recent pos le near)

  first_time :
      0 < c
      → c ≤ w.highest
      → w.highest < c + 64
      → contains c h ≡ false
      → (mark w c ≡ (record w { bitmap = bit_or w.bitmap (1 <<< (w.highest - c)) }, ok tt))
        × (admit h c ≡ (c ∷ h, ok tt))
  unfolding mark admit
  first_time pos le near new = ground (arith, r.top, has-recent pos le near)

  -- `mark` returns the status that the history of accepted counters decides, and leaves a window
  -- that represents the history that results.
  pub mark_refines : ((mark w c).1 ≡ (admit h c).1) × Represents (admit h c).0 (mark w c).0
  mark_refines = elim (dec_lt 0 c) [
    | no z ↦ let e = at_zero (omega arith) in rw (e.0, e.1) (refl, r)
    | yes pos ↦ elim (dec_lt w.highest c) [
      | yes lt ↦ let e = above lt in rw (e.0, e.1) (refl, above-Represents lt)
      | no ge ↦ elim (dec_lt w.highest (c + 64)) [
        | no far ↦ let e = too_old pos (omega arith) in rw (e.0, e.1) (refl, r)
        | yes near ↦ elim (Bool-cases (contains c h)) [
          | inl old ↦ let e = repeated pos (omega arith) near old in rw (e.0, e.1) (refl, r)
          | inr new ↦
              let e = first_time pos (omega arith) near new in
              rw (e.0, e.1) (refl, below-Represents pos (omega arith) near)
        ]
      ]
    ]
  ]

-- The window after a sequence of calls, beside the counters that were accepted.
unfoldable pub run : Window → History → List ℕ → Window × History
run w h [] = (w, h)
run w h (c ∷ cs) = let (w', status) = mark w c in run w' (keep status c h) cs

-- Whatever counters arrive, from a window that represents distinct counters no counter is accepted
-- twice, and the window goes on to represent the accepted ones.
pub run-Distinct :
    (cs : List ℕ) {h : History} {w : Window}
    → Represents h w
    → Distinct h
    → Distinct (run w h cs).1 × Represents (run w h cs).1 (run w h cs).0
unfolding run
run-Distinct [] r d = (d, r)
run-Distinct (c ∷ cs) {h} {w} r d =
    let (status, r') = mark_refines r c in
    let e : (admit h c).0 ≡ keep (mark w c).1 c h = rw status (admit-keep h c) in
    run-Distinct cs (subst (λ k. Represents k (mark w c).0) e r')
      (subst Distinct e (admit-Distinct h c d))

-- `seen` answers no exactly for the counters that `mark` would accept, in every window.
pub seen-mark : (w : Window) (c : ℕ) → (seen w c ≡ false) ↔ ((mark w c).1 ≡ ok tt)
unfolding seen mark
seen-mark w c = ground arith
