-- ===== src/Slots/Index.antt =====
-- What the loop over an array finds, by the positions of the matching and of the inactive entries.
use melodi.Slots.{Slot, found, missing, scan, first, index, count, after}
use melodi.Base.{
  if◌then◌else◌, Bool-cases, length, get_or, ℕ, zero, suc, ◌+◌, ◌≤◌, ◌<◌, ◌≡◌, refl, ap, ◌∙◌, inl,
  inr, Bool, true, false, not, Option, none, some, List, [], ◌∷◌, arith,
}

-- A position found from `i` on.
shifted : ℕ → Option ℕ → Option ℕ
shifted i none = none
shifted i (some p) = some (i + p)

kept : ℕ → Option ℕ → Option ℕ → Option ℕ
kept i (some j) _ = some j
kept i none inactive = shifted i inactive

outcome : Option ℕ → ℕ → Option ℕ → Option ℕ → Slot
outcome (some p) i empty inactive = found (i + p)
outcome none i empty inactive = missing (kept i empty inactive)

remembered : Bool → ℕ → Option ℕ → Option ℕ
remembered inactive i empty =
    if inactive then empty else elim empty [ none ↦ some i | some j ↦ some j ]

-- One round of the loop.
outcome_step :
    (active hit : Bool) (i : ℕ) (empty p q : Option ℕ)
    → (if hit then found i else outcome p (i + 1) (remembered active i empty) q)
      ≡ outcome (if hit then some 0 else after p) i empty (if not active then some 0 else after q)
unfolding outcome kept shifted after remembered
outcome_step active true i empty p q = ground arith
outcome_step active false i empty (some p) q = ground arith
outcome_step true false i none none none = ground arith
outcome_step true false i none none (some q) = ground arith
outcome_step true false i (some j) none q = ground arith
outcome_step false false i none none q = ground arith
outcome_step false false i (some j) none q = ground arith

module _ {E : Type 0} (active hit : E → Bool) where
  scan-outcome :
      (i : ℕ) (empty : Option ℕ) (es : List E)
      → scan active hit i empty es ≡ outcome (index hit es) i empty (index (λ e. not (active e)) es)
  unfolding scan index outcome kept shifted after remembered
  scan-outcome i none [] = refl
  scan-outcome i (some j) [] = refl
  scan-outcome i empty (e ∷ es) =
      ap (λ (s : Slot). if hit e then found i else s)
        (scan-outcome (i + 1) (remembered (active e) i empty) es)
      ∙ outcome_step (active e) (hit e) i empty (index hit es) (index (λ x. not (active x)) es)

  -- The whole loop: the first match, or the first inactive entry.
  pub scan-index :
      (es : List E)
      → scan active hit 0 none es ≡ (elim (index hit es) [
        | some p ↦ found p
        | none ↦ missing (index (λ e. not (active e)) es)
      ])
  unfolding outcome kept shifted
  scan-index es = scan-outcome 0 none es ∙ ground arith

-- What one round of `index` found.
pub round_zero : (b : Bool) (o : Option ℕ) → (if b then some 0 else after o) ≡ some 0 → b ≡ true
unfolding after
round_zero true o h = refl
round_zero false none h = ground arith
round_zero false (some i) h = ground arith

pub round_suc :
    (b : Bool) (o : Option ℕ) (p : ℕ)
    → (if b then some 0 else after o) ≡ some (suc p)
    → (b ≡ false) × (o ≡ some p)
unfolding after
round_suc true o p h = ground arith
round_suc false none p h = ground arith
round_suc false (some i) p h = (refl, ground arith)

pub round_none :
    (b : Bool) (o : Option ℕ) → (if b then some 0 else after o) ≡ none → (b ≡ false) × (o ≡ none)
unfolding after
round_none true o h = ground arith
round_none false none h = (refl, refl)
round_none false (some i) h = ground arith

module _ {E : Type 0} (hit : E → Bool) where
  pub index-lt : (es : List E) (p : ℕ) → index hit es ≡ some p → p < length es
  unfolding index after
  index-lt [] p h = ground arith
  index-lt (e ∷ es) zero h = omega arith
  index-lt (e ∷ es) (suc p) h =
      omega (arith, index-lt es p (round_suc (hit e) (index hit es) p h).1)

  -- The entry found matches.
  pub hit-index : (es : List E) (p : ℕ) (d : E) → index hit es ≡ some p → hit (get_or es p d) ≡ true
  unfolding index after
  hit-index [] p d h = ground arith
  hit-index (e ∷ es) zero d h = round_zero (hit e) (index hit es) h
  hit-index (e ∷ es) (suc p) d h = hit-index es p d (round_suc (hit e) (index hit es) p h).1

  pub first-index :
      (es : List E) (p : ℕ) (d : E) → index hit es ≡ some p → first hit es ≡ some (get_or es p d)
  unfolding index after first
  first-index [] p d h = ground arith
  first-index (e ∷ es) zero d h = rw (round_zero (hit e) (index hit es) h)
  first-index (e ∷ es) (suc p) d h =
      let (no_hit, later) = round_suc (hit e) (index hit es) p h in
      rw no_hit (first-index es p d later)

  pub count-none : (es : List E) → index hit es ≡ none → count hit es ≡ 0
  unfolding index after count
  count-none [] h = refl
  count-none (e ∷ es) h =
      let (no_hit, later) = round_none (hit e) (index hit es) h in
      rw no_hit (omega (arith, count-none es later))

  pub first-none : (es : List E) → count hit es ≡ 0 → first hit es ≡ none
  unfolding first count
  first-none [] h = refl
  first-none (e ∷ es) h = ground (arith, first-none es)

  pub count-some : (es : List E) (p : ℕ) → index hit es ≡ some p → 0 < count hit es
  unfolding index after count
  count-some [] p h = ground arith
  count-some (e ∷ es) zero h = rw (round_zero (hit e) (index hit es) h) (omega arith)
  count-some (e ∷ es) (suc p) h =
      omega (arith, count-some es p (round_suc (hit e) (index hit es) p h).1)

  pub first-index_none : (es : List E) → index hit es ≡ none → first hit es ≡ none
  first-index_none es h = first-none es (count-none es h)

module _ {E : Type 0} (active : E → Bool) where
  -- A search for an inactive entry fails just when all are active.
  pub index-full :
      (es : List E) → index (λ e. not (active e)) es ≡ none → count active es ≡ length es
  unfolding index after count
  index-full [] h = refl
  index-full (e ∷ es) h =
      let (used, later) = round_none (not (active e)) (index (λ x. not (active x)) es) h in
      ground (arith, used, index-full es later)

  pub count-le : (es : List E) → count active es ≤ length es
  unfolding count
  count-le [] = omega arith
  count-le (e ∷ es) = ground (arith, count-le es)

  pub index-not_full :
      (es : List E) (p : ℕ) → index (λ e. not (active e)) es ≡ some p → count active es < length es
  unfolding index after count
  index-not_full [] p h = ground arith
  index-not_full (e ∷ es) zero h =
      ground (arith, round_zero (not (active e)) (index (λ x. not (active x)) es) h, count-le es)
  index-not_full (e ∷ es) (suc p) h =
      let (used, later) = round_suc (not (active e)) (index (λ x. not (active x)) es) p h in
      ground (arith, used, index-not_full es p later)

module _ {E : Type 0} (hit : E → Bool) where
  -- The search finds an entry where one matches.
  pub index-get_or :
      (es : List E) (i : ℕ) (d : E)
      → i < length es
      → hit (get_or es i d) ≡ true
      → (j : ℕ) × (index hit es ≡ some j)
  unfolding index after
  index-get_or [] i d lt on = absurd (omega arith)
  index-get_or (e ∷ es) zero d lt on = (0, rw on refl)
  index-get_or (e ∷ es) (suc i) d lt on =
      let (j, at) = index-get_or es i d (omega arith) on in
      elim (Bool-cases (hit e)) [
        | inl here ↦ (0, rw here refl)
        | inr later ↦ (suc j, rw (later, at) refl)
      ]
