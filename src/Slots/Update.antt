-- ===== src/Slots/Update.antt =====
-- What writing one entry of an array does to the entries that match.
use melodi.Slots.{first, index, count, after, total}
use melodi.Slots.Index.{index-lt, hit-index, round_suc, round_none}
use melodi.Base.{
  if◌then◌else◌, length, get_or, set, ℕ, zero, suc, ◌+◌, ◌≤◌, ◌<◌, ◌≡◌, refl, sym, ap, ◌⊎◌, inl,
  inr, Bool, true, false, not, none, some, List, [], ◌∷◌, arith,
}

module _ {E : Type 0} (hit : E → Bool) where
  pub first-set_other :
      (es : List E) (p : ℕ) (v d : E)
      → hit (get_or es p d) ≡ false
      → hit v ≡ false
      → first hit (set es p v) ≡ first hit es
  unfolding first
  first-set_other [] p v d old new = refl
  first-set_other (e ∷ es) zero v d old new = ground arith
  first-set_other (e ∷ es) (suc p) v d old new = ground (arith, first-set_other es p v d)

  -- Over the first match.
  pub first-set_index :
      (es : List E) (p : ℕ) (v : E)
      → index hit es ≡ some p
      → hit v ≡ true
      → first hit (set es p v) ≡ some v
  unfolding first index after
  first-set_index [] p v at new = ground arith
  first-set_index (e ∷ es) zero v at new = ground arith
  first-set_index (e ∷ es) (suc p) v at new =
      let (no_hit, later) = round_suc (hit e) (index hit es) p at in
      rw no_hit (first-set_index es p v later new)

  -- Where nothing matched.
  pub first-set_new :
      (es : List E) (p : ℕ) (v : E)
      → index hit es ≡ none
      → p < length es
      → hit v ≡ true
      → first hit (set es p v) ≡ some v
  unfolding first index after
  first-set_new [] p v at lt new = ground arith
  first-set_new (e ∷ es) zero v at lt new = ground arith
  first-set_new (e ∷ es) (suc p) v at lt new =
      let (no_hit, later) = round_none (hit e) (index hit es) at in
      rw no_hit (first-set_new es p v later (omega arith) new)

  pub count-set :
      (es : List E) (p : ℕ) (v d : E)
      → p < length es
      → count hit (set es p v) + (if hit (get_or es p d) then 1 else 0)
        ≡ count hit es + (if hit v then 1 else 0)
  unfolding count
  count-set [] p v d lt = ground arith
  count-set (e ∷ es) zero v d lt = ground arith
  count-set (e ∷ es) (suc p) v d lt = ground (arith, count-set es p v d)

-- Where the loop of an update stopped: at the match, or at the first inactive entry of an array
-- without a match.
abbrev pub Place : {E : Type 0} → (active hit : E → Bool) → List E → ℕ → Type 0
Place active hit es i =
    (index hit es ≡ some i) ⊎ (index hit es ≡ none) × (index (λ e. not (active e)) es ≡ some i)

module _ {E : Type 0} (active hit : E → Bool) (es : List E) (i : ℕ)
    (at : Place active hit es i) where
  pub Place-lt : i < length es
  Place-lt = elim at [
    | inl old ↦ index-lt hit es i old
    | inr (_, empty) ↦ index-lt (λ e. not (active e)) es i empty
  ]

  -- The entry that is written matches from then on.
  pub first-put : (v : E) → hit v ≡ true → first hit (set es i v) ≡ some v
  first-put v new = elim at [
    | inl old ↦ first-set_index hit es i v old new
    | inr (none_yet, empty) ↦ first-set_new hit es i v none_yet Place-lt new
  ]

  -- What was there matches, or is not in use.
  pub Place-old : (d : E) → (hit (get_or es i d) ≡ true) ⊎ (active (get_or es i d) ≡ false)
  Place-old d = elim at [
    | inl old ↦ inl (hit-index hit es i d old)
    | inr (_, empty) ↦ inr (ground (arith, hit-index (λ e. not (active e)) es i d empty))
  ]

module _ {E : Type 0} where
  pub total-set :
      (weight : E → ℕ) (es : List E) (i : ℕ) (v d : E)
      → i < length es
      → total weight (set es i v) + weight (get_or es i d) ≡ total weight es + weight v
  unfolding total
  total-set weight [] i v d lt = absurd (omega arith)
  total-set weight (e ∷ es) zero v d lt = omega arith
  total-set weight (e ∷ es) (suc i) v d lt = omega (arith, total-set weight es i v d (omega arith))

  pub get_or-le-total :
      (weight : E → ℕ) (es : List E) (i : ℕ) (d : E)
      → i < length es
      → weight (get_or es i d) ≤ total weight es
  unfolding total
  get_or-le-total weight [] i d lt = absurd (omega arith)
  get_or-le-total weight (e ∷ es) zero d lt = omega arith
  get_or-le-total weight (e ∷ es) (suc i) d lt =
      omega (arith, get_or-le-total weight es i d (omega arith))

  -- Writing what is there changes nothing.
  pub set-get_or : (es : List E) (i : ℕ) (v d : E) → get_or es i d ≡ v → set es i v ≡ es
  set-get_or [] i v d h = refl
  set-get_or (e ∷ es) zero v d h = ap (λ x. x ∷ es) (sym h)
  set-get_or (e ∷ es) (suc i) v d h = ap (◌∷◌ e) (set-get_or es i v d h)

module _ {E : Type 0} (hit : E → Bool) where
  -- The first match stays the first when it is written and matches again.
  pub index-set_index :
      (es : List E) (p : ℕ) (v : E)
      → index hit es ≡ some p
      → hit v ≡ true
      → index hit (set es p v) ≡ some p
  unfolding index after
  index-set_index [] p v at new = ground arith
  index-set_index (e ∷ es) zero v at new = rw new refl
  index-set_index (e ∷ es) (suc p) v at new =
      let (no_hit, later) = round_suc (hit e) (index hit es) p at in
      rw (no_hit, index-set_index es p v later new) refl
