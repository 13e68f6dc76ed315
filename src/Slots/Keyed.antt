-- ===== src/Slots/Keyed.antt =====
-- An array as a map: the value of a key is that of the first active entry with the key. The tables
-- of the program fill this interface.
use melodi.Slots.{first, index, count}
use melodi.Slots.Index.{first-index, first-index_none, count-none, first-none, hit-index, index-lt}
use melodi.Slots.Update.{Place, Place-lt, Place-old, first-put, first-set_other, count-set}
use melodi.Base.{
  if◌then◌else◌, Bool-cases, Option-cases, length, get_or, set, replicate, ℕ, zero, suc, ◌≤◌, ◌<◌,
  ◌≡◌, refl, subst, ◌↔◌, ◌⊎◌, inl, inr, Bool, true, false, Option, none, some, List, arith,
}

pub record Keyed (E K V : Type 0) : Type 0 where
  pub active : E → Bool
  pub hit : K → E → Bool
  pub value : E → V
  pub same : K → K → Bool
  pub hit_active : (k : K) (e : E) → hit k e ≡ true → active e ≡ true
  pub hit_inj : (a b : K) (e : E) → hit a e ≡ true → hit b e ≡ true → a ≡ b
  pub same_iff : (a b : K) → (same a b ≡ true) ↔ (a ≡ b)

module _ {E K V : Type 0} (t : Keyed E K V) where
  unfoldable pub rule : K → List E → Option V
  rule k es = elim (first (t.hit k) es) [ some e ↦ some (t.value e) | none ↦ none ]

  -- No key stands in two active entries.
  abbrev pub Unique : List E → Type 0
  Unique es = (k : K) → count (t.hit k) es ≤ 1

  -- The rule by the place that a loop finds.
  pub rule-index :
      (k : K) (es : List E) (d : E)
      → rule k es
        ≡ (elim (index (t.hit k) es) [ some i ↦ some (t.value (get_or es i d)) | none ↦ none ])
  unfolding rule
  rule-index k es d = elim (Option-cases (index (t.hit k) es)) [
    | inl gone ↦ rw (rule, gone, first-index_none (t.hit k) es gone)
    | inr (p, at) ↦ rw (rule, at, first-index (t.hit k) es p d at)
  ]

  inactive_misses : (k : K) (e : E) → t.active e ≡ false → t.hit k e ≡ false
  inactive_misses k e off = ground (arith, t.hit_active k e)

  other_misses :
      (k other : K) (e : E) → t.same k other ≡ false → t.hit k e ≡ true → t.hit other e ≡ false
  other_misses k other e apart here =
      ground (arith, t.hit_inj k other e here, (t.same_iff k other).1)

  module _ (es : List E) (k : K) (i : ℕ) (v : E) where
    -- Another key does not see what is written over an entry of this key or over an inactive one.
    rule-set_other :
        (other : K)
        → (t.hit k (get_or es i v) ≡ true) ⊎ (t.active (get_or es i v) ≡ false)
        → t.hit other v ≡ false
        → t.same k other ≡ false
        → rule other (set es i v) ≡ rule other es
    unfolding rule
    rule-set_other other old new apart =
        let misses : t.hit other (get_or es i v) ≡ false = elim old [
          | inl here ↦ other_misses k other (get_or es i v) apart here
          | inr off ↦ inactive_misses other (get_or es i v) off
        ] in
        rw (rule, first-set_other (t.hit other) es i v v misses new)

    -- The new value under the key, and all other keys as before.
    updated :
        (result : Option V)
        → rule k (set es i v) ≡ result
        → (other : K) → (t.same k other ≡ false → rule other (set es i v) ≡ rule other es)
        → rule other (set es i v) ≡ (if t.same k other then result else rule other es)
    updated result here other elsewhere = elim (Bool-cases (t.same k other)) [
      | inl same ↦
          rw same (subst (λ key. rule key (set es i v) ≡ result) ((t.same_iff k other).0 same) here)
      | inr apart ↦ rw apart (elsewhere apart)
    ]

    pub rule-put :
        Place t.active (t.hit k) es i
        → t.hit k v ≡ true
        → (other : K)
        → rule other (set es i v) ≡ (if t.same k other then some (t.value v) else rule other es)
    unfolding rule
    rule-put at new other =
        updated (some (t.value v)) (rw (rule, first-put t.active (t.hit k) es i at v new)) other
          λ apart.
            rule-set_other other (Place-old t.active (t.hit k) es i at v)
              (other_misses k other v apart new) apart

    pub rule-clear :
        index (t.hit k) es ≡ some i
        → t.active v ≡ false
        → Unique es
        → (other : K) → rule other (set es i v) ≡ (if t.same k other then none else rule other es)
    unfolding rule
    rule-clear at off unique other =
        let left : count (t.hit k) (set es i v) ≡ 0 = ground (
          arith,
          count-set (t.hit k) es i v v (index-lt (t.hit k) es i at),
          hit-index (t.hit k) es i v at,
          inactive_misses k v off,
          unique k,
        ) in
        updated none (rw (rule, first-none (t.hit k) (set es i v) left)) other λ apart.
          rule-set_other other (inl (hit-index (t.hit k) es i v at)) (inactive_misses other v off)
            apart

    pub Unique-put :
        Place t.active (t.hit k) es i → t.hit k v ≡ true → Unique es → Unique (set es i v)
    Unique-put at new unique other =
        let written = count-set (t.hit other) es i v v (Place-lt t.active (t.hit k) es i at) in
        elim (Bool-cases (t.same k other)) [
          | inl same ↦ elim at [
            | inl old ↦ ground (
              arith,
              written,
              unique other,
              (t.same_iff k other).0 same,
              hit-index (t.hit k) es i v old,
            )
            | inr (none_yet, _) ↦
                ground
                  (arith, written, (t.same_iff k other).0 same, count-none (t.hit k) es none_yet)
          ]
          | inr apart ↦ ground (arith, written, unique other, other_misses k other v apart new)
        ]

    pub Unique-clear : i < length es → t.active v ≡ false → Unique es → Unique (set es i v)
    Unique-clear lt off unique other =
        ground
          (arith, count-set (t.hit other) es i v v lt, unique other, inactive_misses other v off)

  pub Unique-replicate : (n : ℕ) (blank : E) → t.active blank ≡ false → Unique (replicate n blank)
  unfolding count
  Unique-replicate zero blank off other = omega arith
  Unique-replicate (suc n) blank off other =
      ground (arith, inactive_misses other blank off, Unique-replicate n blank off other)

  -- An array with no active entry holds no rule.
  pub rule-replicate :
      (k : K) (n : ℕ) (blank : E) → t.active blank ≡ false → rule k (replicate n blank) ≡ none
  unfolding rule first
  rule-replicate k zero blank off = refl
  rule-replicate k (suc n) blank off =
      rw (inactive_misses k blank off, rule) (rule-replicate k n blank off)
