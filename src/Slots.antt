-- ===== src/Slots.antt =====
-- The loops over the fixed arrays of kernel/core whose entries have an `active` flag: they look for
-- a matching entry and remember the first inactive one on the way.
pub mod Index
pub mod Update
pub mod Keyed
use melodi.Base.{if◌then◌else◌, ℕ, suc, ◌+◌, Bool, Option, none, some, List, [], ◌∷◌}

-- Where the loop stopped: at a match, or at the end with what it remembered.
pub data Slot : Type 0 where
  found : ℕ → Slot
  missing : Option ℕ → Slot

unfoldable pub after : Option ℕ → Option ℕ
after none = none
after (some i) = some (suc i)

module _ {E : Type 0} where
  -- `active` is the entry's flag and `hit` the test that also asks for it.
  unfoldable pub scan : (active hit : E → Bool) → ℕ → Option ℕ → List E → Slot
  scan active hit i empty [] = missing empty
  scan active hit i empty (e ∷ es) =
      let rest =
        scan active hit (i + 1)
          (if active e then empty else elim empty [ none ↦ some i | some j ↦ some j ]) es in
      if hit e then found i else rest

  -- The first matching entry, for the loops that only look for one.
  unfoldable pub first : (hit : E → Bool) → List E → Option E
  first hit [] = none
  first hit (e ∷ es) = if hit e then some e else first hit es

  unfoldable pub index : (hit : E → Bool) → List E → Option ℕ
  index hit [] = none
  index hit (e ∷ es) = if hit e then some 0 else after (index hit es)

  -- How many entries match.
  unfoldable pub count : (hit : E → Bool) → List E → ℕ
  count hit [] = 0
  count hit (e ∷ es) = (if hit e then 1 else 0) + count hit es

  -- The sum of a weight over the entries.
  unfoldable pub total : (weight : E → ℕ) → List E → ℕ
  total weight [] = 0
  total weight (e ∷ es) = weight e + total weight es
