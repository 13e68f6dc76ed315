-- ===== src/Replay/History.antt =====
-- The specification of the replay window: the history of the counters that were accepted.
use melodi.Base.{
  ℕ, ◌+◌, ◌<◌, max, ◌≡◌, refl, Bool, false, ◌||◌, List, ◌∷◌, arith, leb, ◌==◌, if◌then◌else◌,
  Result, ok, err, einval, ealready, Bool-cases, inl, inr, [],
}
use melodi.Replay.Window.{window_bits}

-- The accepted counters, the newest first.
abbrev pub History : Type 0
History = List ℕ

unfoldable pub contains : ℕ → History → Bool
contains c [] = false
contains c (x ∷ xs) = c == x || contains c xs

unfoldable pub newest : History → ℕ
newest [] = 0
newest (x ∷ xs) = max x (newest xs)

-- What the window promises: a counter is accepted once, and never from 64 or more below the newest.
unfoldable pub admit : History → ℕ → History × Result (Unit {0})
admit h c =
    if c == 0
    then (h, err einval)
    else if contains c h || leb (c + window_bits) (newest h)
    then (h, err ealready)
    else (c ∷ h, ok tt)

-- No counter twice.
abbrev pub Distinct : History → Type 0
Distinct [] = Unit
Distinct (x ∷ xs) = (contains x xs ≡ false) × Distinct xs

pub not-contains : (c : ℕ) (h : History) → newest h < c → contains c h ≡ false
unfolding contains newest
not-contains c [] lt = refl
not-contains c (x ∷ xs) lt = ground (arith, not-contains c xs (omega arith))

abbrev pub keep : Result (Unit {0}) → ℕ → History → History
keep (ok _) c h = c ∷ h
keep (err _) c h = h

pub admit-keep : (h : History) (c : ℕ) → (admit h c).0 ≡ keep (admit h c).1 c h
unfolding admit
admit-keep h c = ground arith

pub admit-Distinct : (h : History) (c : ℕ) → Distinct h → Distinct (admit h c).0
unfolding admit
admit-Distinct h c d = elim (Bool-cases (c == 0)) [
  | inl z ↦ rw z d
  | inr nz ↦ elim (Bool-cases (contains c h || leb (c + window_bits) (newest h))) [
    | inl refused ↦ rw (nz, refused) d
    | inr taken ↦ rw (nz, taken) (ground arith, d)
  ]
]
