-- ===== src/Mapping/Locator.antt =====
-- The locator of a node in a mesh domain, from src/proto/mapping.c: the first round of the hash that
-- gives a usable one. A domain and a NodeId are the lists of their octets.
use melodi.Base.{
  ltb, ◌==◌, ◌!=◌, Bool-cases, ◌>>◌, reject, reject-ok, Result, length, get_or, u32_max, ok, err,
  einval, eoverflow, ℕ, zero, suc, ◌+◌, ◌-◌, ◌≤◌, ◌<◌, bit_or, bit_xor, ◌≡◌, refl, sym, ap, ◌∙◌,
  inl, inr, Bool, true, false, not, ◌&&◌, ◌||◌, List, [], ◌∷◌, arith,
}
use native.Mathlib.Decide.{ℕ_discrete}
use melodi.Wire.Octets.{get32, put32}
use melodi.Mapping.Blake2s

abbrev pub set_limit : ℕ
set_limit = 64

-- "melodi-native-locator-v1"
abbrev pub label : List ℕ
label =
    0x6d ∷ 0x65 ∷ 0x6c ∷ 0x6f ∷ 0x64 ∷ 0x69 ∷ 0x2d ∷ 0x6e ∷ 0x61 ∷ 0x74 ∷ 0x69 ∷ 0x76 ∷ 0x65 ∷ 0x2d
    ∷ 0x6c ∷ 0x6f ∷ 0x63 ∷ 0x61 ∷ 0x74 ∷ 0x6f ∷ 0x72 ∷ 0x2d ∷ 0x76 ∷ 0x31 ∷ []

-- The disjunction of all octets, each changed by `mask`.
unfoldable pub different : ℕ → ℕ → List ℕ → ℕ
different mask seen [] = seen
different mask seen (x ∷ xs) = different mask (bit_or seen (bit_xor x mask)) xs

unfoldable pub node_valid : List ℕ → Bool
node_valid node = get_or node 0 0 == 1 && different 0 0 node != 0 && different 0xff 0 node != 0

unfoldable pub candidate : List ℕ → List ℕ → ℕ → ℕ
candidate domain node round = get32 (
    Blake2s.final (
      Blake2s.update
        (Blake2s.update (Blake2s.update (Blake2s.update Blake2s.init label) domain) node)
        (put32 round)))

abbrev pub usable : ℕ → Bool
usable locator = locator != 0 && locator != u32_max

-- The rounds of `melodi_map_native_locator`, over the candidate of each round: the locator and its
-- round. The last of the rounds is 2 ^ 32 - 1.
unfoldable pub search : (ℕ → ℕ) → ℕ → ℕ → Result (ℕ × ℕ)
search locator_of zero round = err eoverflow
search locator_of (suc left) round = elim (usable (locator_of round)) [
  | true ↦ ok (locator_of round, round)
  | false ↦ elim (round == u32_max) [
    | true ↦ err eoverflow
    | false ↦ search locator_of left (round + 1)
  ]
]

-- How many rounds there are from `first` on.
abbrev pub rounds_from : ℕ → ℕ
rounds_from first = suc (u32_max - first)

unfoldable pub map_native_locator : List ℕ → List ℕ → ℕ → Result (ℕ × ℕ)
map_native_locator domain node first = do
  reject (not (node_valid node)) einval
  search (candidate domain node) (rounds_from first) first

unfoldable pub member : ℕ → List ℕ → Bool
member x [] = false
member x (y ∷ ys) = y == x || member x ys

-- The rounds of `melodi_map_native_locator_available`, over what the mapping gives from a round on.
unfoldable pub search_free : (ℕ → Result (ℕ × ℕ)) → List ℕ → ℕ → ℕ → Result (ℕ × ℕ)
search_free mapped occupied zero round = err eoverflow
search_free mapped occupied (suc left) round = elim (mapped round) [
  | err e ↦ err e
  | ok (locator, selected) ↦ elim (member locator occupied) [
    | false ↦ ok (locator, selected)
    | true ↦ elim (selected == u32_max) [
      | true ↦ err eoverflow
      | false ↦ search_free mapped occupied left (selected + 1)
    ]
  ]
]

unfoldable pub map_native_locator_available : List ℕ → List ℕ → ℕ → List ℕ → Result (ℕ × ℕ)
map_native_locator_available domain node first occupied = do
  reject (ltb set_limit (length occupied)) einval
  search_free (map_native_locator domain node) occupied (rounds_from first) first

-- What a search returns is the candidate of the first round, from `first` on, that is good.
pub record IsFirst (locator_of : ℕ → ℕ) (good : ℕ → Bool) (first locator round : ℕ) : Type 0 where
  pub locator_eq : locator ≡ locator_of round
  pub sound : good locator ≡ true
  pub start : first ≤ round
  pub skipped : (j : ℕ) → first ≤ j → j < round → good (locator_of j) ≡ false

module _ (locator_of : ℕ → ℕ) (good : ℕ → Bool) {first locator round : ℕ} where
  found_at :
      good (locator_of first) ≡ true
      → ◌≡◌ {A = Result (ℕ × ℕ)} (ok (locator_of first, first)) (ok (locator, round))
      → IsFirst locator_of good first locator round
  found_at sound e =
      let same : (locator_of first, first) ≡ (locator, round) = cc e in
      let here : locator_of first ≡ locator = ap (λ (p : ℕ × ℕ). p.0) same in
      let at : first ≡ round = ap (λ (p : ℕ × ℕ). p.1) same in
      record {
        locator_eq = sym here ∙ ap locator_of at;
        sound = ap good (sym here) ∙ sound;
        start = omega (arith, at);
        skipped = λ j h lt. absurd (omega (arith, at));
      }

  found_later :
      good (locator_of first) ≡ false
      → IsFirst locator_of good (first + 1) locator round
      → IsFirst locator_of good first locator round
  found_later bad f = record {
    locator_eq = f.locator_eq;
    sound = f.sound;
    start = omega (arith, f.start);
    skipped = λ j h lt. elim (ℕ_discrete first j) [
      | yes same ↦ ap (λ r. good (locator_of r)) (sym same) ∙ bad
      | no ne ↦ f.skipped j (omega arith) lt
    ];
  }

search-IsFirst :
    (locator_of : ℕ → ℕ) (left first : ℕ) {locator round : ℕ}
    → search locator_of left first ≡ ok (locator, round)
    → IsFirst locator_of usable first locator round
unfolding search
search-IsFirst locator_of zero first e = ground arith
search-IsFirst locator_of (suc left) first {locator} {round} e =
    elim (Bool-cases (usable (locator_of first))) [
      | inl good ↦
          let step : search locator_of (suc left) first ≡ ok (locator_of first, first) =
            rw (good, search) refl in
          found_at locator_of usable good (sym step ∙ e)
      | inr bad ↦ elim (Bool-cases (first == u32_max)) [
        | inl last ↦
            let step : search locator_of (suc left) first ≡ err eoverflow =
              rw (bad, last, search) refl in
            ground (arith, sym step ∙ e)
        | inr more ↦
            let step : search locator_of (suc left) first ≡ search locator_of left (first + 1) =
              rw (bad, more, search) refl in
            found_later locator_of usable bad
              (search-IsFirst locator_of left (first + 1) (sym step ∙ e))
      ]
    ]

-- The locator of a node is that of the first round, from the one asked for on, whose locator is not
-- one of the two reserved values.
pub map_native_locator-IsFirst :
    (domain node : List ℕ) (first : ℕ) {locator round : ℕ}
    → map_native_locator domain node first ≡ ok (locator, round)
    → (node_valid node ≡ true) × IsFirst (candidate domain node) usable first locator round
unfolding map_native_locator
map_native_locator-IsFirst domain node first e =
    let (valid, found) = reject-ok (not (node_valid node)) einval _ e in
    (ground arith, search-IsFirst (candidate domain node) (rounds_from first) first found)
