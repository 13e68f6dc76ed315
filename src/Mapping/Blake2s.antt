-- ===== src/Mapping/Blake2s.antt =====
-- The BLAKE2s of src/proto/mapping.c, with 32 octets of digest and without a key.
pub mod Rounds
use melodi.Base.{
  ltb, ◌==◌, ◌!=◌, if◌then◌else◌, length, get_or, set, take, drop, replicate, u8, u32, u32_max,
  ◌<<<◌, ◌>>>◌, ℕ, zero, suc, ◌+◌, ◌-◌, ◌*◌, min, bit_or, bit_xor, Bool, true, false, ◌&&◌, Option,
  none, some, List, [], ◌∷◌, ◌++◌,
}

-- struct melodi_blake2s. The buffer is the list of the octets that are buffered.
pub record Blake2s : Type 0 where
  pub hash : List ℕ
  pub count_low : ℕ
  pub count_high : ℕ
  pub buffer : List ℕ

abbrev pub iv : List ℕ
iv =
    0x6a09e667 ∷ 0xbb67ae85 ∷ 0x3c6ef372 ∷ 0xa54ff53a ∷ 0x510e527f ∷ 0x9b05688c ∷ 0x1f83d9ab
    ∷ 0x5be0cd19 ∷ []

abbrev pub sigma : List (List ℕ)
sigma =
    (0 ∷ 1 ∷ 2 ∷ 3 ∷ 4 ∷ 5 ∷ 6 ∷ 7 ∷ 8 ∷ 9 ∷ 10 ∷ 11 ∷ 12 ∷ 13 ∷ 14 ∷ 15 ∷ [])
    ∷ (14 ∷ 10 ∷ 4 ∷ 8 ∷ 9 ∷ 15 ∷ 13 ∷ 6 ∷ 1 ∷ 12 ∷ 0 ∷ 2 ∷ 11 ∷ 7 ∷ 5 ∷ 3 ∷ [])
    ∷ (11 ∷ 8 ∷ 12 ∷ 0 ∷ 5 ∷ 2 ∷ 15 ∷ 13 ∷ 10 ∷ 14 ∷ 3 ∷ 6 ∷ 7 ∷ 1 ∷ 9 ∷ 4 ∷ [])
    ∷ (7 ∷ 9 ∷ 3 ∷ 1 ∷ 13 ∷ 12 ∷ 11 ∷ 14 ∷ 2 ∷ 6 ∷ 5 ∷ 10 ∷ 4 ∷ 0 ∷ 15 ∷ 8 ∷ [])
    ∷ (9 ∷ 0 ∷ 5 ∷ 7 ∷ 2 ∷ 4 ∷ 10 ∷ 15 ∷ 14 ∷ 1 ∷ 11 ∷ 12 ∷ 6 ∷ 8 ∷ 3 ∷ 13 ∷ [])
    ∷ (2 ∷ 12 ∷ 6 ∷ 10 ∷ 0 ∷ 11 ∷ 8 ∷ 3 ∷ 4 ∷ 13 ∷ 7 ∷ 5 ∷ 15 ∷ 14 ∷ 1 ∷ 9 ∷ [])
    ∷ (12 ∷ 5 ∷ 1 ∷ 15 ∷ 14 ∷ 13 ∷ 4 ∷ 10 ∷ 0 ∷ 7 ∷ 6 ∷ 3 ∷ 9 ∷ 2 ∷ 8 ∷ 11 ∷ [])
    ∷ (13 ∷ 11 ∷ 7 ∷ 14 ∷ 12 ∷ 1 ∷ 3 ∷ 9 ∷ 5 ∷ 0 ∷ 15 ∷ 4 ∷ 8 ∷ 6 ∷ 2 ∷ 10 ∷ [])
    ∷ (6 ∷ 15 ∷ 14 ∷ 9 ∷ 11 ∷ 3 ∷ 0 ∷ 8 ∷ 12 ∷ 2 ∷ 13 ∷ 7 ∷ 1 ∷ 4 ∷ 10 ∷ 5 ∷ [])
    ∷ (10 ∷ 2 ∷ 8 ∷ 4 ∷ 7 ∷ 6 ∷ 1 ∷ 5 ∷ 15 ∷ 11 ∷ 9 ∷ 14 ∷ 3 ∷ 12 ∷ 13 ∷ 0 ∷ [])
    ∷ []

-- The little-endian word at the head of the octets.
unfoldable pub load32 : List ℕ → ℕ
load32 b =
    bit_or (bit_or (bit_or (get_or b 0 0) (u32 (get_or b 1 0 <<< 8))) (u32 (get_or b 2 0 <<< 16)))
      (u32 (get_or b 3 0 <<< 24))

unfoldable pub store32 : ℕ → List ℕ
store32 v = u8 v ∷ u8 (v >>> 8) ∷ u8 (v >>> 16) ∷ u8 (v >>> 24) ∷ []

unfoldable pub rotate_right : ℕ → ℕ → ℕ
rotate_right v count = bit_or (v >>> count) (u32 (v <<< (32 - count)))

-- Half of a mixing, which rotates by `r` and then by `q`.
unfoldable pub mix_half : ℕ → ℕ → ℕ → ℕ → ℕ → ℕ → ℕ → List ℕ → List ℕ
mix_half a b c d word r q state =
    let v_a = u32 (get_or state a 0 + get_or state b 0 + word) in
    let v_d = rotate_right (bit_xor (get_or state d 0) v_a) r in
    let v_c = u32 (get_or state c 0 + v_d) in
    let v_b = rotate_right (bit_xor (get_or state b 0) v_c) q in
    set (set (set (set state a v_a) d v_d) c v_c) b v_b

unfoldable pub mix : ℕ → ℕ → ℕ → ℕ → ℕ → ℕ → List ℕ → List ℕ
mix a b c d first second state = mix_half a b c d second 8 7 (mix_half a b c d first 16 12 state)

abbrev pub round : List ℕ → List ℕ → List ℕ → List ℕ
round message order state =
    let m : ℕ → ℕ = λ i. get_or message (get_or order i 0) 0 in
    mix 3 4 9 14 (m 14) (m 15) (
      mix 2 7 8 13 (m 12) (m 13) (
        mix 1 6 11 12 (m 10) (m 11) (
          mix 0 5 10 15 (m 8) (m 9) (
            mix 3 7 11 15 (m 6) (m 7) (
              mix 2 6 10 14 (m 4) (m 5)
                (mix 1 5 9 13 (m 2) (m 3) (mix 0 4 8 12 (m 0) (m 1) state)))))))

unfoldable pub rounds : List ℕ → List (List ℕ) → List ℕ → List ℕ
rounds message [] state = state
rounds message (order ∷ orders) state = rounds message orders (round message order state)

-- `words` little-endian words.
unfoldable pub load_words : ℕ → List ℕ → List ℕ
load_words zero block = []
load_words (suc words) block = load32 block ∷ load_words words (drop 4 block)

abbrev pub initial_state : Blake2s → Bool → List ℕ
initial_state c final =
    let state = c.hash ++ iv in
    let counted =
      set (set state 12 (bit_xor (get_or state 12 0) c.count_low)) 13
        (bit_xor (get_or state 13 0) c.count_high) in
    if final then set counted 14 (u32_max - get_or counted 14 0) else counted

-- The new hash words.
unfoldable pub fold_state : ℕ → List ℕ → List ℕ → List ℕ → List ℕ
fold_state zero hash low high = []
fold_state (suc words) hash low high =
    bit_xor (get_or hash 0 0) (bit_xor (get_or low 0 0) (get_or high 0 0))
    ∷ fold_state words (drop 1 hash) (drop 1 low) (drop 1 high)

unfoldable pub compress : Blake2s → List ℕ → Bool → Blake2s
compress c block final =
    let state = rounds (load_words 16 block) sigma (initial_state c final) in
    record c { hash = fold_state 8 c.hash state (drop 8 state) }

unfoldable pub count : Blake2s → ℕ → Blake2s
count c amount =
    let low = u32 (c.count_low + amount) in
    record c {
      count_low = low;
      count_high = if ltb low amount then u32 (c.count_high + 1) else c.count_high;
    }

unfoldable pub init : Blake2s
init = record {
  hash = set iv 0 (bit_xor (get_or iv 0 0) 0x01010020);
  count_low = 0;
  count_high = 0;
  buffer = [];
}

-- A full buffer with more to come is compressed.
unfoldable pub flush : Blake2s → ℕ → Blake2s
flush c left =
    if length c.buffer == 64 && left != 0
    then record (compress (count c 64) c.buffer false) { buffer = [] }
    else c

-- The loop of melodi_blake2s_update, or none if it is not done within some rounds.
unfoldable pub update_loop : ℕ → Blake2s → List ℕ → Option Blake2s
update_loop fuel c [] = some c
update_loop zero c (x ∷ xs) = none
update_loop (suc fuel) c (x ∷ xs) =
    let amount = min (64 - length c.buffer) (length (x ∷ xs)) in
    let rest = drop amount (x ∷ xs) in
    update_loop fuel (flush (record c { buffer = c.buffer ++ take amount (x ∷ xs) }) (length rest))
      rest

-- A round takes an octet, or empties a buffer that was full: two rounds for each octet.
unfoldable pub update : Blake2s → List ℕ → Blake2s
update c input = elim (update_loop (2 * length input) c input) [ some done ↦ done | none ↦ c ]

unfoldable pub store_words : List ℕ → List ℕ
store_words [] = []
store_words (word ∷ words) = store32 word ++ store_words words

unfoldable pub final : Blake2s → List ℕ
final c =
    let n = length c.buffer in
    store_words (compress (count c n) (c.buffer ++ replicate (64 - n) 0) true).hash
