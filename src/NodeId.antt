-- ===== src/NodeId.antt =====
-- melodi_node_id_valid of kernel/core/main.c. `key_check` is `crypto_eddsa_public_key_check` of
-- the vendored cipher library: whether it returns 0.
use melodi.Base.{
  ltb, ◌==◌, ◌!=◌, if◌then◌else◌, get_or, set, take, drop, replicate, ℕ, zero, suc, bit_and, bit_or,
  bit_xor, Bool, true, false, ◌||◌, Option, none, some, List, [], ◌∷◌, ◌++◌,
}

abbrev pub scheme_ed25519 : ℕ
scheme_ed25519 = 1

abbrev prime : List ℕ
prime = 0xed ∷ replicate 30 0xff ++ 0x7f ∷ []

-- `different |= byte ^ value` over the octets of the key.
unfoldable pub different : ℕ → ℕ → List ℕ → ℕ
different value acc [] = acc
different value acc (b ∷ key) = different value (bit_or acc (bit_xor b value)) key

-- The octets from the last one down, against those of the prime, until two differ.
unfoldable pub below_prime : ℕ → List ℕ → Option Bool
below_prime zero encoded = none
below_prime (suc i) encoded =
    let octet = get_or encoded i 0 in
    let limit = get_or prime i 0 in
    let rest = below_prime i encoded in
    if ltb octet limit then some true else if ltb limit octet then some false else rest

unfoldable pub node_id_valid : (List ℕ → Bool) → List ℕ → Bool
node_id_valid key_check node =
    let key = take 32 (drop 1 node) in
    let encoded = set key 31 (bit_and (get_or key 31 0) 0x7f) in
    if get_or node 0 0 != scheme_ed25519
    then false
    else if different 0 0 key == 0 || different 0xff 0 key == 0
    then false
    else elim (below_prime 32 encoded) [ some below ↦ below | none ↦ key_check key ]
