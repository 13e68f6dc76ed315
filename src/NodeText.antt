-- ===== src/NodeText.antt =====
-- proto/nodeid.c: the text of a NodeId, 54 characters of z-base-32 after an `m`. `point_check` is
-- what the two calls of libsodium in melodi_key_is_valid answer: whether the library is ready and the
-- key is a valid point.
pub mod Canonical
pub mod RoundTrip
pub mod Tests
use melodi.NodeId.{different, scheme_ed25519}
use melodi.Base.{
  leb, ◌==◌, ◌!=◌, if◌then◌else◌, length, get_or, drop, same_bytes, u8, u32, ◌<<<◌, ◌>>>◌, ℕ, zero,
  suc, ◌+◌, ◌-◌, bit_and, bit_or, Bool, not, ◌||◌, Option, none, some, List, [], ◌∷◌, ◌++◌,
}

-- The values of `enum melodi_nodeid_result` that stand for a failure.
pub data NodeIdResult : Type 0 where
  nodeid_invalid nodeid_length nodeid_scheme nodeid_encoding nodeid_key : NodeIdResult

-- What a call leaves at its output pointer if it returns MELODI_NODEID_OK, or the failure.
pub data Answer : Type 0 where
  done : List ℕ → Answer
  failed : NodeIdResult → Answer

abbrev pub node_id_text_size : ℕ
node_id_text_size = 54

abbrev pub node_id_size : ℕ
node_id_size = 33

-- "ybndrfg8ejkmcpqxot1uwisza345h769", with the octet 0 at its end, which `strchr` finds as well.
abbrev pub zbase32 : List ℕ
zbase32 =
    (121 ∷ 98 ∷ 110 ∷ 100 ∷ 114 ∷ 102 ∷ 103 ∷ 56 ∷ 101 ∷ 106 ∷ 107 ∷ 109 ∷ 99 ∷ 112 ∷ 113 ∷ 120
      ∷ 111 ∷ 116 ∷ 49 ∷ 117 ∷ 119 ∷ 105 ∷ 115 ∷ 122 ∷ 97 ∷ 51 ∷ 52 ∷ 53 ∷ 104 ∷ 55 ∷ 54 ∷ 57 ∷ 0
      ∷ [])

unfoldable pub is_uniform : List ℕ → ℕ → Bool
is_uniform node value = different value 0 node == 0

-- none for MELODI_NODEID_OK.
unfoldable pub nodeid_validate : (List ℕ → Bool) → List ℕ → Option NodeIdResult
nodeid_validate point_check node =
    if is_uniform node 0 || is_uniform node 0xff
    then some nodeid_invalid
    else if get_or node 0 0 != scheme_ed25519
    then some nodeid_scheme
    else if not (point_check (drop 1 node))
    then some nodeid_key
    else none

-- `while (bits >= 5)`: the characters written, and the bits that are left. There are no more rounds
-- than bits.
unfoldable pub emit : ℕ → ℕ → ℕ → List ℕ × ℕ
emit zero accumulator bits = ([], bits)
emit (suc rounds) accumulator bits =
    let rest = emit rounds accumulator (bits - 5) in
    if leb 5 bits
    then (get_or zbase32 (bit_and (accumulator >>> (bits - 5)) 31) 0 ∷ rest.0, rest.1)
    else ([], bits)

unfoldable pub format_loop : ℕ → ℕ → List ℕ → List ℕ
format_loop accumulator bits [] =
    if bits != 0 then get_or zbase32 (bit_and (u32 (accumulator <<< (5 - bits))) 31) 0 ∷ [] else []
format_loop accumulator bits (b ∷ node) =
    let joined = bit_or (u32 (accumulator <<< 8)) b in
    let written = emit (bits + 8) joined (bits + 8) in
    written.0 ++ format_loop joined written.1 node

unfoldable pub nodeid_format : (List ℕ → Bool) → List ℕ → Answer
nodeid_format point_check node =
    let output = 0x6d ∷ format_loop 0 0 node in
    elim (nodeid_validate point_check node) [
      | some result ↦ failed result
      | none ↦ if length output == node_id_text_size then done output else failed nodeid_encoding
    ]

-- `strchr` on the alphabet: the first position of a character.
unfoldable pub position : ℕ → List ℕ → Option ℕ
position character [] = none
position character (c ∷ alphabet) =
    let rest = position character alphabet in
    if c == character then some 0 else elim rest [ some i ↦ some (suc i) | none ↦ none ]

abbrev pub zbase32_value : ℕ → Option ℕ
zbase32_value character = position character zbase32

-- The locals after the loop of melodi_nodeid_parse, with the octets it stored.
pub record Parsed : Type 0 where
  stored : List ℕ
  accumulator : ℕ
  bits : ℕ

-- A NULL result of the loop is its return of MELODI_NODEID_ENCODING.
unfoldable pub parse_loop : ℕ → ℕ → ℕ → List ℕ → Option Parsed
parse_loop accumulator bits output_index [] =
    some (record { stored = []; accumulator = accumulator; bits = bits })
parse_loop accumulator bits output_index (character ∷ text) = elim (zbase32_value character) [
  | none ↦ none
  | some value ↦
      let joined = bit_or (u32 (accumulator <<< 5)) value in
      let full = leb 8 (bits + 5) in
      let left = if full then bits + 5 - 8 else bits + 5 in
      let rest = parse_loop joined left (if full then output_index + 1 else output_index) text in
      if full
      then (if leb node_id_size output_index then none else elim rest [
        | none ↦ none
        | some p ↦ some (record p { stored = u8 (joined >>> left) ∷ p.stored })
      ])
      else rest
]

-- From the test on the number of octets on.
unfoldable pub parse_end : (List ℕ → Bool) → List ℕ → Parsed → Answer
parse_end point_check text p =
    if length p.stored != node_id_size || p.bits != 1 || bit_and p.accumulator 1 != 0
    then failed nodeid_encoding
    else elim (nodeid_validate point_check p.stored) [
      | some result ↦ failed result
      | none ↦ elim (nodeid_format point_check p.stored) [
        | failed result ↦ failed nodeid_encoding
        | done canonical ↦
            if not (same_bytes text canonical) then failed nodeid_encoding else done p.stored
      ]
    ]

unfoldable pub nodeid_parse : (List ℕ → Bool) → List ℕ → Answer
nodeid_parse point_check text =
    if length text != node_id_text_size || get_or text 0 0 != 0x6d
    then failed nodeid_length
    else elim (parse_loop 0 0 0 (drop 1 text)) [
      | none ↦ failed nodeid_encoding
      | some p ↦ parse_end point_check text p
    ]
