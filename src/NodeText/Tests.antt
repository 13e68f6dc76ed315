-- ===== src/NodeText/Tests.antt =====
-- Runs of the text of a NodeId, and its theorem at a text.
use melodi.NodeId.{different}
use melodi.NodeText.{
  done, failed, nodeid_encoding, is_uniform, nodeid_validate, emit, format_loop, nodeid_format,
  position, parse_loop, parse_end, nodeid_parse, node_id_size,
}
use melodi.NodeText.RoundTrip.{nodeid_parse-nodeid_format}
use melodi.Base.{
  length, set, replicate, IsByte, IsBytes, same_bytes, ℕ, zero, suc, ◌≡◌, refl, ◌↔◌, Bool, true,
  List, [], ◌∷◌, arith,
}

-- The stand-in for the check of libsodium: it takes any point.
abbrev any_point : List ℕ → Bool
any_point key = true

abbrev a_node : List ℕ
a_node = 1 ∷ 7 ∷ replicate 31 200

abbrev a_text : List ℕ
a_text =
    (109 ∷ 121 ∷ 114 ∷ 100 ∷ 104 ∷ 116 ∷ 49 ∷ 103 ∷ 101 ∷ 51 ∷ 100 ∷ 114 ∷ 99 ∷ 116 ∷ 49 ∷ 103 ∷ 101
      ∷ 51 ∷ 100 ∷ 114 ∷ 99 ∷ 116 ∷ 49 ∷ 103 ∷ 101 ∷ 51 ∷ 100 ∷ 114 ∷ 99 ∷ 116 ∷ 49 ∷ 103 ∷ 101 ∷ 51
      ∷ 100 ∷ 114 ∷ 99 ∷ 116 ∷ 49 ∷ 103 ∷ 101 ∷ 51 ∷ 100 ∷ 114 ∷ 99 ∷ 116 ∷ 49 ∷ 103 ∷ 101 ∷ 51
      ∷ 100 ∷ 114 ∷ 99 ∷ 111 ∷ [])

a_text-read : nodeid_parse any_point a_text ≡ done a_node
unfolding nodeid_parse parse_end parse_loop position nodeid_format nodeid_validate is_uniform
    different emit format_loop same_bytes
a_text-read = refl

a_node-written : nodeid_format any_point a_node ≡ done a_text
unfolding nodeid_parse parse_end parse_loop position nodeid_format nodeid_validate is_uniform
    different emit format_loop same_bytes
a_node-written = refl

-- The octet 0 in place of the last character, which the search of the alphabet takes for a digit.
null_refused : nodeid_parse any_point (set a_text 53 0) ≡ failed nodeid_encoding
unfolding nodeid_parse parse_end parse_loop position nodeid_format nodeid_validate is_uniform
    different emit format_loop same_bytes
null_refused = refl

octets_of : (n b : ℕ) → IsByte b → IsBytes (replicate n b)
octets_of zero b byte = tt
octets_of (suc n) b byte = (byte, octets_of n b byte)

nodeid_parse-nodeid_format_example :
    (nodeid_parse any_point a_text ≡ done a_node)
    ↔ ((length a_node ≡ node_id_size) × (nodeid_format any_point a_node ≡ done a_text))
nodeid_parse-nodeid_format_example =
    nodeid_parse-nodeid_format any_point a_text a_node
      (omega arith, (omega arith, octets_of 31 200 (omega arith)))
