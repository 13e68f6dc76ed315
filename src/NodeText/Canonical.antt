-- ===== src/NodeText/Canonical.antt =====
-- The texts that melodi_nodeid_parse accepts.
use melodi.NodeText.{
  Answer, done, failed, NodeIdResult, nodeid_validate, nodeid_format, nodeid_parse, parse_end,
  parse_loop, Parsed, nodeid_encoding, nodeid_length, node_id_size, node_id_text_size,
}
use melodi.Base.{
  ◌!=◌, if◌then◌else◌, length, get_or, drop, same_bytes, same_bytes→eq, ℕ, bit_and, ◌≡◌, refl, sym,
  ap, ◌∙◌, Bool, true, false, not, ◌||◌, Option, none, some, List, [], arith,
}

-- The answer of a call that went past a test.
passed :
    (bad : Bool) (e : NodeIdResult) (k : Answer) {node : List ℕ}
    → (if bad then failed e else k) ≡ done node
    → (bad ≡ false) × (k ≡ done node)
passed true e k h = ground arith
passed false e k h = (refl, h)

abbrev pub answered : Answer → List ℕ
answered (done octets) = octets
answered (failed result) = []

-- The rest of the call after its tests, on each answer of the two calls it makes.
reread-canonical :
    (valid : Option NodeIdResult) (formatted : Answer) (text octets : List ℕ) {node : List ℕ}
    → elim valid [
      | some result ↦ failed result
      | none ↦ elim formatted [
        | failed result ↦ failed nodeid_encoding
        | done canonical ↦
            if not (same_bytes text canonical) then failed nodeid_encoding else done octets
      ]
    ]
      ≡ done node
    → (octets ≡ node) × (formatted ≡ done text)
reread-canonical (some result) formatted text octets h = ground arith
reread-canonical none (failed result) text octets h = ground arith
reread-canonical none (done canonical) text octets h =
    let (same, taken) = passed (not (same_bytes text canonical)) nodeid_encoding (done octets) h in
    (ap answered taken, ap done (sym (same_bytes→eq text canonical (ground arith))))

parse_end-canonical :
    (point_check : List ℕ → Bool) (text : List ℕ) (p : Parsed) {node : List ℕ}
    → parse_end point_check text p ≡ done node
    → (length node ≡ node_id_size) × (nodeid_format point_check node ≡ done text)
unfolding parse_end
parse_end-canonical point_check text p h =
    let (short, rest) =
      passed (length p.stored != node_id_size || p.bits != 1 || bit_and p.accumulator 1 != 0)
        nodeid_encoding
        (elim (nodeid_validate point_check p.stored) [
          | some result ↦ failed result
          | none ↦ elim (nodeid_format point_check p.stored) [
            | failed result ↦ failed nodeid_encoding
            | done canonical ↦
                if not (same_bytes text canonical) then failed nodeid_encoding else done p.stored
          ]
        ])
        h in
    let (same, formatted) =
      reread-canonical (nodeid_validate point_check p.stored) (nodeid_format point_check p.stored)
        text p.stored rest in
    let in_size : (length p.stored ≡ node_id_size) = ground (arith, short) in
    (ap length (sym same) ∙ in_size, ap (nodeid_format point_check) (sym same) ∙ formatted)

-- melodi_nodeid_parse accepts a text only if it has 54 characters and is what melodi_nodeid_format
-- writes for the 33 octets that were read.
pub nodeid_parse-canonical :
    (point_check : List ℕ → Bool) (text : List ℕ) {node : List ℕ}
    → nodeid_parse point_check text ≡ done node
    → (length text ≡ node_id_text_size)
      × (length node ≡ node_id_size)
      × (nodeid_format point_check node ≡ done text)
unfolding nodeid_parse
nodeid_parse-canonical point_check text {node = node} h =
    let (short, rest) =
      passed (length text != node_id_text_size || get_or text 0 0 != 0x6d) nodeid_length
        (elim (parse_loop 0 0 0 (drop 1 text)) [
          | none ↦ failed nodeid_encoding
          | some p ↦ parse_end point_check text p
        ])
        h in
    let (sized, formatted) = by_loop (parse_loop 0 0 0 (drop 1 text)) rest in
    (ground (arith, short), sized, formatted)
  where
    by_loop :
        (parsed : Option Parsed)
        → elim parsed [ none ↦ failed nodeid_encoding | some p ↦ parse_end point_check text p ]
          ≡ done node
        → (length node ≡ node_id_size) × (nodeid_format point_check node ≡ done text)
    by_loop none rest = ground arith
    by_loop (some p) rest = parse_end-canonical point_check text p rest
