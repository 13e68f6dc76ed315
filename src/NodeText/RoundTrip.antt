-- ===== src/NodeText/RoundTrip.antt =====
-- The loops of melodi_nodeid_format and melodi_nodeid_parse, side by side.
use melodi.NodeText.{
  done, failed, NodeIdResult, nodeid_validate, nodeid_format, nodeid_parse, parse_end, parse_loop,
  nodeid_encoding, node_id_size, node_id_text_size, zbase32, position, zbase32_value, emit,
  format_loop,
}
use melodi.NodeText.Canonical.{nodeid_parse-canonical, answered}
use native.Mathlib.Decide.{ℕ_discrete}
use melodi.Base.{
  leb, ◌==◌, ◌!=◌, if◌then◌else◌, ==_iff, Option-cases, length, get_or, drop, IsBytes,
  same_bytes_refl, u8, u32, ◌<<<◌, ◌>>>◌, bit_or-shl, bit_and_mask, ℕ, zero, suc, ◌+◌, ◌-◌, ◌*◌,
  ◌/◌, ◌%◌, ◌^◌, ◌≤◌, ◌<◌, bit_and, bit_or, ◌≡◌, refl, sym, ap, ap₂, ◌∙◌, subst, ◌↔◌, inl, inr,
  Bool, true, false, ◌&&◌, ◌||◌, Option, none, some, List, [], ◌∷◌, arith,
}

abbrev digit : ℕ → ℕ
digit v = get_or zbase32 v 0

-- Each of the 32 digits is found at its place.
all_found : ℕ → Bool
all_found zero = true
all_found (suc v) = elim (zbase32_value (digit v)) [ some w ↦ w == v | none ↦ false ] && all_found v

digits_found : all_found 32 ≡ true
unfolding all_found position
digits_found = refl

found_below : (n v : ℕ) → v < n → all_found n ≡ true → zbase32_value (digit v) ≡ some v
unfolding all_found
found_below zero v lt h = absurd (omega arith)
found_below (suc n) v lt h = elim (ℕ_discrete v n) [
  | yes last ↦ elim (Option-cases (zbase32_value (digit n))) [
    | inl gone ↦ absurd (ground (arith, h, gone))
    | inr (w, at) ↦
        let here : w ≡ n = by_place (zbase32_value (digit n)) w at (all_found n) h in
        ap (λ k. zbase32_value (digit k)) last ∙ at ∙ ap some (here ∙ sym last)
  ]
  | no before ↦ found_below n v (omega arith) (ground (arith, h))
]
  where
    by_place :
        (o : Option ℕ) (w : ℕ)
        → o ≡ some w
        → (rest : Bool) → (elim o [ some w ↦ w == n | none ↦ false ] && rest) ≡ true
        → w ≡ n
    by_place none w at rest h = ground (arith, at)
    by_place (some x) w at rest h = ground (arith, at, h)

joined_five : (a v : ℕ) → v < 32 → bit_or (u32 (a <<< 5)) v ≡ a % 2 ^ 27 * 32 + v
joined_five a v lt =
    ap (λ k. bit_or k v) {x = u32 (a <<< 5)} {y = (a % 2 ^ 27) <<< 5} (omega arith)
    ∙ bit_or-shl 5 (a % 2 ^ 27) v lt

joined_eight : (a b : ℕ) → b < 256 → bit_or (u32 (a <<< 8)) b ≡ a % 2 ^ 24 * 256 + b
joined_eight a b lt =
    ap (λ k. bit_or k b) {x = u32 (a <<< 8)} {y = (a % 2 ^ 24) <<< 8} (omega arith)
    ∙ bit_or-shl 8 (a % 2 ^ 24) b lt

-- The loop reads a text as some octets, and ends as melodi_nodeid_parse wants it.
record Reads (accumulator bits n : ℕ) (text node : List ℕ) : Type 0 where
  left : ℕ
  reads :
      parse_loop accumulator bits n text
      ≡ some (record { stored = node; accumulator = left; bits = 1 })
  even : left % 2 ≡ 0

read_short :
    (a bits n v : ℕ) {text node : List ℕ}
    → v < 32
    → bits < 3
    → Reads (a % 2 ^ 27 * 32 + v) (bits + 5) n text node
    → Reads a bits n (digit v ∷ text) node
unfolding parse_loop
read_short a bits n v {text} lt few r =
    let known = found_below 32 v lt digits_found in
    let partial : leb 8 (bits + 5) ≡ false = ground arith in
    record {
      left = r.left;
      reads = rw (parse_loop, known, joined_five a v lt, partial) r.reads;
      even = r.even;
    }

read_full :
    (a bits n v b : ℕ) {text node : List ℕ}
    → v < 32
    → 3 ≤ bits
    → n < 33
    → u8 ((a % 2 ^ 27 * 32 + v) >>> (bits - 3)) ≡ b
    → Reads (a % 2 ^ 27 * 32 + v) (bits - 3) (n + 1) text node
    → Reads a bits n (digit v ∷ text) (b ∷ node)
unfolding parse_loop
read_full a bits n v b {text} {node} lt many room octet r =
    let known = found_below 32 v lt digits_found in
    let full : leb 8 (bits + 5) ≡ true = ground arith in
    let free : leb node_id_size n ≡ false = ground arith in
    let kept : bits + 5 - 8 ≡ bits - 3 = omega arith in
    let left : (if leb 8 (bits + 5) then bits + 5 - 8 else bits + 5) ≡ bits - 3 = ground arith in
    let stored : u8
          (bit_or (u32 (a <<< 5)) v >>> (if leb 8 (bits + 5) then bits + 5 - 8 else bits + 5))
        ≡ b =
      ap₂ (λ x k. u8 (x >>> k)) (joined_five a v lt) left ∙ octet in
    record {
      left = r.left;
      reads =
          rw (parse_loop, known, joined_five a v lt, full, kept, free, r.reads)
            (ap (λ (o : ℕ). some (record { stored = o ∷ node; accumulator = r.left; bits = 1 }))
              stored);
      even = r.even;
    }

-- How far the two loops are: how many bits of an octet the writer still has to write, and how many the
-- reader has of it.
data Step : Type 0 where
  apart three one four two : Step

-- The bits that the writer has left, and those that the reader has.
abbrev writer : Step → ℕ
writer apart = 0
writer three = 3
writer one = 1
writer four = 4
writer two = 2

abbrev reader : Step → ℕ
reader apart = 0
reader three = 5
reader one = 7
reader four = 4
reader two = 6

-- The octets still to be read: one is under way, unless the loops are apart.
abbrev awaited : Step → ℕ → List ℕ → List ℕ
awaited apart b node = node
awaited three b node = b ∷ node
awaited one b node = b ∷ node
awaited four b node = b ∷ node
awaited two b node = b ∷ node

-- The octet under way is what both have of it.
abbrev Shared : Step → ℕ → ℕ → ℕ → Type 0
Shared apart w r b = Unit
Shared three w r b = r % 2 ^ 5 * 2 ^ 3 + w % 2 ^ 3 ≡ b
Shared one w r b = r % 2 ^ 7 * 2 + w % 2 ≡ b
Shared four w r b = r % 2 ^ 4 * 2 ^ 4 + w % 2 ^ 4 ≡ b
Shared two w r b = r % 2 ^ 6 * 2 ^ 2 + w % 2 ^ 2 ≡ b

-- A character of the writer is the digit of five bits of its accumulator.
five_bits : (a k : ℕ) → bit_and (a >>> k) 31 ≡ a / 2 ^ k % 32
five_bits a k = bit_and_mask 5 (a >>> k)

-- What the writer makes of one octet: one character or two.
module _ (a b : ℕ) (byte : b < 256) (node : List ℕ) where
  joint : ℕ
  joint = a % 2 ^ 24 * 256 + b

  one_character :
      (k f : ℕ)
      → digit (bit_and (bit_or (u32 (a <<< 8)) b >>> k) 31)
          ∷ format_loop (bit_or (u32 (a <<< 8)) b) f node
        ≡ digit (joint / 2 ^ k % 32) ∷ format_loop joint f node
  unfolding joint
  one_character k f =
      ap (λ j. digit (bit_and (j >>> k) 31) ∷ format_loop j f node) (joined_eight a b byte)
      ∙ ap (λ d. digit d ∷ format_loop (a % 2 ^ 24 * 256 + b) f node)
          (five_bits (a % 2 ^ 24 * 256 + b) k)

  two_characters :
      (k l f : ℕ)
      → digit (bit_and (bit_or (u32 (a <<< 8)) b >>> k) 31)
          ∷ digit (bit_and (bit_or (u32 (a <<< 8)) b >>> l) 31)
          ∷ format_loop (bit_or (u32 (a <<< 8)) b) f node
        ≡ digit (joint / 2 ^ k % 32) ∷ digit (joint / 2 ^ l % 32) ∷ format_loop joint f node
  unfolding joint
  two_characters k l f =
      let j = a % 2 ^ 24 * 256 + b in
      ap (λ j. digit (bit_and (j >>> k) 31) ∷ digit (bit_and (j >>> l) 31) ∷ format_loop j f node)
        (joined_eight a b byte)
      ∙ ap₂ (λ d e. digit d ∷ digit e ∷ format_loop j f node) (five_bits j k) (five_bits j l)

-- The reader gets what the writer was given, from wherever the two are.
sync :
    (at : Step) (w r n b : ℕ) (node : List ℕ)
    → IsBytes node
    → n + length (awaited at b node) ≤ 33
    → (writer at + 8 * length node) % 5 ≡ 4
    → Shared at w r b
    → Reads r (reader at) n (format_loop w (writer at) node) (awaited at b node)
unfolding joint format_loop emit parse_loop
sync apart w r n b [] bytes room steps shared = absurd (omega arith)
sync three w r n b [] bytes room steps shared = absurd (omega arith)
sync one w r n b [] bytes room steps shared = absurd (omega arith)
sync two w r n b [] bytes room steps shared = absurd (omega arith)
sync four w r n b [] bytes room steps shared =
    let v = u32 (w <<< 1) % 32 in
    subst (λ d. Reads r 4 n (digit d ∷ []) (b ∷ [])) (sym (bit_and_mask 5 (u32 (w <<< 1))))
      (read_full r 4 n v b (omega arith) (omega arith) (omega arith) (omega (arith, shared))
        (record { left = r % 2 ^ 27 * 32 + v; reads = refl; even = omega arith }))
sync apart w r n b (c ∷ node) (byte, bytes) room steps shared =
    let j = joint w c byte node in
    let v = j / 2 ^ 3 % 32 in
    subst (λ t. Reads r 0 n t (c ∷ node)) (sym (one_character w c byte node 3 3))
      (read_short r 0 n v (omega arith) (omega arith) (
        sync three j (r % 2 ^ 27 * 32 + v) n c node bytes room (omega (arith, steps))
          (omega arith)))
sync three w r n b (c ∷ node) (byte, bytes) room steps shared =
    let j = joint w c byte node in
    let v = j / 2 ^ 6 % 32 in
    let u = j / 2 ^ 1 % 32 in
    let r1 = r % 2 ^ 27 * 32 + v in
    subst (λ t. Reads r 5 n t (b ∷ c ∷ node)) (sym (two_characters w c byte node 6 1 1))
      (read_full r 5 n v b (omega arith) (omega arith) (omega arith) (omega (arith, shared)) (
        read_short r1 2 (n + 1) u (omega arith) (omega arith) (
          sync one j (r1 % 2 ^ 27 * 32 + u) (n + 1) c node bytes (omega arith)
            (omega (arith, steps)) (omega arith))))
sync one w r n b (c ∷ node) (byte, bytes) room steps shared =
    let j = joint w c byte node in
    let v = j / 2 ^ 4 % 32 in
    subst (λ t. Reads r 7 n t (b ∷ c ∷ node)) (sym (one_character w c byte node 4 4))
      (read_full r 7 n v b (omega arith) (omega arith) (omega arith) (omega (arith, shared)) (
        sync four j (r % 2 ^ 27 * 32 + v) (n + 1) c node bytes (omega arith) (omega (arith, steps))
          (omega arith)))
sync four w r n b (c ∷ node) (byte, bytes) room steps shared =
    let j = joint w c byte node in
    let v = j / 2 ^ 7 % 32 in
    let u = j / 2 ^ 2 % 32 in
    let r1 = r % 2 ^ 27 * 32 + v in
    subst (λ t. Reads r 4 n t (b ∷ c ∷ node)) (sym (two_characters w c byte node 7 2 2))
      (read_full r 4 n v b (omega arith) (omega arith) (omega arith) (omega (arith, shared)) (
        read_short r1 1 (n + 1) u (omega arith) (omega arith) (
          sync two j (r1 % 2 ^ 27 * 32 + u) (n + 1) c node bytes (omega arith)
            (omega (arith, steps)) (omega arith))))
sync two w r n b (c ∷ node) (byte, bytes) room steps shared =
    let j = joint w c byte node in
    let v = j / 2 ^ 5 % 32 in
    let u = j / 2 ^ 0 % 32 in
    let r1 = r % 2 ^ 27 * 32 + v in
    subst (λ t. Reads r 6 n t (b ∷ c ∷ node)) (sym (two_characters w c byte node 5 0 0))
      (read_full r 6 n v b (omega arith) (omega arith) (omega arith) (omega (arith, shared)) (
        read_full r1 3 (n + 1) u c (omega arith) (omega arith) (omega arith) (omega arith) (
          sync apart j (r1 % 2 ^ 27 * 32 + u) (n + 1 + 1) c node bytes (omega arith)
            (omega (arith, steps)) tt)))

by_size :
    (long : Bool) (output : List ℕ) {text : List ℕ}
    → (if long then done output else failed nodeid_encoding) ≡ done text
    → (long ≡ true) × (output ≡ text)
by_size true output e = (refl, ap answered e)
by_size false output e = ground (arith, e)

-- What melodi_nodeid_format wrote.
format-done :
    (point_check : List ℕ → Bool) (node : List ℕ) {text : List ℕ}
    → nodeid_format point_check node ≡ done text
    → (nodeid_validate point_check node ≡ none)
      × (text ≡ 0x6d ∷ format_loop 0 0 node)
      × (length text ≡ node_id_text_size)
unfolding nodeid_format
format-done point_check node {text} h =
    by_check (nodeid_validate point_check node) (0x6d ∷ format_loop 0 0 node) h
  where
    by_check :
        (valid : Option NodeIdResult) (output : List ℕ)
        → elim valid [
          | some result ↦ failed result
          | none ↦
              if length output == node_id_text_size then done output else failed nodeid_encoding
        ]
          ≡ done text
        → (valid ≡ none) × (text ≡ output) × (length text ≡ node_id_text_size)
    by_check (some result) output e = ground arith
    by_check none output e =
        let (long, same) = by_size (length output == node_id_text_size) output e in
        (refl, sym same, ap length (sym same) ∙ (==_iff (length output) node_id_text_size).0 long)

parse_end-done :
    (point_check : List ℕ → Bool) (text node : List ℕ) (left : ℕ)
    → length node ≡ node_id_size
    → left % 2 ≡ 0
    → nodeid_validate point_check node ≡ none
    → nodeid_format point_check node ≡ done text
    → parse_end point_check text (record { stored = node; accumulator = left; bits = 1 })
      ≡ done node
unfolding parse_end
parse_end-done point_check text node left sized even valid written =
    let last : bit_and left 1 ≡ 0 = bit_and_mask 1 left ∙ even in
    let fits : (length node != node_id_size || 1 != 1 || bit_and left 1 != 0) ≡ false =
      ground (arith, sized, last) in
    rw (fits, valid, written, same_bytes_refl text) refl

read_back :
    (point_check : List ℕ → Bool) (text node : List ℕ)
    → IsBytes node
    → length node ≡ node_id_size
    → nodeid_format point_check node ≡ done text
    → nodeid_parse point_check text ≡ done node
unfolding nodeid_parse
read_back point_check text node bytes sized written =
    let (valid, same, long) = format-done point_check node written in
    let r = sync apart 0 0 0 0 node bytes (omega (arith, sized)) (omega (arith, sized)) tt in
    let headed : get_or text 0 0 ≡ 0x6d = ap (λ t. get_or t 0 0) same in
    let good : (length text != node_id_text_size || get_or text 0 0 != 0x6d) ≡ false =
      ground (arith, long, headed) in
    let looped : parse_loop 0 0 0 (drop 1 text)
        ≡ some (record { stored = node; accumulator = r.left; bits = 1 }) =
      ap (λ t. parse_loop 0 0 0 (drop 1 t)) same ∙ r.reads in
    rw (good, looped) (parse_end-done point_check text node r.left sized r.even valid written)

-- For a node of octets: melodi_nodeid_parse reads it from a text exactly when it has 33 octets and
-- melodi_nodeid_format writes that text for it.
pub nodeid_parse-nodeid_format :
    (point_check : List ℕ → Bool) (text node : List ℕ)
    → IsBytes node
    → (nodeid_parse point_check text ≡ done node)
      ↔ ((length node ≡ node_id_size) × (nodeid_format point_check node ≡ done text))
nodeid_parse-nodeid_format point_check text node bytes = (
  λ e. let (_, sized, written) = nodeid_parse-canonical point_check text e in (sized, written),
  λ h. read_back point_check text node bytes h.0 h.1,
)
