-- ===== src/Wire/Data/Broadcast.antt =====
-- Decoding an encoded broadcast, with its signature in the tag and before the payload.
use melodi.Base.{
  ltb, reject-ok, >>=-ok, length, take, drop, length-append, length-take, length-drop, take-append,
  drop-append, take-append-drop, inv16, has, bit_and_halves, ok, einval, ℕ, ◌+◌, ◌^◌, ◌≤◌, ◌<◌,
  bit_and, ◌≡◌, ap, ap₂, ◌∙◌, true, false, ◌||◌, List, ◌++◌, arith,
}
use mathlib.Core.List.{append_assoc}
use melodi.Wire.Class
use melodi.Wire.Flag
use melodi.Wire.Common.{stamp}
use melodi.Wire.Data.{
  Data, data_size, tag_size, broadcast_overhead, stamp_data, data_refused, data_header,
  encode_data_header, encode_broadcast_data, not_broadcast, length_malformed, decode_data,
  decode_broadcast_data,
}
use melodi.Wire.Data.RoundTrip.{IsData, decode_data-data_header, stamp_data-IsData}

-- Flags that are `broadcast`, but for `final`, have `broadcast` set.
has-broadcast :
    (flags : ℕ)
    → bit_and flags (inv16 Flag.final) ≡ Flag.broadcast
    → has flags Flag.broadcast ≡ true
has-broadcast flags e =
    ground (arith, bit_and_halves flags (inv16 Flag.final), bit_and_halves flags Flag.broadcast)

-- The header that a broadcast is sent with.
abbrev pub signed : Data → List ℕ → ℕ → Data
signed h signature n = stamp_data (record h { tag = take tag_size signature }) n

encode_broadcast_data-ok :
    (capacity : ℕ) (h : Data) (signature payload : List ℕ) {b : List ℕ}
    → encode_broadcast_data capacity h signature payload ≡ ok b
    → (length payload ≤ h.logical_length)
      × (not_broadcast h ≡ false)
      × (data_refused capacity h (broadcast_overhead + length payload) ≡ false)
      × (b
          ≡ data_header (signed h signature (broadcast_overhead + length payload))
            ++ (drop tag_size signature ++ payload))
unfolding encode_broadcast_data encode_data_header
encode_broadcast_data-ok capacity h signature payload e =
    let n = broadcast_overhead + length payload in
    let outer = reject-ok (ltb h.logical_length (length payload) || not_broadcast h) einval _ e in
    let written =
      >>=-ok (encode_data_header capacity (record h { tag = take tag_size signature }) n)
        (λ header. ok (header ++ drop tag_size signature ++ payload)) outer.1 in
    let accepted =
      reject-ok (data_refused capacity h n) einval (ok (data_header (signed h signature n)))
        written.1 in
    (
      ground arith,
      ground arith,
      accepted.0,
      cc (accepted.1, written.2, append_assoc written.0 (drop tag_size signature) payload),
    )

decode_broadcast_data-steps :
    (b : List ℕ) (h : Data) (physical : List ℕ)
    → decode_data b ≡ ok (h, physical)
    → not_broadcast h ≡ false
    → 48 ≤ h.common.payload_length
    → decode_broadcast_data b
      ≡ ok (h, h.tag ++ take broadcast_overhead physical, drop broadcast_overhead physical)
unfolding decode_broadcast_data
decode_broadcast_data-steps b h physical e broadcast room = ground arith

signed-IsData :
    (h : Data) (signature : List ℕ) (n : ℕ)
    → IsData h
    → length signature ≡ 64
    → n < 2 ^ 16
    → IsData (signed h signature n)
signed-IsData h signature n v size fits =
    stamp_data-IsData (record h { tag = take tag_size signature }) n
      (record {
        common = v.common;
        destination_service = v.destination_service;
        source_service = v.source_service;
        fragment_index = v.fragment_index;
        fragment_count = v.fragment_count;
        logical_length = v.logical_length;
        delivery_mode = v.delivery_mode;
        priority = v.priority;
        ordering_marker = v.ordering_marker;
        tag = omega (arith, length-take tag_size signature);
      })
      fits

sized :
    (h : Data) (signature : List ℕ) (n : ℕ)
    → n ≤ h.logical_length
    → not_broadcast h ≡ false
    → length_malformed (signed h signature (broadcast_overhead + n)) ≡ false
sized h signature n fits broadcast = ground (arith, has-broadcast h.common.flags)

-- A broadcast that the encoder returns is decoded to the header that was sent, to the whole 64-byte
-- signature and to the payload.
pub decode_broadcast_data-encode_broadcast_data :
    (capacity : ℕ) (h : Data) (signature payload : List ℕ) {b : List ℕ}
    → IsData h
    → length signature ≡ 64
    → encode_broadcast_data capacity h signature payload ≡ ok b
    → decode_broadcast_data b
      ≡ ok (signed h signature (broadcast_overhead + length payload), signature, payload)
decode_broadcast_data-encode_broadcast_data capacity h signature payload v size e =
    let (fits, broadcast, accepted, bytes) =
      encode_broadcast_data-ok capacity h signature payload e in
    let n = broadcast_overhead + length payload in
    let rest = drop tag_size signature ++ payload in
    let sent = signed h signature n in
    let size_rest : n ≡ length rest =
      omega
        (arith, length-append (drop tag_size signature) payload, length-drop tag_size signature) in
    let decoded : decode_data (data_header sent ++ rest) ≡ ok (sent, rest) =
      decode_data-data_header sent rest capacity n
        (signed-IsData h signature n v size (ground arith))
        (ap (stamp h.common Class.message data_size) size_rest) accepted
        (sized h signature (length payload) fits broadcast) in
    ap decode_broadcast_data bytes
    ∙ decode_broadcast_data-steps (data_header sent ++ rest) sent rest decoded broadcast
        (omega arith)
    ∙ ap₂ (λ s p. ok (sent, s, p))
        (ap (◌++◌ (take tag_size signature)) (
            take-append 48 (drop tag_size signature) payload
              (omega (arith, length-drop tag_size signature)))
          ∙ take-append-drop tag_size signature)
        (drop-append 48 0 (drop tag_size signature) payload
          (omega (arith, length-drop tag_size signature)))
