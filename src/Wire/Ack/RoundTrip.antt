-- ===== src/Wire/Ack/RoundTrip.antt =====
-- Decoding an encoded acknowledgement.
use melodi.Base.{
  ◌!=◌, reject-ok, length, drop, inv16, has, ok, einval, ℕ, ◌^◌, ◌<◌, ◌≡◌, refl, ap, ◌∙◌, false,
  ◌||◌, List, arith,
}
use melodi.Wire.Flag
use melodi.Wire.Octets.{get16-put16, get32-put32, get64-put64}
use melodi.Wire.Common.{Common, IsCommon, decode_common, decode_common-encode_common}
use melodi.Wire.Fields.{last_field}
use melodi.Wire.Ack.{
  Ack, stamp_ack, bitmap_bad, common_bad, fields_bad, ack_bytes, encode_ack, read_ack,
  ack_common_bad, decode_ack,
}

-- The fields lie in their C types, and the tag has its size.
pub record IsAck (h : Ack) : Type 0 where
  pub common : IsCommon h.common
  pub acknowledged_generation : h.acknowledged_generation < 2 ^ 32
  pub fragment_count : h.fragment_count < 2 ^ 16
  pub status : h.status < 2 ^ 8
  pub bitmap : h.bitmap < 2 ^ 64
  pub tag : length h.tag ≡ 16

read_ack-ack_bytes : (h : Ack) → IsAck h → read_ack h.common (ack_bytes h) ≡ h
unfolding read_ack
read_ack-ack_bytes h v =
    let frame = ack_bytes h in
    λ i. record {
      common = h.common;
      acknowledged_generation =
          get32-put32 h.acknowledged_generation (drop 44 frame) v.acknowledged_generation i;
      fragment_count = get16-put16 h.fragment_count (drop 46 frame) v.fragment_count i;
      status = h.status;
      bitmap = get64-put64 h.bitmap (drop 56 frame) v.bitmap i;
      tag = last_field frame 56 16 h.tag refl v.tag i;
    }

decode_ack-steps :
    (b : List ℕ) (c : Common) (h : Ack)
    → decode_common b ≡ ok c
    → read_ack c b ≡ h
    → ack_common_bad c b ≡ false
    → fields_bad h ≡ false
    → bitmap_bad h ≡ false
    → decode_ack b ≡ ok h
unfolding decode_ack
decode_ack-steps b c h common read sound fields bitmap = rw (common, sound, read, fields, bitmap)

encode_ack-ok :
    (h : Ack) {b : List ℕ}
    → encode_ack h ≡ ok b
    → (h.common.flags ≡ Flag.encrypted)
      × (common_bad h.common ≡ false)
      × (fields_bad h ≡ false)
      × (bitmap_bad h ≡ false)
      × (b ≡ ack_bytes (stamp_ack h))
unfolding encode_ack
encode_ack-ok h e =
    let outer =
      reject-ok (h.common.flags != Flag.encrypted || common_bad h.common || fields_bad h) einval _
        e in
    let inner = reject-ok (bitmap_bad h) einval (ok (ack_bytes (stamp_ack h))) outer.1 in
    (ground arith, ground arith, ground arith, inner.0, cc (inner.1))

stamp_ack-IsAck : (h : Ack) → IsAck h → IsAck (stamp_ack h)
stamp_ack-IsAck h v = omega arith

-- An acknowledgement that the encoder returns is decoded to the header that was sent, with the
-- stamped fields.
pub decode_ack-encode_ack :
    (h : Ack) {b : List ℕ} → IsAck h → encode_ack h ≡ ok b → decode_ack b ≡ ok (stamp_ack h)
decode_ack-encode_ack h {b} v e =
    let (flags, common, fields, bitmap, bytes) = encode_ack-ok h e in
    let sent = stamp_ack h in
    let sound = stamp_ack-IsAck h v in
    ap decode_ack bytes
    ∙ decode_ack-steps (ack_bytes sent) sent.common sent
        (decode_common-encode_common sent.common (drop 40 (ack_bytes sent)) sound.common refl refl
          (ap (λ f. has f (inv16 Flag.every)) flags) (omega arith) (omega arith))
        (read_ack-ack_bytes sent sound) (ground arith) fields bitmap
