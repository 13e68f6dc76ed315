-- ===== src/Wire/Control/RoundTrip.antt =====
-- Decoding an encoded control frame.
use melodi.Base.{
  reject-ok, length, get_or, drop, length-append, get_or-drop, inv16, has, ok, einval, ℕ, ◌+◌, ◌^◌,
  ◌<◌, ◌≡◌, refl, ap, ◌∙◌, false, ◌||◌, List, ◌∷◌, ◌++◌, arith, [],
}
use melodi.Wire.Class
use melodi.Wire.Flag
use melodi.Wire.Octets.{put16, put32}
use melodi.Wire.Common.{Common, IsCommon, stamp, decode_common, decode_common-encode_common}
use melodi.Wire.Fields.{skip, field, last_field, field16, field32}
use melodi.Wire.Control.{
  Control, control_size, stamp_control, control_common_bad, control_bad, control_bytes,
  encode_control, read_control, decode_control,
}

-- The fields lie in their C types, and the arrays have their sizes.
pub record IsControl (h : Control) : Type 0 where
  pub common : IsCommon h.common
  pub node_id : length h.node_id ≡ 33
  pub mesh_domain : length h.mesh_domain ≡ 32
  pub collision_round : h.collision_round < 2 ^ 32
  pub opcode : h.opcode < 2 ^ 16
  pub contents : length h.contents ≡ 32
  pub signature : length h.signature ≡ 64

module _ (h : Control) (v : IsControl h) where
  abbrev frame : List ℕ
  frame = control_bytes h

  abbrev from_opcode : List ℕ
  from_opcode = put16 h.opcode ++ 0 ∷ 0 ∷ (h.contents ++ h.signature)

  abbrev from_round : List ℕ
  from_round = put32 h.collision_round ++ from_opcode

  at_domain : drop 73 frame ≡ h.mesh_domain ++ from_round
  at_domain = skip frame 40 33 h.node_id _ refl v.node_id

  at_round : drop 105 frame ≡ from_round
  at_round = skip frame 73 32 h.mesh_domain from_round at_domain v.mesh_domain

  at_opcode : drop 109 frame ≡ from_opcode
  at_opcode = skip frame 105 4 (put32 h.collision_round) from_opcode at_round refl

  at_contents : drop 113 frame ≡ h.contents ++ h.signature
  at_contents = skip frame 109 4 (put16 h.opcode ++ 0 ∷ 0 ∷ []) _ at_opcode refl

  at_signature : drop 145 frame ≡ h.signature
  at_signature = skip frame 113 32 h.contents h.signature at_contents v.contents

  reserved_zero : (get_or frame 111 0 ≡ 0) × (get_or frame 112 0 ≡ 0)
  reserved_zero =
      let at : (k : ℕ) → get_or frame (109 + k) 0 ≡ get_or from_opcode k 0 =
        λ k. get_or-drop 109 k frame 0 ∙ ap (λ b. get_or b k 0) at_opcode in
      (at 2, at 3)

  read_control-control_bytes : read_control h.common frame ≡ h
  unfolding read_control
  read_control-control_bytes = λ i. record {
    common = h.common;
    node_id = field frame 40 33 h.node_id _ refl v.node_id i;
    mesh_domain = field frame 73 32 h.mesh_domain from_round at_domain v.mesh_domain i;
    collision_round = field32 frame 105 h.collision_round from_opcode at_round v.collision_round i;
    opcode = field16 frame 109 h.opcode _ at_opcode v.opcode i;
    contents = field frame 113 32 h.contents h.signature at_contents v.contents i;
    signature = last_field frame 145 64 h.signature at_signature v.signature i;
  }

  length_rest : length (drop 40 frame) ≡ 169
  length_rest = omega (
    arith,
    v,
    length-append h.node_id (h.mesh_domain ++ from_round),
    length-append h.mesh_domain from_round,
    length-append h.contents h.signature,
  )

decode_control-steps :
    (b : List ℕ) (c : Common) (h : Control)
    → decode_common b ≡ ok c
    → read_control c b ≡ h
    → c ≡ stamp c Class.control control_size 0
    → control_common_bad c ≡ false
    → (get_or b 111 0 ≡ 0) × (get_or b 112 0 ≡ 0)
    → control_bad h ≡ false
    → decode_control b ≡ ok h
unfolding decode_control
decode_control-steps b c h common read stamped sound reserved nodes = ground (
  arith,
  ap Common.frame_class stamped,
  ap Common.header_length stamped,
  ap Common.payload_length stamped,
)

stamp_control-IsControl : (h : Control) → IsControl h → IsControl (stamp_control h)
stamp_control-IsControl h v = omega arith

-- A control frame that the encoder returns is decoded to the header that was sent, with the stamped
-- fields.
decode_control-encode_control :
    (h : Control) {b : List ℕ}
    → IsControl h
    → encode_control h ≡ ok b
    → decode_control b ≡ ok (stamp_control h)
unfolding encode_control
decode_control-encode_control h {b} v e =
    let sent = stamp_control h in
    let sound = stamp_control-IsControl h v in
    let (accepted, same) =
      reject-ok (control_common_bad h.common || control_bad h) einval (ok (control_bytes sent)) e in
    let flags : h.common.flags ≡ Flag.broadcast = ground arith in
    ap decode_control {x = b} {y = control_bytes sent} (cc same)
    ∙ decode_control-steps (control_bytes sent) sent.common sent
        (decode_common-encode_common sent.common (drop 40 (control_bytes sent)) sound.common refl
          refl (ap (λ f. has f (inv16 Flag.every)) flags) (omega arith)
          (omega (arith, length_rest sent sound)))
        (read_control-control_bytes sent sound) refl (ground arith) (reserved_zero sent sound)
        (ground arith)
