-- ===== src/Wire/Claim/RoundTrip.antt =====
-- Decoding an encoded claim.
use melodi.Base.{
  ◌==◌, if◌then◌else◌, reject-ok, length, get_or, drop, length-append, inv16, has, bit_and_halves,
  bit_and_mask, ok, err, einval, eproto, ℕ, ◌/◌, ◌^◌, ◌<◌, ◌≡◌, refl, sym, ap, ◌∙◌, ◌≢◌, true,
  false, List, ◌++◌, arith,
}
use native.Mathlib.Decide.{ℕ_discrete}
use melodi.Wire.Flag
use melodi.Wire.Octets.{put32}
use melodi.Wire.Common.{
  Common, IsCommon, stamp, class_valid, decode_common, locator_broadcast, scheme_ed25519,
  decode_common-encode_common,
}
use melodi.Wire.Fields.{skip, field, last_field, field32}
use melodi.Wire.Claim.{
  Hello, hello_size, node_id_size, stamp_hello, claim_refused, claim_bytes, encode_claim,
  read_hello, decode_claim,
}

-- The fields lie in their C types, and the arrays have their sizes.
pub record IsHello (h : Hello) : Type 0 where
  pub common : IsCommon h.common
  pub node_id : length h.node_id ≡ node_id_size
  pub mesh_domain : length h.mesh_domain ≡ 32
  pub collision_round : h.collision_round < 2 ^ 32
  pub capabilities : h.capabilities < 2 ^ 32
  pub expiry_seconds : h.expiry_seconds < 2 ^ 32
  pub challenge : length h.challenge ≡ 32
  pub signature : length h.signature ≡ 64

module _ (h : Hello) (v : IsHello h) where
  abbrev frame : List ℕ
  frame = claim_bytes h

  abbrev fixed : List ℕ
  fixed = put32 h.capabilities ++ (put32 h.expiry_seconds ++ (h.challenge ++ h.signature))

  at_domain : drop 73 frame ≡ h.mesh_domain ++ (put32 h.collision_round ++ fixed)
  at_domain =
      skip frame 40 33 h.node_id (h.mesh_domain ++ (put32 h.collision_round ++ fixed)) refl
        v.node_id

  at_round : drop 105 frame ≡ put32 h.collision_round ++ fixed
  at_round =
      skip frame 73 32 h.mesh_domain (put32 h.collision_round ++ fixed) at_domain v.mesh_domain

  at_capabilities : drop 109 frame ≡ fixed
  at_capabilities = skip frame 105 4 (put32 h.collision_round) fixed at_round refl

  at_expiry : drop 113 frame ≡ put32 h.expiry_seconds ++ (h.challenge ++ h.signature)
  at_expiry = skip frame 109 4 (put32 h.capabilities) _ at_capabilities refl

  at_challenge : drop 117 frame ≡ h.challenge ++ h.signature
  at_challenge = skip frame 113 4 (put32 h.expiry_seconds) _ at_expiry refl

  at_signature : drop 149 frame ≡ h.signature
  at_signature = skip frame 117 32 h.challenge h.signature at_challenge v.challenge

  read_hello-claim_bytes : read_hello h.common frame ≡ h
  unfolding read_hello
  read_hello-claim_bytes = λ i. record {
    common = h.common;
    node_id = field frame 40 33 h.node_id _ refl v.node_id i;
    mesh_domain = field frame 73 32 h.mesh_domain _ at_domain v.mesh_domain i;
    collision_round = field32 frame 105 h.collision_round _ at_round v.collision_round i;
    capabilities = field32 frame 109 h.capabilities _ at_capabilities v.capabilities i;
    expiry_seconds = field32 frame 113 h.expiry_seconds _ at_expiry v.expiry_seconds i;
    challenge = field frame 117 32 h.challenge h.signature at_challenge v.challenge i;
    signature = last_field frame 149 64 h.signature at_signature v.signature i;
  }

decode_claim-steps :
    (b : List ℕ) (class : ℕ) (c : Common) (h : Hello)
    → decode_common b ≡ ok c
    → read_hello c b ≡ h
    → c ≡ stamp c class hello_size 0
    → c.flags ≡ Flag.broadcast
    → c.destination_native_locator ≡ locator_broadcast
    → get_or h.node_id 0 0 ≡ scheme_ed25519
    → decode_claim b class ≡ ok h
unfolding decode_claim
decode_claim-steps b class c h common read stamped flags dest scheme = ground (
  arith,
  ap Common.frame_class stamped,
  ap Common.header_length stamped,
  ap Common.payload_length stamped,
)

-- The two tests of the encoder leave one value of the flags.
broadcast_alone :
    (flags : ℕ)
    → flags < 2 ^ 16
    → has flags (inv16 Flag.broadcast) ≡ false
    → has flags Flag.broadcast ≡ true
    → flags ≡ Flag.broadcast
broadcast_alone flags fits others own =
    ground (arith, bit_and_halves flags 0xfffe, bit_and_mask 15 (flags / 2), bit_and_mask 1 flags)

stamp_hello-IsHello :
    (h : Hello) (class : ℕ) → class < 2 ^ 8 → IsHello h → IsHello (stamp_hello h class)
stamp_hello-IsHello h class small v = omega arith

decode_common-claim_bytes :
    (h : Hello) (class : ℕ)
    → IsHello h
    → class_valid class ≡ true
    → h.common.flags ≡ Flag.broadcast
    → decode_common (claim_bytes (stamp_hello h class)) ≡ ok (stamp h.common class hello_size 0)
decode_common-claim_bytes h class v valid flags =
    decode_common-encode_common (stamp h.common class hello_size 0)
      (drop 40 (claim_bytes (stamp_hello h class)))
      (stamp_hello-IsHello h class (ground arith) v).common refl valid
      (ap (λ f. has f (inv16 Flag.every)) flags) (omega arith)
      (omega (
        arith,
        v,
        length-append h.node_id (h.mesh_domain ++ (put32 h.collision_round ++ fixed h v)),
        length-append h.mesh_domain (put32 h.collision_round ++ fixed h v),
        length-append h.challenge h.signature,
      ))

other_class :
    (b : List ℕ) (c : Common) (class : ℕ)
    → decode_common b ≡ ok c
    → c.frame_class ≢ class
    → decode_claim b class ≡ err eproto
unfolding decode_claim
other_class b c class common other = ground arith

-- A claim that the encoder returns, a HELLO or a CONFLICT, is decoded to the header that was sent
-- with the stamped fields by the decoder of its class, and the decoder of another class refuses it.
pub decode_claim-encode_claim :
    (h : Hello) (class asked : ℕ) {b : List ℕ}
    → IsHello h
    → class_valid class ≡ true
    → encode_claim h class ≡ ok b
    → decode_claim b asked ≡ (if class == asked then ok (stamp_hello h class) else err eproto)
unfolding encode_claim
decode_claim-encode_claim h class asked {b} v valid e =
    let (accepted, same) =
      reject-ok (claim_refused h) einval (ok (claim_bytes (stamp_hello h class))) e in
    let bytes : b ≡ claim_bytes (stamp_hello h class) = cc same in
    let sent = stamp_hello h class in
    let sound = stamp_hello-IsHello h class (ground arith) v in
    let flags = broadcast_alone h.common.flags v.common.flags (ground arith) (ground arith) in
    let common = ap decode_common bytes ∙ decode_common-claim_bytes h class v valid flags in
    elim (ℕ_discrete class asked) [
      | yes eq ↦
          ap (decode_claim b) (sym eq)
          ∙ decode_claim-steps b class sent.common sent common
              (ap (read_hello sent.common) bytes ∙ read_hello-claim_bytes sent sound) refl flags
              (ground arith) (ground arith)
          ∙ ground arith
      | no ne ↦ other_class b (stamp h.common class hello_size 0) asked common ne ∙ ground arith
    ]
