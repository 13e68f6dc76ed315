-- ===== src/Wire/Auth/RoundTrip.antt =====
-- Decoding an encoded challenge or response.
use melodi.Base.{
  reject-ok, length, drop, length-append, inv16, has, ok, einval, ℕ, ◌^◌, ◌<◌, ◌≡◌, refl, ap, ◌∙◌,
  false, ◌||◌, List, ◌++◌, arith,
}
use melodi.Wire.Flag
use melodi.Wire.Octets.{put32}
use melodi.Wire.Common.{Common, IsCommon, decode_common, decode_common-encode_common}
use melodi.Wire.Fields.{skip, field, last_field, field32}
use melodi.Wire.Auth.{
  Auth, auth_size, stamp_auth, auth_common_bad, nodes_bad, auth_bytes, encode_auth, read_auth,
  decode_auth,
}

-- The fields lie in their C types, and the arrays have their sizes.
pub record IsAuth (h : Auth) : Type 0 where
  pub common : IsCommon h.common
  pub source_node_id : length h.source_node_id ≡ 33
  pub destination_node_id : length h.destination_node_id ≡ 33
  pub ephemeral_key : length h.ephemeral_key ≡ 32
  pub challenge : length h.challenge ≡ 32
  pub reply_to : length h.reply_to ≡ 32
  pub mesh_domain : length h.mesh_domain ≡ 32
  pub collision_round : h.collision_round < 2 ^ 32
  pub signature : length h.signature ≡ 64

module _ (h : Auth) (v : IsAuth h) where
  abbrev frame : List ℕ
  frame = auth_bytes h

  abbrev from_round : List ℕ
  from_round = put32 h.collision_round ++ h.signature

  abbrev from_reply : List ℕ
  from_reply = h.reply_to ++ (h.mesh_domain ++ from_round)

  abbrev from_key : List ℕ
  from_key = h.ephemeral_key ++ (h.challenge ++ from_reply)

  at_destination : drop 73 frame ≡ h.destination_node_id ++ from_key
  at_destination = skip frame 40 33 h.source_node_id _ refl v.source_node_id

  at_key : drop 106 frame ≡ from_key
  at_key = skip frame 73 33 h.destination_node_id from_key at_destination v.destination_node_id

  at_challenge : drop 138 frame ≡ h.challenge ++ from_reply
  at_challenge = skip frame 106 32 h.ephemeral_key _ at_key v.ephemeral_key

  at_reply : drop 170 frame ≡ from_reply
  at_reply = skip frame 138 32 h.challenge from_reply at_challenge v.challenge

  at_domain : drop 202 frame ≡ h.mesh_domain ++ from_round
  at_domain = skip frame 170 32 h.reply_to _ at_reply v.reply_to

  at_round : drop 234 frame ≡ from_round
  at_round = skip frame 202 32 h.mesh_domain from_round at_domain v.mesh_domain

  at_signature : drop 238 frame ≡ h.signature
  at_signature = skip frame 234 4 (put32 h.collision_round) h.signature at_round refl

  read_auth-auth_bytes : read_auth h.common frame ≡ h
  unfolding read_auth
  read_auth-auth_bytes = λ i. record {
    common = h.common;
    source_node_id = field frame 40 33 h.source_node_id _ refl v.source_node_id i;
    destination_node_id =
        field frame 73 33 h.destination_node_id from_key at_destination v.destination_node_id i;
    ephemeral_key = field frame 106 32 h.ephemeral_key _ at_key v.ephemeral_key i;
    challenge = field frame 138 32 h.challenge from_reply at_challenge v.challenge i;
    reply_to = field frame 170 32 h.reply_to _ at_reply v.reply_to i;
    mesh_domain = field frame 202 32 h.mesh_domain from_round at_domain v.mesh_domain i;
    collision_round = field32 frame 234 h.collision_round h.signature at_round v.collision_round i;
    signature = last_field frame 238 64 h.signature at_signature v.signature i;
  }

  length_rest : length (drop 40 frame) ≡ 262
  length_rest = omega (
    arith,
    v,
    length-append h.source_node_id (h.destination_node_id ++ from_key),
    length-append h.destination_node_id from_key,
    length-append h.ephemeral_key (h.challenge ++ from_reply),
    length-append h.challenge from_reply,
    length-append h.reply_to (h.mesh_domain ++ from_round),
    length-append h.mesh_domain from_round,
  )

decode_auth-steps :
    (b : List ℕ) (c : Common) (h : Auth)
    → decode_common b ≡ ok c
    → read_auth c b ≡ h
    → auth_common_bad c ≡ false
    → c.header_length ≡ auth_size
    → c.payload_length ≡ 0
    → nodes_bad h ≡ false
    → decode_auth b ≡ ok h
unfolding decode_auth
decode_auth-steps b c h common read sound header payload nodes = ground arith

stamp_auth-IsAuth : (h : Auth) → IsAuth h → IsAuth (stamp_auth h)
stamp_auth-IsAuth h v = omega arith

-- A challenge or a response that the encoder returns is decoded to the header that was sent, with
-- the stamped fields.
decode_auth-encode_auth :
    (h : Auth) {b : List ℕ} → IsAuth h → encode_auth h ≡ ok b → decode_auth b ≡ ok (stamp_auth h)
unfolding encode_auth
decode_auth-encode_auth h {b} v e =
    let sent = stamp_auth h in
    let sound = stamp_auth-IsAuth h v in
    let (accepted, same) =
      reject-ok (auth_common_bad h.common || nodes_bad h) einval (ok (auth_bytes sent)) e in
    let flags : h.common.flags ≡ 0 = ground arith in
    ap decode_auth {x = b} {y = auth_bytes sent} (cc same)
    ∙ decode_auth-steps (auth_bytes sent) sent.common sent
        (decode_common-encode_common sent.common (drop 40 (auth_bytes sent)) sound.common refl
          (ground arith) (ap (λ f. has f (inv16 Flag.every)) flags) (omega arith)
          (omega (arith, length_rest sent sound)))
        (read_auth-auth_bytes sent sound) (ground arith) refl refl (ground arith)
