-- ===== src/Wire/Tests.antt =====
-- Frames through the codecs.
use melodi.Base.{
  drop, replicate, ok, err, eproto, ℕ, ◌^◌, ◌<◌, ◌≡◌, refl, List, ◌∷◌, ◌++◌, arith, [],
}
use melodi.Wire.Class
use melodi.Wire.Flag
use melodi.Wire.Common.{Common, IsCommon}
use melodi.Wire.Data.{
  Data, stamp_data, data_header, encode_data_header, encode_data, encode_broadcast_data,
  decode_data, decode_broadcast_data,
}
use melodi.Wire.Data.RoundTrip.{IsData, decode_data-encode_data}
use melodi.Wire.Data.Broadcast.{signed, decode_broadcast_data-encode_broadcast_data}
use melodi.Wire.Claim.{Hello, stamp_hello, claim_bytes, encode_claim, decode_claim}
use melodi.Wire.Claim.RoundTrip.{IsHello, decode_claim-encode_claim}
use melodi.Wire.Ack.{Ack, stamp_ack, ack_bytes, encode_ack, decode_ack}
use melodi.Wire.Ack.RoundTrip.{IsAck, decode_ack-encode_ack}
use melodi.Wire.Auth.{Auth, stamp_auth, auth_bytes, encode_auth}
use melodi.Wire.Control.{Control, stamp_control, control_bytes, encode_control}

abbrev common : ℕ → ℕ → ℕ → Common
common class flags destination = record {
  version = 0;
  frame_class = class;
  flags = flags;
  header_length = 0;
  payload_length = 0;
  source_native_locator = 0x1020304;
  destination_native_locator = destination;
  identity_generation = 3;
  message_id = 77;
  counter = 0x1_0000_0001;
}

common-IsCommon :
    (class flags destination : ℕ)
    → class < 256
    → flags < 2 ^ 16
    → destination < 2 ^ 32
    → IsCommon (common class flags destination)
common-IsCommon class flags destination h i j = omega arith

abbrev node : List ℕ
node = 1 ∷ replicate 32 7

abbrev a_message : ℕ → ℕ → Data
a_message flags destination = record {
  common = common 0 flags destination;
  destination_service = 300;
  source_service = 4;
  fragment_index = 0;
  fragment_count = 1;
  logical_length = 3;
  delivery_mode = 0;
  priority = 2;
  ordering_marker = 0;
  tag = replicate 16 9;
}

abbrev words : List ℕ
words = 104 ∷ 105 ∷ 33 ∷ []

a_message-IsData :
    (flags destination : ℕ)
    → flags < 2 ^ 16
    → destination < 2 ^ 32
    → IsData (a_message flags destination)
a_message-IsData flags destination h i = omega arith

abbrev private_message : Data
private_message = a_message Flag.encrypted 5

private_message-encoded :
    encode_data 1500 private_message words
    ≡ ok (data_header (stamp_data private_message 3) ++ words)
unfolding encode_data encode_data_header
private_message-encoded = refl

decode_data-encode_data_example :
    decode_data (data_header (stamp_data private_message 3) ++ words)
    ≡ ok (stamp_data private_message 3, words)
decode_data-encode_data_example =
    decode_data-encode_data 1500 private_message words
      (a_message-IsData Flag.encrypted 5 (omega arith) (omega arith)) (λ e. ground arith)
      private_message-encoded

abbrev public_message : Data
public_message = a_message Flag.broadcast 0xffff_ffff

abbrev a_signature : List ℕ
a_signature = replicate 64 200

abbrev public_bytes : List ℕ
public_bytes = data_header (signed public_message a_signature 51) ++ drop 16 a_signature ++ words

public_message-encoded :
    encode_broadcast_data 1500 public_message a_signature words ≡ ok public_bytes
unfolding encode_broadcast_data encode_data_header
public_message-encoded = refl

decode_broadcast_data-encode_broadcast_data_example :
    decode_broadcast_data public_bytes
    ≡ ok (signed public_message a_signature 51, a_signature, words)
decode_broadcast_data-encode_broadcast_data_example =
    decode_broadcast_data-encode_broadcast_data 1500 public_message a_signature words
      (a_message-IsData Flag.broadcast 0xffff_ffff (omega arith) (omega arith)) refl
      public_message-encoded

abbrev a_claim : Hello
a_claim = record {
  common = common 0 Flag.broadcast 0xffff_ffff;
  node_id = node;
  mesh_domain = replicate 32 8;
  collision_round = 2;
  capabilities = 1;
  expiry_seconds = 600;
  challenge = replicate 32 5;
  signature = a_signature;
}

a_claim-IsHello : IsHello a_claim
a_claim-IsHello = omega arith

a_claim-encoded :
    encode_claim a_claim Class.conflict ≡ ok (claim_bytes (stamp_hello a_claim Class.conflict))
unfolding encode_claim
a_claim-encoded = refl

decode_claim-encode_claim_example :
    decode_claim (claim_bytes (stamp_hello a_claim Class.conflict)) Class.hello ≡ err eproto
decode_claim-encode_claim_example =
    decode_claim-encode_claim a_claim Class.conflict Class.hello a_claim-IsHello refl
      a_claim-encoded

abbrev an_ack : Ack
an_ack = record {
  common = common 0 Flag.encrypted 5;
  acknowledged_generation = 3;
  fragment_count = 3;
  status = 0;
  bitmap = 7;
  tag = replicate 16 9;
}

an_ack-IsAck : IsAck an_ack
an_ack-IsAck = omega arith

an_ack-encoded : encode_ack an_ack ≡ ok (ack_bytes (stamp_ack an_ack))
unfolding encode_ack
an_ack-encoded = refl

decode_ack-encode_ack_example : decode_ack (ack_bytes (stamp_ack an_ack)) ≡ ok (stamp_ack an_ack)
decode_ack-encode_ack_example = decode_ack-encode_ack an_ack an_ack-IsAck an_ack-encoded

abbrev a_challenge : Auth
a_challenge = record {
  common = common Class.challenge 0 5;
  source_node_id = node;
  destination_node_id = node;
  ephemeral_key = replicate 32 6;
  challenge = replicate 32 5;
  reply_to = replicate 32 0;
  mesh_domain = replicate 32 8;
  collision_round = 0;
  signature = a_signature;
}

a_challenge-encoded : encode_auth a_challenge ≡ ok (auth_bytes (stamp_auth a_challenge))
unfolding encode_auth
a_challenge-encoded = refl

abbrev a_probe : Control
a_probe = record {
  common = common 0 Flag.broadcast 0xffff_ffff;
  node_id = node;
  mesh_domain = replicate 32 8;
  collision_round = 0;
  opcode = 1;
  contents = replicate 32 4;
  signature = a_signature;
}

a_probe-encoded : encode_control a_probe ≡ ok (control_bytes (stamp_control a_probe))
unfolding encode_control
a_probe-encoded = refl
