-- ===== src/Wire/Auth.antt =====
-- CHALLENGE and RESPONSE frames of src/proto/wire.c: struct melodi_wire_auth and its codec.
pub mod RoundTrip
use melodi.Base.{
  ◌!=◌, ◌>>=◌, ◌>>◌, reject, Result, get_or, take, drop, ok, einval, eproto, ℕ, Bool, not, ◌&&◌,
  ◌||◌, List, ◌++◌, arith,
}
use melodi.Wire.Class
use melodi.Wire.Flag
use melodi.Wire.Octets.{get32, put32}
use melodi.Wire.Common.{Common, stamp, is_unicast, encode_common, decode_common, scheme_ed25519}

abbrev pub auth_size : ℕ
auth_size = 302

pub record Auth : Type 0 where
  pub common : Common
  pub source_node_id : List ℕ
  pub destination_node_id : List ℕ
  pub ephemeral_key : List ℕ
  pub challenge : List ℕ
  pub reply_to : List ℕ
  pub mesh_domain : List ℕ
  pub collision_round : ℕ
  pub signature : List ℕ

-- The encoder keeps the caller's frame class.
abbrev pub stamp_auth : Auth → Auth
stamp_auth h = record h { common = stamp h.common h.common.frame_class auth_size 0 }

abbrev pub auth_common_bad : Common → Bool
auth_common_bad c =
    c.frame_class != Class.challenge && c.frame_class != Class.response
    || c.flags != 0
    || not (is_unicast c.source_native_locator)
    || not (is_unicast c.destination_native_locator)

abbrev pub nodes_bad : Auth → Bool
nodes_bad h =
    get_or h.source_node_id 0 0 != scheme_ed25519
    || get_or h.destination_node_id 0 0 != scheme_ed25519

abbrev pub auth_bytes : Auth → List ℕ
auth_bytes h =
    encode_common h.common
    ++ (h.source_node_id
        ++ (h.destination_node_id
            ++ (h.ephemeral_key
                ++ (h.challenge
                    ++ (h.reply_to
                        ++ (h.mesh_domain ++ (put32 h.collision_round ++ h.signature)))))))

unfoldable pub encode_auth : Auth → Result (List ℕ)
encode_auth h = do
  reject (auth_common_bad h.common || nodes_bad h) einval
  ok (auth_bytes (stamp_auth h))

unfoldable pub read_auth : Common → List ℕ → Auth
read_auth common b = record {
  common = common;
  source_node_id = take 33 (drop 40 b);
  destination_node_id = take 33 (drop 73 b);
  ephemeral_key = take 32 (drop 106 b);
  challenge = take 32 (drop 138 b);
  reply_to = take 32 (drop 170 b);
  mesh_domain = take 32 (drop 202 b);
  collision_round = get32 (drop 234 b);
  signature = take 64 (drop 238 b);
}

unfoldable pub decode_auth : List ℕ → Result Auth
decode_auth b = do
  common ← decode_common b
  reject (auth_common_bad common || common.header_length != auth_size || common.payload_length != 0)
      eproto
  reject (nodes_bad (read_auth common b)) eproto
  ok (read_auth common b)
