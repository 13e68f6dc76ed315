-- ===== src/Wire/Claim.antt =====
-- HELLO and CONFLICT frames of src/proto/wire.c: struct melodi_wire_hello and its codecs. Arrays of
-- fixed size are lists, whose sizes IsHello states.
pub mod RoundTrip
use melodi.Base.{
  ◌!=◌, ◌>>=◌, ◌>>◌, reject, Result, get_or, take, drop, inv16, has, ok, einval, eproto, ℕ, Bool,
  not, ◌||◌, List, ◌++◌, arith,
}
use melodi.Wire.Class
use melodi.Wire.Flag
use melodi.Wire.Octets.{get32, put32}
use melodi.Wire.Common.{
  Common, stamp, encode_common, decode_common, locator_broadcast, scheme_ed25519,
}

abbrev pub hello_size : ℕ
hello_size = 213

abbrev pub node_id_size : ℕ
node_id_size = 33

pub record Hello : Type 0 where
  pub common : Common
  pub node_id : List ℕ
  pub mesh_domain : List ℕ
  pub collision_round : ℕ
  pub capabilities : ℕ
  pub expiry_seconds : ℕ
  pub challenge : List ℕ
  pub signature : List ℕ

abbrev pub stamp_hello : Hello → ℕ → Hello
stamp_hello h class = record h { common = stamp h.common class hello_size 0 }

abbrev pub claim_refused : Hello → Bool
claim_refused h =
    has h.common.flags (inv16 Flag.broadcast)
    || not (has h.common.flags Flag.broadcast)
    || h.common.destination_native_locator != locator_broadcast
    || get_or h.node_id 0 0 != scheme_ed25519

abbrev pub claim_bytes : Hello → List ℕ
claim_bytes h =
    encode_common h.common
    ++ (h.node_id
        ++ (h.mesh_domain
            ++ (put32 h.collision_round
                ++ (put32 h.capabilities
                    ++ (put32 h.expiry_seconds ++ (h.challenge ++ h.signature))))))

unfoldable pub encode_claim : Hello → ℕ → Result (List ℕ)
encode_claim h class = do reject (claim_refused h) einval; ok (claim_bytes (stamp_hello h class))

unfoldable pub encode_hello : Hello → Result (List ℕ)
encode_hello h = encode_claim h Class.hello

unfoldable pub encode_conflict : Hello → Result (List ℕ)
encode_conflict h = encode_claim h Class.conflict

unfoldable pub read_hello : Common → List ℕ → Hello
read_hello common b = record {
  common = common;
  node_id = take node_id_size (drop 40 b);
  mesh_domain = take 32 (drop 73 b);
  collision_round = get32 (drop 105 b);
  capabilities = get32 (drop 109 b);
  expiry_seconds = get32 (drop 113 b);
  challenge = take 32 (drop 117 b);
  signature = take 64 (drop 149 b);
}

unfoldable pub decode_claim : List ℕ → ℕ → Result Hello
decode_claim b class = do
  common ← decode_common b
  reject
      (common.frame_class != class
        || common.header_length != hello_size
        || common.payload_length != 0
        || common.flags != Flag.broadcast
        || common.destination_native_locator != locator_broadcast)
      eproto
  reject (get_or (read_hello common b).node_id 0 0 != scheme_ed25519) eproto
  ok (read_hello common b)

unfoldable pub decode_hello : List ℕ → Result Hello
decode_hello b = decode_claim b Class.hello

unfoldable pub decode_conflict : List ℕ → Result Hello
decode_conflict b = decode_claim b Class.conflict
