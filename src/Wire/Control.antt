-- ===== src/Wire/Control.antt =====
-- CONTROL frames of src/proto/wire.c: struct melodi_wire_control and its codec.
pub mod RoundTrip
use melodi.Base.{
  ◌!=◌, ◌>>=◌, ◌>>◌, reject, Result, get_or, take, drop, ok, einval, eproto, ℕ, Bool, not, ◌||◌,
  List, ◌∷◌, ◌++◌, arith,
}
use melodi.Wire.Class
use melodi.Wire.Flag
use melodi.Wire.Octets.{get16, get32, put16, put32}
use melodi.Wire.Common.{
  Common, stamp, is_unicast, encode_common, decode_common, locator_broadcast, scheme_ed25519,
}

abbrev pub control_size : ℕ
control_size = 209

-- The one `enum melodi_control_opcode`.
abbrev pub probe : ℕ
probe = 1

pub record Control : Type 0 where
  pub common : Common
  pub node_id : List ℕ
  pub mesh_domain : List ℕ
  pub collision_round : ℕ
  pub opcode : ℕ
  pub contents : List ℕ
  pub signature : List ℕ

abbrev pub stamp_control : Control → Control
stamp_control h = record h { common = stamp h.common Class.control control_size 0 }

abbrev pub control_common_bad : Common → Bool
control_common_bad c =
    c.flags != Flag.broadcast
    || not (is_unicast c.source_native_locator)
    || c.destination_native_locator != locator_broadcast

abbrev pub control_bad : Control → Bool
control_bad h = get_or h.node_id 0 0 != scheme_ed25519 || h.opcode != probe

abbrev pub control_bytes : Control → List ℕ
control_bytes h =
    encode_common h.common
    ++ (h.node_id
        ++ (h.mesh_domain
            ++ (put32 h.collision_round
                ++ (put16 h.opcode ++ 0 ∷ 0 ∷ (h.contents ++ h.signature)))))

unfoldable pub encode_control : Control → Result (List ℕ)
encode_control h = do
  reject (control_common_bad h.common || control_bad h) einval
  ok (control_bytes (stamp_control h))

unfoldable pub read_control : Common → List ℕ → Control
read_control common b = record {
  common = common;
  node_id = take 33 (drop 40 b);
  mesh_domain = take 32 (drop 73 b);
  collision_round = get32 (drop 105 b);
  opcode = get16 (drop 109 b);
  contents = take 32 (drop 113 b);
  signature = take 64 (drop 145 b);
}

unfoldable pub decode_control : List ℕ → Result Control
decode_control b = do
  common ← decode_common b
  reject
      (common.frame_class != Class.control
        || control_common_bad common
        || common.header_length != control_size
        || common.payload_length != 0
        || get_or b 111 0 != 0
        || get_or b 112 0 != 0)
      eproto
  reject (control_bad (read_control common b)) eproto
  ok (read_control common b)
