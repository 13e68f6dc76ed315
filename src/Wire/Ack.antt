-- ===== src/Wire/Ack.antt =====
-- Acknowledgements of src/proto/wire.c: struct melodi_wire_ack and its codec.
pub mod RoundTrip
use melodi.Base.{
  ltb, ◌==◌, ◌!=◌, if◌then◌else◌, ◌>>=◌, ◌>>◌, reject, Result, get_or, take, drop, u64_max, ◌<<<◌,
  inv64, has, ok, einval, eproto, ℕ, ◌-◌, Bool, not, ◌&&◌, ◌||◌, List, ◌∷◌, ◌++◌, arith,
}
use melodi.Wire.Class
use melodi.Wire.Flag
use melodi.Wire.Octets.{get16, get32, get64, put16, put32, put64}
use melodi.Wire.Common.{Common, stamp, is_unicast, encode_common, decode_common}

abbrev pub ack_size : ℕ
ack_size = 72

abbrev pub fragment_limit : ℕ
fragment_limit = 64

-- `enum melodi_ack_status`
abbrev pub complete : ℕ
complete = 1

abbrev pub rejected : ℕ
rejected = 2

pub record Ack : Type 0 where
  pub common : Common
  pub acknowledged_generation : ℕ
  pub fragment_count : ℕ
  pub status : ℕ
  pub bitmap : ℕ
  pub tag : List ℕ

abbrev pub stamp_ack : Ack → Ack
stamp_ack h = record h { common = stamp h.common Class.ack ack_size 0 }

-- The bitmap of all the fragments.
abbrev pub expected : ℕ → ℕ
expected fragment_count =
    if fragment_count == fragment_limit then u64_max else (1 <<< fragment_count) - 1

abbrev pub bitmap_bad : Ack → Bool
bitmap_bad h =
    has h.bitmap (inv64 (expected h.fragment_count))
    || h.status == complete && h.bitmap != expected h.fragment_count

abbrev pub common_bad : Common → Bool
common_bad c =
    not (is_unicast c.source_native_locator)
    || not (is_unicast c.destination_native_locator)
    || c.identity_generation == 0
    || c.message_id == 0
    || c.counter == 0

abbrev pub fields_bad : Ack → Bool
fields_bad h =
    h.acknowledged_generation == 0
    || h.fragment_count == 0
    || ltb fragment_limit h.fragment_count
    || ltb rejected h.status
    || h.bitmap == 0

abbrev pub ack_bytes : Ack → List ℕ
ack_bytes h =
    encode_common h.common
    ++ (put32 h.acknowledged_generation
        ++ (put16 h.fragment_count ++ h.status ∷ 0 ∷ put64 h.bitmap ++ h.tag))

unfoldable pub encode_ack : Ack → Result (List ℕ)
encode_ack h = do
  reject (h.common.flags != Flag.encrypted || common_bad h.common || fields_bad h) einval
  reject (bitmap_bad h) einval
  ok (ack_bytes (stamp_ack h))

unfoldable pub read_ack : Common → List ℕ → Ack
read_ack common b = record {
  common = common;
  acknowledged_generation = get32 (drop 40 b);
  fragment_count = get16 (drop 44 b);
  status = get_or b 46 0;
  bitmap = get64 (drop 48 b);
  tag = take 16 (drop 56 b);
}

abbrev pub ack_common_bad : Common → List ℕ → Bool
ack_common_bad c b =
    c.frame_class != Class.ack
    || c.flags != Flag.encrypted
    || c.header_length != ack_size
    || c.payload_length != 0
    || common_bad c
    || get_or b 47 0 != 0

unfoldable pub decode_ack : List ℕ → Result Ack
decode_ack b = do
  common ← decode_common b
  reject (ack_common_bad common b) eproto
  reject (fields_bad (read_ack common b)) eproto
  reject (bitmap_bad (read_ack common b)) eproto
  ok (read_ack common b)
