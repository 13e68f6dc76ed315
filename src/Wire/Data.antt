-- ===== src/Wire/Data.antt =====
-- Data frames of src/proto/wire.c: struct melodi_wire_data, and the codecs of unicast and of signed
-- broadcast data. A payload and a signature are the lists of their bytes.
pub mod RoundTrip
pub mod Broadcast
use melodi.Base.{
  ltb, leb, ◌==◌, ◌!=◌, if◌then◌else◌, ◌>>=◌, ◌>>◌, reject, Result, length, get_or, take, drop,
  replicate, u16_max, inv16, has, ok, einval, eproto, ℕ, ◌+◌, ◌-◌, bit_and, Bool, ◌||◌, List, ◌∷◌,
  ◌++◌, arith,
}
use melodi.Wire.Class
use melodi.Wire.Flag
use melodi.Wire.Octets.{get16, get32, put16, put32}
use melodi.Wire.Common.{
  Common, stamp, encode_common, decode_common, common_size, priority_max, locator_broadcast,
}

abbrev pub data_size : ℕ
data_size = 80

abbrev pub tag_size : ℕ
tag_size = 16

-- The part of a broadcast's signature that does not fit the tag.
abbrev pub broadcast_overhead : ℕ
broadcast_overhead = 48

-- `enum melodi_delivery_mode`
abbrev pub unreliable : ℕ
unreliable = 0

abbrev pub reliable_ordered : ℕ
reliable_ordered = 2

pub record Data : Type 0 where
  pub common : Common
  pub destination_service : ℕ
  pub source_service : ℕ
  pub fragment_index : ℕ
  pub fragment_count : ℕ
  pub logical_length : ℕ
  pub delivery_mode : ℕ
  pub priority : ℕ
  pub ordering_marker : ℕ
  pub tag : List ℕ

-- The header that an encoder sends: its copy of the caller's, stamped.
abbrev pub stamp_data : Data → ℕ → Data
stamp_data h payload = record h { common = stamp h.common Class.message data_size payload }

abbrev pub data_refused : ℕ → Data → ℕ → Bool
data_refused capacity h payload =
    ltb u16_max payload
    || ltb capacity (data_size + payload)
    || h.fragment_count == 0
    || leb h.fragment_count h.fragment_index
    || ltb reliable_ordered h.delivery_mode
    || ltb priority_max h.priority
    || has h.common.flags (inv16 Flag.every)

abbrev pub data_header : Data → List ℕ
data_header h =
    encode_common h.common
    ++ put16 h.destination_service
    ++ put16 h.source_service
    ++ put16 h.fragment_index
    ++ put16 h.fragment_count
    ++ put32 h.logical_length
    ++ h.delivery_mode ∷ h.priority ∷ 0 ∷ 0 ∷ put32 h.ordering_marker
    ++ h.tag
    ++ replicate 4 0

unfoldable pub encode_data_header : ℕ → Data → ℕ → Result (List ℕ)
encode_data_header capacity h payload = do
  reject (data_refused capacity h payload) einval
  ok (data_header (stamp_data h payload))

unfoldable pub encode_data : ℕ → Data → List ℕ → Result (List ℕ)
encode_data capacity h payload = do
  reject (ltb h.logical_length (length payload)) einval
  header ← encode_data_header capacity h (length payload)
  ok (header ++ payload)

abbrev pub not_broadcast : Data → Bool
not_broadcast h =
    h.common.destination_native_locator != locator_broadcast
    || bit_and h.common.flags (inv16 Flag.final) != Flag.broadcast
    || h.delivery_mode != unreliable
    || h.ordering_marker != 0

unfoldable pub encode_broadcast_data : ℕ → Data → List ℕ → List ℕ → Result (List ℕ)
encode_broadcast_data capacity h signature payload = do
  reject (ltb h.logical_length (length payload) || not_broadcast h) einval
  header ←
      encode_data_header capacity (record h { tag = take tag_size signature })
        (broadcast_overhead + length payload)
  ok (header ++ drop tag_size signature ++ payload)

unfoldable pub read_data : Common → List ℕ → Data
read_data common b = record {
  common = common;
  destination_service = get16 (drop 40 b);
  source_service = get16 (drop 42 b);
  fragment_index = get16 (drop 44 b);
  fragment_count = get16 (drop 46 b);
  logical_length = get32 (drop 48 b);
  delivery_mode = get_or b 52 0;
  priority = get_or b 53 0;
  ordering_marker = get32 (drop 56 b);
  tag = take tag_size (drop 60 b);
}

abbrev pub length_malformed : Data → Bool
length_malformed h =
    if has h.common.flags Flag.broadcast
    then ltb h.common.payload_length broadcast_overhead
      || ltb h.logical_length (h.common.payload_length - broadcast_overhead)
    else ltb h.logical_length h.common.payload_length

abbrev pub data_malformed : Data → List ℕ → Bool
data_malformed h b =
    h.fragment_count == 0
    || leb h.fragment_count h.fragment_index
    || length_malformed h
    || ltb reliable_ordered h.delivery_mode
    || ltb priority_max h.priority
    || get_or b 54 0 != 0
    || get_or b 55 0 != 0
    || get_or b 76 0 != 0
    || get_or b 77 0 != 0
    || get_or b 78 0 != 0
    || get_or b 79 0 != 0

unfoldable pub decode_data : List ℕ → Result (Data × List ℕ)
decode_data b = do
  common ← decode_common b
  reject (common.frame_class != Class.message || common.header_length != data_size) eproto
  reject (data_malformed (read_data common b) b) eproto
  ok (read_data common b, drop data_size b)

unfoldable pub decode_broadcast_data : List ℕ → Result (Data × List ℕ × List ℕ)
decode_broadcast_data b = do
  (h, physical) ← decode_data b
  reject (not_broadcast h || ltb h.common.payload_length broadcast_overhead) eproto
  ok (h, h.tag ++ take broadcast_overhead physical, drop broadcast_overhead physical)
