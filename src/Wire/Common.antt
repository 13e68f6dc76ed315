-- ===== src/Wire/Common.antt =====
-- The header that all frames of src/proto/wire.c share: struct melodi_wire_common, its encoder and
-- its decoder. An encoder returns the bytes that it writes; a decoder returns what it leaves in the
-- header if it returns 0. NULL pointers have no counterpart.
use melodi.Base.{
  ltb, leb, ◌!=◌, reject, Result, length, get_or, drop, replicate, inv16, has, ok, eproto, emsgsize,
  ℕ, ◌+◌, ◌-◌, ◌^◌, ◌≤◌, ◌<◌, ◌≡◌, Bool, true, false, not, ◌&&◌, ◌||◌, List, ◌∷◌, ◌++◌, arith, ◌>>◌,
}
use melodi.Wire.Class
use melodi.Wire.Flag
use melodi.Wire.Octets.{
  get16, get32, get64, put16, put32, put64, get16-put16, get32-put32, get64-put64,
}

abbrev pub wire_version : ℕ
wire_version = 1

abbrev pub common_size : ℕ
common_size = 40

abbrev pub priority_max : ℕ
priority_max = 3

abbrev pub locator_invalid : ℕ
locator_invalid = 0

abbrev pub locator_broadcast : ℕ
locator_broadcast = 0xffff_ffff

abbrev pub scheme_ed25519 : ℕ
scheme_ed25519 = 1

pub record Common : Type 0 where
  pub version : ℕ
  pub frame_class : ℕ
  pub flags : ℕ
  pub header_length : ℕ
  pub payload_length : ℕ
  pub source_native_locator : ℕ
  pub destination_native_locator : ℕ
  pub identity_generation : ℕ
  pub message_id : ℕ
  pub counter : ℕ

-- The fields lie in their C types.
pub record IsCommon (h : Common) : Type 0 where
  pub version : h.version < 2 ^ 8
  pub frame_class : h.frame_class < 2 ^ 8
  pub flags : h.flags < 2 ^ 16
  pub header_length : h.header_length < 2 ^ 16
  pub payload_length : h.payload_length < 2 ^ 16
  pub source : h.source_native_locator < 2 ^ 32
  pub destination : h.destination_native_locator < 2 ^ 32
  pub generation : h.identity_generation < 2 ^ 32
  pub message_id : h.message_id < 2 ^ 64
  pub counter : h.counter < 2 ^ 64

-- What each encoder writes over its copy of the header.
abbrev pub stamp : Common → ℕ → ℕ → ℕ → Common
stamp h class header payload = record h {
  version = wire_version;
  frame_class = class;
  header_length = header;
  payload_length = payload;
}

abbrev pub class_valid : ℕ → Bool
class_valid class = leb Class.hello class && leb class Class.control

abbrev pub is_unicast : ℕ → Bool
is_unicast locator = locator != locator_invalid && locator != locator_broadcast

abbrev pub encode_common : Common → List ℕ
encode_common h =
    h.version ∷ h.frame_class ∷ put16 h.flags
    ++ put16 h.header_length
    ++ put16 h.payload_length
    ++ put32 h.source_native_locator
    ++ put32 h.destination_native_locator
    ++ put32 h.identity_generation
    ++ put64 h.message_id
    ++ put64 h.counter
    ++ replicate 4 0

-- The fields as `melodi_wire_decode_common` reads them.
unfoldable pub read_common : List ℕ → Common
read_common b = record {
  version = get_or b 0 0;
  frame_class = get_or b 1 0;
  flags = get16 (drop 2 b);
  header_length = get16 (drop 4 b);
  payload_length = get16 (drop 6 b);
  source_native_locator = get32 (drop 8 b);
  destination_native_locator = get32 (drop 12 b);
  identity_generation = get32 (drop 16 b);
  message_id = get64 (drop 20 b);
  counter = get64 (drop 28 b);
}

abbrev pub common_malformed : Common → List ℕ → Bool
common_malformed h b =
    h.version != wire_version
    || not (class_valid h.frame_class)
    || has h.flags (inv16 Flag.every)
    || ltb h.header_length common_size
    || ltb (length b) h.header_length
    || h.payload_length != length b - h.header_length
    || get_or b 36 0 != 0
    || get_or b 37 0 != 0
    || get_or b 38 0 != 0
    || get_or b 39 0 != 0

unfoldable pub decode_common : List ℕ → Result Common
decode_common b = do
  reject (ltb (length b) common_size) emsgsize
  reject (common_malformed (read_common b) b) eproto
  ok (read_common b)

-- Reading finds what was written, whatever follows the header.
pub read_common-encode_common :
    (h : Common) (rest : List ℕ) → IsCommon h → read_common (encode_common h ++ rest) ≡ h
unfolding read_common
read_common-encode_common h rest v =
    let b = encode_common h ++ rest in
    λ i. record {
      version = h.version;
      frame_class = h.frame_class;
      flags = get16-put16 h.flags (drop 4 b) v.flags i;
      header_length = get16-put16 h.header_length (drop 6 b) v.header_length i;
      payload_length = get16-put16 h.payload_length (drop 8 b) v.payload_length i;
      source_native_locator = get32-put32 h.source_native_locator (drop 12 b) v.source i;
      destination_native_locator =
          get32-put32 h.destination_native_locator (drop 16 b) v.destination i;
      identity_generation = get32-put32 h.identity_generation (drop 20 b) v.generation i;
      message_id = get64-put64 h.message_id (drop 28 b) v.message_id i;
      counter = get64-put64 h.counter (drop 36 b) v.counter i;
    }

-- The frame with a header that an encoder stamped is accepted, and the header comes back.
pub decode_common-encode_common :
    (h : Common) (rest : List ℕ)
    → IsCommon h
    → h.version ≡ wire_version
    → class_valid h.frame_class ≡ true
    → has h.flags (inv16 Flag.every) ≡ false
    → 40 ≤ h.header_length
    → h.header_length + h.payload_length ≡ 40 + length rest
    → decode_common (encode_common h ++ rest) ≡ ok h
unfolding decode_common
decode_common-encode_common h rest v version class flags header total =
    ground (arith, read_common-encode_common h rest v)
