-- ===== src/Radio/Segment.antt =====
-- struct melodi_radio_segment of src/proto/radio.h and its codec in src/proto/radio.c. The payload and
-- its length are one list.
use melodi.Base.{
  ltb, leb, ◌==◌, reject, reject-ok, Result, length, drop, ok, einval, eproto, enospc, ℕ, ◌+◌, ◌-◌,
  ◌*◌, ◌^◌, ◌≤◌, ◌<◌, max, ◌≡◌, ap, ◌∙◌, Bool, false, ◌||◌, List, ◌++◌, arith, ◌>>◌,
}
use melodi.Wire.Octets.{get16, get32, put16, put32, get16-put16, get32-put32}

abbrev pub segment_size : ℕ
segment_size = 12

abbrev pub segment_limit : ℕ
segment_limit = 32

abbrev pub packet_max : ℕ
packet_max = 240

abbrev pub frame_max : ℕ
frame_max = (packet_max - segment_size) * segment_limit

pub record Segment : Type 0 where
  pub frame_id : ℕ
  pub total_length : ℕ
  pub index : ℕ
  pub count : ℕ
  pub payload : List ℕ

unfoldable pub segment_bad : Segment → Bool
segment_bad s =
    s.frame_id == 0
    || s.count == 0
    || ltb segment_limit s.count
    || leb s.count s.index
    || s.total_length == 0
    || ltb frame_max s.total_length

abbrev pub segment_octets : Segment → List ℕ
segment_octets s =
    put32 s.frame_id
    ++ (put16 s.total_length ++ (put16 s.index ++ (put16 s.count ++ (put16 0 ++ s.payload))))

unfoldable pub segment_encode : ℕ → Segment → Result (List ℕ)
segment_encode capacity s = do
  reject
      (segment_bad s || length s.payload == 0 || ltb (packet_max - segment_size) (length s.payload))
      einval
  reject (ltb capacity (segment_size + length s.payload)) enospc
  ok (segment_octets s)

unfoldable pub read_segment : List ℕ → Segment
read_segment b = record {
  frame_id = get32 b;
  total_length = get16 (drop 4 b);
  index = get16 (drop 6 b);
  count = get16 (drop 8 b);
  payload = drop segment_size b;
}

unfoldable pub segment_decode : List ℕ → Result Segment
segment_decode b = do
  reject (leb (length b) segment_size || ltb packet_max (length b)) einval
  reject (segment_bad (read_segment b)) eproto
  ok (read_segment b)

-- The fields lie in their C types.
pub record IsSegment (s : Segment) : Type 0 where
  pub frame_id : s.frame_id < 2 ^ 32
  pub total_length : s.total_length < 2 ^ 16
  pub index : s.index < 2 ^ 16
  pub count : s.count < 2 ^ 16

read_segment-octets : (s : Segment) → IsSegment s → read_segment (segment_octets s) ≡ s
unfolding read_segment
read_segment-octets s v = λ i. record {
  frame_id = get32-put32 s.frame_id (drop 4 (segment_octets s)) v.frame_id i;
  total_length = get16-put16 s.total_length (drop 6 (segment_octets s)) v.total_length i;
  index = get16-put16 s.index (drop 8 (segment_octets s)) v.index i;
  count = get16-put16 s.count (drop 10 (segment_octets s)) v.count i;
  payload = s.payload;
}

segment_decode-steps :
    (b : List ℕ) (s : Segment)
    → read_segment b ≡ s
    → segment_size < length b
    → length b ≤ packet_max
    → segment_bad s ≡ false
    → segment_decode b ≡ ok s
unfolding segment_decode
segment_decode-steps b s read more max good = rw (read) (ground arith)

-- A segment that `segment_encode` accepts fits a radio packet and the capacity, and is decoded to
-- itself.
pub segment_decode-segment_encode :
    (capacity : ℕ) (s : Segment) {b : List ℕ}
    → IsSegment s
    → segment_encode capacity s ≡ ok b
    → (length b ≤ packet_max) × (length b ≤ capacity) × (segment_decode b ≡ ok s)
unfolding segment_encode
segment_decode-segment_encode capacity s {b} v e =
    let (accepted, rest) =
      reject-ok
        (segment_bad s
          || length s.payload == 0
          || ltb (packet_max - segment_size) (length s.payload))
        einval _ e in
    let (room, same) =
      reject-ok (ltb capacity (segment_size + length s.payload)) enospc (ok (segment_octets s))
        rest in
    let bytes : b ≡ segment_octets s = cc same in
    let size : length b ≡ segment_size + length s.payload = ap length bytes ∙ omega arith in
    (
      ground (arith, size),
      ground (arith, size),
      ap segment_decode bytes
          ∙ segment_decode-steps (segment_octets s) s (read_segment-octets s v) (ground arith)
              (ground arith) (ground arith),
    )
