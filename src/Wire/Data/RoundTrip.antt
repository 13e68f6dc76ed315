-- ===== src/Wire/Data/RoundTrip.antt =====
-- Decoding an encoded data frame.
use melodi.Base.{
  ltb, reject-ok, >>=-ok, length, get_or, take, drop, replicate, length-append, get_or-drop,
  take-append, drop-append, has, ok, einval, ℕ, ◌+◌, ◌^◌, ◌≤◌, ◌<◌, ◌≡◌, refl, ap, ap₂, ◌∙◌, true,
  false, List, ◌++◌, arith,
}
use mathlib.Core.List.{append_assoc}
use melodi.Wire.Class
use melodi.Wire.Flag
use melodi.Wire.Octets.{get16-put16, get32-put32}
use melodi.Wire.Common.{
  Common, IsCommon, stamp, class_valid, decode_common, decode_common-encode_common,
}
use melodi.Wire.Data.{
  Data, data_size, tag_size, broadcast_overhead, stamp_data, data_refused, data_header,
  encode_data_header, encode_data, read_data, length_malformed, data_malformed, decode_data,
}

-- The fields lie in their C types.
pub record IsData (h : Data) : Type 0 where
  pub common : IsCommon h.common
  pub destination_service : h.destination_service < 2 ^ 16
  pub source_service : h.source_service < 2 ^ 16
  pub fragment_index : h.fragment_index < 2 ^ 16
  pub fragment_count : h.fragment_count < 2 ^ 16
  pub logical_length : h.logical_length < 2 ^ 32
  pub delivery_mode : h.delivery_mode < 2 ^ 8
  pub priority : h.priority < 2 ^ 8
  pub ordering_marker : h.ordering_marker < 2 ^ 32
  pub tag : length h.tag ≡ tag_size

module _ (h : Data) (rest : List ℕ) (v : IsData h) where
  abbrev frame : List ℕ
  frame = data_header h ++ rest

  abbrev suffix : List ℕ
  suffix = replicate 4 0 ++ rest

  at_tag : drop 60 frame ≡ h.tag ++ suffix
  at_tag = append_assoc h.tag (replicate 4 0) rest

  after_tag : (k : ℕ) → drop (16 + k) (drop 60 frame) ≡ drop k suffix
  after_tag k = ap (drop (16 + k)) at_tag ∙ drop-append 16 k h.tag suffix v.tag

  reserved_zero :
      (get_or frame 76 0 ≡ 0)
      × (get_or frame 77 0 ≡ 0)
      × (get_or frame 78 0 ≡ 0)
      × (get_or frame 79 0 ≡ 0)
  reserved_zero =
      let at : (k : ℕ) → get_or (drop 60 frame) (16 + k) 0 ≡ get_or suffix k 0 =
        λ k. get_or-drop 16 k (drop 60 frame) 0 ∙ ap (λ b. get_or b k 0) (after_tag 0) in
      (at 0, at 1, at 2, at 3)

  payload_follows : drop 80 frame ≡ rest
  payload_follows = after_tag 4

  read_data-data_header : read_data h.common frame ≡ h
  unfolding read_data
  read_data-data_header = λ i. record {
    common = h.common;
    destination_service = get16-put16 h.destination_service (drop 42 frame) v.destination_service i;
    source_service = get16-put16 h.source_service (drop 44 frame) v.source_service i;
    fragment_index = get16-put16 h.fragment_index (drop 46 frame) v.fragment_index i;
    fragment_count = get16-put16 h.fragment_count (drop 48 frame) v.fragment_count i;
    logical_length = get32-put32 h.logical_length (drop 52 frame) v.logical_length i;
    delivery_mode = h.delivery_mode;
    priority = h.priority;
    ordering_marker = get32-put32 h.ordering_marker (drop 60 frame) v.ordering_marker i;
    tag = (ap (take 16) at_tag ∙ take-append 16 h.tag suffix v.tag) i;
  }

length-data_header : (h : Data) → length h.tag ≡ tag_size → length (data_header h) ≡ data_size
length-data_header h e = omega (arith, length-append h.tag (replicate 4 0))

not_malformed :
    (h : Data) (capacity n : ℕ) (b : List ℕ)
    → data_refused capacity h n ≡ false
    → length_malformed h ≡ false
    → (get_or b 54 0 ≡ 0) × (get_or b 55 0 ≡ 0)
    → (get_or b 76 0 ≡ 0) × (get_or b 77 0 ≡ 0) × (get_or b 78 0 ≡ 0) × (get_or b 79 0 ≡ 0)
    → data_malformed h b ≡ false
not_malformed h capacity n b accepted sized inner outer = ground arith

decode_data-steps :
    (b : List ℕ) (c : Common)
    → decode_common b ≡ ok c
    → c.frame_class ≡ Class.message
    → c.header_length ≡ data_size
    → data_malformed (read_data c b) b ≡ false
    → decode_data b ≡ ok (read_data c b, drop data_size b)
unfolding decode_data
decode_data-steps b c common class header sound = ground arith

-- A frame that `decode_data` finds nothing wrong with.
pub decode_data-data_header :
    (h : Data) (payload : List ℕ) (capacity n : ℕ)
    → IsData h
    → h.common ≡ stamp h.common Class.message data_size (length payload)
    → data_refused capacity h n ≡ false
    → length_malformed h ≡ false
    → decode_data (data_header h ++ payload) ≡ ok (h, payload)
decode_data-data_header h payload capacity n v stamped accepted sized =
    decode_data-steps frame h.common common (ap Common.frame_class stamped)
      (ap Common.header_length stamped) sound
    ∙ ap₂ (λ d p. ok (d, p)) (read_data-data_header h payload v) (payload_follows h payload v)
  where
    frame : List ℕ
    frame = data_header h ++ payload

    common : decode_common frame ≡ ok h.common
    common =
        decode_common-encode_common h.common (drop 40 frame) v.common (ap Common.version stamped)
          (ap (λ c. class_valid c.frame_class) stamped) (ground arith)
          (omega (arith, ap Common.header_length stamped))
          (omega (
            arith,
            ap Common.header_length stamped,
            ap Common.payload_length stamped,
            length-append (h.tag ++ replicate 4 0) payload,
            length-append h.tag (replicate 4 0),
            v.tag,
          ))

    sound : data_malformed (read_data h.common frame) frame ≡ false
    sound =
        ap (λ d. data_malformed d frame) (read_data-data_header h payload v)
        ∙ not_malformed h capacity n frame accepted sized (refl, refl) (reserved_zero h payload v)

pub stamp_data-IsData : (h : Data) (n : ℕ) → IsData h → n < 2 ^ 16 → IsData (stamp_data h n)
stamp_data-IsData h n v fits = omega arith

-- What `encode_data` returned was not refused.
encode_data-ok :
    (capacity : ℕ) (h : Data) (payload : List ℕ) {b : List ℕ}
    → encode_data capacity h payload ≡ ok b
    → (length payload ≤ h.logical_length)
      × (data_refused capacity h (length payload) ≡ false)
      × (b ≡ data_header (stamp_data h (length payload)) ++ payload)
unfolding encode_data encode_data_header
encode_data-ok capacity h payload e =
    let fits = reject-ok (ltb h.logical_length (length payload)) einval _ e in
    let written =
      >>=-ok (encode_data_header capacity h (length payload)) (λ header. ok (header ++ payload))
        fits.1 in
    let accepted =
      reject-ok (data_refused capacity h (length payload)) einval
        (ok (data_header (stamp_data h (length payload)))) written.1 in
    (ground arith, accepted.0, cc (accepted.1, written.2))

-- A data frame that `encode_data` returns is decoded to the header that was sent, with the fields
-- that the encoder stamps, and to the payload. The broadcast flag is for the other encoder: with it
-- the payload has room for the rest of a signature.
pub decode_data-encode_data :
    (capacity : ℕ) (h : Data) (payload : List ℕ) {b : List ℕ}
    → IsData h
    → (has h.common.flags Flag.broadcast ≡ true → broadcast_overhead ≤ length payload)
    → encode_data capacity h payload ≡ ok b
    → decode_data b ≡ ok (stamp_data h (length payload), payload)
decode_data-encode_data capacity h payload v room e =
    let (fits, accepted, bytes) = encode_data-ok capacity h payload e in
    ap decode_data bytes
    ∙ decode_data-data_header (stamp_data h (length payload)) payload capacity (length payload)
        (stamp_data-IsData h (length payload) v (ground arith)) refl accepted (ground arith)
