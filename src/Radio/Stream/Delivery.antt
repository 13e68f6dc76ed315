-- ===== src/Radio/Stream/Delivery.antt =====
-- The receiver of src/proto/radio.c on what its encoder framed.
use melodi.Base.{
  ltb, ◌>>=◌, reject-ok, >>=-ok, Result, length, drop, length-drop, u16, ok, einval, enospc, ℕ, ◌+◌,
  ◌^◌, ◌≤◌, ◌<◌, max, ◌≡◌, refl, sym, ap, ◌∙◌, List, ◌∷◌, ◌++◌, arith, [],
}
use mathlib.Core.List.{append-nil}
use melodi.Wire.Octets.{put16, get16-put16}
use melodi.Radio.Stream.{
  Header, Stream, scan_magic0, read_header, Fed, waiting, received, payload_max, header_size,
  checksum, frame, encode, feed, feed_header, feed_magic1, finish_header, parse_header, collect,
  deliveries,
}
use melodi.Radio.Stream.Payload.{IsIdle, receiving, finished, payload-delivered}

-- The header of a frame that `encode` writes.
header_of : ℕ → List ℕ → Header
header_of kind payload = record {
  magic0 = 0x4d;
  magic1 = 0x4c;
  version = 2;
  kind = kind;
  length = length payload;
  checksum = checksum payload;
}

-- The six octets after the magic are in the buffer.
header_read : ℕ → Header → ℕ → ℕ → ℕ → List ℕ → Stream
header_read expected h kind n sum b = record {
  state = read_header;
  offset = 6;
  expected = expected;
  header = h;
  buffer = 2 ∷ kind ∷ put16 n ++ (put16 sum ++ drop 6 b);
}

header-collected :
    (offset expected kind n sum : ℕ) (h : Header) (b rest : List ℕ)
    → length b ≡ payload_max
    → deliveries
        (record {
          state = scan_magic0;
          offset = offset;
          expected = expected;
          header = h;
          buffer = b;
        })
        (0x4d ∷ 0x4c ∷ 2 ∷ kind ∷ put16 n ++ (put16 sum ++ rest))
      ≡ (let r = finish_header (header_read expected h kind n sum b) in
          collect r.1 (deliveries r.0 rest))
unfolding deliveries feed feed_magic1 feed_header header_read
header-collected offset expected kind n sum h (b₀ ∷ b₁ ∷ b₂ ∷ b₃ ∷ b₄ ∷ b₅ ∷ b) rest size = refl
header-collected offset expected kind n sum h [] rest size = absurd (omega arith)
header-collected offset expected kind n sum h (b₀ ∷ []) rest size = absurd (omega arith)
header-collected offset expected kind n sum h (b₀ ∷ b₁ ∷ []) rest size = absurd (omega arith)
header-collected offset expected kind n sum h (b₀ ∷ b₁ ∷ b₂ ∷ []) rest size = absurd (omega arith)
header-collected offset expected kind n sum h (b₀ ∷ b₁ ∷ b₂ ∷ b₃ ∷ []) rest size =
    absurd (omega arith)
header-collected offset expected kind n sum h (b₀ ∷ b₁ ∷ b₂ ∷ b₃ ∷ b₄ ∷ []) rest size =
    absurd (omega arith)

checksum-lt : (octets : List ℕ) → checksum octets < 2 ^ 16
unfolding checksum
checksum-lt octets = omega arith

module _ (s : Stream) (h : Header) (parsed : parse_header s.buffer ≡ h)
    (version : h.version ≡ 2) where
  finish-empty :
      h.length ≡ 0
      → h.checksum ≡ checksum []
      → finish_header s ≡ (finished h 0 s.buffer, received h s.buffer)
  unfolding finish_header finished
  finish-empty empty sum = rw (parsed) (ground arith)

  finish-payload :
      0 < h.length → h.length ≤ payload_max → finish_header s ≡ (receiving h 0 s.buffer, waiting)
  unfolding finish_header receiving
  finish-payload pos max = rw (parsed) (ground arith)

-- The buffer of `header_read` for a frame.
header_octets : ℕ → List ℕ → List ℕ → List ℕ
header_octets kind payload b =
    2 ∷ kind ∷ put16 (u16 (length payload)) ++ (put16 (checksum payload) ++ drop 6 b)

parse_header-octets :
    (kind : ℕ) (payload b : List ℕ)
    → length payload ≤ payload_max
    → parse_header (header_octets kind payload b) ≡ header_of kind payload
unfolding header_octets header_of
parse_header-octets kind payload b max = λ i. record {
  magic0 = 0x4d;
  magic1 = 0x4c;
  version = 2;
  kind = kind;
  length =
      (get16-put16 (u16 (length payload)) (put16 (checksum payload) ++ drop 6 b) (omega arith)
          ∙ u16-fits)
        i;
  checksum = get16-put16 (checksum payload) (drop 6 b) (checksum-lt payload) i;
}
  where
    u16-fits : u16 (length payload) ≡ length payload
    u16-fits = omega arith

frame-delivered-at :
    (offset expected kind : ℕ) (h : Header) (b payload rest : List ℕ)
    → length b ≡ payload_max
    → length payload ≤ payload_max
    → (s : Stream) × IsIdle s
      × ((let r =
              finish_header
                (header_read expected h kind (u16 (length payload)) (checksum payload) b) in
            collect r.1 (deliveries r.0 (payload ++ rest)))
          ≡ (kind, payload) ∷ deliveries s rest)
unfolding header_read header_octets header_of finished
frame-delivered-at offset expected kind h b [] rest size max =
    let t = header_read expected h kind 0 (checksum []) b in
    let s = finished (header_of kind []) 0 (header_octets kind [] b) in
    (
      s,
      record { state = refl; buffer = omega (arith, length-drop 6 b) },
      ap (λ (r : Stream × Fed). collect r.1 (deliveries r.0 rest))
          (finish-empty t (header_of kind []) (parse_header-octets kind [] b max) refl refl refl),
    )
frame-delivered-at offset expected kind h b (x ∷ xs) rest size max =
    let payload = x ∷ xs in
    let t = header_read expected h kind (u16 (length payload)) (checksum payload) b in
    let (s, idle, delivered) =
      payload-delivered (header_of kind payload) 0 (header_octets kind payload b) payload rest
        (omega arith) (omega arith) (omega (arith, length-drop 6 b)) max refl in
    (
      s,
      idle,
      ap (λ (r : Stream × Fed). collect r.1 (deliveries r.0 (payload ++ rest)))
            (finish-payload t (header_of kind payload) (parse_header-octets kind payload b max) refl
              (omega arith) max)
          ∙ delivered,
    )

-- One frame, then the rest.
frame-delivered :
    (t : Stream) (kind : ℕ) (payload rest : List ℕ)
    → IsIdle t
    → length payload ≤ payload_max
    → (s : Stream) × IsIdle s
      × (deliveries t (frame kind payload ++ rest) ≡ (kind, payload) ∷ deliveries s rest)
frame-delivered t kind payload rest idle max =
    let (s, idle', delivered) =
      frame-delivered-at t.offset t.expected kind t.header t.buffer payload rest idle.buffer max in
    let scanning : t ≡ record {
      state = scan_magic0;
      offset = t.offset;
      expected = t.expected;
      header = t.header;
      buffer = t.buffer;
    } =
      λ i. record {
        state = idle.state i;
        offset = t.offset;
        expected = t.expected;
        header = t.header;
        buffer = t.buffer;
      } in
    (
      s,
      idle',
      ap (λ u. deliveries u (frame kind payload ++ rest)) scanning
          ∙ header-collected t.offset t.expected kind (u16 (length payload)) (checksum payload)
              t.header t.buffer (payload ++ rest) idle.buffer
          ∙ delivered,
    )

-- The frames of several messages, one after the other.
unfoldable pub encode_all : ℕ → List (ℕ × List ℕ) → Result (List ℕ)
encode_all capacity [] = ok []
encode_all capacity ((kind, payload) ∷ messages) = do
  sent ← encode capacity kind payload
  rest ← encode_all capacity messages
  ok (sent ++ rest)

encode-ok :
    (capacity kind : ℕ) (payload : List ℕ) {b : List ℕ}
    → encode capacity kind payload ≡ ok b
    → (length payload ≤ payload_max) × (b ≡ frame kind payload)
unfolding encode
encode-ok capacity kind payload e =
    let (fits, sent) = reject-ok (ltb payload_max (length payload)) einval _ e in
    let (room, same) =
      reject-ok (ltb capacity (header_size + length payload)) enospc (ok (frame kind payload))
        sent in
    (ground arith, cc same)

-- A receiver that is between two frames delivers exactly the messages that were encoded, in their
-- order, whatever its buffer held.
pub deliveries-encode_all :
    (capacity : ℕ) (messages : List (ℕ × List ℕ)) (t : Stream) {b : List ℕ}
    → IsIdle t
    → encode_all capacity messages ≡ ok b
    → deliveries t b ≡ messages
unfolding encode_all deliveries
deliveries-encode_all capacity [] t {b} idle e = ap (deliveries t) {x = b} {y = []} (cc e)
deliveries-encode_all capacity ((kind, payload) ∷ messages) t {b} idle e =
    let (sent, first, others) = >>=-ok (encode capacity kind payload) _ e in
    let (rest, encoded, whole) = >>=-ok (encode_all capacity messages) _ others in
    let (max, same) = encode-ok capacity kind payload first in
    let (s, idle', delivered) = frame-delivered t kind payload rest idle max in
    ap (deliveries t) {x = b} {y = frame kind payload ++ rest} (cc (whole, same))
    ∙ delivered
    ∙ ap (λ l. (kind, payload) ∷ l) (deliveries-encode_all capacity messages s idle' encoded)

-- A single frame.
pub deliveries-encode :
    (capacity kind : ℕ) (payload : List ℕ) (t : Stream) {b : List ℕ}
    → IsIdle t
    → encode capacity kind payload ≡ ok b
    → deliveries t b ≡ (kind, payload) ∷ []
unfolding deliveries
deliveries-encode capacity kind payload t {b} idle e =
    let (max, same) = encode-ok capacity kind payload e in
    let (s, idle', delivered) = frame-delivered t kind payload [] idle max in
    ap (deliveries t) (same ∙ sym (append-nil (frame kind payload))) ∙ delivered
