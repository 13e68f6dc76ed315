-- ===== src/Radio/Transmit.antt =====
-- struct melodi_radio_transmit of src/proto/radio.h and its codec in src/proto/radio.c. The payload and its
-- length are one list.
use melodi.Base.{
  ltb, ◌==◌, ◌!=◌, reject, reject-ok, Result, length, drop, u16, ok, einval, eproto, ℕ, ◌+◌, ◌^◌,
  ◌<◌, ◌≡◌, Bool, false, ◌||◌, List, ◌∷◌, ◌++◌, arith, [], ◌>>◌,
}
use melodi.Wire.Octets.{get16, get32, put16, put32, get16-put16, get32-put32}
use melodi.Radio.Kind
use melodi.Radio.Stream.{Stream, encode, deliveries}
use melodi.Radio.Stream.Payload.{IsIdle}
use melodi.Radio.Stream.Delivery.{deliveries-encode}

abbrev pub transmit_size : ℕ
transmit_size = 10

abbrev pub packet_max : ℕ
packet_max = 240

pub record Transmit : Type 0 where
  pub cookie : ℕ
  pub destination : ℕ
  pub payload : List ℕ

unfoldable pub transmit_refused : Transmit → Bool
transmit_refused m =
    m.cookie == 0
    || m.destination == 0
    || length m.payload == 0
    || ltb packet_max (length m.payload)

-- The test of the decoder, by the length that the frame states.
unfoldable pub transmit_malformed : Transmit → List ℕ → Bool
transmit_malformed m b =
    let payload_length = get16 (drop 8 b) in
    m.cookie == 0
    || m.destination == 0
    || payload_length == 0
    || ltb packet_max payload_length
    || length b != transmit_size + payload_length

abbrev pub transmit_octets : Transmit → List ℕ
transmit_octets m =
    put32 m.cookie ++ (put32 m.destination ++ (put16 (u16 (length m.payload)) ++ m.payload))

unfoldable pub encode_transmit : ℕ → Transmit → Result (List ℕ)
encode_transmit capacity m = do
  reject (transmit_refused m) einval
  encode capacity Kind.transmit (transmit_octets m)

unfoldable pub read_transmit : List ℕ → Transmit
read_transmit b = record {
  cookie = get32 b;
  destination = get32 (drop 4 b);
  payload = drop transmit_size b;
}

unfoldable pub decode_transmit : List ℕ → Result Transmit
decode_transmit b = do
  reject (ltb (length b) transmit_size) einval
  reject (transmit_malformed (read_transmit b) b) eproto
  ok (read_transmit b)

-- The fields lie in their C types.
pub record IsTransmit (m : Transmit) : Type 0 where
  pub cookie : m.cookie < 2 ^ 32
  pub destination : m.destination < 2 ^ 32

read_transmit-octets : (m : Transmit) → IsTransmit m → read_transmit (transmit_octets m) ≡ m
unfolding read_transmit
read_transmit-octets m v = λ i. record {
  cookie = get32-put32 m.cookie (drop 4 (transmit_octets m)) v.cookie i;
  destination = get32-put32 m.destination (drop 8 (transmit_octets m)) v.destination i;
  payload = m.payload;
}

decode_transmit-steps :
    (b : List ℕ) (m : Transmit)
    → read_transmit b ≡ m
    → (ltb (length b) transmit_size) ≡ false
    → transmit_malformed m b ≡ false
    → decode_transmit b ≡ ok m
unfolding decode_transmit
decode_transmit-steps b m read size good = rw (read) (ground arith)

-- A request to transmit that `encode_transmit` accepts arrives as one frame, which is decoded to it.
pub decode_transmit-encode_transmit :
    (capacity : ℕ) (m : Transmit) (t : Stream) {b : List ℕ}
    → IsTransmit m
    → IsIdle t
    → encode_transmit capacity m ≡ ok b
    → (payload : List ℕ) × (deliveries t b ≡ (Kind.transmit, payload) ∷ [])
      × (decode_transmit payload ≡ ok m)
unfolding encode_transmit transmit_malformed transmit_refused
decode_transmit-encode_transmit capacity m t v idle e =
    let (good, sent) = reject-ok (transmit_refused m) einval _ e in
    (
      transmit_octets m,
      deliveries-encode capacity Kind.transmit (transmit_octets m) t idle sent,
      decode_transmit-steps (transmit_octets m) m (read_transmit-octets m v) (ground arith)
          (ground (arith, get16-put16 (u16 (length m.payload)) m.payload (omega arith))),
    )
