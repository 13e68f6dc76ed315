-- ===== src/Radio/Receive.antt =====
-- struct melodi_radio_receive of src/proto/radio.h and its codec in src/proto/radio.c. The payload and its
-- length are one list; a signed 16-bit field is kept as its word in two's complement.
use melodi.Base.{
  ltb, ◌==◌, ◌!=◌, reject, reject-ok, Result, length, get_or, drop, u8, u16, ok, einval, eproto, ℕ,
  ◌+◌, ◌^◌, ◌<◌, ◌≡◌, Bool, false, ◌||◌, List, ◌∷◌, ◌++◌, arith, [], ◌>>◌,
}
use melodi.Wire.Octets.{get16, get32, put16, put32, get16-put16, get32-put32}
use melodi.Radio.Kind
use melodi.Radio.Stream.{Stream, encode, deliveries}
use melodi.Radio.Stream.Payload.{IsIdle}
use melodi.Radio.Stream.Delivery.{deliveries-encode}

abbrev pub receive_size : ℕ
receive_size = 16

abbrev pub packet_max : ℕ
packet_max = 240

pub record Receive : Type 0 where
  pub source : ℕ
  pub destination : ℕ
  pub rssi : ℕ
  pub snr : ℕ
  pub hops : ℕ
  pub payload : List ℕ

unfoldable pub receive_refused : Receive → Bool
receive_refused m =
    m.source == 0
    || m.destination == 0
    || length m.payload == 0
    || ltb packet_max (length m.payload)

-- The test of the decoder, by the length that the frame states.
unfoldable pub receive_malformed : Receive → List ℕ → Bool
receive_malformed m b =
    let payload_length = get16 (drop 14 b) in
    m.source == 0
    || m.destination == 0
    || payload_length == 0
    || ltb packet_max payload_length
    || length b != receive_size + payload_length

abbrev pub receive_octets : Receive → List ℕ
receive_octets m =
    put32 m.source
    ++ (put32 m.destination
        ++ (put16 m.rssi
            ++ (put16 m.snr ++ (u8 m.hops ∷ 0 ∷ put16 (u16 (length m.payload)) ++ m.payload))))

unfoldable pub encode_receive : ℕ → Receive → Result (List ℕ)
encode_receive capacity m = do
  reject (receive_refused m) einval
  encode capacity Kind.receive (receive_octets m)

unfoldable pub read_receive : List ℕ → Receive
read_receive b = record {
  source = get32 b;
  destination = get32 (drop 4 b);
  rssi = get16 (drop 8 b);
  snr = get16 (drop 10 b);
  hops = get_or b 12 0;
  payload = drop receive_size b;
}

unfoldable pub decode_receive : List ℕ → Result Receive
decode_receive b = do
  reject (ltb (length b) receive_size) einval
  reject (receive_malformed (read_receive b) b) eproto
  ok (read_receive b)

-- The fields lie in their C types.
pub record IsReceive (m : Receive) : Type 0 where
  pub source : m.source < 2 ^ 32
  pub destination : m.destination < 2 ^ 32
  pub rssi : m.rssi < 2 ^ 16
  pub snr : m.snr < 2 ^ 16
  pub hops : m.hops < 2 ^ 8

read_receive-octets : (m : Receive) → IsReceive m → read_receive (receive_octets m) ≡ m
unfolding read_receive
read_receive-octets m v = λ i. record {
  source = get32-put32 m.source (drop 4 (receive_octets m)) v.source i;
  destination = get32-put32 m.destination (drop 8 (receive_octets m)) v.destination i;
  rssi = get16-put16 m.rssi (drop 10 (receive_octets m)) v.rssi i;
  snr = get16-put16 m.snr (drop 12 (receive_octets m)) v.snr i;
  hops = small m.hops v.hops i;
  payload = m.payload;
}
  where
    small : (x : ℕ) → x < 2 ^ 8 → u8 x ≡ x
    small x h = omega arith

decode_receive-steps :
    (b : List ℕ) (m : Receive)
    → read_receive b ≡ m
    → (ltb (length b) receive_size) ≡ false
    → receive_malformed m b ≡ false
    → decode_receive b ≡ ok m
unfolding decode_receive
decode_receive-steps b m read size good = rw (read) (ground arith)

-- A received packet that `encode_receive` accepts arrives as one frame, which is decoded to it.
pub decode_receive-encode_receive :
    (capacity : ℕ) (m : Receive) (t : Stream) {b : List ℕ}
    → IsReceive m
    → IsIdle t
    → encode_receive capacity m ≡ ok b
    → (payload : List ℕ) × (deliveries t b ≡ (Kind.receive, payload) ∷ [])
      × (decode_receive payload ≡ ok m)
unfolding encode_receive receive_malformed receive_refused
decode_receive-encode_receive capacity m t v idle e =
    let (good, sent) = reject-ok (receive_refused m) einval _ e in
    (
      receive_octets m,
      deliveries-encode capacity Kind.receive (receive_octets m) t idle sent,
      decode_receive-steps (receive_octets m) m (read_receive-octets m v) (ground arith)
          (ground (arith, get16-put16 (u16 (length m.payload)) m.payload (omega arith))),
    )
