-- ===== src/Radio/Status.antt =====
-- struct melodi_radio_status of src/proto/radio.h and its codec in src/proto/radio.c.
use melodi.Base.{
  ltb, ◌!=◌, reject, reject-ok, Result, length, get_or, drop, u8, ok, einval, eproto, ℕ, ◌^◌, ◌<◌,
  ◌≡◌, Bool, false, ◌||◌, List, ◌∷◌, ◌++◌, arith, [], ◌>>◌,
}
use melodi.Wire.Octets.{get16, get32, put16, put32, get16-put16, get32-put32}
use melodi.Radio.Kind
use melodi.Radio.Stream.{Stream, encode, deliveries}
use melodi.Radio.Stream.Payload.{IsIdle}
use melodi.Radio.Stream.Delivery.{deliveries-encode}

abbrev pub status_size : ℕ
status_size = 11

pub record Status : Type 0 where
  pub locator : ℕ
  pub queue_free : ℕ
  pub queue_depth : ℕ
  pub state : ℕ
  pub fault : ℕ
  pub modem_status : ℕ

unfoldable pub status_refused : Status → Bool
status_refused m = ltb 2 m.state || ltb 7 m.fault || ltb m.queue_depth m.queue_free

unfoldable pub status_malformed : Status → List ℕ → Bool
status_malformed m b = status_refused m

abbrev pub status_octets : Status → List ℕ
status_octets m =
    put32 m.locator
    ++ (put16 m.queue_free
        ++ (put16 m.queue_depth ++ (u8 m.state ∷ u8 m.fault ∷ u8 m.modem_status ∷ [])))

unfoldable pub encode_status : ℕ → Status → Result (List ℕ)
encode_status capacity m = do
  reject (status_refused m) einval
  encode capacity Kind.status (status_octets m)

unfoldable pub read_status : List ℕ → Status
read_status b = record {
  locator = get32 b;
  queue_free = get16 (drop 4 b);
  queue_depth = get16 (drop 6 b);
  state = get_or b 8 0;
  fault = get_or b 9 0;
  modem_status = get_or b 10 0;
}

unfoldable pub decode_status : List ℕ → Result Status
decode_status b = do
  reject (length b != status_size) einval
  reject (status_malformed (read_status b) b) eproto
  ok (read_status b)

-- The fields lie in their C types.
pub record IsStatus (m : Status) : Type 0 where
  pub locator : m.locator < 2 ^ 32
  pub queue_free : m.queue_free < 2 ^ 16
  pub queue_depth : m.queue_depth < 2 ^ 16
  pub state : m.state < 2 ^ 8
  pub fault : m.fault < 2 ^ 8
  pub modem_status : m.modem_status < 2 ^ 8

read_status-octets : (m : Status) → IsStatus m → read_status (status_octets m) ≡ m
unfolding read_status
read_status-octets m v = λ i. record {
  locator = get32-put32 m.locator (drop 4 (status_octets m)) v.locator i;
  queue_free = get16-put16 m.queue_free (drop 6 (status_octets m)) v.queue_free i;
  queue_depth = get16-put16 m.queue_depth (drop 8 (status_octets m)) v.queue_depth i;
  state = small m.state v.state i;
  fault = small m.fault v.fault i;
  modem_status = small m.modem_status v.modem_status i;
}
  where
    small : (x : ℕ) → x < 2 ^ 8 → u8 x ≡ x
    small x h = omega arith

decode_status-steps :
    (b : List ℕ) (m : Status)
    → read_status b ≡ m
    → (length b != status_size) ≡ false
    → status_malformed m b ≡ false
    → decode_status b ≡ ok m
unfolding decode_status
decode_status-steps b m read size good = rw (read) (ground arith)

-- A status report that `encode_status` accepts arrives as one frame, which is decoded to it.
pub decode_status-encode_status :
    (capacity : ℕ) (m : Status) (t : Stream) {b : List ℕ}
    → IsStatus m
    → IsIdle t
    → encode_status capacity m ≡ ok b
    → (payload : List ℕ) × (deliveries t b ≡ (Kind.status, payload) ∷ [])
      × (decode_status payload ≡ ok m)
unfolding encode_status status_malformed status_refused
decode_status-encode_status capacity m t v idle e =
    let (good, sent) = reject-ok (status_refused m) einval _ e in
    (
      status_octets m,
      deliveries-encode capacity Kind.status (status_octets m) t idle sent,
      decode_status-steps (status_octets m) m (read_status-octets m v) (ground arith) (good),
    )
