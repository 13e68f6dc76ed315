-- ===== src/Radio/Report.antt =====
-- struct melodi_radio_result_report of src/proto/radio.h and its codec in src/proto/radio.c.
use melodi.Base.{
  ltb, ◌==◌, ◌!=◌, reject, reject-ok, Result, length, get_or, drop, u8, ok, einval, eproto, ℕ, ◌^◌,
  ◌<◌, ◌≡◌, Bool, false, ◌||◌, List, ◌∷◌, ◌++◌, arith, [], ◌>>◌,
}
use melodi.Wire.Octets.{get32, put32, get32-put32}
use melodi.Radio.Kind
use melodi.Radio.Stream.{Stream, encode, deliveries}
use melodi.Radio.Stream.Payload.{IsIdle}
use melodi.Radio.Stream.Delivery.{deliveries-encode}

abbrev pub result_size : ℕ
result_size = 10

pub record Report : Type 0 where
  pub cookie : ℕ
  pub duration_us : ℕ
  pub result : ℕ

unfoldable pub result_refused : Report → Bool
result_refused m = m.cookie == 0 || ltb 5 m.result

unfoldable pub result_malformed : Report → List ℕ → Bool
result_malformed m b = result_refused m

abbrev pub result_octets : Report → List ℕ
result_octets m = put32 m.cookie ++ (put32 m.duration_us ++ (u8 m.result ∷ 0 ∷ []))

unfoldable pub encode_result : ℕ → Report → Result (List ℕ)
encode_result capacity m = do
  reject (result_refused m) einval
  encode capacity Kind.result (result_octets m)

unfoldable pub read_result : List ℕ → Report
read_result b = record { cookie = get32 b; duration_us = get32 (drop 4 b); result = get_or b 8 0 }

unfoldable pub decode_result : List ℕ → Result Report
decode_result b = do
  reject (length b != result_size) einval
  reject (result_malformed (read_result b) b) eproto
  ok (read_result b)

-- The fields lie in their C types.
pub record IsReport (m : Report) : Type 0 where
  pub cookie : m.cookie < 2 ^ 32
  pub duration_us : m.duration_us < 2 ^ 32
  pub result : m.result < 2 ^ 8

read_result-octets : (m : Report) → IsReport m → read_result (result_octets m) ≡ m
unfolding read_result
read_result-octets m v = λ i. record {
  cookie = get32-put32 m.cookie (drop 4 (result_octets m)) v.cookie i;
  duration_us = get32-put32 m.duration_us (drop 8 (result_octets m)) v.duration_us i;
  result = small m.result v.result i;
}
  where
    small : (x : ℕ) → x < 2 ^ 8 → u8 x ≡ x
    small x h = omega arith

decode_result-steps :
    (b : List ℕ) (m : Report)
    → read_result b ≡ m
    → (length b != result_size) ≡ false
    → result_malformed m b ≡ false
    → decode_result b ≡ ok m
unfolding decode_result
decode_result-steps b m read size good = rw (read) (ground arith)

-- The result of a transmission that `encode_result` accepts arrives as one frame, which is decoded to
-- it.
pub decode_result-encode_result :
    (capacity : ℕ) (m : Report) (t : Stream) {b : List ℕ}
    → IsReport m
    → IsIdle t
    → encode_result capacity m ≡ ok b
    → (payload : List ℕ) × (deliveries t b ≡ (Kind.result, payload) ∷ [])
      × (decode_result payload ≡ ok m)
unfolding encode_result result_malformed result_refused
decode_result-encode_result capacity m t v idle e =
    let (good, sent) = reject-ok (result_refused m) einval _ e in
    (
      result_octets m,
      deliveries-encode capacity Kind.result (result_octets m) t idle sent,
      decode_result-steps (result_octets m) m (read_result-octets m v) (ground arith) (good),
    )
