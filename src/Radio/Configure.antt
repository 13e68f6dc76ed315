-- ===== src/Radio/Configure.antt =====
-- struct melodi_radio_configure of src/proto/radio.h and its codec in src/proto/radio.c, with the two
-- requests that have no payload. A signed 16-bit field is kept as its word in two's complement.
use melodi.Base.{
  ltb, ◌==◌, ◌!=◌, reject, reject-ok, Result, length, get_or, take, drop, length-append,
  take-append, drop-append, u8, ok, einval, eproto, ℕ, ◌+◌, ◌^◌, ◌<◌, ◌≡◌, ap, ◌∙◌, Bool, false,
  ◌||◌, List, ◌∷◌, ◌++◌, arith, [], ◌>>◌,
}
use melodi.Wire.Octets.{get16, get32, put16, put32, get16-put16, get32-put32}
use melodi.Radio.Kind
use melodi.Radio.Stream.{Stream, encode, deliveries}
use melodi.Radio.Stream.Payload.{IsIdle}
use melodi.Radio.Stream.Delivery.{deliveries-encode}

pub record Configure : Type 0 where
  pub domain : List ℕ
  pub locator : ℕ
  pub frequency_hz : ℕ
  pub bandwidth_khz : ℕ
  pub spreading_factor : ℕ
  pub coding_rate : ℕ
  pub transmit_power_dbm : ℕ
  pub duty_permille : ℕ

unfoldable pub encode_identify : ℕ → Result (List ℕ)
encode_identify capacity = encode capacity Kind.identify []

unfoldable pub encode_reset : ℕ → Result (List ℕ)
encode_reset capacity = encode capacity Kind.reset []

abbrev pub configure_size : ℕ
configure_size = 48

-- The test that both directions make.
unfoldable pub configure_bad : Configure → Bool
configure_bad c =
    c.locator == 0
    || c.locator == 0xffff_ffff
    || c.frequency_hz == 0
    || c.bandwidth_khz == 0
    || ltb c.spreading_factor 6
    || ltb 12 c.spreading_factor
    || ltb c.coding_rate 5
    || ltb 8 c.coding_rate
    || c.duty_permille == 0
    || ltb 1000 c.duty_permille

abbrev pub configure_octets : Configure → List ℕ
configure_octets c =
    c.domain
    ++ (put32 c.locator
        ++ (put32 c.frequency_hz
            ++ (put16 c.bandwidth_khz
                ++ (u8 c.spreading_factor ∷ u8 c.coding_rate ∷ put16 c.transmit_power_dbm
                    ++ put16 c.duty_permille))))

unfoldable pub encode_configure : ℕ → Configure → Result (List ℕ)
encode_configure capacity c = do
  reject (configure_bad c) einval
  encode capacity Kind.configure (configure_octets c)

unfoldable pub read_configure : List ℕ → Configure
read_configure b = record {
  domain = take 32 b;
  locator = get32 (drop 32 b);
  frequency_hz = get32 (drop 36 b);
  bandwidth_khz = get16 (drop 40 b);
  spreading_factor = get_or (drop 42 b) 0 0;
  coding_rate = get_or (drop 43 b) 0 0;
  transmit_power_dbm = get16 (drop 44 b);
  duty_permille = get16 (drop 46 b);
}

unfoldable pub decode_configure : List ℕ → Result Configure
decode_configure b = do
  reject (length b != configure_size) einval
  reject (configure_bad (read_configure b)) eproto
  ok (read_configure b)

-- The fields lie in their C types.
pub record IsConfigure (c : Configure) : Type 0 where
  pub domain : length c.domain ≡ 32
  pub locator : c.locator < 2 ^ 32
  pub frequency_hz : c.frequency_hz < 2 ^ 32
  pub bandwidth_khz : c.bandwidth_khz < 2 ^ 16
  pub spreading_factor : c.spreading_factor < 2 ^ 8
  pub coding_rate : c.coding_rate < 2 ^ 8
  pub transmit_power_dbm : c.transmit_power_dbm < 2 ^ 16
  pub duty_permille : c.duty_permille < 2 ^ 16

module _ (c : Configure) (v : IsConfigure c) where
  abbrev after_domain : List ℕ
  after_domain =
      put32 c.locator
      ++ (put32 c.frequency_hz
          ++ (put16 c.bandwidth_khz
              ++ (u8 c.spreading_factor ∷ u8 c.coding_rate ∷ put16 c.transmit_power_dbm
                  ++ put16 c.duty_permille)))

  at : (k : ℕ) → drop (32 + k) (configure_octets c) ≡ drop k after_domain
  at k = drop-append 32 k c.domain after_domain v.domain

  read_configure-octets : read_configure (configure_octets c) ≡ c
  unfolding read_configure
  read_configure-octets = λ i. record {
    domain = take-append 32 c.domain after_domain v.domain i;
    locator = (ap get32 (at 0) ∙ get32-put32 c.locator (drop 4 after_domain) v.locator) i;
    frequency_hz =
        (ap get32 (at 4) ∙ get32-put32 c.frequency_hz (drop 8 after_domain) v.frequency_hz) i;
    bandwidth_khz =
        (ap get16 (at 8) ∙ get16-put16 c.bandwidth_khz (drop 10 after_domain) v.bandwidth_khz) i;
    spreading_factor =
        (ap (λ b. get_or b 0 0) (at 10) ∙ small c.spreading_factor v.spreading_factor) i;
    coding_rate = (ap (λ b. get_or b 0 0) (at 11) ∙ small c.coding_rate v.coding_rate) i;
    transmit_power_dbm =
        (ap get16 (at 12)
            ∙ get16-put16 c.transmit_power_dbm (drop 14 after_domain) v.transmit_power_dbm)
          i;
    duty_permille = (ap get16 (at 14) ∙ get16-put16 c.duty_permille [] v.duty_permille) i;
  }
    where
      small : (x : ℕ) → x < 2 ^ 8 → u8 x ≡ x
      small x h = omega arith

decode_configure-steps :
    (b : List ℕ) (c : Configure)
    → read_configure b ≡ c
    → length b ≡ configure_size
    → configure_bad c ≡ false
    → decode_configure b ≡ ok c
unfolding decode_configure
decode_configure-steps b c read size good = rw (read) (ground arith)

-- A configuration that `encode_configure` accepts arrives as one frame, which is decoded to it.
pub decode_configure-encode_configure :
    (capacity : ℕ) (c : Configure) (t : Stream) {b : List ℕ}
    → IsConfigure c
    → IsIdle t
    → encode_configure capacity c ≡ ok b
    → (payload : List ℕ) × (deliveries t b ≡ (Kind.configure, payload) ∷ [])
      × (decode_configure payload ≡ ok c)
unfolding encode_configure
decode_configure-encode_configure capacity c t v idle e =
    let (good, sent) = reject-ok (configure_bad c) einval _ e in
    (
      configure_octets c,
      deliveries-encode capacity Kind.configure (configure_octets c) t idle sent,
      decode_configure-steps (configure_octets c) c (read_configure-octets c v)
          (omega (arith, length-append c.domain (after_domain c v), v.domain)) good,
    )
