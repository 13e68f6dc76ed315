-- ===== src/Radio/Info.antt =====
-- struct melodi_radio_info of src/proto/radio.h and its codec in src/proto/radio.c. A text is the array
-- of 32 characters that holds it, with zeros from its end on.
use melodi.Base.{
  ltb, ◌==◌, ◌!=◌, if◌then◌else◌, ◌>>=◌, ◌>>◌, reject, reject-ok, Result, length, get_or, drop,
  replicate, All, length-append, length-replicate, ok, err, einval, eproto, ℕ, zero, suc, ◌-◌, ◌^◌,
  ◌≤◌, ◌<◌, ◌≡◌, refl, sym, ap, ap₂, ◌∙◌, Bool, false, ◌||◌, List, ◌∷◌, ◌++◌, arith, [],
}
use mathlib.Core.List.{append-nil}
use melodi.Wire.Octets.{get16, get32, put16, put32, get16-put16, get32-put32}
use melodi.Wire.Fields.{skip}
use melodi.Radio.Kind
use melodi.Radio.Stream.{Stream, encode, deliveries}
use melodi.Radio.Stream.Payload.{IsIdle}
use melodi.Radio.Stream.Delivery.{deliveries-encode}

-- The loop of melodi_radio_put_text.
unfoldable pub copy_text : ℕ → List ℕ → List ℕ
copy_text zero text = []
copy_text (suc room) [] = []
copy_text (suc room) (c ∷ text) = let rest = copy_text room text in if c == 0 then [] else c ∷ rest

-- An array of `capacity` octets that was cleared before.
abbrev pub cleared : ℕ → List ℕ → List ℕ
cleared capacity text = text ++ replicate (capacity - length text) 0

abbrev pub put_text : ℕ → List ℕ → List ℕ
put_text capacity text = cleared capacity (copy_text (capacity - 1) text)

-- The loop of melodi_radio_get_text.
unfoldable pub read_text : ℕ → List ℕ → Result (List ℕ)
read_text zero input = ok []
read_text (suc room) input =
    let c = get_or input 0 0 in
    let rest = read_text room (drop 1 input) in
    if c == 0
    then ok []
    else if ltb c 0x20 || ltb 0x7e c
    then err eproto
    else rest >>= (λ text. ok (c ∷ text))

abbrev pub get_text : ℕ → List ℕ → Result (List ℕ)
get_text capacity input = read_text (capacity - 1) input >>= (λ text. ok (cleared capacity text))

pub record Info : Type 0 where
  pub firmware : List ℕ
  pub hardware : List ℕ
  pub abi_version : ℕ
  pub packet_mtu : ℕ
  pub queue_depth : ℕ

abbrev pub info_size : ℕ
info_size = 72

unfoldable pub info_bad : Info → Bool
info_bad m = m.packet_mtu == 0 || ltb 240 m.packet_mtu || m.queue_depth == 0

abbrev pub info_octets : Info → List ℕ
info_octets m =
    put32 m.abi_version
    ++ (put16 m.packet_mtu
        ++ (put16 m.queue_depth ++ (put_text 32 m.firmware ++ put_text 32 m.hardware)))

unfoldable pub encode_info : ℕ → Info → Result (List ℕ)
encode_info capacity m = do reject (info_bad m) einval; encode capacity Kind.info (info_octets m)

abbrev pub read_info : List ℕ → List ℕ → List ℕ → Info
read_info b firmware hardware = record {
  firmware = firmware;
  hardware = hardware;
  abi_version = get32 b;
  packet_mtu = get16 (drop 4 b);
  queue_depth = get16 (drop 6 b);
}

unfoldable pub decode_info : List ℕ → Result Info
decode_info b = do
  reject (length b != info_size) einval
  firmware ← get_text 32 (drop 8 b)
  hardware ← get_text 32 (drop 40 b)
  reject (info_bad (read_info b firmware hardware)) eproto
  ok (read_info b firmware hardware)

abbrev pub Printable : ℕ → Type 0
Printable c = (0x20 ≤ c) × (c ≤ 0x7e)

-- A text of at most 31 printable characters.
pub record IsText (text : List ℕ) : Type 0 where
  pub chars : List ℕ
  pub printable : All Printable chars
  pub fits : length chars ≤ 31
  pub padded : text ≡ cleared 32 chars

copy_text-chars :
    (room k : ℕ) (cs : List ℕ)
    → All Printable cs
    → length cs ≤ room
    → copy_text room (cs ++ replicate (suc k) 0) ≡ cs
unfolding copy_text
copy_text-chars zero k [] v h = refl
copy_text-chars zero k (c ∷ cs) v h = absurd (omega arith)
copy_text-chars (suc room) k [] v h = refl
copy_text-chars (suc room) k (c ∷ cs) ((low, high), v) h =
    let set' : (c == 0) ≡ false = ground arith in
    rw (set') (ap (λ l. c ∷ l) (copy_text-chars room k cs v (omega arith)))

read_text-chars :
    (room k : ℕ) (cs rest : List ℕ)
    → All Printable cs
    → length cs ≤ room
    → read_text room (cs ++ replicate (suc k) 0 ++ rest) ≡ ok cs
unfolding read_text
read_text-chars zero k [] rest v h = refl
read_text-chars zero k (c ∷ cs) rest v h = absurd (omega arith)
read_text-chars (suc room) k [] rest v h = refl
read_text-chars (suc room) k (c ∷ cs) rest ((low, high), v) h =
    let set' : (c == 0) ≡ false = ground arith in
    let shown : (ltb c 0x20 || ltb 0x7e c) ≡ false = ground arith in
    rw (set', shown, read_text-chars room k cs rest v (omega arith)) refl

module _ (text : List ℕ) (v : IsText text) where
  ended : text ≡ v.chars ++ replicate (suc (31 - length v.chars)) 0
  ended =
      v.padded
      ∙ ap (λ n. v.chars ++ replicate n 0) {x = 32 - length v.chars} {y = suc (31 - length v.chars)}
          (omega (arith, v.fits))

  put_text-IsText : put_text 32 text ≡ text
  put_text-IsText =
      ap (cleared 32) (
        ap (copy_text 31) ended
        ∙ copy_text-chars 31 (31 - length v.chars) v.chars v.printable v.fits)
      ∙ sym v.padded

  get_text-IsText : (rest : List ℕ) → get_text 32 (text ++ rest) ≡ ok text
  get_text-IsText rest =
      ap (λ (r : Result (List ℕ)). r >>= (λ t. ok (cleared 32 t)))
        (ap (λ l. read_text 31 (l ++ rest)) ended
          ∙ read_text-chars 31 (31 - length v.chars) v.chars rest v.printable v.fits)
      ∙ ap ok (sym v.padded)

  length-IsText : length text ≡ 32
  length-IsText =
      ap length v.padded
      ∙ omega (
        arith,
        v.fits,
        length-append v.chars (replicate {A = ℕ} (32 - length v.chars) 0),
        length-replicate {A = ℕ} (32 - length v.chars) 0,
      )

-- The fields lie in their C types, and the texts are printable.
pub record IsInfo (m : Info) : Type 0 where
  pub firmware : IsText m.firmware
  pub hardware : IsText m.hardware
  pub abi_version : m.abi_version < 2 ^ 32
  pub packet_mtu : m.packet_mtu < 2 ^ 16
  pub queue_depth : m.queue_depth < 2 ^ 16

abbrev plain_octets : Info → List ℕ
plain_octets m =
    put32 m.abi_version
    ++ (put16 m.packet_mtu ++ (put16 m.queue_depth ++ (m.firmware ++ m.hardware)))

module _ (m : Info) (v : IsInfo m) where
  info_octets-plain : info_octets m ≡ plain_octets m
  info_octets-plain =
      ap₂ (λ f h. put32 m.abi_version ++ (put16 m.packet_mtu ++ (put16 m.queue_depth ++ (f ++ h))))
        (put_text-IsText m.firmware v.firmware) (put_text-IsText m.hardware v.hardware)

  at_hardware : drop 40 (plain_octets m) ≡ m.hardware ++ []
  at_hardware =
      skip (plain_octets m) 8 32 m.firmware m.hardware refl (length-IsText m.firmware v.firmware)
      ∙ sym (append-nil m.hardware)

  read_info-plain : read_info (plain_octets m) m.firmware m.hardware ≡ m
  read_info-plain = λ i. record {
    firmware = m.firmware;
    hardware = m.hardware;
    abi_version = get32-put32 m.abi_version (drop 4 (plain_octets m)) v.abi_version i;
    packet_mtu = get16-put16 m.packet_mtu (drop 6 (plain_octets m)) v.packet_mtu i;
    queue_depth = get16-put16 m.queue_depth (drop 8 (plain_octets m)) v.queue_depth i;
  }

decode_info-steps :
    (b firmware hardware : List ℕ) (m : Info)
    → length b ≡ info_size
    → get_text 32 (drop 8 b) ≡ ok firmware
    → get_text 32 (drop 40 b) ≡ ok hardware
    → read_info b firmware hardware ≡ m
    → info_bad m ≡ false
    → decode_info b ≡ ok m
unfolding decode_info
decode_info-steps b firmware hardware m size first second read good =
    let sized : (length b != info_size) ≡ false = ground arith in
    rw (sized, first, second, read, good) refl

-- A description of the radio with printable texts, which `encode_info` accepts, arrives as one frame,
-- which is decoded to it.
pub decode_info-encode_info :
    (capacity : ℕ) (m : Info) (t : Stream) {b : List ℕ}
    → IsInfo m
    → IsIdle t
    → encode_info capacity m ≡ ok b
    → (payload : List ℕ) × (deliveries t b ≡ (Kind.info, payload) ∷ [])
      × (decode_info payload ≡ ok m)
unfolding encode_info
decode_info-encode_info capacity m t v idle e =
    let (good, sent) = reject-ok (info_bad m) einval _ e in
    (
      info_octets m,
      deliveries-encode capacity Kind.info (info_octets m) t idle sent,
      ap decode_info (info_octets-plain m v)
          ∙ decode_info-steps (plain_octets m) m.firmware m.hardware m
              (omega (
                arith,
                length-append m.firmware m.hardware,
                length-IsText m.firmware v.firmware,
                length-IsText m.hardware v.hardware,
              ))
              (get_text-IsText m.firmware v.firmware m.hardware)
              (ap (get_text 32) (at_hardware m v) ∙ get_text-IsText m.hardware v.hardware [])
              (read_info-plain m v) good,
    )
