-- ===== src/UsbContract/Boards.antt =====
-- The descriptors the driver takes, as a table of the known boards.
use melodi.UsbContract.{
  Contract, Endpoint, Wanted, is_null, contract_validate, unusable, wanted, test_profile,
  cdc_profile, cdc_product, octets, printable, upper_hex, endpoint_loop, test_product, pico_product,
  feather_product,
}
use melodi.Base.{
  ltb, leb, ◌==◌, ◌!=◌, if◌then◌else◌, ◌>>=◌, ◌>>◌, reject, Result, length, same_bytes, ok, err,
  enodev, ℕ, ◌≡◌, refl, ap, ap₂, ◌∙◌, Bool, true, false, not, ◌&&◌, ◌||◌, List, [], ◌∷◌, arith,
}

-- One row of the table: what the board shows of itself, and how.
pub record Board : Type 0 where
  board_profile : ℕ
  board_vendor : ℕ
  board_product : ℕ
  board_version : ℕ
  board_interface : ℕ
  board_class : ℕ
  board_subclass : ℕ
  board_protocol : ℕ
  board_speed : Contract → Bool
  serial_fits : ℕ → List ℕ → Bool
  shape : Wanted

abbrev pub any_serial : ℕ → List ℕ → Bool
any_serial n text = true

abbrev pub unique_serial : ℕ → List ℕ → Bool
unique_serial n text = n == 16 && upper_hex text

abbrev pub test_board : Board
test_board = record {
  board_profile = 1;
  board_vendor = 0x1d6b;
  board_product = 0xf00d;
  board_version = 0x0100;
  board_interface = 0;
  board_class = 0xff;
  board_subclass = 0x4d;
  board_protocol = 1;
  board_speed = λ c. c.high_speed;
  serial_fits = any_serial;
  shape = record {
    wanted_product = test_product;
    max_packet_wanted = 512;
    in_wanted = 0x81;
    out_wanted = 1;
  };
}

abbrev pub pico : Board
pico = record {
  board_profile = 2;
  board_vendor = 0x2e8a;
  board_product = 0x000a;
  board_version = 0x0100;
  board_interface = 1;
  board_class = 0x0a;
  board_subclass = 0;
  board_protocol = 0;
  board_speed = λ c. c.full_speed;
  serial_fits = unique_serial;
  shape = record {
    wanted_product = pico_product;
    max_packet_wanted = 64;
    in_wanted = 0x82;
    out_wanted = 1;
  };
}

abbrev pub feather : Board
feather = record {
  board_profile = 2;
  board_vendor = 0x239a;
  board_product = 0x812d;
  board_version = 0x0100;
  board_interface = 1;
  board_class = 0x0a;
  board_subclass = 0;
  board_protocol = 0;
  board_speed = λ c. c.full_speed;
  serial_fits = unique_serial;
  shape = record {
    wanted_product = feather_product;
    max_packet_wanted = 64;
    in_wanted = 0x82;
    out_wanted = 1;
  };
}

-- A bulk endpoint of the packet size of the board, at an address.
unfoldable pub bulk_at : Wanted → ℕ → Endpoint → Bool
bulk_at w where_ e =
    (e.attributes == 2 && e.max_packet == w.max_packet_wanted) && e.address == where_

-- One endpoint each way, in either order.
unfoldable pub pair_of : Wanted → Endpoint → Endpoint → Bool
pair_of w a b =
    bulk_at w w.in_wanted a && bulk_at w w.out_wanted b
    || bulk_at w w.out_wanted a && bulk_at w w.in_wanted b

-- The name of the product is the board's, and the serial is printable.
unfoldable pub texts_shown : Wanted → Contract → Bool
texts_shown w c =
    (c.product_length == length w.wanted_product
      && same_bytes (octets c.product c.product_length) w.wanted_product)
    && printable (octets c.serial c.serial_length)

unfoldable pub shows : Contract → Board → Bool
shows c b =
    (c.profile == b.board_profile
      && (c.vendor == b.board_vendor
          && (c.product_id == b.board_product && c.device_version == b.board_version)))
    && ((c.interface_number == b.board_interface
          && (c.interface_class == b.board_class
              && (c.interface_subclass == b.board_subclass
                  && (c.interface_protocol == b.board_protocol && b.board_speed c))))
        && (b.serial_fits c.serial_length (octets c.serial c.serial_length)
            && (texts_shown b.shape c && pair_of b.shape c.endpoint_0 c.endpoint_1)))

unfoldable pub known_board : Contract → Bool
known_board c = shows c test_board || (shows c pico || shows c feather)

-- The one alternate setting with two endpoints, both names, and a serial of 1 to 64 octets.
unfoldable pub complete : Contract → Bool
complete c =
    c.alternate == 0
    && (c.endpoint_count == 2
        && (not (is_null c.product)
            && (not (is_null c.serial) && (ltb 0 c.serial_length && leb c.serial_length 64))))

abbrev pub answer : Bool → Result (Unit {0})
answer accepted = if accepted then ok tt else err enodev

loop-pair :
    (w : Wanted) (a b : Endpoint)
    → (w.in_wanted == w.out_wanted) ≡ false
    → endpoint_loop w false false (a ∷ b ∷ []) ≡ answer (pair_of w a b)
unfolding endpoint_loop pair_of bulk_at
loop-pair w a b differ = ground arith

-- The part of contract_validate after the checks of the profile.
abbrev finish : Contract → Wanted → Result (Unit {0})
finish c w = do
  reject
      (c.product_length != length w.wanted_product
        || not (same_bytes (octets c.product c.product_length) w.wanted_product))
      enodev
  reject (not (printable (octets c.serial c.serial_length))) enodev
  reject (c.profile == 2 && not (upper_hex (octets c.serial c.serial_length))) enodev
  endpoint_loop w false false (c.endpoint_0 ∷ c.endpoint_1 ∷ [])

-- The numbers of a row, without the profile and the product.
unfoldable interface_is : Contract → Board → Bool
interface_is c b =
    c.interface_number == b.board_interface
    && (c.interface_class == b.board_class
        && (c.interface_subclass == b.board_subclass
            && (c.interface_protocol == b.board_protocol && b.board_speed c)))

unfoldable product_is : Contract → Board → Bool
product_is c b =
    c.vendor == b.board_vendor
    && (c.product_id == b.board_product && c.device_version == b.board_version)

differs : (a b : ℕ) → (a != b) ≡ not (a == b)
differs a b = ground arith

checks_case :
    (n t p h : Bool) (r : Bool)
    → (do reject (not n || not t) enodev; reject (not p) enodev; reject h enodev; answer r)
      ≡ answer (((n && t) && p) && (not h && r))
checks_case false t p h r = refl
checks_case true false p h r = refl
checks_case true true false h r = refl
checks_case true true true true r = refl
checks_case true true true false r = refl

finish-answer :
    (c : Contract) (w : Wanted)
    → (w.in_wanted == w.out_wanted) ≡ false
    → finish c w
      ≡ answer (
          texts_shown w c
          && (not (c.profile == 2 && not (upper_hex (octets c.serial c.serial_length)))
              && pair_of w c.endpoint_0 c.endpoint_1))
unfolding texts_shown
finish-answer c w differ =
    rw
      (
        loop-pair w c.endpoint_0 c.endpoint_1 differ,
        differs c.product_length (length w.wanted_product),
      )
      (checks_case (c.product_length == length w.wanted_product)
        (same_bytes (octets c.product c.product_length) w.wanted_product)
        (printable (octets c.serial c.serial_length))
        (c.profile == 2 && not (upper_hex (octets c.serial c.serial_length)))
        (pair_of w c.endpoint_0 c.endpoint_1))

eight_checks :
    (a b d e f g h i : Bool) (w : Wanted) (k : Wanted → Result (Unit {0}))
    → ((do
      reject (not a || not b || not d || not e || not f || not g || not h || not i) enodev
      ok w)
        >>= k)
      ≡ (if (a && (b && d)) && (e && (f && (g && (h && i)))) then k w else err enodev)
eight_checks true true true true true true true i w k = ground arith
eight_checks true true true true true true false i w k = refl
eight_checks true true true true true false h i w k = refl
eight_checks true true true true false g h i w k = refl
eight_checks true true true false f g h i w k = refl
eight_checks true true false e f g h i w k = refl
eight_checks true false d e f g h i w k = refl
eight_checks false b d e f g h i w k = refl

test_profile-if :
    (c : Contract) (k : Wanted → Result (Unit {0}))
    → (test_profile c >>= k) ≡ (
        if product_is c test_board && interface_is c test_board
        then k test_board.shape
        else err enodev)
unfolding test_profile product_is interface_is
test_profile-if c k =
    rw
      (
        differs c.vendor 0x1d6b,
        differs c.product_id 0xf00d,
        differs c.device_version 0x0100,
        differs c.interface_number 0,
        differs c.interface_class 0xff,
        differs c.interface_subclass 0x4d,
        differs c.interface_protocol 1,
      )
      (eight_checks (c.vendor == 0x1d6b) (c.product_id == 0xf00d) (c.device_version == 0x0100)
        (c.interface_number == 0) (c.interface_class == 0xff) (c.interface_subclass == 0x4d)
        (c.interface_protocol == 1) c.high_speed test_board.shape k)

six_checks :
    (a b d e f g : Bool) (w : Wanted) (k : Wanted → Result (Unit {0}))
    → ((do reject (not a || not b || not d || not e || not f || not g) enodev; ok w) >>= k)
      ≡ (if (a && (b && (d && (e && f)))) && g then k w else err enodev)
six_checks true true true true true g w k = ground arith
six_checks true true true true false g w k = refl
six_checks true true true false f g w k = refl
six_checks true true false e f g w k = refl
six_checks true false d e f g w k = refl
six_checks false b d e f g w k = refl

-- The checks of the interface of a CDC board, with the name of its product.
abbrev cdc_checks : Contract → List ℕ → Result Wanted
cdc_checks c name = do
  reject
      (c.interface_number != 1
        || c.interface_class != 0x0a
        || c.interface_subclass != 0
        || c.interface_protocol != 0
        || not c.full_speed
        || c.serial_length != 16)
      enodev
  ok (record { wanted_product = name; max_packet_wanted = 64; in_wanted = 0x82; out_wanted = 1 })

cdc_checks-if :
    (c : Contract) (name : List ℕ) (k : Wanted → Result (Unit {0}))
    → (cdc_checks c name >>= k) ≡ (
        if interface_is c pico && c.serial_length == 16
        then k (record pico.shape { wanted_product = name })
        else err enodev)
unfolding interface_is
cdc_checks-if c name k =
    rw
      (
        differs c.interface_number 1,
        differs c.interface_class 0x0a,
        differs c.interface_subclass 0,
        differs c.interface_protocol 0,
        differs c.serial_length 16,
      )
      (six_checks (c.interface_number == 1) (c.interface_class == 0x0a) (c.interface_subclass == 0)
        (c.interface_protocol == 0) c.full_speed (c.serial_length == 16)
        (record pico.shape { wanted_product = name }) k)

either {ℓ} :
    {A : Type ℓ} (x y : Bool) (m n : A) (next : A → Result Wanted) (k : Wanted → Result (Unit {0}))
    → (((if x then ok m else if y then ok n else err enodev) >>= next) >>= k)
      ≡ (if x then (next m >>= k) else if y then (next n >>= k) else err enodev)
either true y m n next k = refl
either false true m n next k = refl
either false false m n next k = refl

cdc_profile-if :
    (c : Contract) (k : Wanted → Result (Unit {0}))
    → (cdc_profile c >>= k) ≡ (
        if product_is c pico
        then (if interface_is c pico && c.serial_length == 16 then k pico.shape else err enodev)
        else if product_is c feather
        then (if interface_is c pico && c.serial_length == 16 then k feather.shape else err enodev)
        else err enodev)
unfolding cdc_profile cdc_product product_is
cdc_profile-if c k =
    either (product_is c pico) (product_is c feather) pico_product feather_product (cdc_checks c) k
    ∙ ap₂
        (λ one two.
          if product_is c pico then one else if product_is c feather then two else err enodev)
        (cdc_checks-if c pico_product k) (cdc_checks-if c feather_product k)

wanted-if :
    (c : Contract) (k : Wanted → Result (Unit {0}))
    → (wanted c >>= k) ≡ (
        if c.profile == 1
        then (test_profile c >>= k)
        else if c.profile == 2
        then (cdc_profile c >>= k)
        else err enodev)
unfolding wanted
wanted-if c k = by_profile (c.profile == 1) (c.profile == 2)
  where
    by_profile :
        (one two : Bool)
        → ((if one then test_profile c else if two then cdc_profile c else err enodev) >>= k) ≡ (
            if one
            then (test_profile c >>= k)
            else if two
            then (cdc_profile c >>= k)
            else err enodev)
    by_profile true two = refl
    by_profile false true = refl
    by_profile false false = refl

table_case :
    (p1 p2 ids_t ids_p ids_f if_t if_c long hex t_t t_p t_f e_t e_p e_f : Bool)
    → (p1 ≡ true → p2 ≡ false)
    → (ids_p ≡ true → ids_f ≡ false)
    → (if p1
        then (if ids_t && if_t then answer (t_t && (not (p2 && not hex) && e_t)) else err enodev)
        else if p2
        then (if ids_p
            then (if if_c && long then answer (t_p && (not (p2 && not hex) && e_p)) else err enodev)
            else if ids_f
            then (if if_c && long then answer (t_f && (not (p2 && not hex) && e_f)) else err enodev)
            else err enodev)
        else err enodev)
      ≡ answer (
          ((p1 && ids_t) && (if_t && (true && (t_t && e_t))))
          || (((p2 && ids_p) && (if_c && ((long && hex) && (t_p && e_p))))
              || ((p2 && ids_f) && (if_c && ((long && hex) && (t_f && e_f))))))
table_case true true ids_t ids_p ids_f if_t if_c long hex t_t t_p t_f e_t e_p e_f alone differ =
    ground arith
table_case true false true ids_p ids_f if_t if_c long hex t_t t_p t_f e_t e_p e_f alone differ =
    ground arith
table_case true false false ids_p ids_f if_t if_c long hex t_t t_p t_f e_t e_p e_f alone differ =
    refl
table_case false true ids_t true true if_t if_c long hex t_t t_p t_f e_t e_p e_f alone differ =
    ground arith
table_case false true ids_t true false if_t if_c long hex t_t t_p t_f e_t e_p e_f alone differ =
    ground arith
table_case false true ids_t false true if_t if_c long hex t_t t_p t_f e_t e_p e_f alone differ =
    ground arith
table_case false true ids_t false false if_t if_c long hex t_t t_p t_f e_t e_p e_f alone differ =
    refl
table_case false false ids_t ids_p ids_f if_t if_c long hex t_t t_p t_f e_t e_p e_f alone differ =
    refl

unusable-complete : (c : Contract) → unusable c ≡ not (complete c)
unfolding unusable complete
unusable-complete c =
    by_tests c.alternate c.endpoint_count c.serial_length (is_null c.product) (is_null c.serial)
  where
    by_tests :
        (alternate count n : ℕ) (no_product no_serial : Bool)
        → (alternate != 0 || count != 2 || no_product || no_serial || n == 0 || ltb 64 n)
          ≡ not (
              alternate == 0
              && (count == 2 && (not no_product && (not no_serial && (ltb 0 n && leb n 64)))))
    by_tests alternate count n true no_serial = ground arith
    by_tests alternate count n false true = ground arith
    by_tests alternate count n false false = ground arith

wanted-finish : (c : Contract) → (wanted c >>= finish c) ≡ answer (known_board c)
unfolding known_board shows product_is interface_is
wanted-finish c =
    wanted-if c (finish c)
    ∙ rw
        (
          test_profile-if c (finish c),
          cdc_profile-if c (finish c),
          finish-answer c test_board.shape refl,
          finish-answer c pico.shape refl,
          finish-answer c feather.shape refl,
        )
        (table_case (c.profile == 1) (c.profile == 2) (product_is c test_board) (product_is c pico)
          (product_is c feather) (interface_is c test_board) (interface_is c pico)
          (c.serial_length == 16) (upper_hex (octets c.serial c.serial_length))
          (texts_shown test_board.shape c) (texts_shown pico.shape c) (texts_shown feather.shape c)
          (pair_of test_board.shape c.endpoint_0 c.endpoint_1)
          (pair_of pico.shape c.endpoint_0 c.endpoint_1)
          (pair_of feather.shape c.endpoint_0 c.endpoint_1) (λ one. ground arith)
          (λ same. ground arith))

guarded : (bad : Bool) (k : Bool) → (reject bad enodev >> answer k) ≡ answer (not bad && k)
guarded true k = refl
guarded false k = refl

-- melodi_usb_contract_validate returns 0 just for complete descriptors that show one of the three
-- boards of the table, and ENODEV for all others.
pub contract_validate-known :
    (c : Contract) → contract_validate c ≡ answer (complete c && known_board c)
unfolding contract_validate
contract_validate-known c =
    rw (wanted-finish c, unusable-complete c) (guarded (not (complete c)) (known_board c))
    ∙ ap (λ b. answer (b && known_board c)) (not_not (complete c))
  where
    not_not : (b : Bool) → not (not b) ≡ b
    not_not true = refl
    not_not false = refl
