-- ===== src/UsbContract.antt =====
-- kernel/usb/contract.c and kernel/usb/contract.h: the descriptors a radio on USB must show before
-- the driver binds it, and the names of the firmware it runs with.
pub mod Boards
pub mod Tests
use melodi.Base.{
  ltb, leb, ◌==◌, ◌!=◌, if◌then◌else◌, ◌>>=◌, ◌>>◌, reject, Result, length, get_or, take, drop,
  same_bytes, ok, err, enodev, ℕ, ◌-◌, Bool, true, false, not, ◌&&◌, ◌||◌, Option, none, some, List,
  [], ◌∷◌,
}

unfoldable pub is_null : Option (List ℕ) → Bool
is_null none = true
is_null (some text) = false

abbrev melodi_usb_contract_test : ℕ
melodi_usb_contract_test = 1

abbrev melodi_usb_contract_cdc : ℕ
melodi_usb_contract_cdc = 2

abbrev melodi_usb_endpoint_bulk : ℕ
melodi_usb_endpoint_bulk = 2

-- The names of the products, "Melodi USB Test Radio", "Pico" and "Feather RP2040 RFM".
abbrev pub test_product : List ℕ
test_product =
    (77 ∷ 101 ∷ 108 ∷ 111 ∷ 100 ∷ 105 ∷ 32 ∷ 85 ∷ 83 ∷ 66 ∷ 32 ∷ 84 ∷ 101 ∷ 115 ∷ 116 ∷ 32 ∷ 82 ∷ 97
      ∷ 100 ∷ 105 ∷ 111 ∷ [])

abbrev pub pico_product : List ℕ
pico_product = 80 ∷ 105 ∷ 99 ∷ 111 ∷ []

abbrev pub feather_product : List ℕ
feather_product =
    (70 ∷ 101 ∷ 97 ∷ 116 ∷ 104 ∷ 101 ∷ 114 ∷ 32 ∷ 82 ∷ 80 ∷ 50 ∷ 48 ∷ 52 ∷ 48 ∷ 32 ∷ 82 ∷ 70 ∷ 77
      ∷ [])

pub record Endpoint : Type 0 where
  max_packet : ℕ
  address : ℕ
  attributes : ℕ

-- The array of two endpoints is two fields. `product` and `serial` are what the pointers lead to, or none for NULL.
pub record Contract : Type 0 where
  endpoint_0 : Endpoint
  endpoint_1 : Endpoint
  product : Option (List ℕ)
  serial : Option (List ℕ)
  product_length : ℕ
  serial_length : ℕ
  vendor : ℕ
  product_id : ℕ
  device_version : ℕ
  interface_number : ℕ
  alternate : ℕ
  interface_class : ℕ
  interface_subclass : ℕ
  interface_protocol : ℕ
  endpoint_count : ℕ
  profile : ℕ
  full_speed : Bool
  high_speed : Bool

-- The locals that the checks of the profile leave for the later ones.
pub record Wanted : Type 0 where
  wanted_product : List ℕ
  max_packet_wanted : ℕ
  in_wanted : ℕ
  out_wanted : ℕ

unfoldable pub unusable : Contract → Bool
unusable c =
    c.alternate != 0
    || c.endpoint_count != 2
    || is_null c.product
    || is_null c.serial
    || c.serial_length == 0
    || ltb 64 c.serial_length

unfoldable pub test_profile : Contract → Result Wanted
test_profile c = do
  reject
      (c.vendor != 0x1d6b
        || c.product_id != 0xf00d
        || c.device_version != 0x0100
        || c.interface_number != 0
        || c.interface_class != 0xff
        || c.interface_subclass != 0x4d
        || c.interface_protocol != 1
        || not c.high_speed)
      enodev
  ok (record {
    wanted_product = test_product;
    max_packet_wanted = 512;
    in_wanted = 0x81;
    out_wanted = 1;
  })

unfoldable pub cdc_product : Contract → Result (List ℕ)
cdc_product c =
    if c.vendor == 0x2e8a && (c.product_id == 0x000a && c.device_version == 0x0100)
    then ok pico_product
    else if c.vendor == 0x239a && (c.product_id == 0x812d && c.device_version == 0x0100)
    then ok feather_product
    else err enodev

unfoldable pub cdc_profile : Contract → Result Wanted
cdc_profile c = do
  name ← cdc_product c
  reject
      (c.interface_number != 1
        || c.interface_class != 0x0a
        || c.interface_subclass != 0
        || c.interface_protocol != 0
        || not c.full_speed
        || c.serial_length != 16)
      enodev
  ok (record { wanted_product = name; max_packet_wanted = 64; in_wanted = 0x82; out_wanted = 1 })

unfoldable pub wanted : Contract → Result Wanted
wanted c =
    if c.profile == melodi_usb_contract_test
    then test_profile c
    else if c.profile == melodi_usb_contract_cdc
    then cdc_profile c
    else err enodev

-- The octets behind a pointer, as many as its length says.
unfoldable pub octets : Option (List ℕ) → ℕ → List ℕ
octets (some text) n = take n text
octets none n = []

-- `text[index] < 0x21 || text[index] > 0x7e || text[index] == ','` for no octet. A `char` above
-- 0x7e is negative on some machines, and is refused by the one test or the other.
unfoldable pub printable : List ℕ → Bool
printable [] = true
printable (b ∷ text) =
    let rest = printable text in if ltb b 0x21 || ltb 0x7e b || b == 0x2c then false else rest

unfoldable pub is_hex : ℕ → Bool
is_hex b = leb 0x30 b && leb b 0x39 || leb 0x41 b && leb b 0x46

unfoldable pub upper_hex : List ℕ → Bool
upper_hex [] = true
upper_hex (b ∷ text) = let rest = upper_hex text in if not (is_hex b) then false else rest

-- The last loop, with `found_in` and `found_out`.
unfoldable pub endpoint_loop : Wanted → Bool → Bool → List Endpoint → Result (Unit {0})
endpoint_loop w found_in found_out [] = if found_in && found_out then ok tt else err enodev
endpoint_loop w found_in found_out (e ∷ rest) =
    let to_in = endpoint_loop w true found_out rest in
    let to_out = endpoint_loop w found_in true rest in
    if e.attributes != melodi_usb_endpoint_bulk || e.max_packet != w.max_packet_wanted
    then err enodev
    else if e.address == w.in_wanted && not found_in
    then to_in
    else if e.address == w.out_wanted && not found_out
    then to_out
    else err enodev

unfoldable pub contract_validate : Contract → Result (Unit {0})
contract_validate c = do
  reject (unusable c) enodev
  w ← wanted c
  reject
      (c.product_length != length w.wanted_product
        || not (same_bytes (octets c.product c.product_length) w.wanted_product))
      enodev
  reject (not (printable (octets c.serial c.serial_length))) enodev
  reject (c.profile == melodi_usb_contract_cdc && not (upper_hex (octets c.serial c.serial_length)))
      enodev
  endpoint_loop w false false (c.endpoint_0 ∷ c.endpoint_1 ∷ [])

abbrev test_firmware : List ℕ
test_firmware =
    (109 ∷ 101 ∷ 108 ∷ 111 ∷ 100 ∷ 105 ∷ 45 ∷ 117 ∷ 115 ∷ 98 ∷ 45 ∷ 116 ∷ 101 ∷ 115 ∷ 116 ∷ 45 ∷ 49
      ∷ [])

-- `firmware[index] < 0x20 || firmware[index] > 0x7e` for no octet.
unfoldable pub text_only : List ℕ → Bool
text_only [] = true
text_only (b ∷ text) = let rest = text_only text in if ltb b 0x20 || ltb 0x7e b then false else rest

-- The list holds the octets that `length` counts.
unfoldable pub firmware_supported : Option (List ℕ) → Bool → Bool
firmware_supported none for_test = false
firmware_supported (some text) for_test =
    let octet = λ (i : ℕ). get_or text i 0 in
    if length text == 0
    then false
    else if for_test
    then length text == length test_firmware && same_bytes text test_firmware
    else if ltb (length text) 5
        || octet 0 != 0x32
        || octet 1 != 0x2e
        || octet 3 != 0x2e
        || ltb (octet 2) 0x30
        || ltb 0x39 (octet 2)
    then false
    else if ltb (octet 2 - 0x30) 7 || ltb 8 (octet 2 - 0x30)
    then false
    else if not (text_only (drop 4 text))
    then false
    else leb 0x30 (octet 4) && leb (octet 4) 0x39
