-- ===== src/UsbContract/Tests.antt =====
-- Runs of the checks of the descriptors, and their theorem at a board.
use melodi.UsbContract.{
  Contract, Endpoint, contract_validate, unusable, is_null, wanted, cdc_profile, cdc_product,
  octets, printable, is_hex, upper_hex, endpoint_loop, pico_product, firmware_supported, text_only,
}
use melodi.UsbContract.Boards.{complete, known_board, answer, contract_validate-known}
use melodi.Base.{
  replicate, same_bytes, ok, err, enodev, ℕ, ◌≡◌, refl, true, false, ◌&&◌, some, List, [], ◌∷◌,
}

abbrev serial_text : List ℕ
serial_text = 0x45 ∷ 0x36 ∷ replicate 14 0x31

abbrev bulk_in : Endpoint
bulk_in = record { max_packet = 64; address = 0x82; attributes = 2 }

abbrev bulk_out : Endpoint
bulk_out = record { max_packet = 64; address = 1; attributes = 2 }

abbrev a_pico : Contract
a_pico = record {
  endpoint_0 = bulk_out;
  endpoint_1 = bulk_in;
  product = some pico_product;
  serial = some serial_text;
  product_length = 4;
  serial_length = 16;
  vendor = 0x2e8a;
  product_id = 0x000a;
  device_version = 0x0100;
  interface_number = 1;
  alternate = 0;
  interface_class = 0x0a;
  interface_subclass = 0;
  interface_protocol = 0;
  endpoint_count = 2;
  profile = 2;
  full_speed = true;
  high_speed = false;
}

bound : contract_validate a_pico ≡ ok tt
unfolding contract_validate unusable is_null wanted cdc_profile cdc_product octets printable is_hex
    upper_hex endpoint_loop same_bytes
bound = refl

-- A serial with a lower-case digit, and two endpoints the same way.
lower_case_refused :
    contract_validate (record a_pico { serial = some (0x61 ∷ replicate 15 0x31) }) ≡ err enodev
unfolding contract_validate unusable is_null wanted cdc_profile cdc_product octets printable is_hex
    upper_hex endpoint_loop same_bytes
lower_case_refused = refl

one_way_refused : contract_validate (record a_pico { endpoint_0 = bulk_in }) ≡ err enodev
unfolding contract_validate unusable is_null wanted cdc_profile cdc_product octets printable is_hex
    upper_hex endpoint_loop same_bytes
one_way_refused = refl

contract_validate-known_example :
    contract_validate a_pico ≡ answer (complete a_pico && known_board a_pico)
contract_validate-known_example = contract_validate-known a_pico

-- "2.8.1" and "2.9.1".
firmware_run :
    (firmware_supported (some (0x32 ∷ 0x2e ∷ 0x38 ∷ 0x2e ∷ 0x31 ∷ [])) false ≡ true)
    × (firmware_supported (some (0x32 ∷ 0x2e ∷ 0x39 ∷ 0x2e ∷ 0x31 ∷ [])) false ≡ false)
unfolding firmware_supported text_only
firmware_run = (refl, refl)
