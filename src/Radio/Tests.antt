-- ===== src/Radio/Tests.antt =====
-- Frames through the receiver of the radio.
use melodi.Base.{
  if◌then◌else◌, length, replicate, ok, err, einval, ℕ, ◌+◌, ◌*◌, ◌/◌, ◌≤◌, ◌≡◌, refl, ◌≢◌, List,
  ◌∷◌, ◌++◌, arith, [],
}
use melodi.Radio.Kind
use melodi.Radio.Stream.{init, encode, frame, feed, deliveries, checksum}
use melodi.Radio.Stream.Payload.{IsIdle}
use melodi.Radio.Stream.Delivery.{encode_all, deliveries-encode_all}
use melodi.Radio.Stream.Bounds.{IsStream, Readable, init-IsStream, feed-IsStream}
use melodi.Radio.Stream.Checksum.{checksum-one_octet}
use melodi.Radio.Configure.{Configure, configure_bad, configure_octets, encode_configure}
use melodi.Radio.Status.{Status, status_refused, status_octets, encode_status}
use melodi.Radio.Transmit.{Transmit, transmit_refused, transmit_octets, encode_transmit}
use melodi.Radio.Receive.{Receive, receive_refused, receive_octets, encode_receive}
use melodi.Radio.Report.{Report, result_refused, result_octets, encode_result}
use melodi.Radio.Info.{
  Info, IsInfo, cleared, copy_text, info_bad, info_octets, encode_info, decode_info,
}
use melodi.Radio.Messages.{radio, deliveries-encode_message}
use melodi.Radio.Segment.{
  Segment, segment_bad, segment_octets, segment_encode, segment_decode, packet_max,
  segment_decode-segment_encode,
}
use melodi.Radio.Duration.{
  airtime_estimate, in_range, time_on_air, estimate_refused, symbol_us, low_rate, payload_symbols,
  airtime_estimate-exact,
}

init-IsIdle : IsIdle init
unfolding init
init-IsIdle = record { state = refl; buffer = refl }

abbrev two_messages : List (ℕ × List ℕ)
two_messages = (3, 1 ∷ 2 ∷ 3 ∷ []) ∷ (4, []) ∷ []

abbrev two_frames : List ℕ
two_frames = frame 3 (1 ∷ 2 ∷ 3 ∷ []) ++ (frame 4 [] ++ [])

two_messages-encoded : encode_all 100 two_messages ≡ ok two_frames
unfolding encode_all encode
two_messages-encoded = refl

deliveries-encode_all_example : deliveries init two_frames ≡ two_messages
deliveries-encode_all_example =
    deliveries-encode_all 100 two_messages init init-IsIdle two_messages-encoded

feed-IsStream_example : IsStream (feed init 0x4d).0 × Readable (feed init 0x4d).1
feed-IsStream_example = feed-IsStream init 0x4d init-IsStream

checksum-one_octet_example : checksum (1 ∷ 2 ∷ 3 ∷ []) ≢ checksum (1 ∷ 9 ∷ 3 ∷ [])
checksum-one_octet_example =
    checksum-one_octet (1 ∷ []) (3 ∷ []) 2 9 (omega arith, (omega arith, (omega arith, tt)))
      (omega arith, (omega arith, (omega arith, tt))) (omega arith) (omega arith)

abbrev a_configuration : Configure
a_configuration = record {
  domain = replicate 32 8;
  locator = 77;
  frequency_hz = 868100000;
  bandwidth_khz = 125;
  spreading_factor = 9;
  coding_rate = 5;
  transmit_power_dbm = 65533;
  duty_permille = 10;
}

a_configuration-encoded :
    encode_configure 64 a_configuration
    ≡ ok (frame Kind.configure (configure_octets a_configuration))
unfolding encode_configure configure_bad encode
a_configuration-encoded = refl

abbrev a_status : Status
a_status = record {
  locator = 77;
  queue_free = 3;
  queue_depth = 8;
  state = 1;
  fault = 0;
  modem_status = 2;
}

a_status-encoded : encode_status 64 a_status ≡ ok (frame Kind.status (status_octets a_status))
unfolding encode_status status_refused encode
a_status-encoded = refl

abbrev a_request : Transmit
a_request = record { cookie = 5; destination = 78; payload = 1 ∷ 2 ∷ [] }

a_request-encoded :
    encode_transmit 64 a_request ≡ ok (frame Kind.transmit (transmit_octets a_request))
unfolding encode_transmit transmit_refused encode
a_request-encoded = refl

abbrev a_packet : Receive
a_packet = record {
  source = 77;
  destination = 78;
  rssi = 65446;
  snr = 5;
  hops = 2;
  payload = 1 ∷ 2 ∷ [];
}

a_packet-encoded : encode_receive 64 a_packet ≡ ok (frame Kind.receive (receive_octets a_packet))
unfolding encode_receive receive_refused encode
a_packet-encoded = refl

abbrev a_report : Report
a_report = record { cookie = 5; duration_us = 51200; result = 5 }

a_report-encoded : encode_result 64 a_report ≡ ok (frame Kind.result (result_octets a_report))
unfolding encode_result result_refused encode
a_report-encoded = refl

abbrev a_radio : Info
a_radio = record {
  firmware = cleared 32 (0x76 ∷ 0x32 ∷ []);
  hardware = cleared 32 (0x4c ∷ 0x6f ∷ 0x52 ∷ 0x61 ∷ []);
  abi_version = 1;
  packet_mtu = 240;
  queue_depth = 8;
}

a_radio-IsInfo : IsInfo a_radio
a_radio-IsInfo = record {
  firmware = record {
    chars = 0x76 ∷ 0x32 ∷ [];
    printable = ((omega arith, omega arith), ((omega arith, omega arith), tt));
    fits = omega arith;
    padded = refl;
  };
  hardware = record {
    chars = 0x4c ∷ 0x6f ∷ 0x52 ∷ 0x61 ∷ [];
    printable = (
      (omega arith, omega arith),
      ((omega arith, omega arith), ((omega arith, omega arith), ((omega arith, omega arith), tt))),
    );
    fits = omega arith;
    padded = refl;
  };
  abi_version = omega arith;
  packet_mtu = omega arith;
  queue_depth = omega arith;
}

a_radio-encoded : encode_info 128 a_radio ≡ ok (frame Kind.info (info_octets a_radio))
unfolding encode_info info_bad encode copy_text
a_radio-encoded = refl

abbrev a_segment : Segment
a_segment = record { frame_id = 9; total_length = 300; index = 1; count = 2; payload = 1 ∷ 2 ∷ [] }

a_segment-encoded : segment_encode 64 a_segment ≡ ok (segment_octets a_segment)
unfolding segment_encode segment_bad
a_segment-encoded = refl

segment_decode-segment_encode_example :
    (length (segment_octets a_segment) ≤ packet_max)
    × (length (segment_octets a_segment) ≤ 64)
    × (segment_decode (segment_octets a_segment) ≡ ok a_segment)
segment_decode-segment_encode_example =
    segment_decode-segment_encode 64 a_segment (omega arith) a_segment-encoded

airtime_estimate-exact_example :
    airtime_estimate 9 125 5 20
    ≡ (if in_range 9 125 5 20 then ok (time_on_air 9 125 5 20) else err einval)
airtime_estimate-exact_example = airtime_estimate-exact 9 125 5 20

shorter : airtime_estimate 9 125 5 20 ≡ ok (4096 * 49 / 4 + 33 * 4096)
unfolding airtime_estimate symbol_us low_rate payload_symbols estimate_refused
shorter = refl

longer : airtime_estimate 9 125 5 200 ≡ ok (4096 * 49 / 4 + 233 * 4096)
unfolding airtime_estimate symbol_us low_rate payload_symbols estimate_refused
longer = refl

deliveries-encode_message_example :
    (payload : List ℕ) × (deliveries init (frame Kind.info (info_octets a_radio))
      ≡ (Kind.info, payload) ∷ [])
    × (decode_info payload ≡ ok a_radio)
deliveries-encode_message_example =
    deliveries-encode_message 128 (radio a_radio) init a_radio-IsInfo init-IsIdle a_radio-encoded
