-- ===== src/Radio/Stream.antt =====
-- The framing of src/proto/radio.c: the checksum, melodi_radio_stream_encode and the receiver
-- melodi_radio_stream_feed, which takes one byte at a time.
pub mod Payload
pub mod Delivery
pub mod Bounds
pub mod Checksum
use melodi.Base.{
  ltb, ◌==◌, ◌!=◌, if◌then◌else◌, ◌>>=◌, ◌>>◌, reject, Errno, Result, length, get_or, set, take,
  drop, replicate, u16, u32, ◌>>>◌, inv16, ok, einval, eproto, enospc, ebadmsg, ℕ, zero, suc, ◌+◌,
  ◌-◌, bit_and, ◌||◌, List, ◌∷◌, ◌++◌, arith, [],
}
use melodi.Wire.Octets.{get16, put16}

abbrev pub magic0 : ℕ
magic0 = 0x4d

abbrev pub magic1 : ℕ
magic1 = 0x4c

abbrev pub protocol_version : ℕ
protocol_version = 2

abbrev pub header_size : ℕ
header_size = 8

abbrev pub payload_max : ℕ
payload_max = 512

-- The octets are summed in 32 bits.
unfoldable pub sum_octets : ℕ → List ℕ → ℕ
sum_octets sum [] = sum
sum_octets sum (octet ∷ octets) = sum_octets (u32 (sum + octet)) octets

-- The loop that adds the carries. Three rounds are enough for 32 bits.
unfoldable pub fold_carry : ℕ → ℕ → ℕ
fold_carry zero sum = sum
fold_carry (suc fuel) sum =
    let rest = fold_carry fuel (bit_and sum 0xffff + (sum >>> 16)) in
    if (sum >>> 16) != 0 then rest else sum

unfoldable pub checksum : List ℕ → ℕ
checksum octets = inv16 (u16 (fold_carry 3 (sum_octets 0 octets)))

pub record Header : Type 0 where
  pub magic0 : ℕ
  pub magic1 : ℕ
  pub version : ℕ
  pub kind : ℕ
  pub length : ℕ
  pub checksum : ℕ

pub data Phase : Type 0 where
  scan_magic0 : Phase
  scan_magic1 : Phase
  read_header : Phase
  read_payload : Phase

pub record Stream : Type 0 where
  pub state : Phase
  pub offset : ℕ
  pub expected : ℕ
  pub header : Header
  pub buffer : List ℕ

-- What a byte brings: nothing yet, a frame (its header and the buffer), or an error.
pub data Fed : Type 0 where
  waiting : Fed
  received : Header → List ℕ → Fed
  failed : Errno → Fed

unfoldable pub init : Stream
init = record {
  state = scan_magic0;
  offset = 0;
  expected = 0;
  header = record { magic0 = 0; magic1 = 0; version = 0; kind = 0; length = 0; checksum = 0 };
  buffer = replicate payload_max 0;
}

abbrev pub frame : ℕ → List ℕ → List ℕ
frame kind payload =
    magic0 ∷ magic1 ∷ protocol_version ∷ kind ∷ put16 (u16 (length payload))
    ++ (put16 (checksum payload) ++ payload)

unfoldable pub encode : ℕ → ℕ → List ℕ → Result (List ℕ)
encode capacity kind payload = do
  reject (ltb payload_max (length payload)) einval
  reject (ltb capacity (header_size + length payload)) enospc
  ok (frame kind payload)

abbrev pub parse_header : List ℕ → Header
parse_header b = record {
  magic0 = magic0;
  magic1 = magic1;
  version = get_or b 0 0;
  kind = get_or b 1 0;
  length = get16 (drop 2 b);
  checksum = get16 (drop 4 b);
}

-- The six octets after the magic are there.
unfoldable pub finish_header : Stream → Stream × Fed
finish_header s =
    let h = parse_header s.buffer in
    if h.version != protocol_version || ltb payload_max h.length
    then (record s { state = scan_magic0; offset = 0; header = h }, failed eproto)
    else if h.length == 0
    then (
      record s { state = scan_magic0; offset = 0; expected = h.length; header = h },
      if h.checksum != checksum [] then failed ebadmsg else received h s.buffer,
    )
    else (record s { state = read_payload; offset = 0; expected = h.length; header = h }, waiting)

unfoldable pub feed_header : Stream → ℕ → Stream × Fed
feed_header s byte =
    let t : Stream = record s {
      offset = u16 (s.offset + 1);
      buffer = set s.buffer s.offset byte;
    } in
    if ltb t.offset (header_size - 2) then (t, waiting) else finish_header t

unfoldable pub feed_payload : Stream → ℕ → Stream × Fed
feed_payload s byte =
    let t : Stream = record s {
      offset = u16 (s.offset + 1);
      buffer = set s.buffer s.offset byte;
    } in
    if ltb t.offset t.expected then (t, waiting) else (
      record t { state = scan_magic0 },
      if t.header.checksum != checksum (take t.expected t.buffer)
          then failed ebadmsg
          else received t.header t.buffer,
    )

unfoldable pub feed_magic1 : Stream → ℕ → Stream
feed_magic1 s byte =
    if byte == magic1
    then record s { state = read_header; offset = 0 }
    else if byte != magic0
    then record s { state = scan_magic0 }
    else s

unfoldable pub feed : Stream → ℕ → Stream × Fed
feed s byte = elim s.state [
  | scan_magic0 ↦ (if byte == magic0 then record s { state = scan_magic1 } else s, waiting)
  | scan_magic1 ↦ (feed_magic1 s byte, waiting)
  | read_header ↦ feed_header s byte
  | read_payload ↦ feed_payload s byte
]

-- The frames that a sequence of bytes brings, as the pairs of type and payload that the host reads.
abbrev pub collect : Fed → List (ℕ × List ℕ) → List (ℕ × List ℕ)
collect waiting rest = rest
collect (received h b) rest = (h.kind, take h.length b) ∷ rest
collect (failed e) rest = rest

unfoldable pub deliveries : Stream → List ℕ → List (ℕ × List ℕ)
deliveries s [] = []
deliveries s (byte ∷ bytes) = collect (feed s byte).1 (deliveries (feed s byte).0 bytes)
