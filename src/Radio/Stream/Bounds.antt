-- ===== src/Radio/Stream/Bounds.antt =====
-- The buffer of the receiver of src/proto/radio.c over sequences of bytes.
use melodi.Base.{
  ltb, ◌==◌, ◌!=◌, if◌then◌else◌, length, length-set, u16, eproto, ebadmsg, ℕ, ◌+◌, ◌≤◌, ◌<◌, max,
  ◌≡◌, refl, sym, ◌∙◌, subst, ◌⊎◌, inl, inr, Bool, true, false, ◌||◌, List, arith,
}
use melodi.Radio.Stream.{
  Header, Stream, Phase, scan_magic0, scan_magic1, read_header, read_payload, Fed, waiting,
  received, failed, payload_max, magic0, magic1, protocol_version, parse_header, init, feed,
  feed_payload, feed_header, feed_magic1, finish_header,
}

-- Where the next byte goes, by the phase, and that the length announced is the one expected.
abbrev pub Within : Phase → ℕ → ℕ → ℕ → Type 0
Within scan_magic0 offset expected announced = 0 ≤ 0
Within scan_magic1 offset expected announced = 0 ≤ 0
Within read_header offset expected announced = offset < 6
Within read_payload offset expected announced =
    (offset < expected) × (expected ≤ payload_max) × (announced ≡ expected)

pub record IsStream (s : Stream) : Type 0 where
  pub within : Within s.state s.offset s.expected s.header.length
  pub buffer : length s.buffer ≡ payload_max

-- What the host may read of a result.
abbrev pub Readable : Fed → Type 0
Readable waiting = 0 ≤ 0
Readable (received h b) = (h.length ≤ payload_max) × (length b ≡ payload_max)
Readable (failed e) = (e ≡ eproto) ⊎ (e ≡ ebadmsg)

pub init-IsStream : IsStream init
unfolding init
init-IsStream = record { within = omega arith; buffer = refl }

-- A property of both branches of a test.
if-both :
    (P : Stream × Fed → Type 0) (b : Bool) {x y : Stream × Fed}
    → (b ≡ true → P x)
    → (b ≡ false → P y)
    → P (if b then x else y)
if-both P true f g = f refl
if-both P false f g = g refl

abbrev Sound : Stream × Fed → Type 0
Sound (s, fed) = IsStream s × Readable fed

checked :
    (b : Bool) (h : Header) (o : List ℕ)
    → h.length ≤ payload_max
    → length o ≡ payload_max
    → Readable (if b then failed ebadmsg else received h o)
checked true h o max size = inr refl
checked false h o max size = (max, size)

finish_header-Sound : (s : Stream) → length s.buffer ≡ payload_max → Sound (finish_header s)
unfolding finish_header
finish_header-Sound s size =
    let h = parse_header s.buffer in
    if-both Sound (h.version != protocol_version || ltb payload_max h.length)
      (λ bad. (record { within = omega arith; buffer = size }, inl refl))
      (λ good.
        if-both Sound (h.length == 0)
          (λ empty. (
            record { within = omega arith; buffer = size },
            checked _ h s.buffer (ground arith) size,
          ))
          (λ some'.
            (record { within = (ground arith, ground arith, refl); buffer = size }, omega arith)))

feed_header-Sound :
    (s : Stream) (byte : ℕ)
    → length s.buffer ≡ payload_max
    → s.state ≡ read_header
    → s.offset < 6
    → Sound (feed_header s byte)
unfolding feed_header
feed_header-Sound s byte size state within =
    let size' = length-set s.buffer s.offset byte ∙ size in
    if-both Sound (ltb (u16 (s.offset + 1)) 6)
      (λ more. (
        record {
          within =
              subst (λ p. Within p (u16 (s.offset + 1)) s.expected s.header.length) (sym state)
                (ground arith);
          buffer = size';
        },
        omega arith,
      ))
      (λ last. finish_header-Sound _ size')

feed_payload-Sound :
    (s : Stream) (byte : ℕ)
    → length s.buffer ≡ payload_max
    → s.state ≡ read_payload
    → s.offset < s.expected
    → s.expected ≤ payload_max
    → s.header.length ≡ s.expected
    → Sound (feed_payload s byte)
unfolding feed_payload
feed_payload-Sound s byte size state within max announced =
    let size' = length-set s.buffer s.offset byte ∙ size in
    if-both Sound (ltb (u16 (s.offset + 1)) s.expected)
      (λ more. (
        record {
          within =
              subst (λ p. Within p (u16 (s.offset + 1)) s.expected s.header.length) (sym state)
                (ground arith, max, announced);
          buffer = size';
        },
        omega arith,
      ))
      (λ last.
        (record { within = omega arith; buffer = size' }, checked _ s.header _ (omega arith) size'))

stream-both : (b : Bool) {s t : Stream} → IsStream s → IsStream t → IsStream (if b then s else t)
stream-both true v w = v
stream-both false v w = w

feed_magic1-IsStream : (s : Stream) (byte : ℕ) → IsStream s → IsStream (feed_magic1 s byte)
unfolding feed_magic1
feed_magic1-IsStream s byte v =
    stream-both (byte == magic1) (record { within = omega arith; buffer = v.buffer })
      (stream-both (byte != magic0) (record { within = omega arith; buffer = v.buffer }) v)

-- From a receiver in order, a byte of any value is stored within the buffer, leaves the receiver
-- in order, and the host is given at most 512 octets of a whole buffer, or one of two errors.
pub feed-IsStream :
    (s : Stream) (byte : ℕ) → IsStream s → IsStream (feed s byte).0 × Readable (feed s byte).1
unfolding feed
feed-IsStream s byte v = feed-at s.state refl v.within
  where
    feed-at :
        (p : Phase)
        → s.state ≡ p
        → Within p s.offset s.expected s.header.length
        → Sound (elim p [
          | scan_magic0 ↦ (if byte == magic0 then record s { state = scan_magic1 } else s, waiting)
          | scan_magic1 ↦ (feed_magic1 s byte, waiting)
          | read_header ↦ feed_header s byte
          | read_payload ↦ feed_payload s byte
        ])
    feed-at scan_magic0 e w = (scanned, omega arith)
      where
        scanned : IsStream (if byte == magic0 then record s { state = scan_magic1 } else s)
        scanned =
            stream-both (byte == magic0) (record { within = omega arith; buffer = v.buffer }) v
    feed-at scan_magic1 e w = (feed_magic1-IsStream s byte v, omega arith)
    feed-at read_header e w = feed_header-Sound s byte v.buffer e w
    feed-at read_payload e (within, max, announced) =
        feed_payload-Sound s byte v.buffer e within max announced
