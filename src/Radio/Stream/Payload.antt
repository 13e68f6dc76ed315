-- ===== src/Radio/Stream/Payload.antt =====
-- How the receiver of src/proto/radio.c fills its buffer with a payload.
use melodi.Base.{
  length, set, take, length-set, ℕ, zero, suc, ◌+◌, ◌≤◌, ◌<◌, max, ◌≡◌, refl, sym, ap, ◌∙◌, List,
  ◌∷◌, ◌++◌, arith, [],
}
use mathlib.Core.List.{append_assoc}
use melodi.Radio.Stream.{
  Header, Stream, scan_magic0, read_payload, Fed, waiting, received, payload_max, checksum, feed,
  feed_payload, collect, deliveries,
}

-- A receiver between two frames.
pub record IsIdle (s : Stream) : Type 0 where
  pub state : s.state ≡ scan_magic0
  pub buffer : length s.buffer ≡ payload_max

take-set : (b : List ℕ) (k x : ℕ) → k < length b → take (suc k) (set b k x) ≡ take k b ++ (x ∷ [])
take-set [] k x h = absurd (omega arith)
take-set (y ∷ b) zero x h = refl
take-set (y ∷ b) (suc k) x h = ap (λ l. y ∷ l) (take-set b k x (omega arith))

unfoldable pub receiving : Header → ℕ → List ℕ → Stream
receiving h k b = record {
  state = read_payload;
  offset = k;
  expected = h.length;
  header = h;
  buffer = b;
}

unfoldable pub finished : Header → ℕ → List ℕ → Stream
finished h k b = record {
  state = scan_magic0;
  offset = k;
  expected = h.length;
  header = h;
  buffer = b;
}

feed_payload-more :
    (h : Header) (k x : ℕ) (b : List ℕ)
    → suc k < h.length
    → h.length ≤ payload_max
    → feed_payload (receiving h k b) x ≡ (receiving h (suc k) (set b k x), waiting)
unfolding feed_payload receiving
feed_payload-more h k x b more max = ground arith

feed_payload-last :
    (h : Header) (k x : ℕ) (b : List ℕ)
    → suc k ≡ h.length
    → h.length ≤ payload_max
    → h.checksum ≡ checksum (take h.length (set b k x))
    → feed_payload (receiving h k b) x ≡ (finished h (suc k) (set b k x), received h (set b k x))
unfolding feed_payload receiving finished
feed_payload-last h k x b last max sum = ground arith

-- The rest of a payload completes the buffer.
pub payload-delivered :
    (h : Header) (k : ℕ) (b xs rest : List ℕ)
    → k + length xs ≡ h.length
    → 0 < length xs
    → length b ≡ payload_max
    → h.length ≤ payload_max
    → h.checksum ≡ checksum (take k b ++ xs)
    → (s : Stream) × IsIdle s
      × (deliveries (receiving h k b) (xs ++ rest) ≡ (h.kind, take k b ++ xs) ∷ deliveries s rest)
unfolding deliveries feed receiving finished
payload-delivered h k b [] rest e pos size max sum = absurd (omega arith)
payload-delivered h k b (x ∷ []) rest e pos size max sum =
    let whole : take h.length (set b k x) ≡ take k b ++ (x ∷ []) =
      ap (λ n. take n (set b k x)) {x = h.length} {y = suc k} (omega arith)
      ∙ take-set b k x (omega arith) in
    let s = finished h (suc k) (set b k x) in
    let idle : IsIdle s = record { state = refl; buffer = length-set b k x ∙ size } in
    (
      s,
      idle,
      ap (λ (r : Stream × Fed). collect r.1 (deliveries r.0 rest))
            (feed_payload-last h k x b (omega arith) max (sum ∙ sym (ap checksum whole)))
          ∙ ap (λ l. (h.kind, l) ∷ deliveries s rest) whole,
    )
payload-delivered h k b (x ∷ y ∷ xs) rest e pos size max sum =
    let so_far : take (suc k) (set b k x) ++ (y ∷ xs) ≡ take k b ++ (x ∷ y ∷ xs) =
      ap (λ l. l ++ (y ∷ xs)) (take-set b k x (omega arith))
      ∙ append_assoc (take k b) (x ∷ []) (y ∷ xs) in
    let (s, idle, delivered) =
      payload-delivered h (suc k) (set b k x) (y ∷ xs) rest (omega arith) (omega arith)
        (length-set b k x ∙ size) max (sum ∙ ap checksum (sym so_far)) in
    (
      s,
      idle,
      ap (λ (r : Stream × Fed). collect r.1 (deliveries r.0 (y ∷ xs ++ rest)))
            (feed_payload-more h k x b (omega arith) max)
          ∙ delivered
          ∙ ap (λ l. (h.kind, l) ∷ deliveries s rest) so_far,
    )
