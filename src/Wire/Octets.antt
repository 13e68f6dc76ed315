-- ===== src/Wire/Octets.antt =====
-- The big-endian fields of src/proto/wire.c. (src/proto/radio.c has the same helpers for 16 and 32
-- bits.) A buffer is the list of its bytes; a field is read at the head of what is left of it.
use melodi.Base.{
  get_or, drop, u8, u16, u32, u64, ◌<<<◌, ◌>>>◌, bit_or-shl, ℕ, ◌+◌, ◌*◌, ◌/◌, ◌%◌, ◌^◌, ◌<◌,
  bit_or, ◌≡◌, ap, ap₂, ◌∙◌, List, ◌∷◌, ◌++◌, arith, [],
}

pub get16 : List ℕ → ℕ
get16 b = bit_or (u16 (get_or b 0 0 <<< 8)) (get_or b 1 0)

unfoldable pub get32 : List ℕ → ℕ
get32 b =
    bit_or
      (bit_or (bit_or (u32 (get_or b 0 0 <<< 24)) (u32 (get_or b 1 0 <<< 16)))
        (u32 (get_or b 2 0 <<< 8)))
      (get_or b 3 0)

pub get64 : List ℕ → ℕ
get64 b = bit_or (u64 (get32 b <<< 32)) (get32 (drop 4 b))

abbrev pub put16 : ℕ → List ℕ
put16 v = u8 (v >>> 8) ∷ u8 v ∷ []

abbrev pub put32 : ℕ → List ℕ
put32 v = u8 (v >>> 24) ∷ u8 (v >>> 16) ∷ u8 (v >>> 8) ∷ u8 v ∷ []

abbrev pub put64 : ℕ → List ℕ
put64 v = put32 (u32 (v >>> 32)) ++ put32 (u32 v)

pub get16_sum : (b₀ b₁ : ℕ) (r : List ℕ) → b₀ < 256 → b₁ < 256 → get16 (b₀ ∷ b₁ ∷ r) ≡ b₀ * 256 + b₁
unfolding get16
get16_sum b₀ b₁ r h₀ h₁ =
    ap (λ (t : ℕ). bit_or t b₁) {y = b₀ <<< 8} (omega arith) ∙ bit_or-shl 8 b₀ b₁ h₁

pub get32_sum :
    (b₀ b₁ b₂ b₃ : ℕ) (r : List ℕ)
    → b₀ < 256
    → b₁ < 256
    → b₂ < 256
    → b₃ < 256
    → get32 (b₀ ∷ b₁ ∷ b₂ ∷ b₃ ∷ r) ≡ b₀ * 2 ^ 24 + b₁ * 2 ^ 16 + b₂ * 2 ^ 8 + b₃
unfolding get32
get32_sum b₀ b₁ b₂ b₃ r h₀ h₁ h₂ h₃ =
    ap (λ (t : ℕ). bit_or t b₃) {y = (b₀ * 2 ^ 16 + b₁ * 2 ^ 8 + b₂) <<< 8} third
    ∙ bit_or-shl 8 (b₀ * 2 ^ 16 + b₁ * 2 ^ 8 + b₂) b₃ h₃
    ∙ omega arith
  where
    first : bit_or (u32 (b₀ <<< 24)) (u32 (b₁ <<< 16)) ≡ (b₀ * 2 ^ 8 + b₁) <<< 16
    first =
        ap₂ bit_or {x = u32 (b₀ <<< 24)} {y = b₀ <<< 24} {u = u32 (b₁ <<< 16)} {v = b₁ * 2 ^ 16}
          (omega arith) (omega arith)
        ∙ bit_or-shl 24 b₀ (b₁ * 2 ^ 16) (omega arith)
        ∙ omega arith

    third :
        bit_or (bit_or (u32 (b₀ <<< 24)) (u32 (b₁ <<< 16))) (u32 (b₂ <<< 8))
        ≡ (b₀ * 2 ^ 16 + b₁ * 2 ^ 8 + b₂) <<< 8
    third =
        ap₂ bit_or {u = u32 (b₂ <<< 8)} {v = b₂ * 2 ^ 8} first (omega arith)
        ∙ bit_or-shl 16 (b₀ * 2 ^ 8 + b₁) (b₂ * 2 ^ 8) (omega arith)
        ∙ omega arith

pub get16-put16 : (v : ℕ) (r : List ℕ) → v < 2 ^ 16 → get16 (put16 v ++ r) ≡ v
get16-put16 v r h = omega (arith, get16_sum (u8 (v >>> 8)) (u8 v) r (omega arith) (omega arith))

pub get32-put32 : (v : ℕ) (r : List ℕ) → v < 2 ^ 32 → get32 (put32 v ++ r) ≡ v
get32-put32 v r h = omega (
  arith,
  get32_sum (u8 (v >>> 24)) (u8 (v >>> 16)) (u8 (v >>> 8)) (u8 v) r (omega arith) (omega arith)
      (omega arith) (omega arith),
)

pub get64-put64 : (v : ℕ) (r : List ℕ) → v < 2 ^ 64 → get64 (put64 v ++ r) ≡ v
unfolding get64
get64-put64 v r h =
    ap₂ bit_or {y = (v / 2 ^ 32) <<< 32} {v = v % 2 ^ 32}
      (omega (arith, get32-put32 (u32 (v >>> 32)) (put32 (u32 v) ++ r)))
      (get32-put32 (u32 v) r (omega arith))
    ∙ bit_or-shl 32 (v / 2 ^ 32) (v % 2 ^ 32) (omega arith)
    ∙ omega arith
