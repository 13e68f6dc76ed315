-- ===== src/Wire/Fields.antt =====
-- Finding the fields of a frame at their offsets, one after the other.
use melodi.Base.{
  length, take, drop, take-append, drop-append, drop-drop, take_all, ℕ, ◌+◌, ◌^◌, ◌<◌, ◌≡◌, ap, ◌∙◌,
  List, ◌++◌, arith,
}
use melodi.Wire.Octets.{get16, get32, put16, put32, get16-put16, get32-put32}

module _ (frame : List ℕ) (n : ℕ) where
  -- With `xs` at offset `n`, what follows stands `m` bytes on.
  pub skip :
      (m : ℕ) (xs ys : List ℕ) → drop n frame ≡ xs ++ ys → length xs ≡ m → drop (n + m) frame ≡ ys
  skip m xs ys at size =
      drop-drop n m frame
      ∙ ap (drop m) at
      ∙ ap (λ k. drop k (xs ++ ys)) {x = m} {y = m + 0} (omega arith)
      ∙ drop-append m 0 xs ys size

  pub field :
      (m : ℕ) (xs ys : List ℕ)
      → drop n frame ≡ xs ++ ys
      → length xs ≡ m
      → take m (drop n frame) ≡ xs
  field m xs ys at size = ap (take m) at ∙ take-append m xs ys size

  pub last_field :
      (m : ℕ) (xs : List ℕ) → drop n frame ≡ xs → length xs ≡ m → take m (drop n frame) ≡ xs
  last_field m xs at size = ap (take m) at ∙ take_all m xs size

  pub field16 :
      (v : ℕ) (ys : List ℕ) → drop n frame ≡ put16 v ++ ys → v < 2 ^ 16 → get16 (drop n frame) ≡ v
  field16 v ys at fits = ap get16 at ∙ get16-put16 v ys fits

  pub field32 :
      (v : ℕ) (ys : List ℕ) → drop n frame ≡ put32 v ++ ys → v < 2 ^ 32 → get32 (drop n frame) ≡ v
  field32 v ys at fits = ap get32 at ∙ get32-put32 v ys fits
