-- ===== src/Radio/Stream/Checksum.antt =====
-- The checksum of src/proto/radio.c on payloads that differ.
use melodi.Base.{
  ltb, if◌then◌else◌, length, IsByte, IsBytes, length-append, u32, bit_and_mask, ℕ, ◌+◌, ◌-◌, ◌*◌,
  ◌^◌, ◌≤◌, ◌<◌, max, ◌≡◌, ap, ◌∙◌, ◌≢◌, List, ◌∷◌, ◌++◌, arith, [],
}
use melodi.Radio.Stream.{payload_max, sum_octets, fold_carry, checksum}

-- The sum of the octets, without the wrap-around.
sum : List ℕ → ℕ
sum [] = 0
sum (x ∷ xs) = x + sum xs

sum-append : (xs ys : List ℕ) → sum (xs ++ ys) ≡ sum xs + sum ys
unfolding sum
sum-append [] ys = omega arith
sum-append (x ∷ xs) ys = omega (arith, sum-append xs ys)

sum-le : (xs : List ℕ) → IsBytes xs → sum xs ≤ 255 * length xs
unfolding sum
sum-le [] v = omega arith
sum-le (x ∷ xs) (h, v) = omega (arith, sum-le xs v)

sum_octets-sum : (xs : List ℕ) (n : ℕ) → n + sum xs < 2 ^ 32 → sum_octets n xs ≡ n + sum xs
unfolding sum sum_octets
sum_octets-sum [] n fits = omega arith
sum_octets-sum (x ∷ xs) n fits =
    ap (λ m. sum_octets m xs) {x = u32 (n + x)} {y = n + x} (omega arith)
    ∙ sum_octets-sum xs (n + x) (omega arith)
    ∙ omega arith

-- The sum of at most 512 octets takes one carry.
fold_carry-small : (s : ℕ) → s < 131071 → fold_carry 3 s ≡ (if ltb s 65536 then s else s - 65535)
unfolding fold_carry
fold_carry-small s h = ground (arith, bit_and_mask 16 s)

checksum-sum :
    (xs : List ℕ)
    → IsBytes xs
    → length xs ≤ payload_max
    → checksum xs ≡ (if ltb (sum xs) 65536 then 65535 - sum xs else 131070 - sum xs)
unfolding checksum
checksum-sum xs v max = ground (
  arith,
  sum-le xs v,
  sum_octets-sum xs 0 (omega (arith, sum-le xs v)),
  fold_carry-small (sum_octets 0 xs)
      (omega (arith, sum-le xs v, sum_octets-sum xs 0 (omega (arith, sum-le xs v)))),
)

IsBytes-at : (pre : List ℕ) (x : ℕ) (post : List ℕ) → IsBytes (pre ++ x ∷ post) → IsByte x
IsBytes-at [] x post (h, v) = h
IsBytes-at (y ∷ pre) x post (h, v) = IsBytes-at pre x post v

-- Two payloads of at most 512 octets that differ in one octet have different checksums.
pub checksum-one_octet :
    (pre post : List ℕ) (x y : ℕ)
    → IsBytes (pre ++ x ∷ post)
    → IsBytes (pre ++ y ∷ post)
    → length (pre ++ x ∷ post) ≤ payload_max
    → x ≢ y
    → checksum (pre ++ x ∷ post) ≢ checksum (pre ++ y ∷ post)
unfolding sum
checksum-one_octet pre post x y v w max ne e = absurd (
    ground (
      arith,
      e,
      IsBytes-at pre x post v,
      IsBytes-at pre y post w,
      checksum-sum (pre ++ x ∷ post) v max,
      checksum-sum (pre ++ y ∷ post) w (omega (arith, same_length)),
      sum-append pre (x ∷ post),
      sum-append pre (y ∷ post),
      sum-le (pre ++ x ∷ post) v,
      sum-le (pre ++ y ∷ post) w,
      same_length,
    ))
  where
    same_length : length (pre ++ y ∷ post) ≡ length (pre ++ x ∷ post)
    same_length = omega (arith, length-append pre (x ∷ post), length-append pre (y ∷ post))
