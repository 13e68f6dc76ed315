-- ===== src/Mapping/Blake2s/Rounds.antt =====
-- How many rounds the loop of melodi_blake2s_update makes.
use melodi.Base.{
  ◌==◌, ◌!=◌, if◌then◌else◌, Bool-cases, length, take, drop, length-append, length-take,
  length-drop, ℕ, zero, suc, ◌+◌, ◌-◌, ◌*◌, ◌≤◌, ◌<◌, min, ◌≡◌, refl, sym, ap, ◌∙◌, inl, inr, ◌&&◌,
  some, List, [], ◌∷◌, ◌++◌, arith,
}
use melodi.Mapping.Blake2s.{Blake2s, flush, update_loop, update}

-- How many rounds the loop makes at most.
abbrev cost : Blake2s → List ℕ → ℕ
cost c [] = 0
cost c (x ∷ xs) = suc (length xs) + (if length c.buffer == 64 then 1 else 0)

length-flush :
    (c : Blake2s) (left : ℕ)
    → length (flush c left).buffer
      ≡ (if length c.buffer == 64 && left != 0 then 0 else length c.buffer)
unfolding flush
length-flush c left = elim (Bool-cases (length c.buffer == 64 && left != 0)) [
  | inl full ↦ rw (full) refl
  | inr not_full ↦ rw (not_full) refl
]

cost-le :
    (c : Blake2s) (input : List ℕ) (n : ℕ)
    → (0 < length input → length input + (if length c.buffer == 64 then 1 else 0) ≤ n)
    → cost c input ≤ n
cost-le c [] n h = omega arith
cost-le c (x ∷ xs) n h = h (omega arith)

update_loop-some :
    (fuel : ℕ) (c : Blake2s) (input : List ℕ)
    → length c.buffer ≤ 64
    → cost c input ≤ fuel
    → (done : Blake2s) × (update_loop fuel c input ≡ some done) × (length done.buffer ≤ 64)
unfolding update_loop
update_loop-some zero c [] room enough = (c, refl, room)
update_loop-some zero c (x ∷ xs) room enough = absurd (omega arith)
update_loop-some (suc fuel) c [] room enough = (c, refl, room)
update_loop-some (suc fuel) c (x ∷ xs) room enough =
    let amount = min (64 - length c.buffer) (suc (length xs)) in
    let rest = drop amount (x ∷ xs) in
    let filled : Blake2s = record c { buffer = c.buffer ++ take amount (x ∷ xs) } in
    let size : length filled.buffer ≡ length c.buffer + amount =
      length-append c.buffer (take amount (x ∷ xs)) ∙ omega (arith, length-take amount (x ∷ xs)) in
    let left : length rest ≡ suc (length xs) - amount = length-drop amount (x ∷ xs) in
    let flushed = length-flush filled (length rest) in
    update_loop-some fuel (flush filled (length rest)) rest (ground (arith, size, left, flushed)) (
      cost-le (flush filled (length rest)) rest fuel
        (λ more. ground (arith, size, left, flushed, more)))

-- From a buffer of at most 64 octets, the loop of melodi_blake2s_update has read all of its input after
-- at most two rounds for each octet. What it leaves is the result of the call, again with at most 64
-- octets in the buffer.
pub update-enough :
    (c : Blake2s) (input : List ℕ)
    → length c.buffer ≤ 64
    → (update_loop (2 * length input) c input ≡ some (update c input))
      × (length (update c input).buffer ≤ 64)
unfolding update
update-enough c input room =
    let (done, read, kept) =
      update_loop-some (2 * length input) c input room
        (cost-le c input (2 * length input) (λ more. ground arith)) in
    let result : update c input ≡ done = rw (read, update) refl in
    (read ∙ ap some (sym result), omega (arith, kept, ap (λ (d : Blake2s). length d.buffer) result))
