-- ===== src/Buffer/Limits.antt =====
-- What `add` does with more than 2^31 bytes: sizes are 32 bits wide and nothing checks the sum.
use nepenthes.Base.{
  ℕ, zero, suc, ◌+◌, ◌*◌, ◌%◌, ◌^◌, ◌≤◌, ◌<◌, ◌≡◌, arith, refl, List, [], ◌∷◌, length, running,
  fault, Realloc, lt→ltb, ==-suc-zero, memcpy,
}
use nepenthes.Buffer.{Buffer, grow, add, add_to_block, store}
use nepenthes.Buffer.Contents.{IsValid}
use nepenthes.Buffer.Growth.{doubled, grow-zero}

le-doubled : (k n : ℕ) → n ≤ doubled k n
le-doubled zero n = omega arith
le-doubled (suc k) n = omega (arith, le-doubled k (n * 2))

-- A size that doubles to exactly 2^31 never reaches more than that: the next shift makes it 0.
pub grow-running :
    (fuel k total size : ℕ)
    → doubled k size ≡ 2 ^ 31
    → 2 ^ 31 < total
    → grow fuel total size ≡ running
unfolding grow
grow-running zero k total size e big = refl
grow-running (suc fuel) zero total size e big =
    let out : (size * 2) % 2 ^ 32 ≡ 0 = omega arith in
    rw (lt→ltb size total (omega arith), out, grow-zero fuel total (omega arith))
grow-running (suc fuel) (suc k) total size e big =
    let small : size * 2 ≤ 2 ^ 31 = omega (arith, le-doubled k (size * 2)) in
    let same : (size * 2) % 2 ^ 32 ≡ size * 2 = omega arith in
    rw (lt→ltb size total (omega arith), same, grow-running fuel k total (size * 2) e big)

module _ (r : Realloc) where
  add-enters :
      (b : Buffer) (d : List ℕ) → 0 < b.alloc_size → 0 < length d → add r b d ≡ add_to_block r b d
  unfolding add
  add-enters b [] block some_data = absurd (omega arith)
  add-enters b (x ∷ d) block some_data = rw (==-suc-zero (length d)) (ground arith)

  -- In a buffer whose block is a power of two of at most 2^31 bytes, adding up to a sum between
  -- 2^31 and 2^32 never returns: no number of rounds ends the doubling loop.
  pub add-running :
      (b : Buffer) (d : List ℕ) (k : ℕ)
      → 0 < b.alloc_size
      → doubled k b.alloc_size ≡ 2 ^ 31
      → 0 < length d
      → 2 ^ 31 < b.offset + length d
      → b.offset + length d < 2 ^ 32
      → (add r b d ≡ running)
        × ((fuel : ℕ) → grow fuel (b.offset + length d) b.alloc_size ≡ running)
  unfolding add_to_block
  add-running b d k block power some_data big width =
      let total = (b.offset + length d) % 2 ^ 32 in
      let big' : 2 ^ 31 < total = omega arith in
      let below : b.alloc_size < total = omega (arith, le-doubled k b.alloc_size) in
      (
        rw
            (
              add-enters b d block some_data,
              add_to_block,
              lt→ltb b.alloc_size total below,
              grow-running 33 k total b.alloc_size power big',
            )
            refl,
        λ fuel. grow-running fuel k (b.offset + length d) b.alloc_size power big,
      )

  -- In a valid buffer that has a block, for data of less than 2^32 bytes: when the sum of the
  -- sizes reaches 2^32 and, reduced by it, does not pass the size of the block, the block seems
  -- large enough, and the copy writes past its end.
  pub add-fault :
      (b : Buffer) (d : List ℕ)
      → IsValid b
      → 0 < b.alloc_size
      → length d < 2 ^ 32
      → 2 ^ 32 ≤ b.offset + length d
      → b.offset + length d ≤ b.alloc_size + 2 ^ 32
      → add r b d ≡ fault
  unfolding add_to_block store memcpy
  add-fault b d v block width big seems =
      let total = (b.offset + length d) % 2 ^ 32 in
      let small : total ≤ b.alloc_size = omega (arith, v.fits, v.width) in
      let outside : length b.bytes < b.offset + length d =
        omega (arith, v.sized, v.fits, v.width) in
      rw (add-enters b d block (omega (arith, v.fits, v.width))) (ground (arith, small, outside))
