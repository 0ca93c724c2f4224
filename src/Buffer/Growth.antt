-- ===== src/Buffer/Growth.antt =====
-- How the buffer's block grows: the doubling loop and the padding to blocks of 256 bytes.
use nepenthes.Base.{
  ℕ, zero, suc, ◌+◌, ◌-◌, ◌*◌, ◌%◌, ◌^◌, ◌≤◌, ◌<◌, ◌≡◌, arith, refl, done, running, inl, inr, ltb,
  Bool-cases, ltb→lt,
}
use nepenthes.Buffer.{grow, pad}

-- A size doubled so many times.
abbrev pub doubled : ℕ → ℕ → ℕ
doubled zero n = n
doubled (suc k) n = doubled k (n * 2)

-- The loop ends with a size that is enough and still fits 32 bits, when what is needed is at most
-- 2^31 and the fuel allows for as many doublings as that takes.
pub grow-done :
    (fuel total size : ℕ)
    → size < 2 ^ 32
    → total ≤ 2 ^ 31
    → total ≤ doubled fuel size
    → (n : ℕ) × (grow (suc fuel) total size ≡ done n)
      × (total ≤ n)
      × (size ≤ n)
      × (n < 2 ^ 32)
      × ((size % 256 ≡ 0) → n % 256 ≡ 0)
unfolding grow
grow-done zero total size small fits reach =
    (size, ground arith, omega arith, omega arith, omega arith, λ h. h)
grow-done (suc fuel) total size small fits reach = elim (Bool-cases (ltb size total)) [
  | inl more ↦
      let lt : size < total = ltb→lt _ _ more in
      let e : (size * 2) % 2 ^ 32 ≡ size * 2 = omega arith in
      let (n, runs, enough, above, small', blocks) =
        grow-done fuel total (size * 2) (omega arith) fits reach in
      (n, rw (more, e) runs, enough, omega arith, small', λ h. blocks (omega arith))
  | inr stop ↦ (size, rw stop, ground arith, omega arith, omega arith, λ h. h)
]

-- Padding keeps a size that is far enough from the end of the range, up to less than a block.
pub pad_bounds : (n : ℕ) → n ≤ 2 ^ 32 - 256 → (n ≤ pad n) × (pad n < n + 256) × (pad n % 256 ≡ 0)
unfolding pad
pad_bounds n h = ground arith

-- A size of 0 is never doubled out of: once the shifts have pushed all bits out, the loop never
-- ends.
pub grow-zero : (fuel total : ℕ) → 0 < total → grow fuel total 0 ≡ running
unfolding grow
grow-zero zero total h = refl
grow-zero (suc fuel) total h = rw (grow-zero fuel total h) (ground arith)
