-- ===== src/Buffer/Tests.antt =====
-- Runs of the buffer, and the theorems about it at concrete inputs.
use nepenthes.Base.{
  ℕ, ◌+◌, ◌-◌, ◌^◌, ◌≡◌, refl, arith, List, [], ◌∷◌, ◌++◌, codes, zeroing, zeros, length-zeros,
  length, done, running, fault, memcpy,
}
use nepenthes.Buffer.{Buffer, reset, pad, grow, resize, store, add}
use nepenthes.Buffer.Contents.{IsValid, contents, Holds}
use nepenthes.Buffer.Refinement.{Operation, append, remove, perform_all, perform_all-Holds}
use nepenthes.Buffer.Contents.{reset-IsValid}
use nepenthes.Buffer.Limits.{add-running, add-fault}

abbrev greeting : List ℕ
greeting = b'h' ∷ b'i' ∷ []

-- One block, filled up.
abbrev full : Buffer
full = record { bytes = zeros 256; offset = 256; alloc_size = 256 }

full-IsValid : IsValid full
full-IsValid = record {
  sized = length-zeros 256;
  fits = omega arith;
  blocks = refl;
  width = omega arith;
}

add-running_example :
    (add zeroing full (zeros (2 ^ 31)) ≡ running)
    × ((fuel : ℕ) → grow fuel (256 + length (zeros (2 ^ 31))) 256 ≡ running)
add-running_example =
    add-running zeroing full (zeros (2 ^ 31)) 23 (omega arith) refl
      (omega (arith, length-zeros (2 ^ 31))) (omega (arith, length-zeros (2 ^ 31)))
      (omega (arith, length-zeros (2 ^ 31)))

add-fault_example : add zeroing full (zeros (2 ^ 32 - 100)) ≡ fault
add-fault_example =
    add-fault zeroing full (zeros (2 ^ 32 - 100)) full-IsValid (omega arith)
      (omega (arith, length-zeros (2 ^ 32 - 100))) (omega (arith, length-zeros (2 ^ 32 - 100)))
      (omega (arith, length-zeros (2 ^ 32 - 100)))

add_first : (b : Buffer) × (add zeroing reset greeting ≡ done b) × (contents b ≡ greeting)
unfolding add resize store reset pad memcpy zeros
add_first = (record { bytes = greeting ++ zeros 254; offset = 2; alloc_size = 256 }, refl, refl)

abbrev calls : List Operation
calls = append greeting ∷ remove 1 ∷ append greeting ∷ []

perform_all-Holds_example : Holds (perform_all zeroing calls reset) (codes "ihi")
unfolding reset
perform_all-Holds_example =
    perform_all-Holds zeroing calls reset reset-IsValid (
      omega arith,
      omega arith,
      (omega arith, omega arith, (omega arith, omega arith, omega arith)),
    )
