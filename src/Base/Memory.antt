-- ===== src/Base/Memory.antt =====
-- Blocks of memory as lists of bytes, and what the C library does to them.
use Prim.Native.Nat.{ℕ, zero, suc, ◌+◌, ◌≤◌}
use mathlib.Core.Path.{◌≡◌, refl, ap, ◌∙◌}
use mathlib.Core.List.{List, [], ◌∷◌, ◌++◌, append_assoc}
use native.Mathlib.Omega.{arith}
use nepenthes.Base.Tests.{leb, le→leb, if◌then◌else◌}
use nepenthes.Base.Lists.{
  length, take, drop, replicate, length-append, length-take, length-drop, length-replicate,
  take-append, take-append-le,
}
use nepenthes.Base.Calls.{Outcome, done, fault}

-- memcpy(dst + off, src, len): a write past the end of the block is a fault.
unfoldable pub memcpy : List ℕ → ℕ → List ℕ → Outcome (List ℕ)
memcpy dst off src =
    if leb (off + length src) (length dst)
    then done (take off dst ++ (src ++ drop (off + length src) dst))
    else fault

-- memmove(block, block + from, len), within one block.
unfoldable pub memmove : List ℕ → ℕ → ℕ → Outcome (List ℕ)
memmove block from len =
    if leb (from + len) (length block)
    then done (take len (drop from block) ++ drop len block)
    else fault

-- A successful realloc: the block has the new size, and its old bytes as far as they fit.
pub record Realloc : Type 0 where
  pub run : List ℕ → ℕ → List ℕ
  pub length-run : (block : List ℕ) (n : ℕ) → length (run block n) ≡ n
  pub take-run :
      (block : List ℕ) (n k : ℕ) → k ≤ length block → k ≤ n → take k (run block n) ≡ take k block

-- What a copy that fits leaves: the block's size, and the source behind the kept prefix.
pub memcpy_lem :
    (dst : List ℕ) (off : ℕ) (src : List ℕ)
    → off + length src ≤ length dst
    → (dst' : List ℕ) × (memcpy dst off src ≡ done dst')
      × (length dst' ≡ length dst)
      × (take (off + length src) dst' ≡ take off dst ++ src)
unfolding memcpy
memcpy_lem dst off src h = (
  take off dst ++ (src ++ drop (off + length src) dst),
  rw (le→leb _ _ h),
  omega (
    arith,
    length-append (take off dst) (src ++ drop (off + length src) dst),
    length-append src (drop (off + length src) dst),
    length-take off dst,
    length-drop (off + length src) dst,
  ),
  rw (← append_assoc (take off dst) src (drop (off + length src) dst)) (
      take-append (off + length src) (take off dst ++ src) (drop (off + length src) dst)
        (omega (arith, length-append (take off dst) src, length-take off dst))),
)

pub memmove_lem :
    (block : List ℕ) (from len : ℕ)
    → from + len ≤ length block
    → (block' : List ℕ) × (memmove block from len ≡ done block')
      × (length block' ≡ length block)
      × (take len block' ≡ take len (drop from block))
unfolding memmove
memmove_lem block from len h = (
  take len (drop from block) ++ drop len block,
  rw (le→leb _ _ h),
  omega (
    arith,
    length-append (take len (drop from block)) (drop len block),
    length-take len (drop from block),
    length-drop from block,
    length-drop len block,
  ),
  take-append len (take len (drop from block)) (drop len block)
      (omega (arith, length-take len (drop from block), length-drop from block)),
)

-- The allocator that fills new bytes with zeros.
abbrev pub zeroing_run : List ℕ → ℕ → List ℕ
zeroing_run block n = take n (block ++ replicate n 0)

pub length-zeroing_run : (block : List ℕ) (n : ℕ) → length (zeroing_run block n) ≡ n
length-zeroing_run block n = omega (
  arith,
  length-take n (block ++ replicate n 0),
  length-append block (replicate n 0),
  length-replicate {A = ℕ} n 0,
)

take-take : (k n : ℕ) (xs : List ℕ) → k ≤ n → take k (take n xs) ≡ take k xs
take-take zero n xs h = refl
take-take (suc k) zero xs h = absurd (omega arith)
take-take (suc k) (suc n) [] h = refl
take-take (suc k) (suc n) (x ∷ xs) h = ap (◌∷◌ x) (take-take k n xs (omega arith))

pub take-zeroing_run :
    (block : List ℕ) (n k : ℕ)
    → k ≤ length block
    → k ≤ n
    → take k (zeroing_run block n) ≡ take k block
take-zeroing_run block n k h g =
    take-take k n (block ++ replicate n 0) g ∙ take-append-le k block (replicate n 0) h

abbrev pub zeroing : Realloc
zeroing = record { run = zeroing_run; length-run = length-zeroing_run; take-run = take-zeroing_run }

-- A block of zeros that stays shut, for inputs that are too long to write out.
unfoldable pub zeros : ℕ → List ℕ
zeros n = replicate n 0

pub length-zeros : (n : ℕ) → length (zeros n) ≡ n
unfolding zeros
length-zeros n = length-replicate n 0
