-- ===== src/Base/Int.antt =====
-- Signed machine integers as integers over the native numbers.
use Prim.Native.Nat.{ℕ, suc, ◌+◌, ◌-◌, ◌^◌, ◌≤◌, ◌<◌}
use mathlib.Core.Path.{◌≡◌}
use mathlib.Core.Bool.{Bool, true, false}
use native.Mathlib.Omega.{arith}
use nepenthes.Base.Tests.{ltb, leb, if◌then◌else◌}

-- `negsuc n` is -(n + 1).
pub data ℤ : Type 0 where
  pos : ℕ → ℤ
  negsuc : ℕ → ℤ

abbrev pub pos_part : ℤ → ℕ
pos_part (pos n) = n
pos_part (negsuc n) = 0

abbrev pub neg_part : ℤ → ℕ
neg_part (pos n) = 0
neg_part (negsuc n) = suc n

-- The test a <= b.
abbrev pub int_leb : ℤ → ℤ → Bool
int_leb a b = leb (pos_part a + neg_part b) (pos_part b + neg_part a)

-- (int32_t)w for a uint32_t w.
abbrev pub signed32 : ℕ → ℤ
signed32 w = if ltb w (2 ^ 31) then pos w else negsuc (2 ^ 32 - w - 1)

-- A size below 2^31 is the same number when it is read as signed.
pub int_leb-signed32 : (n m : ℕ) → n ≤ m → m < 2 ^ 31 → int_leb (pos n) (signed32 m) ≡ true
int_leb-signed32 n m h small = ground arith

pub int_leb-signed32_gt :
    (n m : ℕ) → m < n → n < 2 ^ 31 → m < 2 ^ 31 → int_leb (pos n) (signed32 m) ≡ false
int_leb-signed32_gt n m h small small' = ground arith

pub int_leb-negsuc : (n m : ℕ) → m < 2 ^ 31 → int_leb (negsuc n) (signed32 m) ≡ true
int_leb-negsuc n m small = ground arith
