-- ===== src/Base/Xor.antt =====
-- The exclusive or of two bytes.
use Prim.Native.Nat.{ℕ, zero, suc, ◌<◌, bit_xor}
use mathlib.Core.Path.{◌≡◌, refl}
use mathlib.Core.Bool.{Bool, true, ◌&&◌}
use native.Mathlib.Omega.{arith}
use nepenthes.Base.Tests.{◌==◌, ==_iff}

unfoldable pub all_below : ℕ → (ℕ → Bool) → Bool
all_below zero f = true
all_below (suc n) f = f n && all_below n f

pub at_one : (n : ℕ) (f : ℕ → Bool) (x : ℕ) → all_below n f ≡ true → x < n → f x ≡ true
unfolding all_below
at_one zero f x h less = absurd (omega (arith, less))
at_one (suc n) f x h less = ground (arith, at_one n f x)

restores : ℕ → ℕ → Bool
restores x k = bit_xor (bit_xor x k) k == x

table : all_below 256 (λ x. all_below 256 (restores x)) ≡ true
unfolding all_below restores
table = refl

-- A byte that is changed by a key twice is the byte again.
pub xor_twice : (x k : ℕ) → x < 256 → k < 256 → bit_xor (bit_xor x k) k ≡ x
unfolding restores
xor_twice x k h h' =
    (==_iff (bit_xor (bit_xor x k) k) x).0
      (at_one 256 (restores x) k (at_one 256 (λ y. all_below 256 (restores y)) x table h) h')
