-- ===== src/RcpDialogue/Stats.antt =====
-- The answer of an rcp server before the file: its permissions, its size and its name.
use mathlib.Core.List.{append_assoc}
use nepenthes.Base.{
  ℕ, zero, suc, ◌+◌, ◌-◌, ◌≤◌, ◌<◌, ◌≡◌, ◌∙◌, refl, ap, arith, ◌==◌, ltb, leb, ◌&&◌, true, false,
  List, [], ◌∷◌, ◌++◌, length, length-append, done, All,
}
use nepenthes.RcpDialogue.{skip_mode, skip_spaces, digits, skip_permissions, file_size}

abbrev pub IsBlank : ℕ → Type 0
IsBlank c = (c == 32) ≡ false

abbrev pub IsDigit : ℕ → Type 0
IsDigit c = (leb 48 c && leb c 57) ≡ true

-- "C", permissions, the size's digits and the rest of the line.
abbrev pub line : List ℕ → List ℕ → List ℕ → List ℕ
line mode size name = 67 ∷ (mode ++ (32 ∷ (size ++ (32 ∷ name))))

minus_zero : (n : ℕ) → n - 0 ≡ n
minus_zero n = omega arith

minus_one : (n : ℕ) → suc n - 1 ≡ n
minus_one n = omega arith

suc_minus : (n k : ℕ) → suc n - suc k ≡ n - k
suc_minus n k = omega arith

positive : (n : ℕ) → ltb 0 (suc n) ≡ true
positive n = ground arith

skip_mode-line :
    (mode rest : List ℕ) (size : ℕ)
    → All IsBlank mode
    → length mode < size
    → skip_mode (mode ++ (32 ∷ rest)) size ≡ done (32 ∷ rest, size - length mode)
unfolding skip_mode
skip_mode-line [] rest size h p = rw (minus_zero size)
skip_mode-line (c ∷ mode) rest zero (b, h) p = absurd (omega (arith, p))
skip_mode-line (c ∷ mode) rest (suc size) (b, h) p = rw (
  b,
  positive size,
  minus_one size,
  skip_mode-line mode rest size h (omega (arith, p)),
  suc_minus size (length mode),
)

digits-line :
    (ds rest : List ℕ) (size : ℕ)
    → All IsDigit ds
    → length ds < size
    → digits (ds ++ (32 ∷ rest)) size ≡ done ds
unfolding digits
digits-line [] rest size h p = refl
digits-line (c ∷ ds) rest zero (b, h) p = absurd (omega (arith, p))
digits-line (c ∷ ds) rest (suc size) (b, h) p =
    rw (b, positive size, minus_one size, digits-line ds rest size h (omega (arith, p)))

IsDigit-IsBlank : (c : ℕ) → IsDigit c → IsBlank c
IsDigit-IsBlank c d = ground (arith, d)

skip_spaces-line :
    (c : ℕ) (rest : List ℕ) (size : ℕ)
    → IsDigit c
    → skip_spaces (32 ∷ c ∷ rest) (suc size) ≡ done (c ∷ rest, size)
unfolding skip_spaces
skip_spaces-line c rest size d = rw (positive size, IsDigit-IsBlank c d, minus_one size)

line-append : (mode ds name rest : List ℕ) → line mode ds name ++ rest ≡ line mode ds (name ++ rest)
line-append mode ds name rest = ap (◌∷◌ 67) (
    append_assoc mode (32 ∷ (ds ++ (32 ∷ name))) rest
    ∙ ap (λ (x : List ℕ). mode ++ (32 ∷ x)) (append_assoc ds (32 ∷ name) rest))

length-line : (mode ds name : List ℕ) → 3 + length mode + length ds ≤ length (line mode ds name)
length-line mode ds name =
    omega (arith, length-append mode (32 ∷ (ds ++ (32 ∷ name))), length-append ds (32 ∷ name))

behind_mode :
    (size k : ℕ) (mode : List ℕ)
    → 3 + length mode + k ≤ size
    → (n : ℕ) × (size - suc (length mode) ≡ suc n) × (k < n)
behind_mode size k mode p = (size - suc (suc (length mode)), omega (arith, p), omega (arith, p))

file_size_lem :
    (mode ds more : List ℕ) (size : ℕ)
    → All IsBlank mode
    → All IsDigit ds
    → 0 < length ds
    → 3 + length mode + length ds ≤ size
    → file_size (line mode ds more) size ≡ done ds
unfolding file_size skip_permissions
file_size_lem mode [] more size h h' p q = absurd (omega (arith, p))
file_size_lem mode (c ∷ ds) more size h (d, h') p q =
    let (n, e, big) = behind_mode size (length (c ∷ ds)) mode q in
    rw (
      skip_mode-line (67 ∷ mode) ((c ∷ ds) ++ (32 ∷ more)) size (refl, h) (omega (arith, q)),
      e,
      skip_spaces-line c (ds ++ (32 ∷ more)) n d,
      digits-line (c ∷ ds) more n (d, h') big,
    )

-- The digits of a line are found in the block that it stands in, whatever is behind it.
pub file_size-line :
    (mode ds name rest : List ℕ)
    → All IsBlank mode
    → All IsDigit ds
    → 0 < length ds
    → file_size (line mode ds name ++ rest) (length (line mode ds name)) ≡ done ds
file_size-line mode ds name rest h h' p = rw (line-append mode ds name rest) (
    file_size_lem mode ds (name ++ rest) (length (line mode ds name)) h h' p
      (length-line mode ds name))
