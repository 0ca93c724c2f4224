-- ===== src/Base64/Decoding.antt =====
-- Decoding takes back what encoding made.
use nepenthes.Base.{
  ℕ, zero, suc, ◌+◌, ◌/◌, ◌%◌, ◌*◌, ◌^◌, ◌<◌, ◌≡◌, refl, arith, true, List, [], ◌∷◌, ◌++◌, length,
  replicate, All, some, done,
}
use nepenthes.Base64.{
  decoded, lookup, first, second, third, write, b64dec, b64decode, decoded_size, encoded_size,
  decode_block, b64decode_alloc, b64encode_alloc, c_string,
}
use nepenthes.Base64.Tables.{decoded-encoded, encoded-positive}
use nepenthes.Base64.Encoding.{Byte, group, digit, text, b64encode_alloc-made}
use nepenthes.Base64.Lengths.{b64decode_len-small, counted-small}

-- How many equals signs the text ends with.
abbrev pub equals_signs : List ℕ → ℕ
equals_signs [] = 0
equals_signs (a ∷ []) = 2
equals_signs (a ∷ b ∷ []) = 1
equals_signs (a ∷ b ∷ c ∷ rest) = equals_signs rest

decoded-digit : (w n : ℕ) → decoded (digit w n) ≡ n / w % 64
decoded-digit w n = decoded-encoded (n / w % 64) (omega arith)

decoded-equals : decoded 61 ≡ 0
unfolding decoded lookup
decoded-equals = refl

first-group :
    (a b c : ℕ)
    → a < 256
    → b < 256
    → c < 256
    → first (group a b c / 262144 % 64) (group a b c / 4096 % 64) ≡ a
unfolding first
first-group a b c ha hb hc = omega (arith, ha, hb, hc)

second-group :
    (a b c : ℕ)
    → a < 256
    → b < 256
    → c < 256
    → second (group a b c / 4096 % 64) (group a b c / 64 % 64) ≡ b
unfolding second
second-group a b c ha hb hc = omega (arith, ha, hb, hc)

third-group :
    (a b c : ℕ)
    → a < 256
    → b < 256
    → c < 256
    → third (group a b c / 64 % 64) (group a b c / 1 % 64) ≡ c
unfolding third
third-group a b c ha hb hc = omega (arith, ha, hb, hc)

-- The groups that are not full.
second-single : (a : ℕ) → second (group a 0 0 / 4096 % 64) 0 ≡ 0
unfolding second
second-single a = omega arith

third-pair : (a b : ℕ) → third (group a b 0 / 64 % 64) 0 ≡ 0
unfolding third
third-pair a b = omega arith

third-single : third 0 0 ≡ 0
unfolding third
third-single = refl

decoded_size-step :
    (n m : ℕ) → decoded_size (suc (suc (suc (suc n)))) + m ≡ suc (suc (suc (decoded_size n + m)))
unfolding decoded_size
decoded_size-step n m = omega arith

one_group : (m : ℕ) → decoded_size 4 + m ≡ suc (suc (suc m))
unfolding decoded_size
one_group m = omega arith

plus_two : (m : ℕ) → 2 + m ≡ suc (suc m)
plus_two m = omega arith

plus_one : (m : ℕ) → 1 + m ≡ suc m
plus_one m = omega arith

-- The decoding loop on a text, in a block that was filled with 0.
b64decode-text :
    (inp : List ℕ) (m : ℕ)
    → All Byte inp
    → b64decode (text inp) (replicate (decoded_size (length (text inp)) + m) 0)
      ≡ done (inp ++ replicate (equals_signs inp + m) 0)
unfolding b64decode b64dec write
b64decode-text [] m h = unfold decoded_size in refl
b64decode-text (a ∷ []) m h = rw (
  one_group m,
  plus_two m,
  decoded-digit 262144 (group a 0 0),
  decoded-digit 4096 (group a 0 0),
  decoded-equals,
  first-group a 0 0 h.0 (omega arith) (omega arith),
  second-single a,
  third-single,
)
b64decode-text (a ∷ b ∷ []) m h = rw (
  one_group m,
  plus_one m,
  decoded-digit 262144 (group a b 0),
  decoded-digit 4096 (group a b 0),
  decoded-digit 64 (group a b 0),
  decoded-equals,
  first-group a b 0 h.0 h.1.0 (omega arith),
  second-group a b 0 h.0 h.1.0 (omega arith),
  third-pair a b,
)
b64decode-text (a ∷ b ∷ c ∷ rest) m (ha, (hb, (hc, h))) = rw (
  decoded_size-step (length (text rest)) m,
  decoded-digit 262144 (group a b c),
  decoded-digit 4096 (group a b c),
  decoded-digit 64 (group a b c),
  decoded-digit 1 (group a b c),
  first-group a b c ha hb hc,
  second-group a b c ha hb hc,
  third-group a b c ha hb hc,
  b64decode-text rest m h,
)

digit-positive : (w n : ℕ) → 0 < digit w n
digit-positive w n = encoded-positive (n / w % 64) (omega arith)

text-positive : (inp : List ℕ) → All (λ c. 0 < c) (text inp)
text-positive [] = tt
text-positive (a ∷ []) =
    (digit-positive _ _, (digit-positive _ _, (omega arith, (omega arith, tt))))
text-positive (a ∷ b ∷ []) =
    (digit-positive _ _, (digit-positive _ _, (digit-positive _ _, (omega arith, tt))))
text-positive (a ∷ b ∷ c ∷ rest) = (
  digit-positive _ _,
  (digit-positive _ _, (digit-positive _ _, (digit-positive _ _, text-positive rest))),
)

c_string-append : (s : List ℕ) → All (λ c. 0 < c) s → c_string (s ++ 0 ∷ []) ≡ done s
unfolding c_string
c_string-append [] h = refl
c_string-append (zero ∷ s) h = absurd (omega (arith, h.0))
c_string-append (suc c ∷ s) h = rw (c_string-append s h.1)

length-text : (inp : List ℕ) → length (text inp) ≡ encoded_size (length inp)
unfolding encoded_size
length-text [] = refl
length-text (a ∷ []) = refl
length-text (a ∷ b ∷ []) = refl
length-text (a ∷ b ∷ c ∷ rest) = omega (arith, length-text rest)

text_fits : (n m : ℕ) → n + 2 < 3 * 2 ^ 29 → m ≡ encoded_size n → m + 3 < 2 ^ 31
unfolding encoded_size
text_fits n m less e = omega (arith, less, e)

-- For bytes, so few that four thirds of their number stay below 2^31, and when malloc() gives memory,
-- `b64decode_alloc` of what `b64encode_alloc` returns gives the bytes back, followed by a 0 for each
-- equals sign and one more; no length overflows, and no access leaves its block.
pub b64decode-b64encode :
    (inp : List ℕ)
    → All Byte inp
    → length inp + 2 < 3 * 2 ^ 29
    → (n : List ℕ) × (b64encode_alloc true inp ≡ done (some n))
      × (b64decode_alloc true n ≡ done (some (inp ++ replicate (equals_signs inp + 1) 0)))
unfolding b64decode_alloc decode_block
b64decode-b64encode inp h small =
    let size : length (text inp) + 3 < 2 ^ 31 =
      text_fits (length inp) (length (text inp)) small (length-text inp) in
    (
      text inp ++ 0 ∷ [],
      b64encode_alloc-made inp h small,
      rw (
        c_string-append (text inp) (text-positive inp),
        b64decode_len-small (length (text inp)) size,
        counted-small (text inp) (omega (arith, size)),
        b64decode-text inp 1 h,
      ),
    )
