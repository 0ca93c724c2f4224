-- ===== src/Base64/Encoding.antt =====
-- What the base64 coder writes is the text that RFC 4648 describes.
use nepenthes.Base.{
  ℕ, suc, ◌+◌, ◌*◌, ◌/◌, ◌%◌, ◌-◌, ◌^◌, ◌<◌, ◌≡◌, ◌∙◌, refl, ap, ap₂, arith, ltb, ◌==◌, ==_iff,
  if◌then◌else◌, true, List, [], ◌∷◌, ◌++◌, length, replicate, All, some, done,
}
use nepenthes.Base64.{
  encoded, lookup, write, encode_block, b64enc, b64encode, encoded_size, b64encode_alloc,
}
use nepenthes.Base64.Tables.{all_below, all_below_lem}
use nepenthes.Base64.Lengths.{b64encode_len-small, counted-small}

abbrev pub Byte : ℕ → Type 0
Byte x = x < 256

-- The 24 bits of a group, of which the missing ones are 0, are four digits of 64; a digit that has
-- only missing bits is an equals sign.
abbrev pub group : ℕ → ℕ → ℕ → ℕ
group a b c = a * 65536 + b * 256 + c

-- The alphabet of RFC 4648: letters, small letters, figures, '+' and '/'.
abbrev pub alphabet : ℕ → ℕ
alphabet x =
    if ltb x 26
    then 65 + x
    else (if ltb x 52
        then 97 + (x - 26)
        else (if ltb x 62 then 48 + (x - 52) else (if x == 62 then 43 else 47)))

in_table : all_below 64 (λ x. encoded x == alphabet x) ≡ true
unfolding all_below encoded lookup
in_table = refl

encoded-alphabet : (x : ℕ) → x < 64 → encoded x ≡ alphabet x
encoded-alphabet x less =
    (==_iff (encoded x) (alphabet x)).0
      (all_below_lem 64 (λ x. encoded x == alphabet x) in_table x less)

abbrev pub digit : ℕ → ℕ → ℕ
digit weight n = encoded (n / weight % 64)

abbrev pub letter : ℕ → ℕ → ℕ
letter weight n = alphabet (n / weight % 64)

abbrev pub text : List ℕ → List ℕ
text [] = []
text (a ∷ []) = digit 262144 (group a 0 0) ∷ digit 4096 (group a 0 0) ∷ 61 ∷ 61 ∷ []
text (a ∷ b ∷ []) =
    digit 262144 (group a b 0) ∷ digit 4096 (group a b 0) ∷ digit 64 (group a b 0) ∷ 61 ∷ []
text (a ∷ b ∷ c ∷ rest) =
    digit 262144 (group a b c)
    ∷ digit 4096 (group a b c)
    ∷ digit 64 (group a b c)
    ∷ digit 1 (group a b c)
    ∷ text rest

digit_0 : (a b c : ℕ) → a < 256 → b < 256 → c < 256 → a / 4 % 64 ≡ group a b c / 262144 % 64
digit_0 a b c ha hb hc = omega (arith, ha, hb, hc)

digit_1 : (a b c : ℕ) → a < 256 → b < 256 → c < 256 → a % 4 * 16 + b / 16 ≡ group a b c / 4096 % 64
digit_1 a b c ha hb hc = omega (arith, ha, hb, hc)

digit_2 : (a b c : ℕ) → a < 256 → b < 256 → c < 256 → b % 16 * 4 + c / 64 ≡ group a b c / 64 % 64
digit_2 a b c ha hb hc = omega (arith, ha, hb, hc)

digit_3 : (a b c : ℕ) → c % 64 ≡ group a b c / 1 % 64
digit_3 a b c = omega arith

encoded_size-step :
    (n : ℕ) → encoded_size (suc (suc (suc n))) ≡ suc (suc (suc (suc (encoded_size n))))
unfolding encoded_size
encoded_size-step n = omega arith

-- The encoding loop on the cells that `text` has, whatever stands behind them.
b64encode-text :
    (inp post : List ℕ)
    → All Byte inp
    → b64encode inp (replicate (encoded_size (length inp)) 61 ++ post) ≡ done (text inp ++ post)
unfolding b64encode b64enc write
b64encode-text [] post h = unfold encoded_size in refl
b64encode-text (a ∷ []) post h =
    unfold encoded_size in
    rw
      (digit_0 a 0 0 h.0 (omega arith) (omega arith), digit_1 a 0 0 h.0 (omega arith) (omega arith))
b64encode-text (a ∷ b ∷ []) post h =
    unfold encoded_size in
    rw (
      digit_0 a b 0 h.0 h.1.0 (omega arith),
      digit_1 a b 0 h.0 h.1.0 (omega arith),
      digit_2 a b 0 h.0 h.1.0 (omega arith),
    )
b64encode-text (a ∷ b ∷ c ∷ rest) post (ha, (hb, (hc, h))) = rw (
  encoded_size-step (length rest),
  b64encode-text rest post h,
  digit_0 a b c ha hb hc,
  digit_1 a b c ha hb hc,
  digit_2 a b c ha hb hc,
  digit_3 a b c,
)

-- The text that RFC 4648 describes.
abbrev pub rfc_text : List ℕ → List ℕ
rfc_text [] = []
rfc_text (a ∷ []) = letter 262144 (group a 0 0) ∷ letter 4096 (group a 0 0) ∷ 61 ∷ 61 ∷ []
rfc_text (a ∷ b ∷ []) =
    letter 262144 (group a b 0) ∷ letter 4096 (group a b 0) ∷ letter 64 (group a b 0) ∷ 61 ∷ []
rfc_text (a ∷ b ∷ c ∷ rest) =
    letter 262144 (group a b c)
    ∷ letter 4096 (group a b c)
    ∷ letter 64 (group a b c)
    ∷ letter 1 (group a b c)
    ∷ rfc_text rest

letter-digit : (w n : ℕ) → digit w n ≡ letter w n
letter-digit w n = encoded-alphabet (n / w % 64) (omega arith)

pub text-rfc_text : (inp : List ℕ) → text inp ≡ rfc_text inp
text-rfc_text [] = refl
text-rfc_text (a ∷ []) =
    ap₂ (λ x y. x ∷ y ∷ 61 ∷ 61 ∷ []) (letter-digit 262144 (group a 0 0))
      (letter-digit 4096 (group a 0 0))
text-rfc_text (a ∷ b ∷ []) =
    ap₂ (λ x y. x ∷ y ∷ digit 64 (group a b 0) ∷ 61 ∷ []) (letter-digit 262144 (group a b 0))
      (letter-digit 4096 (group a b 0))
    ∙ ap (λ z. letter 262144 (group a b 0) ∷ letter 4096 (group a b 0) ∷ z ∷ 61 ∷ [])
        (letter-digit 64 (group a b 0))
text-rfc_text (a ∷ b ∷ c ∷ rest) =
    let n = group a b c in
    ap₂ (λ x y. x ∷ y ∷ digit 64 n ∷ digit 1 n ∷ text rest) (letter-digit 262144 n)
      (letter-digit 4096 n)
    ∙ ap₂ (λ x y. letter 262144 n ∷ letter 4096 n ∷ x ∷ y ∷ text rest) (letter-digit 64 n)
        (letter-digit 1 n)
    ∙ ap (λ z. letter 262144 n ∷ letter 4096 n ∷ letter 64 n ∷ letter 1 n ∷ z) (text-rfc_text rest)

pub b64encode_alloc-made :
    (inp : List ℕ)
    → All Byte inp
    → length inp + 2 < 3 * 2 ^ 29
    → b64encode_alloc true inp ≡ done (some (text inp ++ 0 ∷ []))
unfolding b64encode_alloc encode_block
b64encode_alloc-made inp h small = rw (
  b64encode_len-small (length inp) small,
  counted-small inp (omega (arith, small)),
  b64encode-text inp (0 ∷ []) h,
)

-- For bytes, so few that four thirds of their number stay below 2^31, and when malloc() gives memory,
-- `b64encode_alloc` returns the base64 text of RFC 4648 as a C string: no length overflows, it writes
-- nothing outside its block, and the equals signs that it was filled with stay where the last group is
-- short.
pub b64encode_alloc-text :
    (inp : List ℕ)
    → All Byte inp
    → length inp + 2 < 3 * 2 ^ 29
    → b64encode_alloc true inp ≡ done (some (rfc_text inp ++ 0 ∷ []))
b64encode_alloc-text inp h small =
    b64encode_alloc-made inp h small ∙ ap (λ s. done (some (s ++ 0 ∷ []))) (text-rfc_text inp)
