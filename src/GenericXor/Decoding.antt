-- ===== src/GenericXor/Decoding.antt =====
-- Encoded shellcode is decoded: each decoder against a description of the encoder.
use Prim.Native.Nat.{bit_xor}
use nepenthes.Base.{
  ℕ, zero, suc, ◌-◌, ◌*◌, ◌^◌, ◌<◌, ◌≡◌, ◌∙◌, refl, sym, ap, ap₂, arith, List, [], ◌∷◌, ◌++◌,
  length, length-append, All,
}
use nepenthes.Base.Xor.{xor_twice}
use nepenthes.GenericXor.{xor_bytes, xor_words, decode}

abbrev pub IsByte : ℕ → Type 0
IsByte c = c < 2 ^ 8

-- Each byte changed by the key.
abbrev pub with_byte : ℕ → List ℕ → List ℕ
with_byte key [] = []
with_byte key (c ∷ s) = bit_xor c key ∷ with_byte key s

-- Each word changed by the key; there are only whole words.
abbrev pub with_word : ℕ → ℕ → ℕ → ℕ → List ℕ → List ℕ
with_word a b c d (w ∷ x ∷ y ∷ z ∷ s) =
    bit_xor w a ∷ bit_xor x b ∷ bit_xor y c ∷ bit_xor z d ∷ with_word a b c d s
with_word a b c d s = []

-- How the code of `size` units is made of the plain shellcode and of what stands behind it; behind
-- words there is at least a byte.
abbrev pub Encodes : List ℕ → ℕ → List ℕ → List ℕ → List ℕ → Type 0
Encodes (k ∷ []) size plain tail code =
    IsByte k × (length plain ≡ size) × (code ≡ with_byte k plain ++ tail)
Encodes (a ∷ b ∷ c ∷ d ∷ []) size plain tail code =
    (IsByte a × IsByte b × IsByte c × IsByte d)
    × (length plain ≡ 4 * size)
    × (0 < length tail)
    × (code ≡ with_word a b c d plain ++ tail)
Encodes key size plain tail code = ⊥

xor_bytes-with_byte :
    (k : ℕ) (plain tail : List ℕ)
    → IsByte k
    → All IsByte plain
    → xor_bytes (length plain) k (with_byte k plain ++ tail) ≡ plain ++ tail
unfolding xor_bytes
xor_bytes-with_byte k [] tail h bytes = refl
xor_bytes-with_byte k (c ∷ plain) tail h (b, bytes) =
    ap₂ ◌∷◌ (xor_twice c k b h) (xor_bytes-with_byte k plain tail h bytes)

xor_words_step :
    (a b c d n w x y z : ℕ) (s : List ℕ)
    → 0 < length s
    → xor_words (suc n) a b c d (w ∷ x ∷ y ∷ z ∷ s)
      ≡ bit_xor w a ∷ bit_xor x b ∷ bit_xor y c ∷ bit_xor z d ∷ xor_words n a b c d s
unfolding xor_words
xor_words_step a b c d n w x y z [] p = absurd (omega (arith, p))
xor_words_step a b c d n w x y z (t ∷ s) p = refl

xor_words_zero : (a b c d : ℕ) (s : List ℕ) → xor_words 0 a b c d s ≡ s
unfolding xor_words
xor_words_zero a b c d s = refl

same_word :
    (w w' x x' y y' z z' : ℕ) (s s' : List ℕ)
    → w ≡ w'
    → x ≡ x'
    → y ≡ y'
    → z ≡ z'
    → s ≡ s'
    → ◌≡◌ {A = List ℕ} (w ∷ x ∷ y ∷ z ∷ s) (w' ∷ x' ∷ y' ∷ z' ∷ s')
same_word w w' x x' y y' z z' s s' e f g h i = cc

xor_words-with_word :
    (a b c d n : ℕ) (plain tail : List ℕ)
    → IsByte a × IsByte b × IsByte c × IsByte d
    → All IsByte plain
    → length plain ≡ 4 * n
    → 0 < length tail
    → xor_words n a b c d (with_word a b c d plain ++ tail) ≡ plain ++ tail
xor_words-with_word a b c d zero [] tail h bytes e p = xor_words_zero a b c d tail
xor_words-with_word a b c d zero (w ∷ plain) tail h bytes e p = absurd (omega (arith, e))
xor_words-with_word a b c d (suc n) [] tail h bytes e p = absurd (omega (arith, e))
xor_words-with_word a b c d (suc n) (w ∷ []) tail h bytes e p = absurd (omega (arith, e))
xor_words-with_word a b c d (suc n) (w ∷ x ∷ []) tail h bytes e p = absurd (omega (arith, e))
xor_words-with_word a b c d (suc n) (w ∷ x ∷ y ∷ []) tail h bytes e p = absurd (omega (arith, e))
xor_words-with_word a b c d (suc n) (w ∷ x ∷ y ∷ z ∷ plain) tail (ha, hb, hc, hd)
      (bw, (bx, (by, (bz, bytes)))) e p =
    xor_words_step a b c d n (bit_xor w a) (bit_xor x b) (bit_xor y c) (bit_xor z d)
      (with_word a b c d plain ++ tail)
      (omega (arith, p, length-append (with_word a b c d plain) tail))
    ∙ same_word _ w _ x _ y _ z _ (plain ++ tail) (xor_twice w a bw ha) (xor_twice x b bx hb)
        (xor_twice y c by hc) (xor_twice z d bz hd)
        (xor_words-with_word a b c d n plain tail (ha, hb, hc, hd) bytes (omega (arith, e)) p)

pub decode-Encodes :
    (key : List ℕ) (size : ℕ) (plain tail code : List ℕ)
    → All IsByte plain
    → Encodes key size plain tail code
    → decode size key code ≡ plain ++ tail
unfolding decode
decode-Encodes [] size plain tail code bytes h = absurd h
decode-Encodes (k ∷ []) size plain tail code bytes (hk, e, same) =
    ap₂ (λ n s. xor_bytes n k s) (sym e) same ∙ xor_bytes-with_byte k plain tail hk bytes
decode-Encodes (a ∷ b ∷ []) size plain tail code bytes h = absurd h
decode-Encodes (a ∷ b ∷ c ∷ []) size plain tail code bytes h = absurd h
decode-Encodes (a ∷ b ∷ c ∷ d ∷ []) size plain tail code bytes (h, e, p, same) =
    ap (xor_words size a b c d) same ∙ xor_words-with_word a b c d size plain tail h bytes e p
decode-Encodes (a ∷ b ∷ c ∷ d ∷ x ∷ key) size plain tail code bytes h = absurd h

length-with_byte : (k : ℕ) (plain : List ℕ) → length (with_byte k plain) ≡ length plain
length-with_byte k [] = refl
length-with_byte k (c ∷ plain) = ap suc (length-with_byte k plain)

length-with_word :
    (a b c d n : ℕ) (plain : List ℕ)
    → length plain ≡ 4 * n
    → length (with_word a b c d plain) ≡ length plain
length-with_word a b c d n [] e = refl
length-with_word a b c d n (w ∷ []) e = absurd (omega (arith, e))
length-with_word a b c d n (w ∷ x ∷ []) e = absurd (omega (arith, e))
length-with_word a b c d n (w ∷ x ∷ y ∷ []) e = absurd (omega (arith, e))
length-with_word a b c d n (w ∷ x ∷ y ∷ z ∷ plain) e =
    ap (λ (i : ℕ). suc (suc (suc (suc i))))
      (length-with_word a b c d (n - 1) plain (omega (arith, e)))

pub length-Encodes :
    (key : List ℕ) (size : ℕ) (plain tail code : List ℕ)
    → Encodes key size plain tail code
    → length code ≡ length (plain ++ tail)
length-Encodes [] size plain tail code h = absurd h
length-Encodes (k ∷ []) size plain tail code (hk, e, same) = omega (
  arith,
  ap length same,
  length-append (with_byte k plain) tail,
  length-append plain tail,
  length-with_byte k plain,
)
length-Encodes (a ∷ b ∷ []) size plain tail code h = absurd h
length-Encodes (a ∷ b ∷ c ∷ []) size plain tail code h = absurd h
length-Encodes (a ∷ b ∷ c ∷ d ∷ []) size plain tail code (h, e, p, same) = omega (
  arith,
  ap length same,
  length-append (with_word a b c d plain) tail,
  length-append plain tail,
  length-with_word a b c d size plain e,
)
length-Encodes (a ∷ b ∷ c ∷ d ∷ x ∷ key) size plain tail code h = absurd h
