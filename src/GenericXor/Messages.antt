-- ===== src/GenericXor/Messages.antt =====
-- The message that a decoder leaves.
use mathlib.Core.List.{append_assoc, append-nil}
use nepenthes.Base.{
  ℕ, zero, suc, ◌+◌, ◌*◌, ◌%◌, ◌^◌, ◌≤◌, ◌<◌, ◌≡◌, ◌∙◌, refl, ap, ap₂, arith, ltb, le→leb, false,
  List, [], ◌∷◌, ◌++◌, length, take, take-append-more, drop-all, drop, take-append, replicate,
  length-append, length-replicate, All, Option, some, none, done, memcpy,
}
use nepenthes.ShellcodeManager.{sch_reprocess}
use nepenthes.GenericXor.{
  Match, XorPcreContext, code_size, new_shellcode, handle_shellcode, xor_counting, payload_len,
  decode_konstanz, handle_konstanz,
}
use Prim.Native.Nat.{bit_xor}
use nepenthes.Base.Xor.{xor_twice}
use nepenthes.GenericXor.Decoding.{IsByte, Encodes, decode-Encodes, length-Encodes}

take-replicate : (k total v : ℕ) → k ≤ total → take k (replicate total v) ≡ replicate k v
take-replicate zero total v p = refl
take-replicate (suc k) zero v p = absurd (omega (arith, p))
take-replicate (suc k) (suc total) v p = ap (◌∷◌ v) (take-replicate k total v (omega (arith, p)))

drop-replicate : (k n total v : ℕ) → total ≡ k + n → drop k (replicate total v) ≡ replicate n v
drop-replicate zero n total v e = ap (λ (i : ℕ). replicate i v) (omega (arith, e))
drop-replicate (suc k) n zero v e = absurd (omega (arith, e))
drop-replicate (suc k) n (suc total) v e = drop-replicate k n total v (omega (arith, e))

-- A copy to the start of a block of one value.
copy_first :
    (s : List ℕ) (n total v : ℕ)
    → total ≡ length s + n
    → memcpy (replicate total v) 0 s ≡ done (s ++ replicate n v)
unfolding memcpy
copy_first s n total v e = rw (
  le→leb (0 + length s) (length (replicate total v)) (omega (arith, e, length-replicate total v)),
  drop-replicate (0 + length s) n total v (omega (arith, e)),
)

-- A copy that fills the rest of such a block but for `n` values.
copy_last :
    (s d : List ℕ) (n m v : ℕ)
    → m ≡ n + length d
    → memcpy (s ++ replicate m v) (length s + n) d ≡ done (s ++ (replicate n v ++ d))
unfolding memcpy
copy_last s d n m v e = rw (
  le→leb (length s + n + length d) (length (s ++ replicate m v)) (omega (arith, e, size)),
  take-append-more (length s + n) n s (replicate m v) refl,
  take-replicate n m v (omega (arith, e)),
  drop-all (length s + n + length d) (s ++ replicate m v) (omega (arith, e, size)),
  append-nil d,
  append_assoc s (replicate n v) d,
)
  where
    size : length (s ++ replicate m v) ≡ length s + m
    size = omega (arith, length-append s (replicate m v), length-replicate m v)

-- What pcre promises of the patterns, which are of the form (.*)(...)(.*)$: the substrings cover the
-- message.
abbrev pub Covers : Match → List ℕ → Type 0
Covers m msg = m.preload ++ (m.xordecoder ++ m.code) ≡ msg

-- The shellcode with operations that do nothing in place of the decoder.
abbrev pub decoded_message : Match → List ℕ → List ℕ
decoded_message m code = m.preload ++ (replicate (length m.xordecoder) 0x90 ++ code)

new_shellcode-Encodes :
    (m : Match) (size : ℕ) (msg plain tail : List ℕ)
    → Covers m msg
    → All IsByte plain
    → Encodes m.key size plain tail m.code
    → new_shellcode m size (length msg) ≡ done (decoded_message m (plain ++ tail))
unfolding new_shellcode
new_shellcode-Encodes m size msg plain tail covers bytes enc = rw (
  copy_first m.preload (length m.xordecoder + length m.code) (length msg) 0x90 whole,
  decode-Encodes m.key size plain tail m.code bytes enc,
  copy_last m.preload (plain ++ tail) (length m.xordecoder) (length m.xordecoder + length m.code)
      0x90 fits,
)
  where
    whole : length msg ≡ length m.preload + (length m.xordecoder + length m.code)
    whole = omega (
      arith,
      ap length covers,
      length-append m.preload (m.xordecoder ++ m.code),
      length-append m.xordecoder m.code,
    )

    fits : length m.xordecoder + length m.code ≡ length m.xordecoder + length (plain ++ tail)
    fits = omega (arith, length-Encodes m.key size plain tail m.code enc)

skipped :
    (before ctxs : List XorPcreContext) (msg : List ℕ)
    → All (λ (c : XorPcreContext). c.exec msg ≡ none) before
    → handle_shellcode (before ++ ctxs) msg ≡ handle_shellcode ctxs msg
unfolding handle_shellcode
skipped [] ctxs msg h = refl
skipped (c ∷ before) ctxs msg (e, h) = rw (e, skipped before ctxs msg h)

-- Encoded shellcode is decoded: when the first pattern that matches a message finds a key of one byte
-- and the number of the encoded bytes, or a key of four bytes, the number of the encoded words and at
-- least a byte behind them, the handler asks to search again in a message of the same size that has
-- the plain shellcode in place of the encoded one, the bytes 0x90 in place of the decoder, and all
-- else as it was. pcre gives substrings that cover the message, and keys and shellcode are bytes.
pub handle_shellcode-Encodes :
    (before after : List XorPcreContext) (ctx : XorPcreContext) (m : Match)
    (msg plain tail : List ℕ)
    → All (λ (c : XorPcreContext). c.exec msg ≡ none) before
    → ctx.exec msg ≡ some m
    → Covers m msg
    → All IsByte plain
    → Encodes m.key (code_size ctx.size_invert m.size) plain tail m.code
    → handle_shellcode (before ++ ctx ∷ after) msg
      ≡ done (sch_reprocess, decoded_message m (plain ++ tail))
unfolding handle_shellcode
handle_shellcode-Encodes before after ctx m msg plain tail none_ found covers bytes enc =
    skipped before (ctx ∷ after) msg none_
    ∙ rw (
      found,
      new_shellcode-Encodes m (code_size ctx.size_invert m.size) msg plain tail covers bytes enc,
    )

-- Each byte changed by its position, from `i` on.
abbrev pub counted : ℕ → List ℕ → List ℕ
counted i [] = []
counted i (c ∷ s) = bit_xor c ((i + 1) % 2 ^ 8) ∷ counted (i + 1) s

xor_counting-counted :
    (i : ℕ) (plain : List ℕ) → All IsByte plain → xor_counting i (counted i plain) ≡ plain
unfolding xor_counting
xor_counting-counted i [] h = refl
xor_counting-counted i (c ∷ plain) (b, h) =
    ap₂ ◌∷◌ (xor_twice c ((i + 1) % 2 ^ 8) b (omega arith)) (xor_counting-counted (i + 1) plain h)

length-counted : (i : ℕ) (plain : List ℕ) → length (counted i plain) ≡ length plain
length-counted i [] = refl
length-counted i (c ∷ plain) = ap suc (length-counted (i + 1) plain)

payload_len_lem :
    (a b n : ℕ) → n ≡ a + b * 2 ^ 8 + 1 → n < 2 ^ 16 → payload_len (a ∷ b ∷ []) ≡ done n
unfolding payload_len
payload_len_lem a b n e p = ap done (omega (arith, e, p))

-- The konstanz decoder gives back the shellcode whose bytes were changed by their positions: when pcre
-- finds its length, less one, in two bytes and behind them its code, which is followed by any bytes
-- and is all together shorter than 2^16, the new message is the plain shellcode alone.
pub handle_konstanz-counted :
    (exec : List ℕ → Option (List ℕ × List ℕ)) (msg plain tail : List ℕ) (a b : ℕ)
    → exec msg ≡ some (a ∷ b ∷ [], counted 0 plain ++ tail)
    → length plain ≡ a + b * 2 ^ 8 + 1
    → length plain + length tail < 2 ^ 16
    → All IsByte plain
    → handle_konstanz exec msg ≡ done (sch_reprocess, plain)
unfolding handle_konstanz decode_konstanz
handle_konstanz-counted exec msg plain tail a b found size short_ bytes =
    ap (decode_konstanz msg) found
    ∙ rw (
      number,
      enough,
      take-append (length plain) (counted 0 plain) tail (length-counted 0 plain),
      xor_counting-counted 0 plain bytes,
    )
  where
    number : payload_len (a ∷ b ∷ []) ≡ done (length plain)
    number = payload_len_lem a b (length plain) size (omega (arith, short_))

    enough : ltb (length (counted 0 plain ++ tail) % 2 ^ 16) (length plain) ≡ false
    enough = ground (arith, length-append (counted 0 plain) tail, length-counted 0 plain, short_)
