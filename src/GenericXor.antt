-- ===== src/GenericXor.antt =====
-- modules/shellcode-generic/sch_generic_xor.cpp and sch_generic_konstanz_xor.cpp: shellcode that is
-- encoded by an exclusive or is decoded. A message is the list of its bytes. What the patterns match
-- is found by pcre, a parameter; a `uint32_t` in memory is read as on x86, and an exclusive or of two
-- such words is that of their bytes.
pub mod Decoding
pub mod Messages
mod Tests
use Prim.Native.Nat.{bit_xor}
use nepenthes.Base.{
  ℕ, zero, suc, ◌+◌, ◌-◌, ◌*◌, ◌%◌, ◌^◌, ltb, if◌then◌else◌, Bool, true, false, List, [], ◌∷◌,
  length, take, replicate, Option, some, none, Outcome, done, fault, ◌>>=◌, memcpy,
}
use nepenthes.ShellcodeManager.{SchResult, sch_nothing, sch_reprocess}

-- The substrings of a match: what is before the decoder, the decoder, in it the size and the key, and
-- what is behind it.
pub record Match : Type 0 where
  pub preload : List ℕ
  pub xordecoder : List ℕ
  pub size : List ℕ
  pub key : List ℕ
  pub code : List ℕ

-- A context: what pcre_exec finds in a message, and the option XF_SIZE_INVERT.
pub record XorPcreContext : Type 0 where
  pub exec : List ℕ → Option Match
  pub size_invert : Bool

-- The number in one, two or four bytes; a size of another length stays 0.
pub code_size : Bool → List ℕ → ℕ
code_size true (a ∷ b ∷ c ∷ d ∷ []) = (2 ^ 32 - (a + b * 2 ^ 8 + c * 2 ^ 16 + d * 2 ^ 24)) % 2 ^ 32
code_size false (a ∷ b ∷ c ∷ d ∷ []) = a + b * 2 ^ 8 + c * 2 ^ 16 + d * 2 ^ 24
code_size invert (a ∷ b ∷ []) = a + b * 2 ^ 8
code_size true (a ∷ []) = 256 - a
code_size false (a ∷ []) = a
code_size invert size = 0

-- for( uint32_t j = 0; j < codesize && j < totalsize; j++ )
pub xor_bytes : ℕ → ℕ → List ℕ → List ℕ
xor_bytes zero key s = s
xor_bytes (suc n) key [] = []
xor_bytes (suc n) key (c ∷ s) = bit_xor c key ∷ xor_bytes n key s

-- for( uint32_t j = 0; j < codesize && (j+1)*4 < totalsize; j++ ), from the j-th word on
pub xor_words : ℕ → ℕ → ℕ → ℕ → ℕ → List ℕ → List ℕ
xor_words (suc n) a b c d (w ∷ x ∷ y ∷ z ∷ t ∷ s) =
    bit_xor w a ∷ bit_xor x b ∷ bit_xor y c ∷ bit_xor z d ∷ xor_words n a b c d (t ∷ s)
xor_words n a b c d s = s

-- The switch on the key's size.
pub decode : ℕ → List ℕ → List ℕ → List ℕ
decode size (k ∷ []) code = xor_bytes size k code
decode size (a ∷ b ∷ c ∷ d ∷ []) code = xor_words size a b c d code
decode size key code = code

-- The new message: no operations in place of the decoder, and the decoded code behind it.
pub new_shellcode : Match → ℕ → ℕ → Outcome (List ℕ)
new_shellcode m size len = do
  s ← memcpy (replicate len 0x90) 0 m.preload
  memcpy s (length m.preload + length m.xordecoder) (decode size m.key m.code)

-- The first context whose pattern matches.
pub handle_shellcode : List XorPcreContext → List ℕ → Outcome (SchResult × List ℕ)
handle_shellcode [] msg = done (sch_nothing, msg)
handle_shellcode (ctx ∷ ctxs) msg = elim (ctx.exec msg) [
  | none ↦ handle_shellcode ctxs msg
  | some m ↦ do
    s ← new_shellcode m (code_size ctx.size_invert m.size) (length msg)
    done (sch_reprocess, s)
]

-- for( uint32_t i = 0; i < payloadLen; i++ ) payload[i] ^= (i+1);
pub xor_counting : ℕ → List ℕ → List ℕ
xor_counting i [] = []
xor_counting i (c ∷ s) = bit_xor c ((i + 1) % 2 ^ 8) ∷ xor_counting (i + 1) s

-- The two bytes of the length, in 16 bits, and one more.
pub payload_len : List ℕ → Outcome ℕ
payload_len (a ∷ b ∷ rest) = done ((a + b * 2 ^ 8 + 1) % 2 ^ 16)
payload_len size = fault

-- What is made of a match: the length and the code behind it.
pub decode_konstanz : List ℕ → Option (List ℕ × List ℕ) → Outcome (SchResult × List ℕ)
decode_konstanz msg none = done (sch_nothing, msg)
decode_konstanz msg (some (size, code)) = do
  n ← payload_len size
  (if ltb (length code % 2 ^ 16) n
      then done (sch_nothing, msg)
      else done (sch_reprocess, xor_counting 0 (take n code)))

-- `exec` is pcre_exec with the decoder's pattern.
pub handle_konstanz : (List ℕ → Option (List ℕ × List ℕ)) → List ℕ → Outcome (SchResult × List ℕ)
handle_konstanz exec msg = decode_konstanz msg (exec msg)
