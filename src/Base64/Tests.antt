-- ===== src/Base64/Tests.antt =====
-- Runs of the base64 coder, and the theorems about it at a concrete input.
use nepenthes.Base.{
  ℕ, ◌≡◌, arith, true, List, [], ◌∷◌, ◌++◌, replicate, All, some, codes, done, ◌+◌,
}
use nepenthes.Base64.{b64encode_alloc, b64decode_alloc}
use nepenthes.Base64.Encoding.{Byte, rfc_text, b64encode_alloc-text}
use nepenthes.Base64.Decoding.{equals_signs, b64decode-b64encode}

abbrev many : List ℕ
many = codes "hello"

many-Byte : All Byte many
many-Byte = (omega arith, (omega arith, (omega arith, (omega arith, (omega arith, tt)))))

b64encode_alloc-text_example : b64encode_alloc true many ≡ done (some (rfc_text many ++ 0 ∷ []))
b64encode_alloc-text_example = b64encode_alloc-text many many-Byte (omega arith)

b64decode-b64encode_example :
    (n : List ℕ) × (b64encode_alloc true many ≡ done (some n))
    × (b64decode_alloc true n ≡ done (some (many ++ replicate (equals_signs many + 1) 0)))
b64decode-b64encode_example = b64decode-b64encode many many-Byte (omega arith)
