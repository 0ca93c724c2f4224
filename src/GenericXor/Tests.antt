-- ===== src/GenericXor/Tests.antt =====
-- Encoded messages, and the theorems about them.
use nepenthes.Base.{true, false, ℕ, ◌≡◌, refl, arith, List, [], ◌∷◌, ◌++◌, none, some, done, codes}
use nepenthes.ShellcodeManager.{sch_reprocess}
use nepenthes.GenericXor.{
  Match, XorPcreContext, code_size, xor_words, decode, handle_shellcode, handle_konstanz,
}
use nepenthes.GenericXor.Decoding.{with_word}
use nepenthes.GenericXor.Messages.{
  decoded_message, handle_shellcode-Encodes, counted, handle_konstanz-counted,
}

abbrev plain : List ℕ
plain = 144 ∷ 204 ∷ 1 ∷ 255 ∷ 0 ∷ 7 ∷ 8 ∷ 9 ∷ []

-- Two words, whose number is given as 256 - 254, behind a decoder of three bytes.
abbrev example_match : Match
example_match = record {
  preload = codes "A";
  xordecoder = 217 ∷ 254 ∷ 226 ∷ [];
  size = 254 ∷ [];
  key = 17 ∷ 34 ∷ 51 ∷ 68 ∷ [];
  code = with_word 17 34 51 68 plain ++ codes "B";
}

abbrev message : List ℕ
message = codes "A" ++ (217 ∷ 254 ∷ 226 ∷ []) ++ (with_word 17 34 51 68 plain ++ codes "B")

abbrev silent : XorPcreContext
silent = record { exec = λ msg. none; size_invert = false }

abbrev finding : XorPcreContext
finding = record { exec = λ msg. some example_match; size_invert = true }

handle_shellcode-Encodes_example :
    handle_shellcode (silent ∷ finding ∷ []) message
    ≡ done (sch_reprocess, decoded_message example_match (plain ++ codes "B"))
unfolding code_size
handle_shellcode-Encodes_example =
    handle_shellcode-Encodes (silent ∷ []) [] finding example_match message plain (codes "B")
      (refl, tt) refl refl (omega arith)
      ((omega arith, omega arith, omega arith, omega arith), refl, omega arith, refl)

handle_konstanz-counted_example :
    handle_konstanz (λ msg. some (7 ∷ 0 ∷ [], counted 0 plain ++ codes "B")) (codes "x")
    ≡ done (sch_reprocess, plain)
handle_konstanz-counted_example =
    handle_konstanz-counted (λ msg. some (7 ∷ 0 ∷ [], counted 0 plain ++ codes "B")) (codes "x")
      plain (codes "B") 7 0 refl refl (omega arith) (omega arith)

-- The last word of the message is left encoded.
last_word : decode 1 (17 ∷ 34 ∷ 51 ∷ 68 ∷ []) (9 ∷ 9 ∷ 9 ∷ 9 ∷ []) ≡ 9 ∷ 9 ∷ 9 ∷ 9 ∷ []
unfolding decode xor_words
last_word = refl
