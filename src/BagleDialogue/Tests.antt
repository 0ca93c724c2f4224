-- ===== src/BagleDialogue/Tests.antt =====
-- The theorems about the back door at concrete messages.
use nepenthes.Base.{
  ℕ, ◌≡◌, refl, arith, inl, List, [], ◌∷◌, ◌++◌, zeroing, none, done, codes, ◌>>=◌,
}
use nepenthes.DownloadBuffer.{DownloadBuffer}
use nepenthes.DownloadBuffer.Supply.{endless, endless-Succeeds}
use nepenthes.DownloadBuffer.Contents.{contents}
use nepenthes.BagleDialogue.{
  new_dialogue, BagleDialogue, respond, submit, run, connection_shutdown, is_case_prefix, lower,
  printable,
}
use nepenthes.BagleDialogue.Auth.{admitted, run-admitted}
use nepenthes.BagleDialogue.Binary.{run-submits}

-- The first password in three messages.
abbrev password : List (List ℕ)
password =
    (0x43 ∷ 0xFF ∷ 0xFF ∷ 0xFF ∷ 0x30 ∷ [])
    ∷ (0x30 ∷ 0x30 ∷ 0x01 ∷ 0x0A ∷ 0x1F ∷ 0x2B ∷ 0x28 ∷ [])
    ∷ (0x2B ∷ 0xA1 ∷ 0x32 ∷ 0x01 ∷ [])
    ∷ []

run-admitted_example :
    (new_dialogue zeroing 0 >>= λ d. run zeroing endless d password)
    ≡ done (admitted 0 none, respond (codes "12345678") ∷ [])
run-admitted_example = run-admitted zeroing endless 0 password (inl refl)

run-submits_example :
    (d : BagleDialogue) × (file : DownloadBuffer) × (run zeroing endless
        (admitted 0 none)
        ((0 ∷ 5 ∷ 0 ∷ 0 ∷ codes "MZ") ∷ codes "a" ∷ codes "bc" ∷ [])
      ≡ done (d, []))
    × ((connection_shutdown d).effects ≡ submit file ∷ [])
    × (contents file ≡ codes "MZabc")
unfolding is_case_prefix lower
run-submits_example =
    run-submits zeroing endless endless-Succeeds none 0 0 5 0 0 (codes "MZ")
      (codes "a" ∷ codes "bc" ∷ []) (omega arith) (omega arith) refl refl refl

-- The url ends at the line's end.
url : printable (codes "http://h/x" ++ (10 ∷ codes "y")) ≡ codes "http://h/x"
unfolding printable
url = refl
