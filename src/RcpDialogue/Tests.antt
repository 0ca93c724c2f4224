-- ===== src/RcpDialogue/Tests.antt =====
-- A transfer, and the theorems about it at a concrete file.
use nepenthes.Base.{
  ℕ, ◌+◌, ◌-◌, ◌*◌, ◌≡◌, refl, arith, List, [], ◌∷◌, ◌++◌, length, zeroing, none, codes, done,
  fault,
}
use nepenthes.Buffer.{reset}
use nepenthes.DownloadBuffer.{DownloadBuffer}
use nepenthes.DownloadBuffer.Supply.{endless, endless-Succeeds}
use nepenthes.DownloadBuffer.Contents.{IsValid}
use nepenthes.RcpDialogue.{
  RcpDialogue, Effect, write, request, run, handle_timeout, skip_mode, skip_spaces, digits,
  file_size, skip_permissions,
}
use nepenthes.RcpDialogue.Stats.{line}
use nepenthes.RcpDialogue.Steps.{waiting, receiving}
use nepenthes.RcpDialogue.Transfer.{SubmitsOne, run-SubmitsOne, run-handle_timeout}

-- A stand-in for atoi(), on digits.
abbrev value_from : ℕ → List ℕ → ℕ
value_from acc [] = acc
value_from acc (c ∷ ds) = value_from (acc * 10 + (c - 48)) ds

abbrev fresh : DownloadBuffer
fresh = record { buffer = none; size = 0; offset = 0 }

fresh-IsValid : IsValid fresh
fresh-IsValid = record { owns = refl; fits = omega arith; width = omega arith }

-- Five bytes of a file and the zero byte, in three messages.
abbrev messages : List (List ℕ)
messages = codes "MZ" ∷ codes "abc" ∷ (0 ∷ []) ∷ []

-- "C0644 5 a.exe\n"
abbrev stats_line : List ℕ
stats_line = line (codes "0644") (codes "5") (codes "a.exe" ++ (10 ∷ []))

found : file_size stats_line (length stats_line) ≡ done (codes "5")
unfolding file_size skip_permissions skip_mode skip_spaces digits
found = refl

run-SubmitsOne_example :
    SubmitsOne zeroing endless
      (value_from 0)
      (waiting request 0 fresh)
      ((0 ∷ []) ∷ stats_line ∷ messages)
      (write (0 ∷ []) ∷ write (0 ∷ []) ∷ [])
      (codes "MZabc")
run-SubmitsOne_example =
    run-SubmitsOne zeroing endless (value_from 0) endless-Succeeds fresh (codes "0644") (codes "5")
      (codes "a.exe" ++ (10 ∷ [])) messages fresh-IsValid (refl, (refl, (refl, (refl, tt))))
      (refl, tt) (omega arith) (omega arith) (omega arith) (omega arith) (omega arith) (omega arith)

run-handle_timeout_example :
    (d' : RcpDialogue) × (fx : List Effect) × (run zeroing endless
        (value_from 0)
        (receiving reset 5 fresh)
        messages
      ≡ done (d', fx))
    × (handle_timeout d' ≡ fault)
run-handle_timeout_example =
    run-handle_timeout zeroing endless (value_from 0) endless-Succeeds messages reset 5 fresh
      fresh-IsValid (omega arith) (omega arith) (omega arith) (omega arith)
