-- ===== src/DownloadBuffer/Tests.antt =====
-- Runs of the download buffer, and the theorems about it at concrete inputs.
use nepenthes.Base.{ℕ, ◌≡◌, refl, arith, List, [], ◌∷◌, ◌++◌, some, none, length, fault}
use nepenthes.DownloadBuffer.{DownloadBuffer, Malloc, add_data}
use nepenthes.DownloadBuffer.Contents.{IsValid, contents, Holds, add_data-contents}
use nepenthes.DownloadBuffer.Supply.{endless, endless-Succeeds}
use nepenthes.DownloadBuffer.Limits.{add_data-fault}

-- No memory at all.
length-of_none : (n : ℕ) (block : List ℕ) → none ≡ some block → length block ≡ n
length-of_none n block e = cc

abbrev exhausted : Malloc
exhausted = record { run = λ n. none; length-run = length-of_none }

abbrev full : DownloadBuffer
full = record { buffer = some (7 ∷ 8 ∷ []); size = 2; offset = 2 }

full-IsValid : IsValid full
full-IsValid = omega arith

add_data-contents_example : Holds (add_data endless full (9 ∷ [])) (contents full ++ 9 ∷ [])
add_data-contents_example =
    add_data-contents endless full (9 ∷ []) endless-Succeeds full-IsValid (omega arith)

add_data-fault_example : add_data exhausted full (9 ∷ []) ≡ fault
add_data-fault_example =
    add_data-fault exhausted full (7 ∷ 8 ∷ []) (9 ∷ []) full-IsValid refl (omega arith)
      (λ n h. refl) (omega arith) (omega arith)
