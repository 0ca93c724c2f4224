-- ===== src/DownloadBuffer/Supply.antt =====
-- A library that always gives memory, filled with zeros: a malloc for the tests.
use nepenthes.Base.{ℕ, ◌≡◌, refl, List, length, some, zeros, length-zeros}
use nepenthes.DownloadBuffer.{Malloc}
use nepenthes.DownloadBuffer.Contents.{Succeeds}

pub length-of_some : (n : ℕ) (block : List ℕ) → some (zeros n) ≡ some block → length block ≡ n
length-of_some n block e = cc (length-zeros n)

abbrev pub endless : Malloc
endless = record { run = λ n. some (zeros n); length-run = length-of_some }

pub endless-Succeeds : Succeeds endless
endless-Succeeds n = (zeros n, refl)
