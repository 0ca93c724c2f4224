-- ===== src/TftpDialogue/Tests.antt =====
-- Transfers, and the theorems about them at concrete files.
use nepenthes.Base.{
  ℕ, ◌≡◌, refl, arith, List, [], ◌∷◌, ◌++◌, zeros, length-zeros, All, none, codes, done,
}
use nepenthes.DownloadBuffer.Supply.{endless, endless-Succeeds}
use nepenthes.DownloadBuffer.Contents.{contents}
use nepenthes.TcpSocket.Stream.{concat}
use nepenthes.TftpDialogue.{TftpDialogue, Effect, run, set_request}
use nepenthes.TftpDialogue.Steps.{data_message, submitted, IsReady}
use nepenthes.TftpDialogue.Transfer.{IsReceived, IsWhole, run-IsWhole, run-IsLong}
use nepenthes.TftpDialogue.Blocks.{messages, Submits, run-Submits}

abbrev fresh : TftpDialogue
fresh = record {
  max_file_size = 4194304;
  max_retries = 7;
  retries = 0;
  blocks = 0;
  last_send = 0 ∷ 1 ∷ codes "a";
  last_send_length = 3;
  buffer = record { buffer = none; size = 0; offset = 0 };
}

abbrev ready : TftpDialogue
ready = record fresh { last_send = 0 ∷ 1 ∷ 97 ∷ 0 ∷ 0 ∷ []; last_send_length = 5 }

request :
    (set_request fresh (codes "a")).0.last_send
    ≡ 0 ∷ 1 ∷ 97 ∷ 0 ∷ 111 ∷ 99 ∷ 116 ∷ 101 ∷ 116 ∷ 0 ∷ []
unfolding set_request
request = refl

ready-IsReady : IsReady ready
ready-IsReady = record {
  valid = record { owns = refl; fits = omega arith; width = omega arith };
  packet = omega arith;
  limit = omega arith;
  counter = omega arith;
}

ready-IsReceived : (chunks : List (List ℕ)) → IsReceived chunks ready
ready-IsReceived chunks = record {
  ready = ready-IsReady;
  stored = omega arith;
  known = omega arith;
  holds = refl;
}

abbrev file : List (List ℕ)
file = (5 ∷ 6 ∷ 7 ∷ []) ∷ []

-- The block arrives, and arrives again.
run-IsWhole_example :
    (d' : TftpDialogue) × (fx : List Effect) × (run endless ready
        (data_message 1 (5 ∷ 6 ∷ 7 ∷ []) ∷ data_message 1 (5 ∷ 6 ∷ 7 ∷ []) ∷ [])
      ≡ done (d', fx))
    × All (IsWhole file) (submitted fx)
run-IsWhole_example =
    run-IsWhole endless endless-Succeeds file (omega arith) (omega arith)
      (data_message 1 (5 ∷ 6 ∷ 7 ∷ []) ∷ data_message 1 (5 ∷ 6 ∷ 7 ∷ []) ∷ []) ready
      (ready-IsReceived file)
      ((0, 5 ∷ 6 ∷ 7 ∷ [], refl, refl), ((0, 5 ∷ 6 ∷ 7 ∷ [], refl, refl), tt))

run-Submits_example : Submits endless ready (messages 0 file) (contents ready.buffer ++ concat file)
run-Submits_example =
    run-Submits endless endless-Succeeds file ready ready-IsReady (omega arith) (omega arith)
      (omega arith) (omega arith)

-- 510 bytes, in one block.
abbrev odd_block : List ℕ
odd_block = zeros 510

run-IsLong_example :
    (d' : TftpDialogue) × (fx : List Effect) × (run endless ready (data_message 1 odd_block ∷ [])
      ≡ done (d', fx))
    × (submitted fx ≡ [])
run-IsLong_example =
    run-IsLong endless endless-Succeeds (odd_block ∷ []) (omega (arith, length-zeros 510))
      (omega arith) (data_message 1 odd_block ∷ []) ready (omega (arith, length-zeros 510), tt)
      (ready-IsReceived (odd_block ∷ [])) ((0, odd_block, refl, refl), tt)
