-- ===== src/FileDialogue/Tests.antt =====
-- A file in three messages, and connections for two downloads.
use nepenthes.Base.{ℕ, ◌≡◌, refl, arith, List, [], ◌∷◌, ◌++◌, none, some, codes}
use nepenthes.DownloadBuffer.{new}
use nepenthes.DownloadBuffer.Contents.{new-IsValid, contents}
use nepenthes.DownloadBuffer.Supply.{endless, endless-Succeeds}
use nepenthes.TcpSocket.Stream.{concat}
use nepenthes.FileDialogue.{FtpContext, run, create_dialogue}
use nepenthes.FileDialogue.Transfer.{file, Ends, run-Ends}
use nepenthes.FileDialogue.Contexts.{create_dialogue-once}

abbrev messages : List (List ℕ)
messages = codes "MZ" ∷ codes "abc" ∷ (0 ∷ []) ∷ []

run-Ends_example : Ends (run endless (file new) messages) (contents new ++ concat messages)
unfolding new
run-Ends_example =
    run-Ends endless messages new endless-Succeeds new-IsValid (omega arith) (omega arith)

abbrev earlier : FtpContext
earlier = record { download = new; control = 1; active_port = 4114 }

abbrev wanted : FtpContext
wanted = record { download = new; control = 2; active_port = 4115 }

abbrev later : FtpContext
later = record { download = new; control = 3; active_port = 0 }

create_dialogue-once_example :
    (create_dialogue 4115 (earlier ∷ wanted ∷ later ∷ [])
      ≡ (some (file new, 2), earlier ∷ later ∷ []))
    × (create_dialogue 4115 (earlier ∷ later ∷ []) ≡ (none, earlier ∷ later ∷ []))
create_dialogue-once_example =
    create_dialogue-once (earlier ∷ []) (later ∷ []) wanted (refl, tt) (refl, tt)
