-- ===== src/FileDialogue.antt =====
-- modules/download-ftp/FILEDialogue.cpp, the connection that an ftp server sends a file on, and
-- createDialogue of download-ftp.cpp, which makes it. A download and a control dialogue stand for
-- their pointers, but for the buffer of the download.
pub mod Transfer
pub mod Contexts
mod Tests
use nepenthes.Base.{
  ℕ, ◌*◌, ◌==◌, ltb, Bool, true, false, List, [], ◌∷◌, Option, some, none, Outcome, done, fault,
  ◌>>=◌,
}
use nepenthes.DownloadBuffer.{DownloadBuffer, Malloc, add_data}
use nepenthes.TcpSocket.{ConsumeLevel, cl_drop, cl_assign}

-- `download` is the buffer of m_Download, `none` for NULL.
pub record FileDialogue : Type 0 where
  pub download : Option DownloadBuffer

-- addSubmission(m_Download), which reads the download; the first component is what is submitted.
pub connection_shutdown : FileDialogue → Outcome (List DownloadBuffer × ConsumeLevel)
connection_shutdown d = elim d.download [ none ↦ fault | some b ↦ done (b ∷ [], cl_drop) ]

module _ (m : Malloc) where
  -- What addData answers is not looked at.
  pub incoming_data : FileDialogue → List ℕ → Outcome (FileDialogue × ConsumeLevel)
  incoming_data d msg = elim d.download [
    | none ↦ done (d, cl_drop)
    | some b ↦ do
      (b', _) ← add_data m b msg
      done (
        record { download = some b' },
        elim (ltb (1024 * 1024 * 4) b'.offset) [ true ↦ cl_drop | false ↦ cl_assign ],
      )
  ]

  -- The messages of the server, and then the end of the connection, which the socket tells a dialogue
  -- that was not dropped: the downloads that are given to addSubmission.
  pub run : FileDialogue → List (List ℕ) → Outcome (List DownloadBuffer)
  run d [] = do (submitted, _) ← connection_shutdown d; done submitted
  run d (msg ∷ msgs) = do
    (d', level) ← incoming_data d msg
    elim level as (λ l. Outcome (List DownloadBuffer)) [ cl_drop ↦ done [] | _ ↦ run d' msgs ]

-- A control connection that waits for the server to connect to its port.
pub record FtpContext : Type 0 where
  pub download : DownloadBuffer
  pub control : ℕ
  pub active_port : ℕ

-- The dialogue for a connection on a local port, the control dialogue that has no download from then
-- on, and the contexts that are left.
pub create_dialogue : ℕ → List FtpContext → Option (FileDialogue × ℕ) × List FtpContext
create_dialogue port [] = (none, [])
create_dialogue port (c ∷ contexts) =
    let (made, left) = create_dialogue port contexts in
    elim (c.active_port == port) [
      | true ↦ (some (record { download = some c.download }, c.control), contexts)
      | false ↦ (made, c ∷ left)
    ]
