-- ===== src/TftpDialogue.antt =====
-- modules/download-tftp/TFTPDialogue.cpp: a file is fetched from a tftp server, block by block. A
-- message is the list of its bytes; what the dialogue calls on its socket and on the submit manager
-- is collected in order. The buffer is DownloadBuffer.
pub mod Steps
pub mod Chunks
pub mod Transfer
pub mod Blocks
mod Tests
use nepenthes.Base.{
  ℕ, zero, suc, ◌+◌, ◌-◌, ◌*◌, ◌/◌, ◌%◌, ◌^◌, ◌==◌, ltb, leb, if◌then◌else◌, Bool, true, false,
  List, [], ◌∷◌, ◌++◌, length, take, drop, codes, Outcome, done, fault, ◌>>=◌, memcpy,
}
use nepenthes.DownloadBuffer.{DownloadBuffer, Malloc, add_data}
use nepenthes.TcpSocket.{ConsumeLevel, cl_drop, cl_assign}

-- `last_send` is the block behind m_LastSendPacket, of which the first `last_send_length` bytes are
-- sent again after a timeout.
pub record TftpDialogue : Type 0 where
  pub max_file_size : ℕ
  pub max_retries : ℕ
  pub retries : ℕ
  pub blocks : ℕ
  pub last_send : List ℕ
  pub last_send_length : ℕ
  pub buffer : DownloadBuffer

pub data Effect : Type 0 where
  respond : List ℕ → Effect
  submit : DownloadBuffer → Effect
  close : Effect

pub record Turn : Type 0 where
  pub dialogue : TftpDialogue
  pub effects : List Effect
  pub level : ConsumeLevel

-- RRQ, the file's name and the mode "octet", each ended by a 0.
pub set_request : TftpDialogue → List ℕ → TftpDialogue × ℕ
set_request d file = (
  record d {
    last_send = 0 ∷ 1 ∷ (file ++ (0 ∷ (codes "octet" ++ 0 ∷ [])));
    last_send_length = length file + 9;
  },
  length file + 9,
)

-- ntohs() of the two bytes at the pointer.
pub word : List ℕ → Outcome ℕ
word [] = fault
word (a ∷ []) = fault
word (a ∷ b ∷ rest) = done (a * 256 + b)

abbrev pub ack : ℕ → List ℕ
ack block = 0 ∷ 4 ∷ block / 256 ∷ block % 256 ∷ []

abbrev pub closes : List Effect → Bool
closes [] = false
closes (respond bytes ∷ fx) = closes fx
closes (submit b ∷ fx) = closes fx
closes (close ∷ fx) = true

-- The dialogue gets no more messages: the socket is closed, or it has dropped itself.
abbrev pub is_over : Turn → Bool
is_over t = elim t.level [ cl_drop ↦ true | _ ↦ closes t.effects ]

module _ (m : Malloc) where
  -- The bytes behind the header are stored; a message of less than 512 bytes is taken for the last.
  pub keep : TftpDialogue → List ℕ → ℕ → Outcome Turn
  keep d msg block = do
    r ← add_data m d.buffer (drop 4 msg)
    let d' : TftpDialogue = record d { buffer = r.0 }
    done (
        if ltb (length msg) 512
        then (record {
          dialogue = d';
          effects = respond (ack block) ∷ submit r.0 ∷ close ∷ [];
          level = cl_assign;
        })
        else (record {
          dialogue = d';
          effects = respond (ack block) ∷ [];
          level = if ltb (1024 * 1024 * 4) r.0.offset then cl_drop else cl_assign;
        }))

  -- The block that is next is acknowledged, also if the file gets too large by it.
  pub accept : TftpDialogue → List ℕ → ℕ → Outcome Turn
  accept d msg block = do
    packet ← memcpy d.last_send 0 (ack block)
    let d' : TftpDialogue = record d {
      last_send = packet;
      last_send_length = 4;
      blocks = (d.blocks + 1) % 2 ^ 32;
    }
    let too_large : Bool =
        ltb d.max_file_size ((d.buffer.offset + length msg + 2 ^ 32 - 4) % 2 ^ 32)
    (if too_large
        then done
            (record { dialogue = d'; effects = respond (ack block) ∷ close ∷ []; level = cl_drop })
        else keep d' msg block)

  -- A message with data.
  pub data_block : TftpDialogue → List ℕ → Outcome Turn
  data_block d msg = do
    block ← word (drop 2 msg)
    let d' : TftpDialogue = record d { retries = 0 }
    (if block == (d.blocks + 1) % 2 ^ 32
        then accept d' msg block
        else done (record { dialogue = d'; effects = []; level = cl_assign }))

  pub incoming_data : TftpDialogue → List ℕ → Outcome Turn
  incoming_data d msg = do
    opcode ← word msg
    (if opcode == 3
        then data_block d msg
        else done (record {
          dialogue = d;
          effects = if opcode == 5 then close ∷ [] else [];
          level = cl_assign;
        }))

  -- The messages as the socket delivers them, until it is over.
  pub run : TftpDialogue → List (List ℕ) → Outcome (TftpDialogue × List Effect)
  run d [] = done (d, [])
  run d (msg ∷ msgs) = do
    t ← incoming_data d msg
    rest ← elim (is_over t) as (λ b. Outcome (TftpDialogue × List Effect)) [
      | true ↦ done (t.dialogue, [])
      | false ↦ run t.dialogue msgs
    ]
    done (rest.0, t.effects ++ rest.1)

pub handle_timeout : TftpDialogue → Turn
handle_timeout d =
    let d' : TftpDialogue = record d { retries = (d.retries + 1) % 2 ^ 32 } in
    if ltb d'.retries d.max_retries
    then (record {
      dialogue = d';
      effects = respond (take d.last_send_length d.last_send) ∷ [];
      level = cl_assign;
    })
    else (record { dialogue = d'; effects = []; level = cl_drop })
