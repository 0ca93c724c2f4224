-- ===== src/RcpDialogue.antt =====
-- modules/download-rcp/RCPDialogue.cpp: a file is fetched with rcp. A message is the list of its bytes;
-- what the dialogue writes and submits is collected in order. The buffers are Buffer and
-- DownloadBuffer; atoi() is a parameter, its result taken in 32 bits.
pub mod Requests
pub mod Stats
pub mod Steps
pub mod Transfer
mod Tests
use nepenthes.Base.{
  ℕ, zero, suc, ◌+◌, ◌-◌, ◌*◌, ◌%◌, ◌^◌, ◌==◌, ltb, leb, if◌then◌else◌, Bool, true, false, ◌&&◌,
  not, List, [], ◌∷◌, ◌++◌, length, take, codes, Option, some, none, Outcome, done, fault, ◌>>=◌,
  Realloc,
}
use nepenthes.Buffer.{Buffer, reset, resize, add}
use nepenthes.DownloadBuffer.{DownloadBuffer, Malloc, add_data}
use nepenthes.TcpSocket.{ConsumeLevel, cl_drop, cl_assign}

pub data RcpState : Type 0 where
  request file_stats file : RcpState

-- `download` is the buffer of the download, `none` when the download is submitted and deleted.
pub record RcpDialogue : Type 0 where
  pub state : RcpState
  pub buffer : Buffer
  pub expected_file_size : ℕ
  pub download : Option DownloadBuffer

pub data Effect : Type 0 where
  write : List ℕ → Effect
  submit : DownloadBuffer → Effect

pub record Turn : Type 0 where
  pub dialogue : RcpDialogue
  pub effects : List Effect
  pub level : ConsumeLevel

-- while (*buf != ' ' && size > 0)
pub skip_mode : List ℕ → ℕ → Outcome (List ℕ × ℕ)
skip_mode [] size = fault
skip_mode (c ∷ buf) size =
    let rest = skip_mode buf (size - 1) in
    if not (c == 32) && ltb 0 size then rest else done (c ∷ buf, size)

-- while (*buf == ' ' && size > 0)
pub skip_spaces : List ℕ → ℕ → Outcome (List ℕ × ℕ)
skip_spaces [] size = fault
skip_spaces (c ∷ buf) size =
    let rest = skip_spaces buf (size - 1) in
    if c == 32 && ltb 0 size then rest else done (c ∷ buf, size)

-- The digits up to the size: the string `filesize`.
pub digits : List ℕ → ℕ → Outcome (List ℕ)
digits [] size = fault
digits (c ∷ buf) size =
    let rest = digits buf (size - 1) in
    if (leb 48 c && leb c 57) && ltb 0 size then (do ds ← rest; done (c ∷ ds)) else done []

-- The permissions are skipped if they are there.
pub skip_permissions : List ℕ → ℕ → Outcome (List ℕ × ℕ)
skip_permissions [] size = fault
skip_permissions (c ∷ buf) size = if c == 67 then skip_mode (c ∷ buf) size else done (c ∷ buf, size)

-- The digits of the size in "C0644 98 foo.exe\n".
pub file_size : List ℕ → ℕ → Outcome (List ℕ)
file_size buf size = do r ← skip_permissions buf size; s ← skip_spaces r.0 r.1; digits s.0 s.1

-- *(char *)m_Buffer->getData() == 0, behind the test for the size
pub is_zero : List ℕ → Bool
is_zero [] = false
is_zero (c ∷ rest) = c == 0

-- What is put together in the buffer: the user twice and the command, each ended by a zero byte.
abbrev pub request_parts : List ℕ → List ℕ → List (List ℕ)
request_parts user path = user ∷ (0 ∷ []) ∷ user ∷ (0 ∷ []) ∷ codes "rcp -f " ∷ path ∷ (0 ∷ []) ∷ []

module _ (r : Realloc) where
  pub add_all : Buffer → List (List ℕ) → Outcome Buffer
  add_all b [] = done b
  add_all b (d ∷ ds) = do b' ← add r b d; add_all b' ds

  pub connection_established : RcpDialogue → List ℕ → List ℕ → Outcome Turn
  connection_established d user path = do
    b ← resize r reset 1024
    b' ← add_all b (request_parts user path)
    done (record {
      dialogue = record d { buffer = reset };
      effects = write (0 ∷ []) ∷ write (take b'.offset b'.bytes) ∷ [];
      level = cl_assign;
    })

  -- The server answers the request with a zero byte.
  pub request_answer : RcpDialogue → List ℕ → Outcome Turn
  request_answer d msg = do
    b ← add r d.buffer msg
    (if b.offset == 1 && is_zero b.bytes
        then done (record {
          dialogue = record d { state = file_stats; buffer = reset };
          effects = write (0 ∷ []) ∷ [];
          level = cl_assign;
        })
        else done (record { dialogue = record d { buffer = b }; effects = []; level = cl_drop }))

module _ (r : Realloc) (m : Malloc) (atoi : List ℕ → ℕ) where
  pub stats : RcpDialogue → List ℕ → Outcome Turn
  stats d msg = do
    b ← add r d.buffer msg
    size ← file_size b.bytes b.offset
    done (record {
      dialogue = record d { state = file; buffer = reset; expected_file_size = atoi size };
      effects = write (0 ∷ []) ∷ [];
      level = cl_assign;
    })

  -- The last bytes, up to the expected size: addData(msg->getMsg(), expected - size).
  pub last_bytes : RcpDialogue → DownloadBuffer → List ℕ → ℕ → Outcome Turn
  last_bytes d down msg count = if ltb (length msg) count then fault else (do
    b ← add_data m down (take count msg)
    done (record {
      dialogue = record d { download = none };
      effects = submit b.0 ∷ [];
      level = cl_assign;
    }))

  pub more_bytes : RcpDialogue → DownloadBuffer → List ℕ → Outcome Turn
  more_bytes d down msg = do
    b ← add_data m down msg
    done (record {
      dialogue = record d { download = some b.0 };
      effects = [];
      level = if ltb (1024 * 1024 * 4) b.0.offset then cl_drop else cl_assign;
    })

  pub file_data : RcpDialogue → DownloadBuffer → List ℕ → Outcome Turn
  file_data d down msg =
      if leb d.expected_file_size ((down.offset + length msg) % 2 ^ 32)
      then last_bytes d down msg ((d.expected_file_size + 2 ^ 32 - down.offset) % 2 ^ 32)
      else more_bytes d down msg

  pub incoming_data : RcpDialogue → List ℕ → Outcome Turn
  incoming_data d msg = elim d.download [
    | none ↦ done (record { dialogue = d; effects = []; level = cl_assign })
    | some down ↦ elim d.state [
      | request ↦ request_answer r d msg
      | file_stats ↦ stats d msg
      | file ↦ file_data d down msg
    ]
  ]

  -- The messages as the socket delivers them, until the dialogue drops itself.
  pub run : RcpDialogue → List (List ℕ) → Outcome (RcpDialogue × List Effect)
  run d [] = done (d, [])
  run d (msg ∷ msgs) = do
    t ← incoming_data d msg
    rest ← elim t.level as (λ l. Outcome (RcpDialogue × List Effect)) [
      | cl_drop ↦ done (t.dialogue, [])
      | _ ↦ run t.dialogue msgs
    ]
    done (rest.0, t.effects ++ rest.1)

-- The log line of a timeout reads the size of the download's buffer.
pub handle_timeout : RcpDialogue → Outcome Turn
handle_timeout d = elim d.download [
  | none ↦ fault
  | some down ↦ done (record { dialogue = d; effects = []; level = cl_drop })
]

pub submit_rest : RcpDialogue → DownloadBuffer → List Effect
submit_rest d down =
    if ltb 0 d.expected_file_size && not (down.offset == d.expected_file_size)
    then []
    else submit down ∷ []

pub connection_shutdown : RcpDialogue → Turn
connection_shutdown d = record {
  dialogue = d;
  effects = elim d.download [ none ↦ [] | some down ↦ submit_rest d down ];
  level = cl_drop;
}
