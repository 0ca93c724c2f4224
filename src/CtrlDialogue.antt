-- ===== src/CtrlDialogue.antt =====
-- modules/download-ftp/CTRLDialogue.cpp: the control connection of an ftp download. A message is the
-- list of its bytes; what the dialogue sends and binds is collected in order. Texts have no zero byte.
pub mod Lines
pub mod Segments
pub mod Session
pub mod Ports
mod Tests
use nepenthes.Base.Int.{pos}
use nepenthes.Base.{
  ℕ, zero, suc, ◌+◌, ◌-◌, ◌*◌, ◌/◌, ◌%◌, ◌^◌, ◌==◌, ltb, if◌then◌else◌, not, Bool, true, false,
  ◌&&◌, List, [], ◌∷◌, ◌++◌, length, take, codes, starts_with, Option, some, none, Outcome, done,
  ◌>>=◌, Realloc,
}
use nepenthes.Buffer
use nepenthes.Buffer.{Buffer, add, cut}
use nepenthes.DownloadUrl.{DownloadUrl}
use nepenthes.TcpSocket.{ConsumeLevel, cl_drop, cl_assign}

pub data FtpDownState : Type 0 where
  ftp_connected ftp_user ftp_pass ftp_type ftp_cwd ftp_port ftp_retr ftp_quit : FtpDownState

-- What the answers of the server change, and the download; `active_port` is the port of the context.
pub record Control : Type 0 where
  pub state : FtpDownState
  pub url : DownloadUrl
  pub flags : ℕ
  pub active_port : ℕ

-- `has_download` is m_Download != NULL.
pub record CtrlDialogue : Type 0 where
  pub has_download : Bool
  pub control : Control
  pub buffer : Buffer

pub data Effect : Type 0 where
  respond : List ℕ → Effect
  bind_tcp_socket add_dialogue_factory : ℕ → Effect

-- A socket that was bound: its port, and whether it has no dialogues and no factories.
pub record Bound : Type 0 where
  pub local_port : ℕ
  pub unused : Bool

-- What the dialogue asks for: the settings of its handler, the address of its socket, rand(), what
-- SocketManager::bindTCPSocket gives for a port, and what %d prints.
pub record Surroundings : Type 0 where
  pub retr_address : ℕ
  pub min_port : ℕ
  pub max_port : ℕ
  pub local_address : ℕ
  pub rand : ℕ
  pub bind : ℕ → Option Bound
  pub print : ℕ → List ℕ

abbrev pub crlf : List ℕ
crlf = 13 ∷ 10 ∷ []

-- strncmp(msg, code, 3) == 0
pub is_reply : List ℕ → List ℕ → Bool
is_reply code line = starts_with code line

pub send_user : Control → List Effect
send_user d = respond (codes "USER " ++ (d.url.user ++ crlf)) ∷ []

pub send_pass : Control → List Effect
send_pass d = respond (codes "PASS " ++ (d.url.pass ++ crlf)) ∷ []

pub send_type : List Effect
send_type = respond (codes "TYPE I" ++ crlf) ∷ []

pub send_cwd : Control → List Effect
send_cwd d = respond (codes "CWD " ++ (d.url.dir ++ crlf)) ∷ []

pub send_retr : Control → List Effect
send_retr d = respond (codes "RETR " ++ (d.url.file ++ crlf)) ∷ []

pub send_quit : List Effect
send_quit = respond (codes "QUIT" ++ crlf) ∷ []

-- ((i >> 4) & 0xf) == 0
pub is_skipped : ℕ → Bool
is_skipped i = (i / 16) % 16 == 0

-- A port that was bound: the loop ends with an unused socket.
pub behind_bind :
    ℕ → (Option Bound → Option Bound × List Effect) → Option Bound → Option Bound × List Effect
behind_bind i next none = let (found, fx) = next none in (found, bind_tcp_socket i ∷ fx)
behind_bind i next (some b) = elim b.unused [
  | true ↦ (some b, bind_tcp_socket i ∷ [])
  | false ↦ let (found, fx) = next (some b) in (found, bind_tcp_socket i ∷ fx)
]

module _ (s : Surroundings) where
  -- The loop over so many ports from `i` on; `last` is the socket of the port before.
  pub find_port : ℕ → ℕ → Option Bound → Option Bound × List Effect
  find_port zero i last = (last, [])
  find_port (suc n) i last = elim (is_skipped i) [
    | true ↦ find_port n (i + 1) last
    | false ↦ behind_bind i (λ last'. find_port n (i + 1) last') (s.bind i)
  ]

  -- The first port and the end of the range.
  pub port_range : ℕ × ℕ
  port_range =
      if s.retr_address == 0
      then (s.rand % 40000 + 1024, s.rand % 40000 + 1024 + 1000)
      else (s.min_port, s.max_port)

  pub port_command : ℕ → ℕ → List ℕ
  port_command ip port =
      codes "PORT "
      ++ (s.print (ip % 256)
          ++ (codes ","
              ++ (s.print (ip / 2 ^ 8 % 256)
                  ++ (codes ","
                      ++ (s.print (ip / 2 ^ 16 % 256)
                          ++ (codes ","
                              ++ (s.print (ip / 2 ^ 24 % 256)
                                  ++ (codes ","
                                      ++ (s.print (port / 2 ^ 8 % 256)
                                          ++ (codes "," ++ (s.print (port % 256) ++ crlf)))))))))))

  -- Without a socket the function logs and returns.
  pub announce : Control → Option Bound → Control × List Effect
  announce d none = (d, [])
  announce d (some b) = (
    record d { active_port = b.local_port },
    add_dialogue_factory b.local_port
        ∷ respond (
            port_command (if s.retr_address == 0 then s.local_address else s.retr_address)
              b.local_port)
        ∷ [],
  )

  pub send_port : Control → Control × List Effect
  send_port d =
      let (low, high) = port_range in
      let (found, fx) = find_port (high - low) low none in
      let (d', fx') = announce d found in (d', fx ++ fx')

  pub to_port : Control → Control × List Effect
  to_port d = let (d', fx) = send_port d in (record d' { state = ftp_port }, fx)

  pub to_dir : List ℕ → Control → Control × List Effect
  to_dir [] d = to_port d
  to_dir (c ∷ dir) d = (record d { state = ftp_cwd }, send_cwd d)

  pub to_cwd_or_port : Control → Control × List Effect
  to_cwd_or_port d = to_dir d.url.dir d

  -- The case FTP_USER.
  pub user_line : Control → List ℕ → Control × List Effect
  user_line d line =
      if is_reply (codes "331") line then (record d { state = ftp_pass }, send_pass d) else (d, [])

  -- The case FTP_CONNECTED, which falls into that of FTP_USER.
  pub connected_line : Control → List ℕ → Control × List Effect
  connected_line d line =
      let greeted = is_reply (codes "220") line in
      let (d', fx) = user_line (if greeted then record d { state = ftp_user } else d) line in
      (d', (if greeted then send_user d else []) ++ fx)

  pub pass_line : Control → List ℕ → Control × List Effect
  pass_line d line =
      if is_reply (codes "230") line
      then (if d.flags == 0
          then to_cwd_or_port d
          else (if d.flags % 2 == 1 then (record d { state = ftp_type }, send_type) else (d, [])))
      else (d, [])

  pub type_line : Control → List ℕ → Control × List Effect
  type_line d line = if is_reply (codes "200") line then to_cwd_or_port d else (d, [])

  pub port_line : Control → List ℕ → Control × List Effect
  port_line d line =
      if is_reply (codes "200") line then (record d { state = ftp_retr }, send_retr d) else (d, [])

  -- The case FTP_CWD falls into that of FTP_PORT.
  pub cwd_line : Control → List ℕ → Control × List Effect
  cwd_line d line =
      let (d', fx) = if is_reply (codes "250") line then to_port d else (d, []) in
      let (d'', fx') = port_line d' line in (d'', fx ++ fx')

  pub retr_line : Control → List ℕ → Control × List Effect
  retr_line d line =
      if is_reply (codes "150") line
      then (d, [])
      else (if is_reply (codes "226") line
          then (record d { state = ftp_quit }, send_quit)
          else (d, []))

  -- The switch; the last component is the return of CL_DROP.
  pub in_state : FtpDownState → Control → List ℕ → Control × List Effect × Bool
  in_state ftp_connected d line = let (d', fx) = connected_line d line in (d', fx, false)
  in_state ftp_user d line = let (d', fx) = user_line d line in (d', fx, false)
  in_state ftp_pass d line = let (d', fx) = pass_line d line in (d', fx, false)
  in_state ftp_type d line = let (d', fx) = type_line d line in (d', fx, false)
  in_state ftp_cwd d line = let (d', fx) = cwd_line d line in (d', fx, false)
  in_state ftp_port d line = let (d', fx) = port_line d line in (d', fx, false)
  in_state ftp_retr d line = let (d', fx) = retr_line d line in (d', fx, false)
  in_state ftp_quit d line = (d, [], is_reply (codes "221") line)

  pub handle_line : Control → List ℕ → Control × List Effect × Bool
  handle_line d line = in_state d.state d line

  -- What is done behind a line: nothing more if the dialogue is dropped.
  pub behind_line :
      (Control → Control × List Effect × Option (List ℕ))
      → Control × List Effect × Bool
      → Control × List Effect × Option (List ℕ)
  behind_line rest (d, fx, true) = (d, fx, none)
  behind_line rest (d, fx, false) = let (d', fx', left) = rest d in (d', fx ++ fx', left)

  -- The loop: `line` is the text from iStart, the last argument that from iStopp; what is left is the
  -- text from iStart, or `none` when the dialogue is dropped.
  pub scan : Control → List ℕ → List ℕ → Control × List Effect × Option (List ℕ)
  scan d line [] = (d, [], some line)
  scan d line (c ∷ rest) = elim (c == 10) [
    | true ↦ behind_line (λ d'. scan d' rest rest) (handle_line d line)
    | false ↦ scan d line rest
  ]

pub is_before_retr : FtpDownState → Bool
is_before_retr ftp_retr = false
is_before_retr ftp_quit = false
is_before_retr state = true

pub record Turn : Type 0 where
  pub dialogue : CtrlDialogue
  pub effects : List Effect
  pub level : ConsumeLevel

-- The end of incomingData: the lines that were read are cut off, but for a dropped dialogue.
pub finish : CtrlDialogue → Buffer → Control × List Effect × Option (List ℕ) → Outcome Turn
finish d b (c, fx, none) =
    done (record { dialogue = record d { control = c; buffer = b }; effects = fx; level = cl_drop })
finish d b (c, fx, some line) = do
  b' ← cut b (pos (b.offset - length line))
  done
      (record { dialogue = record d { control = c; buffer = b' }; effects = fx; level = cl_assign })

-- What the socket does behind an event: a dropped dialogue gets no more of them.
pub carry_on :
    (CtrlDialogue → Outcome (Control × List Effect × Bool))
    → Turn
    → Outcome (Control × List Effect × Bool)
carry_on rest t = do
  (c, fx, over) ← elim t.level as (λ l. Outcome (Control × List Effect × Bool)) [
    | cl_drop ↦ done (t.dialogue.control, [], true)
    | _ ↦ rest t.dialogue
  ]
  done (c, t.effects ++ fx, over)

module _ (r : Realloc) (s : Surroundings) where
  -- The constructor, for a download with this url and these flags; the port is that of a new context.
  pub new_dialogue : DownloadUrl → ℕ → Outcome CtrlDialogue
  new_dialogue url flags = do
    b ← Buffer.new r 128
    done (record {
      has_download = true;
      control = record { state = ftp_connected; url = url; flags = flags; active_port = 0 };
      buffer = b;
    })

  pub incoming_data : CtrlDialogue → List ℕ → Outcome Turn
  incoming_data d msg =
      if not d.has_download && is_before_retr d.control.state
      then done (record { dialogue = d; effects = []; level = cl_drop })
      else (do
        b ← add r d.buffer msg
        let text = take b.offset b.bytes
        finish d b (scan s d.control text text))

  -- The messages as the socket delivers them, until the dialogue is dropped.
  pub run : CtrlDialogue → List (List ℕ) → Outcome (Control × List Effect × Bool)
  run d [] = done (d.control, [], false)
  run d (msg ∷ msgs) = incoming_data d msg >>= carry_on (λ d'. run d' msgs)

pub handle_timeout : CtrlDialogue → Turn
handle_timeout d = elim d.control.state [
  | ftp_retr ↦ record {
    dialogue = record d { control = record d.control { state = ftp_quit } };
    effects = send_quit;
    level = cl_assign;
  }
  | _ ↦ record { dialogue = d; effects = []; level = cl_drop }
]
