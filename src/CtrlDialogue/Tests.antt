-- ===== src/CtrlDialogue/Tests.antt =====
-- A session with a server, and the theorems about it.
use nepenthes.Base.{
  ℕ, ◌+◌, ◌≡◌, ◌==◌, refl, arith, true, false, if◌then◌else◌, List, [], ◌∷◌, ◌++◌, Option, zeroing,
  none, some, codes, starts_with, done,
}
use nepenthes.Buffer.{reset}
use nepenthes.Buffer.Contents.{reset-IsValid}
use nepenthes.TcpSocket.Stream.{concat}
use nepenthes.DownloadUrl.{DownloadUrl}
use nepenthes.CtrlDialogue.{
  Control, ftp_connected, ftp_pass, ftp_cwd, ftp_retr, Surroundings, Bound, bind_tcp_socket, run,
  handle_line, send_port, port_range, find_port, behind_bind, is_skipped, announce, is_reply,
  in_state, cwd_line, port_line, pass_line, send_retr,
}
use nepenthes.CtrlDialogue.Lines.{converse, cut_lines}
use nepenthes.CtrlDialogue.Segments.{dialog, run-converse}
use nepenthes.CtrlDialogue.Session.{enter}
use nepenthes.CtrlDialogue.Ports.{announced}

-- ftp://u:p@h:21/d/f.exe
abbrev url : DownloadUrl
url = record {
  protocol = codes "ftp";
  user = codes "u";
  pass = codes "p";
  auth = codes "u:p";
  host = codes "h";
  port = 21;
  path = codes "d/f.exe";
  dir = codes "d";
  file = codes "f.exe";
  anchor = [];
}

abbrev download : Control
download = record { state = ftp_connected; url = url; flags = 1; active_port = 0 }

-- Of the ports, 4112 is in use, 4113 can not be bound, and 4114 is free.
abbrev bind : ℕ → Option Bound
bind i =
    if i == 4114
    then some (record { local_port = 4114; unused = true })
    else (if i == 4112 then some (record { local_port = 4112; unused = false }) else none)

abbrev surroundings : Surroundings
surroundings = record {
  retr_address = 16777343;
  min_port = 4110;
  max_port = 4118;
  local_address = 0;
  rand = 0;
  bind = bind;
  print = λ n. (48 + n) ∷ [];
}

-- An end of a line.
abbrev lf : List ℕ
lf = 10 ∷ []

-- The answers, cut in the middle of lines.
abbrev messages : List (List ℕ)
messages =
    (codes "220 hello" ++ lf ++ codes "33")
    ∷ (codes "1 pass" ++ lf)
    ∷ (codes "230 in" ++ lf ++ codes "200 I" ++ lf)
    ∷ (codes "250 dir" ++ lf ++ codes "200 port" ++ lf ++ codes "15")
    ∷ (codes "0 open" ++ lf ++ codes "226 sent" ++ lf)
    ∷ (codes "221 bye" ++ lf)
    ∷ []

abbrev text : ℕ → List ℕ
text n =
    if n == 1
    then codes " hello"
    else if n == 2
    then codes " pass"
    else if n == 3
    then codes " in"
    else if n == 4
    then codes " I"
    else if n == 5
    then codes " dir"
    else if n == 6
    then codes " port"
    else if n == 7
    then codes " open"
    else if n == 8
    then codes " sent"
    else codes " bye"

run-converse_example :
    run zeroing surroundings (dialog download reset) messages
    ≡ done (converse surroundings download (cut_lines [] (concat messages)).0)
unfolding reset
run-converse_example =
    run-converse zeroing surroundings messages download reset reset-IsValid refl (omega arith)

-- In FTP_CWD the answer to PORT is taken before PORT was sent.
retr_without_port :
    handle_line surroundings (enter ftp_cwd download) (codes "200 ok")
    ≡ (enter ftp_retr download, send_retr download, false)
unfolding handle_line in_state cwd_line port_line is_reply starts_with send_retr
retr_without_port = refl

-- With flags that do not ask for binary, the dialogue stays where it is.
flags_stuck :
    handle_line surroundings (record download { state = ftp_pass; flags = 2 }) (codes "230 in")
    ≡ (record download { state = ftp_pass; flags = 2 }, [], false)
unfolding handle_line in_state pass_line is_reply starts_with
flags_stuck = refl

-- A socket that is in use is announced when no other is found behind it.
used_port : send_port (record surroundings { max_port = 4113 }) download ≡ (
  record download { active_port = 4112 },
  bind_tcp_socket 4112 ∷ announced (record surroundings { max_port = 4113 }) 4112,
)
unfolding send_port find_port behind_bind is_skipped announce port_range
used_port = refl
