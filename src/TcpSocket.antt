-- ===== src/TcpSocket.antt =====
-- nepenthes-core/src/TCPSocket.cpp, with the dialogues of Dialogue.hpp and the packets of Packet.cpp:
-- how received data reaches the dialogues, and how the queued packets are sent.
-- A dialogue's protocol is a module's code and a parameter: from the dialogue, what happened and the
-- state of everything else it gives its new consume level, what it wants to write, and the new state.
pub mod Exclusive
pub mod Writes
pub mod Rounds
pub mod Stream
pub mod Progress
pub mod Timeouts
mod Tests
use nepenthes.Base.Int.{ℤ, pos, negsuc}
use nepenthes.Base.{
  ℕ, zero, suc, ◌+◌, ◌-◌, ◌==◌, leb, ltb, if◌then◌else◌, Bool, true, false, ◌&&◌, ◌||◌, List, [],
  ◌∷◌, ◌++◌, length, take, drop, Outcome, done, running, ◌>>=◌,
}

pub data ConsumeLevel : Type 0 where
  cl_drop cl_unsure cl_readonly cl_assign cl_assign_and_done : ConsumeLevel

-- The value of the enumerator.
pub rank : ConsumeLevel → ℕ
rank cl_drop = 0
rank cl_unsure = 1
rank cl_readonly = 2
rank cl_assign = 3
rank cl_assign_and_done = 4

pub data SocketState : Type 0 where
  ss_connected ss_connecting ss_timeout ss_reconnect ss_closed ss_cleanquit : SocketState

pub record Dialogue : Type 0 where
  pub id : ℕ
  pub level : ConsumeLevel

pub record TcpSocket : Type 0 where
  pub dialogues : List Dialogue
  pub highest : ConsumeLevel
  pub can_send : Bool
  pub tx_packets : List (List ℕ)
  pub status : SocketState
  pub last_action : ℕ

-- What a dialogue is called for; `incoming` and `outgoing` carry the message.
pub data Happened : Type 0 where
  incoming outgoing : List ℕ → Happened
  shutdown lost timed_out established : Happened

pub record Reaction (World : Type 0) : Type 0 where
  pub level : ConsumeLevel
  pub writes : List (List ℕ)
  pub world : World

-- `doWrite`: the size of the queue, or -1 while the socket may not send.
pub do_write : TcpSocket → List ℕ → TcpSocket × ℤ
do_write s msg =
    if s.can_send
    then (
      record s { tx_packets = s.tx_packets ++ msg ∷ [] },
      pos (length (s.tx_packets ++ msg ∷ [])),
    )
    else (s, negsuc 0)

-- The writes of a dialogue, one after the other; it may ignore what `doWrite` returns.
pub write_all : TcpSocket → List (List ℕ) → TcpSocket
write_all s [] = s
write_all s (msg ∷ msgs) = write_all (do_write s msg).0 msgs

-- Packet::cut
pub packet_cut : List ℕ → ℕ → List ℕ × Bool
packet_cut packet offset =
    if leb (length packet) offset then (packet, false) else (drop offset packet, true)

pub exit : TcpSocket → TcpSocket
exit s = record s { tx_packets = [] }

pub is_drop : ConsumeLevel → Bool
is_drop cl_drop = true
is_drop _ = false

-- The levels at which a dialogue only reads.
pub is_silent : ConsumeLevel → Bool
is_silent cl_readonly = true
is_silent cl_assign_and_done = true
is_silent _ = false

pub is_active : ConsumeLevel → Bool
is_active cl_assign = true
is_active cl_assign_and_done = true
is_active cl_unsure = true
is_active _ = false

pub set_level : Dialogue → ConsumeLevel → Dialogue
set_level d cl = record d { level = cl }

-- `setConsumeLevel(CL_DROP)` for another dialogue, unless it only reads.
pub quiet_level : ConsumeLevel → ConsumeLevel
quiet_level cl_readonly = cl_readonly
quiet_level _ = cl_drop

pub quiet : List Dialogue → List Dialogue
quiet [] = []
quiet (d ∷ ds) = set_level d (quiet_level d.level) ∷ quiet ds

pub count_active : List Dialogue → ℕ
count_active [] = 0
count_active (d ∷ ds) = if is_active d.level then suc (count_active ds) else count_active ds

-- After a CL_ASSIGN_AND_DONE the other dialogues are made inactive.
pub after_answer : ConsumeLevel → List Dialogue → List Dialogue
after_answer cl_assign_and_done ds = quiet ds
after_answer _ ds = ds

module _ {World : Type 0} (react : Dialogue → Happened → World → Reaction World) where
  -- One dialogue is given what was received; the writes are made while it may send or not.
  pub give : TcpSocket → Dialogue → Reaction World → TcpSocket
  give s d r =
      let s' = if is_silent d.level then record s { can_send = false } else s in
      record (write_all s' r.writes) {
        highest = if ltb (rank s.highest) (rank r.level) then r.level else s.highest;
        can_send = true;
      }

  -- The loop over the dialogues: `seen` stand before the iterator, and there are as many rounds as
  -- dialogues.
  pub recv_loop :
      ℕ
      → List Dialogue
      → List Dialogue
      → Happened
      → TcpSocket
      → World
      → List Dialogue × TcpSocket × World
  recv_loop zero seen rest what s w = (seen ++ rest, s, w)
  recv_loop (suc n) seen [] what s w = (seen, s, w)
  recv_loop (suc n) seen (d ∷ rest) what s w =
      let r = react d what w in
      elim (is_drop d.level) [
        | true ↦ recv_loop n (seen ++ d ∷ []) rest what s w
        | false ↦
            recv_loop n (after_answer r.level seen ++ set_level d r.level ∷ [])
              (after_answer r.level rest) what (give s d r) r.world
      ]

  pub do_recv : TcpSocket → Happened → ℕ → World → TcpSocket × World
  do_recv s what now w =
      let r = recv_loop (length s.dialogues) [] s.dialogues what s w in
      let s' : TcpSocket = r.1 in
      (
        record s' {
          dialogues = r.0;
          status = if count_active r.0 == 0 then ss_closed else s'.status;
          last_action = now;
        },
        r.2,
      )

  -- The dialogues see what was sent, and may not write meanwhile.
  pub show_sent : List Dialogue → List ℕ → World → List Dialogue × World
  show_sent [] msg w = ([], w)
  show_sent (d ∷ ds) msg w =
      let r = react d (outgoing msg) w in
      elim (is_drop d.level) [
        | true ↦ (let (ds', w') = show_sent ds msg w in (d ∷ ds', w'))
        | false ↦ (let (ds', w') = show_sent ds msg r.world in (set_level d r.level ∷ ds', w'))
      ]

  pub tell_lost : List Dialogue → World → List Dialogue × World
  tell_lost [] w = ([], w)
  tell_lost (d ∷ ds) w =
      let r = react d lost w in
      let (ds', w') = tell_lost ds r.world in (set_level d r.level ∷ ds', w')

-- What send() does: `took n` is a call that took n + 1 bytes; the others return -1 with an errno.
pub data Sent : Type 0 where
  took : ℕ → Sent
  would_block broken_pipe other_error : Sent

pub record Sending (World : Type 0) : Type 0 where
  pub socket : TcpSocket
  pub world : World
  pub wire : List ℕ
  pub calls : ℕ

pub is_cleanquit : SocketState → Bool
is_cleanquit ss_cleanquit = true
is_cleanquit _ = false

module _ {World : Type 0} (react : Dialogue → Happened → World → Reaction World)
    (send : ℕ → List ℕ → Sent) where
  -- The state after send() took n bytes of the first packet.
  pub sent : ℕ → List ℕ → List (List ℕ) → Sending World → Sending World
  sent n packet packets x =
      let (ds, w) = show_sent react x.socket.dialogues (take n packet) x.world in
      record {
        socket = record (x.socket) {
          dialogues = ds;
          can_send = true;
          tx_packets = if ltb n (length packet) then (packet_cut packet n).0 ∷ packets else packets;
        };
        world = w;
        wire = x.wire ++ take n packet;
        calls = suc x.calls;
      }

  -- On a broken pipe everybody is told, and the call returns at once.
  pub broken : Sending World → Sending World
  broken x =
      let (ds, w) = tell_lost react x.socket.dialogues x.world in
      record x {
        socket = record (x.socket) { dialogues = ds; can_send = false; status = ss_closed };
        world = w;
      }

  -- The loop, with what ended it: `true` when it was left by the return. Any other error than the
  -- two that are named leaves the packet in front, and the next round tries again.
  pub send_loop : ℕ → List (List ℕ) → Sending World → Outcome (Sending World × Bool)
  send_loop zero packets x = running
  send_loop (suc fuel) [] x = done (x, false)
  send_loop (suc fuel) (packet ∷ packets) x = elim (send x.calls packet) [
    | took n ↦
        (let x' = sent (suc n) packet packets x in
          let rest = send_loop fuel packets x' in
          if ltb (suc n) (length packet) then done (x', false) else rest)
    | would_block ↦ done (x, false)
    | broken_pipe ↦ done (broken x, true)
    | other_error ↦ send_loop fuel (packet ∷ packets) (record x { calls = suc x.calls })
  ]

  -- What the call leaves, and the number that it returns.
  pub finish : ℕ → Sending World × Bool → Sending World × ℤ
  finish now (x, true) = (x, pos 0)
  finish now (x, false) =
      let s = x.socket in
      let quits : Bool = is_cleanquit s.status && length s.tx_packets == 0 in
      let s' : TcpSocket = if quits then exit (record s { status = ss_closed }) else s in
      (record x { socket = record s' { last_action = now } }, pos (length x.wire))

  pub do_send : ℕ → ℕ → TcpSocket → World → Outcome (Sending World × ℤ)
  do_send fuel now s w =
      let start : Sending World = record { socket = s; world = w; wire = []; calls = 0 } in
      if length s.tx_packets == 0
      then done (start, negsuc 0)
      else (do r ← send_loop fuel s.tx_packets start; done (finish now r))
