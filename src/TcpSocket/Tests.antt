-- ===== src/TcpSocket/Tests.antt =====
-- Runs of the socket, and the theorems about it at concrete inputs.
use nepenthes.Base.Int.{pos}
use nepenthes.Base.{
  false, ◌-◌, ◌≤◌, ◌<◌, ◌≢◌, ℕ, zero, suc, ◌≡◌, ◌↔◌, refl, inl, inr, ◌⊎◌, true, List, [], ◌∷◌, ◌++◌,
  All, ◌==◌, if◌then◌else◌, done,
}
use nepenthes.TcpSocket.{
  ConsumeLevel, cl_drop, cl_unsure, cl_readonly, cl_assign, cl_assign_and_done, Dialogue, TcpSocket,
  Happened, incoming, Reaction, ss_connected, ss_timeout, is_silent, do_recv, Sent, took, recv_loop,
  is_drop, after_answer, quiet, set_level, quiet_level, give, write_all, do_write, rank, send_loop,
  sent, finish, is_cleanquit, show_sent, packet_cut, would_block, Sending, do_send,
}
use nepenthes.TcpSocket.Exclusive.{KeepsReading, IsExclusive, IsQuiet, do_recv-IsExclusive}
use nepenthes.TcpSocket.Writes.{Mute, do_recv-queue}
use nepenthes.TcpSocket.Stream.{concat, do_send-stream}
use nepenthes.TcpSocket.Timeouts.{
  SocketKind, check_timeout, intervall, IsKept, check_timeout-IsKept,
}

abbrev sure : Dialogue
sure = record { id = 1; level = cl_assign_and_done }

abbrev reader : Dialogue
reader = record { id = 2; level = cl_readonly }

abbrev guessing : Dialogue
guessing = record { id = 3; level = cl_unsure }

abbrev next_level : ℕ → ConsumeLevel → ConsumeLevel
next_level id cl_unsure = if id == 1 then cl_assign_and_done else cl_unsure
next_level id cl = cl

-- The first dialogue takes the connection, the others keep their level; all write their number.
abbrev react : Dialogue → Happened → List ℕ → Reaction (List ℕ)
react d what log = record {
  level = next_level d.id d.level;
  writes = (d.id ∷ []) ∷ [];
  world = d.id ∷ log;
}

abbrev shared : TcpSocket
shared = record {
  dialogues = record sure { level = cl_unsure } ∷ reader ∷ guessing ∷ [];
  highest = cl_unsure;
  can_send = true;
  tx_packets = (7 ∷ 8 ∷ 9 ∷ []) ∷ (4 ∷ 5 ∷ []) ∷ [];
  status = ss_connected;
  last_action = 0;
}

taken :
    (do_recv react shared (incoming (1 ∷ [])) 5 []).0.dialogues
    ≡ sure ∷ reader ∷ record guessing { level = cl_drop } ∷ []
unfolding do_recv recv_loop is_drop after_answer quiet set_level quiet_level
taken = refl

written :
    (do_recv react shared (incoming (1 ∷ [])) 5 []).0.tx_packets
    ≡ (7 ∷ 8 ∷ 9 ∷ []) ∷ (4 ∷ 5 ∷ []) ∷ (1 ∷ []) ∷ []
unfolding do_recv recv_loop is_drop after_answer quiet set_level quiet_level give write_all do_write
    is_silent rank
written = refl

next_level-IsQuiet : (id : ℕ) (cl : ConsumeLevel) → cl ≡ cl_readonly → IsQuiet (next_level id cl)
next_level-IsQuiet id cl_readonly e = inl refl
next_level-IsQuiet id cl_drop e = inr refl
next_level-IsQuiet id cl_unsure e = cc
next_level-IsQuiet id cl_assign e = cc
next_level-IsQuiet id cl_assign_and_done e = cc

reads : KeepsReading react
reads d what w e = next_level-IsQuiet d.id d.level e

do_recv-IsExclusive_example :
    IsExclusive (do_recv react shared (incoming (1 ∷ [])) 5 []).0.dialogues
do_recv-IsExclusive_example =
    do_recv-IsExclusive react reads shared (incoming (1 ∷ [])) 5 []
      (inl ((λ e. cc), ((λ e. cc), ((λ e. cc), tt))))

do_recv-queue_example :
    ((do_recv react shared (incoming (1 ∷ [])) 5 []).0.can_send ≡ true)
    × ((new : List (List ℕ)) × ((do_recv react shared (incoming (1 ∷ [])) 5 []).0.tx_packets
          ≡ shared.tx_packets ++ new))
    × (All Mute shared.dialogues
        → (do_recv react shared (incoming (1 ∷ [])) 5 []).0.tx_packets ≡ shared.tx_packets)
do_recv-queue_example = do_recv-queue react shared (incoming (1 ∷ [])) 5 [] refl

-- The kernel takes three bytes, then one, and then nothing more.
abbrev kernel : ℕ → List ℕ → Sent
kernel zero p = took 2
kernel (suc zero) p = took 0
kernel (suc (suc i)) p = would_block

abbrev after_sending : Sending (List ℕ)
after_sending = record {
  socket = record shared {
    dialogues = sure ∷ reader ∷ guessing ∷ [];
    tx_packets = (5 ∷ []) ∷ [];
    last_action = 6;
  };
  world = 3 ∷ 2 ∷ 1 ∷ 3 ∷ 2 ∷ 1 ∷ [];
  wire = 7 ∷ 8 ∷ 9 ∷ 4 ∷ [];
  calls = 2;
}

sends : do_send react kernel 3 6 shared [] ≡ done (after_sending, pos 4)
unfolding do_send send_loop sent finish is_cleanquit show_sent is_drop packet_cut set_level
sends = refl

do_send-stream_example : 7 ∷ 8 ∷ 9 ∷ 4 ∷ 5 ∷ [] ≡ concat shared.tx_packets
do_send-stream_example = do_send-stream react kernel 3 6 shared [] after_sending (pos 4) sends

-- A server's socket that has been silent for ten seconds, of which it may be five.
abbrev kind : SocketKind
kind = record {
  is_bind = false;
  is_connect = false;
  bind_timeout_intervall = 0;
  timeout_intervall = 5;
}

check_timeout-IsKept_example :
    ((intervall kind ≡ 0) ⊎ (10 - shared.last_action ≤ intervall kind)
      → check_timeout react kind shared 10 [] ≡ (shared, [], false))
    × (intervall kind ≢ 0
        → intervall kind < 10 - shared.last_action
        → (((check_timeout react kind shared 10 []).2 ≡ true) ↔ IsKept react shared.dialogues [])
          × ((check_timeout react kind shared 10 []).0.status
              ≡ (if (check_timeout react kind shared 10 []).2 then shared.status else ss_timeout)))
check_timeout-IsKept_example = check_timeout-IsKept react kind shared 10 []
