-- ===== src/TcpSocket/Writes.antt =====
-- What dialogues may write while data is received, and when the socket closes.
use mathlib.Core.List.{append-nil, append_assoc}
use nepenthes.Base.{
  ℕ, zero, suc, ◌≡◌, ◌≢◌, ◌↔◌, ◌∙◌, refl, sym, ap, arith, inl, inr, ◌⊎◌, true, false, List, [], ◌∷◌,
  ◌++◌, length, All, Bool-cases, ◌==◌,
}
use nepenthes.TcpSocket.{
  ConsumeLevel, cl_drop, cl_unsure, cl_readonly, cl_assign, cl_assign_and_done, Dialogue, TcpSocket,
  Happened, Reaction, ss_closed, is_drop, is_silent, is_active, set_level, quiet_level, quiet,
  after_answer, recv_loop, do_recv, give, do_write, write_all, count_active,
}
use nepenthes.TcpSocket.Exclusive.{IsQuiet, Quiet, recv_loop-drop, recv_loop-answer}

do_write-shut : (s : TcpSocket) (msg : List ℕ) → s.can_send ≡ false → (do_write s msg).0 ≡ s
unfolding do_write
do_write-shut s msg e = ground (arith, e)

do_write-open :
    (s : TcpSocket) (msg : List ℕ)
    → s.can_send ≡ true
    → (do_write s msg).0 ≡ record s { tx_packets = s.tx_packets ++ msg ∷ [] }
unfolding do_write
do_write-open s msg e = ground (arith, e)

write_all-shut : (s : TcpSocket) (msgs : List (List ℕ)) → s.can_send ≡ false → write_all s msgs ≡ s
unfolding write_all
write_all-shut s [] e = refl
write_all-shut s (msg ∷ msgs) e =
    ap (λ (t : TcpSocket). write_all t msgs) (do_write-shut s msg e) ∙ write_all-shut s msgs e

write_all-open :
    (s : TcpSocket) (msgs : List (List ℕ))
    → s.can_send ≡ true
    → write_all s msgs ≡ record s { tx_packets = s.tx_packets ++ msgs }
unfolding write_all
write_all-open s [] e =
    ap (λ (q : List (List ℕ)). record s { tx_packets = q }) (sym (append-nil s.tx_packets))
write_all-open s (msg ∷ msgs) e =
    let s' : TcpSocket = record s { tx_packets = s.tx_packets ++ msg ∷ [] } in
    ap (λ (t : TcpSocket). write_all t msgs) (do_write-open s msg e)
    ∙ write_all-open s' msgs e
    ∙ ap (λ (q : List (List ℕ)). record s { tx_packets = q })
        (append_assoc s.tx_packets (msg ∷ []) msgs)

module _ {World : Type 0} (react : Dialogue → Happened → World → Reaction World) where
  -- The socket after a dialogue's turn: what it wrote is queued if it may write, and only then.
  give-silent :
      (s : TcpSocket) (d : Dialogue) (r : Reaction World)
      → is_silent d.level ≡ true
      → ((give react s d r).tx_packets ≡ s.tx_packets)
        × ((give react s d r).status ≡ s.status)
        × ((give react s d r).can_send ≡ true)
  unfolding give
  give-silent s d r e =
      let shut = write_all-shut (record s { can_send = false }) r.writes refl in
      rw e (ap (λ (t : TcpSocket). t.tx_packets) shut, ap (λ (t : TcpSocket). t.status) shut, refl)

  give-speaking :
      (s : TcpSocket) (d : Dialogue) (r : Reaction World)
      → is_silent d.level ≡ false
      → s.can_send ≡ true
      → ((give react s d r).tx_packets ≡ s.tx_packets ++ r.writes)
        × ((give react s d r).status ≡ s.status)
        × ((give react s d r).can_send ≡ true)
  unfolding give
  give-speaking s d r e may =
      let open_ = write_all-open s r.writes may in
      rw e
        (ap (λ (t : TcpSocket). t.tx_packets) open_, ap (λ (t : TcpSocket). t.status) open_, refl)

-- The dialogue is inactive or only reads.
abbrev pub Mute : Dialogue → Type 0
Mute d = (is_drop d.level ≡ true) ⊎ (is_silent d.level ≡ true)

quiet_level-Mute :
    (cl : ConsumeLevel) → (is_drop (quiet_level cl) ≡ true) ⊎ (is_silent (quiet_level cl) ≡ true)
unfolding quiet_level is_drop is_silent
quiet_level-Mute cl_readonly = inr refl
quiet_level-Mute cl_drop = inl refl
quiet_level-Mute cl_unsure = inl refl
quiet_level-Mute cl_assign = inl refl
quiet_level-Mute cl_assign_and_done = inl refl

quiet-Mute : (ds : List Dialogue) → All Mute (quiet ds)
unfolding quiet set_level
quiet-Mute [] = tt
quiet-Mute (d ∷ ds) = (quiet_level-Mute d.level, quiet-Mute ds)

after_answer-Mute :
    (cl : ConsumeLevel) (ds : List Dialogue) → All Mute ds → All Mute (after_answer cl ds)
unfolding after_answer
after_answer-Mute cl_assign_and_done ds m = quiet-Mute ds
after_answer-Mute cl_drop ds m = m
after_answer-Mute cl_unsure ds m = m
after_answer-Mute cl_readonly ds m = m
after_answer-Mute cl_assign ds m = m

module _ {World : Type 0} (react : Dialogue → Happened → World → Reaction World) where
  recv_loop-Mute :
      (n : ℕ) (seen rest : List Dialogue) (what : Happened) (s : TcpSocket) (w : World)
      → All Mute rest
      → (recv_loop react n seen rest what s w).1.tx_packets ≡ s.tx_packets
  recv_loop-Mute zero seen rest what s w m = unfold recv_loop in refl
  recv_loop-Mute (suc n) seen [] what s w m = unfold recv_loop in refl
  recv_loop-Mute (suc n) seen (d ∷ rest) what s w m = elim (Bool-cases (is_drop d.level)) [
    | inl e ↦
        rw (recv_loop-drop react n seen d rest what s w e)
          (recv_loop-Mute n (seen ++ d ∷ []) rest what s w m.1)
    | inr e ↦
        let r = react d what w in
        rw (recv_loop-answer react n seen d rest what s w e) (
          recv_loop-Mute n (after_answer r.level seen ++ set_level d r.level ∷ [])
            (after_answer r.level rest) what (give react s d r) r.world
            (after_answer-Mute r.level rest m.1)
          ∙ (give-silent react s d r (silent e m.0)).0)
  ]
    where
      silent : is_drop d.level ≡ false → Mute d → is_silent d.level ≡ true
      silent e (inl e') = cc
      silent e (inr e') = e'

  recv_loop-queue :
      (n : ℕ) (seen rest : List Dialogue) (what : Happened) (s : TcpSocket) (w : World)
      → s.can_send ≡ true
      → ((recv_loop react n seen rest what s w).1.can_send ≡ true)
        × ((new : List (List ℕ)) × ((recv_loop react n seen rest what s w).1.tx_packets
              ≡ s.tx_packets ++ new))
        × ((recv_loop react n seen rest what s w).1.status ≡ s.status)
  recv_loop-queue zero seen rest what s w may =
      unfold recv_loop in (may, ([], sym (append-nil s.tx_packets)), refl)
  recv_loop-queue (suc n) seen [] what s w may =
      unfold recv_loop in (may, ([], sym (append-nil s.tx_packets)), refl)
  recv_loop-queue (suc n) seen (d ∷ rest) what s w may = elim (Bool-cases (is_drop d.level)) [
    | inl e ↦
        rw (recv_loop-drop react n seen d rest what s w e)
          (recv_loop-queue n (seen ++ d ∷ []) rest what s w may)
    | inr e ↦
        let r = react d what w in
        let (new, queue, status, may') = turn (Bool-cases (is_silent d.level)) in
        let (may'', (new', queue'), status') =
          recv_loop-queue n (after_answer r.level seen ++ set_level d r.level ∷ [])
            (after_answer r.level rest) what (give react s d r) r.world may' in
        rw (recv_loop-answer react n seen d rest what s w e) (
          may'',
          (
            new ++ new',
            queue'
                ∙ ap (λ (q : List (List ℕ)). q ++ new') queue
                ∙ append_assoc s.tx_packets new new',
          ),
          status' ∙ status,
        )
  ]
    where
      turn :
          (is_silent d.level ≡ true) ⊎ (is_silent d.level ≡ false)
          → (new : List (List ℕ)) × ((give react s d (react d what w)).tx_packets
              ≡ s.tx_packets ++ new)
            × ((give react s d (react d what w)).status ≡ s.status)
            × ((give react s d (react d what w)).can_send ≡ true)
      turn (inl e) =
          let (queue, status, may') = give-silent react s d (react d what w) e in
          ([], queue ∙ sym (append-nil s.tx_packets), status, may')
      turn (inr e) =
          let (queue, status, may') = give-speaking react s d (react d what w) e may in
          ((react d what w).writes, queue, status, may')

  -- While data is received on a socket that may send, the queue of packets only grows at its end,
  -- and the socket may send again afterwards. As long as every dialogue is inactive or only reads,
  -- nothing at all is queued, whatever the dialogues try to write.
  pub do_recv-queue :
      (s : TcpSocket) (what : Happened) (now : ℕ) (w : World)
      → s.can_send ≡ true
      → ((do_recv react s what now w).0.can_send ≡ true)
        × ((new : List (List ℕ)) × ((do_recv react s what now w).0.tx_packets
              ≡ s.tx_packets ++ new))
        × (All Mute s.dialogues → (do_recv react s what now w).0.tx_packets ≡ s.tx_packets)
  unfolding do_recv
  do_recv-queue s what now w may =
      let (may', grown, status) =
        recv_loop-queue (length s.dialogues) [] s.dialogues what s w may in
      (may', grown, λ m. recv_loop-Mute (length s.dialogues) [] s.dialogues what s w m)

active-Quiet : (cl : ConsumeLevel) → is_active cl ≡ false → IsQuiet cl
unfolding is_active
active-Quiet cl_drop e = inr refl
active-Quiet cl_readonly e = inl refl
active-Quiet cl_unsure e = cc
active-Quiet cl_assign e = cc
active-Quiet cl_assign_and_done e = cc

quiet-active : (cl : ConsumeLevel) → IsQuiet cl → is_active cl ≡ false
unfolding is_active
quiet-active cl (inl e) = rw e
quiet-active cl (inr e) = rw e

count_active-zero : (ds : List Dialogue) → (count_active ds == 0) ≡ true → All Quiet ds
unfolding count_active
count_active-zero [] e = tt
count_active-zero (d ∷ ds) e = elim (Bool-cases (is_active d.level)) [
  | inl a ↦ absurd (ground (arith, a, e))
  | inr a ↦ (active-Quiet d.level a, count_active-zero ds (ground (arith, a, e)))
]

Quiet-count_active : (ds : List Dialogue) → All Quiet ds → (count_active ds == 0) ≡ true
unfolding count_active
Quiet-count_active [] q = refl
Quiet-count_active (d ∷ ds) q = rw (quiet-active d.level q.0) (Quiet-count_active ds q.1)

module _ {World : Type 0} (react : Dialogue → Happened → World → Reaction World) where
  -- When data is received on an open socket that may send, the socket is closed exactly if every
  -- dialogue that it then has is inactive or only reads, and otherwise its status is what it was.
  pub do_recv-closed :
      (s : TcpSocket) (what : Happened) (now : ℕ) (w : World)
      → s.can_send ≡ true
      → s.status ≢ ss_closed
      → (((do_recv react s what now w).0.status ≡ ss_closed)
          ↔ All Quiet (do_recv react s what now w).0.dialogues)
        × (((do_recv react s what now w).0.status ≡ ss_closed)
            ⊎ ((do_recv react s what now w).0.status ≡ s.status))
  unfolding do_recv
  do_recv-closed s what now w may open_socket =
      let (may', grown, same) =
        recv_loop-queue react (length s.dialogues) [] s.dialogues what s w may in
      let ds = (recv_loop react (length s.dialogues) [] s.dialogues what s w).0 in
      elim (Bool-cases (count_active ds == 0)) [
        | inl e ↦ rw e (((λ p. count_active-zero ds e), λ q. refl), inl refl)
        | inr e ↦ rw e (
          ((λ p. absurd (open_socket (sym same ∙ p))), λ q. cc (Quiet-count_active ds q, e)),
          inr same,
        )
      ]
