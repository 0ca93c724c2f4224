-- ===== src/TcpSocket/Stream.antt =====
-- The bytes that are queued go out once and in order.
use mathlib.Core.List.{append_assoc}
use nepenthes.Base.Int.{ℤ}
use nepenthes.Base.{
  ℕ, zero, suc, ◌≡◌, ◌∙◌, refl, sym, ap, arith, inl, inr, ◌⊎◌, Bool, true, false, ◌&&◌, List, [],
  ◌∷◌, ◌++◌, length, take, drop, take-append-drop, take-all, Bool-cases, ltb, ◌==◌, Outcome, done,
  done_injective, >>=-eq-done,
}
use nepenthes.TcpSocket.{
  Dialogue, TcpSocket, Happened, Reaction, Sent, took, Sending, sent, broken, send_loop, finish,
  do_send, packet_cut, exit, is_cleanquit,
}
use nepenthes.TcpSocket.Rounds.{
  Sent-cases, after_send, send_loop-step, send_loop-nil, send_loop-zero,
}

-- All bytes of the packets, in order.
abbrev pub concat : List (List ℕ) → List ℕ
concat [] = []
concat (p ∷ ps) = p ++ concat ps

-- What went out so far, followed by what is still queued.
abbrev pub stream : {World : Type 0} → Sending World → List ℕ
stream x = x.wire ++ concat x.socket.tx_packets

packet_cut-lem : (p : List ℕ) (n : ℕ) → ltb n (length p) ≡ true → (packet_cut p n).0 ≡ drop n p
unfolding packet_cut
packet_cut-lem p n e = ground (arith, e)

module _ {World : Type 0} (react : Dialogue → Happened → World → Reaction World)
    (send : ℕ → List ℕ → Sent) where
  sent-cut :
      (n : ℕ) (p : List ℕ) (ps : List (List ℕ)) (x : Sending World)
      → ltb n (length p) ≡ true
      → stream (sent react send n p ps x) ≡ x.wire ++ concat (p ∷ ps)
  unfolding sent
  sent-cut n p ps x e =
      rw (e, packet_cut-lem p n e)
        (append_assoc x.wire (take n p) (drop n p ++ concat ps)
          ∙ ap (◌++◌ x.wire) (
              sym (append_assoc (take n p) (drop n p) (concat ps))
              ∙ ap (λ (q : List ℕ). q ++ concat ps) (take-append-drop n p)))

  sent-whole :
      (n : ℕ) (p : List ℕ) (ps : List (List ℕ)) (x : Sending World)
      → ltb n (length p) ≡ false
      → (stream (sent react send n p ps x) ≡ x.wire ++ concat (p ∷ ps))
        × ((sent react send n p ps x).socket.tx_packets ≡ ps)
  unfolding sent
  sent-whole n p ps x e =
      rw (e, take-all n p (ground (arith, e))) (append_assoc x.wire p (concat ps), refl)

  returned :
      (y : Sending World) (c : Bool) (x' : Sending World) (b : Bool)
      → ◌≡◌ {A = Outcome (Sending World × Bool)} (done (y, c)) (done (x', b))
      → stream x' ≡ stream y
  returned y c x' b runs = sym (ap (λ (r : Sending World × Bool). stream r.0) (done_injective runs))

  after_took :
      (n fuel : ℕ) (p : List ℕ) (ps : List (List ℕ)) (x x' : Sending World) (b : Bool)
      → (ltb (suc n) (length p) ≡ true) ⊎ (ltb (suc n) (length p) ≡ false)
      → (ltb (suc n) (length p) ≡ false
          → send_loop react send fuel ps (sent react send (suc n) p ps x) ≡ done (x', b)
          → stream x' ≡ stream (sent react send (suc n) p ps x))
      → after_send react send (took n) fuel p ps x ≡ done (x', b)
      → stream x' ≡ x.wire ++ concat (p ∷ ps)
  after_took n fuel p ps x x' b (inl e) rest runs =
      returned (sent react send (suc n) p ps x) false x' b (rw e at runs)
      ∙ sent-cut (suc n) p ps x e
  after_took n fuel p ps x x' b (inr e) rest runs =
      rest e (rw e at runs) ∙ (sent-whole (suc n) p ps x e).0

  send_loop-stream :
      (fuel : ℕ) (packets : List (List ℕ)) (x x' : Sending World) (b : Bool)
      → x.socket.tx_packets ≡ packets
      → send_loop react send fuel packets x ≡ done (x', b)
      → stream x' ≡ stream x
  send_loop-stream zero packets x x' b e runs = cc (send_loop-zero react send packets x)
  send_loop-stream (suc fuel) [] x x' b e runs = sym (
      ap (λ (r : Sending World × Bool). stream r.0)
        (done_injective (sym (send_loop-nil react send fuel x) ∙ runs)))
  send_loop-stream (suc fuel) (p ∷ ps) x x' b e runs =
      let whole : stream x ≡ x.wire ++ concat (p ∷ ps) =
        ap (λ (q : List (List ℕ)). x.wire ++ concat q) e in
      let runs' = sym (send_loop-step react send fuel p ps x) ∙ runs in
      elim (Sent-cases (send x.calls p)) [
        | inl (inl (n, q)) ↦
            after_took n fuel p ps x x' b (Bool-cases (ltb (suc n) (length p)))
              (λ more r.
                send_loop-stream fuel ps (sent react send (suc n) p ps x) x' b
                  (sent-whole (suc n) p ps x more).1 r)
              (sym (ap (λ r. after_send react send r fuel p ps x) q) ∙ runs')
            ∙ sym whole
        | inl (inr q) ↦
            returned x false x' b (sym (ap (λ r. after_send react send r fuel p ps x) q) ∙ runs')
        | inr (inl q) ↦
            returned (broken react send x) true x' b
              (sym (ap (λ r. after_send react send r fuel p ps x) q) ∙ runs')
            ∙ unfold broken in refl
        | inr (inr q) ↦
            send_loop-stream fuel (p ∷ ps) (record x { calls = suc x.calls }) x' b e
              (sym (ap (λ r. after_send react send r fuel p ps x) q) ∙ runs')
      ]

  finish-stream :
      (now : ℕ) (x : Sending World) (b : Bool) → stream (finish react send now (x, b)).0 ≡ stream x
  unfolding finish exit
  finish-stream now x true = refl
  finish-stream now x false =
      elim (Bool-cases (is_cleanquit x.socket.status && length x.socket.tx_packets == 0)) [
        | inl e ↦ rw e (quits x.socket.tx_packets (ground (arith, e)))
        | inr e ↦ rw e
      ]
    where
      quits : (ps : List (List ℕ)) → (length ps == 0) ≡ true → x.wire ++ [] ≡ x.wire ++ concat ps
      quits [] e = refl
      quits (p ∷ ps) e = absurd (ground (arith, e))

  -- Whatever the kernel takes of each packet and whenever it refuses: when `doSend` returns, the
  -- bytes that went out followed by the bytes that are still queued are the bytes that were queued.
  -- None is lost, sent twice or put out of order, on every way out of the loop.
  pub do_send-stream :
      (fuel now : ℕ) (s : TcpSocket) (w : World) (x : Sending World) (n : ℤ)
      → do_send react send fuel now s w ≡ done (x, n)
      → x.wire ++ concat x.socket.tx_packets ≡ concat s.tx_packets
  unfolding do_send
  do_send-stream fuel now s w x n runs = elim (Bool-cases (length s.tx_packets == 0)) [
    | inl e ↦ sym (ap (λ (r : Sending World × ℤ). stream r.0) (done_injective (rw e at runs)))
    | inr e ↦
        let start : Sending World = record { socket = s; world = w; wire = []; calls = 0 } in
        let ((y, b), found, rest) =
          >>=-eq-done (send_loop react send fuel s.tx_packets start) _ (rw e at runs) in
        sym (ap (λ (r : Sending World × ℤ). stream r.0) (done_injective rest))
        ∙ finish-stream now y b
        ∙ send_loop-stream fuel s.tx_packets start y b refl found
  ]
