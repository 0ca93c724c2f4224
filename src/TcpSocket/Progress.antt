-- ===== src/TcpSocket/Progress.antt =====
-- When `doSend` returns, and when it does not.
use nepenthes.Base.Int.{negsuc}
use nepenthes.Base.{
  ℕ, zero, suc, ◌≡◌, ◌≢◌, ◌∙◌, refl, ap, List, [], ◌∷◌, length, ◌==◌, if◌then◌else◌, done, running,
  ◌>>=◌, ==-suc-zero,
}
use nepenthes.TcpSocket.{
  Dialogue, TcpSocket, Happened, Reaction, Sent, other_error, Sending, send_loop, finish, do_send,
}
use nepenthes.TcpSocket.Rounds.{after_send, send_loop-step, send_loop-zero}

-- send() never fails but for a full buffer or a broken pipe.
abbrev pub OnlyNamedErrors : (ℕ → List ℕ → Sent) → Type 0
OnlyNamedErrors send = (i : ℕ) (packet : List ℕ) → send i packet ≢ other_error

module _ {World : Type 0} (react : Dialogue → Happened → World → Reaction World)
    (send : ℕ → List ℕ → Sent) where
  send_loop-running :
      ((i : ℕ) (packet : List ℕ) → send i packet ≡ other_error)
      → (fuel : ℕ) (p : List ℕ) (ps : List (List ℕ)) (x : Sending World)
      → send_loop react send fuel (p ∷ ps) x ≡ running
  send_loop-running fails zero p ps x = send_loop-zero react send (p ∷ ps) x
  send_loop-running fails (suc fuel) p ps x =
      send_loop-step react send fuel p ps x
      ∙ ap (λ r. after_send react send r fuel p ps x) (fails x.calls p)
      ∙ send_loop-running fails fuel p ps (record x { calls = suc x.calls })

  -- With a queued packet and an error that is neither of the two that are named (a connection that
  -- was reset, say) and stays, `doSend` never returns: it tries the same packet again and again.
  pub do_send-running :
      ((i : ℕ) (packet : List ℕ) → send i packet ≡ other_error)
      → (fuel now : ℕ) (s : TcpSocket) (w : World) → s.tx_packets ≢ []
      → do_send react send fuel now s w ≡ running
  unfolding do_send
  do_send-running fails fuel now s w queued =
      let start : Sending World = record { socket = s; world = w; wire = []; calls = 0 } in
      waits s.tx_packets queued start
    where
      waits :
          (ps : List (List ℕ))
          → ps ≢ []
          → (x : Sending World)
          → (if length ps == 0
              then done (x, negsuc 0)
              else (send_loop react send fuel ps x >>= λ r. done (finish react send now r)))
            ≡ running
      waits [] ne x = absurd (ne refl)
      waits (p ∷ ps) ne x = rw (==-suc-zero (length ps), send_loop-running fails fuel p ps x)
