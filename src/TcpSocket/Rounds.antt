-- ===== src/TcpSocket/Rounds.antt =====
-- One round of the sending loop, as an equation.
use nepenthes.Base.{
  ℕ, zero, suc, ◌≡◌, refl, inl, inr, ◌⊎◌, Bool, true, false, List, [], ◌∷◌, length, ltb,
  if◌then◌else◌, Outcome, done, running,
}
use nepenthes.TcpSocket.{
  Dialogue, Happened, Reaction, Sent, took, would_block, broken_pipe, other_error, Sending, sent,
  broken, send_loop,
}

pub Sent-cases :
    (r : Sent)
    → (((n : ℕ) × (r ≡ took n)) ⊎ (r ≡ would_block)) ⊎ ((r ≡ broken_pipe) ⊎ (r ≡ other_error))
Sent-cases (took n) = inl (inl (n, refl))
Sent-cases would_block = inl (inr refl)
Sent-cases broken_pipe = inr (inl refl)
Sent-cases other_error = inr (inr refl)

module _ {World : Type 0} (react : Dialogue → Happened → World → Reaction World)
    (send : ℕ → List ℕ → Sent) where
  -- How the loop goes on after each result of send().
  abbrev pub after_send :
      Sent → ℕ → List ℕ → List (List ℕ) → Sending World → Outcome (Sending World × Bool)
  after_send (took n) fuel packet packets x =
      if ltb (suc n) (length packet)
      then done (sent react send (suc n) packet packets x, false)
      else send_loop react send fuel packets (sent react send (suc n) packet packets x)
  after_send would_block fuel packet packets x = done (x, false)
  after_send broken_pipe fuel packet packets x = done (broken react send x, true)
  after_send other_error fuel packet packets x =
      send_loop react send fuel (packet ∷ packets) (record x { calls = suc x.calls })

  pub send_loop-step :
      (fuel : ℕ) (packet : List ℕ) (packets : List (List ℕ)) (x : Sending World)
      → send_loop react send (suc fuel) (packet ∷ packets) x
        ≡ after_send (send x.calls packet) fuel packet packets x
  unfolding send_loop
  send_loop-step fuel packet packets x = elim (Sent-cases (send x.calls packet)) [
    | inl (inl (n, e)) ↦ rw (e, send_loop)
    | inl (inr e) ↦ rw (e, send_loop)
    | inr (inl e) ↦ rw (e, send_loop)
    | inr (inr e) ↦ rw (e, send_loop)
  ]

  pub send_loop-nil :
      (fuel : ℕ) (x : Sending World) → send_loop react send (suc fuel) [] x ≡ done (x, false)
  unfolding send_loop
  send_loop-nil fuel x = refl

  pub send_loop-zero :
      (packets : List (List ℕ)) (x : Sending World) → send_loop react send zero packets x ≡ running
  unfolding send_loop
  send_loop-zero packets x = refl
