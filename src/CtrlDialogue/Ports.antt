-- ===== src/CtrlDialogue/Ports.antt =====
-- The port that is announced to the server.
use nepenthes.Base.{ℕ, ◌+◌, ◌≤◌, ◌≡◌, true, false, if◌then◌else◌, List, [], ◌∷◌, Option, some, ◌==◌}
use nepenthes.CtrlDialogue.{
  Effect, respond, add_dialogue_factory, Surroundings, Bound, is_skipped, port_command,
}

module _ (s : Surroundings) where
  -- A port of those from `i` on, `k` of them behind it, whose socket is `b`.
  pub record Serves (i k : ℕ) (b : Bound) : Type 0 where
    pub tried : is_skipped (i + k) ≡ false
    pub bound : s.bind (i + k) ≡ some b
    pub free : b.unused ≡ true

  -- What find_port gives is such a socket, of one of the first ports.
  abbrev pub Finds : ℕ → ℕ → Option Bound × List Effect → Type 0
  Finds i k found = (b : Bound) × (found.0 ≡ some b) × (j : ℕ) × (j ≤ k) × Serves i j b

  abbrev pub announced : ℕ → List Effect
  announced p =
      add_dialogue_factory p
      ∷ respond (port_command s (if s.retr_address == 0 then s.local_address else s.retr_address) p)
      ∷ []
