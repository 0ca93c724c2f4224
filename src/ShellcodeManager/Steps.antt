-- ===== src/ShellcodeManager/Steps.antt =====
-- One round of the search, as an equation.
use nepenthes.Base.{
  ℕ, zero, suc, ◌≡◌, refl, ◌⊎◌, inl, inr, List, [], ◌∷◌, Outcome, done, running, Option, none, some,
  Bool,
}
use nepenthes.ShellcodeManager.{
  SchResult, sch_nothing, sch_reprocess, sch_reprocess_but_not_me, sch_done, ShellcodeHandler,
  Answer, Search, search_from, handle_shellcode, event_of, final_event, ev_shellcode,
  ev_shellcode_done,
}

pub SchResult-cases :
    (r : SchResult)
    → ((r ≡ sch_nothing) ⊎ (r ≡ sch_reprocess)) ⊎ ((r ≡ sch_reprocess_but_not_me) ⊎ (r ≡ sch_done))
SchResult-cases sch_nothing = inl (inl refl)
SchResult-cases sch_reprocess = inl (inr refl)
SchResult-cases sch_reprocess_but_not_me = inr (inl refl)
SchResult-cases sch_done = inr (inr refl)

module _ {Message World : Type 0}
    (handle : ShellcodeHandler → Message → World → Answer Message World)
    (handlers : List ShellcodeHandler) where
  -- The handler passes the message on, and leaves everything as it is.
  abbrev pub Passes : Message → World → ShellcodeHandler → Type 0
  Passes msg w g = handle g msg w ≡ record { result = sch_nothing; message = msg; world = w }

  -- How the search goes on after each answer.
  abbrev pub after :
      SchResult
      → ℕ
      → ShellcodeHandler
      → List ShellcodeHandler
      → Message
      → World
      → Outcome (Search Message World)
  after sch_nothing fuel h hs msg w = search_from handle handlers fuel hs msg w
  after sch_reprocess fuel h hs msg w = search_from handle handlers fuel handlers msg w
  after sch_reprocess_but_not_me fuel h hs msg w = search_from handle handlers fuel (h ∷ hs) msg w
  after sch_done fuel h hs msg w =
      done (record { result = sch_done; handler = some h; message = msg; world = w })

  abbrev pub after_answer :
      ℕ
      → ShellcodeHandler
      → List ShellcodeHandler
      → Answer Message World
      → Outcome (Search Message World)
  after_answer fuel h hs a = after a.result fuel h hs a.message a.world

  pub search-step :
      (fuel : ℕ) (h : ShellcodeHandler) (hs : List ShellcodeHandler) (msg : Message) (w : World)
      → search_from handle handlers (suc fuel) (h ∷ hs) msg w
        ≡ after_answer fuel h hs (handle h msg w)
  unfolding search_from
  search-step fuel h hs msg w = elim (SchResult-cases (handle h msg w).result) [
    | inl (inl e) ↦ rw (e, search_from)
    | inl (inr e) ↦ rw (e, search_from)
    | inr (inl e) ↦ rw (e, search_from)
    | inr (inr e) ↦ rw (e, search_from)
  ]

  pub search-nil :
      (fuel : ℕ) (msg : Message) (w : World)
      → search_from handle handlers (suc fuel) [] msg w
        ≡ done (record { result = sch_nothing; handler = none; message = msg; world = w })
  unfolding search_from
  search-nil fuel msg w = refl

  pub search-zero :
      (hs : List ShellcodeHandler) (msg : Message) (w : World)
      → search_from handle handlers zero hs msg w ≡ running
  unfolding search_from
  search-zero hs msg w = refl

  -- What `handleShellcode` reports when a handler was done.
  pub handle_shellcode-search :
      (fuel : ℕ) (msg : Message) (trigger : Option (List ℕ)) (known : Bool) (w : World)
      (h : ShellcodeHandler) (left : Message) (w' : World)
      → search_from handle handlers fuel handlers msg w
        ≡ done (record { result = sch_done; handler = some h; message = left; world = w' })
      → handle_shellcode handle handlers fuel msg trigger known w
        ≡ done (
          record { result = sch_done; handler = some h; message = left; world = w' },
          event_of handle handlers msg none trigger known ev_shellcode
              ∷ event_of handle handlers left (some h) trigger known ev_shellcode_done
              ∷ [],
        )
  unfolding handle_shellcode final_event
  handle_shellcode-search fuel msg trigger known w h left w' e = rw e
