-- ===== src/ShellcodeManager/Termination.antt =====
-- When the search through the handlers never ends.
use nepenthes.Base.{
  Option, Bool, ℕ, zero, suc, ◌≡◌, refl, ap, ◌∙◌, List, [], ◌∷◌, ◌++◌, running, All,
}
use nepenthes.ShellcodeManager.{
  sch_reprocess_but_not_me, ShellcodeHandler, Answer, search_from, handle_shellcode,
}
use nepenthes.ShellcodeManager.Steps.{after_answer, search-step, Passes}

module _ {Message World : Type 0}
    (handle : ShellcodeHandler → Message → World → Answer Message World)
    (handlers : List ShellcodeHandler) where
  search-running :
      (fuel : ℕ) (pre : List ShellcodeHandler) (h : ShellcodeHandler) (post : List ShellcodeHandler)
      (msg : Message) (w : World)
      → All (Passes handle handlers msg w) pre
      → handle h msg w ≡ record { result = sch_reprocess_but_not_me; message = msg; world = w }
      → search_from handle handlers fuel (pre ++ h ∷ post) msg w ≡ running
  search-running zero pre h post msg w passes again = unfold search_from in refl
  search-running (suc fuel) [] h post msg w passes again =
      search-step handle handlers fuel h post msg w
      ∙ ap (after_answer handle handlers fuel h post) again
      ∙ search-running fuel [] h post msg w passes again
  search-running (suc fuel) (g ∷ pre) h post msg w passes again =
      search-step handle handlers fuel g (pre ++ h ∷ post) msg w
      ∙ ap (after_answer handle handlers fuel g (pre ++ h ∷ post)) passes.0
      ∙ search-running fuel pre h post msg w passes.1 again

  -- A handler that asks for another round without itself, and leaves the message and everything
  -- else as it is, is asked again in the next round: if the handlers before it find nothing and
  -- leave all as it is, the search never ends.
  pub handle_shellcode-running :
      (fuel : ℕ) (pre : List ShellcodeHandler) (h : ShellcodeHandler) (post : List ShellcodeHandler)
      (msg : Message) (trigger : Option (List ℕ)) (known : Bool) (w : World)
      → handlers ≡ pre ++ h ∷ post
      → All (Passes handle handlers msg w) pre
      → handle h msg w ≡ record { result = sch_reprocess_but_not_me; message = msg; world = w }
      → handle_shellcode handle handlers fuel msg trigger known w ≡ running
  unfolding handle_shellcode
  handle_shellcode-running fuel pre h post msg trigger known w e passes again =
      let stuck : search_from handle handlers fuel handlers msg w ≡ running =
        ap (λ hs. search_from handle handlers fuel hs msg w) e
        ∙ search-running fuel pre h post msg w passes again in
      rw stuck
