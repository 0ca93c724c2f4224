-- ===== src/ShellcodeManager/Answers.antt =====
-- What an answer of the search means, and which events tell of it.
use nepenthes.Base.{
  ℕ, zero, suc, ◌≡◌, refl, ap, ◌∙◌, subst, sym, List, [], ◌∷◌, ◌++◌, done, done_injective,
  >>=-eq-done, inl, inr, ◌⊎◌, Elem, Elem-append_right, All, All-append, Option, none, some, Bool,
}
use mathlib.Core.List.{append_assoc, append-nil}
use nepenthes.ShellcodeManager.{
  sch_nothing, sch_reprocess_but_not_me, sch_done, ShellcodeHandler, ShellcodeEvent, Answer, Search,
  search_from, handle_shellcode, event_of, final_event, ev_shellcode, ev_shellcode_done,
  ev_shellcode_fail,
}
use nepenthes.ShellcodeManager.Steps.{
  SchResult-cases, Passes, after, after_answer, search-step, search-nil, search-zero,
}

module _ {Message World : Type 0}
    (handle : ShellcodeHandler → Message → World → Answer Message World)
    (handlers : List ShellcodeHandler) where
  -- A registered handler was done, and left the message and the world that the search ends with; or
  -- nobody was, and every registered handler passes the message that is left.
  abbrev pub IsAnswer : Search Message World → Type 0
  IsAnswer s =
      ((s.result ≡ sch_done)
        × (h : ShellcodeHandler) × (s.handler ≡ some h)
        × Elem h handlers
        × (msg : Message) × (w : World) × (handle h msg w
            ≡ record { result = sch_done; message = s.message; world = s.world }))
      ⊎ ((s.result ≡ sch_nothing)
          × (s.handler ≡ none)
          × All (Passes handle handlers s.message s.world) handlers)

  -- A handler that finds nothing changes nothing.
  abbrev pub LeavesAlone : Type 0
  LeavesAlone =
      (h : ShellcodeHandler) (msg : Message) (w : World)
      → (handle h msg w).result ≡ sch_nothing
      → Passes handle handlers msg w h

  -- No handler asks to be left out of the next round.
  abbrev pub NoneLeftOut : Type 0
  NoneLeftOut =
      (h : ShellcodeHandler) (msg : Message) (w : World)
      → (handle h msg w).result ≡ sch_reprocess_but_not_me
      → ⊥

  Elem-handlers :
      (pre : List ShellcodeHandler) (h : ShellcodeHandler) (hs : List ShellcodeHandler)
      → handlers ≡ pre ++ h ∷ hs
      → Elem h handlers
  Elem-handlers pre h hs e = subst (Elem h) (sym e) (Elem-append_right h pre (h ∷ hs) (inl refl))

  answer_eq :
      (h : ShellcodeHandler) (msg : Message) (w : World)
      → (handle h msg w).result ≡ sch_done
      → handle h msg w ≡ record {
        result = sch_done;
        message = (handle h msg w).message;
        world = (handle h msg w).world;
      }
  answer_eq h msg w q = λ i. record {
    result = q i;
    message = (handle h msg w).message;
    world = (handle h msg w).world;
  }

  search-IsAnswer :
      LeavesAlone
      → NoneLeftOut
      → (fuel : ℕ) (pre hs : List ShellcodeHandler) (msg : Message) (w : World)
        (s : Search Message World)
      → handlers ≡ pre ++ hs
      → All (Passes handle handlers msg w) pre
      → search_from handle handlers fuel hs msg w ≡ done s
      → IsAnswer s
  search-IsAnswer alone all_in zero pre hs msg w s e passes runs =
      cc (search-zero handle handlers hs msg w)
  search-IsAnswer alone all_in (suc fuel) pre [] msg w s e passes runs =
      let all : All (Passes handle handlers msg w) handlers =
        subst (All (Passes handle handlers msg w)) (sym (e ∙ append-nil pre)) passes in
      subst IsAnswer (done_injective (sym (search-nil handle handlers fuel msg w) ∙ runs))
        (inr (refl, refl, all))
  search-IsAnswer alone all_in (suc fuel) pre (h ∷ hs) msg w s e passes runs =
      let a = handle h msg w in
      let runs' : after_answer handle handlers fuel h hs a ≡ done s =
        sym (search-step handle handlers fuel h hs msg w) ∙ runs in
      elim (SchResult-cases a.result) [
        | inl (inl q) ↦
            let p = alone h msg w q in
            search-IsAnswer alone all_in fuel (pre ++ h ∷ []) hs msg w s
              (e ∙ sym (append_assoc pre (h ∷ []) hs))
              (All-append (Passes handle handlers msg w) pre (h ∷ []) passes (p, tt))
              (sym (ap (after_answer handle handlers fuel h hs) p) ∙ runs')
        | inl (inr q) ↦
            search-IsAnswer alone all_in fuel [] handlers a.message a.world s refl tt
              (sym (ap (λ r. after handle handlers r fuel h hs a.message a.world) q) ∙ runs')
        | inr (inl q) ↦ absurd (all_in h msg w q)
        | inr (inr q) ↦
            subst IsAnswer
              (done_injective
                (sym (ap (λ r. after handle handlers r fuel h hs a.message a.world) q) ∙ runs'))
              (inl (refl, h, refl, Elem-handlers pre h hs e, msg, w, answer_eq h msg w q))
      ]

  -- The events tell of the search: the message as it came, then the handler that was done with the
  -- message that it left, or a failure.
  abbrev pub Tells :
      Message
      → Option (List ℕ)
      → Bool
      → Search Message World
      → List (ShellcodeEvent Message)
      → Type 0
  Tells msg trigger known s events =
      (last : ShellcodeEvent Message) × (events
        ≡ event_of handle handlers msg none trigger known ev_shellcode ∷ last ∷ [])
      × (last.message ≡ s.message)
      × (last.handler ≡ s.handler)
      × ((s.result ≡ sch_done → last.type ≡ ev_shellcode_done)
          × (s.result ≡ sch_nothing → last.type ≡ ev_shellcode_fail))

  answer-Tells :
      (msg : Message) (trigger : Option (List ℕ)) (known : Bool) (s : Search Message World)
      → IsAnswer s
      → Tells msg trigger known s (
          event_of handle handlers msg none trigger known ev_shellcode
          ∷ final_event handle handlers s.message s.handler trigger known
          ∷ [])
  unfolding final_event
  answer-Tells msg trigger known s (inl a) = rw (a.2) (
    event_of handle handlers s.message (some a.1) trigger known ev_shellcode_done,
    refl,
    refl,
    refl,
    (λ p. refl, λ p. cc (a.0, p)),
  )
  answer-Tells msg trigger known s (inr a) = rw (a.1) (
    event_of handle handlers s.message none trigger known ev_shellcode_fail,
    refl,
    refl,
    refl,
    (λ p. cc (a.0, p), λ p. refl),
  )

  -- With handlers that change nothing when they find nothing, and of which none asks to be left out:
  -- if `handleShellcode` says SCH_DONE, a registered handler was done and left the message with which
  -- the call ends; if it says SCH_NOTHING, every registered handler finds nothing in that message,
  -- however often it was decoded on the way. The events tell just that.
  pub handle_shellcode-IsAnswer :
      LeavesAlone
      → NoneLeftOut
      → (fuel : ℕ) (msg : Message) (trigger : Option (List ℕ)) (known : Bool) (w : World)
        (s : Search Message World) (events : List (ShellcodeEvent Message))
      → handle_shellcode handle handlers fuel msg trigger known w ≡ done (s, events)
      → IsAnswer s × Tells msg trigger known s events
  unfolding handle_shellcode
  handle_shellcode-IsAnswer alone all_in fuel msg trigger known w s events runs =
      let (s', found, e) = >>=-eq-done (search_from handle handlers fuel handlers msg w) _ runs in
      let answer = search-IsAnswer alone all_in fuel [] handlers msg w s' refl tt found in
      subst
        (λ (p : Search Message World × List (ShellcodeEvent Message)).
          IsAnswer p.0 × Tells msg trigger known p.0 p.1)
        (done_injective e) (answer, answer-Tells msg trigger known s' answer)
