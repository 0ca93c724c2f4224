-- ===== src/GenericUniCode/Search.antt =====
-- nepenthes-core/src/ShellcodeManager.cpp with the handler GenericUniCode among its handlers: from a
-- message with widened code to the handler that takes the code.
use nepenthes.Base.{
  ℕ, suc, ◌+◌, ◌-◌, ◌≤◌, ◌<◌, ◌≡◌, ◌∙◌, ◌⊎◌, refl, sym, ap, subst, arith, inl, inr, Bool, Option,
  none, some, List, [], ◌∷◌, ◌++◌, length, All, drop, done, done_injective,
}
use nepenthes.ShellcodeManager
use nepenthes.ShellcodeManager.{
  SchResult, sch_nothing, sch_reprocess, sch_done, ShellcodeHandler, ShellcodeEvent, Answer, Search,
  search_from, event_of, final_event, ev_shellcode, ev_shellcode_done,
}
use nepenthes.ShellcodeManager.Steps.{Passes, after_answer, search-step, handle_shellcode-search}
use nepenthes.GenericUniCode.{Runs, count_byte, count_runs, longest_run, handle_shellcode}
use nepenthes.GenericUniCode.Widened.{widen, IsPlain, handle_shellcode-widen}

abbrev start : Runs
start = record { uni = 0; maxuni = 0 }

-- A message without zero bytes is left to the other handlers.
count_runs-plain : (s : List ℕ) → IsPlain s → count_runs start s ≡ start
unfolding count_runs count_byte
count_runs-plain [] i = refl
count_runs-plain (c ∷ []) (e, i) = rw (e)
count_runs-plain (c ∷ d ∷ s) (e, (_, i)) = rw (e) (count_runs-plain s i)

drop-IsPlain : (s : List ℕ) → IsPlain s → IsPlain (drop 1 s)
drop-IsPlain [] i = tt
drop-IsPlain (c ∷ s) (e, i) = i

longest_run-plain : (s : List ℕ) → IsPlain s → longest_run s ≡ 0
unfolding longest_run
longest_run-plain s i =
    ap (λ (r : Runs). r.maxuni)
      (ap (λ r. count_runs r (drop 1 s)) (count_runs-plain s i)
        ∙ count_runs-plain (drop 1 s) (drop-IsPlain s i))

handle_shellcode-plain : (s : List ℕ) → IsPlain s → handle_shellcode s ≡ done (sch_nothing, s)
unfolding handle_shellcode
handle_shellcode-plain s i = rw (longest_run-plain s i)

append-IsPlain : (s t : List ℕ) → IsPlain s → IsPlain t → IsPlain (s ++ t)
append-IsPlain [] t i j = j
append-IsPlain (c ∷ s) t (e, i) j = (e, append-IsPlain s t i j)

module _ {World : Type 0} (handle : ShellcodeHandler → List ℕ → World → Answer (List ℕ) World)
    (handlers : List ShellcodeHandler) where
  -- The handler answers as GenericUniCode does, and changes nothing but the message.
  abbrev pub IsUniCode : ShellcodeHandler → World → Type 0
  IsUniCode u w =
      (msg : List ℕ)
      → (handle_shellcode msg ≡ done ((handle u msg w).result, (handle u msg w).message))
        × ((handle u msg w).world ≡ w)

  answer_of :
      (u : ShellcodeHandler) (w : World)
      → IsUniCode u w
      → (msg left : List ℕ) (r : SchResult) → handle_shellcode msg ≡ done (r, left)
      → handle u msg w ≡ record { result = r; message = left; world = w }
  answer_of u w answers msg left r e =
      let (p, q) = answers msg in
      let same = done_injective (sym p ∙ e) in
      λ i. record { result = (same i).0; message = (same i).1; world = q i }

  -- The fuel for a round of each handler, and so much more.
  abbrev rounds : List ShellcodeHandler → ℕ → ℕ
  rounds [] fuel = fuel
  rounds (g ∷ hs) fuel = suc (rounds hs fuel)

  rounds_lem : (hs : List ShellcodeHandler) (fuel : ℕ) → rounds hs fuel ≡ length hs + fuel
  rounds_lem [] fuel = omega arith
  rounds_lem (g ∷ hs) fuel = omega (arith, rounds_lem hs fuel)

  -- The handlers that pass the message on cost a round each.
  search-Passes :
      (pre hs : List ShellcodeHandler) (fuel : ℕ) (msg : List ℕ) (w : World)
      → All (Passes handle handlers msg w) pre
      → search_from handle handlers (rounds pre fuel) (pre ++ hs) msg w
        ≡ search_from handle handlers fuel hs msg w
  search-Passes [] hs fuel msg w passes = refl
  search-Passes (g ∷ pre) hs fuel msg w passes =
      search-step handle handlers (rounds pre fuel) g (pre ++ hs) msg w
      ∙ ap (after_answer handle handlers (rounds pre fuel) g (pre ++ hs)) passes.0
      ∙ search-Passes pre hs fuel msg w passes.1

  -- The handlers, up to one that gives this answer.
  search-until :
      (pre post : List ShellcodeHandler) (h : ShellcodeHandler) (fuel : ℕ) (msg : List ℕ)
      (w : World) (a : Answer (List ℕ) World)
      → handlers ≡ pre ++ h ∷ post
      → All (Passes handle handlers msg w) pre
      → handle h msg w ≡ a
      → search_from handle handlers (rounds pre (suc fuel)) handlers msg w
        ≡ after_answer handle handlers fuel h post a
  search-until pre post h fuel msg w a e passes answer =
      ap (λ hs. search_from handle handlers (rounds pre (suc fuel)) hs msg w) e
      ∙ search-Passes pre (h ∷ post) (suc fuel) msg w passes
      ∙ search-step handle handlers fuel h post msg w
      ∙ ap (after_answer handle handlers fuel h post) answer

  others-Passes :
      (u : ShellcodeHandler) (msg : List ℕ) (w : World) (front : List ShellcodeHandler)
      → Passes handle handlers msg w u
      → All (λ g. (g ≡ u) ⊎ Passes handle handlers msg w g) front
      → All (Passes handle handlers msg w) front
  others-Passes u msg w [] passes h = tt
  others-Passes u msg w (g ∷ front) passes (inl e, h) =
      (subst (Passes handle handlers msg w) (sym e) passes, others-Passes u msg w front passes h)
  others-Passes u msg w (g ∷ front) passes (inr q, h) = (q, others-Passes u msg w front passes h)

  -- A message of bytes that are not zero, with more than 2000 bytes of code widened in it, and at
  -- least one byte behind them. The unicode handler is registered, and those before it find nothing
  -- in the message; a handler takes the message in which the code is narrowed, wherever it stands in
  -- the list, and those before it, but for the unicode handler, find nothing in that message. Then
  -- `handleShellcode` returns: that handler was done, the message and the rest are what it left, and
  -- the events are EV_SHELLCODE with the message and EV_SHELLCODE_DONE with what is left of it.
  -- Fuel for two passes is enough. Malloc gives the block.
  pub handle_shellcode-narrowed :
      (u h : ShellcodeHandler) (pre post front back : List ShellcodeHandler) (p code r : List ℕ)
      (x : ℕ) (w : World) (left : List ℕ) (w' : World) (fuel : ℕ) (trigger : Option (List ℕ))
      (known : Bool)
      → IsUniCode u w
      → handlers ≡ pre ++ u ∷ post
      → handlers ≡ front ++ h ∷ back
      → IsPlain p
      → IsPlain code
      → 2000 < length code
      → IsPlain (x ∷ r)
      → All (Passes handle handlers (p ++ (widen code ++ (x ∷ r))) w) pre
      → All (λ g. (g ≡ u) ⊎ Passes handle handlers (p ++ (code ++ (x ∷ r))) w g) front
      → handle h (p ++ (code ++ (x ∷ r))) w
        ≡ record { result = sch_done; message = left; world = w' }
      → length pre + length front + 2 ≤ fuel
      → ShellcodeManager.handle_shellcode handle handlers fuel
          (p ++ (widen code ++ (x ∷ r)))
          trigger
          known
          w
        ≡ done (
          record { result = sch_done; handler = some h; message = left; world = w' },
          event_of handle handlers (p ++ (widen code ++ (x ∷ r))) none trigger known ev_shellcode
              ∷ event_of handle handlers left (some h) trigger known ev_shellcode_done
              ∷ [],
        )
  handle_shellcode-narrowed u h pre post front back p code r x w left w' fuel trigger known answers
        here there i j long k before between takes enough =
      let msg = p ++ (widen code ++ (x ∷ r)) in
      let bare = p ++ (code ++ (x ∷ r)) in
      let plain = append-IsPlain p (code ++ (x ∷ r)) i (append-IsPlain code (x ∷ r) j k) in
      let passes =
        answer_of u w answers bare bare sch_nothing (handle_shellcode-plain bare plain) in
      let narrows =
        answer_of u w answers msg bare sch_reprocess (handle_shellcode-widen p code r x i long k) in
      let spare = fuel - (length pre + length front + 2) in
      let found : search_from handle handlers fuel handlers msg w
          ≡ done (record { result = sch_done; handler = some h; message = left; world = w' }) =
        ap (λ n. search_from handle handlers n handlers msg w)
          (omega (
            arith,
            rounds_lem pre (suc (rounds front (suc spare))),
            rounds_lem front (suc spare),
            enough,
          ))
        ∙ search-until pre post u (rounds front (suc spare)) msg w _ here before narrows
        ∙ search-until front back h spare bare w _ there
            (others-Passes u bare w front passes between) takes in
      handle_shellcode-search handle handlers fuel msg trigger known w h left w' found
