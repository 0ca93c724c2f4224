-- ===== src/ShellcodeManager.antt =====
-- nepenthes-core/src/ShellcodeManager.cpp: a message that may be shellcode goes through the
-- registered handlers. What a handler answers, and what it makes of the message, is the modules'
-- code and a parameter; the events are collected in their order instead of being delivered.
pub mod Steps
pub mod Termination
pub mod Answers
mod Tests
use nepenthes.Base.{
  ℕ, zero, suc, ◌==◌, if◌then◌else◌, Bool, true, false, List, [], ◌∷◌, ◌++◌, Option, some, none,
  codes, Outcome, done, running, ◌>>=◌,
}

pub data SchResult : Type 0 where
  sch_nothing sch_reprocess sch_reprocess_but_not_me sch_done : SchResult

-- A `ShellcodeHandler *` is a number.
abbrev pub ShellcodeHandler : Type 0
ShellcodeHandler = ℕ

abbrev pub ev_shellcode : ℕ
ev_shellcode = 70

abbrev pub ev_shellcode_done : ℕ
ev_shellcode_done = 71

abbrev pub ev_shellcode_fail : ℕ
ev_shellcode_fail = 72

pub register_shellcode_handler :
    List ShellcodeHandler → ShellcodeHandler → List ShellcodeHandler × Bool
register_shellcode_handler hs h = (hs ++ h ∷ [], true)

pub unregister_shellcode_handler :
    List ShellcodeHandler → ShellcodeHandler → List ShellcodeHandler × Bool
unregister_shellcode_handler [] h = ([], false)
unregister_shellcode_handler (g ∷ hs) h =
    let (hs', found) = unregister_shellcode_handler hs h in
    if g == h then (hs, true) else (g ∷ hs', found)

pub record ShellcodeEvent (Message : Type 0) : Type 0 where
  pub message : Message
  pub handler : Option ShellcodeHandler
  pub trigger : List ℕ
  pub known : Bool
  pub type : ℕ

-- What a handler leaves: its answer, the message behind `*nmsg`, and everything else.
pub record Answer (Message World : Type 0) : Type 0 where
  pub result : SchResult
  pub message : Message
  pub world : World

-- How the search through the handlers ends.
pub record Search (Message World : Type 0) : Type 0 where
  pub result : SchResult
  pub handler : Option ShellcodeHandler
  pub message : Message
  pub world : World

module _ {Message World : Type 0}
    (handle : ShellcodeHandler → Message → World → Answer Message World)
    (handlers : List ShellcodeHandler) where
  -- The loop with the handlers from the iterator on.
  pub search_from : ℕ → List ShellcodeHandler → Message → World → Outcome (Search Message World)
  search_from zero hs msg w = running
  search_from (suc fuel) [] msg w =
      done (record { result = sch_nothing; handler = none; message = msg; world = w })
  search_from (suc fuel) (h ∷ hs) msg w =
      let a = handle h msg w in
      elim a.result [
        | sch_done ↦
            done
              (record { result = sch_done; handler = some h; message = a.message; world = a.world })
        | sch_nothing ↦ search_from fuel hs a.message a.world
        | sch_reprocess ↦ search_from fuel handlers a.message a.world
        | sch_reprocess_but_not_me ↦ search_from fuel (h ∷ hs) a.message a.world
      ]

  pub file_check : ℕ → Message → World → Outcome (Search Message World)
  file_check fuel msg w = search_from fuel handlers msg w

  abbrev pub event_of :
      Message → Option ShellcodeHandler → Option (List ℕ) → Bool → ℕ → ShellcodeEvent Message
  event_of msg h trigger known type = record {
    message = msg;
    handler = h;
    trigger = elim trigger [ none ↦ codes "Unknown" | some t ↦ t ];
    known = known;
    type = type;
  }

  -- EV_SHELLCODE_DONE with the handler that was done, or EV_SHELLCODE_FAIL.
  pub final_event :
      Message → Option ShellcodeHandler → Option (List ℕ) → Bool → ShellcodeEvent Message
  final_event msg none trigger known = event_of msg none trigger known ev_shellcode_fail
  final_event msg (some h) trigger known = event_of msg (some h) trigger known ev_shellcode_done

  pub handle_shellcode :
      ℕ
      → Message
      → Option (List ℕ)
      → Bool
      → World
      → Outcome (Search Message World × List (ShellcodeEvent Message))
  unfolding final_event
  handle_shellcode fuel msg trigger known w = do
    s ← search_from fuel handlers msg w
    done (
      s,
      event_of msg none trigger known ev_shellcode
          ∷ final_event s.message s.handler trigger known
          ∷ [],
    )
