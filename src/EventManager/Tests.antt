-- ===== src/EventManager/Tests.antt =====
-- Runs of the event manager, and the theorems about it at concrete inputs.
use nepenthes.Base.{
  ℕ, zero, suc, ◌%◌, ◌<◌, ◌≤◌, ◌≡◌, ◌≢◌, refl, arith, Bool, true, false, ◌==◌, List, [], ◌∷◌, codes,
  str_eq, str_eq_iff, done, thrown,
}
use nepenthes.EventManager.{
  EventManager, EventHandler, EventRegistration, collides, register_internal_event, register_all,
  init, handle_event,
}
use nepenthes.EventManager.Numbers.{Fresh, Distinct, init-Distinct}
use nepenthes.EventManager.Dispatch.{updated, handle_event-notify}

-- One handler for the even event types, one for all.
abbrev even_handler : EventHandler
even_handler = record { id = 1; events = λ t. t % 2 == 0; timeout = 10 }

abbrev any_handler : EventHandler
any_handler = record { id = 2; events = λ t. true; timeout = 20 }

abbrev empty : EventManager
empty = record { handlers = []; registrations = [] }

abbrev listening : EventManager
listening = record empty { handlers = even_handler ∷ any_handler ∷ [] }

-- An event is its type, and the world a log of who was told.
abbrev tell : EventHandler → ℕ → List ℕ → EventHandler × List ℕ
tell h event log = (h, h.id ∷ log)

abbrev dns : EventRegistration
dns = record { name = codes "EV_DNS"; number = 5 }

abbrev named : EventManager
named = record empty { registrations = dns ∷ [] }

init_registers_all : (init empty).registrations ≢ []
unfolding init register_all register_internal_event collides str_eq
init_registers_all e = cc

abbrev after_txt : EventManager × Bool
after_txt = register_internal_event named (codes "EV_TXT") 5

init-Distinct_example : Distinct (init named).registrations
init-Distinct_example = init-Distinct named (tt, tt)

-- rand() gives 5, which is taken, and then 300.
abbrev second_pick : ℕ → ℕ
second_pick zero = 5
second_pick (suc i) = 300

taken : (register_internal_event named (codes "EV_TXT") 5).1 ≡ false
unfolding register_internal_event collides str_eq
taken = refl

unused : Fresh (codes "EV_TXT") 300 named.registrations
unfolding str_eq
unused = (λ e. cc ((str_eq_iff (codes "EV_DNS") (codes "EV_TXT")).1 e), λ e. omega arith, tt)

handle_event-notify_example :
    (7 < 256
      → handle_event (λ t. t) tell listening 7 []
        ≡ done
            (record listening { handlers = updated (λ t. t) tell listening.handlers 7 [] }, 2 ∷ []))
    × (256 ≤ 7 → listening.handlers ≢ [] → handle_event (λ t. t) tell listening 7 [] ≡ thrown)
handle_event-notify_example = handle_event-notify (λ t. t) tell listening 7 []
