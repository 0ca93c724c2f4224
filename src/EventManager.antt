-- ===== src/EventManager.antt =====
-- nepenthes-core/src/EventManager.cpp and EventHandler.cpp: who is told of which event, and the
-- numbers of the events. What a handler does with an event is the modules' code and a parameter.
pub mod Numbers
pub mod Dispatch
mod Tests
use nepenthes.Base.{
  ℕ, zero, suc, ◌+◌, ◌%◌, ◌^◌, ◌==◌, ltb, if◌then◌else◌, Bool, true, false, ◌&&◌, ◌||◌, List, [],
  ◌∷◌, ◌++◌, codes, str_eq, Outcome, done, thrown, running, ◌>>=◌,
}

-- EVENT_HANDLER_BITSET_SIZE
abbrev pub bitset_size : ℕ
bitset_size = 256

abbrev pub ev_timeout : ℕ
ev_timeout = 0

-- An `EventHandler *` is its identity with the members that the manager's calls read.
pub record EventHandler : Type 0 where
  pub id : ℕ
  pub events : ℕ → Bool
  pub timeout : ℕ

-- `m_Events.test(type)` throws on a bit that the set does not have.
pub test_event : EventHandler → ℕ → Outcome Bool
test_event h type = if ltb type bitset_size then done (h.events type) else thrown

pub is_timeout : EventHandler → ℕ → Bool
is_timeout h now = h.events ev_timeout && ltb h.timeout now

pub record EventRegistration : Type 0 where
  pub name : List ℕ
  pub number : ℕ

pub record EventManager : Type 0 where
  pub handlers : List EventHandler
  pub registrations : List EventRegistration

pub register_event_handler : EventManager → EventHandler → EventManager
register_event_handler m h = record m { handlers = m.handlers ++ h ∷ [] }

pub erase_handler : ℕ → List EventHandler → List EventHandler × Bool
erase_handler id [] = ([], false)
erase_handler id (h ∷ hs) =
    let (hs', found) = erase_handler id hs in if h.id == id then (hs, true) else (h ∷ hs', found)

pub unregister_event_handler : EventManager → ℕ → EventManager × Bool
unfolding erase_handler
unregister_event_handler m id =
    let (hs, found) = erase_handler id m.handlers in (record m { handlers = hs }, found)

-- The search for a registration with this name or this number.
pub collides : List ℕ → ℕ → List EventRegistration → Bool
collides name number [] = false
collides name number (r ∷ rs) = str_eq r.name name || r.number == number || collides name number rs

pub register_internal_event : EventManager → List ℕ → ℕ → EventManager × Bool
unfolding collides
register_internal_event m name number =
    if collides name number m.registrations then (m, false) else (
      record m { registrations = m.registrations ++ record { name = name; number = number } ∷ [] },
      true,
    )

-- The loop of `registerEvent`; `rand i` is the i-th value of rand(). The number is handed on as a
-- `uint16_t`.
module _ (rand : ℕ → ℕ) where
  pub register_loop : ℕ → ℕ → ℕ → EventManager → List ℕ → Outcome (EventManager × ℕ)
  register_loop zero i retval m name = running
  register_loop (suc fuel) i retval m name =
      let (m', fresh) = register_internal_event m name (retval % 2 ^ 16) in
      let rest = register_loop fuel (i + 1) (rand i) m name in
      if fresh then done (m', retval % 2 ^ 16) else rest

  pub register_event : ℕ → EventManager → List ℕ → Outcome (EventManager × ℕ)
  register_event fuel m name = register_loop fuel 1 (rand 0 % bitset_size) m name

-- The internal events, in the order of `Init`.
abbrev pub internal_events : List (List ℕ × ℕ)
internal_events =
    (codes "EV_TIMEOUT", 0)
    ∷ (codes "EV_SOCK_TCP_BIND", 1)
    ∷ (codes "EV_SOCK_TCP_ACCEPT", 2)
    ∷ (codes "EV_SOCK_TCP_CONNECT", 4)
    ∷ (codes "EV_SOCK_TCP_CLOSE", 6)
    ∷ (codes "EV_SOCK_TCP_RX", 7)
    ∷ (codes "EV_SOCK_TCP_TX", 9)
    ∷ (codes "EV_SOCK_UDP_BIND", 11)
    ∷ (codes "EV_SOCK_UDP_ACCEPT", 12)
    ∷ (codes "EV_SOCK_UDP_CONNECT", 13)
    ∷ (codes "EV_SOCK_UDP_CLOSE", 14)
    ∷ (codes "EV_SOCK_UDS_BIND", 21)
    ∷ (codes "EV_SOCK_UDS_ACCEPT", 22)
    ∷ (codes "EV_SOCK_UDS_CONNECT", 23)
    ∷ (codes "EV_SOCK_UDS_CLOSE", 24)
    ∷ (codes "EV_SOCK_RAW_BIND", 31)
    ∷ (codes "EV_SOCK_RAW_ACCEPT", 32)
    ∷ (codes "EV_SOCK_RAW_CONNECT", 33)
    ∷ (codes "EV_SOCK_RAW_CLOSE", 34)
    ∷ (codes "EV_DOWNLOAD", 41)
    ∷ (codes "EV_SUBMISSION", 51)
    ∷ (codes "EV_SUBMISSION_UNIQ", 52)
    ∷ (codes "EV_SUBMISSION_HIT", 53)
    ∷ (codes "EV_DIALOGUE_ASSIGN_AND_DONE", 61)
    ∷ []

pub register_all : EventManager → List (List ℕ × ℕ) → EventManager
register_all m [] = m
register_all m ((name, number) ∷ es) = register_all (register_internal_event m name number).0 es

-- `Init` does not look at what its registrations return.
pub init : EventManager → EventManager
unfolding register_all
init m = register_all m internal_events

-- `handle` is what the handler does with the event; it may change the handler and the world.
module _ {Event World : Type 0} (type_of : Event → ℕ)
    (handle : EventHandler → Event → World → EventHandler × World) where
  pub dispatch : List EventHandler → Event → World → Outcome (List EventHandler × World)
  dispatch [] event w = done ([], w)
  dispatch (h ∷ hs) event w = do
    wants ← test_event h (type_of event)
    let r = if wants then handle h event w else (h, w)
    rest ← dispatch hs event r.1
    done (r.0 ∷ rest.0, rest.1)

  pub handle_event : EventManager → Event → World → Outcome (EventManager × World)
  handle_event m event w = do
    r ← dispatch m.handlers event w
    done (record m { handlers = r.0 }, r.1)

  -- `ev` is the timeout event, and `now` the time at each test.
  pub timeout_loop : List EventHandler → Event → ℕ → World → List EventHandler × World
  timeout_loop [] ev now w = ([], w)
  timeout_loop (h ∷ hs) ev now w =
      let (h', w') = if is_timeout h now then handle h ev w else (h, w) in
      let (hs', w'') = timeout_loop hs ev now w' in (h' ∷ hs', w'')

  pub do_timeout_loop : EventManager → Event → ℕ → World → EventManager × World
  do_timeout_loop m ev now w =
      let (hs, w') = timeout_loop m.handlers ev now w in (record m { handlers = hs }, w')
