-- ===== src/EventManager/Dispatch.antt =====
-- Which handlers an event reaches, and in which order.
use nepenthes.Base.{
  ℕ, ◌<◌, ◌≤◌, ◌≡◌, ◌≢◌, refl, arith, true, false, inl, inr, Bool-cases, ltb, lt→ltb, le→ltb,
  ==_refl, if◌then◌else◌, List, [], ◌∷◌, ◌++◌, done, thrown,
}
use nepenthes.EventManager.{
  EventManager, EventHandler, bitset_size, test_event, is_timeout, erase_handler,
  register_event_handler, unregister_event_handler, dispatch, handle_event, timeout_loop,
  do_timeout_loop, ev_timeout,
}

-- The handlers that want events of a type, in the order of their registration.
abbrev pub subscribers : ℕ → List EventHandler → List EventHandler
subscribers type [] = []
subscribers type (h ∷ hs) = if h.events type then h ∷ subscribers type hs else subscribers type hs

module _ {Event World : Type 0} (type_of : Event → ℕ)
    (handle : EventHandler → Event → World → EventHandler × World) where
  -- One call after the other, each on the world that the one before it left.
  abbrev pub notify : List EventHandler → Event → World → World
  notify [] event w = w
  notify (h ∷ hs) event w = notify hs event (handle h event w).1

  -- The handlers that want the event are replaced by what they become, and no other is.
  abbrev pub updated : List EventHandler → Event → World → List EventHandler
  updated [] event w = []
  updated (h ∷ hs) event w =
      if h.events (type_of event)
      then (handle h event w).0 ∷ updated hs event (handle h event w).1
      else h ∷ updated hs event w

  dispatch-notify :
      (hs : List EventHandler) (event : Event) (w : World)
      → type_of event < bitset_size
      → dispatch type_of handle hs event w
        ≡ done (updated hs event w, notify (subscribers (type_of event) hs) event w)
  unfolding dispatch test_event
  dispatch-notify [] event w small = refl
  dispatch-notify (h ∷ hs) event w small = elim (Bool-cases (h.events (type_of event))) [
    | inl wants ↦ rw (lt→ltb _ _ small, wants, dispatch-notify hs event (handle h event w).1 small)
    | inr not_wants ↦ rw (lt→ltb _ _ small, not_wants, dispatch-notify hs event w small)
  ]

  -- An event whose type the bit sets have is handled, in the order of registration, by exactly the
  -- handlers that want its type, each on the world that the one before it left; the others stay as
  -- they are. For an event with a type above that, the first handler's test throws.
  pub handle_event-notify :
      (m : EventManager) (event : Event) (w : World)
      → (type_of event < bitset_size
          → handle_event type_of handle m event w
            ≡ done (
              record m { handlers = updated m.handlers event w },
              notify (subscribers (type_of event) m.handlers) event w,
            ))
        × (bitset_size ≤ type_of event
            → m.handlers ≢ []
            → handle_event type_of handle m event w ≡ thrown)
  unfolding handle_event
  handle_event-notify m event w = (
    λ small. rw (dispatch-notify m.handlers event w small),
    λ large some_handler. rw (thrown_at m.handlers large some_handler),
  )
    where
      thrown_at :
          (hs : List EventHandler)
          → bitset_size ≤ type_of event
          → hs ≢ []
          → dispatch type_of handle hs event w ≡ thrown
      thrown_at [] large some_handler = absurd (some_handler refl)
      thrown_at (h ∷ hs) large some_handler = unfold dispatch test_event in rw (le→ltb _ _ large)

  -- The handlers that want timeouts and whose time has come, in the order of registration.
  abbrev pub timed_out : ℕ → List EventHandler → List EventHandler
  timed_out now [] = []
  timed_out now (h ∷ hs) =
      if h.events ev_timeout
      then (if ltb h.timeout now then h ∷ timed_out now hs else timed_out now hs)
      else timed_out now hs

  timeout_loop-notify :
      (hs : List EventHandler) (ev : Event) (now : ℕ) (w : World)
      → (timeout_loop type_of handle hs ev now w).1 ≡ notify (timed_out now hs) ev w
  unfolding timeout_loop is_timeout
  timeout_loop-notify [] ev now w = refl
  timeout_loop-notify (h ∷ hs) ev now w = elim (Bool-cases (h.events ev_timeout)) [
    | inr not_wants ↦ rw not_wants (timeout_loop-notify hs ev now w)
    | inl wants ↦ elim (Bool-cases (ltb h.timeout now)) [
      | inl late ↦ rw (wants, late) (timeout_loop-notify hs ev now (handle h ev w).1)
      | inr early ↦ rw (wants, early) (timeout_loop-notify hs ev now w)
    ]
  ]

  -- The timeout loop tells exactly the handlers that want timeouts and whose time has come, in the
  -- order of registration, each on the world that the one before it left.
  pub do_timeout_loop-notify :
      (m : EventManager) (ev : Event) (now : ℕ) (w : World)
      → (do_timeout_loop type_of handle m ev now w).1 ≡ notify (timed_out now m.handlers) ev w
  unfolding do_timeout_loop
  do_timeout_loop-notify m ev now w = timeout_loop-notify m.handlers ev now w

-- The identity does not occur among the handlers.
abbrev pub IsUnregistered : ℕ → List EventHandler → Type 0
IsUnregistered id [] = Unit
IsUnregistered id (h ∷ hs) = (h.id ≢ id) × IsUnregistered id hs

erase-append :
    (hs : List EventHandler) (h : EventHandler)
    → IsUnregistered h.id hs
    → erase_handler h.id (hs ++ h ∷ []) ≡ (hs, true)
unfolding erase_handler
erase-append [] h u = rw (==_refl h.id)
erase-append (g ∷ hs) h u = rw (erase-append hs h u.1) (ground (arith, u.0))

-- Unregistering takes out what registering put in, where the handler was not registered before,
-- and for a handler that is not there it changes nothing and says so.
pub unregister-register :
    (m : EventManager) (h : EventHandler)
    → IsUnregistered h.id m.handlers
    → (unregister_event_handler (register_event_handler m h) h.id ≡ (m, true))
      × (unregister_event_handler m h.id ≡ (m, false))
unfolding unregister_event_handler register_event_handler
unregister-register m h u = (rw (erase-append m.handlers h u), rw (missing m.handlers u))
  where
    missing :
        (hs : List EventHandler) → IsUnregistered h.id hs → erase_handler h.id hs ≡ (hs, false)
    missing [] v = unfold erase_handler in refl
    missing (g ∷ hs) v = unfold erase_handler in rw (missing hs v.1) (ground (arith, v.0))
