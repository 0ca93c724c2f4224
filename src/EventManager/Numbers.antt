-- ===== src/EventManager/Numbers.antt =====
-- The registrations of event names and numbers stay unique, and where `registerEvent` goes wrong.
use nepenthes.Base.{
  ℕ, zero, suc, ◌+◌, ◌%◌, ◌^◌, ◌≤◌, ◌<◌, ◌≡◌, ◌≢◌, ◌↔◌, ◌⊎◌, refl, sym, ◌∙◌, arith, subst, inl, inr,
  true, false, Bool-cases, List, [], ◌∷◌, ◌++◌, str_eq_iff, str_eq_ne, Outcome, done, thrown,
  running, if◌then◌else◌,
}
use nepenthes.EventManager.{
  EventManager, EventHandler, EventRegistration, bitset_size, collides, register_internal_event,
  register_loop, register_event, register_all, init, internal_events, test_event,
}

-- No registration has this name, nor this number.
abbrev pub Fresh : List ℕ → ℕ → List EventRegistration → Type 0
Fresh name number [] = Unit
Fresh name number (r ∷ rs) = (r.name ≢ name) × (r.number ≢ number) × Fresh name number rs

-- The names are distinct, and so are the numbers.
abbrev pub Distinct : List EventRegistration → Type 0
Distinct [] = Unit
Distinct (r ∷ rs) = Fresh r.name r.number rs × Distinct rs

pub collides-Fresh :
    (name : List ℕ) (number : ℕ) (rs : List EventRegistration)
    → (collides name number rs ≡ false) ↔ Fresh name number rs
unfolding collides
collides-Fresh name number rs = (to rs, from rs)
  where
    to : (rs : List EventRegistration) → collides name number rs ≡ false → Fresh name number rs
    to [] h = tt
    to (r ∷ rs) h = (
      λ e. ground (arith, h, (str_eq_iff r.name name).1 e),
      λ e. ground (arith, h, e),
      to rs (ground (arith, h)),
    )

    from : (rs : List EventRegistration) → Fresh name number rs → collides name number rs ≡ false
    from [] h = refl
    from (r ∷ rs) h = rw (str_eq_ne r.name name h.0) (ground (arith, h.1, from rs h.2))

Fresh-append :
    (name : List ℕ) (number : ℕ) (rs : List EventRegistration) (new : EventRegistration)
    → Fresh name number rs
    → new.name ≢ name
    → new.number ≢ number
    → Fresh name number (rs ++ new ∷ [])
Fresh-append name number [] new h ne ne' = (ne, ne', tt)
Fresh-append name number (r ∷ rs) new h ne ne' =
    (h.0, h.1, Fresh-append name number rs new h.2 ne ne')

Distinct-append :
    (rs : List EventRegistration) (new : EventRegistration)
    → Distinct rs
    → Fresh new.name new.number rs
    → Distinct (rs ++ new ∷ [])
Distinct-append [] new d f = (tt, tt)
Distinct-append (r ∷ rs) new d f = (
  Fresh-append r.name r.number rs new d.0 (λ e. f.0 (sym e)) (λ e. f.1 (sym e)),
  Distinct-append rs new d.1 f.2,
)

-- Where names and numbers are distinct, a registration succeeds exactly when both the name and the
-- number are unused. It then stands behind the others, and otherwise nothing changes; names and
-- numbers stay distinct either way.
pub register_internal_event_lem :
    (m : EventManager) (name : List ℕ) (number : ℕ)
    → Distinct m.registrations
    → (((register_internal_event m name number).1 ≡ true) ↔ Fresh name number m.registrations)
      × ((register_internal_event m name number).0.registrations ≡ (
          if (register_internal_event m name number).1
          then m.registrations ++ record { name = name; number = number } ∷ []
          else m.registrations))
      × Distinct (register_internal_event m name number).0.registrations
unfolding register_internal_event
register_internal_event_lem m name number d =
    elim (Bool-cases (collides name number m.registrations)) [
      | inl taken ↦
          rw taken
            (((λ e. cc), λ f. cc ((collides-Fresh name number m.registrations).1 f)), refl, d)
      | inr free ↦
          let f = (collides-Fresh name number m.registrations).0 free in
          rw free (((λ e. f), λ g. refl), refl, Distinct-append m.registrations _ d f)
    ]

register_all-Distinct :
    (m : EventManager) (es : List (List ℕ × ℕ))
    → Distinct m.registrations
    → Distinct (register_all m es).registrations
unfolding register_all
register_all-Distinct m [] d = d
register_all-Distinct m ((name, number) ∷ es) d =
    register_all-Distinct (register_internal_event m name number).0 es
      (register_internal_event_lem m name number d).2

-- Where the names and the numbers are distinct, whatever is registered, `Init` leaves them distinct.
pub init-Distinct : (m : EventManager) → Distinct m.registrations → Distinct (init m).registrations
unfolding init
init-Distinct m d = register_all-Distinct m internal_events d

-- The name is among the registrations.
abbrev pub HasName : List ℕ → List EventRegistration → Type 0
HasName name [] = ⊥
HasName name (r ∷ rs) = (r.name ≡ name) ⊎ HasName name rs

collides-HasName :
    (name : List ℕ) (number : ℕ) (rs : List EventRegistration)
    → HasName name rs
    → collides name number rs ≡ true
unfolding collides
collides-HasName name number [] h = absurd h
collides-HasName name number (r ∷ rs) (inl e) = rw ((str_eq_iff r.name name).1 e)
collides-HasName name number (r ∷ rs) (inr h) = ground (arith, collides-HasName name number rs h)

module _ (rand : ℕ → ℕ) where
  loop-taken :
      (fuel i retval : ℕ) (m : EventManager) (name : List ℕ)
      → (register_internal_event m name (retval % 2 ^ 16)).1 ≡ false
      → register_loop rand (suc fuel) i retval m name
        ≡ register_loop rand fuel (i + 1) (rand i) m name
  unfolding register_loop
  loop-taken fuel i retval m name e = rw e

  loop-running :
      (fuel i retval : ℕ) (m : EventManager) (name : List ℕ)
      → HasName name m.registrations
      → register_loop rand fuel i retval m name ≡ running
  loop-running zero i retval m name h = unfold register_loop in refl
  loop-running (suc fuel) i retval m name h =
      loop-taken fuel i retval m name (
        unfold register_internal_event in
        rw (collides-HasName name (retval % 2 ^ 16) m.registrations h))
      ∙ loop-running fuel (i + 1) (rand i) m name h

  -- Registering a name that is registered already never returns, whatever rand() gives: the loop
  -- looks for another number, and it is the name that collides.
  pub register_event-running :
      (fuel : ℕ) (m : EventManager) (name : List ℕ)
      → HasName name m.registrations
      → register_event rand fuel m name ≡ running
  unfolding register_event
  register_event-running fuel m name h = loop-running fuel 1 (rand 0 % bitset_size) m name h

  loop-done :
      (fuel i retval : ℕ) (m : EventManager) (name : List ℕ)
      → Distinct m.registrations
      → Fresh name (retval % 2 ^ 16) m.registrations
      → register_loop rand (suc fuel) i retval m name
        ≡ done (
          record m {
            registrations =
                m.registrations ++ record { name = name; number = retval % 2 ^ 16 } ∷ [];
          },
          retval % 2 ^ 16,
        )
  unfolding register_loop register_internal_event
  loop-done fuel i retval m name d f =
      rw ((collides-Fresh name (retval % 2 ^ 16) m.registrations).1 f)

  -- Where names and numbers are distinct: if the first pick collides and the second value of
  -- rand(), in 16 bits, is an unused number that the bit sets do not have, the name being new,
  -- `registerEvent` returns that number, since it is not reduced again, and every handler's test
  -- of it throws.
  pub register_event-thrown :
      (fuel : ℕ) (m : EventManager) (name : List ℕ) (h : EventHandler)
      → Distinct m.registrations
      → (register_internal_event m name (rand 0 % bitset_size)).1 ≡ false
      → Fresh name (rand 1 % 2 ^ 16) m.registrations
      → bitset_size ≤ rand 1 % 2 ^ 16
      → (m' : EventManager) × (register_event rand (suc (suc fuel)) m name
          ≡ done (m', rand 1 % 2 ^ 16))
        × (test_event h (rand 1 % 2 ^ 16) ≡ thrown)
  unfolding register_event test_event
  register_event-thrown fuel m name h d taken free large =
      let e : rand 0 % bitset_size % 2 ^ 16 ≡ rand 0 % bitset_size = omega arith in
      (
        record m {
          registrations = m.registrations ++ record { name = name; number = rand 1 % 2 ^ 16 } ∷ [];
        },
        loop-taken (suc fuel) 1 (rand 0 % bitset_size) m name (rw e taken)
            ∙ loop-done fuel 2 (rand 1) m name d free,
        ground (arith, large),
      )

  -- What a call returns that registers the name under a number of 16 bits.
  abbrev pub Registers : EventManager → List ℕ → Outcome (EventManager × ℕ) → Type 0
  Registers m name r =
      (number : ℕ) × (r
        ≡ done (
          record m {
            registrations = m.registrations ++ record { name = name; number = number } ∷ [];
          },
          number,
        ))
      × (number < 2 ^ 16)
      × Distinct (m.registrations ++ record { name = name; number = number } ∷ [])

  Fresh-Registers :
      (fuel i retval : ℕ) (m : EventManager) (name : List ℕ)
      → Distinct m.registrations
      → Fresh name (retval % 2 ^ 16) m.registrations
      → Registers m name (register_loop rand (suc fuel) i retval m name)
  Fresh-Registers fuel i retval m name d f = (
    retval % 2 ^ 16,
    loop-done fuel i retval m name d f,
    omega arith,
    Distinct-append m.registrations _ d f,
  )

  -- A round either registers the name or goes on with the next value.
  loop_round :
      (fuel i retval : ℕ) (m : EventManager) (name : List ℕ)
      → Distinct m.registrations
      → Registers m name (register_loop rand fuel (i + 1) (rand i) m name)
      → Registers m name (register_loop rand (suc fuel) i retval m name)
  loop_round fuel i retval m name d rest =
      elim (Bool-cases (collides name (retval % 2 ^ 16) m.registrations)) [
        | inr first ↦
            Fresh-Registers fuel i retval m name d
              ((collides-Fresh name (retval % 2 ^ 16) m.registrations).0 first)
        | inl taken ↦
            subst (Registers m name)
              (sym (loop-taken fuel i retval m name (unfold register_internal_event in rw taken)))
              rest
      ]

  loop-Registers :
      (k i retval : ℕ) (m : EventManager) (name : List ℕ)
      → Distinct m.registrations
      → Fresh name (rand (i + k) % 2 ^ 16) m.registrations
      → Registers m name (register_loop rand (suc (suc k)) i retval m name)
  loop-Registers zero i retval m name d free =
      let e : i + 0 ≡ i = omega arith in
      loop_round 1 i retval m name d (
        Fresh-Registers 0 (i + 1) (rand i) m name d
          (subst (λ (n : ℕ). Fresh name (rand n % 2 ^ 16) m.registrations) e free))
  loop-Registers (suc k) i retval m name d free =
      let e : i + suc k ≡ i + 1 + k = omega arith in
      loop_round (suc (suc k)) i retval m name d (
        loop-Registers k (i + 1) (rand i) m name d
          (subst (λ (n : ℕ). Fresh name (rand n % 2 ^ 16) m.registrations) e free))

  -- Where names and numbers are distinct, the name is new, and some value that rand() gives after
  -- the first is an unused number, in 16 bits: `registerEvent` returns within that many rounds,
  -- the number that it returns has 16 bits, the name stands under it behind the other
  -- registrations, and names and numbers stay distinct.
  pub register_event-Registers :
      (k : ℕ) (m : EventManager) (name : List ℕ)
      → Distinct m.registrations
      → Fresh name (rand (suc k) % 2 ^ 16) m.registrations
      → Registers m name (register_event rand (suc (suc k)) m name)
  unfolding register_event
  register_event-Registers k m name d free =
      let e : suc k ≡ 1 + k = omega arith in
      loop-Registers k 1 (rand 0 % bitset_size) m name d
        (subst (λ (n : ℕ). Fresh name (rand n % 2 ^ 16) m.registrations) e free)
