-- ===== src/TcpSocket/Timeouts.antt =====
-- TCPSocket::setStatus, checkTimeout, handleTimeout and doRespond of nepenthes-core/src/TCPSocket.cpp:
-- the dialogues are asked whether a silent connection is to be kept.
use nepenthes.Base.Int.{pos, int_leb}
use nepenthes.Base.{
  ℕ, ◌-◌, ◌≡◌, ◌≢◌, ◌↔◌, ◌∙◌, refl, arith, inl, inr, ◌⊎◌, ◌==◌, ltb, if◌then◌else◌, not, Bool, true,
  false, ◌≤◌, ◌<◌, ◌&&◌, ◌||◌, Bool-cases, List, [], ◌∷◌,
}
use nepenthes.TcpSocket.{
  ConsumeLevel, cl_drop, cl_unsure, cl_readonly, cl_assign, cl_assign_and_done, Dialogue, TcpSocket,
  Happened, timed_out, established, Reaction, SocketState, ss_connected, ss_connecting, ss_timeout,
  set_level, do_write, write_all,
}

-- The type and the timeouts of a socket, which these calls read.
pub record SocketKind : Type 0 where
  pub is_bind : Bool
  pub is_connect : Bool
  pub bind_timeout_intervall : ℕ
  pub timeout_intervall : ℕ

pub is_readonly : ConsumeLevel → Bool
is_readonly cl_readonly = true
is_readonly _ = false

pub is_assign : ConsumeLevel → Bool
is_assign cl_assign = true
is_assign _ = false

pub is_connected : SocketState → Bool
is_connected ss_connected = true
is_connected _ = false

pub is_connecting : SocketState → Bool
is_connecting ss_connecting = true
is_connecting _ = false

pub do_respond : TcpSocket → List ℕ → TcpSocket × Bool
do_respond s msg = let (s', n) = do_write s msg in (s', not (int_leb n (pos 0)))

module _ {World : Type 0} (react : Dialogue → Happened → World → Reaction World) where
  -- Every dialogue hears of the connection; the levels that they return are not looked at.
  pub tell_established : List Dialogue → TcpSocket → World → TcpSocket × World
  tell_established [] s w = (s, w)
  tell_established (d ∷ ds) s w =
      let r = react d established w in tell_established ds (write_all s r.writes) r.world

  pub set_status : SocketKind → TcpSocket → SocketState → World → TcpSocket × World
  set_status k s i w =
      let (s', w') : TcpSocket × World =
        if k.is_connect && is_connected i && is_connecting s.status
        then tell_established s.dialogues s w
        else (s, w) in
      (record s' { status = i }, w')

  -- One dialogue is asked; one that only reads may not write meanwhile.
  pub ask : TcpSocket → Dialogue → Reaction World → TcpSocket
  ask s d r =
      let s' = if is_readonly d.level then record s { can_send = false } else s in
      record (write_all s' r.writes) { can_send = true }

  -- The loop over the dialogues, inactive ones included, with `bAssigned`.
  pub ask_all : List Dialogue → TcpSocket → World → List Dialogue × TcpSocket × World × Bool
  ask_all [] s w = ([], s, w, false)
  ask_all (d ∷ ds) s w =
      let r = react d timed_out w in
      let (ds', s', w', assigned) = ask_all ds (ask s d r) r.world in
      (set_level d r.level ∷ ds', s', w', is_assign r.level || assigned)

  pub handle_timeout : TcpSocket → World → TcpSocket × World × Bool
  handle_timeout s w =
      let (ds, s', w', assigned) = ask_all s.dialogues s w in
      (record s' { dialogues = ds }, w', assigned)

  pub timed : SocketKind → TcpSocket → World → TcpSocket × World × Bool
  timed k s w =
      let (s', w', kept) = handle_timeout s w in
      let (s'', w'') = set_status k s' ss_timeout w' in
      if kept then (s', w', true) else (s'', w'', false)

  pub check_timeout : SocketKind → TcpSocket → ℕ → World → TcpSocket × World × Bool
  check_timeout k s now w =
      let intervall : ℕ = if k.is_bind then k.bind_timeout_intervall else k.timeout_intervall in
      if not (intervall == 0) && ltb intervall (now - s.last_action)
      then timed k s w
      else (s, w, false)

do_write-status : (s : TcpSocket) (msg : List ℕ) → (do_write s msg).0.status ≡ s.status
unfolding do_write
do_write-status s msg = elim (Bool-cases s.can_send) [ inl e ↦ rw e | inr e ↦ rw e ]

write_all-status : (s : TcpSocket) (msgs : List (List ℕ)) → (write_all s msgs).status ≡ s.status
unfolding write_all
write_all-status s [] = refl
write_all-status s (msg ∷ msgs) = write_all-status (do_write s msg).0 msgs ∙ do_write-status s msg

is_assign_iff : (cl : ConsumeLevel) → (is_assign cl ≡ true) ↔ (cl ≡ cl_assign)
unfolding is_assign
is_assign_iff cl_assign = ((λ e. refl), (λ e. refl))
is_assign_iff cl_drop = ((λ e. cc), (λ e. cc))
is_assign_iff cl_unsure = ((λ e. cc), (λ e. cc))
is_assign_iff cl_readonly = ((λ e. cc), (λ e. cc))
is_assign_iff cl_assign_and_done = ((λ e. cc), (λ e. cc))

-- The time that the socket may be silent; 0 is for ever.
abbrev pub intervall : SocketKind → ℕ
intervall k = if k.is_bind then k.bind_timeout_intervall else k.timeout_intervall

module _ {World : Type 0} (react : Dialogue → Happened → World → Reaction World) where
  -- One of the dialogues answers CL_ASSIGN when they are asked in turn.
  abbrev pub IsKept : List Dialogue → World → Type 0
  IsKept [] w = ⊥
  IsKept (d ∷ ds) w = let r = react d timed_out w in (r.level ≡ cl_assign) ⊎ IsKept ds r.world

  ask-status :
      (s : TcpSocket) (d : Dialogue) (r : Reaction World) → (ask react s d r).status ≡ s.status
  unfolding ask
  ask-status s d r = elim (Bool-cases (is_readonly d.level)) [
    | inl e ↦ rw e (write_all-status (record s { can_send = false }) r.writes)
    | inr e ↦ rw e (write_all-status s r.writes)
  ]

  ask_all-IsKept :
      (ds : List Dialogue) (s : TcpSocket) (w : World)
      → (((ask_all react ds s w).3 ≡ true) ↔ IsKept ds w)
        × ((ask_all react ds s w).1.status ≡ s.status)
  unfolding ask_all
  ask_all-IsKept [] s w = (((λ e. cc), (λ k. absurd k)), refl)
  ask_all-IsKept (d ∷ ds) s w =
      let r = react d timed_out w in
      let (rest, status) = ask_all-IsKept ds (ask react s d r) r.world in
      (
        elim (Bool-cases (is_assign r.level)) [
          | inl e ↦ rw e ((λ p. inl ((is_assign_iff r.level).0 e)), (λ k. refl))
          | inr e ↦ rw e ((λ p. inr (rest.0 p)), (λ k. later ds s w d e k rest.1))
        ],
        status ∙ ask-status s d r,
      )
    where
      later :
          (ds : List Dialogue) (s : TcpSocket) (w : World) (d : Dialogue)
          → is_assign (react d timed_out w).level ≡ false
          → IsKept (d ∷ ds) w
          → (IsKept ds (react d timed_out w).world
              → (ask_all react ds
                  (ask react s d (react d timed_out w))
                  (react d timed_out w).world).3
                ≡ true)
          → (ask_all react ds (ask react s d (react d timed_out w)) (react d timed_out w).world).3
            ≡ true
      later ds s w d e (inl q) rest = cc ((is_assign_iff (react d timed_out w).level).1 q, e)
      later ds s w d e (inr q) rest = rest q

  timed-IsKept :
      (k : SocketKind) (s : TcpSocket) (w : World)
      → (((timed react k s w).2 ≡ true) ↔ IsKept s.dialogues w)
        × ((timed react k s w).0.status ≡ (if (timed react k s w).2 then s.status else ss_timeout))
  unfolding timed handle_timeout set_status
  timed-IsKept k s w =
      let (kept, status) = ask_all-IsKept s.dialogues s w in
      elim (Bool-cases (ask_all react s.dialogues s w).3) [
        | inl e ↦ rw e (((λ p. kept.0 e), (λ q. refl)), status)
        | inr e ↦ rw e (((λ p. cc), (λ q. cc (kept.1 q, e))), refl)
      ]

  -- As long as the time has not run out, or there is none, nothing happens. When it has, the call
  -- returns true and the status stays if some dialogue answers CL_ASSIGN, and otherwise it returns
  -- false and the status is a timeout, which ends the connection.
  pub check_timeout-IsKept :
      (k : SocketKind) (s : TcpSocket) (now : ℕ) (w : World)
      → ((intervall k ≡ 0) ⊎ (now - s.last_action ≤ intervall k)
          → check_timeout react k s now w ≡ (s, w, false))
        × (intervall k ≢ 0
            → intervall k < now - s.last_action
            → (((check_timeout react k s now w).2 ≡ true) ↔ IsKept s.dialogues w)
              × ((check_timeout react k s now w).0.status
                  ≡ (if (check_timeout react k s now w).2 then s.status else ss_timeout)))
  unfolding check_timeout
  check_timeout-IsKept k s now w = (
    (λ early. rw (waits (intervall k) (now - s.last_action) early)),
    (λ limited late.
        rw (due (intervall k) (now - s.last_action) limited late) (timed-IsKept k s w)),
  )
    where
      waits : (i t : ℕ) → (i ≡ 0) ⊎ (t ≤ i) → (not (i == 0) && ltb i t) ≡ false
      waits i t (inl e) = ground (arith, e)
      waits i t (inr h) = ground (arith, h)

      due : (i t : ℕ) → i ≢ 0 → i < t → (not (i == 0) && ltb i t) ≡ true
      due i t ne h = ground (arith, ne, h)
