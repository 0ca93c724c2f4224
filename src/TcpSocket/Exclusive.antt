-- ===== src/TcpSocket/Exclusive.antt =====
-- A dialogue that takes a connection for itself keeps the others off it.
use mathlib.Core.List.{append-nil, append_assoc}
use nepenthes.Base.{
  ℕ, zero, suc, ◌≡◌, ◌≢◌, refl, inl, inr, ◌⊎◌, true, false, List, [], ◌∷◌, ◌++◌, length, All,
  All-append, Bool-cases,
}
use nepenthes.TcpSocket.{
  ConsumeLevel, cl_drop, cl_unsure, cl_readonly, cl_assign, cl_assign_and_done, Dialogue, TcpSocket,
  Happened, Reaction, is_drop, set_level, quiet_level, quiet, after_answer, recv_loop, do_recv,
  give,
}

-- The dialogue only reads, or has been made inactive.
abbrev pub IsQuiet : ConsumeLevel → Type 0
IsQuiet cl = (cl ≡ cl_readonly) ⊎ (cl ≡ cl_drop)

abbrev pub Quiet : Dialogue → Type 0
Quiet d = IsQuiet d.level

abbrev pub NotDone : Dialogue → Type 0
NotDone d = d.level ≢ cl_assign_and_done

-- One dialogue has taken the connection, and all the others are quiet.
abbrev pub One : List Dialogue → Type 0
One [] = ⊥
One (d ∷ ds) = ((d.level ≡ cl_assign_and_done) × All Quiet ds) ⊎ (Quiet d × One ds)

-- Nobody has taken the connection for itself, or one has and the others are quiet.
abbrev pub IsExclusive : List Dialogue → Type 0
IsExclusive ds = All NotDone ds ⊎ One ds

ConsumeLevel-cases : (cl : ConsumeLevel) → (cl ≡ cl_assign_and_done) ⊎ (cl ≢ cl_assign_and_done)
ConsumeLevel-cases cl_drop = inr (λ e. cc)
ConsumeLevel-cases cl_unsure = inr (λ e. cc)
ConsumeLevel-cases cl_readonly = inr (λ e. cc)
ConsumeLevel-cases cl_assign = inr (λ e. cc)
ConsumeLevel-cases cl_assign_and_done = inl refl

quiet_level-IsQuiet : (cl : ConsumeLevel) → IsQuiet (quiet_level cl)
unfolding quiet_level
quiet_level-IsQuiet cl_readonly = inl refl
quiet_level-IsQuiet cl_drop = inr refl
quiet_level-IsQuiet cl_unsure = inr refl
quiet_level-IsQuiet cl_assign = inr refl
quiet_level-IsQuiet cl_assign_and_done = inr refl

quiet-Quiet : (ds : List Dialogue) → All Quiet (quiet ds)
unfolding quiet set_level
quiet-Quiet [] = tt
quiet-Quiet (d ∷ ds) = (quiet_level-IsQuiet d.level, quiet-Quiet ds)

IsQuiet-not_done : {cl : ConsumeLevel} → IsQuiet cl → cl ≢ cl_assign_and_done
IsQuiet-not_done (inl e) e' = cc
IsQuiet-not_done (inr e) e' = cc

Quiet-NotDone : (ds : List Dialogue) → All Quiet ds → All NotDone ds
Quiet-NotDone [] q = tt
Quiet-NotDone (d ∷ ds) q = (IsQuiet-not_done q.0, Quiet-NotDone ds q.1)

One-between :
    (xs : List Dialogue) (d : Dialogue) (ys : List Dialogue)
    → All Quiet xs
    → d.level ≡ cl_assign_and_done
    → All Quiet ys
    → One (xs ++ d ∷ ys)
One-between [] d ys qx e qy = inl (e, qy)
One-between (x ∷ xs) d ys qx e qy = inr (qx.0, One-between xs d ys qx.1 e qy)

All-split {κ} :
    (P : Dialogue → Type κ) (xs ys : List Dialogue) → All P (xs ++ ys) → All P xs × All P ys
All-split P [] ys h = (tt, h)
All-split P (x ∷ xs) ys h = let (hx, hy) = All-split P xs ys h.1 in ((h.0, hx), hy)

-- The dialogue in the middle is the one, or it is quiet and can be replaced by another quiet one.
One-split :
    (xs : List Dialogue) (d : Dialogue) (ys : List Dialogue)
    → One (xs ++ d ∷ ys)
    → (All Quiet xs × All Quiet ys) ⊎ (Quiet d × ((d' : Dialogue) → Quiet d' → One (xs ++ d' ∷ ys)))
One-split [] d ys (inl o) = inl (tt, o.1)
One-split [] d ys (inr o) = inr (o.0, λ d' q. inr (q, o.1))
One-split (x ∷ xs) d ys (inl o) =
    let (qx, qdy) = All-split Quiet xs (d ∷ ys) o.1 in
    inr (qdy.0, λ d' q. inl (o.0, All-append Quiet xs (d' ∷ ys) qx (q, qdy.1)))
One-split (x ∷ xs) d ys (inr o) = elim (One-split xs d ys o.1) [
  | inl q ↦ inl ((o.0, q.0), q.1)
  | inr q ↦ inr (q.0, λ d' q'. inr (o.0, q.1 d' q'))
]

after_answer-other :
    (cl : ConsumeLevel) (ds : List Dialogue) → cl ≢ cl_assign_and_done → after_answer cl ds ≡ ds
unfolding after_answer
after_answer-other cl_drop ds ne = refl
after_answer-other cl_unsure ds ne = refl
after_answer-other cl_readonly ds ne = refl
after_answer-other cl_assign ds ne = refl
after_answer-other cl_assign_and_done ds ne = absurd (ne refl)

active-ne-drop : (cl : ConsumeLevel) → is_drop cl ≡ false → cl ≢ cl_drop
unfolding is_drop
active-ne-drop cl_drop h e = cc
active-ne-drop cl_unsure h e = cc
active-ne-drop cl_readonly h e = cc
active-ne-drop cl_assign h e = cc
active-ne-drop cl_assign_and_done h e = cc

-- One answer, of a dialogue that is not inactive; one that only reads goes on so or gets inactive.
answer-IsExclusive :
    (xs : List Dialogue) (d : Dialogue) (ys : List Dialogue) (cl : ConsumeLevel)
    → is_drop d.level ≡ false
    → (d.level ≡ cl_readonly → IsQuiet cl)
    → IsExclusive (xs ++ d ∷ ys)
    → IsExclusive (after_answer cl xs ++ set_level d cl ∷ after_answer cl ys)
answer-IsExclusive xs d ys cl active reads exclusive = elim (ConsumeLevel-cases cl) [
  | inl e ↦
      let qx : All Quiet (after_answer cl xs) = rw e (unfold after_answer in quiet-Quiet xs) in
      let qy : All Quiet (after_answer cl ys) = rw e (unfold after_answer in quiet-Quiet ys) in
      inr (
        One-between (after_answer cl xs) (set_level d cl) (after_answer cl ys) qx
          (unfold set_level in e) qy)
  | inr ne ↦ rw (after_answer-other cl xs ne, after_answer-other cl ys ne) (other ne exclusive)
]
  where
    other :
        cl ≢ cl_assign_and_done
        → IsExclusive (xs ++ d ∷ ys)
        → IsExclusive (xs ++ set_level d cl ∷ ys)
    other ne (inl none_done) =
        let (nx, ny) = All-split NotDone xs (d ∷ ys) none_done in
        inl (All-append NotDone xs (set_level d cl ∷ ys) nx (unfold set_level in ne, ny.1))
    other ne (inr one) = elim (One-split xs d ys one) [
      | inl q ↦ inl (
          All-append NotDone xs (set_level d cl ∷ ys) (Quiet-NotDone xs q.0)
            (unfold set_level in ne, Quiet-NotDone ys q.1))
      | inr q ↦ inr (q.1 (set_level d cl) (unfold set_level in reads (readonly q.0)))
    ]
      where
        readonly : Quiet d → d.level ≡ cl_readonly
        readonly (inl e) = e
        readonly (inr e) = absurd (active-ne-drop d.level active e)

module _ {World : Type 0} (react : Dialogue → Happened → World → Reaction World) where
  -- A dialogue that only reads goes on so, or gets inactive.
  abbrev pub KeepsReading : Type 0
  KeepsReading =
      (d : Dialogue) (what : Happened) (w : World)
      → d.level ≡ cl_readonly
      → IsQuiet (react d what w).level

  pub recv_loop-drop :
      (n : ℕ) (seen : List Dialogue) (d : Dialogue) (rest : List Dialogue) (what : Happened)
      (s : TcpSocket) (w : World)
      → is_drop d.level ≡ true
      → recv_loop react (suc n) seen (d ∷ rest) what s w
        ≡ recv_loop react n (seen ++ d ∷ []) rest what s w
  unfolding recv_loop
  recv_loop-drop n seen d rest what s w e = rw (e, recv_loop)

  pub recv_loop-answer :
      (n : ℕ) (seen : List Dialogue) (d : Dialogue) (rest : List Dialogue) (what : Happened)
      (s : TcpSocket) (w : World)
      → is_drop d.level ≡ false
      → let r = react d what w in
        recv_loop react (suc n) seen (d ∷ rest) what s w
        ≡ recv_loop react n
            (after_answer r.level seen ++ set_level d r.level ∷ [])
            (after_answer r.level rest)
            what
            (give react s d r)
            r.world
  unfolding recv_loop
  recv_loop-answer n seen d rest what s w e = rw (e, recv_loop)

  recv_loop-IsExclusive :
      KeepsReading
      → (n : ℕ) (seen rest : List Dialogue) (what : Happened) (s : TcpSocket) (w : World)
      → IsExclusive (seen ++ rest)
      → IsExclusive (recv_loop react n seen rest what s w).0
  recv_loop-IsExclusive reads zero seen rest what s w h = unfold recv_loop in h
  recv_loop-IsExclusive reads (suc n) seen [] what s w h =
      unfold recv_loop in rw (← append-nil seen) h
  recv_loop-IsExclusive reads (suc n) seen (d ∷ rest) what s w h =
      elim (Bool-cases (is_drop d.level)) [
        | inl e ↦ rw (recv_loop-drop n seen d rest what s w e) (
            recv_loop-IsExclusive reads n (seen ++ d ∷ []) rest what s w
              (rw (append_assoc seen (d ∷ []) rest) h))
        | inr e ↦
            let r = react d what w in
            rw (recv_loop-answer n seen d rest what s w e) (
              recv_loop-IsExclusive reads n (after_answer r.level seen ++ set_level d r.level ∷ [])
                (after_answer r.level rest) what (give react s d r) r.world
                (rw
                  (append_assoc (after_answer r.level seen) (set_level d r.level ∷ [])
                    (after_answer r.level rest))
                  (answer-IsExclusive seen d rest r.level e (reads d what w) h)))
      ]

  -- When a dialogue has taken the connection for itself, with CL_ASSIGN_AND_DONE, all other
  -- dialogues are inactive or only read: every call of `doRecv` keeps it so, whichever dialogue
  -- answers what, as long as one that only reads goes on so or gets inactive.
  pub do_recv-IsExclusive :
      KeepsReading
      → (s : TcpSocket) (what : Happened) (now : ℕ) (w : World) → IsExclusive s.dialogues
      → IsExclusive (do_recv react s what now w).0.dialogues
  unfolding do_recv
  do_recv-IsExclusive reads s what now w h =
      recv_loop-IsExclusive reads (length s.dialogues) [] s.dialogues what s w h
