-- ===== src/SubmitManager/History.antt =====
-- Over any history of downloads, a file is submitted to a handler once, and then only reported.
use mathlib.Core.List.{append-nil, append_assoc}
use nepenthes.Base.{
  ℕ, ◌==◌, ◌≡◌, ◌≢◌, refl, sym, ap, ◌∙◌, subst, arith, inl, inr, ◌⊎◌, if◌then◌else◌, false,
  Bool-cases, ◌&&◌, List, [], ◌∷◌, ◌++◌, map, Option, some, none, str_eq_iff, All, All-append,
}
use nepenthes.SubmitManager.{
  Action, event, submit, hit, SubmitManager, Download, is_known, is_foreign, announce, examine,
  submit_examined, submit_bytes, add_submission,
}

-- The hashes of what a handler was given to submit.
abbrev pub submitted : ℕ → List Action → List (List ℕ)
submitted h [] = []
submitted h (event e d ∷ acts) = submitted h acts
submitted h (hit g d ∷ acts) = submitted h acts
submitted h (submit g d ∷ acts) = if g == h then d.md5sum ∷ submitted h acts else submitted h acts

-- The handler is registered exactly once.
abbrev pub Once : ℕ → List ℕ → Type 0
Once h [] = ⊥
Once h (g ∷ gs) = ((g ≡ h) × All (λ k. k ≢ h) gs) ⊎ ((g ≢ h) × Once h gs)

-- No hash stands in the list twice.
abbrev pub Distinct : List (List ℕ) → Type 0
Distinct [] = Unit
Distinct (x ∷ xs) = All (λ y. x ≢ y) xs × Distinct xs

submitted-append :
    (h : ℕ) (acts bs : List Action) → submitted h (acts ++ bs) ≡ submitted h acts ++ submitted h bs
submitted-append h [] bs = refl
submitted-append h (event e d ∷ acts) bs = submitted-append h acts bs
submitted-append h (hit g d ∷ acts) bs = submitted-append h acts bs
submitted-append h (submit g d ∷ acts) bs = elim (Bool-cases (g == h)) [
  | inl e ↦ rw (e, submitted-append h acts bs)
  | inr e ↦ rw (e, submitted-append h acts bs)
]

submitted-hit : (h : ℕ) (d : Download) (gs : List ℕ) → submitted h (map (λ g. hit g d) gs) ≡ []
submitted-hit h d [] = refl
submitted-hit h d (g ∷ gs) = submitted-hit h d gs

submitted-absent :
    (h : ℕ) (d : Download) (gs : List ℕ)
    → All (λ k. k ≢ h) gs
    → submitted h (map (λ g. submit g d) gs) ≡ []
submitted-absent h d [] a = refl
submitted-absent h d (g ∷ gs) a = ground (arith, a.0, submitted-absent h d gs a.1)

submitted-Once :
    (h : ℕ) (d : Download) (gs : List ℕ)
    → Once h gs
    → submitted h (map (λ g. submit g d) gs) ≡ d.md5sum ∷ []
submitted-Once h d [] o = absurd o
submitted-Once h d (g ∷ gs) (inl o) = ground (arith, o.0, submitted-absent h d gs o.1)
submitted-Once h d (g ∷ gs) (inr o) = ground (arith, o.0, submitted-Once h d gs o.1)

unknown-All :
    (hash : List ℕ) (hs : List (List ℕ)) → is_known hash hs ≡ false → All (λ k. k ≢ hash) hs
unfolding is_known
unknown-All hash [] e = tt
unknown-All hash (k ∷ hs) e =
    (λ q. ground (arith, e, (str_eq_iff k hash).1 q), unknown-All hash hs (ground (arith, e)))

Distinct-append :
    (hs : List (List ℕ)) (hash : List ℕ)
    → Distinct hs
    → All (λ k. k ≢ hash) hs
    → Distinct (hs ++ hash ∷ [])
Distinct-append [] hash d a = (tt, tt)
Distinct-append (k ∷ hs) hash d a =
    (All-append (λ y. k ≢ y) hs (hash ∷ []) d.0 (a.0, tt), Distinct-append hs hash d.1 a.1)

module _ (md5 sha : List ℕ → List ℕ) (magic : List ℕ → Option (List ℕ)) (h : ℕ) where
  -- A call keeps the hashes distinct, adds what is submitted to the handler behind them, and leaves
  -- the handlers alone.
  abbrev Grows : SubmitManager → SubmitManager × List Action → Type 0
  Grows m r =
      (r.0.file_hashes ≡ m.file_hashes ++ submitted h r.1)
      × Distinct r.0.file_hashes
      × (r.0.submitters ≡ m.submitters)

  same-Grows : (m : SubmitManager) → Distinct m.file_hashes → Grows m (m, [])
  same-Grows m d = (sym (append-nil m.file_hashes), d, refl)

  announce-Grows :
      (m : SubmitManager) (d : Download)
      → Once h m.submitters
      → Distinct m.file_hashes
      → Grows m (announce md5 sha magic m d)
  unfolding announce
  announce-Grows m d o distinct = elim (Bool-cases (is_known d.md5sum m.file_hashes)) [
    | inl e ↦ rw (e, submitted-hit h d m.submitters) (same-Grows m distinct)
    | inr e ↦
        rw (e, submitted-Once h d m.submitters o)
          (
            refl,
            Distinct-append m.file_hashes d.md5sum distinct (unknown-All d.md5sum m.file_hashes e),
            refl,
          )
  ]

  submit_bytes-Grows :
      (m : SubmitManager) (d : Download) (buffer : Option (List ℕ))
      → Once h m.submitters
      → Distinct m.file_hashes
      → Grows m (submit_bytes md5 sha magic m d buffer)
  unfolding submit_bytes submit_examined
  submit_bytes-Grows m d none o distinct = same-Grows m distinct
  submit_bytes-Grows m d (some []) o distinct = same-Grows m distinct
  submit_bytes-Grows m d (some (b ∷ bytes)) o distinct =
      let d' = examine md5 sha magic d (b ∷ bytes) in
      elim (Bool-cases (is_foreign d'.file_type && m.strict_file_type)) [
        | inl e ↦ rw e (same-Grows m distinct)
        | inr e ↦ rw e (announce-Grows m d' o distinct)
      ]

  add_submission-Grows :
      (m : SubmitManager) (d : Download)
      → Once h m.submitters
      → Distinct m.file_hashes
      → Grows m (add_submission md5 sha magic m d)
  unfolding add_submission
  add_submission-Grows m d o distinct = submit_bytes-Grows m d d.buffer o distinct

  -- One download after the other, with all actions.
  abbrev pub run : SubmitManager → List Download → SubmitManager × List Action
  run m [] = (m, [])
  run m (d ∷ ds) =
      let r = add_submission md5 sha magic m d in let r' = run r.0 ds in (r'.0, r.1 ++ r'.1)

  -- Where the known hashes are distinct and a handler is registered once: over any history of
  -- downloads, the handler is given every file at most once to submit, and none whose hash was
  -- known before. The known hashes stay distinct, and at the end they are those of the beginning
  -- followed by those submitted, in their order.
  pub run-submitted :
      (m : SubmitManager) (ds : List Download)
      → Once h m.submitters
      → Distinct m.file_hashes
      → ((run m ds).0.file_hashes ≡ m.file_hashes ++ submitted h (run m ds).1)
        × Distinct (m.file_hashes ++ submitted h (run m ds).1)
  run-submitted m [] o distinct =
      (sym (append-nil m.file_hashes), rw (append-nil m.file_hashes) distinct)
  run-submitted m (d ∷ ds) o distinct =
      let r = add_submission md5 sha magic m d in
      let (grown, distinct', same) = add_submission-Grows m d o distinct in
      let (whole, all_distinct) = run-submitted r.0 ds (rw same o) distinct' in
      let parts : m.file_hashes ++ submitted h (r.1 ++ (run r.0 ds).1)
          ≡ r.0.file_hashes ++ submitted h (run r.0 ds).1 =
        ap (◌++◌ m.file_hashes) (submitted-append h r.1 (run r.0 ds).1)
        ∙ sym (append_assoc m.file_hashes (submitted h r.1) (submitted h (run r.0 ds).1))
        ∙ ap (λ (hs : List (List ℕ)). hs ++ submitted h (run r.0 ds).1) (sym grown) in
      (whole ∙ sym parts, subst Distinct (sym parts) all_distinct)
