-- ===== src/GenericUniCode/Relation.antt =====
-- What narrowing is: each run of zero bytes and bytes behind them, on its own.
use mathlib.Core.List.{append-nil}
use nepenthes.Base.{
  ℕ, zero, suc, ◌≤◌, ◌≡◌, ◌∙◌, ◌⊎◌, refl, sym, ap, ap₂, subst, arith, Bool-cases, inl, inr, false,
  List, [], ◌∷◌, ◌++◌, length, length-append, take, drop, take-append, drop-append, done,
}
use nepenthes.GenericUniCode.{is_wide, unicode_length, low_bytes, unicode_try_decode}
use nepenthes.GenericUniCode.Narrowing.{narrow_within, unicode_try_decode-narrow, wide-long}
use nepenthes.GenericUniCode.Widened.{widen, low_bytes-widen, length-widen}

-- No run goes on here: the end, or a byte that is not zero.
abbrev pub IsStop : List ℕ → Type 0
IsStop [] = Unit
IsStop (zero ∷ s) = ⊥
IsStop (suc c ∷ s) = Unit

-- The second message is the first one narrowed. A run is a code with a zero byte before each of its
-- bytes; at the end of the message the last zero may have no byte behind it.
pub data Narrows : List ℕ → List ℕ → Type 0 where
  narrows_end : Narrows [] []
  -- Six bytes and more are taken out of their run,
  narrows_run :
      (msg code rest out : List ℕ)
      → msg ≡ widen code ++ rest
      → IsStop rest
      → 6 ≤ length code
      → Narrows rest out
      → Narrows msg (code ++ out)
  -- and five and more when a lone zero follows, which is left out.
  narrows_open :
      (msg code : List ℕ) → msg ≡ widen code ++ 0 ∷ [] → 5 ≤ length code → Narrows msg code
  -- Where there is no such run, the first byte stays.
  narrows_short :
      (c : ℕ) (s code rest out : List ℕ)
      → c ∷ s ≡ widen code ++ rest
      → IsStop rest
      → length code ≤ 5
      → Narrows s out
      → Narrows (c ∷ s) (c ∷ out)
  narrows_short_open :
      (c : ℕ) (s code out : List ℕ)
      → c ∷ s ≡ widen code ++ 0 ∷ []
      → length code ≤ 4
      → Narrows s out
      → Narrows (c ∷ s) (c ∷ out)

-- The run that a message starts with, and its length as the code counts it.
abbrev HeadRun : List ℕ → Type 0
HeadRun s =
    ((code rest : List ℕ) × (s ≡ widen code ++ rest)
      × IsStop rest
      × (unicode_length false s ≡ length (widen code)))
    ⊎ ((code : List ℕ) × (s ≡ widen code ++ 0 ∷ [])
        × (unicode_length false s ≡ suc (length (widen code))))

run_of : (s : List ℕ) → HeadRun s
unfolding unicode_length
run_of [] = inl ([], [], refl, tt, refl)
run_of (suc c ∷ s) = inl ([], suc c ∷ s, refl, tt, ground arith)
run_of (zero ∷ []) = inr ([], refl, refl)
run_of (zero ∷ d ∷ s) = elim (run_of s) [
  | inl (code, rest, e, stop, size) ↦
      inl (d ∷ code, rest, ap (λ x. 0 ∷ d ∷ x) e, stop, ap (λ n. suc (suc n)) size)
  | inr (code, e, size) ↦ inr (d ∷ code, ap (λ x. 0 ∷ d ∷ x) e, ap (λ n. suc (suc n)) size)
]

not_wide : (c : ℕ) (s : List ℕ) → is_wide (c ∷ s) ≡ false → unicode_length false (c ∷ s) ≤ 10
unfolding is_wide unicode_length
not_wide zero s e = ground (arith, e)
not_wide (suc c) s e = ground arith

-- What is taken out of a run, and what is behind it.
taken : (code rest : List ℕ) → low_bytes (take (length (widen code)) (widen code ++ rest)) ≡ code
taken code rest =
    ap low_bytes (take-append (length (widen code)) (widen code) rest refl) ∙ low_bytes-widen code

low_bytes-open : (code : List ℕ) → low_bytes (widen code ++ 0 ∷ []) ≡ code
unfolding low_bytes
low_bytes-open [] = refl
low_bytes-open (c ∷ code) = ap (λ s. c ∷ s) (low_bytes-open code)

take_open : (s : List ℕ) → take (suc (length s)) (s ++ 0 ∷ []) ≡ s ++ 0 ∷ []
take_open [] = refl
take_open (c ∷ s) = ap (λ x. c ∷ x) (take_open s)

drop_open : (s : List ℕ) → drop (suc (length s)) (s ++ 0 ∷ []) ≡ []
drop_open [] = refl
drop_open (c ∷ s) = drop_open s

-- What the loop writes, given how long the run at the head is.
abbrev pub written : ℕ → ℕ → List ℕ → List ℕ
written fuel n s = low_bytes (take n s) ++ narrow_within fuel (drop n s)

pub written-run :
    (fuel n : ℕ) (s code rest : List ℕ)
    → s ≡ widen code ++ rest
    → n ≡ length (widen code)
    → written fuel n s ≡ code ++ narrow_within fuel rest
written-run fuel n s code rest e size =
    ap₂ (written fuel) size e
    ∙ ap₂ (λ (x y : List ℕ). x ++ narrow_within fuel y) (taken code rest)
        (drop-append (length (widen code)) (widen code) rest refl)

pub written-open :
    (fuel n : ℕ) (s code : List ℕ)
    → s ≡ widen code ++ 0 ∷ []
    → n ≡ suc (length (widen code))
    → written fuel n s ≡ code
unfolding narrow_within
written-open fuel n s code e size =
    ap₂ (written fuel) size e
    ∙ ap₂ (λ (x y : List ℕ). low_bytes x ++ narrow_within fuel y) (take_open (widen code))
        (drop_open (widen code))
    ∙ append-nil (low_bytes (widen code ++ 0 ∷ []))
    ∙ low_bytes-open code

pub rest_shorter :
    (s code rest : List ℕ) (c fuel : ℕ)
    → c ∷ s ≡ widen code ++ rest
    → 6 ≤ length code
    → length (c ∷ s) ≤ suc fuel
    → length rest ≤ fuel
rest_shorter s code rest c fuel e long less =
    omega (arith, ap length e, length-append (widen code) rest, length-widen code)

-- The narrowing by fuel is the narrowing of the runs.
narrow_within-Narrows : (fuel : ℕ) (s : List ℕ) → length s ≤ fuel → Narrows s (narrow_within fuel s)
unfolding narrow_within
narrow_within-Narrows fuel [] less = narrows_end
narrow_within-Narrows zero (c ∷ s) less = absurd (omega (arith, less))
narrow_within-Narrows (suc fuel) (c ∷ s) less =
    let next = narrow_within-Narrows fuel s (omega (arith, less)) in
    elim (Bool-cases (is_wide (c ∷ s))) [
      | inl wide ↦
          rw (wide, narrow_within)
            (elim (run_of (c ∷ s)) [
              | inl (code, rest, e, stop, size) ↦
                  let long : 6 ≤ length code =
                    omega (arith, wide-long c s wide, size, length-widen code) in
                  subst (Narrows (c ∷ s)) (sym (written-run fuel _ (c ∷ s) code rest e size)) (
                    narrows_run (c ∷ s) code rest (narrow_within fuel rest) e stop long (
                      narrow_within-Narrows fuel rest
                        (rest_shorter s code rest c fuel e long less)))
              | inr (code, e, size) ↦
                  subst (Narrows (c ∷ s)) (sym (written-open fuel _ (c ∷ s) code e size)) (
                    narrows_open (c ∷ s) code e
                      (omega (arith, wide-long c s wide, size, length-widen code)))
            ])
      | inr plain ↦
          rw (plain, narrow_within)
            (elim (run_of (c ∷ s)) [
              | inl (code, rest, e, stop, size) ↦
                  narrows_short c s code rest (narrow_within fuel s) e stop
                    (omega (arith, not_wide c s plain, size, length-widen code)) next
              | inr (code, e, size) ↦
                  narrows_short_open c s code (narrow_within fuel s) e
                    (omega (arith, not_wide c s plain, size, length-widen code)) next
            ])
    ]

-- Whatever the message is, the decoding returns and stays inside of its block, which is as long as
-- the message; the bytes that it counts are the message narrowed: each run of six bytes or more with
-- a zero byte before each, or of five or more and a lone zero at the end of the message, has its
-- zeros taken out, and all else stays. Malloc gives the block.
pub unicode_try_decode-Narrows :
    (msg : List ℕ)
    → (block : List ℕ) × (n : ℕ) × (unicode_try_decode msg ≡ done (block, n))
      × (n ≤ length msg)
      × (length block ≡ length msg)
      × Narrows msg (take n block)
unicode_try_decode-Narrows msg =
    let (block, n, e, less, same, holds) = unicode_try_decode-narrow msg in
    (
      block,
      n,
      e,
      less,
      same,
      subst (Narrows msg) (sym holds) (narrow_within-Narrows (length msg) msg (omega arith)),
    )
