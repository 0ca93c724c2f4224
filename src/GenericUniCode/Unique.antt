-- ===== src/GenericUniCode/Unique.antt =====
-- A message has one narrowing.
use nepenthes.Base.{
  ℕ, zero, suc, ◌≤◌, ◌<◌, ◌≡◌, ◌∙◌, refl, sym, ap, arith, Bool-cases, inl, inr, true, false, List,
  [], ◌∷◌, ◌++◌, length, length-append, length-append,
}
use nepenthes.GenericUniCode.{is_wide, unicode_length}
use nepenthes.GenericUniCode.Narrowing.{narrow_within, wide-long}
use nepenthes.GenericUniCode.Widened.{widen, length-widen, narrow_within-wide}
use nepenthes.GenericUniCode.Relation.{
  IsStop, Narrows, narrows_end, narrows_run, narrows_open, narrows_short, narrows_short_open,
  written-run, written-open, rest_shorter,
}

-- The code counts a run as long as it is.
unicode_length-IsStop :
    (code rest : List ℕ)
    → IsStop rest
    → unicode_length false (widen code ++ rest) ≡ length (widen code)
unfolding unicode_length
unicode_length-IsStop [] [] i = refl
unicode_length-IsStop [] (zero ∷ s) i = absurd i
unicode_length-IsStop [] (suc c ∷ s) i = ground arith
unicode_length-IsStop (c ∷ code) rest i = ap (λ n. suc (suc n)) (unicode_length-IsStop code rest i)

unicode_length-open :
    (code : List ℕ) → unicode_length false (widen code ++ 0 ∷ []) ≡ suc (length (widen code))
unfolding unicode_length
unicode_length-open [] = refl
unicode_length-open (c ∷ code) = ap (λ n. suc (suc n)) (unicode_length-open code)

run_size :
    (s code rest : List ℕ)
    → s ≡ widen code ++ rest
    → IsStop rest
    → unicode_length false s ≡ length (widen code)
run_size s code rest e i = ap (unicode_length false) e ∙ unicode_length-IsStop code rest i

open_size :
    (s code : List ℕ)
    → s ≡ widen code ++ 0 ∷ []
    → unicode_length false s ≡ suc (length (widen code))
open_size s code e = ap (unicode_length false) e ∙ unicode_length-open code

is_wide-true : (c : ℕ) (s : List ℕ) → 10 < unicode_length false (c ∷ s) → is_wide (c ∷ s) ≡ true
unfolding is_wide unicode_length
is_wide-true zero s long = ground (arith, long)
is_wide-true (suc c) s long = ground (arith, long)

is_wide-false : (c : ℕ) (s : List ℕ) → unicode_length false (c ∷ s) ≤ 10 → is_wide (c ∷ s) ≡ false
is_wide-false c s short = elim (Bool-cases (is_wide (c ∷ s))) [
  | inl wide ↦ absurd (omega (arith, wide-long c s wide, short))
  | inr plain ↦ plain
]

narrow_within-short :
    (fuel c : ℕ) (s : List ℕ)
    → unicode_length false (c ∷ s) ≤ 10
    → narrow_within (suc fuel) (c ∷ s) ≡ c ∷ narrow_within fuel s
unfolding narrow_within
narrow_within-short fuel c s short = rw (is_wide-false c s short, narrow_within)

-- Every narrowing is the one that the loop writes.
narrow_within_unique :
    {s out : List ℕ} (fuel : ℕ) → length s ≤ fuel → Narrows s out → narrow_within fuel s ≡ out
unfolding narrow_within
narrow_within_unique fuel less narrows_end = refl
narrow_within_unique zero less (narrows_run [] code rest out e stop long d) =
    absurd (omega (arith, ap length e, length-append (widen code) rest, length-widen code, long))
narrow_within_unique zero less (narrows_run (c ∷ s) code rest out e stop long d) =
    absurd (omega (arith, less))
narrow_within_unique (suc fuel) less (narrows_run [] code rest out e stop long d) =
    absurd (omega (arith, ap length e, length-append (widen code) rest, length-widen code, long))
narrow_within_unique (suc fuel) less (narrows_run (c ∷ s) code rest out e stop long d) =
    let size = run_size (c ∷ s) code rest e stop in
    narrow_within-wide fuel c s (is_wide-true c s (omega (arith, size, length-widen code, long)))
    ∙ written-run fuel _ (c ∷ s) code rest e size
    ∙ ap (λ x. code ++ x)
        (narrow_within_unique fuel (rest_shorter s code rest c fuel e long less) d)
narrow_within_unique zero less (narrows_open [] code e long) =
    absurd (omega (arith, ap length e, length-append (widen code) (0 ∷ []), long))
narrow_within_unique zero less (narrows_open (c ∷ s) code e long) = absurd (omega (arith, less))
narrow_within_unique (suc fuel) less (narrows_open [] code e long) =
    absurd (omega (arith, ap length e, length-append (widen code) (0 ∷ []), long))
narrow_within_unique (suc fuel) less (narrows_open (c ∷ s) code e long) =
    let size = open_size (c ∷ s) code e in
    narrow_within-wide fuel c s (is_wide-true c s (omega (arith, size, length-widen code, long)))
    ∙ written-open fuel _ (c ∷ s) code e size
narrow_within_unique zero less (narrows_short c s code rest out e stop short d) =
    absurd (omega (arith, less))
narrow_within_unique (suc fuel) less (narrows_short c s code rest out e stop short d) =
    narrow_within-short fuel c s
      (omega (arith, run_size (c ∷ s) code rest e stop, length-widen code, short))
    ∙ ap (λ x. c ∷ x) (narrow_within_unique fuel (omega (arith, less)) d)
narrow_within_unique zero less (narrows_short_open c s code out e short d) =
    absurd (omega (arith, less))
narrow_within_unique (suc fuel) less (narrows_short_open c s code out e short d) =
    narrow_within-short fuel c s (omega (arith, open_size (c ∷ s) code e, length-widen code, short))
    ∙ ap (λ x. c ∷ x) (narrow_within_unique fuel (omega (arith, less)) d)

-- Two narrowings of a message are the same.
Narrows-unique : (s out out' : List ℕ) → Narrows s out → Narrows s out' → out ≡ out'
Narrows-unique s out out' d d' =
    sym (narrow_within_unique (length s) (omega arith) d)
    ∙ narrow_within_unique (length s) (omega arith) d'
