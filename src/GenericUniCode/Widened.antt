-- ===== src/GenericUniCode/Widened.antt =====
-- Shellcode that was widened is found and narrowed.
use nepenthes.Base.{
  ℕ, zero, suc, ◌+◌, ◌*◌, ◌≤◌, ◌<◌, ◌≡◌, ◌∙◌, ◌⊎◌, refl, sym, ap, ap₂, subst, arith, ◌==◌, ltb,
  Bool-cases, inl, inr, true, false, List, [], ◌∷◌, ◌++◌, length, length-append, take, drop,
  take-append, drop-append, done,
}
use nepenthes.ShellcodeManager.{sch_reprocess}
use nepenthes.GenericUniCode.{
  Runs, count_byte, count_runs, longest_run, is_wide, unicode_length, low_bytes, handle_shellcode,
}
use nepenthes.GenericUniCode.Narrowing.{narrow_within, narrow, unicode_try_decode-narrow}

-- Each byte behind a zero byte.
abbrev pub widen : List ℕ → List ℕ
widen [] = []
widen (c ∷ s) = 0 ∷ c ∷ widen s

-- No byte is zero.
abbrev pub IsPlain : List ℕ → Type 0
IsPlain [] = Unit
IsPlain (c ∷ s) = ((c == 0) ≡ false) × IsPlain s

pub length-widen : (s : List ℕ) → length (widen s) ≡ 2 * length s
length-widen [] = refl
length-widen (c ∷ s) = omega (arith, length-widen s)

unicode_length-plain : (s : List ℕ) → IsPlain s → unicode_length false s ≡ 0
unfolding unicode_length
unicode_length-plain [] i = refl
unicode_length-plain (c ∷ s) (e, i) = rw (e)

unicode_length-widen :
    (code s : List ℕ) → IsPlain s → unicode_length false (widen code ++ s) ≡ length (widen code)
unfolding unicode_length
unicode_length-widen [] s i = unicode_length-plain s i
unicode_length-widen (c ∷ code) s i = ap (λ n. suc (suc n)) (unicode_length-widen code s i)

pub low_bytes-widen : (code : List ℕ) → low_bytes (widen code) ≡ code
unfolding low_bytes
low_bytes-widen [] = refl
low_bytes-widen (c ∷ code) = ap (λ s. c ∷ s) (low_bytes-widen code)

is_wide-plain : (c : ℕ) (s : List ℕ) → (c == 0) ≡ false → is_wide (c ∷ s) ≡ false
unfolding is_wide
is_wide-plain c s e = rw (e)

-- Bytes that are not zero stay.
narrow_within-plain :
    (p s out : List ℕ) (fuel : ℕ)
    → IsPlain p
    → length (p ++ s) ≤ fuel
    → ((k : ℕ) → length s ≤ k → narrow_within k s ≡ out)
    → narrow_within fuel (p ++ s) ≡ p ++ out
unfolding narrow_within
narrow_within-plain [] s out fuel i less go = go fuel less
narrow_within-plain (c ∷ p) s out zero i less go = absurd (omega (arith, less))
narrow_within-plain (c ∷ p) s out (suc fuel) (e, i) less go =
    rw (is_wide-plain c (p ++ s) e, narrow_within)
      (ap (λ x. c ∷ x) (narrow_within-plain p s out fuel i (omega (arith, less)) go))

narrow_within-plain_all :
    (s : List ℕ) (fuel : ℕ) → IsPlain s → length s ≤ fuel → narrow_within fuel s ≡ s
unfolding narrow_within
narrow_within-plain_all [] fuel i less = refl
narrow_within-plain_all (c ∷ s) zero i less = absurd (omega (arith, less))
narrow_within-plain_all (c ∷ s) (suc fuel) (e, i) less =
    rw (is_wide-plain c s e, narrow_within)
      (ap (λ x. c ∷ x) (narrow_within-plain_all s fuel i (omega (arith, less))))

is_wide-long : (s : List ℕ) → 10 < unicode_length false (0 ∷ s) → is_wide (0 ∷ s) ≡ true
unfolding is_wide
is_wide-long s long = ground (arith, long)

pub narrow_within-wide :
    (fuel c : ℕ) (s : List ℕ)
    → is_wide (c ∷ s) ≡ true
    → narrow_within (suc fuel) (c ∷ s)
      ≡ low_bytes (take (unicode_length false (c ∷ s)) (c ∷ s))
        ++ narrow_within fuel (drop (unicode_length false (c ∷ s)) (c ∷ s))
unfolding narrow_within
narrow_within-wide fuel c s e = rw (e, narrow_within)

-- A code that was widened is narrowed, but for a short one.
narrow_within-widen :
    (c : ℕ) (code s : List ℕ) (fuel : ℕ)
    → 5 ≤ length code
    → IsPlain s
    → length (widen (c ∷ code) ++ s) ≤ fuel
    → narrow_within fuel (widen (c ∷ code) ++ s) ≡ (c ∷ code) ++ s
narrow_within-widen c code s zero long i less = absurd (omega (arith, less))
narrow_within-widen c code s (suc fuel) long i less =
    let wide = widen (c ∷ code) in
    let size : unicode_length false (wide ++ s) ≡ length wide =
      unicode_length-widen (c ∷ code) s i in
    let sizes = length-append wide s in
    narrow_within-wide fuel 0 (c ∷ (widen code ++ s))
      (is_wide-long (c ∷ (widen code ++ s)) (omega (arith, size, length-widen (c ∷ code), long)))
    ∙ ap (λ n. low_bytes (take n (wide ++ s)) ++ narrow_within fuel (drop n (wide ++ s))) size
    ∙ ap₂ (λ x y. low_bytes x ++ narrow_within fuel y) (take-append (length wide) wide s refl)
        (drop-append (length wide) wide s refl)
    ∙ ap₂ (λ (x y : List ℕ). x ++ y) (low_bytes-widen (c ∷ code))
        (narrow_within-plain_all s fuel i (omega (arith, less, sizes)))

-- The longest run never gets shorter.
count_byte-maxuni : (r : Runs) (c : ℕ) → r.maxuni ≤ (count_byte r c).maxuni
unfolding count_byte
count_byte-maxuni r c = elim (Bool-cases (c == 0)) [
  | inl e ↦ rw (e) (omega arith)
  | inr e ↦ rw (e) (ground arith)
]

count_runs-maxuni : (r : Runs) (s : List ℕ) → r.maxuni ≤ (count_runs r s).maxuni
unfolding count_runs
count_runs-maxuni r [] = omega arith
count_runs-maxuni r (c ∷ []) = count_byte-maxuni r c
count_runs-maxuni r (c ∷ d ∷ s) =
    omega (arith, count_byte-maxuni r c, count_runs-maxuni (count_byte r c) s)

run_ends : (r : Runs) (x : ℕ) → (x == 0) ≡ false → r.uni ≤ (count_byte r x).maxuni
unfolding count_byte
run_ends r x e = rw (e) (ground arith)

count_runs-ends :
    (r : Runs) (x : ℕ) (s : List ℕ) → (x == 0) ≡ false → r.uni ≤ (count_runs r (x ∷ s)).maxuni
unfolding count_runs
count_runs-ends r x [] e = run_ends r x e
count_runs-ends r x (d ∷ s) e = omega (arith, run_ends r x e, count_runs-maxuni (count_byte r x) s)

-- A widened code is a run of so many zeros.
count_runs-widen :
    (code s : List ℕ) (x : ℕ) (r : Runs)
    → (x == 0) ≡ false
    → r.uni + length code ≤ (count_runs r (widen code ++ (x ∷ s))).maxuni
unfolding count_runs count_byte
count_runs-widen [] s x r e = omega (arith, count_runs-ends r x s e)
count_runs-widen (c ∷ code) s x r e =
    omega (arith, count_runs-widen code s x (record r { uni = r.uni + 1 }) e)

-- The bytes of a message in pairs, and perhaps one before them.
abbrev IsEven : List ℕ → Type 0
IsEven [] = Unit
IsEven (c ∷ []) = ⊥
IsEven (c ∷ d ∷ s) = IsEven s

IsEven-or : (s : List ℕ) → IsEven s ⊎ ((c : ℕ) × (s' : List ℕ) × (s ≡ c ∷ s') × IsEven s')
IsEven-or [] = inl tt
IsEven-or (c ∷ []) = inr (c, [], refl, tt)
IsEven-or (c ∷ d ∷ s) = elim (IsEven-or s) [
  | inl i ↦ inl i
  | inr (c', s', e, i) ↦ inr (c, d ∷ s, refl, subst (λ z. IsEven (d ∷ z)) (sym e) i)
]

count_runs-even :
    (a s : List ℕ) (r : Runs) → IsEven a → count_runs r (a ++ s) ≡ count_runs (count_runs r a) s
unfolding count_runs
count_runs-even [] s r i = refl
count_runs-even (c ∷ []) s r i = absurd i
count_runs-even (c ∷ d ∷ a) s r i = count_runs-even a s (count_byte r c) i

longest_run-even :
    (p code r : List ℕ) (x : ℕ)
    → (x == 0) ≡ false
    → IsEven p
    → length code ≤ longest_run (p ++ (widen code ++ (x ∷ r)))
unfolding longest_run
longest_run-even p code r x e i =
    let start : Runs = record { uni = 0; maxuni = 0 } in
    let wide = widen code ++ (x ∷ r) in
    omega (
      arith,
      ap (λ (y : Runs). y.maxuni) (count_runs-even p wide start i),
      count_runs-widen code r x (count_runs start p) e,
      count_runs-maxuni (count_runs start (p ++ wide)) (drop 1 (p ++ wide)),
    )

longest_run-odd :
    (c : ℕ) (p code r : List ℕ) (x : ℕ)
    → (x == 0) ≡ false
    → IsEven p
    → length code ≤ longest_run ((c ∷ p) ++ (widen code ++ (x ∷ r)))
unfolding longest_run
longest_run-odd c p code r x e i =
    let wide = widen code ++ (x ∷ r) in
    let first = count_runs (record { uni = 0; maxuni = 0 }) ((c ∷ p) ++ wide) in
    omega (
      arith,
      ap (λ (y : Runs). y.maxuni) (count_runs-even p wide first i),
      count_runs-widen code r x (count_runs first p) e,
    )

longest_run-widen :
    (p code r : List ℕ) (x : ℕ)
    → (x == 0) ≡ false
    → length code ≤ longest_run (p ++ (widen code ++ (x ∷ r)))
unfolding longest_run
longest_run-widen p code r x e = elim (IsEven-or p) [
  | inl i ↦ longest_run-even p code r x e i
  | inr (c, p', same, i) ↦
      subst (λ z. length code ≤ longest_run (z ++ (widen code ++ (x ∷ r)))) (sym same)
        (longest_run-odd c p' code r x e i)
]

narrow-widen :
    (p code r : List ℕ)
    → IsPlain p
    → 5 < length code
    → IsPlain r
    → narrow (p ++ (widen code ++ r)) ≡ p ++ (code ++ r)
narrow-widen p [] r i long j = absurd (omega (arith, long))
narrow-widen p (c ∷ code) r i long j =
    let wide = widen (c ∷ code) ++ r in
    narrow_within-plain p wide ((c ∷ code) ++ r) (length (p ++ wide)) i (omega arith)
      (λ k less. narrow_within-widen c code r k (omega (arith, long)) j less)

-- A message of bytes that are not zero, widened code of more than 2000 bytes, and at least one more
-- byte, none zero: the code is found, and the message that is looked at next has it narrowed, in its
-- place. Malloc gives the block.
pub handle_shellcode-widen :
    (p code r : List ℕ) (x : ℕ)
    → IsPlain p
    → 2000 < length code
    → IsPlain (x ∷ r)
    → handle_shellcode (p ++ (widen code ++ (x ∷ r))) ≡ done (sch_reprocess, p ++ (code ++ (x ∷ r)))
unfolding handle_shellcode
handle_shellcode-widen p code r x i long j =
    let msg = p ++ (widen code ++ (x ∷ r)) in
    let found : ltb 2000 (longest_run msg) ≡ true =
      ground (arith, longest_run-widen p code r x j.0, long) in
    let (block, n, e, _, _, holds) = unicode_try_decode-narrow msg in
    rw (found, e)
      (ap (λ m. done (sch_reprocess, m))
        (holds ∙ narrow-widen p code (x ∷ r) i (omega (arith, long)) j))
