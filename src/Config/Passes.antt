-- ===== src/Config/Passes.antt =====
-- The two passes over a quoted string see the same characters.
use nepenthes.Base.{
  ℕ, zero, suc, ◌≡◌, ◌≢◌, refl, sym, ap, subst, arith, inl, inr, ◌==◌, true, false, Bool-cases,
  List, [], ◌∷◌, length, Option, some,
}
use nepenthes.Config.{
  plain, escape, first_digit, second_digit, Measured, found, bad_escape, out_of_bounds, one_more,
  may_follow, measure, store, at_character, at_escape, at_digit, behind_digit, read,
}
use nepenthes.Config.Strings.{equals}

found_injective : {m n : ℕ} → ◌≡◌ {A = Measured} (found m) (found n) → m ≡ n
found_injective e = cc

one_more-found :
    (m : Measured) (n : ℕ) → one_more m ≡ found n → (k : ℕ) × (m ≡ found k) × (n ≡ suc k)
unfolding one_more
one_more-found (found k) n e = (k, refl, sym (found_injective e))
one_more-found bad_escape n e = cc
one_more-found out_of_bounds n e = cc

found-zero : (n : ℕ) → ◌≢◌ {A = Measured} (found 0) (found (suc n))
found-zero n e = absurd (omega (arith, found_injective e))

suc_injective : (m n : ℕ) → suc m ≡ suc n → m ≡ n
suc_injective m n e = omega (arith, e)

zero-suc : (n : ℕ) → zero ≡ suc n → ⊥
zero-suc n e = omega (arith, e)

-- The string was read, and what is left begins with the closing quote.
abbrev pub Reads : Option (List ℕ × List ℕ) → ℕ → Type 0
Reads o n = (str : List ℕ) × (rest : List ℕ) × (o ≡ some (str, 34 ∷ rest)) × (length str ≡ n)

store-Reads : (c n : ℕ) (o : Option (List ℕ × List ℕ)) → Reads o n → Reads (store c o) (suc n)
unfolding store
store-Reads c n o (str, rest, e, l) = (c ∷ str, rest, rw e, ap suc l)

may_follow-zero : (c : ℕ) → (c == 48) ≡ true → may_follow c ≡ true
unfolding may_follow
may_follow-zero c z = rw z

may_follow-x : (c : ℕ) → (c == 120) ≡ true → may_follow c ≡ true
unfolding may_follow
may_follow-x c x = ground (arith, x)

out_of_bounds-found : (n : ℕ) → ◌≢◌ {A = Measured} out_of_bounds (found n)
out_of_bounds-found n e = cc

bad_escape-found : (n : ℕ) → ◌≢◌ {A = Measured} bad_escape (found n)
bad_escape-found n e = cc

module _ (strtol : ℕ → ℕ → ℕ) where
  abbrev AtPlain : List ℕ → Type 0
  AtPlain s = (n : ℕ) → measure plain s ≡ found n → Reads (read strtol at_character n s) n

  abbrev AtEscape : List ℕ → Type 0
  AtEscape s =
      (n : ℕ)
      → measure escape s ≡ found n
      → (k : ℕ) × (n ≡ suc k) × Reads (read strtol at_escape k s) n

  abbrev AtFirst : List ℕ → Type 0
  AtFirst s = (n : ℕ) → measure first_digit s ≡ found n → Reads (read strtol at_digit n s) (suc n)

  abbrev AtSecond : List ℕ → Type 0
  AtSecond s =
      (d n : ℕ)
      → measure second_digit s ≡ found n
      → Reads (read strtol (behind_digit d) n s) (suc n)

  -- A counted character is stored.
  counted :
      (c : ℕ) (s : List ℕ)
      → AtPlain s
      → (n : ℕ) → one_more (measure plain s) ≡ found n
      → (k : ℕ) × (n ≡ suc k) × Reads (store c (read strtol at_character k s)) n
  counted c s at_plain n e =
      let (k, m, same) = one_more-found (measure plain s) n e in
      (
        k,
        same,
        subst (Reads (store c (read strtol at_character k s))) (sym same)
            (store-Reads c k (read strtol at_character k s) (at_plain k m)),
      )

  character-AtPlain : (c : ℕ) (s : List ℕ) → AtPlain s → AtEscape s → AtPlain (c ∷ s)
  unfolding measure read
  character-AtPlain c s at_plain at_esc zero e = elim (Bool-cases (c == 92)) [
    | inl b ↦ let (k, same, reads) = at_esc 0 (rw b at e) in absurd (zero-suc k same)
    | inr b ↦ elim (Bool-cases (c == 34)) [
      | inl q ↦ ([], s, ap (λ x. some ([], x ∷ s)) (sym (equals 34 c q)), refl)
      | inr q ↦
          let (k, same, reads) = counted c s at_plain 0 (rw (b, q) at e) in absurd (zero-suc k same)
    ]
  ]
  character-AtPlain c s at_plain at_esc (suc n) e = elim (Bool-cases (c == 92)) [
    | inl b ↦
        let (k, same, reads) = at_esc (suc n) (rw b at e) in
        rw b (
          subst (λ i. Reads (read strtol at_escape i s) (suc n)) (sym (suc_injective n k same))
            reads)
    | inr b ↦ elim (Bool-cases (c == 34)) [
      | inl q ↦ absurd (found-zero n (rw (b, q) at e))
      | inr q ↦
          let (k, same, reads) = counted c s at_plain (suc n) (rw (b, q) at e) in
          rw b (
            subst (λ i. Reads (store c (read strtol at_character i s)) (suc n))
              (sym (suc_injective n k same)) reads)
    ]
  ]

  escape-AtEscape : (c : ℕ) (s : List ℕ) → AtPlain s → AtFirst s → AtEscape (c ∷ s)
  unfolding measure read
  escape-AtEscape c s at_plain at_first n e = elim (Bool-cases (c == 48)) [
    | inl z ↦
        let x : (c == 120) ≡ false = ground (arith, z) in
        let (k, same, reads) = counted 0 s at_plain n (rw (may_follow-zero c z, x) at e) in
        (k, same, rw z reads)
    | inr z ↦ elim (Bool-cases (c == 120)) [
      | inl x ↦
          let (k, m, same) =
            one_more-found (measure first_digit s) n (rw (may_follow-x c x, x) at e) in
          (k, same, rw (z, x) (subst (Reads (read strtol at_digit k s)) (sym same) (at_first k m)))
      | inr x ↦ elim (Bool-cases (may_follow c)) [
        | inl f ↦
            let (k, same, reads) = counted c s at_plain n (rw (f, x) at e) in
            (k, same, rw (z, x) reads)
        | inr f ↦ absurd (bad_escape-found n (rw f at e))
      ]
    ]
  ]

  digit-AtFirst : (c : ℕ) (s : List ℕ) → AtSecond s → AtFirst (c ∷ s)
  unfolding measure read
  digit-AtFirst c s at_second n e = at_second c n e

  digit-AtSecond : (c : ℕ) (s : List ℕ) → AtPlain s → AtSecond (c ∷ s)
  unfolding measure read
  digit-AtSecond c s at_plain d n e =
      store-Reads (strtol d c) n (read strtol at_character n s) (at_plain n e)

  agree : (s : List ℕ) → AtPlain s × AtEscape s × AtFirst s × AtSecond s
  agree [] =
      unfold measure in
      (
        (λ n e. absurd (out_of_bounds-found n e)),
        (λ n e. absurd (out_of_bounds-found n e)),
        (λ n e. absurd (out_of_bounds-found n e)),
        (λ d n e. absurd (out_of_bounds-found n e)),
      )
  agree (c ∷ s) =
      let (at_plain, at_esc, at_first, at_second) = agree s in
      (
        character-AtPlain c s at_plain at_esc,
        escape-AtEscape c s at_plain at_first,
        digit-AtFirst c s at_second,
        digit-AtSecond c s at_plain,
      )

  -- When the first pass finds the closing quote, the second one reads exactly as many characters as
  -- were counted, so that it fills the block that was allocated and writes no further, finds no end
  -- of the file, and stops before that closing quote.
  pub read-measure :
      (s : List ℕ) (n : ℕ)
      → measure plain s ≡ found n
      → (str : List ℕ) × (rest : List ℕ) × (read strtol at_character n s ≡ some (str, 34 ∷ rest))
        × (length str ≡ n)
  read-measure s n e = (agree s).0 n e
