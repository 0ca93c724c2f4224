-- ===== src/Config/Strings.antt =====
-- The two passes over a quoted string agree, and reading takes back what quoting made.
use nepenthes.Base.{
  ℕ, ◌≡◌, refl, ap, arith, inl, inr, ◌==◌, if◌then◌else◌, true, false, ◌||◌, Bool-cases, List, [],
  ◌∷◌, ◌++◌, length, some,
}
use nepenthes.Config.{
  parsed, plain, found, one_more, may_follow, measure, store, at_character, read, closed, refill,
  parse_string,
}

-- A text as it is written between quotes: a backslash before a quote and a backslash, and \0 for 0.
abbrev pub quoted : List ℕ → List ℕ
quoted [] = []
quoted (c ∷ s) =
    if c == 0
    then 92 ∷ 48 ∷ quoted s
    else (if c == 34 || c == 92 then 92 ∷ c ∷ quoted s else c ∷ quoted s)

differs : (a b c : ℕ) → (a == b) ≡ false → (c == a) ≡ true → (c == b) ≡ false
differs a b c ne e = ground (arith, ne, e)

pub equals : (a c : ℕ) → (c == a) ≡ true → a ≡ c
equals a c e = ground (arith, e)

measure-quoted : (s rest : List ℕ) → measure plain (quoted s ++ 34 ∷ rest) ≡ found (length s)
unfolding measure one_more may_follow
measure-quoted [] rest = refl
measure-quoted (c ∷ s) rest = elim (Bool-cases (c == 0)) [
  | inl e ↦ rw (e, measure-quoted s rest)
  | inr e ↦ elim (Bool-cases (c == 34)) [
    | inl q ↦ rw (e, q, differs 34 48 c refl q, q, differs 34 120 c refl q, measure-quoted s rest)
    | inr q ↦ elim (Bool-cases (c == 92)) [
      | inl b ↦
          rw (e, q, b, differs 92 48 c refl b, q, b, differs 92 120 c refl b, measure-quoted s rest)
      | inr b ↦ rw (e, q, b, b, q, measure-quoted s rest)
    ]
  ]
]

module _ (strtol : ℕ → ℕ → ℕ) where
  read-quoted :
      (s rest : List ℕ)
      → read strtol at_character (length s) (quoted s ++ 34 ∷ rest) ≡ some (s, 34 ∷ rest)
  unfolding read store
  read-quoted [] rest = refl
  read-quoted (c ∷ s) rest = elim (Bool-cases (c == 0)) [
    | inl e ↦ rw (e, read-quoted s rest) (ap (λ x. some (x ∷ s, 34 ∷ rest)) (equals 0 c e))
    | inr e ↦ elim (Bool-cases (c == 34)) [
      | inl q ↦ rw (e, q, differs 34 48 c refl q, differs 34 120 c refl q, read-quoted s rest)
      | inr q ↦ elim (Bool-cases (c == 92)) [
        | inl b ↦ rw (e, q, b, differs 92 48 c refl b, differs 92 120 c refl b, read-quoted s rest)
        | inr b ↦ rw (e, q, b, b, read-quoted s rest)
      ]
    ]
  ]

  -- A text of any characters, quoted as the parser expects it and followed by the closing quote, is
  -- read back as it was, and what stands behind the quote is left.
  pub parse_string-quoted :
      (s rest : List ℕ) → parse_string strtol (quoted s ++ 34 ∷ rest) ≡ parsed s rest
  unfolding parse_string refill closed
  parse_string-quoted s rest = rw (measure-quoted s rest, read-quoted s rest)
