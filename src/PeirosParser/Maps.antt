-- ===== src/PeirosParser/Maps.antt =====
-- The map of the headers: a name behind all others goes to the end.
use nepenthes.Base.{
  ℕ, ◌≡◌, refl, arith, ◌==◌, ltb, Bool-cases, inl, inr, true, false, List, [], ◌∷◌, ◌++◌, codes,
  str_eq,
}
use nepenthes.PeirosParser.{Headers, comes_before, put}

-- A name is not before itself, nor before one that is before it.
before_other :
    (a b : List ℕ) → comes_before a b ≡ true → (str_eq b a ≡ false) × (comes_before b a ≡ false)
unfolding comes_before str_eq
before_other a [] e = cc
before_other [] (y ∷ b) e = (refl, refl)
before_other (x ∷ a) (y ∷ b) e = elim (Bool-cases (x == y)) [
  | inl same ↦
      let flip : (y == x) ≡ true = ground (arith, same) in
      let (e₁, e₂) = before_other a b (rw (same) at e) in (rw (flip, e₁), rw (flip, e₂))
  | inr other ↦
      let flip : (y == x) ≡ false = ground (arith, other) in
      let less : ltb x y ≡ true = rw (other) at e in
      let more : ltb y x ≡ false = ground (arith, less) in (rw (flip), rw (flip, more))
]

-- All of the headers come before the name.
abbrev pub AllBefore : Headers → List ℕ → Type 0
AllBefore [] name = Unit
AllBefore (h ∷ headers) name = (comes_before h.0 name ≡ true) × AllBefore headers name

pub put-append :
    (headers : Headers) (name value : List ℕ)
    → AllBefore headers name
    → put name value headers ≡ headers ++ ((name, value) ∷ [])
unfolding put
put-append [] name value i = refl
put-append (h ∷ headers) name value (e, i) =
    let (e₁, e₂) = before_other h.0 name e in rw (e₁, e₂, put-append headers name value i)

-- In the order of the map, behind the headers that are there, and none is the length.
abbrev pub IsSorted : Headers → Headers → Type 0
IsSorted before [] = Unit
IsSorted before (h ∷ headers) =
    (str_eq h.0 (codes "Content-length") ≡ false)
    × AllBefore before h.0
    × IsSorted (before ++ (h ∷ [])) headers
