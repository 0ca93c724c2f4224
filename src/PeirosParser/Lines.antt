-- ===== src/PeirosParser/Lines.antt =====
-- Where the blank line behind the head of a request is found.
use nepenthes.Base.{
  ℕ, ◌≡◌, ◌∙◌, ◌⊎◌, inl, inr, refl, ap₂, arith, ◌==◌, Bool, true, false, ◌||◌, List, [], ◌∷◌, ◌++◌,
  starts_with,
}
use nepenthes.PeirosParser.{blank_line, has_blank_line}

pub head-eq : {x y : ℕ} {xs ys : List ℕ} → x ∷ xs ≡ y ∷ ys → x ≡ y
head-eq e = cc

pub tail-eq : {x y : ℕ} {xs ys : List ℕ} → x ∷ xs ≡ y ∷ ys → xs ≡ ys
tail-eq e = cc

-- A beginning of a text is a proper part of its first part, or has all of it.
pub split_prefix :
    (h b rest t : List ℕ)
    → b ++ rest ≡ h ++ t
    → ((c : ℕ) × (more : List ℕ) × (b ++ (c ∷ more) ≡ h))
      ⊎ ((b' : List ℕ) × (b ≡ h ++ b') × (b' ++ rest ≡ t))
split_prefix [] b rest t e = inr (b, refl, e)
split_prefix (c ∷ h) [] rest t e = inl (c, h, refl)
split_prefix (c ∷ h) (x ∷ b) rest t e = elim (split_prefix h b rest t (tail-eq e)) [
  | inl (d, more, e') ↦ inl (d, more, ap₂ (λ (y : ℕ) (l : List ℕ). y ∷ l) (head-eq e) e')
  | inr (b', e', e'') ↦ inr (b', ap₂ (λ (y : ℕ) (l : List ℕ). y ∷ l) (head-eq e) e', e'')
]

-- No character is a carriage return.
abbrev pub IsLine : List ℕ → Type 0
IsLine [] = Unit
IsLine (c ∷ w) = ((c == 13) ≡ false) × IsLine w

pub has_blank_line-on :
    (c : ℕ) (text : List ℕ) → (c == 13) ≡ false → has_blank_line (c ∷ text) ≡ has_blank_line text
unfolding has_blank_line starts_with
has_blank_line-on c text e = let other : (13 == c) ≡ false = ground (arith, e) in rw (other)

pub has_blank_line-line :
    (w text : List ℕ) → IsLine w → has_blank_line (w ++ text) ≡ has_blank_line text
has_blank_line-line [] text i = refl
has_blank_line-line (c ∷ w) text (e, i) =
    has_blank_line-on c (w ++ text) e ∙ has_blank_line-line w text i

or_true : (b : Bool) → b || true ≡ true
or_true true = refl
or_true false = refl

pub has_blank_line-back :
    (w text : List ℕ) → has_blank_line text ≡ true → has_blank_line (w ++ text) ≡ true
unfolding has_blank_line
has_blank_line-back [] text e = e
has_blank_line-back (c ∷ w) text e =
    rw (has_blank_line-back w text e) (or_true (starts_with blank_line (c ∷ (w ++ text))))
