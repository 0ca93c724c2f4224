-- ===== src/PeirosParser/Blank.antt =====
-- The first blank line of a text is the one that ends its lines.
use mathlib.Core.List.{append_assoc, append-nil}
use nepenthes.Base.{
  ℕ, ◌<◌, ◌≡◌, ◌∙◌, inl, inr, refl, sym, ap, ap₂, arith, ◌==◌, Bool, true, false, ◌&&◌, List, [],
  ◌∷◌, ◌++◌, length, length-append, starts_with,
}
use nepenthes.PeirosParser.{blank_line, has_blank_line}
use nepenthes.PeirosParser.Lines.{
  IsLine, head-eq, tail-eq, split_prefix, has_blank_line-line, has_blank_line-back,
}

-- Lines, the blank line, and what is behind it.
abbrev pub ended : List (List ℕ) → List ℕ → List ℕ
ended [] text = 13 ∷ 10 ∷ text
ended (l ∷ ls) text = l ++ (13 ∷ 10 ∷ ended ls text)

-- Lines that are not empty.
abbrev pub AreLines : List (List ℕ) → Type 0
AreLines [] = Unit
AreLines ([] ∷ ls) = ⊥
AreLines ((c ∷ w) ∷ ls) = IsLine (c ∷ w) × AreLines ls

pub ended-append : (ls : List (List ℕ)) (text : List ℕ) → ended ls text ≡ ended ls [] ++ text
ended-append [] text = refl
ended-append (l ∷ ls) text =
    rw (ended-append ls text) (sym (append_assoc l (13 ∷ 10 ∷ ended ls []) text))

ended_found : (ls : List (List ℕ)) (text : List ℕ) → has_blank_line (13 ∷ 10 ∷ ended ls text) ≡ true
unfolding has_blank_line starts_with
ended_found [] text = refl
ended_found (l ∷ ls) text =
    has_blank_line-back (13 ∷ 10 ∷ l) (13 ∷ 10 ∷ ended ls text) (ended_found ls text)

pub ended-has_blank_line :
    (l : List ℕ) (ls : List (List ℕ)) (text : List ℕ) → has_blank_line (ended (l ∷ ls) text) ≡ true
ended-has_blank_line l ls text =
    has_blank_line-back l (13 ∷ 10 ∷ ended ls text) (ended_found ls text)

IsLine-prefix : (b more w : List ℕ) → b ++ more ≡ w → IsLine w → IsLine b
IsLine-prefix [] more w e i = tt
IsLine-prefix (x ∷ b) more [] e i = absurd (cc)
IsLine-prefix (x ∷ b) more (y ∷ w) e (i, is) =
    (ap (λ z. z == 13) (head-eq e) ∙ i, IsLine-prefix b more w (tail-eq e) is)

line_missing : (b more w : List ℕ) → b ++ more ≡ w → IsLine w → has_blank_line b ≡ false
unfolding has_blank_line
line_missing b more w e i =
    ap has_blank_line (sym (append-nil b)) ∙ has_blank_line-line b [] (IsLine-prefix b more w e i)

and_false : (b : Bool) → b && false ≡ false
and_false true = refl
and_false false = refl

starts_with_short : (w b : List ℕ) → length b < length w → starts_with w b ≡ false
unfolding starts_with
starts_with_short [] b less = absurd (omega arith)
starts_with_short (x ∷ w) [] less = refl
starts_with_short (x ∷ w) (y ∷ b) less =
    rw (starts_with_short w b (omega (arith, less))) (and_false (x == y))

short_missing : (b : List ℕ) → length b < 4 → has_blank_line b ≡ false
unfolding has_blank_line
short_missing [] less = refl
short_missing (c ∷ b) less =
    rw (starts_with_short blank_line (c ∷ b) less, short_missing b (omega (arith, less)))

after_end :
    (x : ℕ) (b : List ℕ)
    → (x == 13) ≡ false
    → has_blank_line (13 ∷ 10 ∷ x ∷ b) ≡ has_blank_line (x ∷ b)
unfolding has_blank_line starts_with
after_end x b e = let other : (13 == x) ≡ false = ground (arith, e) in rw (other)

missing_behind :
    (ls : List (List ℕ)) (b : List ℕ) (c : ℕ) (more : List ℕ)
    → AreLines ls
    → b ++ (c ∷ more) ≡ 13 ∷ 10 ∷ ended ls []
    → has_blank_line b ≡ false
missing_behind [] b c more i e =
    short_missing b (omega (arith, length-append b (c ∷ more), ap length e))
missing_behind ([] ∷ ls) b c more i e = absurd i
missing_behind ((d ∷ w) ∷ ls) [] c more i e = short_missing [] (omega arith)
missing_behind ((d ∷ w) ∷ ls) (x ∷ []) c more i e = short_missing (x ∷ []) (omega arith)
missing_behind ((d ∷ w) ∷ ls) (x ∷ y ∷ []) c more i e = short_missing (x ∷ y ∷ []) (omega arith)
missing_behind ((d ∷ w) ∷ ls) (x ∷ y ∷ z ∷ b) c more (i, is) e =
    let t = tail-eq (tail-eq e) in
    ap₂ (λ (x' y' : ℕ). has_blank_line (x' ∷ y' ∷ z ∷ b)) (head-eq e) (head-eq (tail-eq e))
    ∙ after_end z b (ap (λ k. k == 13) (head-eq t) ∙ i.0)
    ∙ elim (split_prefix (d ∷ w) (z ∷ b) (c ∷ more) (13 ∷ 10 ∷ ended ls []) t) [
      | inl (c', more', e') ↦ line_missing (z ∷ b) (c' ∷ more') (d ∷ w) e' i
      | inr (b', e', e'') ↦
          ap has_blank_line e'
          ∙ has_blank_line-line (d ∷ w) b' i
          ∙ missing_behind ls b' c more is e''
    ]

-- In a beginning of lines and their blank line that lacks some of it, there is no blank line.
pub prefix-has_blank_line :
    (l : List ℕ) (ls : List (List ℕ)) (b : List ℕ) (c : ℕ) (more : List ℕ)
    → IsLine l
    → AreLines ls
    → b ++ (c ∷ more) ≡ ended (l ∷ ls) []
    → has_blank_line b ≡ false
prefix-has_blank_line l ls b c more i is e =
    elim (split_prefix l b (c ∷ more) (13 ∷ 10 ∷ ended ls []) e) [
      | inl (c', more', e') ↦ line_missing b (c' ∷ more') l e' i
      | inr (b', e', e'') ↦
          ap has_blank_line e' ∙ has_blank_line-line l b' i ∙ missing_behind ls b' c more is e''
    ]
