-- ===== src/PeirosParser/Printed.antt =====
-- The lines of the head of a request that was printed.
use mathlib.Core.List.{append_assoc}
use nepenthes.Base.{
  ℕ, ◌≡◌, ◌∙◌, refl, sym, ap, arith, true, false, List, [], ◌∷◌, ◌++◌, length, codes, All,
}
use nepenthes.PeirosParser.{
  PeirosRequest, Headers, has_blank_line, header_line, header_lines, length_line, resource_part,
}
use nepenthes.PeirosParser.Lines.{IsLine}
use nepenthes.PeirosParser.Heads.{IsWord, IsText, IsValue}
use nepenthes.PeirosParser.HeaderLines.{IsHeader}
use nepenthes.PeirosParser.Requests.{Prints}
use nepenthes.PeirosParser.Sound.{IsSound, headers_text, head_text}
use nepenthes.PeirosParser.Blank.{
  ended, AreLines, ended-append, ended-has_blank_line, prefix-has_blank_line,
}

abbrev body : List ℕ × List ℕ → List ℕ
body h = h.0 ++ (codes ": " ++ h.1)

abbrev bodies : Headers → List (List ℕ) → List (List ℕ)
bodies [] ls = ls
bodies (h ∷ headers) ls = body h ∷ bodies headers ls

IsLine-append : (v w : List ℕ) → IsLine v → IsLine w → IsLine (v ++ w)
IsLine-append [] w i j = j
IsLine-append (c ∷ v) w (e, i) j = (e, IsLine-append v w i j)

IsText-IsLine : (w : List ℕ) → IsText w → IsLine w
IsText-IsLine [] i = tt
IsText-IsLine (c ∷ w) (low, high, i) = (ground arith, IsText-IsLine w i)

IsWord-IsLine : (w : List ℕ) → IsWord w → IsLine w
IsWord-IsLine [] i = tt
IsWord-IsLine (c ∷ w) (low, high, i) = (ground arith, IsWord-IsLine w i)

IsValue-IsLine : (w : List ℕ) → IsValue w → IsLine w
IsValue-IsLine [] i = tt
IsValue-IsLine (c ∷ w) (low, high, i) = (ground arith, IsText-IsLine w i)

resource_part-IsLine : (w : List ℕ) → IsWord w → IsLine (resource_part w)
unfolding resource_part
resource_part-IsLine [] i = tt
resource_part-IsLine (c ∷ w) i = (refl, IsWord-IsLine (c ∷ w) i)

bodies-AreLines :
    (headers : Headers) (ls : List (List ℕ))
    → All IsHeader headers
    → AreLines ls
    → AreLines (bodies headers ls)
bodies-AreLines [] ls i j = j
bodies-AreLines (([], value) ∷ headers) ls (i, is) j = absurd i.0
bodies-AreLines ((c ∷ name, value) ∷ headers) ls ((i, _, k), is) j = (
  IsLine-append (c ∷ name) (codes ": " ++ value) (IsValue-IsLine (c ∷ name) i)
      (refl, (refl, IsValue-IsLine value k)),
  bodies-AreLines headers ls is j,
)

header_line-body :
    (h : List ℕ × List ℕ) (text : List ℕ) → header_line h ++ text ≡ body h ++ (13 ∷ 10 ∷ text)
unfolding header_line
header_line-body h text = simp (append_assoc)

header_lines-ended :
    (headers : Headers) (ls : List (List ℕ)) (text : List ℕ)
    → header_lines headers ++ ended ls text ≡ ended (bodies headers ls) text
unfolding header_lines
header_lines-ended [] ls text = refl
header_lines-ended (h ∷ headers) ls text =
    append_assoc (header_line h) (header_lines headers) (ended ls text)
    ∙ ap (λ x. header_line h ++ x) (header_lines-ended headers ls text)
    ∙ header_line-body h (ended (bodies headers ls) text)

module _ (atoi : List ℕ → ℕ) (print : ℕ → List ℕ) (laws : Prints atoi print) where
  length_body : List ℕ → List (List ℕ)
  length_body [] = []
  length_body (c ∷ dat) = body (codes "Content-length", print (length (c ∷ dat))) ∷ []

  length_line-ended :
      (dat text : List ℕ) → length_line print dat ++ (13 ∷ 10 ∷ text) ≡ ended (length_body dat) text
  unfolding length_line length_body
  length_line-ended [] text = refl
  length_line-ended (c ∷ dat) text =
      header_line-body (codes "Content-length", print (length (c ∷ dat))) (13 ∷ 10 ∷ text)

  length_body-AreLines : (dat : List ℕ) → AreLines (length_body dat)
  unfolding length_body
  length_body-AreLines [] = tt
  length_body-AreLines (c ∷ dat) = (
    IsLine-append (codes "Content-length: ") (print (length (c ∷ dat))) (ground arith)
        (IsValue-IsLine (print (length (c ∷ dat))) (laws.digits (length (c ∷ dat)))),
    tt,
  )

  first_line : PeirosRequest → List ℕ
  first_line q = q.command ++ resource_part q.resource

  other_lines : PeirosRequest → List (List ℕ)
  other_lines q = bodies q.headers (length_body q.appended_data)

  head_text-ended :
      (q : PeirosRequest) (text : List ℕ)
      → head_text print q text ≡ ended (first_line q ∷ other_lines q) text
  unfolding first_line other_lines
  head_text-ended q text =
      sym (append_assoc q.command (resource_part q.resource) (13 ∷ 10 ∷ headers_text print q text))
      ∙ ap (λ x. (q.command ++ resource_part q.resource) ++ (13 ∷ 10 ∷ x))
          (ap (λ x. header_lines q.headers ++ x) (length_line-ended q.appended_data text)
            ∙ header_lines-ended q.headers (length_body q.appended_data) text)

  pub head_text-append :
      (q : PeirosRequest) (text : List ℕ) → head_text print q text ≡ head_text print q [] ++ text
  head_text-append q text =
      head_text-ended q text
      ∙ ended-append (first_line q ∷ other_lines q) text
      ∙ ap (λ x. x ++ text) (sym (head_text-ended q []))

  pub head_text-has_blank_line :
      (q : PeirosRequest) (text : List ℕ) → has_blank_line (head_text print q text) ≡ true
  head_text-has_blank_line q text =
      ap has_blank_line (head_text-ended q text)
      ∙ ended-has_blank_line (first_line q) (other_lines q) text

  -- A head that is not yet there as a whole has no blank line.
  pub part-has_blank_line :
      (q : PeirosRequest) (b : List ℕ) (c : ℕ) (more : List ℕ)
      → IsSound print q
      → b ++ (c ∷ more) ≡ head_text print q []
      → has_blank_line b ≡ false
  unfolding first_line other_lines
  part-has_blank_line q b c more v e =
      prefix-has_blank_line (q.command ++ resource_part q.resource)
        (bodies q.headers (length_body q.appended_data)) b c more
        (IsLine-append q.command (resource_part q.resource) (IsWord-IsLine q.command v.command)
          (resource_part-IsLine q.resource v.resource))
        (bodies-AreLines q.headers (length_body q.appended_data) v.headers
          (length_body-AreLines q.appended_data))
        (e ∙ head_text-ended q [])
