-- ===== src/PeirosParser/Streams.antt =====
-- What the parser reads from the messages that requests are sent in.
use mathlib.Core.List.{append_assoc}
use nepenthes.Base.{
  ℕ, suc, ◌≡◌, ◌∙◌, inl, inr, refl, sym, ap, subst, arith, ==-suc-zero, ltb, Bool, true, false,
  List, [], ◌∷◌, ◌++◌, length, length-append, take-append, drop-append, All,
}
use nepenthes.PeirosParser.{
  PeirosParser, PeirosRequest, Headers, is_empty, parse_body, render_request,
}
use nepenthes.PeirosParser.Lines.{split_prefix}
use nepenthes.PeirosParser.Heads.{parser, request}
use nepenthes.PeirosParser.Sound.{IsSound}

pub body_short :
    (b : List ℕ) (requests : List PeirosRequest) (command resource : List ℕ) (headers : Headers)
    (stale : List ℕ) (n : ℕ)
    → ltb (length b) (suc n) ≡ true
    → parse_body (parser b requests (request command resource headers stale (suc n)))
      ≡ (false, parser b requests (request command resource headers stale (suc n)))
unfolding parse_body
body_short b requests command resource headers stale n e = rw (==-suc-zero n, e)

pub body_whole :
    (b : List ℕ) (requests : List PeirosRequest) (command resource : List ℕ) (headers : Headers)
    (stale : List ℕ) (c : ℕ) (dat : List ℕ)
    → parse_body (
        parser
          ((c ∷ dat) ++ b)
          requests
          (request command resource headers stale (length (c ∷ dat))))
      ≡ (
        true,
        parser b
            (requests ++ (request command resource headers (c ∷ dat) (length (c ∷ dat)) ∷ []))
            (request [] resource [] (c ∷ dat) (length (c ∷ dat))),
      )
unfolding parse_body
body_whole b requests command resource headers stale c dat =
    let enough : ltb (length (c ∷ (dat ++ b))) (suc (length dat)) ≡ false =
      ground (arith, length-append dat b) in
    rw (
      ==-suc-zero (length dat),
      enough,
      take-append (length dat) dat b refl,
      drop-append (length dat) dat b refl,
    )

-- A text that is all there is no proper part.
pub too_short :
    (b rest h t : List ℕ) (c : ℕ) (more : List ℕ)
    → rest ≡ []
    → b ++ rest ≡ h ++ t
    → b ++ (c ∷ more) ≡ h
    → ⊥
too_short b rest h t c more none e e' = omega (
  arith,
  length-append b rest,
  length-append h t,
  length-append b (c ∷ more),
  ap length e,
  ap length e',
  ap length none,
)

-- The data of a request, or the last that was read before it.
abbrev pub kept : List ℕ → List ℕ → List ℕ
kept stale [] = stale
kept stale (c ∷ dat) = c ∷ dat

-- The requests as they are read, behind the data `stale`.
abbrev pub received : List ℕ → List PeirosRequest → List PeirosRequest
received stale [] = []
received stale (q ∷ qs) =
    request q.command q.resource q.headers (kept stale q.appended_data) (length q.appended_data)
    ∷ received (kept stale q.appended_data) qs

module _ (print : ℕ → List ℕ) where
  abbrev pub stream : List PeirosRequest → List ℕ
  stream [] = []
  stream (q ∷ qs) = render_request print q ++ stream qs

  -- The states of a parser that has `rest` to come, with the requests that there are in the end:
  -- between two requests, before a request without data is ended, and within the data.
  pub data Awaits (p : PeirosParser) (rest : List ℕ) (total : List PeirosRequest) : Type 0 where
    between :
        (qs requests : List PeirosRequest) (b stale old : List ℕ) (n : ℕ)
        → p ≡ parser b requests (request [] old [] stale n)
        → All (IsSound print) qs
        → b ++ rest ≡ stream qs
        → requests ++ received stale qs ≡ total
        → Awaits p rest total
    ending :
        (qs requests : List PeirosRequest) (b stale command resource : List ℕ) (headers : Headers)
        → p ≡ parser b requests (request command resource headers stale 0)
        → is_empty command ≡ false
        → All (IsSound print) qs
        → b ++ rest ≡ stream qs
        → requests ++ received stale qs ≡ total
        → Awaits p rest total
    within :
        (qs requests : List PeirosRequest) (b stale command resource dat : List ℕ) (c : ℕ)
        (headers : Headers)
        → p ≡ parser b requests (request command resource headers stale (length (c ∷ dat)))
        → is_empty command ≡ false
        → All (IsSound print) qs
        → b ++ rest ≡ (c ∷ dat) ++ stream qs
        → requests
            ++ (request command resource headers (c ∷ dat) (length (c ∷ dat))
                ∷ received (c ∷ dat) qs)
          ≡ total
        → Awaits p rest total

  -- What a call leaves: if it stops and nothing is to come, all has been read.
  abbrev pub Fine : List ℕ → List PeirosRequest → Bool × PeirosParser → Type 0
  Fine rest total (more, p) =
      Awaits p rest total × (more ≡ false → rest ≡ [] → (p.requests ≡ total) × (p.in_buffer ≡ []))

  pub parse_body-Fine :
      (qs requests total : List PeirosRequest) (b rest stale command resource dat : List ℕ) (c : ℕ)
      (headers : Headers)
      → is_empty command ≡ false
      → All (IsSound print) qs
      → b ++ rest ≡ (c ∷ dat) ++ stream qs
      → requests
          ++ (request command resource headers (c ∷ dat) (length (c ∷ dat)) ∷ received (c ∷ dat) qs)
        ≡ total
      → Fine rest total (
          parse_body
            (parser b requests (request command resource headers stale (length (c ∷ dat)))))
  parse_body-Fine qs requests total b rest stale command resource dat c headers some v e whole =
      elim (split_prefix (c ∷ dat) b rest (stream qs) e) [
        | inl (d, more, e') ↦
            let sizes = length-append b (d ∷ more) in
            let short : ltb (length b) (suc (length dat)) ≡ true =
              ground (arith, sizes, ap length e') in
            subst (Fine rest total)
              (sym (body_short b requests command resource headers stale (length dat) short))
              (
                within qs requests b stale command resource dat c headers refl some v e whole,
                λ _ done_. absurd (too_short b rest (c ∷ dat) (stream qs) d more done_ e e'),
              )
        | inr (b', e', e'') ↦
            let eq =
              ap
                (λ x.
                  parse_body
                    (parser x requests (request command resource headers stale (length (c ∷ dat)))))
                e'
              ∙ body_whole b' requests command resource headers stale c dat in
            subst (Fine rest total) (sym eq) (
              between qs
                  (requests ++ (request command resource headers (c ∷ dat) (length (c ∷ dat)) ∷ []))
                  b' (c ∷ dat) resource (length (c ∷ dat)) refl v e''
                  (append_assoc requests
                      (request command resource headers (c ∷ dat) (length (c ∷ dat)) ∷ [])
                      (received (c ∷ dat) qs)
                    ∙ whole),
              λ bad. cc,
            )
      ]
