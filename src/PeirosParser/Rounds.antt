-- ===== src/PeirosParser/Rounds.antt =====
-- A call of parseRequest in each of the states.
use mathlib.Core.List.{append_assoc, append-nil}
use nepenthes.Base.{
  ℕ, suc, ◌≡◌, ◌∙◌, inl, inr, refl, sym, ap, subst, ==-suc-zero, true, false, List, [], ◌∷◌, ◌++◌,
  length, All,
}
use nepenthes.PeirosParser.{
  PeirosParser, PeirosRequest, Headers, is_empty, has_blank_line, parse_body, behind_head,
  parse_request,
}
use nepenthes.PeirosParser.Lines.{split_prefix}
use nepenthes.PeirosParser.Heads.{parser, request}
use nepenthes.PeirosParser.Requests.{Prints}
use nepenthes.PeirosParser.Sound.{IsSound, head_text, render_request-append, parse_head-text}
use nepenthes.PeirosParser.Printed.{head_text-append, head_text-has_blank_line, part-has_blank_line}
use nepenthes.PeirosParser.Streams.{
  kept, received, stream, Awaits, between, ending, within, Fine, too_short, parse_body-Fine,
}

empty-has_blank_line : has_blank_line [] ≡ false
unfolding has_blank_line
empty-has_blank_line = refl

module _ (atoi : List ℕ → ℕ) (print : ℕ → List ℕ) (laws : Prints atoi print) where
  behind_head-body :
      (b : List ℕ) (requests : List PeirosRequest) (command resource : List ℕ) (headers : Headers)
      (stale : List ℕ) (n : ℕ)
      → behind_head atoi (true, parser b requests (request command resource headers stale (suc n)))
        ≡ parse_body (parser b requests (request command resource headers stale (suc n)))
  unfolding behind_head
  behind_head-body b requests command resource headers stale n = rw (==-suc-zero n)

  behind_head-Fine :
      (dat command resource b rest stale : List ℕ) (headers : Headers)
      (qs requests total : List PeirosRequest)
      → is_empty command ≡ false
      → All (IsSound print) qs
      → b ++ rest ≡ dat ++ stream print qs
      → requests
          ++ (request command resource headers (kept stale dat) (length dat)
              ∷ received (kept stale dat) qs)
        ≡ total
      → Fine print rest total (
          behind_head atoi
            (true, parser b requests (request command resource headers stale (length dat))))
  unfolding behind_head
  behind_head-Fine [] command resource b rest stale headers qs requests total some v e whole =
      let q = request command resource headers stale 0 in
      (
        ending qs (requests ++ (q ∷ [])) b stale command resource headers refl some v e
            (append_assoc requests (q ∷ []) (received stale qs) ∙ whole),
        λ bad. cc,
      )
  behind_head-Fine (c ∷ dat) command resource b rest stale headers qs requests total some v e
        whole =
      subst (Fine print rest total)
        (sym (behind_head-body b requests command resource headers stale (length dat)))
        (parse_body-Fine print qs requests total b rest stale command resource dat c headers some v
          e whole)

  new_request :
      (q : PeirosRequest) (b stale old : List ℕ) (n : ℕ) (requests : List PeirosRequest)
      → IsSound print q
      → parse_request atoi (parser (head_text print q b) requests (request [] old [] stale n))
        ≡ behind_head atoi (
          true,
          parser b requests (request q.command q.resource q.headers stale (length q.appended_data)),
        )
  unfolding parse_request is_empty
  new_request q b stale old n requests v = rw (
    head_text-has_blank_line atoi print laws q b,
    parse_head-text atoi print laws q b stale old n requests v,
  )

  no_request :
      (b stale old : List ℕ) (n : ℕ) (requests : List PeirosRequest)
      → has_blank_line b ≡ false
      → parse_request atoi (parser b requests (request [] old [] stale n))
        ≡ (false, parser b requests (request [] old [] stale n))
  unfolding parse_request is_empty
  no_request b stale old n requests e = rw (e)

  under_way :
      (b command resource stale : List ℕ) (headers : Headers) (requests : List PeirosRequest)
      (n : ℕ)
      → is_empty command ≡ false
      → parse_request atoi (parser b requests (request command resource headers stale n))
        ≡ parse_body (parser b requests (request command resource headers stale n))
  unfolding parse_request
  under_way b command resource stale headers requests n e = rw (e)

  end_request :
      (b command resource stale : List ℕ) (headers : Headers) (requests : List PeirosRequest)
      → is_empty command ≡ false
      → parse_request atoi (parser b requests (request command resource headers stale 0))
        ≡ (true, parser b requests (request [] resource [] stale 0))
  unfolding parse_body
  end_request b command resource stale headers requests e =
      under_way b command resource stale headers requests 0 e

  between-Fine :
      (qs requests total : List PeirosRequest) (b rest stale old : List ℕ) (n : ℕ)
      → All (IsSound print) qs
      → b ++ rest ≡ stream print qs
      → requests ++ received stale qs ≡ total
      → Fine print rest total (parse_request atoi (parser b requests (request [] old [] stale n)))
  between-Fine [] requests total [] rest stale old n v e whole =
      subst (Fine print rest total) (sym (no_request [] stale old n requests empty-has_blank_line))
        (
          between [] requests [] stale old n refl v e whole,
          λ _ none. (sym (append-nil requests) ∙ whole, refl),
        )
  between-Fine [] requests total (c ∷ b) rest stale old n v e whole = absurd (cc)
  between-Fine (q ∷ qs) requests total b rest stale old n (v, vs) e whole =
      let e₁ =
        e
        ∙ render_request-append print q (stream print qs)
        ∙ head_text-append atoi print laws q (q.appended_data ++ stream print qs) in
      elim (split_prefix (head_text print q []) b rest (q.appended_data ++ stream print qs) e₁) [
        | inl (c, more, e') ↦
            subst (Fine print rest total)
              (sym (
                no_request b stale old n requests
                  (part-has_blank_line atoi print laws q b c more v e')))
              (
                between (q ∷ qs) requests b stale old n refl (v, vs) e whole,
                λ _ none. absurd (
                    too_short b rest (head_text print q []) (q.appended_data ++ stream print qs) c
                      more none e₁ e'),
              )
        | inr (b', e', e'') ↦
            let known = e' ∙ sym (head_text-append atoi print laws q b') in
            let eq =
              ap (λ x. parse_request atoi (parser x requests (request [] old [] stale n))) known
              ∙ new_request q b' stale old n requests v in
            subst (Fine print rest total) (sym eq) (
              behind_head-Fine q.appended_data q.command q.resource b' rest stale q.headers qs
                requests total v.some vs e'' whole)
      ]

  pub parse_request-Fine :
      (p : PeirosParser) (rest : List ℕ) (total : List PeirosRequest)
      → Awaits print p rest total
      → Fine print rest total (parse_request atoi p)
  parse_request-Fine p rest total (between qs requests b stale old n e v e' whole) =
      subst (λ x. Fine print rest total (parse_request atoi x)) (sym e)
        (between-Fine qs requests total b rest stale old n v e' whole)
  parse_request-Fine p rest total
        (ending qs requests b stale command resource headers e some v e' whole) =
      subst (λ x. Fine print rest total (parse_request atoi x)) (sym e)
        (subst (Fine print rest total)
          (sym (end_request b command resource stale headers requests some))
          (between qs requests b stale resource 0 refl v e' whole, λ bad. cc))
  parse_request-Fine p rest total
        (within qs requests b stale command resource dat c headers e some v e' whole) =
      subst (λ x. Fine print rest total (parse_request atoi x)) (sym e)
        (subst (Fine print rest total)
          (sym (under_way b command resource stale headers requests (length (c ∷ dat)) some))
          (parse_body-Fine print qs requests total b rest stale command resource dat c headers some
            v e' whole))
