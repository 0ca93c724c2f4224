-- ===== src/PeirosParser/Messages.antt =====
-- Requests that are sent one after the other, in messages that are cut anywhere.
use mathlib.Core.List.{append_assoc}
use nepenthes.Base.{
  ℕ, zero, suc, ◌+◌, ◌*◌, ◌<◌, ◌≡◌, ◌∙◌, refl, ap, arith, Bool-cases, inl, inr, if◌then◌else◌, Bool,
  true, false, List, [], ◌∷◌, ◌++◌, length, All, Outcome, done, ◌>>=◌,
}
use nepenthes.PeirosParser.{
  PeirosParser, PeirosRequest, is_empty, parse_request, parse_loop, parse_data,
}
use nepenthes.PeirosParser.Heads.{parser, request}
use nepenthes.PeirosParser.Requests.{Prints}
use nepenthes.PeirosParser.Sound.{IsSound}
use nepenthes.PeirosParser.Streams.{received, stream, Awaits, between, ending, within}
use nepenthes.PeirosParser.Rounds.{parse_request-Fine}
use nepenthes.PeirosParser.Termination.{weight, flag, parse_request-Shrinks, loop_on, loop_stop}
use nepenthes.TcpSocket.Stream.{concat}

-- The messages, until one is malformed.
abbrev pub parse_all : (List ℕ → ℕ) → PeirosParser → List (List ℕ) → Outcome (Bool × PeirosParser)
parse_all atoi p [] = done (true, p)
parse_all atoi p (msg ∷ msgs) = do
  (ok, p') ← parse_data atoi p msg
  if ok then parse_all atoi p' msgs else done (false, p')

module _ (atoi : List ℕ → ℕ) (print : ℕ → List ℕ) (laws : Prints atoi print) where
  well_formed :
      (p : PeirosParser) (rest : List ℕ) (total : List PeirosRequest)
      → Awaits print p rest total
      → p.malformed ≡ false
  well_formed p rest total (between qs requests b stale old n e v e' whole) =
      ap (λ x. x.malformed) e
  well_formed p rest total (ending qs requests b stale command resource headers e some v e' whole) =
      ap (λ x. x.malformed) e
  well_formed p rest total
        (within qs requests b stale command resource dat c headers e some v e' whole) =
      ap (λ x. x.malformed) e

  -- The next message comes into the buffer.
  feed :
      (p : PeirosParser) (msg rest : List ℕ) (total : List PeirosRequest)
      → Awaits print p (msg ++ rest) total
      → Awaits print (record p { in_buffer = p.in_buffer ++ msg; malformed = false }) rest total
  feed p msg rest total (between qs requests b stale old n e v e' whole) =
      between qs requests (b ++ msg) stale old n
        (ap (λ (x : PeirosParser). record x { in_buffer = x.in_buffer ++ msg; malformed = false })
          e)
        v (append_assoc b msg rest ∙ e') whole
  feed p msg rest total (ending qs requests b stale command resource headers e some v e' whole) =
      ending qs requests (b ++ msg) stale command resource headers
        (ap (λ (x : PeirosParser). record x { in_buffer = x.in_buffer ++ msg; malformed = false })
          e)
        some v (append_assoc b msg rest ∙ e') whole
  feed p msg rest total
        (within qs requests b stale command resource dat c headers e some v e' whole) =
      within qs requests (b ++ msg) stale command resource dat c headers
        (ap (λ (x : PeirosParser). record x { in_buffer = x.in_buffer ++ msg; malformed = false })
          e)
        some v (append_assoc b msg rest ∙ e') whole

  -- What is so when a message was read.
  abbrev Read : List ℕ → List PeirosRequest → PeirosParser → Type 0
  Read rest total p =
      Awaits print p rest total × (rest ≡ [] → (p.requests ≡ total) × (p.in_buffer ≡ []))

  parse_loop-Read :
      (fuel : ℕ) (p : PeirosParser) (rest : List ℕ) (total : List PeirosRequest)
      → Awaits print p rest total
      → weight p < fuel
      → (p' : PeirosParser) × (parse_loop atoi fuel p ≡ done p') × Read rest total p'
  parse_loop-Read zero p rest total a less = absurd (omega (arith, less))
  parse_loop-Read (suc fuel) p rest total a less =
      let (a', all_read) = parse_request-Fine atoi print laws p rest total a in
      let good = well_formed p rest total a in
      elim (Bool-cases (parse_request atoi p).0) [
        | inl more ↦
            let (p', e, r) =
              parse_loop-Read fuel (parse_request atoi p).1 rest total a'
                (omega (arith, less, parse_request-Shrinks atoi p more)) in
            (p', loop_on atoi fuel p good more ∙ e, r)
        | inr stop ↦
            ((parse_request atoi p).1, loop_stop atoi fuel p good stop, (a', all_read stop))
      ]

  parse_data-Read :
      (p : PeirosParser) (msg rest : List ℕ) (total : List PeirosRequest)
      → Awaits print p (msg ++ rest) total
      → (p' : PeirosParser) × (parse_data atoi p msg ≡ done (true, p')) × Read rest total p'
  unfolding parse_data
  parse_data-Read p msg rest total a =
      let q = record p { in_buffer = p.in_buffer ++ msg; malformed = false } in
      let (p', e, (a', all_read)) =
        parse_loop-Read (2 * length (p.in_buffer ++ msg) + 2) q rest total (feed p msg rest total a)
          (omega (arith, flag (is_empty p.current.command))) in
      (p', rw (e, well_formed p' rest total a'), (a', all_read))

  parse_all-Read :
      (msg : List ℕ) (msgs : List (List ℕ)) (p : PeirosParser) (total : List PeirosRequest)
      → Awaits print p (concat (msg ∷ msgs)) total
      → (p' : PeirosParser) × (parse_all atoi p (msg ∷ msgs) ≡ done (true, p'))
        × (p'.requests ≡ total)
        × (p'.in_buffer ≡ [])
  parse_all-Read msg [] p total a =
      let (p', e, (a', all_read)) = parse_data-Read p msg [] total a in
      let (same, none) = all_read refl in (p', rw (e), same, none)
  parse_all-Read msg (next ∷ msgs) p total a =
      let (p', e, (a', _)) = parse_data-Read p msg (concat (next ∷ msgs)) total a in
      let (p'', e', same, none) = parse_all-Read next msgs p' total a' in
      (p'', rw (e) e', same, none)

  -- When sound requests are printed, put one behind the other, and sent in one or more messages,
  -- wherever these are cut: a new parser finds nothing malformed, and has in the end read them all, in
  -- their order and with nothing left in its buffer. Each is as it was, but one without data has the
  -- data of the last one before it that had some.
  pub parse_all-received :
      (qs : List PeirosRequest) (msg : List ℕ) (msgs : List (List ℕ)) (n : ℕ)
      → All (IsSound print) qs
      → concat (msg ∷ msgs) ≡ stream print qs
      → (p : PeirosParser) × (parse_all atoi (parser [] [] (request [] [] [] [] n)) (msg ∷ msgs)
          ≡ done (true, p))
        × (p.requests ≡ received [] qs)
        × (p.in_buffer ≡ [])
  parse_all-received qs msg msgs n v e =
      parse_all-Read msg msgs (parser [] [] (request [] [] [] [] n)) (received [] qs)
        (between qs [] [] [] [] n refl v e refl)
