-- ===== src/PeirosParser/Sound.antt =====
-- The head of a whole request that was printed.
use mathlib.Core.List.{append_assoc}
use nepenthes.Base.{
  ℕ, ◌+◌, ◌^◌, ◌<◌, ◌≡◌, ◌∙◌, sym, ap, arith, true, false, List, [], ◌∷◌, ◌++◌, length,
  length-append, drop, drop-append, starts_with, All,
}
use nepenthes.PeirosParser.{
  PeirosRequest, is_empty, behind_headers, parse_headers, parse_head, header_lines, resource_part,
  length_line, render_request,
}
use nepenthes.PeirosParser.Heads.{IsWord, parser, request, parse_command-line}
use nepenthes.PeirosParser.HeaderLines.{IsHeader}
use nepenthes.PeirosParser.Maps.{IsSorted}
use nepenthes.PeirosParser.Requests.{Prints, read_header-lines, read_length-line, read_headers-end}

drop_block :
    (xs ys text : List ℕ) → drop (0 + length xs + length ys + 1) (xs ++ (ys ++ (13 ∷ text))) ≡ text
drop_block xs ys text =
    let n = 0 + length xs + length ys + 1 in
    ap (drop n)
      (sym (append_assoc xs ys (13 ∷ text)) ∙ sym (append_assoc (xs ++ ys) (13 ∷ []) text))
    ∙ drop-append n ((xs ++ ys) ++ (13 ∷ [])) text
        (omega (arith, length-append (xs ++ ys) (13 ∷ []), length-append xs ys))

module _ (print : ℕ → List ℕ) where
  -- A request that can be read back: words, headers in the order of their names, and sizes that the
  -- counters hold.
  pub record IsSound (q : PeirosRequest) : Type 0 where
    pub some : is_empty q.command ≡ false
    pub command : IsWord q.command
    pub resource : IsWord q.resource
    pub headers : All IsHeader q.headers
    pub sorted : IsSorted [] q.headers
    pub line_size : length (q.command ++ resource_part q.resource) < 2 ^ 16
    pub head_size :
        length (header_lines q.headers) + length (length_line print q.appended_data) + 1 < 2 ^ 16
    pub data_size : length q.appended_data < 2 ^ 31

  -- The headers of a request, and the text behind them.
  abbrev pub headers_text : PeirosRequest → List ℕ → List ℕ
  headers_text q text =
      header_lines q.headers ++ (length_line print q.appended_data ++ (13 ∷ 10 ∷ text))

  abbrev pub head_text : PeirosRequest → List ℕ → List ℕ
  head_text q text = q.command ++ (resource_part q.resource ++ (13 ∷ 10 ∷ headers_text q text))

  pub render_request-append :
      (q : PeirosRequest) (rest : List ℕ)
      → render_request print q ++ rest ≡ head_text q (q.appended_data ++ rest)
  unfolding render_request
  render_request-append q rest = simp (append_assoc)

module _ (atoi : List ℕ → ℕ) (print : ℕ → List ℕ) (laws : Prints atoi print) where
  parse_headers-text :
      (q : PeirosRequest) (text stale : List ℕ) (requests : List PeirosRequest)
      → IsSound print q
      → parse_headers atoi
          (parser (headers_text print q text) requests (request q.command q.resource [] stale 0))
        ≡ (
          true,
          parser text requests
              (request q.command q.resource q.headers stale (length q.appended_data)),
        )
  unfolding parse_headers behind_headers starts_with
  parse_headers-text q text stale requests v =
      let behind = length_line print q.appended_data ++ (13 ∷ 10 ∷ text) in
      let m = length (header_lines q.headers) in
      let k = m + length (length_line print q.appended_data) in
      let (h, u, e) =
        read_header-lines atoi print laws q.headers [] q.command q.resource stale [] [] behind 0 0
          v.headers v.sorted (omega (arith, v.head_size)) in
      let (h', u', e') =
        read_length-line atoi print laws q.appended_data h u (13 ∷ 10 ∷ text) q.command q.resource
          stale q.headers (0 + m) v.data_size (omega (arith, v.head_size)) in
      let q' = request q.command q.resource q.headers stale (length q.appended_data) in
      let last =
        read_headers-end atoi print laws q' h' u' (10 ∷ text)
          (0 + m + length (length_line print q.appended_data)) (omega (arith, v.head_size)) in
      rw (
        e ∙ e' ∙ last,
        drop_block (header_lines q.headers) (length_line print q.appended_data) (10 ∷ text),
      )

  -- The head of a request, behind one whose data is still there.
  pub parse_head-text :
      (q : PeirosRequest) (text stale old : List ℕ) (n : ℕ) (requests : List PeirosRequest)
      → IsSound print q
      → parse_head atoi (parser (head_text print q text) requests (request [] old [] stale n)) ≡ (
        true,
        parser text requests
            (request q.command q.resource q.headers stale (length q.appended_data)),
      )
  unfolding parse_head
  parse_head-text q text stale old n requests v =
      rw
        (parse_command-line q.command q.resource (headers_text print q text) requests
          (request [] old [] stale 0) v.command v.resource v.line_size)
        (parse_headers-text q text stale requests v)
