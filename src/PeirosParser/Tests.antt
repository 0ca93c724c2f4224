-- ===== src/PeirosParser/Tests.antt =====
-- Requests that are printed and read, with decimal numbers.
use nepenthes.Base.{
  ℕ, zero, suc, ◌+◌, ◌-◌, ◌*◌, ◌/◌, ◌%◌, ◌<◌, ◌≤◌, ◌≡◌, ◌∙◌, refl, ap, arith, ltb, if◌then◌else◌,
  Bool-cases, inl, inr, true, not, List, [], ◌∷◌, ◌++◌, codes, str_eq, done, All,
}
use nepenthes.PeirosParser.{
  PeirosParser, PeirosRequest, parse_data, render_request, is_empty, resource_part, header_lines,
  header_line, length_line, comes_before,
}
use nepenthes.PeirosParser.Heads.{IsText, IsValue, parser, request}
use nepenthes.PeirosParser.Requests.{Prints}
use nepenthes.PeirosParser.Sound.{IsSound}
use nepenthes.PeirosParser.Streams.{received, stream}
use nepenthes.PeirosParser.Termination.{parse_data-done}
use nepenthes.PeirosParser.Messages.{parse_all, parse_all-received}
use nepenthes.TcpSocket.Stream.{concat}

-- A stand-in for atoi(), on digits, and one for what %u prints.
abbrev value_from : ℕ → List ℕ → ℕ
value_from acc [] = acc
value_from acc (c ∷ ds) = value_from (acc * 10 + (c - 48)) ds

abbrev decimal_within : ℕ → ℕ → List ℕ
decimal_within zero n = (48 + n % 10) ∷ []
decimal_within (suc fuel) n =
    let rest = decimal_within fuel (n / 10) in
    if ltb n 10 then (48 + n) ∷ [] else rest ++ ((48 + n % 10) ∷ [])

abbrev decimal : ℕ → List ℕ
decimal n = decimal_within n n

value_from-append :
    (ds : List ℕ) (acc d : ℕ) → value_from acc (ds ++ (d ∷ [])) ≡ value_from acc ds * 10 + (d - 48)
value_from-append [] acc d = refl
value_from-append (c ∷ ds) acc d = value_from-append ds (acc * 10 + (c - 48)) d

value_from-decimal : (fuel n : ℕ) → n ≤ fuel → value_from 0 (decimal_within fuel n) ≡ n
value_from-decimal zero n less = omega (arith, less)
value_from-decimal (suc fuel) n less = elim (Bool-cases (ltb n 10)) [
  | inl small ↦ rw (small) (omega arith)
  | inr large ↦
      let ten : 10 ≤ n = ground (arith, large) in
      rw (large) (
        value_from-append (decimal_within fuel (n / 10)) 0 (48 + n % 10)
        ∙ ap (λ k. k * 10 + (48 + n % 10 - 48))
            (value_from-decimal fuel (n / 10) (omega (arith, less, ten)))
        ∙ omega arith)
]

IsText-append : (v w : List ℕ) → IsText v → IsText w → IsText (v ++ w)
IsText-append [] w i j = j
IsText-append (c ∷ v) w (low, high, i) j = (low, high, IsText-append v w i j)

IsValue-append : (v w : List ℕ) → IsValue v → IsText w → IsValue (v ++ w)
IsValue-append [] w i j = absurd i
IsValue-append (c ∷ v) w (low, high, i) j = (low, high, IsText-append v w i j)

decimal-IsValue : (fuel n : ℕ) → IsValue (decimal_within fuel n)
decimal-IsValue zero n = (omega arith, omega arith, tt)
decimal-IsValue (suc fuel) n = elim (Bool-cases (ltb n 10)) [
  | inl small ↦
      let less : n < 10 = ground (arith, small) in rw (small) (omega arith, omega (arith, less), tt)
  | inr large ↦ rw (large) (
      IsValue-append (decimal_within fuel (n / 10)) ((48 + n % 10) ∷ [])
        (decimal-IsValue fuel (n / 10)) (omega arith, omega arith, tt))
]

decimals : Prints (value_from 0) decimal
decimals = record {
  value = λ n less. value_from-decimal n n (omega arith);
  digits = λ n. decimal-IsValue n n;
}

-- A greeting with two headers, one with data, and one with neither.
abbrev greeting : PeirosRequest
greeting =
    request (codes "HELO") (codes "shellcode-handling")
      ((codes "Name", codes "x") ∷ (codes "Version", codes "0 1") ∷ []) [] 0

abbrev handing_over : PeirosRequest
handing_over = request (codes "FWRD") [] [] (codes "ab" ++ (13 ∷ 10 ∷ 13 ∷ 10 ∷ [])) 6

abbrev farewell : PeirosRequest
farewell = request (codes "QUIT") [] [] [] 0

abbrev line_end : List ℕ
line_end = 13 ∷ 10 ∷ []

abbrev others : List (List ℕ)
others =
    (codes "dling"
      ++ line_end
      ++ codes "Name: x"
      ++ line_end
      ++ codes "Version: 0 1"
      ++ line_end
      ++ (13 ∷ []))
    ∷ ((10 ∷ [])
        ++ codes "FWRD"
        ++ line_end
        ++ codes "Content-length: 6"
        ++ line_end
        ++ line_end
        ++ codes "a")
    ∷ (codes "b" ++ line_end ++ line_end ++ codes "QUIT" ++ line_end ++ line_end)
    ∷ []

abbrev requests : List PeirosRequest
requests = greeting ∷ handing_over ∷ farewell ∷ []

greeting-IsSound : IsSound decimal greeting
unfolding is_empty resource_part header_lines header_line length_line comes_before str_eq
greeting-IsSound = record {
  some = refl;
  command = omega arith;
  resource = omega arith;
  headers = ground arith;
  sorted = ground arith;
  line_size = omega arith;
  head_size = omega arith;
  data_size = omega arith;
}

handing_over-IsSound : IsSound decimal handing_over
unfolding is_empty resource_part header_lines header_line length_line comes_before str_eq
handing_over-IsSound = record {
  some = refl;
  command = omega arith;
  resource = tt;
  headers = tt;
  sorted = tt;
  line_size = omega arith;
  head_size = omega arith;
  data_size = omega arith;
}

farewell-IsSound : IsSound decimal farewell
unfolding is_empty resource_part header_lines header_line length_line comes_before str_eq
farewell-IsSound = record {
  some = refl;
  command = omega arith;
  resource = tt;
  headers = tt;
  sorted = tt;
  line_size = omega arith;
  head_size = omega arith;
  data_size = omega arith;
}

sound : All (IsSound decimal) requests
sound = (greeting-IsSound, (handing_over-IsSound, (farewell-IsSound, tt)))

conversation-stream : concat (codes "HELO shellcode-han" ∷ others) ≡ stream decimal requests
unfolding render_request resource_part header_lines header_line length_line
conversation-stream = refl

parse_all-received_example :
    (p : PeirosParser) × (parse_all
        (value_from 0)
        (parser [] [] (request [] [] [] [] 0))
        (codes "HELO shellcode-han" ∷ others)
      ≡ done (true, p))
    × (p.requests ≡ received [] requests)
    × (p.in_buffer ≡ [])
parse_all-received_example =
    parse_all-received (value_from 0) decimal decimals requests (codes "HELO shellcode-han") others
      0 sound conversation-stream

parse_data-done_example :
    (p : PeirosParser) × (parse_data
        (value_from 0)
        (parser (codes "HE") [] farewell)
        (codes "LO" ++ line_end ++ line_end)
      ≡ done (not p.malformed, p))
parse_data-done_example =
    parse_data-done (value_from 0) (parser (codes "HE") [] farewell)
      (codes "LO" ++ line_end ++ line_end)

-- The farewell is read with the data of the request before it.
stale_data :
    received [] (handing_over ∷ farewell ∷ [])
    ≡ handing_over ∷ record farewell { appended_data = codes "ab" ++ (13 ∷ 10 ∷ 13 ∷ 10 ∷ []) } ∷ []
stale_data = refl
