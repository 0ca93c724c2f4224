-- ===== src/PeirosParser/Termination.antt =====
-- The loop of parseData ends.
use nepenthes.Base.{
  ℕ, zero, suc, ◌+◌, ◌-◌, ◌*◌, ◌<◌, ◌≤◌, ◌≡◌, ◌∙◌, refl, arith, ◌==◌, ltb, if◌then◌else◌,
  Bool-cases, inl, inr, Bool, true, false, List, [], ◌∷◌, ◌++◌, length, not, drop, length-drop,
  starts_with, done,
}
use nepenthes.PeirosParser.{
  PeirosParser, PeirosRequest, is_empty, read_command, parse_command, behind_headers, parse_headers,
  read_headers, seek_header, parse_head, parse_body, behind_head, parse_request, parse_loop,
  parse_data, has_blank_line,
}

-- What the loop uses up: the text, and the command that a request has left.
abbrev pub weight : PeirosParser → ℕ
weight p = 2 * length p.in_buffer + (if is_empty p.current.command then 0 else 1)

-- A call that says that it goes on has used something up.
abbrev pub Shrinks : ℕ → Bool × PeirosParser → Type 0
Shrinks n (more, p) = more ≡ true → weight p < n

-- A call that reads no more than its buffer.
abbrev pub Reads : ℕ → Bool × PeirosParser → Type 0
Reads n (ok, p) = ok ≡ true → length p.in_buffer < n

starts_with-some : (c : ℕ) (s : List ℕ) → starts_with (c ∷ []) s ≡ true → 0 < length s
unfolding starts_with
starts_with-some c [] e = cc
starts_with-some c (d ∷ s) e = omega arith

parse_command-Reads :
    (p : PeirosParser)
    → (parse_command p).0 ≡ true
    → length (parse_command p).1.in_buffer ≤ length p.in_buffer - 2
unfolding parse_command
parse_command-Reads p e =
    let l =
      read_command false (record { ok = true; command = []; resource = []; count = 0 })
        p.in_buffer in
    rw (e) (omega (arith, length-drop (l.count + 2) p.in_buffer))

behind_headers-Reads :
    (p : PeirosParser) (h : Bool × PeirosRequest × ℕ)
    → (behind_headers p h).0 ≡ true
    → length (behind_headers p h).1.in_buffer < length p.in_buffer
unfolding behind_headers
behind_headers-Reads p (false, q, n) e = cc
behind_headers-Reads p (true, q, n) e =
    elim (Bool-cases (starts_with (10 ∷ []) (drop n p.in_buffer))) [
      | inl is ↦
          let some = starts_with-some 10 (drop n p.in_buffer) is in
          rw (is)
            (omega (arith, some, length-drop 1 (drop n p.in_buffer), length-drop n p.in_buffer))
      | inr other ↦ let bad : false ≡ true = rw (other) at e in cc
    ]

parse_body-Shrinks : (p : PeirosParser) → Shrinks (2 * length p.in_buffer + 1) (parse_body p)
unfolding parse_body is_empty
parse_body-Shrinks p more = elim (Bool-cases (p.current.appended_length == 0)) [
  | inl none_appended ↦ rw (none_appended) (omega arith)
  | inr some_appended ↦ elim (Bool-cases (ltb (length p.in_buffer) p.current.appended_length)) [
    | inl short ↦ let bad : false ≡ true = rw (some_appended, short) at more in cc
    | inr enough ↦
        rw (some_appended, enough)
          (omega (arith, length-drop p.current.appended_length p.in_buffer))
  ]
]

pub flag : (b : Bool) → (if b then 0 else 1) ≤ 1
flag true = omega arith
flag false = omega arith

module _ (atoi : List ℕ → ℕ) where
  parse_headers-Reads :
      (p : PeirosParser)
      → (parse_headers atoi p).0 ≡ true
      → length (parse_headers atoi p).1.in_buffer < length p.in_buffer
  unfolding parse_headers
  parse_headers-Reads p e =
      behind_headers-Reads p
        (read_headers atoi
          (record { status = seek_header; header = []; value = []; request = p.current }) 0
          p.in_buffer)
        e

  parse_head-Reads :
      (p : PeirosParser)
      → (parse_head atoi p).0 ≡ true
      → length (parse_head atoi p).1.in_buffer + 2 < length p.in_buffer
  unfolding parse_head
  parse_head-Reads p e =
      let start = record p { current = record p.current { appended_length = 0 } } in
      elim (Bool-cases (parse_command start).0) [
        | inl ok ↦
            let e' : (parse_headers atoi (parse_command start).1).0 ≡ true = rw (ok) at e in
            rw (ok) (
              omega (
                arith,
                parse_command-Reads start ok,
                parse_headers-Reads (parse_command start).1 e',
              ))
        | inr other ↦ let bad : false ≡ true = rw (other) at e in cc
      ]

  behind_head-Shrinks :
      (n : ℕ) (h : Bool × PeirosParser)
      → (h.0 ≡ true → length h.1.in_buffer + 2 < n)
      → Shrinks (2 * n) (behind_head atoi h)
  unfolding behind_head
  behind_head-Shrinks n (false, p) reads more = cc
  behind_head-Shrinks n (true, p) reads more = elim (Bool-cases (p.current.appended_length == 0)) [
    | inl none_appended ↦
        rw (none_appended) (omega (arith, reads refl, flag (is_empty p.current.command)))
    | inr some_appended ↦
        let more' : (parse_body p).0 ≡ true = rw (some_appended) at more in
        rw (some_appended) (omega (arith, reads refl, parse_body-Shrinks p more'))
  ]

  pub parse_request-Shrinks : (p : PeirosParser) → Shrinks (weight p) (parse_request atoi p)
  unfolding parse_request
  parse_request-Shrinks p more = elim (Bool-cases (is_empty p.current.command)) [
    | inl new ↦ elim (Bool-cases (has_blank_line p.in_buffer)) [
      | inl found ↦
          rw (new, found)
            (omega (
              arith,
              behind_head-Shrinks (length p.in_buffer) (parse_head atoi p) (parse_head-Reads p)
                  (rw (new, found) at more),
            ))
      | inr missing ↦ let bad : false ≡ true = rw (new, missing) at more in cc
    ]
    | inr under_way ↦ rw (under_way) (omega (arith, parse_body-Shrinks p (rw (under_way) at more)))
  ]

  loop_malformed :
      (fuel : ℕ) (p : PeirosParser) → p.malformed ≡ true → parse_loop atoi (suc fuel) p ≡ done p
  unfolding parse_loop
  loop_malformed fuel p e = simp (e, parse_loop)

  pub loop_on :
      (fuel : ℕ) (p : PeirosParser)
      → p.malformed ≡ false
      → (parse_request atoi p).0 ≡ true
      → parse_loop atoi (suc fuel) p ≡ parse_loop atoi fuel (parse_request atoi p).1
  unfolding parse_loop
  loop_on fuel p e e' = simp (e, e', parse_loop)

  pub loop_stop :
      (fuel : ℕ) (p : PeirosParser)
      → p.malformed ≡ false
      → (parse_request atoi p).0 ≡ false
      → parse_loop atoi (suc fuel) p ≡ done (parse_request atoi p).1
  unfolding parse_loop
  loop_stop fuel p e e' = simp (e, e', parse_loop)

  -- With as much fuel as the weight and one round, the loop ends.
  pub parse_loop-done :
      (fuel : ℕ) (p : PeirosParser)
      → weight p < fuel
      → (p' : PeirosParser) × (parse_loop atoi fuel p ≡ done p')
  parse_loop-done zero p less = absurd (omega arith)
  parse_loop-done (suc fuel) p less = elim (Bool-cases p.malformed) [
    | inl bad ↦ (p, loop_malformed fuel p bad)
    | inr good ↦ elim (Bool-cases (parse_request atoi p).0) [
      | inl more ↦
          let (p', e) =
            parse_loop-done fuel (parse_request atoi p).1
              (omega (arith, parse_request-Shrinks p more)) in
          (p', loop_on fuel p good more ∙ e)
      | inr stop ↦ ((parse_request atoi p).1, loop_stop fuel p good stop)
    ]
  ]

  -- parseData always returns: the rounds that its loop has are enough, whatever the data, and whatever
  -- the buffer and the request that was begun are.
  pub parse_data-done :
      (p : PeirosParser) (data' : List ℕ)
      → (p' : PeirosParser) × (parse_data atoi p data' ≡ done (not p'.malformed, p'))
  unfolding parse_data
  parse_data-done p data' =
      let buffer = p.in_buffer ++ data' in
      let q = record p { in_buffer = buffer; malformed = false } in
      let (p', e) =
        parse_loop-done (2 * length buffer + 2) q
          (omega (arith, flag (is_empty p.current.command))) in
      (p', rw (e))
