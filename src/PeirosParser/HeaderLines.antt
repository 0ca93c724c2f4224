-- ===== src/PeirosParser/HeaderLines.antt =====
-- Reading the headers of a request that was printed.
use mathlib.Core.List.{append_assoc, append-nil}
use nepenthes.Base.{
  ℕ, ◌+◌, ◌^◌, ◌<◌, ◌≤◌, ◌≡◌, ◌∙◌, refl, sym, ap, ap₂, arith, ◌==◌, leb, true, false, ◌&&◌, List,
  [], ◌∷◌, ◌++◌, length, length-append,
}
use nepenthes.PeirosParser.{
  PeirosRequest, is_print, is_space, Status, seek_header, read_header, seek_val, read_val,
  seek_newline, Reading, go_on, store_header, in_status, move, read_headers, header_line,
}
use nepenthes.PeirosParser.Heads.{IsText, IsValue, HasNoColon}

abbrev pub reading : Status → List ℕ → List ℕ → PeirosRequest → Reading
reading st h v q = record { status = st; header = h; value = v; request = q }

-- A header that is printed so that it can be read.
abbrev pub IsHeader : List ℕ × List ℕ → Type 0
IsHeader h = IsValue h.0 × HasNoColon h.0 × IsValue h.1

module _ (atoi : List ℕ → ℕ) where
  read_headers-on :
      (r r' : Reading) (n c : ℕ) (text : List ℕ)
      → move atoi r c ≡ go_on r'
      → n + 1 < 2 ^ 16
      → read_headers atoi r n (c ∷ text) ≡ read_headers atoi r' (n + 1) text
  unfolding read_headers
  read_headers-on r r' n c text e less =
      rw (e, read_headers) (ap (λ k. read_headers atoi r' k text) (omega (arith, less)))

  move_printed :
      (r : Reading) (c : ℕ) → 32 ≤ c → c ≤ 126 → move atoi r c ≡ in_status atoi r.status r c
  unfolding move is_print
  move_printed r c low high = let e : (leb 32 c && leb c 126) ≡ true = ground arith in rw (e)

  not_space : (c : ℕ) → 33 ≤ c → is_space c ≡ false
  unfolding is_space
  not_space c low = ground arith

  read_header-char :
      (h v : List ℕ) (q : PeirosRequest) (c : ℕ)
      → 32 ≤ c
      → c ≤ 126
      → (c == 58) ≡ false
      → move atoi (reading read_header h v q) c ≡ go_on (reading read_header (h ++ (c ∷ [])) v q)
  unfolding in_status
  read_header-char h v q c low high other =
      move_printed (reading read_header h v q) c low high ∙ rw (other)

  read_val-char :
      (h v : List ℕ) (q : PeirosRequest) (c : ℕ)
      → 32 ≤ c
      → c ≤ 126
      → move atoi (reading read_val h v q) c ≡ go_on (reading read_val h (v ++ (c ∷ [])) q)
  unfolding in_status
  read_val-char h v q c low high =
      let other : (c == 13) ≡ false = ground arith in
      move_printed (reading read_val h v q) c low high ∙ rw (other)

  first_char :
      (h v : List ℕ) (q : PeirosRequest) (c : ℕ)
      → 33 ≤ c
      → c ≤ 126
      → move atoi (reading seek_header h v q) c ≡ go_on (reading read_header (c ∷ []) v q)
  unfolding in_status
  first_char h v q c low high =
      let other : (c == 13) ≡ false = ground arith in
      move_printed (reading seek_header h v q) c (omega arith) high ∙ rw (other, not_space c low)

  first_value :
      (h v : List ℕ) (q : PeirosRequest) (c : ℕ)
      → 33 ≤ c
      → c ≤ 126
      → move atoi (reading seek_val h v q) c ≡ go_on (reading read_val h (c ∷ []) q)
  unfolding in_status
  first_value h v q c low high =
      move_printed (reading seek_val h v q) c (omega arith) high ∙ rw (not_space c low)

  -- The characters of a name, and those of a value.
  name_chars :
      (w text h v : List ℕ) (q : PeirosRequest) (n : ℕ)
      → IsText w
      → HasNoColon w
      → n + length w < 2 ^ 16
      → read_headers atoi (reading read_header h v q) n (w ++ text)
        ≡ read_headers atoi (reading read_header (h ++ w) v q) (n + length w) text
  name_chars [] text h v q n i j less =
      ap₂ (λ x k. read_headers atoi (reading read_header x v q) k text) (sym (append-nil h))
        (omega arith)
  name_chars (c ∷ w) text h v q n (low, high, i) (other, j) less =
      read_headers-on (reading read_header h v q) (reading read_header (h ++ (c ∷ [])) v q) n c
        (w ++ text) (read_header-char h v q c low high other) (omega (arith, less))
      ∙ name_chars w text (h ++ (c ∷ [])) v q (n + 1) i j (omega (arith, less))
      ∙ ap₂ (λ x k. read_headers atoi (reading read_header x v q) k text)
          (append_assoc h (c ∷ []) w) (omega arith)

  value_chars :
      (w text h v : List ℕ) (q : PeirosRequest) (n : ℕ)
      → IsText w
      → n + length w < 2 ^ 16
      → read_headers atoi (reading read_val h v q) n (w ++ text)
        ≡ read_headers atoi (reading read_val h (v ++ w) q) (n + length w) text
  value_chars [] text h v q n i less =
      ap₂ (λ x k. read_headers atoi (reading read_val h x q) k text) (sym (append-nil v))
        (omega arith)
  value_chars (c ∷ w) text h v q n (low, high, i) less =
      read_headers-on (reading read_val h v q) (reading read_val h (v ++ (c ∷ [])) q) n c
        (w ++ text) (read_val-char h v q c low high) (omega (arith, less))
      ∙ value_chars w text h (v ++ (c ∷ [])) q (n + 1) i (omega (arith, less))
      ∙ ap₂ (λ x k. read_headers atoi (reading read_val h x q) k text) (append_assoc v (c ∷ []) w)
          (omega arith)

  fixed_chars :
      (h v : List ℕ) (q : PeirosRequest)
      → (move atoi (reading read_header h v q) 58 ≡ go_on (reading seek_val h v q))
        × (move atoi (reading seek_val h v q) 32 ≡ go_on (reading seek_val h v q))
        × (move atoi (reading read_val h v q) 13 ≡ go_on (reading seek_newline h v q))
        × (move atoi (reading seek_newline h v q) 10
            ≡ go_on (reading seek_header h v (store_header atoi h v q)))
  unfolding move in_status is_print is_space
  fixed_chars h v q = (refl, refl, refl, refl)

  -- What is behind the name.
  read_rest :
      (d : ℕ) (value text h v : List ℕ) (q : PeirosRequest) (n : ℕ)
      → 33 ≤ d
      → d ≤ 126
      → IsText value
      → n + length value + 5 < 2 ^ 16
      → read_headers atoi (reading read_header h v q) n (58 ∷ 32 ∷ d ∷ (value ++ (13 ∷ 10 ∷ text)))
        ≡ read_headers atoi
            (reading seek_header h (d ∷ value) (store_header atoi h (d ∷ value) q))
            (n + length value + 5)
            text
  read_rest d value text h v q n low high i less =
      let (colon, _, _, _) = fixed_chars h v q in
      let (_, blank, _, _) = fixed_chars h v q in
      let (_, _, cr, lf) = fixed_chars h (d ∷ value) q in
      let k = n + 1 + 1 + 1 + length value in
      let behind = value ++ (13 ∷ 10 ∷ text) in
      read_headers-on (reading read_header h v q) (reading seek_val h v q) n 58 (32 ∷ d ∷ behind)
        colon (omega (arith, less))
      ∙ read_headers-on (reading seek_val h v q) (reading seek_val h v q) (n + 1) 32 (d ∷ behind)
          blank (omega (arith, less))
      ∙ read_headers-on (reading seek_val h v q) (reading read_val h (d ∷ []) q) (n + 1 + 1) d
          behind (first_value h v q d low high) (omega (arith, less))
      ∙ value_chars value (13 ∷ 10 ∷ text) h (d ∷ []) q (n + 1 + 1 + 1) i (omega (arith, less))
      ∙ read_headers-on (reading read_val h (d ∷ value) q) (reading seek_newline h (d ∷ value) q) k
          13 (10 ∷ text) cr (omega (arith, less))
      ∙ read_headers-on (reading seek_newline h (d ∷ value) q)
          (reading seek_header h (d ∷ value) (store_header atoi h (d ∷ value) q)) (k + 1) 10 text lf
          (omega (arith, less))
      ∙ ap
          (λ m.
            read_headers atoi
              (reading seek_header h (d ∷ value) (store_header atoi h (d ∷ value) q)) m text)
          (omega arith)

  pub read_header-line :
      (name value text h v : List ℕ) (q : PeirosRequest) (n : ℕ)
      → IsHeader (name, value)
      → n + length (header_line (name, value)) < 2 ^ 16
      → read_headers atoi (reading seek_header h v q) n (header_line (name, value) ++ text)
        ≡ read_headers atoi
            (reading seek_header name value (store_header atoi name value q))
            (n + length (header_line (name, value)))
            text
  unfolding header_line
  read_header-line [] value text h v q n i less = absurd i.0
  read_header-line (c ∷ name) [] text h v q n i less = absurd i.2
  read_header-line (c ∷ name) (d ∷ value) text h v q n
        ((low, high, i), (other, j), (low', high', k)) less =
      let size : length (header_line (c ∷ name, d ∷ value)) ≡ length name + length value + 6 =
        omega (
          arith,
          length-append name (58 ∷ 32 ∷ d ∷ (value ++ (13 ∷ 10 ∷ []))),
          length-append value (13 ∷ 10 ∷ []),
        ) in
      let q' = store_header atoi (c ∷ name) (d ∷ value) q in
      let behind = 58 ∷ 32 ∷ d ∷ (value ++ (13 ∷ 10 ∷ text)) in
      ap (λ x. read_headers atoi (reading seek_header h v q) n (c ∷ x))
        (append_assoc name (58 ∷ 32 ∷ d ∷ (value ++ (13 ∷ 10 ∷ []))) text
          ∙ ap (λ x. name ++ (58 ∷ 32 ∷ d ∷ x)) (append_assoc value (13 ∷ 10 ∷ []) text))
      ∙ read_headers-on (reading seek_header h v q) (reading read_header (c ∷ []) v q) n c
          (name ++ behind) (first_char h v q c low high) (omega (arith, less, size))
      ∙ name_chars name behind (c ∷ []) v q (n + 1) i j (omega (arith, less, size))
      ∙ read_rest d value text (c ∷ name) v q (n + 1 + length name) low' high' k
          (omega (arith, less, size))
      ∙ ap (λ m. read_headers atoi (reading seek_header (c ∷ name) (d ∷ value) q') m text)
          (omega (arith, size))
