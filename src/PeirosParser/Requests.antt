-- ===== src/PeirosParser/Requests.antt =====
-- Reading the head of a request that was printed, its headers and the length of its data included.
use mathlib.Core.List.{append_assoc, append-nil}
use nepenthes.Base.{
  ℕ, ◌+◌, ◌^◌, ◌<◌, ◌≡◌, ◌∙◌, refl, sym, ap, ap₂, arith, true, List, [], ◌∷◌, ◌++◌, length,
  length-append, codes, str_eq, All,
}
use nepenthes.PeirosParser.{
  PeirosRequest, Headers, move, in_status, is_print, is_space, seek_header, store_header,
  read_headers, header_line, header_lines, length_line,
}
use nepenthes.PeirosParser.Heads.{IsValue, HasNoColon, request}
use nepenthes.PeirosParser.HeaderLines.{IsHeader, reading, read_header-line}
use nepenthes.PeirosParser.Maps.{IsSorted, put-append}

-- What is relied on: %u prints digits that atoi() reads back.
pub record Prints (atoi : List ℕ → ℕ) (print : ℕ → List ℕ) : Type 0 where
  pub value : (n : ℕ) → n < 2 ^ 31 → atoi (print n) ≡ n
  pub digits : (n : ℕ) → IsValue (print n)

module _ (atoi : List ℕ → ℕ) (print : ℕ → List ℕ) (laws : Prints atoi print) where
  store_header-put :
      (name value command resource data' : List ℕ) (before : Headers) (n : ℕ)
      → IsSorted before ((name, value) ∷ [])
      → store_header atoi name value (request command resource before data' n)
        ≡ request command resource (before ++ ((name, value) ∷ [])) data' n
  unfolding store_header
  store_header-put name value command resource data' before n (other, all, _) =
      rw (other) (ap (λ x. request command resource x data' n) (put-append before name value all))

  store_header-length :
      (q : PeirosRequest) (value : List ℕ)
      → store_header atoi (codes "Content-length") value q
        ≡ record q { appended_length = atoi value }
  unfolding store_header str_eq
  store_header-length q value = refl

  pub read_header-lines :
      (headers before : Headers) (command resource data' h v text : List ℕ) (n m : ℕ)
      → All IsHeader headers
      → IsSorted before headers
      → m + length (header_lines headers) < 2 ^ 16
      → (h' : List ℕ) × (v' : List ℕ) × (read_headers atoi
            (reading seek_header h v (request command resource before data' n))
            m
            (header_lines headers ++ text)
          ≡ read_headers atoi
              (reading seek_header h' v' (request command resource (before ++ headers) data' n))
              (m + length (header_lines headers))
              text)
  unfolding header_lines
  read_header-lines [] before command resource data' h v text n m i s less = (
    h,
    v,
    ap₂
        (λ x k.
          read_headers atoi (reading seek_header h v (request command resource x data' n)) k text)
        (sym (append-nil before)) (omega arith),
  )
  read_header-lines (x ∷ headers) before command resource data' h v text n m (i, is) (other, all, s)
        less =
      let line = header_line x in
      let q = request command resource before data' n in
      let size = length-append line (header_lines headers) in
      let (h', v', e) =
        read_header-lines headers (before ++ (x ∷ [])) command resource data' x.0 x.1 text n
          (m + length line) is s (omega (arith, less, size)) in
      (
        h',
        v',
        ap (read_headers atoi (reading seek_header h v q) m)
              (append_assoc line (header_lines headers) text)
            ∙ read_header-line atoi x.0 x.1 (header_lines headers ++ text) h v q m i
                (omega (arith, less, size))
            ∙ ap
                (λ y.
                  read_headers atoi (reading seek_header x.0 x.1 y) (m + length line)
                    (header_lines headers ++ text))
                (store_header-put x.0 x.1 command resource data' before n (other, all, tt))
            ∙ e
            ∙ ap₂
                (λ y k.
                  read_headers atoi (reading seek_header h' v' (request command resource y data' n))
                    k text)
                (append_assoc before (x ∷ []) headers) (omega (arith, size)),
      )

  pub read_length-line :
      (dat h v text command resource stale : List ℕ) (headers : Headers) (m : ℕ)
      → length dat < 2 ^ 31
      → m + length (length_line print dat) < 2 ^ 16
      → (h' : List ℕ) × (v' : List ℕ) × (read_headers atoi
            (reading seek_header h v (request command resource headers stale 0))
            m
            (length_line print dat ++ text)
          ≡ read_headers atoi
              (reading seek_header h' v' (request command resource headers stale (length dat)))
              (m + length (length_line print dat))
              text)
  unfolding length_line
  read_length-line [] h v text command resource stale headers m small less = (
    h,
    v,
    ap
        (λ k.
          read_headers atoi (reading seek_header h v (request command resource headers stale 0)) k
            text)
        (omega arith),
  )
  read_length-line (c ∷ dat) h v text command resource stale headers m small less =
      let n = length (c ∷ dat) in
      let name = codes "Content-length" in
      let q = request command resource headers stale 0 in
      (
        name,
        print n,
        read_header-line atoi name (print n) text h v q m (length_name, no_colon, laws.digits n)
              less
            ∙ ap
                (λ y.
                  read_headers atoi (reading seek_header name (print n) y)
                    (m + length (header_line (name, print n))) text)
                (store_header-length q (print n)
                  ∙ ap (request command resource headers stale) (laws.value n small)),
      )
    where
      length_name : IsValue (codes "Content-length")
      length_name = omega arith

      no_colon : HasNoColon (codes "Content-length")
      no_colon = ground arith

  pub read_headers-end :
      (q : PeirosRequest) (h v text : List ℕ) (m : ℕ)
      → m + 1 < 2 ^ 16
      → read_headers atoi (reading seek_header h v q) m (13 ∷ text) ≡ (true, q, m + 1)
  unfolding read_headers move in_status is_print is_space
  read_headers-end q h v text m less = ap (λ k. (true, q, k)) (omega (arith, less))
