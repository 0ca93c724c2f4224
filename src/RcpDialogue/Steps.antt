-- ===== src/RcpDialogue/Steps.antt =====
-- One turn of an rcp dialogue, for each message that the server sends.
use nepenthes.Base.{
  take-append-more, ℕ, zero, suc, ◌+◌, ◌-◌, ◌*◌, ◌%◌, ◌^◌, ◌≤◌, ◌<◌, ◌≡◌, ◌∙◌, refl, sym, ap, arith,
  ltb, leb, true, false, List, [], ◌∷◌, ◌++◌, length, take, drop, take-append-le, take-append-drop,
  length-take, length-append, All, some, none, done, fault, Realloc,
}
use nepenthes.Buffer.{Buffer, reset, add}
use nepenthes.Buffer.Contents.{reset-IsValid, add-contents}
use nepenthes.Buffer.Refinement
use nepenthes.DownloadBuffer.{DownloadBuffer, Malloc}
use nepenthes.DownloadBuffer.Contents.{IsValid, contents, Succeeds, add_data-contents}
use nepenthes.TcpSocket.{cl_assign}
use nepenthes.TftpDialogue.Chunks.{length-contents}
use nepenthes.RcpDialogue.{
  RcpDialogue, RcpState, request, file_stats, file, Effect, write, submit, Turn, is_zero,
  request_answer, stats, last_bytes, more_bytes, file_data, incoming_data, run, handle_timeout,
}
use nepenthes.RcpDialogue.Stats.{IsBlank, IsDigit, line, file_size-line}

take_behind :
    (n : ℕ) (xs ys : List ℕ) → length xs ≤ n → take n (xs ++ ys) ≡ xs ++ take (n - length xs) ys
take_behind n [] ys p = ap (λ (k : ℕ). take k ys) (omega arith)
take_behind zero (x ∷ xs) ys p = absurd (omega (arith, p))
take_behind (suc n) (x ∷ xs) ys p =
    ap (◌∷◌ x)
      (take_behind n xs ys (omega (arith, p)) ∙ ap (λ (k : ℕ). xs ++ take k ys) (omega arith))

-- The expected bytes end within the message.
pub take_last :
    (n k : ℕ) (xs msg rest : List ℕ)
    → length xs ≡ k
    → k ≤ n
    → n ≤ k + length msg
    → xs ++ take (n - k) msg ≡ take n (xs ++ (msg ++ rest))
take_last n k xs msg rest e p q =
    ap (λ (y : List ℕ). xs ++ y) (sym (take-append-le (n - k) msg rest (omega (arith, q))))
    ∙ sym (take-append-more n (n - k) xs (msg ++ rest) (omega (arith, e, p)))

abbrev pub answered : RcpDialogue → List Effect → Turn
answered d fx = record { dialogue = d; effects = fx; level = cl_assign }

-- A dialogue that waits for the answer to its request, or for the line about the file.
abbrev pub waiting : RcpState → ℕ → DownloadBuffer → RcpDialogue
waiting state size down = record {
  state = state;
  buffer = reset;
  expected_file_size = size;
  download = some down;
}

-- The dialogue while it receives the file, and when it has submitted it.
abbrev pub receiving : Buffer → ℕ → DownloadBuffer → RcpDialogue
receiving b size down = record {
  state = file;
  buffer = b;
  expected_file_size = size;
  download = some down;
}

abbrev pub finished : Buffer → ℕ → RcpDialogue
finished b size = record { state = file; buffer = b; expected_file_size = size; download = none }

-- What a first message leaves in the buffer.
first_message :
    (r : Realloc) (d : List ℕ)
    → length d ≤ 2 ^ 31
    → (b : Buffer) × (rest : List ℕ) × (add r reset d ≡ done b)
      × (b.offset ≡ length d)
      × (b.bytes ≡ d ++ rest)
unfolding reset
first_message r d fits =
    let (b, runs, v, same) = add-contents r reset d reset-IsValid (omega (arith, fits)) in
    (
      b,
      drop b.offset b.bytes,
      runs,
      sym (Refinement.length-contents b v) ∙ ap length same,
      sym (take-append-drop b.offset b.bytes)
          ∙ ap (λ (x : List ℕ). x ++ drop b.offset b.bytes) same,
    )

pub timeout_over : (d : RcpDialogue) → d.download ≡ none → handle_timeout d ≡ fault
unfolding handle_timeout
timeout_over d e = rw (e)

module _ (r : Realloc) (m : Malloc) (atoi : List ℕ → ℕ) where
  pub run_step :
      (d d' d'' : RcpDialogue) (msg : List ℕ) (msgs : List (List ℕ)) (fx fx' : List Effect)
      → incoming_data r m atoi d msg ≡ done (answered d' fx)
      → run r m atoi d' msgs ≡ done (d'', fx')
      → run r m atoi d (msg ∷ msgs) ≡ done (d'', fx ++ fx')
  unfolding run
  run_step d d' d'' msg msgs fx fx' e e' = rw (e, e')

  -- A finished dialogue does nothing more.
  pub run_finished :
      (msgs : List (List ℕ)) (b : Buffer) (size : ℕ)
      → run r m atoi (finished b size) msgs ≡ done (finished b size, [])
  unfolding run incoming_data
  run_finished [] b size = refl
  run_finished (msg ∷ msgs) b size = rw (run_finished msgs b size)

  pub last_step :
      (gives : Succeeds m) (b : Buffer) (size : ℕ) (down : DownloadBuffer) (msg : List ℕ)
      → IsValid down
      → down.offset < size
      → size ≤ 2 ^ 31
      → size ≤ down.offset + length msg
      → down.offset + length msg < 2 ^ 32
      → (down' : DownloadBuffer) × (incoming_data r m atoi (receiving b size down) msg
          ≡ done (answered (finished b size) (submit down' ∷ [])))
        × (contents down' ≡ contents down ++ take (size - down.offset) msg)
  unfolding incoming_data file_data last_bytes
  last_step gives b size down msg v open_ limit enough wide =
      let count = size - down.offset in
      let (down', runs, v', same) =
        add_data-contents m down (take count msg) gives v
          (omega (arith, length-take count msg, limit, open_)) in
      (down', rw (reached, counted, fits, runs), same)
    where
      reached : leb size ((down.offset + length msg) % 2 ^ 32) ≡ true
      reached = ground (arith, enough, wide)

      counted : (size + 2 ^ 32 - down.offset) % 2 ^ 32 ≡ size - down.offset
      counted = omega (arith, open_, limit)

      fits : ltb (length msg) (size - down.offset) ≡ false
      fits = ground (arith, enough)

  pub more_step :
      (gives : Succeeds m) (b : Buffer) (size : ℕ) (down : DownloadBuffer) (msg : List ℕ)
      → IsValid down
      → size ≤ 1024 * 1024 * 4
      → down.offset + length msg < size
      → (down' : DownloadBuffer) × (incoming_data r m atoi (receiving b size down) msg
          ≡ done (answered (receiving b size down') []))
        × IsValid down'
        × (contents down' ≡ contents down ++ msg)
        × (down'.offset ≡ down.offset + length msg)
  unfolding incoming_data file_data more_bytes
  more_step gives b size down msg v limit open_ =
      let (down', runs, v', same) =
        add_data-contents m down msg gives v (omega (arith, limit, open_)) in
      let moved : down'.offset ≡ down.offset + length msg =
        sym (length-contents down' v')
        ∙ ap length same
        ∙ length-append (contents down) msg
        ∙ ap (λ (n : ℕ). n + length msg) (length-contents down v) in
      (
        down',
        rw (not_reached, runs, small down'.offset (omega (arith, moved, open_, limit))),
        v',
        same,
        moved,
      )
    where
      not_reached : leb size ((down.offset + length msg) % 2 ^ 32) ≡ false
      not_reached = ground (arith, open_, limit)

      small : (n : ℕ) → n ≤ 1024 * 1024 * 4 → ltb (1024 * 1024 * 4) n ≡ false
      small n h = ground (arith, h)

  pub request_step :
      (size : ℕ) (down : DownloadBuffer)
      → incoming_data r m atoi (waiting request size down) (0 ∷ [])
        ≡ done (answered (waiting file_stats size down) (write (0 ∷ []) ∷ []))
  unfolding incoming_data request_answer is_zero
  request_step size down =
      let (b, rest, runs, one, bytes) = first_message r (0 ∷ []) (omega arith) in
      rw (runs, one, bytes)

  pub stats_step :
      (size : ℕ) (down : DownloadBuffer) (mode ds name : List ℕ)
      → All IsBlank mode
      → All IsDigit ds
      → 0 < length ds
      → length (line mode ds name) ≤ 2 ^ 31
      → incoming_data r m atoi (waiting file_stats size down) (line mode ds name)
        ≡ done (answered (receiving reset (atoi ds) down) (write (0 ∷ []) ∷ []))
  unfolding incoming_data stats
  stats_step size down mode ds name h h' p short_line =
      let (b, rest, runs, size', bytes) = first_message r (line mode ds name) short_line in
      rw (runs, size', bytes, file_size-line mode ds name rest h h' p)
