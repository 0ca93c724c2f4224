-- ===== src/TftpDialogue/Transfer.antt =====
-- A whole file, whose blocks arrive in any order and any number of times.
use mathlib.Core.List.{append-nil}
use nepenthes.Base.{
  ℕ, suc, ◌+◌, ◌*◌, ◌^◌, ◌≤◌, ◌<◌, ◌≡◌, ◌∙◌, inl, inr, refl, sym, ap, ap₂, subst, arith, ◌==◌, ltb,
  leb, ltb→lt, true, false, Bool-cases, List, [], ◌∷◌, ◌++◌, length, take, get_elem?, All, some,
  done, take-all, All-append,
}
use nepenthes.DownloadBuffer.{DownloadBuffer, Malloc}
use nepenthes.DownloadBuffer.Contents.{IsValid, contents, Succeeds}
use nepenthes.TcpSocket.Stream.{concat}
use nepenthes.TftpDialogue.{TftpDialogue, Effect, Turn, is_over, incoming_data, run}
use nepenthes.TftpDialogue.Steps.{
  data_message, submitted, submitted-append, IsReady, taken, next_block, large_block, other_block,
}
use nepenthes.TftpDialogue.Chunks.{
  IsFile, FromServer, lt_of_get, concat-take, chunk_size, offset_grown, IsLong, All-get,
}

-- The dialogue has stored the blocks that it has counted.
pub record IsReceived (chunks : List (List ℕ)) (d : TftpDialogue) : Type 0 where
  pub ready : IsReady d
  pub stored : d.buffer.offset ≤ d.max_file_size
  pub known : d.blocks ≤ length chunks
  pub holds : contents d.buffer ≡ concat (take d.blocks chunks)

abbrev pub IsWhole : List (List ℕ) → DownloadBuffer → Type 0
IsWhole chunks b = contents b ≡ concat chunks

-- What the turn submits is the file, and it goes on with what was stored so far.
abbrev IsSound : List (List ℕ) → Turn → Type 0
IsSound chunks t =
    All (IsWhole chunks) (submitted t.effects)
    × (All IsLong chunks → submitted t.effects ≡ [])
    × (is_over t ≡ false → IsReceived chunks t.dialogue)

false-true : true ≡ false → ⊥
false-true e = cc

module _ (m : Malloc) (gives : Succeeds m) (chunks : List (List ℕ)) (file : IsFile chunks)
    (small : length chunks < 2 ^ 16) where
  stored_blocks :
      (d : TftpDialogue) (c : List ℕ) (b : DownloadBuffer)
      → IsReceived chunks d
      → get_elem? chunks d.blocks ≡ some c
      → contents b ≡ contents d.buffer ++ c
      → contents b ≡ concat (take (suc d.blocks) chunks)
  stored_blocks d c b r e grown =
      grown ∙ ap (λ (x : List ℕ). x ++ c) r.holds ∙ sym (concat-take chunks d.blocks c e)

  taken-IsSound :
      (d : TftpDialogue) (c : List ℕ) (b : DownloadBuffer) (packet : List ℕ)
      → IsReceived chunks d
      → get_elem? chunks d.blocks ≡ some c
      → d.buffer.offset + length c ≤ d.max_file_size
      → IsValid b
      → contents b ≡ contents d.buffer ++ c
      → 4 ≤ length packet
      → IsSound chunks (taken d c b packet)
  taken-IsSound d c b packet r e fits valid grown len = elim (Bool-cases (ltb (length c) 508)) [
    | inl last ↦
        let end = (chunk_size chunks d.blocks c file e).1 (ground (arith, last)) in
        rw last (
          (
            stored_blocks d c b r e grown
                ∙ ap concat (take-all (suc d.blocks) chunks (omega (arith, end))),
            tt,
          ),
          (λ long.
              absurd (omega (arith, All-get chunks d.blocks c long e, ltb→lt (length c) 508 last))),
          (λ over. absurd (false-true over)),
        )
    | inr more ↦ elim (Bool-cases (ltb (1024 * 1024 * 4) b.offset)) [
      | inl large ↦ rw (more, large) (tt, (λ long. refl), (λ over. absurd (false-true over)))
      | inr small' ↦
          rw (more, small')
            (
              tt,
              (λ long. refl),
              (λ over. record {
                ready = record {
                  valid = valid;
                  packet = len;
                  limit = r.ready.limit;
                  counter = omega (arith, lt_of_get chunks d.blocks c e, small);
                };
                stored = omega (arith, offset_grown d c b r.ready.valid valid grown, fits);
                known = omega (arith, lt_of_get chunks d.blocks c e);
                holds = stored_blocks d c b r e grown;
              }),
            )
    ]
  ]

  next-IsSound :
      (d : TftpDialogue) (c : List ℕ)
      → IsReceived chunks d
      → get_elem? chunks d.blocks ≡ some c
      → (t : Turn) × (incoming_data m d (data_message (suc d.blocks) c) ≡ done t) × IsSound chunks t
  next-IsSound d c r e =
      let number : suc d.blocks < 2 ^ 16 = omega (arith, lt_of_get chunks d.blocks c e, small) in
      elim (Bool-cases (leb (d.buffer.offset + length c) d.max_file_size)) [
        | inl fits ↦
            let fits' : d.buffer.offset + length c ≤ d.max_file_size = ground (arith, fits) in
            let (b, packet, valid, grown, len, runs) =
              next_block m gives d c r.ready number fits' in
            (taken d c b packet, runs, taken-IsSound d c b packet r e fits' valid grown len)
        | inr large ↦
            let (d', runs) =
              large_block m gives d c r.ready number
                (omega (arith, (chunk_size chunks d.blocks c file e).0)) (ground (arith, large))
                r.stored in
            (_, runs, (tt, (λ long. refl), (λ over. absurd (false-true over))))
      ]

  -- Any block of the file, expected or not.
  incoming_data-IsSound :
      (d : TftpDialogue) (i : ℕ) (c : List ℕ)
      → IsReceived chunks d
      → get_elem? chunks i ≡ some c
      → (t : Turn) × (incoming_data m d (data_message (suc i) c) ≡ done t) × IsSound chunks t
  incoming_data-IsSound d i c r e = elim (Bool-cases (i == d.blocks)) [
    | inl here ↦
        let q : d.blocks ≡ i = ground (arith, here) in
        subst
          (λ (k : ℕ).
            (t : Turn) × (incoming_data m d (data_message (suc k) c) ≡ done t) × IsSound chunks t)
          q (next-IsSound d c r (ap (get_elem? chunks) q ∙ e))
    | inr there ↦ (
      _,
      other_block m gives d (suc i) c (omega (arith, lt_of_get chunks i c e, small)) r.ready.counter
          (ground (arith, there)),
      (
        tt,
        (λ long. refl),
        (λ over. record {
          ready = record {
            valid = r.ready.valid;
            packet = r.ready.packet;
            limit = r.ready.limit;
            counter = r.ready.counter;
          };
          stored = r.stored;
          known = r.known;
          holds = r.holds;
        }),
      ),
    )
  ]

  run_sound :
      (msgs : List (List ℕ)) (d : TftpDialogue)
      → IsReceived chunks d
      → All (FromServer chunks) msgs
      → (d' : TftpDialogue) × (fx : List Effect) × (run m d msgs ≡ done (d', fx))
        × All (IsWhole chunks) (submitted fx)
        × (All IsLong chunks → submitted fx ≡ [])
  unfolding run
  run_sound [] d r sent = (d, [], refl, tt, (λ long. refl))
  run_sound (msg ∷ msgs) d r ((i, c, e, same), sent) =
      let (t, runs, (whole, none_, goes_on)) = incoming_data-IsSound d i c r e in
      let runs' = ap (incoming_data m d) same ∙ runs in
      elim (Bool-cases (is_over t)) [
        | inl over ↦ (
          t.dialogue,
          t.effects ++ [],
          rw (runs', over),
          rw (append-nil t.effects) whole,
          rw (append-nil t.effects) none_,
        )
        | inr open_ ↦
            let (d', fx, rest, whole', none') = run_sound msgs t.dialogue (goes_on open_) sent in
            (
              d',
              t.effects ++ fx,
              rw (runs', open_, rest),
              rw (submitted-append t.effects fx)
                  (All-append (IsWhole chunks) (submitted t.effects) (submitted fx) whole whole'),
              (λ long. submitted-append t.effects fx ∙ ap₂ ◌++◌ (none_ long) (none' long)),
            )
      ]

  -- Whatever blocks of its file a server sends, in any order and any number of times: the dialogue
  -- touches no memory but its own, and what it gives to the submit manager is the whole file, byte for
  -- byte. The library gives memory, the file has less than 2^16 blocks and is cut as tftp does it, the
  -- limit of the size is at most 2^31, and the dialogue has stored the blocks that it counts, as a
  -- fresh one has.
  pub run-IsWhole :
      (msgs : List (List ℕ)) (d : TftpDialogue)
      → IsReceived chunks d
      → All (FromServer chunks) msgs
      → (d' : TftpDialogue) × (fx : List Effect) × (run m d msgs ≡ done (d', fx))
        × All (IsWhole chunks) (submitted fx)
  run-IsWhole msgs d r sent =
      let (d', fx, runs, whole, none_) = run_sound msgs d r sent in (d', fx, runs, whole)

  -- A file whose last block has 508 to 511 bytes is not submitted, whatever blocks of it arrive, in any
  -- order and any number of times: the test for the last block counts the four bytes of the header. The
  -- library gives memory, the file has less than 2^16 blocks and is cut as tftp does it, the limit of the
  -- size is at most 2^31, and the dialogue has stored the blocks that it counts, as a fresh one has.
  pub run-IsLong :
      (msgs : List (List ℕ)) (d : TftpDialogue)
      → All IsLong chunks
      → IsReceived chunks d
      → All (FromServer chunks) msgs
      → (d' : TftpDialogue) × (fx : List Effect) × (run m d msgs ≡ done (d', fx))
        × (submitted fx ≡ [])
  run-IsLong msgs d long r sent =
      let (d', fx, runs, whole, none_) = run_sound msgs d r sent in (d', fx, runs, none_ long)
