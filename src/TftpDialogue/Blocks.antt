-- ===== src/TftpDialogue/Blocks.antt =====
-- A file whose blocks arrive in their order.
use mathlib.Core.List.{append-nil, append_assoc}
use nepenthes.Base.{
  ℕ, suc, ◌+◌, ◌*◌, ◌^◌, ◌≤◌, ◌<◌, ◌≡◌, ◌∙◌, refl, sym, ap, ap₂, arith, ltb, true, false, List, [],
  ◌∷◌, ◌++◌, length, length-append, done,
}
use nepenthes.DownloadBuffer.{DownloadBuffer, Malloc}
use nepenthes.DownloadBuffer.Contents.{contents, Succeeds}
use nepenthes.TcpSocket.Stream.{concat}
use nepenthes.TftpDialogue.{TftpDialogue, Effect, Turn, incoming_data, is_over, run}
use nepenthes.TftpDialogue.Steps.{
  data_message, submitted, submitted-append, IsReady, taken, next_block,
}
use nepenthes.TftpDialogue.Chunks.{offset_grown}

-- The messages of the blocks, after the k-th.
abbrev pub messages : ℕ → List (List ℕ) → List (List ℕ)
messages k [] = []
messages k (c ∷ chunks) = data_message (suc k) c ∷ messages (suc k) chunks

-- Blocks of 512 bytes, and one of less than 508 at the end.
abbrev pub IsShortFile : List (List ℕ) → Type 0
IsShortFile [] = ⊥
IsShortFile (c ∷ []) = length c < 508
IsShortFile (c ∷ c' ∷ chunks) = (length c ≡ 512) × IsShortFile (c' ∷ chunks)

-- One file is submitted, and it is the old contents with these bytes behind it.
abbrev pub Submits : Malloc → TftpDialogue → List (List ℕ) → List ℕ → Type 0
Submits m d msgs file =
    (d' : TftpDialogue) × (fx : List Effect) × (b : DownloadBuffer) × (run m d msgs ≡ done (d', fx))
    × (submitted fx ≡ b ∷ [])
    × (contents b ≡ file)

taken-short :
    (d : TftpDialogue) (c : List ℕ) (b : DownloadBuffer) (packet : List ℕ)
    → ltb (length c) 508 ≡ true
    → (is_over (taken d c b packet) ≡ true) × (submitted (taken d c b packet).effects ≡ b ∷ [])
taken-short d c b packet e = rw e (refl, refl)

-- The dialogue behind a block that is not the last.
abbrev stored : TftpDialogue → DownloadBuffer → List ℕ → TftpDialogue
stored d b packet = record d {
  retries = 0;
  last_send = packet;
  last_send_length = 4;
  blocks = suc d.blocks;
  buffer = b;
}

taken-long :
    (d : TftpDialogue) (c : List ℕ) (b : DownloadBuffer) (packet : List ℕ)
    → ltb (length c) 508 ≡ false
    → ltb (1024 * 1024 * 4) b.offset ≡ false
    → (is_over (taken d c b packet) ≡ false)
      × (submitted (taken d c b packet).effects ≡ [])
      × ((taken d c b packet).dialogue ≡ stored d b packet)
taken-long d c b packet e e' = rw (e, e') (refl, refl, refl)

module _ (m : Malloc) (gives : Succeeds m) where
  run-over :
      (d : TftpDialogue) (msg : List ℕ) (msgs : List (List ℕ)) (t : Turn)
      → incoming_data m d msg ≡ done t
      → is_over t ≡ true
      → run m d (msg ∷ msgs) ≡ done (t.dialogue, t.effects ++ [])
  unfolding run
  run-over d msg msgs t runs over = rw (runs, over)

  run-on :
      (d d' d'' : TftpDialogue) (msg : List ℕ) (msgs : List (List ℕ)) (t : Turn) (fx : List Effect)
      → incoming_data m d msg ≡ done t
      → is_over t ≡ false
      → t.dialogue ≡ d'
      → run m d' msgs ≡ done (d'', fx)
      → run m d (msg ∷ msgs) ≡ done (d'', t.effects ++ fx)
  unfolding run
  run-on d d' d'' msg msgs t fx runs on same rest =
      rw (runs, on, ap (λ (x : TftpDialogue). run m x msgs) same ∙ rest)

  -- A server that sends its file block by block, the last with less than 508 bytes, has it submitted:
  -- the dialogue gives exactly one download to the submit manager, and it holds, behind what the
  -- buffer held, the bytes of the file. The library gives memory, the file fits the limit of the size,
  -- which is at most 4 MB, the blocks are numbered with 16 bits, and the dialogue is ready.
  pub run-Submits :
      (chunks : List (List ℕ)) (d : TftpDialogue)
      → IsReady d
      → IsShortFile chunks
      → d.blocks + length chunks < 2 ^ 16
      → d.buffer.offset + length (concat chunks) ≤ d.max_file_size
      → d.max_file_size ≤ 1024 * 1024 * 4
      → Submits m d (messages d.blocks chunks) (contents d.buffer ++ concat chunks)
  run-Submits [] d r short_file number fits limit = absurd short_file
  run-Submits (c ∷ []) d r short_file number fits limit =
      let (b, packet, valid, grown, len, runs) =
        next_block m gives d c r (omega (arith, number))
          (omega (arith, fits, length-append c [])) in
      let t = taken d c b packet in
      let (over, sub) = taken-short d c b packet (ground (arith, short_file)) in
      (
        t.dialogue,
        t.effects ++ [],
        b,
        run-over d (data_message (suc d.blocks) c) [] t runs over,
        submitted-append t.effects [] ∙ append-nil (submitted t.effects) ∙ sub,
        grown ∙ ap (◌++◌ (contents d.buffer)) (sym (append-nil c)),
      )
  run-Submits (c ∷ c' ∷ chunks) d r (full, short_file) number fits limit =
      let size = length-append c (concat (c' ∷ chunks)) in
      let (b, packet, valid, grown, len, runs) =
        next_block m gives d c r (omega (arith, number)) (omega (arith, fits, size)) in
      let t = taken d c b packet in
      let moved = offset_grown d c b r.valid valid grown in
      let (on, none_, same) =
        taken-long d c b packet (long (length c) full)
          (within b.offset (omega (arith, moved, fits, size, limit))) in
      let d' : TftpDialogue = stored d b packet in
      let ready : IsReady d' = record {
        valid = valid;
        packet = len;
        limit = r.limit;
        counter = omega (arith, number);
      } in
      let (d'', fx, b', rest, sub, held) =
        run-Submits (c' ∷ chunks) d' ready short_file (omega (arith, number))
          (omega (arith, moved, fits, size)) limit in
      (
        d'',
        t.effects ++ fx,
        b',
        run-on d d' d'' (data_message (suc d.blocks) c) (messages (suc d.blocks) (c' ∷ chunks)) t fx
            runs on same rest,
        submitted-append t.effects fx ∙ ap₂ ◌++◌ none_ sub,
        held
            ∙ ap (λ (x : List ℕ). x ++ concat (c' ∷ chunks)) grown
            ∙ append_assoc (contents d.buffer) c (concat (c' ∷ chunks)),
      )
    where
      long : (n : ℕ) → n ≡ 512 → ltb n 508 ≡ false
      long n e = ground (arith, e)

      within : (n : ℕ) → n ≤ 1024 * 1024 * 4 → ltb (1024 * 1024 * 4) n ≡ false
      within n h = ground (arith, h)
