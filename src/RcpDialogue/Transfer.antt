-- ===== src/RcpDialogue/Transfer.antt =====
-- A whole transfer: the answers of an rcp server and then the file, cut in any way.
use mathlib.Core.List.{append_assoc}
use nepenthes.Base.{
  ℕ, ◌+◌, ◌*◌, ◌^◌, ◌≤◌, ◌<◌, ◌≡◌, ◌∙◌, refl, ap, arith, leb, Bool-cases, inl, inr, List, [], ◌∷◌,
  ◌++◌, length, take, length-append, All, none, done, fault, Realloc,
}
use nepenthes.Buffer.{Buffer, reset}
use nepenthes.DownloadBuffer.{DownloadBuffer, Malloc}
use nepenthes.DownloadBuffer.Contents.{IsValid, contents, Succeeds}
use nepenthes.TcpSocket.Stream.{concat}
use nepenthes.TftpDialogue.Chunks.{length-contents}
use nepenthes.RcpDialogue.{
  RcpDialogue, request, file_stats, Effect, write, submit, run, handle_timeout,
}
use nepenthes.RcpDialogue.Stats.{IsBlank, IsDigit, line}
use nepenthes.RcpDialogue.Steps.{
  take_last, waiting, receiving, finished, timeout_over, run_step, run_finished, last_step,
  more_step, request_step, stats_step,
}

module _ (r : Realloc) (m : Malloc) (atoi : List ℕ → ℕ) where
  -- One download is submitted, behind what was written, and it has these bytes.
  abbrev pub SubmitsOne : RcpDialogue → List (List ℕ) → List Effect → List ℕ → Type 0
  SubmitsOne d msgs written bytes =
      (d' : RcpDialogue) × (b : DownloadBuffer) × (run r m atoi d msgs
        ≡ done (d', written ++ (submit b ∷ [])))
      × (contents b ≡ bytes)
      × (d'.download ≡ none)

  receives :
      (gives : Succeeds m) (msgs : List (List ℕ)) (b : Buffer) (size : ℕ) (down : DownloadBuffer)
      → IsValid down
      → down.offset < size
      → size ≤ 1024 * 1024 * 4
      → size ≤ down.offset + length (concat msgs)
      → down.offset + length (concat msgs) < 2 ^ 32
      → SubmitsOne (receiving b size down) msgs [] (take size (contents down ++ concat msgs))
  receives gives [] b size down v open_ limit enough wide = absurd (omega (arith, open_, enough))
  receives gives (msg ∷ msgs) b size down v open_ limit enough wide =
      elim (Bool-cases (leb size (down.offset + length msg))) [
        | inl last ↦
            let (down', step, same) =
              last_step r m atoi gives b size down msg v open_ (omega (arith, limit))
                (ground (arith, last)) (omega (arith, wide, longer)) in
            (
              finished b size,
              down',
              run_step r m atoi (receiving b size down) (finished b size) (finished b size) msg msgs
                  (submit down' ∷ []) [] step (run_finished r m atoi msgs b size),
              same
                  ∙ take_last size down.offset (contents down) msg (concat msgs)
                      (length-contents down v) (omega (arith, open_)) (ground (arith, last)),
              refl,
            )
        | inr more ↦
            let (down', step, v', same, moved) =
              more_step r m atoi gives b size down msg v limit (ground (arith, more)) in
            let (d'', end, rest, held, over) =
              receives gives msgs b size down' v' (ground (arith, more, moved)) limit
                (omega (arith, enough, moved, longer)) (omega (arith, wide, moved, longer)) in
            (
              d'',
              end,
              run_step r m atoi (receiving b size down) (receiving b size down') d'' msg msgs []
                  (submit end ∷ []) step rest,
              held
                  ∙ ap (take size) (
                      ap (λ (x : List ℕ). x ++ concat msgs) same
                      ∙ append_assoc (contents down) msg (concat msgs)),
              over,
            )
      ]
    where
      longer : length (concat (msg ∷ msgs)) ≡ length msg + length (concat msgs)
      longer = length-append msg (concat msgs)

  -- A server that follows rcp has its file submitted, however the file is cut into messages: behind its
  -- zero byte and the line with the size, the dialogue writes two zero bytes and gives exactly one
  -- download to the submit manager, which holds the first `size` bytes that came behind the line, after
  -- what the download held; what comes behind them, such as the last zero byte, is dropped. The library
  -- gives memory, atoi() reads the digits as `size`, which is at most 4 MB and more than the download
  -- holds, at least as many bytes arrive and less than 2^32, the permissions have no blank, the size has
  -- digits, and the line is at most 2 GB.
  pub run-SubmitsOne :
      (gives : Succeeds m) (down : DownloadBuffer) (mode ds name : List ℕ) (msgs : List (List ℕ))
      → IsValid down
      → All IsBlank mode
      → All IsDigit ds
      → 0 < length ds
      → length (line mode ds name) ≤ 2 ^ 31
      → down.offset < atoi ds
      → atoi ds ≤ 1024 * 1024 * 4
      → atoi ds ≤ down.offset + length (concat msgs)
      → down.offset + length (concat msgs) < 2 ^ 32
      → SubmitsOne
          (waiting request 0 down)
          ((0 ∷ []) ∷ line mode ds name ∷ msgs)
          (write (0 ∷ []) ∷ write (0 ∷ []) ∷ [])
          (take (atoi ds) (contents down ++ concat msgs))
  run-SubmitsOne gives down mode ds name msgs v h h' p short_line open_ limit enough wide =
      let (d', b, runs, held, over) =
        receives gives msgs reset (atoi ds) down v open_ limit enough wide in
      (
        d',
        b,
        run_step r m atoi (waiting request 0 down) (waiting file_stats 0 down) d' (0 ∷ [])
            (line mode ds name ∷ msgs) (write (0 ∷ []) ∷ []) (write (0 ∷ []) ∷ submit b ∷ [])
            (request_step r m atoi 0 down)
            (run_step r m atoi (waiting file_stats 0 down) (receiving reset (atoi ds) down) d'
              (line mode ds name) msgs (write (0 ∷ []) ∷ []) (submit b ∷ [])
              (stats_step r m atoi 0 down mode ds name h h' p short_line) runs),
        held,
        over,
      )

  -- When a dialogue that receives the file has run over messages which complete it, a timeout reads the
  -- download that is deleted then, whose pointer is NULL. The library gives memory, the expected size is
  -- at most 4 MB and more than the download holds, and at least as many bytes arrive, and less than 2^32.
  pub run-handle_timeout :
      (gives : Succeeds m) (msgs : List (List ℕ)) (b : Buffer) (size : ℕ) (down : DownloadBuffer)
      → IsValid down
      → down.offset < size
      → size ≤ 1024 * 1024 * 4
      → size ≤ down.offset + length (concat msgs)
      → down.offset + length (concat msgs) < 2 ^ 32
      → (d' : RcpDialogue) × (fx : List Effect) × (run r m atoi (receiving b size down) msgs
          ≡ done (d', fx))
        × (handle_timeout d' ≡ fault)
  run-handle_timeout gives msgs b size down v open_ limit enough wide =
      let (d', b', runs, held, over) = receives gives msgs b size down v open_ limit enough wide in
      (d', submit b' ∷ [], runs, timeout_over d' over)
