-- ===== src/FileDialogue/Transfer.antt =====
-- A file that the server sends.
use mathlib.Core.List.{append_assoc, append-nil}
use nepenthes.Base.{
  ℕ, ◌+◌, ◌*◌, ◌^◌, ◌≤◌, ◌<◌, ◌≡◌, ◌∙◌, refl, sym, ap, subst, arith, ltb, Bool-cases, inl, inr,
  true, false, List, [], ◌∷◌, ◌++◌, length, length-append, length-take, take, Option, some, none,
  Outcome, done,
}
use nepenthes.DownloadBuffer.{DownloadBuffer, Malloc, add_data}
use nepenthes.DownloadBuffer.Contents.{IsValid, bytes, contents, Succeeds, add_data-contents}
use nepenthes.TcpSocket.{cl_drop, cl_assign}
use nepenthes.TcpSocket.Stream.{concat}
use nepenthes.FileDialogue.{FileDialogue, connection_shutdown, incoming_data, run}

abbrev pub file : DownloadBuffer → FileDialogue
file b = record { download = some b }

-- The limit of a file.
abbrev pub limit : ℕ
limit = 1024 * 1024 * 4

length-contents_at :
    (buffer : Option (List ℕ)) (size offset : ℕ)
    → IsValid (record { buffer = buffer; size = size; offset = offset })
    → length (take offset (bytes buffer)) ≡ offset
length-contents_at none size offset v = omega (arith, length-take {A = ℕ} offset [], v.owns, v.fits)
length-contents_at (some block) size offset v =
    omega (arith, length-take offset block, v.owns.0, v.fits)

length-contents : (b : DownloadBuffer) → IsValid b → length (contents b) ≡ b.offset
length-contents b v = length-contents_at b.buffer b.size b.offset v

-- A file of at most 4 MB is submitted once, as a whole, and nothing of one that is longer.
abbrev pub Ends : Outcome (List DownloadBuffer) → List ℕ → Type 0
Ends m text =
    (length text ≤ limit → (b : DownloadBuffer) × (m ≡ done (b ∷ [])) × (contents b ≡ text))
    × (limit < length text → m ≡ done [])

module _ (m : Malloc) where
  incoming_data-goes_on :
      (b b' : DownloadBuffer) (msg : List ℕ)
      → add_data m b msg ≡ done (b', true)
      → ltb limit b'.offset ≡ false
      → incoming_data m (file b) msg ≡ done (file b', cl_assign)
  unfolding incoming_data
  incoming_data-goes_on b b' msg e small = simp (e, small)

  incoming_data-ends :
      (b b' : DownloadBuffer) (msg : List ℕ)
      → add_data m b msg ≡ done (b', true)
      → ltb limit b'.offset ≡ true
      → incoming_data m (file b) msg ≡ done (file b', cl_drop)
  unfolding incoming_data
  incoming_data-ends b b' msg e large = simp (e, large)

  -- As long as the library gives memory: on a valid buffer of at most 4 MB, and with messages that
  -- make less than 2^31 bytes in all with what it holds, up to 4 MB everything is submitted when the
  -- server closes the connection, once and as one file, what was there before and the messages in their
  -- order; the dialogue of a longer file is dropped, and nothing is submitted.
  pub run-Ends :
      (msgs : List (List ℕ)) (b : DownloadBuffer)
      → Succeeds m
      → IsValid b
      → b.offset ≤ limit
      → b.offset + length (concat msgs) < 2 ^ 31
      → Ends (run m (file b) msgs) (contents b ++ concat msgs)
  unfolding run connection_shutdown
  run-Ends [] b gives v low fits =
      let size = length-append (contents b) [] in
      (
        λ _. (b, refl, sym (append-nil (contents b))),
        λ large.
            absurd (omega (arith, large, length-append (contents b) [], length-contents b v, low)),
      )
  run-Ends (msg ∷ msgs) b gives v low fits =
      let total : length (msg ++ concat msgs) ≡ length msg + length (concat msgs) =
        length-append msg (concat msgs) in
      let (b', e, v', same) = add_data-contents m b msg gives v (omega (arith, fits, total)) in
      let size : b'.offset ≡ b.offset + length msg =
        sym (length-contents b' v')
        ∙ ap length same
        ∙ length-append (contents b) msg
        ∙ ap (λ k. k + length msg) (length-contents b v) in
      let whole : length (contents b ++ (msg ++ concat msgs))
          ≡ b.offset + length (msg ++ concat msgs) =
        length-append (contents b) (msg ++ concat msgs)
        ∙ ap (λ k. k + length (msg ++ concat msgs)) (length-contents b v) in
      elim (Bool-cases (ltb limit b'.offset)) [
        | inl large ↦
            let over : limit < b'.offset = ground (arith, large) in
            (
              λ small. absurd (omega (arith, small, over, size, whole, total)),
              λ _. rw (incoming_data-ends b b' msg e large),
            )
        | inr small ↦
            let go_on : run m (file b) (msg ∷ msgs) ≡ run m (file b') msgs =
              rw (incoming_data-goes_on b b' msg e small) in
            let joined : contents b' ++ concat msgs ≡ contents b ++ (msg ++ concat msgs) =
              ap (λ x. x ++ concat msgs) same ∙ append_assoc (contents b) msg (concat msgs) in
            let low' : b'.offset ≤ limit = ground (arith, small) in
            subst (λ x. Ends x (contents b ++ (msg ++ concat msgs))) (sym go_on)
              (subst (Ends (run m (file b') msgs)) joined
                (run-Ends msgs b' gives v' low' (omega (arith, fits, total, size))))
      ]
