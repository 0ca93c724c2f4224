-- ===== src/BagleDialogue/Binary.antt =====
-- A file that is sent through the back door itself.
use mathlib.Core.List.{append-nil, append_assoc}
use nepenthes.Base.{
  ℕ, ◌+◌, ◌*◌, ◌^◌, ◌≤◌, ◌<◌, ◌≡◌, ◌∙◌, refl, sym, ap, arith, ==_refl, ltb, Bool, true, false, ◌&&◌,
  List, [], ◌∷◌, ◌++◌, length, length-append, codes, Option, some, done, Realloc,
}
use nepenthes.Buffer.{Buffer, reset}
use nepenthes.DownloadBuffer.{DownloadBuffer, Malloc, new}
use nepenthes.DownloadBuffer.Contents.{new-IsValid, IsValid, contents, Succeeds, add_data-contents}
use nepenthes.TftpDialogue.Chunks.{length-contents}
use nepenthes.TcpSocket.{cl_assign_and_done}
use nepenthes.TcpSocket.Stream.{concat}
use nepenthes.BagleDialogue.{
  BagleDialogue, bagle_binary, submit, is_case_prefix, referrer, binary_start, binary,
  incoming_data, run, shutdown_effects, connection_shutdown,
}
use nepenthes.BagleDialogue.Auth.{admitted}

-- The dialogue that stores a binary.
abbrev pub storing : Buffer → ℕ → DownloadBuffer → BagleDialogue
storing b size down = record {
  state = bagle_binary;
  buffer = b;
  file_size = size;
  download = some down;
}

submits :
    (b : Buffer) (size : ℕ) (down : DownloadBuffer)
    → down.offset ≡ size
    → (connection_shutdown (storing b size down)).effects ≡ submit down ∷ []
unfolding connection_shutdown shutdown_effects
submits b size down e = rw (e, ==_refl size)

and_false : (b : Bool) → (b && false) ≡ false
and_false true = refl
and_false false = refl

-- No url: the message is taken for the start of a binary.
not_url :
    (m : Malloc) (d : BagleDialogue) (msg : List ℕ)
    → is_case_prefix (codes "http") msg ≡ false
    → is_case_prefix (codes "ftp") msg ≡ false
    → referrer m d msg ≡ binary_start m d msg
unfolding referrer
not_url m d msg http ftp =
    rw (http, ftp, and_false (ltb 4 (length msg)), and_false (ltb 3 (length msg)))

module _ (r : Realloc) (m : Malloc) (gives : Succeeds m) where
  first_step :
      (down : Option DownloadBuffer) (old a b x y : ℕ) (code : List ℕ)
      → is_case_prefix (codes "http") (a ∷ b ∷ x ∷ y ∷ code) ≡ false
      → is_case_prefix (codes "ftp") (a ∷ b ∷ x ∷ y ∷ code) ≡ false
      → length code ≤ 2 ^ 31
      → (down' : DownloadBuffer) × IsValid down'
        × (contents down' ≡ code)
        × (incoming_data r m (admitted old down) (a ∷ b ∷ x ∷ y ∷ code)
            ≡ done (record {
              dialogue = storing reset (a * 256 + b) down';
              effects = [];
              level = cl_assign_and_done;
            }))
  unfolding incoming_data binary_start new
  first_step down old a b x y code http ftp fits =
      let (down', runs, v', same) =
        add_data-contents m new code gives new-IsValid (omega (arith, fits)) in
      (down', v', same, not_url m (admitted old down) (a ∷ b ∷ x ∷ y ∷ code) http ftp ∙ rw (runs))

  more_step :
      (b : Buffer) (size : ℕ) (down : DownloadBuffer) (msg : List ℕ)
      → IsValid down
      → down.offset + length msg ≤ 2 ^ 31
      → (down' : DownloadBuffer) × IsValid down'
        × (contents down' ≡ contents down ++ msg)
        × (incoming_data r m (storing b size down) msg
            ≡ done (record {
              dialogue = storing b size down';
              effects = [];
              level = cl_assign_and_done;
            }))
  unfolding incoming_data binary
  more_step b size down msg v fits =
      let (down', runs, v', same) = add_data-contents m down msg gives v fits in
      (down', v', same, rw (runs))

  go_on :
      (d d' d'' : BagleDialogue) (msg : List ℕ) (msgs : List (List ℕ))
      → incoming_data r m d msg
        ≡ done (record { dialogue = d'; effects = []; level = cl_assign_and_done })
      → run r m d' msgs ≡ done (d'', [])
      → run r m d (msg ∷ msgs) ≡ done (d'', [])
  unfolding run
  go_on d d' d'' msg msgs e e' = rw (e, e')

  stores :
      (msgs : List (List ℕ)) (b : Buffer) (size : ℕ) (down : DownloadBuffer)
      → IsValid down
      → down.offset + length (concat msgs) ≤ 2 ^ 31
      → (down' : DownloadBuffer) × IsValid down'
        × (contents down' ≡ contents down ++ concat msgs)
        × (run r m (storing b size down) msgs ≡ done (storing b size down', []))
  unfolding run
  stores [] b size down v fits = (down, v, sym (append-nil (contents down)), refl)
  stores (msg ∷ msgs) b size down v fits =
      let all = length-append msg (concat msgs) in
      let (down', v', same, step) = more_step b size down msg v (omega (arith, fits, all)) in
      let moved : down'.offset ≡ down.offset + length msg =
        sym (length-contents down' v')
        ∙ ap length same
        ∙ length-append (contents down) msg
        ∙ ap (λ (n : ℕ). n + length msg) (length-contents down v) in
      let (down'', v'', held, runs) =
        stores msgs b size down' v' (omega (arith, fits, all, moved)) in
      (
        down'',
        v'',
        held
            ∙ ap (λ (x : List ℕ). x ++ concat msgs) same
            ∙ append_assoc (contents down) msg (concat msgs),
        go_on (storing b size down) (storing b size down') (storing b size down'') msg msgs step
            runs,
      )

  -- A client that was admitted sends the size of a file in two bytes, two more bytes and the file, cut
  -- into messages behind the first four bytes in any way, and shuts the connection down: the file is
  -- submitted then, byte for byte, and nothing is before. The library gives memory, the size is that of
  -- the file, and the first message does not begin like an url.
  pub run-submits :
      (down : Option DownloadBuffer) (old a b x y : ℕ) (code : List ℕ) (msgs : List (List ℕ))
      → a < 256
      → b < 256
      → length (code ++ concat msgs) ≡ a * 256 + b
      → is_case_prefix (codes "http") (a ∷ b ∷ x ∷ y ∷ code) ≡ false
      → is_case_prefix (codes "ftp") (a ∷ b ∷ x ∷ y ∷ code) ≡ false
      → (d : BagleDialogue) × (file : DownloadBuffer) × (run r m
            (admitted old down)
            ((a ∷ b ∷ x ∷ y ∷ code) ∷ msgs)
          ≡ done (d, []))
        × ((connection_shutdown d).effects ≡ submit file ∷ [])
        × (contents file ≡ code ++ concat msgs)
  run-submits down old a b x y code msgs ha hb size http ftp =
      let both = length-append code (concat msgs) in
      let (down', v', same, step) =
        first_step down old a b x y code http ftp (omega (arith, ha, hb, size, both)) in
      let here : down'.offset ≡ length code = sym (length-contents down' v') ∙ ap length same in
      let (down'', v'', held, runs) =
        stores msgs reset (a * 256 + b) down' v' (omega (arith, ha, hb, size, both, here)) in
      let file : contents down'' ≡ code ++ concat msgs =
        held ∙ ap (λ (s : List ℕ). s ++ concat msgs) same in
      (
        storing reset (a * 256 + b) down'',
        down'',
        go_on (admitted old down) (storing reset (a * 256 + b) down')
            (storing reset (a * 256 + b) down'') (a ∷ b ∷ x ∷ y ∷ code) msgs step runs,
        submits reset (a * 256 + b) down''
            (sym (length-contents down'' v'') ∙ ap length file ∙ size),
        file,
      )
