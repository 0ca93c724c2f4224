-- ===== src/CtrlDialogue/Segments.antt =====
-- How the server's answers are cut into messages does not matter.
use mathlib.Core.List.{append_assoc, append-nil}
use nepenthes.Base.{
  ℕ, ◌+◌, ◌-◌, ◌^◌, ◌≤◌, ◌<◌, ◌≡◌, ◌∙◌, refl, sym, ap, subst, arith, ◌==◌, Bool, true, false,
  Bool-cases, inl, inr, List, [], ◌∷◌, ◌++◌, length, drop, drop-append, length-append, some,
  Outcome, done, ◌>>=◌, Realloc,
}
use nepenthes.Buffer.{Buffer, add}
use nepenthes.Buffer.Contents.{IsValid, contents, add-contents, cut-contents}
use nepenthes.Buffer.Refinement.{length-contents}
use nepenthes.TcpSocket.{cl_assign}
use nepenthes.TcpSocket.Stream.{concat}
use nepenthes.CtrlDialogue.{
  Control, CtrlDialogue, Effect, Surroundings, handle_line, scan, finish, incoming_data, run,
  carry_on,
}
use nepenthes.CtrlDialogue.Lines.{cut_lines, then_lines, with_left, converse, scan-converse}

-- Lines that are cut off in two steps.
cut_lines-append :
    (xs ys part : List ℕ)
    → ◌≡◌ {A = List (List ℕ) × List ℕ} (cut_lines part (xs ++ ys)) (
      (cut_lines part xs).0 ++ (cut_lines (cut_lines part xs).1 ys).0,
      (cut_lines (cut_lines part xs).1 ys).1,
    )
cut_lines-append [] ys part = refl
cut_lines-append (c ∷ xs) ys part = elim (Bool-cases (c == 10)) [
  | inl e ↦ rw (e, cut_lines-append xs ys [])
  | inr e ↦ rw (e, cut_lines-append xs ys (part ++ (c ∷ [])))
]

-- Part of a line: it has no end of a line.
abbrev pub IsPart : List ℕ → Type 0
IsPart p = ◌≡◌ {A = List (List ℕ) × List ℕ} (cut_lines [] p) ([], p)

IsPart-more : (p : List ℕ) (c : ℕ) → IsPart p → (c == 10) ≡ false → IsPart (p ++ (c ∷ []))
IsPart-more p c h e = cut_lines-append p (c ∷ []) [] ∙ rw (h, e)

cut_lines_behind :
    (p more : List ℕ) → IsPart p → (cut_lines [] (p ++ more)).0 ≡ (cut_lines p more).0
cut_lines_behind p more h = ap (λ x. x.0) (cut_lines-append p more []) ∙ rw (h)

left-IsPart : (text part : List ℕ) → IsPart part → IsPart (cut_lines part text).1
left-IsPart [] part h = h
left-IsPart (c ∷ text) part h = elim (Bool-cases (c == 10)) [
  | inl e ↦ rw (e) (left-IsPart text [] refl)
  | inr e ↦ rw (e) (left-IsPart text (part ++ (c ∷ [])) (IsPart-more part c h e))
]

-- What is left is the end of the text.
left_end : (text part : List ℕ) → (read : List ℕ) × (read ++ (cut_lines part text).1 ≡ part ++ text)
left_end [] part = ([], sym (append-nil part))
left_end (c ∷ text) part = elim (Bool-cases (c == 10)) [
  | inl e ↦
      let (read, same) = left_end text [] in
      (
        part ++ (c ∷ read),
        rw (e)
            (append_assoc part (c ∷ read) (cut_lines [] text).1 ∙ ap (λ x. part ++ (c ∷ x)) same),
      )
  | inr e ↦
      let (read, same) = left_end text (part ++ (c ∷ [])) in
      (read, rw (e) (same ∙ append_assoc part (c ∷ []) text))
]

left_size : (text : List ℕ) → length (cut_lines [] text).1 ≤ length text
left_size text =
    let (read, whole) = left_end text [] in
    omega (arith, length-append read (cut_lines [] text).1, ap length whole)

then_lines-front :
    (g : Control → Control × List Effect × Bool) (fx : List Effect)
    (h : Control × List Effect × Bool)
    → ◌≡◌ {A = Control × List Effect × Bool}
        (then_lines g (h.0, fx ++ h.1, h.2))
        ((then_lines g h).0, fx ++ (then_lines g h).1, (then_lines g h).2)
then_lines-front g fx (d, gx, true) = refl
then_lines-front g fx (d, gx, false) = rw (append_assoc fx gx (g d).1)

then_lines_twice :
    (f g : Control → Control × List Effect × Bool) (h : Control × List Effect × Bool)
    → then_lines g (then_lines f h) ≡ then_lines (λ d. then_lines g (f d)) h
then_lines_twice f g (d, fx, true) = refl
then_lines_twice f g (d, fx, false) = then_lines-front g fx (f d)

module _ (s : Surroundings) where
  converse_nothing : (d : Control) → converse s d [] ≡ (d, [], false)
  unfolding converse
  converse_nothing d = refl

  pub converse-append :
      (xs ys : List (List ℕ)) (d : Control)
      → converse s d (xs ++ ys) ≡ then_lines (λ d'. converse s d' ys) (converse s d xs)
  unfolding converse
  converse-append [] ys d = refl
  converse-append (x ∷ xs) ys d =
      ap (λ g. then_lines g (handle_line s d x)) (λ i d'. converse-append xs ys d' i)
      ∙ sym (then_lines_twice (λ d'. converse s d' xs) (λ d'. converse s d' ys) (handle_line s d x))

-- The dialogue with its download.
abbrev pub dialog : Control → Buffer → CtrlDialogue
dialog c b = record { has_download = true; control = c; buffer = b }

-- All that is behind the last line stays in the buffer.
finish_on :
    (c₀ c : Control) (b₀ b : Buffer) (fx : List Effect) (read left : List ℕ)
    → IsValid b
    → b.offset < 2 ^ 31
    → read ++ left ≡ contents b
    → (b' : Buffer) × (finish (dialog c₀ b₀) b (c, fx, some left)
        ≡ done (record { dialogue = dialog c b'; effects = fx; level = cl_assign }))
      × IsValid b'
      × (contents b' ≡ left)
unfolding finish
finish_on c₀ c b₀ b fx read left v small same =
    let n = b.offset - length left in
    let sizes : length read + length left ≡ b.offset =
      sym (length-append read left) ∙ ap length same ∙ length-contents b v in
    let (b', runs, v', after) = cut-contents b n v (omega arith) small in
    (
      b',
      rw (runs),
      v',
      after ∙ ap (drop n) (sym same) ∙ drop-append n read left (omega (arith, sizes)),
    )

-- What the lines behind a message add, when the rest of the conversation is `rest`.
carry_on-done :
    (rest : CtrlDialogue → Outcome (Control × List Effect × Bool))
    (g : Control → Control × List Effect × Bool) (c₀ : Control) (b₀ b : Buffer) (read left : List ℕ)
    → IsValid b
    → b.offset < 2 ^ 31
    → read ++ left ≡ contents b
    → ((b' : Buffer) (c : Control)
        → IsValid b'
        → contents b' ≡ left
        → rest (dialog c b') ≡ done (g c))
    → (h : Control × List Effect × Bool)
    → finish (dialog c₀ b₀) b (with_left h left) >>= carry_on rest ≡ done (then_lines g h)
unfolding finish carry_on
carry_on-done rest g c₀ b₀ b read left v small same go (c, fx, true) = rw (append-nil fx)
carry_on-done rest g c₀ b₀ b read left v small same go (c, fx, false) =
    let (b', runs, v', kept) = finish_on c₀ c b₀ b fx read left v small same in
    rw (runs, go b' c v' kept)

module _ (r : Realloc) (s : Surroundings) where
  incoming_data-scan :
      (c : Control) (b b' : Buffer) (msg : List ℕ)
      → add r b msg ≡ done b'
      → incoming_data r s (dialog c b) msg
        ≡ finish (dialog c b) b' (scan s c (contents b') (contents b'))
  unfolding incoming_data
  incoming_data-scan c b b' msg runs = rw (runs)

  -- The rest of the conversation behind what is left of a text.
  after_part :
      (text more : List ℕ) (c : Control)
      → converse s c (cut_lines [] (text ++ more)).0
        ≡ then_lines
            (λ d. converse s d (cut_lines [] ((cut_lines [] text).1 ++ more)).0)
            (converse s c (cut_lines [] text).0)
  after_part text more c =
      let left = (cut_lines [] text).1 in
      rw (cut_lines-append text more [], cut_lines_behind left more (left-IsPart text [] refl))
        (converse-append s (cut_lines [] text).0 (cut_lines left more).0 c)

  -- With a download, and a valid buffer that holds part of a line and stays, with all of the messages,
  -- below 2^31 bytes, the dialogue reads any messages without an error, and does what the lines of the
  -- whole text make it do one after the other, wherever the text is cut into messages. Realloc gives
  -- every block that is asked for.
  pub run-converse :
      (msgs : List (List ℕ)) (c : Control) (b : Buffer)
      → IsValid b
      → IsPart (contents b)
      → b.offset + length (concat msgs) < 2 ^ 31
      → run r s (dialog c b) msgs ≡ done (converse s c (cut_lines [] (contents b ++ concat msgs)).0)
  unfolding run
  run-converse [] c b v part fits = rw (append-nil (contents b), part, converse_nothing s c)
  run-converse (msg ∷ msgs) c b v part fits =
      let total : length (msg ++ concat msgs) ≡ length msg + length (concat msgs) =
        length-append msg (concat msgs) in
      let (b', runs, v', same) = add-contents r b msg v (omega (arith, total)) in
      let text = contents b' in
      let known : b'.offset ≡ b.offset + length msg =
        sym (length-contents b' v')
        ∙ ap length same
        ∙ length-append (contents b) msg
        ∙ ap (λ k. k + length msg) (length-contents b v) in
      let (read, whole) = left_end text [] in
      let behind =
        λ (d : Control). converse s d (cut_lines [] ((cut_lines [] text).1 ++ concat msgs)).0 in
      let small : b'.offset < 2 ^ 31 = omega (arith, known, total, fits) in
      ap (λ m. m >>= carry_on (λ d'. run r s d' msgs))
        (incoming_data-scan c b b' msg runs
          ∙ ap (finish (dialog c b) b') (scan-converse s text [] c))
      ∙ carry_on-done (λ d'. run r s d' msgs) behind c b b' read (cut_lines [] text).1 v' small
          whole
          (λ b'' c'' v'' kept.
            run-converse msgs c'' b'' v'' (subst IsPart (sym kept) (left-IsPart text [] refl)) (
              omega (
                arith,
                known,
                total,
                fits,
                left_size text,
                ap length kept,
                length-contents b' v',
                length-contents b'' v'',
              ))
            ∙ rw (kept))
          (converse s c (cut_lines [] text).0)
      ∙ ap done (sym (after_part text (concat msgs) c))
      ∙ rw (same, append_assoc (contents b) msg (concat msgs))
