-- ===== src/CtrlDialogue/Lines.antt =====
-- The loop over the buffer handles the complete lines one after the other.
use mathlib.Core.List.{append_assoc, append-nil}
use nepenthes.Base.{
  ℕ, ◌≡◌, ◌∙◌, refl, sym, ap, ◌==◌, Bool, true, false, ==_iff, if◌then◌else◌, Bool-cases, inl, inr,
  List, [], ◌∷◌, ◌++◌, starts_with, Option, some, none,
}
use nepenthes.CtrlDialogue.{
  Control, FtpDownState, ftp_connected, ftp_user, ftp_pass, ftp_type, ftp_cwd, ftp_port, ftp_retr,
  ftp_quit, Effect, Surroundings, is_reply, user_line, connected_line, pass_line, type_line,
  port_line, cwd_line, retr_line, in_state, handle_line, behind_line, scan,
}

-- The complete lines of a text that stands behind `part`, without their ends, and what is behind them.
abbrev pub cut_lines : List ℕ → List ℕ → List (List ℕ) × List ℕ
cut_lines part [] = ([], part)
cut_lines part (c ∷ text) =
    let (lines, left) = cut_lines (if c == 10 then [] else part ++ (c ∷ [])) text in
    (if c == 10 then part ∷ lines else lines, left)

-- A line that the dialogue has dropped itself on ends the conversation.
abbrev pub then_lines :
    (Control → Control × List Effect × Bool)
    → Control × List Effect × Bool
    → Control × List Effect × Bool
then_lines rest (d, fx, true) = (d, fx, true)
then_lines rest (d, fx, false) = let (d', fx', over) = rest d in (d', fx ++ fx', over)

abbrev pub with_left :
    Control × List Effect × Bool → List ℕ → Control × List Effect × Option (List ℕ)
with_left (d, fx, true) left = (d, fx, none)
with_left (d, fx, false) left = (d, fx, some left)

is_reply-cut :
    (a b c : ℕ) (line rest : List ℕ)
    → (a == 10) ≡ false
    → (b == 10) ≡ false
    → (c == 10) ≡ false
    → is_reply (a ∷ b ∷ c ∷ []) (line ++ (10 ∷ rest)) ≡ is_reply (a ∷ b ∷ c ∷ []) line
unfolding is_reply starts_with
is_reply-cut a b c [] rest p q r = rw (p)
is_reply-cut a b c (x ∷ []) rest p q r = rw (q)
is_reply-cut a b c (x ∷ y ∷ []) rest p q r = rw (r)
is_reply-cut a b c (x ∷ y ∷ z ∷ line) rest p q r = refl

with_left_front :
    (fx : List Effect) (h : Control × List Effect × Bool) (left : List ℕ)
    → ◌≡◌ {A = Control × List Effect × Option (List ℕ)}
        ((with_left h left).0, fx ++ (with_left h left).1, (with_left h left).2)
        (with_left (h.0, fx ++ h.1, h.2) left)
with_left_front fx (d, gx, true) left = refl
with_left_front fx (d, gx, false) left = refl

module _ (s : Surroundings) where
  -- The dialogue over complete lines.
  unfoldable pub converse : Control → List (List ℕ) → Control × List Effect × Bool
  converse d [] = (d, [], false)
  converse d (line ∷ lines) = then_lines (λ d'. converse d' lines) (handle_line s d line)

  -- What stands behind the end of a line does not matter.
  in_state-cut :
      (state : FtpDownState) (d : Control) (line rest : List ℕ)
      → in_state s state d (line ++ (10 ∷ rest)) ≡ in_state s state d line
  unfolding in_state user_line connected_line pass_line type_line port_line cwd_line retr_line
  in_state-cut ftp_connected d line rest = rw (
    is_reply-cut 50 50 48 line rest refl refl refl,
    is_reply-cut 51 51 49 line rest refl refl refl,
  )
  in_state-cut ftp_user d line rest = rw (is_reply-cut 51 51 49 line rest refl refl refl)
  in_state-cut ftp_pass d line rest = rw (is_reply-cut 50 51 48 line rest refl refl refl)
  in_state-cut ftp_type d line rest = rw (is_reply-cut 50 48 48 line rest refl refl refl)
  in_state-cut ftp_cwd d line rest = rw (
    is_reply-cut 50 53 48 line rest refl refl refl,
    is_reply-cut 50 48 48 line rest refl refl refl,
  )
  in_state-cut ftp_port d line rest = rw (is_reply-cut 50 48 48 line rest refl refl refl)
  in_state-cut ftp_retr d line rest = rw (
    is_reply-cut 49 53 48 line rest refl refl refl,
    is_reply-cut 50 50 54 line rest refl refl refl,
  )
  in_state-cut ftp_quit d line rest = rw (is_reply-cut 50 50 49 line rest refl refl refl)

  handle_line-cut :
      (d : Control) (line rest : List ℕ)
      → handle_line s d (line ++ (10 ∷ rest)) ≡ handle_line s d line
  unfolding handle_line
  handle_line-cut d line rest = in_state-cut d.state d line rest

  same_line :
      (d : Control) (part : List ℕ) (c : ℕ) (text : List ℕ)
      → (c == 10) ≡ true
      → handle_line s d (part ++ (c ∷ text)) ≡ handle_line s d part
  same_line d part c text e =
      ap (λ (k : ℕ). handle_line s d (part ++ (k ∷ text))) ((==_iff c 10).0 e)
      ∙ handle_line-cut d part text

  behind_line-then_lines :
      (f : Control → Control × List Effect × Option (List ℕ))
      (g : Control → Control × List Effect × Bool) (left : List ℕ)
      → ((d : Control) → f d ≡ with_left (g d) left)
      → (h : Control × List Effect × Bool) → behind_line s f h ≡ with_left (then_lines g h) left
  unfolding behind_line
  behind_line-then_lines f g left e (d, fx, true) = refl
  behind_line-then_lines f g left e (d, fx, false) = rw (e d) (with_left_front fx (g d) left)

  scan_nothing : (d : Control) (line : List ℕ) → scan s d line [] ≡ (d, [], some line)
  unfolding scan
  scan_nothing d line = refl

  scan_end :
      (d : Control) (line text : List ℕ) (c : ℕ)
      → (c == 10) ≡ true
      → scan s d line (c ∷ text) ≡ behind_line s (λ d'. scan s d' text text) (handle_line s d line)
  unfolding scan
  scan_end d line text c e = rw (e, scan)

  scan_on :
      (d : Control) (line text : List ℕ) (c : ℕ)
      → (c == 10) ≡ false
      → scan s d line (c ∷ text) ≡ scan s d line text
  unfolding scan
  scan_on d line text c e = rw (e, scan)

  -- The loop over a text.
  pub scan-converse :
      (text part : List ℕ) (d : Control)
      → scan s d (part ++ text) text
        ≡ with_left (converse d (cut_lines part text).0) (cut_lines part text).1
  unfolding converse
  scan-converse [] part d = scan_nothing d (part ++ []) ∙ rw (append-nil part)
  scan-converse (c ∷ text) part d = elim (Bool-cases (c == 10)) [
    | inl e ↦
        scan_end d (part ++ (c ∷ text)) text c e
        ∙ ap (behind_line s (λ d'. scan s d' text text)) (same_line d part c text e)
        ∙ behind_line-then_lines (λ d'. scan s d' text text)
            (λ d'. converse d' (cut_lines [] text).0) (cut_lines [] text).1 (scan-converse text [])
            (handle_line s d part)
        ∙ rw (e)
    | inr e ↦
        scan_on d (part ++ (c ∷ text)) text c e
        ∙ ap (λ x. scan s d x text) (sym (append_assoc part (c ∷ []) text))
        ∙ scan-converse text (part ++ (c ∷ [])) d
        ∙ rw (e)
  ]
