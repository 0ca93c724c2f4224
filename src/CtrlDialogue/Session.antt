-- ===== src/CtrlDialogue/Session.antt =====
-- What a server that accepts every command makes the dialogue send.
use mathlib.Core.List.{append_assoc, append-nil}
use nepenthes.Base.{
  ℕ, ◌-◌, ◌≡◌, ◌∙◌, refl, ap, arith, ◌==◌, ==_iff, ◌%◌, ◌⊎◌, Bool, true, false, if◌then◌else◌, inl,
  inr, List, [], ◌∷◌, ◌++◌, Option, some, none, codes, starts_with,
}
use nepenthes.CtrlDialogue.{
  Control, FtpDownState, ftp_connected, ftp_pass, ftp_type, ftp_cwd, ftp_port, ftp_quit, Effect,
  Surroundings, Bound, is_reply, send_user, send_pass, send_type, send_cwd, send_retr, send_quit,
  send_port, announce, port_range, find_port, to_port, to_dir, to_cwd_or_port, user_line,
  connected_line, pass_line, type_line, port_line, cwd_line, retr_line, in_state, handle_line,
}
use nepenthes.DownloadUrl.{DownloadUrl}
use nepenthes.CtrlDialogue.Lines.{then_lines, converse}
use nepenthes.CtrlDialogue.Segments.{converse-append}

abbrev pub enter : FtpDownState → Control → Control
enter q d = record d { state = q }

abbrev pub put : FtpDownState → ℕ → Control → Control
put q p d = record d { state = q; active_port = p }

module _ (s : Surroundings) where
  abbrev pub port_after : Control → ℕ
  port_after d = (send_port s d).0.active_port

  abbrev pub port_commands : Control → List Effect
  port_commands d = (send_port s d).1

  announce_lem :
      (d : Control) (q : FtpDownState) (b : Option Bound)
      → announce s (enter q d) b ≡ (put q (announce s d b).0.active_port d, (announce s d b).1)
  unfolding announce
  announce_lem d q none = refl
  announce_lem d q (some b) = refl

  -- The port is sought the same in every state.
  send_port_lem :
      (d : Control) (q : FtpDownState)
      → send_port s (enter q d) ≡ (put q (port_after d) d, port_commands d)
  unfolding send_port
  send_port_lem d q =
      let (low, high) = port_range s in rw (announce_lem d q (find_port s (high - low) low none).0)

  converse-step :
      (d : Control) (x : List ℕ) (xs : List (List ℕ)) {h : Control × List Effect × Bool}
      → handle_line s d x ≡ h
      → converse s d (x ∷ xs) ≡ then_lines (λ d'. converse s d' xs) h
  unfolding converse
  converse-step d x xs e = ap (then_lines (λ d'. converse s d' xs)) e

  -- From a port that was announced to the end.
  port_session :
      (d : Control) (p : ℕ) (t₁ t₂ t₃ t₄ : List ℕ)
      → converse s (put ftp_port p d) (
          (codes "200" ++ t₁)
          ∷ (codes "150" ++ t₂)
          ∷ (codes "226" ++ t₃)
          ∷ (codes "221" ++ t₄)
          ∷ [])
        ≡ (put ftp_quit p d, send_retr d ++ send_quit, true)
  unfolding converse handle_line in_state port_line retr_line is_reply starts_with send_retr
      send_quit
  port_session d p t₁ t₂ t₃ t₄ = refl

  to_port_lem :
      (d : Control) (q : FtpDownState)
      → to_port s (enter q d) ≡ (put ftp_port (port_after d) d, port_commands d)
  unfolding to_port
  to_port_lem d q = rw (send_port_lem d q)

-- The commands and the answers that only some downloads need.
abbrev pub type_commands : Control → List Effect
type_commands d = if d.flags == 0 then [] else send_type

abbrev pub type_replies : Control → List ℕ → List (List ℕ)
type_replies d t = if d.flags == 0 then [] else (codes "200" ++ t) ∷ []

abbrev pub cwd_commands : List ℕ → Control → List Effect
cwd_commands [] d = []
cwd_commands (c ∷ dir) d = send_cwd d

abbrev pub cwd_replies : List ℕ → List ℕ → List (List ℕ)
cwd_replies [] t = []
cwd_replies (c ∷ dir) t = (codes "250" ++ t) ∷ []

module _ (s : Surroundings) (d : Control) (t : ℕ → List ℕ) where
  abbrev port_replies : List (List ℕ)
  port_replies =
      (codes "200" ++ t 6) ∷ (codes "150" ++ t 7) ∷ (codes "226" ++ t 8) ∷ (codes "221" ++ t 9) ∷ []

  -- What a server answers that accepts every command.
  abbrev pub replies : List (List ℕ)
  replies =
      (codes "220" ++ t 1)
      ∷ (codes "331" ++ t 2)
      ∷ (codes "230" ++ t 3)
      ∷ (type_replies d (t 4) ++ (cwd_replies d.url.dir (t 5) ++ port_replies))

  cwd_step :
      handle_line s (enter ftp_cwd d) (codes "250" ++ t 5)
      ≡ (put ftp_port (port_after s d) d, port_commands s d, false)
  unfolding handle_line in_state cwd_line port_line is_reply starts_with
  cwd_step = rw (to_port_lem s d ftp_cwd, append-nil (port_commands s d))

  dir_session :
      (q : FtpDownState) (dir : List ℕ)
      → then_lines
          (λ d'. converse s d' (cwd_replies dir (t 5) ++ port_replies))
          ((to_dir s dir (enter q d)).0, (to_dir s dir (enter q d)).1, false)
        ≡ (
          put ftp_quit (port_after s d) d,
          cwd_commands dir d ++ (port_commands s d ++ (send_retr d ++ send_quit)),
          true,
        )
  unfolding to_dir send_cwd
  dir_session q [] =
      rw (to_port_lem s d q, port_session s d (port_after s d) (t 6) (t 7) (t 8) (t 9))
  dir_session q (c ∷ dir) =
      ap (λ (x : Control × List Effect × Bool). (x.0, send_cwd d ++ x.1, x.2))
        {x = converse s (enter ftp_cwd d) ((codes "250" ++ t 5) ∷ port_replies)}
        (converse-step s (enter ftp_cwd d) (codes "250" ++ t 5) port_replies cwd_step
          ∙ rw (port_session s d (port_after s d) (t 6) (t 7) (t 8) (t 9)))

  abbrev pub dir_end : Control × List Effect × Bool
  dir_end = (
    put ftp_quit (port_after s d) d,
    cwd_commands d.url.dir d ++ (port_commands s d ++ (send_retr d ++ send_quit)),
    true,
  )

  type_session :
      converse s
        (enter ftp_type d)
        ((codes "200" ++ t 4) ∷ (cwd_replies d.url.dir (t 5) ++ port_replies))
      ≡ dir_end
  unfolding converse handle_line in_state type_line is_reply starts_with to_cwd_or_port
  type_session = dir_session ftp_type d.url.dir

  pass_session :
      (d.flags ≡ 0) ⊎ (d.flags % 2 ≡ 1)
      → converse s (enter ftp_pass d) (
          (codes "230" ++ t 3)
          ∷ (type_replies d (t 4) ++ (cwd_replies d.url.dir (t 5) ++ port_replies)))
        ≡ (dir_end.0, type_commands d ++ dir_end.1, true)
  unfolding converse handle_line in_state pass_line is_reply starts_with to_cwd_or_port send_type
  pass_session (inl zero_flags) =
      let e : (d.flags == 0) ≡ true = (==_iff d.flags 0).1 zero_flags in
      rw (e) (dir_session ftp_pass d.url.dir)
  pass_session (inr odd) =
      let e : (d.flags == 0) ≡ false = ground (arith, odd) in
      let e' : (d.flags % 2 == 1) ≡ true = (==_iff (d.flags % 2) 1).1 odd in
      rw (e, e')
        (ap (λ (x : Control × List Effect × Bool). (x.0, send_type ++ x.1, x.2)) type_session)

  login_session :
      converse s (enter ftp_connected d) ((codes "220" ++ t 1) ∷ (codes "331" ++ t 2) ∷ [])
      ≡ (enter ftp_pass d, send_user d ++ send_pass d, false)
  unfolding converse handle_line in_state connected_line user_line is_reply starts_with send_user
      send_pass
  login_session = refl

  abbrev pub commands : List Effect
  commands = send_user d ++ (send_pass d ++ (type_commands d ++ dir_end.1))

  pub converse-commands :
      (d.flags ≡ 0) ⊎ (d.flags % 2 ≡ 1)
      → converse s (enter ftp_connected d) replies
        ≡ (put ftp_quit (port_after s d) d, commands, true)
  converse-commands ok =
      let behind =
        (codes "230" ++ t 3)
        ∷ (type_replies d (t 4) ++ (cwd_replies d.url.dir (t 5) ++ port_replies)) in
      converse-append s ((codes "220" ++ t 1) ∷ (codes "331" ++ t 2) ∷ []) behind
        (enter ftp_connected d)
      ∙ ap (then_lines (λ d'. converse s d' behind)) login_session
      ∙ ap (λ (x : Control × List Effect × Bool). (x.0, (send_user d ++ send_pass d) ++ x.1, x.2))
          (pass_session ok)
      ∙ rw (append_assoc (send_user d) (send_pass d) (type_commands d ++ dir_end.1))

-- What a new dialogue keeps of its download.
abbrev pub fresh : DownloadUrl → ℕ → Control
fresh url flags = record { state = ftp_connected; url = url; flags = flags; active_port = 0 }
