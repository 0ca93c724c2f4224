-- ===== src/FileDialogue/Contexts.antt =====
-- Which download a connection is for.
use nepenthes.Base.{
  ℕ, ◌≡◌, refl, ap, ◌==◌, ==_refl, false, List, [], ◌∷◌, ◌++◌, Option, some, none, All, All-append,
  ◌∙◌,
}
use nepenthes.FileDialogue.{FileDialogue, FtpContext, create_dialogue}
use nepenthes.FileDialogue.Transfer.{file}

-- A context that waits for a connection on another port.
abbrev pub WaitsElsewhere : ℕ → FtpContext → Type 0
WaitsElsewhere port c = (c.active_port == port) ≡ false

create_dialogue-skips :
    (port : ℕ) (c : FtpContext) (contexts : List FtpContext)
    → WaitsElsewhere port c
    → create_dialogue port (c ∷ contexts)
      ≡ ((create_dialogue port contexts).0, c ∷ (create_dialogue port contexts).1)
unfolding create_dialogue
create_dialogue-skips port c contexts e = simp (e, create_dialogue)

no_context : (port : ℕ) → create_dialogue port [] ≡ (none, [])
unfolding create_dialogue
no_context port = refl

create_dialogue-none :
    (port : ℕ) (contexts : List FtpContext)
    → All (WaitsElsewhere port) contexts
    → create_dialogue port contexts ≡ (none, contexts)
create_dialogue-none port [] i = no_context port
create_dialogue-none port (c ∷ contexts) (e, i) =
    create_dialogue-skips port c contexts e
    ∙ ap (λ (x : Option (FileDialogue × ℕ) × List FtpContext). (x.0, c ∷ x.1))
        (create_dialogue-none port contexts i)

create_dialogue-first :
    (c : FtpContext) (contexts : List FtpContext)
    → create_dialogue c.active_port (c ∷ contexts) ≡ (some (file c.download, c.control), contexts)
unfolding create_dialogue
create_dialogue-first c contexts = simp (==_refl c.active_port, create_dialogue)

create_dialogue-takes :
    (before after : List FtpContext) (c : FtpContext)
    → All (WaitsElsewhere c.active_port) before
    → create_dialogue c.active_port (before ++ (c ∷ after))
      ≡ (some (file c.download, c.control), before ++ after)
create_dialogue-takes [] after c i = create_dialogue-first c after
create_dialogue-takes (b ∷ before) after c (e, i) =
    create_dialogue-skips c.active_port b (before ++ (c ∷ after)) e
    ∙ ap (λ (x : Option (FileDialogue × ℕ) × List FtpContext). (x.0, b ∷ x.1))
        (create_dialogue-takes before after c i)

-- When one context only waits for a connection on a port, the first connection there is given its
-- download, and takes it from its control dialogue; the context is gone, the others stay, and for a
-- second connection on this port there is no dialogue.
pub create_dialogue-once :
    (before after : List FtpContext) (c : FtpContext)
    → All (WaitsElsewhere c.active_port) before
    → All (WaitsElsewhere c.active_port) after
    → (create_dialogue c.active_port (before ++ (c ∷ after))
        ≡ (some (file c.download, c.control), before ++ after))
      × (create_dialogue c.active_port (before ++ after) ≡ (none, before ++ after))
create_dialogue-once before after c i j = (
  create_dialogue-takes before after c i,
  create_dialogue-none c.active_port (before ++ after)
      (All-append (WaitsElsewhere c.active_port) before after i j),
)
