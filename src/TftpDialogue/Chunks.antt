-- ===== src/TftpDialogue/Chunks.antt =====
-- How a server cuts a file into blocks, and lengths of what a buffer holds.
use mathlib.Core.List.{append-nil, append_assoc}
use nepenthes.Base.{
  ℕ, zero, suc, ◌+◌, ◌≤◌, ◌<◌, ◌≡◌, ◌∙◌, refl, sym, ap, subst, arith, List, [], ◌∷◌, ◌++◌, length,
  take, get_elem?, All, Option, some, none, length-take, length-append,
}
use nepenthes.DownloadBuffer.{DownloadBuffer}
use nepenthes.DownloadBuffer.Contents.{IsValid, Owns, bytes, contents}
use nepenthes.TcpSocket.Stream.{concat}
use nepenthes.TftpDialogue.{TftpDialogue}
use nepenthes.TftpDialogue.Steps.{data_message}

-- How a server cuts a file: blocks of 512 bytes, and a shorter one at the end.
abbrev pub IsFile : List (List ℕ) → Type 0
IsFile [] = ⊥
IsFile (c ∷ []) = length c < 512
IsFile (c ∷ c' ∷ chunks) = (length c ≡ 512) × IsFile (c' ∷ chunks)

-- The message has one of the file's blocks under its number.
abbrev pub FromServer : List (List ℕ) → List ℕ → Type 0
FromServer chunks msg =
    (i : ℕ) × (c : List ℕ) × (get_elem? chunks i ≡ some c) × (msg ≡ data_message (suc i) c)

pub some-injective : {a b : List ℕ} → ◌≡◌ {A = Option (List ℕ)} (some a) (some b) → a ≡ b
some-injective e = cc

pub lt_of_get :
    (chunks : List (List ℕ)) (i : ℕ) (c : List ℕ) → get_elem? chunks i ≡ some c → i < length chunks
lt_of_get [] i c e = cc
lt_of_get (a ∷ chunks) zero c e = omega arith
lt_of_get (a ∷ chunks) (suc i) c e = omega (arith, lt_of_get chunks i c e)

pub concat-take :
    (chunks : List (List ℕ)) (i : ℕ) (c : List ℕ)
    → get_elem? chunks i ≡ some c
    → concat (take (suc i) chunks) ≡ concat (take i chunks) ++ c
concat-take [] i c e = cc
concat-take (a ∷ chunks) zero c e = append-nil a ∙ some-injective e
concat-take (a ∷ chunks) (suc i) c e =
    ap (◌++◌ a) (concat-take chunks i c e) ∙ sym (append_assoc a (concat (take i chunks)) c)

-- A block has at most 512 bytes, and one with less is the last.
pub chunk_size :
    (chunks : List (List ℕ)) (i : ℕ) (c : List ℕ)
    → IsFile chunks
    → get_elem? chunks i ≡ some c
    → (length c ≤ 512) × (length c < 512 → suc i ≡ length chunks)
chunk_size [] i c f e = cc
chunk_size (a ∷ []) zero c f e =
    subst (λ (x : List ℕ). (length x ≤ 512) × (length x < 512 → ◌≡◌ {A = ℕ} 1 1)) (some-injective e)
      (omega (arith, f), (λ h. refl))
chunk_size (a ∷ []) (suc i) c f e = cc
chunk_size (a ∷ b ∷ chunks) zero c f e =
    let same : length a ≡ length c = ap length (some-injective e) in
    (omega (arith, same, f.0), (λ h. absurd (omega (arith, same, f.0, h))))
chunk_size (a ∷ b ∷ chunks) (suc i) c f e =
    let (most, last) = chunk_size (b ∷ chunks) i c f.1 e in (most, (λ h. ap suc (last h)))

length-bytes :
    (o : Option (List ℕ)) (size offset : ℕ)
    → Owns o size
    → offset ≤ size
    → length (take offset (bytes o)) ≡ offset
length-bytes none size offset e h =
    let z : 0 ≡ offset = omega (arith, e, h) in
    subst (λ (n : ℕ). length {A = ℕ} (take n []) ≡ n) z refl
length-bytes (some block) size offset (e, pos) h = omega (arith, length-take offset block, e, h)

pub length-contents : (b : DownloadBuffer) → IsValid b → length (contents b) ≡ b.offset
length-contents b v = length-bytes b.buffer b.size b.offset v.owns v.fits

pub offset_grown :
    (d : TftpDialogue) (c : List ℕ) (b : DownloadBuffer)
    → IsValid d.buffer
    → IsValid b
    → contents b ≡ contents d.buffer ++ c
    → b.offset ≡ d.buffer.offset + length c
offset_grown d c b v v' grown =
    sym (length-contents b v')
    ∙ ap length grown
    ∙ length-append (contents d.buffer) c
    ∙ ap (λ (n : ℕ). n + length c) (length-contents d.buffer v)

-- With the header, a message of at least 512 bytes.
abbrev pub IsLong : List ℕ → Type 0
IsLong c = 508 ≤ length c

pub All-get :
    (chunks : List (List ℕ)) (i : ℕ) (c : List ℕ)
    → All IsLong chunks
    → get_elem? chunks i ≡ some c
    → IsLong c
All-get [] i c h e = cc
All-get (a ∷ chunks) zero c h e = subst IsLong (some-injective e) h.0
All-get (a ∷ chunks) (suc i) c h e = All-get chunks i c h.1 e
