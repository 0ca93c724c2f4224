-- ===== src/BagleDialogue.antt =====
-- modules/vuln-bagle/BagleDialogue.cpp: the back door of the Bagle worm. A message is the list of its
-- bytes; what the dialogue answers and gives to the download manager is collected in order. The
-- buffers are Buffer and DownloadBuffer; isprint() and strncasecmp() are those of the C locale.
pub mod Auth
pub mod Binary
mod Tests
use nepenthes.Base.{
  ℕ, zero, suc, ◌+◌, ◌*◌, ltb, leb, ◌==◌, if◌then◌else◌, Bool, true, false, ◌&&◌, ◌||◌, List, [],
  ◌∷◌, ◌++◌, length, take, drop, codes, starts_with, Option, some, none, Outcome, done, fault,
  ◌>>=◌, Realloc,
}
use nepenthes.Buffer
use nepenthes.Buffer.{Buffer, reset, add}
use nepenthes.DownloadBuffer.{DownloadBuffer, Malloc, new, add_data}
use nepenthes.TcpSocket.{ConsumeLevel, cl_drop, cl_assign, cl_assign_and_done}

pub data BagleState : Type 0 where
  bagle_auth bagle_referrer bagle_binary : BagleState

-- `download` is the buffer of m_Download, `none` for NULL.
pub record BagleDialogue : Type 0 where
  pub state : BagleState
  pub buffer : Buffer
  pub file_size : ℕ
  pub download : Option DownloadBuffer

pub data Effect : Type 0 where
  respond download_url : List ℕ → Effect
  submit : DownloadBuffer → Effect

pub record Turn : Type 0 where
  pub dialogue : BagleDialogue
  pub effects : List Effect
  pub level : ConsumeLevel

abbrev pub first_auth : List ℕ
first_auth =
    0x43 ∷ 0xFF ∷ 0xFF ∷ 0xFF ∷ 0x30 ∷ 0x30 ∷ 0x30 ∷ 0x01 ∷ 0x0A ∷ 0x1F ∷ 0x2B ∷ 0x28 ∷ 0x2B ∷ 0xA1
    ∷ 0x32 ∷ 0x01 ∷ []

abbrev pub second_auth : List ℕ
second_auth =
    0x43 ∷ 0xFF ∷ 0xFF ∷ 0xFF ∷ 0x30 ∷ 0x30 ∷ 0x30 ∷ 0x01 ∷ 0x0A ∷ 0x28 ∷ 0x91 ∷ 0xA1 ∷ 0x2B ∷ 0xE6
    ∷ 0x60 ∷ 0x2F ∷ 0x32 ∷ 0x8F ∷ 0x60 ∷ 0x15 ∷ 0x1A ∷ 0x20 ∷ 0x1A ∷ []

-- The size is large enough, and memcmp() finds no difference.
pub begins_with : List ℕ → ℕ → List ℕ → Bool
begins_with auth size used = leb (length auth) size && starts_with auth used

pub is_known : ℕ → List ℕ → Bool
is_known size used = begins_with first_auth size used || begins_with second_auth size used

pub lower : ℕ → ℕ
lower c = if leb 65 c && leb c 90 then c + 32 else c

-- strncasecmp(text, word, strlen(word)) == 0
pub is_case_prefix : List ℕ → List ℕ → Bool
is_case_prefix [] text = true
is_case_prefix (c ∷ word) [] = false
is_case_prefix (c ∷ word) (d ∷ text) =
    (leb c (lower d) && leb (lower d) c) && is_case_prefix word text

-- The url ends before the first character that is not printable.
pub printable : List ℕ → List ℕ
printable [] = []
printable (c ∷ s) = let rest = printable s in if leb 32 c && leb c 126 then c ∷ rest else []

module _ (r : Realloc) where
  -- The constructor; `size` is what m_FileSize holds, which it does not set.
  pub new_dialogue : ℕ → Outcome BagleDialogue
  new_dialogue size = do
    b ← Buffer.new r 64
    done (record { state = bagle_auth; buffer = b; file_size = size; download = none })

  pub auth : BagleDialogue → List ℕ → Outcome Turn
  auth d msg = do
    b ← add r d.buffer msg
    (if is_known b.offset (take b.offset b.bytes)
        then done (record {
          dialogue = record d { state = bagle_referrer; buffer = reset };
          effects = respond (codes "12345678") ∷ [];
          level = cl_assign;
        })
        else done (record {
          dialogue = record d { buffer = b };
          effects = [];
          level = if ltb 128 b.offset then cl_drop else cl_assign;
        }))

module _ (m : Malloc) where
  -- ntohs() of the first two bytes; the bytes behind the fourth are stored.
  pub binary_start : BagleDialogue → List ℕ → Outcome Turn
  binary_start d (a ∷ b ∷ x ∷ y ∷ code) = do
    down ← add_data m new code
    done (record {
      dialogue = record d { state = bagle_binary; file_size = a * 256 + b; download = some down.0 };
      effects = [];
      level = cl_assign_and_done;
    })
  binary_start d msg = done (record { dialogue = d; effects = []; level = cl_assign })

  pub referrer : BagleDialogue → List ℕ → Outcome Turn
  referrer d msg =
      if (ltb 4 (length msg) && is_case_prefix (codes "http") msg)
        || (ltb 3 (length msg) && is_case_prefix (codes "ftp") msg)
      then done (record {
        dialogue = d;
        effects = download_url (printable msg) ∷ [];
        level = cl_assign_and_done;
      })
      else binary_start d msg

  pub binary : BagleDialogue → List ℕ → Outcome Turn
  binary d msg = elim d.download [
    | none ↦ fault
    | some down ↦ do
      down' ← add_data m down msg
      done (record {
        dialogue = record d { download = some down'.0 };
        effects = [];
        level = cl_assign_and_done;
      })
  ]

module _ (r : Realloc) (m : Malloc) where
  pub incoming_data : BagleDialogue → List ℕ → Outcome Turn
  incoming_data d msg = elim d.state [
    | bagle_auth ↦ auth r d msg
    | bagle_referrer ↦ referrer m d msg
    | bagle_binary ↦ binary m d msg
  ]

  -- The messages as the socket delivers them, until the dialogue drops itself.
  pub run : BagleDialogue → List (List ℕ) → Outcome (BagleDialogue × List Effect)
  run d [] = done (d, [])
  run d (msg ∷ msgs) = do
    t ← incoming_data d msg
    rest ← elim t.level as (λ l. Outcome (BagleDialogue × List Effect)) [
      | cl_drop ↦ done (t.dialogue, [])
      | _ ↦ run t.dialogue msgs
    ]
    done (rest.0, t.effects ++ rest.1)

-- A binary of the announced size is submitted.
pub shutdown_effects : ℕ → Option DownloadBuffer → List Effect
shutdown_effects size none = []
shutdown_effects size (some down) = if down.offset == size then submit down ∷ [] else []

pub connection_shutdown : BagleDialogue → Turn
connection_shutdown d = record {
  dialogue = d;
  effects = shutdown_effects d.file_size d.download;
  level = cl_drop;
}
