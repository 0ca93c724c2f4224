-- ===== src/DownloadBuffer.antt =====
-- nepenthes-core/src/DownloadBuffer.cpp: the buffer that a download is stored in. `buffer` is what
-- `m_Buffer` points to, `none` for NULL; `malloc` is the C library's, `none` when it fails.
pub mod Contents
pub mod Limits
pub mod Supply
mod Tests
use nepenthes.Base.{
  ℕ, zero, suc, ◌+◌, ◌-◌, ◌%◌, ◌^◌, ◌≡◌, ◌==◌, ltb, if◌then◌else◌, Bool, true, false, List, [], ◌∷◌,
  length, take, replicate, Option, some, none, Outcome, done, fault, running, ◌>>=◌, memcpy,
  memmove,
}

pub record Malloc : Type 0 where
  pub run : ℕ → Option (List ℕ)
  pub length-run : (n : ℕ) (block : List ℕ) → run n ≡ some block → length block ≡ n

pub record DownloadBuffer : Type 0 where
  pub buffer : Option (List ℕ)
  pub size : ℕ
  pub offset : ℕ

unfoldable pub new : DownloadBuffer
new = record { buffer = none; size = 0; offset = 0 }

-- while(m_BufferOffset + iDataLen > m_BufferSize) m_BufferSize += m_BufferSize;
pub grow : ℕ → ℕ → ℕ → Outcome ℕ
grow zero total size = running
grow (suc fuel) total size =
    let rest = grow fuel total ((size + size) % 2 ^ 32) in
    if ltb size total then rest else done size

module _ (m : Malloc) where
  pub init : DownloadBuffer → ℕ → DownloadBuffer × Bool
  init b i =
      let size : ℕ = if i == 0 then 65536 else i in
      (
        record { buffer = m.run size; size = size; offset = 0 },
        elim (m.run size) [ none ↦ false | some block ↦ true ],
      )

  -- The larger block: `malloc`, `memset` to 0 and `memcpy` of the bytes in use. The test for NULL
  -- is on the old pointer, not on the new one, which is written to in any case.
  pub enlarge : Option (List ℕ) → Option (List ℕ) → DownloadBuffer → Outcome (DownloadBuffer × Bool)
  enlarge none fresh b = done (b, false)
  enlarge (some old) none b = fault
  enlarge (some old) (some fresh) b = do
    block ← memcpy (replicate (length fresh) 0) 0 (take b.offset old)
    done (record b { buffer = some block }, true)

  -- memcpy(m_Buffer+m_BufferOffset,pszData,iDataLen): with a null pointer a fault, unless there is
  -- nothing to copy.
  pub copy_in : Option (List ℕ) → ℕ → List ℕ → Outcome (Option (List ℕ))
  copy_in none off [] = done none
  copy_in none off (x ∷ d) = fault
  copy_in (some block) off d = do block' ← memcpy block off d; done (some block')

  pub write : DownloadBuffer → List ℕ → Outcome (DownloadBuffer × Bool)
  unfolding copy_in
  write b d = do
    buffer ← copy_in b.buffer b.offset d
    done (record b { buffer = buffer; offset = (b.offset + length d) % 2 ^ 32 }, true)

  pub grow_and_write : DownloadBuffer → List ℕ → ℕ → Outcome (DownloadBuffer × Bool)
  grow_and_write b d total = do
    size ← grow 33 total b.size
    r ← enlarge b.buffer (m.run size) (record b { size = size })
    if r.1 then write r.0 d else done r

  pub add_ready : DownloadBuffer → List ℕ → Outcome (DownloadBuffer × Bool)
  add_ready b d =
      let total = (b.offset + length d) % 2 ^ 32 in
      if ltb b.size total then grow_and_write b d total else write b d

  pub add_data : DownloadBuffer → List ℕ → Outcome (DownloadBuffer × Bool)
  add_data b d =
      let (b', ready) = if b.size == 0 then init b 65536 else (b, true) in
      if ready then add_ready b' d else done (b', false)

pub move_front : Option (List ℕ) → ℕ → ℕ → Outcome (Option (List ℕ))
move_front none from zero = done none
move_front none from (suc n) = fault
move_front (some block) from n = do block' ← memmove block from n; done (some block')

pub cut_front : DownloadBuffer → ℕ → Outcome (DownloadBuffer × Bool)
unfolding move_front
cut_front b n = if ltb b.offset n then done (b, false) else (do
  buffer ← move_front b.buffer n (b.offset - n)
  done (record b { buffer = buffer; offset = b.offset - n }, true))
