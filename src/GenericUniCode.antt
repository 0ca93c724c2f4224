-- ===== src/GenericUniCode.antt =====
-- modules/shellcode-generic/sch_generic_unicode.cpp: shellcode that is widened, each byte behind a zero
-- byte, is narrowed. A message is the list of its bytes; malloc() gives the block.
pub mod Narrowing
pub mod Widened
pub mod Relation
mod Unique
pub mod Search
mod Tests
use nepenthes.Base.{
  ℕ, zero, suc, ◌+◌, ◌/◌, ◌==◌, ltb, if◌then◌else◌, Bool, true, false, ◌&&◌, List, [], ◌∷◌, length,
  take, drop, replicate, Outcome, done, running, ◌>>=◌, memcpy,
}
use nepenthes.ShellcodeManager.{SchResult, sch_nothing, sch_reprocess}

-- uni and maxuni: the zeros of the run that was begun, and those of the longest run that has ended.
pub record Runs : Type 0 where
  pub uni : ℕ
  pub maxuni : ℕ

pub count_byte : Runs → ℕ → Runs
count_byte r c =
    if c == 0
    then record r { uni = r.uni + 1 }
    else record { uni = 0; maxuni = if ltb r.maxuni r.uni then r.uni else r.maxuni }

-- for ( i=0;i<len;i+=2 ) on the whole message, and from i=1 on what is behind its first byte
pub count_runs : Runs → List ℕ → Runs
count_runs r [] = r
count_runs r (c ∷ []) = count_byte r c
count_runs r (c ∷ d ∷ s) = count_runs (count_byte r c) s

pub longest_run : List ℕ → ℕ
longest_run msg = (count_runs (count_runs (record { uni = 0; maxuni = 0 }) msg) (drop 1 msg)).maxuni

-- The loop of unicodeLength; `behind_zero` is its state 1.
pub unicode_length : Bool → List ℕ → ℕ
unicode_length behind_zero [] = 0
unicode_length true (c ∷ s) = suc (unicode_length false s)
unicode_length false (c ∷ s) = let rest = unicode_length true s in if c == 0 then suc rest else 0

-- *unicode == 0, and size > 10
pub is_wide : List ℕ → Bool
is_wide [] = false
is_wide (c ∷ s) = c == 0 && ltb 10 (unicode_length false (c ∷ s))

-- unicode[i*2+1]
pub low_bytes : List ℕ → List ℕ
low_bytes [] = []
low_bytes (c ∷ []) = []
low_bytes (c ∷ d ∷ s) = d ∷ low_bytes s

-- The loop of unicodeTryDecode: what is left to read, the block and the bytes written to it.
pub decode_loop : ℕ → List ℕ → List ℕ → ℕ → Outcome (List ℕ × ℕ)
decode_loop fuel [] block n = done (block, n)
decode_loop zero (c ∷ s) block n = running
decode_loop (suc fuel) (c ∷ s) block n =
    let size = unicode_length false (c ∷ s) in
    elim (is_wide (c ∷ s)) [
      | true ↦ (do
        block' ← memcpy block n (low_bytes (take size (c ∷ s)))
        decode_loop fuel (drop size (c ∷ s)) block' (n + size / 2))
      | false ↦ (do block' ← memcpy block n (c ∷ []); decode_loop fuel s block' (n + 1))
    ]

pub unicode_try_decode : List ℕ → Outcome (List ℕ × ℕ)
unicode_try_decode msg = decode_loop (length msg) msg (replicate (length msg) 0x90) 0

-- The answer, and the message that takes the place of the old one.
pub handle_shellcode : List ℕ → Outcome (SchResult × List ℕ)
handle_shellcode msg =
    if ltb 2000 (longest_run msg)
    then (do (block, n) ← unicode_try_decode msg; done (sch_reprocess, take n block))
    else done (sch_nothing, msg)
