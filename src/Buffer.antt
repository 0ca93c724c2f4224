-- ===== src/Buffer.antt =====
-- nepenthes-core/src/Buffer.cpp: the growing byte buffer that the dialogues collect their input in.
-- `data` is the block behind `m_data`; sizes are `uint32_t` and wrap.
pub mod Growth
pub mod Contents
pub mod Limits
pub mod Refinement
mod Tests
use nepenthes.Base.Int.{ℤ, pos, negsuc, int_leb, signed32}
use nepenthes.Base.{
  ℕ, zero, suc, ◌+◌, ◌-◌, ◌*◌, ◌%◌, ◌^◌, ◌==◌, ltb, if◌then◌else◌, List, [], length, drop, Outcome,
  done, running, assert, ◌>>=◌, ◌>>◌, memcpy, memmove, Realloc,
}

pub record Buffer : Type 0 where
  pub bytes : List ℕ
  pub offset : ℕ
  pub alloc_size : ℕ

-- `reset`, and `clear`, which frees the block first.
unfoldable pub reset : Buffer
reset = record { bytes = []; offset = 0; alloc_size = 0 }

-- The next multiple of 0x100, in 32 bits.
pub pad : ℕ → ℕ
pad n = if n % 0x100 == 0 then n else (n + (0x100 - n % 0x100)) % 2 ^ 32

-- while( m_offset + size > newSize ) newSize <<= 1;
pub grow : ℕ → ℕ → ℕ → Outcome ℕ
grow zero total size = running
grow (suc fuel) total size =
    let rest = grow fuel total ((size * 2) % 2 ^ 32) in if ltb size total then rest else done size

module _ (r : Realloc) where
  pub resize : Buffer → ℕ → Outcome Buffer
  resize b new_size = do
    assert (ltb b.alloc_size new_size)
    done (record b { bytes = r.run b.bytes (pad new_size); alloc_size = pad new_size })

  -- new Buffer(initial_size)
  pub new : ℕ → Outcome Buffer
  new initial_size = if initial_size == 0 then done reset else resize reset initial_size

  -- The copy at the end of the used part, and `m_offset += size`.
  pub store : Buffer → List ℕ → Outcome Buffer
  store b d = do
    bytes ← memcpy b.bytes b.offset d
    done (record b { bytes = bytes; offset = (b.offset + length d) % 2 ^ 32 })

  pub add_to_block : Buffer → List ℕ → Outcome Buffer
  unfolding store
  add_to_block b d =
      let total = (b.offset + length d) % 2 ^ 32 in
      if ltb b.alloc_size total
      then (do size ← grow 33 total b.alloc_size; b' ← resize b size; store b' d)
      else store b d

  -- An empty buffer has offset 0, where the copy goes.
  pub add : Buffer → List ℕ → Outcome Buffer
  add b d =
      if length d == 0
      then done b
      else (if b.alloc_size == 0
          then (do b' ← resize b (length d); store b' d)
          else add_to_block b d)

-- A negative size passes the assertion and changes nothing.
pub cut : Buffer → ℤ → Outcome Buffer
cut b (pos zero) = assert (int_leb (pos 0) (signed32 b.offset)) >> done b
cut b (pos (suc n)) = do
  assert (int_leb (pos (suc n)) (signed32 b.offset))
  bytes ← memmove b.bytes (suc n) (b.offset - suc n)
  done (record b { bytes = bytes; offset = b.offset - suc n })
cut b (negsuc n) = assert (int_leb (negsuc n) (signed32 b.offset)) >> done b

-- getData(offset): the bytes from there on, the unused ones of the block included.
pub get_data : Buffer → ℕ → Outcome (List ℕ)
get_data b at = assert (ltb at b.offset) >> done (drop at b.bytes)
