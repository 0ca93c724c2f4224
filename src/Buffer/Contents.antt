-- ===== src/Buffer/Contents.antt =====
-- The buffer as the byte string that it holds: `add` appends to it, `cut` drops from its front.
use nepenthes.Base.Int.{pos, negsuc, int_leb-signed32, int_leb-signed32_gt, int_leb-negsuc}
use nepenthes.Base.{
  ℕ, zero, suc, ◌+◌, ◌-◌, ◌%◌, ◌^◌, ◌≤◌, ◌<◌, ◌≡◌, ==-suc-zero, arith, refl, sym, ◌∙◌, ◌>>=◌, List,
  [], ◌∷◌, ◌++◌, length, take, drop, Outcome, done, aborted, inl, inr, ltb, Bool-cases, ltb→lt,
  lt→ltb, Realloc, memcpy_lem, memmove_lem, take-drop, ◌==◌, ==-suc-zero,
}
use mathlib.Core.List.{append-nil}
use nepenthes.Buffer.{new, Buffer, reset, resize, store, add_to_block, add, cut, pad}
use nepenthes.Buffer.Growth.{grow-done, pad_bounds}

-- The bytes in use.
abbrev pub contents : Buffer → List ℕ
contents b = take b.offset b.bytes

pub record IsValid (b : Buffer) : Type 0 where
  pub sized : length b.bytes ≡ b.alloc_size
  pub fits : b.offset ≤ b.alloc_size
  pub blocks : b.alloc_size % 256 ≡ 0
  pub width : b.alloc_size < 2 ^ 32

pub reset-IsValid : IsValid reset
unfolding reset
reset-IsValid = omega arith

-- What a call leaves that is meant to make `after` the contents.
abbrev pub Holds : Outcome Buffer → List ℕ → Type 0
Holds m after = (b' : Buffer) × (m ≡ done b') × IsValid b' × (contents b' ≡ after)

module _ (r : Realloc) where
  -- A larger block keeps the contents.
  pub resize_lem :
      (b : Buffer) (n : ℕ)
      → IsValid b
      → b.alloc_size < n
      → n ≤ 2 ^ 32 - 256
      → (b' : Buffer) × (resize r b n ≡ done b')
        × IsValid b'
        × (contents b' ≡ contents b)
        × (b'.offset ≡ b.offset)
        × (n ≤ b'.alloc_size)
  unfolding resize
  resize_lem b n v more fits =
      let p = pad_bounds n fits in
      (
        record b { bytes = r.run b.bytes (pad n); alloc_size = pad n },
        rw (lt→ltb _ _ more),
        record {
          sized = r.length-run b.bytes (pad n);
          fits = omega (arith, v.fits, p);
          blocks = p.2;
          width = omega (arith, p);
        },
        r.take-run b.bytes (pad n) b.offset (omega (arith, v.fits, v.sized))
            (omega (arith, v.fits, p)),
        refl,
        p.0,
      )

  -- A new buffer is valid and holds nothing.
  pub new-Holds : (n : ℕ) → n ≤ 2 ^ 32 - 256 → Holds (new r n) []
  unfolding new reset
  new-Holds zero fits = (reset, refl, reset-IsValid, refl)
  new-Holds (suc n) fits =
      let (b, runs, v, same, _, _) = resize_lem reset (suc n) reset-IsValid (omega arith) fits in
      (b, rw (==-suc-zero n) runs, v, same)

  store_lem :
      (b : Buffer) (d : List ℕ)
      → IsValid b
      → b.offset + length d ≤ b.alloc_size
      → Holds (store r b d) (contents b ++ d)
  unfolding store
  store_lem b d v fits =
      let (bytes, runs, same, holds) = memcpy_lem b.bytes b.offset d (omega (arith, v.sized)) in
      let e : (b.offset + length d) % 2 ^ 32 ≡ b.offset + length d = omega (arith, v.width) in
      (
        record b { bytes = bytes; offset = (b.offset + length d) % 2 ^ 32 },
        rw runs,
        record { sized = same ∙ v.sized; fits = rw e fits; blocks = v.blocks; width = v.width },
        rw e holds,
      )

  resize_store_lem :
      (b : Buffer) (n : ℕ) (d : List ℕ)
      → IsValid b
      → b.alloc_size < n
      → n ≤ 2 ^ 32 - 256
      → b.offset + length d ≤ n
      → (b' : Buffer) × (resize r b n ≡ done b') × Holds (store r b' d) (contents b ++ d)
  resize_store_lem b n d v more fits room =
      let (b', runs, v', same, off, big) = resize_lem b n v more fits in
      (b', runs, rw (← same) (store_lem b' d v' (omega arith)))

  add_to_block-contents :
      (b : Buffer) (d : List ℕ)
      → IsValid b
      → 0 < b.alloc_size
      → b.offset + length d ≤ 2 ^ 31
      → Holds (add_to_block r b d) (contents b ++ d)
  unfolding add_to_block
  add_to_block-contents b d v some_block fits =
      let total = (b.offset + length d) % 2 ^ 32 in
      let e : total ≡ b.offset + length d = omega arith in
      elim (Bool-cases (ltb b.alloc_size total)) [
        | inl more ↦
            let (n, grows, enough, above, small, blocks) =
              grow-done 32 total b.alloc_size v.width (omega (arith, e))
                (omega (arith, v.blocks)) in
            let larger : b.alloc_size < n = omega (arith, ltb→lt _ _ more) in
            let (b', runs, holds) =
              resize_store_lem b n d v larger (omega (arith, blocks v.blocks)) (omega (arith, e)) in
            rw (more, grows, ◌>>=◌, runs) holds
        | inr room ↦ rw room (store_lem b d v (ground (arith, e)))
      ]

  -- Appending to a valid buffer works up to 2^31 bytes in all: whichever of its ways `add` takes
  -- (nothing to add, a first block, room left, a block that is doubled until it is large enough),
  -- it returns, writes only inside the block, and the bytes are appended to the contents; the
  -- buffer stays valid.
  pub add-contents :
      (b : Buffer) (d : List ℕ)
      → IsValid b
      → b.offset + length d ≤ 2 ^ 31
      → Holds (add r b d) (contents b ++ d)
  unfolding add
  add-contents b [] v fits = (b, refl, v, sym (append-nil (contents b)))
  add-contents b (x ∷ d) v fits =
      rw (==-suc-zero (length d)) (elim (Bool-cases (b.alloc_size == 0)) [
        | inl empty ↦
            let (b', runs, holds) =
              resize_store_lem b (length (x ∷ d)) (x ∷ d) v (ground arith) (omega arith)
                (ground arith) in
            rw (empty, ◌>>=◌, runs) holds
        | inr block ↦ rw block (add_to_block-contents b (x ∷ d) v (ground arith) fits)
      ])

-- In a valid buffer of less than 2^31 bytes, cutting a number of bytes that are there drops them
-- from the front of the contents, and the buffer stays valid.
pub cut-contents :
    (b : Buffer) (n : ℕ)
    → IsValid b
    → n ≤ b.offset
    → b.offset < 2 ^ 31
    → Holds (cut b (pos n)) (drop n (contents b))
unfolding cut
cut-contents b zero v have small = (b, rw (int_leb-signed32 0 b.offset have small), v, refl)
cut-contents b (suc n) v have small =
    let (bytes, runs, same, moved) =
      memmove_lem b.bytes (suc n) (b.offset - suc n) (omega (arith, v.sized, v.fits)) in
    (
      record b { bytes = bytes; offset = b.offset - suc n },
      rw (int_leb-signed32 (suc n) b.offset have small, runs),
      record {
        sized = same ∙ v.sized;
        fits = omega (arith, v.fits);
        blocks = v.blocks;
        width = v.width;
      },
      moved ∙ take-drop (suc n) (b.offset - suc n) b.offset b.bytes (omega arith),
    )

-- In a buffer of less than 2^31 bytes, a number below 2^31 that is not there is stopped by the
-- assertion, and a negative number changes nothing.
pub cut_refused :
    (b : Buffer) (n : ℕ)
    → b.offset < 2 ^ 31
    → (b.offset < n → n < 2 ^ 31 → cut b (pos n) ≡ aborted) × (cut b (negsuc n) ≡ done b)
unfolding cut
cut_refused b zero small = (λ h h'. absurd (omega arith), rw (int_leb-negsuc 0 b.offset small))
cut_refused b (suc n) small = (
  λ h h'. rw (int_leb-signed32_gt (suc n) b.offset h h' small),
  rw (int_leb-negsuc (suc n) b.offset small),
)
