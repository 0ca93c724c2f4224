-- ===== src/DownloadBuffer/Contents.antt =====
-- The download buffer as the byte string that it holds.
use mathlib.Core.List.{append-nil}
use nepenthes.Base.{
  ℕ, zero, suc, ◌+◌, ◌-◌, ◌*◌, ◌%◌, ◌^◌, ◌≤◌, ◌<◌, ◌≡◌, arith, refl, sym, ap, ◌∙◌, ◌>>=◌, Bool,
  true, false, List, [], ◌∷◌, ◌++◌, length, take, drop, replicate, length-take, length-replicate,
  take-nil, Option, some, none, Outcome, done, inl, inr, ltb, Bool-cases, ltb→lt, lt→ltb, le→ltb,
  memcpy_lem, memmove_lem, take-drop, ◌==◌,
}
use nepenthes.Buffer.Growth.{doubled}
use nepenthes.DownloadBuffer.{
  DownloadBuffer, Malloc, grow, init, enlarge, write, grow_and_write, add_ready, add_data,
  cut_front, new,
}

-- A pointer that is NULL before the first allocation, and then owns a block of the noted size.
abbrev pub Owns : Option (List ℕ) → ℕ → Type 0
Owns none size = size ≡ 0
Owns (some block) size = (length block ≡ size) × (0 < size)

pub record IsValid (b : DownloadBuffer) : Type 0 where
  pub owns : Owns b.buffer b.size
  pub fits : b.offset ≤ b.size
  pub width : b.size < 2 ^ 32

abbrev pub bytes : Option (List ℕ) → List ℕ
bytes none = []
bytes (some block) = block

abbrev pub contents : DownloadBuffer → List ℕ
contents b = take b.offset (bytes b.buffer)

pub new-IsValid : IsValid new
unfolding new
new-IsValid = omega arith

-- The call succeeds, and makes `after` the contents.
abbrev pub Holds : Outcome (DownloadBuffer × Bool) → List ℕ → Type 0
Holds r after = (b' : DownloadBuffer) × (r ≡ done (b', true)) × IsValid b' × (contents b' ≡ after)

-- The library gives every block that is asked for.
abbrev pub Succeeds : Malloc → Type 0
Succeeds m = (n : ℕ) → (block : List ℕ) × (m.run n ≡ some block)

-- The same with fields that are variables, so that the proofs can split on the pointer.
abbrev at : Option (List ℕ) → ℕ → ℕ → DownloadBuffer
at buffer size offset = record { buffer = buffer; size = size; offset = offset }

grow-more :
    (fuel total size : ℕ)
    → size < total
    → grow (suc fuel) total size ≡ grow fuel total ((size + size) % 2 ^ 32)
unfolding grow
grow-more fuel total size h = rw (lt→ltb _ _ h)

grow-stop : (fuel total size : ℕ) → total ≤ size → grow (suc fuel) total size ≡ done size
unfolding grow
grow-stop fuel total size h = rw (le→ltb _ _ h)

pub grow-done :
    (fuel total size : ℕ)
    → 0 < size
    → size < 2 ^ 32
    → total ≤ 2 ^ 31
    → total ≤ doubled fuel size
    → (n : ℕ) × (grow (suc fuel) total size ≡ done n) × (total ≤ n) × (size ≤ n) × (n < 2 ^ 32)
grow-done zero total size some_size small fits reach =
    (size, grow-stop zero total size reach, omega arith, omega arith, omega arith)
grow-done (suc fuel) total size some_size small fits reach = elim (Bool-cases (ltb size total)) [
  | inl more ↦
      let lt : size < total = ltb→lt _ _ more in
      let e : (size + size) % 2 ^ 32 ≡ size * 2 = omega arith in
      let (n, runs, enough, above, small') =
        grow-done fuel total (size * 2) (omega arith) (omega arith) fits reach in
      (
        n,
        grow-more (suc fuel) total size lt ∙ ap (grow (suc fuel) total) e ∙ runs,
        enough,
        omega arith,
        small',
      )
  | inr stop ↦
      let le : total ≤ size = ground arith in
      (size, grow-stop (suc fuel) total size le, le, omega arith, omega arith)
]

module _ (m : Malloc) where
  write_lem :
      (buffer : Option (List ℕ)) (size offset : ℕ) (d : List ℕ)
      → IsValid (at buffer size offset)
      → offset + length d ≤ size
      → Holds (write m (at buffer size offset) d) (take offset (bytes buffer) ++ d)
  unfolding write
  write_lem none size offset [] v fits = (
    at none size ((offset + 0) % 2 ^ 32),
    refl,
    record { owns = v.owns; fits = omega (arith, v.fits); width = v.width },
    take-nil ((offset + 0) % 2 ^ 32) ∙ sym (append-nil _ ∙ take-nil offset),
  )
  write_lem none size offset (x ∷ d) v fits = absurd (omega (arith, v.owns))
  write_lem (some block) size offset d v fits =
      let (block', runs, same, holds) = memcpy_lem block offset d (omega (arith, v.owns)) in
      let e : (offset + length d) % 2 ^ 32 ≡ offset + length d = omega (arith, v.width) in
      (
        at (some block') size ((offset + length d) % 2 ^ 32),
        rw runs,
        record { owns = (same ∙ v.owns.0, v.owns.1); fits = rw e fits; width = v.width },
        rw e holds,
      )

  -- The block after the doubling holds what the old one held, and zeros.
  enlarge_lem :
      (old fresh : List ℕ) (size offset n : ℕ)
      → IsValid (at (some old) size offset)
      → length fresh ≡ n
      → size ≤ n
      → n < 2 ^ 32
      → (block : List ℕ) × (enlarge m (some old) (some fresh) (at (some old) n offset)
          ≡ done (at (some block) n offset, true))
        × IsValid (at (some block) n offset)
        × (take offset block ≡ take offset old)
  unfolding enlarge
  enlarge_lem old fresh size offset n v sized larger small =
      let short : length (take offset old) ≡ offset =
        omega (arith, length-take offset old, v.owns, v.fits) in
      let at_offset : offset ≡ 0 + length (take offset old) = omega (arith, short) in
      let (block, runs, same, holds) =
        memcpy_lem (replicate (length fresh) 0) 0 (take offset old)
          (omega (arith, length-replicate {A = ℕ} (length fresh) 0, short, v.fits)) in
      (
        block,
        rw runs,
        record {
          owns = (same ∙ length-replicate (length fresh) 0 ∙ sized, omega (arith, v.owns));
          fits = omega (arith, v.fits);
          width = small;
        },
        ap (λ (k : ℕ). take k block) at_offset ∙ holds,
      )

  grow_and_write_lem :
      (buffer : Option (List ℕ)) (size offset : ℕ) (d : List ℕ) (total : ℕ)
      → Succeeds m
      → IsValid (at buffer size offset)
      → 0 < size
      → total ≡ offset + length d
      → total ≤ 2 ^ 31
      → Holds (grow_and_write m (at buffer size offset) d total) (take offset (bytes buffer) ++ d)
  unfolding grow_and_write
  grow_and_write_lem none size offset d total gives v some_size e fits =
      absurd (omega (arith, v.owns))
  grow_and_write_lem (some old) size offset d total gives v some_size e fits =
      let (n, grows, enough, above, small) =
        grow-done 32 total size some_size v.width fits (omega arith) in
      let (fresh, allocated) = gives n in
      let (block, moves, v', kept) =
        enlarge_lem old fresh size offset n v (m.length-run n fresh allocated) above small in
      rw (grows, ◌>>=◌, allocated, moves, ← kept)
        (write_lem (some block) n offset d v' (omega arith))

  add_ready_lem :
      (buffer : Option (List ℕ)) (size offset : ℕ) (d : List ℕ)
      → Succeeds m
      → IsValid (at buffer size offset)
      → 0 < size
      → offset + length d ≤ 2 ^ 31
      → Holds (add_ready m (at buffer size offset) d) (take offset (bytes buffer) ++ d)
  unfolding add_ready
  add_ready_lem buffer size offset d gives v some_size fits =
      let total = (offset + length d) % 2 ^ 32 in
      let e : total ≡ offset + length d = omega arith in
      elim (Bool-cases (ltb size total)) [
        | inl more ↦
            rw more
              (grow_and_write_lem buffer size offset d total gives v some_size e (omega (arith, e)))
        | inr room ↦ rw room (write_lem buffer size offset d v (ground (arith, e)))
      ]

  init-eq :
      (b : DownloadBuffer) (fresh : List ℕ)
      → m.run 65536 ≡ some fresh
      → init m b 65536 ≡ (at (some fresh) 65536 0, true)
  unfolding init
  init-eq b fresh e = rw e

  -- As long as the library gives memory, `addData` on a valid buffer succeeds up to 2^31 bytes in
  -- all, and appends the data to what the buffer holds: the first block, room left and the larger
  -- block included; the buffer stays valid.
  pub add_data-contents :
      (b : DownloadBuffer) (d : List ℕ)
      → Succeeds m
      → IsValid b
      → b.offset + length d ≤ 2 ^ 31
      → Holds (add_data m b d) (contents b ++ d)
  unfolding add_data
  add_data-contents b d gives v fits = elim (Bool-cases (b.size == 0)) [
    | inl empty ↦
        let (fresh, allocated) = gives 65536 in
        let none_yet : b.offset ≡ 0 = ground arith in
        let v' : IsValid (at (some fresh) 65536 0) = record {
          owns = (m.length-run 65536 fresh allocated, omega arith);
          fits = omega arith;
          width = omega arith;
        } in
        let contents_nil : contents b ≡ [] = ap (λ (k : ℕ). take k (bytes b.buffer)) none_yet in
        rw (empty, init-eq b fresh allocated, contents_nil)
          (add_ready_lem (some fresh) 65536 0 d gives v' (omega arith) (omega arith))
    | inr some_size ↦
        rw some_size (add_ready_lem b.buffer b.size b.offset d gives v (ground arith) fits)
  ]

cut_lem :
    (buffer : Option (List ℕ)) (size offset n : ℕ)
    → IsValid (at buffer size offset)
    → n ≤ offset
    → Holds (cut_front (at buffer size offset) n) (drop n (take offset (bytes buffer)))
unfolding cut_front
cut_lem none size zero zero v have = (at none size 0, refl, v, refl)
cut_lem none size zero (suc n) v have = absurd (omega arith)
cut_lem none size (suc offset) n v have = absurd (omega (arith, v.owns, v.fits))
cut_lem (some block) size offset n v have =
    let (block', runs, same, moved) =
      memmove_lem block n (offset - n) (omega (arith, v.owns, v.fits)) in
    (
      at (some block') size (offset - n),
      rw (le→ltb offset n have, runs),
      record { owns = (same ∙ v.owns.0, v.owns.1); fits = omega (arith, v.fits); width = v.width },
      moved ∙ take-drop n (offset - n) offset block (omega arith),
    )

-- On a valid buffer, `cutFront` drops the bytes from the front when there are so many, and the
-- buffer stays valid; otherwise it fails and leaves the buffer as it is.
pub cut_front-contents :
    (b : DownloadBuffer) (n : ℕ)
    → IsValid b
    → (n ≤ b.offset → Holds (cut_front b n) (drop n (contents b)))
      × (b.offset < n → cut_front b n ≡ done (b, false))
cut_front-contents b n v = (
  λ have. cut_lem b.buffer b.size b.offset n v have,
  λ missing. unfold cut_front in rw (lt→ltb _ _ missing),
)
