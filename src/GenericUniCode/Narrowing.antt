-- ===== src/GenericUniCode/Narrowing.antt =====
-- The narrowing without the block, and that the block has room for it.
use mathlib.Core.List.{append_assoc, append-nil}
use nepenthes.Base.{
  ℕ, zero, suc, ◌+◌, ◌/◌, ◌≤◌, ◌<◌, ◌≡◌, ◌∙◌, refl, sym, ap, subst, arith, Bool-cases, inl, inr,
  Bool, true, false, List, [], ◌∷◌, ◌++◌, length, length-append, length-take, length-drop,
  length-replicate, take, drop, replicate, Outcome, done, ◌>>=◌, memcpy, memcpy_lem,
}
use nepenthes.GenericUniCode.{is_wide, unicode_length, low_bytes, decode_loop, unicode_try_decode}

-- The bytes that the loop writes.
unfoldable pub narrow_within : ℕ → List ℕ → List ℕ
narrow_within fuel [] = []
narrow_within zero (c ∷ s) = []
narrow_within (suc fuel) (c ∷ s) =
    let size = unicode_length false (c ∷ s) in
    elim (is_wide (c ∷ s)) [
      | true ↦ low_bytes (take size (c ∷ s)) ++ narrow_within fuel (drop size (c ∷ s))
      | false ↦ c ∷ narrow_within fuel s
    ]

length-low_bytes : (s : List ℕ) → length (low_bytes s) ≡ length s / 2
unfolding low_bytes
length-low_bytes [] = refl
length-low_bytes (c ∷ []) = refl
length-low_bytes (c ∷ d ∷ s) = omega (arith, length-low_bytes s)

unicode_length-bound : (b : Bool) (s : List ℕ) → unicode_length b s ≤ length s
unfolding unicode_length
unicode_length-bound b [] = omega arith
unicode_length-bound true (c ∷ s) = omega (arith, unicode_length-bound false s)
unicode_length-bound false (c ∷ s) = ground (arith, unicode_length-bound true s)

-- What a loop leaves that writes `out` behind `n` bytes of the block.
abbrev pub Writes : Outcome (List ℕ × ℕ) → List ℕ → ℕ → List ℕ → Type 0
Writes m block n out =
    (block' : List ℕ) × (m ≡ done (block', n + length out))
    × (length block' ≡ length block)
    × (take (n + length out) block' ≡ take n block ++ out)

-- A copy, and what is written behind it.
write_then :
    (block : List ℕ) (n : ℕ) (src out : List ℕ) (rest : List ℕ → Outcome (List ℕ × ℕ))
    → n + length src ≤ length block
    → ((block' : List ℕ)
        → length block' ≡ length block
        → Writes (rest block') block' (n + length src) out)
    → Writes (memcpy block n src >>= rest) block n (src ++ out)
write_then block n src out rest fits go =
    let (block', e, same, holds) = memcpy_lem block n src fits in
    let (block'', e', same', holds') = go block' same in
    let k : n + length src + length out ≡ n + length (src ++ out) =
      omega (arith, length-append src out) in
    (
      block'',
      rw (e) (e' ∙ ap (λ m. done (block'', m)) k),
      same' ∙ same,
      ap (λ m. take m block'') (sym k)
          ∙ holds'
          ∙ ap (λ x. x ++ out) holds
          ∙ append_assoc (take n block) src out,
    )

pub wide-long : (c : ℕ) (s : List ℕ) → is_wide (c ∷ s) ≡ true → 10 < unicode_length false (c ∷ s)
unfolding is_wide
wide-long c s e = ground (arith, e)

decode_loop-Writes :
    (fuel : ℕ) (s block : List ℕ) (n : ℕ)
    → length s ≤ fuel
    → n + length s ≤ length block
    → Writes (decode_loop fuel s block n) block n (narrow_within fuel s)
unfolding decode_loop narrow_within
decode_loop-Writes fuel [] block n less room = (
  block,
  ap (λ m. done (block, m)) (omega arith),
  refl,
  ap (λ m. take m block) (omega arith) ∙ sym (append-nil (take n block)),
)
decode_loop-Writes zero (c ∷ s) block n less room = absurd (omega (arith, less))
decode_loop-Writes (suc fuel) (c ∷ s) block n less room =
    let size = unicode_length false (c ∷ s) in
    elim (Bool-cases (is_wide (c ∷ s))) [
      | inl wide ↦
          let src = low_bytes (take size (c ∷ s)) in
          let left = drop size (c ∷ s) in
          let bound = unicode_length-bound false (c ∷ s) in
          let half : length src ≡ size / 2 =
            length-low_bytes (take size (c ∷ s))
            ∙ ap (λ k. k / 2) (omega (arith, length-take size (c ∷ s), bound)) in
          let some : 10 < size = wide-long c s wide in
          rw (wide, decode_loop, narrow_within)
            (write_then block n src (narrow_within fuel left)
              (λ block'. decode_loop fuel left block' (n + size / 2))
              (omega (arith, room, half, bound))
              (λ block' same.
                subst
                  (λ k.
                    Writes (decode_loop fuel left block' (n + k)) block' (n + length src)
                      (narrow_within fuel left))
                  half
                  (decode_loop-Writes fuel left block' (n + length src)
                    (omega (arith, less, some, length-drop size (c ∷ s)))
                    (omega (arith, room, same, half, bound, length-drop size (c ∷ s))))))
      | inr plain ↦
          rw (plain, decode_loop, narrow_within)
            (write_then block n (c ∷ []) (narrow_within fuel s)
              (λ block'. decode_loop fuel s block' (n + 1)) (omega (arith, room))
              (λ block' same.
                decode_loop-Writes fuel s block' (n + 1) (omega (arith, less))
                  (omega (arith, room, same))))
    ]

length-narrow_within : (fuel : ℕ) (s : List ℕ) → length (narrow_within fuel s) ≤ length s
unfolding narrow_within
length-narrow_within fuel [] = omega arith
length-narrow_within zero (c ∷ s) = omega arith
length-narrow_within (suc fuel) (c ∷ s) =
    let size = unicode_length false (c ∷ s) in
    elim (Bool-cases (is_wide (c ∷ s))) [
      | inl wide ↦
          rw (wide, narrow_within)
            (omega (
              arith,
              length-append (low_bytes (take size (c ∷ s)))
                  (narrow_within fuel (drop size (c ∷ s))),
              length-low_bytes (take size (c ∷ s)),
              length-take size (c ∷ s),
              length-drop size (c ∷ s),
              length-narrow_within fuel (drop size (c ∷ s)),
              unicode_length-bound false (c ∷ s),
            ))
      | inr plain ↦ rw (plain, narrow_within) (omega (arith, length-narrow_within fuel s))
    ]

abbrev pub narrow : List ℕ → List ℕ
narrow msg = narrow_within (length msg) msg

-- Whatever the message is, the decoding returns, reads only the message and writes only its block, no
-- more bytes than the message has; those that it counts are the narrowed message.
pub unicode_try_decode-narrow :
    (msg : List ℕ)
    → (block : List ℕ) × (n : ℕ) × (unicode_try_decode msg ≡ done (block, n))
      × (n ≤ length msg)
      × (length block ≡ length msg)
      × (take n block ≡ narrow msg)
unfolding unicode_try_decode
unicode_try_decode-narrow msg =
    let size : length (replicate (length msg) 0x90) ≡ length msg =
      length-replicate (length msg) 0x90 in
    let (block, e, same, holds) : Writes
        (decode_loop (length msg) msg (replicate (length msg) 0x90) 0) (replicate (length msg) 0x90)
        0 (narrow msg) =
      decode_loop-Writes (length msg) msg (replicate (length msg) 0x90) 0 (omega arith)
        (omega (arith, size)) in
    (
      block,
      0 + length (narrow msg),
      e,
      omega (arith, length-narrow_within (length msg) msg),
      same ∙ size,
      holds,
    )
